-- ===== src/Base/Decimal.antt =====
-- `String(n)` of a natural number, and percentages with two decimals.
use Prim.Native.Char.{Char}
use Prim.Native.Nat.{ℕ, zero, suc, ◌+◌, ◌-◌, ◌*◌, ◌/◌, ◌%◌}
use Prim.Native.String.{String}
use mathlib.Core.Bool.{true, false}
use agentv.Base.Tests.{ltb, leb, ◌==◌, nat_eq, if◌then◌else◌}

abbrev digit : ℕ → Char
digit d =
    if d == 0
    then "0"
    else if d == 1
    then "1"
    else if d == 2
    then "2"
    else if d == 3
    then "3"
    else if d == 4
    then "4"
    else if d == 5
    then "5"
    else if d == 6
    then "6"
    else if d == 7
    then "7"
    else if d == 8
    then "8"
    else "9"

abbrev show_onto : ℕ → ℕ → String → String
show_onto zero n out = out
show_onto (suc k) n out = elim (ltb n 10) [
  | true ↦ String.◌∷◌ (digit n) out
  | false ↦ show_onto k (n / 10) (String.◌∷◌ (digit (n % 10)) out)
]

-- A number has at most as many digits as its successor says.
abbrev pub show : ℕ → String
show n = show_onto (suc n) n ""

-- `a / b` to the nearest number, a half upwards
abbrev pub rounded : ℕ → ℕ → ℕ
rounded a b = (2 * a + b) / (2 * b)

-- `Number((100 * part / whole).toFixed(2))` in hundredths of a percent
abbrev pub percent : ℕ → ℕ → ℕ
percent part whole = rounded (10000 * part) whole

-- A number that may be below 0.
pub data Signed : Type 0 where
  plus minus : ℕ → Signed

-- `Number((100 * (a - b) / whole).toFixed(2))` in hundredths of a percent
abbrev pub signed_percent : ℕ → ℕ → ℕ → Signed
signed_percent a b whole =
    if leb b a then plus (percent (a - b) whole) else minus (percent (b - a) whole)
