-- ===== src/Base/Text.antt =====
-- Texts as the program reads them: by character, by prefix, by a test on every character.
-- A text stands in the basic multilingual plane, where a character is one UTF-16 unit.
use Prim.Native.Char.{code}
use agentv.Base.Tests.{leb, ◌==◌, nat_eq, if◌then◌else◌}
use Prim.Native.Nat.{ℕ, zero, suc, ◌≤◌}
use mathlib.Core.Option.{Option, none, some}
use Prim.Native.String.{String}
use Prim.Native.String
use mathlib.Core.Bool.{Bool, true, false, ◌&&◌, ◌||◌}
use mathlib.Core.List.{List, [], ◌∷◌}
use native.Mathlib.Omega.{arith}

abbrev pub codes : String → List ℕ
codes String.[] = []
codes (String.◌∷◌ c s) = code c ∷ codes s

-- `s.length`
abbrev pub size : String → ℕ
size String.[] = 0
size (String.◌∷◌ c s) = suc (size s)

-- A template literal, as the list of its parts.
abbrev pub concat : List String → String
concat [] = ""
concat (s ∷ ss) = String.◌++◌ s (concat ss)

-- `s.slice(0, n)`
abbrev pub slice_to : ℕ → String → String
slice_to zero s = ""
slice_to (suc n) String.[] = ""
slice_to (suc n) (String.◌∷◌ c s) = String.◌∷◌ c (slice_to n s)

pub size-slice_to : (n : ℕ) (s : String) → size (slice_to n s) ≤ n
size-slice_to zero s = omega arith
size-slice_to (suc n) String.[] = omega arith
size-slice_to (suc n) (String.◌∷◌ c s) = omega (arith, size-slice_to n s)

-- `s.startsWith(prefix)`
abbrev pub starts_with : List ℕ → List ℕ → Bool
starts_with [] s = true
starts_with (p ∷ ps) [] = false
starts_with (p ∷ ps) (c ∷ s) = p == c && starts_with ps s

abbrev pub is_digit : ℕ → Bool
is_digit c = leb b'0' c && leb c b'9'

abbrev pub is_lower : ℕ → Bool
is_lower c = leb b'a' c && leb c b'z'

abbrev pub is_upper : ℕ → Bool
is_upper c = leb b'A' c && leb c b'Z'

abbrev pub is_alnum : ℕ → Bool
is_alnum c = is_lower c || is_upper c || is_digit c

-- The white space of `\s` and `trim`: the Unicode spaces, the line ends and the byte order mark.
abbrev pub is_space : ℕ → Bool
is_space c =
    leb 9 c && leb c 13
    || c == 32
    || c == 0xa0
    || c == 0x1680
    || leb 0x2000 c && leb c 0x200a
    || c == 0x2028
    || c == 0x2029
    || c == 0x202f
    || c == 0x205f
    || c == 0x3000
    || c == 0xfeff

-- `s.trim().length > 0`
abbrev pub has_visible : List ℕ → Bool
has_visible [] = false
has_visible (c ∷ s) = (if is_space c then false else true) || has_visible s

-- `s.includes(c)`, for a text of one character
abbrev pub includes : ℕ → List ℕ → Bool
includes c [] = false
includes c (d ∷ s) = d == c || includes c s

-- equal texts, read by character
abbrev pub same_codes : List ℕ → List ℕ → Bool
same_codes [] [] = true
same_codes (a ∷ as') (b ∷ bs) = a == b && same_codes as' bs
same_codes _ _ = false

abbrev pub all_codes : (ℕ → Bool) → List ℕ → Bool
all_codes p [] = true
all_codes p (c ∷ s) = p c && all_codes p s

-- `indexOf` of a character
abbrev pub index_of : ℕ → List ℕ → Option ℕ
index_of a [] = none
index_of a (b ∷ bs) =
    let rest = index_of a bs in
    if b == a then some 0 else elim rest [ none ↦ none | some i ↦ some (suc i) ]
