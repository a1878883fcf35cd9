-- ===== src/Base/Scan.antt =====
-- Texts as the collectors cut them: `split`, `trim`, `indexOf` with `slice`, `Number` and `parseInt`.
use Prim.Native.Char.{Char, code}
use Prim.Native.Nat.{ℕ, zero, suc, ◌+◌, ◌-◌, ◌*◌}
use Prim.Native.String.{String}
use Prim.Native.String
use mathlib.Core.Bool.{Bool, true, false, ◌&&◌, ◌||◌}
use mathlib.Core.List.{List, [], ◌∷◌}
use mathlib.Core.Option.{Option, none, some}
use agentv.Base.Tests.{◌==◌, nat_eq, if◌then◌else◌}
use agentv.Base.Text.{size, is_digit, is_space, is_upper}

-- `c` in front of the first part
abbrev pub push : Char → List String → List String
push c [] = String.◌∷◌ c "" ∷ []
push c (p ∷ ps) = String.◌∷◌ c p ∷ ps

-- `s.split(c)`, for a separator of one character
abbrev pub split : ℕ → String → List String
split sep String.[] = "" ∷ []
split sep (String.◌∷◌ c s) =
    let rest = split sep s in if code c == sep then "" ∷ rest else push c rest

-- The text before and after the first `c`: `slice(0, indexOf(c))` and `slice(indexOf(c) + 1)`.
abbrev pub before_first : ℕ → String → Char → Option (String × String) → Option (String × String)
before_first sep s c rest =
    if code c == sep
    then some ("", s)
    else elim rest [ none ↦ none | some (a, b) ↦ some (String.◌∷◌ c a, b) ]

abbrev pub cut_first : ℕ → String → Option (String × String)
cut_first sep String.[] = none
cut_first sep (String.◌∷◌ c s) = before_first sep s c (cut_first sep s)

-- The same at the last `c`: `lastIndexOf`.
abbrev before_last : ℕ → String → Char → Option (String × String) → Option (String × String)
before_last sep s c (some (a, b)) = some (String.◌∷◌ c a, b)
before_last sep s c none = if code c == sep then some ("", s) else none

abbrev pub cut_last : ℕ → String → Option (String × String)
cut_last sep String.[] = none
cut_last sep (String.◌∷◌ c s) = before_last sep s c (cut_last sep s)

abbrev pub is_empty : String → Bool
is_empty String.[] = true
is_empty (String.◌∷◌ _ _) = false

-- `s.slice(1)`
abbrev pub tail : String → String
tail String.[] = ""
tail (String.◌∷◌ _ s) = s

abbrev pub skip_space : String → String
skip_space String.[] = ""
skip_space (String.◌∷◌ c s) =
    let rest = skip_space s in if is_space (code c) then rest else String.◌∷◌ c s

abbrev drop_end : Char → String → String
drop_end c String.[] = if is_space (code c) then "" else String.◌∷◌ c ""
drop_end c rest = String.◌∷◌ c rest

abbrev skip_end : String → String
skip_end String.[] = ""
skip_end (String.◌∷◌ c s) = drop_end c (skip_end s)

-- `s.trim()`
abbrev pub trim : String → String
trim s = skip_end (skip_space s)

-- The leading run of characters that are no white space, and what follows it.
abbrev word_cons : Char → String → String × String → String × String
word_cons c s (w, rest) = if is_space (code c) then ("", String.◌∷◌ c s) else (String.◌∷◌ c w, rest)

abbrev pub word : String → String × String
word String.[] = ("", "")
word (String.◌∷◌ c s) = word_cons c s (word s)

abbrev starts_space : String → Bool
starts_space String.[] = false
starts_space (String.◌∷◌ c _) = is_space (code c)

-- `s.split(/\s+/)`: a run of white space is one separator, which ends where the next character is
-- none.
abbrev pub words : String → List String
words String.[] = "" ∷ []
words (String.◌∷◌ c s) =
    let rest = words s in
    if is_space (code c) then (if starts_space s then rest else "" ∷ rest) else push c rest

-- `xs[i]`
abbrev pub at {ℓ} : {A : Type ℓ} → ℕ → List A → Option A
at _ [] = none
at zero (x ∷ _) = some x
at (suc i) (_ ∷ xs) = at i xs

-- `xs.slice(n)`
abbrev pub drop {ℓ} : {A : Type ℓ} → ℕ → List A → List A
drop zero xs = xs
drop (suc n) [] = []
drop (suc n) (_ ∷ xs) = drop n xs

-- `xs.join(sep)`
abbrev join_onto : String → String → List String → String
join_onto sep p [] = p
join_onto sep p (q ∷ qs) = String.◌++◌ p (String.◌++◌ sep (join_onto sep q qs))

abbrev pub join : String → List String → String
join sep [] = ""
join sep (p ∷ ps) = join_onto sep p ps

-- `s.startsWith(t)` and `s.includes(t)`
abbrev pub is_prefix : String → String → Bool
is_prefix String.[] s = true
is_prefix (String.◌∷◌ _ _) String.[] = false
is_prefix (String.◌∷◌ d t) (String.◌∷◌ c s) = code d == code c && is_prefix t s

abbrev pub has_text : String → String → Bool
has_text t String.[] = is_empty t
has_text t (String.◌∷◌ c s) = is_prefix t (String.◌∷◌ c s) || has_text t s

-- A test `/t/i`, for a text `t` of small ASCII letters and spaces.
abbrev is_letter_of : ℕ → ℕ → Bool
is_letter_of d c = d == c || is_upper c && d == c + 32

abbrev is_prefix_of_any_case : String → String → Bool
is_prefix_of_any_case String.[] s = true
is_prefix_of_any_case (String.◌∷◌ _ _) String.[] = false
is_prefix_of_any_case (String.◌∷◌ d t) (String.◌∷◌ c s) =
    is_letter_of (code d) (code c) && is_prefix_of_any_case t s

abbrev pub has_any_case : String → String → Bool
has_any_case t String.[] = is_empty t
has_any_case t (String.◌∷◌ c s) = is_prefix_of_any_case t (String.◌∷◌ c s) || has_any_case t s

-- What follows the prefix `t`.
abbrev strip_cons : Bool → Option String → Option String
strip_cons true rest = rest
strip_cons false rest = none

abbrev pub strip : String → String → Option String
strip String.[] s = some s
strip (String.◌∷◌ _ _) String.[] = none
strip (String.◌∷◌ d t) (String.◌∷◌ c s) = strip_cons (code d == code c) (strip t s)

-- The first match of a pattern, tried from each character on.
abbrev or_else : {A : Type 0} → Option A → Option A → Option A
or_else (some a) later = some a
or_else none later = later

abbrev pub first_match : {A : Type 0} → (String → Option A) → String → Option A
first_match f String.[] = f ""
first_match f (String.◌∷◌ c s) = or_else (f (String.◌∷◌ c s)) (first_match f s)

-- The digits at the front, and the number that they spell behind `n`.
abbrev pub digits_onto : ℕ → String → ℕ × String
digits_onto n String.[] = (n, "")
digits_onto n (String.◌∷◌ c s) =
    let rest = digits_onto (n * 10 + (code c - b'0')) s in
    if is_digit (code c) then rest else (n, String.◌∷◌ c s)

abbrev pub starts_digit : String → Bool
starts_digit String.[] = false
starts_digit (String.◌∷◌ c _) = is_digit (code c)

-- `parseInt(s, 10)` with `none` for `NaN`, on a text with no sign
abbrev pub parse_int : String → Option ℕ
parse_int s = let t = skip_space s in if starts_digit t then some ((digits_onto 0 t).0) else none

-- `Number(s)` where it is a natural number written in digits; `none` for any other text, `NaN` among
-- them. The empty text is 0.
abbrev pub number : String → Option ℕ
number s = let (n, rest) = digits_onto 0 (trim s) in if is_empty rest then some n else none

-- `Number(s)` in hundredths, where it is written with two decimals or none.
abbrev hundredths_of : ℕ × String → Option ℕ
hundredths_of (n, rest) = if is_empty rest then some (n * 100) else elim (strip "." rest) [
  | none ↦ none
  | some decimals ↦
      let (d, end) = digits_onto 0 decimals in
      if size decimals == 2 && is_empty end then some (n * 100 + d) else none
]

abbrev pub hundredths : String → Option ℕ
hundredths s = hundredths_of (digits_onto 0 (trim s))

-- `x || 0`
abbrev pub or_zero : Option ℕ → ℕ
or_zero none = 0
or_zero (some n) = n
