-- ===== src/Actions/Unit.antt =====
-- `SERVICE_UNIT` of src/tools/index.ts and `isProtectedAgentVUnit` of src/actions/helper.ts.
use agentv.Base.{
  ℕ, zero, suc, ◌+◌, ◌≤◌, String, ◌≡◌, refl, subst, sym, Bool, true, false, ◌&&◌, ◌||◌, List, [],
  ◌∷◌, ◌==◌, nat_eq, string_eq, arith, length, Bool-cases, inl, inr,
}
use agentv.Base.Text.{codes, is_alnum, starts_with, same_codes, all_codes}

-- `[A-Za-z0-9_.@:-]`
abbrev pub is_unit_char : ℕ → Bool
is_unit_char c = is_alnum c || c == b'_' || c == b'.' || c == b'@' || c == b':' || c == b'-'

abbrev suffix : List ℕ
suffix = codes ".service"

-- `[A-Za-z0-9_.@:-]{0,n}\\.service$`: the suffix stands here, or one more character is taken.
matches_rest : ℕ → List ℕ → Bool
matches_rest zero s = same_codes s suffix
matches_rest (suc n) [] = false
matches_rest (suc n) (c ∷ s) = same_codes (c ∷ s) suffix || is_unit_char c && matches_rest n s

matches_unit : List ℕ → Bool
matches_unit [] = false
matches_unit (c ∷ s) = is_alnum c && matches_rest 254 s

-- `SERVICE_UNIT.test(u)`
unfoldable pub is_service_unit : String → Bool
unfolding matches_unit matches_rest
is_service_unit u = matches_unit (codes u)

unfoldable pub is_protected_unit : String → Bool
is_protected_unit u =
    u == "acornops-agentv.service" || starts_with (codes "acornops-agentv-") (codes u)

same_codes→eq : (s t : List ℕ) → same_codes s t ≡ true → s ≡ t
same_codes→eq [] [] h = refl
same_codes→eq [] (b ∷ t) h = cc
same_codes→eq (a ∷ s) [] h = cc
same_codes→eq (a ∷ s) (b ∷ t) h = ground (arith, same_codes→eq s t)

-- What a text that the rest of the pattern matches looks like.
abbrev RestShape : ℕ → List ℕ → Type 0
RestShape n s = (8 ≤ length s) × (length s ≤ n + 8) × (all_codes is_unit_char s ≡ true)

suffix-RestShape : (n : ℕ) (s : List ℕ) → same_codes s suffix ≡ true → RestShape n s
suffix-RestShape n s h =
    subst (RestShape n) (sym (same_codes→eq s suffix h)) (omega arith, omega arith, refl)

matches_rest-RestShape : (n : ℕ) (s : List ℕ) → matches_rest n s ≡ true → RestShape n s
unfolding matches_rest
matches_rest-RestShape zero s h = suffix-RestShape 0 s h
matches_rest-RestShape (suc n) [] h = cc
matches_rest-RestShape (suc n) (c ∷ s) h = elim (Bool-cases (same_codes (c ∷ s) suffix)) [
  | inl here ↦ suffix-RestShape (suc n) (c ∷ s) here
  | inr more ↦ ground (arith, matches_rest-RestShape n s)
]

abbrev pub UnitShape : List ℕ → Type 0
UnitShape cs =
    (c : ℕ) × (s : List ℕ) × (cs ≡ c ∷ s)
    × (is_alnum c ≡ true)
    × (9 ≤ length cs)
    × (length cs ≤ 263)
    × (all_codes is_unit_char s ≡ true)

and_both : (a b : Bool) → a && b ≡ true → (a ≡ true) × (b ≡ true)
and_both true true h = (refl, refl)
and_both true false h = cc
and_both false b h = cc

matches_unit-UnitShape : (cs : List ℕ) → matches_unit cs ≡ true → UnitShape cs
unfolding matches_unit
matches_unit-UnitShape [] m = cc
matches_unit-UnitShape (c ∷ s) m =
    let (head, rest) = and_both (is_alnum c) (matches_rest 254 s) m in
    let (low, high, chars) = matches_rest-RestShape 254 s rest in
    (c, s, refl, head, omega arith, omega arith, chars)

-- A unit name that the pattern accepts has 9 to 263 characters, each of them a letter, a digit or
-- one of `_ . @ : -`, and begins with a letter or a digit: it is no option and no path.
pub is_service_unit-UnitShape : (u : String) → is_service_unit u ≡ true → UnitShape (codes u)
is_service_unit-UnitShape u h = matches_unit-UnitShape (codes u) (unfold is_service_unit in h)
