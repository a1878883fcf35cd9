-- ===== src/Base/Sort.antt =====
-- `Array.prototype.sort`, which is stable: an item goes before the equal items behind it.
use Prim.Native.Nat.{ℕ, compare, Ordering}
use mathlib.Core.Bool.{Bool, true, false, ◌&&◌}
use mathlib.Core.List.{List, [], ◌∷◌, Perm}
use mathlib.Core.List.Perm
use mathlib.Core.Path.{◌≡◌, refl, ap, ◌∙◌}
use native.Mathlib.Omega.{arith}
use mathlib.Core.Logic.{inl, inr}
use agentv.Base.Tests.{if◌then◌else◌, Bool-cases}
use agentv.Base.Lists.{length, all}

-- What a comparison function says of its first argument. `NaN` counts as `same`.
pub data Sign : Type 0 where
  less same more : Sign

-- `factor * sign`, for -1
abbrev pub opposite : Sign → Sign
opposite less = more
opposite same = same
opposite more = less

-- `a - b`
abbrev pub difference : ℕ → ℕ → Sign
difference a b = elim (compare a b) [ Ordering.lt ↦ less | Ordering.eq ↦ same | Ordering.gt ↦ more ]

-- `s || t`
abbrev pub then_by : Sign → Sign → Sign
then_by same t = t
then_by s t = s

abbrev pub is_more : Sign → Bool
is_more more = true
is_more _ = false

module _ {ℓ} {A : Type ℓ} (cmp : A → A → Sign) where
  abbrev pub insert : A → List A → List A
  insert x [] = x ∷ []
  insert x (y ∷ ys) = let rest = insert x ys in if is_more (cmp x y) then y ∷ rest else x ∷ y ∷ ys

  abbrev pub sort : List A → List A
  sort [] = []
  sort (x ∷ xs) = insert x (sort xs)

  insert-perm : (x : A) (ys : List A) → Perm (insert x ys) (x ∷ ys)
  insert-perm x [] = Perm.rfl
  insert-perm x (y ∷ ys) = elim (Bool-cases (is_more (cmp x y))) [
    | inl e ↦ rw e (Perm.trans (Perm.cons y (insert-perm x ys)) (Perm.swap x y ys))
    | inr e ↦ rw e Perm.rfl
  ]

  -- Sorting only reorders.
  pub sort-perm : (xs : List A) → Perm (sort xs) xs
  sort-perm [] = Perm.rfl
  sort-perm (x ∷ xs) = Perm.trans (insert-perm x (sort xs)) (Perm.cons x (sort-perm xs))

  length-insert : (x : A) (ys : List A) → length (insert x ys) ≡ length (x ∷ ys)
  length-insert x [] = refl
  length-insert x (y ∷ ys) = ground (arith, length-insert x ys)

  pub length-sort : (xs : List A) → length (sort xs) ≡ length xs
  length-sort [] = refl
  length-sort (x ∷ xs) = omega (arith, length-insert x (sort xs), length-sort xs)

  all-insert : (p : A → Bool) (x : A) (ys : List A) → all p (insert x ys) ≡ p x && all p ys
  all-insert p x [] = refl
  all-insert p x (y ∷ ys) = ground (arith, all-insert p x ys)

  pub all-sort : (p : A → Bool) (xs : List A) → all p (sort xs) ≡ all p xs
  all-sort p [] = refl
  all-sort p (x ∷ xs) = all-insert p x (sort xs) ∙ ap (◌&&◌ (p x)) (all-sort p xs)
