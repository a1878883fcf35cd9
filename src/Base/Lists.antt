-- ===== src/Base/Lists.antt =====
-- Arrays as lists, measured by native numbers.
use Prim.Native.Nat.{ℕ, zero, suc, ◌+◌, ◌≤◌, min}
use mathlib.Core.Path.{◌≡◌, refl, ap}
use mathlib.Core.Bool.{Bool, true, false, ◌&&◌, ◌||◌}
use mathlib.Core.List.{List, [], ◌∷◌, ◌++◌}
use native.Mathlib.Omega.{arith}
use mathlib.Core.Logic.{inl, inr}
use agentv.Base.Tests.{if◌then◌else◌, Eq, ◌==◌, Bool-cases}

module _ {ℓ} {A : Type ℓ} where
  abbrev pub length : List A → ℕ
  length [] = 0
  length (x ∷ xs) = suc (length xs)

  -- `slice(0, n)`
  abbrev pub take : ℕ → List A → List A
  take zero xs = []
  take (suc n) [] = []
  take (suc n) (x ∷ xs) = x ∷ take n xs

  abbrev pub all : (A → Bool) → List A → Bool
  all p [] = true
  all p (x ∷ xs) = p x && all p xs

  -- `some`
  abbrev pub any : (A → Bool) → List A → Bool
  any p [] = false
  any p (x ∷ xs) = p x || any p xs

  -- `filter`, on a Boolean test
  abbrev pub keep : (A → Bool) → List A → List A
  keep p [] = []
  keep p (x ∷ xs) = let rest = keep p xs in if p x then x ∷ rest else rest

  pub length-append : (xs ys : List A) → length (xs ++ ys) ≡ length xs + length ys
  length-append [] ys = omega arith
  length-append (x ∷ xs) ys = omega (arith, length-append xs ys)

  pub length-take : (n : ℕ) (xs : List A) → length (take n xs) ≡ min n (length xs)
  length-take zero xs = omega arith
  length-take (suc n) [] = omega arith
  length-take (suc n) (x ∷ xs) = omega (arith, length-take n xs)

  pub length-keep-le : (p : A → Bool) (xs : List A) → length (keep p xs) ≤ length xs
  length-keep-le p [] = omega arith
  length-keep-le p (x ∷ xs) = ground (arith, length-keep-le p xs)

module _ {ℓ} {A : Type ℓ} ⦃e : Eq A⦄ where
  -- `includes`, and `has` of a `Set`
  abbrev pub contains : List A → A → Bool
  contains [] a = false
  contains (x ∷ xs) a = x == a || contains xs a

  -- `new Set(xs).size === xs.length`
  abbrev pub distinct : List A → Bool
  distinct [] = true
  distinct (x ∷ xs) = (if contains xs x then false else true) && distinct xs

  -- `delete` of a `Set`, which holds a value at most once
  abbrev pub remove : A → List A → List A
  remove a [] = []
  remove a (x ∷ xs) = let rest = remove a xs in if x == a then rest else x ∷ rest

  pub contains-keep :
      (p : A → Bool) (xs : List A) (a : A) → contains (keep p xs) a ≡ contains xs a && p a
  contains-keep p [] a = refl
  contains-keep p (x ∷ xs) a = elim (Bool-cases (x == a)) [
    | inl eq ↦
        let same : p x ≡ p a = ap p ((e.beq_iff x a).0 eq) in
        ground (arith, same, contains-keep p xs a)
    | inr ne ↦ ground (arith, contains-keep p xs a)
  ]

  pub contains-remove :
      (b : A) (xs : List A) (a : A)
      → contains (remove b xs) a ≡ contains xs a && (if b == a then false else true)
  contains-remove b [] a = refl
  contains-remove b (x ∷ xs) a =
      ground (arith, contains-remove b xs a, e.beq_iff x b, e.beq_iff x a, e.beq_iff b a)
