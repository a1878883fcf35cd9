-- ===== src/Base/Table.antt =====
-- Objects whose values are all of one type, in the order of their keys.
use mathlib.Core.List.{List, [], ◌∷◌}
use mathlib.Core.Bool.{Bool, true, false}
use mathlib.Core.Option.{Option, none, some}
use mathlib.Core.Path.{◌≡◌, refl}
use native.Mathlib.Omega.{arith}
use agentv.Base.Tests.{◌==◌, Eq, if◌then◌else◌}

abbrev pub or_lookup {ℓ} : {V : Type ℓ} → Option V → Option V → Option V
or_lookup none o = o
or_lookup (some v) o = some v

module _ {ℓ} {K V : Type ℓ} ⦃e : Eq K⦄ where
  abbrev pub lookup : K → List (K × V) → Option V
  lookup k [] = none
  lookup k ((j, v) ∷ m) = if j == k then some v else lookup k m

  abbrev pub insert : K → V → List (K × V) → List (K × V)
  insert k v [] = (k, v) ∷ []
  insert k v ((j, w) ∷ m) = let rest = insert k v m in if j == k then (j, v) ∷ m else (j, w) ∷ rest

  abbrev pub insert_all : List (K × V) → List (K × V) → List (K × V)
  insert_all [] m = m
  insert_all ((k, v) ∷ es) m = insert_all es (insert k v m)

  -- `Object.fromEntries(es)` and `new Map(es)`: the last entry of a key wins.
  abbrev pub from_entries : List (K × V) → List (K × V)
  from_entries es = insert_all es []

  pub lookup-insert :
      (k j : K) (v : V) (m : List (K × V))
      → lookup j (insert k v m) ≡ (if k == j then some v else lookup j m)
  lookup-insert k j v [] = refl
  lookup-insert k j v ((i, w) ∷ m) =
      ground (arith, e.beq_iff k j, e.beq_iff i k, e.beq_iff i j, lookup-insert k j v m)

  -- No key stands twice.
  abbrev pub is_distinct : List (K × V) → Bool
  is_distinct [] = true
  is_distinct ((k, v) ∷ m) = elim (lookup k m) [ none ↦ is_distinct m | some _ ↦ false ]

  insert-distinct :
      (k : K) (v : V) (m : List (K × V)) → is_distinct m ≡ true → is_distinct (insert k v m) ≡ true
  insert-distinct k v [] h = refl
  insert-distinct k v ((j, w) ∷ m) h =
      ground (arith, e.beq_iff j k, e.beq_iff k j, lookup-insert k j v m, insert-distinct k v m)

  pub insert_all-distinct :
      (es m : List (K × V)) → is_distinct m ≡ true → is_distinct (insert_all es m) ≡ true
  insert_all-distinct [] m h = h
  insert_all-distinct ((k, v) ∷ es) m h =
      insert_all-distinct es (insert k v m) (insert-distinct k v m h)

  pub lookup-insert_all :
      (j : K) (es m : List (K × V))
      → is_distinct es ≡ true
      → lookup j (insert_all es m) ≡ or_lookup (lookup j es) (lookup j m)
  lookup-insert_all j [] m h = refl
  lookup-insert_all j ((k, v) ∷ es) m h =
      ground (arith, e.beq_iff k j, lookup-insert k j v m, lookup-insert_all j es (insert k v m))
