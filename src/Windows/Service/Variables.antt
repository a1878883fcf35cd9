-- ===== src/Windows/Service/Variables.antt =====
-- src/windows-service-entry.ts, `process.env` on Windows: a name stands for every name that differs
-- from it in upper and lower case only. `fold` is the upper case of the system.
use agentv.Base.{
  ◌≡◌, refl, String, List, [], ◌∷◌, Bool, true, ◌==◌, Option, none, some, if◌then◌else◌, string_eq,
  arith, all, and_inv,
}
use agentv.Base.Table.{lookup, or_lookup, is_distinct}

module _ (fold : String → String) where
  abbrev pub read_variable : String → List (String × String) → Option String
  read_variable name [] = none
  read_variable name ((k, v) ∷ rest) =
      if fold k == fold name then some v else read_variable name rest

  abbrev pub set_variable : String → String → List (String × String) → List (String × String)
  set_variable name value [] = (name, value) ∷ []
  set_variable name value ((k, v) ∷ rest) =
      let others = set_variable name value rest in
      if fold k == fold name then (k, value) ∷ rest else (k, v) ∷ others

  -- `Object.assign(process.env, settings)`
  abbrev pub assign : List (String × String) → List (String × String) → List (String × String)
  assign [] old = old
  assign ((name, value) ∷ settings) old = assign settings (set_variable name value old)

  read-set_variable :
      (name other value : String) (old : List (String × String))
      → read_variable other (set_variable name value old)
        ≡ (if fold name == fold other then some value else read_variable other old)
  read-set_variable name other value [] = refl
  read-set_variable name other value ((k, v) ∷ rest) = ground (
    arith,
    string_eq.beq_iff (fold k) (fold name),
    string_eq.beq_iff (fold k) (fold other),
    string_eq.beq_iff (fold name) (fold other),
    read-set_variable name other value rest,
  )

  -- The names are the same in upper case.
  abbrev pub has_upper : List (String × String) → Bool
  has_upper = all (λ (e : String × String). fold (e.0) == e.0)

  -- What is assigned is read, whatever the variables were.
  pub read-assign :
      (settings old : List (String × String)) (name : String)
      → is_distinct settings ≡ true
      → has_upper settings ≡ true
      → (fold name == name) ≡ true
      → read_variable name (assign settings old)
        ≡ or_lookup (lookup name settings) (read_variable name old)
  read-assign [] old name d u h = refl
  read-assign ((k, v) ∷ settings) old name d u h =
      let (first, others) = and_inv (fold k == k) _ u in
      ground (
        arith,
        first,
        others,
        string_eq.beq_iff (fold k) k,
        string_eq.beq_iff (fold name) name,
        string_eq.beq_iff k name,
        string_eq.beq_iff (fold k) (fold name),
        read-set_variable k name v old,
        read-assign settings (set_variable k v old) name,
      )
