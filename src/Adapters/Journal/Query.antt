-- ===== src/Adapters/Journal/Query.antt =====
-- src/adapters/journal.ts, `journalArgs`: which flags, rows and units a query names.
use agentv.Base.{
  ℕ, ◌+◌, ◌≤◌, ◌≡◌, refl, ap, ◌∙◌, inl, inr, String, List, [], ◌∷◌, ◌++◌, map, Bool, true, false,
  ◌==◌, Option, none, some, string_eq, if◌then◌else◌, arith, contains, all, Bool-cases,
  Option-cases, and_intro, and_inv, not-false, min,
}
use agentv.Base.Decimal.{show}
use agentv.Base.Result.{ok, fail_if_inv}
use agentv.Base.Scan.{is_empty}
use agentv.Base.Sort.{sort, Sign, all-sort}
use agentv.Base.Sort
use mathlib.Core.List.{append-nil}
use agentv.Adapters.{or_null}
use agentv.Adapters.Journal.{
  Codec, LogsInput, journal_args, scope, is_foreign, show_priority, escaped, has_none,
}
use agentv.Adapters.Journal.Scope.{
  read_flags, flag_of, flags_of, options_of, unit_flag, read_flags-journal_args,
}

-- The values of a flag.
abbrev pub values_of : String → List (String × String) → List String
values_of name [] = []
values_of name ((f, v) ∷ rest) =
    let others = values_of name rest in if f == name then v ∷ others else others

abbrev option_names : List String
option_names = "--priority" ∷ "--since" ∷ "--until" ∷ "--after-cursor" ∷ "--grep" ∷ []

module _ (name : String) where
  values_of-append :
      (xs ys : List (String × String))
      → values_of name (xs ++ ys) ≡ values_of name xs ++ values_of name ys
  values_of-append [] ys = refl
  values_of-append ((f, v) ∷ xs) ys = elim (Bool-cases (f == name)) [
    | inl e ↦ rw (e, values_of) (ap (◌∷◌ v) (values_of-append xs ys))
    | inr e ↦ rw (e, values_of) (values_of-append xs ys)
  ]

  -- an option with another name adds no value
  values_of-flag :
      (f : String) (value : Option String)
      → (f == name) ≡ false
      → values_of name (flag_of f value) ≡ []
  values_of-flag f none h = refl
  values_of-flag f (some v) h = elim (Bool-cases (is_empty v)) [
    | inl e ↦ rw e refl
    | inr e ↦ rw e (rw h refl)
  ]

  skip_flag :
      (f : String) (value : Option String) (rest : List (String × String))
      → (f == name) ≡ false
      → values_of name (flag_of f value ++ rest) ≡ values_of name rest
  skip_flag f value rest h =
      values_of-append (flag_of f value) rest
      ∙ ap (λ us. us ++ values_of name rest) (values_of-flag f value h)

  -- the names of the options of a query
  values_of-options :
      (input : LogsInput)
      → contains option_names name ≡ false
      → values_of name (options_of input) ≡ []
  values_of-options input h =
      skip_flag "--priority" (show_priority input.priority) _ (ground arith)
      ∙ skip_flag "--since" input.since _ (ground arith)
      ∙ skip_flag "--until" input.until _ (ground arith)
      ∙ skip_flag "--after-cursor" input.cursor _ (ground arith)
      ∙ values_of-flag "--grep" (escaped input.query) (ground arith)

units_of-map : (us : List String) → values_of "--unit" (map unit_flag us) ≡ us
units_of-map [] = refl
units_of-map (u ∷ us) = ap (◌∷◌ u) (units_of-map us)

lines_of-map : (us : List String) → values_of "--lines" (map unit_flag us) ≡ []
lines_of-map [] = refl
lines_of-map (u ∷ us) = lines_of-map us

all-weaken :
    (a : String) (allowed xs : List String)
    → all (contains allowed) xs ≡ true
    → all (contains (a ∷ allowed)) xs ≡ true
all-weaken a allowed [] h = refl
all-weaken a allowed (x ∷ xs) h = ground (arith, all-weaken a allowed xs)

all-contains : (allowed : List String) → all (contains allowed) allowed ≡ true
all-contains [] = refl
all-contains (a ∷ as') =
    ground (arith, all-weaken a as' as', all-contains as', string_eq.beq_iff a a)

has_none-insert :
    (cmp : String → String → Sign) (x : String) (ys : List String)
    → has_none (Sort.insert cmp x ys) ≡ false
has_none-insert cmp x [] = refl
has_none-insert cmp x (y ∷ ys) = ground arith

has_none-sort :
    (cmp : String → String → Sign) (xs : List String) → has_none (sort cmp xs) ≡ has_none xs
has_none-sort cmp [] = refl
has_none-sort cmp (x ∷ xs) = has_none-insert cmp x (sort cmp xs)

-- The units of a query that names at least one, and only allowed ones.
abbrev pub IsScope : List String → Option String → List String → Type 0
IsScope allowed unit units =
    (has_none units ≡ false)
    × ((all (contains allowed) units ≡ true)
        × ((u : String) → or_null unit ≡ some u → units ≡ u ∷ []))

scope-IsScope :
    (c : Codec) (allowed : List String) (unit : Option String)
    → has_none allowed ≡ false
    → is_foreign allowed unit ≡ false
    → IsScope allowed unit (scope c allowed unit)
scope-IsScope c allowed unit some_allowed local = elim (Option-cases (or_null unit)) [
  | inl e ↦
      rw (e, scope)
        (
          has_none-sort c.compare_texts allowed ∙ some_allowed,
          (all-sort c.compare_texts (contains allowed) allowed ∙ all-contains allowed, λ u h. cc),
        )
  | inr (u, e) ↦
      rw (e, scope) (refl, (and_intro (not-false _ (rw (e, is_foreign) at local)) refl, λ v h. cc))
]

-- The flags that a query may use.
abbrev pub is_known_flag : String × String → Bool
is_known_flag (f, v) =
    contains ("--output=json" ∷ "--no-pager" ∷ "--reverse" ∷ "--lines" ∷ "--unit" ∷ option_names) f

all_known-append :
    (xs ys : List (String × String))
    → all is_known_flag xs ≡ true
    → all is_known_flag ys ≡ true
    → all is_known_flag (xs ++ ys) ≡ true
all_known-append [] ys hx hy = hy
all_known-append (x ∷ xs) ys hx hy =
    let (first, others) = and_inv (is_known_flag x) _ hx in
    and_intro first (all_known-append xs ys others hy)

all_known-flag :
    (f : String) (value : Option String)
    → is_known_flag (f, "") ≡ true
    → all is_known_flag (flag_of f value) ≡ true
all_known-flag f none h = refl
all_known-flag f (some v) h = elim (Bool-cases (is_empty v)) [
  | inl e ↦ rw e refl
  | inr e ↦ rw e (and_intro h refl)
]

all_known-map : (us : List String) → all is_known_flag (map unit_flag us) ≡ true
all_known-map [] = refl
all_known-map (u ∷ us) = all_known-map us

all_known-then :
    (f : String) (value : Option String) (rest : List (String × String))
    → is_known_flag (f, "") ≡ true
    → all is_known_flag rest ≡ true
    → all is_known_flag (flag_of f value ++ rest) ≡ true
all_known-then f value rest h known =
    all_known-append (flag_of f value) rest (all_known-flag f value h) known

all_known-options : (input : LogsInput) → all is_known_flag (options_of input) ≡ true
all_known-options input = all_known-then "--priority" (show_priority input.priority) _ refl (
    all_known-then "--since" input.since _ refl (
      all_known-then "--until" input.until _ refl (
        all_known-then "--after-cursor" input.cursor _ refl
          (all_known-flag "--grep" (escaped input.query) refl))))

-- What journalctl reads of a query: known flags only, one number of rows, and the units.
pub record IsQuery (allowed : List String) (input : LogsInput) (args : List String) : Type 0 where
  pub flags : List (String × String)
  pub read : read_flags args ≡ some flags
  pub known : all is_known_flag flags ≡ true
  pub rows : ℕ
  pub one_limit : values_of "--lines" flags ≡ show rows ∷ []
  pub rows_capped : rows ≤ 1000
  pub rows_asked : rows ≤ input.limit + 1
  pub units : IsScope allowed input.unit (values_of "--unit" flags)

-- Of a query that is built, whatever texts it holds, journalctl reads only the flags that this program
-- uses. It asks for at most 1,000 rows, and at most one more than the limit of the caller. It names a
-- unit, and only units that are allowed; it names exactly the unit asked for, if one is.
pub journal_args-IsScoped :
    (c : Codec) (allowed : List String) (input : LogsInput) (args : List String)
    → journal_args c allowed input ≡ ok args
    → IsQuery allowed input args
unfolding journal_args
journal_args-IsScoped c allowed input args h =
    let (some_allowed, h₁) = fail_if_inv (has_none allowed) _ h in
    let (local, _) = fail_if_inv (is_foreign allowed input.unit) _ h₁ in
    let us = scope c allowed input.unit in
    let opts = options_of input in
    let named : values_of "--unit" (flags_of c allowed input) ≡ us =
      values_of-append "--unit" (map unit_flag us) opts
      ∙ ap (λ vs. vs ++ values_of "--unit" opts) (units_of-map us)
      ∙ ap (λ vs. us ++ vs) (values_of-options "--unit" input refl)
      ∙ append-nil us in
    let no_more : values_of "--lines" (map unit_flag us ++ opts) ≡ [] =
      values_of-append "--lines" (map unit_flag us) opts
      ∙ ap (λ vs. vs ++ values_of "--lines" opts) (lines_of-map us)
      ∙ values_of-options "--lines" input refl in
    record {
      flags = flags_of c allowed input;
      read = read_flags-journal_args c allowed input args h;
      known = all_known-append (map unit_flag us) opts (all_known-map us) (all_known-options input);
      rows = min 1000 (input.limit + 1);
      one_limit = ap (◌∷◌ (show (min 1000 (input.limit + 1)))) no_more;
      rows_capped = omega arith;
      rows_asked = omega arith;
      units = rw named (scope-IsScope c allowed input.unit some_allowed local);
    }
