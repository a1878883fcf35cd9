-- ===== src/Adapters/Journal/Scope.antt =====
-- src/adapters/journal.ts, `journalArgs`: what journalctl reads of the arguments.
use agentv.Base.{
  ◌+◌, ◌≡◌, refl, sym, ap, ◌∙◌, inl, inr, String, List, [], ◌∷◌, ◌++◌, map, Bool, true, false,
  Option, none, some, string_eq, if◌then◌else◌, contains, Bool-cases, min,
}
use agentv.Base.Decimal.{show}
use agentv.Base.Result.{ok, ok_inj, fail_if_inv}
use agentv.Base.Scan.{is_empty}
use agentv.Adapters.Journal.{
  Codec, LogsInput, journal_args, unit_flags, option, scope, is_foreign, show_priority, escaped,
  has_none,
}

-- The flags of journalctl that take no value.
abbrev is_switch : String → Bool
is_switch s = contains ("--output=json" ∷ "--no-pager" ∷ "--reverse" ∷ []) s

abbrev named : String → String → Option (List (String × String)) → Option (List (String × String))
named flag value none = none
named flag value (some rest) = some ((flag, value) ∷ rest)

-- A command line as journalctl reads it: a switch, or a flag and the argument behind it, whatever that
-- argument looks like. `none` if an argument is missing.
pub read_flags : List String → Option (List (String × String))
read_flags [] = some []
read_flags (f ∷ []) = if is_switch f then some ((f, "") ∷ []) else none
read_flags (f ∷ v ∷ rest) = elim (is_switch f) [
  | true ↦ named f "" (read_flags (v ∷ rest))
  | false ↦ named f v (read_flags rest)
]

-- The flags that an option stands for.
abbrev pub flag_of : String → Option String → List (String × String)
flag_of flag none = []
flag_of flag (some v) = if is_empty v then [] else (flag, v) ∷ []

abbrev after :
    List (String × String) → Option (List (String × String)) → Option (List (String × String))
after flags none = none
after flags (some rest) = some (flags ++ rest)

-- a flag that is no switch takes the next argument
read_flag :
    (f v : String) (rest : List String)
    → is_switch f ≡ false
    → read_flags (f ∷ v ∷ rest) ≡ named f v (read_flags rest)
unfolding read_flags
read_flag f v rest h = rw (h, read_flags) refl

after-nil : (o : Option (List (String × String))) → after [] o ≡ o
after-nil none = refl
after-nil (some rest) = refl

named-after :
    (f v : String) (flags : List (String × String)) (o : Option (List (String × String)))
    → named f v (after flags o) ≡ after ((f, v) ∷ flags) o
named-after f v flags none = refl
named-after f v flags (some rest) = refl

read_option :
    (f : String) (value : Option String) (rest : List String)
    → is_switch f ≡ false
    → read_flags (option f value ++ rest) ≡ after (flag_of f value) (read_flags rest)
read_option f none rest h = sym (after-nil _)
read_option f (some v) rest h = elim (Bool-cases (is_empty v)) [
  | inl e ↦ rw e (sym (after-nil _))
  | inr e ↦ rw e (read_flag f v rest h ∙ ap (named f v) (sym (after-nil _)) ∙ named-after f v [] _)
]

read_last :
    (f : String) (value : Option String)
    → is_switch f ≡ false
    → read_flags (option f value) ≡ some (flag_of f value)
unfolding read_flags
read_last f none h = refl
read_last f (some v) h = elim (Bool-cases (is_empty v)) [
  | inl e ↦ rw e refl
  | inr e ↦ rw e (rw (h, read_flags) refl)
]

option_then :
    (f : String) (value : Option String) (rest : List String) {flags : List (String × String)}
    → is_switch f ≡ false
    → read_flags rest ≡ some flags
    → read_flags (option f value ++ rest) ≡ some (flag_of f value ++ flags)
option_then f value rest h e = read_option f value rest h ∙ ap (after (flag_of f value)) e

abbrev pub unit_flag : String → String × String
unit_flag u = ("--unit", u)

read_units :
    (units : List String) (rest : List String)
    → read_flags (unit_flags units ++ rest) ≡ after (map unit_flag units) (read_flags rest)
read_units [] rest = sym (after-nil _)
read_units (u ∷ us) rest =
    read_flag "--unit" u (unit_flags us ++ rest) refl
    ∙ ap (named "--unit" u) (read_units us rest)
    ∙ named-after "--unit" u (map unit_flag us) (read_flags rest)

-- What a query asks for, as flags with their values.
abbrev pub options_of : LogsInput → List (String × String)
options_of input =
    flag_of "--priority" (show_priority input.priority)
    ++ (flag_of "--since" input.since
        ++ (flag_of "--until" input.until
            ++ (flag_of "--after-cursor" input.cursor ++ flag_of "--grep" (escaped input.query))))

abbrev pub flags_of : Codec → List String → LogsInput → List (String × String)
flags_of c allowed input =
    ("--output=json", "")
    ∷ ("--no-pager", "")
    ∷ ("--reverse", "")
    ∷ ("--lines", show (min 1000 (input.limit + 1)))
    ∷ (map unit_flag (scope c allowed input.unit) ++ options_of input)

-- Whatever a query holds, journalctl reads of the arguments the flags that the query asks for, and no
-- value is taken for a flag.
pub read_flags-journal_args :
    (c : Codec) (allowed : List String) (input : LogsInput) (args : List String)
    → journal_args c allowed input ≡ ok args
    → read_flags args ≡ some (flags_of c allowed input)
unfolding journal_args read_flags
read_flags-journal_args c allowed input args h =
    let (some_allowed, h₁) = fail_if_inv (has_none allowed) _ h in
    let (not_foreign, h₂) = fail_if_inv (is_foreign allowed input.unit) _ h₁ in
    let tail = option_then "--priority" (show_priority input.priority) _ refl (
      option_then "--since" input.since _ refl (
        option_then "--until" input.until _ refl (
          option_then "--after-cursor" input.cursor _ refl
            (read_last "--grep" (escaped input.query) refl)))) in
    let whole = read_units (scope c allowed input.unit) _ ∙ ap (after (map unit_flag _)) tail in
    rw (← ok_inj h₂) (
      ap
        (λ o. named "--output=json" "" (
          named "--no-pager" ""
            (named "--reverse" "" (named "--lines" (show (min 1000 (input.limit + 1))) o))))
        whole)
