-- ===== src/Actions/Policy.antt =====
-- src/actions/helper.ts: `validatePolicy`, `validateRestartRequest` and `loadPolicy`.
pub mod Safety
use agentv.Base.{
  ℕ, zero, suc, ◌*◌, ◌≤◌, String, ◌≡◌, refl, ◌⊎◌, inl, inr, Bool, true, false, not, ◌&&◌, ◌||◌,
  List, [], ◌∷◌, Option, none, some, arith, length, ltb, leb, ◌==◌, ◌!=◌, string_eq, option_eq,
  nat_eq, if◌then◌else◌, any, all, contains, distinct, Bool-cases, Option-cases,
}
use agentv.Base.Json.{Value, Items, Fields, nat, text, arr, obj, get, keys}
use agentv.Base.Json
use agentv.Base.Result.{Result, ok, err}
use agentv.Base.Maybe.{◌>>=◌}
use agentv.Base.Text.{codes, size, has_visible, includes, is_digit}
use agentv.Actions.Types.{RestartRequest, HelperError}
use agentv.Actions.Unit.{is_service_unit, is_protected_unit}

-- `schemaVersion` is 1 in every value.
pub record Policy : Type 0 where
  pub restart_services : List String

abbrev pub plain_error : String → HelperError
plain_error m = record { code = none; message = m; outcome = none }

abbrev pub error_code : String → String → HelperError
error_code c m = record { code = some c; message = m; outcome = none }

-- The texts of an array, if every item is one that `p` accepts.
abbrev texts_if : (String → Bool) → Items → Option (List String)
texts_if p Json.nil = some []
texts_if p (Json.cons (text s) vs) =
    let rest = texts_if p vs in
    if p s then elim rest [ none ↦ none | some ss ↦ some (s ∷ ss) ] else none
texts_if p (Json.cons _ vs) = none

unfoldable pub may_restart : String → Bool
may_restart u = is_service_unit u && not (includes b'*' (codes u)) && not (is_protected_unit u)

abbrev pub foreign_keys : List String → Fields → Bool
foreign_keys allowed fs = any (λ k. not (contains allowed k)) (keys fs)

abbrev count_items : Items → ℕ
count_items vs = length (Json.to_list vs)

abbrev units_of : Items → Option Policy
units_of vs = if ltb 32 (count_items vs) then none else elim (texts_if may_restart vs) [
  | none ↦ none
  | some us ↦ if distinct us then some (record { restart_services = us }) else none
]

abbrev policy_of : Fields → Option Policy
policy_of fs =
    if foreign_keys ("schemaVersion" ∷ "restartServices" ∷ []) fs
    then none
    else elim (get "schemaVersion" fs) [
      | some (nat v) ↦
          if v != 1
          then none
          else elim (get "restartServices" fs) [ some (arr vs) ↦ units_of vs | _ ↦ none ]
      | _ ↦ none
    ]

unfoldable pub validate_policy : Value → Result HelperError Policy
validate_policy (obj fs) = elim (policy_of fs) [
  | none ↦ err (plain_error "Action policy is invalid")
  | some p ↦ ok p
]
validate_policy _ = err (plain_error "Action policy is invalid")

-- What `stat` says of the policy file, and its text parsed as JSON.
pub record PolicyFile : Type 0 where
  pub is_file : Bool
  pub size : ℕ
  pub uid : ℕ
  pub group_or_world_writable : Bool
  pub contents : Option Value

-- `loadPolicy`, once the file is read; `JSON.parse` throws a plain error.
unfoldable pub load_policy : PolicyFile → Result HelperError Policy
load_policy f =
    if not f.is_file || ltb (64 * 1024) f.size
    then err (plain_error "Action policy must be a regular file no larger than 64 KiB")
    else if f.uid != 0 || f.group_or_world_writable
    then err (plain_error "Action policy must be root-owned and not group/world writable")
    else elim f.contents [
      | none ↦ err (plain_error "Unexpected token in JSON")
      | some v ↦ validate_policy v
    ]

abbrev request_fields : List String
request_fields =
    "protocol_version" ∷ "action" ∷ "operation_id" ∷ "unit" ∷ "reason" ∷ "expected_active_state"
    ∷ "expected_sub_state" ∷ "expected_invocation_id" ∷ []

-- `/^[a-f0-9]{24}$/`
abbrev is_hex : ℕ → Bool
is_hex c = is_digit c || leb b'a' c && leb c b'f'

abbrev all_hex : ℕ → List ℕ → Bool
all_hex zero [] = true
all_hex zero (c ∷ s) = false
all_hex (suc n) [] = false
all_hex (suc n) (c ∷ s) = is_hex c && all_hex n s

unfoldable pub is_operation_id : String → Bool
is_operation_id s = all_hex 24 (codes s)

abbrev pub text_at : String → Fields → Option String
text_at k fs = elim (get k fs) [ some (text s) ↦ some s | _ ↦ none ]

abbrev between : ℕ → ℕ → String → Bool
between low high s = leb low (size s) && leb (size s) high

-- `expected_invocation_id`, which may be left out.
abbrev invocation_at : Fields → Option (Option String)
invocation_at fs = elim (get "expected_invocation_id" fs) [
  | none ↦ some none
  | some (text s) ↦ if between 1 128 s then some (some s) else none
  | some _ ↦ none
]

abbrev pub is_one : Option Value → Bool
is_one (some (nat n)) = n == 1
is_one _ = false

abbrev reason_fits : String → Bool
reason_fits s = has_visible (codes s) && leb (size s) 512

-- The fields as texts, if they are.
texts_of : Fields → Option RestartRequest
texts_of fs = do
  operation_id ← text_at "operation_id" fs
  unit ← text_at "unit" fs
  reason ← text_at "reason" fs
  active ← text_at "expected_active_state" fs
  sub ← text_at "expected_sub_state" fs
  invocation ← invocation_at fs
  some (record {
    operation_id = operation_id;
    unit = unit;
    reason = reason;
    expected_active_state = active;
    expected_sub_state = sub;
    expected_invocation_id = invocation;
  })

abbrev texts_fit : RestartRequest → Bool
texts_fit r =
    is_operation_id r.operation_id
    && is_service_unit r.unit
    && not (is_protected_unit r.unit)
    && reason_fits r.reason
    && between 1 64 r.expected_active_state
    && between 1 64 r.expected_sub_state

abbrev is_restart : Fields → Bool
is_restart fs = is_one (get "protocol_version" fs) && text_at "action" fs == some "restart_service"

abbrev checked : RestartRequest → Option RestartRequest
checked r = if texts_fit r then some r else none

-- Every failing test throws the same error, so the tests are grouped.
unfoldable pub validate_restart_request : Fields → Result HelperError RestartRequest
unfolding texts_of
validate_restart_request fs =
    let failure = err (error_code "INVALID_ARGUMENTS" "Invalid restart request") in
    if foreign_keys request_fields fs || not (is_restart fs)
    then failure
    else elim (texts_of fs >>= checked) [ none ↦ failure | some r ↦ ok r ]
