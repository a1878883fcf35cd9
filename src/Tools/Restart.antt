-- ===== src/Tools/Restart.antt =====
-- src/tools/index.ts: the input of `restart_service`, and its handler.
use Prim.Native.Char.{Char, code}
use Prim.Native.String.{String}
use agentv.Base.{
  ℕ, Bool, true, false, not, ◌&&◌, ◌||◌, ◌==◌, Option, none, some, if◌then◌else◌, string_eq, nat_eq,
  leb,
}
use agentv.Base.Json.{Fields, Value, text, field, end}
use agentv.Base.Result.{Result, ok, err, ◌>>=◌, ◌>>◌, fail_if}
use agentv.Base.Scan.{is_empty, strip, trim}
use agentv.Base.Text.{size, is_lower, is_digit}
use agentv.Actions.Types.{
  RestartRequest, RestartReceipt, Outcome, success, failed, not_started, unknown,
}
use agentv.Actions.Unit.{is_service_unit}
use agentv.Errors.{Thrown, tool, tool_error_with, host_unavailable, precondition_failed}

pub record RestartInput : Type 0 where
  pub unit : String
  pub reason : String
  pub expected_active_state : String
  pub expected_sub_state : String
  pub expected_invocation_id : Option String

abbrev between : ℕ → ℕ → String → Bool
between low high s = leb low (size s) && leb (size s) high

abbrev optional_between : ℕ → ℕ → Option String → Bool
optional_between low high none = true
optional_between low high (some s) = between low high s

-- The tests of the fields, before `transform`.
unfoldable pub has_valid_fields : RestartInput → Bool
has_valid_fields i =
    between 9 263 i.unit
    && is_service_unit i.unit
    && between 1 512 i.reason
    && not (is_empty (trim i.reason))
    && between 1 64 i.expected_active_state
    && between 1 64 i.expected_sub_state
    && optional_between 1 128 i.expected_invocation_id

abbrev pub is_token_char : ℕ → Bool
is_token_char c = is_lower c || is_digit c || c == b'-'

abbrev pub token_cons : Char → String → String × String → String × String
token_cons c s (t, rest) =
    if is_token_char (code c) then (String.◌∷◌ c t, rest) else ("", String.◌∷◌ c s)

-- The longest run of `[a-z0-9-]`, and what follows it.
abbrev pub token_run : String → String × String
token_run String.[] = ("", "")
token_run (String.◌∷◌ c s) = token_cons c s (token_run s)

-- `[a-z][a-z0-9-]*`, taken from the front
abbrev starts_lower : String → Bool
starts_lower String.[] = false
starts_lower (String.◌∷◌ c _) = is_lower (code c)

abbrev pub token : String → Option (String × String)
token s = if starts_lower s then some (token_run s) else none

-- `/^[a-z][a-z0-9-]*$/`
abbrev pub is_token : String → Bool
is_token s = starts_lower s && is_empty ((token_run s).1)

-- The optional ` (sub_state)` behind the active state; the whole text must match.
abbrev display_end : String → Option (String × String) → Option (String × Option String)
display_end active none = none
display_end active (some (sub, rest)) = if rest == ")" then some (active, some sub) else none

abbrev after_active : String × String → Option (String × Option String)
after_active (active, rest) =
    if is_empty rest
    then some (active, none)
    else elim (strip " (" rest) [ none ↦ none | some inner ↦ display_end active (token inner) ]

unfoldable pub parse_active : String → Option (String × Option String)
parse_active s = elim (token s) [ none ↦ none | some found ↦ after_active found ]

-- The path and the message of an issue.
pub record Issue : Type 0 where
  pub path : String
  pub message : String

abbrev issue : String → String → Issue
issue path message = record { path = path; message = message }

abbrev differs : Option String → String → Bool
differs none sub = false
differs (some shown) sub = not (shown == sub)

unfoldable pub transform : RestartInput → Result Issue RestartInput
transform i = elim (parse_active i.expected_active_state) [
  | none ↦ err (
      issue "expected_active_state"
        "Use the active_state token from get_service, optionally followed by \" (sub_state)\".")
  | some (active, shown) ↦ do
    fail_if (not (is_token i.expected_sub_state))
        (issue "expected_sub_state" "Copy the sub_state token exactly from get_service.")
    fail_if (differs shown i.expected_sub_state) (
        issue "expected_active_state"
          "The display substate must match expected_sub_state; copy both values from the same get_service response.")
    ok (record i { expected_active_state = active })
]

unfoldable pub request_of : String → RestartInput → RestartRequest
request_of operation_id i = record {
  operation_id = operation_id;
  unit = i.unit;
  reason = i.reason;
  expected_active_state = i.expected_active_state;
  expected_sub_state = i.expected_sub_state;
  expected_invocation_id = i.expected_invocation_id;
}

abbrev pub outcome_name : Outcome → String
outcome_name success = "success"
outcome_name failed = "failed"
outcome_name not_started = "not_started"
outcome_name unknown = "unknown"

-- The details of a failure. `receipt_json` is the receipt as a value.
abbrev details : (RestartReceipt → Value) → String → RestartReceipt → Fields
details receipt_json operation_id r =
    field "outcome" (text (outcome_name r.outcome))
      (field "operationId" (text operation_id) (field "receipt" (receipt_json r) end))

unfoldable pub checked :
    (RestartReceipt → Value) → String → RestartReceipt → Result Thrown RestartReceipt
checked receipt_json operation_id r = elim r.outcome [
  | unknown ↦ err (
      tool (
        tool_error_with host_unavailable "Service restart outcome is unknown"
          (details receipt_json operation_id r)))
  | not_started ↦ err (
      tool (
        tool_error_with precondition_failed "Service restart was not started"
          (details receipt_json operation_id r)))
  | failed ↦ err (
      tool (
        tool_error_with host_unavailable "Service restart failed verification"
          (details receipt_json operation_id r)))
  | success ↦ ok r
]

-- The handler, over what the action client answers to the request.
unfoldable pub handler :
    (RestartReceipt → Value)
    → (RestartRequest → Result Thrown RestartReceipt)
    → String
    → RestartInput
    → Result Thrown RestartReceipt
handler receipt_json restart operation_id i =
    restart (request_of operation_id i) >>= checked receipt_json operation_id
