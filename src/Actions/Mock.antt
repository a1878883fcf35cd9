-- ===== src/Actions/Mock.antt =====
-- src/actions/mock.ts, `MockActionClient`: the restart boundary of the mock fixture.
use agentv.Base.{
  Bool, true, false, ◌&&◌, [], ◌∷◌, Option, none, some, String, ◌==◌, ◌!=◌, string_eq, option_eq,
  if◌then◌else◌, ◌≡◌, refl, subst, inl, inr, Option-cases, Bool-cases,
}
use agentv.Base.Json.{text, field, end}
use agentv.Base.Result.{Result, ok, err}
use agentv.Base.Text.{concat}
use agentv.Errors.{
  ToolExecutionError, ToolErrorCode, tool_error_with, tool_timeout, permission_denied,
  precondition_failed,
}
use agentv.Actions.Types.{RestartRequest, RestartReceipt, ServiceState, HelperCapabilities, success}

-- `completed`, a map from operation ids.
pub record CompletedMockAction : Type 0 where
  pub request : RestartRequest
  pub receipt : RestartReceipt

pub record MockActionClient : Type 0 where
  pub completed : String → Option CompletedMockAction

abbrev mock_unit : String
mock_unit = "ssh.service"

abbrev mock_state : ServiceState
mock_state = record {
  active_state = "active";
  sub_state = "running";
  invocation_id = some "mock-invocation";
}

abbrev pub same_request : RestartRequest → RestartRequest → Bool
same_request l r =
    l.operation_id == r.operation_id
    && l.unit == r.unit
    && l.reason == r.reason
    && l.expected_active_state == r.expected_active_state
    && l.expected_sub_state == r.expected_sub_state
    && l.expected_invocation_id == r.expected_invocation_id

abbrev not_started : ToolErrorCode → String → ToolExecutionError
not_started code message = tool_error_with code message (field "outcome" (text "not_started") end)

abbrev pub ensure_not_aborted : Bool → Option ToolExecutionError
ensure_not_aborted true = some (not_started tool_timeout "Mock action was aborted")
ensure_not_aborted false = none

unfoldable pub capabilities : Bool → Result ToolExecutionError HelperCapabilities
capabilities aborted = elim (ensure_not_aborted aborted) [
  | some e ↦ err e
  | none ↦ ok (record { policy_valid = true; restart_services = mock_unit ∷ [] })
]

abbrev wrong_invocation : Option String → Bool
wrong_invocation none = false
wrong_invocation (some i) = i != "mock-invocation"

unfoldable pub mismatch : RestartRequest → Option String
mismatch r =
    if r.expected_active_state != "active"
    then some "active_state"
    else if r.expected_sub_state != "running"
    then some "sub_state"
    else if wrong_invocation r.expected_invocation_id
    then some "invocation_id"
    else none

abbrev mismatch_message : String → String
mismatch_message m = concat (
    "Restart precondition " ∷ m
    ∷ " does not match the current service. Read get_service again before requesting another restart."
    ∷ [])

abbrev pub receipt_of : RestartRequest → String → String → RestartReceipt
receipt_of r started completed = record {
  operation_id = r.operation_id;
  unit = r.unit;
  outcome = success;
  before = mock_state;
  after =
      some (record mock_state {
        invocation_id = some (concat ("mock-restart-" ∷ r.operation_id ∷ []));
      });
  started_at = started;
  completed_at = some completed;
  systemd_job_result = some "done";
}

abbrev pub set : String → CompletedMockAction → MockActionClient → MockActionClient
set k a c = record c { completed = λ j. if k == j then some a else c.completed j }

-- The two times are what the clock shows.
unfoldable pub restart :
    RestartRequest
    → Bool
    → String
    → String
    → MockActionClient
    → Result ToolExecutionError RestartReceipt × MockActionClient
restart r aborted started completed c = elim (ensure_not_aborted aborted) [
  | some e ↦ (err e, c)
  | none ↦
      if r.unit != mock_unit
      then (err (not_started permission_denied "Service is not locally allowlisted"), c)
      else elim (c.completed r.operation_id) [
        | some prior ↦ if same_request prior.request r then (ok prior.receipt, c) else (
          err (
              not_started precondition_failed
                "Operation ID was already used with different arguments"),
          c,
        )
        | none ↦ elim (mismatch r) [
          | some m ↦ (err (not_started precondition_failed (mismatch_message m)), c)
          | none ↦
              let receipt = receipt_of r started completed in
              (ok receipt, set r.operation_id (record { request = r; receipt = receipt }) c)
        ]
      ]
]

same_text : (s : String) → (s == s) ≡ true
same_text s = (string_eq.beq_iff s s).1 refl

same_request_refl : (r : RestartRequest) → same_request r r ≡ true
same_request_refl r =
    rw
      (
        same_text r.operation_id,
        same_text r.unit,
        same_text r.reason,
        same_text r.expected_active_state,
        same_text r.expected_sub_state,
      )
      (((option_eq ⦃e = string_eq⦄).beq_iff r.expected_invocation_id r.expected_invocation_id).1
        refl)

recorded :
    (r : RestartRequest) (later earlier : String) (d : MockActionClient) (a : CompletedMockAction)
    → (r.unit != mock_unit) ≡ false
    → d.completed r.operation_id ≡ some a
    → same_request a.request r ≡ true
    → restart r false later earlier d ≡ (ok a.receipt, d)
unfolding restart
recorded r later earlier d a unit found same = rw (unit, found, same) refl

-- A restart that succeeded is answered by the same receipt when it is asked again, whatever the
-- clock shows, and asking again changes nothing.
pub restart_idempotent :
    (r : RestartRequest) (a b : String) (later earlier : String) (c d : MockActionClient)
    (x : RestartReceipt)
    → restart r false a b c ≡ (ok x, d)
    → restart r false later earlier d ≡ (ok x, d)
unfolding restart
restart_idempotent r a b later earlier c d x e = elim (Bool-cases (r.unit != mock_unit)) [
  | inl wrong ↦ cc (rw (wrong, restart) at e)
  | inr right ↦ elim (Option-cases (c.completed r.operation_id)) [
    | inl fresh ↦ elim (Option-cases (mismatch r)) [
      | inl fits ↦
          let h = (rw (right, fresh, fits, restart) at e) in
          subst
            (λ (p : Result ToolExecutionError RestartReceipt × MockActionClient).
              restart r false later earlier p.1 ≡ p)
            h
            (recorded r later earlier
              (set r.operation_id (record { request = r; receipt = receipt_of r a b }) c)
              (record { request = r; receipt = receipt_of r a b }) right
              (rw (same_text r.operation_id) refl) (same_request_refl r))
      | inr (m, unfit) ↦ cc (rw (right, fresh, unfit, restart) at e)
    ]
    | inr (prior, found) ↦ elim (Bool-cases (same_request prior.request r)) [
      | inl same ↦
          let h = (rw (right, found, same, restart) at e) in
          subst
            (λ (p : Result ToolExecutionError RestartReceipt × MockActionClient).
              restart r false later earlier p.1 ≡ p)
            h (recorded r later earlier c prior right found same)
      | inr other ↦ cc (rw (right, found, other, restart) at e)
    ]
  ]
]
