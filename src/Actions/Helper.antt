-- ===== src/Actions/Helper.antt =====
-- src/actions/helper.ts, `ActionHelper.handleRequest`. A request is cut at its awaits: `Phase` says
-- what a request awaits, and `step` is what happens from one await to the next. The awaited call's
-- result is in the event, but for the ledger, which is the helper's own state.
pub mod Exclusion
pub mod Once
pub mod Outcomes
use agentv.Base.{
  ℕ, suc, ◌+◌, String, Bool, true, false, not, ◌&&◌, ◌||◌, List, [], ◌∷◌, ◌++◌, Option, none, some,
  ◌==◌, ◌!=◌, nat_eq, string_eq, option_eq, if◌then◌else◌, contains, any,
}
use agentv.Base.Json.{Value, Fields, nat, text, arr, obj, get}
use agentv.Base.Result.{Result, ok, err}
use agentv.Base.Text.{concat}
use agentv.Actions.Types.{
  RestartRequest, RestartReceipt, Outcome, success, failed, unknown, ServiceState, LedgerRecord,
  HelperError, HelperCapabilities,
}
use agentv.Actions.Policy.{
  Policy, plain_error, error_code, foreign_keys, is_one, text_at, validate_restart_request,
}

-- The request, the hash of it, and what `try` has set so far.
pub record Work : Type 0 where
  pub request : RestartRequest
  pub hash : String
  pub started_at : String

pub data Phase : Type 0 where
  loading_capabilities : Phase
  loading_policy : RestartRequest → Phase
  reading_ledger : RestartRequest → Phase
  reading_before : Work → Phase
  putting_progress : Work → RestartReceipt → Phase
  restarting : Work → RestartReceipt → Phase
  reading_after : Work → RestartReceipt → String → Phase
  putting_final : Work → RestartReceipt → Phase
  pruning : Work → RestartReceipt → Phase

pub record Task : Type 0 where
  pub id : ℕ
  pub phase : Phase

pub data Answer : Type 0 where
  capabilities : HelperCapabilities → Answer
  receipt : RestartReceipt → Answer
  refused : HelperError → Answer

pub record Reply : Type 0 where
  pub task : ℕ
  pub answer : Answer

-- `restarts` lists the operation ids of the restarts that were commanded, the last one first.
pub record Helper : Type 0 where
  pub busy : Bool
  pub ledger : String → Option LedgerRecord
  pub tasks : List Task
  pub restarts : List String
  pub replies : List Reply

pub data CommandResult : Type 0 where
  done timed_out broken : CommandResult

-- The `put` of a record that throws may have renamed the file before it threw.
pub data Response : Type 0 where
  policy : Result HelperError Policy → Response
  ledger_read : String → Response
  ledger_error : HelperError → Response
  state : Result HelperError ServiceState → String → Response
  put_ok : Response
  put_error : Bool → HelperError → Response
  command : CommandResult → Response
  pruned : List String → Response
  prune_error : List String → HelperError → Response

pub data Event : Type 0 where
  receive : ℕ → Option Value → Event
  respond : ℕ → Response → Event

abbrev pub write_record :
    String → LedgerRecord → (String → Option LedgerRecord) → String → Option LedgerRecord
write_record k r l j = if k == j then some r else l j

abbrev pub drop_records :
    List String → (String → Option LedgerRecord) → String → Option LedgerRecord
drop_records ks l j = if contains ks j then none else l j

abbrev pub reply : ℕ → Answer → Helper → Helper
reply id a h = record h { replies = record { task = id; answer = a } ∷ h.replies }

abbrev pub await : ℕ → Phase → Helper → Helper
await id p h = record h { tasks = record { id = id; phase = p } ∷ h.tasks }

abbrev invalid : String → Answer
invalid m = refused (error_code "INVALID_ARGUMENTS" m)

abbrev is_action : String → Fields → Bool
is_action a fs = text_at "action" fs == some a

-- `handleRequest` up to its first await.
unfoldable pub receive_request : ℕ → Option Value → Helper → Helper
receive_request id none h = reply id (invalid "Malformed JSON") h
receive_request id (some (obj fs)) h =
    if not (is_one (get "protocol_version" fs))
    then reply id (invalid "Unsupported helper protocol") h
    else if is_action "capabilities" fs
    then if foreign_keys ("protocol_version" ∷ "action" ∷ []) fs
      then reply id (invalid "Invalid capabilities request") h
      else await id loading_capabilities h
    else if not (is_action "restart_service" fs)
    then reply id (invalid "Unsupported action") h
    else elim (validate_restart_request fs) [
      | err e ↦ reply id (refused e) h
      | ok r ↦ await id (loading_policy r) h
    ]
receive_request id (some _) h = reply id (invalid "Invalid request") h

abbrev pub failing : HelperError → HelperError
failing e = record e { code = some "HOST_UNAVAILABLE"; outcome = some "unknown" }

-- The `finally` of the critical section, with its answer.
abbrev pub leave : ℕ → Answer → Helper → Helper
leave id a h = record (reply id a h) { busy = false }

abbrev mismatch : RestartRequest → ServiceState → Option String
mismatch r s =
    if s.active_state != r.expected_active_state
    then some "active_state"
    else if s.sub_state != r.expected_sub_state
    then some "sub_state"
    else elim r.expected_invocation_id [
      | none ↦ none
      | some i ↦
          if i == "" then none else if s.invocation_id != some i then some "invocation_id" else none
    ]

abbrev mismatch_message : String → String
mismatch_message m = concat (
    "Restart precondition " ∷ m
    ∷ " does not match the current service. Read get_service again before requesting another restart."
    ∷ [])

-- The outcome of a restart, from the states around it and the result of the command.
unfoldable pub outcome_of : ServiceState → Option ServiceState → String → Outcome
outcome_of before none job = unknown
outcome_of before (some after) job =
    let changed = after.active_state == "active" && after.invocation_id != before.invocation_id in
    if job == "timeout" then unknown else if job == "done" && changed then success else failed

abbrev job_result : CommandResult → String
job_result done = "done"
job_result timed_out = "timeout"
job_result broken = "failed"

abbrev progress_receipt : Work → ServiceState → RestartReceipt
progress_receipt w before = record {
  operation_id = w.request.operation_id;
  unit = w.request.unit;
  outcome = unknown;
  before = before;
  after = none;
  started_at = w.started_at;
  completed_at = none;
  systemd_job_result = none;
}

abbrev record_of : Work → RestartReceipt → String → LedgerRecord
record_of w r at = record {
  request_hash = w.hash;
  request = w.request;
  receipt = r;
  updated_at = at;
}

abbrev final_time : RestartReceipt → String
final_time r = elim r.completed_at [ none ↦ "" | some t ↦ t ]

-- A failed `put` leaves the record if it got as far as the rename.
abbrev put_if :
    Bool → String → LedgerRecord → (String → Option LedgerRecord) → String → Option LedgerRecord
put_if true k r l = write_record k r l
put_if false k r l = l

-- The continuation after `ledger.get`, the entry into the critical section included.
unfoldable pub after_ledger : String → String → ℕ → RestartRequest → Helper → Helper
after_ledger hash now id r h = elim (h.ledger r.operation_id) [
  | some prior ↦
      if prior.request_hash != hash
      then reply id
          (refused (
            error_code "PRECONDITION_FAILED"
              "Operation ID was already used with different arguments"))
          h
      else reply id (receipt prior.receipt) h
  | none ↦
      if h.busy
      then reply id
          (refused (record {
            code = some "TOOL_BUSY";
            message = "Another restart is in progress";
            outcome = some "not_started";
          }))
          h
      else await id (reading_before (record { request = r; hash = hash; started_at = now }))
          (record h { busy = true })
]

abbrev seen_of : Result HelperError ServiceState → Option ServiceState
seen_of (ok s) = some s
seen_of (err e) = none

-- What a request does with the result that it awaited. `hash` is `requestHash`. A response of
-- another kind than the awaited one does not occur.
unfoldable pub continue_with : (RestartRequest → String) → ℕ → Phase → Response → Helper → Helper
continue_with hash id loading_capabilities (policy (ok p)) h =
    reply id (capabilities (record { policy_valid = true; restart_services = p.restart_services }))
      h
continue_with hash id loading_capabilities (policy (err e)) h = reply id (refused e) h
continue_with hash id (loading_policy r) (policy (err e)) h = reply id (refused e) h
continue_with hash id (loading_policy r) (policy (ok p)) h =
    if contains p.restart_services r.unit
    then await id (reading_ledger r) h
    else reply id (refused (error_code "PERMISSION_DENIED" "Service is not locally allowlisted")) h
continue_with hash id (reading_ledger r) (ledger_error e) h = reply id (refused e) h
continue_with hash id (reading_ledger r) (ledger_read now) h = after_ledger (hash r) now id r h
continue_with hash id (reading_before w) (state (err e) at) h = leave id (refused e) h
continue_with hash id (reading_before w) (state (ok s) at) h = elim (mismatch w.request s) [
  | some m ↦ leave id (refused (error_code "PRECONDITION_FAILED" (mismatch_message m))) h
  | none ↦ await id (putting_progress w (progress_receipt w s)) h
]
continue_with hash id (putting_progress w r) (put_error written e) h =
    leave id (refused e) (record h {
      ledger = put_if written w.request.operation_id (record_of w r w.started_at) h.ledger;
    })
continue_with hash id (putting_progress w r) put_ok h = await id (restarting w r) (record h {
  ledger = write_record w.request.operation_id (record_of w r w.started_at) h.ledger;
  restarts = w.request.operation_id ∷ h.restarts;
})
continue_with hash id (restarting w r) (command c) h = await id (reading_after w r (job_result c)) h
continue_with hash id (reading_after w r job) (state after at) h =
    let seen = seen_of after in
    await id
      (putting_final w (record r {
        outcome = outcome_of r.before seen job;
        after = seen;
        completed_at = some at;
        systemd_job_result = some job;
      }))
      h
continue_with hash id (putting_final w r) (put_error written e) h =
    leave id (refused (failing e)) (record h {
      ledger = put_if written w.request.operation_id (record_of w r (final_time r)) h.ledger;
    })
continue_with hash id (putting_final w r) put_ok h = await id (pruning w r) (record h {
  ledger = write_record w.request.operation_id (record_of w r (final_time r)) h.ledger;
})
continue_with hash id (pruning w r) (pruned ks) h =
    leave id (receipt r) (record h { ledger = drop_records ks h.ledger })
continue_with hash id (pruning w r) (prune_error ks e) h =
    leave id (refused (failing e)) (record h { ledger = drop_records ks h.ledger })
continue_with hash id p x h = await id p h

-- Takes the task with this id out of the list.
unfoldable pub take_task : ℕ → List Task → Option (Task × List Task)
take_task id [] = none
take_task id (t ∷ ts) =
    let rest = take_task id ts in
    if t.id == id then some (t, ts) else elim rest [ none ↦ none | some (u, us) ↦ some (u, t ∷ us) ]

unfoldable pub step : (RestartRequest → String) → Helper → Event → Helper
step hash h (receive id line) = receive_request id line h
step hash h (respond id x) = elim (take_task id h.tasks) [
  | none ↦ h
  | some (t, rest) ↦ continue_with hash id t.phase x (record h { tasks = rest })
]

unfoldable pub run : (RestartRequest → String) → Helper → List Event → Helper
run hash h [] = h
run hash h (e ∷ es) = run hash (step hash h e) es
