-- ===== src/Examples/Actions.antt =====
-- Runs of the privileged helper of src/actions.
use agentv.Base.{◌≤◌, String, ◌≡◌, ◌≢◌, ◌↔◌, ◌⊎◌, refl, true, false, List, [], ◌∷◌, none, some}
use agentv.Base.Json.{text, nat, arr, obj, field, end, Fields, cons, nil}
use agentv.Base.Result.{ok}
use agentv.Actions.Types.{
  RestartRequest, RestartReceipt, ServiceState, HelperError, success, unknown,
}
use agentv.Actions.Unit.{is_service_unit, is_protected_unit}
use agentv.Actions.Policy.{
  PolicyFile, Policy, load_policy, validate_policy, may_restart, is_operation_id,
  validate_restart_request,
}
use agentv.Actions.Policy.Safety.{IsPolicy, load_policy-IsPolicy}
use agentv.Actions.Helper.{
  Helper, Work, pruning, Event, receive, respond, policy, ledger_read, state, put_ok, command, done,
  pruned, run, continue_with, outcome_of, prune_error,
}
use agentv.Actions.Helper.Exclusion.{insiders, one_inside}
use agentv.Actions.Helper.Once.{Keeps, times, restarted_at_most_once}
use agentv.Actions.Helper.Outcomes.{StillWaits, IsAnswered, outcome_success, continue_with-IsHonest}

abbrev operation : String
operation = "0123456789abcdef01234567"

abbrev request_fields : Fields
request_fields = field "protocol_version" (nat 1) (
    field "action" (text "restart_service") (
      field "operation_id" (text operation) (
        field "unit" (text "nginx.service") (
          field "reason" (text "deploy") (
            field "expected_active_state" (text "active")
              (field "expected_sub_state" (text "running") end))))))

abbrev request : RestartRequest
request = record {
  operation_id = operation;
  unit = "nginx.service";
  reason = "deploy";
  expected_active_state = "active";
  expected_sub_state = "running";
  expected_invocation_id = none;
}

abbrev before : ServiceState
before = record { active_state = "active"; sub_state = "running"; invocation_id = some "a" }

abbrev after : ServiceState
after = record { active_state = "active"; sub_state = "running"; invocation_id = some "b" }

abbrev idle : Helper
idle = record { busy = false; ledger = λ k. none; tasks = []; restarts = []; replies = [] }

abbrev hash : RestartRequest → String
hash r = "h"

abbrev allowed : Policy
allowed = record { restart_services = "nginx.service" ∷ [] }

-- One restart, from the request to its receipt.
abbrev one_restart : List Event
one_restart =
    receive 1 (some (obj request_fields))
    ∷ respond 1 (policy (ok allowed))
    ∷ respond 1 (ledger_read "t0")
    ∷ respond 1 (state (ok before) "t1")
    ∷ respond 1 put_ok
    ∷ respond 1 (command done)
    ∷ respond 1 (state (ok after) "t2")
    ∷ respond 1 put_ok
    ∷ respond 1 (pruned [])
    ∷ []

one_inside_example :
    let h = run hash idle one_restart in
    (insiders h.tasks ≤ 1) × ((h.busy ≡ true) ↔ (insiders h.tasks ≡ 1))
unfolding insiders
one_inside_example = one_inside hash idle one_restart refl refl

kept : Keeps operation one_restart
kept = (refl, (refl, (refl, (refl, (refl, (refl, (refl, (refl, (refl, tt)))))))))

restarted_at_most_once_example :
    let h = run hash idle one_restart in
    (times operation h.restarts ≤ 1) × (h.ledger operation ≡ none → times operation h.restarts ≡ 0)
restarted_at_most_once_example =
    restarted_at_most_once operation hash idle one_restart refl refl refl kept

abbrev finished : String
finished = "done"

outcome_success_example : (outcome_of before (some after) finished ≡ success) ↔ (
    (finished ≡ "done")
    × ((a : ServiceState) × (some after ≡ some a)
        × (a.active_state ≡ "active")
        × (a.invocation_id ≢ before.invocation_id)))
outcome_success_example = outcome_success before (some after) finished

abbrev progress : RestartReceipt
progress = record {
  operation_id = operation;
  unit = "nginx.service";
  outcome = unknown;
  before = before;
  after = none;
  started_at = "t0";
  completed_at = none;
  systemd_job_result = none;
}

abbrev work : Work
work = record { request = request; hash = "h"; started_at = "t0" }

abbrev disk_full : HelperError
disk_full = record { code = none; message = "disk full"; outcome = none }

continue_with-IsHonest_example :
    let h = continue_with hash 1 (pruning work progress) (prune_error [] disk_full) idle in
    StillWaits 1 idle h ⊎ IsAnswered 1 idle h
continue_with-IsHonest_example =
    continue_with-IsHonest hash 1 (pruning work progress) (prune_error [] disk_full) idle refl

abbrev policy_file : PolicyFile
policy_file = record {
  is_file = true;
  size = 60;
  uid = 0;
  group_or_world_writable = false;
  contents = some (
      obj (
        field "schemaVersion" (nat 1)
          (field "restartServices" (arr (cons (text "nginx.service") nil)) end)));
}

policy_loads : load_policy policy_file ≡ ok allowed
unfolding load_policy validate_policy may_restart is_service_unit is_protected_unit
policy_loads = refl

load_policy-IsPolicy_example :
    (policy_file.is_file ≡ true)
    × (policy_file.size ≤ 65536)
    × (policy_file.uid ≡ 0)
    × (policy_file.group_or_world_writable ≡ false)
    × IsPolicy allowed
load_policy-IsPolicy_example = load_policy-IsPolicy policy_file allowed policy_loads

request_passes : validate_restart_request request_fields ≡ ok request
unfolding validate_restart_request is_operation_id is_service_unit is_protected_unit
request_passes = refl
