-- ===== src/Examples/Boundary.antt =====
-- Runs of src/actions/client.ts, src/actions/mock.ts and src/actions/ledger.ts.
use agentv.Base.{◌≡◌, refl, true, false, List, [], ◌∷◌, none, some}
use agentv.Base.Json.{Value, bool, obj, field, end}
use agentv.Base.Result.{ok, err}
use agentv.Actions.Types.{RestartRequest, RestartReceipt}
use agentv.Actions.Client.{
  Platform, Call, Event, connected, chunk, timer_fired, call, run, step, on_event, on_data, line_of,
  finish, rejection,
}
use agentv.Actions.Client.Honesty.{HasReply, call_honest}
use agentv.Actions.Mock.{MockActionClient, receipt_of, set, restart, mismatch}

-- A platform on which each line is the rejection `{ "ok": false }`.
abbrev rejecting : Value
rejecting = obj (field "ok" (bool false) end)

abbrev platform : Platform
platform = record { parse = λ s. some rejecting; byte_length = λ s. 10 }

abbrev exchange : List Event
exchange = connected ∷ chunk "{}\n" ∷ timer_fired ∷ []

abbrev answered : Call
answered = run platform (call platform "{}" true false) exchange

call_settles : answered.settled ≡ some (err (rejection rejecting))
unfolding run step call on_event on_data line_of finish
call_settles = refl

call_was_sent : (answered.may_mutate ≡ true) × (answered.request_sent ≡ true)
unfolding run step call on_event on_data line_of finish
call_was_sent = (refl, refl)

call_honest_example : HasReply platform answered (rejection rejecting)
call_honest_example =
    call_honest platform "{}" false exchange (rejection rejecting) call_settles call_was_sent.0
      call_was_sent.1 (λ e. cc)

abbrev request : RestartRequest
request = record {
  operation_id = "0123456789abcdef01234567";
  unit = "ssh.service";
  reason = "test";
  expected_active_state = "active";
  expected_sub_state = "running";
  expected_invocation_id = none;
}

abbrev clean : MockActionClient
clean = record { completed = λ k. none }

abbrev first_receipt : RestartReceipt
first_receipt = receipt_of request "t0" "t1"

abbrev restarted : MockActionClient
restarted = set request.operation_id (record { request = request; receipt = first_receipt }) clean

restarts : restart request false "t0" "t1" clean ≡ (ok first_receipt, restarted)
unfolding restart mismatch
restarts = refl
