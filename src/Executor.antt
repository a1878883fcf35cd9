-- ===== src/Executor.antt =====
-- src/tools/executor.ts, `ToolExecutor`. A run of `execute` is cut at its awaits: `Event` has one
-- constructor for each callback that the event loop may make, and `step` is what that callback does
-- up to the next await.
pub mod Gate
pub mod Authorize
pub mod Balance
pub mod Invariant
pub mod Bounds
pub mod Counts
pub mod Answers
pub mod Sessions
use mathlib.Core.List.{reverse}
use agentv.Base.{
  ℕ, ◌+◌, String, Bool, true, false, not, ◌&&◌, ◌||◌, List, [], ◌∷◌, ◌++◌, map, Option, none, some,
  ltb, leb, ◌==◌, ◌!=◌, nat_eq, option_eq, if◌then◌else◌, remove, contains,
}
use agentv.Base.Json.{Value, text, Fields, end, field, put}
use agentv.Base.Json
use agentv.Base.Result.{Result, ok, err}
use agentv.Base.Text.{concat}
use agentv.Errors.{
  ToolExecutionError, tool_not_allowed, tool_timeout, tool_busy, output_too_large, internal_error,
  Thrown, tool, map_host_error, tool_error, tool_error_with,
}
use agentv.Metrics.{RuntimeCounters, Key, increment, initial}
use agentv.Registry.{ToolCapability, read, write}
use Gate.{
  Call, QueueBudget, granted, queued, busy, acquire, release, take_call, queue_timeout,
  cancel_generation,
}
use Authorize.{Serialized, throws, undefined, bytes, Env, Input, authorize, operation_id}

-- A gate with the calls that hold it: `granted` calls have a resolved `acquire` and not gone on,
-- `running` calls await their handler or their timer, `detached` calls have timed out and hold the
-- gate until their handler settles.
pub record Lane : Type 0 where
  pub gate : Gate.Gate
  pub granted : List Call
  pub running : List Call
  pub detached : List Call

pub record Reply : Type 0 where
  pub call_id : ℕ
  pub result : Result ToolExecutionError (Option Value)

-- The set of controllers of one generation, by the ids of their calls.
pub record Controllers : Type 0 where
  pub generation : ℕ
  pub ids : List ℕ

-- `controllers` is the map `activeControllers`.
-- `aborted` holds the calls whose controller was aborted.
pub record ToolExecutor : Type 0 where
  pub active_generation : Option ℕ
  pub read : Lane
  pub write : Lane
  pub budget : QueueBudget
  pub controllers : List Controllers
  pub aborted : List ℕ
  pub metrics : RuntimeCounters
  pub replies : List Reply

abbrev pub lane : ToolCapability → ToolExecutor → Lane
lane ToolCapability.read s = s.read
lane ToolCapability.write s = s.write

abbrev pub set_lane : ToolCapability → Lane → QueueBudget → ToolExecutor → ToolExecutor
set_lane ToolCapability.read l b s = record s { read = l; budget = b }
set_lane ToolCapability.write l b s = record s { write = l; budget = b }

abbrev pub answer : Call → Result ToolExecutionError (Option Value) → ToolExecutor → ToolExecutor
answer c r s = record s { replies = s.replies ++ record { call_id = c.id; result = r } ∷ [] }

abbrev pub count : Key → ToolExecutor → ToolExecutor
count k s = record s { metrics = increment k s.metrics }

-- `activeControllers.get(generation) || new Set()`, `add` and `set`
abbrev register : ℕ → ℕ → List Controllers → List Controllers
register gen id [] = record { generation = gen; ids = id ∷ [] } ∷ []
register gen id (c ∷ cs) =
    if c.generation == gen then record c { ids = c.ids ++ id ∷ [] } ∷ cs else c ∷ register gen id cs

abbrev drop_if_empty : Controllers → List ℕ → List Controllers → List Controllers
drop_if_empty c [] cs = cs
drop_if_empty c (id ∷ ids) cs = record c { ids = id ∷ ids } ∷ cs

-- `controllers.delete(controller)`, and the entry goes when its set is empty.
abbrev unregister : ℕ → ℕ → List Controllers → List Controllers
unregister gen id [] = []
unregister gen id (c ∷ cs) =
    if c.generation == gen then drop_if_empty c (remove id c.ids) cs else c ∷ unregister gen id cs

abbrev pub controller_ids : List Controllers → List ℕ
controller_ids [] = []
controller_ids (c ∷ cs) = c.ids ++ controller_ids cs

-- `release` of the call's gate; the next call in the queue gets what was released.
unfoldable pub release_lane : ToolCapability → ToolExecutor → ToolExecutor
release_lane cap s =
    let (next, g, b) = release (lane cap s).gate s.budget in
    elim next [
      | none ↦ set_lane cap (record (lane cap s) { gate = g }) b s
      | some c ↦
          set_lane cap (record (lane cap s) { gate = g; granted = (lane cap s).granted ++ c ∷ [] })
            b s
    ]

-- An error that leaves the `try` of `execute`: a write that may have started has an outcome.
unfoldable pub escape : Call → Thrown → ToolExecutionError
escape c e =
    let mapped = map_host_error e in
    elim c.capability [
      | ToolCapability.read ↦ mapped
      | ToolCapability.write ↦
          if Json.truthy (Json.get "outcome" mapped.details) then mapped else record mapped {
            details =
                put "operationId" (text c.operation_id)
                  (put "outcome" (text "unknown") mapped.details);
          }
    ]

abbrev outcome_unknown : Call → Fields → Fields
outcome_unknown c fs = elim c.capability [ ToolCapability.read ↦ end | ToolCapability.write ↦ fs ]

-- What a handler's promise does.
pub data Settled : Type 0 where
  returned : Option Value → Settled
  threw : Thrown → Settled

pub data Event : Type 0 where
  invoke : ℕ → Bool → Input → Event
  queue_timer : ToolCapability → ℕ → Event
  resume : ToolCapability → ℕ → Event
  settle : ToolCapability → ℕ → Settled → Event
  exec_timer : ToolCapability → ℕ → Event
  late_settle : ToolCapability → ℕ → Event
  set_active_generation : ℕ → Event
  clear_active_generation : Event

-- `gates[tool.capability].acquire(…)`; a full queue is counted and thrown on.
unfoldable pub enter : ToolCapability → Call → ToolExecutor → ToolExecutor
enter cap c s =
    let l = lane cap s in
    let (how, g, b) = acquire c l.gate s.budget in
    elim how [
      | granted ↦ set_lane cap (record l { gate = g; granted = l.granted ++ c ∷ [] }) b s
      | queued ↦ set_lane cap (record l { gate = g }) b s
      | busy ↦
          answer c (err (tool_error tool_busy "Tool executor queue is full"))
            (count Key.queue_saturation s)
    ]

-- `execute` up to its first await. Its `id` is new, and `local_write` what the caller's function says.
unfoldable pub start : Env → ℕ → Bool → Input → ToolExecutor → ToolExecutor
start env id local_write input s =
    let (checked, m) =
      authorize env s.active_generation local_write input (increment Key.tool_calls s.metrics) in
    let counted = record s { metrics = m } in
    elim checked [
      | err e ↦ record counted {
        replies = s.replies ++ record { call_id = id; result = err e } ∷ [];
      }
      | ok t ↦
          enter t.capability
            (record {
              id = id;
              name = input.name;
              capability = t.capability;
              generation = input.policy.generation;
              operation_id = operation_id env input;
            })
            counted
    ]

abbrev queue_timed_out : Result ToolExecutionError (Option Value)
queue_timed_out = err (
    tool_error_with tool_timeout "Tool timed out in the execution queue"
      (field "phase" (text "queue") (field "outcome" (text "not_started") end)))

-- The timer of a queued call.
unfoldable pub on_queue_timer : ToolCapability → ℕ → ToolExecutor → ToolExecutor
on_queue_timer cap id s =
    let l = lane cap s in
    elim (take_call id l.gate.queue) [
      | none ↦ s
      | some (c, _) ↦
          let (g, b) = queue_timeout id l.gate s.budget in
          answer c queue_timed_out (count Key.timeouts (set_lane cap (record l { gate = g }) b s))
    ]

-- The `finally` of a call whose handler is over.
abbrev finish :
    ToolCapability → Call → Result ToolExecutionError (Option Value) → ToolExecutor → ToolExecutor
finish cap c r s =
    release_lane cap
      (record (answer c r s) { controllers = unregister c.generation c.id s.controllers })

abbrev pub inactive : Thrown
inactive = tool (tool_error tool_not_allowed "Tool session is no longer active")

-- The continuation after `acquire`: the controller is registered, the session checked again, and
-- the handler starts.
unfoldable pub on_resume : ToolCapability → ℕ → ToolExecutor → ToolExecutor
on_resume cap id s =
    let l = lane cap s in
    elim (take_call id l.granted) [
      | none ↦ s
      | some (c, rest) ↦
          let registered = record s { controllers = register c.generation c.id s.controllers } in
          if s.active_generation != some c.generation
          then finish cap c (err (escape c inactive))
              (set_lane cap (record l { granted = rest }) s.budget registered)
          else set_lane cap (record l { granted = rest; running = l.running ++ c ∷ [] }) s.budget
              registered
    ]

abbrev pub too_large : Call → ToolExecutionError
too_large c = tool_error_with output_too_large "Tool result exceeds the configured size limit" (
    outcome_unknown c
      (field "outcome" (text "unknown") (field "operationId" (text c.operation_id) end)))

-- What `execute` returns or throws when the handler's promise wins, and what it counts.
unfoldable pub conclude :
    Env → Option ℕ → Call → Settled → Result ToolExecutionError (Option Value) × Bool
conclude env active c (threw e) = (err (escape c e), false)
conclude env active c (returned v) =
    let result = env.redact v in
    if active != some c.generation
    then (err (escape c inactive), false)
    else elim (env.serialize result) [
      | throws ↦ (err (escape c (Thrown.other "")), false)
      | undefined ↦
          (err (escape c (tool (tool_error internal_error "Tool returned no result"))), false)
      | bytes n ↦
          if ltb env.max_output_bytes n
          then (err (escape c (tool (too_large c))), true)
          else (ok result, false)
    ]

unfoldable pub on_settle : Env → ToolCapability → ℕ → Settled → ToolExecutor → ToolExecutor
on_settle env cap id how s =
    let l = lane cap s in
    elim (take_call id l.running) [
      | none ↦ s
      | some (c, rest) ↦
          let (r, truncated) = conclude env s.active_generation c how in
          finish cap c r (
            set_lane cap (record l { running = rest }) s.budget
              (if truncated then count Key.truncations s else s))
    ]

abbrev timed_out : Call → ToolExecutionError
timed_out c = tool_error_with tool_timeout (concat ("Tool '" ∷ c.name ∷ "' timed out" ∷ [])) (
    field "phase" (text "execution") (
      field "operationId" (text c.operation_id)
        (outcome_unknown c (field "outcome" (text "unknown") end))))

-- The timer of a running call: its controller aborts, and the call keeps the gate until its
-- handler settles.
unfoldable pub on_exec_timer : ToolCapability → ℕ → ToolExecutor → ToolExecutor
on_exec_timer cap id s =
    let l = lane cap s in
    elim (take_call id l.running) [
      | none ↦ s
      | some (c, rest) ↦ answer c (err (escape c (tool (timed_out c)))) (
          set_lane cap (record l { running = rest; detached = l.detached ++ c ∷ [] }) s.budget
            (record (count Key.timeouts s) {
              controllers = unregister c.generation c.id s.controllers;
              aborted = s.aborted ++ c.id ∷ [];
            }))
    ]

-- `handler.catch(() => undefined).finally(release)`
unfoldable pub on_late_settle : ToolCapability → ℕ → ToolExecutor → ToolExecutor
on_late_settle cap id s =
    let l = lane cap s in
    elim (take_call id l.detached) [
      | none ↦ s
      | some (c, rest) ↦ release_lane cap (set_lane cap (record l { detached = rest }) s.budget s)
    ]

abbrev pub reject_all : List Call → List Reply
reject_all = map λ c. record {
  call_id = c.id;
  result = err (tool_error tool_not_allowed "Tool session generation is no longer active");
}

-- `cancelQueued`: the read queue, the write queue, and every controller.
unfoldable pub cancel_queued : ToolExecutor → ToolExecutor
cancel_queued s =
    let (r, g, b) = cancel_generation none s.read.gate s.budget in
    let (w, h, b') = cancel_generation none s.write.gate b in
    record s {
      read = record s.read { gate = g };
      write = record s.write { gate = h };
      budget = b';
      aborted = s.aborted ++ controller_ids s.controllers;
      replies = s.replies ++ (reject_all r ++ reject_all w);
    }

unfoldable pub on_set_generation : ℕ → ToolExecutor → ToolExecutor
on_set_generation gen s =
    let other = s.active_generation != none && s.active_generation != some gen in
    record (if other then cancel_queued s else s) { active_generation = some gen }

unfoldable pub on_clear_generation : ToolExecutor → ToolExecutor
on_clear_generation s = cancel_queued (record s { active_generation = none })

unfoldable pub step : Env → ToolExecutor → Event → ToolExecutor
step env s (invoke id local_write input) = start env id local_write input s
step env s (queue_timer cap id) =
    if contains (lane cap s).gate.timers id then on_queue_timer cap id s else s
step env s (resume cap id) = on_resume cap id s
step env s (settle cap id how) = on_settle env cap id how s
step env s (exec_timer cap id) = on_exec_timer cap id s
step env s (late_settle cap id) = on_late_settle cap id s
step env s (set_active_generation gen) = on_set_generation gen s
step env s clear_active_generation = on_clear_generation s

unfoldable pub run : Env → ToolExecutor → List Event → ToolExecutor
run env s [] = s
run env s (e ∷ es) = run env (step env s e) es

abbrev pub idle_lane : ℕ → Lane
idle_lane n = record {
  gate = record { concurrency = n; active = 0; queue = []; timers = [] };
  granted = [];
  running = [];
  detached = [];
}

-- `new ToolExecutor(limits)`, with counters of its own
unfoldable pub create : Env → ToolExecutor
create env = record {
  active_generation = none;
  read = idle_lane env.read_concurrency;
  write = idle_lane env.write_concurrency;
  budget = record { queued = 0; limit = env.queue_limit };
  controllers = [];
  aborted = [];
  metrics = initial;
  replies = [];
}
