-- ===== src/Executor/Invariant.antt =====
-- What holds of the executor between two callbacks: src/tools/executor.ts, `ToolExecutor`.
use agentv.Base.{
  ℕ, suc, ◌+◌, ◌≡◌, refl, ap, ◌&&◌, inl, inr, Bool, true, List, [], ◌∷◌, ◌++◌, none, some, ◌!=◌,
  option_eq, arith, length, length-append, Bool-cases, Option-cases, contains, nat_eq,
}
use agentv.Base.Result.{err, Result-cases}
use agentv.Errors.{tool}
use agentv.Metrics.{Key, increment}
use agentv.Registry.{ToolCapability}
use agentv.Executor.Authorize.{Env, Input, authorize}
use agentv.Executor.Gate.{Call, take_call, cancel_generation}
use agentv.Executor.Gate.Slots.{
  take_call-length, queue_timeout-IsGate, queue_timeout_counts, cancel-IsGate, cancel_counts,
}
use agentv.Executor.Balance.{
  holders, Inv, authorize-tool_calls, release_lane-Inv, enter-Inv, finish-Inv, length-answer,
}
use agentv.Executor.{
  reject_all, invoke, queue_timer, resume, settle, exec_timer, late_settle, set_active_generation,
  clear_active_generation, ToolExecutor, Event, Settled, lane, start, escape, timed_out,
  queue_timed_out, on_queue_timer, on_resume, on_settle, on_exec_timer, on_late_settle,
  cancel_queued, on_set_generation, on_clear_generation, step, run,
}

on_settle-Inv :
    (env : Env) (cap : ToolCapability) (id : ℕ) (how : Settled) (s : ToolExecutor)
    → Inv env s
    → Inv env (on_settle env cap id how s)
unfolding on_settle
on_settle-Inv env ToolCapability.read id how s v =
    elim (Option-cases (take_call id s.read.running)) [
      | inl e ↦ rw (e, on_settle) v
      | inr ((c, rest), e) ↦
          let out = take_call-length id s.read.running c rest e in
          rw (e, on_settle) (finish-Inv ToolCapability.read c _ _ (ground (arith, out)))
    ]
on_settle-Inv env ToolCapability.write id how s v =
    elim (Option-cases (take_call id s.write.running)) [
      | inl e ↦ rw (e, on_settle) v
      | inr ((c, rest), e) ↦
          let out = take_call-length id s.write.running c rest e in
          rw (e, on_settle) (finish-Inv ToolCapability.write c _ _ (ground (arith, out)))
    ]

on_resume-Inv :
    {env : Env} (cap : ToolCapability) (id : ℕ) (s : ToolExecutor)
    → Inv env s
    → Inv env (on_resume cap id s)
unfolding on_resume
on_resume-Inv ToolCapability.read id s v = elim (Option-cases (take_call id s.read.granted)) [
  | inl e ↦ rw (e, on_resume) v
  | inr ((c, rest), e) ↦
      let out = take_call-length id s.read.granted c rest e in
      elim (Bool-cases (s.active_generation != some c.generation)) [
        | inl gone ↦
            rw (e, on_resume, gone) (finish-Inv ToolCapability.read c _ _ (ground (arith, out)))
        | inr here ↦
            rw (e, on_resume, here) (ground (arith, out, length-append s.read.running (c ∷ [])))
      ]
]
on_resume-Inv ToolCapability.write id s v = elim (Option-cases (take_call id s.write.granted)) [
  | inl e ↦ rw (e, on_resume) v
  | inr ((c, rest), e) ↦
      let out = take_call-length id s.write.granted c rest e in
      elim (Bool-cases (s.active_generation != some c.generation)) [
        | inl gone ↦
            rw (e, on_resume, gone) (finish-Inv ToolCapability.write c _ _ (ground (arith, out)))
        | inr here ↦
            rw (e, on_resume, here) (ground (arith, out, length-append s.write.running (c ∷ [])))
      ]
]

on_exec_timer-Inv :
    {env : Env} (cap : ToolCapability) (id : ℕ) (s : ToolExecutor)
    → Inv env s
    → Inv env (on_exec_timer cap id s)
unfolding on_exec_timer
on_exec_timer-Inv ToolCapability.read id s v = elim (Option-cases (take_call id s.read.running)) [
  | inl e ↦ rw (e, on_exec_timer) v
  | inr ((c, rest), e) ↦
      let out = take_call-length id s.read.running c rest e in
      rw (e, on_exec_timer)
        (ground (
          arith,
          out,
          length-append s.read.detached (c ∷ []),
          length-answer c (err (escape c (tool (timed_out c)))) s,
        ))
]
on_exec_timer-Inv ToolCapability.write id s v = elim (Option-cases (take_call id s.write.running)) [
  | inl e ↦ rw (e, on_exec_timer) v
  | inr ((c, rest), e) ↦
      let out = take_call-length id s.write.running c rest e in
      rw (e, on_exec_timer)
        (ground (
          arith,
          out,
          length-append s.write.detached (c ∷ []),
          length-answer c (err (escape c (tool (timed_out c)))) s,
        ))
]

on_late_settle-Inv :
    {env : Env} (cap : ToolCapability) (id : ℕ) (s : ToolExecutor)
    → Inv env s
    → Inv env (on_late_settle cap id s)
unfolding on_late_settle
on_late_settle-Inv ToolCapability.read id s v = elim (Option-cases (take_call id s.read.detached)) [
  | inl e ↦ rw (e, on_late_settle) v
  | inr ((c, rest), e) ↦
      let out = take_call-length id s.read.detached c rest e in
      rw (e, on_late_settle) (release_lane-Inv ToolCapability.read _ (ground (arith, out)))
]
on_late_settle-Inv ToolCapability.write id s v =
    elim (Option-cases (take_call id s.write.detached)) [
      | inl e ↦ rw (e, on_late_settle) v
      | inr ((c, rest), e) ↦
          let out = take_call-length id s.write.detached c rest e in
          rw (e, on_late_settle) (release_lane-Inv ToolCapability.write _ (ground (arith, out)))
    ]

on_queue_timer-Inv :
    {env : Env} (cap : ToolCapability) (id : ℕ) (s : ToolExecutor)
    → Inv env s
    → contains (lane cap s).gate.timers id ≡ true
    → Inv env (on_queue_timer cap id s)
unfolding on_queue_timer
on_queue_timer-Inv ToolCapability.read id s v h =
    elim (Option-cases (take_call id s.read.gate.queue)) [
      | inl e ↦ rw (e, on_queue_timer) v
      | inr ((c, rest), e) ↦
          rw (e, on_queue_timer)
            (ground (
              arith,
              queue_timeout-IsGate id s.read.gate s.budget (0 + holders s.read),
              queue_timeout_counts id s.read.gate s.budget,
              length-answer c queue_timed_out s,
            ))
    ]
on_queue_timer-Inv ToolCapability.write id s v h =
    elim (Option-cases (take_call id s.write.gate.queue)) [
      | inl e ↦ rw (e, on_queue_timer) v
      | inr ((c, rest), e) ↦
          rw (e, on_queue_timer)
            (ground (
              arith,
              queue_timeout-IsGate id s.write.gate s.budget (0 + holders s.write),
              queue_timeout_counts id s.write.gate s.budget,
              length-answer c queue_timed_out s,
            ))
    ]

start-Inv :
    (env : Env) (id : ℕ) (w : Bool) (input : Input) (s : ToolExecutor)
    → Inv env s
    → Inv env (start env id w input s)
unfolding start
start-Inv env id w input s v =
    let m = increment Key.tool_calls s.metrics in
    let same = authorize-tool_calls env s.active_generation w input m in
    elim (Result-cases (authorize env s.active_generation w input m).0) [
      | inl (t, e) ↦ rw (e, start) (enter-Inv t.capability _ _ (ground (arith, same)))
      | inr (x, e) ↦
          rw (e, start)
            (ground
              (arith, same, length-append s.replies (record { call_id = id; result = err x } ∷ [])))
    ]

length-reject_all : (cs : List Call) → length (reject_all cs) ≡ length cs
length-reject_all [] = refl
length-reject_all (c ∷ cs) = ap suc (length-reject_all cs)

cancel_queued-Inv : {env : Env} (s : ToolExecutor) → Inv env s → Inv env (cancel_queued s)
unfolding cancel_queued
cancel_queued-Inv s v =
    let g = s.read.gate in
    let h = s.write.gate in
    let b = s.budget in
    let b' = (cancel_generation none g b).2 in
    let r = cancel_counts g b (omega arith) in
    let w = cancel_counts h b' (omega (arith, r)) in
    ground (
      arith,
      cancel-IsGate g b (0 + holders s.read),
      cancel-IsGate h b' (0 + holders s.write),
      r,
      w,
      length-append s.replies
          (reject_all (cancel_generation none g b).0 ++ reject_all (cancel_generation none h b').0),
      length-append (reject_all (cancel_generation none g b).0)
          (reject_all (cancel_generation none h b').0),
      length-reject_all (cancel_generation none g b).0,
      length-reject_all (cancel_generation none h b').0,
    )

-- Every callback keeps the balance.
pub step-Inv : (env : Env) (s : ToolExecutor) (e : Event) → Inv env s → Inv env (step env s e)
unfolding step on_set_generation on_clear_generation
step-Inv env s (invoke id w input) v = start-Inv env id w input s v
step-Inv env s (queue_timer lane_cap id) v =
    elim (Bool-cases (contains (lane lane_cap s).gate.timers id)) [
      | inl armed ↦ rw armed (on_queue_timer-Inv lane_cap id s v armed)
      | inr idle ↦ rw idle v
    ]
step-Inv env s (resume lane_cap id) v = on_resume-Inv lane_cap id s v
step-Inv env s (settle lane_cap id how) v = on_settle-Inv env lane_cap id how s v
step-Inv env s (exec_timer lane_cap id) v = on_exec_timer-Inv lane_cap id s v
step-Inv env s (late_settle lane_cap id) v = on_late_settle-Inv lane_cap id s v
step-Inv env s (set_active_generation gen) v =
    elim (Bool-cases (s.active_generation != none && s.active_generation != some gen)) [
      | inl other ↦ rw other (ground (arith, cancel_queued-Inv s v))
      | inr same ↦ rw same (ground arith)
    ]
step-Inv env s clear_active_generation v =
    cancel_queued-Inv (record s { active_generation = none }) (ground arith)

pub run-Inv : (env : Env) (s : ToolExecutor) (es : List Event) → Inv env s → Inv env (run env s es)
unfolding run
run-Inv env s [] v = v
run-Inv env s (e ∷ es) v = run-Inv env (step env s e) es (step-Inv env s e v)
