-- ===== src/Executor/Answers.antt =====
-- src/tools/executor.ts: which calls are answered, and how often, for every order of callbacks.
use agentv.Base.{
  ℕ, ◌+◌, ◌≡◌, refl, ◌∙◌, inl, inr, Bool, List, [], ◌∷◌, ◌++◌, none, some, ◌!=◌, ◌&&◌, nat_eq,
  option_eq, arith, Bool-cases, Option-cases, contains,
}
use agentv.Base.Result.{err, Result-cases}
use agentv.Errors.{tool}
use agentv.Metrics.{Key, increment}
use agentv.Registry.{ToolCapability}
use agentv.Executor.Authorize.{Env, Input, authorize}
use agentv.Executor.Gate.{take_call, queue_timeout, cancel_generation}
use agentv.Executor.{
  ToolExecutor, Event, Settled, lane, reject_all, start, on_queue_timer, on_resume, on_settle,
  on_exec_timer, on_late_settle, cancel_queued, on_set_generation, on_clear_generation, step, run,
  create, invoke, queue_timer, resume, settle, exec_timer, late_settle, set_active_generation,
  clear_active_generation, escape, timed_out, queue_timed_out,
}
use agentv.Executor.Counts.{
  one, tally, answered, invoked, waits, total, tally-one, answered-one, answered-append,
  take_call-tally, answered-reject_all, cancel-tally, enter_counts, release_lane_counts,
  finish_counts,
}

module _ (k : ℕ) where
  on_settle_counts :
      (env : Env) (cap : ToolCapability) (id : ℕ) (how : Settled) (s : ToolExecutor)
      → total k (on_settle env cap id how s) ≡ total k s
  unfolding on_settle
  on_settle_counts env ToolCapability.read id how s =
      elim (Option-cases (take_call id s.read.running)) [
        | inl e ↦ rw (e, on_settle) refl
        | inr ((c, rest), e) ↦
            let out = take_call-tally k id s.read.running c rest e in
            rw (e, on_settle) (finish_counts k ToolCapability.read c _ _ ∙ ground (arith, out))
      ]
  on_settle_counts env ToolCapability.write id how s =
      elim (Option-cases (take_call id s.write.running)) [
        | inl e ↦ rw (e, on_settle) refl
        | inr ((c, rest), e) ↦
            let out = take_call-tally k id s.write.running c rest e in
            rw (e, on_settle) (finish_counts k ToolCapability.write c _ _ ∙ ground (arith, out))
      ]

  on_resume_counts :
      (cap : ToolCapability) (id : ℕ) (s : ToolExecutor) → total k (on_resume cap id s) ≡ total k s
  unfolding on_resume
  on_resume_counts ToolCapability.read id s = elim (Option-cases (take_call id s.read.granted)) [
    | inl e ↦ rw (e, on_resume) refl
    | inr ((c, rest), e) ↦
        let out = take_call-tally k id s.read.granted c rest e in
        elim (Bool-cases (s.active_generation != some c.generation)) [
          | inl gone ↦
              rw (e, on_resume, gone)
                (finish_counts k ToolCapability.read c _ _ ∙ omega (arith, out))
          | inr here ↦ rw (e, on_resume, here) (omega (arith, out, tally-one k s.read.running c))
        ]
  ]
  on_resume_counts ToolCapability.write id s = elim (Option-cases (take_call id s.write.granted)) [
    | inl e ↦ rw (e, on_resume) refl
    | inr ((c, rest), e) ↦
        let out = take_call-tally k id s.write.granted c rest e in
        elim (Bool-cases (s.active_generation != some c.generation)) [
          | inl gone ↦
              rw (e, on_resume, gone)
                (finish_counts k ToolCapability.write c _ _ ∙ omega (arith, out))
          | inr here ↦ rw (e, on_resume, here) (omega (arith, out, tally-one k s.write.running c))
        ]
  ]

  on_exec_timer_counts :
      (cap : ToolCapability) (id : ℕ) (s : ToolExecutor)
      → total k (on_exec_timer cap id s) ≡ total k s
  unfolding on_exec_timer
  on_exec_timer_counts ToolCapability.read id s =
      elim (Option-cases (take_call id s.read.running)) [
        | inl e ↦ rw (e, on_exec_timer) refl
        | inr ((c, rest), e) ↦
            let out = take_call-tally k id s.read.running c rest e in
            rw (e, on_exec_timer)
              (omega (
                arith,
                out,
                answered-one k s.replies
                    (record { call_id = c.id; result = err (escape c (tool (timed_out c))) }),
              ))
      ]
  on_exec_timer_counts ToolCapability.write id s =
      elim (Option-cases (take_call id s.write.running)) [
        | inl e ↦ rw (e, on_exec_timer) refl
        | inr ((c, rest), e) ↦
            let out = take_call-tally k id s.write.running c rest e in
            rw (e, on_exec_timer)
              (omega (
                arith,
                out,
                answered-one k s.replies
                    (record { call_id = c.id; result = err (escape c (tool (timed_out c))) }),
              ))
      ]

  on_late_settle_counts :
      (cap : ToolCapability) (id : ℕ) (s : ToolExecutor)
      → total k (on_late_settle cap id s) ≡ total k s
  unfolding on_late_settle
  on_late_settle_counts ToolCapability.read id s =
      elim (Option-cases (take_call id s.read.detached)) [
        | inl e ↦ rw (e, on_late_settle) refl
        | inr ((c, rest), e) ↦
            let out = take_call-tally k id s.read.detached c rest e in
            rw (e, on_late_settle) (release_lane_counts k ToolCapability.read _)
      ]
  on_late_settle_counts ToolCapability.write id s =
      elim (Option-cases (take_call id s.write.detached)) [
        | inl e ↦ rw (e, on_late_settle) refl
        | inr ((c, rest), e) ↦
            let out = take_call-tally k id s.write.detached c rest e in
            rw (e, on_late_settle) (release_lane_counts k ToolCapability.write _)
      ]

  on_queue_timer_counts :
      (cap : ToolCapability) (id : ℕ) (s : ToolExecutor)
      → total k (on_queue_timer cap id s) ≡ total k s
  unfolding on_queue_timer queue_timeout
  on_queue_timer_counts ToolCapability.read id s =
      elim (Option-cases (take_call id s.read.gate.queue)) [
        | inl e ↦ rw (e, on_queue_timer) refl
        | inr ((c, rest), e) ↦
            let out = take_call-tally k id s.read.gate.queue c rest e in
            rw (e, on_queue_timer)
              (ground (
                arith,
                e,
                out,
                answered-one k s.replies (record { call_id = c.id; result = queue_timed_out }),
              ))
      ]
  on_queue_timer_counts ToolCapability.write id s =
      elim (Option-cases (take_call id s.write.gate.queue)) [
        | inl e ↦ rw (e, on_queue_timer) refl
        | inr ((c, rest), e) ↦
            let out = take_call-tally k id s.write.gate.queue c rest e in
            rw (e, on_queue_timer)
              (ground (
                arith,
                e,
                out,
                answered-one k s.replies (record { call_id = c.id; result = queue_timed_out }),
              ))
      ]

  start_counts :
      (env : Env) (id : ℕ) (w : Bool) (input : Input) (s : ToolExecutor)
      → total k (start env id w input s) ≡ one k id + total k s
  unfolding start
  start_counts env id w input s =
      elim (Result-cases
        (authorize env s.active_generation w input (increment Key.tool_calls s.metrics)).0) [
          | inl (t, e) ↦ rw (e, start) (enter_counts k t.capability _ _)
          | inr (x, e) ↦
              rw (e, start)
                (omega (arith, answered-one k s.replies (record { call_id = id; result = err x })))
        ]

  cancel_queued_counts : (s : ToolExecutor) → total k (cancel_queued s) ≡ total k s
  unfolding cancel_queued
  cancel_queued_counts s =
      let g = s.read.gate in
      let h = s.write.gate in
      let b = s.budget in
      let b' = (cancel_generation none g b).2 in
      ground (
        arith,
        cancel-tally k g b,
        cancel-tally k h b',
        answered-append k s.replies (
            reject_all (cancel_generation none g b).0
            ++ reject_all (cancel_generation none h b').0),
        answered-append k (reject_all (cancel_generation none g b).0)
            (reject_all (cancel_generation none h b').0),
        answered-reject_all k (cancel_generation none g b).0,
        answered-reject_all k (cancel_generation none h b').0,
      )

  step_counts :
      (env : Env) (s : ToolExecutor) (e : Event)
      → total k (step env s e) ≡ invoked k (e ∷ []) + total k s
  unfolding step on_set_generation on_clear_generation invoked
  step_counts env s (invoke id w input) = omega (arith, start_counts env id w input s)
  step_counts env s (queue_timer cap id) =
      elim (Bool-cases (contains (lane cap s).gate.timers id)) [
        | inl armed ↦ rw armed (omega (arith, on_queue_timer_counts cap id s))
        | inr off ↦ rw off (omega arith)
      ]
  step_counts env s (resume cap id) = omega (arith, on_resume_counts cap id s)
  step_counts env s (settle cap id how) = omega (arith, on_settle_counts env cap id how s)
  step_counts env s (exec_timer cap id) = omega (arith, on_exec_timer_counts cap id s)
  step_counts env s (late_settle cap id) = omega (arith, on_late_settle_counts cap id s)
  step_counts env s (set_active_generation gen) =
      elim (Bool-cases (s.active_generation != none && s.active_generation != some gen)) [
        | inl other ↦ rw other (omega (arith, cancel_queued_counts s))
        | inr same ↦ rw same (omega arith)
      ]
  step_counts env s clear_active_generation =
      omega (arith, cancel_queued_counts (record s { active_generation = none }))

  invoked-cons :
      (e : Event) (es : List Event) → invoked k (e ∷ es) ≡ invoked k (e ∷ []) + invoked k es
  unfolding invoked
  invoked-cons e es = ground arith

  run_counts :
      (env : Env) (s : ToolExecutor) (es : List Event)
      → total k (run env s es) ≡ invoked k es + total k s
  unfolding run invoked
  run_counts env s [] = omega arith
  run_counts env s (e ∷ es) =
      run_counts env (step env s e) es ∙ omega (arith, step_counts env s e, invoked-cons e es)

-- After any callbacks in any order, and for each id, the runs of `execute` with this id are its answers
-- and those of its calls that still wait in a queue, are granted or run: each run is answered exactly
-- once, unless it has not ended.
pub run_answers :
    (env : Env) (es : List Event) (id : ℕ)
    → let s = run env (create env) es in
      answered id s.replies + waits id s.read + waits id s.write ≡ invoked id es
unfolding create answered tally
run_answers env es id = run_counts id env (create env) es ∙ omega arith
