-- ===== src/Executor/Balance.antt =====
-- The balance that src/tools/executor.ts keeps between calls that run, wait and are answered.
use agentv.Base.{
  ℕ, suc, ◌+◌, ◌≤◌, ◌≡◌, refl, subst, ◌⊎◌, inl, inr, Bool, [], ◌∷◌, Option, option_eq, arith,
  length, length-append, Option-cases, nat_eq,
}
use agentv.Base.Result.{Result, err}
use agentv.Base.Json.{Value}
use agentv.Errors.{ToolExecutionError, tool_error, tool_busy}
use agentv.Metrics.{RuntimeCounters}
use agentv.Registry.{ToolCapability}
use agentv.Executor.Authorize.{Env, Input, authorize}
use agentv.Executor.Gate.{
  Acquired, granted, queued, busy, Call, acquire, release, take_call, queue_timeout,
  cancel_generation,
}
use agentv.Executor.Gate.Slots.{
  IsGate, acquire-IsGate, acquire_counts, release-IsGate, release_counts,
}
use agentv.Executor.Gate
use agentv.Executor.{Lane, ToolExecutor, enter, answer, finish, release_lane}

-- The calls that hold the lane's gate.
abbrev pub holders : Lane → ℕ
holders l = length l.granted + length l.running + length l.detached

-- The calls of the lane that have not been answered.
abbrev pub pending : Lane → ℕ
pending l = length l.gate.queue + length l.granted + length l.running

-- The balance of the executor, when `r` holders of the read gate and `w` of the write gate are about
-- to release it.
pub record Balanced (env : Env) (r w owed : ℕ) (s : ToolExecutor) : Type 0 where
  pub read_gate : IsGate s.read.gate (r + holders s.read)
  pub write_gate : IsGate s.write.gate (w + holders s.write)
  pub budget_exact : s.budget.queued ≡ length s.read.gate.queue + length s.write.gate.queue
  pub budget_capped : s.budget.queued ≤ s.budget.limit
  pub read_limit : s.read.gate.concurrency ≡ env.read_concurrency
  pub write_limit : s.write.gate.concurrency ≡ env.write_concurrency
  pub queue_limit : s.budget.limit ≡ env.queue_limit
  pub answered : s.metrics.tool_calls ≡ owed + length s.replies + pending s.read + pending s.write

abbrev pub Inv : Env → ToolExecutor → Type 0
Inv env s = Balanced env 0 0 0 s

abbrev pub read_share : ToolCapability → ℕ
read_share ToolCapability.read = 1
read_share ToolCapability.write = 0

abbrev pub write_share : ToolCapability → ℕ
write_share ToolCapability.read = 0
write_share ToolCapability.write = 1

pub authorize-tool_calls :
    (env : Env) (a : Option ℕ) (w : Bool) (i : Input) (m : RuntimeCounters)
    → (authorize env a w i m).1.tool_calls ≡ m.tool_calls
unfolding authorize
authorize-tool_calls env a w i m = ground arith

Acquired-cases : (a : Acquired) → (a ≡ granted) ⊎ (a ≡ queued) ⊎ (a ≡ busy)
Acquired-cases granted = inl refl
Acquired-cases queued = inr (inl refl)
Acquired-cases busy = inr (inr refl)

IsGate-to : {g : Gate.Gate} {m n : ℕ} → m ≡ n → IsGate g m → IsGate g n
IsGate-to {g} e v = subst (IsGate g) e v

pub release_lane-Inv :
    {env : Env} (cap : ToolCapability) (s : ToolExecutor)
    → Balanced env (read_share cap) (write_share cap) 0 s
    → Inv env (release_lane cap s)
unfolding release_lane
release_lane-Inv ToolCapability.read s v =
    let l = s.read in
    let v' = release-IsGate l.gate s.budget (holders l) (IsGate-to (omega arith) v.read_gate) in
    elim (Option-cases (release l.gate s.budget).0) [
      | inl e ↦ rw (e, release_lane) (ground (arith, v', release_counts l.gate s.budget))
      | inr (c, e) ↦
          rw (e, release_lane)
            (ground (arith, v', release_counts l.gate s.budget, length-append l.granted (c ∷ [])))
    ]
release_lane-Inv ToolCapability.write s v =
    let l = s.write in
    let v' = release-IsGate l.gate s.budget (holders l) (IsGate-to (omega arith) v.write_gate) in
    elim (Option-cases (release l.gate s.budget).0) [
      | inl e ↦ rw (e, release_lane) (ground (arith, v', release_counts l.gate s.budget))
      | inr (c, e) ↦
          rw (e, release_lane)
            (ground (arith, v', release_counts l.gate s.budget, length-append l.granted (c ∷ [])))
    ]

abbrev pub queue_full : Result ToolExecutionError (Option Value)
queue_full = err (tool_error tool_busy "Tool executor queue is full")

pub length-answer :
    (c : Call) (r : Result ToolExecutionError (Option Value)) (s : ToolExecutor)
    → length (answer c r s).replies ≡ suc (length s.replies)
length-answer c r s =
    omega (arith, length-append s.replies (record { call_id = c.id; result = r } ∷ []))

pub enter-Inv :
    {env : Env} (cap : ToolCapability) (c : Call) (s : ToolExecutor)
    → Balanced env 0 0 1 s
    → Inv env (enter cap c s)
unfolding enter
enter-Inv ToolCapability.read c s v =
    let g = s.read.gate in
    let joined =
      acquire-IsGate c g s.budget (holders s.read) (IsGate-to (omega arith) v.read_gate) in
    let counts = acquire_counts c g s.budget in
    elim (Acquired-cases (acquire c g s.budget).0) [
      | inl e ↦
          rw (e, enter) (ground (arith, joined, counts, length-append s.read.granted (c ∷ [])))
      | inr (inl e) ↦ rw (e, enter) (ground (arith, joined, counts))
      | inr (inr e) ↦ rw (e, enter) (ground (arith, length-answer c queue_full s))
    ]
enter-Inv ToolCapability.write c s v =
    let g = s.write.gate in
    let joined =
      acquire-IsGate c g s.budget (holders s.write) (IsGate-to (omega arith) v.write_gate) in
    let counts = acquire_counts c g s.budget in
    elim (Acquired-cases (acquire c g s.budget).0) [
      | inl e ↦
          rw (e, enter) (ground (arith, joined, counts, length-append s.write.granted (c ∷ [])))
      | inr (inl e) ↦ rw (e, enter) (ground (arith, joined, counts))
      | inr (inr e) ↦ rw (e, enter) (ground (arith, length-answer c queue_full s))
    ]

pub finish-Inv :
    {env : Env} (cap : ToolCapability) (c : Call) (r : Result ToolExecutionError (Option Value))
    (s : ToolExecutor)
    → Balanced env (read_share cap) (write_share cap) 1 s
    → Inv env (finish cap c r s)
finish-Inv cap c r s v = release_lane-Inv cap _ (ground (arith, length-answer c r s))
