-- ===== src/Executor/Counts.antt =====
-- How often a call stands in the state of src/tools/executor.ts: among the answers, in a queue, among
-- the granted or the running calls.
use agentv.Base.{
  ℕ, ◌+◌, ◌≡◌, refl, ◌∙◌, ◌⊎◌, inl, inr, List, [], ◌∷◌, ◌++◌, Option, none, some, ◌==◌, nat_eq,
  option_eq, if◌then◌else◌, arith, Bool-cases, Option-cases,
}
use agentv.Base.Json.{Value}
use agentv.Base.Result.{Result}
use agentv.Errors.{ToolExecutionError}
use agentv.Registry.{ToolCapability}
use agentv.Executor.Gate.{
  Acquired, granted, queued, busy, Call, QueueBudget, acquire, release, take_call, queue_timeout,
  without_call, cancel_from, cancel_generation, leave,
}
use agentv.Executor.Gate
use agentv.Executor.Balance.{queue_full}
use agentv.Executor.{
  Lane, Reply, ToolExecutor, Event, enter, finish, release_lane, reject_all, invoke,
}

List-cases {ℓ} :
    {A : Type ℓ} (xs : List A) → (xs ≡ []) ⊎ ((x : A) × (rest : List A) × (xs ≡ x ∷ rest))
List-cases [] = inl refl
List-cases (x ∷ xs) = inr (x, xs, refl)

module _ (k : ℕ) where
  -- whether an id is the one that is counted
  unfoldable pub one : ℕ → ℕ
  one id = if id == k then 1 else 0

  unfoldable pub tally : List Call → ℕ
  tally [] = 0
  tally (c ∷ cs) = one c.id + tally cs

  unfoldable pub answered : List Reply → ℕ
  answered [] = 0
  answered (r ∷ rs) = one r.call_id + answered rs

  unfoldable pub invoked : List Event → ℕ
  invoked [] = 0
  invoked (invoke id local_write input ∷ es) = one id + invoked es
  invoked (_ ∷ es) = invoked es

  -- how often the call waits in the lane, was granted its gate, or runs
  abbrev pub waits : Lane → ℕ
  waits l = tally l.gate.queue + tally l.granted + tally l.running

  abbrev pub total : ToolExecutor → ℕ
  total s = answered s.replies + waits s.read + waits s.write

  tally-append : (xs ys : List Call) → tally (xs ++ ys) ≡ tally xs + tally ys
  unfolding tally
  tally-append [] ys = omega arith
  tally-append (x ∷ xs) ys = omega (arith, tally-append xs ys)

  pub tally-one : (xs : List Call) (c : Call) → tally (xs ++ c ∷ []) ≡ tally xs + one c.id
  unfolding tally
  tally-one xs c = omega (arith, tally-append xs (c ∷ []))

  pub answered-append : (xs ys : List Reply) → answered (xs ++ ys) ≡ answered xs + answered ys
  unfolding answered
  answered-append [] ys = omega arith
  answered-append (x ∷ xs) ys = omega (arith, answered-append xs ys)

  pub answered-one :
      (xs : List Reply) (r : Reply) → answered (xs ++ r ∷ []) ≡ answered xs + one r.call_id
  unfolding answered
  answered-one xs r = omega (arith, answered-append xs (r ∷ []))

  pub take_call-tally :
      (id : ℕ) (cs : List Call) (c : Call) (rest : List Call)
      → take_call id cs ≡ some (c, rest)
      → tally cs ≡ one c.id + tally rest
  unfolding take_call tally
  take_call-tally id [] c rest h = cc
  take_call-tally id (d ∷ ds) c rest h = elim (Bool-cases (d.id == id)) [
    | inl e ↦ ground arith
    | inr e ↦ elim (Option-cases (take_call id ds)) [
      | inl missing ↦ ground arith
      | inr ((x, xs), found) ↦ ground (arith, take_call-tally id ds x xs found)
    ]
  ]

  pub answered-reject_all : (cs : List Call) → answered (reject_all cs) ≡ tally cs
  unfolding answered tally
  answered-reject_all [] = refl
  answered-reject_all (c ∷ cs) = omega (arith, answered-reject_all cs)

  cancel_from-tally :
      (cs : List Call) (ts : List ℕ) (b : QueueBudget)
      → ((cancel_from none cs ts b).kept ≡ [])
        × (tally (cancel_from none cs ts b).rejected ≡ tally cs)
  unfolding cancel_from tally
  cancel_from-tally [] ts b = (refl, refl)
  cancel_from-tally (c ∷ cs) ts b =
      ground (arith, cancel_from-tally cs ts b, tally-one (cancel_from none cs ts b).rejected c)

  pub cancel-tally :
      (g : Gate.Gate) (b : QueueBudget)
      → (tally (cancel_generation none g b).1.queue ≡ 0)
        × (tally (cancel_generation none g b).0 ≡ tally g.queue)
  unfolding cancel_generation tally
  cancel-tally g b = ground (arith, cancel_from-tally g.queue g.timers b)

  pub enter_counts :
      (cap : ToolCapability) (c : Call) (s : ToolExecutor)
      → total (enter cap c s) ≡ one c.id + total s
  unfolding enter acquire
  enter_counts ToolCapability.read c s = ground (
    arith,
    tally-one s.read.granted c,
    tally-one s.read.gate.queue c,
    answered-one s.replies (record { call_id = c.id; result = queue_full }),
  )
  enter_counts ToolCapability.write c s = ground (
    arith,
    tally-one s.write.granted c,
    tally-one s.write.gate.queue c,
    answered-one s.replies (record { call_id = c.id; result = queue_full }),
  )

  release_counts :
      (g : Gate.Gate) (b : QueueBudget) (granted' : List Call)
      → tally (release g b).1.queue
          + tally (elim (release g b).0 [ none ↦ granted' | some c ↦ granted' ++ c ∷ [] ])
        ≡ tally g.queue + tally granted'
  unfolding release tally
  release_counts g b granted' = elim (List-cases g.queue) [
    | inl e ↦ rw (e, release) (ground (arith, e))
    | inr (c, rest, e) ↦ rw (e, release) (ground (arith, e, tally-one granted' c))
  ]

  pub release_lane_counts :
      (cap : ToolCapability) (s : ToolExecutor) → total (release_lane cap s) ≡ total s
  unfolding release_lane
  release_lane_counts ToolCapability.read s =
      let kept = release_counts s.read.gate s.budget s.read.granted in
      elim (Option-cases (release s.read.gate s.budget).0) [
        | inl e ↦ rw (e, release_lane) (ground (arith, rw e at kept))
        | inr (c, e) ↦ rw (e, release_lane) (ground (arith, rw e at kept))
      ]
  release_lane_counts ToolCapability.write s =
      let kept = release_counts s.write.gate s.budget s.write.granted in
      elim (Option-cases (release s.write.gate s.budget).0) [
        | inl e ↦ rw (e, release_lane) (ground (arith, rw e at kept))
        | inr (c, e) ↦ rw (e, release_lane) (ground (arith, rw e at kept))
      ]

  pub finish_counts :
      (cap : ToolCapability) (c : Call) (r : Result ToolExecutionError (Option Value))
      (s : ToolExecutor)
      → total (finish cap c r s) ≡ one c.id + total s
  finish_counts cap c r s =
      release_lane_counts cap _
      ∙ omega (arith, answered-one s.replies (record { call_id = c.id; result = r }))
