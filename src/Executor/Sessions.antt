-- ===== src/Executor/Sessions.antt =====
-- What a session generation and a policy permit: src/tools/executor.ts.
use mathlib.Core.List.{reverse}
use agentv.Base.{
  ℕ, ◌≤◌, ◌≡◌, ◌↔◌, ap, refl, ◌⊎◌, inl, inr, Bool, true, Option, none, some, arith, length,
  contains, subst, Bool-cases, ◌++◌, ◌+◌, ◌!=◌, option_eq, Option-cases, nat_eq, string_eq,
}
use agentv.Base.Json.{Value, truthy}
use agentv.Base.Json
use agentv.Base.Result.{ok, err, Result-cases}
use agentv.Errors.{ToolExecutionError, Thrown, tool, map_host_error, tool_error, internal_error}
use agentv.Metrics.{RuntimeCounters}
use agentv.Registry.{ToolCapability, ToolDefinition, get}
use agentv.Executor.Authorize.{Env, Input, Serialized, throws, undefined, bytes, authorize}
use agentv.Executor.Gate.{Call, take_call, cancel_generation}
use agentv.Executor.Balance.{Inv}
use agentv.Executor.Gate.Slots.{cancel_counts, rejected-cancel}
use agentv.Executor.{
  Settled, returned, threw, inactive, too_large, release_lane, cancel_queued, controller_ids,
  reject_all, ToolExecutor, lane, escape, conclude, on_resume, on_clear_generation,
}

-- What lets a call through.
pub record Permitted (env : Env) (active : Option ℕ) (local_write : Bool) (i : Input)
    (t : ToolDefinition) : Type 0 where
  pub session : active ≡ some i.policy.generation
  pub registered : get env.tools i.name ≡ some t
  pub allowed : contains i.policy.allowed_tools i.name ≡ true
  pub may_write :
      (t.capability ≡ ToolCapability.read)
      ⊎ ((i.policy.write_enabled ≡ true) × (local_write ≡ true))
  pub size : (n : ℕ) × (env.serialize i.arguments ≡ bytes n) × (n ≤ env.max_input_bytes)
  pub valid : (v : Value) × (t.schema i.arguments ≡ ok v)

Serialized-cases : (s : Serialized) → (s ≡ throws) ⊎ (s ≡ undefined) ⊎ ((n : ℕ) × (s ≡ bytes n))
Serialized-cases throws = inl refl
Serialized-cases undefined = inr (inl refl)
Serialized-cases (bytes n) = inr (inr (n, refl))

module _ (env : Env) (active : Option ℕ) (w : Bool) (i : Input) (m : RuntimeCounters) where
  authorize-Permitted :
      (t : ToolDefinition) → (authorize env active w i m).0 ≡ ok t → Permitted env active w i t
  unfolding authorize
  authorize-Permitted t h = elim (Serialized-cases (env.serialize i.arguments)) [
    | inl e ↦ absurd (ground arith)
    | inr (inl e) ↦ absurd (ground arith)
    | inr (inr (n, e)) ↦ elim (Result-cases (t.schema i.arguments)) [
      | inl (v, valid) ↦ record {
        session = ground arith;
        registered = ground arith;
        allowed = ground arith;
        may_write = ground arith;
        size = (n, e, ground arith);
        valid = (v, valid);
      }
      | inr (d, invalid) ↦ absurd (ground arith)
    ]
  ]

  authorize_of-Permitted :
      (t : ToolDefinition) → Permitted env active w i t → authorize env active w i m ≡ (ok t, m)
  unfolding authorize
  authorize_of-Permitted t p = ground arith

  -- A call passes the checks for a tool exactly if it is permitted: its session is the active one, the
  -- tool is registered under its name and allowed by the policy, a write is allowed by the policy and
  -- locally, and the arguments serialize within the input limit and satisfy the tool's schema.
  pub authorize_exact :
      (t : ToolDefinition) → ((authorize env active w i m).0 ≡ ok t) ↔ Permitted env active w i t
  authorize_exact t = (authorize-Permitted t, (λ p. ap (λ r. r.0) (authorize_of-Permitted t p)))

-- A run of a tool that returns a result returns it to the session that asked, at most the output
-- limit in size, and redacted.
pub conclude_ok :
    (env : Env) (active : Option ℕ) (c : Call) (how : Settled) (v : Option Value) (b : Bool)
    → conclude env active c how ≡ (ok v, b)
    → (active ≡ some c.generation)
      × ((raw : Option Value) × (how ≡ returned raw) × (v ≡ env.redact raw))
      × ((n : ℕ) × (env.serialize v ≡ bytes n) × (n ≤ env.max_output_bytes))
unfolding conclude
conclude_ok env active c (threw e) v b h = cc
conclude_ok env active c (returned raw) v b h =
    elim (Serialized-cases (env.serialize (env.redact raw))) [
      | inl e ↦ absurd (ground arith)
      | inr (inl e) ↦ absurd (ground arith)
      | inr (inr (n, e)) ↦
          (ground arith, (raw, refl, ground arith), (n, ground arith, ground arith))
    ]

escape-outcome :
    (c : Call) (e : Thrown)
    → c.capability ≡ ToolCapability.write
    → truthy (Json.get "outcome" (escape c e).details) ≡ true
unfolding escape
escape-outcome c e w =
    let d = (map_host_error e).details in
    ground (
      arith,
      Json.get-put "outcome" "operationId" (Json.text c.operation_id)
          (Json.put "outcome" (Json.text "unknown") d),
      Json.get-put "outcome" "outcome" (Json.text "unknown") d,
    )

-- Every error that leaves the `try` went through the mapping.
conclude-escape :
    (env : Env) (active : Option ℕ) (c : Call) (how : Settled) (e : ToolExecutionError) (b : Bool)
    → conclude env active c how ≡ (err e, b)
    → (t : Thrown) × (escape c t ≡ e)
unfolding conclude
conclude-escape env active c (threw t) e b h = (t, ground arith)
conclude-escape env active c (returned raw) e b h =
    elim (Bool-cases (active != some c.generation)) [
      | inl gone ↦ (inactive, ground arith)
      | inr here ↦ elim (Serialized-cases (env.serialize (env.redact raw))) [
        | inl s ↦ (Thrown.other "", ground arith)
        | inr (inl s) ↦ (tool (tool_error internal_error "Tool returned no result"), ground arith)
        | inr (inr (n, s)) ↦ (tool (too_large c), ground arith)
      ]
    ]

-- An error of a write tool that was granted its gate says what became of the write: its details have
-- a true `outcome`.
pub write_error_has_outcome :
    (env : Env) (active : Option ℕ) (c : Call) (how : Settled) (e : ToolExecutionError) (b : Bool)
    → c.capability ≡ ToolCapability.write
    → conclude env active c how ≡ (err e, b)
    → truthy (Json.get "outcome" e.details) ≡ true
write_error_has_outcome env active c how e b w h =
    let (t, same) = conclude-escape env active c how e b h in
    subst (λ (x : ToolExecutionError). truthy (Json.get "outcome" x.details) ≡ true) same
      (escape-outcome c t w)

running-release_lane :
    (cap : ToolCapability) (s : ToolExecutor)
    → (lane cap (release_lane cap s)).running ≡ (lane cap s).running
unfolding release_lane
running-release_lane ToolCapability.read s = ground arith
running-release_lane ToolCapability.write s = ground arith

-- With no active session, no handler starts.
pub no_session_no_start :
    (cap : ToolCapability) (id : ℕ) (s : ToolExecutor)
    → s.active_generation ≡ none
    → (lane cap (on_resume cap id s)).running ≡ (lane cap s).running
unfolding on_resume
no_session_no_start ToolCapability.read id s h = elim (Option-cases (take_call id s.read.granted)) [
  | inl e ↦ rw (e, on_resume)
  | inr ((c, rest), e) ↦ rw (e, on_resume, h) (running-release_lane ToolCapability.read _)
]
no_session_no_start ToolCapability.write id s h =
    elim (Option-cases (take_call id s.write.granted)) [
      | inl e ↦ rw (e, on_resume)
      | inr ((c, rest), e) ↦ rw (e, on_resume, h) (running-release_lane ToolCapability.write _)
    ]

-- When the session ends, no call is left in a queue, the calls that waited are refused, last come
-- first, the reads before the writes, and every registered controller is aborted.
pub clear_generation_cancels :
    (env : Env) (s : ToolExecutor)
    → Inv env s
    → let s' = on_clear_generation s in
      (s'.active_generation ≡ none)
      × (length s'.read.gate.queue + length s'.write.gate.queue ≡ 0)
      × (s'.replies
          ≡ s.replies
            ++ (reject_all (reverse s.read.gate.queue) ++ reject_all (reverse s.write.gate.queue)))
      × (s'.aborted ≡ s.aborted ++ controller_ids s.controllers)
unfolding on_clear_generation cancel_queued
clear_generation_cancels env s v =
    let b = s.budget in
    let b' = (cancel_generation none s.read.gate b).2 in
    let r = cancel_counts s.read.gate b (omega arith) in
    let w = cancel_counts s.write.gate b' (omega (arith, r)) in
    (
      refl,
      omega (arith, r, w),
      rw (rejected-cancel s.read.gate b, rejected-cancel s.write.gate b'),
      refl,
    )
