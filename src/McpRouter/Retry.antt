-- ===== src/McpRouter/Retry.antt =====
-- What src/tools/executor.ts and src/mcp/router.ts together tell the client of a write that failed.
use agentv.Base.{
  ℕ, ◌≡◌, refl, sym, ap, ◌∙◌, ◌⊎◌, inl, inr, String, Bool, true, false, Option, none, some, ◌!=◌,
  arith, string_eq, option_eq, nat_eq, Bool-cases,
}
use agentv.Base.Json.{Value, Fields, text, get, get-put, put, truthy}
use agentv.Base.Result.{err}
use agentv.Errors.{ToolExecutionError, Thrown, tool, map_host_error, tool_error, internal_error}
use agentv.Registry.{ToolCapability, ToolDefinition}
use agentv.Executor.Authorize.{Env, Serialized, throws, undefined, bytes}
use agentv.Executor.Gate.{Call}
use agentv.Executor.{Settled, returned, threw, escape, conclude, inactive, too_large}
use agentv.McpRouter.{retryable, says_not_started}

not_started_only : (v : Option Value) → says_not_started v ≡ true → v ≡ some (text "not_started")
not_started_only (some (text s)) h =
    ap (λ (u : String). some (text u)) ((string_eq.beq_iff s "not_started").0 h)
not_started_only none h = cc
not_started_only (some _) h = cc

retryable-says :
    (t : ToolDefinition) (x : ToolExecutionError)
    → t.capability ≡ ToolCapability.write
    → retryable t (tool x) ≡ true
    → get "outcome" x.details ≡ some (text "not_started")
unfolding retryable
retryable-says t x w h = not_started_only (get "outcome" x.details) (ground arith)

-- an error of the host says nothing of the outcome
host_outcome : (code : String) → get "outcome" (map_host_error (Thrown.other code)).details ≡ none
unfolding map_host_error
host_outcome code = ground arith

-- the mark of a write that may have started
marked_outcome :
    (id : String) (fs : Fields)
    → get "outcome" (put "operationId" (text id) (put "outcome" (text "unknown") fs))
      ≡ some (text "unknown")
marked_outcome id fs =
    get-put "outcome" "operationId" (text id) (put "outcome" (text "unknown") fs)
    ∙ get-put "outcome" "outcome" (text "unknown") fs

escape-outcome :
    (c : Call) (e : Thrown)
    → c.capability ≡ ToolCapability.write
    → get "outcome" (escape c e).details ≡ some (text "not_started")
    → get "outcome" (map_host_error e).details ≡ some (text "not_started")
unfolding escape
escape-outcome c e w h =
    let fs = (map_host_error e).details in
    elim (Bool-cases (truthy (get "outcome" fs))) [
      | inl told ↦ rw (w, told) at h
      | inr untold ↦
          let unknown = sym (marked_outcome c.operation_id fs) ∙ (rw (w, untold) at h) in cc
    ]

thrown_outcome :
    (e : Thrown)
    → get "outcome" (map_host_error e).details ≡ some (text "not_started")
    → (y : ToolExecutionError) × (e ≡ tool y)
      × (get "outcome" y.details ≡ some (text "not_started"))
unfolding map_host_error
thrown_outcome (tool y) h = (y, refl, h)
thrown_outcome (Thrown.other code) h = let nothing = host_outcome code in cc

escape-retryable :
    (c : Call) (e : Thrown) (t : ToolDefinition)
    → t.capability ≡ ToolCapability.write
    → c.capability ≡ ToolCapability.write
    → retryable t (tool (escape c e)) ≡ true
    → (y : ToolExecutionError) × (e ≡ tool y)
      × (get "outcome" y.details ≡ some (text "not_started"))
escape-retryable c e t wt wc h =
    thrown_outcome e (escape-outcome c e wc (retryable-says t (escape c e) wt h))

-- an error that does not say so is not marked
unmarked {ℓ} :
    {B : Type ℓ} (c : Call) (e : Thrown) (t : ToolDefinition) (x : ToolExecutionError)
    → t.capability ≡ ToolCapability.write
    → c.capability ≡ ToolCapability.write
    → escape c e ≡ x
    → says_not_started (get "outcome" (map_host_error e).details) ≡ false
    → retryable t (tool x) ≡ true
    → B
unmarked c e t x wt wc same silent may =
    let says = escape-outcome c e wc (retryable-says t (escape c e) wt (rw same may)) in
    let told = ap says_not_started says in cc

Serialized-cases : (s : Serialized) → (s ≡ throws) ⊎ (s ≡ undefined) ⊎ ((n : ℕ) × (s ≡ bytes n))
Serialized-cases throws = inl refl
Serialized-cases undefined = inr (inl refl)
Serialized-cases (bytes n) = inr (inr (n, refl))

abbrev no_result : Thrown
no_result = tool (tool_error internal_error "Tool returned no result")

-- The router marks what the executor throws for a write as retryable only if the handler of the write
-- itself threw an error that says that the write was not started: no other error that the executor makes
-- of the end of a handler may be retried.
pub retryable_write :
    (env : Env) (active : Option ℕ) (c : Call) (how : Settled) (t : ToolDefinition)
    (x : ToolExecutionError) (truncated : Bool)
    → t.capability ≡ ToolCapability.write
    → c.capability ≡ ToolCapability.write
    → conclude env active c how ≡ (err x, truncated)
    → retryable t (tool x) ≡ true
    → (y : ToolExecutionError) × (how ≡ threw (tool y))
      × (get "outcome" y.details ≡ some (text "not_started"))
unfolding conclude map_host_error
retryable_write env active c (threw e) t x truncated wt wc h may =
    let same : escape c e ≡ x = ground arith in
    let (y, mine, says) = escape-retryable c e t wt wc (rw same may) in
    (y, ap (λ (u : Thrown). threw u) mine, says)
retryable_write env active c (returned v) t x truncated wt wc h may =
    elim (Bool-cases (active != some c.generation)) [
      | inl gone ↦
          let same : escape c inactive ≡ x = ground (arith, h) in
          unmarked c inactive t x wt wc same refl may
      | inr here ↦ elim (Serialized-cases (env.serialize (env.redact v))) [
        | inl e ↦
            let same : escape c (Thrown.other "") ≡ x = ground (arith, h) in
            unmarked c (Thrown.other "") t x wt wc same (ap says_not_started (host_outcome "")) may
        | inr (inl e) ↦
            let same : escape c no_result ≡ x = ground (arith, h) in
            unmarked c no_result t x wt wc same refl may
        | inr (inr (n, e)) ↦
            let same : escape c (tool (too_large c)) ≡ x = ground (arith, h) in
            unmarked c (tool (too_large c)) t x wt wc same (rw wc refl) may
      ]
    ]
