-- ===== src/McpRouter/Dispatch.antt =====
-- src/mcp/router.ts: which requests reach a tool, and how a call of a tool ends.
use agentv.Base.{
  ℕ, ◌≤◌, ◌<◌, ◌≡◌, ◌≢◌, refl, sym, ap, ◌∙◌, ◌⊎◌, inl, inr, true, false, Option, none, some, arith,
  ◌==◌, string_eq, Option-cases, Bool-cases,
}
use agentv.Base.Json.{Value, Fields, text, obj, get}
use agentv.Base.Result.{Result, ok, err}
use agentv.Base.Text.{size, slice_to, size-slice_to}
use agentv.Errors.{Thrown}
use agentv.Registry.{ModelContextEnvelope, ToolCapability, ToolDefinition, ToolRegistry}
use agentv.Registry
use agentv.Executor.Authorize.{Input, ToolSessionPolicy}
use agentv.McpRouter.{
  McpRouter, JsonRpcRequest, called, is_valid_context, fail_call, finish_call, failure_of,
  error_context, execute, handle_request, call_tool,
}

-- What lets a request through to the executor.
pub record Reaches (registry : ToolRegistry) (r : McpRouter) (q : JsonRpcRequest) (i : Input)
    (t : ToolDefinition) : Type 0 where
  pub session : r.policy ≡ some i.policy
  pub method : q.method ≡ "tools/call"
  pub registered : Registry.get registry i.name ≡ some t
  pub same_request : i.request_id ≡ q.id
  pub params :
      (fs : Fields) × (q.params ≡ some (obj fs))
      × (get "name" fs ≡ some (text i.name))
      × (i.arguments ≡ get "arguments" fs)

call_tool-params :
    (registry : ToolRegistry) (p : ToolSessionPolicy) (q : JsonRpcRequest) (v : Option Value)
    (i : Input) (t : ToolDefinition)
    → call_tool registry p q.id v ≡ execute i t
    → (i.policy ≡ p)
      × (Registry.get registry i.name ≡ some t)
      × (i.request_id ≡ q.id)
      × ((fs : Fields) × (v ≡ some (obj fs))
          × (get "name" fs ≡ some (text i.name))
          × (i.arguments ≡ get "arguments" fs))
unfolding call_tool
call_tool-params registry p q (some (obj fs)) i t h =
    (ground arith, ground arith, ground arith, (fs, refl, ground arith, ground arith))
call_tool-params registry p q none i t h = cc
call_tool-params registry p q (some _) i t h = cc

-- A request reaches the executor only in a ready session, as a `tools/call` of a registered tool, with
-- the policy of the session, the request's own id and the arguments it gives.
pub executes_only_if :
    (registry : ToolRegistry) (r : McpRouter) (q : JsonRpcRequest) (i : Input) (t : ToolDefinition)
    → handle_request registry r q ≡ execute i t
    → Reaches registry r q i t
unfolding handle_request
executes_only_if registry r q i t h = elim (Option-cases r.policy) [
  | inl empty ↦ cc (rw (empty, handle_request) at h)
  | inr (p, ready) ↦ elim (Bool-cases (q.method == "tools/list")) [
    | inl listing ↦ cc (rw (ready, listing, handle_request) at h)
    | inr other ↦ elim (Bool-cases (q.method == "tools/call")) [
      | inl call ↦
          let found =
            call_tool-params registry p q q.params i t
              (rw (ready, other, call, handle_request) at h) in
          let (same, known, id, params) = found in
          record {
            session = ready ∙ ap (λ (x : ToolSessionPolicy). some x) (sym same);
            method = (string_eq.beq_iff q.method "tools/call").0 call;
            registered = known;
            same_request = id;
            params = params;
          }
      | inr unknown ↦ cc (rw (ready, other, unknown, handle_request) at h)
    ]
  ]
]

-- The context that the model gets.
pub record IsBounded (bytes : ModelContextEnvelope → ℕ) (c : ModelContextEnvelope) : Type 0 where
  pub filled : c.summary ≢ ""
  pub summary : size c.summary ≤ 500
  pub total : bytes c ≤ 12288

is_valid_context-IsBounded :
    (bytes : ModelContextEnvelope → ℕ) (c : ModelContextEnvelope)
    → is_valid_context bytes c ≡ true
    → IsBounded bytes c
unfolding is_valid_context
is_valid_context-IsBounded bytes c h = record {
  filled = λ e. let empty = (string_eq.beq_iff c.summary "").1 e in ground (arith, empty);
  summary = ground arith;
  total = ground arith;
}

-- The error that a call of the executor leaves for the `catch`: what it threw, or an unknown error for
-- a result whose projection no model may get.
abbrev pub IsCaught :
    (ModelContextEnvelope → ℕ) → Input → ToolDefinition → Result Thrown Value → Thrown → Type 0
IsCaught bytes i t (err x) e = e ≡ x
IsCaught bytes i t (ok v) e =
    (is_valid_context bytes (t.project_for_model v i.arguments) ≡ false) × (e ≡ Thrown.other "")

-- The answer with what the executor returned.
pub record Answers (bytes : ModelContextEnvelope → ℕ) (i : Input) (t : ToolDefinition)
    (r : Result Thrown Value) : Type 0 where
  pub value : Value
  pub returned : r ≡ ok value
  pub projection : IsBounded bytes (t.project_for_model value i.arguments)
  pub response :
      finish_call bytes i t r
      ≡ some (record {
        id = i.request_id;
        outcome = called (t.project_for_model value i.arguments) value t.artifact_policy false;
      })

-- The answer with the error, whose context is within the limits.
pub record Fails (bytes : ModelContextEnvelope → ℕ) (i : Input) (t : ToolDefinition)
    (r : Result Thrown Value) : Type 0 where
  pub error : Thrown
  pub caught : IsCaught bytes i t r error
  pub context : IsBounded bytes (error_context i (failure_of t error))
  pub response :
      finish_call bytes i t r
      ≡ some (record {
        id = i.request_id;
        outcome =
            called
              (error_context i (failure_of t error))
              (obj (failure_of t error))
              t.artifact_policy
              true;
      })

-- No answer: the context of the error has an empty summary or is over 12 KiB.
pub record IsLost (bytes : ModelContextEnvelope → ℕ) (i : Input) (t : ToolDefinition)
    (r : Result Thrown Value) : Type 0 where
  pub error : Thrown
  pub caught : IsCaught bytes i t r error
  pub unanswered : finish_call bytes i t r ≡ none
  pub cause :
      ((error_context i (failure_of t error)).summary ≡ "")
      ⊎ (12288 < bytes (error_context i (failure_of t error)))

summary_size :
    (o : Option Value)
    → size (elim o [ some (text s) ↦ slice_to 500 s | none ↦ "" | some v ↦ "" ]) ≤ 500
summary_size (some (text s)) = size-slice_to 500 s
summary_size none = omega arith
summary_size (some _) = omega arith

invalid_cause :
    (bytes : ModelContextEnvelope → ℕ) (i : Input) (fs : Fields)
    → is_valid_context bytes (error_context i fs) ≡ false
    → ((error_context i fs).summary ≡ "") ⊎ (12288 < bytes (error_context i fs))
unfolding is_valid_context
invalid_cause bytes i fs h =
    let short : size (error_context i fs).summary ≤ 500 = summary_size (get "message" fs) in
    elim (Bool-cases ((error_context i fs).summary == "")) [
      | inl empty ↦ inl ((string_eq.beq_iff (error_context i fs).summary "").0 empty)
      | inr full ↦ inr (ground (arith, short))
    ]

fail_call-cases :
    (bytes : ModelContextEnvelope → ℕ) (i : Input) (t : ToolDefinition) (r : Result Thrown Value)
    (e : Thrown)
    → IsCaught bytes i t r e
    → finish_call bytes i t r ≡ fail_call bytes i t e
    → Fails bytes i t r ⊎ IsLost bytes i t r
unfolding fail_call
fail_call-cases bytes i t r e caught same =
    let c = error_context i (failure_of t e) in
    elim (Bool-cases (is_valid_context bytes c)) [
      | inl valid ↦ inl (record {
        error = e;
        caught = caught;
        context = is_valid_context-IsBounded bytes c valid;
        response = same ∙ rw valid refl;
      })
      | inr invalid ↦ inr (record {
        error = e;
        caught = caught;
        unanswered = same ∙ rw invalid refl;
        cause = invalid_cause bytes i (failure_of t e) invalid;
      })
    ]

-- Each end of a tool call is one of three. The executor returned, and the answer holds the result and
-- its projection. Or it threw, or the projection is not valid, and the answer holds that error. Either
-- answer has the id of the request, and its context at most 12 KiB and a summary of 1 to 500
-- characters. Or there is no answer, since the context of that error has an empty summary or is over
-- 12 KiB.
pub finish_call-IsBounded :
    (bytes : ModelContextEnvelope → ℕ) (i : Input) (t : ToolDefinition) (r : Result Thrown Value)
    → Answers bytes i t r ⊎ Fails bytes i t r ⊎ IsLost bytes i t r
unfolding finish_call
finish_call-IsBounded bytes i t (err e) = inr (fail_call-cases bytes i t (err e) e refl refl)
finish_call-IsBounded bytes i t (ok v) =
    elim (Bool-cases (is_valid_context bytes (t.project_for_model v i.arguments))) [
      | inl valid ↦ inl (record {
        value = v;
        returned = refl;
        projection = is_valid_context-IsBounded bytes _ valid;
        response = rw (valid, finish_call) refl;
      })
      | inr invalid ↦ inr (
          fail_call-cases bytes i t (ok v) (Thrown.other "") (invalid, refl)
            (rw (invalid, finish_call) refl))
    ]
