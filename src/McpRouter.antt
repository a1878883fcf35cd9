-- ===== src/McpRouter.antt =====
-- src/mcp/router.ts, `McpRouter`, and the responses of src/mcp/protocol.ts. A call of a tool is cut
-- at the `await` of `executor.execute`. The codes of JSON-RPC are negated.
pub mod Dispatch
pub mod Retry
use agentv.Base.{
  ℕ, String, Bool, true, false, not, ◌&&◌, ◌||◌, List, [], ◌∷◌, map, Option, none, some, ◌==◌, ◌!=◌,
  string_eq, if◌then◌else◌, keep, contains, ltb,
}
use agentv.Base.Json.{Value, Fields, text, bool, obj, field, end, get, spread}
use agentv.Base.Json
use agentv.Base.Text.{concat, slice_to, size}
use agentv.Base.Result.{Result, ok, err}
use agentv.Errors.{
  ToolErrorCode, ToolExecutionError, Thrown, tool, other, invalid_arguments, tool_not_allowed,
  write_disabled, tool_timeout, tool_busy, precondition_failed, output_too_large,
  resource_not_found, permission_denied, command_unavailable, host_unavailable, internal_error,
}
use agentv.Registry.{
  ToolCapability, ToolDefinition, ToolRegistry, ModelContextEnvelope, ArtifactPolicy, Status,
  get_all,
}
use agentv.Registry
use agentv.Executor.Authorize.{RequestId, ToolSessionPolicy, Input}
use agentv.Lifecycle.Handshake.{is_tool_name}

-- A request that `JsonRpcRequestSchema` accepts.
pub record JsonRpcRequest : Type 0 where
  pub id : RequestId
  pub method : String
  pub params : Option Value

-- What a response carries: an error with its `data`, the tools that `tools/list` describes, or the
-- arguments of `buildCallToolResult`.
pub data Outcome : Type 0 where
  rejected : ℕ → String → Option Value → Outcome
  listed : List ToolDefinition → Outcome
  called : ModelContextEnvelope → Value → ArtifactPolicy → Bool → Outcome

pub record JsonRpcResponse : Type 0 where
  pub id : RequestId
  pub outcome : Outcome

pub record McpRouter : Type 0 where
  pub policy : Option ToolSessionPolicy
  pub active_generation : Option ℕ

abbrev pub set_session_policy : ToolSessionPolicy → McpRouter → McpRouter
set_session_policy p r = record { policy = some p; active_generation = some p.generation }

abbrev pub clear_session_policy : McpRouter → McpRouter
clear_session_policy r = record { policy = none; active_generation = none }

-- `handleRequest` up to the `await`: a response, or a call of the executor for a tool.
pub data Dispatched : Type 0 where
  respond : JsonRpcResponse → Dispatched
  execute : Input → ToolDefinition → Dispatched

abbrev reject : RequestId → ℕ → String → Dispatched
reject id code message = respond (record { id = id; outcome = rejected code message none })

unfoldable pub list_tools : ToolRegistry → ToolSessionPolicy → List ToolDefinition
list_tools registry p =
    keep (λ (t : ToolDefinition). contains p.allowed_tools t.name) (get_all registry)

abbrev name_of : Option Value → Option String
name_of (some (text s)) = if is_tool_name s then some s else none
name_of _ = none

unfoldable pub call_tool : ToolRegistry → ToolSessionPolicy → RequestId → Option Value → Dispatched
call_tool registry p id (some (obj params)) = elim (name_of (get "name" params)) [
  | none ↦ reject id 32602 "Invalid tool name"
  | some name ↦ elim (Registry.get registry name) [
    | none ↦ reject id 32601 (concat ("Tool not found: " ∷ name ∷ []))
    | some t ↦
        execute
          (record { name = name; arguments = get "arguments" params; request_id = id; policy = p })
          t
  ]
]
call_tool registry p id _ = reject id 32602 "Tool call params must be an object"

unfoldable pub handle_request : ToolRegistry → McpRouter → JsonRpcRequest → Dispatched
handle_request registry r request = elim r.policy [
  | none ↦ respond (record {
    id = request.id;
    outcome =
        rejected 32001 "Tool session is not ready"
          (some (obj (field "code" (text "TOOL_NOT_ALLOWED") end)));
  })
  | some p ↦
      if request.method == "tools/list"
      then respond (record { id = request.id; outcome = listed (list_tools registry p) })
      else if request.method != "tools/call"
      then reject request.id 32601 (concat ("Method not found: " ∷ request.method ∷ []))
      else call_tool registry p request.id request.params
]

abbrev code_name : ToolErrorCode → String
code_name invalid_arguments = "INVALID_ARGUMENTS"
code_name tool_not_allowed = "TOOL_NOT_ALLOWED"
code_name write_disabled = "WRITE_DISABLED"
code_name tool_timeout = "TOOL_TIMEOUT"
code_name tool_busy = "TOOL_BUSY"
code_name precondition_failed = "PRECONDITION_FAILED"
code_name output_too_large = "OUTPUT_TOO_LARGE"
code_name resource_not_found = "RESOURCE_NOT_FOUND"
code_name permission_denied = "PERMISSION_DENIED"
code_name command_unavailable = "COMMAND_UNAVAILABLE"
code_name host_unavailable = "HOST_UNAVAILABLE"
code_name internal_error = "INTERNAL_ERROR"

-- `RETRYABLE.has(code)`
abbrev pub is_retryable : ToolErrorCode → Bool
is_retryable tool_busy = true
is_retryable host_unavailable = true
is_retryable _ = false

abbrev is_read : ToolCapability → Bool
is_read ToolCapability.read = true
is_read ToolCapability.write = false

abbrev pub says_not_started : Option Value → Bool
says_not_started (some (text s)) = s == "not_started"
says_not_started _ = false

unfoldable pub retryable : ToolDefinition → Thrown → Bool
retryable t (tool e) =
    is_retryable e.tool_code && (is_read t.capability || says_not_started (get "outcome" e.details))
retryable t (other code) = false

abbrev code_and_message : Thrown → Fields
code_and_message (tool e) =
    field "code" (text (code_name e.tool_code)) (field "message" (text e.message) end)
code_and_message (other code) =
    field "code" (text "INTERNAL_ERROR")
      (field "message" (text "Internal error during tool execution") end)

abbrev details_of : Thrown → Fields
details_of (tool e) = e.details
details_of (other code) = end

-- `{ code, message, ...data, retryable }`
unfoldable pub failure_of : ToolDefinition → Thrown → Fields
failure_of t e =
    Json.put "retryable" (bool (retryable t e)) (spread (code_and_message e) (details_of e))

abbrev summary_of : Fields → String
summary_of fs = elim (get "message" fs) [ some (text s) ↦ slice_to 500 s | none ↦ "" | some v ↦ "" ]

-- `validateModelContext`; `bytes` is the length of the JSON text of a context.
unfoldable pub is_valid_context : (ModelContextEnvelope → ℕ) → ModelContextEnvelope → Bool
is_valid_context bytes c =
    c.schema_version == "acornops.model-context.v1"
    && not (c.summary == "")
    && not (ltb 500 (size c.summary))
    && not (ltb 12288 (bytes c))

-- `createResponse` with `buildCallToolResult`, which throws for an invalid context.
abbrev build_call_tool_result :
    (ModelContextEnvelope → ℕ)
    → RequestId
    → ModelContextEnvelope
    → Value
    → ArtifactPolicy
    → Bool
    → Option JsonRpcResponse
build_call_tool_result bytes id c full policy is_error =
    if is_valid_context bytes c
    then some (record { id = id; outcome = called c full policy is_error })
    else none

abbrev pub error_context : Input → Fields → ModelContextEnvelope
error_context i failure = record {
  schema_version = "acornops.model-context.v1";
  tool = i.name;
  status = Status.error;
  summary = summary_of failure;
  contents = obj failure;
  omissions = [];
}

-- The `catch`; `none` is a rejection of `handleRequest`.
unfoldable pub fail_call :
    (ModelContextEnvelope → ℕ) → Input → ToolDefinition → Thrown → Option JsonRpcResponse
fail_call bytes i t e =
    let failure = failure_of t e in
    build_call_tool_result bytes i.request_id (error_context i failure) (obj failure)
      t.artifact_policy true

-- The rest of `handleRequest`, with what `execute` returned or threw. An invalid projection of a
-- result is an unknown error for the `catch`.
unfoldable pub finish_call :
    (ModelContextEnvelope → ℕ)
    → Input
    → ToolDefinition
    → Result Thrown Value
    → Option JsonRpcResponse
finish_call bytes i t (ok result) =
    let answer =
      build_call_tool_result bytes i.request_id (t.project_for_model result i.arguments) result
        t.artifact_policy false in
    elim answer [ some r ↦ some r | none ↦ fail_call bytes i t (other "") ]
finish_call bytes i t (err e) = fail_call bytes i t e
