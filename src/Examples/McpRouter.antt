-- ===== src/Examples/McpRouter.antt =====
-- Runs of src/mcp/router.ts.
use agentv.Base.{ℕ, ◌≡◌, ◌⊎◌, refl, true, false, [], ◌∷◌, none, some}
use agentv.Base.Json.{Value, text, nat, obj, field, end, get}
use agentv.Base.Result.{Result, ok, err}
use agentv.Errors.{ToolExecutionError, Thrown, tool, tool_busy, tool_error_with, map_host_error}
use agentv.Registry
use agentv.Registry.{
  ToolCapability, ToolDefinition, ToolRegistry, ArtifactPolicy, Status, ModelContextEnvelope,
}
use agentv.Executor.Authorize.{Env, Serialized, Input, ToolSessionPolicy, string}
use agentv.McpRouter
use agentv.McpRouter.{
  McpRouter, JsonRpcRequest, JsonRpcResponse, called, finish_call, is_valid_context, execute,
  handle_request, call_tool, retryable,
}
use agentv.McpRouter.Dispatch.{
  Reaches, Answers, Fails, IsLost, finish_call-IsBounded, executes_only_if,
}
use agentv.McpRouter.Retry.{retryable_write}
use agentv.Executor.{conclude, escape, threw}
use agentv.Executor.Gate.{Call}

abbrev envelope : ModelContextEnvelope
envelope = record {
  schema_version = "acornops.model-context.v1";
  tool = "restart_service";
  status = Status.success;
  summary = "ok";
  contents = obj end;
  omissions = [];
}

abbrev restart_tool : ToolDefinition
restart_tool = record {
  name = "restart_service";
  description = "restart";
  capability = ToolCapability.write;
  schema = λ a. ok (nat 1);
  output_schema = obj end;
  timeout_ms = 35000;
  artifact_policy = ArtifactPolicy.never;
  version = "1";
  deprecated = false;
  project_for_model = λ v a. envelope;
}

abbrev registry : ToolRegistry
registry = record { tools = ("restart_service", restart_tool) ∷ [] }

abbrev policy : ToolSessionPolicy
policy = record {
  allowed_tools = "restart_service" ∷ [];
  write_enabled = true;
  generation = 3;
  target_id = "vm-1";
}

abbrev router : McpRouter
router = record { policy = some policy; active_generation = some 3 }

abbrev request : JsonRpcRequest
request = record {
  id = string "r";
  method = "tools/call";
  params = some (obj (field "name" (text "restart_service") (field "arguments" (obj end) end)));
}

abbrev input : Input
input = record {
  name = "restart_service";
  arguments = some (obj end);
  request_id = string "r";
  policy = policy;
}

dispatched : handle_request registry router request ≡ execute input restart_tool
unfolding handle_request call_tool Registry.get
dispatched = refl

executes_only_if_example : Reaches registry router request input restart_tool
executes_only_if_example = executes_only_if registry router request input restart_tool dispatched

abbrev refused : ToolExecutionError
refused =
    tool_error_with tool_busy "Another restart is in progress"
      (field "outcome" (text "not_started") end)

may_retry : retryable restart_tool (tool refused) ≡ true
unfolding retryable
may_retry = refl

abbrev env : Env
env = record {
  read_concurrency = 1;
  write_concurrency = 1;
  queue_limit = 1;
  max_input_bytes = 100;
  max_output_bytes = 200;
  tools = registry;
  serialize = λ v. Serialized.bytes 10;
  sha256 = λ s. "0123456789abcdef0123456789abcdef";
  redact = λ v. v;
}

abbrev restart_call : Call
restart_call = record {
  id = 1;
  name = "restart_service";
  capability = ToolCapability.write;
  generation = 3;
  operation_id = "op";
}

refused_first : conclude env (some 3) restart_call (threw (tool refused)) ≡ (err refused, false)
unfolding conclude escape map_host_error
refused_first = refl

retryable_write_example :
    (y : ToolExecutionError) × (threw (tool refused) ≡ threw (tool y))
    × (get "outcome" y.details ≡ some (text "not_started"))
retryable_write_example =
    retryable_write env (some 3) restart_call (threw (tool refused)) restart_tool refused false refl
      refl refused_first may_retry

abbrev bytes : ModelContextEnvelope → ℕ
bytes c = 300

abbrev answer : JsonRpcResponse
answer = record { id = string "r"; outcome = called envelope (nat 5) ArtifactPolicy.never false }

answers : finish_call bytes input restart_tool (ok (nat 5)) ≡ some answer
unfolding finish_call is_valid_context
answers = refl

abbrev restarted : Result Thrown Value
restarted = ok (nat 5)

finish_call-IsBounded_example :
    Answers bytes input restart_tool restarted
    ⊎ Fails bytes input restart_tool restarted
    ⊎ IsLost bytes input restart_tool restarted
finish_call-IsBounded_example = finish_call-IsBounded bytes input restart_tool restarted

abbrev silent : ToolExecutionError
silent = tool_error_with tool_busy "" end

-- An error without a message is not answered.
silent_unanswered : finish_call bytes input restart_tool (err (tool silent)) ≡ none
unfolding finish_call McpRouter.fail_call McpRouter.failure_of is_valid_context retryable
silent_unanswered = refl
