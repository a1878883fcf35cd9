-- ===== src/Executor/Authorize.antt =====
-- src/tools/executor.ts, `execute` up to the gate: the checks of session, policy, size and schema.
use agentv.Base.{
  ℕ, String, Bool, true, false, not, ◌&&◌, ◌||◌, List, [], ◌∷◌, Option, none, some, ltb, ◌!=◌,
  nat_eq, option_eq, string_eq, if◌then◌else◌, contains,
}
use agentv.Base.Json.{Value}
use agentv.Base.Result.{Result, ok, err}
use agentv.Base.Text.{slice_to, concat}
use agentv.Errors.{
  ToolExecutionError, invalid_arguments, tool_not_allowed, write_disabled, tool_error,
  tool_error_with,
}
use agentv.Metrics.{RuntimeCounters, Key, increment}
use agentv.Registry.{ToolCapability, ToolDefinition, ToolRegistry, get}

-- `JSON.stringify`: it throws, it returns `undefined`, or it returns a text of so many bytes.
pub data Serialized : Type 0 where
  throws undefined : Serialized
  bytes : ℕ → Serialized

pub data RequestId : Type 0 where
  string number : String → RequestId

-- `typeof id` and `String(id)`; a number is given by the text that `String` makes of it.
abbrev type_of : RequestId → String
type_of (string s) = "string"
type_of (number s) = "number"

abbrev rendered : RequestId → String
rendered (string s) = s
rendered (number s) = s

pub record ToolSessionPolicy : Type 0 where
  pub allowed_tools : List String
  pub write_enabled : Bool
  pub generation : ℕ
  pub target_id : String

pub record Input : Type 0 where
  pub name : String
  pub arguments : Option Value
  pub request_id : RequestId
  pub policy : ToolSessionPolicy

-- `ExecutorLimits`, the catalog, and the functions of the platform that `execute` calls:
-- `JSON.stringify`, SHA-256 as a hexadecimal text, and `redactValue`.
pub record Env : Type 0 where
  pub read_concurrency : ℕ
  pub write_concurrency : ℕ
  pub queue_limit : ℕ
  pub max_input_bytes : ℕ
  pub max_output_bytes : ℕ
  pub tools : ToolRegistry
  pub serialize : Option Value → Serialized
  pub sha256 : String → String
  pub redact : Option Value → Option Value

abbrev pub operation_id : Env → Input → String
operation_id env input =
    let id = input.request_id in
    slice_to 24
      (env.sha256 (concat (input.policy.target_id ∷ ":" ∷ type_of id ∷ ":" ∷ rendered id ∷ [])))

abbrev writes : ToolCapability → Bool
writes ToolCapability.read = false
writes ToolCapability.write = true

abbrev failed :
    ToolExecutionError
    → RuntimeCounters
    → Result ToolExecutionError ToolDefinition × RuntimeCounters
failed e m = (err e, increment Key.validation_failures m)

unfoldable pub check_arguments :
    Env
    → ToolDefinition
    → Option Value
    → RuntimeCounters
    → Result ToolExecutionError ToolDefinition × RuntimeCounters
check_arguments env t args m =
    let too_big = tool_error invalid_arguments "Tool input exceeds the configured size limit" in
    elim (env.serialize args) [
      | throws ↦ failed (tool_error invalid_arguments "Tool arguments must be JSON serializable") m
      | undefined ↦ failed too_big m
      | bytes n ↦ if ltb env.max_input_bytes n then failed too_big m else elim (t.schema args) [
        | err details ↦
            failed (tool_error_with invalid_arguments "Invalid tool arguments" details) m
        | ok parsed ↦ (ok t, m)
      ]
    ]

-- `active` is `activeGeneration` and `local_write` is what `localWriteEnabled()` returns.
unfoldable pub authorize :
    Env
    → Option ℕ
    → Bool
    → Input
    → RuntimeCounters
    → Result ToolExecutionError ToolDefinition × RuntimeCounters
unfolding check_arguments
authorize env active local_write input m =
    let policy = input.policy in
    let denied = tool_error tool_not_allowed "Tool is not allowed for this session" in
    if active != some policy.generation
    then (err (tool_error tool_not_allowed "Tool session is no longer active"), m)
    else elim (get env.tools input.name) [
      | none ↦ (err denied, m)
      | some t ↦
          if not (contains policy.allowed_tools input.name)
          then (err denied, m)
          else if writes t.capability && (not policy.write_enabled || not local_write)
          then (err (tool_error write_disabled "Write operations are disabled for this session"), m)
          else check_arguments env t input.arguments m
    ]
