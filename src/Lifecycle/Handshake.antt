-- ===== src/Lifecycle/Handshake.antt =====
-- src/core/lifecycle.ts: the handshake that the agent sends, and what it accepts as the answer.
use agentv.Base.{
  ℕ, ◌*◌, String, Bool, true, false, not, ◌&&◌, ◌||◌, List, [], ◌∷◌, ◌++◌, map, Option, none, some,
  ltb, ◌==◌, string_eq, nat_eq, option_eq, if◌then◌else◌, all, keep, contains, distinct, remove,
  length,
}
use agentv.Base.Json.{Value, bool, nat, text, arr, obj, Fields, get, truthy, to_list}
use agentv.Base.Text.{codes, is_lower, is_digit, all_codes, has_visible}
use agentv.Registry.{ToolCapability, ToolDefinition, ToolRegistry, get_all}

-- The fields of `AgentConfig` that a session depends on.
pub record AgentConfig : Type 0 where
  pub target_id : String
  pub write_enabled : Bool
  pub allowed_log_units : List String
  pub snapshot_interval_ms : ℕ
  pub min_snapshot_interval_ms : ℕ
  pub max_snapshot_interval_ms : ℕ
  pub max_snapshot_bytes : ℕ
  pub min_snapshot_bytes : ℕ
  pub max_remote_snapshot_bytes : ℕ

-- `RuntimeComposition`: `windows` with its `logsEnabled`, or Linux.
pub data Runtime : Type 0 where
  linux : Runtime
  windows : Bool → Runtime

pub record HandshakeRequest : Type 0 where
  pub supported_capabilities : List String
  pub advertised_tools : List (String × ToolCapability)
  pub helper_reachable : Bool
  pub restart_services : List String

abbrev pub logs_enabled : Runtime → AgentConfig → Bool
logs_enabled linux config = ltb 0 (length config.allowed_log_units)
logs_enabled (windows logs) config = logs

abbrev pub base_capabilities : Runtime → List String
base_capabilities linux = "read" ∷ "mcp" ∷ "systemd" ∷ "linux" ∷ []
base_capabilities (windows logs) = "read" ∷ "mcp" ∷ "scm" ∷ "windows" ∷ []

abbrev is_read : ToolCapability → Bool
is_read ToolCapability.read = true
is_read ToolCapability.write = false

unfoldable pub handshake_of :
    Runtime → AgentConfig → ToolRegistry → Bool → List String → HandshakeRequest
handshake_of runtime config registry helper_ready services = record {
  supported_capabilities =
      base_capabilities runtime
      ++ (if logs_enabled runtime config then "logs" ∷ [] else [])
      ++ (if helper_ready then "write" ∷ "restart_service" ∷ [] else []);
  advertised_tools =
      map (λ (t : ToolDefinition). (t.name, t.capability))
        (keep (λ (t : ToolDefinition). is_read t.capability || helper_ready) (get_all registry));
  helper_reachable = helper_ready;
  restart_services = services;
}

-- `/^[a-z][a-z0-9_]{0,127}$/`
abbrev name_code : ℕ → Bool
name_code c = is_lower c || is_digit c || c == 95

abbrev is_tool_codes : List ℕ → Bool
is_tool_codes [] = false
is_tool_codes (c ∷ cs) = is_lower c && all_codes name_code cs && ltb (length cs) 128

abbrev pub is_tool_name : String → Bool
is_tool_name s = is_tool_codes (codes s)

abbrev names_of : List Value → Option (List String)
names_of [] = some []
names_of (text s ∷ vs) = elim (names_of vs) [ none ↦ none | some ss ↦ some (s ∷ ss) ]
names_of (_ ∷ vs) = none

pub record RemotePolicy : Type 0 where
  pub allowed_tools : List String
  pub write_enabled : Bool

-- `validPolicy`, with the policy that it admits.
abbrev named_policy : List String → Option Value → Option RemotePolicy
named_policy names (some (bool w)) =
    if not (ltb 64 (length names)) && all is_tool_name names && distinct names
    then some (record { allowed_tools = names; write_enabled = w })
    else none
named_policy names _ = none

abbrev policy_fields : Fields → Option Value → Option RemotePolicy
policy_fields fs (some (arr vs)) = elim (names_of (to_list vs)) [
  | none ↦ none
  | some names ↦ named_policy names (get "writeEnabled" fs)
]
policy_fields fs _ = none

unfoldable pub session_policy : Option Value → Option RemotePolicy
session_policy (some (obj fs)) = policy_fields fs (get "allowedTools" fs)
session_policy _ = none

-- An optional integer of `config`: the default, or a number, or it is invalid. A negative number is
-- below each minimum that the configuration allows.
abbrev integer_or : ℕ → ℕ → Option Value → Option ℕ
integer_or d factor none = some d
integer_or d factor (some (nat n)) = some (n * factor)
integer_or d factor (some _) = none

pub record Bounds : Type 0 where
  pub interval_ms : ℕ
  pub max_bytes : ℕ

abbrev within : ℕ → ℕ → ℕ → Bool
within low high n = not (ltb n low) && not (ltb high n)

abbrev bounded : AgentConfig → Option ℕ → Option ℕ → Option Bounds
bounded config (some i) (some b) =
    if within config.min_snapshot_interval_ms config.max_snapshot_interval_ms i
      && within config.min_snapshot_bytes config.max_remote_snapshot_bytes b
    then some (record { interval_ms = i; max_bytes = b })
    else none
bounded config _ _ = none

-- `validRemote` and the tests of `intervalMs` and `maxBytes`, with the two numbers.
unfoldable pub remote_bounds : AgentConfig → Option Value → Option Bounds
remote_bounds config none =
    bounded config (some config.snapshot_interval_ms) (some config.max_snapshot_bytes)
remote_bounds config (some (obj fs)) =
    bounded config (integer_or config.snapshot_interval_ms 1000 (get "snapshotInterval" fs))
      (integer_or config.max_snapshot_bytes 1 (get "maxSnapshotBytes" fs))
remote_bounds config (some _) = none

-- A message that `JsonRpcResponseSchema` accepts.
pub record Response : Type 0 where
  pub jsonrpc : String
  pub id : Option String
  pub result : Option Value
  pub error : Option Value

pub record Accepted : Type 0 where
  pub policy : RemotePolicy
  pub bounds : Bounds
  pub provisional : Bool

abbrev has_workspace : Option Value → Bool
has_workspace (some (text w)) = has_visible (codes w)
has_workspace _ = false

abbrev pub is_text : String → Option Value → Bool
is_text s (some (text t)) = t == s
is_text s _ = false

abbrev is_true : Option Value → Bool
is_true (some (bool b)) = b
is_true _ = false

abbrev both : Bool → Option RemotePolicy → Option Bounds → Option Accepted
both p (some policy) (some bounds) =
    some (record { policy = policy; bounds = bounds; provisional = p })
both p _ _ = none

unfoldable pub read_result : AgentConfig → String → Fields → Option Accepted
read_result config jsonrpc fs =
    if jsonrpc == "2.0"
      && is_text config.target_id (get "targetId" fs)
      && is_text "virtual_machine" (get "targetType" fs)
      && has_workspace (get "workspaceId" fs)
    then both (is_true (get "provisional" fs)) (session_policy (get "sessionPolicy" fs))
        (remote_bounds config (get "config" fs))
    else none

unfoldable pub read_object : AgentConfig → String → Option Value → Option Accepted
read_object config jsonrpc (some (obj fs)) = read_result config jsonrpc fs
read_object config jsonrpc _ = none

-- The checks of `acceptHandshake`; `none` is the forced reconnect.
unfoldable pub check_handshake : AgentConfig → Response → Option Accepted
check_handshake config r = if truthy r.error then none else read_object config r.jsonrpc r.result

-- `allowed`, after the filter and the two deletions.
unfoldable pub allowed_tools :
    Runtime → AgentConfig → ToolRegistry → Bool → RemotePolicy → List String
allowed_tools runtime config registry helper_ready policy =
    let compiled = map (λ (t : ToolDefinition). t.name) (get_all registry) in
    let known = keep (contains compiled) policy.allowed_tools in
    let logs = if logs_enabled runtime config then known else remove "query_logs" known in
    if config.write_enabled && helper_ready && policy.write_enabled
    then logs
    else remove "restart_service" logs
