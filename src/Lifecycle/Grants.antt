-- ===== src/Lifecycle/Grants.antt =====
-- src/core/lifecycle.ts, `acceptHandshake`: what the accepted policy and configuration permit.
use agentv.Base.{
  ◌≤◌, String, ◌≡◌, ◌↔◌, refl, ap, Bool, true, false, ◌&&◌, map, Option, none, some, arith,
  contains, contains-keep, all, distinct, if◌then◌else◌, contains-remove, string_eq, length, remove,
  keep, all, distinct, if◌then◌else◌,
}
use agentv.Base.Json.{Value, Fields, obj, text, get, truthy}
use agentv.Registry.{ToolDefinition, ToolRegistry, get_all}
use agentv.Lifecycle.Handshake.{
  AgentConfig, Runtime, RemotePolicy, Bounds, Accepted, Response, logs_enabled, allowed_tools,
  remote_bounds, check_handshake, read_result, session_policy, is_tool_name, is_text, read_object,
}

-- A tool is allowed exactly if the control plane allows it and it is compiled in, where log queries
-- need enabled logs, and a restart needs the local switch, the helper and the policy's consent.
pub allowed_tools_exact :
    (runtime : Runtime) (config : AgentConfig) (registry : ToolRegistry) (helper_ready : Bool)
    (policy : RemotePolicy) (t : String)
    → (contains (allowed_tools runtime config registry helper_ready policy) t ≡ true) ↔ (
        (contains policy.allowed_tools t ≡ true)
        × (contains (map (λ (d : ToolDefinition). d.name) (get_all registry)) t ≡ true)
        × (t ≡ "query_logs" → logs_enabled runtime config ≡ true)
        × (t ≡ "restart_service"
            → (config.write_enabled && helper_ready && policy.write_enabled) ≡ true))
unfolding allowed_tools
allowed_tools_exact runtime config registry helper_ready policy t =
    let compiled = map (λ (d : ToolDefinition). d.name) (get_all registry) in
    let known = keep (contains compiled) policy.allowed_tools in
    let logs = if logs_enabled runtime config then known else remove "query_logs" known in
    ground (
      arith,
      contains-keep (contains compiled) policy.allowed_tools t,
      contains-remove "query_logs" known t,
      contains-remove "restart_service" known t,
      contains-remove "restart_service" logs t,
      string_eq.beq_iff "query_logs" t,
      string_eq.beq_iff "restart_service" t,
    )

pub record IsWithin (config : AgentConfig) (b : Bounds) : Type 0 where
  pub interval_low : config.min_snapshot_interval_ms ≤ b.interval_ms
  pub interval_high : b.interval_ms ≤ config.max_snapshot_interval_ms
  pub bytes_low : config.min_snapshot_bytes ≤ b.max_bytes
  pub bytes_high : b.max_bytes ≤ config.max_remote_snapshot_bytes

remote_bounds-IsWithin :
    (config : AgentConfig) (remote : Option Value) (b : Bounds)
    → remote_bounds config remote ≡ some b
    → IsWithin config b
unfolding remote_bounds
remote_bounds-IsWithin config remote b e = ground arith

-- A policy that the checks admit.
pub record IsPolicy (p : RemotePolicy) : Type 0 where
  pub few : length p.allowed_tools ≤ 64
  pub named : all is_tool_name p.allowed_tools ≡ true
  pub once : distinct p.allowed_tools ≡ true

session_policy-IsPolicy :
    (v : Option Value) (p : RemotePolicy) → session_policy v ≡ some p → IsPolicy p
unfolding session_policy
session_policy-IsPolicy (some (obj fs)) p e = ground arith
session_policy-IsPolicy none p e = cc
session_policy-IsPolicy (some _) p e = cc

pub record IsAcceptable (config : AgentConfig) (fs : Fields) (a : Accepted) : Type 0 where
  pub target : get "targetId" fs ≡ some (text config.target_id)
  pub kind : get "targetType" fs ≡ some (text "virtual_machine")
  pub policy : IsPolicy a.policy
  pub bounds : IsWithin config a.bounds

is_text_only : (s : String) (v : Option Value) → is_text s v ≡ true → v ≡ some (text s)
is_text_only s (some (text t)) h = ap (λ (u : String). some (text u)) ((string_eq.beq_iff t s).0 h)
is_text_only s none h = cc
is_text_only s (some _) h = cc

read_result-IsAcceptable :
    (config : AgentConfig) (jsonrpc : String) (fs : Fields) (a : Accepted)
    → read_result config jsonrpc fs ≡ some a
    → IsAcceptable config fs a
unfolding read_result
read_result-IsAcceptable config jsonrpc fs a e = ground (
  arith,
  remote_bounds-IsWithin config (get "config" fs) a.bounds,
  session_policy-IsPolicy (get "sessionPolicy" fs) a.policy,
  is_text_only config.target_id (get "targetId" fs),
  is_text_only "virtual_machine" (get "targetType" fs),
)

read_object-IsAcceptable :
    (config : AgentConfig) (jsonrpc : String) (v : Option Value) (a : Accepted)
    → read_object config jsonrpc v ≡ some a
    → (fs : Fields) × (v ≡ some (obj fs)) × IsAcceptable config fs a
unfolding read_object
read_object-IsAcceptable config jsonrpc (some (obj fs)) a e =
    (fs, refl, read_result-IsAcceptable config jsonrpc fs a e)
read_object-IsAcceptable config jsonrpc none a e = cc
read_object-IsAcceptable config jsonrpc (some _) a e = cc

-- An accepted handshake has no error and an object as its result that names this target, a policy of
-- at most 64 different tool names, and a snapshot interval and a byte limit within the configured
-- bounds, also where the control plane sets them.
pub accepted_only_if :
    (config : AgentConfig) (r : Response) (a : Accepted)
    → check_handshake config r ≡ some a
    → (truthy r.error ≡ false)
      × ((fs : Fields) × (r.result ≡ some (obj fs)) × IsAcceptable config fs a)
unfolding check_handshake
accepted_only_if config r a e = ground (arith, read_object-IsAcceptable config r.jsonrpc r.result a)

pub check_handshake-IsWithin :
    (config : AgentConfig) (r : Response) (a : Accepted)
    → check_handshake config r ≡ some a
    → IsWithin config a.bounds
check_handshake-IsWithin config r a e =
    let (_, (_, _, found)) = accepted_only_if config r a e in found.bounds
