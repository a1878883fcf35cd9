-- ===== src/Examples/Lifecycle.antt =====
-- Runs of src/core/lifecycle.ts.
use agentv.Base.{
  String, ◌≡◌, ◌↔◌, refl, true, false, ◌&&◌, List, [], ◌∷◌, map, none, some, contains, string_eq,
}
use agentv.Base.Json.{text, nat, bool, arr, obj, cons, nil, field, end, Fields, truthy}
use agentv.Metrics.{initial}
use agentv.Registry.{ToolDefinition, ToolRegistry, get_all}
use agentv.Transport
use agentv.Lifecycle.Handshake.{
  AgentConfig, linux, RemotePolicy, Response, Accepted, allowed_tools, logs_enabled,
  check_handshake, read_object, read_result, session_policy, remote_bounds,
}
use agentv.Lifecycle.Grants.{IsAcceptable, allowed_tools_exact, accepted_only_if}
use agentv.Lifecycle.Session.{Inv, run_sessions}
use agentv.Lifecycle.Routing.{unready_routes_nothing}
use agentv.Lifecycle.{
  LifecycleManager, step, Env, Event, start_call, progress, socket_opened, received, parsed, create,
  run,
}

abbrev config : AgentConfig
config = record {
  target_id = "vm-1";
  write_enabled = false;
  allowed_log_units = [];
  snapshot_interval_ms = 60000;
  min_snapshot_interval_ms = 10000;
  max_snapshot_interval_ms = 3600000;
  max_snapshot_bytes = 1048576;
  min_snapshot_bytes = 16384;
  max_remote_snapshot_bytes = 1048576;
}

abbrev registry : ToolRegistry
registry = record { tools = [] }

abbrev env : Env
env = record { runtime = linux; config = config; registry = registry; handshake_bytes = λ h. 500 }

abbrev result : Fields
result = field "targetId" (text "vm-1") (
    field "targetType" (text "virtual_machine") (
      field "workspaceId" (text "w") (
        field "sessionPolicy"
          (obj (
            field "allowedTools" (arr (cons (text "get_host") nil))
              (field "writeEnabled" (bool true) end)))
          (field "config" (obj (field "snapshotInterval" (nat 30) end)) end))))

abbrev answer : Response
answer = record {
  jsonrpc = "2.0";
  id = some "agentv-handshake-v2";
  result = some (obj result);
  error = none;
}

abbrev events : List Event
events =
    start_call true
    ∷ progress Transport.opened 0
    ∷ socket_opened 0 1
    ∷ received 0 (parsed (some answer) false) 10 1
    ∷ []

run_sessions_example : Inv env (run env (create (Transport.create initial)) events)
run_sessions_example = run_sessions env initial events

abbrev policy : RemotePolicy
policy = record { allowed_tools = "get_host" ∷ []; write_enabled = true }

abbrev get_host : String
get_host = "get_host"

allowed_tools_exact_example :
    (contains (allowed_tools linux config registry true policy) "get_host" ≡ true) ↔ (
      (contains policy.allowed_tools "get_host" ≡ true)
      × (contains (map (λ (d : ToolDefinition). d.name) (get_all registry)) "get_host" ≡ true)
      × (get_host ≡ "query_logs" → logs_enabled linux config ≡ true)
      × (get_host ≡ "restart_service"
          → (config.write_enabled && true && policy.write_enabled) ≡ true))
allowed_tools_exact_example = allowed_tools_exact linux config registry true policy get_host

abbrev accepted : Accepted
accepted = record {
  policy = policy;
  bounds = record { interval_ms = 30000; max_bytes = 1048576 };
  provisional = false;
}

handshake_accepted : check_handshake config answer ≡ some accepted
unfolding check_handshake read_object read_result session_policy remote_bounds
handshake_accepted = refl

accepted_only_if_example :
    (truthy answer.error ≡ false)
    × ((fs : Fields) × (answer.result ≡ some (obj fs)) × IsAcceptable config fs accepted)
accepted_only_if_example = accepted_only_if config answer accepted handshake_accepted

abbrev waiting : LifecycleManager
waiting = create (Transport.create initial)

unready_routes_nothing_example :
    (step env waiting (received 0 (parsed none true) 10 1)).routed ≡ waiting.routed
unready_routes_nothing_example =
    unready_routes_nothing env waiting (received 0 (parsed none true) 10 1) refl
