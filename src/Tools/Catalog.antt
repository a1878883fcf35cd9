-- ===== src/Tools/Catalog.antt =====
-- src/tools/index.ts: `registerAllTools`.
use agentv.Base.{ℕ, String, false, ◌≡◌, refl, List, [], ◌∷◌, Option, string_eq}
use agentv.Base.Json.{Value, Fields}
use agentv.Base.Result.{Result, ok, ◌>>=◌}
use agentv.Registry.{
  ToolCapability, read, write, ArtifactPolicy, never, if_detailed, always, ToolDefinition,
  ToolRegistry, ModelContextEnvelope, register, get_all, reset_for_tests,
}

-- What a definition says in words and schemas, by the name of its tool.
pub record Schemas : Type 0 where
  pub description : String → String
  pub schema : String → Option Value → Result Fields Value
  pub output_schema : String → Value
  pub project_for_model : String → Value → Option Value → ModelContextEnvelope

abbrev pub define : Schemas → String → ToolCapability → ℕ → ArtifactPolicy → ToolDefinition
define s name capability timeout_ms artifact_policy = record {
  name = name;
  description = s.description name;
  capability = capability;
  schema = s.schema name;
  output_schema = s.output_schema name;
  timeout_ms = timeout_ms;
  artifact_policy = artifact_policy;
  version = "2.0.0";
  deprecated = false;
  project_for_model = s.project_for_model name;
}

unfoldable pub definitions : Schemas → List ToolDefinition
definitions s =
    define s "get_host_summary" read 5000 if_detailed
    ∷ define s "list_filesystems" read 8000 if_detailed
    ∷ define s "list_processes" read 8000 if_detailed
    ∷ define s "get_process" read 5000 never
    ∷ define s "list_services" read 10000 if_detailed
    ∷ define s "get_service" read 8000 never
    ∷ define s "query_logs" read 12000 if_detailed
    ∷ define s "list_listeners" read 8000 if_detailed
    ∷ define s "restart_service" write 30000 always
    ∷ []

unfoldable pub register_each : List ToolDefinition → ToolRegistry → Result String ToolRegistry
register_each [] r = ok r
register_each (t ∷ ts) r = do q ← register t r; register_each ts q

-- It throws if a name is taken.
unfoldable pub register_all_tools : Schemas → ToolRegistry → Result String ToolRegistry
register_all_tools s r = register_each (definitions s) (reset_for_tests r)

-- Whatever was registered before, the registration succeeds, and the registry then lists exactly the
-- catalog, in its order.
pub register_all_tools_exact :
    (s : Schemas) (r : ToolRegistry)
    → (q : ToolRegistry) × (register_all_tools s r ≡ ok q) × (get_all q ≡ definitions s)
unfolding register_all_tools register_each definitions register get_all
register_all_tools_exact s r = (_, refl, refl)
