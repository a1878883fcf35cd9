-- ===== src/Registry.antt =====
-- src/tools/registry.ts: the tool catalog. A schema of the library zod is the function that its
-- `safeParse` computes; `handler` is absent, since a call's outcome is an event of the executor.
use agentv.Base.{
  ℕ, String, Bool, List, [], ◌∷◌, ◌++◌, map, Option, none, some, ◌==◌, string_eq, if◌then◌else◌,
}
use agentv.Base.Json.{Value, Fields}
use agentv.Base.Result.{Result, ok, err}

pub data ToolCapability : Type 0 where
  read write : ToolCapability

pub data ArtifactPolicy : Type 0 where
  never if_detailed always : ArtifactPolicy

pub data Status : Type 0 where
  success error : Status

pub record ModelContextEnvelope : Type 0 where
  pub schema_version : String
  pub tool : String
  pub status : Status
  pub summary : String
  pub contents : Value
  pub omissions : List Fields

-- The error of a schema is the list of its issues, as `validationDetails` returns it.
pub record ToolDefinition : Type 0 where
  pub name : String
  pub description : String
  pub capability : ToolCapability
  pub schema : Option Value → Result Fields Value
  pub output_schema : Value
  pub timeout_ms : ℕ
  pub artifact_policy : ArtifactPolicy
  pub version : String
  pub deprecated : Bool
  pub project_for_model : Value → Option Value → ModelContextEnvelope

-- A `Map` from names, in the order of insertion.
pub record ToolRegistry : Type 0 where
  pub tools : List (String × ToolDefinition)

abbrev find : String → List (String × ToolDefinition) → Option ToolDefinition
find n [] = none
find n ((k, t) ∷ ts) = if k == n then some t else find n ts

-- `toolRegistry.get(name)`
unfoldable pub get : ToolRegistry → String → Option ToolDefinition
get r n = find n r.tools

-- `register`; it throws `Duplicate tool name`, with the name.
unfoldable pub register : ToolDefinition → ToolRegistry → Result String ToolRegistry
register t r = elim (find t.name r.tools) [
  | some _ ↦ err t.name
  | none ↦ ok (record r { tools = r.tools ++ (t.name, t) ∷ [] })
]

unfoldable pub get_all : ToolRegistry → List ToolDefinition
get_all r = map (λ e. e.1) r.tools

abbrev pub reset_for_tests : ToolRegistry → ToolRegistry
reset_for_tests r = record r { tools = [] }
