-- ===== src/Errors.antt =====
-- src/tools/errors.ts: the stable errors that may cross the RPC boundary, and the mapping of host
-- errors to them.
use Prim.Native.Char.{code}
use agentv.Base.{
  ℕ, ◌-◌, String, Bool, true, false, ◌&&◌, ◌||◌, List, [], ◌∷◌, leb, ◌==◌, if◌then◌else◌, nat_eq,
  any,
}
use agentv.Base.Json.{Fields, end}

pub data ToolErrorCode : Type 0 where
  invalid_arguments tool_not_allowed write_disabled tool_timeout tool_busy : ToolErrorCode
  precondition_failed output_too_large resource_not_found permission_denied : ToolErrorCode
  command_unavailable host_unavailable internal_error : ToolErrorCode

-- `TOOL_RPC_ERRORS`, each code negated.
unfoldable pub rpc_code : ToolErrorCode → ℕ
rpc_code invalid_arguments = 32602
rpc_code tool_not_allowed = 32001
rpc_code write_disabled = 32002
rpc_code tool_timeout = 32003
rpc_code tool_busy = 32004
rpc_code precondition_failed = 32005
rpc_code output_too_large = 32006
rpc_code resource_not_found = 32009
rpc_code permission_denied = 32010
rpc_code command_unavailable = 32011
rpc_code host_unavailable = 32012
rpc_code internal_error = 32603

pub record ToolExecutionError : Type 0 where
  pub tool_code : ToolErrorCode
  pub message : String
  pub details : Fields

abbrev pub tool_error : ToolErrorCode → String → ToolExecutionError
tool_error c m = record { tool_code = c; message = m; details = end }

abbrev pub tool_error_with : ToolErrorCode → String → Fields → ToolExecutionError
tool_error_with c m d = record { tool_code = c; message = m; details = d }

-- What a promise may reject with: a `ToolExecutionError`, or any other value. Of the other only
-- `String(value.code || '')` is read.
pub data Thrown : Type 0 where
  tool : ToolExecutionError → Thrown
  other : String → Thrown

-- `s.toUpperCase() === t`, for a text `t` of capital ASCII letters
is_upper_of : String → String → Bool
is_upper_of String.[] String.[] = true
is_upper_of (String.◌∷◌ c s) (String.◌∷◌ d t) =
    let upper = if leb b'a' (code c) && leb (code c) b'z' then code c - 32 else code c in
    upper == code d && is_upper_of s t
is_upper_of _ _ = false

abbrev unreachable_codes : List String
unreachable_codes = "ECONNREFUSED" ∷ "ECONNRESET" ∷ "EHOSTUNREACH" ∷ "ENETUNREACH" ∷ []

unfoldable pub map_host_error : Thrown → ToolExecutionError
unfolding is_upper_of
map_host_error (tool e) = e
map_host_error (other c) =
    if is_upper_of c "ENOENT"
    then tool_error command_unavailable "A required host command is unavailable"
    else if is_upper_of c "EACCES" || is_upper_of c "EPERM"
    then tool_error permission_denied "Host access was denied"
    else if any (is_upper_of c) unreachable_codes
    then tool_error host_unavailable "The host service is unavailable"
    else tool_error internal_error "Host operation failed"
