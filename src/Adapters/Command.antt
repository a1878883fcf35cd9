-- ===== src/Adapters/Command.antt =====
-- src/adapters/command-runner.ts: commands with fixed paths, and the errors of a command.
pub mod Failures
use agentv.Base.{
  ℕ, String, List, [], ◌∷◌, Bool, true, false, ◌&&◌, ◌||◌, ◌==◌, Option, none, some, ◌≡◌, refl, inl,
  inr, ◌⊎◌, if◌then◌else◌, string_eq, option_eq, arith, Bool-cases, any,
}
use agentv.Base.Json.{Value, Fields, end, field, text}
use agentv.Base.Result.{Result, ok, err}
use agentv.Base.Scan.{is_empty, has_text, has_any_case, join}
use agentv.Base.Sort.{Sign}
use agentv.Base.Text.{concat}
use agentv.Errors.{
  ToolErrorCode, ToolExecutionError, Thrown, tool, tool_error, tool_error_with, tool_timeout,
  command_unavailable, permission_denied, output_too_large, host_unavailable,
}

pub record CommandResult : Type 0 where
  pub stdout : String
  pub stderr : String

-- The error of `execFile`. Its code is a text, or the exit status.
pub data ErrorCode : Type 0 where
  named : String → ErrorCode
  status : ℕ → ErrorCode
  no_code : ErrorCode

pub record ExecError : Type 0 where
  pub killed : Bool
  pub code : ErrorCode
  pub name : String
  pub message : String

-- What `execFile` calls back with.
pub record ExecOutcome : Type 0 where
  pub error : Option ExecError
  pub stdout : String
  pub stderr : String

pub record ExecOptions : Type 0 where
  pub timeout_ms : ℕ
  pub max_bytes : ℕ

-- What the adapters call: `access` with `X_OK`, `execFile` with a fixed environment, `toLowerCase`,
-- `localeCompare` and `redactString`.
pub record Platform : Type 0 where
  pub is_executable : String → Bool
  pub exec_file : String → List String → ExecOptions → ExecOutcome
  pub lower_case : String → String
  pub locale_compare : String → String → Sign
  pub redact_string : String → String

unfoldable pub first_executable : Platform → List String → Option String
first_executable p [] = none
first_executable p (path ∷ paths) =
    let rest = first_executable p paths in if p.is_executable path then some path else rest

unfoldable pub resolve_executable : Platform → List String → Result Thrown String
resolve_executable p paths = elim (first_executable p paths) [
  | some path ↦ ok path
  | none ↦ err (
      tool (
        tool_error command_unavailable
          (concat ("Required command is unavailable: " ∷ join " or " paths ∷ []))))
]

abbrev pub has_name : ErrorCode → String → Bool
has_name (named a) b = a == b
has_name _ b = false

abbrev host_command : Fields
host_command = field "phase" (text "host_command") end

abbrev exit_code : ErrorCode → Fields
exit_code (named a) = field "exitCode" (text a) end
exit_code (status n) = field "exitCode" (Value.nat n) end
exit_code no_code = end

abbrev denied : ToolExecutionError
denied = tool_error permission_denied "Host command access was denied"

abbrev pub timed_out : ExecError → Bool
timed_out e = e.killed || has_name e.code "ETIMEDOUT" || e.name == "AbortError"

abbrev pub overflowed : ExecError → Bool
overflowed e =
    has_name e.code "ERR_CHILD_PROCESS_STDIO_MAXBUFFER" || has_any_case "maxbuffer" e.message

abbrev pub says_denied : Platform → String → ExecError → Bool
says_denied p stderr e =
    let message = p.lower_case (if is_empty stderr then e.message else stderr) in
    has_text "permission denied" message || has_text "access denied" message

unfoldable pub command_error : Platform → String → String → ExecError → ToolExecutionError
command_error p executable stderr e =
    if timed_out e
    then tool_error_with tool_timeout "Host command timed out" host_command
    else if has_name e.code "ENOENT"
    then tool_error command_unavailable
        (concat ("Required command is unavailable: " ∷ executable ∷ []))
    else if has_name e.code "EACCES" || has_name e.code "EPERM"
    then denied
    else if overflowed e
    then tool_error_with output_too_large "Host command output exceeded its byte limit" host_command
    else if says_denied p stderr e
    then denied
    else tool_error_with host_unavailable (concat ("Host command failed: " ∷ executable ∷ []))
        (exit_code e.code)

abbrev outcome_of : Platform → String → ExecOutcome → Result Thrown CommandResult
outcome_of p executable o = elim o.error [
  | none ↦ ok (record { stdout = o.stdout; stderr = o.stderr })
  | some e ↦ err (tool (command_error p executable o.stderr e))
]

unfoldable pub run_command :
    Platform → String → List String → ExecOptions → Result Thrown CommandResult
run_command p executable args options =
    outcome_of p executable (p.exec_file executable args options)
