-- ===== src/Windows/Runner.antt =====
-- src/windows/runner.ts: one collector process after another event of it, and the runner of all. The
-- events for the observer are left out.
pub mod Output
pub mod Answer
pub mod Stopped
pub mod Calls
use Prim.Native.Char.{code}
use Prim.Native.String
use agentv.Base.{
  ℕ, zero, suc, ◌+◌, ◌*◌, String, List, [], ◌∷◌, ◌++◌, map, Bool, true, false, not, ◌&&◌, ◌||◌,
  ◌==◌, Option, none, some, if◌then◌else◌, string_eq, nat_eq, option_eq, any, all, contains, keep,
  length, ltb, leb,
}
use agentv.Base.Json.{
  Value, Fields, Items, bool, text, obj, arr, field, end, get, keys, to_list, spread,
}
use agentv.Base.Json
use agentv.Base.Result.{Result, ok, err, ◌>>=◌, ◌>>◌, fail_if}
use agentv.Base.Scan.{drop, trim, strip, join}
use agentv.Base.Text.{codes, size, same_codes, starts_with}
use agentv.Errors.{
  ToolErrorCode, ToolExecutionError, Thrown, tool, other, tool_error, tool_error_with, tool_timeout,
  command_unavailable, output_too_large, host_unavailable,
}

pub record CollectorResult : Type 0 where
  pub items : List Value
  pub truncated : Bool
  pub status : String

-- What is called: the text of a script in base64, `JSON.stringify` with its byte length, UTF-8 and
-- `JSON.parse`.
pub record Codec : Type 0 where
  pub encoded_script : String → Option String
  pub to_json : Fields → String
  pub byte_length : String → ℕ
  pub decode : List ℕ → String
  pub parse_json : String → Option Value

pub record CollectorCommand : Type 0 where
  pub args : List String
  pub stdin : String

unfoldable pub collector_command : Codec → String → Fields → Result Thrown CollectorCommand
collector_command c script data_fields = elim (c.encoded_script script) [
  | none ↦ err (other "")
  | some encoded ↦
      let args = "-NoLogo" ∷ "-NoProfile" ∷ "-NonInteractive" ∷ "-EncodedCommand" ∷ encoded ∷ [] in
      let stdin = c.to_json data_fields in
      if ltb 30000 (size (join " " args)) || ltb 8192 (c.byte_length stdin)
      then err (other "")
      else ok (record { args = args; stdin = stdin })
]

abbrev is_status : String → Bool
is_status s = contains ("ok" ∷ "partial" ∷ "unavailable" ∷ "permission_denied" ∷ []) s

abbrev is_field : String → Bool
is_field k = contains ("items" ∷ "truncated" ∷ "status" ∷ []) k

abbrev checked_result : Option Value → Option Value → Option Value → Option CollectorResult
checked_result (some (arr items)) (some (bool cut)) (some (text status)) =
    if leb (length (to_list items)) 1000 && is_status status
    then some (record { items = to_list items; truncated = cut; status = status })
    else none
checked_result _ _ _ = none

-- `resultSchema`
abbrev read_result : Option Value → Option CollectorResult
read_result (some (obj fs)) =
    if all is_field (keys fs)
    then checked_result (get "items" fs) (get "truncated" fs) (get "status" fs)
    else none
read_result _ = none

-- `replace(/^\uFEFF/, '')`
abbrev without_mark : String → String
without_mark String.[] = ""
without_mark (String.◌∷◌ c s) = if code c == 0xfeff then s else String.◌∷◌ c s

unfoldable pub parse_collector_result : Codec → String → Result Thrown CollectorResult
parse_collector_result c stdout = elim (read_result (c.parse_json (trim (without_mark stdout)))) [
  | some r ↦ ok r
  | none ↦
      err (tool (tool_error host_unavailable "Windows collector returned invalid JSON or fields"))
]

abbrev pub collector_stages : List String
collector_stages =
    "script_started" ∷ "encoding_construct_started" ∷ "encoding_construct_complete"
    ∷ "input_encoding_started" ∷ "input_encoding_complete" ∷ "output_encoding_started"
    ∷ "encoding_ready" ∷ "stdin_read_started" ∷ "stdin_read_complete" ∷ "input_ready"
    ∷ "os_query_started" ∷ "os_query_complete" ∷ "cpu_query_started" ∷ "cpu_query_complete"
    ∷ "collection_complete" ∷ "script_complete" ∷ []

-- A collector process. Its standard error is read by line; `killed` says that `kill` was called.
pub record Child : Type 0 where
  pub spawned : Bool
  pub stdin_finished : Bool
  pub stage : String
  pub stdout_bytes : ℕ
  pub stderr_bytes : ℕ
  pub stderr_line : List ℕ
  pub oversized_line : Bool
  pub bytes : ℕ
  pub output : List (List ℕ)
  pub failure : Option ToolExecutionError
  pub killed : Bool

unfoldable pub spawn : Child
spawn = record {
  spawned = false;
  stdin_finished = false;
  stage = "spawn_pending";
  stdout_bytes = 0;
  stderr_bytes = 0;
  stderr_line = [];
  oversized_line = false;
  bytes = 0;
  output = [];
  failure = none;
  killed = false;
}

-- `failure ??= error`
abbrev first_failure : Option ToolExecutionError → ToolExecutionError → Option ToolExecutionError
first_failure none e = some e
first_failure (some first) e = some first

unfoldable pub kill : ToolExecutionError → Child → Child
kill e c = record c { failure = first_failure c.failure e; killed = true }

unfoldable pub on_spawn : Child → Child
on_spawn c = record c {
  spawned = true;
  stage = if c.stage == "spawn_pending" then "spawned" else c.stage;
}

-- `replace(/\r$/, '')`
abbrev without_return : List ℕ → List ℕ
without_return [] = []
without_return (c ∷ []) = if c == 13 then [] else c ∷ []
without_return (c ∷ d ∷ s) = c ∷ without_return (d ∷ s)

abbrev stage_of : List String → List ℕ → Option String
stage_of [] value = none
stage_of (s ∷ ss) value =
    let rest = stage_of ss value in if same_codes (codes s) value then some s else rest

-- The stage that a whole line names, if it names one.
abbrev pub line_stage : Child → String
line_stage c = elim (not c.oversized_line && starts_with (codes "agentv-stage:") c.stderr_line) [
  | false ↦ c.stage
  | true ↦ elim (stage_of collector_stages (without_return (drop 13 c.stderr_line))) [
    | none ↦ c.stage
    | some s ↦ s
  ]
]

unfoldable pub observe_byte : ℕ → Child → Child
observe_byte byte c =
    if byte == 10
    then record c { stage = line_stage c; stderr_line = []; oversized_line = false }
    else if ltb (length c.stderr_line) 96 && not c.oversized_line
    then record c { stderr_line = c.stderr_line ++ byte ∷ [] }
    else record c { oversized_line = true }

unfoldable pub observe_stage : List ℕ → Child → Child
observe_stage [] c = c
observe_stage (byte ∷ chunk) c = observe_stage chunk (observe_byte byte c)

abbrev pub byte_limit : ℕ
byte_limit = 1024 * 1024

abbrev too_large : ToolExecutionError
too_large = tool_error output_too_large "Windows collector output exceeds limit"

unfoldable pub on_stdout : List ℕ → Child → Child
on_stdout chunk c =
    let d = record c {
      bytes = c.bytes + length chunk;
      stdout_bytes = c.stdout_bytes + length chunk;
    } in
    if ltb byte_limit d.bytes
    then kill too_large d
    else record d { output = d.output ++ chunk ∷ [] }

unfoldable pub on_stderr : List ℕ → Child → Child
on_stderr chunk c =
    let d = record c {
      bytes = c.bytes + length chunk;
      stderr_bytes = c.stderr_bytes + length chunk;
    } in
    if ltb byte_limit d.bytes then kill too_large d else observe_stage chunk d

pub data ChildEvent : Type 0 where
  spawned stdin_finished aborted timer_fired start_failed : ChildEvent
  stdout_data stderr_data : List ℕ → ChildEvent

abbrev cancelled : ToolExecutionError
cancelled = tool_error tool_timeout "Windows collection cancelled"

unfoldable pub child_step : Child → ChildEvent → Child
child_step c spawned = on_spawn c
child_step c stdin_finished = record c { stdin_finished = true }
child_step c aborted = kill cancelled c
child_step c timer_fired = kill (tool_error tool_timeout "Windows collector timed out") c
child_step c start_failed = record c {
  failure =
      first_failure c.failure (tool_error command_unavailable "Windows collector could not start");
}
child_step c (stdout_data chunk) = on_stdout chunk c
child_step c (stderr_data chunk) = on_stderr chunk c

unfoldable pub child_run : Child → List ChildEvent → Child
child_run c [] = c
child_run c (e ∷ es) = child_run (child_step c e) es

-- `diagnostics()`, less the elapsed time
abbrev diagnostics : String → Child → Fields
diagnostics script c = field "collector" (text script) (
    field "stage" (text c.stage) (
      field "stdout_bytes" (Value.nat c.stdout_bytes) (
        field "stderr_bytes" (Value.nat c.stderr_bytes)
          (field "stdin_finished" (bool c.stdin_finished) (field "spawned" (bool c.spawned) end)))))

abbrev flat : List (List ℕ) → List ℕ
flat [] = []
flat (b ∷ bs) = b ++ flat bs

-- The `close` event settles the call. An exit by a signal has no code.
unfoldable pub on_close : Codec → String → Option ℕ → Child → Result Thrown CollectorResult
on_close codec script exit_code c = elim c.failure [
  | some e ↦
      err (tool (tool_error_with e.tool_code e.message (spread e.details (diagnostics script c))))
  | none ↦
      if exit_code == some 0
      then parse_collector_result codec (codec.decode (flat c.output))
      else err (
          tool (
            tool_error_with host_unavailable "Windows collector exited unsuccessfully"
              (diagnostics script c)))
]
