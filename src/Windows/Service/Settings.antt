-- ===== src/Windows/Service/Settings.antt =====
-- src/windows-service-entry.ts: the settings that a service may be given, and its start from the
-- protected configuration, up to what src/config.ts then loads and src/windows-runtime.ts requires.
use agentv.Base.{
  ℕ, ◌+◌, ◌-◌, ◌*◌, String, List, [], ◌∷◌, ◌++◌, Bool, false, not, ◌||◌, ◌==◌, ◌!=◌, Option, none,
  some, if◌then◌else◌, string_eq, nat_eq, any, contains, keep, length, take, ltb,
}
use agentv.Base.Json.{Value, Fields, nat, text, obj, get, end, field}
use agentv.Base.Result.{Result, ok, err, ◌>>=◌, ◌>>◌, fail_if}
use agentv.Base.Scan.{is_prefix}
use agentv.Base.Table.{lookup, insert_all, from_entries}
use agentv.Base.Text.{size}
use agentv.Config.{Process, AgentConfig, load_config}
use agentv.Windows.Readiness
use agentv.Windows.Readiness.{Faults, Readiness, disconnected}
use agentv.Windows.Service.{Launch, has_only}
use agentv.Windows.Service.Variables.{read_variable, assign}

abbrev pub Settings : Type 0
Settings = List (String × String)

abbrev pub settings_keys : List String
settings_keys =
    "ACORNOPS_AGENT_PLATFORM_URL" ∷ "ACORNOPS_TARGET_ID" ∷ "ACORNOPS_AGENT_KEY"
    ∷ "ACORNOPS_AGENT_TARGET_TYPE" ∷ "ACORNOPS_AGENT_SNAPSHOT_INTERVAL_MS"
    ∷ "ACORNOPS_AGENT_MIN_SNAPSHOT_INTERVAL_MS" ∷ "ACORNOPS_AGENT_MAX_SNAPSHOT_INTERVAL_MS"
    ∷ "ACORNOPS_AGENT_MAX_SNAPSHOT_BYTES" ∷ "ACORNOPS_AGENT_MIN_SNAPSHOT_BYTES"
    ∷ "ACORNOPS_AGENT_MAX_REMOTE_SNAPSHOT_BYTES" ∷ "ACORNOPS_AGENT_LOG_LEVEL"
    ∷ "ACORNOPS_VM_ALLOWED_LOG_CHANNELS" ∷ "ACORNOPS_AGENT_ADDITIONAL_CA_BUNDLE_FILE"
    ∷ "ACORNOPS_VM_OS_FAMILY" ∷ "ACORNOPS_VM_SERVICE_MANAGER" ∷ "ACORNOPS_VM_COLLECTOR_MODE"
    ∷ "ACORNOPS_AGENT_WRITE_ENABLED" ∷ "ACORNOPS_AGENT_MOCK_ACTIONS_ENABLED" ∷ []

abbrev pub fixed : Settings
fixed =
    ("ACORNOPS_VM_OS_FAMILY", "windows")
    ∷ ("ACORNOPS_VM_SERVICE_MANAGER", "scm")
    ∷ ("ACORNOPS_VM_COLLECTOR_MODE", "live")
    ∷ ("ACORNOPS_AGENT_WRITE_ENABLED", "false")
    ∷ ("ACORNOPS_AGENT_MOCK_ACTIONS_ENABLED", "false")
    ∷ ("ACORNOPS_AGENT_TARGET_TYPE", "virtual_machine")
    ∷ []

-- `Buffer.byteLength`, `JSON.parse`, UTF-8, SHA-256 in hex, and the upper case in which Windows compares
-- the names of variables.
pub record Codec : Type 0 where
  pub byte_length : String → ℕ
  pub parse_json : String → Option Value
  pub decode : List ℕ → String
  pub sha256_hex : String → String
  pub fold : String → String

-- `z.record(z.string(), z.string().max(8192))`
abbrev pub read_texts : Fields → Option Settings
read_texts end = some []
read_texts (field k (text s) fs) = elim (read_texts fs) [
  | none ↦ none
  | some rest ↦ if ltb 8192 (size s) then none else some ((k, s) ∷ rest)
]
read_texts (field k _ fs) = none

abbrev settings_at : Option Value → Option Value → Option Settings
settings_at (some (nat version)) (some (obj fs)) = if version == 1 then read_texts fs else none
settings_at _ _ = none

abbrev pub read_settings : Option Value → Option Settings
read_settings (some (obj fs)) =
    if has_only ("version" ∷ "settings" ∷ []) fs
    then settings_at (get "version" fs) (get "settings" fs)
    else none
read_settings _ = none

abbrev conflicts : Settings → String × String → Bool
conflicts settings (key, value) = elim (lookup key settings) [
  | none ↦ false
  | some given ↦ given != value
]

abbrev pub has_unknown : Settings → Bool
has_unknown settings = any (λ (e : String × String). not (contains settings_keys (e.0))) settings

abbrev pub has_conflict : Settings → Bool
has_conflict settings = any (conflicts settings) fixed

abbrev pub check_settings : Option Settings → Result String Settings
check_settings none = err "Invalid Windows service config"
check_settings (some entries) =
    let settings = from_entries entries in
    do
      fail_if (has_unknown settings) "Unknown Windows service setting"
      fail_if (has_conflict settings) "Windows service requires live read-only Windows/scm settings"
      ok (insert_all fixed settings)

unfoldable pub parse_windows_service_config : Codec → String → Result String Settings
parse_windows_service_config c raw = do
  fail_if (ltb (64 * 1024) (c.byte_length raw)) "Windows service config exceeds limit"
  check_settings (read_settings (c.parse_json raw))

-- The protected file: what `stat` says, and the parts that one `read` after another has.
pub record File : Type 0 where
  pub is_file : Bool
  pub size : ℕ
  pub reads : List (List ℕ)

abbrev pub file_limit : ℕ
file_limit = 64 * 1024

-- The loop that fills a buffer of `room` bytes.
unfoldable pub fill : ℕ → List (List ℕ) → List ℕ
fill room [] = []
fill room (part ∷ parts) =
    let got = take room part in
    let rest = fill (room - length got) parts in if length got == 0 then [] else got ++ rest

abbrev pub read_file : Codec → Option File → Result String String
read_file c none = err "read"
read_file c (some f) = do
  fail_if (not f.is_file || ltb file_limit f.size) "Invalid protected Windows service config"
  let bytes = fill (file_limit + 1) f.reads
  fail_if (ltb file_limit (length bytes)) "Windows service config exceeds limit"
  ok (c.decode bytes)

abbrev pub is_launched : Codec → Option Launch → String → Bool
is_launched c none raw = false
is_launched c (some launch) raw = c.sha256_hex raw == launch.config_sha256

-- The environment that is left, and `Object.assign(process.env, settings)`. The test of the prefix
-- tells upper from lower case, as the source's does.
abbrev pub environment : Codec → Settings → Settings → Settings
environment c settings old =
    assign c.fold settings (keep (λ (e : String × String). not (is_prefix "ACORNOPS_" (e.0))) old)

-- A process with these variables.
abbrev pub with_environment : Codec → Settings → Process → Process
with_environment c variables p = record p {
  variable = λ name. elim (read_variable c.fold name variables) [ none ↦ "" | some value ↦ value ];
}

-- What `startWindowsAgent` requires.
abbrev pub check_runtime : AgentConfig → Result String AgentConfig
check_runtime c = do
  fail_if
      (c.os_family != "windows"
        || c.service_manager != "scm"
        || c.write_enabled
        || c.mock_actions_enabled)
      "Windows runtime requires read-only Windows/scm configuration"
  ok c

-- `file` is `none` where opening it or reading it throws. The readiness is what a run before left.
unfoldable pub start_from_protected_config :
    Codec
    → Process
    → Option File
    → Option Launch
    → Faults
    → Readiness
    → Settings
    → Result String AgentConfig
start_from_protected_config c p file launch faults readiness old = do
  raw ← read_file c file
  fail_if (not (is_launched c launch raw)) "Windows service configuration changed during launch"
  (Readiness.call faults disconnected (record readiness { is_provisional = false })).1
  settings ← parse_windows_service_config c raw
  config ← load_config (with_environment c (environment c settings old) p)
  check_runtime config
