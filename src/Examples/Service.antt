-- ===== src/Examples/Service.antt =====
-- Runs of src/windows-service-entry.ts and src/windows-readiness.ts.
use agentv.Base.{
  ℕ, ◌≡◌, refl, String, true, false, List, [], ◌∷◌, Option, none, some, string_eq, ◌==◌,
  if◌then◌else◌,
}
use agentv.Base.Json.{Value, text, nat, obj, field, end}
use agentv.Base.Result.{ok}
use agentv.Config
use agentv.Config.{Process, AgentConfig, load_config}
use agentv.Windows.Readiness
use agentv.Windows.Readiness.{
  Faults, Phase, authenticated, disconnected, is_active, run_disconnected,
}
use agentv.Windows.Service
use agentv.Windows.Service.{
  Launch, ServiceEntry, Event, input_data, started, stop_settled, timer_fired, not_stopping,
  stopped, waiting,
}
use agentv.Windows.Service.Protocol.{IsEntry, run_service}
use agentv.Windows.Service.ReadOnly.{IsReadOnly, start-IsReadOnly}
use agentv.Windows.Service.Variables.{read_variable}
use agentv.Windows.Service.Settings
use agentv.Windows.Service.Settings.{
  Settings, File, environment, parse_windows_service_config, with_environment,
  start_from_protected_config,
}

abbrev sha : String
sha = "0123456789abcdef0123456789abcdef0123456789abcdef0123456789abcdef"

abbrev start_line : Value
start_line = obj (
    field "command" (text "START") (
      field "trustedSystemDirectory" (text "C:") (
        field "launch"
          (obj (
            field "launchId" (text "id")
              (field "configSha256" (text sha) (field "stateDirectory" (text "C:") end))))
          end)))

-- one byte stands for START, two for STOP
abbrev read_line : List ℕ → Option Value
read_line [] = none
read_line (b ∷ []) = some start_line
read_line (b ∷ c ∷ bs) = some (obj (field "command" (text "STOP") end))

abbrev line_codec : Service.Codec
line_codec = record { parse_json = read_line; is_uuid = λ s. true; is_absolute = λ s. true }

abbrev launch : Launch
launch = record { launch_id = "id"; config_sha256 = sha; state_directory = "C:" }

-- STOP comes while the runtime starts
abbrev early_stop : List Event
early_stop = input_data (1 ∷ 10 ∷ 1 ∷ []) ∷ input_data (1 ∷ 10 ∷ []) ∷ started ∷ []

early_stop_waits :
    let e = Service.run line_codec Service.create early_stop in
    (e.stopping ≡ waiting) × (e.starts ≡ ("C:", launch) ∷ []) × (e.buffer ≡ [])
unfolding Service.run Service.step Service.handle_event Service.on_data Service.consume
    Service.next_line Service.on_command Service.request_stop Service.bounded_stop
    Service.on_started Service.finish Service.create Service.read_command
early_stop_waits = (refl, refl, refl)

run_service_example : IsEntry (Service.run line_codec Service.create early_stop)
run_service_example = run_service line_codec early_stop

abbrev no_faults : Faults
no_faults = record {
  unlink_marker = false;
  unlink_temporary = false;
  open_temporary = false;
  write_temporary = false;
  rename = false;
}

abbrev leftover : Option (Option Phase)
leftover = none

run_disconnected_example :
    is_active (
      (Readiness.call no_faults disconnected (
        Readiness.run (Readiness.create none leftover) ((no_faults, authenticated) ∷ []))).0.marker)
    ≡ false
unfolding Readiness.call Readiness.run Readiness.publish Readiness.clear Readiness.create
run_disconnected_example =
    run_disconnected ((no_faults, authenticated) ∷ []) none leftover no_faults refl

abbrev process : Process
process = record {
  variable = λ name. "";
  number = λ s. none;
  lower_case = λ s. s;
  items = λ s. [];
  trim = λ s. s;
  url = λ s. some (record { protocol = "https:"; has_credentials = false });
  ca_bundle_fits = λ file. true;
  package_version = ok "1.0.0";
}

abbrev file_value : Value
file_value = obj (
    field "version" (nat 1) (
      field "settings"
        (obj (
          field "ACORNOPS_AGENT_PLATFORM_URL" (text "https://acornops.dev")
            (field "ACORNOPS_TARGET_ID" (text "vm-1") (field "ACORNOPS_AGENT_KEY" (text "k") end))))
        end))

-- the names of the runs below in upper case
abbrev upper : String → String
upper s =
    if s == "Path" then "PATH" else if s == "acornops_agent_key" then "ACORNOPS_AGENT_KEY" else s

abbrev settings_codec : Settings.Codec
settings_codec = record {
  byte_length = λ s. 100;
  parse_json = λ s. some file_value;
  decode = λ bytes. "raw";
  sha256_hex = λ s. sha;
  fold = upper;
}

abbrev file : File
file = record { is_file = true; size = 3; reads = (1 ∷ 2 ∷ 3 ∷ []) ∷ [] ∷ [] }

-- the environment had asked for writes
abbrev old : Settings
old = ("ACORNOPS_AGENT_WRITE_ENABLED", "true") ∷ ("Path", "C:") ∷ []

abbrev config : AgentConfig
config = record {
  os_family = "windows";
  service_manager = "scm";
  allowed_log_channels = [];
  platform_url = "https://acornops.dev";
  target_id = "vm-1";
  agent_key = "k";
  target_type = "virtual_machine";
  connector_version = "1.0.0";
  snapshot_interval_ms = 60000;
  min_snapshot_interval_ms = 10000;
  max_snapshot_interval_ms = 3600000;
  max_snapshot_bytes = 1048576;
  min_snapshot_bytes = 16384;
  max_remote_snapshot_bytes = 1048576;
  log_level = "info";
  collector_mode = "live";
  allowed_log_units = [];
  write_enabled = false;
  mock_actions_enabled = false;
  helper_socket_path = "/run/acornops-agentv/actions.sock";
  allow_insecure_transport = false;
  additional_ca_bundle_file = none;
}

started_config :
    start_from_protected_config settings_codec process
      (some file)
      (some launch)
      no_faults
      (Readiness.create none leftover)
      old
    ≡ ok config
unfolding start_from_protected_config Settings.fill parse_windows_service_config Readiness.call
    Readiness.clear Readiness.create load_config Config.load_host Config.load_access Config.env
    Config.bool_env Config.csv_env Config.int_env Config.log_level_env Config.platform_url
    Config.read_limits Config.read_defaults
started_config = refl

start-IsReadOnly_example :
    IsReadOnly config
    × ((raw : String) × (settings : Settings) × (settings_codec.sha256_hex raw
          ≡ launch.config_sha256)
        × (parse_windows_service_config settings_codec raw ≡ ok settings)
        × (load_config
              (with_environment settings_codec (environment settings_codec settings old) process)
            ≡ ok config)
        × (read_variable upper "ACORNOPS_VM_COLLECTOR_MODE"
              (environment settings_codec settings old)
            ≡ some "live")
        × (read_variable upper "ACORNOPS_AGENT_WRITE_ENABLED"
              (environment settings_codec settings old)
            ≡ some "false"))
start-IsReadOnly_example =
    start-IsReadOnly settings_codec process (some file) launch no_faults
      (Readiness.create none leftover) old config refl started_config

-- A variable whose name is not in upper case is left over, and read as a setting.
stray_survives :
    read_variable upper "ACORNOPS_AGENT_KEY"
      (environment settings_codec [] (("acornops_agent_key", "stray") ∷ []))
    ≡ some "stray"
stray_survives = refl
