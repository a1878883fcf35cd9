-- ===== src/Config.antt =====
-- src/config.ts: the configuration that is read from the environment of the process.
pub mod Checked
pub mod Mode
use Prim.Native.String
use Prim.Native.Char.{code}
use agentv.Base.{
  ℕ, ◌-◌, ◌*◌, String, Bool, true, false, not, ◌&&◌, ◌||◌, List, [], ◌∷◌, Option, none, some, ltb,
  leb, ◌==◌, ◌!=◌, string_eq, nat_eq, if◌then◌else◌, any, keep, contains, distinct,
}
use agentv.Base.Result.{Result, ok, err, ◌>>=◌, ◌>>◌, fail_if}
use agentv.Base.Text.{codes, size, slice_to, concat, starts_with, is_alnum, all_codes}
use agentv.Actions.Unit.{is_service_unit}

-- What `new URL` reads of a text.
pub record Url : Type 0 where
  pub protocol : String
  pub has_credentials : Bool

-- The environment, where a variable that is not set is empty, and what the code calls: `Number`, with
-- `none` for anything but a natural number, `toLowerCase`, `split(',')` with `trim` and the filter of
-- empty items, `trim`, `new URL`, the test that a bundle is a readable file of at most 1 MiB, and the version of package.json.
pub record Process : Type 0 where
  pub variable : String → String
  pub number : String → Option ℕ
  pub lower_case : String → String
  pub items : String → List String
  pub trim : String → String
  pub url : String → Option Url
  pub ca_bundle_fits : String → Bool
  pub package_version : Result String String

pub record AgentConfig : Type 0 where
  pub os_family : String
  pub service_manager : String
  pub allowed_log_channels : List String
  pub platform_url : String
  pub target_id : String
  pub agent_key : String
  pub target_type : String
  pub connector_version : String
  pub snapshot_interval_ms : ℕ
  pub min_snapshot_interval_ms : ℕ
  pub max_snapshot_interval_ms : ℕ
  pub max_snapshot_bytes : ℕ
  pub min_snapshot_bytes : ℕ
  pub max_remote_snapshot_bytes : ℕ
  pub log_level : String
  pub collector_mode : String
  pub allowed_log_units : List String
  pub write_enabled : Bool
  pub mock_actions_enabled : Bool
  pub helper_socket_path : String
  pub allow_insecure_transport : Bool
  pub additional_ca_bundle_file : Option String

abbrev pub or_else : String → String → String
or_else s fallback = if s == "" then fallback else s

unfoldable pub env : Process → String → String → Result String String
env p name fallback =
    let value = or_else (p.variable name) fallback in
    if value == "" then err (concat (name ∷ " is required" ∷ [])) else ok value

-- The message of the code also prints the two bounds.
abbrev in_range : String → ℕ → ℕ → Option ℕ → Result String ℕ
in_range name low high none = err (concat (name ∷ " must be an integer in range" ∷ []))
in_range name low high (some n) =
    if ltb n low || ltb high n
    then err (concat (name ∷ " must be an integer in range" ∷ []))
    else ok n

unfoldable pub int_env : Process → String → ℕ → ℕ → ℕ → Result String ℕ
int_env p name fallback low high =
    let value = p.variable name in
    in_range name low high (if value == "" then some fallback else p.number value)

abbrev true_words : List String
true_words = "true" ∷ "1" ∷ "yes" ∷ "on" ∷ []

abbrev false_words : List String
false_words = "false" ∷ "0" ∷ "no" ∷ "off" ∷ []

unfoldable pub bool_env : Process → String → Result String Bool
bool_env p name =
    let value = p.variable name in
    if value == ""
    then ok false
    else if contains true_words (p.lower_case value)
    then ok true
    else if contains false_words (p.lower_case value)
    then ok false
    else err (concat (name ∷ " must be a boolean" ∷ []))

unfoldable pub csv_env : Process → String → Result String (List String)
csv_env p name =
    let values = p.items (p.variable name) in
    if not (distinct values)
    then err (concat (name ∷ " must not contain duplicate values" ∷ []))
    else if name == "ACORNOPS_VM_ALLOWED_LOG_UNITS" && any (λ u. not (is_service_unit u)) values
    then err (concat (name ∷ " must contain only exact .service unit names" ∷ []))
    else ok values

abbrev log_levels : List String
log_levels = "debug" ∷ "info" ∷ "warn" ∷ "error" ∷ []

unfoldable pub log_level_env : Process → Result String String
log_level_env p = do
  value ← env p "ACORNOPS_AGENT_LOG_LEVEL" "info"
  if contains log_levels value
      then ok value
      else err "ACORNOPS_AGENT_LOG_LEVEL must be debug, info, warn, or error"

abbrev checked_url : Bool → String → Option Url → Result String String
checked_url insecure raw none = err "ACORNOPS_AGENT_PLATFORM_URL must be a valid URL"
checked_url insecure raw (some u) =
    if u.has_credentials
    then err "ACORNOPS_AGENT_PLATFORM_URL must not contain credentials"
    else if u.protocol == "https:" || (insecure && u.protocol == "http:")
    then ok raw
    else err
        "ACORNOPS_AGENT_PLATFORM_URL must use https:// unless insecure local transport is explicitly enabled"

unfoldable pub platform_url : Process → Bool → Result String String
platform_url p insecure = do
  raw ← env p "ACORNOPS_AGENT_PLATFORM_URL" ""
  checked_url insecure raw (p.url raw)

abbrev pub is_pair : String → String → Bool
is_pair os manager =
    (os == "linux" && manager == "systemd") || (os == "windows" && manager == "scm")

abbrev pub is_channel : String → Bool
is_channel c = c == "Application" || c == "System"

abbrev ca_bundle : Process → Option String
ca_bundle p =
    let file = p.trim (p.variable "ACORNOPS_AGENT_ADDITIONAL_CA_BUNDLE_FILE") in
    if file == "" then none else some file

abbrev ca_is_bad : Process → Option String → Bool
ca_is_bad p none = false
ca_is_bad p (some file) = not (p.ca_bundle_fits file)

-- `/^[A-Za-z0-9][A-Za-z0-9_.:-]*$/`
abbrev target_code : ℕ → Bool
target_code c = is_alnum c || c == 95 || c == 46 || c == 58 || c == 45

abbrev is_target_codes : List ℕ → Bool
is_target_codes [] = false
is_target_codes (c ∷ cs) = is_alnum c && all_codes target_code cs

abbrev pub is_target_id : String → Bool
is_target_id t = not (ltb 256 (size t)) && is_target_codes (codes t)

-- The bounds of the snapshots, and what lies within them unless the control plane sets it.
pub record Limits : Type 0 where
  pub min_interval_ms : ℕ
  pub max_interval_ms : ℕ
  pub min_bytes : ℕ
  pub max_remote_bytes : ℕ

pub record Defaults : Type 0 where
  pub interval_ms : ℕ
  pub max_bytes : ℕ

unfoldable pub read_limits : Process → Result String Limits
read_limits p = do
  low ← int_env p "ACORNOPS_AGENT_MIN_SNAPSHOT_INTERVAL_MS" 10000 5000 60000
  high ← int_env p "ACORNOPS_AGENT_MAX_SNAPSHOT_INTERVAL_MS" 3600000 low 86400000
  bytes ← int_env p "ACORNOPS_AGENT_MIN_SNAPSHOT_BYTES" 16384 4096 1048576
  remote ← int_env p "ACORNOPS_AGENT_MAX_REMOTE_SNAPSHOT_BYTES" 1048576 bytes 10485760
  ok (record {
    min_interval_ms = low;
    max_interval_ms = high;
    min_bytes = bytes;
    max_remote_bytes = remote;
  })

unfoldable pub read_defaults : Process → Limits → Result String Defaults
read_defaults p l = do
  interval ←
      int_env p "ACORNOPS_AGENT_SNAPSHOT_INTERVAL_MS" 60000 l.min_interval_ms l.max_interval_ms
  bytes ← int_env p "ACORNOPS_AGENT_MAX_SNAPSHOT_BYTES" 1048576 l.min_bytes l.max_remote_bytes
  ok (record { interval_ms = interval; max_bytes = bytes })

-- What `loadConfig` reads of the target and its system.
pub record Host : Type 0 where
  pub allow_insecure_transport : Bool
  pub target_type : String
  pub os_family : String
  pub service_manager : String
  pub allowed_log_channels : List String
  pub collector_mode : String

-- What it then reads of the agent's identity and rights.
pub record Access : Type 0 where
  pub limits : Limits
  pub target_id : String
  pub agent_key : String
  pub write_enabled : Bool
  pub mock_actions_enabled : Bool
  pub helper_socket_path : String

unfoldable pub load_host : Process → Result String Host
load_host p = do
  insecure ← bool_env p "ACORNOPS_AGENT_ALLOW_INSECURE_TRANSPORT"
  kind ← env p "ACORNOPS_AGENT_TARGET_TYPE" "virtual_machine"
  fail_if (kind != "virtual_machine") "ACORNOPS_AGENT_TARGET_TYPE must be virtual_machine"
  os ← env p "ACORNOPS_VM_OS_FAMILY" "linux"
  manager ← env p "ACORNOPS_VM_SERVICE_MANAGER" "systemd"
  fail_if (not (is_pair os manager)) "Invalid OS/service-manager pair"
  channels ← if os == "windows" then csv_env p "ACORNOPS_VM_ALLOWED_LOG_CHANNELS" else ok []
  fail_if (any (λ c. not (is_channel c)) channels)
      "Only Application/System log channels are supported"
  mode ← env p "ACORNOPS_VM_COLLECTOR_MODE" "live"
  fail_if (mode != "live" && mode != "mock") "ACORNOPS_VM_COLLECTOR_MODE must be live or mock"
  ok (record {
    allow_insecure_transport = insecure;
    target_type = kind;
    os_family = os;
    service_manager = manager;
    allowed_log_channels = channels;
    collector_mode = mode;
  })

unfoldable pub load_access : Process → Host → Result String Access
load_access p h = do
  fail_if (ca_is_bad p (ca_bundle p))
      "Additional CA bundle must be a readable file no larger than 1 MiB"
  l ← read_limits p
  target ← env p "ACORNOPS_TARGET_ID" ""
  key ← env p "ACORNOPS_AGENT_KEY" ""
  write ← bool_env p "ACORNOPS_AGENT_WRITE_ENABLED"
  mock ← bool_env p "ACORNOPS_AGENT_MOCK_ACTIONS_ENABLED"
  fail_if (h.os_family == "windows" && (write || mock)) "Windows runtime is read-only"
  fail_if (mock && (h.collector_mode != "mock" || not write))
      "ACORNOPS_AGENT_MOCK_ACTIONS_ENABLED requires mock collector mode and ACORNOPS_AGENT_WRITE_ENABLED=true"
  socket ← env p "ACORNOPS_AGENT_ACTIONS_SOCKET" "/run/acornops-agentv/actions.sock"
  fail_if (not (is_target_id target)) "ACORNOPS_TARGET_ID has an invalid format"
  fail_if (ltb 4096 (size key)) "ACORNOPS_AGENT_KEY exceeds 4096 characters"
  fail_if (not (starts_with (b'/' ∷ []) (codes socket)) || ltb 4096 (size socket))
      "ACORNOPS_AGENT_ACTIONS_SOCKET must be an absolute path"
  ok (record {
    limits = l;
    target_id = target;
    agent_key = key;
    write_enabled = write;
    mock_actions_enabled = mock;
    helper_socket_path = socket;
  })

-- `loadConfig`, in the order of its reads and its checks.
unfoldable pub load_config : Process → Result String AgentConfig
load_config p = do
  h ← load_host p
  a ← load_access p h
  url ← platform_url p h.allow_insecure_transport
  version ← p.package_version
  d ← read_defaults p a.limits
  level ← log_level_env p
  units ← csv_env p "ACORNOPS_VM_ALLOWED_LOG_UNITS"
  ok (record {
    os_family = h.os_family;
    service_manager = h.service_manager;
    allowed_log_channels = h.allowed_log_channels;
    platform_url = url;
    target_id = a.target_id;
    agent_key = a.agent_key;
    target_type = h.target_type;
    connector_version = version;
    snapshot_interval_ms = d.interval_ms;
    min_snapshot_interval_ms = a.limits.min_interval_ms;
    max_snapshot_interval_ms = a.limits.max_interval_ms;
    max_snapshot_bytes = d.max_bytes;
    min_snapshot_bytes = a.limits.min_bytes;
    max_remote_snapshot_bytes = a.limits.max_remote_bytes;
    log_level = level;
    collector_mode = h.collector_mode;
    allowed_log_units = units;
    write_enabled = a.write_enabled;
    mock_actions_enabled = a.mock_actions_enabled;
    helper_socket_path = a.helper_socket_path;
    allow_insecure_transport = h.allow_insecure_transport;
    additional_ca_bundle_file = ca_bundle p;
  })

-- What the startup log shows of a credential. `last_four` is `slice(-4)`.
unfoldable pub redact : (String → String) → String → String
redact last_four value =
    if ltb 8 (size value)
    then concat (slice_to 4 value ∷ "..." ∷ last_four value ∷ [])
    else "<redacted>"
