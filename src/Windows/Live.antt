-- ===== src/Windows/Live.antt =====
-- src/windows/live.ts, src/windows/service-health.ts and src/windows/log-input.ts: the facts of a
-- Windows host, from what the collectors print.
pub mod Services
pub mod Logs
pub mod Counts
use agentv.Base.{
  ℕ, zero, suc, ◌+◌, ◌-◌, ◌*◌, String, List, [], ◌∷◌, ◌++◌, map, Bool, true, false, not, ◌&&◌, ◌||◌,
  ◌==◌, Option, none, some, if◌then◌else◌, string_eq, nat_eq, option_eq, contains, keep, length,
  take, ltb, leb,
}
use agentv.Base.Json.{Value, Fields, text, field, end}
use agentv.Base.Json
use agentv.Base.Result.{Result, ok, err, ◌>>=◌, ◌>>◌, fail_if}
use agentv.Base.Scan.{has_text, is_empty}
use agentv.Base.Text.{concat}
use agentv.Windows.Runner.{CollectorResult}
use agentv.Adapters.Sockets.{Protocol, same_protocol}
use agentv.Errors.{
  ToolErrorCode, Thrown, tool, tool_error, invalid_arguments, host_unavailable, permission_denied,
  resource_not_found,
}

pub record Health : Type 0 where
  pub collector : String
  pub status : String

pub record WindowsList (A : Type 0) : Type 0 where
  pub items : List A
  pub original_count : ℕ
  pub omitted_count : ℕ
  pub health : Health

pub record WindowsQuery : Type 0 where
  pub limit : ℕ
  pub query : Option String

-- A row of a schema: how it is read, and `redactValue` on it.
pub record Schema (A : Type 0) : Type 0 where
  pub read : Value → Option A
  pub redact : A → A

pub record WindowsService : Type 0 where
  pub name : String
  pub display_name : String
  pub state : Option String
  pub start_mode : Option String
  pub process_id : Option ℕ
  pub exit_code : Option ℕ
  pub service_specific_exit_code : Option ℕ

pub record WindowsProcess : Type 0 where
  pub pid : ℕ
  pub name : String
  pub facts : Value

pub record WindowsListener : Type 0 where
  pub protocol : Protocol
  pub address : String
  pub port : ℕ
  pub facts : Value

pub record WindowsHostSummary : Type 0 where
  pub build : String
  pub facts : Value

pub record WindowsLog : Type 0 where
  pub channel : String
  pub message : String
  pub facts : Value

-- The runner, `toLowerCase`, `Date.parse`, `toISOString`, the byte length of entries and the schemas.
pub record Host : Type 0 where
  pub run : String → Fields → Result Thrown CollectorResult
  pub lower_case : String → String
  pub parse_date : String → Option ℕ
  pub iso_time : ℕ → String
  pub entries_bytes : List WindowsLog → ℕ
  pub hosts : Schema WindowsHostSummary
  pub volumes : Schema Value
  pub processes : Schema WindowsProcess
  pub services : Schema WindowsService
  pub listeners : Schema WindowsListener
  pub logs : Schema WindowsLog

abbrev pub read_all : {A : Type 0} → Schema A → List Value → Option (List A)
read_all s [] = some []
read_all s (v ∷ vs) = elim (s.read v) [
  | none ↦ none
  | some a ↦ elim (read_all s vs) [ none ↦ none | some rest ↦ some (a ∷ rest) ]
]

-- Denied and unavailable results hold no rows that count.
abbrev pub is_denied : String → Bool
is_denied status = status == "permission_denied" || status == "unavailable"

abbrev pub list_of : {A : Type 0} → Schema A → String → ℕ → CollectorResult → List A → WindowsList A
list_of s id limit result rows =
    let items = if is_denied result.status then [] else rows in
    let original = length items + (if result.truncated then 1 else 0) in
    let retained = take limit items in
    record {
      items = map s.redact retained;
      original_count = original;
      omitted_count = original - length retained;
      health = record {
        collector = concat ("windows_" ∷ id ∷ []);
        status = if result.truncated && result.status == "ok" then "partial" else result.status;
      };
    }

abbrev pub checked_rows :
    {A : Type 0}
    → Schema A
    → String
    → ℕ
    → CollectorResult
    → Option (List A)
    → Result Thrown (WindowsList A)
checked_rows s id limit result none =
    err (tool (tool_error host_unavailable "Windows collector returned invalid native fields"))
checked_rows s id limit result (some rows) = ok (list_of s id limit result rows)

abbrev pub bad_limit : ℕ → Bool
bad_limit limit = ltb limit 1 || ltb 1000 limit

unfoldable pub collect :
    {A : Type 0} → Host → Schema A → String → ℕ → Fields → Result Thrown (WindowsList A)
collect h s id limit input = do
  fail_if (bad_limit limit)
      (tool (tool_error invalid_arguments "Windows row limit must be between 1 and 1000"))
  result ← h.run id input
  checked_rows s id limit result (read_all s result.items)

unfoldable pub require_evidence : String → Result Thrown Unit
require_evidence status = fail_if (not (status == "ok")) (
    tool (
      tool_error (if status == "permission_denied" then permission_denied else host_unavailable)
        "Windows native evidence is unavailable or incomplete"))

abbrev pub first : {A : Type 0} → List A → Option A
first [] = none
first (a ∷ _) = some a

-- The only row of a collector that has complete evidence.
abbrev pub only_row :
    {A : Type 0} → Host → Schema A → String → Fields → Thrown → Result Thrown (A × Health)
only_row h s id input missing = do
  result ← collect h s id 1 input
  require_evidence result.health.status
  elim (first result.items) [ none ↦ err missing | some a ↦ ok (a, result.health) ]

abbrev unsupported : Thrown
unsupported =
    tool (tool_error host_unavailable "Only Windows Server 2022/2025 builds are supported")

unfoldable pub get_host_summary : Host → Result Thrown (WindowsHostSummary × Health)
get_host_summary h = do
  found ← only_row h h.hosts "host" end unsupported
  fail_if (not (contains ("20348" ∷ "26100" ∷ []) found.0.build)) unsupported
  ok found

abbrev pub matches : {A : Type 0} → Host → Option String → (A → String) → A → Bool
matches h none text_of item = true
matches h (some query) text_of item =
    is_empty query || has_text (h.lower_case query) (h.lower_case (text_of item))

unfoldable pub filter :
    {A : Type 0} → Host → WindowsQuery → (A → String) → WindowsList A → WindowsList A
filter h input text_of result =
    let filtered = keep (matches h input.query text_of) result.items in
    record result {
      items = take input.limit filtered;
      original_count = length filtered + result.omitted_count;
      omitted_count = result.omitted_count + (length filtered - input.limit);
    }

unfoldable pub list_filesystems : Host → WindowsQuery → Result Thrown (WindowsList Value)
list_filesystems h input = collect h h.volumes "volumes" input.limit end

unfoldable pub list_processes : Host → WindowsQuery → Result Thrown (WindowsList WindowsProcess)
list_processes h input = do
  result ← collect h h.processes "processes" 1000 end
  ok (filter h input (λ (p : WindowsProcess). p.name) result)

unfoldable pub get_process : Host → ℕ → Result Thrown WindowsProcess
get_process h pid = do
  found ←
      only_row h h.processes "processes" (field "pid" (Value.nat pid) end)
        (tool (tool_error resource_not_found "Process not found"))
  ok (found.0)
