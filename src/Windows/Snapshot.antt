-- ===== src/Windows/Snapshot.antt =====
-- src/windows/snapshot.ts: `buildWindowsSnapshot`, and the loop that fits it to the budget. `redactValue`
-- runs on the rows, since no key of the snapshot itself names a secret.
pub mod Recovery
pub mod Manager
use agentv.Base.{
  ℕ, zero, suc, ◌+◌, ◌-◌, String, Bool, true, false, not, ◌&&◌, ◌||◌, List, [], ◌∷◌, ◌++◌, map,
  Option, none, some, ltb, ◌==◌, nat_eq, string_eq, if◌then◌else◌, contains, keep, take, length,
  all,
}
use agentv.Base.Decimal.{show}
use agentv.Base.Json.{Value, text, obj, null, field, end}
use agentv.Base.Json
use agentv.Base.Text.{concat}
use agentv.Errors.{ToolErrorCode}
use agentv.Redaction.{redact_value}
use agentv.Snapshot.Build.{Percent, Coverage, complete, incomplete, Truncation, failure_status}
use agentv.Snapshot.Shrink.{pop, is_empty}
use agentv.Windows.Live.{WindowsService}
use agentv.Windows.Live.Services.{is_failed_service}

-- A summary and rows as the snapshot reads them, each with its JSON.
pub record Summary : Type 0 where
  pub memory_used : Percent
  pub collector_health : List Value
  pub facts : Value

pub record Volume : Type 0 where
  pub volume : String
  pub used_percent : Option Percent
  pub row : Value

pub record Service : Type 0 where
  pub service : WindowsService
  pub row : Value

-- The result of a listing, with the status of its health.
pub record Section (A : Type 0) : Type 0 where
  pub items : List A
  pub omitted_count : ℕ
  pub status : String
  pub health : Value

-- What the collectors returned; `none` for one that failed. `failures` are in the order in which they
-- failed, with the code of a `ToolExecutionError`.
pub record Collected : Type 0 where
  pub failures : List (String × Option ToolErrorCode)
  pub summary : Option Summary
  pub volumes : Option (Section Volume)
  pub services : Option (Section Service)
  pub processes : Option (Section Value)
  pub listeners : Option (Section Value)

pub record WindowsSnapshot : Type 0 where
  pub host_summary : Value
  pub filesystems : List Value
  pub degraded_services : List Value
  pub top_processes : List Value
  pub listeners : List Value
  pub findings : List Value
  pub collector_health : List Value
  pub filesystem_coverage : Coverage
  pub service_coverage : Coverage
  pub truncation : Truncation

abbrev failed_health : String × Option ToolErrorCode → Value
failed_health (collector, code) = obj (
    field "collector" (text collector)
      (field "status" (text (failure_status code)) (field "duration_ms" (Value.nat 0) end)))

abbrev pub items_of : {A : Type 0} → Option (Section A) → List A
items_of none = []
items_of (some s) = s.items

abbrev omitted : {A : Type 0} → Option (Section A) → ℕ
omitted none = 0
omitted (some s) = s.omitted_count

abbrev health_of : {A : Type 0} → Option (Section A) → List Value
health_of none = []
health_of (some s) = s.health ∷ []

abbrev host_health : Option Summary → List Value
host_health none = []
host_health (some s) = s.collector_health

abbrev facts_of : Option Summary → Value
facts_of none = null
facts_of (some s) = s.facts

abbrev pub finding : String → String → String → String → Value
finding code name_key name summary = obj (
    field "severity" (text "critical")
      (field "code" (text code) (field name_key (text name) (field "summary" (text summary) end))))

abbrev shown_code : Option ℕ → String
shown_code none = "null"
shown_code (some code) = show code

abbrev pub service_finding : WindowsService → Value
service_finding s = finding "SERVICE_FAILED" "name" s.name (
    concat ("Windows service " ∷ s.name ∷ " stopped with exit code " ∷ shown_code s.exit_code ∷ []))

abbrev memory_findings : Option Summary → List Value
memory_findings none = []
memory_findings (some s) =
    if ltb s.memory_used.whole 90
    then []
    else obj (
        field "severity" (text "critical") (
          field "code" (text "MEMORY_PRESSURE") (
            field "summary" (text (concat ("Memory use is " ∷ s.memory_used.shown ∷ "%" ∷ [])))
              end)))
      ∷ []

abbrev is_known_percent : Volume → Bool
is_known_percent v = elim v.used_percent [ none ↦ false | some _ ↦ true ]

abbrev volume_findings : List Volume → List Value
volume_findings [] = []
volume_findings (v ∷ vs) = elim v.used_percent [
  | none ↦ volume_findings vs
  | some used ↦
      if ltb used.whole 90
      then volume_findings vs
      else finding "FILESYSTEM_PRESSURE" "volume" v.volume
          (concat ("Volume " ∷ v.volume ∷ " is " ∷ used.shown ∷ "% used" ∷ []))
        ∷ volume_findings vs
]

abbrev is_failed : Service → Bool
is_failed s = is_failed_service s.service

unfoldable pub failures_of : Collected → List Service
failures_of c = keep is_failed (items_of c.services)

unfoldable pub findings_of : Collected → List Value
findings_of c =
    map (λ (s : Service). service_finding s.service) (failures_of c)
    ++ memory_findings c.summary
    ++ volume_findings (items_of c.volumes)

-- One of the texts, where `null` is none.
abbrev is_one_of : List String → Option String → Bool
is_one_of names none = false
is_one_of names (some s) = contains names s

-- A service whose state, start mode and exit code say whether it failed.
unfoldable pub is_service_known : WindowsService → Bool
is_service_known s =
    is_one_of ("Running" ∷ "Stopped" ∷ []) s.state
    && is_one_of ("Auto" ∷ "Automatic" ∷ "Manual" ∷ "Disabled" ∷ []) s.start_mode
    && elim s.exit_code [ none ↦ false | some _ ↦ true ]

abbrev pub coverage_of : {A : Type 0} → (A → Bool) → Option (Section A) → Coverage
coverage_of known none = incomplete
coverage_of known (some s) =
    if s.status == "ok" && s.omitted_count == 0 && all known s.items then complete else incomplete

unfoldable pub build_windows_snapshot : (String → String) → Collected → WindowsSnapshot
build_windows_snapshot redact_string c =
    let redact = map (λ (v : Value). redact_value redact_string "" v) in
    let volumes = items_of c.volumes in
    let failures = failures_of c in
    record {
      host_summary = redact_value redact_string "host_summary" (facts_of c.summary);
      filesystems = redact (map (λ (v : Volume). v.row) (take 50 volumes));
      degraded_services = redact (map (λ (s : Service). s.row) (take 50 failures));
      top_processes = redact (items_of c.processes);
      listeners = redact (items_of c.listeners);
      findings = redact (findings_of c);
      collector_health = redact (
          map failed_health c.failures
          ++ host_health c.summary
          ++ health_of c.volumes
          ++ health_of c.services
          ++ health_of c.processes
          ++ health_of c.listeners);
      filesystem_coverage = coverage_of is_known_percent c.volumes;
      service_coverage = coverage_of (λ (s : Service). is_service_known s.service) c.services;
      truncation = record {
        filesystems = omitted c.volumes + (length volumes - 50);
        services = omitted c.services + (length failures - 50);
        processes = omitted c.processes;
        listeners = omitted c.listeners;
      };
    }

-- One round of the loop: the first optional section that has rows loses its last one.
unfoldable pub pop_one : WindowsSnapshot → Option WindowsSnapshot
pop_one s =
    let t = s.truncation in
    if not (is_empty s.top_processes)
    then some (record s {
      top_processes = pop s.top_processes;
      truncation = record t { processes = suc t.processes };
    })
    else if not (is_empty s.listeners)
    then some (record s {
      listeners = pop s.listeners;
      truncation = record t { listeners = suc t.listeners };
    })
    else if not (is_empty s.filesystems)
    then some (record s {
      filesystems = pop s.filesystems;
      truncation = record t { filesystems = suc t.filesystems };
    })
    else if not (is_empty s.degraded_services)
    then some (record s {
      degraded_services = pop s.degraded_services;
      truncation = record t { services = suc t.services };
    })
    else none

abbrev pub optional_rows : WindowsSnapshot → ℕ
optional_rows s =
    length s.top_processes + length s.listeners + length s.filesystems + length s.degraded_services

-- `bytes` is the length of the JSON text, and `budget` is the limit less 1024. On fuel: a round drops a
-- row.
unfoldable pub shrink : (WindowsSnapshot → ℕ) → ℕ → ℕ → WindowsSnapshot → WindowsSnapshot
shrink bytes budget zero s = s
shrink bytes budget (suc fuel) s = elim (ltb budget (bytes s)) [
  | false ↦ s
  | true ↦ elim (pop_one s) [ none ↦ s | some t ↦ shrink bytes budget fuel t ]
]
