-- ===== src/Snapshot/Build.antt =====
-- src/core/snapshot-manager.ts: the snapshot that `collect` builds, before it is fitted to the budget.
use agentv.Base.{
  ℕ, ◌+◌, ◌-◌, String, Bool, not, ◌&&◌, List, [], ◌∷◌, ◌++◌, map, Option, none, some, ltb, ◌==◌,
  nat_eq, string_eq, if◌then◌else◌, contains, keep, take, length,
}
use agentv.Base.Json.{Value}
use agentv.Base.Text.{concat}
use agentv.Errors.{ToolErrorCode, permission_denied, tool_timeout}

pub record CollectorHealth : Type 0 where
  pub collector : String
  pub status : String
  pub message : Option String

-- A percentage: its integral part, which is compared, and its text.
pub record Percent : Type 0 where
  pub whole : ℕ
  pub shown : String

pub record HostSummary : Type 0 where
  pub memory_used : Percent
  pub collector_health : List CollectorHealth
  pub facts : Value

pub record FilesystemSummary : Type 0 where
  pub mount : String
  pub kind : String
  pub used_percent : Percent
  pub row : Value

pub record ServiceSummary : Type 0 where
  pub unit : String
  pub row : Value

-- The result of a listing of the host adapter.
pub record Section (A : Type 0) : Type 0 where
  pub items : List A
  pub health : CollectorHealth
  pub omitted_count : ℕ

pub data Finding : Type 0 where
  memory_pressure : String → Finding
  filesystem_pressure service_failed : String → String → Finding

pub record Truncation : Type 0 where
  pub filesystems : ℕ
  pub services : ℕ
  pub processes : ℕ
  pub listeners : ℕ

pub data Coverage : Type 0 where
  complete incomplete : Coverage

pub record Snapshot : Type 0 where
  pub host_summary : Option HostSummary
  pub filesystems : List FilesystemSummary
  pub degraded_services : List ServiceSummary
  pub top_processes : List Value
  pub listeners : List Value
  pub findings : List Finding
  pub collector_health : List CollectorHealth
  pub filesystem_coverage : Coverage
  pub service_coverage : Coverage
  pub truncation : Truncation

abbrev immutable_filesystem_types : List String
immutable_filesystem_types = "squashfs" ∷ "erofs" ∷ "cramfs" ∷ "romfs" ∷ "iso9660" ∷ []

abbrev pub has_filesystem_pressure : FilesystemSummary → Bool
has_filesystem_pressure f =
    not (contains immutable_filesystem_types f.kind) && not (ltb f.used_percent.whole 90)

-- The status of a collector that failed: by the code of a `ToolExecutionError`, or any other error.
abbrev pub failure_status : Option ToolErrorCode → String
failure_status (some permission_denied) = "permission_denied"
failure_status (some tool_timeout) = "timed_out"
failure_status _ = "unavailable"

abbrev pub failed_health : String → Option ToolErrorCode → CollectorHealth
failed_health collector code = record {
  collector = collector;
  status = failure_status code;
  message = some "Collection failed";
}

abbrev pub items_of : {A : Type 0} → Option (Section A) → List A
items_of none = []
items_of (some s) = s.items

abbrev pub omitted : {A : Type 0} → Option (Section A) → ℕ
omitted none = 0
omitted (some s) = s.omitted_count

abbrev health_of : {A : Type 0} → Option (Section A) → List CollectorHealth
health_of none = []
health_of (some s) = s.health ∷ []

abbrev pub coverage_of : {A : Type 0} → Option (Section A) → Coverage
coverage_of none = incomplete
coverage_of (some s) =
    if s.health.status == "ok" && s.omitted_count == 0 then complete else incomplete

abbrev pub memory_findings : Option HostSummary → List Finding
memory_findings none = []
memory_findings (some h) =
    if ltb h.memory_used.whole 90
    then []
    else memory_pressure (concat ("Memory use is " ∷ h.memory_used.shown ∷ "%" ∷ [])) ∷ []

abbrev pub filesystem_finding : FilesystemSummary → Finding
filesystem_finding f =
    filesystem_pressure f.mount
      (concat ("Filesystem " ∷ f.mount ∷ " is " ∷ f.used_percent.shown ∷ "% used" ∷ []))

abbrev pub service_finding : ServiceSummary → Finding
service_finding s = service_failed s.unit (concat ("Service " ∷ s.unit ∷ " failed" ∷ []))

-- What the collectors returned; `none` for one that failed. `failures` are in the order in which
-- they failed.
pub record Collected : Type 0 where
  pub failures : List CollectorHealth
  pub host_summary : Option HostSummary
  pub filesystems : Option (Section FilesystemSummary)
  pub services : Option (Section ServiceSummary)
  pub processes : Option (Section Value)
  pub listeners : Option (Section Value)

abbrev host_health : Option HostSummary → List CollectorHealth
host_health none = []
host_health (some h) = h.collector_health

abbrev all_health : Collected → List CollectorHealth
all_health c =
    c.failures
    ++ host_health c.host_summary
    ++ health_of c.filesystems
    ++ health_of c.services
    ++ health_of c.processes
    ++ health_of c.listeners

unfoldable pub findings_of : Collected → List Finding
findings_of c =
    memory_findings c.host_summary
    ++ map filesystem_finding (keep has_filesystem_pressure (items_of c.filesystems))
    ++ map service_finding (items_of c.services)

unfoldable pub snapshot_of : Collected → Snapshot
snapshot_of c =
    let items = items_of c.filesystems in
    let retained = take 50 items in
    record {
      host_summary = c.host_summary;
      filesystems = retained;
      degraded_services = items_of c.services;
      top_processes = items_of c.processes;
      listeners = items_of c.listeners;
      findings = findings_of c;
      collector_health = all_health c;
      filesystem_coverage = coverage_of c.filesystems;
      service_coverage = coverage_of c.services;
      truncation = record {
        filesystems = omitted c.filesystems + length items - length retained;
        services = omitted c.services;
        processes = omitted c.processes;
        listeners = omitted c.listeners;
      };
    }
