-- ===== src/Examples/Snapshot.antt =====
-- Runs of src/core/snapshot-manager.ts.
use mathlib.Core.List.{Memᴰ}
use agentv.Base.{ℕ, ◌*◌, ◌+◌, ◌≤◌, String, ◌≡◌, ◌⊎◌, true, List, [], ◌∷◌, none, some, arith}
use agentv.Base.Json.{nat, obj, end}
use agentv.Metrics.{initial}
use agentv.Snapshot.Build.{
  Collected, CollectorHealth, FilesystemSummary, ServiceSummary, Snapshot, snapshot_of, items_of,
  has_filesystem_pressure, filesystem_finding, service_finding,
}
use agentv.Snapshot.Shrink.{shrink, optional_rows}
use agentv.Snapshot.Fits.{Keeps, IsOrdered, shrink_fits, shrink_honest}
use agentv.Snapshot.Findings.{findings_complete}
use agentv.Snapshot.Schedule.{IsScheduled, run-IsScheduled}
use agentv.Snapshot.{Env, Event, start_call, trigger_call, create, run}

abbrev fine : String → CollectorHealth
fine c = record { collector = c; status = "ok"; message = none }

abbrev full_disk : FilesystemSummary
full_disk = record {
  mount = "/";
  kind = "ext4";
  used_percent = record { whole = 95; shown = "95" };
  row = obj end;
}

abbrev failed_unit : ServiceSummary
failed_unit = record { unit = "nginx.service"; row = obj end }

abbrev collected : Collected
collected = record {
  failures = [];
  host_summary = none;
  filesystems =
      some (record { items = full_disk ∷ []; health = fine "filesystems"; omitted_count = 0 });
  services = some (record { items = failed_unit ∷ []; health = fine "systemd"; omitted_count = 0 });
  processes =
      some (record { items = nat 1 ∷ nat 2 ∷ []; health = fine "procfs"; omitted_count = 3 });
  listeners = none;
}

abbrev bytes : Snapshot → ℕ
bytes s = 1000 + 100 * optional_rows s

abbrev snapshot : Snapshot
snapshot = snapshot_of collected

shrink_fits_example :
    let t = (shrink bytes 1250 (optional_rows snapshot) snapshot initial).0 in
    (bytes t ≤ 1250) ⊎ (optional_rows t ≡ 0)
shrink_fits_example = shrink_fits bytes 1250 (optional_rows snapshot) snapshot initial (omega arith)

shrink_honest_example :
    let r = shrink bytes 1250 4 snapshot initial in
    Keeps snapshot r.0
    × IsOrdered snapshot r.0
    × (r.1.truncations + optional_rows r.0 ≡ initial.truncations + optional_rows snapshot)
shrink_honest_example = shrink_honest bytes 1250 4 snapshot initial

findings_complete_example :
    let found = (shrink bytes 1250 4 (snapshot_of collected) initial).0.findings in
    ((f : FilesystemSummary)
      → Memᴰ f (items_of collected.filesystems)
      → has_filesystem_pressure f ≡ true
      → Memᴰ (filesystem_finding f) found)
    × ((s : ServiceSummary) → Memᴰ s (items_of collected.services) → Memᴰ (service_finding s) found)
findings_complete_example = findings_complete bytes 1250 4 collected initial

abbrev env : Env
env = record { json_bytes = bytes; notification_bytes = λ s. 1100 + 100 * optional_rows s }

abbrev started : List Event
started = start_call 20000 ∷ trigger_call ∷ []

run-IsScheduled_example : IsScheduled (run env (create initial) started)
run-IsScheduled_example = run-IsScheduled env initial started
