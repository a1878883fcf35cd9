-- ===== src/Snapshot.antt =====
-- src/core/snapshot-manager.ts, `SnapshotManager`: a step for each call, timer and continuation of
-- `collect`. The collectors, JSON, gzip and the transport answer in the events.
pub mod Build
pub mod Shrink
pub mod Fits
pub mod Findings
pub mod Schedule
use agentv.Base.{
  ℕ, suc, ◌+◌, ◌-◌, Bool, true, false, not, ◌&&◌, ◌||◌, List, [], ◌∷◌, ◌++◌, Option, none, some,
  ltb, ◌!=◌, nat_eq, if◌then◌else◌,
}
use agentv.Base.Json.{Value}
use agentv.Errors.{ToolErrorCode}
use agentv.Metrics.{RuntimeCounters, Key, increment, record_collection}
use agentv.Snapshot.Build.{
  CollectorHealth, HostSummary, FilesystemSummary, ServiceSummary, Section, Collected, Snapshot,
  failed_health, snapshot_of,
}
use agentv.Snapshot.Shrink.{shrink, optional_rows}

pub data Trigger : Type 0 where
  startup manual interval : Trigger

-- What the collection in flight, of a generation, awaits. The four listings run together: `Listing`
-- says which of them are still out.
pub record Listings : Type 0 where
  pub generation : ℕ
  pub collected : Collected
  pub filesystems_out : Bool
  pub services_out : Bool
  pub processes_out : Bool
  pub listeners_out : Bool

pub data Phase : Type 0 where
  reading_host : ℕ → Phase
  listing : Listings → Phase
  compressing : Snapshot → Phase

-- `interval` is the generation that the interval was set for; `in_flight` has the phase of the
-- collection; `sent` are the sizes of what was sent with the limit that held then.
pub record SnapshotManager : Type 0 where
  pub interval : Option ℕ
  pub active : Bool
  pub generation : ℕ
  pub in_flight : Option Phase
  pub pending : Bool
  pub max_bytes : ℕ
  pub sent : List (ℕ × ℕ)
  pub metrics : RuntimeCounters

-- The length of the JSON text of a snapshot, and of the notification that carries it.
pub record Env : Type 0 where
  pub json_bytes : Snapshot → ℕ
  pub notification_bytes : Snapshot → ℕ

abbrev pub count : Key → SnapshotManager → SnapshotManager
count k m = record m { metrics = increment k m.metrics }

abbrev is_interval : Trigger → Bool
is_interval interval = true
is_interval _ = false

unfoldable pub collect : ℕ → Trigger → SnapshotManager → SnapshotManager
collect generation trigger m =
    if not m.active || generation != m.generation then m else elim m.in_flight [
      | none ↦ record m { in_flight = some (reading_host generation) }
      | some p ↦ record (count Key.skipped_snapshots m) {
        pending = if is_interval trigger then m.pending else true;
      }
    ]

abbrev pub stop : SnapshotManager → SnapshotManager
stop m = record m {
  active = false;
  generation = suc m.generation;
  pending = false;
  interval = none;
}

unfoldable pub start : ℕ → SnapshotManager → SnapshotManager
start max_bytes m =
    let s = stop m in
    let generation = suc s.generation in
    collect generation startup (record s {
      active = true;
      generation = generation;
      max_bytes = max_bytes;
      interval = some generation;
    })

abbrev pub trigger : SnapshotManager → SnapshotManager
trigger m = if m.active then collect m.generation manual m else m

-- The `finally` of `collect`, after so many milliseconds.
unfoldable pub finish : ℕ → SnapshotManager → SnapshotManager
finish ms m =
    let done = record m { metrics = record_collection ms m.metrics; in_flight = none } in
    if done.pending && done.active
    then collect done.generation manual (record done { pending = false })
    else done

abbrev pub stale : ℕ → SnapshotManager → Bool
stale generation m = not m.active || generation != m.generation

-- A collector's result, or the code of its error if it has one.
pub data Attempt (A : Type 0) : Type 0 where
  succeeded : A → Attempt A
  failed : Option ToolErrorCode → Attempt A

abbrev empty : List CollectorHealth → Option HostSummary → Collected
empty failures host = record {
  failures = failures;
  host_summary = host;
  filesystems = none;
  services = none;
  processes = none;
  listeners = none;
}

abbrev list_all : ℕ → List CollectorHealth → Option HostSummary → Phase
list_all generation failures host = listing (record {
  generation = generation;
  collected = empty failures host;
  filesystems_out = true;
  services_out = true;
  processes_out = true;
  listeners_out = true;
})

abbrev host_phase : ℕ → Attempt HostSummary → Phase
host_phase generation (succeeded h) = list_all generation [] (some h)
host_phase generation (failed code) =
    list_all generation (failed_health "host_facts" code ∷ []) none

-- After the host summary.
unfoldable pub on_host : ℕ → Attempt HostSummary → SnapshotManager → SnapshotManager
on_host ms answer m = elim m.in_flight [
  | some (reading_host generation) ↦
      if stale generation m
      then finish ms m
      else record m { in_flight = some (host_phase generation answer) }
  | none ↦ m
  | some p ↦ m
]

-- After the listings: the snapshot is built, fitted to the budget, and measured.
unfoldable pub prepare : Env → ℕ → Collected → SnapshotManager → SnapshotManager
prepare env ms c m =
    let data_budget = m.max_bytes - 1024 in
    let whole = snapshot_of c in
    let fitted = shrink env.json_bytes data_budget (optional_rows whole) whole m.metrics in
    let counted = record m { metrics = fitted.1 } in
    if ltb data_budget (env.json_bytes fitted.0)
      || ltb m.max_bytes (env.notification_bytes fitted.0)
    then finish ms (count Key.dropped_snapshots counted)
    else record counted { in_flight = some (compressing fitted.0) }

pub data Answer : Type 0 where
  filesystems : Attempt (Section FilesystemSummary) → Answer
  services : Attempt (Section ServiceSummary) → Answer
  processes listeners : Attempt (Section Value) → Answer

abbrev fail : Collected → CollectorHealth → Collected
fail c h = record c { failures = c.failures ++ h ∷ [] }

unfoldable pub take_answer : Answer → Listings → Listings
take_answer (filesystems (succeeded s)) l = record l {
  filesystems_out = false;
  collected = record l.collected { filesystems = some s };
}
take_answer (filesystems (failed code)) l = record l {
  filesystems_out = false;
  collected = fail l.collected (failed_health "filesystems" code);
}
take_answer (services (succeeded s)) l = record l {
  services_out = false;
  collected = record l.collected { services = some s };
}
take_answer (services (failed code)) l = record l {
  services_out = false;
  collected = fail l.collected (failed_health "systemd" code);
}
take_answer (processes (succeeded s)) l = record l {
  processes_out = false;
  collected = record l.collected { processes = some s };
}
take_answer (processes (failed code)) l = record l {
  processes_out = false;
  collected = fail l.collected (failed_health "procfs" code);
}
take_answer (listeners (succeeded s)) l = record l {
  listeners_out = false;
  collected = record l.collected { listeners = some s };
}
take_answer (listeners (failed code)) l = record l {
  listeners_out = false;
  collected = fail l.collected (failed_health "sockets" code);
}

abbrev expected : Answer → Listings → Bool
expected (filesystems a) l = l.filesystems_out
expected (services a) l = l.services_out
expected (processes a) l = l.processes_out
expected (listeners a) l = l.listeners_out

abbrev still_out : Listings → Bool
still_out l = l.filesystems_out || l.services_out || l.processes_out || l.listeners_out

-- A listing settles; the last one resumes `collect`.
unfoldable pub on_listing : Env → ℕ → Answer → SnapshotManager → SnapshotManager
on_listing env ms a m = elim m.in_flight [
  | some (listing l) ↦
      let next = take_answer a l in
      if not (expected a l)
      then m
      else if still_out next
      then record m { in_flight = some (listing next) }
      else if stale l.generation m
      then finish ms m
      else prepare env ms next.collected m
  | none ↦ m
  | some p ↦ m
]

-- After gzip, with the compressed size and the answer of `send`.
unfoldable pub on_compressed : ℕ → ℕ → Bool → SnapshotManager → SnapshotManager
on_compressed ms bytes accepted m = elim m.in_flight [
  | some (compressing s) ↦
      if ltb m.max_bytes bytes || not accepted
      then finish ms (count Key.dropped_snapshots m)
      else finish ms (record m { sent = (bytes, m.max_bytes) ∷ m.sent })
  | none ↦ m
  | some p ↦ m
]

unfoldable pub on_interval : SnapshotManager → SnapshotManager
on_interval m = elim m.interval [ none ↦ m | some g ↦ collect g interval m ]

pub data Event : Type 0 where
  start_call : ℕ → Event
  stop_call trigger_call interval_fired : Event
  host_read : ℕ → Attempt HostSummary → Event
  listed : ℕ → Answer → Event
  compressed : ℕ → ℕ → Bool → Event

unfoldable pub step : Env → SnapshotManager → Event → SnapshotManager
step env m (start_call max_bytes) = start max_bytes m
step env m stop_call = stop m
step env m trigger_call = trigger m
step env m interval_fired = on_interval m
step env m (host_read ms a) = on_host ms a m
step env m (listed ms a) = on_listing env ms a m
step env m (compressed ms bytes accepted) = on_compressed ms bytes accepted m

unfoldable pub run : Env → SnapshotManager → List Event → SnapshotManager
run env m [] = m
run env m (e ∷ es) = run env (step env m e) es

abbrev pub create : RuntimeCounters → SnapshotManager
create metrics = record {
  interval = none;
  active = false;
  generation = 0;
  in_flight = none;
  pending = false;
  max_bytes = 1048576;
  sent = [];
  metrics = metrics;
}
