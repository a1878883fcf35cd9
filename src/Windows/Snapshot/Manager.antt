-- ===== src/Windows/Snapshot/Manager.antt =====
-- src/windows/snapshot.ts, `WindowsSnapshotManager`: a step for each call, timer and snapshot that was
-- built. JSON, gzip and the transport answer in the events.
use agentv.Base.{
  ℕ, suc, ◌-◌, ◌≡◌, refl, Bool, true, false, not, ◌&&◌, ◌||◌, List, [], ◌∷◌, Option, none, some,
  ltb, leb, ◌==◌, ◌!=◌, nat_eq, if◌then◌else◌, all, arith, Option-cases, Bool-cases, inl, inr,
}
use agentv.Metrics.{RuntimeCounters, Key, increment}
use agentv.Windows.Snapshot.{WindowsSnapshot, shrink, optional_rows}

-- A collection of a generation, with the limit of bytes it was asked for with.
pub record Job : Type 0 where
  pub generation : ℕ
  pub max_bytes : ℕ

-- `interval` is what the timer collects; `sent` are the sizes of what was sent with their limits;
-- `aborted` is the signal of the latest controller.
pub record WindowsSnapshotManager : Type 0 where
  pub interval : Option Job
  pub aborted : Bool
  pub active : Bool
  pub generation : ℕ
  pub in_flight : Option Job
  pub pending : Option Job
  pub sent : List (ℕ × ℕ)
  pub metrics : RuntimeCounters

-- The lengths of the JSON of a snapshot, of the notification that carries it, and of that with gzip.
pub record Env : Type 0 where
  pub json_bytes : WindowsSnapshot → ℕ
  pub notification_bytes : WindowsSnapshot → ℕ
  pub gzip_bytes : WindowsSnapshot → ℕ

unfoldable pub create : RuntimeCounters → WindowsSnapshotManager
create metrics = record {
  interval = none;
  aborted = false;
  active = false;
  generation = 0;
  in_flight = none;
  pending = none;
  sent = [];
  metrics = metrics;
}

abbrev count : Key → WindowsSnapshotManager → WindowsSnapshotManager
count k m = record m { metrics = increment k m.metrics }

-- Up to the `await` of the snapshot.
unfoldable pub collect : Job → Bool → WindowsSnapshotManager → WindowsSnapshotManager
collect job startup m =
    if not m.active || job.generation != m.generation then m else elim m.in_flight [
      | none ↦ record m { in_flight = some job }
      | some _ ↦
          let skipped = count Key.skipped_snapshots m in
          if startup then record skipped { pending = some job } else skipped
    ]

unfoldable pub stop : WindowsSnapshotManager → WindowsSnapshotManager
stop m = record m {
  active = false;
  generation = suc m.generation;
  pending = none;
  interval = none;
  aborted = true;
}

unfoldable pub start : ℕ → WindowsSnapshotManager → WindowsSnapshotManager
start max_bytes m =
    let s = stop m in
    let job : Job = record { generation = s.generation; max_bytes = max_bytes } in
    collect job true (record s { active = true; aborted = false; interval = some job })

-- The `finally`.
unfoldable pub finish : WindowsSnapshotManager → WindowsSnapshotManager
finish m =
    let rest = record m { in_flight = none; pending = none } in
    if m.active then elim m.pending [ none ↦ rest | some job ↦ collect job false rest ] else rest

-- The snapshot is fitted, compressed and sent; `accepted` is the answer of `send`.
unfoldable pub send_snapshot :
    Env → Job → WindowsSnapshot → Bool → WindowsSnapshotManager → WindowsSnapshotManager
send_snapshot env job built accepted m =
    let fitted = shrink env.json_bytes (job.max_bytes - 1024) (optional_rows built) built in
    let bytes = env.gzip_bytes fitted in
    if ltb job.max_bytes (env.notification_bytes fitted) || ltb job.max_bytes bytes || not accepted
    then count Key.dropped_snapshots m
    else record m { sent = (bytes, job.max_bytes) ∷ m.sent }

-- After the `await`; `none` is an error.
unfoldable pub on_built :
    Env → Option WindowsSnapshot → Bool → WindowsSnapshotManager → WindowsSnapshotManager
on_built env result accepted m = elim m.in_flight [
  | none ↦ m
  | some job ↦ if job.generation != m.generation then finish m else elim result [
    | none ↦ finish m
    | some built ↦ finish (send_snapshot env job built accepted m)
  ]
]

unfoldable pub on_interval : WindowsSnapshotManager → WindowsSnapshotManager
on_interval m = elim m.interval [ none ↦ m | some job ↦ collect job false m ]

pub data Event : Type 0 where
  start_call : ℕ → Event
  stop_call interval_fired : Event
  snapshot_built : Option WindowsSnapshot → Bool → Event

unfoldable pub step : Env → WindowsSnapshotManager → Event → WindowsSnapshotManager
step env m (start_call max_bytes) = start max_bytes m
step env m stop_call = stop m
step env m interval_fired = on_interval m
step env m (snapshot_built result accepted) = on_built env result accepted m

unfoldable pub run : Env → WindowsSnapshotManager → List Event → WindowsSnapshotManager
run env m [] = m
run env m (e ∷ es) = run env (step env m e) es

abbrev is_now : ℕ → Option Job → Bool
is_now generation none = false
is_now generation (some job) = job.generation == generation

abbrev is_some_job : Option Job → Bool
is_some_job none = false
is_some_job (some _) = true

-- The interval runs exactly while active and for the current generation, a job that waits is of that
-- generation behind one in flight, and what was sent was within its limit.
pub record IsPaced (m : WindowsSnapshotManager) : Type 0 where
  pub interval : is_now m.generation m.interval ≡ m.active
  pub quiet : is_some_job m.interval ≡ m.active
  pub waits :
      (not (is_some_job m.pending)
        || (m.active && is_now m.generation m.pending && is_some_job m.in_flight))
      ≡ true
  pub live : (m.active && m.aborted) ≡ false
  pub limits : all (λ (s : ℕ × ℕ). leb (s.0) (s.1)) m.sent ≡ true

collect-IsPaced :
    (job : Job) (startup : Bool) (m : WindowsSnapshotManager)
    → IsPaced m
    → IsPaced (collect job startup m)
unfolding collect
collect-IsPaced job startup m i = record {
  interval = ground (arith, i.interval);
  quiet = ground (arith, i.quiet);
  waits = ground (arith, i.waits);
  live = ground (arith, i.live);
  limits = ground (arith, i.limits);
}

start-IsPaced :
    (max_bytes : ℕ) (m : WindowsSnapshotManager) → IsPaced m → IsPaced (start max_bytes m)
unfolding start stop collect
start-IsPaced max_bytes m i = record {
  interval = ground (arith, i.interval);
  quiet = ground (arith, i.quiet);
  waits = ground (arith, i.waits);
  live = ground (arith, i.live);
  limits = ground (arith, i.limits);
}

finish-IsPaced : (m : WindowsSnapshotManager) → IsPaced m → IsPaced (finish m)
unfolding finish collect
finish-IsPaced m i = record {
  interval = ground (arith, i.interval);
  quiet = ground (arith, i.quiet);
  waits = ground (arith, i.waits);
  live = ground (arith, i.live);
  limits = ground (arith, i.limits);
}

send_snapshot-IsPaced :
    (env : Env) (job : Job) (built : WindowsSnapshot) (accepted : Bool) (m : WindowsSnapshotManager)
    → IsPaced m
    → IsPaced (send_snapshot env job built accepted m)
unfolding send_snapshot
send_snapshot-IsPaced env job built accepted m i = record {
  interval = ground (arith, i.interval);
  quiet = ground (arith, i.quiet);
  waits = ground (arith, i.waits);
  live = ground (arith, i.live);
  limits = ground (arith, i.limits);
}

on_built-IsPaced :
    (env : Env) (result : Option WindowsSnapshot) (accepted : Bool) (m : WindowsSnapshotManager)
    → IsPaced m
    → IsPaced (on_built env result accepted m)
unfolding on_built
on_built-IsPaced env result accepted m i = elim (Option-cases m.in_flight) [
  | inl idle ↦ simp (on_built, idle) i
  | inr (job, flying) ↦ elim (Bool-cases (job.generation != m.generation)) [
    | inl stale ↦ simp (on_built, flying, stale) (finish-IsPaced m i)
    | inr current ↦ elim (Option-cases result) [
      | inl failed ↦ simp (on_built, flying, current, failed) (finish-IsPaced m i)
      | inr (built, e) ↦
          simp (on_built, flying, current, e)
            (finish-IsPaced _ (send_snapshot-IsPaced env job built accepted m i))
    ]
  ]
]

on_interval-IsPaced : (m : WindowsSnapshotManager) → IsPaced m → IsPaced (on_interval m)
unfolding on_interval
on_interval-IsPaced m i = elim (Option-cases m.interval) [
  | inl off ↦ simp (on_interval, off) i
  | inr (job, on) ↦ simp (on_interval, on) (collect-IsPaced job false m i)
]

stop-IsPaced : (m : WindowsSnapshotManager) → IsPaced m → IsPaced (stop m)
unfolding stop
stop-IsPaced m i = record {
  interval = refl;
  quiet = refl;
  waits = refl;
  live = refl;
  limits = i.limits;
}

step-IsPaced :
    (env : Env) (m : WindowsSnapshotManager) (e : Event) → IsPaced m → IsPaced (step env m e)
unfolding step
step-IsPaced env m (start_call max_bytes) i = start-IsPaced max_bytes m i
step-IsPaced env m stop_call i = stop-IsPaced m i
step-IsPaced env m interval_fired i = on_interval-IsPaced m i
step-IsPaced env m (snapshot_built result accepted) i = on_built-IsPaced env result accepted m i

steps-IsPaced :
    (env : Env) (m : WindowsSnapshotManager) (es : List Event) → IsPaced m → IsPaced (run env m es)
unfolding run
steps-IsPaced env m [] i = i
steps-IsPaced env m (e ∷ es) i = steps-IsPaced env (step env m e) es (step-IsPaced env m e i)

-- After any calls, timers and snapshots in any order: the interval runs exactly while the manager is
-- active and for its generation, a collection that waits is of this generation and stands behind one in
-- flight, the controller of an active manager is not aborted, and each payload sent was within its limit.
pub run-IsPaced :
    (env : Env) (metrics : RuntimeCounters) (es : List Event)
    → IsPaced (run env (create metrics) es)
unfolding create
run-IsPaced env metrics es =
    steps-IsPaced env (create metrics) es
      (record { interval = refl; quiet = refl; waits = refl; live = refl; limits = refl })
