-- ===== src/Snapshot/Schedule.antt =====
-- src/core/snapshot-manager.ts: the collections, over any order of calls, timers and results.
use agentv.Base.{ℕ, ◌≤◌, ◌≡◌, ◌≢◌, true, false, List, [], ◌∷◌, none, some, arith, nat_eq}
use agentv.Metrics.{RuntimeCounters, Key}
use agentv.Snapshot.Build.{Collected}
use agentv.Snapshot.{
  SnapshotManager, Env, Event, Trigger, reading_host, Answer, create, run, step, collect, start,
  finish, on_host, on_listing, prepare, on_compressed, on_interval, count, start_call, stop_call,
  trigger_call, interval_fired, host_read, listed, compressed,
}

abbrev pub AllWithin : List (ℕ × ℕ) → Type 0
AllWithin [] = Unit {0}
AllWithin ((bytes, limit) ∷ rest) = (bytes ≤ limit) × AllWithin rest

-- The flags of the schedule.
pub record IsScheduled (m : SnapshotManager) : Type 0 where
  pub wanted : m.pending ≡ true → (m.active ≡ true) × (m.in_flight ≢ none)
  pub repeats : m.active ≡ true → m.interval ≡ some m.generation
  pub quiet : m.active ≡ false → m.interval ≡ none
  pub limits : AllWithin m.sent

collect-IsScheduled :
    (g : ℕ) (t : Trigger) (m : SnapshotManager) → IsScheduled m → IsScheduled (collect g t m)
unfolding collect
collect-IsScheduled g t m v = ground arith

finish-IsScheduled : (ms : ℕ) (m : SnapshotManager) → IsScheduled m → IsScheduled (finish ms m)
unfolding finish collect
finish-IsScheduled ms m v = ground arith

prepare-IsScheduled :
    (env : Env) (ms : ℕ) (c : Collected) (m : SnapshotManager)
    → IsScheduled m
    → IsScheduled (prepare env ms c m)
unfolding prepare finish collect
prepare-IsScheduled env ms c m v = ground arith

start-IsScheduled : (b : ℕ) (m : SnapshotManager) → IsScheduled m → IsScheduled (start b m)
unfolding start collect
start-IsScheduled b m v = ground arith

on_interval-IsScheduled : (m : SnapshotManager) → IsScheduled m → IsScheduled (on_interval m)
unfolding on_interval collect
on_interval-IsScheduled m v = ground arith

on_listing-IsScheduled :
    (env : Env) (ms : ℕ) (a : Answer) (m : SnapshotManager)
    → IsScheduled m
    → IsScheduled (on_listing env ms a m)
unfolding on_listing prepare finish collect
on_listing-IsScheduled env ms a m v = ground arith

step-IsScheduled :
    (env : Env) (m : SnapshotManager) (e : Event) → IsScheduled m → IsScheduled (step env m e)
unfolding step on_host on_compressed
step-IsScheduled env m (start_call b) v = start-IsScheduled b m v
step-IsScheduled env m stop_call v = ground arith
step-IsScheduled env m trigger_call v =
    ground (arith, collect-IsScheduled m.generation Trigger.manual m)
step-IsScheduled env m interval_fired v = on_interval-IsScheduled m v
step-IsScheduled env m (host_read ms a) v = ground (arith, finish-IsScheduled ms m)
step-IsScheduled env m (listed ms a) v = on_listing-IsScheduled env ms a m v
step-IsScheduled env m (compressed ms bytes accepted) v = ground (
  arith,
  finish-IsScheduled ms (count Key.dropped_snapshots m),
  finish-IsScheduled ms (record m { sent = (bytes, m.max_bytes) ∷ m.sent }),
)

steps-IsScheduled :
    (env : Env) (m : SnapshotManager) (es : List Event) → IsScheduled m → IsScheduled (run env m es)
unfolding run
steps-IsScheduled env m [] v = v
steps-IsScheduled env m (e ∷ es) v =
    steps-IsScheduled env (step env m e) es (step-IsScheduled env m e v)

-- After any calls, timers and results in any order: a wanted collection waits for one in flight of an
-- active manager, the interval is that of the current generation and runs exactly while the manager
-- is active, and each payload sent was within the limit that held then.
pub run-IsScheduled :
    (env : Env) (metrics : RuntimeCounters) (es : List Event)
    → IsScheduled (run env (create metrics) es)
run-IsScheduled env metrics es = steps-IsScheduled env (create metrics) es (ground arith)

-- A collection that ends starts the wanted one at once, in the current generation; without a wanted
-- one nothing is in flight.
pub finish_resumes :
    (ms : ℕ) (m : SnapshotManager)
    → IsScheduled m
    → (m.pending ≡ true
        → ((finish ms m).in_flight ≡ some (reading_host m.generation))
          × ((finish ms m).pending ≡ false))
      × (m.pending ≡ false → (finish ms m).in_flight ≡ none)
unfolding finish collect
finish_resumes ms m v = ground arith
