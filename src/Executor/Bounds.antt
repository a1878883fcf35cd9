-- ===== src/Executor/Bounds.antt =====
-- The limits that src/tools/executor.ts promises, for every order of callbacks.
use agentv.Base.{◌+◌, ◌≤◌, ◌<◌, ◌≡◌, List, arith, length}
use agentv.Registry.{ToolCapability}
use agentv.Executor.Authorize.{Env}
use agentv.Executor.Balance.{Inv, holders}
use agentv.Executor.Gate.Slots.{ids}
use agentv.Executor.Invariant.{run-Inv}
use agentv.Executor.{Event, create, run, lane}

create-Inv : (env : Env) → Inv env (create env)
unfolding create ids
create-Inv env = ground arith

module _ (env : Env) (es : List Event) where
  pub reached-Inv : Inv env (run env (create env) es)
  reached-Inv = run-Inv env (create env) es (create-Inv env)

  -- After any callbacks in any order, the calls that run or have timed out without settling are at
  -- most the configured number for each capability, the calls that wait in both queues together are
  -- at most the queue limit, and a queue holds a call only while its gate is full.
  pub run_bounded :
      let s = run env (create env) es in
      (holders s.read ≤ env.read_concurrency)
      × (holders s.write ≤ env.write_concurrency)
      × (length s.read.gate.queue + length s.write.gate.queue ≤ env.queue_limit)
      × (0 < length s.read.gate.queue → holders s.read ≡ env.read_concurrency)
      × (0 < length s.write.gate.queue → holders s.write ≡ env.write_concurrency)
  run_bounded = ground (arith, reached-Inv)

  -- After any callbacks, the armed queue timers of a gate are those of its queued calls, in order.
  pub run_timers :
      (cap : ToolCapability)
      → let l = lane cap (run env (create env) es) in l.gate.timers ≡ ids l.gate.queue
  run_timers ToolCapability.read = reached-Inv.read_gate.timers_exact
  run_timers ToolCapability.write = reached-Inv.write_gate.timers_exact
