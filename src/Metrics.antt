-- ===== src/Metrics.antt =====
-- src/observability.ts: the process-local counters.
use agentv.Base.{ℕ, ◌+◌}

pub record RuntimeCounters : Type 0 where
  pub collection_duration_ms : ℕ
  pub tool_calls : ℕ
  pub validation_failures : ℕ
  pub queue_saturation : ℕ
  pub timeouts : ℕ
  pub reconnects : ℕ
  pub skipped_snapshots : ℕ
  pub truncations : ℕ
  pub dropped_snapshots : ℕ

abbrev pub initial : RuntimeCounters
initial = record {
  collection_duration_ms = 0;
  tool_calls = 0;
  validation_failures = 0;
  queue_saturation = 0;
  timeouts = 0;
  reconnects = 0;
  skipped_snapshots = 0;
  truncations = 0;
  dropped_snapshots = 0;
}

pub data Key : Type 0 where
  tool_calls validation_failures queue_saturation timeouts reconnects : Key
  skipped_snapshots truncations dropped_snapshots : Key

abbrev pub increment : Key → RuntimeCounters → RuntimeCounters
increment Key.tool_calls m = record m { tool_calls = m.tool_calls + 1 }
increment Key.validation_failures m = record m { validation_failures = m.validation_failures + 1 }
increment Key.queue_saturation m = record m { queue_saturation = m.queue_saturation + 1 }
increment Key.timeouts m = record m { timeouts = m.timeouts + 1 }
increment Key.reconnects m = record m { reconnects = m.reconnects + 1 }
increment Key.skipped_snapshots m = record m { skipped_snapshots = m.skipped_snapshots + 1 }
increment Key.truncations m = record m { truncations = m.truncations + 1 }
increment Key.dropped_snapshots m = record m { dropped_snapshots = m.dropped_snapshots + 1 }

abbrev pub record_collection : ℕ → RuntimeCounters → RuntimeCounters
record_collection ms m = record m { collection_duration_ms = ms }
