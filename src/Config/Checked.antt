-- ===== src/Config/Checked.antt =====
-- src/config.ts: the bounds of the snapshots that a configuration allows.
use agentv.Base.{ℕ, ◌≤◌, String, ◌≡◌, arith, string_eq}
use agentv.Base.Result.{ok, bind_inv}
use agentv.Config.{Process, Limits, Defaults, read_limits, read_defaults, int_env}

int_env_range :
    (p : Process) (name : String) (fallback low high n : ℕ)
    → int_env p name fallback low high ≡ ok n
    → (low ≤ n) × (n ≤ high)
unfolding int_env
int_env_range p name fallback low high n h = ground arith

limits_range :
    (p : Process) (l : Limits)
    → read_limits p ≡ ok l
    → (5000 ≤ l.min_interval_ms)
      × (l.min_interval_ms ≤ l.max_interval_ms)
      × (l.max_interval_ms ≤ 86400000)
      × (4096 ≤ l.min_bytes)
      × (l.min_bytes ≤ l.max_remote_bytes)
      × (l.max_remote_bytes ≤ 10485760)
unfolding read_limits
limits_range p l h =
    let (low, e, r) =
      bind_inv {m = int_env p "ACORNOPS_AGENT_MIN_SNAPSHOT_INTERVAL_MS" 10000 5000 60000} h in
    let (high, f, s) =
      bind_inv {m = int_env p "ACORNOPS_AGENT_MAX_SNAPSHOT_INTERVAL_MS" 3600000 low 86400000} r in
    let (bytes, g, t) =
      bind_inv {m = int_env p "ACORNOPS_AGENT_MIN_SNAPSHOT_BYTES" 16384 4096 1048576} s in
    let (remote, k, u) =
      bind_inv {m = int_env p "ACORNOPS_AGENT_MAX_REMOTE_SNAPSHOT_BYTES" 1048576 bytes 10485760}
        t in
    ground (
      arith,
      u,
      int_env_range p _ _ _ _ low e,
      int_env_range p _ _ _ _ high f,
      int_env_range p _ _ _ _ bytes g,
      int_env_range p _ _ _ _ remote k,
    )

-- A configuration that is loaded has bounds in order: a snapshot interval of five seconds to a day and
-- a byte limit of 4 KiB to 10 MiB, each between the minimum and the maximum that are configured.
pub limits_ordered :
    (p : Process) (l : Limits) (d : Defaults)
    → read_limits p ≡ ok l
    → read_defaults p l ≡ ok d
    → (5000 ≤ l.min_interval_ms)
      × (l.min_interval_ms ≤ d.interval_ms)
      × (d.interval_ms ≤ l.max_interval_ms)
      × (l.max_interval_ms ≤ 86400000)
      × (4096 ≤ l.min_bytes)
      × (l.min_bytes ≤ d.max_bytes)
      × (d.max_bytes ≤ l.max_remote_bytes)
      × (l.max_remote_bytes ≤ 10485760)
unfolding read_defaults
limits_ordered p l d h k =
    let (interval, e, r) =
      bind_inv
        {m = int_env p "ACORNOPS_AGENT_SNAPSHOT_INTERVAL_MS" 60000 l.min_interval_ms
          l.max_interval_ms}
        k in
    let (bytes, f, s) =
      bind_inv
        {m = int_env p "ACORNOPS_AGENT_MAX_SNAPSHOT_BYTES" 1048576 l.min_bytes l.max_remote_bytes}
        r in
    ground (
      arith,
      s,
      limits_range p l h,
      int_env_range p _ _ _ _ interval e,
      int_env_range p _ _ _ _ bytes f,
    )
