-- ===== src/Adapters/HostFacts.antt =====
-- src/adapters/host-facts.ts: the facts of the host, and the sample of its processors.
pub mod Usage
use Prim.Native.Char.{code}
use Prim.Native.String
use agentv.Base.{
  ℕ, ◌+◌, ◌-◌, ◌*◌, ◌/◌, String, List, [], ◌∷◌, ◌++◌, map, Bool, true, false, ◌==◌, Option, none,
  some, if◌then◌else◌, string_eq, nat_eq, ltb,
}
use agentv.Base.Decimal.{Signed, plus, signed_percent}
use agentv.Base.Result.{Result, ok, err, ◌>>=◌, ◌>>◌}
use agentv.Base.Scan.{
  split, cut_first, trim, word, words, at, drop, is_empty, number, hundredths, or_zero, parse_int,
  strip,
}
use agentv.Base.Table.{lookup, from_entries}
use agentv.Adapters.{CollectorHealth, or_text, flat_map}
use agentv.Errors.{Thrown}

-- `replace(/^"|"$/g, '')`
abbrev without_end : String → String
without_end String.[] = ""
without_end (String.◌∷◌ c String.[]) = if code c == 34 then "" else String.◌∷◌ c ""
without_end (String.◌∷◌ c s) = String.◌∷◌ c (without_end s)

abbrev pub unquoted : String → String
unquoted s = elim (strip "\"" s) [ none ↦ without_end s | some rest ↦ without_end rest ]

abbrev pair_of : ℕ → String → List (String × String)
pair_of separator line = elim (cut_first separator line) [
  | none ↦ []
  | some (key, value) ↦ if is_empty key then [] else (key, unquoted value) ∷ []
]

unfoldable pub pairs : ℕ → String → List (String × String)
pairs separator content = from_entries (flat_map (pair_of separator) (split 10 content))

abbrev mem_bytes : Option String → ℕ
mem_bytes value = or_zero (parse_int (or_text value "0")) * 1024

-- The counters of the first line of `/proc/stat`. `none` is `NaN`, in a sum too.
abbrev pub counters : String → List (Option ℕ)
counters stat = map number (drop 1 (words (trim (or_text (at 0 (split 10 stat)) ""))))

abbrev plus_counter : Option ℕ → Option ℕ → Option ℕ
plus_counter (some a) (some b) = some (a + b)
plus_counter _ _ = none

abbrev pub total_of : List (Option ℕ) → Option ℕ
total_of [] = some 0
total_of (v ∷ vs) = plus_counter v (total_of vs)

abbrev counter_at : ℕ → List (Option ℕ) → ℕ
counter_at i values = elim (at i values) [ none ↦ 0 | some v ↦ or_zero v ]

abbrev pub idle_of : List (Option ℕ) → ℕ
idle_of values = counter_at 3 values + counter_at 4 values

-- `100 * (1 - idle / total)` of what was counted between two samples
abbrev usage_between : Option ℕ → Option ℕ → ℕ → ℕ → Option Signed
usage_between (some total_before) (some total_after) idle_before idle_after =
    if ltb total_before total_after
    then some (
        let total = total_after - total_before in
        signed_percent (total + idle_before) idle_after total)
    else none
usage_between _ _ idle_before idle_after = none

unfoldable pub usage_percent : List (Option ℕ) → List (Option ℕ) → Option Signed
usage_percent before after =
    usage_between (total_of before) (total_of after) (idle_of before) (idle_of after)

-- What the host is asked for. The processors are sampled twice, with a sleep between.
pub record Host : Type 0 where
  pub read_text : String → Result Thrown String
  pub stat_before : Result Thrown String
  pub slept : Result Thrown Unit
  pub stat_after : Result Thrown String
  pub hostname : String
  pub release : String
  pub architecture : String

unfoldable pub cpu_sample : Host → Result Thrown (Option Signed)
cpu_sample h = do
  before ← h.stat_before
  h.slept
  after ← h.stat_after
  ok (usage_percent (counters before) (counters after))

pub record Capacity : Type 0 where
  pub total_bytes : ℕ
  pub left_bytes : ℕ
  pub used_bytes : ℕ
  pub used_percent : Signed

-- `total - left`, never below 0, and its share
abbrev pub capacity : ℕ → ℕ → Capacity
capacity total left = record {
  total_bytes = total;
  left_bytes = left;
  used_bytes = total - left;
  used_percent = if total == 0 then plus 0 else signed_percent total left total;
}

-- Loads are in hundredths.
pub record HostSummary : Type 0 where
  pub hostname : String
  pub distro_id : String
  pub distro_version : String
  pub pretty_name : String
  pub kernel : String
  pub architecture : String
  pub boot_id : String
  pub uptime_seconds : ℕ
  pub load : ℕ × ℕ × ℕ
  pub cpu_usage : Option Signed
  pub memory : Capacity
  pub swap : Capacity
  pub pressure_available : Bool
  pub collector_health : List CollectorHealth

abbrev cpu_health : Result Thrown (Option Signed) → CollectorHealth
cpu_health (ok _) = record { collector = "cpu"; status = "ok"; message = none }
cpu_health (err _) = record {
  collector = "cpu";
  status = "partial";
  message = some "CPU sample unavailable";
}

abbrev usage_of : Result Thrown (Option Signed) → Option Signed
usage_of (ok usage) = usage
usage_of (err _) = none

abbrev succeeds : Result Thrown String → Bool
succeeds (ok _) = true
succeeds (err _) = false

abbrev load_at : ℕ → String → ℕ
load_at i content = elim (at i (words (trim content))) [
  | none ↦ 0
  | some s ↦ or_zero (hundredths s)
]

unfoldable pub summary_of : Host → String → String → String → String → String → HostSummary
summary_of h release_text boot_id uptime load memory_text =
    let release = pairs b'=' release_text in
    let memory = pairs b':' memory_text in
    let cpu = cpu_sample h in
    record {
      hostname = h.hostname;
      distro_id = or_text (lookup "ID" release) "unknown";
      distro_version = or_text (lookup "VERSION_ID" release) "unknown";
      pretty_name = or_text (lookup "PRETTY_NAME" release) "Unknown Linux";
      kernel = h.release;
      architecture = h.architecture;
      boot_id = trim boot_id;
      uptime_seconds = or_zero (hundredths ((word uptime).0)) / 100;
      load = (load_at 0 load, load_at 1 load, load_at 2 load);
      cpu_usage = usage_of cpu;
      memory =
          capacity (mem_bytes (lookup "MemTotal" memory))
            (mem_bytes (lookup "MemAvailable" memory));
      swap =
          capacity (mem_bytes (lookup "SwapTotal" memory)) (mem_bytes (lookup "SwapFree" memory));
      pressure_available = succeeds (h.read_text "/proc/pressure/cpu");
      collector_health =
          cpu_health cpu ∷ record { collector = "host_facts"; status = "ok"; message = none } ∷ [];
    }

unfoldable pub collect : Host → Result Thrown HostSummary
collect h = do
  release ← h.read_text "/etc/os-release"
  boot_id ← h.read_text "/proc/sys/kernel/random/boot_id"
  uptime ← h.read_text "/proc/uptime"
  load ← h.read_text "/proc/loadavg"
  memory ← h.read_text "/proc/meminfo"
  ok (summary_of h release boot_id uptime load memory)
