-- ===== src/Adapters/Procfs.antt =====
-- src/adapters/procfs.ts: processes, from the files of /proc.
pub mod Listing
pub mod Exact
pub mod Answer
use agentv.Base.{
  ℕ, zero, suc, ◌+◌, ◌-◌, ◌*◌, min, max, Option, none, some, String, List, [], ◌∷◌, ◌++◌, map, Bool,
  true, false, not, ◌&&◌, ◌||◌, ◌==◌, if◌then◌else◌, string_eq, nat_eq, option_eq, keep, length,
}
use agentv.Base.Decimal.{show, percent, rounded}
use agentv.Base.Result.{Result, ok, err, ◌>>=◌, ◌>>◌, fail_if}
use agentv.Base.Scan.{
  split, cut_first, cut_last, is_empty, tail, trim, word, words, at, join, has_text, parse_int,
  number, hundredths, or_zero,
}
use agentv.Base.Sort.{Sign, same, opposite, difference, sort}
use agentv.Base.Table.{lookup, from_entries}
use agentv.Base.Text.{concat, size, slice_to}
use agentv.Adapters.{or_text, flat_map}
use agentv.Errors.{
  ToolExecutionError, Thrown, tool, other, tool_error, tool_timeout, resource_not_found,
}

-- A collector's `NaN` is `none`. Percentages are in hundredths of a percent.
pub record ProcRecord : Type 0 where
  pub pid : ℕ
  pub ppid : ℕ
  pub uid : Option ℕ
  pub user : String
  pub state : String
  pub name : String
  pub cpu_percent : ℕ
  pub memory_bytes : Option ℕ
  pub memory_percent : Option ℕ
  pub start_ticks : ℕ
  pub start_time : Option String
  pub executable : Option String
  pub command_line : String

-- Times in milliseconds; a file of /proc counts hundredths of a second.
pub record ProcContext : Type 0 where
  pub uptime_ms : ℕ
  pub total_memory : Option ℕ
  pub boot_epoch_ms : ℕ

-- `ProcfsDependencies`, `toISOString`, `toLowerCase`, and `redactString`. A path is read once in a call.
pub record Host : Type 0 where
  pub list_pids : Result Thrown (List ℕ)
  pub read_text : String → Result Thrown String
  pub read_buffer : String → Result Thrown String
  pub read_link : String → Option String
  pub cpu_count : ℕ
  pub now : ℕ
  pub iso_time : ℕ → String
  pub lower_case : String → String
  pub redact_string : String → String

-- A line with its first colon behind a key.
abbrev colon_field : String → List (String × String)
colon_field line = elim (cut_first b':' line) [
  | none ↦ []
  | some (key, value) ↦ if is_empty key then [] else (key, trim value) ∷ []
]

unfoldable pub parse_proc_status : String → List (String × String)
parse_proc_status text = from_entries (flat_map colon_field (split 10 text))

-- `MemTotal` and `VmRSS` are in KiB: `Number.parseInt(x || '0', 10) * 1024`
abbrev pub kib : Option String → Option ℕ
kib x = elim (parse_int (or_text x "0")) [ none ↦ none | some n ↦ some (n * 1024) ]

unfoldable pub ensure_active : Bool → Result Thrown Unit
ensure_active aborted =
    fail_if aborted (tool (tool_error tool_timeout "Process collection was aborted"))

unfoldable pub context : Host → Bool → Result Thrown ProcContext
context h aborted = do
  ensure_active aborted
  uptime_text ← h.read_text "/proc/uptime"
  mem_text ← h.read_text "/proc/meminfo"
  let uptime = 10 * or_zero (hundredths ((word uptime_text).0))
  ok (record {
    uptime_ms = uptime;
    total_memory = kib (lookup "MemTotal" (parse_proc_status mem_text));
    boot_epoch_ms = h.now - uptime;
  })

-- `this.passwd`: the file is read at the first call, and kept.
abbrev pub Passwd : Type 0
Passwd = Option (List (Option ℕ × String))

bind_number : Option String → Option ℕ
bind_number none = none
bind_number (some s) = number s

abbrev user_line : String → List (Option ℕ × String)
user_line line =
    let values = split b':' line in
    if is_empty line then [] else (bind_number (at 2 values), or_text (at 0 values) "") ∷ []

unfoldable pub passwd_table : String → List (Option ℕ × String)
unfolding bind_number
passwd_table text = from_entries (flat_map user_line (split 10 text))

abbrev show_uid : Option ℕ → String
show_uid none = "NaN"
show_uid (some n) = show n

unfoldable pub name_of : List (Option ℕ × String) → Option ℕ → String
name_of table uid = or_text (lookup uid table) (show_uid uid)

unfoldable pub user : Host → Passwd → Option ℕ → Result Thrown String × Passwd
user h (some table) uid = (ok (name_of table uid), some table)
user h none uid = elim (h.read_text "/etc/passwd") [
  | err e ↦ (err e, none)
  | ok text ↦ let table = passwd_table text in (ok (name_of table uid), some table)
]

-- The four files of a process.
pub record Files : Type 0 where
  pub status : List (String × String)
  pub stat : String
  pub command : String

unfoldable pub read_files : Host → ℕ → Result Thrown Files
read_files h pid = do
  let base = concat ("/proc/" ∷ show pid ∷ [])
  status_text ← h.read_text (concat (base ∷ "/status" ∷ []))
  stat_text ← h.read_text (concat (base ∷ "/stat" ∷ []))
  cmdline ← h.read_buffer (concat (base ∷ "/cmdline" ∷ []))
  ok (record { status = parse_proc_status status_text; stat = stat_text; command = cmdline })

-- What follows the name in parentheses, which may itself hold spaces and parentheses.
abbrev pub stat_fields : String → List String
stat_fields stat = elim (cut_last b')' stat) [
  | none ↦ words (trim (tail stat))
  | some (_, after) ↦ words (trim (tail after))
]

-- `Number(fields[i]) || 0`
abbrev pub field_number : ℕ → List String → ℕ
unfolding bind_number
field_number i fields = or_zero (bind_number (at i fields))

abbrev uid_of : Option String → Option ℕ
uid_of none = some 0
uid_of (some ids) = let first = (word ids).0 in if is_empty first then some 0 else number first

-- The command's arguments end with a zero byte each.
abbrev command_of : ℕ → Files → String
command_of pid f =
    if is_empty f.command
    then concat ("[" ∷ or_text (lookup "Name" f.status) (show pid) ∷ "]" ∷ [])
    else join " " (keep (λ part. not (is_empty part)) (split 0 f.command))

-- 100 * seconds on the processor / seconds since the start, at most 100 % of every processor
unfoldable pub cpu_percent : ℕ → ℕ → ℕ → ℕ → ℕ
cpu_percent cpus uptime_ms ticks start_ticks =
    min (10000 * max 1 cpus) (percent (10 * ticks) (max 1 (uptime_ms - 10 * start_ticks)))

abbrev memory_percent : Option ℕ → Option ℕ → Option ℕ
memory_percent rss none = some 0
memory_percent rss (some total) =
    if total == 0 then some 0 else elim rss [ none ↦ none | some n ↦ some (percent n total) ]

unfoldable pub record_of : Host → ProcContext → ℕ → Files → String → ProcRecord
unfolding cpu_percent
record_of h c pid f user =
    let fields = stat_fields f.stat in
    let rss = kib (lookup "VmRSS" f.status) in
    let start_ticks = field_number 19 fields in
    record {
      pid = pid;
      ppid = field_number 1 fields;
      uid = uid_of (lookup "Uid" f.status);
      user = user;
      state = or_text (at 0 fields) (or_text (lookup "State" f.status) "unknown");
      name = or_text (lookup "Name" f.status) (show pid);
      cpu_percent =
          cpu_percent h.cpu_count c.uptime_ms (field_number 11 fields + field_number 12 fields)
            start_ticks;
      memory_bytes = rss;
      memory_percent = memory_percent rss c.total_memory;
      start_ticks = start_ticks;
      start_time =
          if start_ticks == 0 then none else some (h.iso_time (c.boot_epoch_ms + 10 * start_ticks));
      executable = h.read_link (concat ("/proc/" ∷ show pid ∷ "/exe" ∷ []));
      command_line = slice_to 4096 (h.redact_string (command_of pid f));
    }

-- a read that found its files goes on to the user's name
abbrev with_user :
    Host
    → ProcContext
    → ℕ
    → Files
    → Result Thrown String × Passwd
    → Result Thrown ProcRecord × Passwd
with_user h c pid f (err e, table) = (err e, table)
with_user h c pid f (ok user, table) = (ok (record_of h c pid f user), table)

unfoldable pub read : Host → Passwd → ProcContext → Bool → ℕ → Result Thrown ProcRecord × Passwd
read h table c aborted pid = elim (ensure_active aborted >> read_files h pid) [
  | err e ↦ (err e, table)
  | ok f ↦ with_user h c pid f (user h table (uid_of (lookup "Uid" f.status)))
]
