-- ===== src/Adapters/Filesystems.antt =====
-- src/adapters/filesystems.ts: mounted filesystems, from the tables of df and the mounts of the kernel.
use agentv.Base.{
  ℕ, suc, ◌*◌, String, List, [], ◌∷◌, map, Bool, true, false, not, ◌&&◌, ◌||◌, ◌==◌, Option, none,
  some, if◌then◌else◌, string_eq, nat_eq, keep, contains, length, ltb,
}
use agentv.Base.Result.{Result, ok, ◌>>=◌}
use agentv.Base.Scan.{
  split, trim, words, at, drop, join, is_empty, number, or_zero, parse_int, strip,
}
use agentv.Base.Sort.{sort}
use agentv.Base.Table.{lookup, from_entries}
use agentv.Adapters.{CollectorHealth, Page, page, or_text, flat_map}
use agentv.Adapters.Command.{Platform, CommandResult, run_command}
use agentv.Errors.{Thrown}

pub record Usage : Type 0 where
  pub source : String
  pub kind : String
  pub total : ℕ
  pub used : ℕ
  pub free : ℕ
  pub percent : ℕ

pub record FilesystemSummary : Type 0 where
  pub filesystem : String
  pub mount : String
  pub kind : String
  pub total_bytes : ℕ
  pub used_bytes : ℕ
  pub free_bytes : ℕ
  pub used_percent : ℕ
  pub inode_used_percent : Option ℕ
  pub read_only : Bool

-- `replace(/\\040/g, ' ')`: the kernel writes a space so. `skip` characters belong to the last match.
abbrev is_escape : String → Bool
is_escape s = elim (strip "\\040" s) [ none ↦ false | some _ ↦ true ]

abbrev pub unescape_onto : ℕ → String → String
unescape_onto skip String.[] = ""
unescape_onto (suc skip) (String.◌∷◌ c s) = unescape_onto skip s
unescape_onto ℕ.zero (String.◌∷◌ c s) = elim (is_escape (String.◌∷◌ c s)) [
  | true ↦ String.◌∷◌ " " (unescape_onto 3 s)
  | false ↦ String.◌∷◌ c (unescape_onto 0 s)
]

abbrev pub unescape : String → String
unescape s = unescape_onto 0 s

abbrev count_of : String → ℕ
count_of s = or_zero (number s)

-- `Number.parseFloat(s) || 0` of a whole percentage, or of `-`
abbrev percent_of : String → ℕ
percent_of s = or_zero (parse_int s)

-- a row with seven fields or more; a mount may hold spaces
abbrev parse_fields : List String → List (String × Usage)
parse_fields (source ∷ kind ∷ total ∷ used ∷ free ∷ percent ∷ first ∷ others) =
    (
      unescape (join " " (first ∷ others)),
      record {
        source = source;
        kind = kind;
        total = count_of total;
        used = count_of used;
        free = count_of free;
        percent = percent_of percent;
      },
    )
    ∷ []
parse_fields _ = []

-- A later row of the same mount replaces the values of the earlier one.
unfoldable pub parse_filesystem_output : String → List (String × Usage)
parse_filesystem_output text =
    from_entries
      (flat_map (λ line. parse_fields (words (trim line))) (drop 1 (split 10 (trim text))))

-- The position of the separator, counted from `i`.
abbrev separator_at : ℕ → List String → Option ℕ
separator_at i [] = none
separator_at i (f ∷ fs) = let rest = separator_at (suc i) fs in if f == "-" then some i else rest

abbrev is_after_options : Option ℕ → Bool
is_after_options none = false
is_after_options (some separator) = ltb 5 separator

abbrev mount_options : List String → List String
mount_options fields = elim (at 5 fields) [ none ↦ [] | some options ↦ split b',' options ]

-- The mount of a line of `mountinfo` whose options say `ro`.
abbrev read_only_mount : String → List String
read_only_mount line =
    let fields = split 32 line in
    if is_after_options (separator_at 0 fields) && contains (mount_options fields) "ro"
    then unescape (or_text (at 4 fields) "") ∷ []
    else []

unfoldable pub read_only_mounts : String → List String
read_only_mounts mounts = flat_map read_only_mount (split 10 mounts)

abbrev pub pseudo : List String
pseudo =
    "autofs" ∷ "bpf" ∷ "cgroup" ∷ "cgroup2" ∷ "configfs" ∷ "debugfs" ∷ "devpts" ∷ "devtmpfs"
    ∷ "fusectl" ∷ "hugetlbfs" ∷ "mqueue" ∷ "proc" ∷ "pstore" ∷ "securityfs" ∷ "sysfs" ∷ "tracefs"
    ∷ []

pub record FilesystemsInput : Type 0 where
  pub mount : Option String
  pub include_pseudo : Bool
  pub limit : ℕ

abbrev inode_percent : Option Usage → Option ℕ
inode_percent none = none
inode_percent (some u) = some u.percent

unfoldable pub summary_of : List (String × Usage) → List String → String × Usage → FilesystemSummary
summary_of inodes read_only (mount, value) = record {
  filesystem = value.source;
  mount = mount;
  kind = value.kind;
  total_bytes = value.total;
  used_bytes = value.used;
  free_bytes = value.free;
  used_percent = value.percent;
  inode_used_percent = inode_percent (lookup mount inodes);
  read_only = contains read_only mount;
}

abbrev pub is_shown : Bool → FilesystemSummary → Bool
is_shown include_pseudo item = include_pseudo || not (contains pseudo item.kind)

abbrev pub same_mount : Option String → FilesystemSummary → Bool
same_mount none item = true
same_mount (some mount) item = is_empty mount || item.mount == mount

unfoldable pub matching :
    Platform → FilesystemsInput → List FilesystemSummary → List FilesystemSummary
matching p input items =
    sort (λ a b. p.locale_compare a.mount b.mount)
      (keep (same_mount input.mount) (keep (is_shown input.include_pseudo) items))

pub record Listing : Type 0 where
  pub page : Page FilesystemSummary
  pub truncated : Bool
  pub health : CollectorHealth

unfoldable pub listing_of : ℕ → List FilesystemSummary → Listing
listing_of limit items = record {
  page = page limit items;
  truncated = ltb limit (length items);
  health = record { collector = "filesystems"; status = "ok"; message = none };
}

abbrev pub df : Platform → String → Result Thrown CommandResult
df p unit =
    run_command p "/bin/df" ("-P" ∷ "-T" ∷ unit ∷ [])
      (record { timeout_ms = 5000; max_bytes = 1024 * 1024 })

-- `mount_info` is what reading `/proc/self/mountinfo` gives.
unfoldable pub list : Platform → Result Thrown String → FilesystemsInput → Result Thrown Listing
list p mount_info input = do
  bytes ← df p "-B1"
  inodes ← df p "-i"
  mounts ← mount_info
  let summary = summary_of (parse_filesystem_output inodes.stdout) (read_only_mounts mounts)
  ok (
      listing_of input.limit
        (matching p input (map summary (parse_filesystem_output bytes.stdout))))
