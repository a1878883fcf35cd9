-- ===== src/Examples/Collectors.antt =====
-- Runs of src/adapters.
use agentv.Base.{
  ◌+◌, ◌≡◌, refl, String, true, false, List, [], ◌∷◌, none, some, ◌==◌, string_eq, if◌then◌else◌,
  length,
}
use agentv.Base.Json.{text, obj, field, end}
use agentv.Base.Result.{Result, ok, err}
use agentv.Base.Sort.{same, less}
use agentv.Base.Table.{from_entries}
use agentv.Base.Text.{size}
use agentv.Adapters.{page}
use agentv.Adapters.Command.{Platform, ExecOutcome, CommandResult}
use agentv.Adapters.Command
use agentv.Adapters.Filesystems
use agentv.Adapters.Journal
use agentv.Adapters.Journal.{Codec, LogEntry, LogsInput, Parsed, parse_journal_output, journal_args}
use agentv.Adapters.Journal.Bounds.{IsBounded, parse_journal_output-IsBounded}
use agentv.Adapters.Journal.Query.{IsQuery, journal_args-IsScoped}
use agentv.Adapters.Journal.Scope.{flags_of, read_flags, read_flags-journal_args}
use agentv.Adapters.Procfs.{Host, ProcContext, ProcRecord, context, user}
use agentv.Adapters.Procfs
use agentv.Adapters.Procfs.Answer.{list_exact}
use agentv.Adapters.Procfs.Exact.{IsCurrent, unread, readable, unreadable, user_name, user_refines}
use agentv.Adapters.Procfs.Listing
use agentv.Adapters.Procfs.Listing.{ProcessesInput, health_of, matching}
use agentv.Adapters.Rows.{IsMountPage, mounted, list_filesystems-IsPage}
use agentv.Adapters.Systemd.{properties}
use agentv.Adapters.Systemd.RoundTrip.{print, properties-print}
use agentv.Errors.{Thrown, other}

abbrev proc_file : String → Result Thrown String
proc_file path =
    if path == "/proc/uptime"
    then ok "100.00 50.00"
    else if path == "/proc/meminfo"
    then ok "MemTotal:  1000 kB\n"
    else if path == "/etc/passwd"
    then ok "root:x:0:0:root:/root:/bin/sh\n"
    else if path == "/proc/7/status"
    then ok "Name:\tsh\nUid:\t0\t0\t0\t0\nVmRSS:\t 10 kB\n"
    else if path == "/proc/7/stat"
    then ok "7 (s h) S 1 7 7 0 -1 4 0 0 0 0 250 50 0 0 20 0 1 0 7000 0"
    else err (other "ENOENT")

abbrev host : Host
host = record {
  list_pids = ok (7 ∷ 9 ∷ []);
  read_text = proc_file;
  read_buffer = λ path. ok "sh\0-c\0";
  read_link = λ path. some "/bin/sh";
  cpu_count = 2;
  now = 1000000;
  iso_time = λ ms. "1970-01-01T00:16:10.000Z";
  lower_case = λ s. s;
  redact_string = λ s. s;
}

abbrev proc_context : ProcContext
proc_context = record { uptime_ms = 100000; total_memory = some 1024000; boot_epoch_ms = 900000 }

abbrev by_cpu : ProcessesInput
by_cpu = record { sort_by = "cpu"; order = "desc"; user = some "root"; query = none; limit = 10 }

-- one process is read, the other has gone
one_is_lost :
    (length (readable host proc_context (7 ∷ 9 ∷ [])) ≡ 1)
    × (unreadable host proc_context (7 ∷ 9 ∷ []) ≡ 1)
unfolding Procfs.read_files Procfs.parse_proc_status Procfs.passwd_table Procfs.name_of
one_is_lost = (refl, refl)

list_exact_example :
    (Listing.list host none false (λ i. false) by_cpu
      ≡ ok (
        page 10 (matching host by_cpu (readable host proc_context (7 ∷ 9 ∷ []))),
        health_of (unreadable host proc_context (7 ∷ 9 ∷ [])),
      ))
    × (length (readable host proc_context (7 ∷ 9 ∷ [])) + unreadable host proc_context (7 ∷ 9 ∷ [])
        ≡ 2)
unfolding context Procfs.ensure_active Procfs.parse_proc_status
list_exact_example =
    list_exact host none false (λ i. false) by_cpu (7 ∷ 9 ∷ []) proc_context unread refl refl
      (λ i. refl)

user_refines_example :
    ((user host none (some 0)).0 ≡ user_name host (some 0))
    × IsCurrent host ((user host none (some 0)).1)
user_refines_example = user_refines host none (some 0) unread

root_is_named : (user host none (some 0)).0 ≡ ok "root"
unfolding user Procfs.passwd_table Procfs.name_of
root_is_named = refl

abbrev journal_line : String
journal_line = "{\"MESSAGE\":\"started\"}"

abbrev codec : Codec
codec = record {
  parse_json = λ line.
      if line == journal_line then some (obj (field "MESSAGE" (text "started") end)) else none;
  to_number = λ v. v;
  to_text = λ v. "started";
  iso_time = λ v. ok "1970-01-01T00:00:00.000Z";
  entry_bytes = λ e. 100 + size e.message;
  compare_texts = λ a b. if a == b then same else less;
  redact_string = λ s. s;
}

abbrev log_entry : LogEntry
log_entry = record {
  cursor = none;
  timestamp = "1970-01-01T00:00:00.000Z";
  priority = none;
  unit = none;
  pid = none;
  identifier = none;
  message = "started";
}

abbrev two_lines : Parsed
two_lines = record {
  entries = log_entry ∷ [];
  parsed_count = 2;
  invalid_count = 1;
  byte_count = 107;
}

parse_journal_output-IsBounded_example :
    IsBounded codec "{\"MESSAGE\":\"started\"}\nnothing\n{\"MESSAGE\":\"started\"}\n" 10 200
      two_lines
unfolding parse_journal_output Journal.entry_of
parse_journal_output-IsBounded_example =
    parse_journal_output-IsBounded codec
      "{\"MESSAGE\":\"started\"}\nnothing\n{\"MESSAGE\":\"started\"}\n" 10 200 two_lines refl

abbrev logs_input : LogsInput
logs_input = record {
  unit = some "nginx.service";
  priority = some 3;
  since = some "--unit";
  until = none;
  query = some "a.b";
  cursor = none;
  limit = 100;
  byte_limit = 4096;
}

abbrev nginx_args : List String
nginx_args =
    "--output=json" ∷ "--no-pager" ∷ "--reverse" ∷ "--lines" ∷ "101" ∷ "--unit" ∷ "nginx.service"
    ∷ "--priority" ∷ "3" ∷ "--since" ∷ "--unit" ∷ "--grep" ∷ "a\\.b" ∷ []

journal_args-IsScoped_example : IsQuery ("nginx.service" ∷ []) logs_input nginx_args
unfolding journal_args
journal_args-IsScoped_example =
    journal_args-IsScoped codec ("nginx.service" ∷ []) logs_input nginx_args refl

read_flags-journal_args_example :
    read_flags nginx_args ≡ some (flags_of codec ("nginx.service" ∷ []) logs_input)
unfolding journal_args
read_flags-journal_args_example =
    read_flags-journal_args codec ("nginx.service" ∷ []) logs_input nginx_args refl

abbrev shown_properties : List (String × String)
shown_properties = ("Id", "nginx.service") ∷ ("Description", "a = b") ∷ ("MainPID", "42") ∷ []

properties-print_example : properties (print shown_properties) ≡ from_entries shown_properties
properties-print_example = properties-print shown_properties refl

abbrev df_output : ExecOutcome
df_output = record {
  error = none;
  stdout =
      "Filesystem Type Size Used Avail Use% Mounted on\n/dev/sda1 ext4 1000 900 100 90% /\nproc proc 0 0 0 - /proc\n";
  stderr = "";
}

abbrev platform : Platform
platform = record {
  is_executable = λ path. true;
  exec_file = λ path args options. df_output;
  lower_case = λ s. s;
  locale_compare = λ a b. if a == b then same else less;
  redact_string = λ s. s;
}

abbrev all_mounts : Filesystems.FilesystemsInput
all_mounts = record { mount = none; include_pseudo = false; limit = 5 }

abbrev root_filesystem : Filesystems.FilesystemSummary
root_filesystem = record {
  filesystem = "/dev/sda1";
  mount = "/";
  kind = "ext4";
  total_bytes = 1000;
  used_bytes = 900;
  free_bytes = 100;
  used_percent = 90;
  inode_used_percent = some 90;
  read_only = true;
}

abbrev root_listing : Filesystems.Listing
root_listing = record {
  page = record { items = root_filesystem ∷ []; original_count = 1; omitted_count = 0 };
  truncated = false;
  health = record { collector = "filesystems"; status = "ok"; message = none };
}

abbrev root_mounts : Result Thrown String
root_mounts = ok "1 0 8:1 / / ro,relatime shared:1 - ext4 /dev/sda1 ro\n"

list_filesystems-IsPage_example :
    (bytes : CommandResult) × (inodes : CommandResult) × (mounts : String) × (Filesystems.df
        platform "-B1"
      ≡ ok bytes)
    × (Filesystems.df platform "-i" ≡ ok inodes)
    × (root_mounts ≡ ok mounts)
    × IsMountPage platform all_mounts
        (mounted platform bytes.stdout inodes.stdout mounts)
        root_listing
unfolding Filesystems.list Filesystems.listing_of Filesystems.matching Filesystems.summary_of
    Command.run_command Filesystems.parse_filesystem_output Filesystems.read_only_mounts
list_filesystems-IsPage_example =
    list_filesystems-IsPage platform root_mounts all_mounts root_listing refl
