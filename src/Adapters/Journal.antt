-- ===== src/Adapters/Journal.antt =====
-- src/adapters/journal.ts: log entries of the allowed units, from the records of journalctl.
pub mod Bounds
pub mod Scope
pub mod Query
use Prim.Native.Char.{Char, code}
use Prim.Native.String
use agentv.Base.{
  ℕ, suc, ◌+◌, ◌*◌, min, max, String, List, [], ◌∷◌, ◌++◌, Bool, true, false, not, ◌&&◌, ◌||◌, ◌==◌,
  Option, none, some, if◌then◌else◌, string_eq, nat_eq, keep, contains, length, ltb, leb,
}
use agentv.Base.Decimal.{show}
use agentv.Base.Json.{Value, Fields, get, text, obj, truthy, nat, neg, frac}
use agentv.Base.Result.{Result, ok, err, ◌>>=◌, ◌>>◌, fail_if}
use agentv.Base.Scan.{split, is_empty, has_any_case}
use agentv.Base.Sort.{Sign, sort}
use agentv.Base.Text.{concat, size, slice_to, codes}
use agentv.Adapters.{CollectorHealth, or_text, or_null}
use agentv.Adapters.Command.{Platform, CommandResult, ExecOptions, run_command}
use agentv.Errors.{Thrown, tool, other, tool_error, permission_denied}

pub record LogEntry : Type 0 where
  pub cursor : Option String
  pub timestamp : String
  pub priority : Option Value
  pub unit : Option String
  pub pid : Option Value
  pub identifier : Option String
  pub message : String

-- `JSON.parse`, `Number(x)` with `none` for `NaN`, `String(x || '')`, `new Date(us / 1000).toISOString()`,
-- which throws outside the range of dates, the byte length of an entry's JSON, the order of `sort()` on
-- texts and `redactString`.
pub record Codec : Type 0 where
  pub parse_json : String → Option Value
  pub to_number : Option Value → Option Value
  pub to_text : Option Value → String
  pub iso_time : Value → Result Thrown String
  pub entry_bytes : LogEntry → ℕ
  pub compare_texts : String → String → Sign
  pub redact_string : String → String

abbrev text_or_null : Option Value → Option String
text_or_null (some (text s)) = some s
text_or_null _ = none

-- `Number.isInteger(n) ? n : null`
abbrev integer_or_null : Option Value → Option Value
integer_or_null (some (nat n)) = some (nat n)
integer_or_null (some (neg n)) = some (neg n)
integer_or_null _ = none

-- `n || null` and `n || 0`
abbrev number_or_null : Option Value → Option Value
number_or_null n = if truthy n then n else none

abbrev number_or_zero : Option Value → Value
number_or_zero none = nat 0
number_or_zero (some n) = n

-- The entry of a journal record.
unfoldable pub entry_of : Codec → Fields → Result Thrown LogEntry
entry_of c value = do
  timestamp ← c.iso_time (number_or_zero (c.to_number (get "__REALTIME_TIMESTAMP" value)))
  ok (record {
    cursor = text_or_null (get "__CURSOR" value);
    timestamp = timestamp;
    priority = integer_or_null (c.to_number (get "PRIORITY" value));
    unit = text_or_null (get "_SYSTEMD_UNIT" value);
    pid = number_or_null (c.to_number (get "_PID" value));
    identifier = text_or_null (get "SYSLOG_IDENTIFIER" value);
    message = slice_to (16 * 1024) (c.redact_string (c.to_text (get "MESSAGE" value)));
  })

-- The objects among the lines, and how many lines are none.
abbrev add_line : Option Value → List Fields × ℕ → List Fields × ℕ
add_line (some (obj fs)) (parsed, invalid) = (fs ∷ parsed, invalid)
add_line _ (parsed, invalid) = (parsed, suc invalid)

abbrev pub parse_lines : Codec → List String → List Fields × ℕ
parse_lines c [] = ([], 0)
parse_lines c (line ∷ lines) = add_line (c.parse_json line) (parse_lines c lines)

pub record Taken : Type 0 where
  pub entries : List LogEntry
  pub bytes : ℕ

-- The loop: it stops at the first entry that is too many or does not fit.
abbrev pub take_entries : Codec → ℕ → ℕ → List Fields → Taken → Result Thrown Taken
take_entries c limit byte_limit [] t = ok t
take_entries c limit byte_limit (value ∷ values) t = elim (entry_of c value) [
  | err e ↦ err e
  | ok entry ↦
      elim (leb limit (length t.entries) || ltb byte_limit (t.bytes + c.entry_bytes entry)) [
        | true ↦ ok t
        | false ↦
            take_entries c limit byte_limit values
              (record { entries = t.entries ++ entry ∷ []; bytes = t.bytes + c.entry_bytes entry })
      ]
]

pub record Parsed : Type 0 where
  pub entries : List LogEntry
  pub parsed_count : ℕ
  pub invalid_count : ℕ
  pub byte_count : ℕ

abbrev pub lines_of : String → List String
lines_of output = keep (λ line. not (is_empty line)) (split 10 output)

unfoldable pub parse_journal_output : Codec → String → ℕ → ℕ → Result Thrown Parsed
parse_journal_output c output limit byte_limit =
    let (parsed, invalid) = parse_lines c (lines_of output) in
    do
      taken ← take_entries c limit byte_limit parsed (record { entries = []; bytes = 0 })
      ok (record {
        entries = taken.entries;
        parsed_count = length parsed;
        invalid_count = invalid;
        byte_count = taken.bytes;
      })

pub record LogsInput : Type 0 where
  pub unit : Option String
  pub priority : Option ℕ
  pub since : Option String
  pub until : Option String
  pub query : Option String
  pub cursor : Option String
  pub limit : ℕ
  pub byte_limit : ℕ

-- The characters of `/[.*+?^${}()|[\]\\]/g`, each with a backslash in front.
abbrev is_special : ℕ → Bool
is_special c = contains (codes ".*+?^${}()|[]\\") c

abbrev pub escape_pattern : String → String
escape_pattern String.[] = ""
escape_pattern (String.◌∷◌ c s) =
    let rest = String.◌∷◌ c (escape_pattern s) in
    if is_special (code c) then String.◌∷◌ "\\" rest else rest

-- An option whose value is a text that is not empty.
abbrev pub option : String → Option String → List String
option flag none = []
option flag (some value) = if is_empty value then [] else flag ∷ value ∷ []

abbrev show_priority : Option ℕ → Option String
show_priority none = none
show_priority (some n) = some (show n)

abbrev escaped : Option String → Option String
escaped none = none
escaped (some query) = some (escape_pattern query)

abbrev pub unit_flags : List String → List String
unit_flags [] = []
unit_flags (unit ∷ units) = "--unit" ∷ unit ∷ unit_flags units

-- The unit asked for, or every allowed one.
abbrev pub scope : Codec → List String → Option String → List String
scope c allowed unit = elim (or_null unit) [ some u ↦ u ∷ [] | none ↦ sort c.compare_texts allowed ]

abbrev pub is_foreign : List String → Option String → Bool
is_foreign allowed unit = elim (or_null unit) [ none ↦ false | some u ↦ not (contains allowed u) ]

abbrev has_none : List String → Bool
has_none [] = true
has_none (_ ∷ _) = false

abbrev denied : String → Thrown
denied message = tool (tool_error permission_denied message)

unfoldable pub journal_args : Codec → List String → LogsInput → Result Thrown (List String)
journal_args c allowed input = do
  fail_if (has_none allowed) (denied "No journal units are locally allowed")
  fail_if (is_foreign allowed input.unit)
      (denied (concat ("Log unit is not locally allowed: " ∷ or_text input.unit "" ∷ [])))
  ok (
      "--output=json"
      ∷ "--no-pager"
      ∷ "--reverse"
      ∷ "--lines"
      ∷ show (min 1000 (input.limit + 1))
      ∷ (unit_flags (scope c allowed input.unit)
          ++ (option "--priority" (show_priority input.priority)
              ++ (option "--since" input.since
                  ++ (option "--until" input.until
                      ++ (option "--after-cursor" input.cursor
                          ++ option "--grep" (escaped input.query)))))))

pub record LogPage : Type 0 where
  pub entries : List LogEntry
  pub next_cursor : Option String
  pub returned_count : ℕ
  pub original_count : ℕ
  pub byte_count : ℕ
  pub truncated : Bool
  pub health : CollectorHealth

abbrev last_cursor : List LogEntry → Option String
last_cursor [] = none
last_cursor (e ∷ []) = or_null e.cursor
last_cursor (e ∷ es) = last_cursor es

abbrev is_unreadable : String → Bool
is_unreadable stderr =
    has_any_case "permission denied" stderr
    || has_any_case "no journal files were found" stderr
    || has_any_case "no journal files were opened" stderr

unfoldable pub page_of : Parsed → LogPage
page_of p = record {
  entries = p.entries;
  next_cursor = last_cursor p.entries;
  returned_count = length p.entries;
  original_count = p.parsed_count;
  byte_count = p.byte_count;
  truncated = ltb (length p.entries) p.parsed_count;
  health = record {
    collector = "journald";
    status = if p.invalid_count == 0 then "ok" else "partial";
    message =
        if p.invalid_count == 0
        then none
        else some (concat (show p.invalid_count ∷ " malformed journal record(s) omitted" ∷ []));
  };
}

unfoldable pub query : Platform → Codec → List String → LogsInput → Result Thrown LogPage
query p c allowed input = do
  args ← journal_args c allowed input
  result ← run_command p "/bin/journalctl" args (record {
    timeout_ms = 12000;
    max_bytes = min (2 * 1024 * 1024) (max (64 * 1024) (input.byte_limit * 2));
  })
  fail_if (is_unreadable result.stderr) (denied "Journald is not readable by the AgentV user")
  parsed ← parse_journal_output c result.stdout input.limit input.byte_limit
  ok (page_of parsed)
