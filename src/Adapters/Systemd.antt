-- ===== src/Adapters/Systemd.antt =====
-- src/adapters/systemd.ts: service units, from the rows and the properties of systemctl.
pub mod RoundTrip
use Prim.Native.Char.{code}
use Prim.Native.String
use agentv.Base.{
  ℕ, ◌*◌, String, List, [], ◌∷◌, ◌++◌, map, Bool, true, false, not, ◌&&◌, ◌||◌, ◌==◌, Option, none,
  some, if◌then◌else◌, string_eq, nat_eq, option_eq, keep, length,
}
use agentv.Base.Result.{Result, ok, err, ◌>>=◌}
use agentv.Base.Scan.{split, cut_first, trim, word, skip_space, is_empty, has_text, number, or_zero}
use agentv.Base.Sort.{Sign, sort}
use agentv.Base.Table.{lookup, from_entries}
use agentv.Base.Text.{concat}
use agentv.Adapters.{CollectorHealth, Page, page, or_text, or_null, flat_map}
use agentv.Adapters.Command.{Platform, CommandResult, ExecOptions, run_command}
use agentv.Errors.{Thrown, tool, tool_error, resource_not_found}

-- A line with its first `=` behind a key.
abbrev pub property : String → List (String × String)
property line = elim (cut_first b'=' line) [
  | none ↦ []
  | some (key, value) ↦ if is_empty key then [] else (key, value) ∷ []
]

unfoldable pub properties : String → List (String × String)
properties text = from_entries (flat_map property (split 10 text))

pub record ServiceSummary : Type 0 where
  pub unit : String
  pub description : String
  pub load_state : String
  pub active_state : String
  pub sub_state : String

-- `.` does not match the end of a line.
abbrev is_line_end : ℕ → Bool
is_line_end c = c == 10 || c == 13 || c == 0x2028 || c == 0x2029

abbrev is_one_line : String → Bool
is_one_line String.[] = true
is_one_line (String.◌∷◌ c s) = not (is_line_end (code c)) && is_one_line s

-- `(\S+)\s+`: a word, and what follows it after white space
abbrev next_word : String → String × String
next_word s = let (w, rest) = word s in (w, skip_space rest)

-- `/^(\S+)\s+(\S+)\s+(\S+)\s+(\S+)\s*(.*)$/` on a trimmed line
abbrev parse_unit : String → List ServiceSummary
parse_unit line =
    let (unit, s) = next_word line in
    let (load, s) = next_word s in
    let (active, s) = next_word s in
    let (sub, description) = next_word s in
    if is_empty sub || not (is_one_line description)
    then []
    else record {
      unit = unit;
      description = description;
      load_state = load;
      active_state = active;
      sub_state = sub;
    }
      ∷ []

unfoldable pub parse_systemd_units : String → List ServiceSummary
parse_systemd_units text = flat_map (λ line. parse_unit (trim line)) (split 10 text)

pub record ServicesInput : Type 0 where
  pub state : String
  pub query : Option String
  pub limit : ℕ

abbrev pub in_state : String → ServiceSummary → Bool
in_state state item = state == "all" || item.active_state == state

abbrev pub matches_query : Platform → Option String → ServiceSummary → Bool
matches_query p none item = true
matches_query p (some query) item =
    is_empty query
    || has_text (p.lower_case query)
        (p.lower_case (concat (item.unit ∷ " " ∷ item.description ∷ [])))

unfoldable pub matching : Platform → ServicesInput → List ServiceSummary → List ServiceSummary
matching p input items =
    sort (λ a b. p.locale_compare a.unit b.unit)
      (keep (matches_query p input.query) (keep (in_state input.state) items))

unfoldable pub list :
    Platform → ServicesInput → Result Thrown (Page ServiceSummary × CollectorHealth)
list p input = do
  result ←
      run_command p "/bin/systemctl"
        ("list-units" ∷ "--type=service" ∷ "--all" ∷ "--no-legend" ∷ "--no-pager" ∷ "--plain" ∷ [])
        (record { timeout_ms = 8000; max_bytes = 2 * 1024 * 1024 })
  ok (
    page input.limit (matching p input (parse_systemd_units result.stdout)),
    record { collector = "systemd"; status = "ok"; message = none },
  )

pub record RestartPreconditions : Type 0 where
  pub active_state : String
  pub sub_state : String
  pub invocation_id : Option String

pub record ServiceDetail : Type 0 where
  pub summary : ServiceSummary
  pub unit_file_state : Option String
  pub main_pid : Option ℕ
  pub result : Option String
  pub exec_main_status : Option ℕ
  pub restart_count : ℕ
  pub invocation_id : Option String
  pub fragment_path : Option String
  pub active_enter_timestamp : Option String
  pub inactive_enter_timestamp : Option String
  pub restart_preconditions : RestartPreconditions

abbrev keys : List String
keys =
    "Id" ∷ "Description" ∷ "LoadState" ∷ "ActiveState" ∷ "SubState" ∷ "UnitFileState" ∷ "MainPID"
    ∷ "Result" ∷ "ExecMainStatus" ∷ "NRestarts" ∷ "InvocationID" ∷ "FragmentPath"
    ∷ "ActiveEnterTimestamp" ∷ "InactiveEnterTimestamp" ∷ []

-- `Number(x)`, with `none` for `NaN`, which is sent as `null`
abbrev number_of : Option String → Option ℕ
number_of none = none
number_of (some s) = number s

-- `Number(x) || null`
abbrev positive : Option ℕ → Option ℕ
positive none = none
positive (some n) = if n == 0 then none else some n

abbrev exit_status : Option String → Option ℕ
exit_status x = if x == some "" then none else number_of x

unfoldable pub detail_of : List (String × String) → ServiceDetail
detail_of value =
    let active = or_text (lookup "ActiveState" value) "unknown" in
    let sub = or_text (lookup "SubState" value) "unknown" in
    let invocation = or_null (lookup "InvocationID" value) in
    record {
      summary = record {
        unit = or_text (lookup "Id" value) "";
        description = or_text (lookup "Description" value) "";
        load_state = or_text (lookup "LoadState" value) "unknown";
        active_state = active;
        sub_state = sub;
      };
      unit_file_state = or_null (lookup "UnitFileState" value);
      main_pid = positive (number_of (lookup "MainPID" value));
      result = or_null (lookup "Result" value);
      exec_main_status = exit_status (lookup "ExecMainStatus" value);
      restart_count = or_zero (number_of (lookup "NRestarts" value));
      invocation_id = invocation;
      fragment_path = or_null (lookup "FragmentPath" value);
      active_enter_timestamp = or_null (lookup "ActiveEnterTimestamp" value);
      inactive_enter_timestamp = or_null (lookup "InactiveEnterTimestamp" value);
      restart_preconditions = record {
        active_state = active;
        sub_state = sub;
        invocation_id = invocation;
      };
    }

abbrev pub is_missing : List (String × String) → Bool
is_missing value =
    is_empty (or_text (lookup "Id" value) "") || lookup "LoadState" value == some "not-found"

abbrev pub detail_or_missing : String → List (String × String) → Result Thrown ServiceDetail
detail_or_missing unit value =
    if is_missing value
    then err
        (tool (tool_error resource_not_found (concat ("Service " ∷ unit ∷ " was not found" ∷ []))))
    else ok (detail_of value)

unfoldable pub get : Platform → String → Result Thrown ServiceDetail
get p unit = do
  result ←
      run_command p "/bin/systemctl"
        ("show" ∷ unit ∷ "--no-pager" ∷ map (λ key. concat ("--property=" ∷ key ∷ [])) keys)
        (record { timeout_ms = 8000; max_bytes = 256 * 1024 })
  detail_or_missing unit (properties result.stdout)
