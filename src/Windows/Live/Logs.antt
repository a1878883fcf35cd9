-- ===== src/Windows/Live/Logs.antt =====
-- src/windows/live.ts and src/windows/log-input.ts: the queries of logs.
use agentv.Base.{
  ℕ, zero, suc, ◌+◌, ◌-◌, ◌*◌, String, List, [], ◌∷◌, Bool, true, not, ◌&&◌, ◌||◌, ◌==◌, Option,
  none, some, if◌then◌else◌, string_eq, nat_eq, option_eq, contains, keep, length, take, ltb,
}
use agentv.Base.Json.{Value, Fields, text, field, end}
use agentv.Base.Result.{Result, ok, ◌>>=◌, ◌>>◌, fail_if}
use agentv.Base.Scan.{is_empty}
use agentv.Errors.{Thrown, tool, tool_error, invalid_arguments, permission_denied}
use agentv.Windows.Live.{Health, WindowsList, WindowsLog, Host, collect, matches}

pub record WindowsLogsInput : Type 0 where
  pub channel : String
  pub since : Option String
  pub until : Option String
  pub query : Option String
  pub limit : ℕ
  pub byte_limit : ℕ

-- `none` is the value of a date that cannot be read.
abbrev pub date_or : Host → Option String → Option ℕ → Option ℕ
date_or h none fallback = fallback
date_or h (some s) fallback = if is_empty s then fallback else h.parse_date s

abbrev pub an_hour_before : Option ℕ → Option ℕ
an_hour_before none = none
an_hour_before (some ms) = some (ms - 3600000)

abbrev pub bad_window : ℕ → Option ℕ → Option ℕ → Bool
bad_window now (some since) (some until) =
    ltb until since || ltb 86400000 (until - since) || ltb (now + 60000) until
bad_window now _ _ = true

abbrev pub show_window : Host → Option ℕ → Option ℕ → String × String
show_window h (some since) (some until) = (h.iso_time since, h.iso_time until)
show_window h _ _ = ("", "")

unfoldable pub validate_log_input :
    Host → List String → ℕ → WindowsLogsInput → Result Thrown (String × String)
validate_log_input h channels now input =
    let until = date_or h input.until (some now) in
    let since = date_or h input.since (an_hour_before until) in
    do
      fail_if
          (not (contains ("Application" ∷ "System" ∷ []) input.channel)
            || not (contains channels input.channel))
          (tool (tool_error permission_denied "Log channel is not locally allowed"))
      fail_if (ltb input.limit 1 || ltb 500 input.limit)
          (tool (tool_error invalid_arguments "Windows log row limit is invalid"))
      fail_if (bad_window now since until) (
          tool (
            tool_error invalid_arguments
              "Windows logs require a valid window no larger than 24 hours"))
      fail_if (ltb input.byte_limit 1024 || ltb (1024 * 1024) input.byte_limit)
          (tool (tool_error invalid_arguments "Windows log byte limit is invalid"))
      ok (show_window h since until)

pub record WindowsLogs : Type 0 where
  pub entries : List WindowsLog
  pub returned_count : ℕ
  pub original_count : ℕ
  pub byte_count : ℕ
  pub truncated : Bool
  pub health : Health

-- `while (entries.length && bytes > limit) entries.pop()`, on the first `n` entries
abbrev pub pop_until_fits : Host → ℕ → ℕ → List WindowsLog → List WindowsLog
pop_until_fits h byte_limit zero entries = []
pop_until_fits h byte_limit (suc n) entries =
    let rest = pop_until_fits h byte_limit n entries in
    let kept = take (suc n) entries in if ltb byte_limit (h.entries_bytes kept) then rest else kept

abbrev pub is_entry : Host → WindowsLogsInput → WindowsLog → Bool
is_entry h input item =
    item.channel == input.channel && matches h input.query (λ (e : WindowsLog). e.message) item

unfoldable pub logs_of : Host → WindowsLogsInput → WindowsList WindowsLog → WindowsLogs
logs_of h input result =
    let filtered = keep (is_entry h input) result.items in
    let first_rows = take input.limit filtered in
    let entries = pop_until_fits h input.byte_limit (length first_rows) first_rows in
    record {
      entries = entries;
      returned_count = length entries;
      original_count = length filtered;
      byte_count = h.entries_bytes entries;
      truncated =
          ltb 0 result.omitted_count
          || ltb (length entries) (length filtered)
          || not (result.health.status == "ok");
      health = result.health;
    }

abbrev pub logs_request : WindowsLogsInput → String × String → Fields
logs_request input (since, until) = field "channel" (text input.channel) (
    field "since" (text since) (
      field "until" (text until) (
        field "limit" (Value.nat input.limit)
          (field "byte_limit" (Value.nat input.byte_limit) end))))

unfoldable pub query_logs : Host → List String → ℕ → WindowsLogsInput → Result Thrown WindowsLogs
query_logs h channels now input = do
  window ← validate_log_input h channels now input
  result ← collect h h.logs "events" 1000 (logs_request input window)
  ok (logs_of h input result)
