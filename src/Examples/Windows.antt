-- ===== src/Examples/Windows.antt =====
-- Runs of src/windows.
use agentv.Base.{
  ℕ, ◌*◌, ◌≤◌, ◌≡◌, refl, String, true, false, List, [], ◌∷◌, Option, none, some, length, contains,
  string_eq,
}
use agentv.Base.Json.{text, bool, obj, arr, field, end, nil}
use agentv.Base.Result.{ok}
use agentv.Adapters.Sockets
use agentv.Windows.Live.{Host, Schema, WindowsQuery, WindowsList, WindowsService}
use agentv.Windows.Live.Services.{in_state, list_services}
use agentv.Windows.Live.Logs.{WindowsLogsInput, validate_log_input}
use agentv.Windows.Live.Services
use agentv.Windows.Live.Counts.{IsWindow, validate_log_input-IsWindow}
use agentv.Windows.Snapshot
use agentv.Windows.Snapshot.Recovery.{AllAccounted, complete_services}
use agentv.Windows.Runner
use agentv.Windows.Runner.{
  Codec, Child, ChildEvent, CollectorResult, spawned, stdout_data, stdin_finished, spawn, child_run,
  byte_limit, parse_collector_result, on_close,
}
use agentv.Windows.Runner.Answer.{on_close_complete}
use agentv.Windows.Runner.Calls
use agentv.Windows.Runner.Calls.{Runner, Event, Call, called, trust_checked, child_event}
use agentv.Windows.Runner.Output.{all_printed}
use agentv.Windows.Runner.Stopped.{IsStopped, stop-IsStopped}

abbrev codec : Codec
codec = record {
  encoded_script = λ script. some "AA==";
  to_json = λ input. "{}";
  byte_length = λ s. 2;
  decode = λ bytes. "output";
  parse_json = λ s. some (
      obj (
        field "items" (arr nil) (field "truncated" (bool false) (field "status" (text "ok") end))));
}

abbrev events : List ChildEvent
events = spawned ∷ stdin_finished ∷ stdout_data (123 ∷ []) ∷ stdout_data (125 ∷ []) ∷ []

abbrev no_rows : CollectorResult
no_rows = record { items = []; truncated = false; status = "ok" }

abbrev exit_code : Option ℕ
exit_code = some 0

on_close_complete_example :
    (exit_code ≡ some 0)
    × ((parse_collector_result codec (codec.decode (all_printed events)) ≡ ok no_rows)
        × (length (all_printed events) ≤ byte_limit))
unfolding on_close child_run Runner.child_step Runner.on_stdout Runner.on_spawn spawn
    parse_collector_result
on_close_complete_example = on_close_complete codec "host" exit_code events no_rows refl

abbrev call : ℕ → Call
call id = record { id = id; script = "host"; input = end }

-- one call has a process, another waits for the check of the path
abbrev working : Runner
working = record {
  stopping = false;
  starting = call 2 ∷ [];
  children = (call 1, spawn) ∷ [];
  answers = [];
}

abbrev later : List Event
later = trust_checked 2 true false ∷ called (call 3) false ∷ child_event 1 spawned ∷ []

stop-IsStopped_example : IsStopped 1 (Calls.run codec (Calls.stop working) later)
stop-IsStopped_example = stop-IsStopped codec working later

abbrev stopped_service : WindowsService
stopped_service = record {
  name = "W3SVC";
  display_name = "Web";
  state = some "Stopped";
  start_mode = some "Auto";
  process_id = none;
  exit_code = some 1067;
  service_specific_exit_code = some 5;
}

abbrev schema : {A : Type 0} → A → Schema A
schema a = record { read = λ v. some a; redact = λ a. a }

abbrev host : Host
host = record {
  run = λ id input. ok (record { items = text "" ∷ []; truncated = false; status = "ok" });
  lower_case = λ s. s;
  parse_date = λ s. some 100000000;
  iso_time = λ ms. "iso";
  entries_bytes = λ es. 0;
  hosts = schema (record { build = "20348"; facts = obj end });
  volumes = schema (obj end);
  processes = schema (record { pid = 4; name = "System"; facts = obj end });
  services = schema stopped_service;
  listeners =
      schema
        (record { protocol = Sockets.Protocol.tcp; address = "::"; port = 80; facts = obj end });
  logs = schema (record { channel = "System"; message = ""; facts = obj end });
}

abbrev logs_input : WindowsLogsInput
logs_input = record {
  channel = "System";
  since = none;
  until = some "1970-01-02T03:46:40Z";
  query = none;
  limit = 100;
  byte_limit = 4096;
}

abbrev channels : List String
channels = "System" ∷ []

abbrev window : String × String
window = ("iso", "iso")

validate_log_input-IsWindow_example :
    (contains channels "System" ≡ true)
    × (100 ≤ 500)
    × (4096 ≤ 1024 * 1024)
    × ((s : ℕ) × (u : ℕ) × (window ≡ ("iso", "iso")) × IsWindow 100000000 s u)
unfolding validate_log_input
validate_log_input-IsWindow_example =
    validate_log_input-IsWindow host channels 100000000 logs_input window refl

abbrev failed_services : WindowsQuery
failed_services = record { limit = 10; query = some "W3" }

abbrev failed_list : WindowsList WindowsService
failed_list = record {
  items = record stopped_service { service_specific_exit_code = none } ∷ [];
  original_count = 1;
  omitted_count = 0;
  health = record { collector = "windows_services"; status = "ok" };
}

abbrev failed_row : Snapshot.Service
failed_row = record { service = stopped_service; row = obj end }

abbrev service_section : Snapshot.Section Snapshot.Service
service_section = record {
  items = failed_row ∷ [];
  omitted_count = 0;
  status = "ok";
  health = obj end;
}

abbrev only_services : Snapshot.Collected
only_services = record {
  failures = ("windows_host", none) ∷ [];
  summary = none;
  volumes = none;
  services = some service_section;
  processes = none;
  listeners = none;
}

abbrev same_text : String → String
same_text s = s

abbrev no_bytes : Snapshot.WindowsSnapshot → ℕ
no_bytes s = 100

complete_services_example :
    (l : Snapshot.Section Snapshot.Service) × (only_services.services ≡ some l)
    × (l.status ≡ "ok")
    × (l.omitted_count ≡ 0)
    × AllAccounted same_text
        (Snapshot.shrink no_bytes 0 3
          (Snapshot.build_windows_snapshot same_text only_services)).findings
        l.items
unfolding Snapshot.shrink Snapshot.pop_one Snapshot.build_windows_snapshot Snapshot.failures_of
    Snapshot.is_service_known Services.is_failed_service
complete_services_example = complete_services same_text only_services no_bytes 0 3 refl
