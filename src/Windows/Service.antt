-- ===== src/Windows/Service.antt =====
-- src/windows-service-entry.ts: `runWindowsServiceEntry`, which takes START and STOP from its input and
-- bounds the life of the runtime. An event runs one callback with what it settles: once `done` has
-- settled, the input's listeners are off before the next event.
pub mod Variables
pub mod Settings
pub mod ReadOnly
pub mod Protocol
pub mod Input
use agentv.Base.{
  ℕ, zero, suc, ◌+◌, String, List, [], ◌∷◌, ◌++◌, Bool, true, false, not, ◌&&◌, ◌||◌, ◌==◌, Option,
  none, some, if◌then◌else◌, string_eq, nat_eq, all, contains, length, ltb, leb,
}
use agentv.Base.Json.{Value, Fields, text, obj, get, keys}
use agentv.Base.Result.{Result, ok, err}
use agentv.Base.Scan.{drop, is_empty}
use agentv.Base.Text.{codes, size, all_codes, is_digit}

pub record Launch : Type 0 where
  pub launch_id : String
  pub config_sha256 : String
  pub state_directory : String

pub data Command : Type 0 where
  start_command : String → Launch → Command
  stop_command : Command

-- `JSON.parse` of a line in UTF-8, the UUIDs of zod and `win32.isAbsolute`.
pub record Codec : Type 0 where
  pub parse_json : List ℕ → Option Value
  pub is_uuid : String → Bool
  pub is_absolute : String → Bool

-- `/^[a-f0-9]{64}$/`
abbrev is_sha256 : String → Bool
is_sha256 s = all_codes (λ c. is_digit c || (leb 97 c && leb c 102)) (codes s) && size s == 64

-- `strict()`
abbrev pub has_only : List String → Fields → Bool
has_only names fs = all (λ k. contains names k) (keys fs)

abbrev launch_of : Codec → Option Value → Option Value → Option Value → Option Launch
launch_of c (some (text id)) (some (text sha)) (some (text directory)) =
    if c.is_uuid id && is_sha256 sha && leb (size directory) 1024 && c.is_absolute directory
    then some (record { launch_id = id; config_sha256 = sha; state_directory = directory })
    else none
launch_of c _ _ _ = none

abbrev read_launch : Codec → Option Value → Option Launch
read_launch c (some (obj fs)) =
    if has_only ("launchId" ∷ "configSha256" ∷ "stateDirectory" ∷ []) fs
    then launch_of c (get "launchId" fs) (get "configSha256" fs) (get "stateDirectory" fs)
    else none
read_launch c _ = none

abbrev start_of : Option Value → Option Launch → Option Command
start_of (some (text directory)) (some launch) =
    if not (is_empty directory) && leb (size directory) 1024
    then some (start_command directory launch)
    else none
start_of _ _ = none

abbrev command_of : Codec → Fields → Option Value → Option Command
command_of c fs (some (text name)) =
    if name == "START"
    then if has_only ("command" ∷ "trustedSystemDirectory" ∷ "launch" ∷ []) fs
      then start_of (get "trustedSystemDirectory" fs) (read_launch c (get "launch" fs))
      else none
    else if name == "STOP" && has_only ("command" ∷ []) fs
    then some stop_command
    else none
command_of c fs _ = none

-- `commandSchema`
unfoldable pub read_command : Codec → Option Value → Option Command
read_command c (some (obj fs)) = command_of c fs (get "command" fs)
read_command c _ = none

-- `stopping`, with its timer while it waits for the runtime.
pub data Stopping : Type 0 where
  not_stopping waiting stopped : Stopping

pub data Timer : Type 0 where
  no_timer start_deadline startup_deadline : Timer

-- `starting` says that a call of `start` has not settled; `starts` are those calls.
pub record ServiceEntry : Type 0 where
  pub buffer : List ℕ
  pub input_bytes : ℕ
  pub started : Bool
  pub stop_requested : Bool
  pub handle : Bool
  pub starting : Bool
  pub starts : List (String × Launch)
  pub stopping : Stopping
  pub start_timer : Timer
  pub done : Option (Result String Unit)
  pub listening : Bool

unfoldable pub create : ServiceEntry
create = record {
  buffer = [];
  input_bytes = 0;
  started = false;
  stop_requested = false;
  handle = false;
  starting = false;
  starts = [];
  stopping = not_stopping;
  start_timer = start_deadline;
  done = none;
  listening = true;
}

-- `resolveDone` and `rejectDone`: the first one counts.
abbrev first_of : Option (Result String Unit) → Result String Unit → Option (Result String Unit)
first_of none r = some r
first_of (some first) r = some first

abbrev pub settle : Result String Unit → ServiceEntry → ServiceEntry
settle r e = record e { done = first_of e.done r }

abbrev begin_stop : Stopping → Stopping
begin_stop not_stopping = waiting
begin_stop s = s

unfoldable pub bounded_stop : ServiceEntry → ServiceEntry
bounded_stop e = record e { stopping = if e.handle then begin_stop e.stopping else e.stopping }

unfoldable pub request_stop : ServiceEntry → ServiceEntry
request_stop e =
    let d = record e { stop_requested = true } in
    if d.handle then bounded_stop d else if not d.started then settle (ok tt) d else d

unfoldable pub fail : ServiceEntry → ServiceEntry
fail e = request_stop (settle (err "Invalid Windows service control protocol") e)

abbrev pub start : String → Launch → ServiceEntry → ServiceEntry
start directory launch e = record e {
  started = true;
  start_timer = startup_deadline;
  starting = true;
  starts = e.starts ++ (directory, launch) ∷ [];
}

-- What a line asks for, and whether the loop goes on.
unfoldable pub on_command : Option Command → ServiceEntry → Bool × ServiceEntry
on_command none e = (false, fail e)
on_command (some stop_command) e = (true, request_stop e)
on_command (some (start_command directory launch)) e =
    if e.started || e.stop_requested then (false, fail e) else (true, start directory launch e)

-- The buffer up to its first newline, and after it.
abbrev pub cut_line : List ℕ → Option (List ℕ × List ℕ)
cut_line [] = none
cut_line (b ∷ bs) =
    let rest = cut_line bs in
    if b == 10
    then some ([], bs)
    else elim rest [ none ↦ none | some (line, after) ↦ some (b ∷ line, after) ]

abbrev pub line_limit : ℕ
line_limit = 4096

-- One round of the loop on the buffer, and whether it goes on.
unfoldable pub next_line : Codec → ServiceEntry → Bool × ServiceEntry
next_line c e = elim (cut_line e.buffer) [
  | none ↦ (false, if ltb line_limit (length e.buffer) then fail e else e)
  | some (line, after) ↦
      if ltb line_limit (length line)
      then (false, fail e)
      else on_command (read_command c (c.parse_json line)) (record e { buffer = after })
]

-- On fuel: a round that goes on takes a newline at least.
unfoldable pub consume : Codec → ℕ → ServiceEntry → ServiceEntry
consume c zero e = e
consume c (suc n) e =
    let (goes_on, d) = next_line c e in elim goes_on [ false ↦ d | true ↦ consume c n d ]

abbrev pub input_limit : ℕ
input_limit = 8192

unfoldable pub on_data : Codec → List ℕ → ServiceEntry → ServiceEntry
on_data c chunk e =
    let d = record e { input_bytes = e.input_bytes + length chunk } in
    if ltb input_limit d.input_bytes
    then fail d
    else consume c (suc (length (d.buffer ++ chunk))) (record d { buffer = d.buffer ++ chunk })

unfoldable pub on_end : ServiceEntry → ServiceEntry
on_end e = if not e.started || ltb 0 (length e.buffer) then fail e else request_stop e

unfoldable pub on_timer : ServiceEntry → ServiceEntry
on_timer e = elim e.start_timer [
  | no_timer ↦ e
  | start_deadline ↦
      settle (err "Windows service START deadline exceeded") (record e { start_timer = no_timer })
  | startup_deadline ↦
      settle (err "Windows runtime startup deadline exceeded")
        (record e { start_timer = no_timer; stop_requested = true })
]

-- The call of `start` returned a runtime.
unfoldable pub on_started : ServiceEntry → ServiceEntry
on_started e =
    let d = record e { starting = false; start_timer = no_timer; handle = true } in
    if d.stop_requested then bounded_stop d else d

unfoldable pub on_start_failed : ServiceEntry → ServiceEntry
on_start_failed e = settle (err "Windows runtime startup failed") (record e { starting = false })

-- `handle.stop()` returned, or it failed or its deadline passed.
unfoldable pub on_stopped : Bool → ServiceEntry → ServiceEntry
on_stopped fine e =
    settle (if fine then ok tt else err "Windows runtime shutdown failed")
      (record e { stopping = stopped })

pub data Event : Type 0 where
  input_data : List ℕ → Event
  input_end input_error timer_fired started start_failed : Event
  stop_settled : Bool → Event

abbrev pub is_waiting : Stopping → Bool
is_waiting waiting = true
is_waiting _ = false

-- Nothing comes from an input that is not listened to, nor from a call that is not under way.
unfoldable pub handle_event : Codec → Event → ServiceEntry → ServiceEntry
handle_event c (input_data chunk) e = if e.listening then on_data c chunk e else e
handle_event c input_end e = if e.listening then on_end e else e
handle_event c input_error e = if e.listening then fail e else e
handle_event c timer_fired e = on_timer e
handle_event c started e = if e.starting then on_started e else e
handle_event c start_failed e = if e.starting then on_start_failed e else e
handle_event c (stop_settled fine) e = if is_waiting e.stopping then on_stopped fine e else e

-- The `finally` after `await done`.
unfoldable pub finish : ServiceEntry → ServiceEntry
finish e = elim e.done [
  | none ↦ e
  | some _ ↦ record e { listening = false; start_timer = no_timer }
]

unfoldable pub step : Codec → ServiceEntry → Event → ServiceEntry
step c e event = finish (handle_event c event e)

unfoldable pub run : Codec → ServiceEntry → List Event → ServiceEntry
run c e [] = e
run c e (event ∷ events) = run c (step c e event) events
