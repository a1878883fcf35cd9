-- ===== src/Windows/Runner/Calls.antt =====
-- src/windows/runner.ts, `WindowsCollectorRunner`: its calls, each with one process, and `stop`. The
-- path that is trusted is checked by a parameter.
use agentv.Base.{
  ℕ, String, List, [], ◌∷◌, ◌++◌, map, Bool, true, false, not, ◌||◌, ◌==◌, Option, none, some,
  if◌then◌else◌, nat_eq,
}
use agentv.Base.Json.{Fields}
use agentv.Base.Result.{Result, ok, err}
use agentv.Errors.{Thrown, tool, tool_error, command_unavailable}
use agentv.Windows.Runner.{
  Codec, CollectorResult, collector_command, Child, ChildEvent, spawn, child_step, on_close,
  cancelled,
}

pub record Call : Type 0 where
  pub id : ℕ
  pub script : String
  pub input : Fields

-- `starting` are the calls before their process; `answers` are those that settled.
pub record Runner : Type 0 where
  pub stopping : Bool
  pub starting : List Call
  pub children : List (Call × Child)
  pub answers : List (ℕ × Result Thrown CollectorResult)

abbrev pub answer : ℕ → Result Thrown CollectorResult → Runner → Runner
answer id a r = record r { answers = r.answers ++ (id, a) ∷ [] }

abbrev pub cancel : ℕ → Runner → Runner
cancel id r = answer id (err (tool cancelled)) r

unfoldable pub run_call : Call → Bool → Runner → Runner
run_call c aborted r =
    if r.stopping || aborted then cancel c.id r else record r { starting = c ∷ r.starting }

-- the call of an id, and the others
abbrev pub take_call : ℕ → List Call → Option Call × List Call
take_call id [] = (none, [])
take_call id (c ∷ cs) =
    let (found, rest) = take_call id cs in if c.id == id then (some c, cs) else (found, c ∷ rest)

abbrev pub start_child : Codec → Call → Runner → Runner
start_child codec c r = elim (collector_command codec c.script c.input) [
  | err e ↦ answer c.id (err e) r
  | ok _ ↦ record r { children = (c, spawn) ∷ r.children }
]

abbrev pub go_on : Codec → Bool → Bool → Option Call → Runner → Runner
go_on codec trusted aborted none r = r
go_on codec trusted aborted (some c) r =
    if not trusted
    then answer c.id
        (err (
          tool (
            tool_error command_unavailable
              "Trusted Windows PowerShell path is unavailable or unsupported")))
        r
    else if r.stopping || aborted
    then cancel c.id r
    else start_child codec c r

-- After the check of the path.
unfoldable pub on_trusted : Codec → ℕ → Bool → Bool → Runner → Runner
on_trusted codec id trusted aborted r =
    let (found, rest) = take_call id r.starting in
    go_on codec trusted aborted found (record r { starting = rest })

abbrev pub update : ℕ → (Child → Child) → List (Call × Child) → List (Call × Child)
update id f [] = []
update id f ((c, child) ∷ cs) =
    let rest = update id f cs in if c.id == id then (c, f child) ∷ cs else (c, child) ∷ rest

abbrev pub take_child : ℕ → List (Call × Child) → Option (Call × Child) × List (Call × Child)
take_child id [] = (none, [])
take_child id ((c, child) ∷ cs) =
    let (found, rest) = take_child id cs in
    if c.id == id then (some (c, child), cs) else (found, (c, child) ∷ rest)

abbrev pub settle : Codec → Option ℕ → Option (Call × Child) → Runner → Runner
settle codec exit_code none r = r
settle codec exit_code (some (c, child)) r = answer c.id (on_close codec c.script exit_code child) r

unfoldable pub on_closed : Codec → ℕ → Option ℕ → Runner → Runner
on_closed codec id exit_code r =
    let (found, rest) = take_child id r.children in
    settle codec exit_code found (record r { children = rest })

abbrev pub end_child : Call × Child → Call × Child
end_child (c, child) = (c, record child { killed = true })

-- `stop`: it then waits until every process has closed.
unfoldable pub stop : Runner → Runner
stop r = record r { stopping = true; children = map end_child r.children }

pub data Event : Type 0 where
  called : Call → Bool → Event
  trust_checked : ℕ → Bool → Bool → Event
  child_event : ℕ → ChildEvent → Event
  closed : ℕ → Option ℕ → Event
  stop_called : Event

unfoldable pub step : Codec → Runner → Event → Runner
step codec r (called c aborted) = run_call c aborted r
step codec r (trust_checked id trusted aborted) = on_trusted codec id trusted aborted r
step codec r (child_event id e) = record r { children = update id (λ c. child_step c e) r.children }
step codec r (closed id exit_code) = on_closed codec id exit_code r
step codec r stop_called = stop r

unfoldable pub run : Codec → Runner → List Event → Runner
run codec r [] = r
run codec r (e ∷ es) = run codec (step codec r e) es

unfoldable pub create : Runner
create = record { stopping = false; starting = []; children = []; answers = [] }
