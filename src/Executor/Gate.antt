-- ===== src/Executor/Gate.antt =====
-- src/tools/executor.ts, `QueueBudget` and `Gate`: a bounded number of calls run, a bounded number
-- wait, and the read gate and the write gate share the budget of the waiting ones.
pub mod Slots
use mathlib.Core.List.{erase}
use native.Mathlib.Decide.{ℕ_discrete}
use agentv.Base.{
  ℕ, ◌+◌, ◌-◌, String, Bool, true, false, List, [], ◌∷◌, ◌++◌, Option, none, some, ltb, leb, ◌==◌,
  if◌then◌else◌, nat_eq,
}
use agentv.Registry.{ToolCapability}

-- One run of `execute`, from its call of `acquire` on. `id` names the run's promises and timers.
pub record Call : Type 0 where
  pub id : ℕ
  pub name : String
  pub capability : ToolCapability
  pub generation : ℕ
  pub operation_id : String

pub record QueueBudget : Type 0 where
  pub queued : ℕ
  pub limit : ℕ

-- `queued` is never 0 where the program calls `leave` (`Slots`), so `-` is exact.
abbrev pub leave : QueueBudget → QueueBudget
leave b = record b { queued = b.queued - 1 }

-- `timers` holds the queued items whose `setTimeout` has not fired and was not cleared.
pub record Gate : Type 0 where
  pub concurrency : ℕ
  pub active : ℕ
  pub queue : List Call
  pub timers : List ℕ

abbrev pub clear_timer : ℕ → List ℕ → List ℕ
clear_timer id ts = erase ℕ_discrete ts id

pub data Acquired : Type 0 where
  granted queued busy : Acquired

-- The part of `acquire` up to its `await`.
unfoldable pub acquire : Call → Gate → QueueBudget → Acquired × Gate × QueueBudget
acquire c g b =
    if ltb g.active g.concurrency
    then (granted, record g { active = g.active + 1 }, b)
    else if leb b.limit b.queued
    then (busy, g, b)
    else (
      queued,
      record g { queue = g.queue ++ c ∷ []; timers = g.timers ++ c.id ∷ [] },
      record b { queued = b.queued + 1 },
    )

-- `release`, with the call whose `acquire` it resolves.
unfoldable pub release : Gate → QueueBudget → Option Call × Gate × QueueBudget
release g b = elim g.queue [
  | [] ↦ (none, record g { active = g.active - 1 }, b)
  | c ∷ rest ↦ (some c, record g { queue = rest; timers = clear_timer c.id g.timers }, leave b)
]

-- Takes the first call with this id out of a list; `indexOf` and `splice` of a queue.
unfoldable pub take_call : ℕ → List Call → Option (Call × List Call)
take_call id [] = none
take_call id (c ∷ cs) =
    let rest = take_call id cs in
    if c.id == id then some (c, cs) else elim rest [ none ↦ none | some (d, ds) ↦ some (d, c ∷ ds) ]

abbrev pub without_call : ℕ → List Call → List Call
without_call id cs = elim (take_call id cs) [ none ↦ cs | some (_, rest) ↦ rest ]

-- The callback of an item's timer. It runs only while the timer is armed.
unfoldable pub queue_timeout : ℕ → Gate → QueueBudget → Gate × QueueBudget
queue_timeout id g b =
    (record g { queue = without_call id g.queue; timers = clear_timer id g.timers }, leave b)

abbrev matches : Option ℕ → Call → Bool
matches none c = true
matches (some g) c = c.generation == g

pub record Cancelled : Type 0 where
  pub rejected : List Call
  pub kept : List Call
  pub timers : List ℕ
  pub budget : QueueBudget

-- The loop of `cancelGeneration`, from the last item to the first.
unfoldable pub cancel_from : Option ℕ → List Call → List ℕ → QueueBudget → Cancelled
cancel_from gen [] ts b = record { rejected = []; kept = []; timers = ts; budget = b }
cancel_from gen (c ∷ cs) ts b =
    let after = cancel_from gen cs ts b in
    if matches gen c
    then record {
      rejected = after.rejected ++ c ∷ [];
      kept = after.kept;
      timers = clear_timer c.id after.timers;
      budget = leave after.budget;
    }
    else record after { kept = c ∷ after.kept }

unfoldable pub cancel_generation : Option ℕ → Gate → QueueBudget → List Call × Gate × QueueBudget
cancel_generation gen g b =
    let out = cancel_from gen g.queue g.timers b in
    (out.rejected, record g { queue = out.kept; timers = out.timers }, out.budget)
