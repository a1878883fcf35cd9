-- ===== src/Actions/Helper/Exclusion.antt =====
-- One restart at a time, and at most one for an operation id: src/actions/helper.ts.
use agentv.Base.{
  ℕ, ◌+◌, ◌≤◌, String, ◌≡◌, ◌↔◌, inl, inr, Bool, true, false, List, [], ◌∷◌, Option, none, some,
  arith, string_eq, nat_eq, Option-cases,
}
use agentv.Base.Json.{Value, obj}
use agentv.Actions.Types.{RestartRequest}
use agentv.Actions.Helper.{
  Phase, loading_capabilities, loading_policy, reading_ledger, reading_before, putting_progress,
  restarting, reading_after, putting_final, pruning, Task, Helper, Response, Event, receive,
  respond, receive_request, continue_with, after_ledger, take_task, step, run,
}

-- 1 while a request is in the section that `busy` guards.
abbrev pub inside : Phase → ℕ
inside loading_capabilities = 0
inside (loading_policy r) = 0
inside (reading_ledger r) = 0
inside (reading_before w) = 1
inside (putting_progress w r) = 1
inside (restarting w r) = 1
inside (reading_after w r job) = 1
inside (putting_final w r) = 1
inside (pruning w r) = 1

unfoldable pub insiders : List Task → ℕ
insiders [] = 0
insiders (t ∷ ts) = inside t.phase + insiders ts

abbrev pub flag : Bool → ℕ
flag true = 1
flag false = 0

-- `busy` is set exactly while one request is inside, and never are two.
abbrev pub IsExclusive : Helper → Type 0
IsExclusive h = insiders h.tasks ≡ flag h.busy

pub insiders-take_task :
    (id : ℕ) (ts : List Task) (t : Task) (rest : List Task)
    → take_task id ts ≡ some (t, rest)
    → insiders ts ≡ inside t.phase + insiders rest
unfolding insiders take_task
insiders-take_task id [] t rest e = cc
insiders-take_task id (u ∷ us) t rest e = elim (Option-cases (take_task id us)) [
  | inl n ↦ ground arith
  | inr ((x, xs), f) ↦ ground (arith, insiders-take_task id us x xs f)
]

receive_request-IsExclusive :
    (id : ℕ) (line : Option Value) (h : Helper)
    → IsExclusive h
    → IsExclusive (receive_request id line h)
unfolding insiders receive_request
receive_request-IsExclusive id none h v = v
receive_request-IsExclusive id (some (obj fs)) h v = ground arith
receive_request-IsExclusive id (some _) h v = v

continue_with-IsExclusive :
    (hash : RestartRequest → String) (id : ℕ) (p : Phase) (x : Response) (h : Helper)
    → inside p + insiders h.tasks ≡ flag h.busy
    → IsExclusive (continue_with hash id p x h)
unfolding insiders continue_with after_ledger
continue_with-IsExclusive hash id loading_capabilities x h v = ground arith
continue_with-IsExclusive hash id _ x h v = ground arith

pub step-IsExclusive :
    (hash : RestartRequest → String) (h : Helper) (e : Event)
    → IsExclusive h
    → IsExclusive (step hash h e)
unfolding step
step-IsExclusive hash h (receive id line) v = receive_request-IsExclusive id line h v
step-IsExclusive hash h (respond id x) v = elim (Option-cases (take_task id h.tasks)) [
  | inl n ↦ rw (n, step) v
  | inr ((t, rest), f) ↦
      rw (f, step)
        (continue_with-IsExclusive hash id t.phase x (record h { tasks = rest })
          (omega (arith, insiders-take_task id h.tasks t rest f)))
]

run-IsExclusive :
    (hash : RestartRequest → String) (h : Helper) (es : List Event)
    → IsExclusive h
    → IsExclusive (run hash h es)
unfolding run
run-IsExclusive hash h [] v = v
run-IsExclusive hash h (e ∷ es) v =
    run-IsExclusive hash (step hash h e) es (step-IsExclusive hash h e v)

-- From a helper with no request inside, whatever requests arrive and however their calls answer, at
-- most one request is between the busy test and its answer, and `busy` says whether one is.
pub one_inside :
    (hash : RestartRequest → String) (h : Helper) (es : List Event)
    → insiders h.tasks ≡ 0
    → h.busy ≡ false
    → let h' = run hash h es in
      (insiders h'.tasks ≤ 1) × ((h'.busy ≡ true) ↔ (insiders h'.tasks ≡ 1))
one_inside hash h es none_inside idle =
    let v = run-IsExclusive hash h es (ground arith) in ground (arith, v)
