-- ===== src/Actions/Helper/Outcomes.antt =====
-- What an answer says of the restart: src/actions/helper.ts.
use agentv.Base.{
  ℕ, String, ◌≡◌, refl, ◌≢◌, ◌↔◌, ◌⊎◌, inl, inr, Bool, true, false, ◌∷◌, Option, none, some, arith,
  ap, ◌&&◌, if◌then◌else◌, Bool-cases, ◌==◌, string_eq, option_eq,
}
use agentv.Actions.Types.{RestartRequest, success, failed, unknown, ServiceState}
use agentv.Actions.Helper.{
  Phase, loading_capabilities, reading_before, putting_progress, restarting, reading_after,
  putting_final, pruning, reading_ledger, loading_policy, Helper, Response, Answer, receipt,
  refused, capabilities, failing, state, put_ok, put_error, command, pruned, prune_error,
  continue_with, outcome_of,
}

outcome_tests :
    (timeout finished active same : Bool)
    → ((if timeout
          then unknown
          else if finished && (active && (if same then false else true))
          then success
          else failed)
        ≡ success)
      ↔ ((timeout ≡ false) × (finished ≡ true) × (active ≡ true) × (same ≡ false))
outcome_tests timeout finished active same = ground arith

not_done : (job : String) → job ≡ "done" → (job == "timeout") ≡ false
not_done job e = ap (λ (j : String). j == "timeout") e

different : (a b : Option String) → a ≢ b → (a == b) ≡ false
different a b n = elim (Bool-cases (a == b)) [
  | inl same ↦ absurd (n ((option_eq.beq_iff a b).0 same))
  | inr other ↦ other
]

-- Success is claimed exactly if the command was done, the unit is active afterwards, and it runs
-- under another invocation than before.
pub outcome_success :
    (before : ServiceState) (after : Option ServiceState) (job : String)
    → (outcome_of before after job ≡ success) ↔ (
        (job ≡ "done")
        × ((a : ServiceState) × (after ≡ some a)
            × (a.active_state ≡ "active")
            × (a.invocation_id ≢ before.invocation_id)))
unfolding outcome_of
outcome_success before none job = ((λ h. cc), (λ h. cc))
outcome_success before (some a) job =
    let tests =
      outcome_tests (job == "timeout") (job == "done") (a.active_state == "active")
        (a.invocation_id == before.invocation_id) in
    (
      (λ h.
          let (t, f, g, i) = tests.0 h in
          (
            (string_eq.beq_iff job "done").0 f,
            (
              a,
              refl,
              (string_eq.beq_iff a.active_state "active").0 g,
              (λ e. cc (i, (option_eq.beq_iff a.invocation_id before.invocation_id).1 e)),
            ),
          )),
      (λ (d, (b, e, f, g)). tests.1 (
        not_done job d,
        (string_eq.beq_iff job "done").1 d,
        (string_eq.beq_iff a.active_state "active").1 (ground arith),
        different a.invocation_id before.invocation_id (λ eq. g (ground arith)),
      )),
    )

abbrev pub past_command : Phase → Bool
past_command (restarting w r) = true
past_command (reading_after w r job) = true
past_command (putting_final w r) = true
past_command (pruning w r) = true
past_command _ = false

-- An answer that does not hide that the restart may have happened.
abbrev pub IsHonest : Answer → Type 0
IsHonest (receipt r) = Unit {0}
IsHonest (refused e) = (e.code ≡ some "HOST_UNAVAILABLE") × (e.outcome ≡ some "unknown")
IsHonest (capabilities c) = ⊥

-- The request still waits for something that comes after the command, and has no reply.
abbrev pub StillWaits : ℕ → Helper → Helper → Type 0
StillWaits id before after =
    (after.replies ≡ before.replies)
    × ((q : Phase) × (after.tasks ≡ record { id = id; phase = q } ∷ before.tasks)
        × (past_command q ≡ true))

-- The request is over, with one honest answer, and leaves the critical section.
abbrev pub IsAnswered : ℕ → Helper → Helper → Type 0
IsAnswered id before after =
    (after.tasks ≡ before.tasks)
    × (after.busy ≡ false)
    × ((a : Answer) × (after.replies ≡ record { task = id; answer = a } ∷ before.replies)
        × IsHonest a)

-- Once the restart is commanded, whatever comes or fails next, the request goes on to wait for what comes
-- after the command, or it is answered, with a receipt or with an error whose outcome is unknown, and
-- leaves the critical section: no request is dropped without an answer.
pub continue_with-IsHonest :
    (hash : RestartRequest → String) (id : ℕ) (p : Phase) (x : Response) (h : Helper)
    → past_command p ≡ true
    → StillWaits id h (continue_with hash id p x h) ⊎ IsAnswered id h (continue_with hash id p x h)
unfolding continue_with
continue_with-IsHonest hash id loading_capabilities x h past = cc
continue_with-IsHonest hash id (loading_policy r) x h past = cc
continue_with-IsHonest hash id (reading_ledger r) x h past = cc
continue_with-IsHonest hash id (reading_before w) x h past = cc
continue_with-IsHonest hash id (putting_progress w r) x h past = cc
continue_with-IsHonest hash id (restarting w r) (command c) h past = inl (refl, (_, refl, refl))
continue_with-IsHonest hash id (reading_after w r job) (state after at) h past =
    inl (refl, (_, refl, refl))
continue_with-IsHonest hash id (putting_final w r) (put_error b e) h past =
    inr (refl, refl, (refused (failing e), refl, (refl, refl)))
continue_with-IsHonest hash id (putting_final w r) put_ok h past = inl (refl, (_, refl, refl))
continue_with-IsHonest hash id (pruning w r) (pruned ks) h past =
    inr (refl, refl, (receipt r, refl, tt))
continue_with-IsHonest hash id (pruning w r) (prune_error ks e) h past =
    inr (refl, refl, (refused (failing e), refl, (refl, refl)))
continue_with-IsHonest hash id p x h past = inl (refl, (p, refl, past))
