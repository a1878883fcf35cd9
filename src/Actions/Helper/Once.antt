-- ===== src/Actions/Helper/Once.antt =====
-- An operation id is commanded at most once: src/actions/helper.ts.
use agentv.Base.{
  ℕ, ◌+◌, ◌≤◌, ◌<◌, String, ◌≡◌, refl, inl, inr, Bool, false, List, [], ◌∷◌, Option, none, some,
  arith, ◌==◌, string_eq, nat_eq, if◌then◌else◌, contains, Option-cases,
}
use agentv.Base.Json.{Value, obj}
use agentv.Actions.Types.{RestartRequest}
use agentv.Actions.Helper.{
  Work, Phase, loading_capabilities, reading_ledger, reading_before, putting_progress, Task, Helper,
  Response, pruned, prune_error, Event, receive, respond, receive_request, continue_with,
  after_ledger, take_task, step, run,
}
use agentv.Actions.Helper.Exclusion.{
  inside, insiders, flag, IsExclusive, insiders-take_task, step-IsExclusive,
}

-- How often an operation id was commanded.
unfoldable pub times : String → List String → ℕ
times op [] = 0
times op (o ∷ os) = (if o == op then 1 else 0) + times op os

abbrev pub same_op : String → Work → ℕ
same_op op w = if w.request.operation_id == op then 1 else 0

-- 1 for a request with the id that is inside and has not commanded its restart.
abbrev pub early : String → Phase → ℕ
early op (reading_before w) = same_op op w
early op (putting_progress w r) = same_op op w
early op _ = 0

pub earlies : String → List Task → ℕ
earlies op [] = 0
earlies op (t ∷ ts) = early op t.phase + earlies op ts

early-le-inside : (op : String) (p : Phase) → early op p ≤ inside p
early-le-inside op (reading_before w) = ground arith
early-le-inside op _ = ground arith

earlies-le-insiders : (op : String) (ts : List Task) → earlies op ts ≤ insiders ts
unfolding earlies insiders
earlies-le-insiders op [] = omega arith
earlies-le-insiders op (t ∷ ts) =
    omega (arith, earlies-le-insiders op ts, early-le-inside op t.phase)

earlies-take_task :
    (op : String) (id : ℕ) (ts : List Task) (t : Task) (rest : List Task)
    → take_task id ts ≡ some (t, rest)
    → earlies op ts ≡ early op t.phase + earlies op rest
unfolding earlies take_task
earlies-take_task op id [] t rest e = cc
earlies-take_task op id (u ∷ us) t rest e = elim (Option-cases (take_task id us)) [
  | inl n ↦ ground arith
  | inr ((x, xs), f) ↦ ground (arith, earlies-take_task op id us x xs f)
]

-- What is known of the id: it was commanded at most once, the ledger remembers it, and no request
-- that could command it is on its way.
pub record AtMostOnce (op : String) (h : Helper) : Type 0 where
  pub exclusive : IsExclusive h
  pub once : times op h.restarts ≤ 1
  pub remembered : h.ledger op ≡ none → times op h.restarts ≡ 0
  pub unique : 0 < earlies op h.tasks → times op h.restarts ≡ 0

abbrev pub response_drops : String → Response → Bool
response_drops op (pruned ks) = contains ks op
response_drops op (prune_error ks e) = contains ks op
response_drops op _ = false

-- Whether the event prunes the ledger's record of the id.
abbrev pub drops : String → Event → Bool
drops op (receive id line) = false
drops op (respond id x) = response_drops op x

continue_with-AtMostOnce :
    (op : String) (hash : RestartRequest → String) (id : ℕ) (p : Phase) (x : Response) (h : Helper)
    → response_drops op x ≡ false
    → inside p + insiders h.tasks ≡ flag h.busy
    → times op h.restarts ≤ 1
    → (h.ledger op ≡ none → times op h.restarts ≡ 0)
    → (0 < early op p + earlies op h.tasks → times op h.restarts ≡ 0)
    → let h' = continue_with hash id p x h in
      (times op h'.restarts ≤ 1)
      × (h'.ledger op ≡ none → times op h'.restarts ≡ 0)
      × (0 < earlies op h'.tasks → times op h'.restarts ≡ 0)
unfolding insiders earlies times continue_with after_ledger
continue_with-AtMostOnce op hash id loading_capabilities x h d v a b c = ground arith
continue_with-AtMostOnce op hash id (reading_ledger r) x h d v a b c =
    ground (arith, string_eq.beq_iff r.operation_id op)
continue_with-AtMostOnce op hash id (putting_progress w r) x h d v a b c =
    ground (arith, string_eq.beq_iff w.request.operation_id op, earlies-le-insiders op h.tasks)
continue_with-AtMostOnce op hash id _ x h d v a b c = ground arith

receive_keeps :
    (op : String) (id : ℕ) (line : Option Value) (h : Helper)
    → let h' = receive_request id line h in
      (h'.restarts ≡ h.restarts)
      × (h'.ledger ≡ h.ledger)
      × (earlies op h'.tasks ≡ earlies op h.tasks)
unfolding earlies receive_request
receive_keeps op id none h = (refl, refl, refl)
receive_keeps op id (some (obj fs)) h = ground arith
receive_keeps op id (some _) h = (refl, refl, refl)

step-AtMostOnce :
    (op : String) (hash : RestartRequest → String) (h : Helper) (e : Event)
    → drops op e ≡ false
    → AtMostOnce op h
    → AtMostOnce op (step hash h e)
unfolding step
step-AtMostOnce op hash h (receive id line) d v =
    ground
      (arith, step-IsExclusive hash h (receive id line) v.exclusive, receive_keeps op id line h)
step-AtMostOnce op hash h (respond id x) d v = elim (Option-cases (take_task id h.tasks)) [
  | inl n ↦ rw (n, step) v
  | inr ((t, rest), f) ↦
      let (a, b, c) =
        continue_with-AtMostOnce op hash id t.phase x (record h { tasks = rest }) d
          (omega (arith, insiders-take_task id h.tasks t rest f, v.exclusive)) v.once v.remembered
          (λ k. v.unique (omega (arith, earlies-take_task op id h.tasks t rest f))) in
      let kept = step-IsExclusive hash h (respond id x) v.exclusive in
      rw (f, step)
        (record { exclusive = rw (f, step) at kept; once = a; remembered = b; unique = c })
]

-- The events among which none prunes the record of the id.
abbrev pub Keeps : String → List Event → Type 0
Keeps op [] = Unit {0}
Keeps op (e ∷ es) = (drops op e ≡ false) × Keeps op es

run-AtMostOnce :
    (op : String) (hash : RestartRequest → String) (h : Helper) (es : List Event)
    → Keeps op es
    → AtMostOnce op h
    → AtMostOnce op (run hash h es)
unfolding run
run-AtMostOnce op hash h [] k v = v
run-AtMostOnce op hash h (e ∷ es) k v =
    run-AtMostOnce op hash (step hash h e) es k.1 (step-AtMostOnce op hash h e k.0 v)

-- From a helper with no request under way, in any interleaving of requests and of the answers of
-- systemd and of the disk, and as long as no prune drops the record of an operation id, the restart
-- of that id is commanded at most once; once it is, the ledger holds a record of it.
pub restarted_at_most_once :
    (op : String) (hash : RestartRequest → String) (h : Helper) (es : List Event)
    → h.tasks ≡ []
    → h.busy ≡ false
    → h.restarts ≡ []
    → Keeps op es
    → let h' = run hash h es in
      (times op h'.restarts ≤ 1) × (h'.ledger op ≡ none → times op h'.restarts ≡ 0)
unfolding times earlies insiders
restarted_at_most_once op hash h es tasks idle fresh k =
    let v = run-AtMostOnce op hash h es k (ground arith) in (v.once, v.remembered)
