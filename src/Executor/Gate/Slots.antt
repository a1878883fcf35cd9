-- ===== src/Executor/Gate/Slots.antt =====
-- What each operation of a gate does to the lengths that the bounds are about, and to the timers.
use mathlib.Core.List.{
  Perm, erase-cons-head, erase-cons-tail, cons-perm_iff_perm-erase, perm_middle, append-nil,
  reverse, reverse-cons,
}
use mathlib.Core.List.Perm
use native.Mathlib.Decide.{ℕ_discrete}
use agentv.Base.{
  ℕ, suc, ◌+◌, ◌-◌, ◌≤◌, ◌<◌, ◌≡◌, refl, sym, ◌∙◌, ap, subst, ◌⊎◌, inl, inr, List, [], ◌∷◌, ◌++◌,
  Option, none, some, arith, length, length-append, Bool-cases, contains, true, Option-cases, ◌==◌,
  nat_eq,
}
use agentv.Executor.Gate.{
  Call, clear_timer, leave, QueueBudget, Gate, Acquired, granted, queued, acquire, release,
  take_call, without_call, queue_timeout, cancel_from, cancel_generation,
}

unfoldable pub ids : List Call → List ℕ
ids [] = []
ids (c ∷ cs) = c.id ∷ ids cs

-- A gate between two callbacks, with `holders` calls that have acquired it and not released it.
pub record IsGate (g : Gate) (holders : ℕ) : Type 0 where
  pub active_exact : g.active ≡ holders
  pub active_capped : g.active ≤ g.concurrency
  pub full_if_queued : 0 < length g.queue → g.active ≡ g.concurrency
  pub timers_exact : g.timers ≡ ids g.queue

List-cases {ℓ} :
    {A : Type ℓ} (xs : List A) → (xs ≡ []) ⊎ ((x : A) × (rest : List A) × (xs ≡ x ∷ rest))
List-cases [] = inl refl
List-cases (x ∷ xs) = inr (x, xs, refl)

ids-append : (xs ys : List Call) → ids (xs ++ ys) ≡ ids xs ++ ids ys
unfolding ids
ids-append [] ys = refl
ids-append (x ∷ xs) ys = ap (◌∷◌ x.id) (ids-append xs ys)

abbrev pub granted_count : Acquired → ℕ
granted_count granted = 1
granted_count _ = 0

abbrev pub queued_count : Acquired → ℕ
queued_count queued = 1
queued_count _ = 0

module _ (c : Call) (g : Gate) (b : QueueBudget) (n : ℕ) where
  pub acquire-IsGate : IsGate g n → IsGate (acquire c g b).1 (n + granted_count (acquire c g b).0)
  unfolding acquire ids
  acquire-IsGate v = ground (arith, length-append g.queue (c ∷ []), ids-append g.queue (c ∷ []))

  pub acquire_counts :
      (length (acquire c g b).1.queue ≡ length g.queue + queued_count (acquire c g b).0)
      × ((acquire c g b).2.queued ≡ b.queued + queued_count (acquire c g b).0)
      × ((acquire c g b).2.limit ≡ b.limit)
      × ((acquire c g b).1.concurrency ≡ g.concurrency)
      × (b.queued ≤ b.limit → (acquire c g b).2.queued ≤ b.limit)
  unfolding acquire
  acquire_counts = ground (arith, length-append g.queue (c ∷ []))

abbrev pub resolved_count : Option Call → ℕ
resolved_count none = 0
resolved_count (some c) = 1

module _ (g : Gate) (b : QueueBudget) where
  release_cases {ℓ} :
      (P : Option Call → Gate → QueueBudget → Type ℓ)
      → (g.queue ≡ [] → P none (record g { active = g.active - 1 }) b)
      → ((c : Call) (rest : List Call)
          → g.queue ≡ c ∷ rest
          → P (some c) (record g { queue = rest; timers = clear_timer c.id g.timers }) (leave b))
      → P (release g b).0 (release g b).1 (release g b).2
  unfolding release
  release_cases P idle next = elim (List-cases g.queue) [
    | inl e ↦ rw (e, release) (idle e)
    | inr (c, rest, e) ↦ rw (e, release) (next c rest e)
  ]

  pub release-IsGate :
      (n : ℕ) → IsGate g (suc n) → IsGate (release g b).1 (n + resolved_count (release g b).0)
  unfolding ids
  release-IsGate n v =
      release_cases (λ r g' b'. IsGate g' (n + resolved_count r)) (λ e. ground arith)
        (λ c rest e. ground (arith, erase-cons-head ℕ_discrete c.id (ids rest)))

  pub release_counts :
      length g.queue ≤ b.queued
      → (length (release g b).1.queue + resolved_count (release g b).0 ≡ length g.queue)
        × ((release g b).2.queued + resolved_count (release g b).0 ≡ b.queued)
        × ((release g b).2.limit ≡ b.limit)
        × ((release g b).1.concurrency ≡ g.concurrency)
  release_counts h =
      release_cases
        (λ r g' b'.
          (length g'.queue + resolved_count r ≡ length g.queue)
          × (b'.queued + resolved_count r ≡ b.queued)
          × (b'.limit ≡ b.limit)
          × (g'.concurrency ≡ g.concurrency))
        (λ e. ground arith) (λ c rest e. ground arith)

erase-cons-head' : (a b : ℕ) (l : List ℕ) → b ≡ a → clear_timer a (b ∷ l) ≡ l
erase-cons-head' a b l e = subst (λ x. clear_timer x (b ∷ l) ≡ l) e (erase-cons-head ℕ_discrete b l)

-- What `take_call` takes out.
pub take_call-length :
    (id : ℕ) (cs : List Call) (c : Call) (rest : List Call)
    → take_call id cs ≡ some (c, rest)
    → (length cs ≡ suc (length rest)) × (c.id ≡ id)
unfolding take_call
take_call-length id [] c rest h = cc
take_call-length id (d ∷ ds) c rest h = elim (Bool-cases (d.id == id)) [
  | inl e ↦ ground arith
  | inr e ↦ elim (Option-cases (take_call id ds)) [
    | inl missing ↦ ground arith
    | inr ((x, xs), found) ↦ ground (arith, take_call-length id ds x xs found)
  ]
]

pub length-without_call-le : (id : ℕ) (cs : List Call) → length (without_call id cs) ≤ length cs
length-without_call-le id cs = elim (Option-cases (take_call id cs)) [
  | inl missing ↦ ground arith
  | inr ((x, xs), found) ↦ ground (arith, take_call-length id cs x xs found)
]

pub ids-without_call :
    (id : ℕ) (cs : List Call) → ids (without_call id cs) ≡ clear_timer id (ids cs)
unfolding take_call ids
ids-without_call id [] = refl
ids-without_call id (d ∷ ds) = elim (ℕ_discrete d.id id) [
  | yes e ↦ rw (erase-cons-head' id d.id (ids ds) e) (ground arith)
  | no n ↦ rw (erase-cons-tail ℕ_discrete (ids ds) n) (elim (Option-cases (take_call id ds)) [
    | inl missing ↦ ground (arith, ids-without_call id ds)
    | inr ((x, xs), found) ↦ ground (arith, ids-without_call id ds)
  ])
]

-- A timer that fires finds its item.
length-without_call :
    (id : ℕ) (cs : List Call)
    → contains (ids cs) id ≡ true
    → length cs ≡ suc (length (without_call id cs))
unfolding take_call ids
length-without_call id [] h = cc
length-without_call id (d ∷ ds) h = elim (Bool-cases (d.id == id)) [
  | inl e ↦ ground arith
  | inr e ↦ elim (Option-cases (take_call id ds)) [
    | inl missing ↦ ground (arith, length-without_call id ds)
    | inr ((x, xs), found) ↦ ground (arith, length-without_call id ds)
  ]
]

pub queue_timeout-IsGate :
    (id : ℕ) (g : Gate) (b : QueueBudget) (n : ℕ) → IsGate g n → IsGate (queue_timeout id g b).0 n
unfolding queue_timeout
queue_timeout-IsGate id g b n v =
    ground (arith, ids-without_call id g.queue, length-without_call-le id g.queue)

pub queue_timeout_counts :
    (id : ℕ) (g : Gate) (b : QueueBudget)
    → g.timers ≡ ids g.queue
    → contains g.timers id ≡ true
    → length g.queue ≤ b.queued
    → (suc (length (queue_timeout id g b).0.queue) ≡ length g.queue)
      × (suc (queue_timeout id g b).1.queued ≡ b.queued)
      × ((queue_timeout id g b).1.limit ≡ b.limit)
      × ((queue_timeout id g b).0.concurrency ≡ g.concurrency)
unfolding queue_timeout
queue_timeout_counts id g b e h l = ground (arith, length-without_call id g.queue)

cancel_from-timers :
    (cs : List Call) (ts us : List ℕ) (b : QueueBudget)
    → Perm ts (ids cs ++ us)
    → Perm (cancel_from none cs ts b).timers us
unfolding cancel_from ids
cancel_from-timers [] ts us b p = p
cancel_from-timers (c ∷ cs) ts us b p =
    Perm.symm
      ((cons-perm_iff_perm-erase ℕ_discrete).0 (
        Perm.symm (
          cancel_from-timers cs ts (c.id ∷ us) b
            (Perm.trans p (Perm.symm (perm_middle (ids cs) us)))))).1

cancel_from_counts :
    (cs : List Call) (ts : List ℕ) (b : QueueBudget)
    → length cs ≤ b.queued
    → ((cancel_from none cs ts b).kept ≡ [])
      × (length (cancel_from none cs ts b).rejected ≡ length cs)
      × ((cancel_from none cs ts b).budget.queued + length cs ≡ b.queued)
      × ((cancel_from none cs ts b).budget.limit ≡ b.limit)
unfolding cancel_from
cancel_from_counts [] ts b h = (refl, refl, omega arith, refl)
cancel_from_counts (c ∷ cs) ts b h =
    ground (
      arith,
      cancel_from_counts cs ts b,
      length-append (cancel_from none cs ts b).rejected (c ∷ []),
    )

cancel_from-rejected :
    (cs : List Call) (ts : List ℕ) (b : QueueBudget)
    → (cancel_from none cs ts b).rejected ≡ reverse cs
unfolding cancel_from
cancel_from-rejected [] ts b = refl
cancel_from-rejected (c ∷ cs) ts b =
    ap (λ r. r ++ c ∷ []) (cancel_from-rejected cs ts b) ∙ sym (reverse-cons c cs)

module _ (g : Gate) (b : QueueBudget) where
  pub rejected-cancel : (cancel_generation none g b).0 ≡ reverse g.queue
  unfolding cancel_generation
  rejected-cancel = cancel_from-rejected g.queue g.timers b

  pub cancel-IsGate :
      (n : ℕ) → IsGate g n → length g.queue ≤ b.queued → IsGate (cancel_generation none g b).1 n
  unfolding cancel_generation ids
  cancel-IsGate n v h = ground (
    arith,
    cancel_from_counts g.queue g.timers b,
    Perm.eq-nil (
        cancel_from-timers g.queue g.timers [] b
          (rw (append-nil, ← v.timers_exact) (Perm.refl g.timers))),
  )

  pub cancel_counts :
      length g.queue ≤ b.queued
      → (length (cancel_generation none g b).1.queue ≡ 0)
        × (length (cancel_generation none g b).0 ≡ length g.queue)
        × ((cancel_generation none g b).2.queued + length g.queue ≡ b.queued)
        × ((cancel_generation none g b).2.limit ≡ b.limit)
        × ((cancel_generation none g b).1.concurrency ≡ g.concurrency)
  unfolding cancel_generation
  cancel_counts h = ground (arith, cancel_from_counts g.queue g.timers b)
