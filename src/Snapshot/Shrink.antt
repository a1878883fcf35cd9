-- ===== src/Snapshot/Shrink.antt =====
-- src/core/snapshot-manager.ts: the loop that drops optional rows until the snapshot fits.
use agentv.Base.{
  ℕ, zero, suc, ◌+◌, ◌≡◌, refl, Bool, true, false, List, [], ◌∷◌, Option, none, some, leb,
  if◌then◌else◌, length, arith,
}
use agentv.Metrics.{RuntimeCounters, Key, increment}
use agentv.Snapshot.Build.{Snapshot}

module _ {A : Type 0} where
  -- `pop`
  abbrev pub pop : List A → List A
  pop [] = []
  pop (x ∷ []) = []
  pop (x ∷ y ∷ ys) = x ∷ pop (y ∷ ys)

  pub length-pop : (x : A) (xs : List A) → suc (length (pop (x ∷ xs))) ≡ length (x ∷ xs)
  length-pop x [] = refl
  length-pop x (y ∷ ys) = omega (arith, length-pop y ys)

abbrev pop_processes : Snapshot → Snapshot
pop_processes s = record s {
  top_processes = pop s.top_processes;
  truncation = record s.truncation { processes = suc s.truncation.processes };
}

abbrev pop_listeners : Snapshot → Snapshot
pop_listeners s = record s {
  listeners = pop s.listeners;
  truncation = record s.truncation { listeners = suc s.truncation.listeners };
}

abbrev pop_filesystems : Snapshot → Snapshot
pop_filesystems s = record s {
  filesystems = pop s.filesystems;
  truncation = record s.truncation { filesystems = suc s.truncation.filesystems };
}

abbrev pop_services : Snapshot → Snapshot
pop_services s = record s {
  degraded_services = pop s.degraded_services;
  truncation = record s.truncation { services = suc s.truncation.services };
}

abbrev pub is_empty : {A : Type 0} → List A → Bool
is_empty [] = true
is_empty (x ∷ xs) = false

-- One round: the first optional section that has rows loses its last one.
unfoldable pub pop_one : Snapshot → Option Snapshot
pop_one s =
    if is_empty s.top_processes
    then if is_empty s.listeners
      then if is_empty s.filesystems
        then if is_empty s.degraded_services then none else some (pop_services s)
        else some (pop_filesystems s)
      else some (pop_listeners s)
    else some (pop_processes s)

-- `bytes` is the length of the JSON text.
unfoldable pub shrink :
    (Snapshot → ℕ) → ℕ → ℕ → Snapshot → RuntimeCounters → Snapshot × RuntimeCounters
shrink bytes budget zero s m = (s, m)
shrink bytes budget (suc fuel) s m = if leb (bytes s) budget then (s, m) else elim (pop_one s) [
  | none ↦ (s, m)
  | some t ↦ shrink bytes budget fuel t (increment Key.truncations m)
]

abbrev pub optional_rows : Snapshot → ℕ
optional_rows s =
    length s.top_processes + length s.listeners + length s.filesystems + length s.degraded_services
