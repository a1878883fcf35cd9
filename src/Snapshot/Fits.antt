-- ===== src/Snapshot/Fits.antt =====
-- src/core/snapshot-manager.ts: what the fitted snapshot has kept.
use agentv.Base.{
  ℕ, zero, suc, ◌+◌, ◌≤◌, ◌≡◌, ◌≢◌, ◌⊎◌, refl, inl, inr, List, [], ◌∷◌, none, some, leb, length,
  arith, Option-cases, Bool-cases, leb→le,
}
use agentv.Metrics.{RuntimeCounters, Key, increment}
use agentv.Snapshot.Build.{Snapshot}
use agentv.Snapshot.Shrink.{pop, length-pop, pop_one, shrink, optional_rows}

-- What dropping optional rows leaves as it is.
pub record Keeps (s t : Snapshot) : Type 0 where
  pub host : t.host_summary ≡ s.host_summary
  pub found : t.findings ≡ s.findings
  pub health : t.collector_health ≡ s.collector_health
  pub filesystem_coverage : t.filesystem_coverage ≡ s.filesystem_coverage
  pub service_coverage : t.service_coverage ≡ s.service_coverage
  pub processes :
      length t.top_processes + t.truncation.processes
      ≡ length s.top_processes + s.truncation.processes
  pub listeners :
      length t.listeners + t.truncation.listeners ≡ length s.listeners + s.truncation.listeners
  pub filesystems :
      length t.filesystems + t.truncation.filesystems
      ≡ length s.filesystems + s.truncation.filesystems
  pub services :
      length t.degraded_services + t.truncation.services
      ≡ length s.degraded_services + s.truncation.services

-- Filesystems and services are only dropped once no process and no listener is left.
pub record IsOrdered (s t : Snapshot) : Type 0 where
  pub listeners_after : t.truncation.listeners ≢ s.truncation.listeners → t.top_processes ≡ []
  pub filesystems_after :
      t.truncation.filesystems ≢ s.truncation.filesystems
      → (t.top_processes ≡ []) × (t.listeners ≡ [])
  pub services_after :
      t.truncation.services ≢ s.truncation.services
      → (t.top_processes ≡ []) × (t.listeners ≡ []) × (t.filesystems ≡ [])

lengths : {A : Type 0} (xs : List A) → suc (length (pop xs)) ≡ length xs ⊎ (xs ≡ [])
lengths [] = inr refl
lengths (x ∷ xs) = inl (length-pop x xs)

pop_one-Keeps :
    (s t : Snapshot) → pop_one s ≡ some t → Keeps s t × (suc (optional_rows t) ≡ optional_rows s)
unfolding pop_one
pop_one-Keeps s t e = ground (
  arith,
  lengths s.top_processes,
  lengths s.listeners,
  lengths s.filesystems,
  lengths s.degraded_services,
)

pop_one_empty : (s : Snapshot) → pop_one s ≡ none → optional_rows s ≡ 0
unfolding pop_one
pop_one_empty s e = ground arith

pop_one-IsOrdered : (s t u : Snapshot) → pop_one t ≡ some u → IsOrdered s t → IsOrdered s u
unfolding pop_one
pop_one-IsOrdered s t u e v = ground arith

shrink-IsOrdered :
    (bytes : Snapshot → ℕ) (budget fuel : ℕ) (s t : Snapshot) (m : RuntimeCounters)
    → IsOrdered s t
    → IsOrdered s (shrink bytes budget fuel t m).0
unfolding shrink
shrink-IsOrdered bytes budget zero s t m v = v
shrink-IsOrdered bytes budget (suc fuel) s t m v = elim (Bool-cases (leb (bytes t) budget)) [
  | inl fits ↦ rw (fits, shrink) v
  | inr big ↦ elim (Option-cases (pop_one t)) [
    | inl e ↦ rw (big, e, shrink) v
    | inr (u, e) ↦
        rw (big, e, shrink)
          (shrink-IsOrdered bytes budget fuel s u (increment Key.truncations m)
            (pop_one-IsOrdered s t u e v))
  ]
]

Keeps-trans : (s t u : Snapshot) → Keeps s t → Keeps t u → Keeps s u
Keeps-trans s t u v w = ground arith

shrink-Keeps :
    (bytes : Snapshot → ℕ) (budget fuel : ℕ) (s : Snapshot) (m : RuntimeCounters)
    → let r = shrink bytes budget fuel s m in
      Keeps s r.0 × (r.1.truncations + optional_rows r.0 ≡ m.truncations + optional_rows s)
unfolding shrink
shrink-Keeps bytes budget zero s m = ground arith
shrink-Keeps bytes budget (suc fuel) s m = elim (Bool-cases (leb (bytes s) budget)) [
  | inl fits ↦ rw (fits, shrink) (ground arith)
  | inr big ↦ elim (Option-cases (pop_one s)) [
    | inl e ↦ rw (big, e, shrink) (ground arith)
    | inr (u, e) ↦
        rw (big, e, shrink)
          (let (first, fewer) = pop_one-Keeps s u e in
            let (rest, counted) = shrink-Keeps bytes budget fuel u (increment Key.truncations m) in
            (Keeps-trans s u _ first rest, omega (arith, fewer, counted)))
  ]
]

-- The loop ends within as many rounds as there are optional rows, with a snapshot within the budget
-- or without optional rows.
pub shrink_fits :
    (bytes : Snapshot → ℕ) (budget fuel : ℕ) (s : Snapshot) (m : RuntimeCounters)
    → optional_rows s ≤ fuel
    → let t = (shrink bytes budget fuel s m).0 in (bytes t ≤ budget) ⊎ (optional_rows t ≡ 0)
unfolding shrink
shrink_fits bytes budget zero s m h = inr (omega (arith, h))
shrink_fits bytes budget (suc fuel) s m h = elim (Bool-cases (leb (bytes s) budget)) [
  | inl fits ↦ rw (fits, shrink) (inl (leb→le (bytes s) budget fits))
  | inr big ↦ elim (Option-cases (pop_one s)) [
    | inl e ↦ rw (big, e, shrink) (inr (pop_one_empty s e))
    | inr (u, e) ↦
        rw (big, e, shrink)
          (shrink_fits bytes budget fuel u (increment Key.truncations m)
            (omega (arith, h, pop_one-Keeps s u e)))
  ]
]

-- Fitting a snapshot keeps its findings, its host, its health and its coverage, each row is kept or
-- counted as truncated, each dropped row is counted by the metrics, and rows of a section are only
-- dropped once the sections before it are empty: processes, listeners, filesystems, services.
pub shrink_honest :
    (bytes : Snapshot → ℕ) (budget fuel : ℕ) (s : Snapshot) (m : RuntimeCounters)
    → let r = shrink bytes budget fuel s m in
      Keeps s r.0
      × IsOrdered s r.0
      × (r.1.truncations + optional_rows r.0 ≡ m.truncations + optional_rows s)
shrink_honest bytes budget fuel s m =
    let (kept, counted) = shrink-Keeps bytes budget fuel s m in
    (kept, shrink-IsOrdered bytes budget fuel s s m (ground arith), counted)
