-- ===== src/Windows/Snapshot/Recovery.antt =====
-- src/windows/snapshot.ts: what a complete coverage says, and what the loop keeps.
use mathlib.Core.List.{Memᴰ}
use mathlib.Core.List.Memᴰ
use agentv.Base.{
  ℕ, zero, suc, ◌+◌, ◌≤◌, ◌≡◌, refl, sym, subst, ◌∙◌, ◌⊎◌, inl, inr, String, Bool, true, false,
  Option, none, some, List, [], ◌∷◌, all, ltb, length, arith, Bool-cases, Option-cases, nat_eq,
  string_eq, and_inv,
}
use agentv.Base.Json.{Value}
use agentv.Redaction.{redact_value}
use agentv.Snapshot.Build.{complete}
use agentv.Snapshot.Findings.{keep-member}
use agentv.Snapshot.Shrink.{pop, length-pop, is_empty}
use agentv.Windows.Live.Services.{is_failed_service}
use agentv.Windows.Snapshot.{
  Collected, WindowsSnapshot, Section, Service, items_of, service_finding, memory_findings,
  volume_findings, is_failed, failures_of, findings_of, is_service_known, coverage_of,
  build_windows_snapshot, pop_one, optional_rows, shrink,
}

-- What dropping optional rows leaves as it is.
pub record Keeps (s t : WindowsSnapshot) : Type 0 where
  pub found : t.findings ≡ s.findings
  pub service_coverage : t.service_coverage ≡ s.service_coverage
  pub filesystem_coverage : t.filesystem_coverage ≡ s.filesystem_coverage
  pub processes :
      length t.top_processes + t.truncation.processes
      ≡ length s.top_processes + s.truncation.processes
  pub listeners :
      length t.listeners + t.truncation.listeners ≡ length s.listeners + s.truncation.listeners
  pub filesystems :
      length t.filesystems + t.truncation.filesystems
      ≡ length s.filesystems + s.truncation.filesystems
  pub services :
      length t.degraded_services + t.truncation.services
      ≡ length s.degraded_services + s.truncation.services

length-pop_some :
    {A : Type 0} (xs : List A) → is_empty xs ≡ false → suc (length (pop xs)) ≡ length xs
length-pop_some [] h = cc
length-pop_some (x ∷ xs) h = length-pop x xs

pop_one-Keeps :
    (s t : WindowsSnapshot)
    → pop_one s ≡ some t
    → Keeps s t × (suc (optional_rows t) ≡ optional_rows s)
unfolding pop_one
pop_one-Keeps s t e = ground (
  arith,
  length-pop_some s.top_processes,
  length-pop_some s.listeners,
  length-pop_some s.filesystems,
  length-pop_some s.degraded_services,
)

Keeps-trans : (s t u : WindowsSnapshot) → Keeps s t → Keeps t u → Keeps s u
Keeps-trans s t u v w = ground arith

shrink-Keeps :
    (bytes : WindowsSnapshot → ℕ) (budget fuel : ℕ) (s : WindowsSnapshot)
    → Keeps s (shrink bytes budget fuel s)
unfolding shrink
shrink-Keeps bytes budget zero s = ground arith
shrink-Keeps bytes budget (suc fuel) s = elim (Bool-cases (ltb budget (bytes s))) [
  | inr fits ↦ rw (fits, shrink) (ground arith)
  | inl big ↦ elim (Option-cases (pop_one s)) [
    | inl e ↦ rw (big, e, shrink) (ground arith)
    | inr (t, e) ↦
        rw (big, e, shrink)
          (Keeps-trans s t _ ((pop_one-Keeps s t e).0) (shrink-Keeps bytes budget fuel t))
  ]
]

pop_one_empty : (s : WindowsSnapshot) → pop_one s ≡ none → optional_rows s ≡ 0
unfolding pop_one
pop_one_empty s e = ground arith

-- The loop ends within as many rounds as there are optional rows, with a snapshot within the budget or
-- without optional rows.
pub shrink-fits :
    (bytes : WindowsSnapshot → ℕ) (budget fuel : ℕ) (s : WindowsSnapshot)
    → optional_rows s ≤ fuel
    → let t = shrink bytes budget fuel s in (bytes t ≤ budget) ⊎ (optional_rows t ≡ 0)
unfolding shrink
shrink-fits bytes budget zero s h = inr (omega (arith, h))
shrink-fits bytes budget (suc fuel) s h = elim (Bool-cases (ltb budget (bytes s))) [
  | inr fits ↦ rw (fits, shrink) (inl (ground arith))
  | inl big ↦ elim (Option-cases (pop_one s)) [
    | inl e ↦ rw (big, e, shrink) (inr (pop_one_empty s e))
    | inr (t, e) ↦
        rw (big, e, shrink)
          (shrink-fits bytes budget fuel t (omega (arith, h, (pop_one-Keeps s t e).1)))
  ]
]

complete_inv :
    {A : Type 0} (known : A → Bool) (o : Option (Section A))
    → coverage_of known o ≡ complete
    → (s : Section A) × (o ≡ some s)
      × (s.status ≡ "ok")
      × (s.omitted_count ≡ 0)
      × (all known s.items ≡ true)
complete_inv known none h = cc
complete_inv known (some s) h =
    (s, refl, ground (arith, string_eq.beq_iff s.status "ok"), ground arith, ground arith)

-- each service that failed is reported
failed-found :
    (redact_string : String → String) (c : Collected) (s : Service)
    → is_failed s ≡ true
    → Memᴰ s (items_of c.services)
    → Memᴰ
        (redact_value redact_string "" (service_finding s.service))
        (build_windows_snapshot redact_string c).findings
unfolding build_windows_snapshot findings_of failures_of
failed-found redact_string c s failed member =
    Memᴰ.map (λ (v : Value). redact_value redact_string "" v)
      (Memᴰ.append_left (volume_findings (items_of c.volumes)) (
        Memᴰ.append_left (memory_findings c.summary) (
          Memᴰ.map (λ (s : Service). service_finding s.service)
            (keep-member is_failed failed member))))

reported :
    (redact_string : String → String) (c : Collected) (s : Service) (findings : List Value)
    → (build_windows_snapshot redact_string c).findings ≡ findings
    → Memᴰ s (items_of c.services)
    → (is_failed_service s.service ≡ false)
      ⊎ Memᴰ (redact_value redact_string "" (service_finding s.service)) findings
reported redact_string c s findings same member = elim (Bool-cases (is_failed_service s.service)) [
  | inl failed ↦ inr (
      subst (Memᴰ (redact_value redact_string "" (service_finding s.service))) same
        (failed-found redact_string c s failed member))
  | inr fine ↦ inl fine
]

-- Each of these services is known well enough to tell, and did not fail or is among the findings.
abbrev pub AllAccounted : (String → String) → List Value → List Service → Type 0
AllAccounted redact_string findings [] = Unit
AllAccounted redact_string findings (s ∷ ss) =
    (is_service_known s.service ≡ true)
    × ((is_failed_service s.service ≡ false)
        ⊎ Memᴰ (redact_value redact_string "" (service_finding s.service)) findings)
    × AllAccounted redact_string findings ss

accounted :
    (redact_string : String → String) (findings : List Value) (ss : List Service)
    → all (λ s. is_service_known s.service) ss ≡ true
    → ((s : Service)
        → Memᴰ s ss
        → (is_failed_service s.service ≡ false)
          ⊎ Memᴰ (redact_value redact_string "" (service_finding s.service)) findings)
    → AllAccounted redact_string findings ss
accounted redact_string findings [] known told = tt
accounted redact_string findings (s ∷ ss) known told =
    let (first, others) = and_inv (is_service_known s.service) _ known in
    (
      first,
      told s (Memᴰ.head refl),
      accounted redact_string findings ss others (λ u m. told u (Memᴰ.tail m)),
    )

-- A snapshot whose coverage of services is complete was made of a listing of services that succeeded
-- and left nothing out, and each service of it was known well enough to tell, and did not fail or is
-- among the findings, whichever rows were dropped.
pub complete_services :
    (redact_string : String → String) (c : Collected) (bytes : WindowsSnapshot → ℕ)
    (budget fuel : ℕ)
    → (shrink bytes budget fuel (build_windows_snapshot redact_string c)).service_coverage
      ≡ complete
    → (l : Section Service) × (c.services ≡ some l)
      × (l.status ≡ "ok")
      × (l.omitted_count ≡ 0)
      × AllAccounted redact_string
          (shrink bytes budget fuel (build_windows_snapshot redact_string c)).findings
          l.items
unfolding build_windows_snapshot
complete_services redact_string c bytes budget fuel h =
    let built = build_windows_snapshot redact_string c in
    let kept = shrink-Keeps bytes budget fuel built in
    let known : Service → Bool = λ s. is_service_known s.service in
    let (l, listed, status, omitted, all_known) =
      complete_inv known c.services (sym kept.service_coverage ∙ h) in
    (
      l,
      listed,
      status,
      omitted,
      accounted redact_string _ l.items all_known (λ s m.
          reported redact_string c s _ (sym kept.found)
            (subst (λ o. Memᴰ s (items_of o)) (sym listed) m)),
    )
