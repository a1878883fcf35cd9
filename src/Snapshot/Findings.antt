-- ===== src/Snapshot/Findings.antt =====
-- src/core/snapshot-manager.ts: the findings that a fitted snapshot reports.
use mathlib.Core.List.{Memᴰ}
use mathlib.Core.List.Memᴰ
use agentv.Base.{
  ℕ, ◌≡◌, sym, ap, subst, ◌∙◌, Bool, true, refl, List, [], ◌∷◌, ◌++◌, map, keep, Bool-cases, inl,
  inr, string_eq, nat_eq,
}
use agentv.Metrics.{RuntimeCounters}
use agentv.Snapshot.Build.{
  Collected, FilesystemSummary, ServiceSummary, Snapshot, items_of, has_filesystem_pressure,
  filesystem_finding, service_finding, memory_findings, findings_of, snapshot_of,
}
use agentv.Snapshot.Shrink.{shrink}
use agentv.Snapshot.Fits.{shrink_honest}

pub keep-member :
    {A : Type 0} (p : A → Bool) {a : A} {xs : List A} → p a ≡ true → Memᴰ a xs → Memᴰ a (keep p xs)
keep-member p {xs = []} h m = elim m [ ]
keep-member p {xs = x ∷ xs} h (Memᴰ.head e) = rw (sym (ap p e) ∙ h) (Memᴰ.head e)
keep-member p {xs = x ∷ xs} h (Memᴰ.tail m) = elim (Bool-cases (p x)) [
  | inl y ↦ rw y (Memᴰ.tail (keep-member p h m))
  | inr n ↦ rw n (keep-member p h m)
]

snapshot-findings : (c : Collected) → (snapshot_of c).findings ≡ findings_of c
unfolding snapshot_of
snapshot-findings c = refl

-- Each filesystem under pressure and each failed service that was listed is reported as a finding,
-- whichever rows the snapshot drops.
pub findings_complete :
    (bytes : Snapshot → ℕ) (budget fuel : ℕ) (c : Collected) (m : RuntimeCounters)
    → let found = (shrink bytes budget fuel (snapshot_of c) m).0.findings in
      ((f : FilesystemSummary)
        → Memᴰ f (items_of c.filesystems)
        → has_filesystem_pressure f ≡ true
        → Memᴰ (filesystem_finding f) found)
      × ((s : ServiceSummary) → Memᴰ s (items_of c.services) → Memᴰ (service_finding s) found)
unfolding findings_of
findings_complete bytes budget fuel c m =
    let (kept, _, _) = shrink_honest bytes budget fuel (snapshot_of c) m in
    let same = sym (kept.found ∙ snapshot-findings c) in
    let mounts = map filesystem_finding (keep has_filesystem_pressure (items_of c.filesystems)) in
    let units = map service_finding (items_of c.services) in
    (
      (λ f h p. subst (Memᴰ (filesystem_finding f)) same (
          Memᴰ.append_left units (
            Memᴰ.append_right (memory_findings c.host_summary)
              (Memᴰ.map filesystem_finding (keep-member has_filesystem_pressure p h))))),
      (λ s h. subst (Memᴰ (service_finding s)) same (
          Memᴰ.append_right (memory_findings c.host_summary ++ mounts)
            (Memᴰ.map service_finding h))),
    )
