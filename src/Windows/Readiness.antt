-- ===== src/Windows/Readiness.antt =====
-- src/windows-readiness.ts: the evidence of an authenticated session, a file that is replaced by renaming
-- a temporary one.
use agentv.Base.{
  String, Bool, true, false, not, ◌&&◌, ◌≡◌, Option, none, some, if◌then◌else◌, List, [], ◌∷◌,
  arith,
}
use agentv.Base.Result.{Result, ok, err}

pub data Phase : Type 0 where
  provisional active : Phase

-- `authenticated.json`, `authenticated.pending` with what was written to it so far, and the variable
-- `provisional`.
pub record Readiness : Type 0 where
  pub marker : Option Phase
  pub pending : Option (Option Phase)
  pub is_provisional : Bool

-- Which calls of the file system fail, other than an unlink of a file that is missing.
pub record Faults : Type 0 where
  pub unlink_marker : Bool
  pub unlink_temporary : Bool
  pub open_temporary : Bool
  pub write_temporary : Bool
  pub rename : Bool

unfoldable pub create : Option Phase → Option (Option Phase) → Readiness
create marker pending = record { marker = marker; pending = pending; is_provisional = false }

abbrev unavailable : Result String Unit
unavailable = err "Windows authentication evidence unavailable"

abbrev pub remove_marker : Faults → Readiness → Readiness × Result String Unit
remove_marker f r =
    if f.unlink_marker then (r, unavailable) else (record r { marker = none }, ok tt)

abbrev pub remove_temporary : Faults → Readiness → Readiness × Result String Unit
remove_temporary f r =
    if f.unlink_temporary then (r, unavailable) else (record r { pending = none }, ok tt)

-- One call after another, unless the first one throws.
abbrev pub and_then :
    Readiness × Result String Unit
    → (Readiness → Readiness × Result String Unit)
    → Readiness × Result String Unit
and_then (r, err e) f = (r, err e)
and_then (r, ok _) f = f r

unfoldable pub clear : Faults → Readiness → Readiness × Result String Unit
clear f r =
    and_then (remove_marker f (record r { is_provisional = false })) (λ q. remove_temporary f q)

abbrev is_phase_provisional : Phase → Bool
is_phase_provisional provisional = true
is_phase_provisional active = false

abbrev pub replace : Faults → Phase → Readiness → Readiness × Result String Unit
replace f phase r =
    if f.open_temporary
    then (r, err "open")
    else if f.write_temporary
    then (record r { pending = some none }, err "write")
    else if f.rename
    then (record r { pending = some (some phase) }, err "rename")
    else (
      record r { marker = some phase; pending = none; is_provisional = is_phase_provisional phase },
      ok tt,
    )

unfoldable pub publish : Faults → Phase → Readiness → Readiness × Result String Unit
publish f phase r = and_then (remove_marker f r) (λ q. replace f phase q)

pub data Call : Type 0 where
  authenticated provisional_authenticated disconnected stopped : Call

unfoldable pub call : Faults → Call → Readiness → Readiness × Result String Unit
call f authenticated r = publish f active r
call f provisional_authenticated r = publish f provisional r
call f disconnected r = if r.is_provisional then (r, ok tt) else clear f r
call f stopped r = clear f r

unfoldable pub run : Readiness → List (Faults × Call) → Readiness
run r [] = r
run r ((f, c) ∷ calls) = run ((call f c r).0) calls

abbrev pub is_active : Option Phase → Bool
is_active (some active) = true
is_active _ = false

-- A marker of an active session is not taken for a provisional one.
abbrev pub is_consistent : Readiness → Bool
is_consistent r = not (is_active r.marker && r.is_provisional)

publish-consistent :
    (f : Faults) (phase : Phase) (r : Readiness)
    → is_consistent r ≡ true
    → is_consistent ((publish f phase r).0) ≡ true
unfolding publish
publish-consistent f provisional r h = ground arith
publish-consistent f active r h = ground arith

clear-consistent : (f : Faults) (r : Readiness) → is_consistent ((clear f r).0) ≡ true
unfolding clear
clear-consistent f r = ground arith

call-consistent :
    (f : Faults) (c : Call) (r : Readiness)
    → is_consistent r ≡ true
    → is_consistent ((call f c r).0) ≡ true
unfolding call
call-consistent f authenticated r h = publish-consistent f active r h
call-consistent f provisional_authenticated r h = publish-consistent f provisional r h
call-consistent f disconnected r h = ground (arith, clear-consistent f r)
call-consistent f stopped r h = clear-consistent f r

run-consistent :
    (calls : List (Faults × Call)) (r : Readiness)
    → is_consistent r ≡ true
    → is_consistent (run r calls) ≡ true
unfolding run
run-consistent [] r h = h
run-consistent ((f, c) ∷ calls) r h = run-consistent calls _ (call-consistent f c r h)

disconnected-inactive :
    (f : Faults) (r : Readiness)
    → is_consistent r ≡ true
    → (call f disconnected r).1 ≡ ok tt
    → is_active ((call f disconnected r).0.marker) ≡ false
unfolding call clear
disconnected-inactive f r consistent h = ground arith

-- Whatever was published before and whichever calls of the file system failed: when `disconnected`
-- returns, no evidence of an active session is left.
pub run_disconnected :
    (calls : List (Faults × Call)) (marker : Option Phase) (pending : Option (Option Phase))
    (f : Faults)
    → (call f disconnected (run (create marker pending) calls)).1 ≡ ok tt
    → is_active ((call f disconnected (run (create marker pending) calls)).0.marker) ≡ false
unfolding create
run_disconnected calls marker pending f h =
    disconnected-inactive f _ (run-consistent calls (create marker pending) (ground arith)) h
