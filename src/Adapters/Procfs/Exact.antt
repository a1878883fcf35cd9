-- ===== src/Adapters/Procfs/Exact.antt =====
-- src/adapters/procfs.ts: what the listing returns, with no batches and no cache in the description.
use agentv.Base.{
  ℕ, suc, ◌+◌, ◌≡◌, refl, sym, ap, inl, inr, Option, none, some, String, List, [], string_eq, ◌∷◌,
  ◌++◌, false, arith, length, length-append,
}
use mathlib.Core.List.{append_assoc, append-nil}
use agentv.Base.Result.{Result, ok, err, Result-cases}
use agentv.Base.Table.{lookup}
use agentv.Adapters.Procfs.{
  ProcRecord, ProcContext, Host, Passwd, read, user, passwd_table, name_of, record_of,
  ensure_active, Files, read_files, uid_of, with_user,
}
use agentv.Adapters.Procfs.Listing.{Reading, read_batch, count_one}
use agentv.Errors.{Thrown}

-- The cache holds nothing, or what the file says.
pub data IsCurrent (h : Host) : Passwd → Type 0 where
  unread : IsCurrent h none
  kept :
      {text : String} → h.read_text "/etc/passwd" ≡ ok text → IsCurrent h (some (passwd_table text))

-- The name of a user, with no cache.
abbrev pub user_name : Host → Option ℕ → Result Thrown String
user_name h uid = elim (h.read_text "/etc/passwd") [
  | err e ↦ err e
  | ok text ↦ ok (name_of (passwd_table text) uid)
]

-- The cached `user` returns what the file says, and leaves a cache that holds nothing or what the
-- file says, while the file does not change.
pub user_refines :
    (h : Host) (table : Passwd) (uid : Option ℕ)
    → IsCurrent h table
    → ((user h table uid).0 ≡ user_name h uid) × IsCurrent h ((user h table uid).1)
unfolding user
user_refines h _ uid unread = elim (Result-cases (h.read_text "/etc/passwd")) [
  | inl (text, e) ↦ rw (e, user, user_name) (refl, kept e)
  | inr (x, e) ↦ rw (e, user, user_name) (refl, unread)
]
user_refines h _ uid (kept e) = rw (e, user, user_name) (refl, kept e)

abbrev named : Host → ProcContext → ℕ → Files → Result Thrown String → Result Thrown ProcRecord
named h c pid f (err e) = err e
named h c pid f (ok name) = ok (record_of h c pid f name)

-- What reading one process gives, with no cache.
abbrev pub outcome : Host → ProcContext → ℕ → Result Thrown ProcRecord
outcome h c pid = elim (read_files h pid) [
  | err e ↦ err e
  | ok f ↦ named h c pid f (user_name h (uid_of (lookup "Uid" f.status)))
]

with_user_named :
    (h : Host) (c : ProcContext) (pid : ℕ) (f : Files) (found : Result Thrown String × Passwd)
    {name : Result Thrown String}
    → (found.0 ≡ name) × IsCurrent h (found.1)
    → ((with_user h c pid f found).0 ≡ named h c pid f name)
      × IsCurrent h ((with_user h c pid f found).1)
with_user_named h c pid f (err e, table) (same, cur) = (rw (← same) refl, cur)
with_user_named h c pid f (ok user, table) (same, cur) = (rw (← same) refl, cur)

read_outcome :
    (h : Host) (table : Passwd) (c : ProcContext) (pid : ℕ)
    → IsCurrent h table
    → ((read h table c false pid).0 ≡ outcome h c pid) × IsCurrent h ((read h table c false pid).1)
unfolding read ensure_active
read_outcome h table c pid cur = elim (Result-cases (read_files h pid)) [
  | inl (f, e) ↦
      rw (e, read, outcome)
        (with_user_named h c pid f _ (user_refines h table (uid_of (lookup "Uid" f.status)) cur))
  | inr (x, e) ↦ rw (e, read, outcome) (refl, cur)
]

-- The readable processes among some ids, in their order, and how many are not.
abbrev pub readable : Host → ProcContext → List ℕ → List ProcRecord
readable h c [] = []
readable h c (pid ∷ pids) = elim (outcome h c pid) [
  | err _ ↦ readable h c pids
  | ok p ↦ p ∷ readable h c pids
]

abbrev pub unreadable : Host → ProcContext → List ℕ → ℕ
unreadable h c [] = 0
unreadable h c (pid ∷ pids) = elim (outcome h c pid) [
  | err _ ↦ suc (unreadable h c pids)
  | ok _ ↦ unreadable h c pids
]

pub counts_each :
    (h : Host) (c : ProcContext) (pids : List ℕ)
    → length (readable h c pids) + unreadable h c pids ≡ length pids
counts_each h c [] = refl
counts_each h c (pid ∷ pids) = elim (Result-cases (outcome h c pid)) [
  | inl (p, e) ↦ rw (e, readable, unreadable) (omega (arith, counts_each h c pids))
  | inr (x, e) ↦ rw (e, readable, unreadable) (omega (arith, counts_each h c pids))
]

-- What reading `pids` adds to what was read before.
pub record Adds (h : Host) (c : ProcContext) (pids : List ℕ) (r q : Reading) : Type 0 where
  pub processes : q.processes ≡ r.processes ++ readable h c pids
  pub failures : q.failures ≡ r.failures + unreadable h c pids
  pub current : IsCurrent h q.passwd

pub Adds-nil : {h : Host} {c : ProcContext} {r : Reading} → IsCurrent h r.passwd → Adds h c [] r r
Adds-nil cur = record { processes = sym (append-nil _); failures = omega arith; current = cur }

readable-append :
    (h : Host) (c : ProcContext) (xs ys : List ℕ)
    → readable h c (xs ++ ys) ≡ readable h c xs ++ readable h c ys
readable-append h c [] ys = refl
readable-append h c (x ∷ xs) ys = elim (Result-cases (outcome h c x)) [
  | inl (p, e) ↦ rw (e, readable) (ap (◌∷◌ p) (readable-append h c xs ys))
  | inr (x, e) ↦ rw (e, readable) (readable-append h c xs ys)
]

unreadable-append :
    (h : Host) (c : ProcContext) (xs ys : List ℕ)
    → unreadable h c (xs ++ ys) ≡ unreadable h c xs + unreadable h c ys
unreadable-append h c xs ys = omega (
  arith,
  counts_each h c (xs ++ ys),
  counts_each h c xs,
  counts_each h c ys,
  length-append xs ys,
  length-append (readable h c xs) (readable h c ys),
  ap length (readable-append h c xs ys),
)

pub Adds-append :
    {h : Host} {c : ProcContext} {r q s : Reading} (pids later : List ℕ)
    → Adds h c pids r q
    → Adds h c later q s
    → Adds h c (pids ++ later) r s
Adds-append {h} {c} {r} {q} {s} pids later a b = record {
  processes = rw (readable-append, ← append_assoc, ← a.processes) b.processes;
  failures = omega (arith, a.failures, b.failures, unreadable-append h c pids later);
  current = b.current;
}

-- a reading goes on with the outcome of one more process
count_one-Adds :
    {h : Host} {c : ProcContext} {pid : ℕ} (r : Reading) (found : Result Thrown ProcRecord × Passwd)
    → (found.0 ≡ outcome h c pid) × IsCurrent h (found.1)
    → Adds h c (pid ∷ []) r (count_one found r)
count_one-Adds r (ok p, table) (same, cur) = record {
  processes = rw (← same, readable) refl;
  failures = rw (← same, unreadable) (omega arith);
  current = cur;
}
count_one-Adds r (err e, table) (same, cur) = record {
  processes = rw (← same, readable) (sym (append-nil _));
  failures = rw (← same, unreadable) (omega arith);
  current = cur;
}

pub read_batch-Adds :
    (h : Host) (c : ProcContext) (pids : List ℕ) (r : Reading)
    → IsCurrent h r.passwd
    → Adds h c pids r (read_batch h c pids r)
read_batch-Adds h c [] r cur = Adds-nil cur
read_batch-Adds h c (pid ∷ pids) r cur =
    let one = count_one-Adds r _ (read_outcome h r.passwd c pid cur) in
    Adds-append (pid ∷ []) pids one (read_batch-Adds h c pids _ one.current)
