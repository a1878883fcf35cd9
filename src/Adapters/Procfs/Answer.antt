-- ===== src/Adapters/Procfs/Answer.antt =====
-- src/adapters/procfs.ts: the answer of `list` and the bounds of each process.
use agentv.Base.{
  ℕ, zero, suc, ◌+◌, ◌*◌, ◌≤◌, max, ◌≡◌, refl, ap, ◌∙◌, subst, inl, inr, String, List, [], ◌∷◌,
  ◌++◌, Bool, false, arith, length, take, string_eq,
}
use agentv.Base.Result.{Result, ok, err, Result-cases, ◌>>◌, ok_inj}
use agentv.Base.Scan.{drop}
use agentv.Base.Text.{size, size-slice_to}
use agentv.Adapters.{page}
use agentv.Adapters.Procfs.{
  ProcRecord, ProcContext, Host, Passwd, Files, context, read, read_files, record_of, cpu_percent,
  ensure_active, with_user,
}
use agentv.Adapters.Procfs.Listing.{
  ProcessesInput, batches, Reading, read_batches, read_batch, matching, health_of, list, answer_of,
}
use agentv.Adapters.Procfs.Exact.{
  IsCurrent, readable, unreadable, counts_each, Adds, Adds-nil, Adds-append, read_batch-Adds,
}
use agentv.Errors.{Thrown}

abbrev flat : List (List ℕ) → List ℕ
flat [] = []
flat (b ∷ bs) = b ++ flat bs

take-drop : (n : ℕ) (xs : List ℕ) → take n xs ++ drop n xs ≡ xs
take-drop zero xs = refl
take-drop (suc n) [] = refl
take-drop (suc n) (x ∷ xs) = ap (◌∷◌ x) (take-drop n xs)

length-drop-le : (n : ℕ) (xs : List ℕ) → length (drop n xs) ≤ length xs
length-drop-le zero xs = omega arith
length-drop-le (suc n) [] = omega arith
length-drop-le (suc n) (x ∷ xs) = omega (arith, length-drop-le n xs)

flat-batches : (k : ℕ) (pids : List ℕ) → length pids ≤ k → flat (batches k pids) ≡ pids
flat-batches zero [] h = refl
flat-batches zero (p ∷ pids) h = absurd (omega arith)
flat-batches (suc k) [] h = refl
flat-batches (suc k) (p ∷ pids) h =
    let rest = flat-batches k (drop 31 pids) (omega (arith, h, length-drop-le 31 pids)) in
    rw rest (ap (◌∷◌ p) (take-drop 31 pids))

-- with no abort, every batch is read
read_batches-Adds :
    (h : Host) (c : ProcContext) (later : ℕ → Bool) (i : ℕ) (bs : List (List ℕ)) (r : Reading)
    → ((j : ℕ) → later j ≡ false)
    → IsCurrent h r.passwd
    → (q : Reading) × (read_batches h c later i bs r ≡ ok q) × Adds h c (flat bs) r q
unfolding ensure_active
read_batches-Adds h c later i [] r calm cur = (r, refl, Adds-nil cur)
read_batches-Adds h c later i (b ∷ bs) r calm cur =
    let one = read_batch-Adds h c b r cur in
    let (q, e, rest) =
      read_batches-Adds h c later (suc i) bs (read_batch h c b r) calm one.current in
    (q, rw (calm i, read_batches) e, Adds-append b (flat bs) one rest)

-- If the ids and the context can be read and nothing aborts, `list` answers with a page of the
-- readable processes that match, in the order asked for, and with a health that tells how many could
-- not be read. Readable and unreadable ones are together the candidates. The batches and the cache of
-- user names, as long as it holds what the file says, do not show.
pub list_exact :
    (h : Host) (table : Passwd) (aborted : Bool) (later : ℕ → Bool) (input : ProcessesInput)
    (pids : List ℕ) (c : ProcContext)
    → IsCurrent h table
    → h.list_pids ≡ ok pids
    → context h aborted ≡ ok c
    → ((i : ℕ) → later i ≡ false)
    → (list h table aborted later input
        ≡ ok (
          page input.limit (matching h input (readable h c pids)),
          health_of (unreadable h c pids),
        ))
      × (length (readable h c pids) + unreadable h c pids ≡ length pids)
unfolding list
list_exact h table aborted later input pids c cur found ctx calm =
    let start : Reading = record { processes = []; failures = 0; passwd = table } in
    let (q, e, a) = read_batches-Adds h c later 0 (batches (length pids) pids) start calm cur in
    let whole = flat-batches (length pids) pids (omega arith) in
    let rows : q.processes ≡ readable h c pids = a.processes ∙ ap (readable h c) whole in
    let lost : q.failures ≡ unreadable h c pids =
      omega (arith, a.failures, ap (unreadable h c) whole) in
    (simp (list, answer_of, found, ctx, e, rows, lost), counts_each h c pids)

-- What a bounded process record of `pid` is.
pub record IsBounded (h : Host) (pid : ℕ) (p : ProcRecord) : Type 0 where
  pub pid_is : p.pid ≡ pid
  pub cpu : p.cpu_percent ≤ 10000 * max 1 h.cpu_count
  pub command : size p.command_line ≤ 4096

record_of-IsBounded :
    (h : Host) (c : ProcContext) (pid : ℕ) (f : Files) (name : String)
    → IsBounded h pid (record_of h c pid f name)
unfolding record_of cpu_percent
record_of-IsBounded h c pid f name = record {
  pid_is = refl;
  cpu = omega arith;
  command = size-slice_to 4096 _;
}

with_user-IsBounded :
    (h : Host) (c : ProcContext) (pid : ℕ) (f : Files) (found : Result Thrown String × Passwd)
    {p : ProcRecord}
    → (with_user h c pid f found).0 ≡ ok p
    → IsBounded h pid p
with_user-IsBounded h c pid f (ok name, table) e =
    subst (IsBounded h pid) (ok_inj e) (record_of-IsBounded h c pid f name)
with_user-IsBounded h c pid f (err x, table) e = cc

-- A process that is read has the pid asked for, uses at most 100 % of every processor, and its command
-- line is cut to 4,096 characters.
pub read-IsBounded :
    (h : Host) (table : Passwd) (c : ProcContext) (aborted : Bool) (pid : ℕ) {p : ProcRecord}
    → (read h table c aborted pid).0 ≡ ok p
    → IsBounded h pid p
unfolding read
read-IsBounded h table c aborted pid e =
    elim (Result-cases (ensure_active aborted >> read_files h pid)) [
      | inl (f, found) ↦ with_user-IsBounded h c pid f _ (rw (found, read) at e)
      | inr (x, failed) ↦ cc (rw (failed, read) at e)
    ]
