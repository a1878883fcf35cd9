-- ===== src/Adapters/Procfs/Listing.antt =====
-- src/adapters/procfs.ts: `list` and `get`, over the reading of one process.
use agentv.Base.{
  ℕ, zero, suc, Option, none, some, String, List, [], ◌∷◌, ◌++◌, Bool, true, false, ◌||◌, ◌==◌,
  if◌then◌else◌, string_eq, nat_eq, keep, take, length,
}
use agentv.Base.Decimal.{show}
use agentv.Base.Result.{Result, ok, err}
use agentv.Base.Scan.{drop, has_text, is_empty}
use agentv.Base.Sort.{Sign, same, opposite, difference, sort}
use agentv.Base.Text.{concat}
use agentv.Adapters.{CollectorHealth, Page, page}
use agentv.Adapters.Procfs.{ProcRecord, ProcContext, Host, Passwd, ensure_active, context, read}
use agentv.Errors.{Thrown, tool, other, tool_error, resource_not_found}

pub record ProcessesInput : Type 0 where
  pub sort_by : String
  pub order : String
  pub user : Option String
  pub query : Option String
  pub limit : ℕ

-- A comparison with `NaN` gives `NaN`.
abbrev known_difference : Option ℕ → Option ℕ → Sign
known_difference (some a) (some b) = difference a b
known_difference _ _ = same

unfoldable pub sort_value : String → ProcRecord → ProcRecord → Sign
sort_value field a b =
    if field == "pid"
    then difference a.pid b.pid
    else if field == "memory"
    then known_difference a.memory_bytes b.memory_bytes
    else if field == "start_time"
    then difference a.start_ticks b.start_ticks
    else difference a.cpu_percent b.cpu_percent

abbrev pub batch_size : ℕ
batch_size = 32

-- `candidates.slice(index, index + 32)`, on a fuel of one for each candidate
abbrev pub batches : ℕ → List ℕ → List (List ℕ)
batches zero pids = []
batches (suc k) [] = []
batches (suc k) (p ∷ pids) = take batch_size (p ∷ pids) ∷ batches k (drop batch_size (p ∷ pids))

pub record Reading : Type 0 where
  pub processes : List ProcRecord
  pub failures : ℕ
  pub passwd : Passwd

abbrev pub count_one : Result Thrown ProcRecord × Passwd → Reading → Reading
count_one (ok p, table) r = record r { processes = r.processes ++ p ∷ []; passwd = table }
count_one (err _, table) r = record r { failures = suc r.failures; passwd = table }

abbrev pub read_batch : Host → ProcContext → List ℕ → Reading → Reading
read_batch h c [] r = r
read_batch h c (pid ∷ pids) r = read_batch h c pids (count_one (read h r.passwd c false pid) r)

-- `aborted i`: the signal is aborted when batch `i` starts.
abbrev pub read_batches :
    Host → ProcContext → (ℕ → Bool) → ℕ → List (List ℕ) → Reading → Result Thrown Reading
read_batches h c aborted i [] r = ok r
read_batches h c aborted i (b ∷ bs) r = elim (ensure_active (aborted i)) [
  | err e ↦ err e
  | ok _ ↦ read_batches h c aborted (suc i) bs (read_batch h c b r)
]

abbrev pub same_user : Option String → ProcRecord → Bool
same_user none p = true
same_user (some name) p = is_empty name || p.user == name

abbrev pub matches_query : Host → Option String → ProcRecord → Bool
matches_query h none p = true
matches_query h (some query) p =
    is_empty query
    || has_text (h.lower_case query) (h.lower_case (concat (p.name ∷ " " ∷ p.command_line ∷ [])))

abbrev pub ordered : ProcessesInput → ProcRecord → ProcRecord → Sign
ordered input a b =
    let sign = sort_value input.sort_by a b in if input.order == "asc" then sign else opposite sign

-- The rows that match, in the order asked for.
unfoldable pub matching : Host → ProcessesInput → List ProcRecord → List ProcRecord
unfolding sort_value
matching h input processes =
    sort (ordered input)
      (keep (matches_query h input.query) (keep (same_user input.user) processes))

unfoldable pub health_of : ℕ → CollectorHealth
health_of failures = record {
  collector = "procfs";
  status = if failures == 0 then "ok" else "partial";
  message =
      if failures == 0
      then none
      else some
          (concat (show failures ∷ " process record(s) became unavailable or unreadable" ∷ []));
}

abbrev pub answer_of :
    Host
    → ProcessesInput
    → Result Thrown Reading
    → Result Thrown (Page ProcRecord × CollectorHealth)
answer_of h input (err e) = err e
answer_of h input (ok r) =
    ok (page input.limit (matching h input r.processes), health_of r.failures)

-- `aborted`: the signal when the call starts, then at each batch.
unfoldable pub list :
    Host
    → Passwd
    → Bool
    → (ℕ → Bool)
    → ProcessesInput
    → Result Thrown (Page ProcRecord × CollectorHealth)
list h table aborted later input = elim h.list_pids [
  | err e ↦ err e
  | ok pids ↦ elim (context h aborted) [
    | err e ↦ err e
    | ok c ↦ answer_of h input (
        read_batches h c later 0 (batches (length pids) pids)
          (record { processes = []; failures = 0; passwd = table }))
  ]
]

abbrev not_found : ℕ → Thrown → Thrown
not_found pid (tool e) = tool e
not_found pid (other code) =
    if code == "ENOENT" || code == "ESRCH"
    then tool
        (tool_error resource_not_found (concat ("Process " ∷ show pid ∷ " was not found" ∷ [])))
    else other code

abbrev get_answer : ℕ → Result Thrown ProcRecord → Result Thrown ProcRecord
get_answer pid (ok p) = ok p
get_answer pid (err e) = err (not_found pid e)

unfoldable pub get : Host → Passwd → Bool → Bool → ℕ → Result Thrown ProcRecord
get h table aborted later pid = elim (context h aborted) [
  | err e ↦ err (not_found pid e)
  | ok c ↦ get_answer pid ((read h table c later pid).0)
]
