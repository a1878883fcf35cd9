-- ===== src/Actions/Ledger.antt =====
-- src/actions/ledger.ts, `ActionLedger`: which records are read, and which files `prune` unlinks.
use agentv.Base.{
  ℕ, suc, ◌+◌, ◌-◌, ◌≤◌, ◌≡◌, refl, Bool, true, false, ◌&&◌, ◌||◌, List, [], ◌∷◌, Option, none,
  some, String, ltb, leb, leb→le, ◌==◌, nat_eq, string_eq, if◌then◌else◌, length, arith, Bool-cases,
  inl, inr,
}
use agentv.Base.Json.{Value, text, obj, get}
use agentv.Base.Result.{Result, ok, err}
use agentv.Base.Text.{codes, all_codes, is_digit, concat}

abbrev is_hex : ℕ → Bool
is_hex c = is_digit c || (leb 97 c && leb c 102)

-- `/^[a-f0-9]{64}$/`
abbrev is_hash : Option Value → Bool
is_hash (some (text s)) = all_codes is_hex (codes s) && length (codes s) == 64
is_hash _ = false

abbrev names_operation : String → Option Value → Bool
names_operation id (some (obj fs)) = elim (get "operation_id" fs) [
  | some (text t) ↦ t == id
  | none ↦ false
  | some v ↦ false
]
names_operation id _ = false

-- What `readFile` and `JSON.parse` make of the record's file.
pub data Stored : Type 0 where
  missing : Stored
  unreadable : String → Stored
  content : Value → Stored

abbrev invalid : String → String
invalid id = concat ("Action ledger record is invalid: " ∷ id ∷ [])

abbrev is_record : String → Value → Bool
is_record id (obj fs) =
    is_hash (get "request_hash" fs)
    && names_operation id (get "request" fs)
    && names_operation id (get "receipt" fs)
is_record id _ = false

-- `get`: no record, or one that names the operation throughout, or an error.
unfoldable pub read_record : String → Stored → Result String (Option Value)
read_record id missing = ok none
read_record id (unreadable message) = err message
read_record id (content v) = if is_record id v then ok (some v) else err (invalid id)

-- A file whose name is that of a record, with its modification time.
pub record Entry : Type 0 where
  pub name : String
  pub mtime_ms : ℕ

abbrev insert : Entry → List Entry → List Entry
insert e [] = e ∷ []
insert e (f ∷ fs) =
    let rest = insert e fs in if leb f.mtime_ms e.mtime_ms then e ∷ f ∷ fs else f ∷ rest

-- The newest first; equal times stay in order.
abbrev pub sorted : List Entry → List Entry
sorted [] = []
sorted (e ∷ es) = insert e (sorted es)

abbrev pub retention_ms : ℕ
retention_ms = 604800000

abbrev pub is_dropped : ℕ → ℕ → Entry → Bool
is_dropped now index e = ltb retention_ms (now - e.mtime_ms) || leb 1000 index

-- The entries that are unlinked, and those that are left.
abbrev pub split_from : ℕ → ℕ → List Entry → List Entry × List Entry
split_from now index [] = ([], [])
split_from now index (e ∷ es) =
    let rest = split_from now (suc index) es in
    if is_dropped now index e then (e ∷ rest.0, rest.1) else (rest.0, e ∷ rest.1)

unfoldable pub prune : ℕ → List Entry → List Entry × List Entry
prune now files = split_from now 0 (sorted files)

abbrev pub AllYoung : ℕ → List Entry → Type 0
AllYoung now [] = Unit {0}
AllYoung now (e ∷ es) = (now - e.mtime_ms ≤ retention_ms) × AllYoung now es

-- Nothing of the list is newer than the time.
abbrev pub NoneNewer : ℕ → List Entry → Type 0
NoneNewer t [] = Unit {0}
NoneNewer t (e ∷ es) = (e.mtime_ms ≤ t) × NoneNewer t es

abbrev pub AllNewer : List Entry → List Entry → Type 0
AllNewer [] fs = Unit {0}
AllNewer (e ∷ es) fs = NoneNewer e.mtime_ms fs × AllNewer es fs

abbrev IsSorted : List Entry → Type 0
IsSorted [] = Unit {0}
IsSorted (e ∷ es) = NoneNewer e.mtime_ms es × IsSorted es

NoneNewer-trans : (t u : ℕ) (es : List Entry) → t ≤ u → NoneNewer t es → NoneNewer u es
NoneNewer-trans t u [] h v = tt
NoneNewer-trans t u (e ∷ es) h v = (omega (arith, h, v), NoneNewer-trans t u es h v.1)

insert-NoneNewer :
    (t : ℕ) (e : Entry) (es : List Entry)
    → e.mtime_ms ≤ t
    → NoneNewer t es
    → NoneNewer t (insert e es)
insert-NoneNewer t e [] h v = (h, tt)
insert-NoneNewer t e (f ∷ fs) h v = ground (arith, insert-NoneNewer t e fs h v.1)

insert-IsSorted : (e : Entry) (es : List Entry) → IsSorted es → IsSorted (insert e es)
insert-IsSorted e [] v = (tt, tt)
insert-IsSorted e (f ∷ fs) v = elim (Bool-cases (leb f.mtime_ms e.mtime_ms)) [
  | inl newer ↦ rw newer (
    (
      leb→le f.mtime_ms e.mtime_ms newer,
      NoneNewer-trans f.mtime_ms e.mtime_ms fs (leb→le f.mtime_ms e.mtime_ms newer) v.0,
    ),
    v,
  )
  | inr older ↦
      rw older (insert-NoneNewer f.mtime_ms e fs (ground arith) v.0, insert-IsSorted e fs v.1)
]

sorted-IsSorted : (es : List Entry) → IsSorted (sorted es)
sorted-IsSorted [] = tt
sorted-IsSorted (e ∷ es) = insert-IsSorted e (sorted es) (sorted-IsSorted es)

length-insert : (e : Entry) (es : List Entry) → length (insert e es) ≡ suc (length es)
length-insert e [] = refl
length-insert e (f ∷ fs) = ground (arith, length-insert e fs)

length-sorted : (es : List Entry) → length (sorted es) ≡ length es
length-sorted [] = refl
length-sorted (e ∷ es) = omega (arith, length-insert e (sorted es), length-sorted es)

split_counts :
    (now index : ℕ) (es : List Entry)
    → let r = split_from now index es in
      (length r.0 + length r.1 ≡ length es)
      × (length r.1 + index ≤ 1000 + index)
      × AllYoung now r.1
      × (length r.1 ≤ 1000 - index)
split_counts now index [] = ground arith
split_counts now index (e ∷ es) = ground (arith, split_counts now (suc index) es)

all_dropped :
    (now index t : ℕ) (es : List Entry)
    → NoneNewer t es
    → (ltb retention_ms (now - t) || leb 1000 index) ≡ true
    → (split_from now (suc index) es).1 ≡ []
all_dropped now index t [] v d = refl
all_dropped now index t (e ∷ es) v d = ground (arith, v.0, all_dropped now (suc index) t es v.1)

split-NoneNewer :
    (now index t : ℕ) (es : List Entry) → NoneNewer t es → NoneNewer t (split_from now index es).0
split-NoneNewer now index t [] v = tt
split-NoneNewer now index t (e ∷ es) v = ground (arith, split-NoneNewer now (suc index) t es v.1)

split-AllNewer :
    (now index : ℕ) (es : List Entry)
    → IsSorted es
    → let r = split_from now index es in AllNewer r.1 r.0
split-AllNewer now index [] v = tt
split-AllNewer now index (e ∷ es) v = elim (Bool-cases (is_dropped now index e)) [
  | inl d ↦ rw (d, all_dropped now index e.mtime_ms es v.0 d) tt
  | inr k ↦
      rw k
        (split-NoneNewer now (suc index) e.mtime_ms es v.0, split-AllNewer now (suc index) es v.1)
]

-- Pruning leaves at most a thousand records, each at most seven days old and none older than one that
-- is unlinked; each file is left or unlinked.
pub prune_bounded :
    (now : ℕ) (files : List Entry)
    → let r = prune now files in
      (length r.1 ≤ 1000)
      × AllYoung now r.1
      × AllNewer r.1 r.0
      × (length r.0 + length r.1 ≡ length files)
unfolding prune
prune_bounded now files =
    let (counted, _, young, few) = split_counts now 0 (sorted files) in
    (
      omega (arith, few),
      young,
      split-AllNewer now 0 (sorted files) (sorted-IsSorted files),
      omega (arith, counted, length-sorted files),
    )
