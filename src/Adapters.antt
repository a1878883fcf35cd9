-- ===== src/Adapters.antt =====
-- src/adapters/types.ts and what the adapters share: the page that a listing returns.
pub mod Procfs
pub mod Command
pub mod Sockets
pub mod Filesystems
pub mod HostFacts
pub mod Systemd
pub mod Journal
pub mod Rows
use agentv.Base.{
  ℕ, ◌+◌, ◌-◌, ◌≤◌, min, ◌≡◌, List, Bool, true, false, Option, none, some, String, [], ◌∷◌, ◌++◌,
  arith, length, take, length-take, if◌then◌else◌,
}
use agentv.Base.Scan.{is_empty}

pub record CollectorHealth : Type 0 where
  pub collector : String
  pub status : String
  pub message : Option String

-- The first `limit` rows, and how many there were.
pub record Page (A : Type 0) : Type 0 where
  pub items : List A
  pub original_count : ℕ
  pub omitted_count : ℕ

abbrev pub page : {A : Type 0} → ℕ → List A → Page A
page limit rows = record {
  items = take limit rows;
  original_count = length rows;
  omitted_count = length rows - limit;
}

-- No row goes missing: a page holds at most `limit` rows, and counts those that it leaves out.
pub page_counts :
    {A : Type 0} (limit : ℕ) (rows : List A)
    → let p = page limit rows in
      (length p.items ≤ limit) × (length p.items + p.omitted_count ≡ p.original_count)
page_counts limit rows = omega (arith, length-take limit rows)

-- `a || b` on texts
abbrev pub or_text : Option String → String → String
or_text none b = b
or_text (some a) b = if is_empty a then b else a

-- `a || null`
abbrev pub or_null : Option String → Option String
or_null none = none
or_null (some a) = if is_empty a then none else some a

-- `flatMap`
abbrev pub flat_map : {A B : Type 0} → (A → List B) → List A → List B
flat_map f [] = []
flat_map f (x ∷ xs) = f x ++ flat_map f xs
