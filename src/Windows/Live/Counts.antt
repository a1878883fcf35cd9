-- ===== src/Windows/Live/Counts.antt =====
-- src/windows/live.ts and src/windows/log-input.ts: what is counted, and the windows of log queries.
use agentv.Base.{
  ℕ, zero, suc, ◌+◌, ◌*◌, ◌≤◌, ◌≡◌, refl, sym, subst, ◌∙◌, ◌⊎◌, inl, inr, String, List, [], ◌∷◌,
  map, Bool, true, false, not, ◌||◌, Option, none, some, string_eq, arith, length, take,
  length-take, keep, contains, all, ltb, if◌then◌else◌, Bool-cases, Option-cases,
}
use agentv.Base.Json.{Fields, end}
use agentv.Base.Result.{ok, bind_inv, ok_inj, fail_if_inv}
use agentv.Base.Text.{concat}
use agentv.Adapters.Rows.{all-keep, all-keep_other, all-take}
use agentv.Windows.Runner.{CollectorResult}
use agentv.Windows.Live.{
  Host, Schema, WindowsList, WindowsQuery, WindowsService, WindowsLog, list_of, collect,
  checked_rows, read_all, bad_limit, filter, matches, is_denied,
}
use agentv.Windows.Live.Services.{in_state, with_own_code, list_services}
use agentv.Windows.Live.Logs.{
  WindowsLogs, WindowsLogsInput, validate_log_input, date_or, an_hour_before, bad_window,
  show_window, pop_until_fits, logs_of, query_logs, logs_request, is_entry,
}

-- The rows and what is left out are together what was found.
pub record IsCounted {A : Type 0} (limit : ℕ) (l : WindowsList A) : Type 0 where
  pub count : length l.items ≤ limit
  pub whole : length l.items + l.omitted_count ≡ l.original_count

length-map : {A B : Type 0} (f : A → B) (xs : List A) → length (map f xs) ≡ length xs
length-map f [] = refl
length-map f (x ∷ xs) = omega (arith, length-map f xs)

list_of-IsCounted :
    {A : Type 0} (s : Schema A) (id : String) (limit : ℕ) (result : CollectorResult) (rows : List A)
    → IsCounted limit (list_of s id limit result rows)
list_of-IsCounted s id limit result rows =
    let items = if is_denied result.status then [] else rows in
    let n = length-take limit items in
    let m = length-map s.redact (take limit items) in
    record { count = omega (arith, n, m); whole = omega (arith, n, m) }

collect-IsCounted :
    {A : Type 0} (h : Host) (s : Schema A) (id : String) (limit : ℕ) (input : Fields)
    (l : WindowsList A)
    → collect h s id limit input ≡ ok l
    → IsCounted limit l
unfolding collect
collect-IsCounted h s id limit input l e =
    let (good, e₁) = fail_if_inv (bad_limit limit) _ e in
    let (result, _, e₂) = bind_inv {m = h.run id input} e₁ in
    elim (Option-cases (read_all s result.items)) [
      | inl bad ↦ cc (rw (bad, checked_rows) at e₂)
      | inr (rows, read) ↦
          subst (IsCounted limit) (ok_inj (rw (read, checked_rows) at e₂))
            (list_of-IsCounted s id limit result rows)
    ]

filter-IsCounted :
    {A : Type 0} (h : Host) (input : WindowsQuery) (text_of : A → String) (l : WindowsList A)
    → IsCounted input.limit (filter h input text_of l)
unfolding filter
filter-IsCounted h input text_of l =
    let n = length-take input.limit (keep (matches h input.query text_of) l.items) in
    record { count = omega (arith, n); whole = omega (arith, n) }

-- A listing of services holds at most as many as asked for, all in the state asked for, and counts those
-- that match and are left out.
pub list_services-IsCounted :
    (h : Host) (state : Option String) (input : WindowsQuery) (l : WindowsList WindowsService)
    → list_services h state input ≡ ok l
    → IsCounted input.limit l × (all (in_state state) l.items ≡ true)
unfolding list_services filter
list_services-IsCounted h state input l e =
    let (result, _, e₁) = bind_inv {m = collect h h.services "services" 1000 end} e in
    let in_it = keep (in_state state) (map with_own_code result.items) in
    let text_of : WindowsService → String = λ s. concat (s.name ∷ " " ∷ s.display_name ∷ []) in
    subst (λ l. IsCounted input.limit l × (all (in_state state) l.items ≡ true)) (ok_inj e₁)
      (
        filter-IsCounted h input text_of (record result { items = in_it }),
        all-take (in_state state) input.limit _ (
            all-keep_other (in_state state) (matches h input.query text_of) in_it
              (all-keep (in_state state) (map with_own_code result.items))),
      )

-- A window of time that a query of logs may have.
pub record IsWindow (now since until : ℕ) : Type 0 where
  pub ordered : since ≤ until
  pub a_day : until ≤ since + 86400000
  pub not_later : until ≤ now + 60000

show_window-IsWindow :
    (h : Host) (now : ℕ) (since until : Option ℕ)
    → bad_window now since until ≡ false
    → (s : ℕ) × (u : ℕ) × (show_window h since until ≡ (h.iso_time s, h.iso_time u))
      × IsWindow now s u
show_window-IsWindow h now (some s) (some u) good =
    (s, u, refl, record { ordered = ground arith; a_day = ground arith; not_later = ground arith })
show_window-IsWindow h now none until good = cc
show_window-IsWindow h now (some s) none good = cc

local_channel : (a b : Bool) → (not a || not b) ≡ false → b ≡ true
local_channel true true h = refl
local_channel true false h = cc
local_channel false b h = cc

-- A log query that passes is for a channel that is locally allowed, at most 500 rows and at most 1 MiB,
-- in a window of at most a day that ends no later than a minute from now.
pub validate_log_input-IsWindow :
    (h : Host) (channels : List String) (now : ℕ) (input : WindowsLogsInput) (w : String × String)
    → validate_log_input h channels now input ≡ ok w
    → (contains channels input.channel ≡ true)
      × (input.limit ≤ 500)
      × (input.byte_limit ≤ 1024 * 1024)
      × ((s : ℕ) × (u : ℕ) × (w ≡ (h.iso_time s, h.iso_time u)) × IsWindow now s u)
unfolding validate_log_input
validate_log_input-IsWindow h channels now input w e =
    let until = date_or h input.until (some now) in
    let since = date_or h input.since (an_hour_before until) in
    let (channel, e₁) =
      fail_if_inv
        (not (contains ("Application" ∷ "System" ∷ []) input.channel)
          || not (contains channels input.channel))
        _ e in
    let (rows, e₂) = fail_if_inv (ltb input.limit 1 || ltb 500 input.limit) _ e₁ in
    let (window, e₃) = fail_if_inv (bad_window now since until) _ e₂ in
    let (bytes, e₄) =
      fail_if_inv (ltb input.byte_limit 1024 || ltb (1024 * 1024) input.byte_limit) _ e₃ in
    let (s, u, shown, fits) = show_window-IsWindow h now since until window in
    (local_channel _ _ channel, ground arith, ground arith, (s, u, sym (ok_inj e₄) ∙ shown, fits))

pop_until_fits-le :
    (h : Host) (byte_limit n : ℕ) (entries : List WindowsLog)
    → let kept = pop_until_fits h byte_limit n entries in
      (h.entries_bytes kept ≤ byte_limit) ⊎ (kept ≡ [])
pop_until_fits-le h byte_limit zero entries = inr refl
pop_until_fits-le h byte_limit (suc n) entries =
    elim (Bool-cases (ltb byte_limit (h.entries_bytes (take (suc n) entries)))) [
      | inl large ↦ rw large (pop_until_fits-le h byte_limit n entries)
      | inr small ↦ rw small (inl (ground arith))
    ]

length-pop_until_fits :
    (h : Host) (byte_limit n : ℕ) (entries : List WindowsLog)
    → length (pop_until_fits h byte_limit n entries) ≤ n
length-pop_until_fits h byte_limit zero entries = omega arith
length-pop_until_fits h byte_limit (suc n) entries =
    let rest = length-pop_until_fits h byte_limit n entries in
    let whole = length-take (suc n) entries in
    elim (Bool-cases (ltb byte_limit (h.entries_bytes (take (suc n) entries)))) [
      | inl large ↦ rw large (omega (arith, rest))
      | inr small ↦ rw small (omega (arith, whole))
    ]

logs_of-fits :
    (h : Host) (input : WindowsLogsInput) (result : WindowsList WindowsLog)
    → let l = logs_of h input result in
      (length l.entries ≤ input.limit) × ((l.byte_count ≤ input.byte_limit) ⊎ (l.entries ≡ []))
unfolding logs_of
logs_of-fits h input result =
    let found = keep (is_entry h input) result.items in
    let rows = take input.limit found in
    (
      omega (
        arith,
        length-pop_until_fits h input.byte_limit (length rows) rows,
        length-take input.limit found,
      ),
      pop_until_fits-le h input.byte_limit (length rows) rows,
    )

-- The answer of a log query holds at most as many entries as asked for, within the byte limit unless it
-- is empty.
pub query_logs-fits :
    (h : Host) (channels : List String) (now : ℕ) (input : WindowsLogsInput) (l : WindowsLogs)
    → query_logs h channels now input ≡ ok l
    → (length l.entries ≤ input.limit) × ((l.byte_count ≤ input.byte_limit) ⊎ (l.entries ≡ []))
unfolding query_logs
query_logs-fits h channels now input l e =
    let (w, _, e₁) = bind_inv {m = validate_log_input h channels now input} e in
    let (result, _, e₂) = bind_inv {m = collect h h.logs "events" 1000 (logs_request input w)} e₁ in
    subst
      (λ l.
        (length l.entries ≤ input.limit) × ((l.byte_count ≤ input.byte_limit) ⊎ (l.entries ≡ [])))
      (ok_inj e₂) (logs_of-fits h input result)
