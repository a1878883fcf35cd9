-- ===== src/Adapters/Journal/Bounds.antt =====
-- src/adapters/journal.ts: the bounds of the parsed entries, and the scope of a query.
use agentv.Base.{
  ℕ, suc, ◌+◌, ◌≤◌, ◌≡◌, refl, subst, inl, inr, String, List, [], ◌∷◌, ◌++◌, false, ◌||◌, Option,
  string_eq, arith, length, length-append, ltb, leb, Bool-cases,
}
use agentv.Base.Json.{Fields, Value}
use agentv.Base.Result.{ok, Result-cases, bind_inv, ok_inj}
use agentv.Adapters.Journal.{
  Codec, LogEntry, Parsed, Taken, entry_of, take_entries, parse_lines, add_line,
  parse_journal_output, lines_of,
}

abbrev pub total_bytes : Codec → List LogEntry → ℕ
total_bytes c [] = 0
total_bytes c (e ∷ es) = c.entry_bytes e + total_bytes c es

total_bytes-append :
    (c : Codec) (xs ys : List LogEntry)
    → total_bytes c (xs ++ ys) ≡ total_bytes c xs + total_bytes c ys
total_bytes-append c [] ys = omega arith
total_bytes-append c (x ∷ xs) ys = omega (arith, total_bytes-append c xs ys)

-- What the loop keeps of its entries.
record IsWithin (c : Codec) (limit byte_limit : ℕ) (t : Taken) : Type 0 where
  count : length t.entries ≤ limit
  sum : t.bytes ≡ total_bytes c t.entries
  fits : t.bytes ≤ byte_limit

IsWithin-add :
    {c : Codec} {limit byte_limit : ℕ} {t : Taken} (e : LogEntry)
    → IsWithin c limit byte_limit t
    → (leb limit (length t.entries) || ltb byte_limit (t.bytes + c.entry_bytes e)) ≡ false
    → IsWithin c limit byte_limit
        (record { entries = t.entries ++ e ∷ []; bytes = t.bytes + c.entry_bytes e })
IsWithin-add {c} {limit} {byte_limit} {t} e w room = record {
  count = ground (arith, length-append t.entries (e ∷ []));
  sum = omega (arith, total_bytes-append c t.entries (e ∷ []), w.sum);
  fits = ground arith;
}

module _ (c : Codec) (limit byte_limit : ℕ) where
  abbrev Ends : List Fields → Taken → Taken → Type 0
  Ends values t q =
      IsWithin c limit byte_limit q × (length q.entries ≤ length t.entries + length values)

  stop :
      {t q : Taken} (values : List Fields) → IsWithin c limit byte_limit t → t ≡ q → Ends values t q
  stop {t} values w same =
      subst
        (λ q. IsWithin c limit byte_limit q × (length q.entries ≤ length t.entries + length values))
        same (w, omega arith)

  take_entries-Ends :
      (values : List Fields) (t q : Taken)
      → IsWithin c limit byte_limit t
      → take_entries c limit byte_limit values t ≡ ok q
      → Ends values t q
  take_entries-Ends [] t q w h = stop [] w (ok_inj h)
  take_entries-Ends (v ∷ vs) t q w h = elim (Result-cases (entry_of c v)) [
    | inl (e, read) ↦
        elim (Bool-cases
          (leb limit (length t.entries) || ltb byte_limit (t.bytes + c.entry_bytes e))) [
            | inl full ↦ stop (v ∷ vs) w (ok_inj (rw (read, take_entries, full) at h))
            | inr room ↦
                let (within, count) =
                  take_entries-Ends vs _ q (IsWithin-add e w room)
                    (rw (read, take_entries, room) at h) in
                (within, omega (arith, count, length-append t.entries (e ∷ [])))
          ]
    | inr (x, failed) ↦ cc (rw (failed, take_entries) at h)
  ]

length-add_line :
    (v : Option Value) (p : List Fields × ℕ)
    → length ((add_line v p).0) + (add_line v p).1 ≡ suc (length (p.0) + p.1)
length-add_line v (parsed, invalid) = ground arith

length-parse_lines :
    (c : Codec) (lines : List String)
    → length ((parse_lines c lines).0) + (parse_lines c lines).1 ≡ length lines
length-parse_lines c [] = refl
length-parse_lines c (l ∷ ls) =
    omega (arith, length-add_line (c.parse_json l) (parse_lines c ls), length-parse_lines c ls)

-- The bounds of what is parsed from an output.
pub record IsBounded (c : Codec) (output : String) (limit byte_limit : ℕ) (p : Parsed)
    : Type 0 where
  pub count : length p.entries ≤ limit
  pub sum : p.byte_count ≡ total_bytes c p.entries
  pub fits : p.byte_count ≤ byte_limit
  pub parsed : length p.entries ≤ p.parsed_count
  pub each_line : p.parsed_count + p.invalid_count ≡ length (lines_of output)

-- If the output is parsed, it gives at most `limit` entries of at most `byte_limit` bytes together, as
-- counted, no more than there are records, and every line is a record or counted as malformed.
pub parse_journal_output-IsBounded :
    (c : Codec) (output : String) (limit byte_limit : ℕ) (p : Parsed)
    → parse_journal_output c output limit byte_limit ≡ ok p
    → IsBounded c output limit byte_limit p
unfolding parse_journal_output
parse_journal_output-IsBounded c output limit byte_limit p h =
    let start : Taken = record { entries = []; bytes = 0 } in
    let empty : IsWithin c limit byte_limit start = record {
      count = omega arith;
      sum = refl;
      fits = omega arith;
    } in
    let values = (parse_lines c (lines_of output)).0 in
    let (q, taken, same) = bind_inv {m = take_entries c limit byte_limit values start} h in
    let (w, count) = take_entries-Ends c limit byte_limit values start q empty taken in
    subst (IsBounded c output limit byte_limit) (ok_inj same) (record {
      count = w.count;
      sum = w.sum;
      fits = w.fits;
      parsed = omega (arith, count);
      each_line = length-parse_lines c (lines_of output);
    })
