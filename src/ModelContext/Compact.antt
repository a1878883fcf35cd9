-- ===== src/ModelContext/Compact.antt =====
-- src/tools/model-context.ts: the bounds of the compact view.
use agentv.Base.{
  ℕ, zero, suc, ◌≤◌, ◌≡◌, refl, ap, ◌∙◌, ◌⊎◌, inl, inr, String, Bool, true, false, ◌&&◌, List, [],
  ◌∷◌, ◌++◌, arith, ltb, leb, le→leb, and_intro, length, length-append, length-take, take, all,
  Bool-cases,
}
use agentv.Base.Json.{Value, Fields, bool, nat, neg, frac, text, obj, arr, null, to_list}
use agentv.Base.Text.{size, size-slice_to}
use agentv.Base.Sort.{sort}
use agentv.ModelContext.{
  Limits, Codec, Compacted, to_entries, of_entries, of_list, compact_rows, compact_entries,
  compact_value, target_bytes, source_of, truncated, project, drop_if_large, compact_if_large,
  whole, generous, tight, limit_omissions, bounded_projection,
}

-- A value within the limits, with at most `room` arrays and objects around a text.
abbrev pub fits : Limits → ℕ → Value → Bool
fits l room (text s) = leb (size s) l.max_string
fits l zero (arr vs) = false
fits l zero (obj fs) = false
fits l (suc room) (arr vs) = leb (length (to_list vs)) l.max_array && all (fits l room) (to_list vs)
fits l (suc room) (obj fs) =
    leb (length (to_entries fs)) l.max_keys
    && all (λ (e : String × Value). fits l room (e.1)) (to_entries fs)
fits l room _ = true

to_list-of_list : (vs : List Value) → to_list (of_list vs) ≡ vs
to_list-of_list [] = refl
to_list-of_list (v ∷ vs) = ap (◌∷◌ v) (to_list-of_list vs)

to_entries-of_entries : (es : List (String × Value)) → to_entries (of_entries es) ≡ es
to_entries-of_entries [] = refl
to_entries-of_entries (e ∷ es) = ap (◌∷◌ e) (to_entries-of_entries es)

module _ (f : String → Value → Compacted Value) where
  length-compact_rows :
      (path : String) (i : ℕ) (vs : List Value)
      → length ((compact_rows f path i vs).kept) ≡ length vs
  length-compact_rows path i [] = refl
  length-compact_rows path i (v ∷ vs) = omega (arith, length-compact_rows path (suc i) vs)

  length-compact_entries :
      (path : String) (es : List (String × Value))
      → length ((compact_entries f path es).kept) ≡ length es
  length-compact_entries path [] = refl
  length-compact_entries path (e ∷ es) = omega (arith, length-compact_entries path es)

  module _ (p : Value → Bool)
      (good : (path : String) (v : Value) → p ((f path v).kept) ≡ true) where
    all-compact_rows :
        (path : String) (i : ℕ) (vs : List Value) → all p ((compact_rows f path i vs).kept) ≡ true
    all-compact_rows path i [] = refl
    all-compact_rows path i (v ∷ vs) = rw (good, all-compact_rows path (suc i) vs) refl

    all-compact_entries :
        (path : String) (es : List (String × Value))
        → all (λ (e : String × Value). p (e.1)) ((compact_entries f path es).kept) ≡ true
    all-compact_entries path [] = refl
    all-compact_entries path (e ∷ es) = rw (good, all-compact_entries path es) refl

module _ (c : Codec) (l : Limits) (enough : 9 ≤ l.max_string) where
  -- A compacted value has texts, arrays and objects within the limits, and no deeper nesting than
  -- allowed, if a text of nine characters is within the limits.
  pub compact_value-fits :
      (room : ℕ) (path : String) (v : Value)
      → fits l room ((compact_value c l room path v).kept) ≡ true
  unfolding compact_value
  compact_value-fits room path (text s) = ground (arith, size-slice_to l.max_string s)
  compact_value-fits zero path (arr vs) = le→leb _ _ (omega (arith, enough))
  compact_value-fits zero path (obj fs) = le→leb _ _ (omega (arith, enough))
  compact_value-fits (suc room) path (arr vs) =
      let f = compact_value c l room in
      let rows = take l.max_array (to_list vs) in
      rw to_list-of_list (
        and_intro
          (le→leb _ _ (
            omega (arith, length-compact_rows f path 0 rows, length-take l.max_array (to_list vs))))
          (all-compact_rows f (fits l room) (compact_value-fits room) path 0 rows))
  compact_value-fits (suc room) path (obj fs) =
      let f = compact_value c l room in
      let sorted = sort (λ (a b : String × Value). c.locale_compare (a.0) (b.0)) (to_entries fs) in
      let rows = take l.max_keys sorted in
      rw to_entries-of_entries (
        and_intro
          (le→leb _ _
            (omega (arith, length-compact_entries f path rows, length-take l.max_keys sorted)))
          (all-compact_entries f (fits l room) (compact_value-fits room) path rows))
  compact_value-fits room path (bool b) = refl
  compact_value-fits room path (nat n) = refl
  compact_value-fits room path (neg n) = refl
  compact_value-fits room path (frac n) = refl
  compact_value-fits room path null = refl

length-snoc_take : (os : List Fields) (o : Fields) → length (take 15 os ++ o ∷ []) ≤ 16
length-snoc_take os o = omega (arith, length-append (take 15 os) (o ∷ []), length-take 15 os)

ltb-false : (a b : ℕ) → ltb a b ≡ false → b ≤ a
ltb-false a b h = ground arith

le_ltb : (a b : ℕ) → b ≤ a → ltb a b ≡ false
le_ltb a b h = ground arith

length-limit_omissions : (os : List Fields) → length (limit_omissions os) ≤ 16
unfolding limit_omissions
length-limit_omissions os = elim (Bool-cases (ltb 16 (length os))) [
  | inl long ↦ rw long (length-snoc_take os _)
  | inr short ↦ rw short (omega (arith, ltb-false _ _ short))
]

drop_if_large-IsBounded :
    (c : Codec) (d : Compacted Value)
    → let kept = (drop_if_large c d).kept in
      (c.byte_length kept ≤ target_bytes) ⊎ (kept ≡ truncated)
drop_if_large-IsBounded c d = elim (Bool-cases (ltb target_bytes (c.byte_length d.kept))) [
  | inl large ↦ inr (rw large refl)
  | inr small ↦ inl (rw small (ltb-false _ _ small))
]

-- A projection has at most 16 omissions, a summary of at most 500 characters, and data within the
-- target of 8 KiB or the mark that it was dropped.
pub bounded_projection-IsBounded :
    (c : Codec) (tool : String) (result : Value) (summary : String)
    → let m = bounded_projection c tool result summary in
      (length m.omissions ≤ 16)
      × (size m.summary ≤ 500)
      × ((c.byte_length m.contents ≤ target_bytes) ⊎ (m.contents ≡ truncated))
unfolding bounded_projection project
bounded_projection-IsBounded c tool result summary =
    (length-limit_omissions _, size-slice_to 500 summary, drop_if_large-IsBounded c _)

module _ (c : Codec) (d : Compacted Value) (small : c.byte_length d.kept ≤ target_bytes) where
  compact_if_large_small : (source : Value) (l : Limits) → compact_if_large c source l d ≡ d
  compact_if_large_small source l = rw (le_ltb target_bytes (c.byte_length d.kept) small) refl

  drop_if_large_small : drop_if_large c d ≡ d
  drop_if_large_small = rw (le_ltb target_bytes (c.byte_length d.kept) small) refl

project_small :
    (c : Codec) (source : Value)
    → c.byte_length source ≤ target_bytes
    → project c source ≡ whole source
unfolding project
project_small c source small =
    ap (λ d. drop_if_large c (compact_if_large c source tight d))
      (compact_if_large_small c (whole source) small source generous)
    ∙ ap (drop_if_large c) (compact_if_large_small c (whole source) small source tight)
    ∙ drop_if_large_small c (whole source) small

-- A result within the target is passed on whole, with no omission.
pub bounded_projection_small :
    (c : Codec) (tool : String) (result : Value) (summary : String)
    → c.byte_length (source_of result) ≤ target_bytes
    → let m = bounded_projection c tool result summary in
      (m.contents ≡ source_of result) × (m.omissions ≡ [])
unfolding bounded_projection limit_omissions
bounded_projection_small c tool result summary small =
    let p = project_small c (source_of result) small in
    (
      ap (λ (d : Compacted Value). d.kept) p,
      ap (λ (d : Compacted Value). limit_omissions d.omissions) p,
    )
