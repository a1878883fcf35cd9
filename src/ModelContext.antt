-- ===== src/ModelContext.antt =====
-- src/tools/model-context.ts: `boundedProjection`, the compact view of a result for the model.
pub mod Compact
use agentv.Base.{
  ℕ, zero, suc, ◌+◌, ◌-◌, ◌*◌, String, Bool, true, false, List, [], ◌∷◌, ◌++◌, if◌then◌else◌, ltb,
  leb, length, take,
}
use agentv.Base.Decimal.{show}
use agentv.Base.Json.{
  Value, Items, Fields, bool, nat, text, obj, arr, null, end, field, nil, cons, to_list,
}
use agentv.Base.Sort.{Sign, sort}
use agentv.Base.Text.{concat, size, slice_to}
use agentv.Registry.{ModelContextEnvelope, success}

pub record Limits : Type 0 where
  pub max_string : ℕ
  pub max_array : ℕ
  pub max_keys : ℕ

-- `localeCompare`, and the byte length of a value's JSON.
pub record Codec : Type 0 where
  pub locale_compare : String → String → Sign
  pub byte_length : Value → ℕ

-- A value, and what was left out of it, in order.
pub record Compacted (A : Type 0) : Type 0 where
  pub kept : A
  pub omissions : List Fields

abbrev whole : {A : Type 0} → A → Compacted A
whole a = record { kept = a; omissions = [] }

abbrev omission : String → String → Fields → Fields
omission path reason counts = field "path" (text path) (field "reason" (text reason) counts)

abbrev counted : String → ℕ → String → ℕ → Fields
counted from original to retained = field from (nat original) (field to (nat retained) end)

-- `Object.entries` and `Object.fromEntries`
abbrev pub to_entries : Fields → List (String × Value)
to_entries end = []
to_entries (field k v fs) = (k, v) ∷ to_entries fs

abbrev pub of_entries : List (String × Value) → Fields
of_entries [] = end
of_entries ((k, v) ∷ es) = field k v (of_entries es)

abbrev pub of_list : List Value → Items
of_list [] = nil
of_list (v ∷ vs) = cons v (of_list vs)

abbrev pub compact_text : Limits → String → String → Compacted Value
compact_text l path s = if leb (size s) l.max_string then whole (text s) else record {
  kept = text (slice_to l.max_string s);
  omissions =
      omission path "string_limit"
        (counted "originalCharacters" (size s) "retainedCharacters" l.max_string)
      ∷ [];
}

-- One omission more, if fewer rows are kept than there were.
abbrev when_fewer : ℕ → ℕ → Fields → List Fields
when_fewer retained original o = if ltb retained original then o ∷ [] else []

-- `f` compacts what stands under a path.
abbrev pub compact_rows :
    (String → Value → Compacted Value) → String → ℕ → List Value → Compacted (List Value)
compact_rows f path i [] = whole []
compact_rows f path i (v ∷ vs) =
    let first = f (concat (path ∷ "[" ∷ show i ∷ "]" ∷ [])) v in
    let rest = compact_rows f path (suc i) vs in
    record { kept = first.kept ∷ rest.kept; omissions = first.omissions ++ rest.omissions }

abbrev pub compact_entries :
    (String → Value → Compacted Value)
    → String
    → List (String × Value)
    → Compacted (List (String × Value))
compact_entries f path [] = whole []
compact_entries f path ((k, v) ∷ es) =
    let first = f (concat (path ∷ "." ∷ k ∷ [])) v in
    let rest = compact_entries f path es in
    record { kept = (k, first.kept) ∷ rest.kept; omissions = first.omissions ++ rest.omissions }

abbrev too_deep : String → Compacted Value
too_deep path = record { kept = text "[omitted]"; omissions = omission path "depth_limit" end ∷ [] }

-- An array keeps its first items, an object its first keys in their order by name.
abbrev pub compact_array :
    (String → Value → Compacted Value) → Limits → String → List Value → Compacted Value
compact_array f l path vs =
    let rows = compact_rows f path 0 (take l.max_array vs) in
    record {
      kept = arr (of_list rows.kept);
      omissions =
          rows.omissions
          ++ when_fewer (length rows.kept) (length vs) (
              omission path "item_limit"
                (counted "originalCount" (length vs) "retainedCount" (length rows.kept)));
    }

abbrev pub compact_keys :
    (String → Value → Compacted Value)
    → Codec
    → Limits
    → String
    → List (String × Value)
    → Compacted Value
compact_keys f c l path es =
    let sorted = sort (λ (a b : String × Value). c.locale_compare (a.0) (b.0)) es in
    let rows = compact_entries f path (take l.max_keys sorted) in
    record {
      kept = obj (of_entries rows.kept);
      omissions =
          rows.omissions
          ++ when_fewer (length rows.kept) (length es) (
              omission path "key_limit"
                (counted "originalCount" (length es) "retainedCount" (length rows.kept)));
    }

-- `room` is 6 - `depth`.
unfoldable pub compact_value : Codec → Limits → ℕ → String → Value → Compacted Value
compact_value c l room path (text s) = compact_text l path s
compact_value c l zero path (arr vs) = too_deep path
compact_value c l zero path (obj fs) = too_deep path
compact_value c l (suc room) path (arr vs) =
    compact_array (compact_value c l room) l path (to_list vs)
compact_value c l (suc room) path (obj fs) =
    compact_keys (compact_value c l room) c l path (to_entries fs)
compact_value c l room path v = whole v

abbrev pub max_depth : ℕ
max_depth = 6

abbrev pub target_bytes : ℕ
target_bytes = 8 * 1024

abbrev pub source_of : Value → Value
source_of (arr vs) = arr vs
source_of (obj fs) = obj fs
source_of v = obj (field "value" v end)

abbrev pub generous : Limits
generous = record { max_string = 512; max_array = 20; max_keys = 24 }

abbrev pub tight : Limits
tight = record { max_string = 128; max_array = 8; max_keys = 12 }

abbrev pub truncated : Value
truncated = obj (field "truncated" (bool true) end)

-- Goes on to a smaller view if the data is over the target; the omissions add up.
abbrev compact_if_large : Codec → Value → Limits → Compacted Value → Compacted Value
compact_if_large c source l d =
    let smaller = compact_value c l max_depth "data" source in
    if ltb target_bytes (c.byte_length d.kept)
    then record { kept = smaller.kept; omissions = d.omissions ++ smaller.omissions }
    else d

abbrev drop_if_large : Codec → Compacted Value → Compacted Value
drop_if_large c d =
    if ltb target_bytes (c.byte_length d.kept)
    then record {
      kept = truncated;
      omissions = d.omissions ++ omission "data" "model_context_byte_limit" end ∷ [];
    }
    else d

unfoldable pub project : Codec → Value → Compacted Value
project c source =
    drop_if_large c
      (compact_if_large c source tight (compact_if_large c source generous (whole source)))

-- `omissions.splice(15, …)`
unfoldable pub limit_omissions : List Fields → List Fields
limit_omissions os =
    if ltb 16 (length os)
    then take 15 os
      ++ omission "omissions" "metadata_limit" (field "omittedCount" (nat (length os - 15)) end)
        ∷ []
    else os

unfoldable pub bounded_projection : Codec → String → Value → String → ModelContextEnvelope
bounded_projection c tool result summary =
    let d = project c (source_of result) in
    record {
      schema_version = "acornops.model-context.v1";
      tool = tool;
      status = success;
      summary = slice_to 500 summary;
      contents = d.kept;
      omissions = limit_omissions d.omissions;
    }
