-- ===== src/Adapters/Systemd/RoundTrip.antt =====
-- src/adapters/systemd.ts, `properties`: what systemctl prints is read back.
use Prim.Native.Char.{code}
use Prim.Native.String.{String, ◌++◌}
use package.text.Mathlib.TextLemmas.{nil-append, cons-append, append_assoc}
use agentv.Base.{
  ℕ, ◌≡◌, refl, sym, ap, ◌∙◌, List, [], ◌∷◌, Bool, true, not, ◌&&◌, ◌==◌, some, string_eq, nat_eq,
  all, and_inv, not-true,
}
use agentv.Base.Scan.{split, cut_first, is_empty}
use agentv.Base.Table.{from_entries}
use agentv.Adapters.{flat_map}
use agentv.Adapters.Systemd.{property, properties}

-- A text without a character.
abbrev pub lacks : ℕ → String → Bool
lacks sep String.[] = true
lacks sep (String.◌∷◌ c s) = not (code c == sep) && lacks sep s

-- `key=value` and the end of the line, as systemctl prints a property.
abbrev line_of : String × String → String → String
line_of (key, value) rest = key ++ String.◌∷◌ "=" (value ++ String.◌∷◌ "\n" rest)

abbrev pub print : List (String × String) → String
print [] = ""
print (e ∷ es) = line_of e (print es)

-- A key that is not empty and holds no `=`, and no end of a line in the key or the value.
abbrev pub is_printable : String × String → Bool
is_printable (key, value) =
    not (is_empty key) && (lacks b'=' key && (lacks 10 key && lacks 10 value))

split_at_end :
    (line rest : String)
    → lacks 10 line ≡ true
    → split 10 (line ++ String.◌∷◌ "\n" rest) ≡ line ∷ split 10 rest
split_at_end String.[] rest h = rw nil-append refl
split_at_end (String.◌∷◌ c s) rest h =
    let (other, lack) = and_inv (not (code c == 10)) _ h in
    rw (cons-append, not-true _ other, split_at_end s rest lack) refl

lacks-append :
    (sep : ℕ) (a rest : String) → lacks sep a ≡ true → lacks sep (a ++ rest) ≡ lacks sep rest
lacks-append sep String.[] rest h = rw nil-append refl
lacks-append sep (String.◌∷◌ c s) rest h =
    let (other, lack) = and_inv (not (code c == sep)) _ h in
    rw (cons-append, not-true _ other) (lacks-append sep s rest lack)

cut_first_at :
    (key rest : String)
    → lacks b'=' key ≡ true
    → cut_first b'=' (key ++ String.◌∷◌ "=" rest) ≡ some (key, rest)
cut_first_at String.[] rest h = rw nil-append refl
cut_first_at (String.◌∷◌ c s) rest h =
    let (other, lack) = and_inv (not (code c == b'=')) _ h in
    rw cons-append (rw (not-true _ other, cut_first_at s rest lack) refl)

whole_line :
    (key value rest : String)
    → line_of (key, value) rest ≡ (key ++ String.◌∷◌ "=" value) ++ String.◌∷◌ "\n" rest
whole_line key value rest = sym (
    append_assoc key (String.◌∷◌ "=" value) (String.◌∷◌ "\n" rest)
    ∙ ap (λ s. key ++ s) (cons-append "=" value (String.◌∷◌ "\n" rest)))

property_line :
    (key value : String)
    → is_printable (key, value) ≡ true
    → property (key ++ String.◌∷◌ "=" value) ≡ (key, value) ∷ []
property_line key value h =
    let (filled, h₁) = and_inv (not (is_empty key)) _ h in
    let (lack, _) = and_inv (lacks b'=' key) _ h₁ in
    rw (cut_first_at key value lack, property) (rw (not-true _ filled) refl)

split_line :
    (e : String × String) (rest : String)
    → is_printable e ≡ true
    → split 10 (line_of e rest) ≡ ((e.0) ++ String.◌∷◌ "=" (e.1)) ∷ split 10 rest
split_line (key, value) rest h =
    let (filled, h₁) = and_inv (not (is_empty key)) _ h in
    let (no_equals, h₂) = and_inv (lacks b'=' key) _ h₁ in
    let (k, v) = and_inv (lacks 10 key) _ h₂ in
    rw (whole_line key value rest) (
      split_at_end (key ++ String.◌∷◌ "=" value) rest
        (lacks-append 10 key (String.◌∷◌ "=" value) k ∙ v))

flat_map-print :
    (es : List (String × String))
    → all is_printable es ≡ true
    → flat_map property (split 10 (print es)) ≡ es
flat_map-print [] h = refl
flat_map-print (e ∷ es) h =
    let (first, others) = and_inv (is_printable e) _ h in
    rw (split_line e (print es) first, flat_map-print es others, property_line (e.0) (e.1) first)
      refl

-- Properties that are printed as lines `key=value` are read back as the object of these entries,
-- whatever else the values hold, if no key is empty or holds `=` and nothing holds the end of a line.
pub properties-print :
    (es : List (String × String))
    → all is_printable es ≡ true
    → properties (print es) ≡ from_entries es
unfolding properties
properties-print es h = ap from_entries (flat_map-print es h)
