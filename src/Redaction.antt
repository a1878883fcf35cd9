-- ===== src/Redaction.antt =====
-- src/redaction.ts: `redactValue` and the names of secrets. `redactString` is a parameter: its regular
-- expressions are not modelled.
use agentv.Base.{
  String, Bool, true, List, [], ◌∷◌, ◌≡◌, refl, ap, ◌⊎◌, inl, inr, if◌then◌else◌, any, Bool-cases,
}
use agentv.Base.Json.{
  Value, Items, Fields, bool, nat, neg, frac, text, obj, arr, null, end, field, nil, cons, keys,
}
use agentv.Base.Scan.{has_any_case}

-- The alternatives of `SECRET_KEY`; an optional `_` or `-` gives three spellings.
abbrev secret_names : List String
secret_names =
    "pass" ∷ "secret" ∷ "token" ∷ "apikey" ∷ "api_key" ∷ "api-key" ∷ "accesskey" ∷ "access_key"
    ∷ "access-key" ∷ "accountkey" ∷ "account_key" ∷ "account-key" ∷ "privatekey" ∷ "private_key"
    ∷ "private-key" ∷ "authorization" ∷ "credential" ∷ "cookie" ∷ "connectionstring"
    ∷ "connection_string" ∷ "connection-string" ∷ "sig" ∷ "sas" ∷ []

unfoldable pub is_secret_key : String → Bool
is_secret_key key = any (λ name. has_any_case name key) secret_names

abbrev pub redacted : String
redacted = "<redacted>"

-- `redactValue` of the value of `key`, where `rest` is what it gives for a key that is no secret.
unfoldable pub unless_secret : String → Value → Value
unless_secret key rest = if is_secret_key key then text redacted else rest

-- A value that came from JSON holds each object once, so no object is `<circular>`.
unfoldable mutual
  unfolding unless_secret

  pub redact_plain : (String → String) → Value → Value
  redact_plain f (text s) = text (f s)
  redact_plain f (arr vs) = arr (redact_items f vs)
  redact_plain f (obj fs) = obj (redact_fields f fs)
  redact_plain f v = v

  pub redact_items : (String → String) → Items → Items
  redact_items f nil = nil
  redact_items f (cons v vs) = cons (unless_secret "" (redact_plain f v)) (redact_items f vs)

  pub redact_fields : (String → String) → Fields → Fields
  redact_fields f end = end
  redact_fields f (field k v fs) = field k (unless_secret k (redact_plain f v)) (redact_fields f fs)

unfoldable pub redact_value : (String → String) → String → Value → Value
redact_value f key v = unless_secret key (redact_plain f v)

-- Nothing in a value is secret: a text is a result of `f`, or stands for a secret, and a field with the
-- name of a secret holds nothing else.
abbrev mutual
  pub IsSafe : (String → String) → Value → Type 0
  IsSafe f (text s) = ((t : String) × (s ≡ f t)) ⊎ (s ≡ redacted)
  IsSafe f (arr vs) = AreSafe f vs
  IsSafe f (obj fs) = HasSafe f fs
  IsSafe f v = Unit

  pub AreSafe : (String → String) → Items → Type 0
  AreSafe f nil = Unit
  AreSafe f (cons v vs) = IsSafe f v × AreSafe f vs

  pub HasSafe : (String → String) → Fields → Type 0
  HasSafe f end = Unit
  HasSafe f (field k v fs) =
      (is_secret_key k ≡ true → v ≡ text redacted) × (IsSafe f v × HasSafe f fs)

module _ (f : String → String) where
  unless_secret-IsSafe : (key : String) (v : Value) → IsSafe f v → IsSafe f (unless_secret key v)
  unfolding unless_secret
  unless_secret-IsSafe key v safe = elim (Bool-cases (is_secret_key key)) [
    | inl secret ↦ rw (secret, unless_secret) (inr refl)
    | inr plain ↦ rw (plain, unless_secret) safe
  ]

  mutual
    unfolding redact_plain

    plain-IsSafe : (v : Value) → IsSafe f (redact_plain f v)
    plain-IsSafe (text s) = inl (s, refl)
    plain-IsSafe (arr vs) = items-AreSafe vs
    plain-IsSafe (obj fs) = fields-HasSafe fs
    plain-IsSafe (bool b) = tt
    plain-IsSafe (nat n) = tt
    plain-IsSafe (neg n) = tt
    plain-IsSafe (frac n) = tt
    plain-IsSafe null = tt

    items-AreSafe : (vs : Items) → AreSafe f (redact_items f vs)
    items-AreSafe nil = tt
    items-AreSafe (cons v vs) = (unless_secret-IsSafe "" _ (plain-IsSafe v), items-AreSafe vs)

    fields-HasSafe : (fs : Fields) → HasSafe f (redact_fields f fs)
    fields-HasSafe end = tt
    fields-HasSafe (field k v fs) = (
      (λ secret. rw (secret, unless_secret) refl),
      (unless_secret-IsSafe k _ (plain-IsSafe v), fields-HasSafe fs),
    )

  -- Whatever was in a value, after `redactValue` no text is left that `redactString` did not return,
  -- except the mark for a secret, and a field with the name of a secret holds that mark.
  pub redact_value-IsSafe : (key : String) (v : Value) → IsSafe f (redact_value f key v)
  unfolding redact_value
  redact_value-IsSafe key v = unless_secret-IsSafe key _ (plain-IsSafe v)

  -- The names of the fields and their order stay.
  pub keys-redact_fields : (fs : Fields) → keys (redact_fields f fs) ≡ keys fs
  unfolding redact_fields
  keys-redact_fields end = refl
  keys-redact_fields (field k v fs) = ap (◌∷◌ k) (keys-redact_fields fs)
