-- ===== src/Base/Result.antt =====
-- A call that returns or throws.
use agentv.Base.Tests.{if◌then◌else◌}
use mathlib.Core.Bool.{Bool, true, false}
use mathlib.Core.Path.{◌≡◌, refl, ap}
use mathlib.Core.Logic.{◌⊎◌, inl, inr}

pub data Result {ℓ} (E A : Type ℓ) : Type ℓ where
  ok : A → Result E A
  err : E → Result E A

infixl 5 ◌>>=◌ ◌>>◌
abbrev pub ◌>>=◌ {ℓ} : {E A B : Type ℓ} → Result E A → (A → Result E B) → Result E B
ok a >>= f = f a
err e >>= f = err e

abbrev pub ◌>>◌ {ℓ} : {E B : Type ℓ} → Result E (Unit {ℓ}) → Result E B → Result E B
m >> k = m >>= λ _. k

-- `if (bad) throw error`
abbrev pub fail_if {ℓ} : {E : Type ℓ} → Bool → E → Result E (Unit {ℓ})
fail_if bad e = if bad then err e else ok tt

pub Result-cases {ℓ} :
    {E A : Type ℓ} (r : Result E A) → ((a : A) × (r ≡ ok a)) ⊎ ((e : E) × (r ≡ err e))
Result-cases (ok a) = inl (a, refl)
Result-cases (err e) = inr (e, refl)

-- A chain that returns has returned at each step.
pub bind_inv {ℓ} :
    {E A B : Type ℓ} {m : Result E A} {f : A → Result E B} {b : B}
    → (m >>= f) ≡ ok b
    → (a : A) × (m ≡ ok a) × (f a ≡ ok b)
bind_inv {m = ok a} h = (a, refl, h)
bind_inv {m = err e} h = cc

pub fail_if_inv {ℓ} :
    {E B : Type ℓ} (bad : Bool) (e : E) {k : Result E B} {b : B}
    → (fail_if bad e >> k) ≡ ok b
    → (bad ≡ false) × (k ≡ ok b)
fail_if_inv true e h = cc
fail_if_inv false e h = (refl, h)

abbrev value_or {ℓ} : {E A : Type ℓ} → A → Result E A → A
value_or a (ok b) = b
value_or a (err _) = a

pub ok_inj {ℓ} : {E A : Type ℓ} {a b : A} → ◌≡◌ {A = Result E A} (ok a) (ok b) → a ≡ b
ok_inj {a = a} h = ap (value_or a) h
