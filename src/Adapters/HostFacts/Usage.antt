-- ===== src/Adapters/HostFacts/Usage.antt =====
-- src/adapters/host-facts.ts: the share of the processors that was in use.
use native.Mathlib.Nat.{div-lt_iff_lt-mul}
use agentv.Base.{
  ℕ, ◌+◌, ◌-◌, ◌*◌, ◌≤◌, ◌<◌, ◌≡◌, List, Option, none, some, arith, ltb, ltb→lt, le→leb, Bool-cases,
  inl, inr,
}
use agentv.Base.Decimal.{Signed, plus, minus, rounded}
use agentv.Adapters.HostFacts.{usage_percent, usage_between, total_of, idle_of}

-- At most 100 %, and not below 0.
abbrev pub IsPercent : Option Signed → Type 0
IsPercent none = Unit
IsPercent (some (plus n)) = n ≤ 10000
IsPercent (some (minus n)) = n ≡ 0

rounded-le : (a b : ℕ) → 0 < b → a ≤ 10000 * b → rounded a b ≤ 10000
rounded-le a b h k =
    let small =
      (div-lt_iff_lt-mul {k = 2 * b} {x = 2 * a + b} {y = 10001} (omega arith)).1 (omega arith) in
    omega (arith, small)

-- If the idle counters did not fall between two samples, and did not grow by more than all counters
-- together, the usage is between 0 and 100 %, or not known.
pub usage_percent-IsPercent :
    (before after : List (Option ℕ)) (b a : ℕ)
    → total_of before ≡ some b
    → total_of after ≡ some a
    → idle_of before ≤ idle_of after
    → idle_of after + b ≤ idle_of before + a
    → IsPercent (usage_percent before after)
unfolding usage_percent
usage_percent-IsPercent before after b a tb ta grown share =
    rw (usage_percent, tb, ta, usage_between)
      (elim (Bool-cases (ltb b a)) [
        | inl later ↦
            let lt = ltb→lt b a later in
            let below =
              le→leb (idle_of after) (a - b + idle_of before) (omega (arith, lt, share)) in
            rw (later, below) (rounded-le _ (a - b) (omega (arith, lt)) (omega (arith, lt, grown)))
        | inr same ↦ rw same tt
      ])
