-- ===== src/Actions/Policy/Safety.antt =====
-- What a policy or a request that src/actions/helper.ts accepts satisfies.
use agentv.Base.{
  ◌≤◌, String, ◌≡◌, inl, inr, Bool, true, false, List, some, arith, length, all, distinct,
  string_eq, Option-cases,
}
use agentv.Base.Json.{Value, Items, Fields, text, arr, obj, get}
use agentv.Base.Json
use agentv.Base.Result.{ok}
use agentv.Base.Text.{size}
use agentv.Actions.Types.{RestartRequest}
use agentv.Actions.Unit.{is_service_unit, is_protected_unit}
use agentv.Actions.Policy.{
  Policy, may_restart, texts_if, count_items, units_of, policy_of, validate_policy, PolicyFile,
  load_policy, texts_of, validate_restart_request, is_operation_id,
}

-- A policy that the helper obeys: at most 32 different units, none of them protected.
pub record IsPolicy (p : Policy) : Type 0 where
  pub few : length p.restart_services ≤ 32
  pub units : all may_restart p.restart_services ≡ true
  pub different : distinct p.restart_services ≡ true

texts_if_lem :
    (p : String → Bool) (vs : Items) (us : List String)
    → texts_if p vs ≡ some us
    → (all p us ≡ true) × (length us ≡ count_items vs)
texts_if_lem p Json.nil us h = ground arith
texts_if_lem p (Json.cons (text s) vs) us h = elim (Option-cases (texts_if p vs)) [
  | inl e ↦ ground arith
  | inr (ss, e) ↦ ground (arith, texts_if_lem p vs ss e)
]
texts_if_lem p (Json.cons _ vs) us h = cc

units_of-IsPolicy : (vs : Items) (p : Policy) → units_of vs ≡ some p → IsPolicy p
units_of-IsPolicy vs p h = elim (Option-cases (texts_if may_restart vs)) [
  | inl e ↦ ground arith
  | inr (us, e) ↦ ground (arith, texts_if_lem may_restart vs us e)
]

policy_of-IsPolicy : (fs : Fields) (p : Policy) → policy_of fs ≡ some p → IsPolicy p
policy_of-IsPolicy fs p h = elim (Option-cases (get "restartServices" fs)) [
  | inl e ↦ ground arith
  | inr (v, e) ↦ arrays v e
]
  where
    arrays : (v : Value) → get "restartServices" fs ≡ some v → IsPolicy p
    arrays (arr vs) e = units_of-IsPolicy vs p (ground arith)
    arrays _ e = ground arith

validate_policy-IsPolicy : (v : Value) (p : Policy) → validate_policy v ≡ ok p → IsPolicy p
unfolding validate_policy
validate_policy-IsPolicy (obj fs) p h = elim (Option-cases (policy_of fs)) [
  | inl e ↦ ground arith
  | inr (q, e) ↦ policy_of-IsPolicy fs p (ground arith)
]
validate_policy-IsPolicy _ p h = cc

-- A policy is loaded only from a regular file of at most 64 KiB that root owns and no one else can
-- write, and it names at most 32 different units, none of them one of the agent's own.
pub load_policy-IsPolicy :
    (f : PolicyFile) (p : Policy)
    → load_policy f ≡ ok p
    → (f.is_file ≡ true)
      × (f.size ≤ 65536)
      × (f.uid ≡ 0)
      × (f.group_or_world_writable ≡ false)
      × IsPolicy p
unfolding load_policy
load_policy-IsPolicy f p h = elim (Option-cases f.contents) [
  | inl e ↦ ground arith
  | inr (v, e) ↦ (
    ground arith,
    ground arith,
    ground arith,
    ground arith,
    validate_policy-IsPolicy v p (ground arith),
  )
]

-- A request that passes the validation.
pub record IsRequest (r : RestartRequest) : Type 0 where
  pub operation : is_operation_id r.operation_id ≡ true
  pub unit : is_service_unit r.unit ≡ true
  pub unprotected : is_protected_unit r.unit ≡ false
  pub reason : size r.reason ≤ 512
  pub active_low : 1 ≤ size r.expected_active_state
  pub active_high : size r.expected_active_state ≤ 64
  pub sub_low : 1 ≤ size r.expected_sub_state
  pub sub_high : size r.expected_sub_state ≤ 64

-- A request that the helper goes on with has an operation id of 24 hexadecimal digits, a unit name
-- that the pattern accepts and that is none of the agent's own, and bounded texts.
pub validate_restart_request-IsRequest :
    (fs : Fields) (r : RestartRequest) → validate_restart_request fs ≡ ok r → IsRequest r
unfolding validate_restart_request
validate_restart_request-IsRequest fs r h = elim (Option-cases (texts_of fs)) [
  | inl e ↦ ground arith
  | inr (q, e) ↦ ground arith
]
