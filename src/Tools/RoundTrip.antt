-- ===== src/Tools/RoundTrip.antt =====
-- src/tools/index.ts: the two spellings of the preconditions of a restart, and the handler's answers.
use Prim.Native.Char.{Char, code}
use Prim.Native.String.{String, ◌++◌}
use package.text.Mathlib.TextLemmas.{nil-append, cons-append, append-nil}
use package.text.Mathlib.TextEquality.{eq_iff}
use agentv.Base.{
  ◌≡◌, refl, sym, ap, ◌∙◌, ◌↔◌, true, false, some, inl, inr, arith, Bool-cases, and_inv, string_eq,
}
use agentv.Base.Json.{Value}
use agentv.Base.Result.{Result, ok, Result-cases}
use agentv.Base.Scan.{is_empty}
use agentv.Base.Text.{is_lower}
use agentv.Actions.Types.{RestartRequest, RestartReceipt, success}
use agentv.Errors.{Thrown}
use agentv.Tools.Restart.{
  RestartInput, is_token, is_token_char, token_run, token_cons, token, parse_active, transform,
  handler, checked, request_of,
}

token_cons_yes :
    (c : Char) (s : String) (q : String × String)
    → is_token_char (code c) ≡ true
    → token_cons c s q ≡ (String.◌∷◌ c (q.0), q.1)
token_cons_yes c s (t, rest) h = rw (h, token_cons) refl

token_cons_no :
    (c : Char) (s : String) (q : String × String)
    → is_token_char (code c) ≡ false
    → token_cons c s q ≡ ("", String.◌∷◌ c s)
token_cons_no c s (t, rest) h = rw (h, token_cons) refl

token_run-append :
    (a rest : String)
    → is_empty ((token_run a).1) ≡ true
    → token_run rest ≡ ("", rest)
    → token_run (a ++ rest) ≡ (a, rest)
token_run-append String.[] rest h stop = rw nil-append stop
token_run-append (String.◌∷◌ c s) rest h stop = elim (Bool-cases (is_token_char (code c))) [
  | inl taken ↦
      let closed = rw (token_cons_yes c s (token_run s) taken) at h in
      rw (cons-append, token_cons_yes c (s ++ rest) _ taken, token_run-append s rest closed stop)
        refl
  | inr left ↦ cc (rw (token_cons_no c s (token_run s) left) at h)
]

open_display : (x : String) → " (" ++ x ≡ String.◌∷◌ " " (String.◌∷◌ "(" x)
open_display x =
    cons-append " " "(" x
    ∙ ap (String.◌∷◌ " ") (cons-append "(" "" x ∙ ap (String.◌∷◌ "(") (nil-append x))

token-append :
    (a rest : String)
    → is_token a ≡ true
    → token_run rest ≡ ("", rest)
    → token (a ++ rest) ≡ some (a, rest)
token-append String.[] rest h stop = cc
token-append (String.◌∷◌ c s) rest h stop =
    let (low, closed) = and_inv (is_lower (code c)) _ h in
    rw (token_run-append (String.◌∷◌ c s) rest closed stop) (rw cons-append (rw low refl))

-- behind the token stands nothing
token_whole : (a : String) → is_token a ≡ true → token a ≡ some (a, "")
token_whole a h = rw append-nil at (token-append a "" h refl)

-- A display value such as `active (running)` is accepted as the plain state, if its substate is the one
-- that is expected; the plain state is accepted as it is.
pub transform_display :
    (i : RestartInput) (active sub : String)
    → is_token active ≡ true
    → is_token sub ≡ true
    → let plain = record i { expected_active_state = active; expected_sub_state = sub } in
      (transform plain ≡ ok plain)
      × (transform (record plain { expected_active_state = active ++ (" (" ++ (sub ++ ")")) })
          ≡ ok plain)
unfolding transform parse_active
transform_display i active sub a s = (
  rw (transform, parse_active, token_whole active a) (rw s refl),
  rw (open_display (sub ++ ")")) (
      rw (transform, parse_active, token-append active _ a refl)
        (rw (token-append sub ")" s refl) (rw s (rw ((eq_iff sub sub).1 refl) refl)))),
)

checked_success :
    (receipt_json : RestartReceipt → Value) (operation_id : String) (r : RestartReceipt)
    {q : RestartReceipt}
    → checked receipt_json operation_id r ≡ ok q
    → (r ≡ q) × (r.outcome ≡ success)
unfolding checked
checked_success receipt_json operation_id r h = ground arith

checked_ok :
    (receipt_json : RestartReceipt → Value) (operation_id : String) (r : RestartReceipt)
    → r.outcome ≡ success
    → checked receipt_json operation_id r ≡ ok r
unfolding checked
checked_ok receipt_json operation_id r h = ground arith

-- The handler returns a receipt exactly if the client answers with it and it reports success.
pub handler_success :
    (receipt_json : RestartReceipt → Value)
    (restart : RestartRequest → Result Thrown RestartReceipt) (operation_id : String)
    (i : RestartInput) (r : RestartReceipt)
    → (handler receipt_json restart operation_id i ≡ ok r)
      ↔ ((restart (request_of operation_id i) ≡ ok r) × (r.outcome ≡ success))
unfolding handler checked
handler_success receipt_json restart operation_id i r =
    elim (Result-cases (restart (request_of operation_id i))) [
      | inl (q, e) ↦ (
        λ h.
            let (same, good) = checked_success receipt_json operation_id q (rw (handler, e) at h) in
            (e ∙ ap ok same, rw (← same) good),
        λ (f, good). rw (handler, f) (checked_ok receipt_json operation_id r good),
      )
      | inr (x, e) ↦ ((λ h. cc (rw (handler, e) at h)), (λ (f, good). cc (sym e ∙ f)))
    ]
