-- ===== src/Actions/Client/Honesty.antt =====
-- src/actions/client.ts: what the answer of a call says of the restart.
use agentv.Base.{
  Bool, true, false, List, [], ◌∷◌, Option, none, some, String, ◌≡◌, ◌≢◌, refl, sym, subst, ap, ◌∙◌,
  inl, ltb, ◌==◌, string_eq, if◌then◌else◌, inr, arith, Option-cases, Bool-cases,
}
use agentv.Base.Json.{Value, text, get, truthy}
use agentv.Base.Result.{Result, ok, err}
use agentv.Base.Text.{concat}
use agentv.Errors.{
  ToolExecutionError, ToolErrorCode, host_unavailable, permission_denied, tool_timeout,
  output_too_large,
}
use agentv.Actions.Client.{
  Platform, Call, Event, aborted, timer_fired, connected, ended, chunk, socket_error, finish,
  on_data, on_event, step, run, call, line_of, property, rejection, read_value, fail, is_null,
}

step-settled :
    (p : Platform) (c : Call) (x : Event) (r : Result ToolExecutionError (Option Value))
    → c.settled ≡ some r
    → step p c x ≡ c
unfolding step
step-settled p c x r e = ground (arith, e)

-- A settled call keeps its answer, whatever happens.
pub settles_once :
    (p : Platform) (c : Call) (es : List Event) (r : Result ToolExecutionError (Option Value))
    → c.settled ≡ some r
    → run p c es ≡ c
unfolding run
settles_once p c [] r e = refl
settles_once p c (x ∷ xs) r e =
    subst (λ (d : Call). run p d xs ≡ c) (sym (step-settled p c x r e)) (settles_once p c xs r e)

-- A complete reply that the call has read and that has no true `ok`, whatever else it holds, with the
-- error that the client makes of it.
pub record HasReply (p : Platform) (c : Call) (e : ToolExecutionError) : Type 0 where
  pub line : String
  pub value : Value
  pub complete : line_of c.response ≡ some line
  pub parsed : p.parse line ≡ some value
  pub not_ok : truthy (property "ok" (some value)) ≡ false
  pub error : e ≡ rejection value

pub IsHonest : Platform → Call → Type 0
IsHonest p c =
    (e : ToolExecutionError)
    → c.settled ≡ some (err e)
    → c.may_mutate ≡ true
    → c.request_sent ≡ true
    → get "outcome" e.details ≢ some (text "unknown")
    → HasReply p c e

fail-IsHonest :
    (p : Platform) (code : ToolErrorCode) (message : String) (c : Call)
    → c.settled ≡ none
    → IsHonest p (fail code message c)
unfolding IsHonest finish
fail-IsHonest p code message c n e s m r o = ground arith

accepted-IsHonest :
    (p : Platform) (v : Option Value) (c : Call) → c.settled ≡ none → IsHonest p (finish (ok v) c)
unfolding IsHonest finish
accepted-IsHonest p v c n e s m r o = ground arith

finish-response :
    (r : Result ToolExecutionError (Option Value)) (c : Call) → (finish r c).response ≡ c.response
unfolding finish
finish-response r c = ground arith

finish-settled :
    (r : Result ToolExecutionError (Option Value)) (c : Call)
    → c.settled ≡ none
    → (finish r c).settled ≡ some r
unfolding finish
finish-settled r c n = ground arith

rejected-IsHonest :
    (p : Platform) (c : Call) (line : String) (v : Value)
    → c.settled ≡ none
    → line_of c.response ≡ some line
    → p.parse line ≡ some v
    → truthy (property "ok" (some v)) ≡ false
    → IsHonest p (finish (err (rejection v)) c)
unfolding IsHonest
rejected-IsHonest p c line v n l q bad e s m r o = record {
  line = line;
  value = v;
  complete = ap line_of (finish-response (err (rejection v)) c) ∙ l;
  parsed = q;
  not_ok = bad;
  error = ground (arith, finish-settled (err (rejection v)) c n);
}

read_value-IsHonest :
    (p : Platform) (c : Call) (line : String) (v : Value)
    → c.settled ≡ none
    → line_of c.response ≡ some line
    → p.parse line ≡ some v
    → IsHonest p (read_value v c)
read_value-IsHonest p c line v n l q = elim (Bool-cases (is_null v)) [
  | inl empty ↦
      rw empty (fail-IsHonest p host_unavailable "Action helper returned malformed JSON" c n)
  | inr full ↦ elim (Bool-cases (truthy (property "ok" (some v)))) [
    | inl fine ↦ rw (full, fine) (accepted-IsHonest p (property "result" (some v)) c n)
    | inr bad ↦ rw (full, bad) (rejected-IsHonest p c line v n l q bad)
  ]
]

open-IsHonest : (p : Platform) (c : Call) → c.settled ≡ none → IsHonest p c
unfolding IsHonest
open-IsHonest p c n e s m r o = cc

on_data-IsHonest :
    (p : Platform) (s : String) (c : Call) → c.settled ≡ none → IsHonest p (on_data p s c)
unfolding on_data
on_data-IsHonest p s c n =
    let grown = record c { response = concat (c.response ∷ s ∷ []) } in
    elim (Bool-cases (ltb 32768 (p.byte_length grown.response))) [
      | inl big ↦
          rw big (fail-IsHonest p output_too_large "Action helper response exceeded 32 KiB" grown n)
      | inr small ↦ elim (Option-cases (line_of grown.response)) [
        | inl partial ↦ rw (small, partial) (open-IsHonest p grown n)
        | inr (line, l) ↦ elim (Option-cases (p.parse line)) [
          | inl broken ↦
              rw (small, l, broken)
                (fail-IsHonest p host_unavailable "Action helper returned malformed JSON" grown n)
          | inr (v, q) ↦ rw (small, l, q) (read_value-IsHonest p grown line v n l q)
        ]
      ]
    ]

on_event-IsHonest :
    (p : Platform) (x : Event) (c : Call) → c.settled ≡ none → IsHonest p (on_event p x c)
unfolding on_event
on_event-IsHonest p aborted c n = fail-IsHonest p tool_timeout "Action helper call was aborted" c n
on_event-IsHonest p timer_fired c n = fail-IsHonest p tool_timeout "Action helper timed out" c n
on_event-IsHonest p connected c n = open-IsHonest p (record c { request_sent = true }) n
on_event-IsHonest p (chunk s) c n = on_data-IsHonest p s c n
on_event-IsHonest p (socket_error code) c n =
    fail-IsHonest p (if code == "EACCES" then permission_denied else host_unavailable)
      "Action helper is unavailable" c n
on_event-IsHonest p ended c n = elim (Option-cases (line_of c.response)) [
  | inl none_yet ↦
      rw (none_yet, on_event)
        (fail-IsHonest p host_unavailable "Action helper closed without a response" c n)
  | inr (line, l) ↦ rw (l, on_event) (open-IsHonest p c n)
]

step-IsHonest : (p : Platform) (c : Call) (x : Event) → IsHonest p c → IsHonest p (step p c x)
unfolding step
step-IsHonest p c x v = elim (Option-cases c.settled) [
  | inl n ↦ rw (n, step) (on_event-IsHonest p x c n)
  | inr (r, s) ↦ subst (IsHonest p) (sym (step-settled p c x r s)) v
]

run-IsHonest : (p : Platform) (c : Call) (es : List Event) → IsHonest p c → IsHonest p (run p c es)
unfolding run
run-IsHonest p c [] v = v
run-IsHonest p c (e ∷ es) v = run-IsHonest p (step p c e) es (step-IsHonest p c e v)

call-IsHonest : (p : Platform) (payload : String) (m a : Bool) → IsHonest p (call p payload m a)
unfolding IsHonest call finish
call-IsHonest p payload m a e = ground arith

-- If a call that may have changed something fails after its request was sent, then its error says that
-- the outcome is unknown, or the error is what the client makes of a complete reply that it has read and
-- parsed and that has no true `ok`. Nothing is said of what such a reply holds: `{}` is one.
pub call_honest :
    (p : Platform) (payload : String) (is_aborted : Bool) (es : List Event) (e : ToolExecutionError)
    → (run p (call p payload true is_aborted) es).settled ≡ some (err e)
    → (run p (call p payload true is_aborted) es).may_mutate ≡ true
    → (run p (call p payload true is_aborted) es).request_sent ≡ true
    → get "outcome" e.details ≢ some (text "unknown")
    → HasReply p (run p (call p payload true is_aborted) es) e
unfolding IsHonest
call_honest p payload is_aborted es e =
    run-IsHonest p (call p payload true is_aborted) es (call-IsHonest p payload true is_aborted) e
