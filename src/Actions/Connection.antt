-- ===== src/Actions/Connection.antt =====
-- src/actions/helper.ts, `ActionHelper.connection`: the framing of one request on a socket. A paused
-- socket emits no data. `byte_length` is the length of a text in bytes.
use agentv.Base.{
  ℕ, zero, suc, string_eq, ◌+◌, ◌≤◌, String, Bool, true, false, List, [], ◌∷◌, Option, none, some,
  arith, ltb, ◌==◌, nat_eq, length, if◌then◌else◌,
}
use agentv.Base.Text.{codes, index_of, slice_to, concat, has_visible}
use agentv.Actions.Types.{HelperError}

-- The error object of a reply.
pub record ErrorReply : Type 0 where
  pub code : String
  pub message : String
  pub outcome : String

-- What is written to the socket: an error of the framing, or what the handler returned or threw.
pub data SocketReply : Type 0 where
  too_large only_one : SocketReply
  returned : String → SocketReply
  threw : ErrorReply → SocketReply

-- `handling` is whether the handler of the request runs.
pub record Connection : Type 0 where
  pub input : String
  pub paused : Bool
  pub handling : Bool
  pub handled : List String
  pub replies : List SocketReply

abbrev drop_codes : ℕ → List ℕ → List ℕ
drop_codes zero cs = cs
drop_codes (suc n) [] = []
drop_codes (suc n) (c ∷ cs) = drop_codes n cs

-- `input.slice(newline + 1).trim()` is not empty.
abbrev has_more : ℕ → String → Bool
has_more newline s = has_visible (drop_codes (newline + 1) (codes s))

abbrev write : SocketReply → Connection → Connection
write r c = record c { replies = r ∷ c.replies }

unfoldable pub on_data : (String → ℕ) → String → Connection → Connection
on_data byte_length chunk c =
    let grown = record c { input = concat (c.input ∷ chunk ∷ []) } in
    if c.paused
    then c
    else if ltb 32768 (byte_length grown.input)
    then write too_large grown
    else elim (index_of 10 (codes grown.input)) [
      | none ↦ grown
      | some newline ↦
          let stopped = record grown { paused = true } in
          if has_more newline grown.input then write only_one stopped else record stopped {
            handling = true;
            handled = slice_to newline grown.input ∷ stopped.handled;
          }
    ]

abbrev or_else : String → Option String → String
or_else d none = d
or_else d (some s) = if s == "" then d else s

abbrev error_reply : HelperError → ErrorReply
error_reply e = record {
  code = or_else "INTERNAL_ERROR" e.code;
  message = or_else "Action failed" (some e.message);
  outcome = or_else "not_started" e.outcome;
}

pub data Event : Type 0 where
  data_read : String → Event
  handler_returned : String → Event
  handler_threw : HelperError → Event

abbrev settle : SocketReply → Connection → Connection
settle r c = if c.handling then write r (record c { handling = false }) else c

unfoldable pub step : (String → ℕ) → Connection → Event → Connection
step byte_length c (data_read chunk) = on_data byte_length chunk c
step byte_length c (handler_returned result) = settle (returned result) c
step byte_length c (handler_threw e) = settle (threw (error_reply e)) c

unfoldable pub run : (String → ℕ) → Connection → List Event → Connection
run byte_length c [] = c
run byte_length c (e ∷ es) = run byte_length (step byte_length c e) es

abbrev pub accepted : Connection
accepted = record { input = ""; paused = false; handling = false; handled = []; replies = [] }

-- The replies but those to an input that is too large.
abbrev pub answers : List SocketReply → ℕ
answers [] = 0
answers (too_large ∷ rs) = answers rs
answers (_ ∷ rs) = suc (answers rs)

abbrev flag : Bool → ℕ
flag true = 1
flag false = 0

record IsFramed (c : Connection) : Type 0 where
  once : length c.handled ≤ flag c.paused
  answered : answers c.replies + flag c.handling ≤ flag c.paused

step-IsFramed : (b : String → ℕ) (c : Connection) (e : Event) → IsFramed c → IsFramed (step b c e)
unfolding step on_data
step-IsFramed b c (data_read chunk) v = ground arith
step-IsFramed b c (handler_returned result) v = ground arith
step-IsFramed b c (handler_threw e) v = ground arith

run-IsFramed :
    (b : String → ℕ) (c : Connection) (es : List Event) → IsFramed c → IsFramed (run b c es)
unfolding run
run-IsFramed b c [] v = v
run-IsFramed b c (e ∷ es) v = run-IsFramed b (step b c e) es (step-IsFramed b c e v)

-- Whatever arrives on a connection, at most one request of it is handled, and but for the replies to
-- an input that is too large, at most one reply is written.
pub one_request :
    (byte_length : String → ℕ) (es : List Event)
    → let c = run byte_length accepted es in (length c.handled ≤ 1) × (answers c.replies ≤ 1)
one_request byte_length es =
    let v = run-IsFramed byte_length accepted es (ground arith) in ground (arith, v)
