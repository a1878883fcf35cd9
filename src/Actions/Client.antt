-- ===== src/Actions/Client.antt =====
-- src/actions/client.ts, `SocketActionClient`: a call of the helper, over one exchange on a socket.
-- `Platform` has what the code calls: `JSON.parse`, with `none` for an exception, and the length of
-- a text in bytes. A chunk is a text.
pub mod Honesty
use agentv.Base.{
  ℕ, suc, Bool, true, false, not, ◌&&◌, ◌||◌, List, [], ◌∷◌, Option, none, some, String, ltb, ◌==◌,
  string_eq, nat_eq, if◌then◌else◌,
}
use agentv.Base.Json.{Value, null, text, obj, Fields, field, end, get, truthy}
use agentv.Base.Result.{Result, ok, err}
use agentv.Base.Text.{codes, index_of, slice_to, concat}
use agentv.Errors.{
  ToolErrorCode, ToolExecutionError, tool_error, tool_error_with, invalid_arguments, tool_busy,
  tool_timeout, precondition_failed, permission_denied, command_unavailable, host_unavailable,
  internal_error, output_too_large,
}

pub record Platform : Type 0 where
  pub parse : String → Option Value
  pub byte_length : String → ℕ

pub record Call : Type 0 where
  pub may_mutate : Bool
  pub response : String
  pub settled : Option (Result ToolExecutionError (Option Value))
  pub request_sent : Bool

abbrev max_bytes : ℕ
max_bytes = 32768

abbrev pub outcome : Call → String
outcome c = if c.may_mutate && c.request_sent then "unknown" else "not_started"

abbrev error_with : ToolErrorCode → String → String → ToolExecutionError
error_with code message o = tool_error_with code message (field "outcome" (text o) end)

unfoldable pub finish : Result ToolExecutionError (Option Value) → Call → Call
finish r c = elim c.settled [ none ↦ record c { settled = some r } | some first ↦ c ]

abbrev pub fail : ToolErrorCode → String → Call → Call
fail code message c = finish (err (error_with code message (outcome c))) c

-- `HELPER_ERROR_CODES`
abbrev helper_code : String → ToolErrorCode
helper_code s =
    if s == "INVALID_ARGUMENTS"
    then invalid_arguments
    else if s == "TOOL_BUSY"
    then tool_busy
    else if s == "TOOL_TIMEOUT"
    then tool_timeout
    else if s == "PRECONDITION_FAILED"
    then precondition_failed
    else if s == "PERMISSION_DENIED"
    then permission_denied
    else if s == "COMMAND_UNAVAILABLE"
    then command_unavailable
    else if s == "HOST_UNAVAILABLE"
    then host_unavailable
    else internal_error

-- `value?.[key]`, where only an object has properties of its own that count
abbrev pub property : String → Option Value → Option Value
property k (some (obj fs)) = get k fs
property k _ = none

abbrev mapped_code : Option Value → ToolErrorCode
mapped_code (some (text s)) = helper_code s
mapped_code _ = internal_error

abbrev message_or : Option Value → String
message_or (some (text s)) = s
message_or _ = "Action helper rejected the request"

abbrev pub reported_outcome : Option Value → String
reported_outcome (some (text s)) = if s == "unknown" then "unknown" else "not_started"
reported_outcome _ = "not_started"

abbrev pub rejection : Value → ToolExecutionError
rejection v =
    let error = property "error" (some v) in
    error_with (mapped_code (property "code" error)) (message_or (property "message" error))
      (reported_outcome (property "outcome" error))

-- `null` has no properties to read, so that it throws into the `catch`.
abbrev pub is_null : Value → Bool
is_null null = true
is_null _ = false

abbrev pub read_value : Value → Call → Call
read_value v c =
    if is_null v
    then fail host_unavailable "Action helper returned malformed JSON" c
    else if truthy (property "ok" (some v))
    then finish (ok (property "result" (some v))) c
    else finish (err (rejection v)) c

-- The first line, if it is complete.
unfoldable pub line_of : String → Option String
line_of s = elim (index_of 10 (codes s)) [ none ↦ none | some i ↦ some (slice_to i s) ]

unfoldable pub on_data : Platform → String → Call → Call
on_data p chunk c =
    let grown = record c { response = concat (c.response ∷ chunk ∷ []) } in
    if ltb max_bytes (p.byte_length grown.response)
    then fail output_too_large "Action helper response exceeded 32 KiB" grown
    else elim (line_of grown.response) [
      | none ↦ grown
      | some line ↦ elim (p.parse line) [
        | none ↦ fail host_unavailable "Action helper returned malformed JSON" grown
        | some v ↦ read_value v grown
      ]
    ]

pub data Event : Type 0 where
  aborted timer_fired connected ended : Event
  chunk : String → Event
  socket_error : String → Event

-- `finish` destroys the socket, which then has no more events.
unfoldable pub on_event : Platform → Event → Call → Call
on_event p aborted c = fail tool_timeout "Action helper call was aborted" c
on_event p timer_fired c = fail tool_timeout "Action helper timed out" c
on_event p connected c = record c { request_sent = true }
on_event p (chunk s) c = on_data p s c
on_event p (socket_error code) c =
    fail (if code == "EACCES" then permission_denied else host_unavailable)
      "Action helper is unavailable" c
on_event p ended c = elim (line_of c.response) [
  | none ↦ fail host_unavailable "Action helper closed without a response" c
  | some line ↦ c
]

unfoldable pub step : Platform → Call → Event → Call
step p c e = elim c.settled [ none ↦ on_event p e c | some r ↦ c ]

unfoldable pub run : Platform → Call → List Event → Call
run p c [] = c
run p c (e ∷ es) = run p (step p c e) es

abbrev pub fresh : Bool → Call
fresh may_mutate = record {
  may_mutate = may_mutate;
  response = "";
  settled = none;
  request_sent = false;
}

-- `call` up to its first event, for a payload and a signal that may have been aborted.
unfoldable pub call : Platform → String → Bool → Bool → Call
call p payload may_mutate is_aborted =
    if ltb max_bytes (p.byte_length payload)
    then finish (err (tool_error invalid_arguments "Helper request exceeds 32 KiB"))
        (fresh may_mutate)
    else if is_aborted
    then fail tool_timeout "Action helper call was aborted" (fresh may_mutate)
    else fresh may_mutate

-- `schema` is the `safeParse` of a schema of zod.
unfoldable pub validate_result :
    {A : Type 0} → (Option Value → Option A) → Option Value → String → Result ToolExecutionError A
validate_result schema v o = elim (schema v) [
  | none ↦ err (error_with host_unavailable "Action helper returned an invalid result" o)
  | some a ↦ ok a
]
