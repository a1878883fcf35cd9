-- ===== src/Adapters/Sockets.antt =====
-- src/adapters/sockets.ts: listening sockets, from the rows of ss.
use agentv.Base.{
  ℕ, ◌*◌, String, List, [], ◌∷◌, ◌++◌, Bool, true, false, not, ◌&&◌, ◌||◌, ◌==◌, Option, none, some,
  if◌then◌else◌, string_eq, nat_eq, keep, any,
}
use agentv.Base.Result.{Result, ok, ◌>>=◌}
use agentv.Base.Scan.{
  split, cut_first, cut_last, is_empty, trim, words, join, has_text, strip, first_match,
  starts_digit, digits_onto, number,
}
use agentv.Base.Sort.{Sign, difference, then_by, sort}
use agentv.Adapters.{CollectorHealth, Page, page, or_text, flat_map}
use agentv.Adapters.Command.{Platform, run_command}
use agentv.Errors.{Thrown}

pub data Protocol : Type 0 where
  tcp udp : Protocol

pub record ListenerSummary : Type 0 where
  pub protocol : Protocol
  pub address : String
  pub port : ℕ
  pub pid : Option ℕ
  pub process : Option String
  pub ownership_status : String

-- Digits and nothing else: `(\d+)$`
abbrev all_digits : String → Option ℕ
all_digits s =
    let (n, rest) = digits_onto 0 s in if starts_digit s && is_empty rest then some n else none

-- `/^\[([^\]]+)]:(\d+)$/`
abbrev address_of : Option (String × String) → Option (String × ℕ)
address_of none = none
address_of (some (address, after)) = elim (strip ":" after) [
  | none ↦ none
  | some digits ↦ elim (all_digits digits) [
    | none ↦ none
    | some port ↦ if is_empty address then none else some (address, port)
  ]
]

abbrev bracketed : String → Option (String × ℕ)
bracketed value = elim (strip "[" value) [
  | none ↦ none
  | some inner ↦ address_of (cut_first b']' inner)
]

-- An address with a port that is an integer, or nothing.
unfoldable pub endpoint : String → Option (String × ℕ)
endpoint value = elim (bracketed value) [
  | some found ↦ some found
  | none ↦ elim (cut_last b':' value) [
    | none ↦ none
    | some (address, port) ↦ elim (number port) [ none ↦ none | some n ↦ some (address, n) ]
  ]
]

-- `/pid=(\d+)/` and `/users:\(\("([^"]+)"/`
abbrev pid_here : String → Option ℕ
pid_here s = elim (strip "pid=" s) [
  | none ↦ none
  | some digits ↦ if starts_digit digits then some ((digits_onto 0 digits).0) else none
]

abbrev name_here : String → Option String
name_here s = elim (strip "users:((\"" s) [
  | none ↦ none
  | some after ↦ elim (cut_first 34 after) [
    | none ↦ none
    | some (name, _) ↦ if is_empty name then none else some name
  ]
]

abbrev row_of : Protocol → String → String × ℕ → ListenerSummary
row_of protocol process_text (address, port) =
    let pid = first_match pid_here process_text in
    record {
      protocol = protocol;
      address = address;
      port = port;
      pid = pid;
      process = first_match name_here process_text;
      ownership_status = elim pid [ none ↦ "unavailable" | some _ ↦ "available" ];
    }

-- the fourth field of a row with five fields or more
abbrev parse_row : Protocol → List String → List ListenerSummary
parse_row protocol (a ∷ b ∷ c ∷ local ∷ e ∷ process) = elim (endpoint local) [
  | none ↦ []
  | some found ↦ row_of protocol (join " " process) found ∷ []
]
parse_row protocol _ = []

unfoldable pub parse_socket_output : Protocol → String → List ListenerSummary
unfolding endpoint
parse_socket_output protocol text =
    flat_map (λ line. parse_row protocol (words (trim line))) (split 10 text)

pub record ListenersInput : Type 0 where
  pub protocol : Option Protocol
  pub port : Option ℕ
  pub address : Option String
  pub process_query : Option String
  pub limit : ℕ

abbrev pub same_protocol : Protocol → Protocol → Bool
same_protocol tcp tcp = true
same_protocol udp udp = true
same_protocol _ _ = false

abbrev pub protocols : Option Protocol → List Protocol
protocols (some protocol) = protocol ∷ []
protocols none = tcp ∷ udp ∷ []

abbrev flag : Protocol → String
flag tcp = "-t"
flag udp = "-u"

-- A command for each protocol; the first that fails is the failure of the listing.
unfoldable pub read_rows : Platform → String → List Protocol → Result Thrown (List ListenerSummary)
read_rows p executable [] = ok []
read_rows p executable (protocol ∷ protocols) = do
  result ←
      run_command p executable ("-H" ∷ "-l" ∷ "-n" ∷ "-p" ∷ flag protocol ∷ [])
        (record { timeout_ms = 5000; max_bytes = 1024 * 1024 })
  rest ← read_rows p executable protocols
  ok (parse_socket_output protocol result.stdout ++ rest)

abbrev pub same_port : Option ℕ → ListenerSummary → Bool
same_port none row = true
same_port (some port) row = row.port == port

abbrev pub same_address : Option String → ListenerSummary → Bool
same_address none row = true
same_address (some address) row = is_empty address || row.address == address

abbrev pub matches_process : Platform → Option String → ListenerSummary → Bool
matches_process p none row = true
matches_process p (some query) row =
    is_empty query || has_text (p.lower_case query) (p.lower_case (or_text row.process ""))

abbrev name_of : Protocol → String
name_of tcp = "tcp"
name_of udp = "udp"

unfoldable pub compare_rows : Platform → ListenerSummary → ListenerSummary → Sign
compare_rows p a b = then_by (difference a.port b.port) (
    then_by (p.locale_compare (name_of a.protocol) (name_of b.protocol))
      (p.locale_compare a.address b.address))

unfoldable pub matching : Platform → ListenersInput → List ListenerSummary → List ListenerSummary
matching p input rows = sort (compare_rows p) (
    keep (matches_process p input.process_query)
      (keep (same_address input.address) (keep (same_port input.port) rows)))

pub record Listing : Type 0 where
  pub page : Page ListenerSummary
  pub partial : Bool
  pub health : CollectorHealth

abbrev pub is_unowned : ListenerSummary → Bool
is_unowned row = not (row.ownership_status == "available")

unfoldable pub listing_of : ℕ → List ListenerSummary → Listing
listing_of limit rows =
    let partial = any is_unowned rows in
    record {
      page = page limit rows;
      partial = partial;
      health = record {
        collector = "sockets";
        status = if partial then "partial" else "ok";
        message = if partial then some "Some process ownership was unavailable" else none;
      };
    }

-- `executable` is what `resolveExecutable` returned when the adapter was built.
unfoldable pub list : Platform → Result Thrown String → ListenersInput → Result Thrown Listing
list p executable input = do
  path ← executable
  rows ← read_rows p path (protocols input.protocol)
  ok (listing_of input.limit (matching p input rows))
