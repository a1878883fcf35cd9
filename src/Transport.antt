-- ===== src/Transport.antt =====
-- src/transport/websocket-client.ts, `WebSocketClient`: a step for each call and each callback. The
-- socket's ready state and its buffered bytes are the library's; `progress` is its change of them.
pub mod Reconnect
pub mod Outbound
pub mod Stopped
use agentv.Base.{
  ℕ, zero, suc, ◌+◌, ◌-◌, ◌*◌, ◌/◌, ◌^◌, min, String, Bool, true, false, not, ◌&&◌, ◌||◌, List, [],
  ◌∷◌, Option, none, some, ◌==◌, ◌!=◌, nat_eq, if◌then◌else◌, ltb,
}
use agentv.Metrics.{RuntimeCounters, Key, increment}

pub data ReadyState : Type 0 where
  connecting opened closing closed : ReadyState

pub record Socket : Type 0 where
  pub id : ℕ
  pub ready_state : ReadyState
  pub buffered_amount : ℕ

-- What the client emits to its listeners, and what it does to sockets: `sent` has the bytes of a payload
-- and those that were buffered before it.
pub data Signal : Type 0 where
  emit_open : Signal
  emit_message : String → Signal
  emit_error : String → Signal
  emit_close : ℕ → Signal
  sent : ℕ → ℕ → ℕ → Signal
  pinged : ℕ → Signal
  terminated : ℕ → Signal
  closed_normally : ℕ → Signal

-- `reconnect_timer` holds the delay it was set with, and `ping_timer` the socket that it pings.
-- `created` counts the sockets, each of which is identified by its number. `threw` says that the last
-- `connect` let an exception out, for its CA bundle cannot be read or `new WebSocket` throws.
pub record WebSocketClient : Type 0 where
  pub socket : Option Socket
  pub reconnect_timer : Option ℕ
  pub ping_timer : Option ℕ
  pub pong_deadline : Bool
  pub attempts : ℕ
  pub stopped : Bool
  pub created : ℕ
  pub threw : Bool
  pub signals : List Signal
  pub metrics : RuntimeCounters

abbrev pub outbound_buffer_limit : ℕ
outbound_buffer_limit = 2097152

abbrev pub is_closed : ReadyState → Bool
is_closed closed = true
is_closed _ = false

abbrev pub is_open_state : ReadyState → Bool
is_open_state opened = true
is_open_state _ = false

abbrev pub signal : Signal → WebSocketClient → WebSocketClient
signal g c = record c { signals = g ∷ c.signals }

abbrev pub clear_reconnect : WebSocketClient → WebSocketClient
clear_reconnect c = record c { reconnect_timer = none }

abbrev pub clear_ping : WebSocketClient → WebSocketClient
clear_ping c = record c { ping_timer = none; pong_deadline = false }

-- A draw of `Math.random()` is `draw / 2 ^ 53`.
abbrev pub random_scale : ℕ
random_scale = 9007199254740992

abbrev pub base_delay : ℕ → ℕ
base_delay attempts = min (1000 * 2 ^ attempts) 15000

-- `Math.round(base / 2 + Math.random() * base / 2)`
unfoldable pub reconnect_delay : ℕ → ℕ → ℕ
reconnect_delay attempts draw =
    let base = base_delay attempts in
    (base * random_scale + draw * base + random_scale) / (2 * random_scale)

abbrev has_timer : Option ℕ → Bool
has_timer none = false
has_timer (some d) = true

unfoldable pub schedule_reconnect : ℕ → WebSocketClient → WebSocketClient
schedule_reconnect draw c = if c.stopped || has_timer c.reconnect_timer then c else record c {
  attempts = suc c.attempts;
  metrics = increment Key.reconnects c.metrics;
  reconnect_timer = some (reconnect_delay c.attempts draw);
}

abbrev keeps_socket : Option Socket → Bool
keeps_socket none = false
keeps_socket (some s) = not (is_closed s.ready_state)

-- `is_created` says that `readFileSync` and `new WebSocket` return.
unfoldable pub connect : Bool → WebSocketClient → WebSocketClient
connect is_created c =
    if keeps_socket c.socket
    then record (clear_reconnect c) { stopped = false; threw = false }
    else if not is_created
    then record (clear_reconnect c) { stopped = false; threw = true }
    else record (clear_reconnect c) {
      stopped = false;
      threw = false;
      socket = some (record { id = c.created; ready_state = connecting; buffered_amount = 0 });
      created = suc c.created;
    }

abbrev pub accepts : WebSocketClient → Socket → ℕ → Bool
accepts c s bytes =
    not c.stopped
    && is_open_state s.ready_state
    && not (ltb outbound_buffer_limit bytes)
    && not (ltb outbound_buffer_limit (s.buffered_amount + bytes))

-- The header and the mask of a frame of a client, RFC 6455.
abbrev pub frame_header : ℕ → ℕ
frame_header bytes = if ltb bytes 126 then 6 else if ltb bytes 65536 then 8 else 14

-- The bytes of the payload stand for it; the Boolean is the result.
unfoldable pub send : ℕ → WebSocketClient → Bool × WebSocketClient
send bytes c = elim c.socket [
  | none ↦ (false, c)
  | some s ↦
      if accepts c s bytes
      then (
        true,
        record (signal (sent s.id bytes s.buffered_amount) c) {
          socket =
              some
                (record s { buffered_amount = s.buffered_amount + (bytes + frame_header bytes) });
        },
      )
      else (false, c)
]

abbrev pub mark_ready : WebSocketClient → WebSocketClient
mark_ready c = record c { attempts = 0 }

abbrev pub is_open : WebSocketClient → Bool
is_open c = not c.stopped && elim c.socket [ none ↦ false | some s ↦ is_open_state s.ready_state ]

abbrev pub drop_socket : (ℕ → Signal) → WebSocketClient → WebSocketClient
drop_socket how c = elim c.socket [
  | none ↦ c
  | some s ↦
      let gone = record c { socket = none } in
      if is_closed s.ready_state then gone else signal (how s.id) gone
]

unfoldable pub force_reconnect : ℕ → WebSocketClient → WebSocketClient
force_reconnect draw c =
    if c.stopped
    then c
    else schedule_reconnect draw (signal (emit_close 1006) (drop_socket terminated (clear_ping c)))

unfoldable pub close : WebSocketClient → WebSocketClient
close c = drop_socket closed_normally (clear_ping (record (clear_reconnect c) { stopped = true }))

abbrev pub owns : WebSocketClient → ℕ → Bool
owns c id = elim c.socket [ none ↦ false | some s ↦ s.id == id ]

unfoldable pub on_open : ℕ → WebSocketClient → WebSocketClient
on_open id c =
    if not (owns c id) || c.stopped
    then c
    else signal emit_open (record (clear_ping c) { ping_timer = some id })

unfoldable pub on_message : ℕ → String → WebSocketClient → WebSocketClient
on_message id content c = if owns c id && not c.stopped then signal (emit_message content) c else c

unfoldable pub on_error : ℕ → String → WebSocketClient → WebSocketClient
on_error id message c = if owns c id && not c.stopped then signal (emit_error message) c else c

abbrev pub on_pong : WebSocketClient → WebSocketClient
on_pong c = record c { pong_deadline = false }

unfoldable pub on_close : ℕ → ℕ → ℕ → WebSocketClient → WebSocketClient
on_close draw id code c =
    if not (owns c id)
    then c
    else schedule_reconnect draw
        (signal (emit_close code) (clear_ping (record c { socket = none })))

-- The interval of `startPing`.
unfoldable pub on_ping_timer : WebSocketClient → WebSocketClient
on_ping_timer c = elim c.ping_timer [
  | none ↦ c
  | some id ↦ elim c.socket [
    | none ↦ c
    | some s ↦
        if s.id == id && is_open_state s.ready_state
        then signal (pinged id) (record c {
          pong_deadline = true;
          socket = some (record s { buffered_amount = s.buffered_amount + frame_header 0 });
        })
        else c
  ]
]

unfoldable pub on_pong_deadline : ℕ → WebSocketClient → WebSocketClient
on_pong_deadline draw c =
    if c.pong_deadline then force_reconnect draw (record c { pong_deadline = false }) else c

unfoldable pub on_reconnect_timer : Bool → WebSocketClient → WebSocketClient
on_reconnect_timer is_created c = elim c.reconnect_timer [
  | none ↦ c
  | some d ↦ if c.stopped then clear_reconnect c else connect is_created (clear_reconnect c)
]

-- The library: the socket's ready state moves on, and another number of bytes is buffered.
unfoldable pub on_progress : ReadyState → ℕ → WebSocketClient → WebSocketClient
on_progress state amount c = elim c.socket [
  | none ↦ c
  | some s ↦ record c { socket = some (record s { ready_state = state; buffered_amount = amount }) }
]

-- Each event that may schedule a reconnect has the draw of it.
pub data Event : Type 0 where
  mark_ready_call close_call ping_timer_fired pong_received : Event
  connect_call reconnect_timer_fired : Bool → Event
  send_call : ℕ → Event
  force_call : ℕ → Event
  socket_opened : ℕ → Event
  socket_message : ℕ → String → Event
  socket_error : ℕ → String → Event
  socket_closed : ℕ → ℕ → ℕ → Event
  pong_deadline_fired : ℕ → Event
  progress : ReadyState → ℕ → Event

unfoldable pub step : WebSocketClient → Event → WebSocketClient
step c (connect_call is_created) = connect is_created c
step c mark_ready_call = mark_ready c
step c close_call = close c
step c ping_timer_fired = on_ping_timer c
step c (reconnect_timer_fired is_created) = on_reconnect_timer is_created c
step c pong_received = on_pong c
step c (send_call bytes) = (send bytes c).1
step c (force_call draw) = force_reconnect draw c
step c (socket_opened id) = on_open id c
step c (socket_message id content) = on_message id content c
step c (socket_error id message) = on_error id message c
step c (socket_closed draw id code) = on_close draw id code c
step c (pong_deadline_fired draw) = on_pong_deadline draw c
step c (progress state amount) = on_progress state amount c

unfoldable pub run : WebSocketClient → List Event → WebSocketClient
run c [] = c
run c (e ∷ es) = run (step c e) es

abbrev pub create : RuntimeCounters → WebSocketClient
create m = record {
  socket = none;
  reconnect_timer = none;
  ping_timer = none;
  pong_deadline = false;
  attempts = 0;
  stopped = true;
  created = 0;
  threw = false;
  signals = [];
  metrics = m;
}
