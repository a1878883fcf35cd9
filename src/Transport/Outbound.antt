-- ===== src/Transport/Outbound.antt =====
-- src/transport/websocket-client.ts: what is sent, and the sockets whose callbacks count.
use agentv.Base.{
  Bool, refl, leb, all, ℕ, ◌+◌, ◌-◌, ◌≤◌, ◌≡◌, ◌↔◌, true, false, List, [], ◌∷◌, none, some, arith,
  String,
}
use agentv.Metrics.{RuntimeCounters}
use agentv.Transport.{
  WebSocketClient, Signal, sent, Event, create, run, step, connect, send, force_reconnect, close,
  on_open, on_message, on_error, on_close, on_ping_timer, on_pong_deadline, on_reconnect_timer,
  on_progress, schedule_reconnect, frame_header, progress, ping_timer_fired, outbound_buffer_limit,
  owns, is_open,
}

-- The bytes that wait in the socket.
abbrev pub buffered : WebSocketClient → ℕ
buffered c = elim c.socket [ none ↦ 0 | some s ↦ s.buffered_amount ]

-- A payload that fitted in the outbound limit, with all that was buffered before it.
abbrev pub fits : Signal → Bool
fits (sent id bytes before) = leb (before + bytes) outbound_buffer_limit
fits _ = true

step-fits :
    (c : WebSocketClient) (e : Event)
    → all fits c.signals ≡ true
    → all fits (step c e).signals ≡ true
unfolding step connect send force_reconnect close on_open on_message on_error on_close on_ping_timer
    on_pong_deadline on_reconnect_timer on_progress schedule_reconnect
step-fits c e v = ground arith

steps-fits :
    (c : WebSocketClient) (es : List Event)
    → all fits c.signals ≡ true
    → all fits (run c es).signals ≡ true
unfolding run
steps-fits c [] v = v
steps-fits c (e ∷ es) v = steps-fits (step c e) es (step-fits c e v)

-- What an event may add to the buffer besides payloads: a ping, or what the library adds on its own,
-- such as its answer to a ping.
abbrev pub growth : WebSocketClient → Event → ℕ
growth c (progress state amount) = amount - buffered c
growth c ping_timer_fired = frame_header 0
growth c _ = 0

unfoldable pub control_bytes : WebSocketClient → List Event → ℕ
control_bytes c [] = 0
control_bytes c (e ∷ es) = growth c e + control_bytes (step c e) es

step-buffered :
    (c : WebSocketClient) (e : Event) (n : ℕ)
    → buffered c ≤ outbound_buffer_limit + 14 + n
    → buffered (step c e) ≤ outbound_buffer_limit + 14 + (n + growth c e)
unfolding step connect send force_reconnect close on_open on_message on_error on_close on_ping_timer
    on_pong_deadline on_reconnect_timer on_progress schedule_reconnect
step-buffered c e n h = ground arith

steps-buffered :
    (c : WebSocketClient) (es : List Event) (n : ℕ)
    → buffered c ≤ outbound_buffer_limit + 14 + n
    → buffered (run c es) ≤ outbound_buffer_limit + 14 + (n + control_bytes c es)
unfolding run control_bytes
steps-buffered c [] n h = omega (arith, h)
steps-buffered c (e ∷ es) n h =
    let later = steps-buffered (step c e) es (n + growth c e) (step-buffered c e n h) in
    omega (arith, later)

-- After any calls and callbacks in any order, each payload that was handed to a socket fitted in the
-- outbound limit together with what was buffered for that socket then; and what is buffered is at most
-- the limit, the 14 bytes of one header, and the control frames: the pings and what the library added
-- on its own.
pub run_within_limit :
    (m : RuntimeCounters) (es : List Event)
    → (all fits (run (create m) es).signals ≡ true)
      × (buffered (run (create m) es) ≤ outbound_buffer_limit + 14 + control_bytes (create m) es)
run_within_limit m es =
    (steps-fits (create m) es refl, omega (arith, steps-buffered (create m) es 0 (omega arith)))

-- A payload is sent exactly if the socket is open and takes it within the limit; otherwise nothing
-- changes.
pub send_exact :
    (bytes : ℕ) (c : WebSocketClient)
    → (((send bytes c).0 ≡ true)
        ↔ ((is_open c ≡ true) × (buffered c + bytes ≤ outbound_buffer_limit)))
      × ((send bytes c).0 ≡ false → (send bytes c).1 ≡ c)
unfolding send
send_exact bytes c = ground arith

-- The callbacks of a socket that the client has dropped change nothing.
pub stale_socket :
    (id : ℕ) (c : WebSocketClient)
    → owns c id ≡ false
    → (on_open id c ≡ c)
      × ((m : String) → on_message id m c ≡ c)
      × ((m : String) → on_error id m c ≡ c)
      × ((draw code : ℕ) → on_close draw id code c ≡ c)
unfolding on_open on_message on_error on_close
stale_socket id c h = ground arith
