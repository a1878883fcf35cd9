-- ===== src/Transport/Reconnect.antt =====
-- src/transport/websocket-client.ts: reconnecting, over any order of calls and callbacks.
use agentv.Base.{
  ℕ, zero, suc, ◌+◌, ◌*◌, ◌/◌, ◌^◌, ◌≤◌, ◌<◌, ◌≡◌, ◌≢◌, ◌⊎◌, Bool, true, false, not, ◌||◌, any,
  List, [], ◌∷◌, none, some, arith,
}
use agentv.Metrics.{RuntimeCounters}
use agentv.Transport.{
  WebSocketClient, Event, create, run, step, connect, send, force_reconnect, close, on_open,
  on_message, on_error, on_close, on_ping_timer, on_pong_deadline, on_reconnect_timer, on_progress,
  schedule_reconnect, force_call, connect_call, reconnect_timer_fired, socket_closed,
  pong_deadline_fired, base_delay, random_scale, reconnect_delay,
}

-- A running client has a socket or a reconnect timer, unless its last `connect` threw; a stopped one has
-- neither, and a timer is only set without a socket.
pub record IsLive (c : WebSocketClient) : Type 0 where
  pub stranded_never :
      c.stopped ≡ false → (c.socket ≢ none) ⊎ (c.reconnect_timer ≢ none) ⊎ (c.threw ≡ true)
  pub quiet :
      c.stopped ≡ true
      → (c.socket ≡ none)
        × (c.reconnect_timer ≡ none)
        × (c.ping_timer ≡ none)
        × (c.pong_deadline ≡ false)
  pub waits : (d : ℕ) → c.reconnect_timer ≡ some d → c.socket ≡ none

step-IsLive : (c : WebSocketClient) (e : Event) → IsLive c → IsLive (step c e)
unfolding step connect send force_reconnect close on_open on_message on_error on_close on_ping_timer
    on_pong_deadline on_reconnect_timer on_progress schedule_reconnect
step-IsLive c e v = ground arith

steps-IsLive : (c : WebSocketClient) (es : List Event) → IsLive c → IsLive (run c es)
unfolding run
steps-IsLive c [] v = v
steps-IsLive c (e ∷ es) v = steps-IsLive (step c e) es (step-IsLive c e v)

-- An event whose call of `connect` may throw.
abbrev pub may_throw : Event → Bool
may_throw (connect_call is_created) = not is_created
may_throw (reconnect_timer_fired is_created) = not is_created
may_throw _ = false

step-threw :
    (c : WebSocketClient) (e : Event) → (step c e).threw ≡ true → (c.threw || may_throw e) ≡ true
unfolding step connect send force_reconnect close on_open on_message on_error on_close on_ping_timer
    on_pong_deadline on_reconnect_timer on_progress schedule_reconnect
step-threw c e h = ground arith

run-threw :
    (c : WebSocketClient) (es : List Event)
    → (not (run c es).threw || (c.threw || any may_throw es)) ≡ true
unfolding run
run-threw c [] = ground arith
run-threw c (e ∷ es) = ground (arith, run-threw (step c e) es, step-threw c e)

-- After any calls and callbacks in any order, a client that is not stopped has a socket or a reconnect
-- timer, unless its last call of `connect` threw, which takes a CA bundle that cannot be read or a
-- constructor that throws; a stopped client has neither and no ping timers, and a client with a reconnect
-- timer has no socket.
pub run-IsLive :
    (m : RuntimeCounters) (es : List Event)
    → IsLive (run (create m) es) × ((not (run (create m) es).threw || any may_throw es) ≡ true)
run-IsLive m es = (steps-IsLive (create m) es (ground arith), run-threw (create m) es)

pow_positive : (n : ℕ) → 1 ≤ 2 ^ n
pow_positive zero = omega arith
pow_positive (suc n) = omega (arith, pow_positive n)

scaled : (a b c : ℕ) → a ≤ b → a * c ≤ b * c
scaled a b c h = grind arith

rounded :
    (base x : ℕ)
    → x ≤ base * random_scale
    → let delay = (base * random_scale + x + random_scale) / (2 * random_scale) in
      (base ≤ 2 * delay) × (delay ≤ base)
rounded base x h = omega arith

-- The jittered delay of a reconnect is between half of the backoff and the backoff, and the backoff is
-- between one second and fifteen seconds.
pub reconnect_delay_bounds :
    (attempts draw : ℕ)
    → draw < random_scale
    → (base_delay attempts ≤ 2 * reconnect_delay attempts draw)
      × (reconnect_delay attempts draw ≤ base_delay attempts)
      × (500 ≤ reconnect_delay attempts draw)
      × (reconnect_delay attempts draw ≤ 15000)
unfolding reconnect_delay
reconnect_delay_bounds attempts draw h =
    let base = base_delay attempts in
    let draws = scaled draw random_scale base (omega arith) in
    let half = rounded base (draw * base) (grind (arith, draws)) in
    omega (arith, half, pow_positive attempts)

-- An event whose draw of `Math.random()` is below 1.
abbrev pub IsFair : Event → Type 0
IsFair (force_call draw) = draw < random_scale
IsFair (socket_closed draw id code) = draw < random_scale
IsFair (pong_deadline_fired draw) = draw < random_scale
IsFair _ = Unit {0}

abbrev pub AllFair : List Event → Type 0
AllFair [] = Unit {0}
AllFair (e ∷ es) = IsFair e × AllFair es

abbrev pub IsPaced : WebSocketClient → Type 0
IsPaced c = (d : ℕ) → c.reconnect_timer ≡ some d → (500 ≤ d) × (d ≤ 15000)

schedule_reconnect-IsPaced :
    (draw : ℕ) (c : WebSocketClient)
    → draw < random_scale
    → IsPaced c
    → IsPaced (schedule_reconnect draw c)
unfolding schedule_reconnect
schedule_reconnect-IsPaced draw c h v = ground (arith, reconnect_delay_bounds c.attempts draw h)

step-IsPaced : (c : WebSocketClient) (e : Event) → IsFair e → IsPaced c → IsPaced (step c e)
unfolding step connect send force_reconnect close on_open on_message on_error on_close on_ping_timer
    on_pong_deadline on_reconnect_timer on_progress schedule_reconnect
step-IsPaced c (force_call draw) f v = ground (arith, reconnect_delay_bounds c.attempts draw f)
step-IsPaced c (socket_closed draw id code) f v =
    ground (arith, reconnect_delay_bounds c.attempts draw f)
step-IsPaced c (pong_deadline_fired draw) f v =
    ground (arith, reconnect_delay_bounds c.attempts draw f)
step-IsPaced c e f v = ground arith

run-IsPaced : (c : WebSocketClient) (es : List Event) → AllFair es → IsPaced c → IsPaced (run c es)
unfolding run
run-IsPaced c [] f v = v
run-IsPaced c (e ∷ es) f v = run-IsPaced (step c e) es f.1 (step-IsPaced c e f.0 v)

-- After any calls and callbacks whose draws are below 1, a reconnect timer was set to a delay between
-- half a second and fifteen seconds.
pub run_paced :
    (m : RuntimeCounters) (es : List Event)
    → AllFair es
    → (d : ℕ) → (run (create m) es).reconnect_timer ≡ some d
    → (500 ≤ d) × (d ≤ 15000)
run_paced m es f d e = run-IsPaced (create m) es f (λ d h. cc) d e
