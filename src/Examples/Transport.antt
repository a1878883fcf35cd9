-- ===== src/Examples/Transport.antt =====
-- Runs of src/transport/websocket-client.ts.
use agentv.Base.{◌+◌, ◌≤◌, ◌≡◌, refl, true, false, not, ◌||◌, any, all, none, List, [], ◌∷◌, some}
use agentv.Metrics.{initial}
use agentv.Transport.{
  Event, connect_call, reconnect_timer_fired, on_reconnect_timer, progress, opened, socket_opened,
  send_call, socket_closed, create, run, step, connect, on_open, on_close, on_progress,
  schedule_reconnect, reconnect_delay, outbound_buffer_limit,
}
use agentv.Transport.Reconnect.{IsLive, may_throw, run-IsLive}
use agentv.Transport.Outbound.{buffered, control_bytes, fits, run_within_limit}

abbrev opening : List Event
opening = connect_call true ∷ progress opened 0 ∷ socket_opened 0 ∷ send_call 1000 ∷ []

abbrev lost : List Event
lost =
    connect_call true
    ∷ progress opened 0
    ∷ socket_opened 0
    ∷ socket_closed 4503599627370496 0 1006
    ∷ []

-- the CA bundle has gone when the reconnect timer fires
abbrev stranded : List Event
stranded = socket_closed 4503599627370496 0 1006 ∷ reconnect_timer_fired false ∷ []

run-IsLive_example :
    IsLive (run (create initial) lost)
    × ((not (run (create initial) lost).threw || any may_throw lost) ≡ true)
run-IsLive_example = run-IsLive initial lost

stranded_threw :
    let c =
      run (create initial) (connect_call true ∷ progress opened 0 ∷ socket_opened 0 ∷ stranded) in
    (c.threw ≡ true) × (c.stopped ≡ false) × (c.socket ≡ none) × (c.reconnect_timer ≡ none)
unfolding run step connect on_progress on_open on_close schedule_reconnect on_reconnect_timer
stranded_threw = (refl, refl, refl, refl)

timer_set : (run (create initial) lost).reconnect_timer ≡ some 750
unfolding run step connect on_progress on_open on_close schedule_reconnect reconnect_delay
timer_set = refl

run_within_limit_example :
    (all fits (run (create initial) opening).signals ≡ true)
    × (buffered (run (create initial) opening)
        ≤ outbound_buffer_limit + 14 + control_bytes (create initial) opening)
run_within_limit_example = run_within_limit initial opening
