-- ===== src/Lifecycle/Routing.antt =====
-- src/core/lifecycle.ts, `message`: what reaches the router.
use agentv.Base.{
  ℕ, String, ◌≡◌, refl, Bool, true, false, List, [], Option, none, some, arith, Option-cases, inl,
  inr, suc, option_eq, nat_eq, string_eq,
}
use agentv.Actions.Types.{HelperCapabilities}
use agentv.Transport.{send, on_open}
use agentv.Lifecycle.Handshake.{Response, check_handshake, handshake_of}
use agentv.Lifecycle.{
  start_call, stop_call, capabilities_read, responded, provisional_timer_fired,
  handshake_deadline_fired, heartbeat_fired, socket_opened, received, socket_closed,
  pong_deadline_fired, snapshot_send, LifecycleManager, Env, Event, step, force, deliver, start,
  stop, continue_open, opened, clear_session, without, on_capabilities, accept_handshake, message,
  malformed, parsed, Received, on_response, on_provisional_timer, on_handshake_deadline,
  on_heartbeat, socket_open, socket_message, socket_close, pong_deadline, send_snapshot,
}

force-routed : (l : LifecycleManager) (draw : ℕ) → (force draw l).routed ≡ l.routed
unfolding force
force-routed l draw = ground arith

module _ (env : Env) where
  deliver-routed :
      (bytes draw : ℕ) (l : LifecycleManager) → (deliver bytes draw l).routed ≡ l.routed
  unfolding deliver
  deliver-routed bytes draw l =
      ground (arith, force-routed (record l { transport = (send bytes l.transport).1 }) draw)

  continue_open-routed :
      (g : ℕ) (ready : Bool) (services : List String) (draw : ℕ) (l : LifecycleManager)
      → (continue_open env g ready services draw l).routed ≡ l.routed
  unfolding continue_open
  continue_open-routed g ready services draw l =
      let bytes =
        env.handshake_bytes (handshake_of env.runtime env.config env.registry ready services) in
      ground (
        arith,
        force-routed (record l { helper_ready = ready; transport = (send bytes l.transport).1 })
            draw,
      )

  opened-routed : (draw : ℕ) (l : LifecycleManager) → (opened env draw l).routed ≡ l.routed
  unfolding opened
  opened-routed draw l =
      let fresh = record (clear_session l) {
        generation = suc l.generation;
        helper_ready = false;
      } in
      ground (arith, continue_open-routed fresh.generation false [] draw fresh)

  accept_handshake-routed :
      (r : Response) (draw : ℕ) (l : LifecycleManager)
      → (accept_handshake env r draw l).routed ≡ l.routed
  unfolding accept_handshake
  accept_handshake-routed r draw l = elim (Option-cases (check_handshake env.config r)) [
    | inl e ↦ rw (e, accept_handshake) (force-routed l draw)
    | inr (a, e) ↦ rw (e, accept_handshake) (ground arith)
  ]

  message-routed :
      (m : Received) (bytes draw : ℕ) (l : LifecycleManager)
      → l.ready ≡ false
      → (message env m bytes draw l).routed ≡ l.routed
  unfolding message
  message-routed malformed bytes draw l n = ground (arith, force-routed l draw)
  message-routed (parsed none q) bytes draw l n = ground (arith, force-routed l draw)
  message-routed (parsed (some r) q) bytes draw l n =
      ground (arith, force-routed l draw, accept_handshake-routed r draw l)

  on_capabilities-routed :
      (g : ℕ) (c : Option HelperCapabilities) (draw : ℕ) (l : LifecycleManager)
      → (on_capabilities env g c draw l).routed ≡ l.routed
  unfolding on_capabilities
  on_capabilities-routed g none draw l =
      ground
        (arith, continue_open-routed g false [] draw (record l { opening = without g l.opening }))
  on_capabilities-routed g (some h) draw l =
      let awake = record l { opening = without g l.opening } in
      ground (
        arith,
        continue_open-routed g false [] draw awake,
        continue_open-routed g true h.restart_services draw awake,
      )

  -- Until a session is ready, no call, timer or message of any kind hands a request to the router.
  pub unready_routes_nothing :
      (l : LifecycleManager) (e : Event) → l.ready ≡ false → (step env l e).routed ≡ l.routed
  unfolding step start stop on_response on_provisional_timer on_handshake_deadline on_heartbeat
      socket_open socket_message socket_close pong_deadline send_snapshot
  unready_routes_nothing l (start_call is_created) n = ground arith
  unready_routes_nothing l stop_call n = ground arith
  unready_routes_nothing l (capabilities_read g c draw) n = on_capabilities-routed g c draw l
  unready_routes_nothing l (responded g bytes draw) n = ground arith
  unready_routes_nothing l (provisional_timer_fired g draw) n =
      ground (arith, force-routed (record l { provisional = without g l.provisional }) draw)
  unready_routes_nothing l (handshake_deadline_fired draw) n = ground (arith, force-routed l draw)
  unready_routes_nothing l (heartbeat_fired bytes draw) n =
      ground (arith, deliver-routed bytes draw l)
  unready_routes_nothing l (socket_opened id draw) n =
      ground (arith, opened-routed draw (record l { transport = on_open id l.transport }))
  unready_routes_nothing l (received id m bytes draw) n =
      ground (arith, message-routed m bytes draw l)
  unready_routes_nothing l (socket_closed id code draw) n = ground arith
  unready_routes_nothing l (pong_deadline_fired draw) n = ground (
    arith,
    force-routed (record l { transport = record l.transport { pong_deadline = false } }) draw,
  )
  unready_routes_nothing l (snapshot_send bytes) n = ground arith
  unready_routes_nothing l _ n = refl
