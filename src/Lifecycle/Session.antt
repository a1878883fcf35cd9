-- ===== src/Lifecycle/Session.antt =====
-- src/core/lifecycle.ts: what a session rests on, over any order of calls and callbacks.
use agentv.Base.{
  ℕ, suc, String, ◌≡◌, ◌≢◌, refl, subst, inl, inr, Bool, true, false, not, List, [], ◌∷◌, map,
  Option, none, some, arith, contains, Option-cases, Bool-cases, string_eq, nat_eq, option_eq,
}
use agentv.Registry.{ToolDefinition, get_all}
use agentv.Metrics.{RuntimeCounters}
use agentv.Executor.Authorize.{ToolSessionPolicy}
use agentv.Actions.Types.{HelperCapabilities}
use agentv.Transport
use agentv.Transport.{
  WebSocketClient, connect, close, send, force_reconnect, on_open, on_close, on_ping_timer,
  on_reconnect_timer, on_progress,
}
use agentv.Transport.Stopped.{
  connect-stopped, close-stopped, send-stopped, force_reconnect-stopped, on_open-stopped,
  on_close-stopped, on_ping_timer-stopped, on_reconnect_timer-stopped, on_progress-stopped,
}
use agentv.Lifecycle.Handshake.{
  Response, Bounds, Accepted, check_handshake, logs_enabled, handshake_of,
}
use agentv.Lifecycle.Grants.{allowed_tools_exact, check_handshake-IsWithin, IsWithin}
use agentv.Lifecycle.{
  start_call, stop_call, reconnect_timer_fired, ping_timer_fired, pong_received, capabilities_read,
  responded, provisional_timer_fired, handshake_deadline_fired, heartbeat_fired, socket_opened,
  received, socket_closed, pong_deadline_fired, progress, snapshot_send, LifecycleManager, Env,
  Event, create, run, step, force, deliver, start, stop, continue_open, opened, on_capabilities,
  accept_handshake, message, malformed, parsed, Received, on_response, on_provisional_timer,
  on_handshake_deadline, on_heartbeat, socket_open, socket_message, socket_close, pong_deadline,
  send_snapshot, without, grant, clear_session,
}

-- A policy that was granted in this environment and this generation.
pub record IsGranted (env : Env) (generation : ℕ) (p : ToolSessionPolicy) : Type 0 where
  pub current : p.generation ≡ generation
  pub target : p.target_id ≡ env.config.target_id
  pub compiled :
      (t : String)
      → contains p.allowed_tools t ≡ true
      → contains (map (λ (d : ToolDefinition). d.name) (get_all env.registry)) t ≡ true
  pub logs :
      contains p.allowed_tools "query_logs" ≡ true → logs_enabled env.runtime env.config ≡ true
  pub restarts : contains p.allowed_tools "restart_service" ≡ true → p.write_enabled ≡ true
  pub writes : p.write_enabled ≡ true → env.config.write_enabled ≡ true

pub record Inv (env : Env) (l : LifecycleManager) : Type 0 where
  pub runs : l.transport.stopped ≡ not l.running
  pub ready_runs : l.ready ≡ true → l.running ≡ true
  pub no_session :
      l.ready ≡ false → (l.session ≡ none) × (l.snapshots ≡ none) × (l.heartbeat ≡ none)
  pub session : l.ready ≡ true → (l.session ≢ none) × (l.snapshots ≢ none)
  pub beats : (g : ℕ) → l.heartbeat ≡ some g → g ≡ l.generation
  pub granted : (p : ToolSessionPolicy) → l.session ≡ some p → IsGranted env l.generation p
  pub bounded : (b : Bounds) → l.snapshots ≡ some b → IsWithin env.config b

module _ {env : Env} where
  force-Inv : (draw : ℕ) (l : LifecycleManager) → Inv env l → Inv env (force draw l)
  unfolding force
  force-Inv draw l v = ground (arith, force_reconnect-stopped l.transport draw)

  deliver-Inv : (bytes draw : ℕ) (l : LifecycleManager) → Inv env l → Inv env (deliver bytes draw l)
  unfolding deliver
  deliver-Inv bytes draw l v = ground (
    arith,
    send-stopped l.transport bytes,
    force-Inv draw (record l { transport = (send bytes l.transport).1 }),
  )

  start-Inv : (is_created : Bool) (l : LifecycleManager) → Inv env l → Inv env (start is_created l)
  unfolding start
  start-Inv is_created l v = ground (arith, connect-stopped l.transport is_created)

  stop-Inv : (l : LifecycleManager) → Inv env l → Inv env (stop l)
  unfolding stop
  stop-Inv l v = ground (arith, close-stopped l.transport)

  continue_open-Inv :
      (g : ℕ) (ready : Bool) (services : List String) (draw : ℕ) (l : LifecycleManager)
      → Inv env l
      → Inv env (continue_open env g ready services draw l)
  unfolding continue_open
  continue_open-Inv g ready services draw l v =
      let bytes =
        env.handshake_bytes (handshake_of env.runtime env.config env.registry ready services) in
      ground (
        arith,
        send-stopped l.transport bytes,
        force-Inv draw (record l { helper_ready = ready; transport = (send bytes l.transport).1 }),
      )

  opened-Inv : (draw : ℕ) (l : LifecycleManager) → Inv env l → Inv env (opened env draw l)
  unfolding opened
  opened-Inv draw l v =
      let fresh = record (clear_session l) {
        generation = suc l.generation;
        helper_ready = false;
      } in
      ground (arith, continue_open-Inv fresh.generation false [] draw fresh)

  on_capabilities-Inv :
      (g : ℕ) (c : Option HelperCapabilities) (draw : ℕ) (l : LifecycleManager)
      → Inv env l
      → Inv env (on_capabilities env g c draw l)
  unfolding on_capabilities
  on_capabilities-Inv g none draw l v =
      ground (arith, continue_open-Inv g false [] draw (record l { opening = without g l.opening }))
  on_capabilities-Inv g (some h) draw l v =
      let awake = record l { opening = without g l.opening } in
      ground (
        arith,
        continue_open-Inv g false [] draw awake,
        continue_open-Inv g true h.restart_services draw awake,
      )

  grant-IsGranted :
      (a : Accepted) (l : LifecycleManager) → IsGranted env l.generation (grant env a l)
  grant-IsGranted a l =
      let exact = allowed_tools_exact env.runtime env.config env.registry l.helper_ready a.policy in
      record {
        current = refl;
        target = refl;
        compiled = λ t h. ((exact t).0 h).1;
        logs = λ h. ground (arith, exact "query_logs");
        restarts = λ h. ground (arith, exact "restart_service");
        writes = λ h. ground arith;
      }

  accept_handshake-Inv :
      (r : Response) (draw : ℕ) (l : LifecycleManager)
      → l.running ≡ true
      → Inv env l
      → Inv env (accept_handshake env r draw l)
  unfolding accept_handshake
  accept_handshake-Inv r draw l on v = elim (Option-cases (check_handshake env.config r)) [
    | inl e ↦ rw (e, accept_handshake) (force-Inv draw l v)
    | inr (a, e) ↦ elim (Bool-cases a.provisional) [
      | inl later ↦ rw (e, accept_handshake, later) (ground arith)
      | inr now ↦
          rw (e, accept_handshake, now)
            (record {
              runs = v.runs;
              ready_runs = λ h. on;
              no_session = λ h. cc;
              session = λ h. ((λ e. cc), (λ e. cc));
              beats = λ g h. cc;
              granted = λ p h.
                  subst (IsGranted env l.generation) (ground (arith, h)) (grant-IsGranted a l);
              bounded = λ b h. ground (arith, h, check_handshake-IsWithin env.config r a e);
            })
    ]
  ]

  message-Inv :
      (m : Received) (bytes draw : ℕ) (l : LifecycleManager)
      → Inv env l
      → Inv env (message env m bytes draw l)
  unfolding message
  message-Inv malformed bytes draw l v = ground (arith, force-Inv draw l)
  message-Inv (parsed none is_request) bytes draw l v =
      ground (arith, force-Inv draw l, deliver-Inv bytes draw l)
  message-Inv (parsed (some r) is_request) bytes draw l v =
      ground (arith, force-Inv draw l, deliver-Inv bytes draw l, accept_handshake-Inv r draw l)

  step-Inv : (l : LifecycleManager) (e : Event) → Inv env l → Inv env (step env l e)
  unfolding step on_response on_provisional_timer on_handshake_deadline on_heartbeat socket_open
      socket_message socket_close pong_deadline send_snapshot
  step-Inv l (start_call is_created) v = start-Inv is_created l v
  step-Inv l stop_call v = stop-Inv l v
  step-Inv l (reconnect_timer_fired is_created) v =
      ground (arith, on_reconnect_timer-stopped l.transport is_created)
  step-Inv l ping_timer_fired v = ground (arith, on_ping_timer-stopped l.transport)
  step-Inv l pong_received v = ground arith
  step-Inv l (capabilities_read g c draw) v = on_capabilities-Inv g c draw l v
  step-Inv l (responded g bytes draw) v =
      ground (arith, deliver-Inv bytes draw (record l { pending = without g l.pending }))
  step-Inv l (provisional_timer_fired g draw) v =
      ground (arith, force-Inv draw (record l { provisional = without g l.provisional }))
  step-Inv l (handshake_deadline_fired draw) v = ground (arith, force-Inv draw l)
  step-Inv l (heartbeat_fired bytes draw) v = ground (arith, deliver-Inv bytes draw l)
  step-Inv l (socket_opened id draw) v = ground (
    arith,
    on_open-stopped l.transport id,
    opened-Inv draw (record l { transport = on_open id l.transport }),
  )
  step-Inv l (received id m bytes draw) v = ground (arith, message-Inv m bytes draw l)
  step-Inv l (socket_closed id code draw) v =
      ground (arith, on_close-stopped l.transport draw id code)
  step-Inv l (pong_deadline_fired draw) v = ground (
    arith,
    force-Inv draw (record l { transport = record l.transport { pong_deadline = false } }),
  )
  step-Inv l (progress state written) v =
      ground (arith, on_progress-stopped l.transport state written)
  step-Inv l (snapshot_send bytes) v = ground (arith, send-stopped l.transport bytes)

  run-Inv : (l : LifecycleManager) (es : List Event) → Inv env l → Inv env (run env l es)
  unfolding run
  run-Inv l [] v = v
  run-Inv l (e ∷ es) v = run-Inv (step env l e) es (step-Inv l e v)

pub run_sessions :
    (env : Env) (m : RuntimeCounters) (es : List Event)
    → Inv env (run env (create (Transport.create m)) es)
run_sessions env m es = run-Inv (create (Transport.create m)) es (ground arith)
