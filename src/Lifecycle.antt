-- ===== src/Lifecycle.antt =====
-- src/core/lifecycle.ts, `LifecycleManager`: a step for each call, callback and continuation. It owns
-- the transport of src/transport/websocket-client.ts; the router's policy is `session` and the
-- snapshot schedule is `snapshots`.
pub mod Handshake
pub mod Session
pub mod Grants
pub mod Routing
use agentv.Base.{
  ℕ, suc, String, Bool, true, false, not, ◌&&◌, ◌||◌, List, [], ◌∷◌, Option, none, some, ltb, ◌==◌,
  ◌!=◌, nat_eq, string_eq, option_eq, if◌then◌else◌, contains, length,
}
use agentv.Registry.{ToolRegistry}
use agentv.Executor.Authorize.{ToolSessionPolicy}
use agentv.Actions.Types.{HelperCapabilities}
use agentv.Transport.{
  WebSocketClient, connect, close, send, mark_ready, is_open, force_reconnect, owns, on_open,
  on_message, on_error, on_close, on_pong, on_ping_timer, on_reconnect_timer, on_progress,
  ReadyState,
}
use agentv.Lifecycle.Handshake.{
  AgentConfig, Runtime, linux, windows, Response, Bounds, Accepted, check_handshake, allowed_tools,
  HandshakeRequest, handshake_of,
}

-- The calls of `sessionState`.
pub data SessionSignal : Type 0 where
  authenticated disconnected provisional_authenticated : SessionSignal

-- `opening` and `provisional` hold the generation of each `open` that awaits the helper and of each
-- timer of a provisional session; `pending` that of each request that the router works on, and
-- `routed` counts them. `timer_generation` is the generation that the heartbeat was started in.
pub record LifecycleManager : Type 0 where
  pub transport : WebSocketClient
  pub running : Bool
  pub ready : Bool
  pub generation : ℕ
  pub handshake_deadline : Bool
  pub heartbeat : Option ℕ
  pub helper_ready : Bool
  pub session : Option ToolSessionPolicy
  pub snapshots : Option Bounds
  pub opening : List ℕ
  pub provisional : List ℕ
  pub pending : List ℕ
  pub routed : ℕ
  pub signals : List SessionSignal

-- What the manager is built with, and the size of what it sends.
pub record Env : Type 0 where
  pub runtime : Runtime
  pub config : AgentConfig
  pub registry : ToolRegistry
  pub handshake_bytes : HandshakeRequest → ℕ

abbrev handshake_id : String
handshake_id = "agentv-handshake-v2"

abbrev pub clear_session : LifecycleManager → LifecycleManager
clear_session l = record l {
  ready = false;
  session = none;
  snapshots = none;
  handshake_deadline = false;
  heartbeat = none;
  signals = disconnected ∷ l.signals;
}

-- `closed`, the listener of the transport's `close`
abbrev pub closed : LifecycleManager → LifecycleManager
closed l = if l.running then record (clear_session l) { generation = suc l.generation } else l

-- `transport.forceReconnect()`, which emits `close` unless the transport is stopped
unfoldable pub force : ℕ → LifecycleManager → LifecycleManager
force draw l =
    if l.transport.stopped
    then l
    else closed (record l { transport = force_reconnect draw l.transport })

-- Sends, and reconnects if the transport refuses.
unfoldable pub deliver : ℕ → ℕ → LifecycleManager → LifecycleManager
deliver bytes draw l =
    let r = send bytes l.transport in
    let sent = record l { transport = r.1 } in if r.0 then sent else force draw sent

-- `is_created` says that no exception leaves `connect`.
unfoldable pub start : Bool → LifecycleManager → LifecycleManager
start is_created l = if l.running then l else record (clear_session l) {
  running = true;
  generation = suc l.generation;
  transport = connect is_created l.transport;
}

unfoldable pub stop : LifecycleManager → LifecycleManager
stop l = record (clear_session l) {
  running = false;
  generation = suc l.generation;
  transport = close l.transport;
}

-- `open` after the `await` of the helper's capabilities.
unfoldable pub continue_open :
    Env → ℕ → Bool → List String → ℕ → LifecycleManager → LifecycleManager
continue_open env generation ready services draw l =
    if not l.running || generation != l.generation || not (is_open l.transport)
    then l
    else let handshake = handshake_of env.runtime env.config env.registry ready services in
      let r = send (env.handshake_bytes handshake) l.transport in
      let known = record l { helper_ready = ready; transport = r.1 } in
      if r.0 then record known { handshake_deadline = true } else force draw known

abbrev asks_helper : Env → Bool
asks_helper env = elim env.runtime [ linux ↦ env.config.write_enabled | windows _ ↦ false ]

unfoldable pub opened : Env → ℕ → LifecycleManager → LifecycleManager
opened env draw l =
    if not l.running
    then l
    else let fresh = record (clear_session l) {
      generation = suc l.generation;
      helper_ready = false;
    } in
      if asks_helper env
      then record fresh { opening = fresh.generation ∷ fresh.opening }
      else continue_open env fresh.generation false [] draw fresh

-- Takes the first occurrence of a number out of a list.
abbrev pub without : ℕ → List ℕ → List ℕ
without g [] = []
without g (h ∷ hs) = if h == g then hs else h ∷ without g hs

-- The helper's answer to an `open`, or its failure.
unfoldable pub on_capabilities :
    Env → ℕ → Option HelperCapabilities → ℕ → LifecycleManager → LifecycleManager
on_capabilities env generation answer draw l =
    if not (contains l.opening generation)
    then l
    else let awake = record l { opening = without generation l.opening } in
      elim answer [
        | none ↦ continue_open env generation false [] draw awake
        | some c ↦
            if c.policy_valid && ltb 0 (length c.restart_services)
            then continue_open env generation true c.restart_services draw awake
            else continue_open env generation false [] draw awake
      ]

abbrev is_windows : Runtime → Bool
is_windows linux = false
is_windows (windows _) = true

abbrev grant : Env → Accepted → LifecycleManager → ToolSessionPolicy
grant env a l = record {
  allowed_tools = allowed_tools env.runtime env.config env.registry l.helper_ready a.policy;
  write_enabled = a.policy.write_enabled && l.helper_ready && env.config.write_enabled;
  generation = l.generation;
  target_id = env.config.target_id;
}

unfoldable pub accept_handshake : Env → Response → ℕ → LifecycleManager → LifecycleManager
accept_handshake env r draw l = elim (check_handshake env.config r) [
  | none ↦ force draw l
  | some a ↦
      if a.provisional
      then record l {
        handshake_deadline = false;
        provisional = l.generation ∷ l.provisional;
        signals =
            if is_windows env.runtime then provisional_authenticated ∷ l.signals else l.signals;
      }
      else record l {
        handshake_deadline = false;
        session = some (grant env a l);
        ready = true;
        transport = mark_ready l.transport;
        snapshots = some a.bounds;
        heartbeat = some l.generation;
        signals = authenticated ∷ l.signals;
      }
]

-- A message: no JSON, or what the schemas of a response and of a request make of it.
pub data Received : Type 0 where
  malformed : Received
  parsed : Option Response → Bool → Received

abbrev is_handshake : Response → Bool
is_handshake r = r.id == some handshake_id

-- `bytes` is the size of the answer to an invalid request.
unfoldable pub message : Env → Received → ℕ → ℕ → LifecycleManager → LifecycleManager
message env malformed bytes draw l = if l.running then force draw l else l
message env (parsed response is_request) bytes draw l =
    if not l.running
    then l
    else if not l.ready
    then elim response [
      | none ↦ force draw l
      | some r ↦ if is_handshake r then accept_handshake env r draw l else force draw l
    ]
    else if is_request
    then record l { pending = l.generation ∷ l.pending; routed = suc l.routed }
    else deliver bytes draw l

-- The router's response to a request of this generation.
unfoldable pub on_response : ℕ → ℕ → ℕ → LifecycleManager → LifecycleManager
on_response generation bytes draw l =
    if not (contains l.pending generation)
    then l
    else let done = record l { pending = without generation l.pending } in
      if not l.ready || generation != l.generation then done else deliver bytes draw done

unfoldable pub on_provisional_timer : ℕ → ℕ → LifecycleManager → LifecycleManager
on_provisional_timer generation draw l =
    if not (contains l.provisional generation)
    then l
    else let fired = record l { provisional = without generation l.provisional } in
      if generation == l.generation then force draw fired else fired

unfoldable pub on_handshake_deadline : ℕ → LifecycleManager → LifecycleManager
on_handshake_deadline draw l = if l.handshake_deadline then force draw l else l

unfoldable pub on_heartbeat : ℕ → ℕ → LifecycleManager → LifecycleManager
on_heartbeat bytes draw l = elim l.heartbeat [
  | none ↦ l
  | some g ↦ if l.ready && g == l.generation then deliver bytes draw l else l
]

-- The transport's callbacks, with the listeners that they call.
unfoldable pub socket_open : Env → ℕ → ℕ → LifecycleManager → LifecycleManager
socket_open env id draw l =
    let seen = record l { transport = on_open id l.transport } in
    if owns l.transport id && not l.transport.stopped then opened env draw seen else seen

unfoldable pub socket_message : Env → ℕ → Received → ℕ → ℕ → LifecycleManager → LifecycleManager
socket_message env id m bytes draw l =
    if owns l.transport id && not l.transport.stopped then message env m bytes draw l else l

unfoldable pub socket_close : ℕ → ℕ → ℕ → LifecycleManager → LifecycleManager
socket_close id code draw l =
    let seen = record l { transport = on_close draw id code l.transport } in
    if owns l.transport id then closed seen else seen

unfoldable pub pong_deadline : ℕ → LifecycleManager → LifecycleManager
pong_deadline draw l =
    if l.transport.pong_deadline
    then force draw (record l { transport = record l.transport { pong_deadline = false } })
    else l

pub data Event : Type 0 where
  stop_call ping_timer_fired pong_received : Event
  start_call reconnect_timer_fired : Bool → Event
  capabilities_read : ℕ → Option HelperCapabilities → ℕ → Event
  responded : ℕ → ℕ → ℕ → Event
  provisional_timer_fired : ℕ → ℕ → Event
  handshake_deadline_fired : ℕ → Event
  heartbeat_fired : ℕ → ℕ → Event
  socket_opened : ℕ → ℕ → Event
  received : ℕ → Received → ℕ → ℕ → Event
  socket_closed : ℕ → ℕ → ℕ → Event
  pong_deadline_fired : ℕ → Event
  progress : ReadyState → ℕ → Event
  snapshot_send : ℕ → Event

-- The `send` that the constructor gives to the snapshots.
unfoldable pub send_snapshot : ℕ → LifecycleManager → LifecycleManager
send_snapshot bytes l = if l.ready then record l { transport = (send bytes l.transport).1 } else l

unfoldable pub step : Env → LifecycleManager → Event → LifecycleManager
step env l (start_call is_created) = start is_created l
step env l stop_call = stop l
step env l (reconnect_timer_fired is_created) = record l {
  transport = on_reconnect_timer is_created l.transport;
}
step env l ping_timer_fired = record l { transport = on_ping_timer l.transport }
step env l pong_received = record l { transport = on_pong l.transport }
step env l (capabilities_read g c draw) = on_capabilities env g c draw l
step env l (responded g bytes draw) = on_response g bytes draw l
step env l (provisional_timer_fired g draw) = on_provisional_timer g draw l
step env l (handshake_deadline_fired draw) = on_handshake_deadline draw l
step env l (heartbeat_fired bytes draw) = on_heartbeat bytes draw l
step env l (socket_opened id draw) = socket_open env id draw l
step env l (received id m bytes draw) = socket_message env id m bytes draw l
step env l (socket_closed id code draw) = socket_close id code draw l
step env l (pong_deadline_fired draw) = pong_deadline draw l
step env l (progress state amount) = record l { transport = on_progress state amount l.transport }
step env l (snapshot_send bytes) = send_snapshot bytes l

unfoldable pub run : Env → LifecycleManager → List Event → LifecycleManager
run env l [] = l
run env l (e ∷ es) = run env (step env l e) es

abbrev pub create : WebSocketClient → LifecycleManager
create transport = record {
  transport = transport;
  running = false;
  ready = false;
  generation = 0;
  handshake_deadline = false;
  heartbeat = none;
  helper_ready = false;
  session = none;
  snapshots = none;
  opening = [];
  provisional = [];
  pending = [];
  routed = 0;
  signals = [];
}
