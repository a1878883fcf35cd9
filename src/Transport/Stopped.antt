-- ===== src/Transport/Stopped.antt =====
-- src/transport/websocket-client.ts: only `connect` and `close` change whether the client is stopped.
use agentv.Base.{Bool, ℕ, ◌≡◌, arith, true, false}
use agentv.Transport.{
  WebSocketClient, ReadyState, connect, send, force_reconnect, close, on_open, on_close,
  on_ping_timer, on_reconnect_timer, on_progress, schedule_reconnect,
}

module _ (c : WebSocketClient) where
  pub connect-stopped : (is_created : Bool) → (connect is_created c).stopped ≡ false
  unfolding connect
  connect-stopped is_created = ground arith

  pub close-stopped : (close c).stopped ≡ true
  unfolding close
  close-stopped = ground arith

  pub send-stopped : (bytes : ℕ) → (send bytes c).1.stopped ≡ c.stopped
  unfolding send
  send-stopped bytes = ground arith

  pub force_reconnect-stopped : (draw : ℕ) → (force_reconnect draw c).stopped ≡ c.stopped
  unfolding force_reconnect schedule_reconnect
  force_reconnect-stopped draw = ground arith

  pub on_open-stopped : (id : ℕ) → (on_open id c).stopped ≡ c.stopped
  unfolding on_open
  on_open-stopped id = ground arith

  pub on_close-stopped : (draw id code : ℕ) → (on_close draw id code c).stopped ≡ c.stopped
  unfolding on_close schedule_reconnect
  on_close-stopped draw id code = ground arith

  pub on_ping_timer-stopped : (on_ping_timer c).stopped ≡ c.stopped
  unfolding on_ping_timer
  on_ping_timer-stopped = ground arith

  pub on_reconnect_timer-stopped :
      (is_created : Bool) → (on_reconnect_timer is_created c).stopped ≡ c.stopped
  unfolding on_reconnect_timer connect
  on_reconnect_timer-stopped is_created = ground arith

  pub on_progress-stopped :
      (state : ReadyState) (written : ℕ) → (on_progress state written c).stopped ≡ c.stopped
  unfolding on_progress
  on_progress-stopped state written = ground arith
