-- ===== src/Remoting/Connect.antt =====
-- remoting/asioKiteIOClient.cpp: `start` and `reconnect`.
pub mod Loop
pub mod Status
use kiteq_client_cpp.Base.{
  ℕ, zero, suc, ◌+◌, ◌≡◌, Bool, true, false, ◌&&◌, ◌||◌, List, [], ◌∷◌, ◌++◌, Option, none, some,
  ◌==◌, leb, if◌then◌else◌,
}
use mathlib.Core.Option
use kiteq_client_cpp.Base.Word.{add64}
use kiteq_client_cpp.ByteBuf.{Platform}
use kiteq_client_cpp.Protocol.{
  Kind, conn_auth_ack, heart_beat, message_store_ack, Codec, cmd_conn_auth, cmd_message_store_ack,
  cmd_heartbeat, cmd_tx_ack, cmd_bytes_message, cmd_string_message,
}
use kiteq_client_cpp.KitePacket.{
  Header, KitePacket, Outcome, done, fault, ◌>>=◌, or_fault, new_packet, out_of_fuel,
}
use kiteq_client_cpp.Session.{ErrorCode, success, failure, Session, async_write}
use kiteq_client_cpp.Commons.Counter.{
  KiteStats, record_read, record_write, compare_and_set, set_count,
}
use kiteq_client_cpp.Commons.HostPort.{HostPort, to_string}
use kiteq_client_cpp.Remoting.ListenerManager.{register_listener, get_listener}
use kiteq_client_cpp.Remoting.ResponseFuture.{
  KiteResponse, Store, Step, run, new_future, response_future_used, receive_response, get_response,
}
use kiteq_client_cpp.Remoting.Heartbeat.{
  Heartbeat, set_next_heartbeat_time, reset, is_dead, is_due, answered, set_parent, start_thread,
}
use kiteq_client_cpp.Messages.ConnMeta.{ConnMeta}
use kiteq_client_cpp.Remoting.Calls.{handshake}
use kiteq_client_cpp.Remoting.Client.{
  Client, none_state, prepare, running, reconnecting, recovering, stop, async_resolve,
}

-- What the other threads do to the client while attempt number n of a connection sleeps.
abbrev pub Others : Type 0 → Type 0
Others M = ℕ → Client M → Client M

module _ {M : Type 0} where
  -- The end of `reconnect`.
  unfoldable pub after_connect :
      (Client M → Outcome (Bool × Client M)) → Bool × Client M → Outcome (Bool × Client M)
  unfolding reset set_count
  after_connect shake (false, c) = done (false, c)
  after_connect shake (true, c) = do
    r ← shake (record c { heartbeat = reset c.heartbeat })
    done (
        if r.0
        then (true, record (r.1) { status = set_count running (r.1).status })
        else (false, r.1))

  -- Attempt number n.
  unfoldable pub reconnect0 : ℕ → Others M → Client M → Outcome (Bool × Client M)
  unfolding async_resolve
  reconnect0 n others c0 = do c ← async_resolve c0; done (true, others n c)

  -- The loop of `start` and of `reconnect`, after n attempts: `true` once the client is recovering.
  unfoldable pub connect_loop : ℕ → ℕ → Others M → Client M → Outcome (Bool × Client M)
  connect_loop zero n others c = out_of_fuel
  connect_loop (suc fuel) n others c0 = do
    (_, c) ← reconnect0 (n + 1) others c0
    let again = connect_loop fuel (n + 1) others c in
        if c.status == recovering
        then done (true, c)
        else if leb 10 (n + 1) || c.status == stop
        then done (false, c)
        else again

  -- The end of `start`.
  unfoldable pub after_start : Bool × Client M → Bool × Client M
  unfolding start_thread
  after_start (false, c) = (false, c)
  after_start (true, c) = (true, record c { heartbeat = start_thread c.heartbeat })

  unfoldable pub start : Others M → Client M → Outcome (Bool × Client M)
  unfolding compare_and_set after_start set_parent
  start others c =
      let r = compare_and_set none_state prepare c.status in
      let c1 = record c { status = r.1; heartbeat = set_parent c.heartbeat } in
      let connecting = connect_loop 10 0 others c1 >>= λ t. done (after_start t) in
      if r.0 then connecting else done (false, c)

  -- `reconnect` up to what `shake` is, the handshake on the client that has connected again.
  unfoldable pub reconnect_with :
      (Client M → Outcome (Bool × Client M)) → Others M → Client M → Outcome (Bool × Client M)
  unfolding compare_and_set after_connect
  reconnect_with shake others c =
      let r = compare_and_set running reconnecting c.status in
      let connecting =
        connect_loop 10 0 others (record c { status = r.1 }) >>= after_connect shake in
      if r.0 then connecting else done (false, c)

module _ {M : Type 0} (pf : Platform) (codec : Codec M) where
  -- What the other threads do while the handshake waits is `meanwhile`.
  unfoldable pub reconnect :
      (ConnMeta → M)
      → (M → Bool)
      → Others M
      → Header
      → (Client M → Outcome (Client M))
      → ℕ
      → Client M
      → Outcome (Bool × Client M)
  unfolding reconnect_with handshake
  reconnect of_meta status_of others h meanwhile time_now =
      reconnect_with (handshake pf codec of_meta status_of h meanwhile time_now) others
