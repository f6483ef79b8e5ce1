-- ===== src/Remoting/Calls.antt =====
-- remoting/asioKiteIOClient.cpp: the methods that send, and those that wait for a response.
pub mod Replies
pub mod Rounds
pub mod Silence
pub mod Handshake
use kiteq_client_cpp.Base.{
  ℕ, zero, suc, ◌+◌, ◌≡◌, Bool, true, false, ◌&&◌, ◌||◌, List, [], ◌∷◌, ◌++◌, Option, none, some,
  ◌==◌, leb, if◌then◌else◌,
}
use mathlib.Core.Option
use kiteq_client_cpp.Base.Word.{add64}
use kiteq_client_cpp.ByteBuf.{Platform}
use kiteq_client_cpp.Protocol.{
  Kind, conn_auth_ack, heart_beat, message_store_ack, Codec, cmd_conn_auth, cmd_message_store_ack,
  cmd_heartbeat, cmd_tx_ack, cmd_bytes_message, cmd_string_message,
}
use kiteq_client_cpp.Messages.ConnMeta.{ConnMeta, new_message, set_groupid, set_secretkey}
use kiteq_client_cpp.KitePacket.{
  Header, KitePacket, Outcome, done, fault, ◌>>=◌, or_fault, new_packet,
}
use kiteq_client_cpp.Session.{ErrorCode, success, failure, Session, async_write}
use kiteq_client_cpp.Commons.Counter.{
  KiteStats, record_read, record_write, compare_and_set, set_count,
}
use kiteq_client_cpp.Commons.HostPort.{HostPort, to_string}
use kiteq_client_cpp.Remoting.ListenerManager.{register_listener, get_listener}
use kiteq_client_cpp.Remoting.ResponseFuture.{
  KiteResponse, Store, Step, run, new_future, response_future_used, receive_response, get_response,
}
use kiteq_client_cpp.Remoting.Heartbeat.{
  Heartbeat, set_next_heartbeat_time, reset, is_dead, is_due, answered,
}
use kiteq_client_cpp.Remoting.Client.{
  Client, none_state, prepare, running, reconnecting, recovering, stop,
}

module _ {M : Type 0} where
  -- The end of the three methods: a response moves the next heartbeat three seconds on.
  unfoldable pub finish : Option (KiteResponse (Option M)) → Client M → ℕ → Option M × Client M
  unfolding set_next_heartbeat_time
  finish none c time_now = (none, c)
  finish (some resp) c time_now = (
    resp.message,
    record c { heartbeat = set_next_heartbeat_time (add64 time_now 3000) c.heartbeat },
  )

  -- The end of `handshake`.
  unfoldable pub accept : (M → Bool) → Option M → Client M → Bool × Client M
  unfolding set_count
  accept status_of none c = (false, c)
  accept status_of (some ack) c = (
    status_of ack,
    record c { status = if status_of ack then set_count running c.status else c.status },
  )

  -- The end of a round of `hbThread`.
  unfoldable pub heard : (M → ℕ) → ℕ → Option M → Client M → Client M
  unfolding answered
  heard version_of now response c = record c {
    heartbeat = answered now (Option.map version_of response) c.heartbeat;
  }

  -- The message of `handshake`.
  unfoldable pub conn_meta_of : Client M → ConnMeta
  unfolding set_groupid set_secretkey new_message
  conn_meta_of c = set_secretkey c.secret_key (set_groupid c.group_id new_message)

-- What is written to the socket, if anything.
abbrev given : Option (List ℕ) → List ℕ
given none = []
given (some bytes) = bytes

module _ {M : Type 0} (pf : Platform) (codec : Codec M) where
  -- `send`, with the header that the packet's base constructor made: the bytes go to the socket.
  unfoldable pub send : Header → M → Client M → Outcome (Client M)
  send h m c = do
    r ← async_write pf codec 1 (new_packet h m)
    done (record c { sent = c.sent ++ given r.0 })

  unfoldable pub send_ack : Header → M → Client M → Outcome (Client M)
  send_ack = send

  -- A request up to its wait: the future, which is what the thread then waits for, and the packet.
  unfoldable pub ask : Header → M → Client M → Outcome (ℕ × Client M)
  ask h m c0 = do
    let (p, s1) = new_future h.opaque c0.futures
    c ← send h m (record c0 { futures = response_future_used p s1 })
    done (p, c)

  -- `sendHeartBeatAndGet`, `sendConnAndGet` and `sendMessageAndGet` up to their timeouts and the type
  -- that they cast to. `meanwhile` is what the other threads do to the client until the wait is
  -- over, the handler that brings a response included, and `time_now` the time then; `none` is the
  -- null pointer.
  unfoldable pub send_and_get :
      Header → M → (Client M → Outcome (Client M)) → ℕ → Client M → Outcome (Option M × Client M)
  unfolding finish ask
  send_and_get h m meanwhile time_now c0 = do
    (p, c1) ← ask h m c0
    c ← meanwhile c1
    let r = get_response p c.futures
    done (finish r.0 (record c { futures = r.1 }) time_now)

  unfoldable pub send_heart_beat_and_get :
      Header → M → (Client M → Outcome (Client M)) → ℕ → Client M → Outcome (Option M × Client M)
  send_heart_beat_and_get = send_and_get

  unfoldable pub send_conn_and_get :
      Header → M → (Client M → Outcome (Client M)) → ℕ → Client M → Outcome (Option M × Client M)
  send_conn_and_get = send_and_get

  unfoldable pub send_message_and_get :
      Header → M → (Client M → Outcome (Client M)) → ℕ → Client M → Outcome (Option M × Client M)
  send_message_and_get = send_and_get

  -- `of_meta` takes the message as a `MessageLite`; `status_of` is `ConnAuthAck::status()`.
  unfoldable pub handshake :
      (ConnMeta → M)
      → (M → Bool)
      → Header
      → (Client M → Outcome (Client M))
      → ℕ
      → Client M
      → Outcome (Bool × Client M)
  handshake of_meta status_of h meanwhile time_now c0 = do
    r ← send_conn_and_get h (of_meta (conn_meta_of c0)) meanwhile time_now c0
    done (accept status_of r.0 r.1)

  -- A round of `hbThread`: a heartbeat with the version `now`, if the client runs and one is due.
  -- `version_of` is `HeartBeat::version()`.
  unfoldable pub heartbeat_round :
      (M → ℕ)
      → Header
      → (ℕ → M)
      → (Client M → Outcome (Client M))
      → ℕ
      → ℕ
      → Client M
      → Outcome (Client M)
  heartbeat_round version_of h beat meanwhile now time_now c0 =
      let sending = send_heart_beat_and_get h (beat now) meanwhile time_now c0 >>= λ r.
      done (heard version_of now r.0 r.1) in
      if c0.status == running && is_due now c0.heartbeat then sending else done c0

-- A round of the heartbeat's thread: the packet's header, what the other threads do during the
-- wait, and the time before and after it.
pub record Beat (M : Type 0) : Type 0 where
  pub header : Header
  pub meanwhile : (Client M → Outcome (Client M))
  pub now : ℕ
  pub time_now : ℕ

module _ {M : Type 0} (pf : Platform) (codec : Codec M) where
  -- The first rounds of `hbThread`'s loop.
  unfoldable pub hb_thread : (M → ℕ) → (ℕ → M) → List (Beat M) → Client M → Outcome (Client M)
  hb_thread version_of beat [] c = done c
  hb_thread version_of beat (b ∷ bs) c0 = do
    c ← heartbeat_round pf codec version_of b.header beat b.meanwhile b.now b.time_now c0
    hb_thread version_of beat bs c
