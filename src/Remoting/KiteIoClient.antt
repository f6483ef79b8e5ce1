-- ===== src/Remoting/KiteIoClient.antt =====
-- remoting/inc/KiteIOClient.h: the interface of a client. What comes from outside is an argument: the
-- header that a packet's base constructor makes, what the other threads do, and the time.
use kiteq_client_cpp.Base.{ℕ, ◌≡◌, refl, Bool, List, Option}
use kiteq_client_cpp.ByteBuf.{Platform}
use kiteq_client_cpp.Protocol.{Codec}
use kiteq_client_cpp.KitePacket.{Header, Outcome}
use kiteq_client_cpp.Messages.ConnMeta.{ConnMeta}
use kiteq_client_cpp.Remoting.Heartbeat.{stop_threads, is_dead}
use kiteq_client_cpp.Remoting.Client.{
  Client, register, is_client_dead, close, get_server_url, get_accepted_topics,
}
use kiteq_client_cpp.Remoting.Calls.{
  send, send_ack, send_heart_beat_and_get, send_conn_and_get, send_message_and_get, handshake,
}
use kiteq_client_cpp.Remoting.Connect.{start, reconnect}

-- A method that sends and waits: the message, what the other threads do meanwhile, and the time then.
abbrev pub Asking : Type 0 → Type 0 → Type 0
Asking M C = Header → M → (C → Outcome C) → ℕ → C → Outcome (Option M × C)

-- `start` and `reconnect` take what the others do in each attempt's sleep. To close a client changes
-- neither its URL nor whether its peer is dead.
pub record KiteIoClient (M C : Type 0) : Type 0 where
  pub send : Header → M → C → Outcome C
  pub send_ack : Header → M → C → Outcome C
  pub send_heart_beat_and_get : Asking M C
  pub send_conn_and_get : Asking M C
  pub send_message_and_get : Asking M C
  pub register_listener : ℕ → C → Outcome C
  pub start : (ℕ → C → C) → C → Outcome (Bool × C)
  pub reconnect : (ℕ → C → C) → Header → (C → Outcome C) → ℕ → C → Outcome (Bool × C)
  pub is_dead : C → Bool
  pub close : C → C
  pub get_server_url : C → List ℕ
  pub get_accepted_topics : C → List (List ℕ × Unit {0})
  pub handshake : Header → (C → Outcome C) → ℕ → C → Outcome (Bool × C)
  pub get_server_url-close : (c : C) → get_server_url (close c) ≡ get_server_url c
  pub is_dead-close : (c : C) → is_dead (close c) ≡ is_dead c

module _ {M : Type 0} (pf : Platform) (codec : Codec M) (of_meta : ConnMeta → M)
    (status_of : M → Bool) where
  url_kept : (c : Client M) → get_server_url (close c) ≡ get_server_url c
  unfolding get_server_url close
  url_kept c = refl

  dead_kept : (c : Client M) → is_client_dead (close c) ≡ is_client_dead c
  unfolding is_client_dead close stop_threads is_dead
  dead_kept c = refl

  -- `asioKiteIOClient` is one.
  unfoldable asio_kite_io_client : KiteIoClient M (Client M)
  asio_kite_io_client = record {
    send = send pf codec;
    send_ack = send_ack pf codec;
    send_heart_beat_and_get = send_heart_beat_and_get pf codec;
    send_conn_and_get = send_conn_and_get pf codec;
    send_message_and_get = send_message_and_get pf codec;
    register_listener = register;
    start = start;
    reconnect = reconnect pf codec of_meta status_of;
    is_dead = is_client_dead;
    close = close;
    get_server_url = get_server_url;
    get_accepted_topics = get_accepted_topics;
    handshake = handshake pf codec of_meta status_of;
    get_server_url-close = url_kept;
    is_dead-close = dead_kept;
  }
