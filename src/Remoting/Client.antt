-- ===== src/Remoting/Client.antt =====
-- remoting/asioKiteIOClient.cpp: the client. Its parts are the session, the static map of waiting
-- requests, the static listeners, the statistics and the heartbeat; each handler and each method is a
-- function on the whole client. What comes from outside (time, headers, what other threads do while a
-- method waits) is an argument.
pub mod Dispatch
pub mod Delivery
use kiteq_client_cpp.Base.{
  ℕ, zero, suc, ◌+◌, ◌≡◌, Bool, true, false, not, ◌&&◌, ◌||◌, List, [], ◌∷◌, ◌++◌, Option, none,
  some, ◌==◌, leb, if◌then◌else◌,
}
use mathlib.Core.Option
use kiteq_client_cpp.Base.Word.{add64}
use kiteq_client_cpp.ByteBuf.{Platform}
use kiteq_client_cpp.Protocol.{
  Kind, conn_auth_ack, heart_beat, message_store_ack, Codec, cmd_conn_auth, cmd_message_store_ack,
  cmd_heartbeat, cmd_tx_ack, cmd_bytes_message, cmd_string_message,
}
use kiteq_client_cpp.KitePacket.{
  Header, KitePacket, Outcome, done, fault, ◌>>=◌, or_fault, new_packet,
}
use kiteq_client_cpp.Session.{ErrorCode, success, failure, Session, async_write}
use kiteq_client_cpp.Commons.Counter.{
  KiteStats, record_read, record_write, compare_and_set, set_count,
}
use kiteq_client_cpp.Commons.HostPort.{Splitter, HostPort, to_string, server_address}
use kiteq_client_cpp.Remoting.ListenerManager.{register_listener, get_listener}
use kiteq_client_cpp.Remoting.ResponseFuture.{
  KiteResponse, Store, Step, run, new_future, response_future_used, receive_response, get_response,
}
use kiteq_client_cpp.Remoting.Heartbeat.{
  Heartbeat, set_next_heartbeat_time, reset, is_dead, is_due, answered, new_heartbeat, stop_threads,
}

-- `asioKiteIOClient::STATE`, as values of the status counter.
abbrev pub none_state : ℕ
none_state = 0

abbrev pub prepare : ℕ
prepare = 1

abbrev pub running : ℕ
running = 2

abbrev pub reconnecting : ℕ
reconnecting = 3

abbrev pub recovering : ℕ
recovering = 4

abbrev pub stop : ℕ
stop = 5

-- The io service, its resolver and its socket: whether they were stopped, and what they were asked
-- for and have not answered yet.
pub record Io : Type 0 where
  pub service_stopped : Bool
  pub socket_closed : Bool
  pub resolving : List HostPort
  pub connecting : ℕ

-- A listener is a pointer, which is taken not to be null. The futures, the listeners and the
-- statistics are static: the client has them together with the other clients. `sent` is what was
-- handed to the socket; a null `host_port` comes of an address that does not parse.
pub record Client (M : Type 0) : Type 0 where
  pub status : ℕ
  pub heartbeat : Heartbeat
  pub futures : Store (Option M)
  pub listeners : List (List ℕ × ℕ)
  pub stats : KiteStats
  pub host_port : Option HostPort
  pub session : Session M
  pub sent : List ℕ
  pub group_id : List ℕ
  pub secret_key : List ℕ
  pub server_url : List ℕ
  pub accepted_topics : List (List ℕ × Unit {0})
  pub io : Io

-- What a `remotingListener` is called with: the listener, the opaque and the pointer to the message.
pub data Callback (M : Type 0) : Type 0 where
  tx_ack_received bytes_message_received string_message_received : ℕ → ℕ → Option M → Callback M

unfoldable pub is_response : ℕ → Bool
is_response cmd = cmd == cmd_conn_auth || (cmd == cmd_message_store_ack || cmd == cmd_heartbeat)

abbrev pub new_io : Io
new_io = record { service_stopped = false; socket_closed = false; resolving = []; connecting = 0 }

-- The constructor. The static futures, listeners and statistics are there already, and the session
-- has just been made.
unfoldable pub new_client :
    {M : Type 0}
    → Splitter
    → List ℕ
    → List ℕ
    → List ℕ
    → Store (Option M)
    → List (List ℕ × ℕ)
    → KiteStats
    → Session M
    → Client M
unfolding server_address new_heartbeat
new_client sp gid skey surl futures listeners stats session = record {
  status = none_state;
  heartbeat = new_heartbeat;
  futures = futures;
  listeners = listeners;
  stats = stats;
  host_port = server_address sp surl;
  session = session;
  sent = [];
  group_id = gid;
  secret_key = skey;
  server_url = surl;
  accepted_topics = [];
  io = new_io;
}

module _ {M : Type 0} where
  -- `workThread` runs the handlers for as long as the service is not stopped.
  unfoldable pub work_thread_runs : Client M → Bool
  work_thread_runs c = not c.io.service_stopped

  unfoldable pub get_server_url : Client M → List ℕ
  get_server_url c = c.server_url

  unfoldable pub get_accepted_topics : Client M → List (List ℕ × Unit {0})
  get_accepted_topics c = c.accepted_topics

  unfoldable pub get_status : Client M → ℕ
  get_status c = c.status

  -- `reconnect0` up to its sleep: the resolver is asked for the address.
  unfoldable pub async_resolve : Client M → Outcome (Client M)
  async_resolve c = do
    hp ← or_fault c.host_port
    done (record c { io = record c.io { resolving = c.io.resolving ++ hp ∷ [] } })

  unfoldable pub handle_resolve : ErrorCode → Client M → Client M
  handle_resolve success c = record c { io = record c.io { connecting = c.io.connecting + 1 } }
  handle_resolve (failure e) c = c

  unfoldable pub close : Client M → Client M
  unfolding stop_threads
  close c = record c {
    io = record c.io { socket_closed = true; service_stopped = true };
    heartbeat = stop_threads c.heartbeat;
  }

  unfoldable pub handle_connect : ErrorCode → Client M → Client M
  unfolding set_count
  handle_connect success c = record c { status = set_count recovering c.status }
  handle_connect (failure e) c = c

  unfoldable pub handle_write_request : ErrorCode → Client M → Client M
  handle_write_request success c = record c { stats = record_write c.stats }
  handle_write_request (failure e) c = c

  -- The listener that `handle_read_pkg` calls, for a command that is no response.
  unfoldable pub dispatch : ℕ → ℕ → ℕ → Option M → List (Callback M)
  dispatch cmd l opaque m =
      if cmd == cmd_tx_ack
      then tx_ack_received l opaque m ∷ []
      else if cmd == cmd_bytes_message
      then bytes_message_received l opaque m ∷ []
      else if cmd == cmd_string_message
      then string_message_received l opaque m ∷ []
      else []

  -- A response: the heartbeat is reset, and the future that waits is set; a future that was set before
  -- makes this throw, which is a fault.
  unfoldable pub handle_response :
      Header → Option M → Client M → Outcome (Client M × List (Callback M))
  handle_response h m c =
      let r = receive_response (record { request_id = h.opaque; message = m }) c.futures in
      if r.0 then done (record c { heartbeat = reset c.heartbeat; futures = r.1 }, []) else fault

  -- `handle_read_pkg`; on success it ends by reading the next packet. `default_listener` is that of
  -- ListenerManager.
  unfoldable pub handle_read_pkg : ℕ → ErrorCode → Client M → Outcome (Client M × List (Callback M))
  unfolding handle_response dispatch is_response
  handle_read_pkg default_listener (failure e) c = done (c, [])
  handle_read_pkg default_listener success c0 = do
    let c = record c0 { stats = record_read c0.stats }
    let pkg = c.session.pkg
    let response = handle_response pkg.header pkg.message c
    let addressed = or_fault c.host_port >>= λ hp.
        let l = get_listener default_listener (to_string hp) c.listeners in
        done (c, dispatch pkg.header.cmd_type l pkg.header.opaque pkg.message)
    if is_response pkg.header.cmd_type then response else addressed

  -- The handler when a packet has come, whose parts the session has read into a new packet.
  unfoldable pub receive_pkg : ℕ → KitePacket M → Client M → Outcome (Client M × List (Callback M))
  unfolding handle_read_pkg
  receive_pkg default_listener p c =
      handle_read_pkg default_listener success (record c { session = record c.session { pkg = p } })

  unfoldable pub register : ℕ → Client M → Outcome (Client M)
  register l c = do
    hp ← or_fault c.host_port
    done (record c { listeners = register_listener (to_string hp) l c.listeners })

  unfoldable pub is_client_dead : Client M → Bool
  is_client_dead c = is_dead c.heartbeat
