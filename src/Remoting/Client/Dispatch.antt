-- ===== src/Remoting/Client/Dispatch.antt =====
-- remoting/asioKiteIOClient.cpp, `handle_read_pkg`: what a connection's packets do to the client.
use kiteq_client_cpp.Base.{
  ℕ, ◌+◌, ◌%◌, ◌^◌, ◌<◌, ◌≡◌, refl, sym, ap, ◌∙◌, inl, inr, List, [], ◌∷◌, ◌++◌, Option, none, some,
  length, arith, Bool-cases, if◌then◌else◌,
}
use kiteq_client_cpp.Protocol.{
  Kind, heart_beat, conn_meta, conn_auth_ack, message_store_ack, deliver_ack, tx_ack_packet,
  bytes_message, string_message,
}
use kiteq_client_cpp.KitePacket.{KitePacket, Outcome, done, ◌>>=◌, kind_of_cmd}
use kiteq_client_cpp.Session.{success}
use kiteq_client_cpp.Commons.Counter.{record_read, inc}
use kiteq_client_cpp.Commons.HostPort.{HostPort, to_string}
use kiteq_client_cpp.Remoting.ListenerManager.{get_listener}
use kiteq_client_cpp.Remoting.ResponseFuture.{KiteResponse, receive_response}
use kiteq_client_cpp.Remoting.ResponseFuture.Invariant.{Inv, receive_response-Inv}
use kiteq_client_cpp.Remoting.Heartbeat.{reset}
use kiteq_client_cpp.Remoting.Client.{
  Client, Callback, tx_ack_received, bytes_message_received, string_message_received, is_response,
  dispatch, handle_response, handle_read_pkg,
}

module _ {M : Type 0} where
  -- What a packet means to its listener, by the kind of its message.
  abbrev pub event : ℕ → ℕ → Option M → Kind → List (Callback M)
  event l opaque m heart_beat = []
  event l opaque m conn_meta = []
  event l opaque m conn_auth_ack = []
  event l opaque m message_store_ack = []
  event l opaque m deliver_ack = []
  event l opaque m tx_ack_packet = tx_ack_received l opaque m ∷ []
  event l opaque m bytes_message = bytes_message_received l opaque m ∷ []
  event l opaque m string_message = string_message_received l opaque m ∷ []

  abbrev pub announced : ℕ → KitePacket M → List (Callback M)
  announced l p = elim (kind_of_cmd p.header.cmd_type) [
    | none ↦ []
    | some k ↦ event l p.header.opaque p.message k
  ]

  abbrev pub all_announced : ℕ → List (KitePacket M) → List (Callback M)
  all_announced l [] = []
  all_announced l (p ∷ ps) = announced l p ++ all_announced l ps

  dispatch-announced :
      (l : ℕ) (p : KitePacket M)
      → (if is_response p.header.cmd_type
          then []
          else dispatch p.header.cmd_type l p.header.opaque p.message)
        ≡ announced l p
  unfolding is_response dispatch kind_of_cmd
  dispatch-announced l p = ground arith

  -- The handler on each of the packets that a connection delivers.
  unfoldable pub serve : ℕ → List (KitePacket M) → Client M → Outcome (Client M × List (Callback M))
  unfolding handle_read_pkg
  serve default_listener [] c = done (c, [])
  serve default_listener (p ∷ ps) c = do
    r ←
        handle_read_pkg default_listener success
          (record c { session = record c.session { pkg = p } })
    t ← serve default_listener ps r.0
    done (t.0, r.1 ++ t.1)

  -- What stays as it was, and what is counted.
  pub record Kept (c c' : Client M) (n : ℕ) : Type 0 where
    pub valid : Inv c'.futures
    pub status : c'.status ≡ c.status
    pub listeners : c'.listeners ≡ c.listeners
    pub host_port : c'.host_port ≡ c.host_port
    pub sent : c'.sent ≡ c.sent
    pub reads : c'.stats.read_counter ≡ (c.stats.read_counter + n) % 2 ^ 64

  abbrev holding : KitePacket M → Client M → Client M
  holding p c = record c { session = record c.session { pkg = p } }

  pub handle_read_pkg_lem :
      (default_listener : ℕ) (p : KitePacket M) (c : Client M) (hp : HostPort)
      → Inv c.futures
      → c.host_port ≡ some hp
      → (c' : Client M) × (handle_read_pkg default_listener success (holding p c)
          ≡ done (c', announced (get_listener default_listener (to_string hp) c.listeners) p))
        × Kept c c' 1
  unfolding handle_read_pkg handle_response record_read inc
  handle_read_pkg_lem default_listener p c hp v known =
      let l = get_listener default_listener (to_string hp) c.listeners in
      let resp : KiteResponse (Option M) = record {
        request_id = p.header.opaque;
        message = p.message;
      } in
      let told = dispatch-announced l p in
      let counted : Client M = record (holding p c) { stats = record_read c.stats } in
      elim (Bool-cases (is_response p.header.cmd_type)) [
        | inl response ↦
            let (hit, v') = receive_response-Inv resp c.futures v in
            let none_told : announced l p ≡ [] = sym told ∙ rw response in
            (
              record counted {
                heartbeat = reset c.heartbeat;
                futures = (receive_response resp c.futures).1;
              },
              rw (response, hit, none_told),
              record {
                valid = v';
                status = refl;
                listeners = refl;
                host_port = refl;
                sent = refl;
                reads = refl;
              },
            )
        | inr addressed ↦
            let one : dispatch p.header.cmd_type l p.header.opaque p.message ≡ announced l p =
              rw addressed at told in
            (
              counted,
              rw (addressed, known)
                  (ap (λ t. done (record counted { host_port = some hp }, t)) one),
              record {
                valid = v;
                status = refl;
                listeners = refl;
                host_port = refl;
                sent = refl;
                reads = refl;
              },
            )
      ]

  -- From valid futures, with an address that parsed and a read counter of 64 bits, the packets
  -- of a connection, whatever they are, make `handle_read_pkg` neither fault nor throw. The
  -- listener is called as the packets' kinds announce, in the packets' order, each packet is
  -- counted once, status, address, listeners and sent bytes stay, and the futures stay valid.
  pub serve-announced :
      (default_listener : ℕ) (ps : List (KitePacket M)) (c : Client M) (hp : HostPort)
      → Inv c.futures
      → c.host_port ≡ some hp
      → c.stats.read_counter < 2 ^ 64
      → (c' : Client M) × (serve default_listener ps c
          ≡ done (c', all_announced (get_listener default_listener (to_string hp) c.listeners) ps))
        × Kept c c' (length ps)
  unfolding serve
  serve-announced default_listener [] c hp v known small =
      let same : (c.stats.read_counter + 0) % 2 ^ 64 ≡ c.stats.read_counter = omega arith in
      (
        c,
        refl,
        record {
          valid = v;
          status = refl;
          listeners = refl;
          host_port = refl;
          sent = refl;
          reads = sym same;
        },
      )
  serve-announced default_listener (p ∷ ps) c hp v known small =
      let (c1, e, k) = handle_read_pkg_lem default_listener p c hp v known in
      let (c', es, ks) =
        serve-announced default_listener ps c1 hp k.valid (k.host_port ∙ known)
          (omega (arith, k.reads)) in
      (
        c',
        rw (e, es, k.listeners),
        record {
          valid = ks.valid;
          status = ks.status ∙ k.status;
          listeners = ks.listeners ∙ k.listeners;
          host_port = ks.host_port ∙ k.host_port;
          sent = ks.sent ∙ k.sent;
          reads = omega (arith, ks.reads, k.reads);
        },
      )
