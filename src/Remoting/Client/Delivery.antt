-- ===== src/Remoting/Client/Delivery.antt =====
-- remoting/asioKiteIOClient.cpp with remoting/inc/asioSession.hpp: from what a peer sends to the
-- calls of the client's listener.
use kiteq_client_cpp.Base.{
  ℕ, ◌+◌, ◌*◌, ◌^◌, ◌≤◌, ◌<◌, ◌≡◌, refl, ap, ap₂, none, List, [], ◌∷◌, ◌++◌, some, length, All, suc,
}
use kiteq_client_cpp.ByteBuf.{Platform, ByteBuf}
use kiteq_client_cpp.Protocol.{Kind, Codec, max_packet_bytes}
use kiteq_client_cpp.KitePacket.{Header, KitePacket, done, kind_of_cmd}
use kiteq_client_cpp.Session.{Session, read_length, receive_all}
use kiteq_client_cpp.Session.Frames.{IsReceivable}
use kiteq_client_cpp.Session.Stream.{packets, send_all, receive_all-send_all}
use kiteq_client_cpp.Commons.HostPort.{HostPort, to_string}
use kiteq_client_cpp.Remoting.ListenerManager.{get_listener}
use kiteq_client_cpp.Remoting.ResponseFuture.Invariant.{Inv}
use kiteq_client_cpp.Remoting.Client.{Client, Callback}
use kiteq_client_cpp.Remoting.Client.Dispatch.{
  event, announced, all_announced, serve, Kept, serve-announced,
}

module _ {M : Type 0} (codec : Codec M) where
  -- What the messages mean to a listener, by their kinds.
  abbrev pub events : ℕ → List (Header × M) → List (Callback M)
  events l [] = []
  events l ((h, m) ∷ ms) = event l h.opaque (some m) (codec.kind m) ++ events l ms

  announced-event :
      (l : ℕ) (p : KitePacket M) (k : Kind)
      → kind_of_cmd p.header.cmd_type ≡ some k
      → announced l p ≡ event l p.header.opaque p.message k
  announced-event l p k known =
      ap (λ o. elim o [ none ↦ [] | some j ↦ event l p.header.opaque p.message j ]) known

  all_announced-events :
      (l : ℕ) (buff : ByteBuf) (ms : List (Header × M))
      → All (λ hm. IsReceivable codec hm.0 hm.1) ms
      → all_announced l (packets buff ms) ≡ events l ms
  all_announced-events l buff [] v = refl
  all_announced-events l buff ((h, m) ∷ ms) v =
      ap₂ ◌++◌
        (announced-event l (record { header = h; message = some m; buff = buff }) (codec.kind m)
          v.0.sendable.same_kind)
        (all_announced-events l buff ms v.1)

  length-packets : (buff : ByteBuf) (ms : List (Header × M)) → length (packets buff ms) ≡ length ms
  length-packets buff [] = refl
  length-packets buff (hm ∷ ms) = ap suc (length-packets buff ms)

  -- From a peer's messages to the client's listener: under the conditions of a connection that
  -- is read without loss (`parseFrom` can give each message and its header back, each extension
  -- is below 2^32, each frame is below the maximal size and no byte of its length field has its
  -- sign bit set, the read buffer is empty, an oversized shift of 0 gives 0, the stream buffer
  -- may hold a packet of the maximal size), and from a client with valid futures, an address
  -- that parsed and a read counter of 64 bits, the peer's `async_write` calls succeed, and what
  -- the session then delivers makes `handle_read_pkg` call the listener for exactly the
  -- messages that are not responses, by their kinds, once each and in order. Each packet is
  -- counted, and status, address, listeners and sent bytes stay.
  pub serve-send_all :
      (pf : Platform) (max_size end_code default_listener : ℕ) (ms : List (Header × M))
      (s : Session M) (c : Client M) (hp : HostPort)
      → All (λ hm. IsReceivable codec hm.0 hm.1) ms
      → s.read_buffer ≡ []
      → ((k : ℕ) → pf.oversize_shift 0 k ≡ 0)
      → max_packet_bytes ≤ max_size
      → Inv c.futures
      → c.host_port ≡ some hp
      → c.stats.read_counter < 2 ^ 64
      → (stream : List ℕ) × (c' : Client M) × (send_all pf codec 1 ms ≡ done stream)
        × (serve default_listener
              (receive_all pf max_size end_code codec (3 * length ms + 2) s read_length stream).0
              c
            ≡ done (c', events (get_listener default_listener (to_string hp) c.listeners) ms))
        × Kept c c' (length ms)
  serve-send_all pf max_size end_code default_listener ms s c hp v empty_buffer zero_shift room
        valid known small =
      let (stream, sent, received) =
        receive_all-send_all pf max_size end_code codec ms s v empty_buffer zero_shift room in
      let l = get_listener default_listener (to_string hp) c.listeners in
      let buff = s.pkg.buff in
      let (c', served, kept) =
        serve-announced default_listener (packets buff ms) c hp valid known small in
      (
        stream,
        c',
        sent,
        rw received (rw (all_announced-events l buff ms v) at served),
        rw (length-packets buff ms) at kept,
      )
