-- ===== src/Examples/Arrival.antt =====
-- example/KiteqProducer.cpp and KiteqTxProducer.cpp with protocol/ and remoting/: from the messages that
-- the producers build to a client's listener.
use kiteq_client_cpp.Base.{
  ℕ, suc, ◌+◌, ◌*◌, ◌^◌, ◌≤◌, ◌<◌, ◌≡◌, refl, ap, true, false, List, [], ◌∷◌, some, length, All,
  arith,
}
use kiteq_client_cpp.ByteBuf.{Platform}
use kiteq_client_cpp.Protocol.{cmd_string_message, max_packet_bytes}
use kiteq_client_cpp.KitePacket.{Header, done}
use kiteq_client_cpp.KitePacket.Decode.{IsHeader}
use kiteq_client_cpp.Session.{Session, read_length, receive_all}
use kiteq_client_cpp.Session.Frames.{IsReceivable}
use kiteq_client_cpp.Session.Stream.{send_all}
use kiteq_client_cpp.Commons.HostPort.{HostPort, to_string}
use kiteq_client_cpp.Remoting.ListenerManager.{get_listener}
use kiteq_client_cpp.Remoting.ResponseFuture.Invariant.{Inv}
use kiteq_client_cpp.Remoting.Client.{Client, Callback, string_message_received}
use kiteq_client_cpp.Remoting.Client.Dispatch.{serve, Kept}
use kiteq_client_cpp.Remoting.Client.Delivery.{events, serve-send_all}
use kiteq_client_cpp.Messages.{Wire}
use kiteq_client_cpp.Messages.StringMessage.{StringMessage}
use kiteq_client_cpp.Messages.Any.{Message, a_string_message}
use kiteq_client_cpp.Messages.Codec.{generated}
use kiteq_client_cpp.Examples.{Boost}
use kiteq_client_cpp.Examples.Producer
use kiteq_client_cpp.Examples.TxProducer
use kiteq_client_cpp.Examples.Orders.{
  IsVarint, order_id, build_message_lem, tx_build_message_lem, order-IsReceivable,
}

module _ (boost : Boost) where
  -- A message that one of the producers builds, from the text of a uuid: 36 characters.
  pub data IsProduced : StringMessage → Type 0 where
    plainly :
        (u topic group_id message_type body : List ℕ)
        → length u ≡ 36
        → IsProduced (Producer.build_message boost u topic group_id message_type body)
    with_tx :
        (u topic group_id message_type body : List ℕ)
        → length u ≡ 36
        → IsProduced (TxProducer.build_message boost u topic group_id message_type body)

  -- Such a message with the header of a packet for it.
  abbrev pub IsDispatched : Header × StringMessage → Type 0
  IsDispatched (h, m) =
      IsHeader h × (h.cmd_type ≡ cmd_string_message) × (h.extension < 2 ^ 32) × IsProduced m

-- The packets' messages as the packet code takes them, and the listener's calls for them.
abbrev pub lite : List (Header × StringMessage) → List (Header × Message)
lite [] = []
lite ((h, m) ∷ ms) = (h, a_string_message m) ∷ lite ms

abbrev pub arrivals : ℕ → List (Header × StringMessage) → List (Callback Message)
arrivals l [] = []
arrivals l ((h, m) ∷ ms) =
    string_message_received l h.opaque (some (a_string_message m)) ∷ arrivals l ms

length-lite : (ms : List (Header × StringMessage)) → length (lite ms) ≡ length ms
length-lite [] = refl
length-lite (hm ∷ ms) = ap suc (length-lite ms)

module _ (w : Wire) (varint : IsVarint w) (boost : Boost) where
  events-lite :
      (l : ℕ) (ms : List (Header × StringMessage))
      → events (generated w) l (lite ms) ≡ arrivals l ms
  events-lite l [] = refl
  events-lite l ((h, m) ∷ ms) =
      ap (λ es. string_message_received l h.opaque (some (a_string_message m)) ∷ es)
        (events-lite l ms)

  order_id-short : (u : List ℕ) → length u ≡ 36 → length (order_id boost u) ≤ 36
  order_id-short u e = omega (arith, e, boost.length-replace_all_copy u (b'-' ∷ []))

  IsDispatched-IsReceivable :
      (h : Header) (m : StringMessage)
      → IsDispatched boost (h, m)
      → IsReceivable (generated w) h (a_string_message m)
  IsDispatched-IsReceivable h _ (fits, cmd, narrow, plainly u topic group_id message_type body e) =
      rw (build_message_lem boost u topic group_id message_type body) (
        order-IsReceivable w varint h (order_id boost u) 1845173857 true fits cmd narrow
          (order_id-short u e) (omega arith))
  IsDispatched-IsReceivable h _ (fits, cmd, narrow, with_tx u topic group_id message_type body e) =
      rw (tx_build_message_lem boost u topic group_id message_type body) (
        order-IsReceivable w varint h (order_id boost u) 1445173857 false fits cmd narrow
          (order_id-short u e) (omega arith))

  lite-IsReceivable :
      (ms : List (Header × StringMessage))
      → All (IsDispatched boost) ms
      → All (λ hm. IsReceivable (generated w) hm.0 hm.1) (lite ms)
  lite-IsReceivable [] v = tt
  lite-IsReceivable ((h, m) ∷ ms) v = (IsDispatched-IsReceivable h m v.0, lite-IsReceivable ms v.1)

  -- From the producers' `buildMessage` to a client's listener: a peer that sends, with
  -- `async_write`, any list of messages that either producer builds from uuids of 36
  -- characters, each in a packet of the string messages' command with an extension below 2^32,
  -- makes a client that reads them call its listener's `stringMessageReceived` for exactly
  -- these messages, field by field, once each and in order; if the runtime's sizes are those of
  -- varints, the read buffer is empty, an oversized shift of 0 gives 0, the stream buffer may
  -- hold a packet of the maximal size, the futures are valid, the address parsed, and the read
  -- counter has 64 bits. Each packet is counted, and status, address, listeners and sent bytes
  -- stay.
  pub serve-produced :
      (pf : Platform) (max_size end_code default_listener : ℕ) (ms : List (Header × StringMessage))
      (s : Session Message) (c : Client Message) (hp : HostPort)
      → All (IsDispatched boost) ms
      → s.read_buffer ≡ []
      → ((k : ℕ) → pf.oversize_shift 0 k ≡ 0)
      → max_packet_bytes ≤ max_size
      → Inv c.futures
      → c.host_port ≡ some hp
      → c.stats.read_counter < 2 ^ 64
      → (stream : List ℕ) × (c' : Client Message) × (send_all pf (generated w) 1 (lite ms)
          ≡ done stream)
        × (serve default_listener
              (receive_all pf max_size end_code
                (generated w)
                (3 * length ms + 2)
                s
                read_length
                stream).0
              c
            ≡ done (c', arrivals (get_listener default_listener (to_string hp) c.listeners) ms))
        × Kept c c' (length ms)
  serve-produced pf max_size end_code default_listener ms s c hp v empty_buffer zero_shift room
        valid known small =
      let l = get_listener default_listener (to_string hp) c.listeners in
      let (stream, c', sent, served, kept) =
        serve-send_all (generated w) pf max_size end_code default_listener (lite ms) s c hp
          (lite-IsReceivable ms v) empty_buffer zero_shift room valid known small in
      (
        stream,
        c',
        sent,
        rw (length-lite ms, events-lite l ms) at served,
        rw (length-lite ms) at kept,
      )
