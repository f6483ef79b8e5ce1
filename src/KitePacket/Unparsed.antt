-- ===== src/KitePacket/Unparsed.antt =====
-- protocol/KitePacket.cpp with the generated messages: `parseFrom` does not look at what the parser of the
-- body returns.
use kiteq_client_cpp.Base.{ℕ, ◌^◌, ◌<◌, ◌≡◌, refl, ap, true, false, List, [], ◌++◌, some, arith}
use kiteq_client_cpp.ByteBuf.{Platform}
use kiteq_client_cpp.ByteBuf.Long.{read_long-long_bytes}
use kiteq_client_cpp.Protocol.{
  Kind, heart_beat, conn_meta, conn_auth_ack, message_store_ack, deliver_ack, tx_ack_packet,
  bytes_message, string_message, packet_head_len,
}
use kiteq_client_cpp.KitePacket.{Header, KitePacket, done, kind_of_cmd, parse_from}
use kiteq_client_cpp.KitePacket.Encode.{head_bytes}
use kiteq_client_cpp.KitePacket.Decode.{IsHeader, parse_from-known}
use kiteq_client_cpp.Messages.{Wire}
use kiteq_client_cpp.Messages.Loop.{merge_loop-end}
use kiteq_client_cpp.Messages.Any.{
  Message, a_heart_beat, a_conn_meta, a_conn_auth_ack, a_message_store_ack, a_deliver_ack,
  a_tx_ack_packet, a_bytes_message, a_string_message, is_initialized, parse,
}
use kiteq_client_cpp.Messages.Codec.{after, generated}
use kiteq_client_cpp.Messages.HeartBeat
use kiteq_client_cpp.Messages.ConnMeta
use kiteq_client_cpp.Messages.ConnAuthAck
use kiteq_client_cpp.Messages.MessageStoreAck
use kiteq_client_cpp.Messages.DeliverAck
use kiteq_client_cpp.Messages.TxAckPacket
use kiteq_client_cpp.Messages.BytesMessage
use kiteq_client_cpp.Messages.StringMessage

-- The new object of a kind.
abbrev blank : Kind → Message
blank heart_beat = a_heart_beat HeartBeat.new_message
blank conn_meta = a_conn_meta ConnMeta.new_message
blank conn_auth_ack = a_conn_auth_ack ConnAuthAck.new_message
blank message_store_ack = a_message_store_ack MessageStoreAck.new_message
blank deliver_ack = a_deliver_ack DeliverAck.new_message
blank tx_ack_packet = a_tx_ack_packet TxAckPacket.new_message
blank bytes_message = a_bytes_message BytesMessage.new_message
blank string_message = a_string_message StringMessage.new_message

blank-is_initialized : (k : Kind) → is_initialized (blank k) ≡ false
unfolding is_initialized HeartBeat.new_message ConnMeta.new_message ConnAuthAck.new_message
    MessageStoreAck.new_message DeliverAck.new_message TxAckPacket.new_message
    BytesMessage.new_message StringMessage.new_message
blank-is_initialized heart_beat = refl
blank-is_initialized conn_meta = refl
blank-is_initialized conn_auth_ack = refl
blank-is_initialized message_store_ack = refl
blank-is_initialized deliver_ack = refl
blank-is_initialized tx_ack_packet = refl
blank-is_initialized bytes_message = refl
blank-is_initialized string_message = refl

module _ (w : Wire) where
  -- Nothing is read from no bytes.
  parse-blank : (k : Kind) → parse w k [] ≡ blank k
  unfolding parse HeartBeat.merge_partial HeartBeat.switch_tag ConnMeta.merge_partial
      ConnMeta.switch_tag ConnAuthAck.merge_partial ConnAuthAck.switch_tag
      MessageStoreAck.merge_partial MessageStoreAck.switch_tag DeliverAck.merge_partial
      DeliverAck.switch_tag TxAckPacket.merge_partial TxAckPacket.switch_tag
      BytesMessage.merge_partial BytesMessage.switch_tag StringMessage.merge_partial
      StringMessage.switch_tag
  parse-blank heart_beat =
      ap (λ r. a_heart_beat (after HeartBeat.new_message r))
        (merge_loop-end w (HeartBeat.switch_tag w) HeartBeat.add_unknown 0 HeartBeat.new_message
          refl)
  parse-blank conn_meta =
      ap (λ r. a_conn_meta (after ConnMeta.new_message r))
        (merge_loop-end w (ConnMeta.switch_tag w) ConnMeta.add_unknown 0 ConnMeta.new_message refl)
  parse-blank conn_auth_ack =
      ap (λ r. a_conn_auth_ack (after ConnAuthAck.new_message r))
        (merge_loop-end w (ConnAuthAck.switch_tag w) ConnAuthAck.add_unknown 0
          ConnAuthAck.new_message refl)
  parse-blank message_store_ack =
      ap (λ r. a_message_store_ack (after MessageStoreAck.new_message r))
        (merge_loop-end w (MessageStoreAck.switch_tag w) MessageStoreAck.add_unknown 0
          MessageStoreAck.new_message refl)
  parse-blank deliver_ack =
      ap (λ r. a_deliver_ack (after DeliverAck.new_message r))
        (merge_loop-end w (DeliverAck.switch_tag w) DeliverAck.add_unknown 0 DeliverAck.new_message
          refl)
  parse-blank tx_ack_packet =
      ap (λ r. a_tx_ack_packet (after TxAckPacket.new_message r))
        (merge_loop-end w (TxAckPacket.switch_tag w) TxAckPacket.add_unknown 0
          TxAckPacket.new_message refl)
  parse-blank bytes_message =
      ap (λ r. a_bytes_message (after BytesMessage.new_message r))
        (merge_loop-end w (BytesMessage.switch_tag w) BytesMessage.add_unknown 0
          BytesMessage.new_message refl)
  parse-blank string_message =
      ap (λ r. a_string_message (after StringMessage.new_message r))
        (merge_loop-end w (StringMessage.switch_tag w) StringMessage.add_unknown 0
          StringMessage.new_message refl)

  -- Over the generated messages, if an oversized shift of 0 gives 0, `parseFrom` accepts a
  -- frame of any command that it knows, with an extension below 2^32 and an empty body, though
  -- a body of that kind cannot be empty: it stores the header and a message that is not
  -- initialized.
  pub parse_from-blank :
      (pf : Platform) (pkg : KitePacket Message) (h : Header) (k : Kind) (rest : List ℕ)
      → IsHeader h
      → h.extension < 2 ^ 32
      → kind_of_cmd h.cmd_type ≡ some k
      → ((i : ℕ) → pf.oversize_shift 0 i ≡ 0)
      → (m : Message) × (parse_from pf (generated w) pkg (head_bytes h 0 ++ rest) packet_head_len
          ≡ done (true, record pkg { header = h; message = some m }))
        × (is_initialized m ≡ false)
  parse_from-blank pf pkg h k rest fits narrow known zero_shift =
      let parsed =
        parse_from-known pf (generated w) pkg h h.extension k [] rest fits (omega arith)
          (read_long-long_bytes pf h.extension _ zero_shift narrow) known in
      (blank k, rw (parse-blank k) at parsed, blank-is_initialized k)
