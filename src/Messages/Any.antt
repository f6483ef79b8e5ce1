-- ===== src/Messages/Any.antt =====
-- protocol/protobuf/schema/kite_remoting.proto: the messages that travel in a packet, and what the
-- generated classes make of the packet code's calls of `MessageLite`.
use kiteq_client_cpp.Base.{ℕ, suc, Bool, List, Option, length}
use kiteq_client_cpp.Protocol.{
  Kind, heart_beat, conn_meta, conn_auth_ack, message_store_ack, deliver_ack, tx_ack_packet,
  bytes_message, string_message,
}
use kiteq_client_cpp.Messages.{Wire, parsed}
use kiteq_client_cpp.Messages.HeartBeat
use kiteq_client_cpp.Messages.HeartBeat.Whole as HeartBeatWhole
use kiteq_client_cpp.Messages.ConnMeta
use kiteq_client_cpp.Messages.ConnMeta.Whole as ConnMetaWhole
use kiteq_client_cpp.Messages.ConnAuthAck
use kiteq_client_cpp.Messages.ConnAuthAck.Whole as ConnAuthAckWhole
use kiteq_client_cpp.Messages.MessageStoreAck
use kiteq_client_cpp.Messages.MessageStoreAck.Whole as MessageStoreAckWhole
use kiteq_client_cpp.Messages.DeliverAck
use kiteq_client_cpp.Messages.DeliverAck.Whole as DeliverAckWhole
use kiteq_client_cpp.Messages.TxAckPacket
use kiteq_client_cpp.Messages.TxAckPacket.Whole as TxAckPacketWhole
use kiteq_client_cpp.Messages.BytesMessage
use kiteq_client_cpp.Messages.BytesMessage.Whole as BytesMessageWhole
use kiteq_client_cpp.Messages.StringMessage
use kiteq_client_cpp.Messages.StringMessage.Whole as StringMessageWhole

-- A `MessageLite` of one of the packet's classes.
pub data Message : Type 0 where
  a_heart_beat : HeartBeat.HeartBeat → Message
  a_conn_meta : ConnMeta.ConnMeta → Message
  a_conn_auth_ack : ConnAuthAck.ConnAuthAck → Message
  a_message_store_ack : MessageStoreAck.MessageStoreAck → Message
  a_deliver_ack : DeliverAck.DeliverAck → Message
  a_tx_ack_packet : TxAckPacket.TxAckPacket → Message
  a_bytes_message : BytesMessage.BytesMessage → Message
  a_string_message : StringMessage.StringMessage → Message

abbrev pub kind : Message → Kind
kind (a_heart_beat m) = heart_beat
kind (a_conn_meta m) = conn_meta
kind (a_conn_auth_ack m) = conn_auth_ack
kind (a_message_store_ack m) = message_store_ack
kind (a_deliver_ack m) = deliver_ack
kind (a_tx_ack_packet m) = tx_ack_packet
kind (a_bytes_message m) = bytes_message
kind (a_string_message m) = string_message

unfoldable pub is_initialized : Message → Bool
unfolding HeartBeat.is_initialized ConnMeta.is_initialized ConnAuthAck.is_initialized
    MessageStoreAck.is_initialized DeliverAck.is_initialized TxAckPacket.is_initialized
    BytesMessage.is_initialized StringMessage.is_initialized
is_initialized (a_heart_beat m) = HeartBeat.is_initialized m
is_initialized (a_conn_meta m) = ConnMeta.is_initialized m
is_initialized (a_conn_auth_ack m) = ConnAuthAck.is_initialized m
is_initialized (a_message_store_ack m) = MessageStoreAck.is_initialized m
is_initialized (a_deliver_ack m) = DeliverAck.is_initialized m
is_initialized (a_tx_ack_packet m) = TxAckPacket.is_initialized m
is_initialized (a_bytes_message m) = BytesMessage.is_initialized m
is_initialized (a_string_message m) = StringMessage.is_initialized m

module _ (w : Wire) where
  -- The required fields are set, unset ones have their defaults, sizes and numbers fit, and nothing
  -- is unknown.
  abbrev pub IsWhole : Message → Type 0
  IsWhole (a_heart_beat m) = HeartBeatWhole.IsWhole m
  IsWhole (a_conn_meta m) = ConnMetaWhole.IsWhole m
  IsWhole (a_conn_auth_ack m) = ConnAuthAckWhole.IsWhole m
  IsWhole (a_message_store_ack m) = MessageStoreAckWhole.IsWhole m
  IsWhole (a_deliver_ack m) = DeliverAckWhole.IsWhole m
  IsWhole (a_tx_ack_packet m) = TxAckPacketWhole.IsWhole w m
  IsWhole (a_bytes_message m) = BytesMessageWhole.IsWhole w m
  IsWhole (a_string_message m) = StringMessageWhole.IsWhole w m

  -- `SerializeToArray`.
  unfoldable pub serialize : Message → List ℕ
  unfolding HeartBeat.serialize ConnMeta.serialize ConnAuthAck.serialize MessageStoreAck.serialize
      DeliverAck.serialize TxAckPacket.serialize BytesMessage.serialize StringMessage.serialize
  serialize (a_heart_beat m) = HeartBeat.serialize w m
  serialize (a_conn_meta m) = ConnMeta.serialize w m
  serialize (a_conn_auth_ack m) = ConnAuthAck.serialize w m
  serialize (a_message_store_ack m) = MessageStoreAck.serialize w m
  serialize (a_deliver_ack m) = DeliverAck.serialize w m
  serialize (a_tx_ack_packet m) = TxAckPacket.serialize w m
  serialize (a_bytes_message m) = BytesMessage.serialize w m
  serialize (a_string_message m) = StringMessage.serialize w m

  unfoldable pub byte_size : Message → ℕ
  unfolding HeartBeat.byte_size ConnMeta.byte_size ConnAuthAck.byte_size MessageStoreAck.byte_size
      DeliverAck.byte_size TxAckPacket.byte_size BytesMessage.byte_size StringMessage.byte_size
  byte_size (a_heart_beat m) = HeartBeat.byte_size w m
  byte_size (a_conn_meta m) = ConnMeta.byte_size w m
  byte_size (a_conn_auth_ack m) = ConnAuthAck.byte_size w m
  byte_size (a_message_store_ack m) = MessageStoreAck.byte_size w m
  byte_size (a_deliver_ack m) = DeliverAck.byte_size w m
  byte_size (a_tx_ack_packet m) = TxAckPacket.byte_size w m
  byte_size (a_bytes_message m) = BytesMessage.byte_size w m
  byte_size (a_string_message m) = StringMessage.byte_size w m

  -- The new object after `ParseFromArray`, whatever that returns. A round of the parser's loop for
  -- each byte and one more are given.
  abbrev parse_into : {A : Type 0} → (ℕ → List ℕ → A → Option (Bool × A)) → A → List ℕ → A
  parse_into merge new bytes = (parsed (merge (suc (length bytes)) bytes new) new).1

  unfoldable pub parse : Kind → List ℕ → Message
  unfolding HeartBeat.merge_partial HeartBeat.new_message ConnMeta.merge_partial
      ConnMeta.new_message ConnAuthAck.merge_partial ConnAuthAck.new_message
      MessageStoreAck.merge_partial MessageStoreAck.new_message DeliverAck.merge_partial
      DeliverAck.new_message TxAckPacket.merge_partial TxAckPacket.new_message
      BytesMessage.merge_partial BytesMessage.new_message StringMessage.merge_partial
      StringMessage.new_message
  parse heart_beat bytes =
      a_heart_beat (parse_into (HeartBeat.merge_partial w) HeartBeat.new_message bytes)
  parse conn_meta bytes =
      a_conn_meta (parse_into (ConnMeta.merge_partial w) ConnMeta.new_message bytes)
  parse conn_auth_ack bytes =
      a_conn_auth_ack (parse_into (ConnAuthAck.merge_partial w) ConnAuthAck.new_message bytes)
  parse message_store_ack bytes =
      a_message_store_ack
        (parse_into (MessageStoreAck.merge_partial w) MessageStoreAck.new_message bytes)
  parse deliver_ack bytes =
      a_deliver_ack (parse_into (DeliverAck.merge_partial w) DeliverAck.new_message bytes)
  parse tx_ack_packet bytes =
      a_tx_ack_packet (parse_into (TxAckPacket.merge_partial w) TxAckPacket.new_message bytes)
  parse bytes_message bytes =
      a_bytes_message (parse_into (BytesMessage.merge_partial w) BytesMessage.new_message bytes)
  parse string_message bytes =
      a_string_message (parse_into (StringMessage.merge_partial w) StringMessage.new_message bytes)
