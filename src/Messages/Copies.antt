-- ===== src/Messages/Copies.antt =====
-- protocol/protobuf/generated/kite_remoting.pb.cc: one object's contents are copied to another one.
use kiteq_client_cpp.Base.{◌≡◌, ap}
use kiteq_client_cpp.Messages.{Wire}
use kiteq_client_cpp.Messages.HeartBeat
use kiteq_client_cpp.Messages.HeartBeat.Copy as HeartBeatCopy
use kiteq_client_cpp.Messages.ConnMeta
use kiteq_client_cpp.Messages.ConnMeta.Copy as ConnMetaCopy
use kiteq_client_cpp.Messages.ConnAuthAck
use kiteq_client_cpp.Messages.ConnAuthAck.Copy as ConnAuthAckCopy
use kiteq_client_cpp.Messages.MessageStoreAck
use kiteq_client_cpp.Messages.MessageStoreAck.Copy as MessageStoreAckCopy
use kiteq_client_cpp.Messages.DeliverAck
use kiteq_client_cpp.Messages.DeliverAck.Copy as DeliverAckCopy
use kiteq_client_cpp.Messages.TxAckPacket
use kiteq_client_cpp.Messages.TxAckPacket.Copy as TxAckPacketCopy
use kiteq_client_cpp.Messages.BytesMessage
use kiteq_client_cpp.Messages.BytesMessage.Copy as BytesMessageCopy
use kiteq_client_cpp.Messages.StringMessage
use kiteq_client_cpp.Messages.StringMessage.Copy as StringMessageCopy
use kiteq_client_cpp.Messages.Any.{
  Message, a_heart_beat, a_conn_meta, a_conn_auth_ack, a_message_store_ack, a_deliver_ack,
  a_tx_ack_packet, a_bytes_message, a_string_message, IsWhole,
}

-- `to.CopyFrom(from)`, of two objects of a class, makes of `to` the third one.
pub data IsCopy : Message → Message → Message → Type 0 where
  heart_beats :
      (from to : HeartBeat.HeartBeat)
      → IsCopy (a_heart_beat from) (a_heart_beat to) (a_heart_beat (HeartBeat.copy_from from to))
  conn_metas :
      (from to : ConnMeta.ConnMeta)
      → IsCopy (a_conn_meta from) (a_conn_meta to) (a_conn_meta (ConnMeta.copy_from from to))
  conn_auth_acks :
      (from to : ConnAuthAck.ConnAuthAck)
      → IsCopy
          (a_conn_auth_ack from)
          (a_conn_auth_ack to)
          (a_conn_auth_ack (ConnAuthAck.copy_from from to))
  message_store_acks :
      (from to : MessageStoreAck.MessageStoreAck)
      → IsCopy
          (a_message_store_ack from)
          (a_message_store_ack to)
          (a_message_store_ack (MessageStoreAck.copy_from from to))
  deliver_acks :
      (from to : DeliverAck.DeliverAck)
      → IsCopy
          (a_deliver_ack from)
          (a_deliver_ack to)
          (a_deliver_ack (DeliverAck.copy_from from to))
  tx_ack_packets :
      (from to : TxAckPacket.TxAckPacket)
      → IsCopy
          (a_tx_ack_packet from)
          (a_tx_ack_packet to)
          (a_tx_ack_packet (TxAckPacket.copy_from from to))
  bytes_messages :
      (from to : BytesMessage.BytesMessage)
      → IsCopy
          (a_bytes_message from)
          (a_bytes_message to)
          (a_bytes_message (BytesMessage.copy_from from to))
  string_messages :
      (from to : StringMessage.StringMessage)
      → IsCopy
          (a_string_message from)
          (a_string_message to)
          (a_string_message (StringMessage.copy_from from to))

module _ (w : Wire) where
  -- `CopyFrom` of a whole message over another whole message of its class makes that one equal
  -- to it, whatever optional fields, headers and properties the two have.
  pub IsCopy-whole :
      (from to after : Message)
      → IsWhole w from
      → IsWhole w to
      → IsCopy from to after
      → after ≡ from
  IsCopy-whole _ _ _ h i (heart_beats from to) =
      ap a_heart_beat (HeartBeatCopy.copy_from-IsWhole from to h i)
  IsCopy-whole _ _ _ h i (conn_metas from to) =
      ap a_conn_meta (ConnMetaCopy.copy_from-IsWhole from to h i)
  IsCopy-whole _ _ _ h i (conn_auth_acks from to) =
      ap a_conn_auth_ack (ConnAuthAckCopy.copy_from-IsWhole from to h i)
  IsCopy-whole _ _ _ h i (message_store_acks from to) =
      ap a_message_store_ack (MessageStoreAckCopy.copy_from-IsWhole from to h i)
  IsCopy-whole _ _ _ h i (deliver_acks from to) =
      ap a_deliver_ack (DeliverAckCopy.copy_from-IsWhole from to h i)
  IsCopy-whole _ _ _ h i (tx_ack_packets from to) =
      ap a_tx_ack_packet (TxAckPacketCopy.copy_from-IsWhole w from to h i)
  IsCopy-whole _ _ _ h i (bytes_messages from to) =
      ap a_bytes_message (BytesMessageCopy.copy_from-IsWhole w from to h i)
  IsCopy-whole _ _ _ h i (string_messages from to) =
      ap a_string_message (StringMessageCopy.copy_from-IsWhole w from to h i)
