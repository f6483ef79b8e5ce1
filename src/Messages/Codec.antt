-- ===== src/Messages/Codec.antt =====
-- protocol/protobuf/generated/kite_remoting.pb.cc: the generated classes are a codec for packets.
use kiteq_client_cpp.Base.{◌≡◌, ap, Bool, true, Option, length, ◌<◌, ◌^◌, arith}
use kiteq_client_cpp.Protocol.{Codec}
use kiteq_client_cpp.Messages.{Wire, parsed}
use kiteq_client_cpp.Messages.HeartBeat
use kiteq_client_cpp.Messages.HeartBeat.Whole as HeartBeatWhole
use kiteq_client_cpp.Messages.ConnMeta
use kiteq_client_cpp.Messages.ConnMeta.Whole as ConnMetaWhole
use kiteq_client_cpp.Messages.ConnAuthAck
use kiteq_client_cpp.Messages.ConnAuthAck.Whole as ConnAuthAckWhole
use kiteq_client_cpp.Messages.MessageStoreAck
use kiteq_client_cpp.Messages.MessageStoreAck.Whole as MessageStoreAckWhole
use kiteq_client_cpp.Messages.DeliverAck
use kiteq_client_cpp.Messages.DeliverAck.Whole as DeliverAckWhole
use kiteq_client_cpp.Messages.TxAckPacket
use kiteq_client_cpp.Messages.TxAckPacket.Whole as TxAckPacketWhole
use kiteq_client_cpp.Messages.BytesMessage
use kiteq_client_cpp.Messages.BytesMessage.Whole as BytesMessageWhole
use kiteq_client_cpp.Messages.StringMessage
use kiteq_client_cpp.Messages.StringMessage.Whole as StringMessageWhole
use kiteq_client_cpp.Messages.Any.{
  Message, a_heart_beat, a_conn_meta, a_conn_auth_ack, a_message_store_ack, a_deliver_ack,
  a_tx_ack_packet, a_bytes_message, a_string_message, kind, is_initialized, IsWhole, serialize,
  byte_size, parse,
}

-- The object after a parse that succeeds.
abbrev pub after : {A : Type 0} → A → Option (Bool × A) → A
after new r = (parsed r new).1

module _ (w : Wire) where
  pub whole-parse : (m : Message) → IsWhole w m → parse w (kind m) (serialize w m) ≡ m
  unfolding parse serialize
  whole-parse (a_heart_beat m) h =
      ap (λ r. a_heart_beat (after HeartBeat.new_message r))
        (HeartBeatWhole.serialize-parses w m h).0
  whole-parse (a_conn_meta m) h =
      ap (λ r. a_conn_meta (after ConnMeta.new_message r)) (ConnMetaWhole.serialize-parses w m h).0
  whole-parse (a_conn_auth_ack m) h =
      ap (λ r. a_conn_auth_ack (after ConnAuthAck.new_message r))
        (ConnAuthAckWhole.serialize-parses w m h).0
  whole-parse (a_message_store_ack m) h =
      ap (λ r. a_message_store_ack (after MessageStoreAck.new_message r))
        (MessageStoreAckWhole.serialize-parses w m h).0
  whole-parse (a_deliver_ack m) h =
      ap (λ r. a_deliver_ack (after DeliverAck.new_message r))
        (DeliverAckWhole.serialize-parses w m h).0
  whole-parse (a_tx_ack_packet m) h =
      ap (λ r. a_tx_ack_packet (after TxAckPacket.new_message r))
        (TxAckPacketWhole.serialize-parses w m h).0
  whole-parse (a_bytes_message m) h =
      ap (λ r. a_bytes_message (after BytesMessage.new_message r))
        (BytesMessageWhole.serialize-parses w m h).0
  whole-parse (a_string_message m) h =
      ap (λ r. a_string_message (after StringMessage.new_message r))
        (StringMessageWhole.serialize-parses w m h).0

  whole-length :
      (m : Message)
      → IsWhole w m
      → length (serialize w m) < 2 ^ 31
      → length (serialize w m) ≡ byte_size w m
  unfolding serialize byte_size
  whole-length (a_heart_beat m) h short =
      HeartBeatWhole.length-serialize w m h (omega (arith, short))
  whole-length (a_conn_meta m) h short = ConnMetaWhole.length-serialize w m h (omega (arith, short))
  whole-length (a_conn_auth_ack m) h short =
      ConnAuthAckWhole.length-serialize w m h (omega (arith, short))
  whole-length (a_message_store_ack m) h short =
      MessageStoreAckWhole.length-serialize w m h (omega (arith, short))
  whole-length (a_deliver_ack m) h short =
      DeliverAckWhole.length-serialize w m h (omega (arith, short))
  whole-length (a_tx_ack_packet m) h short =
      TxAckPacketWhole.length-serialize w m h (omega (arith, short))
  whole-length (a_bytes_message m) h short =
      BytesMessageWhole.length-serialize w m h (omega (arith, short))
  whole-length (a_string_message m) h short =
      StringMessageWhole.length-serialize w m h (omega (arith, short))

  whole-initialized : (m : Message) → IsWhole w m → is_initialized m ≡ true
  unfolding is_initialized
  whole-initialized (a_heart_beat m) h = HeartBeatWhole.IsWhole-is_initialized w m h
  whole-initialized (a_conn_meta m) h = ConnMetaWhole.IsWhole-is_initialized w m h
  whole-initialized (a_conn_auth_ack m) h = ConnAuthAckWhole.IsWhole-is_initialized w m h
  whole-initialized (a_message_store_ack m) h = MessageStoreAckWhole.IsWhole-is_initialized w m h
  whole-initialized (a_deliver_ack m) h = DeliverAckWhole.IsWhole-is_initialized w m h
  whole-initialized (a_tx_ack_packet m) h = TxAckPacketWhole.IsWhole-is_initialized w m h
  whole-initialized (a_bytes_message m) h = BytesMessageWhole.IsWhole-is_initialized w m h
  whole-initialized (a_string_message m) h = StringMessageWhole.IsWhole-is_initialized w m h

  -- Every whole message of the eight classes that travel in a packet (the required fields are
  -- set, an unset one has its default, texts and messages within are shorter than 2^31 bytes,
  -- numbers fit, nothing is unknown), serialized in fewer than 2^31 bytes, is initialized,
  -- `ByteSize`, a sum that an `int` keeps, is the length of what is serialized, and a new
  -- object that parses that is the message.
  pub parse-serialize :
      (m : Message)
      → IsWhole w m
      → length (serialize w m) < 2 ^ 31
      → (is_initialized m ≡ true)
        × (length (serialize w m) ≡ byte_size w m)
        × (parse w (kind m) (serialize w m) ≡ m)
  parse-serialize m h short = (whole-initialized m h, whole-length m h short, whole-parse m h)

  -- What the packets of the client are made of.
  abbrev pub generated : Codec Message
  generated = record {
    kind = kind;
    IsWhole = IsWhole w;
    serialize = serialize w;
    parse = parse w;
    parse-serialize = whole-parse;
  }
