-- ===== src/Protocol.antt =====
-- protocol/protocol.h, and the messages of protocol/protobuf/schema/kite_remoting.proto as the
-- packet code sees them: by their kinds, and by what the protobuf runtime does with them.
use kiteq_client_cpp.Base.{ℕ, ◌+◌, ◌*◌, ◌≡◌, List, [], ◌∷◌}

abbrev pub cmd_heartbeat : ℕ
cmd_heartbeat = 0x01

abbrev pub cmd_conn_meta : ℕ
cmd_conn_meta = 0x02

abbrev pub cmd_conn_auth : ℕ
cmd_conn_auth = 0x03

abbrev pub cmd_message_store_ack : ℕ
cmd_message_store_ack = 0x04

abbrev pub cmd_deliver_ack : ℕ
cmd_deliver_ack = 0x05

abbrev pub cmd_tx_ack : ℕ
cmd_tx_ack = 0x06

abbrev pub cmd_bytes_message : ℕ
cmd_bytes_message = 0x11

abbrev pub cmd_string_message : ℕ
cmd_string_message = 0x12

-- protocol/protocol.cpp.
abbrev cmd_str_crlf : List ℕ
cmd_str_crlf = 13 ∷ 10 ∷ []

abbrev pub packet_head_len : ℕ
packet_head_len = 4 + 1 + 2 + 8 + 4

abbrev pub max_packet_bytes : ℕ
max_packet_bytes = 32 * 1024

abbrev pub tx_unknown : ℕ
tx_unknown = 0

abbrev pub tx_commit : ℕ
tx_commit = 1

abbrev pub tx_rollback : ℕ
tx_rollback = 2

abbrev pub head_extension : ℕ
head_extension = 0

abbrev pub head_version : ℕ
head_version = 2

-- `MessageLite`'s subclasses that travel in a packet.
pub data Kind : Type 0 where
  heart_beat conn_meta conn_auth_ack message_store_ack : Kind
  deliver_ack tx_ack_packet bytes_message string_message : Kind

-- The protobuf runtime over a type `M` of messages. `serialize m` are the `ByteSize()` bytes that
-- `SerializeToArray` writes; `parse k bs` is a new object of kind k after `ParseFromArray`, whose
-- result the packet code does not look at. A whole message, which the runtime can give back, is parsed
-- from its bytes. Messages.Codec has that of the generated classes.
pub record Codec (M : Type 0) : Type 1 where
  pub kind : M → Kind
  pub IsWhole : M → Type 0
  pub serialize : M → List ℕ
  pub parse : Kind → List ℕ → M
  pub parse-serialize : (m : M) → IsWhole m → parse (kind m) (serialize m) ≡ m
