-- ===== src/Examples/Orders.antt =====
-- example/KiteqProducer.cpp and KiteqTxProducer.cpp: the messages that they build.
use kiteq_client_cpp.Base.{
  ℕ, ◌+◌, ◌^◌, ◌≤◌, ◌<◌, ◌≡◌, refl, Bool, true, false, List, [], ◌∷◌, some, length, arith,
}
use kiteq_client_cpp.Protocol.{cmd_string_message}
use kiteq_client_cpp.KitePacket.{kind_of_cmd}
use kiteq_client_cpp.KitePacket.Decode.{IsHeader}
use kiteq_client_cpp.Session.Frames.{IsReceivable}
use kiteq_client_cpp.Messages.{Wire}
use kiteq_client_cpp.Messages.Header
use kiteq_client_cpp.Messages.Header.Whole as HeaderWhole
use kiteq_client_cpp.Messages.Headed.{header_size}
use kiteq_client_cpp.Messages.StringMessage
use kiteq_client_cpp.Messages.StringMessage.Whole as StringMessageWhole
use kiteq_client_cpp.Messages.Any.{a_string_message, serialize}
use kiteq_client_cpp.Messages.Codec.{generated}
use kiteq_client_cpp.Examples.{Boost, dash}
use kiteq_client_cpp.Examples.Producer
use kiteq_client_cpp.Examples.TxProducer
use kiteq_client_cpp.KitePacket

-- The order with an id, an end and a flag; all the rest of it is fixed.
abbrev pub order_header : List ℕ → ℕ → Bool → Header.Header
order_header id expired commit = record {
  messageid = id;
  has_messageid = true;
  topic = b't' ∷ b'r' ∷ b'a' ∷ b'd' ∷ b'e' ∷ [];
  has_topic = true;
  messagetype = b'p' ∷ b'a' ∷ b'y' ∷ b'-' ∷ b's' ∷ b'u' ∷ b'c' ∷ b'c' ∷ [];
  has_messagetype = true;
  expiredtime = expired;
  has_expiredtime = true;
  deliverlimit = 100;
  has_deliverlimit = true;
  groupid = b'g' ∷ b'o' ∷ b'-' ∷ b'k' ∷ b'i' ∷ b't' ∷ b'e' ∷ b'-' ∷ b't' ∷ b'e' ∷ b's' ∷ b't' ∷ [];
  has_groupid = true;
  commit = commit;
  has_commit = true;
  fly = false;
  has_fly = true;
  properties = [];
  createtime = 0;
  has_createtime = false;
  unknown_fields = [];
}

abbrev pub order : List ℕ → ℕ → Bool → StringMessage.StringMessage
order id expired commit = record {
  header = some (order_header id expired commit);
  has_header = true;
  body = b'h' ∷ b'e' ∷ b'l' ∷ b'l' ∷ b'o' ∷ b' ' ∷ b'w' ∷ b'o' ∷ b'r' ∷ b'l' ∷ b'd' ∷ [];
  has_body = true;
  unknown_fields = [];
}

-- The id that is made of the text of a uuid.
abbrev pub order_id : Boost → List ℕ → List ℕ
order_id boost u = boost.replace_all_copy u dash []

pub build_message_lem :
    (boost : Boost) (u topic group_id message_type body : List ℕ)
    → Producer.build_message boost u topic group_id message_type body
      ≡ order (order_id boost u) 1845173857 true
unfolding Producer.build_message Header.new_message StringMessage.new_message
build_message_lem boost u topic group_id message_type body = refl

pub tx_build_message_lem :
    (boost : Boost) (u topic group_id message_type body : List ℕ)
    → TxProducer.build_message boost u topic group_id message_type body
      ≡ order (order_id boost u) 1445173857 false
unfolding TxProducer.build_message Header.new_message StringMessage.new_message
tx_build_message_lem boost u topic group_id message_type body = refl

-- The runtime's numbers are varints: groups of seven bits, a byte each.
pub record IsVarint (w : Wire) : Type 0 where
  pub small_delimited : (n : ℕ) → n < 128 → w.delimited_size n ≡ n + 1
  pub small_int32 : (v : ℕ) → v < 128 → w.int32_size v ≡ 1
  pub five_bytes : (v : ℕ) → v < 2 ^ 35 → w.int64_size v ≤ 5

module _ (w : Wire) (varint : IsVarint w) where
  order_header-IsWhole :
      (id : List ℕ) (expired : ℕ) (commit : Bool)
      → length id ≤ 36
      → expired < 2 ^ 35
      → HeaderWhole.IsWhole w (order_header id expired commit)
  order_header-IsWhole id expired commit short early = record {
    known = refl;
    has_set_messageid = refl;
    fits_messageid = omega (arith, short);
    has_set_topic = refl;
    fits_topic = omega arith;
    has_set_messagetype = refl;
    fits_messagetype = omega arith;
    has_set_expiredtime = refl;
    fits_expiredtime = omega (arith, early);
    has_set_deliverlimit = refl;
    fits_deliverlimit = omega arith;
    has_set_groupid = refl;
    fits_groupid = omega arith;
    has_set_commit = refl;
    has_set_fly = refl;
    unset_createtime = λ e. refl;
    fits_createtime = omega arith;
    whole_properties = tt;
  }

  order_header-length :
      (id : List ℕ) (expired : ℕ) (commit : Bool)
      → length id ≤ 36
      → expired < 2 ^ 35
      → length (Header.serialize w (order_header id expired commit)) ≤ length id + 45
  unfolding Header.total_size Header.properties_size
  order_header-length id expired commit short early =
      let id_size = varint.small_delimited (length id) (omega (arith, short)) in
      let topic_size = varint.small_delimited 5 (omega arith) in
      let type_size = varint.small_delimited 8 (omega arith) in
      let group_size = varint.small_delimited 12 (omega arith) in
      let limit_size = varint.small_int32 100 (omega arith) in
      let end_size = varint.five_bytes expired early in
      let whole = order_header-IsWhole id expired commit short early in
      omega (arith, HeaderWhole.length-total_size w (order_header id expired commit) whole)

  order-IsWhole :
      (id : List ℕ) (expired : ℕ) (commit : Bool)
      → length id ≤ 36
      → expired < 2 ^ 35
      → StringMessageWhole.IsWhole w (order id expired commit)
  order-IsWhole id expired commit short early =
      let whole = order_header-IsWhole id expired commit short early in
      let small = order_header-length id expired commit short early in
      record {
        known = refl;
        header_set = refl;
        whole_header = (order_header id expired commit, refl, whole, omega arith);
        has_set_body = refl;
        fits_body = omega arith;
      }

  -- At most 81 bytes of header, and 15 more.
  order-length :
      (id : List ℕ) (expired : ℕ) (commit : Bool)
      → length id ≤ 36
      → expired < 2 ^ 35
      → length (StringMessage.serialize w (order id expired commit)) ≤ 96
  unfolding StringMessage.total_size header_size
  order-length id expired commit short early =
      let small = order_header-length id expired commit short early in
      let h = order_header id expired commit in
      let whole = order_header-IsWhole id expired commit short early in
      let size = HeaderWhole.length-serialize w h whole (omega arith) in
      let head_size = varint.small_delimited (Header.byte_size w h) (omega arith) in
      let body_size = varint.small_delimited 11 (omega arith) in
      omega (
        arith,
        StringMessageWhole.length-total_size w (order id expired commit)
            (order-IsWhole id expired commit short early),
      )

  -- An order in a packet of its command can be sent and received.
  pub order-IsReceivable :
      (h : KitePacket.Header) (id : List ℕ) (expired : ℕ) (commit : Bool)
      → IsHeader h
      → h.cmd_type ≡ cmd_string_message
      → h.extension < 2 ^ 32
      → length id ≤ 36
      → expired < 2 ^ 35
      → IsReceivable (generated w) h (a_string_message (order id expired commit))
  unfolding serialize kind_of_cmd
  order-IsReceivable h id expired commit fits cmd narrow short early =
      let whole = order-IsWhole id expired commit short early in
      let small = order-length id expired commit short early in
      record {
        sendable = record {
          is_header = fits;
          whole = whole;
          same_kind = rw cmd;
          short = omega arith;
        };
        narrow = narrow;
        within = omega arith;
        plain = omega arith;
      }
