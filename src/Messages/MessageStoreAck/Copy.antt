-- ===== src/Messages/MessageStoreAck/Copy.antt =====
-- protocol/protobuf/generated/kite_remoting.pb.cc, class MessageStoreAck: the copy constructor and `CopyFrom`.
use kiteq_client_cpp.Base.{◌≡◌, ap, ◌∙◌, true, []}
use kiteq_client_cpp.Messages.Fields.{merge-optional, set_field}
use kiteq_client_cpp.Messages.MessageStoreAck.{
  MessageStoreAck, new_message, clear, merge_from, copy_from,
}
use kiteq_client_cpp.Messages.MessageStoreAck.Whole.{IsWhole}

pub merge_from-new_message : (m : MessageStoreAck) → IsWhole m → merge_from m (new_message) ≡ m
unfolding merge_from new_message
merge_from-new_message m h =
    let s0 : MessageStoreAck = new_message in
    let s1 : MessageStoreAck = record s0 {
      messageid = m.messageid;
      has_messageid = m.has_messageid;
    } in
    let s2 : MessageStoreAck = record s1 { status = m.status; has_status = m.has_status } in
    rw (
      merge-optional (λ v has. record s0 { messageid = v; has_messageid = has }) [] m.messageid
          m.has_messageid (set_field h.has_set_messageid),
      merge-optional (λ v has. record s1 { status = v; has_status = has }) true m.status
          m.has_status (set_field h.has_set_status),
      merge-optional (λ v has. record s2 { feedback = v; has_feedback = has }) [] m.feedback
          m.has_feedback (set_field h.has_set_feedback),
    )

clear-new_message : (m : MessageStoreAck) → IsWhole m → clear m ≡ new_message
unfolding clear new_message
clear-new_message m h = rw (h.has_set_messageid, h.has_set_feedback)

-- A whole message that is copied over another one is what is there afterwards.
pub copy_from-IsWhole : (m old : MessageStoreAck) → IsWhole m → IsWhole old → copy_from m old ≡ m
unfolding copy_from
copy_from-IsWhole m old h k =
    ap (λ x. merge_from m x) (clear-new_message old k) ∙ merge_from-new_message m h
