-- ===== src/Messages/DeliverAck/Copy.antt =====
-- protocol/protobuf/generated/kite_remoting.pb.cc, class DeliverAck: the copy constructor and `CopyFrom`.
use kiteq_client_cpp.Base.{◌≡◌, ap, ◌∙◌, true, []}
use kiteq_client_cpp.Messages.Fields.{merge-optional, clear-optional, set_field}
use kiteq_client_cpp.Messages.DeliverAck.{DeliverAck, new_message, clear, merge_from, copy_from}
use kiteq_client_cpp.Messages.DeliverAck.Whole.{IsWhole}

pub merge_from-new_message : (m : DeliverAck) → IsWhole m → merge_from m (new_message) ≡ m
unfolding merge_from new_message
merge_from-new_message m h =
    let s0 : DeliverAck = new_message in
    let s1 : DeliverAck = record s0 { messageid = m.messageid; has_messageid = m.has_messageid } in
    let s2 : DeliverAck = record s1 { topic = m.topic; has_topic = m.has_topic } in
    let s3 : DeliverAck = record s2 {
      messagetype = m.messagetype;
      has_messagetype = m.has_messagetype;
    } in
    let s4 : DeliverAck = record s3 { groupid = m.groupid; has_groupid = m.has_groupid } in
    let s5 : DeliverAck = record s4 { status = m.status; has_status = m.has_status } in
    rw (
      merge-optional (λ v has. record s0 { messageid = v; has_messageid = has }) [] m.messageid
          m.has_messageid (set_field h.has_set_messageid),
      merge-optional (λ v has. record s1 { topic = v; has_topic = has }) [] m.topic m.has_topic
          (set_field h.has_set_topic),
      merge-optional (λ v has. record s2 { messagetype = v; has_messagetype = has }) []
          m.messagetype m.has_messagetype (set_field h.has_set_messagetype),
      merge-optional (λ v has. record s3 { groupid = v; has_groupid = has }) [] m.groupid
          m.has_groupid (set_field h.has_set_groupid),
      merge-optional (λ v has. record s4 { status = v; has_status = has }) true m.status
          m.has_status (set_field h.has_set_status),
      merge-optional (λ v has. record s5 { feedback = v; has_feedback = has }) [] m.feedback
          m.has_feedback h.unset_feedback,
    )

clear-new_message : (m : DeliverAck) → IsWhole m → clear m ≡ new_message
unfolding clear new_message
clear-new_message m h = rw (
  h.has_set_messageid,
  h.has_set_topic,
  h.has_set_messagetype,
  h.has_set_groupid,
  clear-optional [] m.feedback m.has_feedback h.unset_feedback,
)

-- A whole message that is copied over another one is what is there afterwards.
pub copy_from-IsWhole : (m old : DeliverAck) → IsWhole m → IsWhole old → copy_from m old ≡ m
unfolding copy_from
copy_from-IsWhole m old h k =
    ap (λ x. merge_from m x) (clear-new_message old k) ∙ merge_from-new_message m h
