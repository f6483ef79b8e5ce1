-- ===== src/Messages/ConnAuthAck/Copy.antt =====
-- protocol/protobuf/generated/kite_remoting.pb.cc, class ConnAuthAck: the copy constructor and `CopyFrom`.
use kiteq_client_cpp.Base.{◌≡◌, ap, ◌∙◌, true, []}
use kiteq_client_cpp.Messages.Fields.{merge-optional, set_field}
use kiteq_client_cpp.Messages.ConnAuthAck.{ConnAuthAck, new_message, clear, merge_from, copy_from}
use kiteq_client_cpp.Messages.ConnAuthAck.Whole.{IsWhole}

pub merge_from-new_message : (m : ConnAuthAck) → IsWhole m → merge_from m (new_message) ≡ m
unfolding merge_from new_message
merge_from-new_message m h =
    let s0 : ConnAuthAck = new_message in
    let s1 : ConnAuthAck = record s0 { status = m.status; has_status = m.has_status } in
    rw (
      merge-optional (λ v has. record s0 { status = v; has_status = has }) true m.status
          m.has_status (set_field h.has_set_status),
      merge-optional (λ v has. record s1 { feedback = v; has_feedback = has }) [] m.feedback
          m.has_feedback (set_field h.has_set_feedback),
    )

clear-new_message : (m : ConnAuthAck) → IsWhole m → clear m ≡ new_message
unfolding clear new_message
clear-new_message m h = rw (h.has_set_status, h.has_set_feedback)

-- A whole message that is copied over another one is what is there afterwards.
pub copy_from-IsWhole : (m old : ConnAuthAck) → IsWhole m → IsWhole old → copy_from m old ≡ m
unfolding copy_from
copy_from-IsWhole m old h k =
    ap (λ x. merge_from m x) (clear-new_message old k) ∙ merge_from-new_message m h
