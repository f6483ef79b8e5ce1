-- ===== src/Messages/Entry/Copy.antt =====
-- protocol/protobuf/generated/kite_remoting.pb.cc, class Entry: the copy constructor and `CopyFrom`.
use kiteq_client_cpp.Base.{◌≡◌, ap, ◌∙◌, []}
use kiteq_client_cpp.Messages.Fields.{merge-optional, set_field}
use kiteq_client_cpp.Messages.Entry.{Entry, new_message, clear, merge_from, copy_from}
use kiteq_client_cpp.Messages.Entry.Whole.{IsWhole}

pub merge_from-new_message : (m : Entry) → IsWhole m → merge_from m (new_message) ≡ m
unfolding merge_from new_message
merge_from-new_message m h =
    let s0 : Entry = new_message in
    let s1 : Entry = record s0 { key = m.key; has_key = m.has_key } in
    rw (
      merge-optional (λ v has. record s0 { key = v; has_key = has }) [] m.key m.has_key
          (set_field h.has_set_key),
      merge-optional (λ v has. record s1 { value = v; has_value = has }) [] m.value m.has_value
          (set_field h.has_set_value),
    )

clear-new_message : (m : Entry) → IsWhole m → clear m ≡ new_message
unfolding clear new_message
clear-new_message m h = rw (h.has_set_key, h.has_set_value)

-- A whole message that is copied over another one is what is there afterwards.
pub copy_from-IsWhole : (m old : Entry) → IsWhole m → IsWhole old → copy_from m old ≡ m
unfolding copy_from
copy_from-IsWhole m old h k =
    ap (λ x. merge_from m x) (clear-new_message old k) ∙ merge_from-new_message m h
