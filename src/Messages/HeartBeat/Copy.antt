-- ===== src/Messages/HeartBeat/Copy.antt =====
-- protocol/protobuf/generated/kite_remoting.pb.cc, class HeartBeat: the copy constructor and `CopyFrom`.
use kiteq_client_cpp.Base.{◌≡◌, refl, ap, ◌∙◌}
use kiteq_client_cpp.Messages.Fields.{merge-optional, set_field}
use kiteq_client_cpp.Messages.HeartBeat.{HeartBeat, new_message, clear, merge_from, copy_from}
use kiteq_client_cpp.Messages.HeartBeat.Whole.{IsWhole}

pub merge_from-new_message : (m : HeartBeat) → IsWhole m → merge_from m (new_message) ≡ m
unfolding merge_from new_message
merge_from-new_message m h =
    let s0 : HeartBeat = new_message in
    rw (
      merge-optional (λ v has. record s0 { version = v; has_version = has }) 0 m.version
        m.has_version (set_field h.set_version))

clear-new_message : (m : HeartBeat) → IsWhole m → clear m ≡ new_message
unfolding clear new_message
clear-new_message m h = refl

-- A whole message that is copied over another one is what is there afterwards.
pub copy_from-IsWhole : (m old : HeartBeat) → IsWhole m → IsWhole old → copy_from m old ≡ m
unfolding copy_from
copy_from-IsWhole m old h k =
    ap (λ x. merge_from m x) (clear-new_message old k) ∙ merge_from-new_message m h
