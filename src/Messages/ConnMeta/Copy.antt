-- ===== src/Messages/ConnMeta/Copy.antt =====
-- protocol/protobuf/generated/kite_remoting.pb.cc, class ConnMeta: the copy constructor and `CopyFrom`.
use kiteq_client_cpp.Base.{◌≡◌, ap, ◌∙◌, []}
use kiteq_client_cpp.Messages.Fields.{merge-optional, set_field}
use kiteq_client_cpp.Messages.ConnMeta.{ConnMeta, new_message, clear, merge_from, copy_from}
use kiteq_client_cpp.Messages.ConnMeta.Whole.{IsWhole}

pub merge_from-new_message : (m : ConnMeta) → IsWhole m → merge_from m (new_message) ≡ m
unfolding merge_from new_message
merge_from-new_message m h =
    let s0 : ConnMeta = new_message in
    let s1 : ConnMeta = record s0 { groupid = m.groupid; has_groupid = m.has_groupid } in
    let s2 : ConnMeta = record s1 { secretkey = m.secretkey; has_secretkey = m.has_secretkey } in
    rw (
      merge-optional (λ v has. record s0 { groupid = v; has_groupid = has }) [] m.groupid
          m.has_groupid (set_field h.has_set_groupid),
      merge-optional (λ v has. record s1 { secretkey = v; has_secretkey = has }) [] m.secretkey
          m.has_secretkey (set_field h.has_set_secretkey),
      merge-optional (λ v has. record s2 { warmingupsec = v; has_warmingupsec = has }) 0
          m.warmingupsec m.has_warmingupsec h.unset_warmingupsec,
    )

clear-new_message : (m : ConnMeta) → IsWhole m → clear m ≡ new_message
unfolding clear new_message
clear-new_message m h = rw (h.has_set_groupid, h.has_set_secretkey)

-- A whole message that is copied over another one is what is there afterwards.
pub copy_from-IsWhole : (m old : ConnMeta) → IsWhole m → IsWhole old → copy_from m old ≡ m
unfolding copy_from
copy_from-IsWhole m old h k =
    ap (λ x. merge_from m x) (clear-new_message old k) ∙ merge_from-new_message m h
