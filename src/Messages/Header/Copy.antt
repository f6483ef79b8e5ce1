-- ===== src/Messages/Header/Copy.antt =====
-- protocol/protobuf/generated/kite_remoting.pb.cc, class Header: the copy constructor and `CopyFrom`.
use kiteq_client_cpp.Base.{◌≡◌, ap, ◌∙◌, false, []}
use kiteq_client_cpp.Messages.{Wire}
use kiteq_client_cpp.Messages.Fields.{merge-optional, set_field}
use kiteq_client_cpp.Messages.Header.{Header, new_message, clear, merge_from, copy_from}
use kiteq_client_cpp.Messages.Header.Whole.{IsWhole}

module _ (w : Wire) where
  pub merge_from-new_message : (m : Header) → IsWhole w m → merge_from m (new_message) ≡ m
  unfolding merge_from new_message
  merge_from-new_message m h =
      let s0 : Header = record new_message { properties = m.properties } in
      let s1 : Header = record s0 { messageid = m.messageid; has_messageid = m.has_messageid } in
      let s2 : Header = record s1 { topic = m.topic; has_topic = m.has_topic } in
      let s3 : Header = record s2 {
        messagetype = m.messagetype;
        has_messagetype = m.has_messagetype;
      } in
      let s4 : Header = record s3 {
        expiredtime = m.expiredtime;
        has_expiredtime = m.has_expiredtime;
      } in
      let s5 : Header = record s4 {
        deliverlimit = m.deliverlimit;
        has_deliverlimit = m.has_deliverlimit;
      } in
      let s6 : Header = record s5 { groupid = m.groupid; has_groupid = m.has_groupid } in
      let s7 : Header = record s6 { commit = m.commit; has_commit = m.has_commit } in
      let s8 : Header = record s7 { fly = m.fly; has_fly = m.has_fly } in
      rw (
        merge-optional (λ v has. record s0 { messageid = v; has_messageid = has }) [] m.messageid
            m.has_messageid (set_field h.has_set_messageid),
        merge-optional (λ v has. record s1 { topic = v; has_topic = has }) [] m.topic m.has_topic
            (set_field h.has_set_topic),
        merge-optional (λ v has. record s2 { messagetype = v; has_messagetype = has }) []
            m.messagetype m.has_messagetype (set_field h.has_set_messagetype),
        merge-optional (λ v has. record s3 { expiredtime = v; has_expiredtime = has })
            0xFFFFFFFFFFFFFFFF m.expiredtime m.has_expiredtime (set_field h.has_set_expiredtime),
        merge-optional (λ v has. record s4 { deliverlimit = v; has_deliverlimit = has }) 100
            m.deliverlimit m.has_deliverlimit (set_field h.has_set_deliverlimit),
        merge-optional (λ v has. record s5 { groupid = v; has_groupid = has }) [] m.groupid
            m.has_groupid (set_field h.has_set_groupid),
        merge-optional (λ v has. record s6 { commit = v; has_commit = has }) false m.commit
            m.has_commit (set_field h.has_set_commit),
        merge-optional (λ v has. record s7 { fly = v; has_fly = has }) false m.fly m.has_fly
            (set_field h.has_set_fly),
        merge-optional (λ v has. record s8 { createtime = v; has_createtime = has }) 0 m.createtime
            m.has_createtime h.unset_createtime,
      )

  pub clear-new_message : (m : Header) → IsWhole w m → clear m ≡ new_message
  unfolding clear new_message
  clear-new_message m h =
      rw (h.has_set_messageid, h.has_set_topic, h.has_set_messagetype, h.has_set_groupid)

  -- A whole message that is copied over another one is what is there afterwards.
  pub copy_from-IsWhole : (m old : Header) → IsWhole w m → IsWhole w old → copy_from m old ≡ m
  unfolding copy_from
  copy_from-IsWhole m old h k =
      ap (λ x. merge_from m x) (clear-new_message old k) ∙ merge_from-new_message m h
