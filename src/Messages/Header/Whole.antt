-- ===== src/Messages/Header/Whole.antt =====
-- protocol/protobuf/generated/kite_remoting.pb.cc, class Header: a whole message is parsed back.
use kiteq_client_cpp.Base.{
  ℕ, subst, suc, ◌+◌, ◌^◌, ◌<◌, ◌≡◌, refl, sym, ap, ap₂, ◌∙◌, true, false, List, [], ◌∷◌, ◌++◌,
  some, length, arith, if◌then◌else◌, length-append, All,
}
use kiteq_client_cpp.Messages.{Wire, write_string, consumed}
use kiteq_client_cpp.Messages.Reads.{Reads-none, Reads-trans, Reads-end}
use kiteq_client_cpp.Messages.Fields.{fits-int, Reads-value, length-optional, set_field}
use kiteq_client_cpp.Messages.Header.Properties.{
  IsSmall, all_are_initialized-whole, serialize_properties-Reads, length-serialize_properties,
}
use kiteq_client_cpp.Messages.Header.{
  Header, new_message, is_initialized, add_unknown, switch_tag, merge_partial, serialize,
  serialize_properties, byte_size, total_size, set_messageid, set_topic, set_messagetype,
  set_expiredtime, set_deliverlimit, set_groupid, set_commit, set_fly, set_createtime,
}

module _ (w : Wire) where
  -- The required fields are set, an unset one has its default, the values fit, and nothing is unknown.
  pub record IsWhole (m : Header) : Type 0 where
    pub known : m.unknown_fields ≡ []
    pub has_set_messageid : m.has_messageid ≡ true
    pub fits_messageid : length m.messageid < 2 ^ 31
    pub has_set_topic : m.has_topic ≡ true
    pub fits_topic : length m.topic < 2 ^ 31
    pub has_set_messagetype : m.has_messagetype ≡ true
    pub fits_messagetype : length m.messagetype < 2 ^ 31
    pub has_set_expiredtime : m.has_expiredtime ≡ true
    pub fits_expiredtime : m.expiredtime < 2 ^ 64
    pub has_set_deliverlimit : m.has_deliverlimit ≡ true
    pub fits_deliverlimit : m.deliverlimit < 2 ^ 32
    pub has_set_groupid : m.has_groupid ≡ true
    pub fits_groupid : length m.groupid < 2 ^ 31
    pub has_set_commit : m.has_commit ≡ true
    pub has_set_fly : m.has_fly ≡ true
    pub unset_createtime : m.has_createtime ≡ false → m.createtime ≡ 0
    pub fits_createtime : m.createtime < 2 ^ 64
    pub whole_properties : All (IsSmall w) m.properties

  pub IsWhole-is_initialized : (m : Header) → IsWhole m → is_initialized m ≡ true
  unfolding is_initialized
  IsWhole-is_initialized m h =
      rw
        (
          h.has_set_messageid, h.has_set_topic, h.has_set_messagetype, h.has_set_expiredtime,
          h.has_set_deliverlimit, h.has_set_groupid, h.has_set_commit, h.has_set_fly,
        )
        (all_are_initialized-whole w m.properties h.whole_properties)

  pub serialize-parses :
      (m : Header)
      → IsWhole m
      → (merge_partial w (suc (length (serialize w m))) (serialize w m) new_message
          ≡ some (true, m))
        × (consumed w
              (switch_tag w)
              add_unknown
              (suc (length (serialize w m)))
              (serialize w m)
              new_message
            ≡ true)
  unfolding serialize merge_partial switch_tag new_message set_messageid set_topic set_messagetype
      set_expiredtime set_deliverlimit set_groupid set_commit set_fly set_createtime
  serialize-parses m h =
      let s0 = new_message in
      let s1 : Header = record s0 { messageid = m.messageid; has_messageid = m.has_messageid } in
      let s2 : Header = record s1 { topic = m.topic; has_topic = m.has_topic } in
      let s3 : Header = record s2 {
        messagetype = m.messagetype;
        has_messagetype = m.has_messagetype;
      } in
      let s4 : Header = record s3 {
        expiredtime = m.expiredtime;
        has_expiredtime = m.has_expiredtime;
      } in
      let s5 : Header = record s4 {
        deliverlimit = m.deliverlimit;
        has_deliverlimit = m.has_deliverlimit;
      } in
      let s6 : Header = record s5 { groupid = m.groupid; has_groupid = m.has_groupid } in
      let s7 : Header = record s6 { commit = m.commit; has_commit = m.has_commit } in
      let s8 : Header = record s7 { fly = m.fly; has_fly = m.has_fly } in
      let s9 : Header = record s8 { properties = m.properties } in
      let s10 : Header = record s9 {
        createtime = m.createtime;
        has_createtime = m.has_createtime;
      } in
      let reads =
        Reads-value w (switch_tag w) add_unknown 10
          (λ v has. record s0 { messageid = v; has_messageid = has }) [] m.messageid m.has_messageid
          w.read_string (write_string w m.messageid)
          (λ input. set_messageid (w.broken_string input s0.messageid) s0) (omega arith)
          (omega arith) (λ input. refl)
          (λ after. w.read-write_string m.messageid after h.fits_messageid)
          (set_field h.has_set_messageid)
          (Reads-value w (switch_tag w) add_unknown 18
            (λ v has. record s1 { topic = v; has_topic = has }) [] m.topic m.has_topic w.read_string
            (write_string w m.topic) (λ input. set_topic (w.broken_string input s1.topic) s1)
            (omega arith) (omega arith) (λ input. refl)
            (λ after. w.read-write_string m.topic after h.fits_topic) (set_field h.has_set_topic)
            (Reads-value w (switch_tag w) add_unknown 26
              (λ v has. record s2 { messagetype = v; has_messagetype = has }) [] m.messagetype
              m.has_messagetype w.read_string (write_string w m.messagetype)
              (λ input. set_messagetype (w.broken_string input s2.messagetype) s2) (omega arith)
              (omega arith) (λ input. refl)
              (λ after. w.read-write_string m.messagetype after h.fits_messagetype)
              (set_field h.has_set_messagetype)
              (Reads-value w (switch_tag w) add_unknown 32
                (λ v has. record s3 { expiredtime = v; has_expiredtime = has }) 0xFFFFFFFFFFFFFFFF
                m.expiredtime m.has_expiredtime w.read_int64 (w.write_int64 m.expiredtime)
                (λ input. s3) (omega arith) (omega arith) (λ input. refl)
                (λ after. w.read-write_int64 m.expiredtime after h.fits_expiredtime)
                (set_field h.has_set_expiredtime)
                (Reads-value w (switch_tag w) add_unknown 40
                  (λ v has. record s4 { deliverlimit = v; has_deliverlimit = has }) 100
                  m.deliverlimit m.has_deliverlimit w.read_int32 (w.write_int32 m.deliverlimit)
                  (λ input. s4) (omega arith) (omega arith) (λ input. refl)
                  (λ after. w.read-write_int32 m.deliverlimit after h.fits_deliverlimit)
                  (set_field h.has_set_deliverlimit)
                  (Reads-value w (switch_tag w) add_unknown 50
                    (λ v has. record s5 { groupid = v; has_groupid = has }) [] m.groupid
                    m.has_groupid w.read_string (write_string w m.groupid)
                    (λ input. set_groupid (w.broken_string input s5.groupid) s5) (omega arith)
                    (omega arith) (λ input. refl)
                    (λ after. w.read-write_string m.groupid after h.fits_groupid)
                    (set_field h.has_set_groupid)
                    (Reads-value w (switch_tag w) add_unknown 56
                      (λ v has. record s6 { commit = v; has_commit = has }) false m.commit
                      m.has_commit w.read_bool (w.write_bool m.commit) (λ input. s6) (omega arith)
                      (omega arith) (λ input. refl) (λ after. w.read-write_bool m.commit after)
                      (set_field h.has_set_commit)
                      (Reads-value w (switch_tag w) add_unknown 64
                        (λ v has. record s7 { fly = v; has_fly = has }) false m.fly m.has_fly
                        w.read_bool (w.write_bool m.fly) (λ input. s7) (omega arith) (omega arith)
                        (λ input. refl) (λ after. w.read-write_bool m.fly after)
                        (set_field h.has_set_fly)
                        (Reads-trans w (switch_tag w) add_unknown
                          (serialize_properties-Reads w s8 m.properties _ h.whole_properties)
                          (Reads-value w (switch_tag w) add_unknown 80
                            (λ v has. record s9 { createtime = v; has_createtime = has }) 0
                            m.createtime m.has_createtime w.read_int64 (w.write_int64 m.createtime)
                            (λ input. s9) (omega arith) (omega arith) (λ input. refl)
                            (λ after. w.read-write_int64 m.createtime after h.fits_createtime)
                            h.unset_createtime
                            (Reads-none w (switch_tag w) add_unknown m.unknown_fields
                              s10)))))))))) in
      let ends =
        Reads-end w (switch_tag w) add_unknown (serialize w m) m.unknown_fields s0 s10 h.known reads
          refl in
      (ends.0 ∙ ap (λ u. some (true, record m { unknown_fields = u })) (sym h.known), ends.1)

  pub length-total_size : (m : Header) → IsWhole m → length (serialize w m) ≡ total_size w m
  unfolding serialize total_size
  length-total_size m h =
      let last =
        length-optional m.has_createtime 80 (w.write_int64 m.createtime) m.unknown_fields
          (w.length-write_int64 m.createtime) refl in
      let tail : List ℕ =
        (if m.has_createtime then 80 ∷ w.write_int64 m.createtime else []) ++ m.unknown_fields in
      let middle =
        length-append (serialize_properties w m.properties) tail
        ∙ ap₂ ◌+◌ (length-serialize_properties w m.properties h.whole_properties) last in
      let counted =
        length-optional m.has_messageid 10 (write_string w m.messageid) _
          (w.length-write_string m.messageid)
          (length-optional m.has_topic 18 (write_string w m.topic) _ (w.length-write_string m.topic)
            (length-optional m.has_messagetype 26 (write_string w m.messagetype) _
              (w.length-write_string m.messagetype)
              (length-optional m.has_expiredtime 32 (w.write_int64 m.expiredtime) _
                (w.length-write_int64 m.expiredtime)
                (length-optional m.has_deliverlimit 40 (w.write_int32 m.deliverlimit) _
                  (w.length-write_int32 m.deliverlimit)
                  (length-optional m.has_groupid 50 (write_string w m.groupid) _
                    (w.length-write_string m.groupid)
                    (length-optional m.has_commit 56 (w.write_bool m.commit) _
                      (w.length-write_bool m.commit)
                      (length-optional m.has_fly 64 (w.write_bool m.fly) _
                        (w.length-write_bool m.fly) middle))))))) in
      counted
      ∙ rw
          (
            h.has_set_messageid, h.has_set_topic, h.has_set_messagetype, h.has_set_expiredtime,
            h.has_set_deliverlimit, h.has_set_groupid, h.has_set_commit, h.has_set_fly,
          )
          (omega arith)

  -- And `ByteSize` is that, if it fits.
  pub length-serialize :
      (m : Header)
      → IsWhole m
      → length (serialize w m) < 2 ^ 32
      → length (serialize w m) ≡ byte_size w m
  unfolding byte_size
  length-serialize m h small =
      length-total_size m h
      ∙ fits-int (total_size w m) (subst (λ n. n < 2 ^ 32) (length-total_size m h) small)
