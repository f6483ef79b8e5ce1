-- ===== src/Messages/DeliverAck/Whole.antt =====
-- protocol/protobuf/generated/kite_remoting.pb.cc, class DeliverAck: a whole message is parsed back.
use kiteq_client_cpp.Base.{
  suc, ◌^◌, ◌<◌, ◌≡◌, refl, sym, ap, ◌∙◌, true, false, [], some, length, arith, subst,
}
use kiteq_client_cpp.Messages.{Wire, write_string, consumed}
use kiteq_client_cpp.Messages.Reads.{Reads-none, Reads-end}
use kiteq_client_cpp.Messages.Fields.{fits-int, Reads-value, length-optional, set_field}
use kiteq_client_cpp.Messages.DeliverAck.{
  DeliverAck, new_message, is_initialized, add_unknown, switch_tag, merge_partial, serialize,
  byte_size, total_size, set_messageid, set_topic, set_messagetype, set_groupid, set_status,
  set_feedback,
}

-- The required fields are set, an unset one has its default, the values fit, and nothing is unknown.
pub record IsWhole (m : DeliverAck) : Type 0 where
  pub known : m.unknown_fields ≡ []
  pub has_set_messageid : m.has_messageid ≡ true
  pub fits_messageid : length m.messageid < 2 ^ 31
  pub has_set_topic : m.has_topic ≡ true
  pub fits_topic : length m.topic < 2 ^ 31
  pub has_set_messagetype : m.has_messagetype ≡ true
  pub fits_messagetype : length m.messagetype < 2 ^ 31
  pub has_set_groupid : m.has_groupid ≡ true
  pub fits_groupid : length m.groupid < 2 ^ 31
  pub has_set_status : m.has_status ≡ true
  pub unset_feedback : m.has_feedback ≡ false → m.feedback ≡ []
  pub fits_feedback : length m.feedback < 2 ^ 31

module _ (w : Wire) where
  pub IsWhole-is_initialized : (m : DeliverAck) → IsWhole m → is_initialized m ≡ true
  unfolding is_initialized
  IsWhole-is_initialized m h = rw (
    h.has_set_messageid, h.has_set_topic, h.has_set_messagetype, h.has_set_groupid,
    h.has_set_status,
  )

  pub serialize-parses :
      (m : DeliverAck)
      → IsWhole m
      → (merge_partial w (suc (length (serialize w m))) (serialize w m) new_message
          ≡ some (true, m))
        × (consumed w
              (switch_tag w)
              add_unknown
              (suc (length (serialize w m)))
              (serialize w m)
              new_message
            ≡ true)
  unfolding serialize merge_partial switch_tag new_message set_messageid set_topic set_messagetype
      set_groupid set_status set_feedback
  serialize-parses m h =
      let s0 = new_message in
      let s1 : DeliverAck = record s0 {
        messageid = m.messageid;
        has_messageid = m.has_messageid;
      } in
      let s2 : DeliverAck = record s1 { topic = m.topic; has_topic = m.has_topic } in
      let s3 : DeliverAck = record s2 {
        messagetype = m.messagetype;
        has_messagetype = m.has_messagetype;
      } in
      let s4 : DeliverAck = record s3 { groupid = m.groupid; has_groupid = m.has_groupid } in
      let s5 : DeliverAck = record s4 { status = m.status; has_status = m.has_status } in
      let s6 : DeliverAck = record s5 { feedback = m.feedback; has_feedback = m.has_feedback } in
      let reads =
        Reads-value w (switch_tag w) add_unknown 10
          (λ v has. record s0 { messageid = v; has_messageid = has }) [] m.messageid m.has_messageid
          w.read_string (write_string w m.messageid)
          (λ input. set_messageid (w.broken_string input s0.messageid) s0) (omega arith)
          (omega arith) (λ input. refl)
          (λ after. w.read-write_string m.messageid after h.fits_messageid)
          (set_field h.has_set_messageid)
          (Reads-value w (switch_tag w) add_unknown 18
            (λ v has. record s1 { topic = v; has_topic = has }) [] m.topic m.has_topic w.read_string
            (write_string w m.topic) (λ input. set_topic (w.broken_string input s1.topic) s1)
            (omega arith) (omega arith) (λ input. refl)
            (λ after. w.read-write_string m.topic after h.fits_topic) (set_field h.has_set_topic)
            (Reads-value w (switch_tag w) add_unknown 26
              (λ v has. record s2 { messagetype = v; has_messagetype = has }) [] m.messagetype
              m.has_messagetype w.read_string (write_string w m.messagetype)
              (λ input. set_messagetype (w.broken_string input s2.messagetype) s2) (omega arith)
              (omega arith) (λ input. refl)
              (λ after. w.read-write_string m.messagetype after h.fits_messagetype)
              (set_field h.has_set_messagetype)
              (Reads-value w (switch_tag w) add_unknown 34
                (λ v has. record s3 { groupid = v; has_groupid = has }) [] m.groupid m.has_groupid
                w.read_string (write_string w m.groupid)
                (λ input. set_groupid (w.broken_string input s3.groupid) s3) (omega arith)
                (omega arith) (λ input. refl)
                (λ after. w.read-write_string m.groupid after h.fits_groupid)
                (set_field h.has_set_groupid)
                (Reads-value w (switch_tag w) add_unknown 40
                  (λ v has. record s4 { status = v; has_status = has }) true m.status m.has_status
                  w.read_bool (w.write_bool m.status) (λ input. s4) (omega arith) (omega arith)
                  (λ input. refl) (λ after. w.read-write_bool m.status after)
                  (set_field h.has_set_status)
                  (Reads-value w (switch_tag w) add_unknown 50
                    (λ v has. record s5 { feedback = v; has_feedback = has }) [] m.feedback
                    m.has_feedback w.read_string (write_string w m.feedback)
                    (λ input. set_feedback (w.broken_string input s5.feedback) s5) (omega arith)
                    (omega arith) (λ input. refl)
                    (λ after. w.read-write_string m.feedback after h.fits_feedback) h.unset_feedback
                    (Reads-none w (switch_tag w) add_unknown m.unknown_fields s6)))))) in
      let ends =
        Reads-end w (switch_tag w) add_unknown (serialize w m) m.unknown_fields s0 s6 h.known reads
          refl in
      (ends.0 ∙ ap (λ u. some (true, record m { unknown_fields = u })) (sym h.known), ends.1)

  pub length-total_size : (m : DeliverAck) → IsWhole m → length (serialize w m) ≡ total_size w m
  unfolding serialize total_size
  length-total_size m h =
      let counted =
        length-optional m.has_messageid 10 (write_string w m.messageid) _
          (w.length-write_string m.messageid)
          (length-optional m.has_topic 18 (write_string w m.topic) _ (w.length-write_string m.topic)
            (length-optional m.has_messagetype 26 (write_string w m.messagetype) _
              (w.length-write_string m.messagetype)
              (length-optional m.has_groupid 34 (write_string w m.groupid) _
                (w.length-write_string m.groupid)
                (length-optional m.has_status 40 (w.write_bool m.status) _
                  (w.length-write_bool m.status)
                  (length-optional m.has_feedback 50 (write_string w m.feedback) _
                    (w.length-write_string m.feedback) refl))))) in
      counted
      ∙ rw
          (
            h.has_set_messageid, h.has_set_topic, h.has_set_messagetype, h.has_set_groupid,
            h.has_set_status,
          )
          (omega arith)

  -- And `ByteSize` is that, if it fits.
  pub length-serialize :
      (m : DeliverAck)
      → IsWhole m
      → length (serialize w m) < 2 ^ 32
      → length (serialize w m) ≡ byte_size w m
  unfolding byte_size
  length-serialize m h small =
      length-total_size m h
      ∙ fits-int (total_size w m) (subst (λ n. n < 2 ^ 32) (length-total_size m h) small)
