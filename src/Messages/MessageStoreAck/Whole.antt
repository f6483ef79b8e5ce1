-- ===== src/Messages/MessageStoreAck/Whole.antt =====
-- protocol/protobuf/generated/kite_remoting.pb.cc, class MessageStoreAck: a whole message is parsed back.
use kiteq_client_cpp.Base.{
  suc, ◌^◌, ◌<◌, ◌≡◌, refl, sym, ap, ◌∙◌, true, [], some, length, arith, subst,
}
use kiteq_client_cpp.Messages.{Wire, write_string, consumed}
use kiteq_client_cpp.Messages.Reads.{Reads-none, Reads-end}
use kiteq_client_cpp.Messages.Fields.{fits-int, Reads-value, length-optional, set_field}
use kiteq_client_cpp.Messages.MessageStoreAck.{
  MessageStoreAck, new_message, is_initialized, add_unknown, switch_tag, merge_partial, serialize,
  byte_size, total_size, set_messageid, set_status, set_feedback,
}

-- The required fields are set, an unset one has its default, the values fit, and nothing is unknown.
pub record IsWhole (m : MessageStoreAck) : Type 0 where
  pub known : m.unknown_fields ≡ []
  pub has_set_messageid : m.has_messageid ≡ true
  pub fits_messageid : length m.messageid < 2 ^ 31
  pub has_set_status : m.has_status ≡ true
  pub has_set_feedback : m.has_feedback ≡ true
  pub fits_feedback : length m.feedback < 2 ^ 31

module _ (w : Wire) where
  pub IsWhole-is_initialized : (m : MessageStoreAck) → IsWhole m → is_initialized m ≡ true
  unfolding is_initialized
  IsWhole-is_initialized m h = rw (h.has_set_messageid, h.has_set_status, h.has_set_feedback)

  pub serialize-parses :
      (m : MessageStoreAck)
      → IsWhole m
      → (merge_partial w (suc (length (serialize w m))) (serialize w m) new_message
          ≡ some (true, m))
        × (consumed w
              (switch_tag w)
              add_unknown
              (suc (length (serialize w m)))
              (serialize w m)
              new_message
            ≡ true)
  unfolding serialize merge_partial switch_tag new_message set_messageid set_status set_feedback
  serialize-parses m h =
      let s0 = new_message in
      let s1 : MessageStoreAck = record s0 {
        messageid = m.messageid;
        has_messageid = m.has_messageid;
      } in
      let s2 : MessageStoreAck = record s1 { status = m.status; has_status = m.has_status } in
      let s3 : MessageStoreAck = record s2 {
        feedback = m.feedback;
        has_feedback = m.has_feedback;
      } in
      let reads =
        Reads-value w (switch_tag w) add_unknown 10
          (λ v has. record s0 { messageid = v; has_messageid = has }) [] m.messageid m.has_messageid
          w.read_string (write_string w m.messageid)
          (λ input. set_messageid (w.broken_string input s0.messageid) s0) (omega arith)
          (omega arith) (λ input. refl)
          (λ after. w.read-write_string m.messageid after h.fits_messageid)
          (set_field h.has_set_messageid)
          (Reads-value w (switch_tag w) add_unknown 16
            (λ v has. record s1 { status = v; has_status = has }) true m.status m.has_status
            w.read_bool (w.write_bool m.status) (λ input. s1) (omega arith) (omega arith)
            (λ input. refl) (λ after. w.read-write_bool m.status after) (set_field h.has_set_status)
            (Reads-value w (switch_tag w) add_unknown 26
              (λ v has. record s2 { feedback = v; has_feedback = has }) [] m.feedback m.has_feedback
              w.read_string (write_string w m.feedback)
              (λ input. set_feedback (w.broken_string input s2.feedback) s2) (omega arith)
              (omega arith) (λ input. refl)
              (λ after. w.read-write_string m.feedback after h.fits_feedback)
              (set_field h.has_set_feedback)
              (Reads-none w (switch_tag w) add_unknown m.unknown_fields s3))) in
      let ends =
        Reads-end w (switch_tag w) add_unknown (serialize w m) m.unknown_fields s0 s3 h.known reads
          refl in
      (ends.0 ∙ ap (λ u. some (true, record m { unknown_fields = u })) (sym h.known), ends.1)

  pub length-total_size :
      (m : MessageStoreAck) → IsWhole m → length (serialize w m) ≡ total_size w m
  unfolding serialize total_size
  length-total_size m h =
      let counted =
        length-optional m.has_messageid 10 (write_string w m.messageid) _
          (w.length-write_string m.messageid)
          (length-optional m.has_status 16 (w.write_bool m.status) _ (w.length-write_bool m.status)
            (length-optional m.has_feedback 26 (write_string w m.feedback) _
              (w.length-write_string m.feedback) refl)) in
      counted ∙ rw (h.has_set_messageid, h.has_set_status, h.has_set_feedback) (omega arith)

  -- And `ByteSize` is that, if it fits.
  pub length-serialize :
      (m : MessageStoreAck)
      → IsWhole m
      → length (serialize w m) < 2 ^ 32
      → length (serialize w m) ≡ byte_size w m
  unfolding byte_size
  length-serialize m h small =
      length-total_size m h
      ∙ fits-int (total_size w m) (subst (λ n. n < 2 ^ 32) (length-total_size m h) small)
