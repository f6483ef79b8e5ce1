-- ===== src/Messages/ConnAuthAck/Whole.antt =====
-- protocol/protobuf/generated/kite_remoting.pb.cc, class ConnAuthAck: a whole message is parsed back.
use kiteq_client_cpp.Base.{
  suc, ◌^◌, ◌<◌, ◌≡◌, refl, sym, ap, ◌∙◌, true, [], some, length, arith, subst,
}
use kiteq_client_cpp.Messages.{Wire, write_string, consumed}
use kiteq_client_cpp.Messages.Reads.{Reads-none, Reads-end}
use kiteq_client_cpp.Messages.Fields.{fits-int, Reads-value, length-optional, set_field}
use kiteq_client_cpp.Messages.ConnAuthAck.{
  ConnAuthAck, new_message, is_initialized, add_unknown, switch_tag, merge_partial, serialize,
  byte_size, total_size, set_status, set_feedback,
}

-- The required fields are set, an unset one has its default, the values fit, and nothing is unknown.
pub record IsWhole (m : ConnAuthAck) : Type 0 where
  pub known : m.unknown_fields ≡ []
  pub has_set_status : m.has_status ≡ true
  pub has_set_feedback : m.has_feedback ≡ true
  pub fits_feedback : length m.feedback < 2 ^ 31

module _ (w : Wire) where
  pub IsWhole-is_initialized : (m : ConnAuthAck) → IsWhole m → is_initialized m ≡ true
  unfolding is_initialized
  IsWhole-is_initialized m h = rw (h.has_set_status, h.has_set_feedback)

  pub serialize-parses :
      (m : ConnAuthAck)
      → IsWhole m
      → (merge_partial w (suc (length (serialize w m))) (serialize w m) new_message
          ≡ some (true, m))
        × (consumed w
              (switch_tag w)
              add_unknown
              (suc (length (serialize w m)))
              (serialize w m)
              new_message
            ≡ true)
  unfolding serialize merge_partial switch_tag new_message set_status set_feedback
  serialize-parses m h =
      let s0 = new_message in
      let s1 : ConnAuthAck = record s0 { status = m.status; has_status = m.has_status } in
      let s2 : ConnAuthAck = record s1 { feedback = m.feedback; has_feedback = m.has_feedback } in
      let reads =
        Reads-value w (switch_tag w) add_unknown 8
          (λ v has. record s0 { status = v; has_status = has }) true m.status m.has_status
          w.read_bool (w.write_bool m.status) (λ input. s0) (omega arith) (omega arith)
          (λ input. refl) (λ after. w.read-write_bool m.status after) (set_field h.has_set_status)
          (Reads-value w (switch_tag w) add_unknown 18
            (λ v has. record s1 { feedback = v; has_feedback = has }) [] m.feedback m.has_feedback
            w.read_string (write_string w m.feedback)
            (λ input. set_feedback (w.broken_string input s1.feedback) s1) (omega arith)
            (omega arith) (λ input. refl)
            (λ after. w.read-write_string m.feedback after h.fits_feedback)
            (set_field h.has_set_feedback)
            (Reads-none w (switch_tag w) add_unknown m.unknown_fields s2)) in
      let ends =
        Reads-end w (switch_tag w) add_unknown (serialize w m) m.unknown_fields s0 s2 h.known reads
          refl in
      (ends.0 ∙ ap (λ u. some (true, record m { unknown_fields = u })) (sym h.known), ends.1)

  pub length-total_size : (m : ConnAuthAck) → IsWhole m → length (serialize w m) ≡ total_size w m
  unfolding serialize total_size
  length-total_size m h =
      let counted =
        length-optional m.has_status 8 (w.write_bool m.status) _ (w.length-write_bool m.status) (
          length-optional m.has_feedback 18 (write_string w m.feedback) _
            (w.length-write_string m.feedback) refl) in
      counted ∙ rw (h.has_set_status, h.has_set_feedback) (omega arith)

  -- And `ByteSize` is that, if it fits.
  pub length-serialize :
      (m : ConnAuthAck)
      → IsWhole m
      → length (serialize w m) < 2 ^ 32
      → length (serialize w m) ≡ byte_size w m
  unfolding byte_size
  length-serialize m h small =
      length-total_size m h
      ∙ fits-int (total_size w m) (subst (λ n. n < 2 ^ 32) (length-total_size m h) small)
