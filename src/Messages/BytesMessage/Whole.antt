-- ===== src/Messages/BytesMessage/Whole.antt =====
-- protocol/protobuf/generated/kite_remoting.pb.cc, class BytesMessage: a whole message is parsed back.
use kiteq_client_cpp.Base.{
  suc, ◌^◌, ◌<◌, ◌≡◌, refl, sym, ap, ◌∙◌, true, [], none, some, length, arith, subst,
}
use kiteq_client_cpp.Messages.{Wire, write_string, consumed}
use kiteq_client_cpp.Messages.Reads.{Reads-none, Reads-trans, Reads-optional, Reads-end}
use kiteq_client_cpp.Messages.Fields.{fits-int, Reads-value, length-optional, set_field}
use kiteq_client_cpp.Messages.Header
use kiteq_client_cpp.Messages.Header.Whole as HeaderWhole
use kiteq_client_cpp.Messages.Headed.{
  write_header, header_size, header_is_initialized, read_header-write_header, length-write_header,
}
use kiteq_client_cpp.Messages.BytesMessage.{
  BytesMessage, new_message, is_initialized, add_unknown, put_header, switch_tag, merge_partial,
  serialize, byte_size, total_size, set_body,
}

module _ (w : Wire) where
  -- All fields are set, the header is whole, the values fit, and nothing is unknown.
  pub record IsWhole (m : BytesMessage) : Type 0 where
    pub known : m.unknown_fields ≡ []
    pub header_set : m.has_header ≡ true
    pub whole_header :
        (h : Header.Header) × (m.header ≡ some h)
        × HeaderWhole.IsWhole w h
        × (length (Header.serialize w h) < 2 ^ 31)
    pub has_set_body : m.has_body ≡ true
    pub fits_body : length m.body < 2 ^ 31

  pub IsWhole-is_initialized : (m : BytesMessage) → IsWhole m → is_initialized m ≡ true
  unfolding is_initialized header_is_initialized
  IsWhole-is_initialized m h =
      let (x, there, whole, _) = h.whole_header in
      rw (h.header_set, h.has_set_body, there) (HeaderWhole.IsWhole-is_initialized w x whole)

  pub serialize-parses :
      (m : BytesMessage)
      → IsWhole m
      → (merge_partial w (suc (length (serialize w m))) (serialize w m) new_message
          ≡ some (true, m))
        × (consumed w
              (switch_tag w)
              add_unknown
              (suc (length (serialize w m)))
              (serialize w m)
              new_message
            ≡ true)
  unfolding serialize merge_partial switch_tag new_message put_header set_body
  serialize-parses m h =
      let (x, there, whole, small) = h.whole_header in
      let s0 = new_message in
      let s1 : BytesMessage = record s0 { header = m.header; has_header = m.has_header } in
      let s2 : BytesMessage = record s1 { body = m.body; has_body = m.has_body } in
      let reads =
        Reads-trans w (switch_tag w) add_unknown
          (Reads-optional w (switch_tag w) add_unknown 10
            (λ v has. record s0 { header = v; has_header = has }) none m.header m.has_header
            (write_header w m.header) _ (omega arith) (omega arith)
            (λ _. rw there (read_header-write_header w x (λ y. put_header y s0) _ whole small))
            (set_field h.header_set))
          (Reads-value w (switch_tag w) add_unknown 18
            (λ v has. record s1 { body = v; has_body = has }) [] m.body m.has_body w.read_string
            (write_string w m.body) (λ input. set_body (w.broken_string input s1.body) s1)
            (omega arith) (omega arith) (λ input. refl)
            (λ after. w.read-write_string m.body after h.fits_body) (set_field h.has_set_body)
            (Reads-none w (switch_tag w) add_unknown m.unknown_fields s2)) in
      let ends =
        Reads-end w (switch_tag w) add_unknown (serialize w m) m.unknown_fields s0 s2 h.known reads
          refl in
      (ends.0 ∙ ap (λ u. some (true, record m { unknown_fields = u })) (sym h.known), ends.1)

  pub length-total_size : (m : BytesMessage) → IsWhole m → length (serialize w m) ≡ total_size w m
  unfolding serialize total_size
  length-total_size m h =
      let (x, there, whole, small) = h.whole_header in
      let header_length : length (write_header w m.header) ≡ header_size w m.header =
        rw there (length-write_header w x whole small) in
      let counted = length-optional m.has_header 10 (write_header w m.header) _ header_length (
        length-optional m.has_body 18 (write_string w m.body) _ (w.length-write_string m.body)
          refl) in
      counted ∙ rw (h.header_set, h.has_set_body) (omega arith)

  -- And `ByteSize` is that, if it fits.
  pub length-serialize :
      (m : BytesMessage)
      → IsWhole m
      → length (serialize w m) < 2 ^ 32
      → length (serialize w m) ≡ byte_size w m
  unfolding byte_size
  length-serialize m h small =
      length-total_size m h
      ∙ fits-int (total_size w m) (subst (λ n. n < 2 ^ 32) (length-total_size m h) small)
