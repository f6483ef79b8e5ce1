-- ===== src/Messages/Entry/Whole.antt =====
-- protocol/protobuf/generated/kite_remoting.pb.cc, class Entry: a whole message is parsed back.
use kiteq_client_cpp.Base.{
  suc, ◌^◌, ◌<◌, ◌≡◌, refl, sym, ap, ◌∙◌, true, [], some, length, arith, subst,
}
use kiteq_client_cpp.Messages.{Wire, write_string, consumed}
use kiteq_client_cpp.Messages.Reads.{Reads-none, Reads-end}
use kiteq_client_cpp.Messages.Fields.{fits-int, Reads-value, length-optional, set_field}
use kiteq_client_cpp.Messages.Entry.{
  Entry, new_message, is_initialized, add_unknown, switch_tag, merge_partial, serialize, byte_size,
  total_size, set_key, set_value,
}

-- The required fields are set, an unset one has its default, the values fit, and nothing is unknown.
pub record IsWhole (m : Entry) : Type 0 where
  pub known : m.unknown_fields ≡ []
  pub has_set_key : m.has_key ≡ true
  pub fits_key : length m.key < 2 ^ 31
  pub has_set_value : m.has_value ≡ true
  pub fits_value : length m.value < 2 ^ 31

module _ (w : Wire) where
  pub IsWhole-is_initialized : (m : Entry) → IsWhole m → is_initialized m ≡ true
  unfolding is_initialized
  IsWhole-is_initialized m h = rw (h.has_set_key, h.has_set_value)

  pub serialize-parses :
      (m : Entry)
      → IsWhole m
      → (merge_partial w (suc (length (serialize w m))) (serialize w m) new_message
          ≡ some (true, m))
        × (consumed w
              (switch_tag w)
              add_unknown
              (suc (length (serialize w m)))
              (serialize w m)
              new_message
            ≡ true)
  unfolding serialize merge_partial switch_tag new_message set_key set_value
  serialize-parses m h =
      let s0 = new_message in
      let s1 : Entry = record s0 { key = m.key; has_key = m.has_key } in
      let s2 : Entry = record s1 { value = m.value; has_value = m.has_value } in
      let reads =
        Reads-value w (switch_tag w) add_unknown 10 (λ v has. record s0 { key = v; has_key = has })
          [] m.key m.has_key w.read_string (write_string w m.key)
          (λ input. set_key (w.broken_string input s0.key) s0) (omega arith) (omega arith)
          (λ input. refl) (λ after. w.read-write_string m.key after h.fits_key)
          (set_field h.has_set_key)
          (Reads-value w (switch_tag w) add_unknown 18
            (λ v has. record s1 { value = v; has_value = has }) [] m.value m.has_value w.read_string
            (write_string w m.value) (λ input. set_value (w.broken_string input s1.value) s1)
            (omega arith) (omega arith) (λ input. refl)
            (λ after. w.read-write_string m.value after h.fits_value) (set_field h.has_set_value)
            (Reads-none w (switch_tag w) add_unknown m.unknown_fields s2)) in
      let ends =
        Reads-end w (switch_tag w) add_unknown (serialize w m) m.unknown_fields s0 s2 h.known reads
          refl in
      (ends.0 ∙ ap (λ u. some (true, record m { unknown_fields = u })) (sym h.known), ends.1)

  pub length-total_size : (m : Entry) → IsWhole m → length (serialize w m) ≡ total_size w m
  unfolding serialize total_size
  length-total_size m h =
      let counted =
        length-optional m.has_key 10 (write_string w m.key) _ (w.length-write_string m.key) (
          length-optional m.has_value 18 (write_string w m.value) _ (w.length-write_string m.value)
            refl) in
      counted ∙ rw (h.has_set_key, h.has_set_value) (omega arith)

  -- And `ByteSize` is that, if it fits.
  pub length-serialize :
      (m : Entry)
      → IsWhole m
      → length (serialize w m) < 2 ^ 32
      → length (serialize w m) ≡ byte_size w m
  unfolding byte_size
  length-serialize m h small =
      length-total_size m h
      ∙ fits-int (total_size w m) (subst (λ n. n < 2 ^ 32) (length-total_size m h) small)
