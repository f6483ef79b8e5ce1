-- ===== src/Messages/HeartBeat/Whole.antt =====
-- protocol/protobuf/generated/kite_remoting.pb.cc, class HeartBeat: a whole message is parsed back.
use kiteq_client_cpp.Base.{
  suc, ◌^◌, ◌<◌, ◌≡◌, refl, sym, ap, ◌∙◌, true, [], some, length, arith, subst,
}
use kiteq_client_cpp.Messages.{Wire, consumed}
use kiteq_client_cpp.Messages.Reads.{Reads-none, Reads-end}
use kiteq_client_cpp.Messages.Fields.{fits-int, Reads-value, length-optional, set_field}
use kiteq_client_cpp.Messages.HeartBeat.{
  HeartBeat, new_message, is_initialized, add_unknown, switch_tag, merge_partial, serialize,
  byte_size, total_size,
}

-- The required fields are set, an unset one has its default, the values fit, and nothing is unknown.
pub record IsWhole (m : HeartBeat) : Type 0 where
  pub known : m.unknown_fields ≡ []
  pub set_version : m.has_version ≡ true
  pub fits_version : m.version < 2 ^ 64

module _ (w : Wire) where
  pub IsWhole-is_initialized : (m : HeartBeat) → IsWhole m → is_initialized m ≡ true
  unfolding is_initialized
  IsWhole-is_initialized m h = rw h.set_version

  pub serialize-parses :
      (m : HeartBeat)
      → IsWhole m
      → (merge_partial w (suc (length (serialize w m))) (serialize w m) new_message
          ≡ some (true, m))
        × (consumed w
              (switch_tag w)
              add_unknown
              (suc (length (serialize w m)))
              (serialize w m)
              new_message
            ≡ true)
  unfolding serialize merge_partial switch_tag new_message
  serialize-parses m h =
      let s0 = new_message in
      let s1 : HeartBeat = record s0 { version = m.version; has_version = m.has_version } in
      let reads =
        Reads-value w (switch_tag w) add_unknown 8
          (λ v has. record s0 { version = v; has_version = has }) 0 m.version m.has_version
          w.read_int64 (w.write_int64 m.version) (λ input. s0) (omega arith) (omega arith)
          (λ input. refl) (λ after. w.read-write_int64 m.version after h.fits_version)
          (set_field h.set_version) (Reads-none w (switch_tag w) add_unknown m.unknown_fields s1) in
      let ends =
        Reads-end w (switch_tag w) add_unknown (serialize w m) m.unknown_fields s0 s1 h.known reads
          refl in
      (ends.0 ∙ ap (λ u. some (true, record m { unknown_fields = u })) (sym h.known), ends.1)

  pub length-total_size : (m : HeartBeat) → IsWhole m → length (serialize w m) ≡ total_size w m
  unfolding serialize total_size
  length-total_size m h =
      let counted =
        length-optional m.has_version 8 (w.write_int64 m.version) _ (w.length-write_int64 m.version)
          refl in
      counted ∙ rw h.set_version (omega arith)

  -- And `ByteSize` is that, if it fits.
  pub length-serialize :
      (m : HeartBeat)
      → IsWhole m
      → length (serialize w m) < 2 ^ 32
      → length (serialize w m) ≡ byte_size w m
  unfolding byte_size
  length-serialize m h small =
      length-total_size m h
      ∙ fits-int (total_size w m) (subst (λ n. n < 2 ^ 32) (length-total_size m h) small)
