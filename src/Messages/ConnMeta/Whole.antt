-- ===== src/Messages/ConnMeta/Whole.antt =====
-- protocol/protobuf/generated/kite_remoting.pb.cc, class ConnMeta: a whole message is parsed back.
use kiteq_client_cpp.Base.{
  suc, ◌^◌, ◌<◌, ◌≡◌, refl, sym, ap, ◌∙◌, true, false, [], some, length, arith, subst,
}
use kiteq_client_cpp.Messages.{Wire, write_string, consumed}
use kiteq_client_cpp.Messages.Reads.{Reads-none, Reads-end}
use kiteq_client_cpp.Messages.Fields.{fits-int, Reads-value, length-optional, set_field}
use kiteq_client_cpp.Messages.ConnMeta.{
  ConnMeta, new_message, is_initialized, add_unknown, switch_tag, merge_partial, serialize,
  byte_size, total_size, set_groupid, set_secretkey, set_warmingupsec,
}

-- The required fields are set, an unset one has its default, the values fit, and nothing is unknown.
pub record IsWhole (m : ConnMeta) : Type 0 where
  pub known : m.unknown_fields ≡ []
  pub has_set_groupid : m.has_groupid ≡ true
  pub fits_groupid : length m.groupid < 2 ^ 31
  pub has_set_secretkey : m.has_secretkey ≡ true
  pub fits_secretkey : length m.secretkey < 2 ^ 31
  pub unset_warmingupsec : m.has_warmingupsec ≡ false → m.warmingupsec ≡ 0
  pub fits_warmingupsec : m.warmingupsec < 2 ^ 32

module _ (w : Wire) where
  pub IsWhole-is_initialized : (m : ConnMeta) → IsWhole m → is_initialized m ≡ true
  unfolding is_initialized
  IsWhole-is_initialized m h = rw (h.has_set_groupid, h.has_set_secretkey)

  pub serialize-parses :
      (m : ConnMeta)
      → IsWhole m
      → (merge_partial w (suc (length (serialize w m))) (serialize w m) new_message
          ≡ some (true, m))
        × (consumed w
              (switch_tag w)
              add_unknown
              (suc (length (serialize w m)))
              (serialize w m)
              new_message
            ≡ true)
  unfolding serialize merge_partial switch_tag new_message set_groupid set_secretkey
      set_warmingupsec
  serialize-parses m h =
      let s0 = new_message in
      let s1 : ConnMeta = record s0 { groupid = m.groupid; has_groupid = m.has_groupid } in
      let s2 : ConnMeta = record s1 { secretkey = m.secretkey; has_secretkey = m.has_secretkey } in
      let s3 : ConnMeta = record s2 {
        warmingupsec = m.warmingupsec;
        has_warmingupsec = m.has_warmingupsec;
      } in
      let reads =
        Reads-value w (switch_tag w) add_unknown 10
          (λ v has. record s0 { groupid = v; has_groupid = has }) [] m.groupid m.has_groupid
          w.read_string (write_string w m.groupid)
          (λ input. set_groupid (w.broken_string input s0.groupid) s0) (omega arith) (omega arith)
          (λ input. refl) (λ after. w.read-write_string m.groupid after h.fits_groupid)
          (set_field h.has_set_groupid)
          (Reads-value w (switch_tag w) add_unknown 18
            (λ v has. record s1 { secretkey = v; has_secretkey = has }) [] m.secretkey
            m.has_secretkey w.read_string (write_string w m.secretkey)
            (λ input. set_secretkey (w.broken_string input s1.secretkey) s1) (omega arith)
            (omega arith) (λ input. refl)
            (λ after. w.read-write_string m.secretkey after h.fits_secretkey)
            (set_field h.has_set_secretkey)
            (Reads-value w (switch_tag w) add_unknown 24
              (λ v has. record s2 { warmingupsec = v; has_warmingupsec = has }) 0 m.warmingupsec
              m.has_warmingupsec w.read_int32 (w.write_int32 m.warmingupsec) (λ input. s2)
              (omega arith) (omega arith) (λ input. refl)
              (λ after. w.read-write_int32 m.warmingupsec after h.fits_warmingupsec)
              h.unset_warmingupsec
              (Reads-none w (switch_tag w) add_unknown m.unknown_fields s3))) in
      let ends =
        Reads-end w (switch_tag w) add_unknown (serialize w m) m.unknown_fields s0 s3 h.known reads
          refl in
      (ends.0 ∙ ap (λ u. some (true, record m { unknown_fields = u })) (sym h.known), ends.1)

  pub length-total_size : (m : ConnMeta) → IsWhole m → length (serialize w m) ≡ total_size w m
  unfolding serialize total_size
  length-total_size m h =
      let counted =
        length-optional m.has_groupid 10 (write_string w m.groupid) _
          (w.length-write_string m.groupid)
          (length-optional m.has_secretkey 18 (write_string w m.secretkey) _
            (w.length-write_string m.secretkey)
            (length-optional m.has_warmingupsec 24 (w.write_int32 m.warmingupsec) _
              (w.length-write_int32 m.warmingupsec) refl)) in
      counted ∙ rw (h.has_set_groupid, h.has_set_secretkey) (omega arith)

  -- And `ByteSize` is that, if it fits.
  pub length-serialize :
      (m : ConnMeta)
      → IsWhole m
      → length (serialize w m) < 2 ^ 32
      → length (serialize w m) ≡ byte_size w m
  unfolding byte_size
  length-serialize m h small =
      length-total_size m h
      ∙ fits-int (total_size w m) (subst (λ n. n < 2 ^ 32) (length-total_size m h) small)
