-- ===== src/Messages/Header/Properties.antt =====
-- protocol/protobuf/generated/kite_remoting.pb.cc, class Header: its repeated properties.
use kiteq_client_cpp.Base.{
  ℕ, ◌+◌, ◌^◌, ◌<◌, ◌≡◌, refl, true, List, [], ◌∷◌, ◌++◌, length, arith, length-append,
  append_assoc, append-nil, All,
}
use kiteq_client_cpp.Messages.{Wire, consumed}
use kiteq_client_cpp.Messages.Nested.{read_message_into_lem}
use kiteq_client_cpp.Messages.Reads.{Reads, Reads-none, Reads-trans, Reads-field}
use kiteq_client_cpp.Messages.Entry
use kiteq_client_cpp.Messages.Entry.Whole as EntryWhole
use kiteq_client_cpp.Messages.Header.{
  Header, all_are_initialized, add_unknown, add_properties, switch_tag, serialize_properties,
  properties_size,
}

-- An element that is whole, in bytes that fit an `int`.
abbrev pub IsSmall : Wire → Entry.Entry → Type 0
IsSmall w e = EntryWhole.IsWhole e × (length (Entry.serialize w e) < 2 ^ 31)

module _ (w : Wire) where
  pub all_are_initialized-whole :
      (es : List Entry.Entry) → All (IsSmall w) es → all_are_initialized es ≡ true
  unfolding all_are_initialized
  all_are_initialized-whole [] h = refl
  all_are_initialized-whole (e ∷ es) h =
      rw (EntryWhole.IsWhole-is_initialized w e h.0.0, all_are_initialized-whole es h.1)

  -- The state of the parser between two elements.
  abbrev with_properties : Header → List Entry.Entry → Header
  with_properties s es = record s { properties = es }

  pub serialize_properties-Reads :
      (s : Header) (es : List Entry.Entry) (rest : List ℕ)
      → All (IsSmall w) es
      → Reads w
          (switch_tag w)
          add_unknown
          (serialize_properties w es ++ rest)
          rest
          s
          (with_properties s (s.properties ++ es))
  unfolding serialize_properties switch_tag add_properties
  serialize_properties-Reads s [] rest h =
      rw (append-nil s.properties) (Reads-none w (switch_tag w) add_unknown rest s)
  serialize_properties-Reads s (e ∷ es) rest h =
      let bytes = Entry.serialize w e in
      let size = EntryWhole.length-serialize w e h.0.0 (omega (arith, h.0.1)) in
      let written = w.write_delimited (Entry.byte_size w e) bytes in
      let after = serialize_properties w es ++ rest in
      let parses = EntryWhole.serialize-parses w e h.0.0 in
      let read =
        read_message_into_lem w (Entry.merge_partial w)
          (consumed w (Entry.switch_tag w) Entry.add_unknown) Entry.new_message e
          (λ x. add_properties x s) bytes after h.0.1 parses.0 parses.1 in
      let first =
        Reads-field w (switch_tag w) add_unknown 74 (written ++ after) after s (add_properties e s)
          (omega arith) (omega arith) (omega (arith, length-append written after))
          (rw size at read) in
      let others = serialize_properties-Reads (add_properties e s) es rest h.1 in
      rw
        (
          append_assoc written (serialize_properties w es) rest,
          ← append_assoc s.properties (e ∷ []) es,
        )
        (Reads-trans w (switch_tag w) add_unknown first others)

  pub length-serialize_properties :
      (es : List Entry.Entry)
      → All (IsSmall w) es
      → length (serialize_properties w es) ≡ length es + properties_size w es
  unfolding serialize_properties properties_size
  length-serialize_properties [] h = refl
  length-serialize_properties (e ∷ es) h =
      let size = EntryWhole.length-serialize w e h.0.0 (omega (arith, h.0.1)) in
      rw (← size) (
        omega (
          arith,
          length-append (w.write_delimited (length (Entry.serialize w e)) (Entry.serialize w e))
              (serialize_properties w es),
          w.length-write_string (Entry.serialize w e),
          length-serialize_properties es h.1,
        ))
