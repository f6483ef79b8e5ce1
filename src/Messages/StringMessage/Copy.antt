-- ===== src/Messages/StringMessage/Copy.antt =====
-- protocol/protobuf/generated/kite_remoting.pb.cc, class StringMessage: the copy constructor and `CopyFrom`.
use kiteq_client_cpp.Base.{◌≡◌, refl, ap, ◌∙◌, true, [], Option, some}
use kiteq_client_cpp.Messages.{Wire}
use kiteq_client_cpp.Messages.Fields.{merge-optional, set_field}
use kiteq_client_cpp.Messages.Header
use kiteq_client_cpp.Messages.Header.Copy as HeaderCopy
use kiteq_client_cpp.Messages.Headed.{or_new, clear_header}
use kiteq_client_cpp.Messages.StringMessage.{
  StringMessage, new_message, clear, merge_from, copy_from, put_header, get_header,
}
use kiteq_client_cpp.Messages.StringMessage.Whole.{IsWhole}

module _ (w : Wire) where
  -- A new message, but for a new header that is not counted as set.
  abbrev cleared : Option Header.Header → StringMessage
  cleared o = record new_message { header = o }

  pub merge_from-cleared :
      (m : StringMessage) (o : Option Header.Header)
      → IsWhole w m
      → or_new o ≡ Header.new_message
      → merge_from m (cleared o) ≡ m
  unfolding merge_from new_message get_header or_new put_header
  merge_from-cleared m o h fresh =
      let (x, there, whole, _) = h.whole_header in
      let s0 : StringMessage = cleared o in
      let s1 : StringMessage = record s0 { header = some x; has_header = true } in
      rw (h.header_set, there, fresh, HeaderCopy.merge_from-new_message w x whole)
        (rw (
          merge-optional (λ v has. record s1 { body = v; has_body = has }) [] m.body m.has_body
            (set_field h.has_set_body)))

  clear-cleared : (m : StringMessage) → IsWhole w m → clear m ≡ cleared (some Header.new_message)
  unfolding clear new_message clear_header
  clear-cleared m h =
      let (x, there, whole, _) = h.whole_header in
      rw (h.header_set, h.has_set_body, there, HeaderCopy.clear-new_message w x whole)

  -- A whole message that is copied over another one is what is there afterwards.
  pub copy_from-IsWhole :
      (m old : StringMessage) → IsWhole w m → IsWhole w old → copy_from m old ≡ m
  unfolding copy_from or_new
  copy_from-IsWhole m old h k =
      ap (λ x. merge_from m x) (clear-cleared old k)
      ∙ merge_from-cleared m (some Header.new_message) h refl
