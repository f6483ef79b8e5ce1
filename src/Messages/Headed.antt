-- ===== src/Messages/Headed.antt =====
-- protocol/protobuf/generated/kite_remoting.pb.cc: what the classes that hold a Header do with it. The
-- pointer is null until a header is needed; a header whose has bit is set is not null.
use kiteq_client_cpp.Base.{
  ℕ, ◌^◌, ◌<◌, ◌≡◌, Bool, false, List, [], ◌++◌, Option, none, some, length, arith,
}
use kiteq_client_cpp.Messages.{Wire, Switched, field, consumed, read_message_into}
use kiteq_client_cpp.Messages.Nested.{read_message_into_lem}
use kiteq_client_cpp.Messages.Header
use kiteq_client_cpp.Messages.Header.Whole as HeaderWhole

-- `mutable_header()` makes a header where there is none; `header()` returns the default one there.
unfoldable pub or_new : Option Header.Header → Header.Header
unfolding Header.new_message
or_new none = Header.new_message
or_new (some h) = h

-- `if (header_ != NULL) header_->Clear()`.
unfoldable pub clear_header : Option Header.Header → Option Header.Header
unfolding Header.clear
clear_header none = none
clear_header (some h) = some (Header.clear h)

unfoldable pub header_is_initialized : Option Header.Header → Bool
unfolding Header.is_initialized
header_is_initialized none = false
header_is_initialized (some h) = Header.is_initialized h

module _ (w : Wire) where
  -- `WriteMessage`, with the cached size.
  unfoldable pub write_header : Option Header.Header → List ℕ
  unfolding Header.serialize Header.byte_size
  write_header none = []
  write_header (some h) = w.write_delimited (Header.byte_size w h) (Header.serialize w h)

  -- `MessageSizeNoVirtual`.
  unfoldable pub header_size : Option Header.Header → ℕ
  unfolding Header.byte_size
  header_size none = 0
  header_size (some h) = w.delimited_size (Header.byte_size w h)

  unfoldable pub read_header :
      {A : Type 0} → Option Header.Header → (Header.Header → A) → List ℕ → Switched A
  unfolding or_new read_message_into Header.merge_partial
  read_header header set input =
      read_message_into w (Header.merge_partial w)
        (consumed w (Header.switch_tag w) Header.add_unknown) (or_new header) set input

  -- A whole header, whose bytes fit an `int`, is read back where there was none.
  pub read_header-write_header :
      {A : Type 0} (h : Header.Header) (set : Header.Header → A) (rest : List ℕ)
      → HeaderWhole.IsWhole w h
      → length (Header.serialize w h) < 2 ^ 31
      → read_header none set (write_header (some h) ++ rest) ≡ field (set h) rest
  unfolding read_header or_new write_header
  read_header-write_header h set rest whole fits =
      let parses = HeaderWhole.serialize-parses w h whole in
      let size = HeaderWhole.length-serialize w h whole (omega (arith, fits)) in
      let read =
        read_message_into_lem w (Header.merge_partial w)
          (consumed w (Header.switch_tag w) Header.add_unknown) Header.new_message h set
          (Header.serialize w h) rest fits parses.0 parses.1 in
      rw size at read

  pub length-write_header :
      (h : Header.Header)
      → HeaderWhole.IsWhole w h
      → length (Header.serialize w h) < 2 ^ 31
      → length (write_header (some h)) ≡ header_size (some h)
  unfolding write_header header_size
  length-write_header h whole fits =
      let size = HeaderWhole.length-serialize w h whole (omega (arith, fits)) in
      let counted = w.length-write_string (Header.serialize w h) in rw size at counted
