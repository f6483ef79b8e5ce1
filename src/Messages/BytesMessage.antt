-- ===== src/Messages/BytesMessage.antt =====
-- protocol/protobuf/generated/kite_remoting.pb.cc, class BytesMessage.
pub mod Whole
pub mod Copy
use kiteq_client_cpp.Base.{
  ℕ, suc, ◌+◌, Bool, true, false, ◌&&◌, ◌||◌, List, [], ◌∷◌, ◌++◌, Option, none, some, length, ◌==◌,
  if◌then◌else◌, ◌%◌, ◌^◌,
}
use kiteq_client_cpp.Messages.{
  Wire, write_string, string_size, Switched, unusual, read_with, merge_loop,
}
use kiteq_client_cpp.Messages.Headed.{
  or_new, clear_header, header_is_initialized, write_header, header_size, read_header,
}
use kiteq_client_cpp.Messages.Header

pub record BytesMessage : Type 0 where
  pub header : Option Header.Header
  pub has_header : Bool
  pub body : List ℕ
  pub has_body : Bool
  pub unknown_fields : List ℕ

unfoldable pub new_message : BytesMessage
new_message = record {
  header = none;
  has_header = false;
  body = [];
  has_body = false;
  unknown_fields = [];
}

-- A pointer that is not null sets the has bit, and null clears it.
unfoldable pub set_allocated_header : Option Header.Header → BytesMessage → BytesMessage
set_allocated_header none m = record m { header = none; has_header = false }
set_allocated_header (some h) m = record m { header = some h; has_header = true }

-- `mutable_header()` and what is stored through it.
unfoldable pub put_header : Header.Header → BytesMessage → BytesMessage
put_header h m = record m { header = some h; has_header = true }

unfoldable pub get_header : BytesMessage → Header.Header
unfolding or_new
get_header m = or_new m.header

unfoldable pub set_body : List ℕ → BytesMessage → BytesMessage
set_body v m = record m { body = v; has_body = true }

unfoldable pub clear : BytesMessage → BytesMessage
unfolding clear_header
clear m = record m {
  header = if m.has_header then clear_header m.header else m.header;
  has_header = false;
  body = if m.has_body then [] else m.body;
  has_body = false;
  unknown_fields = [];
}

unfoldable pub merge_from : BytesMessage → BytesMessage → BytesMessage
unfolding put_header get_header or_new Header.merge_from set_body
merge_from from m0 =
    let m1 =
      if from.has_header
      then put_header (Header.merge_from (get_header from) (or_new m0.header)) m0
      else m0 in
    let m2 = if from.has_body then set_body from.body m1 else m1 in
    record m2 { unknown_fields = m2.unknown_fields ++ from.unknown_fields }

-- `CopyFrom` of another object.
unfoldable pub copy_from : BytesMessage → BytesMessage → BytesMessage
unfolding merge_from clear
copy_from from m = merge_from from (clear m)

unfoldable pub is_initialized : BytesMessage → Bool
unfolding header_is_initialized
is_initialized m =
    if m.has_header && m.has_body
    then (if m.has_header then header_is_initialized m.header else true)
    else false

abbrev pub add_unknown : List ℕ → BytesMessage → BytesMessage
add_unknown bytes m = record m { unknown_fields = m.unknown_fields ++ bytes }

module _ (w : Wire) where
  unfoldable pub switch_tag : ℕ → List ℕ → BytesMessage → Switched BytesMessage
  unfolding put_header read_header set_body
  switch_tag tag input m =
      if tag == 10
      then read_header w m.header (λ h. put_header h m) input
      else if tag == 18
      then read_with (set_body (w.broken_string input m.body) m) (w.read_string input)
          (λ v. set_body v m)
      else unusual

  unfoldable pub merge_partial : ℕ → List ℕ → BytesMessage → Option (Bool × BytesMessage)
  merge_partial = merge_loop w switch_tag add_unknown

  unfoldable pub serialize : BytesMessage → List ℕ
  unfolding write_header
  serialize m =
      (if m.has_header then 10 ∷ write_header w m.header else [])
      ++ ((if m.has_body then 18 ∷ write_string w m.body else []) ++ (m.unknown_fields))

  unfoldable pub required_size : BytesMessage → ℕ
  unfolding header_size
  required_size m =
      (if m.has_header then 1 + header_size w m.header else 0)
      + (if m.has_body then 1 + string_size w m.body else 0)

  unfoldable pub total_size : BytesMessage → ℕ
  unfolding required_size header_size
  total_size m =
      (if m.has_header && m.has_body
        then (1 + header_size w m.header) + (1 + string_size w m.body)
        else required_size m)
      + length m.unknown_fields

  -- The sum, which `ByteSize` keeps in an int.
  unfoldable pub byte_size : BytesMessage → ℕ
  unfolding total_size
  byte_size m = total_size m % 2 ^ 32
