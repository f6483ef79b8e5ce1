-- ===== src/Messages/TxAckPacket.antt =====
-- protocol/protobuf/generated/kite_remoting.pb.cc, class TxACKPacket.
pub mod Whole
pub mod Copy
use kiteq_client_cpp.Base.{
  ℕ, suc, ◌+◌, Bool, true, false, ◌&&◌, ◌||◌, List, [], ◌∷◌, ◌++◌, Option, none, some, length, ◌==◌,
  if◌then◌else◌, ◌%◌, ◌^◌,
}
use kiteq_client_cpp.Messages.{
  Wire, write_string, string_size, Switched, unusual, read_with, merge_loop,
}
use kiteq_client_cpp.Messages.Headed.{
  or_new, clear_header, header_is_initialized, write_header, header_size, read_header,
}
use kiteq_client_cpp.Messages.Header

pub record TxAckPacket : Type 0 where
  pub header : Option Header.Header
  pub has_header : Bool
  pub status : ℕ
  pub has_status : Bool
  pub feedback : List ℕ
  pub has_feedback : Bool
  pub unknown_fields : List ℕ

unfoldable pub new_message : TxAckPacket
new_message = record {
  header = none;
  has_header = false;
  status = 0;
  has_status = false;
  feedback = [];
  has_feedback = false;
  unknown_fields = [];
}

-- A pointer that is not null sets the has bit, and null clears it.
unfoldable pub set_allocated_header : Option Header.Header → TxAckPacket → TxAckPacket
set_allocated_header none m = record m { header = none; has_header = false }
set_allocated_header (some h) m = record m { header = some h; has_header = true }

-- `mutable_header()` and what is stored through it.
unfoldable pub put_header : Header.Header → TxAckPacket → TxAckPacket
put_header h m = record m { header = some h; has_header = true }

unfoldable pub get_header : TxAckPacket → Header.Header
unfolding or_new
get_header m = or_new m.header

unfoldable pub set_status : ℕ → TxAckPacket → TxAckPacket
set_status v m = record m { status = v; has_status = true }

unfoldable pub set_feedback : List ℕ → TxAckPacket → TxAckPacket
set_feedback v m = record m { feedback = v; has_feedback = true }

unfoldable pub clear : TxAckPacket → TxAckPacket
unfolding clear_header
clear m =
    let any = m.has_header || (m.has_status || m.has_feedback) in
    record m {
      header = if m.has_header then clear_header m.header else m.header;
      has_header = false;
      status = if any then 0 else m.status;
      has_status = false;
      feedback = if m.has_feedback then [] else m.feedback;
      has_feedback = false;
      unknown_fields = [];
    }

unfoldable pub merge_from : TxAckPacket → TxAckPacket → TxAckPacket
unfolding put_header get_header or_new Header.merge_from set_status set_feedback
merge_from from m0 =
    let m1 =
      if from.has_header
      then put_header (Header.merge_from (get_header from) (or_new m0.header)) m0
      else m0 in
    let m2 = if from.has_status then set_status from.status m1 else m1 in
    let m3 = if from.has_feedback then set_feedback from.feedback m2 else m2 in
    record m3 { unknown_fields = m3.unknown_fields ++ from.unknown_fields }

-- `CopyFrom` of another object.
unfoldable pub copy_from : TxAckPacket → TxAckPacket → TxAckPacket
unfolding merge_from clear
copy_from from m = merge_from from (clear m)

unfoldable pub is_initialized : TxAckPacket → Bool
unfolding header_is_initialized
is_initialized m =
    if m.has_header && (m.has_status && m.has_feedback)
    then (if m.has_header then header_is_initialized m.header else true)
    else false

abbrev pub add_unknown : List ℕ → TxAckPacket → TxAckPacket
add_unknown bytes m = record m { unknown_fields = m.unknown_fields ++ bytes }

module _ (w : Wire) where
  unfoldable pub switch_tag : ℕ → List ℕ → TxAckPacket → Switched TxAckPacket
  unfolding put_header read_header set_status set_feedback
  switch_tag tag input m =
      if tag == 10
      then read_header w m.header (λ h. put_header h m) input
      else if tag == 16
      then read_with m (w.read_int32 input) (λ v. set_status v m)
      else if tag == 26
      then read_with (set_feedback (w.broken_string input m.feedback) m) (w.read_string input)
          (λ v. set_feedback v m)
      else unusual

  unfoldable pub merge_partial : ℕ → List ℕ → TxAckPacket → Option (Bool × TxAckPacket)
  merge_partial = merge_loop w switch_tag add_unknown

  unfoldable pub serialize : TxAckPacket → List ℕ
  unfolding write_header
  serialize m =
      (if m.has_header then 10 ∷ write_header w m.header else [])
      ++ ((if m.has_status then 16 ∷ w.write_int32 m.status else [])
          ++ ((if m.has_feedback then 26 ∷ write_string w m.feedback else [])
              ++ (m.unknown_fields)))

  unfoldable pub required_size : TxAckPacket → ℕ
  unfolding header_size
  required_size m =
      (if m.has_header then 1 + header_size w m.header else 0)
      + (if m.has_status then 1 + w.int32_size m.status else 0)
      + (if m.has_feedback then 1 + string_size w m.feedback else 0)

  unfoldable pub total_size : TxAckPacket → ℕ
  unfolding required_size header_size
  total_size m =
      (if m.has_header && (m.has_status && m.has_feedback)
        then (1 + header_size w m.header)
          + (1 + w.int32_size m.status)
          + (1 + string_size w m.feedback)
        else required_size m)
      + length m.unknown_fields

  -- The sum, which `ByteSize` keeps in an int.
  unfoldable pub byte_size : TxAckPacket → ℕ
  unfolding total_size
  byte_size m = total_size m % 2 ^ 32
