-- ===== src/Messages/ConnAuthAck.antt =====
-- protocol/protobuf/generated/kite_remoting.pb.cc, class ConnAuthAck.
pub mod Whole
pub mod Copy
use kiteq_client_cpp.Base.{
  ℕ, suc, ◌+◌, ◌^◌, ◌<◌, ◌≡◌, refl, ◌∙◌, Bool, true, false, ◌&&◌, ◌||◌, List, [], ◌∷◌, ◌++◌, Option,
  some, length, arith, ◌==◌, if◌then◌else◌, length-append, ◌%◌,
}
use kiteq_client_cpp.Messages.{
  Wire, write_string, string_size, Switched, unusual, read_with, merge_loop,
}
use kiteq_client_cpp.Messages.Loop.{merge_loop-field, merge_loop-end}

pub record ConnAuthAck : Type 0 where
  pub status : Bool
  pub has_status : Bool
  pub feedback : List ℕ
  pub has_feedback : Bool
  pub unknown_fields : List ℕ

unfoldable pub new_message : ConnAuthAck
new_message = record {
  status = true;
  has_status = false;
  feedback = [];
  has_feedback = false;
  unknown_fields = [];
}

unfoldable pub set_status : Bool → ConnAuthAck → ConnAuthAck
set_status v m = record m { status = v; has_status = true }

unfoldable pub set_feedback : List ℕ → ConnAuthAck → ConnAuthAck
set_feedback v m = record m { feedback = v; has_feedback = true }

-- A text that was not set is left alone, and so is the status if nothing was set.
unfoldable pub clear : ConnAuthAck → ConnAuthAck
clear m =
    let any = m.has_status || m.has_feedback in
    record m {
      status = if any then true else m.status;
      has_status = false;
      feedback = if m.has_feedback then [] else m.feedback;
      has_feedback = false;
      unknown_fields = [];
    }

unfoldable pub merge_from : ConnAuthAck → ConnAuthAck → ConnAuthAck
unfolding set_status set_feedback
merge_from from m0 =
    let m1 = if from.has_status then set_status from.status m0 else m0 in
    let m2 = if from.has_feedback then set_feedback from.feedback m1 else m1 in
    record m2 { unknown_fields = m2.unknown_fields ++ from.unknown_fields }

-- `CopyFrom` of another object.
unfoldable pub copy_from : ConnAuthAck → ConnAuthAck → ConnAuthAck
unfolding merge_from clear
copy_from from m = merge_from from (clear m)

unfoldable pub is_initialized : ConnAuthAck → Bool
is_initialized m = m.has_status && m.has_feedback

abbrev pub add_unknown : List ℕ → ConnAuthAck → ConnAuthAck
add_unknown bytes m = record m { unknown_fields = m.unknown_fields ++ bytes }

module _ (w : Wire) where
  unfoldable pub switch_tag : ℕ → List ℕ → ConnAuthAck → Switched ConnAuthAck
  unfolding set_status set_feedback
  switch_tag tag input m =
      if tag == 8
      then read_with m (w.read_bool input) (λ v. set_status v m)
      else if tag == 18
      then read_with (set_feedback (w.broken_string input m.feedback) m) (w.read_string input)
          (λ v. set_feedback v m)
      else unusual

  unfoldable pub merge_partial : ℕ → List ℕ → ConnAuthAck → Option (Bool × ConnAuthAck)
  merge_partial = merge_loop w switch_tag add_unknown

  unfoldable pub serialize : ConnAuthAck → List ℕ
  serialize m =
      (if m.has_status then 8 ∷ w.write_bool m.status else [])
      ++ ((if m.has_feedback then 18 ∷ write_string w m.feedback else []) ++ m.unknown_fields)

  unfoldable pub required_size : ConnAuthAck → ℕ
  required_size m =
      (if m.has_status then 1 + 1 else 0)
      + (if m.has_feedback then 1 + string_size w m.feedback else 0)

  unfoldable pub total_size : ConnAuthAck → ℕ
  unfolding required_size
  total_size m =
      (if m.has_status && m.has_feedback
        then (1 + 1) + (1 + string_size w m.feedback)
        else required_size m)
      + length m.unknown_fields

  -- The sum, which `ByteSize` keeps in an int.
  unfoldable pub byte_size : ConnAuthAck → ℕ
  unfolding total_size
  byte_size m = total_size m % 2 ^ 32
