-- ===== src/Messages/Entry.antt =====
-- protocol/protobuf/generated/kite_remoting.pb.cc, class Entry.
pub mod Whole
pub mod Copy
use kiteq_client_cpp.Base.{
  ℕ, suc, ◌+◌, ◌^◌, ◌<◌, ◌≡◌, refl, ◌∙◌, Bool, true, false, ◌&&◌, List, [], ◌∷◌, ◌++◌, Option, some,
  length, arith, ◌==◌, if◌then◌else◌, length-append, ◌%◌,
}
use kiteq_client_cpp.Messages.{
  Wire, write_string, string_size, Switched, unusual, read_with, merge_loop,
}
use kiteq_client_cpp.Messages.Loop.{merge_loop-field, merge_loop-end}

pub record Entry : Type 0 where
  pub key : List ℕ
  pub has_key : Bool
  pub value : List ℕ
  pub has_value : Bool
  pub unknown_fields : List ℕ

unfoldable pub new_message : Entry
new_message = record {
  key = [];
  has_key = false;
  value = [];
  has_value = false;
  unknown_fields = [];
}

unfoldable pub set_key : List ℕ → Entry → Entry
set_key v m = record m { key = v; has_key = true }

unfoldable pub set_value : List ℕ → Entry → Entry
set_value v m = record m { value = v; has_value = true }

-- A text that was not set is left alone.
unfoldable pub clear : Entry → Entry
clear m = record m {
  key = if m.has_key then [] else m.key;
  has_key = false;
  value = if m.has_value then [] else m.value;
  has_value = false;
  unknown_fields = [];
}

unfoldable pub merge_from : Entry → Entry → Entry
unfolding set_key set_value
merge_from from m0 =
    let m1 = if from.has_key then set_key from.key m0 else m0 in
    let m2 = if from.has_value then set_value from.value m1 else m1 in
    record m2 { unknown_fields = m2.unknown_fields ++ from.unknown_fields }

-- `CopyFrom` of another object.
unfoldable pub copy_from : Entry → Entry → Entry
unfolding merge_from clear
copy_from from m = merge_from from (clear m)

unfoldable pub is_initialized : Entry → Bool
is_initialized m = m.has_key && m.has_value

abbrev pub add_unknown : List ℕ → Entry → Entry
add_unknown bytes m = record m { unknown_fields = m.unknown_fields ++ bytes }

module _ (w : Wire) where
  unfoldable pub switch_tag : ℕ → List ℕ → Entry → Switched Entry
  unfolding set_key set_value
  switch_tag tag input m =
      if tag == 10
      then read_with (set_key (w.broken_string input m.key) m) (w.read_string input)
          (λ v. set_key v m)
      else if tag == 18
      then read_with (set_value (w.broken_string input m.value) m) (w.read_string input)
          (λ v. set_value v m)
      else unusual

  unfoldable pub merge_partial : ℕ → List ℕ → Entry → Option (Bool × Entry)
  merge_partial = merge_loop w switch_tag add_unknown

  unfoldable pub serialize : Entry → List ℕ
  serialize m =
      (if m.has_key then 10 ∷ write_string w m.key else [])
      ++ ((if m.has_value then 18 ∷ write_string w m.value else []) ++ m.unknown_fields)

  unfoldable pub required_size : Entry → ℕ
  required_size m =
      (if m.has_key then 1 + string_size w m.key else 0)
      + (if m.has_value then 1 + string_size w m.value else 0)

  unfoldable pub total_size : Entry → ℕ
  unfolding required_size
  total_size m =
      (if m.has_key && m.has_value
        then (1 + string_size w m.key) + (1 + string_size w m.value)
        else required_size m)
      + length m.unknown_fields

  -- The sum, which `ByteSize` keeps in an int.
  unfoldable pub byte_size : Entry → ℕ
  unfolding total_size
  byte_size m = total_size m % 2 ^ 32
