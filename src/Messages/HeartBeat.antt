-- ===== src/Messages/HeartBeat.antt =====
-- protocol/protobuf/generated/kite_remoting.pb.cc, class HeartBeat.
pub mod Whole
pub mod Copy
use kiteq_client_cpp.Base.{
  ℕ, ◌+◌, ◌^◌, ◌<◌, ◌≡◌, refl, ap, ◌∙◌, Bool, true, false, List, [], ◌∷◌, ◌++◌, Option, some,
  length, arith, append-nil, ◌==◌, if◌then◌else◌, ◌%◌,
}
use kiteq_client_cpp.Messages.{Wire, Switched, field, unusual, read_with, merge_loop}
use kiteq_client_cpp.Messages.Loop.{merge_loop-field, merge_loop-end}

-- A message is its fields, its has bits and the bytes of its unknown fields.
pub record HeartBeat : Type 0 where
  pub version : ℕ
  pub has_version : Bool
  pub unknown_fields : List ℕ

unfoldable pub new_message : HeartBeat
new_message = record { version = 0; has_version = false; unknown_fields = [] }

unfoldable pub set_version : ℕ → HeartBeat → HeartBeat
set_version v m = record m { version = v; has_version = true }

unfoldable pub clear : HeartBeat → HeartBeat
clear m = record m { version = 0; has_version = false; unknown_fields = [] }

unfoldable pub merge_from : HeartBeat → HeartBeat → HeartBeat
merge_from from m0 =
    let m =
      if from.has_version then record m0 { version = from.version; has_version = true } else m0 in
    record m { unknown_fields = m.unknown_fields ++ from.unknown_fields }

-- `CopyFrom` of another object.
unfoldable pub copy_from : HeartBeat → HeartBeat → HeartBeat
unfolding merge_from clear
copy_from from m = merge_from from (clear m)

unfoldable pub is_initialized : HeartBeat → Bool
is_initialized m = m.has_version

abbrev pub add_unknown : List ℕ → HeartBeat → HeartBeat
add_unknown bytes m = record m { unknown_fields = m.unknown_fields ++ bytes }

module _ (w : Wire) where
  unfoldable pub switch_tag : ℕ → List ℕ → HeartBeat → Switched HeartBeat
  switch_tag tag input m =
      if tag == 8
      then read_with m (w.read_int64 input) (λ v. record m { version = v; has_version = true })
      else unusual

  unfoldable pub merge_partial : ℕ → List ℕ → HeartBeat → Option (Bool × HeartBeat)
  merge_partial = merge_loop w switch_tag add_unknown

  unfoldable pub serialize : HeartBeat → List ℕ
  serialize m = (if m.has_version then 8 ∷ w.write_int64 m.version else []) ++ m.unknown_fields

  unfoldable pub total_size : HeartBeat → ℕ
  total_size m = (if m.has_version then 1 + w.int64_size m.version else 0) + length m.unknown_fields

  -- The sum, which `ByteSize` keeps in an int.
  unfoldable pub byte_size : HeartBeat → ℕ
  unfolding total_size
  byte_size m = total_size m % 2 ^ 32
