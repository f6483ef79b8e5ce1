-- ===== src/Messages/ConnMeta.antt =====
-- protocol/protobuf/generated/kite_remoting.pb.cc, class ConnMeta.
pub mod Whole
pub mod Copy
use kiteq_client_cpp.Base.{
  ℕ, suc, ◌+◌, ◌^◌, ◌<◌, ◌≡◌, refl, ◌∙◌, Bool, true, false, ◌&&◌, ◌||◌, List, [], ◌∷◌, ◌++◌, Option,
  some, length, arith, ◌==◌, if◌then◌else◌, length-append, ◌%◌,
}
use kiteq_client_cpp.Messages.{
  Wire, write_string, string_size, Switched, unusual, read_with, merge_loop,
}
use kiteq_client_cpp.Messages.Loop.{merge_loop-field, merge_loop-end}

pub record ConnMeta : Type 0 where
  pub groupid : List ℕ
  pub has_groupid : Bool
  pub secretkey : List ℕ
  pub has_secretkey : Bool
  pub warmingupsec : ℕ
  pub has_warmingupsec : Bool
  pub unknown_fields : List ℕ

unfoldable pub new_message : ConnMeta
new_message = record {
  groupid = [];
  has_groupid = false;
  secretkey = [];
  has_secretkey = false;
  warmingupsec = 0;
  has_warmingupsec = false;
  unknown_fields = [];
}

unfoldable pub set_groupid : List ℕ → ConnMeta → ConnMeta
set_groupid v m = record m { groupid = v; has_groupid = true }

unfoldable pub set_secretkey : List ℕ → ConnMeta → ConnMeta
set_secretkey v m = record m { secretkey = v; has_secretkey = true }

unfoldable pub set_warmingupsec : ℕ → ConnMeta → ConnMeta
set_warmingupsec v m = record m { warmingupsec = v; has_warmingupsec = true }

-- A text that was not set is left alone, and so is the number if nothing was set.
unfoldable pub clear : ConnMeta → ConnMeta
clear m =
    let any = m.has_groupid || (m.has_secretkey || m.has_warmingupsec) in
    record m {
      groupid = if m.has_groupid then [] else m.groupid;
      has_groupid = false;
      secretkey = if m.has_secretkey then [] else m.secretkey;
      has_secretkey = false;
      warmingupsec = if any then 0 else m.warmingupsec;
      has_warmingupsec = false;
      unknown_fields = [];
    }

unfoldable pub merge_from : ConnMeta → ConnMeta → ConnMeta
unfolding set_groupid set_secretkey set_warmingupsec
merge_from from m0 =
    let m1 = if from.has_groupid then set_groupid from.groupid m0 else m0 in
    let m2 = if from.has_secretkey then set_secretkey from.secretkey m1 else m1 in
    let m3 = if from.has_warmingupsec then set_warmingupsec from.warmingupsec m2 else m2 in
    record m3 { unknown_fields = m3.unknown_fields ++ from.unknown_fields }

-- `CopyFrom` of another object.
unfoldable pub copy_from : ConnMeta → ConnMeta → ConnMeta
unfolding merge_from clear
copy_from from m = merge_from from (clear m)

unfoldable pub is_initialized : ConnMeta → Bool
is_initialized m = m.has_groupid && m.has_secretkey

abbrev pub add_unknown : List ℕ → ConnMeta → ConnMeta
add_unknown bytes m = record m { unknown_fields = m.unknown_fields ++ bytes }

module _ (w : Wire) where
  unfoldable pub switch_tag : ℕ → List ℕ → ConnMeta → Switched ConnMeta
  unfolding set_groupid set_secretkey set_warmingupsec
  switch_tag tag input m =
      if tag == 10
      then read_with (set_groupid (w.broken_string input m.groupid) m) (w.read_string input)
          (λ v. set_groupid v m)
      else if tag == 18
      then read_with (set_secretkey (w.broken_string input m.secretkey) m) (w.read_string input)
          (λ v. set_secretkey v m)
      else if tag == 24
      then read_with m (w.read_int32 input) (λ v. set_warmingupsec v m)
      else unusual

  unfoldable pub merge_partial : ℕ → List ℕ → ConnMeta → Option (Bool × ConnMeta)
  merge_partial = merge_loop w switch_tag add_unknown

  unfoldable pub serialize : ConnMeta → List ℕ
  serialize m =
      (if m.has_groupid then 10 ∷ write_string w m.groupid else [])
      ++ ((if m.has_secretkey then 18 ∷ write_string w m.secretkey else [])
          ++ ((if m.has_warmingupsec then 24 ∷ w.write_int32 m.warmingupsec else [])
              ++ m.unknown_fields))

  unfoldable pub required_size : ConnMeta → ℕ
  required_size m =
      (if m.has_groupid then 1 + string_size w m.groupid else 0)
      + (if m.has_secretkey then 1 + string_size w m.secretkey else 0)

  unfoldable pub total_size : ConnMeta → ℕ
  unfolding required_size
  total_size m =
      (if m.has_groupid && m.has_secretkey
        then 1 + string_size w m.groupid + (1 + string_size w m.secretkey)
        else required_size m)
      + (if m.has_warmingupsec then 1 + w.int32_size m.warmingupsec else 0)
      + length m.unknown_fields

  -- The sum, which `ByteSize` keeps in an int.
  unfoldable pub byte_size : ConnMeta → ℕ
  unfolding total_size
  byte_size m = total_size m % 2 ^ 32
