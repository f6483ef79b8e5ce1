-- ===== src/Messages/Header.antt =====
-- protocol/protobuf/generated/kite_remoting.pb.cc, class Header.
pub mod Properties
pub mod Whole
pub mod Copy
use kiteq_client_cpp.Base.{
  ℕ, suc, ◌+◌, Bool, true, false, ◌&&◌, ◌||◌, List, [], ◌∷◌, ◌++◌, Option, length, ◌==◌,
  if◌then◌else◌, ◌%◌, ◌^◌,
}
use kiteq_client_cpp.Messages.{
  Wire, write_string, string_size, Switched, unusual, read_with, merge_loop, consumed,
  read_message_into,
}
use kiteq_client_cpp.Messages.Entry

pub record Header : Type 0 where
  pub messageid : List ℕ
  pub has_messageid : Bool
  pub topic : List ℕ
  pub has_topic : Bool
  pub messagetype : List ℕ
  pub has_messagetype : Bool
  pub expiredtime : ℕ
  pub has_expiredtime : Bool
  pub deliverlimit : ℕ
  pub has_deliverlimit : Bool
  pub groupid : List ℕ
  pub has_groupid : Bool
  pub commit : Bool
  pub has_commit : Bool
  pub fly : Bool
  pub has_fly : Bool
  pub properties : List Entry.Entry
  pub createtime : ℕ
  pub has_createtime : Bool
  pub unknown_fields : List ℕ

-- `expiredtime` is -1 at first.
unfoldable pub new_message : Header
new_message = record {
  messageid = [];
  has_messageid = false;
  topic = [];
  has_topic = false;
  messagetype = [];
  has_messagetype = false;
  expiredtime = 0xFFFFFFFFFFFFFFFF;
  has_expiredtime = false;
  deliverlimit = 100;
  has_deliverlimit = false;
  groupid = [];
  has_groupid = false;
  commit = false;
  has_commit = false;
  fly = false;
  has_fly = false;
  properties = [];
  createtime = 0;
  has_createtime = false;
  unknown_fields = [];
}

unfoldable pub set_messageid : List ℕ → Header → Header
set_messageid v m = record m { messageid = v; has_messageid = true }

unfoldable pub set_topic : List ℕ → Header → Header
set_topic v m = record m { topic = v; has_topic = true }

unfoldable pub set_messagetype : List ℕ → Header → Header
set_messagetype v m = record m { messagetype = v; has_messagetype = true }

unfoldable pub set_expiredtime : ℕ → Header → Header
set_expiredtime v m = record m { expiredtime = v; has_expiredtime = true }

unfoldable pub set_deliverlimit : ℕ → Header → Header
set_deliverlimit v m = record m { deliverlimit = v; has_deliverlimit = true }

unfoldable pub set_groupid : List ℕ → Header → Header
set_groupid v m = record m { groupid = v; has_groupid = true }

unfoldable pub set_commit : Bool → Header → Header
set_commit v m = record m { commit = v; has_commit = true }

unfoldable pub set_fly : Bool → Header → Header
set_fly v m = record m { fly = v; has_fly = true }

unfoldable pub set_createtime : ℕ → Header → Header
set_createtime v m = record m { createtime = v; has_createtime = true }

-- `add_properties()`, and what is merged into the new element.
unfoldable pub add_properties : Entry.Entry → Header → Header
add_properties e m = record m { properties = m.properties ++ e ∷ [] }

-- A text that was not set is left alone, and so are the others of the first eight if none was set.
unfoldable pub clear : Header → Header
clear m =
    let any =
      m.has_messageid
      || (m.has_topic
          || (m.has_messagetype
              || (m.has_expiredtime
                  || (m.has_deliverlimit || (m.has_groupid || (m.has_commit || m.has_fly)))))) in
    record m {
      messageid = if m.has_messageid then [] else m.messageid;
      has_messageid = false;
      topic = if m.has_topic then [] else m.topic;
      has_topic = false;
      messagetype = if m.has_messagetype then [] else m.messagetype;
      has_messagetype = false;
      expiredtime = if any then 0xFFFFFFFFFFFFFFFF else m.expiredtime;
      has_expiredtime = false;
      deliverlimit = if any then 100 else m.deliverlimit;
      has_deliverlimit = false;
      groupid = if m.has_groupid then [] else m.groupid;
      has_groupid = false;
      commit = if any then false else m.commit;
      has_commit = false;
      fly = if any then false else m.fly;
      has_fly = false;
      properties = [];
      createtime = 0;
      has_createtime = false;
      unknown_fields = [];
    }

unfoldable pub merge_from : Header → Header → Header
unfolding set_messageid set_topic set_messagetype set_expiredtime set_deliverlimit set_groupid
    set_commit set_fly set_createtime
merge_from from m =
    let m0 = record m { properties = m.properties ++ from.properties } in
    let m1 = if from.has_messageid then set_messageid from.messageid m0 else m0 in
    let m2 = if from.has_topic then set_topic from.topic m1 else m1 in
    let m3 = if from.has_messagetype then set_messagetype from.messagetype m2 else m2 in
    let m4 = if from.has_expiredtime then set_expiredtime from.expiredtime m3 else m3 in
    let m5 = if from.has_deliverlimit then set_deliverlimit from.deliverlimit m4 else m4 in
    let m6 = if from.has_groupid then set_groupid from.groupid m5 else m5 in
    let m7 = if from.has_commit then set_commit from.commit m6 else m6 in
    let m8 = if from.has_fly then set_fly from.fly m7 else m7 in
    let m9 = if from.has_createtime then set_createtime from.createtime m8 else m8 in
    record m9 { unknown_fields = m9.unknown_fields ++ from.unknown_fields }

-- `CopyFrom` of another object.
unfoldable pub copy_from : Header → Header → Header
unfolding merge_from clear
copy_from from m = merge_from from (clear m)

-- `AllAreInitialized`.
unfoldable pub all_are_initialized : List Entry.Entry → Bool
unfolding Entry.is_initialized
all_are_initialized [] = true
all_are_initialized (e ∷ es) = Entry.is_initialized e && all_are_initialized es

unfoldable pub is_initialized : Header → Bool
unfolding all_are_initialized
is_initialized m =
    if m.has_messageid
      && (m.has_topic
          && (m.has_messagetype
              && (m.has_expiredtime
                  && (m.has_deliverlimit && (m.has_groupid && (m.has_commit && m.has_fly))))))
    then all_are_initialized m.properties
    else false

abbrev pub add_unknown : List ℕ → Header → Header
add_unknown bytes m = record m { unknown_fields = m.unknown_fields ++ bytes }

module _ (w : Wire) where
  unfoldable pub switch_tag : ℕ → List ℕ → Header → Switched Header
  unfolding set_messageid set_topic set_messagetype set_expiredtime set_deliverlimit set_groupid
      set_commit set_fly set_createtime add_properties read_message_into Entry.merge_partial
  switch_tag tag input m =
      if tag == 10
      then read_with (set_messageid (w.broken_string input m.messageid) m) (w.read_string input)
          (λ v. set_messageid v m)
      else if tag == 18
      then read_with (set_topic (w.broken_string input m.topic) m) (w.read_string input)
          (λ v. set_topic v m)
      else if tag == 26
      then read_with (set_messagetype (w.broken_string input m.messagetype) m) (w.read_string input)
          (λ v. set_messagetype v m)
      else if tag == 32
      then read_with m (w.read_int64 input) (λ v. set_expiredtime v m)
      else if tag == 40
      then read_with m (w.read_int32 input) (λ v. set_deliverlimit v m)
      else if tag == 50
      then read_with (set_groupid (w.broken_string input m.groupid) m) (w.read_string input)
          (λ v. set_groupid v m)
      else if tag == 56
      then read_with m (w.read_bool input) (λ v. set_commit v m)
      else if tag == 64
      then read_with m (w.read_bool input) (λ v. set_fly v m)
      else if tag == 74
      then read_message_into w (Entry.merge_partial w)
          (consumed w (Entry.switch_tag w) Entry.add_unknown) Entry.new_message
          (λ e. add_properties e m) input
      else if tag == 80
      then read_with m (w.read_int64 input) (λ v. set_createtime v m)
      else unusual

  unfoldable pub merge_partial : ℕ → List ℕ → Header → Option (Bool × Header)
  merge_partial = merge_loop w switch_tag add_unknown

  -- `WriteMessage` of each element, with its cached size.
  unfoldable pub serialize_properties : List Entry.Entry → List ℕ
  unfolding Entry.serialize Entry.byte_size
  serialize_properties [] = []
  serialize_properties (e ∷ es) =
      74
      ∷ (w.write_delimited (Entry.byte_size w e) (Entry.serialize w e) ++ serialize_properties es)

  unfoldable pub properties_size : List Entry.Entry → ℕ
  unfolding Entry.byte_size
  properties_size [] = 0
  properties_size (e ∷ es) = w.delimited_size (Entry.byte_size w e) + properties_size es

  unfoldable pub serialize : Header → List ℕ
  unfolding serialize_properties
  serialize m =
      (if m.has_messageid then 10 ∷ write_string w m.messageid else [])
      ++ ((if m.has_topic then 18 ∷ write_string w m.topic else [])
          ++ ((if m.has_messagetype then 26 ∷ write_string w m.messagetype else [])
              ++ ((if m.has_expiredtime then 32 ∷ w.write_int64 m.expiredtime else [])
                  ++ ((if m.has_deliverlimit then 40 ∷ w.write_int32 m.deliverlimit else [])
                      ++ ((if m.has_groupid then 50 ∷ write_string w m.groupid else [])
                          ++ ((if m.has_commit then 56 ∷ w.write_bool m.commit else [])
                              ++ ((if m.has_fly then 64 ∷ w.write_bool m.fly else [])
                                  ++ (serialize_properties m.properties
                                      ++ ((if m.has_createtime
                                            then 80 ∷ w.write_int64 m.createtime
                                            else [])
                                          ++ (m.unknown_fields))))))))))

  unfoldable pub required_size : Header → ℕ
  required_size m =
      (if m.has_messageid then 1 + string_size w m.messageid else 0)
      + (if m.has_topic then 1 + string_size w m.topic else 0)
      + (if m.has_messagetype then 1 + string_size w m.messagetype else 0)
      + (if m.has_expiredtime then 1 + w.int64_size m.expiredtime else 0)
      + (if m.has_deliverlimit then 1 + w.int32_size m.deliverlimit else 0)
      + (if m.has_groupid then 1 + string_size w m.groupid else 0)
      + (if m.has_commit then 1 + 1 else 0)
      + (if m.has_fly then 1 + 1 else 0)

  unfoldable pub total_size : Header → ℕ
  unfolding required_size properties_size
  total_size m =
      (if m.has_messageid
          && (m.has_topic
              && (m.has_messagetype
                  && (m.has_expiredtime
                      && (m.has_deliverlimit && (m.has_groupid && (m.has_commit && m.has_fly))))))
        then (1 + string_size w m.messageid)
          + (1 + string_size w m.topic)
          + (1 + string_size w m.messagetype)
          + (1 + w.int64_size m.expiredtime)
          + (1 + w.int32_size m.deliverlimit)
          + (1 + string_size w m.groupid)
          + (1 + 1)
          + (1 + 1)
        else required_size m)
      + (if m.has_createtime then 1 + w.int64_size m.createtime else 0)
      + (length m.properties + properties_size m.properties)
      + length m.unknown_fields

  -- The sum, which `ByteSize` keeps in an int.
  unfoldable pub byte_size : Header → ℕ
  unfolding total_size
  byte_size m = total_size m % 2 ^ 32
