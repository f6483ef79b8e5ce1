-- ===== src/Messages/DeliverAck.antt =====
-- protocol/protobuf/generated/kite_remoting.pb.cc, class DeliverAck.
pub mod Whole
pub mod Copy
use kiteq_client_cpp.Base.{
  ℕ, suc, ◌+◌, ◌^◌, ◌<◌, ◌≡◌, refl, ◌∙◌, Bool, true, false, ◌&&◌, ◌||◌, List, [], ◌∷◌, ◌++◌, Option,
  some, length, arith, ◌==◌, if◌then◌else◌, length-append, ◌%◌,
}
use kiteq_client_cpp.Messages.{
  Wire, write_string, string_size, Switched, unusual, read_with, merge_loop,
}
use kiteq_client_cpp.Messages.Loop.{merge_loop-field, merge_loop-end}

pub record DeliverAck : Type 0 where
  pub messageid : List ℕ
  pub has_messageid : Bool
  pub topic : List ℕ
  pub has_topic : Bool
  pub messagetype : List ℕ
  pub has_messagetype : Bool
  pub groupid : List ℕ
  pub has_groupid : Bool
  pub status : Bool
  pub has_status : Bool
  pub feedback : List ℕ
  pub has_feedback : Bool
  pub unknown_fields : List ℕ

unfoldable pub new_message : DeliverAck
new_message = record {
  messageid = [];
  has_messageid = false;
  topic = [];
  has_topic = false;
  messagetype = [];
  has_messagetype = false;
  groupid = [];
  has_groupid = false;
  status = true;
  has_status = false;
  feedback = [];
  has_feedback = false;
  unknown_fields = [];
}

unfoldable pub set_messageid : List ℕ → DeliverAck → DeliverAck
set_messageid v m = record m { messageid = v; has_messageid = true }

unfoldable pub set_topic : List ℕ → DeliverAck → DeliverAck
set_topic v m = record m { topic = v; has_topic = true }

unfoldable pub set_messagetype : List ℕ → DeliverAck → DeliverAck
set_messagetype v m = record m { messagetype = v; has_messagetype = true }

unfoldable pub set_groupid : List ℕ → DeliverAck → DeliverAck
set_groupid v m = record m { groupid = v; has_groupid = true }

unfoldable pub set_status : Bool → DeliverAck → DeliverAck
set_status v m = record m { status = v; has_status = true }

unfoldable pub set_feedback : List ℕ → DeliverAck → DeliverAck
set_feedback v m = record m { feedback = v; has_feedback = true }

-- A text that was not set is left alone, and so is the status if nothing was set.
unfoldable pub clear : DeliverAck → DeliverAck
clear m =
    let any =
      m.has_messageid
      || (m.has_topic
          || (m.has_messagetype || (m.has_groupid || (m.has_status || m.has_feedback)))) in
    record m {
      messageid = if m.has_messageid then [] else m.messageid;
      has_messageid = false;
      topic = if m.has_topic then [] else m.topic;
      has_topic = false;
      messagetype = if m.has_messagetype then [] else m.messagetype;
      has_messagetype = false;
      groupid = if m.has_groupid then [] else m.groupid;
      has_groupid = false;
      status = if any then true else m.status;
      has_status = false;
      feedback = if m.has_feedback then [] else m.feedback;
      has_feedback = false;
      unknown_fields = [];
    }

unfoldable pub merge_from : DeliverAck → DeliverAck → DeliverAck
unfolding set_messageid set_topic set_messagetype set_groupid set_status set_feedback
merge_from from m0 =
    let m1 = if from.has_messageid then set_messageid from.messageid m0 else m0 in
    let m2 = if from.has_topic then set_topic from.topic m1 else m1 in
    let m3 = if from.has_messagetype then set_messagetype from.messagetype m2 else m2 in
    let m4 = if from.has_groupid then set_groupid from.groupid m3 else m3 in
    let m5 = if from.has_status then set_status from.status m4 else m4 in
    let m6 = if from.has_feedback then set_feedback from.feedback m5 else m5 in
    record m6 { unknown_fields = m6.unknown_fields ++ from.unknown_fields }

-- `CopyFrom` of another object.
unfoldable pub copy_from : DeliverAck → DeliverAck → DeliverAck
unfolding merge_from clear
copy_from from m = merge_from from (clear m)

unfoldable pub is_initialized : DeliverAck → Bool
is_initialized m =
    m.has_messageid && (m.has_topic && (m.has_messagetype && (m.has_groupid && m.has_status)))

abbrev pub add_unknown : List ℕ → DeliverAck → DeliverAck
add_unknown bytes m = record m { unknown_fields = m.unknown_fields ++ bytes }

module _ (w : Wire) where
  unfoldable pub switch_tag : ℕ → List ℕ → DeliverAck → Switched DeliverAck
  unfolding set_messageid set_topic set_messagetype set_groupid set_status set_feedback
  switch_tag tag input m =
      if tag == 10
      then read_with (set_messageid (w.broken_string input m.messageid) m) (w.read_string input)
          (λ v. set_messageid v m)
      else if tag == 18
      then read_with (set_topic (w.broken_string input m.topic) m) (w.read_string input)
          (λ v. set_topic v m)
      else if tag == 26
      then read_with (set_messagetype (w.broken_string input m.messagetype) m) (w.read_string input)
          (λ v. set_messagetype v m)
      else if tag == 34
      then read_with (set_groupid (w.broken_string input m.groupid) m) (w.read_string input)
          (λ v. set_groupid v m)
      else if tag == 40
      then read_with m (w.read_bool input) (λ v. set_status v m)
      else if tag == 50
      then read_with (set_feedback (w.broken_string input m.feedback) m) (w.read_string input)
          (λ v. set_feedback v m)
      else unusual

  unfoldable pub merge_partial : ℕ → List ℕ → DeliverAck → Option (Bool × DeliverAck)
  merge_partial = merge_loop w switch_tag add_unknown

  unfoldable pub serialize : DeliverAck → List ℕ
  serialize m =
      (if m.has_messageid then 10 ∷ write_string w m.messageid else [])
      ++ ((if m.has_topic then 18 ∷ write_string w m.topic else [])
          ++ ((if m.has_messagetype then 26 ∷ write_string w m.messagetype else [])
              ++ ((if m.has_groupid then 34 ∷ write_string w m.groupid else [])
                  ++ ((if m.has_status then 40 ∷ w.write_bool m.status else [])
                      ++ ((if m.has_feedback then 50 ∷ write_string w m.feedback else [])
                          ++ m.unknown_fields)))))

  unfoldable pub required_size : DeliverAck → ℕ
  required_size m =
      (if m.has_messageid then 1 + string_size w m.messageid else 0)
      + (if m.has_topic then 1 + string_size w m.topic else 0)
      + (if m.has_messagetype then 1 + string_size w m.messagetype else 0)
      + (if m.has_groupid then 1 + string_size w m.groupid else 0)
      + (if m.has_status then 1 + 1 else 0)

  unfoldable pub total_size : DeliverAck → ℕ
  unfolding required_size
  total_size m =
      (if m.has_messageid && (m.has_topic && (m.has_messagetype && (m.has_groupid && m.has_status)))
        then (1 + string_size w m.messageid)
          + (1 + string_size w m.topic)
          + (1 + string_size w m.messagetype)
          + (1 + string_size w m.groupid)
          + (1 + 1)
        else required_size m)
      + (if m.has_feedback then 1 + string_size w m.feedback else 0)
      + length m.unknown_fields

  -- The sum, which `ByteSize` keeps in an int.
  unfoldable pub byte_size : DeliverAck → ℕ
  unfolding total_size
  byte_size m = total_size m % 2 ^ 32
