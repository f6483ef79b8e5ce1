-- ===== src/Tests/Messages.antt =====
-- The theorems of the generated messages at concrete inputs, with a runtime whose numbers take one
-- byte each.
use kiteq_client_cpp.Base.{
  ℕ, suc, ◌≡◌, refl, Bool, true, false, List, [], ◌∷◌, ◌++◌, Option, none, some, length, take, drop,
  take-append_eq, drop-append_eq, arith, ◌==◌, ◌<◌, ◌^◌,
}
use kiteq_client_cpp.Messages.{Wire}
use kiteq_client_cpp.Messages.MessageStoreAck
use kiteq_client_cpp.Messages.MessageStoreAck.Whole as MessageStoreAckWhole
use kiteq_client_cpp.Messages.Any.{
  a_message_store_ack, kind, is_initialized, serialize, byte_size, parse,
}
use kiteq_client_cpp.Messages.Codec.{parse-serialize}
use kiteq_client_cpp.Messages.Copies.{message_store_acks, IsCopy-whole}

abbrev first_byte : List ℕ → ℕ × List ℕ
first_byte [] = (0, [])
first_byte (b ∷ bs) = (b, bs)

abbrev read_number : List ℕ → Option (ℕ × List ℕ)
read_number [] = none
read_number (b ∷ bs) = some (b, bs)

abbrev read_flag : List ℕ → Option (Bool × List ℕ)
read_flag [] = none
read_flag (b ∷ bs) = some (b == 1, bs)

abbrev write_flag : Bool → List ℕ
write_flag true = 1 ∷ []
write_flag false = 0 ∷ []

pub read_flag-write_flag :
    (v : Bool) (rest : List ℕ) → read_flag (write_flag v ++ rest) ≡ some (v, rest)
read_flag-write_flag true rest = refl
read_flag-write_flag false rest = refl

pub length-write_flag : (v : Bool) → length (write_flag v) ≡ 1
length-write_flag true = refl
length-write_flag false = refl

abbrev read_text : List ℕ → Option (List ℕ × List ℕ)
read_text [] = none
read_text (n ∷ bs) = some (take n bs, drop n bs)

abbrev pub one_byte : Wire
one_byte = record {
  read_tag = first_byte;
  read_int64 = read_number;
  read_int32 = read_number;
  read_bool = read_flag;
  read_string = read_text;
  broken_string = λ input s. s;
  read_message = read_text;
  skip_field = λ t bs. none;
  write_int64 = λ v. v ∷ [];
  write_int32 = λ v. v ∷ [];
  write_bool = write_flag;
  write_delimited = λ n s. n ∷ s;
  int64_size = λ v. 1;
  int32_size = λ v. 1;
  delimited_size = λ n. suc n;
  read_tag-byte = λ t rest pos low. refl;
  read_tag-end = refl;
  read-write_int64 = λ v rest fits. refl;
  read-write_int32 = λ v rest fits. refl;
  read-write_bool = read_flag-write_flag;
  read-write_string = λ s rest fits.
      rw (take-append_eq (length s) s rest refl, drop-append_eq (length s) s rest refl);
  read-write_message = λ s rest fits.
      rw (take-append_eq (length s) s rest refl, drop-append_eq (length s) s rest refl);
  length-write_int64 = λ v. refl;
  length-write_int32 = λ v. refl;
  length-write_bool = length-write_flag;
  length-write_string = λ s. refl;
}

abbrev stored : MessageStoreAck.MessageStoreAck
stored = record {
  messageid = 7 ∷ [];
  has_messageid = true;
  status = true;
  has_status = true;
  feedback = 3 ∷ [];
  has_feedback = true;
  unknown_fields = [];
}

stored-IsWhole : MessageStoreAckWhole.IsWhole stored
stored-IsWhole = record {
  known = refl;
  has_set_messageid = refl;
  fits_messageid = omega arith;
  has_set_status = refl;
  has_set_feedback = refl;
  fits_feedback = omega arith;
}

other-IsWhole : MessageStoreAckWhole.IsWhole (record stored { messageid = 9 ∷ [] })
other-IsWhole = record {
  known = refl;
  has_set_messageid = refl;
  fits_messageid = omega arith;
  has_set_status = refl;
  has_set_feedback = refl;
  fits_feedback = omega arith;
}

stored-short : length (serialize one_byte (a_message_store_ack stored)) < 2 ^ 31
unfolding serialize MessageStoreAck.serialize
stored-short = omega arith

parse-serialize_example :
    (is_initialized (a_message_store_ack stored) ≡ true)
    × (length (serialize one_byte (a_message_store_ack stored))
        ≡ byte_size one_byte (a_message_store_ack stored))
    × (parse one_byte
          (kind (a_message_store_ack stored))
          (serialize one_byte (a_message_store_ack stored))
        ≡ a_message_store_ack stored)
parse-serialize_example =
    parse-serialize one_byte (a_message_store_ack stored) stored-IsWhole stored-short

IsCopy-whole_example :
    a_message_store_ack (MessageStoreAck.copy_from stored (record stored { messageid = 9 ∷ [] }))
    ≡ a_message_store_ack stored
IsCopy-whole_example =
    IsCopy-whole one_byte (a_message_store_ack stored)
      (a_message_store_ack (record stored { messageid = 9 ∷ [] }))
      (a_message_store_ack
        (MessageStoreAck.copy_from stored (record stored { messageid = 9 ∷ [] })))
      stored-IsWhole other-IsWhole
      (message_store_acks stored (record stored { messageid = 9 ∷ [] }))
