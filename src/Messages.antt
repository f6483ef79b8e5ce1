-- ===== src/Messages.antt =====
-- protocol/protobuf/generated/kite_remoting.pb.cc: what its classes have in common. Each class has
-- its own loop in MergePartialFromCodedStream; the loops differ in their switch only, which is an
-- argument here. A jump to the next field's label, when that field's tag comes next, is the loop's
-- next round.
pub mod Loop
pub mod Reads
pub mod Fields
pub mod Nested
pub mod HeartBeat
pub mod ConnMeta
pub mod ConnAuthAck
pub mod MessageStoreAck
pub mod DeliverAck
pub mod Entry
pub mod Header
pub mod Headed
pub mod TxAckPacket
pub mod BytesMessage
pub mod StringMessage
pub mod Any
pub mod Codec
pub mod Copies
use kiteq_client_cpp.Base.{
  ℕ, zero, suc, ◌+◌, ◌%◌, ◌^◌, ◌<◌, ◌≡◌, Bool, true, false, ◌&&◌, ◌||◌, List, [], ◌∷◌, ◌++◌, Option,
  none, some, length, ◌==◌, leb, if◌then◌else◌,
}

-- The protobuf runtime's CodedInputStream and WireFormatLite, on bytes. A read returns what it read
-- and the bytes that follow, or `none` if it fails, and then a text
-- that was s is `broken_string input s`; `read_message` reads a size and the bytes that a message
-- within the message is parsed from; `read_tag` returns 0 at the end of the input.
-- `skip_field` returns the bytes of an unknown field, its tag among them. A write has no tag;
-- `write_delimited` writes a size and then bytes. The
-- laws: a tag of one byte is read back, and so is a value that was written; the sizes are those of
-- what is written.
pub record Wire : Type 0 where
  pub read_tag : List ℕ → ℕ × List ℕ
  pub read_int64 : List ℕ → Option (ℕ × List ℕ)
  pub read_int32 : List ℕ → Option (ℕ × List ℕ)
  pub read_bool : List ℕ → Option (Bool × List ℕ)
  pub read_string : List ℕ → Option (List ℕ × List ℕ)
  pub broken_string : List ℕ → List ℕ → List ℕ
  pub read_message : List ℕ → Option (List ℕ × List ℕ)
  pub skip_field : ℕ → List ℕ → Option (List ℕ × List ℕ)
  pub write_int64 : ℕ → List ℕ
  pub write_int32 : ℕ → List ℕ
  pub write_bool : Bool → List ℕ
  pub write_delimited : ℕ → List ℕ → List ℕ
  pub int64_size : ℕ → ℕ
  pub int32_size : ℕ → ℕ
  pub delimited_size : ℕ → ℕ
  pub read_tag-byte : (t : ℕ) (rest : List ℕ) → 0 < t → t < 128 → read_tag (t ∷ rest) ≡ (t, rest)
  pub read_tag-end : read_tag [] ≡ (0, [])
  pub read-write_int64 :
      (v : ℕ) (rest : List ℕ) → v < 2 ^ 64 → read_int64 (write_int64 v ++ rest) ≡ some (v, rest)
  pub read-write_int32 :
      (v : ℕ) (rest : List ℕ) → v < 2 ^ 32 → read_int32 (write_int32 v ++ rest) ≡ some (v, rest)
  pub read-write_bool :
      (v : Bool) (rest : List ℕ) → read_bool (write_bool v ++ rest) ≡ some (v, rest)
  pub read-write_string :
      (s : List ℕ) (rest : List ℕ)
      → length s < 2 ^ 31
      → read_string (write_delimited (length s) s ++ rest) ≡ some (s, rest)
  pub read-write_message :
      (s : List ℕ) (rest : List ℕ)
      → length s < 2 ^ 31
      → read_message (write_delimited (length s) s ++ rest) ≡ some (s, rest)
  pub length-write_int64 : (v : ℕ) → length (write_int64 v) ≡ int64_size v
  pub length-write_int32 : (v : ℕ) → length (write_int32 v) ≡ int32_size v
  pub length-write_bool : (v : Bool) → length (write_bool v) ≡ 1
  pub length-write_string :
      (s : List ℕ) → length (write_delimited (length s) s) ≡ delimited_size (length s)

-- A text is written behind its size.
abbrev pub write_string : Wire → List ℕ → List ℕ
write_string w s = w.write_delimited (length s) s

abbrev pub string_size : Wire → List ℕ → ℕ
string_size w s = w.delimited_size (length s)

-- How a class's switch ends: it read a field, a read failed, or it went to `handle_unusual`.
pub data Switched (A : Type 0) : Type 0 where
  field : A → List ℕ → Switched A
  failed : A → Switched A
  unusual : Switched A

-- A read and the store of its value; m is the message if the read fails.
abbrev pub read_with : {A V : Type 0} → A → Option (V × List ℕ) → (V → A) → Switched A
read_with m none set = failed m
read_with m (some (v, rest)) set = field (set v) rest

module _ (w : Wire) {A : Type 0} where
  -- The loop, with the class's switch and its unknown fields: what it returns, and the message then.
  -- `none`: the rounds were not enough.
  unfoldable pub merge_loop :
      (ℕ → List ℕ → A → Switched A) → (List ℕ → A → A) → ℕ → List ℕ → A → Option (Bool × A)
  merge_loop switch add_unknown zero input m = none
  merge_loop switch add_unknown (suc fuel) input m =
      let r = w.read_tag input in
      let tag = r.0 in
      let on_field = λ (m' : A) (rest : List ℕ). merge_loop switch add_unknown fuel rest m' in
      elim (if leb tag 127 then switch tag r.1 m else unusual) [
        | field m' rest ↦ on_field m' rest
        | failed m' ↦ some (false, m')
        | unusual ↦
            if tag == 0 || tag % 8 == 4 then some (true, m) else elim (w.skip_field tag r.1) [
              | none ↦ some (false, m)
              | some s ↦ on_field (add_unknown s.0 m) s.1
            ]
      ]

  -- Whether the loop stops at the end of the input: `ConsumedEntireMessage`.
  unfoldable pub consumed : (ℕ → List ℕ → A → Switched A) → (List ℕ → A → A) → ℕ → List ℕ → A → Bool
  consumed switch add_unknown zero input m = false
  consumed switch add_unknown (suc fuel) input m =
      let r = w.read_tag input in
      let tag = r.0 in
      let on_field = λ (m' : A) (rest : List ℕ). consumed switch add_unknown fuel rest m' in
      elim (if leb tag 127 then switch tag r.1 m else unusual) [
        | field m' rest ↦ on_field m' rest
        | failed m' ↦ false
        | unusual ↦
            if tag == 0 || tag % 8 == 4 then length input == 0 else elim (w.skip_field tag r.1) [
              | none ↦ false
              | some s ↦ on_field (add_unknown s.0 m) s.1
            ]
      ]

-- `ReadMessageNoVirtual` into the message `sub`, by its class's parser and whether that consumes all;
-- `set` puts the message in its place. A round for each byte and one more are given.
abbrev pub parsed : {S : Type 0} → Option (Bool × S) → S → Bool × S
parsed none sub = (false, sub)
parsed (some r) sub = r

unfoldable pub read_message_into :
    {A S : Type 0}
    → Wire
    → (ℕ → List ℕ → S → Option (Bool × S))
    → (ℕ → List ℕ → S → Bool)
    → S
    → (S → A)
    → List ℕ
    → Switched A
read_message_into w merge consumes sub set input = elim (w.read_message input) [
  | none ↦ failed (set sub)
  | some (bytes, rest) ↦
      let r = parsed (merge (suc (length bytes)) bytes sub) sub in
      if r.0 && consumes (suc (length bytes)) bytes sub
      then field (set r.1) rest
      else failed (set r.1)
]
