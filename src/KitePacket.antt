-- ===== src/KitePacket.antt =====
-- protocol/KitePacket.cpp: the packet, its encoding and its decoding.
-- The base class KitePacketHeader is not in the repository: `Header` holds what its getters return
-- and its setters store, and a constructor takes the header that the base constructor made.
pub mod Outcomes
pub mod Encode
pub mod Decode
pub mod RoundTrip
pub mod Delim
pub mod Unparsed
use kiteq_client_cpp.Base.{
  ℕ, zero, suc, ◌+◌, ◌-◌, ◌*◌, ◌%◌, ◌^◌, ◌<◌, ◌≡◌, Bool, true, false, List, [], ◌∷◌, ◌++◌, Option,
  none, some, length, get_elem?, take, drop, ltb, leb, ◌==◌, ◌&&◌, if◌then◌else◌,
}
use kiteq_client_cpp.Base.Word.{sub32, slt32, is_negative32}
use kiteq_client_cpp.ByteBuf.{
  ByteBuf, Platform, empty, size, resize, get_write_ptr, write_byte, write_short, write_int,
  write_long, write_bytes, read_byte, read_short, read_int, read_long,
}
use kiteq_client_cpp.Protocol.{
  Kind, heart_beat, conn_auth_ack, message_store_ack, tx_ack_packet, bytes_message, string_message,
  Codec, packet_head_len, max_packet_bytes, cmd_conn_auth, cmd_message_store_ack, cmd_tx_ack,
  cmd_bytes_message, cmd_string_message, cmd_heartbeat,
}

pub record Header : Type 0 where
  pub opaque : ℕ
  pub cmd_type : ℕ
  pub version : ℕ
  pub extension : ℕ

-- `message` is a pointer that may be null; `buff` is the output buffer.
pub record KitePacket (M : Type 0) : Type 0 where
  pub header : Header
  pub message : Option M
  pub buff : ByteBuf

-- `fault` is undefined behaviour: a null pointer, or a read past the end of the input.
pub data Outcome {ℓ} (A : Type ℓ) : Type ℓ where
  done : A → Outcome A
  fault out_of_fuel : Outcome A

infixl 5 ◌>>=◌
abbrev pub ◌>>=◌ {ℓ κ} : {A : Type ℓ} {B : Type κ} → Outcome A → (A → Outcome B) → Outcome B
done a >>= f = f a
fault >>= f = fault
out_of_fuel >>= f = out_of_fuel

abbrev pub or_fault {ℓ} : {A : Type ℓ} → Option A → Outcome A
or_fault none = fault
or_fault (some a) = done a

-- `KitePacket(cmd, msg)` and its siblings, after the base constructor has made `h`.
unfoldable pub new_packet : {M : Type 0} → Header → M → KitePacket M
unfolding empty
new_packet h m = record { header = h; message = some m; buff = empty }

-- `KitePacket()`.
unfoldable pub blank_packet : {M : Type 0} → Header → KitePacket M
unfolding empty
blank_packet h = record { header = h; message = none; buff = empty }

unfoldable pub get_message : {M : Type 0} → KitePacket M → Option M
get_message p = p.message

-- `getDelim()`: "\r\n".
unfoldable pub get_delim : List ℕ
get_delim = b'\r' ∷ b'\n' ∷ []

unfoldable pub get_header_len : ℕ
get_header_len = packet_head_len

unfoldable pub get_max_frame_length : ℕ
get_max_frame_length = max_packet_bytes

unfoldable pub set_message : {M : Type 0} → KitePacket M → M → KitePacket M
set_message p m = record p { message = some m }

-- The `do` loop of `toByteBuf`: make room until there is a write pointer, then copy the body.
unfoldable pub copy_body : Platform → ℕ → ℕ → List ℕ → ByteBuf → Outcome ByteBuf
copy_body pf zero total body b = out_of_fuel
copy_body pf (suc fuel) total body b = elim (get_write_ptr b (length body)) [
  | none ↦ copy_body pf fuel total body (resize b total)
  | some _ ↦ or_fault (write_bytes pf b body (length body))
]

unfoldable pub write_header : Platform → ByteBuf → Header → ℕ → ByteBuf
write_header pf b0 h serialized_size =
    let b1 = write_int pf b0 (packet_head_len + serialized_size) in
    let b2 = write_int pf b1 h.opaque in
    let b3 = write_byte pf b2 h.cmd_type in
    let b4 = write_short pf b3 h.version in
    let b5 = write_long pf b4 h.extension in write_int pf b5 serialized_size

-- The number that `toByteBuf` stores in `num`, and the packet with its filled buffer: the pointer
-- that it returns is the buffer's start.
unfoldable pub to_byte_buf :
    {M : Type 0} → Platform → Codec M → ℕ → KitePacket M → Outcome (ℕ × KitePacket M)
unfolding write_header copy_body
to_byte_buf pf codec fuel p = do
  m ← or_fault p.message
  let body = codec.serialize m
  let total = packet_head_len + length body + 4
  let roomy = if ltb (size p.buff) total then resize p.buff total else p.buff
  b ← copy_body pf fuel total body (write_header pf roomy p.header (length body))
  done (total, record p { buff = b })

-- What a caller of `toByteBuf` sends.
abbrev pub sent_bytes : {M : Type 0} → ℕ × KitePacket M → List ℕ
sent_bytes (num, p) = take num p.buff.buff

-- The switch of `parseFrom`.
unfoldable pub kind_of_cmd : ℕ → Option Kind
kind_of_cmd cmd =
    if cmd == cmd_conn_auth
    then some conn_auth_ack
    else if cmd == cmd_message_store_ack
    then some message_store_ack
    else if cmd == cmd_tx_ack
    then some tx_ack_packet
    else if cmd == cmd_bytes_message
    then some bytes_message
    else if cmd == cmd_string_message
    then some string_message
    else if cmd == cmd_heartbeat
    then some heart_beat
    else none

-- The bytes that `ParseFromArray(buf, len)` is given; a negative length or one past the end is a
-- read out of bounds.
unfoldable pub slice : List ℕ → ℕ → Option (List ℕ)
slice buf len = if not_inside then none else some (take len buf)
  where
    not_inside : Bool
    not_inside = if is_negative32 len then true else ltb (length buf) len

-- `parseFrom` from the switch on: a body of `body_length` bytes, and then the setters.
unfoldable pub parse_body :
    {M : Type 0} → Codec M → KitePacket M → Header → List ℕ → ℕ → Outcome (Bool × KitePacket M)
unfolding slice
parse_body codec pkg h buf body_length = elim (kind_of_cmd h.cmd_type) [
  | none ↦ done (false, pkg)
  | some k ↦ or_fault (slice (drop packet_head_len buf) body_length) >>= λ body.
      done (true, record pkg { header = h; message = some (codec.parse k body) })
]

unfoldable pub parse_from :
    {M : Type 0} → Platform → Codec M → KitePacket M → List ℕ → ℕ → Outcome (Bool × KitePacket M)
unfolding parse_body
parse_from pf codec pkg buf pkglen = do
  opaque ← or_fault (read_int buf)
  cmd ← or_fault (read_byte (drop 4 buf))
  version ← or_fault (read_short (drop 5 buf))
  extension ← or_fault (read_long pf (drop 7 buf))
  body_length ← or_fault (read_int (drop 15 buf))
  let h : Header = record {
    opaque = opaque;
    cmd_type = cmd;
    version = version;
    extension = extension;
  }
  let parsed = parse_body codec pkg h buf body_length
  if slt32 (sub32 pkglen packet_head_len) body_length then done (false, pkg) else parsed

-- The loop of `delimPacket` at index `i`, with `bufsize - i` rounds left.
unfoldable pub delim_loop : List ℕ → ℕ → ℕ → Outcome ℕ
delim_loop buf zero i = done 0
delim_loop buf (suc left) i = do
  c1 ← or_fault (get_elem? buf (i - 1))
  c2 ← or_fault (get_elem? buf i)
  let rest = delim_loop buf left (i + 1) in if c1 == 13 && c2 == 10 then done (i + 1) else rest

unfoldable pub delim_packet : List ℕ → ℕ → Outcome ℕ
unfolding delim_loop
delim_packet buf bufsize = delim_loop buf (bufsize - 1) 1
