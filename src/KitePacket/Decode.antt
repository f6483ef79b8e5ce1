-- ===== src/KitePacket/Decode.antt =====
-- protocol/KitePacket.cpp, `parseFrom`: what it makes of the bytes of a frame.
use kiteq_client_cpp.Base.{
  ℕ, ◌+◌, ◌^◌, ◌<◌, ◌≡◌, refl, ap, ◌∙◌, true, false, List, ◌++◌, none, some, length, drop, arith,
  length-append, le→ltb, lt→leb, take-append_eq,
}
use kiteq_client_cpp.Base.Word.{slt32, sub32}
use kiteq_client_cpp.ByteBuf.{Platform, read_byte, read_short, read_int, read_long}
use kiteq_client_cpp.ByteBuf.Fields.{
  int_bytes, long_bytes, read_int-int_bytes, read_short-short_bytes,
}
use kiteq_client_cpp.Protocol.{Kind, Codec, packet_head_len}
use kiteq_client_cpp.KitePacket.{
  Header, KitePacket, done, kind_of_cmd, slice, parse_body, parse_from,
}
use kiteq_client_cpp.KitePacket.Encode.{head_bytes}

-- The header's values fit the types of its getters: `int`, `char`, `short`, `long`.
pub record IsHeader (h : Header) : Type 0 where
  pub opaque_fits : h.opaque < 2 ^ 32
  pub cmd_fits : h.cmd_type < 2 ^ 8
  pub version_fits : h.version < 2 ^ 16
  pub extension_fits : h.extension < 2 ^ 64

-- The header that is read back, `v` being what `readLong` makes of the extension.
abbrev pub with_extension : Header → ℕ → Header
with_extension h v = record h { extension = v }

module _ (pf : Platform) {M : Type 0} (codec : Codec M) where
  -- The five reads of the head, and the length test passed.
  parse_from-head :
      (pkg : KitePacket M) (h : Header) (v : ℕ) (body rest : List ℕ)
      → IsHeader h
      → length body + 24 < 2 ^ 31
      → read_long pf (long_bytes h.extension ++ int_bytes (length body) ++ body ++ rest) ≡ some v
      → let buf = head_bytes h (length body) ++ body ++ rest in
        parse_from pf codec pkg buf (packet_head_len + length body)
        ≡ parse_body codec pkg (with_extension h v) buf (length body)
  unfolding parse_from
  parse_from-head pkg h v body rest fits short long_read =
      let n = length body in
      let buf : List ℕ = head_bytes h n ++ body ++ rest in
      let e1 : read_int buf ≡ some h.opaque = read_int-int_bytes h.opaque _ fits.opaque_fits in
      let e2 : read_byte (drop 4 buf) ≡ some h.cmd_type = unfold read_byte in refl in
      let e3 : read_short (drop 5 buf) ≡ some h.version =
        read_short-short_bytes h.version _ fits.version_fits in
      let e4 : read_long pf (drop 7 buf) ≡ some v = long_read in
      let e5 : read_int (drop 15 buf) ≡ some n =
        read_int-int_bytes n (body ++ rest) (omega arith) in
      let e6 : slt32 (sub32 (packet_head_len + n) packet_head_len) n ≡ false = ground arith in
      rw (e1, e2, e3, e4, e5, e6)

  slice-append :
      (body rest : List ℕ)
      → length body + 24 < 2 ^ 31
      → slice (body ++ rest) (length body) ≡ some body
  unfolding slice
  slice-append body rest short =
      rw
        (
          lt→leb (2 ^ 31) (length body) (omega arith),
          le→ltb (length (body ++ rest)) (length body) (omega (arith, length-append body rest)),
        )
        (ap some (take-append_eq (length body) body rest refl))

  -- A frame of a known command is parsed to its header and its message, and what follows it does
  -- not matter.
  pub parse_from-known :
      (pkg : KitePacket M) (h : Header) (v : ℕ) (k : Kind) (body rest : List ℕ)
      → IsHeader h
      → length body + 24 < 2 ^ 31
      → read_long pf (long_bytes h.extension ++ int_bytes (length body) ++ body ++ rest) ≡ some v
      → kind_of_cmd h.cmd_type ≡ some k
      → parse_from pf codec pkg
          (head_bytes h (length body) ++ body ++ rest)
          (packet_head_len + length body)
        ≡ done
            (true, record pkg { header = with_extension h v; message = some (codec.parse k body) })
  unfolding parse_body
  parse_from-known pkg h v k body rest fits short long_read known =
      parse_from-head pkg h v body rest fits short long_read
      ∙ rw (known, parse_body) (rw (slice-append body rest short))

  -- A frame of any other command is refused, and the packet stays as it was.
  pub parse_from-unknown :
      (pkg : KitePacket M) (h : Header) (v : ℕ) (body rest : List ℕ)
      → IsHeader h
      → length body + 24 < 2 ^ 31
      → read_long pf (long_bytes h.extension ++ int_bytes (length body) ++ body ++ rest) ≡ some v
      → kind_of_cmd h.cmd_type ≡ none
      → parse_from pf codec pkg
          (head_bytes h (length body) ++ body ++ rest)
          (packet_head_len + length body)
        ≡ done (false, pkg)
  unfolding parse_body
  parse_from-unknown pkg h v body rest fits short long_read unknown =
      parse_from-head pkg h v body rest fits short long_read ∙ rw (unknown, parse_body)

-- `readLong` always returns something on a frame.
pub read_long-some :
    (pf : Platform) (i : ℕ) (rest : List ℕ)
    → (v : ℕ) × (read_long pf (long_bytes i ++ rest) ≡ some v)
unfolding read_long
read_long-some pf i rest = (_, refl)
