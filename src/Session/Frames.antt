-- ===== src/Session/Frames.antt =====
-- remoting/inc/asioSession.hpp: one frame through the two completion handlers.
use kiteq_client_cpp.Base.{
  ℕ, ◌+◌, ◌%◌, ◌^◌, ◌≤◌, ◌<◌, ◌≡◌, refl, ◌∙◌, Bool, true, Bool-cases, inl, inr, List, [], ◌++◌,
  length, arith, length-append, le→ltb, lt→ltb, le→leb, take-append_eq, drop-append_eq, ltb,
  if◌then◌else◌,
}
use kiteq_client_cpp.Base.Word.{int_to_size, slt32}
use kiteq_client_cpp.ByteBuf.{Platform}
use kiteq_client_cpp.ByteBuf.Fields.{int_bytes}
use kiteq_client_cpp.Protocol.{Codec, packet_head_len, max_packet_bytes}
use kiteq_client_cpp.KitePacket.{Header, KitePacket, Outcome, parse_from}
use kiteq_client_cpp.KitePacket.RoundTrip.{IsSendable}
use kiteq_client_cpp.Session.{
  Session, read_length, read_body, throws, success, packet_length, async_read_pkglen,
  async_read_pkgdata, after_parse, conn_step,
}
use kiteq_client_cpp.Session.Length.{
  IsPlain, length_field, packet_length-IsPlain, packet_length_negative,
}

int_to_size_negative : (x : ℕ) → 2 ^ 31 ≤ x → 2 ^ 63 ≤ int_to_size x
int_to_size_negative x h = ground arith

-- A header and a message that the session can take in: what `parseFrom` gives back, in a frame that
-- is short enough and whose length field has no byte with its sign bit set.
pub record IsReceivable {M : Type 0} (codec : Codec M) (h : Header) (m : M) : Type 0 where
  pub sendable : IsSendable codec h m
  pub narrow : h.extension < 2 ^ 32
  pub within : packet_head_len + length (codec.serialize m) < max_packet_bytes
  pub plain : (packet_head_len + length (codec.serialize m)) % 256 < 128

module _ {M : Type 0} where
  -- The session once a length field has been read.
  abbrev pub with_length : Session M → ℕ → Session M
  with_length s n = record s { pkglen = length_field n }

  -- The session after a packet was delivered: its buffer is empty again.
  abbrev pub delivered : ℕ → KitePacket M → Session M
  delivered n pkg = record { read_buffer = []; pkglen = length_field n; pkg = pkg }

module _ (pf : Platform) (max_size end_code : ℕ) {M : Type 0} (codec : Codec M) where
  pub length_step :
      (s : Session M) (n : ℕ) (rest : List ℕ)
      → conn_step pf max_size end_code codec s read_length (int_bytes n ++ rest) ≡ record {
        session = with_length s n;
        action =
            let len = int_to_size (packet_length (length_field n)) in
            if ltb max_size (length s.read_buffer + len) then throws else read_body len;
        stream = rest;
      }
  unfolding conn_step async_read_pkglen
  length_step s n rest =
      rw (le→leb 4 (length (int_bytes n ++ rest)) (omega arith))
        (elim (Bool-cases
          (ltb max_size (length s.read_buffer + int_to_size (packet_length (length_field n))))) [
            | inl e ↦ rw e
            | inr e ↦ rw e
          ])

  -- A length that is read back starts a read of that many bytes.
  pub length_step-IsPlain :
      (s : Session M) (n : ℕ) (rest : List ℕ)
      → n < 2 ^ 31
      → IsPlain n
      → length s.read_buffer + n ≤ max_size
      → conn_step pf max_size end_code codec s read_length (int_bytes n ++ rest)
        ≡ record { session = with_length s n; action = read_body n; stream = rest }
  length_step-IsPlain s n rest short p fits =
      length_step s n rest
      ∙ rw (
        packet_length-IsPlain n short p,
        le→leb_false,
        le→ltb max_size (length s.read_buffer + n) fits,
      )
    where
      le→leb_false : int_to_size n ≡ n
      le→leb_false = ground arith

  -- Any other length makes `prepare` throw.
  pub length_step-throws :
      (s : Session M) (n : ℕ) (rest : List ℕ)
      → max_size < 2 ^ 63
      → ¬ IsPlain n
      → conn_step pf max_size end_code codec s read_length (int_bytes n ++ rest)
        ≡ record { session = with_length s n; action = throws; stream = rest }
  length_step-throws s n rest bound odd =
      length_step s n rest
      ∙ rw (
          lt→ltb max_size (length s.read_buffer + int_to_size (packet_length (length_field n)))
            (omega (arith, int_to_size_negative _ (packet_length_negative n odd))))

  -- A read that the stream can fill completes with its first bytes.
  pub body_step :
      (s : Session M) (bytes rest : List ℕ)
      → conn_step pf max_size end_code codec s (read_body (length bytes)) (bytes ++ rest) ≡ (
          let r = async_read_pkgdata pf codec s success bytes in
          record { session = r.0; action = r.1; stream = rest })
  unfolding conn_step
  body_step s bytes rest = rw (
    le→leb (length bytes) (length (bytes ++ rest)) (omega (arith, length-append bytes rest)),
    take-append_eq (length bytes) bytes rest refl,
    drop-append_eq (length bytes) bytes rest refl,
  )

  -- The data handler on the whole body of a plain length, in a session with an empty buffer.
  pub pkgdata_lem :
      (s : Session M) (n : ℕ) (bytes : List ℕ) (r : Outcome (Bool × KitePacket M))
      → s.read_buffer ≡ []
      → n < max_packet_bytes
      → IsPlain n
      → parse_from pf codec s.pkg bytes n ≡ r
      → async_read_pkgdata pf codec (with_length s n) success bytes
        ≡ after_parse
            (record { read_buffer = bytes; pkglen = length_field n; pkg = s.pkg })
            (length bytes)
            n
            r
  unfolding async_read_pkgdata
  pkgdata_lem s n bytes r empty_buffer small p parsed =
      rw (packet_length-IsPlain n (omega arith) p, slt, empty_buffer, parsed)
    where
      slt : slt32 n max_packet_bytes ≡ true
      slt = ground arith
