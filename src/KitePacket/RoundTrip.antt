-- ===== src/KitePacket/RoundTrip.antt =====
-- protocol/KitePacket.cpp: `toByteBuf` and `parseFrom` together, and what `parseFrom` accepts.
use kiteq_client_cpp.Base.{
  ℕ, suc, ◌+◌, ◌^◌, ◌≤◌, ◌<◌, ◌≡◌, refl, ◌≢◌, ◌⊎◌, Bool, true, false, List, ◌++◌, some, length,
  take, drop, arith, take-length,
}
use kiteq_client_cpp.ByteBuf.{Platform, read_int}
use kiteq_client_cpp.ByteBuf.Fields.{int_bytes}
use kiteq_client_cpp.ByteBuf.Long.{read_long-long_bytes, read_long-lt}
use kiteq_client_cpp.Protocol.{Kind, Codec, packet_head_len}
use kiteq_client_cpp.KitePacket.{
  Header, KitePacket, done, new_packet, kind_of_cmd, slice, parse_body, parse_from, to_byte_buf,
  sent_bytes,
}
use kiteq_client_cpp.KitePacket.Encode.{frame, to_byte_buf_lem}
use kiteq_client_cpp.KitePacket.Decode.{IsHeader, with_extension, parse_from-known, read_long-some}

-- A header and a message that `parseFrom` can give back: the command is that of the message's
-- kind, and the sizes fit an `int`.
pub record IsSendable {M : Type 0} (codec : Codec M) (h : Header) (m : M) : Type 0 where
  pub is_header : IsHeader h
  pub whole : codec.IsWhole m
  pub same_kind : kind_of_cmd h.cmd_type ≡ some (codec.kind m)
  pub short : length (codec.serialize m) + 24 < 2 ^ 31

length-frame :
    (h : Header) (body : List ℕ) → length (frame h body) ≡ packet_head_len + length body + 4
length-frame h body = omega arith

module _ (pf : Platform) {M : Type 0} (codec : Codec M) where
  -- The bytes to send are the frame, neither more nor fewer.
  pub sent_bytes_lem :
      (fuel : ℕ) (h : Header) (m : M)
      → length (codec.serialize m) + 24 < 2 ^ 31
      → (r : ℕ × KitePacket M) × (to_byte_buf pf codec (suc fuel) (new_packet h m) ≡ done r)
        × (sent_bytes r ≡ frame h (codec.serialize m))
        × (r.0 ≡ packet_head_len + length (codec.serialize m) + 4)
  sent_bytes_lem fuel h m short =
      let (b, e, content) = to_byte_buf_lem pf codec fuel h m short in
      let n = packet_head_len + length (codec.serialize m) + 4 in
      let whole : take n (frame h (codec.serialize m)) ≡ frame h (codec.serialize m) =
        take-length n (frame h (codec.serialize m)) (omega arith) in
      ((n, record { header = h; message = some m; buff = b }), e, rw content whole, refl)

  -- For a message and a header that `parseFrom` can give back (known command of the message's
  -- kind, a message that the runtime parses back, sizes that fit an `int`), with an extension
  -- below 2^32 and oversized shifts of 0 that give 0, `toByteBuf` succeeds, and `parseFrom` on
  -- its bytes behind the length field, whatever follows them, stores that header and that
  -- message.
  pub parse_from-to_byte_buf :
      (fuel : ℕ) (h : Header) (m : M) (pkg : KitePacket M) (rest : List ℕ)
      → IsSendable codec h m
      → h.extension < 2 ^ 32
      → ((k : ℕ) → pf.oversize_shift 0 k ≡ 0)
      → (r : ℕ × KitePacket M) × (to_byte_buf pf codec (suc fuel) (new_packet h m) ≡ done r)
        × (parse_from pf codec pkg
              (drop 4 (sent_bytes r) ++ rest)
              (packet_head_len + length (codec.serialize m))
            ≡ done (true, record pkg { header = h; message = some m }))
  parse_from-to_byte_buf fuel h m pkg rest s small zero_shift =
      let (r, e, sent, _) = sent_bytes_lem fuel h m s.short in
      let body = codec.serialize m in
      let parsed =
        parse_from-known pf codec pkg h h.extension (codec.kind m) body rest s.is_header s.short
          (read_long-long_bytes pf h.extension _ zero_shift small) s.same_kind in
      (r, e, rw sent (rw (codec.parse-serialize m s.whole) at parsed))

  -- For a message and a header that `parseFrom` can otherwise give back, with an extension of
  -- 2^32 or more, `parseFrom` on the bytes of `toByteBuf` accepts and stores the message and
  -- the rest of the header, but another extension.
  pub parse_from-wide_extension :
      (fuel : ℕ) (h : Header) (m : M) (pkg : KitePacket M) (rest : List ℕ)
      → IsSendable codec h m
      → 2 ^ 32 ≤ h.extension
      → (r : ℕ × KitePacket M) × (v : ℕ) × (to_byte_buf pf codec (suc fuel) (new_packet h m)
          ≡ done r)
        × (parse_from pf codec pkg
              (drop 4 (sent_bytes r) ++ rest)
              (packet_head_len + length (codec.serialize m))
            ≡ done (true, record pkg { header = with_extension h v; message = some m }))
        × (v ≢ h.extension)
  parse_from-wide_extension fuel h m pkg rest s wide =
      let (r, e, sent, _) = sent_bytes_lem fuel h m s.short in
      let body = codec.serialize m in
      let (v, long_read) =
        read_long-some pf h.extension (int_bytes (length body) ++ body ++ rest) in
      let parsed =
        parse_from-known pf codec pkg h v (codec.kind m) body rest s.is_header s.short long_read
          s.same_kind in
      let narrow = read_long-lt pf _ v long_read in
      (r, v, e, rw sent (rw (codec.parse-serialize m s.whole) at parsed), omega arith)

  -- Whenever `parseFrom` returns without reading out of bounds, on any bytes and with any
  -- length below 2^31, either it refuses and leaves the packet as it was, or it accepts a known
  -- command, the body's length is the one in the head, the body behind the 19 bytes of the head
  -- fits within the given length, and the message is parsed from exactly these bytes.
  pub parse_from_cases :
      (pkg q : KitePacket M) (buf : List ℕ) (pkglen : ℕ) (accepted : Bool)
      → pkglen < 2 ^ 31
      → parse_from pf codec pkg buf pkglen ≡ done (accepted, q)
      → ((accepted ≡ false) × (q ≡ pkg))
        ⊎ ((n : ℕ) × (k : Kind) × (accepted ≡ true)
            × (kind_of_cmd q.header.cmd_type ≡ some k)
            × (read_int (drop 15 buf) ≡ some n)
            × (packet_head_len + n ≤ pkglen)
            × (q.message ≡ some (codec.parse k (take n (drop packet_head_len buf))))
            × (q.buff ≡ pkg.buff))
  unfolding parse_from parse_body slice
  parse_from_cases pkg q buf pkglen accepted small e = ground arith
