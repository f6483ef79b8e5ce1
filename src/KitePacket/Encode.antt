-- ===== src/KitePacket/Encode.antt =====
-- protocol/KitePacket.cpp, `toByteBuf`: the frame that a packet is sent as.
use kiteq_client_cpp.Base.{
  ℕ, suc, ◌+◌, ◌^◌, ◌≤◌, ◌<◌, ◌≡◌, ap, ◌∙◌, List, [], ◌∷◌, ◌++◌, some, length, arith, append_assoc,
  lt→ltb, ltb, if◌then◌else◌,
}
use kiteq_client_cpp.ByteBuf.{ByteBuf, Platform, empty, size, resize, get_write_ptr}
use kiteq_client_cpp.ByteBuf.Fields.{short_bytes, int_bytes, long_bytes}
use kiteq_client_cpp.ByteBuf.Appends.{
  Appends, Appends-trans, write_byte-Appends, write_short-Appends, write_int-Appends,
  write_long-Appends, write_bytes-Appends,
}
use kiteq_client_cpp.Protocol.{Codec, packet_head_len}
use kiteq_client_cpp.KitePacket.{Header, done, new_packet, copy_body, write_header, to_byte_buf}

-- The 19 bytes that the packet's own length counts before the body.
abbrev pub head_bytes : Header → ℕ → List ℕ
head_bytes h n =
    int_bytes h.opaque
    ++ h.cmd_type ∷ short_bytes h.version
    ++ long_bytes h.extension
    ++ int_bytes n

-- The packet on the wire: a length, the head, the body.
abbrev pub frame : Header → List ℕ → List ℕ
frame h body = int_bytes (packet_head_len + length body) ++ head_bytes h (length body) ++ body

module _ (pf : Platform) where
  write_header-Appends :
      (b : ByteBuf) (h : Header) (n : ℕ)
      → Appends b (int_bytes (packet_head_len + n) ++ head_bytes h n) (write_header pf b h n)
  unfolding write_header
  write_header-Appends b h n =
      Appends-trans _ (int_bytes n)
        (Appends-trans _ (long_bytes h.extension)
          (Appends-trans _ (short_bytes h.version)
            (Appends-trans _ (h.cmd_type ∷ [])
              (Appends-trans _ (int_bytes h.opaque) (write_int-Appends pf b (packet_head_len + n))
                (write_int-Appends pf _ h.opaque))
              (write_byte-Appends pf _ h.cmd_type))
            (write_short-Appends pf _ h.version))
          (write_long-Appends pf _ h.extension))
        (write_int-Appends pf _ n)

  get_write_ptr_lem :
      (b : ByteBuf) (n : ℕ)
      → n < 2 ^ 31
      → b.writer_index < 2 ^ 31
      → b.writer_index + n ≤ b.capacity
      → b.capacity < b.writer_index + 2 ^ 31
      → get_write_ptr b n ≡ some b.writer_index
  unfolding get_write_ptr
  get_write_ptr_lem b n short index fits small = ground arith

  -- With room behind the writer index the loop ends in its first round.
  copy_body_lem :
      (fuel total : ℕ) (body : List ℕ) (b : ByteBuf)
      → length body < 2 ^ 31
      → b.writer_index < 2 ^ 31
      → b.writer_index + length body ≤ b.capacity
      → b.capacity < b.writer_index + 2 ^ 31
      → (b' : ByteBuf) × (copy_body pf (suc fuel) total body b ≡ done b') × Appends b body b'
  unfolding copy_body
  copy_body_lem fuel total body b short index fits small =
      let (b', e, a) = write_bytes-Appends pf b body (omega (arith, index)) short in
      (b', rw (get_write_ptr_lem b (length body) short index fits small, copy_body) (rw e), a)

  roomy_lem :
      (total : ℕ)
      → 0 < total
      → (if ltb (size empty) total then resize empty total else empty) ≡ resize empty total
  unfolding size empty
  roomy_lem total pos = rw (lt→ltb 0 total pos)

  -- The header goes into a fresh buffer with no reallocation.
  write_header_fresh :
      (h : Header) (n total : ℕ)
      → 23 ≤ total
      → let b = write_header pf (resize empty total) h n in
        (b.buff ≡ int_bytes (packet_head_len + n) ++ head_bytes h n)
        × (b.writer_index ≡ 23)
        × (b.capacity ≡ total + 1)
  unfolding resize empty
  write_header_fresh h n total le =
      let a = write_header-Appends (resize empty total) h n in
      (a.content, a.writer, a.room (omega arith) ∙ omega arith)

  module _ {M : Type 0} (codec : Codec M) where
    -- A fresh packet is encoded in one round of the loop: the bytes to send are its frame, and
    -- nothing of the packet but the buffer changes.
    pub to_byte_buf_lem :
        (fuel : ℕ) (h : Header) (m : M)
        → let body = codec.serialize m in
          length body + 24 < 2 ^ 31
          → (b : ByteBuf) × (to_byte_buf pf codec (suc fuel) (new_packet h m)
              ≡ done (
                packet_head_len + length body + 4,
                record { header = h; message = some m; buff = b },
              ))
            × (b.buff ≡ frame h body)
    unfolding to_byte_buf new_packet
    to_byte_buf_lem fuel h m short =
        let body = codec.serialize m in
        let total = packet_head_len + length body + 4 in
        let b = write_header pf (resize empty total) h (length body) in
        let fresh = write_header_fresh h (length body) total (omega arith) in
        let (b', e, a) =
          copy_body_lem fuel total body b (omega arith) (omega arith) (omega arith) (omega arith) in
        (
          b',
          rw (roomy_lem total (omega arith)) (rw e),
          a.content
              ∙ ap (λ xs. xs ++ body) fresh.0
              ∙ append_assoc (int_bytes (packet_head_len + length body))
                  (head_bytes h (length body)) body,
        )
