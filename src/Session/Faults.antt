-- ===== src/Session/Faults.antt =====
-- remoting/inc/asioSession.hpp: the frames that the session does not deliver as they were sent.
use kiteq_client_cpp.Base.{
  ℕ, suc, ◌+◌, ◌%◌, ◌^◌, ◌≤◌, ◌<◌, ◌≡◌, ap, ◌∙◌, false, List, [], ◌∷◌, ◌++◌, none, length, arith,
  drop-length, append-nil,
}
use kiteq_client_cpp.Base.Word.{slt32}
use kiteq_client_cpp.ByteBuf.{Platform}
use kiteq_client_cpp.ByteBuf.Fields.{int_bytes}
use kiteq_client_cpp.Protocol.{Codec, packet_head_len, max_packet_bytes}
use kiteq_client_cpp.KitePacket.{Header, kind_of_cmd}
use kiteq_client_cpp.KitePacket.Encode.{frame, head_bytes}
use kiteq_client_cpp.KitePacket.Decode.{IsHeader, parse_from-unknown, read_long-some}
use kiteq_client_cpp.Session.{
  Session, read_length, threw, async_read_pkgdata, after_parse, receive_all,
}
use kiteq_client_cpp.Session.Length.{IsPlain, length_field, packet_length-IsPlain}
use kiteq_client_cpp.Session.Frames.{
  with_length, delivered, length_step-IsPlain, length_step-throws, body_step,
}
use kiteq_client_cpp.Session.Stream.{length_read, body_read, frame_steps}

module _ (pf : Platform) (max_size : ℕ) (end_code : ℕ) {M : Type 0} (codec : Codec M) where
  -- A frame below the maximal packet size whose command `parseFrom` does not know, whose length
  -- field is read back, and that comes when the buffer is empty, is skipped: the handler is not
  -- called, the packet stays as it was, the buffer is empty again, and the next length is read.
  pub frame-skipped :
      (fuel : ℕ) (s : Session M) (h : Header) (body rest : List ℕ)
      → IsHeader h
      → kind_of_cmd h.cmd_type ≡ none
      → packet_head_len + length body < max_packet_bytes
      → (packet_head_len + length body) % 256 < 128
      → max_packet_bytes ≤ max_size
      → s.read_buffer ≡ []
      → receive_all pf max_size end_code codec (suc (suc fuel)) s read_length (frame h body ++ rest)
        ≡ receive_all pf max_size end_code codec fuel
            (delivered (packet_head_len + length body) s.pkg)
            read_length
            rest
  unfolding after_parse
  frame-skipped fuel s h body rest fits unknown within plain room empty_buffer =
      let n = packet_head_len + length body in
      let bytes : List ℕ = head_bytes h (length body) ++ body in
      let (v, long_read) = read_long-some pf h.extension (int_bytes (length body) ++ body ++ []) in
      let parsed =
        parse_from-unknown pf codec s.pkg h v body [] fits (omega arith) long_read unknown in
      frame_steps pf max_size end_code codec fuel s n bytes rest _ (omega arith) empty_buffer within
        plain (omega arith) (rw (append-nil body) at parsed)
      ∙ ap
          (λ b.
            receive_all pf max_size end_code codec fuel
              (record { read_buffer = b; pkglen = length_field n; pkg = s.pkg }) read_length rest)
          (drop-length n bytes (omega arith))

  -- If one of the lower three bytes of a frame's length field has its sign bit set and the
  -- stream buffer's maximum is below 2^63, the session delivers nothing and an exception leaves
  -- the handler.
  pub frame-throws :
      (fuel : ℕ) (s : Session M) (h : Header) (body rest : List ℕ)
      → max_size < 2 ^ 63
      → ¬ IsPlain (packet_head_len + length body)
      → receive_all pf max_size end_code codec (suc (suc fuel)) s read_length (frame h body ++ rest)
        ≡ ([], threw)
  unfolding receive_all
  frame-throws fuel s h body rest bound odd =
      let n = packet_head_len + length body in
      let behind : List ℕ = head_bytes h (length body) ++ body ++ rest in
      length_read pf max_size end_code codec (suc fuel) s (int_bytes n ++ behind)
        (length_step-throws pf max_size end_code codec s n behind bound odd)

  -- For a frame of the maximal packet size or more that fits the stream buffer and whose length
  -- field is read back, the handler is called with no error and with the packet that was there
  -- before, and the frame's bytes stay in the buffer in front of the next frame.
  pub frame-oversized :
      (fuel : ℕ) (s : Session M) (n : ℕ) (bytes rest : List ℕ)
      → length bytes ≡ n
      → max_packet_bytes ≤ n
      → n < 2 ^ 31
      → IsPlain n
      → length s.read_buffer + n ≤ max_size
      → let stale : Session M = record {
        read_buffer = s.read_buffer ++ bytes;
        pkglen = length_field n;
        pkg = s.pkg;
      } in
        let later = receive_all pf max_size end_code codec fuel stale read_length rest in
        receive_all pf max_size end_code codec
          (suc (suc (suc fuel)))
          s
          read_length
          (int_bytes n ++ bytes ++ rest)
        ≡ (s.pkg ∷ later.0, later.1)
  unfolding receive_all async_read_pkgdata
  frame-oversized fuel s n bytes rest long big small p room =
      let first = length_step-IsPlain pf max_size end_code codec s n (bytes ++ rest) small p room in
      let second = body_step pf max_size end_code codec (with_length s n) bytes rest in
      let over : slt32 n max_packet_bytes ≡ false = ground arith in
      length_read pf max_size end_code codec (suc (suc fuel)) s (int_bytes n ++ bytes ++ rest) first
      ∙ body_read pf max_size end_code codec (suc fuel) n (with_length s n) (bytes ++ rest)
          (rw long at second)
      ∙ rw (packet_length-IsPlain n small p, over)
