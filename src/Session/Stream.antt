-- ===== src/Session/Stream.antt =====
-- remoting/inc/asioSession.hpp: many frames in one connection, from one end to the other.
use kiteq_client_cpp.Base.{
  ℕ, zero, suc, ◌+◌, ◌*◌, ◌%◌, ◌^◌, ◌≤◌, ◌<◌, ◌≡◌, refl, ap, ◌∙◌, Bool, true, List, [], ◌∷◌, ◌++◌,
  Option, none, some, length, drop, arith, drop-length, append-nil, map, All,
}
use kiteq_client_cpp.Base.Word.{int_to_size, slt32}
use kiteq_client_cpp.ByteBuf.{Platform, ByteBuf}
use kiteq_client_cpp.ByteBuf.Fields.{int_bytes}
use kiteq_client_cpp.ByteBuf.Long.{read_long-long_bytes}
use kiteq_client_cpp.Protocol.{Codec, packet_head_len, max_packet_bytes}
use kiteq_client_cpp.KitePacket.{Header, KitePacket, Outcome, done, new_packet, ◌>>=◌, parse_from}
use kiteq_client_cpp.KitePacket.RoundTrip.{sent_bytes_lem}
use kiteq_client_cpp.KitePacket.Encode.{frame, head_bytes}
use kiteq_client_cpp.KitePacket.Decode.{parse_from-known}
use kiteq_client_cpp.Session.{
  Session, read_length, read_body, success, failure, Conn, ended, async_write, async_read_pkgdata,
  async_read_pkglen, after_parse, conn_step, receive_all,
}
use kiteq_client_cpp.Session.Length.{IsPlain, length_field}
use kiteq_client_cpp.Session.Frames.{
  IsReceivable, with_length, delivered, length_step-IsPlain, body_step, pkgdata_lem,
}

IsPlain-short : (n : ℕ) → n < max_packet_bytes → n % 256 < 128 → IsPlain n
IsPlain-short n h p = record { small2 = omega arith; small1 = omega arith; small0 = p }

consumed :
    (n : ℕ) (bytes : List ℕ)
    → length bytes ≡ n
    → n < max_packet_bytes
    → drop (int_to_size n) bytes ≡ []
consumed n bytes long small = drop-length (int_to_size n) bytes (ground arith)

-- What the peer sends for a list of messages, and what is to be delivered for it into a packet whose
-- own buffer is `buff`.
abbrev pub frames : {M : Type 0} → Codec M → List (Header × M) → List ℕ
frames codec [] = []
frames codec ((h, m) ∷ ms) = frame h (codec.serialize m) ++ frames codec ms

abbrev pub packets : {M : Type 0} → ByteBuf → List (Header × M) → List (KitePacket M)
packets buff = map (λ hm. record { header = hm.0; message = some hm.1; buff = buff })

module _ (pf : Platform) (max_size end_code : ℕ) {M : Type 0} (codec : Codec M) where
  pub length_read :
      (fuel : ℕ) (s : Session M) (stream : List ℕ) {c : Conn M}
      → conn_step pf max_size end_code codec s read_length stream ≡ c
      → receive_all pf max_size end_code codec (suc fuel) s read_length stream
        ≡ receive_all pf max_size end_code codec fuel c.session c.action c.stream
  unfolding receive_all
  length_read fuel s stream e =
      ap (λ c. receive_all pf max_size end_code codec fuel c.session c.action c.stream) e

  pub body_read :
      (fuel n : ℕ) (s : Session M) (stream : List ℕ) {c : Conn M}
      → conn_step pf max_size end_code codec s (read_body n) stream ≡ c
      → receive_all pf max_size end_code codec (suc fuel) s (read_body n) stream
        ≡ receive_all pf max_size end_code codec fuel c.session c.action c.stream
  unfolding receive_all
  body_read fuel n s stream e =
      ap (λ c. receive_all pf max_size end_code codec fuel c.session c.action c.stream) e

  -- A frame that `parseFrom` has answered with `r` takes two steps, and leaves `after_parse`.
  pub frame_steps :
      (fuel : ℕ) (s : Session M) (n : ℕ) (bytes rest : List ℕ) (r : Outcome (Bool × KitePacket M))
      → length bytes ≡ n
      → s.read_buffer ≡ []
      → n < max_packet_bytes
      → n % 256 < 128
      → n ≤ max_size
      → parse_from pf codec s.pkg bytes n ≡ r
      → receive_all pf max_size end_code codec
          (suc (suc fuel))
          s
          read_length
          (int_bytes n ++ bytes ++ rest)
        ≡ (let next =
              after_parse
                (record { read_buffer = bytes; pkglen = length_field n; pkg = s.pkg })
                n
                n
                r in
            receive_all pf max_size end_code codec fuel next.0 next.1 rest)
  frame_steps fuel s n bytes rest r long empty_buffer small plain room parsed =
      let p = IsPlain-short n small plain in
      let first =
        length_step-IsPlain pf max_size end_code codec s n (bytes ++ rest) (omega arith) p
          (rw empty_buffer (omega arith)) in
      let second = body_step pf max_size end_code codec (with_length s n) bytes rest in
      let handled : async_read_pkgdata pf codec (with_length s n) success bytes
          ≡ after_parse (record { read_buffer = bytes; pkglen = length_field n; pkg = s.pkg }) n n
              r =
        rw long at
          (pkgdata_lem pf max_size end_code codec s n bytes r empty_buffer small p parsed) in
      length_read (suc fuel) s _ first
      ∙ body_read fuel n (with_length s n) (bytes ++ rest) (
          (rw long at second)
          ∙ ap (λ q. record { session = q.0; action = q.1; stream = rest }) handled)

  -- What the peer wrote for a receivable message is delivered as that message; the session is then
  -- ready for the next frame.
  frame-delivered :
      (fuel : ℕ) (s : Session M) (h : Header) (m : M) (rest : List ℕ)
      → IsReceivable codec h m
      → s.read_buffer ≡ []
      → ((k : ℕ) → pf.oversize_shift 0 k ≡ 0)
      → max_packet_bytes ≤ max_size
      → let pkg : KitePacket M = record s.pkg { header = h; message = some m } in
        let n = packet_head_len + length (codec.serialize m) in
        let later =
          receive_all pf max_size end_code codec fuel (delivered n pkg) read_length rest in
        receive_all pf max_size end_code codec
          (suc (suc (suc fuel)))
          s
          read_length
          (frame h (codec.serialize m) ++ rest)
        ≡ (pkg ∷ later.0, later.1)
  unfolding after_parse receive_all
  frame-delivered fuel s h m rest v empty_buffer zero_shift room =
      let body = codec.serialize m in
      let n = packet_head_len + length body in
      let bytes : List ℕ = head_bytes h (length body) ++ body in
      let parsed =
        parse_from-known pf codec s.pkg h h.extension (codec.kind m) body [] v.sendable.is_header
          v.sendable.short (read_long-long_bytes pf h.extension _ zero_shift v.narrow)
          v.sendable.same_kind in
      let parsed' =
        rw (append-nil body) at (rw (codec.parse-serialize m v.sendable.whole) at parsed) in
      frame_steps (suc fuel) s n bytes rest _ (omega arith) empty_buffer v.within v.plain
        (omega (arith, v.within)) parsed'
      ∙ ap
          (λ b.
            let later =
              receive_all pf max_size end_code codec fuel
                (record {
                  read_buffer = b;
                  pkglen = length_field n;
                  pkg = record s.pkg { header = h; message = some m };
                })
                read_length rest in
            (record s.pkg { header = h; message = some m } ∷ later.0, later.1))
          (consumed n bytes (omega arith) v.within)

  nothing_left :
      (fuel : ℕ) (s : Session M)
      → receive_all pf max_size end_code codec (suc (suc fuel)) s read_length []
        ≡ ([], ended (failure end_code))
  unfolding receive_all async_read_pkglen
  nothing_left fuel s = refl

  -- A connection on which only receivable messages come delivers each of them, once and in order,
  -- and then reports the end of the stream to the handler. Three steps for each frame and two for
  -- the end are enough.
  pub receive_all-frames :
      (ms : List (Header × M)) (fuel : ℕ) (s : Session M)
      → All (λ hm. IsReceivable codec hm.0 hm.1) ms
      → 3 * length ms + 2 ≤ fuel
      → s.read_buffer ≡ []
      → ((k : ℕ) → pf.oversize_shift 0 k ≡ 0)
      → max_packet_bytes ≤ max_size
      → receive_all pf max_size end_code codec fuel s read_length (frames codec ms)
        ≡ (packets s.pkg.buff ms, ended (failure end_code))
  receive_all-frames [] zero s v enough e z room = absurd (omega arith)
  receive_all-frames [] (suc zero) s v enough e z room = absurd (omega arith)
  receive_all-frames [] (suc (suc fuel)) s v enough e z room = nothing_left fuel s
  receive_all-frames ((h, m) ∷ ms) zero s v enough e z room = absurd (omega arith)
  receive_all-frames ((h, m) ∷ ms) (suc zero) s v enough e z room = absurd (omega arith)
  receive_all-frames ((h, m) ∷ ms) (suc (suc zero)) s v enough e z room = absurd (omega arith)
  receive_all-frames ((h, m) ∷ ms) (suc (suc (suc fuel))) s v enough e z room =
      let pkg : KitePacket M = record s.pkg { header = h; message = some m } in
      let next = delivered (packet_head_len + length (codec.serialize m)) pkg in
      frame-delivered fuel s h m (frames codec ms) v.0 e z room
      ∙ ap (λ r. (pkg ∷ r.0, r.1)) (receive_all-frames ms fuel next v.1 (omega arith) refl z room)

-- The bytes that one end sends for a list of messages, each in a packet of its own.
abbrev given : Option (List ℕ) → List ℕ
given none = []
given (some bytes) = bytes

unfoldable pub send_all :
    {M : Type 0} → Platform → Codec M → ℕ → List (Header × M) → Outcome (List ℕ)
send_all pf codec fuel [] = done []
send_all pf codec fuel ((h, m) ∷ ms) =
    let rest = send_all pf codec fuel ms in
    async_write pf codec fuel (new_packet h m) >>= λ r. rest >>= λ bytes. done (given r.0 ++ bytes)

pub async_write_lem :
    {M : Type 0} (pf : Platform) (codec : Codec M) (fuel : ℕ) (h : Header) (m : M)
    → length (codec.serialize m) + 24 < 2 ^ 31
    → (p : KitePacket M) × (async_write pf codec (suc fuel) (new_packet h m)
        ≡ done (some (frame h (codec.serialize m)), p))
unfolding async_write
async_write_lem pf codec fuel h m short =
    let (r, e, sent, num) = sent_bytes_lem pf codec fuel h m short in
    let positive : slt32 0 r.0 ≡ true = rw num (ground arith) in (r.1, rw e (rw (positive, sent)))

send_all-frames :
    {M : Type 0} (pf : Platform) (codec : Codec M) (fuel : ℕ) (ms : List (Header × M))
    → All (λ hm. IsReceivable codec hm.0 hm.1) ms
    → send_all pf codec (suc fuel) ms ≡ done (frames codec ms)
unfolding send_all
send_all-frames pf codec fuel [] v = refl
send_all-frames pf codec fuel ((h, m) ∷ ms) v =
    let (p, e) = async_write_lem pf codec fuel h m v.0.sendable.short in
    rw (e, send_all-frames pf codec fuel ms v.1)

-- From one end to the other: what `async_write` sends for a list of messages is received as
-- those messages, once each and in order, and then the end of the stream is reported, if
-- `parseFrom` can give each of them and its header back, each extension is below 2^32, each
-- frame is below the maximal size and no byte of its length field has its sign bit set, the
-- receiving session's buffer is empty, an oversized shift of 0 gives 0, and the stream buffer
-- may hold a packet of the maximal size. One round of the sender's loop for each packet is
-- enough, and three steps of the receiver for each and two for the end.
pub receive_all-send_all :
    {M : Type 0} (pf : Platform) (max_size end_code : ℕ) (codec : Codec M) (ms : List (Header × M))
    (s : Session M)
    → All (λ hm. IsReceivable codec hm.0 hm.1) ms
    → s.read_buffer ≡ []
    → ((k : ℕ) → pf.oversize_shift 0 k ≡ 0)
    → max_packet_bytes ≤ max_size
    → (stream : List ℕ) × (send_all pf codec 1 ms ≡ done stream)
      × (receive_all pf max_size end_code codec (3 * length ms + 2) s read_length stream
          ≡ (packets s.pkg.buff ms, ended (failure end_code)))
receive_all-send_all pf max_size end_code codec ms s v e z room = (
  frames codec ms,
  send_all-frames pf codec 0 ms v,
  receive_all-frames pf max_size end_code codec ms (3 * length ms + 2) s v (omega arith) e z room,
)
