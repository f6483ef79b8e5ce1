-- ===== src/Session.antt =====
-- remoting/inc/asioSession.hpp: reading packets from a socket, a length and then that many bytes.
-- The socket is the bytes that the peer sends before the connection ends. `asio::async_read` into n
-- bytes completes with n bytes and no error, or with an error and what was there (its documentation).
pub mod Length
pub mod Frames
pub mod Stream
pub mod Faults
use kiteq_client_cpp.Base.{
  ℕ, zero, suc, ◌+◌, ◌*◌, ◌^◌, ◌<◌, Bool, true, false, not, List, [], ◌∷◌, ◌++◌, Option, none, some,
  bit_or, length, take, drop, get_elem?, ltb, leb, if◌then◌else◌,
}
use kiteq_client_cpp.Base.Word.{char_to_int, shl32, slt32, int_to_size}
use kiteq_client_cpp.ByteBuf.{Platform}
use kiteq_client_cpp.Protocol.{Codec}
use kiteq_client_cpp.KitePacket.{
  KitePacket, Outcome, done, fault, out_of_fuel, ◌>>=◌, parse_from, to_byte_buf, sent_bytes,
  get_max_frame_length,
}

-- `boost::system::error_code`: it converts to true if it is an error.
pub data ErrorCode : Type 0 where
  success : ErrorCode
  failure : ℕ → ErrorCode

-- `char pkglen[4]`.
pub record Pkglen : Type 0 where
  pub c0 : ℕ
  pub c1 : ℕ
  pub c2 : ℕ
  pub c3 : ℕ

-- `read_buffer` is the streambuf's committed bytes, `pkg` the packet that the reads fill.
pub record Session (M : Type 0) : Type 0 where
  pub read_buffer : List ℕ
  pub pkglen : Pkglen
  pub pkg : KitePacket M

-- The constructor: the stream buffer is empty; `pkglen` holds what was there, and the packet is that
-- of the client that reads.
unfoldable pub new_session : {M : Type 0} → Pkglen → KitePacket M → Session M
new_session p pkg = record { read_buffer = []; pkglen = p; pkg = pkg }

-- What a completion handler does last: it starts a read, calls `handle`, throws, or has undefined
-- behaviour.
pub data Action : Type 0 where
  read_length : Action
  read_body : ℕ → Action
  handle : ErrorCode → ℕ → Action
  throws undefined : Action

-- The four bytes that a read of the length leaves in `pkglen`.
unfoldable pub fill : List ℕ → Pkglen → Pkglen
fill (b0 ∷ b1 ∷ b2 ∷ b3 ∷ rest) p = record { c0 = b0; c1 = b1; c2 = b2; c3 = b3 }
fill (b0 ∷ b1 ∷ b2 ∷ []) p = record p { c0 = b0; c1 = b1; c2 = b2 }
fill (b0 ∷ b1 ∷ []) p = record p { c0 = b0; c1 = b1 }
fill (b0 ∷ []) p = record p { c0 = b0 }
fill [] p = p

-- `pkglen[0]<<24 | pkglen[1]<<16 | pkglen[2]<<8 | pkglen[3]`, with no mask.
unfoldable pub packet_length : Pkglen → ℕ
packet_length p =
    bit_or
      (bit_or (bit_or (shl32 (char_to_int p.c0) 24) (shl32 (char_to_int p.c1) 16))
        (shl32 (char_to_int p.c2) 8))
      (char_to_int p.c3)

-- `async_write` and `write`: the bytes that asio is given, if any, and the packet afterwards.
unfoldable pub async_write :
    {M : Type 0} → Platform → Codec M → ℕ → KitePacket M → Outcome (Option (List ℕ) × KitePacket M)
async_write pf codec fuel p = do
  r ← to_byte_buf pf codec fuel p
  done (if slt32 0 r.0 then some (sent_bytes r) else none, r.1)

unfoldable pub write :
    {M : Type 0} → Platform → Codec M → ℕ → KitePacket M → Outcome (List ℕ × KitePacket M)
write pf codec fuel p = do r ← to_byte_buf pf codec fuel p; done (sent_bytes r, r.1)

-- The end of a write: the handler is called with its result.
unfoldable pub async_write_complete : ErrorCode → ℕ → Action
async_write_complete e bytes_transferred = handle e bytes_transferred

module _ {M : Type 0} where
  -- `async_read`, by `async_setup_read_varint`: the next read is that of the length.
  unfoldable pub async_setup_read_varint : Session M → Session M × Action
  async_setup_read_varint s = (s, read_length)

  unfoldable pub async_read : Session M → Session M × Action
  unfolding async_setup_read_varint
  async_read s = async_setup_read_varint s

  -- The synchronous `read` does nothing.
  unfoldable pub read : Session M → Session M
  read s = s

  unfoldable pub consume : ℕ → Session M → Session M
  consume n s = record s { read_buffer = drop n s.read_buffer }

  -- `prepare(len)` throws if the buffer would be larger than `max_size`.
  unfoldable pub async_read_pkglen : ℕ → Session M → ErrorCode → List ℕ → Session M × Action
  unfolding fill
  async_read_pkglen max_size s0 e bytes =
      let s = record s0 { pkglen = fill bytes s0.pkglen } in
      let len = int_to_size (packet_length s.pkglen) in
      elim e [
        | failure code ↦ (s, handle (failure code) (length bytes))
        | success ↦
            if ltb max_size (length s.read_buffer + len) then (s, throws) else (s, read_body len)
      ]

  -- The end of `async_read_pkgdata`, by what `parseFrom` returned.
  unfoldable pub after_parse :
      Session M → ℕ → ℕ → Outcome (Bool × KitePacket M) → Session M × Action
  unfolding consume async_read
  after_parse s bytes_read len (done (true, pkg)) =
      (consume (int_to_size len) (record s { pkg = pkg }), handle success (int_to_size len))
  after_parse s bytes_read len (done (false, pkg)) =
      async_read (consume bytes_read (record s { pkg = pkg }))
  after_parse s bytes_read len fault = (s, undefined)
  after_parse s bytes_read len out_of_fuel = (s, undefined)

  unfoldable pub async_read_pkgdata :
      Platform → Codec M → Session M → ErrorCode → List ℕ → Session M × Action
  unfolding after_parse get_max_frame_length
  async_read_pkgdata pf codec s0 e bytes =
      let s = record s0 { read_buffer = s0.read_buffer ++ bytes } in
      let len = packet_length s.pkglen in
      elim e [
        | failure code ↦ (s0, handle (failure code) (length bytes))
        | success ↦
            if slt32 len get_max_frame_length
            then after_parse s (length bytes) len (parse_from pf codec s.pkg s.read_buffer len)
            else (s, handle success (length bytes))
      ]

-- A completion handler takes an error and the bytes read.
abbrev pub Completion : Type 0 → Type 0
Completion M = Session M → ErrorCode → List ℕ → Session M × Action

-- A session, what it does next, and the bytes that are still to come.
pub record Conn (M : Type 0) : Type 0 where
  pub session : Session M
  pub action : Action
  pub stream : List ℕ

pub data End : Type 0 where
  ended : ErrorCode → End
  threw faulted no_fuel : End

module _ (pf : Platform) (max_size : ℕ) (end_code : ℕ) {M : Type 0} (codec : Codec M) where
  -- The completion of a read of n bytes.
  unfoldable pub complete : ℕ → Completion M → Session M → List ℕ → Conn M
  complete n completion s stream =
      let next : Session M × Action =
        if leb n (length stream)
        then completion s success (take n stream)
        else completion s (failure end_code) stream in
      record { session = next.0; action = next.1; stream = drop n stream }

  unfoldable pub conn_step : Session M → Action → List ℕ → Conn M
  unfolding complete
  conn_step s read_length stream = complete 4 (async_read_pkglen max_size) s stream
  conn_step s (read_body n) stream = complete n (async_read_pkgdata pf codec) s stream
  conn_step s a stream = record { session = s; action = a; stream = stream }

  -- The packets for which the handler is called with no error, when it then reads the next one, as
  -- `asioKiteIOClient::handle_read_pkg` does; and how it ends.
  unfoldable pub receive_all : ℕ → Session M → Action → List ℕ → List (KitePacket M) × End
  unfolding conn_step
  receive_all zero s a stream = ([], no_fuel)
  receive_all (suc fuel) s (handle success n) stream =
      let later = receive_all fuel s read_length stream in (s.pkg ∷ later.0, later.1)
  receive_all (suc fuel) s (handle (failure code) n) stream = ([], ended (failure code))
  receive_all (suc fuel) s throws stream = ([], threw)
  receive_all (suc fuel) s undefined stream = ([], faulted)
  receive_all (suc fuel) s read_length stream =
      let c = conn_step s read_length stream in receive_all fuel c.session c.action c.stream
  receive_all (suc fuel) s (read_body n) stream =
      let c = conn_step s (read_body n) stream in receive_all fuel c.session c.action c.stream
