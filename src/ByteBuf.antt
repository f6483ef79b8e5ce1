-- ===== src/ByteBuf.antt =====
-- commons/ByteBuf.hpp: the byte buffer behind a packet. `buff` is the vector's content, `capacity`
-- its capacity; a byte is its bit pattern, and so are the two indices, which are ints. What C++ leaves open is the record `Platform`.
pub mod Fields
pub mod Invariant
pub mod Appends
pub mod Long
use kiteq_client_cpp.Base.{
  ℕ, zero, suc, ◌+◌, ◌-◌, ◌*◌, ◌/◌, ◌%◌, ◌^◌, ◌<◌, ◌≡◌, Bool, List, [], ◌∷◌, ◌++◌, Option, none,
  some, bit_or, max, length, get_elem?, drop, ltb, leb, ◌==◌, if◌then◌else◌,
}
use kiteq_client_cpp.Base.Word.{char_to_int, shl32, low_byte, slt32, int_to_size}

-- The compiler and the standard library: the capacity that a full vector of capacity `c` grows to,
-- and the value of `x << k` on an `unsigned int` for k from 32 on, which C++ leaves undefined.
pub record Platform : Type 0 where
  pub grow : ℕ → ℕ
  pub oversize_shift : ℕ → ℕ → ℕ
  pub lt-grow : (c : ℕ) → c < grow c
  pub oversize_shift-lt : (x k : ℕ) → oversize_shift x k < 2 ^ 32

pub record ByteBuf : Type 0 where
  pub buff : List ℕ
  pub capacity : ℕ
  pub reader_index : ℕ
  pub writer_index : ℕ

infixl 5 ◌>>=◌
abbrev pub ◌>>=◌ {ℓ κ} : {A : Type ℓ} {B : Type κ} → Option A → (A → Option B) → Option B
none >>= f = none
some a >>= f = f a

-- `x >> k` on a negative value copies the sign bit.
abbrev pub sar : ℕ → ℕ → ℕ → ℕ
sar w x k = if leb (2 ^ (w - 1)) x then x / 2 ^ k + (2 ^ w - 2 ^ (w - k)) else x / 2 ^ k

abbrev pub short_to_int : ℕ → ℕ
short_to_int i = if leb (2 ^ 15) i then i + (2 ^ 32 - 2 ^ 16) else i

-- `ByteBuf()` and `ByteBuf(int size)`.
unfoldable pub empty : ByteBuf
empty = record { buff = []; capacity = 0; reader_index = 0; writer_index = 0 }

unfoldable pub sized : ℕ → ByteBuf
sized size = record { buff = []; capacity = size + 1; reader_index = 0; writer_index = 0 }

-- The static readers take a pointer; `none` is a read past the bytes that are there.
unfoldable pub read_byte : List ℕ → Option ℕ
read_byte b = get_elem? b 0

unfoldable pub read_short : List ℕ → Option ℕ
read_short b = do
  c1 ← get_elem? b 0
  c2 ← get_elem? b 1
  some (bit_or (shl32 (low_byte (char_to_int c1)) 8) (low_byte (char_to_int c2)) % 2 ^ 16)

-- `(c1&0xFF)<<24 | (c2&0xFF)<<16 | (c3&0xFF)<<8 | (c4&0xFF)`.
abbrev pub join_int : ℕ → ℕ → ℕ → ℕ → ℕ
join_int c1 c2 c3 c4 =
    bit_or
      (bit_or (bit_or (shl32 (low_byte (char_to_int c1)) 24) (shl32 (low_byte (char_to_int c2)) 16))
        (shl32 (low_byte (char_to_int c3)) 8))
      (low_byte (char_to_int c4))

unfoldable pub read_int : List ℕ → Option ℕ
read_int b = do
  c1 ← get_elem? b 0
  c2 ← get_elem? b 1
  c3 ← get_elem? b 2
  c4 ← get_elem? b 3
  some (join_int c1 c2 c3 c4)

-- The shifts are done on `unsigned int`, four of them by 32 bits or more.
unfoldable pub read_long : Platform → List ℕ → Option ℕ
read_long pf b = do
  c1 ← get_elem? b 0
  c2 ← get_elem? b 1
  c3 ← get_elem? b 2
  c4 ← get_elem? b 3
  c5 ← get_elem? b 4
  c6 ← get_elem? b 5
  c7 ← get_elem? b 6
  c8 ← get_elem? b 7
  let high = λ (c k : ℕ). pf.oversize_shift (low_byte (char_to_int c)) k
  let top = bit_or (bit_or (bit_or (high c1 56) (high c2 48)) (high c3 40)) (high c4 32)
  let with_24 = bit_or top (shl32 (low_byte (char_to_int c5)) 24)
  let with_16 = bit_or with_24 (shl32 (low_byte (char_to_int c6)) 16)
  let with_8 = bit_or with_16 (shl32 (low_byte (char_to_int c7)) 8)
  some (bit_or with_8 (low_byte (char_to_int c8)))

-- The member readers advance `readerIndex`.
unfoldable pub next_byte : ByteBuf → Option (ℕ × ByteBuf)
next_byte b = do
  c ← get_elem? b.buff (int_to_size b.reader_index)
  some (c, record b { reader_index = (b.reader_index + 1) % 2 ^ 32 })

unfoldable pub next_int : ByteBuf → Option (ℕ × ByteBuf)
unfolding next_byte
next_int b0 = do
  (c1, b1) ← next_byte b0
  (c2, b2) ← next_byte b1
  (c3, b3) ← next_byte b2
  (c4, b4) ← next_byte b3
  some (join_int c1 c2 c3 c4, b4)

unfoldable pub readable_bytes : ByteBuf → ℕ
readable_bytes b = (length b.buff + 2 ^ 64 - int_to_size b.reader_index) % 2 ^ 64

-- `reserve(size+1)`.
unfoldable pub resize : ByteBuf → ℕ → ByteBuf
resize b size = record b { capacity = max b.capacity (size + 1) }

unfoldable pub size : ByteBuf → ℕ
size b = length b.buff

-- `clear` empties the vector and leaves both indices.
unfoldable pub clear : ByteBuf → ByteBuf
clear b = record b { buff = [] }

-- The offset that the pointer has in the vector; `none` is NULL.
unfoldable pub get_write_ptr : ByteBuf → ℕ → Option ℕ
get_write_ptr b len =
    if slt32 ((b.capacity + 2 ^ 64 - int_to_size b.writer_index) % 2 ^ 64 % 2 ^ 32) len
    then none
    else some b.writer_index

unfoldable pub add_writer_index : ByteBuf → ℕ → ByteBuf
add_writer_index b s = record b { writer_index = (b.writer_index + s) % 2 ^ 32 }

module _ (pf : Platform) where
  -- The vector's `push_back`.
  unfoldable pub push_back : ByteBuf → ℕ → ByteBuf
  push_back b c = record b {
    buff = b.buff ++ c ∷ [];
    capacity = if length b.buff == b.capacity then pf.grow b.capacity else b.capacity;
  }

  unfoldable pub push_all : ByteBuf → List ℕ → ByteBuf
  push_all b [] = b
  push_all b (c ∷ cs) = push_all (push_back b c) cs

  unfoldable pub write_byte : ByteBuf → ℕ → ByteBuf
  unfolding add_writer_index
  write_byte b c = add_writer_index (push_back b c) 1

  unfoldable pub write_short : ByteBuf → ℕ → ByteBuf
  unfolding add_writer_index
  write_short b i =
      let c1 = low_byte (sar 32 (short_to_int i) 8) in
      let c2 = low_byte (short_to_int i) in add_writer_index (push_all b (c1 ∷ c2 ∷ [])) 2

  unfoldable pub write_int : ByteBuf → ℕ → ByteBuf
  unfolding add_writer_index
  write_int b i =
      let c1 = low_byte (sar 32 i 24) in
      let c2 = low_byte (sar 32 i 16) in
      let c3 = low_byte (sar 32 i 8) in
      let c4 = low_byte i in add_writer_index (push_all b (c1 ∷ c2 ∷ c3 ∷ c4 ∷ [])) 4

  unfoldable pub write_long : ByteBuf → ℕ → ByteBuf
  unfolding add_writer_index
  write_long b i =
      let byte = λ (k : ℕ). low_byte (sar 64 i k) in
      add_writer_index
        (push_all b
          (byte 56 ∷ byte 48 ∷ byte 40 ∷ byte 32 ∷ byte 24 ∷ byte 16 ∷ byte 8 ∷ low_byte i ∷ []))
        8

  -- The loop of `writeBytes` at index `i`, with `num - i` rounds left.
  unfoldable pub copy_loop : List ℕ → ℕ → ℕ → ByteBuf → Option ByteBuf
  copy_loop src zero i b = some b
  copy_loop src (suc left) i b = do c ← get_elem? src i; copy_loop src left (i + 1) (push_back b c)

  unfoldable pub write_bytes : ByteBuf → List ℕ → ℕ → Option ByteBuf
  unfolding add_writer_index
  write_bytes b src num =
      if slt32 0 num
      then (do b' ← copy_loop src num 0 b; some (add_writer_index b' num))
      else some b
