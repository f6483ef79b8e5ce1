-- ===== src/Base/Word.antt =====
-- The fixed-width integers of C++ on an LP64 machine, each as its bit pattern: a `char` below
-- 2 ^ 8, an `int` below 2 ^ 32, a `long` below 2 ^ 64. `char` is signed.
use kiteq_client_cpp.Base.{
  ℕ, ◌+◌, ◌-◌, ◌*◌, ◌%◌, ◌^◌, ◌<◌, ◌≡◌, Bool, bit_and, arith, ltb, leb, if◌then◌else◌,
}
use kiteq_client_cpp.Base.Bits.{bit_and_mask}

-- The conversion of a `char` to `int` or `unsigned int`: the sign bit is copied up.
abbrev pub char_to_int : ℕ → ℕ
char_to_int c = if ltb c 128 then c else c + (2 ^ 32 - 256)

-- `x << k` in 32 bits, for k below 32.
abbrev pub shl32 : ℕ → ℕ → ℕ
shl32 x k = x * 2 ^ k % 2 ^ 32

-- `x & 0xFF`.
abbrev pub low_byte : ℕ → ℕ
low_byte x = bit_and x 255

-- The sign bit.
abbrev pub is_negative32 : ℕ → Bool
is_negative32 x = leb (2 ^ 31) x

-- `a < b` as signed integers.
abbrev pub slt32 : ℕ → ℕ → Bool
slt32 a b = ltb ((a + 2 ^ 31) % 2 ^ 32) ((b + 2 ^ 31) % 2 ^ 32)

abbrev pub slt64 : ℕ → ℕ → Bool
slt64 a b = ltb ((a + 2 ^ 63) % 2 ^ 64) ((b + 2 ^ 63) % 2 ^ 64)

abbrev pub add32 : ℕ → ℕ → ℕ
add32 a b = (a + b) % 2 ^ 32

abbrev pub sub32 : ℕ → ℕ → ℕ
sub32 a b = (a + 2 ^ 32 - b) % 2 ^ 32

abbrev pub add64 : ℕ → ℕ → ℕ
add64 a b = (a + b) % 2 ^ 64

-- An `int` converted to `size_t`.
abbrev pub int_to_size : ℕ → ℕ
int_to_size x = if leb (2 ^ 31) x then x + (2 ^ 64 - 2 ^ 32) else x

pub low_byte-mod : (x : ℕ) → low_byte x ≡ x % 256
low_byte-mod x = bit_and_mask 8 x

-- Masking undoes the sign extension.
pub low_byte-char : (c : ℕ) → c < 256 → low_byte (char_to_int c) ≡ c
low_byte-char c h = ground (arith, low_byte-mod (char_to_int c))
