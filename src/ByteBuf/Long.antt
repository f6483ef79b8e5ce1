-- ===== src/ByteBuf/Long.antt =====
-- commons/ByteBuf.hpp, `readLong`: its shifts are done on 32-bit values, so that the upper four
-- bytes are lost, whatever the compiler makes of a shift by 32 bits or more.
use kiteq_client_cpp.Base.{
  ℕ, ◌/◌, ◌%◌, ◌^◌, ◌≤◌, ◌<◌, ◌≡◌, ◌≢◌, List, ◌∷◌, ◌++◌, some, arith, subst,
}
use mathlib.Core.Option.{some-injective}
use kiteq_client_cpp.Base.Word.{low_byte, low_byte-mod, shl32, char_to_int}
use kiteq_client_cpp.Base.Bits.{bit_or-lt, zero-bit_or}
use kiteq_client_cpp.ByteBuf.{Platform, read_int, read_long}
use kiteq_client_cpp.ByteBuf.Fields.{long_bytes, read_int-int_bytes}

low_byte-lt : (x : ℕ) → low_byte x < 2 ^ 32
low_byte-lt x = omega (arith, low_byte-mod x)

-- What is read is an `unsigned int`.
pub read_long-lt : (pf : Platform) (b : List ℕ) (v : ℕ) → read_long pf b ≡ some v → v < 2 ^ 32
unfolding read_long
read_long-lt pf (c1 ∷ c2 ∷ c3 ∷ c4 ∷ c5 ∷ c6 ∷ c7 ∷ c8 ∷ rest) v e =
    subst (λ x. x < 2 ^ 32) (some-injective _ _ e)
      (bit_or-lt 32 _ _
        (bit_or-lt 32 _ _
          (bit_or-lt 32 _ _
            (bit_or-lt 32 _ _
              (bit_or-lt 32 _ _
                (bit_or-lt 32 _ _
                  (bit_or-lt 32 _ _ (pf.oversize_shift-lt _ _) (pf.oversize_shift-lt _ _))
                  (pf.oversize_shift-lt _ _))
                (pf.oversize_shift-lt _ _))
              (omega arith))
            (omega arith))
          (omega arith))
        (low_byte-lt (char_to_int c8)))
read_long-lt pf _ v e = cc

-- An extension of 32 bits or more is not read back.
pub read_long-ne :
    (pf : Platform) (i : ℕ) (rest : List ℕ)
    → 2 ^ 32 ≤ i
    → read_long pf (long_bytes i ++ rest) ≢ some i
read_long-ne pf i rest big e = absurd (omega (arith, read_long-lt pf (long_bytes i ++ rest) i e))

-- A smaller one is, if the compiler makes every oversized shift of 0 a 0.
pub read_long-long_bytes :
    (pf : Platform) (i : ℕ) (rest : List ℕ)
    → ((k : ℕ) → pf.oversize_shift 0 k ≡ 0)
    → i < 2 ^ 32
    → read_long pf (long_bytes i ++ rest) ≡ some i
unfolding read_long
read_long-long_bytes pf i rest zero_shift h =
    rw
      (
        top_byte (i / 2 ^ 32 / 2 ^ 24) (omega arith),
        top_byte (i / 2 ^ 32 / 2 ^ 16) (omega arith),
        top_byte (i / 2 ^ 32 / 2 ^ 8) (omega arith),
        top_byte (i / 2 ^ 32) (omega arith),
        zero_shift 56,
        zero_shift 48,
        zero_shift 40,
        zero_shift 32,
        zero-bit_or (shl32 (low_byte (char_to_int (i / 2 ^ 24 % 256))) 24),
      )
      (unfold read_int in read_int-int_bytes i rest h)
  where
    top_byte : (x : ℕ) → x ≡ 0 → low_byte (char_to_int (x % 256)) ≡ 0
    top_byte x e = rw e
