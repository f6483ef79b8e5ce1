-- ===== src/Session/Length.antt =====
-- remoting/inc/asioSession.hpp: the length field. Its bytes are read as signed `char`s with no mask,
-- so that a byte from 128 on spreads its sign over the bytes before it.
use kiteq_client_cpp.Base.{
  ℕ, ◌+◌, ◌*◌, ◌/◌, ◌%◌, ◌^◌, ◌≤◌, ◌<◌, ◌≡◌, ◌↔◌, arith, bit_or, ◌⊎◌, inl, inr,
}
use native.Mathlib.Decide.{dec_lt}
use native.Mathlib.Nat.{le_trans}
use kiteq_client_cpp.Base.Word.{char_to_int, shl32}
use kiteq_client_cpp.Base.Bits.{bit_or_fields, le-bit_or_left, le-bit_or_right}
use kiteq_client_cpp.Session.{Pkglen, packet_length}

-- The length field that a peer sends for n, as `ByteBuf::writeInt` writes it.
abbrev pub length_field : ℕ → Pkglen
length_field n = record {
  c0 = n / 2 ^ 24 % 256;
  c1 = n / 2 ^ 16 % 256;
  c2 = n / 2 ^ 8 % 256;
  c3 = n % 256;
}

-- No byte of the field has its sign bit set.
pub record IsPlain (n : ℕ) : Type 0 where
  pub small2 : n / 2 ^ 16 % 256 < 128
  pub small1 : n / 2 ^ 8 % 256 < 128
  pub small0 : n % 256 < 128

char_small : (c : ℕ) → c < 128 → char_to_int c ≡ c
char_small c h = ground arith

shl_small : (x k : ℕ) → x * 2 ^ k < 2 ^ 32 → shl32 x k ≡ x * 2 ^ k
shl_small x k h = omega arith

-- Such a length is read back.
pub packet_length-IsPlain : (n : ℕ) → n < 2 ^ 31 → IsPlain n → packet_length (length_field n) ≡ n
unfolding packet_length
packet_length-IsPlain n h p =
    let b0 = n / 2 ^ 24 % 256 in
    let b1 = n / 2 ^ 16 % 256 in
    let b2 = n / 2 ^ 8 % 256 in
    let b3 = n % 256 in
    let regroup16 : b0 * 2 ^ 24 + b1 * 2 ^ 16 ≡ (b0 * 2 ^ 8 + b1) * 2 ^ 16 = omega arith in
    let regroup8 : (b0 * 2 ^ 8 + b1) * 2 ^ 16 + b2 * 2 ^ 8
        ≡ (b0 * 2 ^ 16 + b1 * 2 ^ 8 + b2) * 2 ^ 8 =
      omega arith in
    rw
      (
        char_small b0 (omega arith),
        char_small b1 p.small2,
        char_small b2 p.small1,
        char_small b3 p.small0,
        shl_small b0 24 (omega arith),
        shl_small b1 16 (omega arith),
        shl_small b2 8 (omega arith),
        bit_or_fields 24 b0 (b1 * 2 ^ 16) (omega arith),
        regroup16,
        bit_or_fields 16 (b0 * 2 ^ 8 + b1) (b2 * 2 ^ 8) (omega arith),
        regroup8,
        bit_or_fields 8 (b0 * 2 ^ 16 + b1 * 2 ^ 8 + b2) b3 (omega arith),
      )
      (omega arith)

-- Any other is read as a negative `int`.
pub packet_length_negative : (n : ℕ) → ¬ IsPlain n → 2 ^ 31 ≤ packet_length (length_field n)
unfolding packet_length
packet_length_negative n odd = elim (dec_lt b3 128) [
  | no p ↦ le_trans (high_byte p) (le-bit_or_right (bit_or (bit_or s0 s1) s2) (char_to_int b3))
  | yes p3 ↦ elim (dec_lt b2 128) [
    | no p ↦ le_trans (high_shift1 p) (
        le_trans (le-bit_or_right (bit_or s0 s1) s2)
          (le-bit_or_left (bit_or (bit_or s0 s1) s2) (char_to_int b3)))
    | yes p2 ↦ elim (dec_lt b1 128) [
      | no p ↦ le_trans (high_shift2 p) (
          le_trans (le-bit_or_right s0 s1) (
            le_trans (le-bit_or_left (bit_or s0 s1) s2)
              (le-bit_or_left (bit_or (bit_or s0 s1) s2) (char_to_int b3))))
      | yes p1 ↦ absurd (odd (record { small2 = p1; small1 = p2; small0 = p3 }))
    ]
  ]
]
  where
    b0 : ℕ
    b0 = n / 2 ^ 24 % 256

    b1 : ℕ
    b1 = n / 2 ^ 16 % 256

    b2 : ℕ
    b2 = n / 2 ^ 8 % 256

    b3 : ℕ
    b3 = n % 256

    s0 : ℕ
    s0 = shl32 (char_to_int b0) 24

    s1 : ℕ
    s1 = shl32 (char_to_int b1) 16

    s2 : ℕ
    s2 = shl32 (char_to_int b2) 8

    high_byte : ¬ (b3 < 128) → 2 ^ 31 ≤ char_to_int b3
    high_byte p = ground arith

    high_shift1 : ¬ (b2 < 128) → 2 ^ 31 ≤ s2
    high_shift1 p = ground arith

    high_shift2 : ¬ (b1 < 128) → 2 ^ 31 ≤ s1
    high_shift2 p = ground arith

IsPlain-cases : (n : ℕ) → IsPlain n ⊎ (¬ IsPlain n)
IsPlain-cases n = elim (dec_lt (n / 2 ^ 16 % 256) 128) [
  | no q ↦ inr (λ p. q p.small2)
  | yes p2 ↦ elim (dec_lt (n / 2 ^ 8 % 256) 128) [
    | no q ↦ inr (λ p. q p.small1)
    | yes p1 ↦ elim (dec_lt (n % 256) 128) [
      | no q ↦ inr (λ p. q p.small0)
      | yes p0 ↦ inl (record { small2 = p2; small1 = p1; small0 = p0 })
    ]
  ]
]

-- For a length below 2^31, what the session reads from the four bytes of the length field is
-- that length exactly if none of the lower three bytes has its sign bit set.
pub packet_length_iff : (n : ℕ) → n < 2 ^ 31 → (packet_length (length_field n) ≡ n) ↔ IsPlain n
packet_length_iff n h = (λ e. plain_if e (IsPlain-cases n), packet_length-IsPlain n h)
  where
    plain_if : packet_length (length_field n) ≡ n → IsPlain n ⊎ (¬ IsPlain n) → IsPlain n
    plain_if e (inl p) = p
    plain_if e (inr odd) = absurd (omega (arith, packet_length_negative n odd))
