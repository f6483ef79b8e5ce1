-- ===== src/Base/Bits.antt =====
-- `|` and `&` at variables: bounds, fields and masks. The native operations are recursions on
-- binary digits with fuel, and each fact is proved for every fuel that is enough.
use Prim.Native.Nat.{digits, bit_and-bitwise, bit_or-bitwise}
use Prim.Native.Nat.{
  ℕ, zero, suc, ◌+◌, ◌-◌, ◌*◌, ◌/◌, ◌%◌, ◌^◌, ◌≤◌, ◌<◌, min, max, bit_and, bit_or,
}
use mathlib.Core.Path.{◌≡◌, refl, ap, ◌∙◌}
use native.Mathlib.Nat.{pow-suc, one-le-pow}
use native.Mathlib.Omega.{arith}

abbrev or_digits : ℕ → ℕ → ℕ → ℕ
or_digits = digits (λ y. y) max

abbrev and_digits : ℕ → ℕ → ℕ → ℕ
and_digits = digits (λ y. 0) min

or_digits-ge : (fuel a b : ℕ) → a ≤ fuel → (a ≤ or_digits fuel a b) × (b ≤ or_digits fuel a b)
or_digits-ge zero zero b enough = omega arith
or_digits-ge zero (suc a) b enough = absurd (omega arith)
or_digits-ge (suc fuel) zero b enough = omega arith
or_digits-ge (suc fuel) (suc a) b enough =
    let half = or_digits-ge fuel (suc a / 2) (b / 2) (omega arith) in
    (omega (arith, half.0), omega (arith, half.1))

or_digits-lt : (fuel k a b : ℕ) → a ≤ fuel → a < 2 ^ k → b < 2 ^ k → or_digits fuel a b < 2 ^ k
or_digits-lt zero k zero b enough p q = q
or_digits-lt zero k (suc a) b enough p q = absurd (omega arith)
or_digits-lt (suc fuel) k zero b enough p q = q
or_digits-lt (suc fuel) zero (suc a) b enough p q = absurd (omega arith)
or_digits-lt (suc fuel) (suc k) (suc a) b enough p q =
    let double = pow-suc 2 k in
    omega (
      arith,
      double,
      or_digits-lt fuel k (suc a / 2) (b / 2) (omega arith) (omega (arith, double))
          (omega (arith, double)),
    )

double_field : (q k : ℕ) → q * 2 ^ suc k ≡ q * 2 ^ k * 2
double_field q k = omega (arith, ap (λ (power : ℕ). q * power) (pow-suc 2 k))

-- A multiple of 2 ^ k and a number below it have no digit in common.
or_digits-add :
    (fuel a k q r : ℕ) → a ≤ fuel → a ≡ q * 2 ^ k → r < 2 ^ k → or_digits fuel a r ≡ a + r
or_digits-add zero zero k q r enough e low = omega arith
or_digits-add zero (suc a) k q r enough e low = absurd (omega arith)
or_digits-add (suc fuel) zero k q r enough e low = omega arith
or_digits-add (suc fuel) (suc a) zero q r enough e low = omega (
  arith,
  or_digits-add fuel (suc a / 2) 0 (suc a / 2) (r / 2) (omega arith) (omega arith) (omega arith),
)
or_digits-add (suc fuel) (suc a) (suc k) q r enough e low =
    let twice = double_field q k in
    let double = pow-suc 2 k in
    omega (
      arith,
      twice,
      or_digits-add fuel (suc a / 2) k q (r / 2) (omega arith) (omega (arith, twice))
          (omega (arith, double)),
    )

-- A mask of k ones leaves the part below 2 ^ k.
and_digits-mask :
    (fuel a k q r : ℕ)
    → a ≤ fuel
    → a ≡ q * 2 ^ k + r
    → r < 2 ^ k
    → and_digits fuel a (2 ^ k - 1) ≡ r
and_digits-mask zero zero k q r enough e low = omega arith
and_digits-mask zero (suc a) k q r enough e low = absurd (omega arith)
and_digits-mask (suc fuel) zero k q r enough e low = omega arith
and_digits-mask (suc fuel) (suc a) zero q r enough e low = omega (
  arith,
  and_digits-mask fuel (suc a / 2) 0 (suc a / 2) 0 (omega arith) (omega arith) (omega arith),
)
and_digits-mask (suc fuel) (suc a) (suc k) q r enough e low =
    let twice = double_field q k in
    let double = pow-suc 2 k in
    let positive = one-le-pow k 2 in
    let shorter : (2 ^ suc k - 1) / 2 ≡ 2 ^ k - 1 = omega (arith, double, positive) in
    let ih =
      and_digits-mask fuel (suc a / 2) k q (r / 2) (omega arith) (omega (arith, twice))
        (omega (arith, double)) in
    rw shorter (rw ih (omega (arith, twice, double, positive)))

pub zero-bit_or : (b : ℕ) → bit_or 0 b ≡ b
zero-bit_or b = bit_or-bitwise 0 b

-- `|` sets bits and clears none.
pub le-bit_or_left : (a b : ℕ) → a ≤ bit_or a b
le-bit_or_left a b = omega (arith, bit_or-bitwise a b, (or_digits-ge a a b (omega arith)).0)

pub le-bit_or_right : (a b : ℕ) → b ≤ bit_or a b
le-bit_or_right a b = omega (arith, bit_or-bitwise a b, (or_digits-ge a a b (omega arith)).1)

-- `|` of two `k`-bit values has `k` bits.
pub bit_or-lt : (k a b : ℕ) → a < 2 ^ k → b < 2 ^ k → bit_or a b < 2 ^ k
bit_or-lt k a b p q = omega (arith, bit_or-bitwise a b, or_digits-lt a k a b (omega arith) p q)

-- `(q << k) | r` is a sum when r fits k bits.
pub bit_or_fields : (k q r : ℕ) → r < 2 ^ k → bit_or (q * 2 ^ k) r ≡ q * 2 ^ k + r
bit_or_fields k q r low =
    bit_or-bitwise (q * 2 ^ k) r
    ∙ or_digits-add (q * 2 ^ k) (q * 2 ^ k) k q r (omega arith) refl low

-- `& (2 ^ k - 1)` is the remainder by 2 ^ k.
pub bit_and_mask : (k a : ℕ) → bit_and a (2 ^ k - 1) ≡ a % 2 ^ k
bit_and_mask k a =
    bit_and-bitwise a (2 ^ k - 1)
    ∙ and_digits-mask a a k (a / 2 ^ k) (a % 2 ^ k) (omega arith) (ground (arith, one-le-pow k 2))
        (ground (arith, one-le-pow k 2))
