-- ===== src/Base/Bits.antt =====
-- Masks, disjoint fields and exclusive or on numbers of every width, as arithmetic.
mod Step
use Step.{bit_and_step, bit_or_step, bit_xor_step}
use Prim.Native.Nat.{ℕ, zero, suc, ◌+◌, ◌*◌, ◌/◌, ◌%◌, ◌^◌, ◌≤◌, ◌<◌, bit_and, bit_or, bit_xor}
use Prim.Native.Nat.{differ, bit_or-bitwise}
use mathlib.Core.Path.{◌≡◌, refl, ap}
use native.Mathlib.Nat.{pow-suc}
use native.Mathlib.Omega.{arith}

bit_and-zero_below : (n a : ℕ) → a ≤ n → bit_and a 0 ≡ 0
bit_and-zero_below n zero h = refl
bit_and-zero_below zero (suc a) h = absurd (omega arith)
bit_and-zero_below (suc n) (suc a) h =
    omega (arith, bit_and_step (suc a) 0, bit_and-zero_below n (suc a / 2) (omega arith))

bit_and-zero : (a : ℕ) → bit_and a 0 ≡ 0
bit_and-zero a = bit_and-zero_below a a (omega arith)

bit_and-one : (a : ℕ) → bit_and a 1 ≡ a % 2
bit_and-one a = omega (arith, bit_and_step a 1, bit_and-zero (a / 2))

bit_and-three : (a : ℕ) → bit_and a 3 ≡ a % 4
bit_and-three a = omega (arith, bit_and_step a 3, bit_and-one (a / 2))

pub bit_and-0x07 : (a : ℕ) → bit_and a 0x07 ≡ a % 8
bit_and-0x07 a = omega (arith, bit_and_step a 7, bit_and-three (a / 2))

pub bit_and-0x0f : (a : ℕ) → bit_and a 0x0f ≡ a % 16
bit_and-0x0f a = omega (arith, bit_and_step a 15, bit_and-0x07 (a / 2))

bit_and-0x1f : (a : ℕ) → bit_and a 31 ≡ a % 32
bit_and-0x1f a = omega (arith, bit_and_step a 31, bit_and-0x0f (a / 2))

bit_and-0x3f : (a : ℕ) → bit_and a 63 ≡ a % 64
bit_and-0x3f a = omega (arith, bit_and_step a 63, bit_and-0x1f (a / 2))

pub bit_and-0x7f : (a : ℕ) → bit_and a 127 ≡ a % 128
bit_and-0x7f a = omega (arith, bit_and_step a 127, bit_and-0x3f (a / 2))

-- One bit at a time.
bit_and-two : (a : ℕ) → bit_and a 2 ≡ a / 2 % 2 * 2
bit_and-two a = omega (arith, bit_and_step a 2, bit_and-one (a / 2))

bit_and-four : (a : ℕ) → bit_and a 4 ≡ a / 4 % 2 * 4
bit_and-four a = omega (arith, bit_and_step a 4, bit_and-two (a / 2))

bit_and-eight : (a : ℕ) → bit_and a 8 ≡ a / 8 % 2 * 8
bit_and-eight a = omega (arith, bit_and_step a 8, bit_and-four (a / 2))

bit_and-0x10 : (a : ℕ) → bit_and a 16 ≡ a / 16 % 2 * 16
bit_and-0x10 a = omega (arith, bit_and_step a 16, bit_and-eight (a / 2))

bit_and-0x20 : (a : ℕ) → bit_and a 32 ≡ a / 32 % 2 * 32
bit_and-0x20 a = omega (arith, bit_and_step a 32, bit_and-0x10 (a / 2))

bit_and-0x40 : (a : ℕ) → bit_and a 64 ≡ a / 64 % 2 * 64
bit_and-0x40 a = omega (arith, bit_and_step a 64, bit_and-0x20 (a / 2))

-- The test of one bit, on any number.
pub bit_and-0x80 : (a : ℕ) → bit_and a 0x80 ≡ a / 128 % 2 * 128
bit_and-0x80 a = omega (arith, bit_and_step a 128, bit_and-0x40 (a / 2))

bit_or-zero_left : (b : ℕ) → bit_or 0 b ≡ b
bit_or-zero_left b = simp bit_or-bitwise

bit_or-zero_below : (n a : ℕ) → a ≤ n → bit_or a 0 ≡ a
bit_or-zero_below n zero h = refl
bit_or-zero_below zero (suc a) h = absurd (omega arith)
bit_or-zero_below (suc n) (suc a) h =
    omega (arith, bit_or_step (suc a) 0, bit_or-zero_below n (suc a / 2) (omega arith))

double_shift : (q k : ℕ) → q * 2 ^ suc k ≡ 2 * (q * 2 ^ k)
double_shift q k = omega (arith, ap (λ (t : ℕ). q * t) (pow-suc 2 k))

-- `low | (q << k)` is a sum when `low` fits in `k` bits.
pub bit_or_shifted : (k low q : ℕ) → low < 2 ^ k → bit_or low (q * 2 ^ k) ≡ low + q * 2 ^ k
bit_or_shifted zero zero q fits = omega (arith, bit_or-zero_left (q * 1))
bit_or_shifted zero (suc low) q fits = absurd (omega arith)
bit_or_shifted (suc k) low q fits = ground (
  arith,
  bit_or_step low (q * 2 ^ suc k),
  double_shift q k,
  pow-suc 2 k,
  bit_or_shifted k (low / 2) q (omega (arith, pow-suc 2 k)),
)

-- `(q << k) | low`, the other way round.
pub bit_or_low : (k q low : ℕ) → low < 2 ^ k → bit_or (q * 2 ^ k) low ≡ q * 2 ^ k + low
bit_or_low zero q zero fits = ground (arith, bit_or-zero_below (q * 1) (q * 1) (omega arith))
bit_or_low zero q (suc low) fits = absurd (omega arith)
bit_or_low (suc k) q low fits = ground (
  arith,
  bit_or_step (q * 2 ^ suc k) low,
  double_shift q k,
  pow-suc 2 k,
  bit_or_low k q (low / 2) (omega (arith, pow-suc 2 k)),
)

-- `group | 0x80` sets the top bit of a group of seven bits.
pub bit_or-0x80 : (g : ℕ) → g < 128 → bit_or g 0x80 ≡ g + 128
bit_or-0x80 g h = bit_or_shifted 7 g 1 h

-- `0x80 | op` sets the top bit over a low part.
pub 0x80-bit_or : (low : ℕ) → low < 128 → bit_or 0x80 low ≡ 128 + low
0x80-bit_or low h = bit_or_low 7 1 low h

differ_undo : (x y : ℕ) → x < 2 → y < 2 → (differ x y < 2) × (differ (differ x y) y ≡ x)
differ_undo zero zero p q = (p, refl)
differ_undo zero (suc zero) p q = (q, refl)
differ_undo (suc zero) zero p q = (p, refl)
differ_undo (suc zero) (suc zero) p q = (omega arith, refl)
differ_undo (suc (suc x)) y p q = absurd (omega arith)
differ_undo x (suc (suc y)) p q = absurd (omega arith)

-- One digit of `bit_xor_undo`, from the claim for the halves.
bit_xor_undo_step :
    (a k : ℕ) → bit_xor (bit_xor (a / 2) (k / 2)) (k / 2) ≡ a / 2 → bit_xor (bit_xor a k) k ≡ a
bit_xor_undo_step a k halves =
    let (below, undone) = differ_undo (a % 2) (k % 2) (omega arith) (omega arith) in
    let half : bit_xor a k / 2 ≡ bit_xor (a / 2) (k / 2) = omega (arith, bit_xor_step a k) in
    let low : bit_xor a k % 2 ≡ differ (a % 2) (k % 2) = omega (arith, bit_xor_step a k) in
    rw (bit_xor_step (bit_xor a k) k, half, low, halves, undone) (omega arith)

bit_xor_undo_below : (n a k : ℕ) → a ≤ n → k ≤ n → bit_xor (bit_xor a k) k ≡ a
bit_xor_undo_below zero zero zero ha hk = refl
bit_xor_undo_below zero (suc a) k ha hk = absurd (omega arith)
bit_xor_undo_below zero zero (suc k) ha hk = absurd (omega arith)
bit_xor_undo_below (suc n) a k ha hk =
    bit_xor_undo_step a k (bit_xor_undo_below n (a / 2) (k / 2) (omega arith) (omega arith))

-- Exclusive or with the same key twice gives the number back.
pub bit_xor_undo : (a k : ℕ) → bit_xor (bit_xor a k) k ≡ a
bit_xor_undo a k = bit_xor_undo_below (a + k) a k (omega arith) (omega arith)

-- Exclusive or stays within the width.
pub bit_xor-lt : (n a k : ℕ) → a < 2 ^ n → k < 2 ^ n → bit_xor a k < 2 ^ n
bit_xor-lt zero zero zero ha hk = omega arith
bit_xor-lt zero (suc a) k ha hk = absurd (omega arith)
bit_xor-lt zero zero (suc k) ha hk = absurd (omega arith)
bit_xor-lt (suc n) a k ha hk =
    let (below, undone) = differ_undo (a % 2) (k % 2) (omega arith) (omega arith) in
    let double = pow-suc 2 n in
    omega (
      arith,
      bit_xor_step a k,
      bit_xor-lt n (a / 2) (k / 2) (omega (arith, double)) (omega (arith, double)),
    )

-- Inclusive or stays within the width.
pub bit_or-lt : (n a b : ℕ) → a < 2 ^ n → b < 2 ^ n → bit_or a b < 2 ^ n
bit_or-lt zero zero zero ha hb = omega arith
bit_or-lt zero (suc a) b ha hb = absurd (omega arith)
bit_or-lt zero zero (suc b) ha hb = absurd (omega arith)
bit_or-lt (suc n) a b ha hb =
    let double = pow-suc 2 n in
    omega (
      arith,
      bit_or_step a b,
      bit_or-lt n (a / 2) (b / 2) (omega (arith, double)) (omega (arith, double)),
    )
