-- ===== src/Prelude/Bits.antt =====
-- The laws of `bit_and` and `bit_or` at one binary digit, and the complement within a width.
use Prim.Native.Nat.{ℕ, zero, suc, ◌+◌, ◌-◌, ◌*◌, ◌/◌, ◌%◌, ◌≤◌, ◌<◌, min, max}
use Prim.Native.Nat.{bit_and, bit_or, digits, bitwise, bit_and-bitwise, bit_or-bitwise}
use mathlib.Core.Path.{◌≡◌, refl}
use native.Mathlib.Nat.{le_refl}
use native.Mathlib.Omega.{arith}

-- Digit `i` of `x`, lowest first: `x >> i & 1`.
abbrev pub bit : ℕ → ℕ → ℕ
bit zero x = x % 2
bit (suc i) x = bit i (x / 2)

-- The number with `w` digits, all of them 1.
abbrev pub mask : ℕ → ℕ
mask zero = 0
mask (suc w) = mask w * 2 + 1

module _ (z : ℕ → ℕ) (f : ℕ → ℕ → ℕ) where
  -- The count of digits to go may be any that is large enough.
  digits_count : (n m a b : ℕ) → a ≤ n → a ≤ m → digits z f n a b ≡ digits z f m a b
  digits_count zero zero a b p q = refl
  digits_count zero (suc m) zero b p q = refl
  digits_count zero (suc m) (suc a) b p q = absurd (omega arith)
  digits_count (suc n) zero zero b p q = refl
  digits_count (suc n) zero (suc a) b p q = absurd (omega arith)
  digits_count (suc n) (suc m) zero b p q = refl
  digits_count (suc n) (suc m) (suc a) b p q =
      rw (digits_count n m (suc a / 2) (b / 2) (omega arith) (omega arith))

  bitwise_halves :
      (a b : ℕ)
      → bitwise z f (suc a) b ≡ bitwise z f (suc a / 2) (b / 2) * 2 + f (suc a % 2) (b % 2)
  bitwise_halves a b =
      omega (arith, digits_count a (suc a / 2) (suc a / 2) (b / 2) (omega arith) (le_refl _))

bit_and_halves : (a b : ℕ) → bit_and a b ≡ bit_and (a / 2) (b / 2) * 2 + min (a % 2) (b % 2)
bit_and_halves zero b = simp bit_and-bitwise (omega arith)
bit_and_halves (suc a) b = simp bit_and-bitwise (bitwise_halves (λ y. 0) min a b)

bit_or_halves : (a b : ℕ) → bit_or a b ≡ bit_or (a / 2) (b / 2) * 2 + max (a % 2) (b % 2)
bit_or_halves zero b = simp bit_or-bitwise (omega arith)
bit_or_halves (suc a) b = simp bit_or-bitwise (bitwise_halves (λ y. y) max a b)

bit_and-half : (a b : ℕ) → bit_and a b / 2 ≡ bit_and (a / 2) (b / 2)
bit_and-half a b = omega (arith, bit_and_halves a b)

bit_or-half : (a b : ℕ) → bit_or a b / 2 ≡ bit_or (a / 2) (b / 2)
bit_or-half a b = omega (arith, bit_or_halves a b)

pub bit-bit_and : (i a b : ℕ) → bit i (bit_and a b) ≡ min (bit i a) (bit i b)
bit-bit_and zero a b = omega (arith, bit_and_halves a b)
bit-bit_and (suc i) a b = rw bit_and-half (bit-bit_and i (a / 2) (b / 2))

pub bit-bit_or : (i a b : ℕ) → bit i (bit_or a b) ≡ max (bit i a) (bit i b)
bit-bit_or zero a b = omega (arith, bit_or_halves a b)
bit-bit_or (suc i) a b = rw bit_or-half (bit-bit_or i (a / 2) (b / 2))

pub bit-lt-two : (i x : ℕ) → bit i x < 2
bit-lt-two zero x = omega arith
bit-lt-two (suc i) x = bit-lt-two i (x / 2)

pub bit-complement : (w i s : ℕ) → i < w → s ≤ mask w → bit i (mask w - s) ≡ 1 - bit i s
bit-complement zero i s h l = elim h [ ]
bit-complement (suc w) zero s h l = omega arith
bit-complement (suc w) (suc i) s h l =
    let halves : (mask (suc w) - s) / 2 ≡ mask w - s / 2 = omega arith in
    rw halves (bit-complement w i (s / 2) (omega arith) (omega arith))

-- A number of `w` digits is determined by them.
pub bit-ext : (w a b : ℕ) → a ≤ mask w → b ≤ mask w → ((i : ℕ) → i < w → bit i a ≡ bit i b) → a ≡ b
bit-ext zero a b p q h = omega arith
bit-ext (suc w) a b p q h = omega (
  arith,
  h 0 (omega arith),
  bit-ext w (a / 2) (b / 2) (omega arith) (omega arith) (λ i l. h (suc i) (omega arith)),
)

bit_and-le_count : (n a b : ℕ) → a ≤ n → bit_and a b ≤ a
bit_and-le_count n zero b h = simp bit_and-bitwise (omega arith)
bit_and-le_count zero (suc a) b h = absurd (omega arith)
bit_and-le_count (suc n) (suc a) b h =
    omega (arith, bit_and_halves (suc a) b, bit_and-le_count n (suc a / 2) (b / 2) (omega arith))

pub bit_and-le : (a b : ℕ) → bit_and a b ≤ a
bit_and-le a b = bit_and-le_count a a b (le_refl a)

pub bit_or-le : (w a b : ℕ) → a ≤ mask w → b ≤ mask w → bit_or a b ≤ mask w
bit_or-le zero zero zero p q = omega arith
bit_or-le zero zero (suc b) p q = absurd (omega arith)
bit_or-le zero (suc a) b p q = absurd (omega arith)
bit_or-le (suc w) a b p q =
    omega (arith, bit_or_halves a b, bit_or-le w (a / 2) (b / 2) (omega arith) (omega arith))
