-- ===== src/Kernel/Heap/Bits.antt =====
-- Bitwise "and" with a mask that keeps the bits from some place on, as arithmetic.
use mathlib.Core.Path.{ap}
use native.Mathlib.Nat.{pow-suc, le_refl}
use Prim.Native.Nat.{min, digits, bit_and, bit_and-bitwise}
use xblob_emulator.Prelude.{
  ℕ, zero, suc, ◌+◌, ◌-◌, ◌*◌, ◌/◌, ◌%◌, ◌^◌, ◌≤◌, ◌<◌, ◌≡◌, refl, ◌∙◌, arith,
}

-- The count of digits to go does not matter where it is enough.
digits_enough :
    (n m a b : ℕ) → a ≤ n → a ≤ m → digits (λ y. 0) min n a b ≡ digits (λ y. 0) min m a b
digits_enough zero zero a b p q = refl
digits_enough zero (suc m) zero b p q = refl
digits_enough (suc n) zero zero b p q = refl
digits_enough (suc n) (suc m) zero b p q = refl
digits_enough zero m (suc a) b p q = absurd (omega arith)
digits_enough (suc n) zero (suc a) b p q = absurd (omega arith)
digits_enough (suc n) (suc m) (suc a) b p q =
    rw (digits_enough n m (suc a / 2) (b / 2) (omega arith) (omega arith))

-- The lowest digit, and the rest.
bit_and_halves : (a b : ℕ) → bit_and a b ≡ bit_and (a / 2) (b / 2) * 2 + min (a % 2) (b % 2)
bit_and_halves zero b = simp bit_and-bitwise (omega arith)
bit_and_halves (suc a) b =
    simp bit_and-bitwise
      (omega (arith, digits_enough a (suc a / 2) (suc a / 2) (b / 2) (omega arith) (le_refl _)))

pub two_pow_suc : (k m : ℕ) → 2 ^ suc k * m ≡ 2 * (2 ^ k * m)
two_pow_suc k m = omega (arith, ap (λ (t : ℕ). t * m) (pow-suc 2 k))

-- All ones keep a number that has no more digits.
pub bit_and_ones : (j q : ℕ) → q < 2 ^ j → bit_and q (2 ^ j - 1) ≡ q
bit_and_ones zero zero lt = refl
bit_and_ones zero (suc q) lt = absurd (omega arith)
bit_and_ones (suc j) q lt = ground (
  arith,
  pow-suc 2 j,
  bit_and_halves q (2 ^ suc j - 1),
  bit_and_ones j (q / 2) (omega (arith, pow-suc 2 j)),
)

-- A mask whose low bits are 0 drops the low bits.
pub bit_and_shifted :
    (k q r m : ℕ) → r < 2 ^ k → bit_and (2 ^ k * q + r) (2 ^ k * m) ≡ 2 ^ k * bit_and q m
bit_and_shifted zero q r m lt =
    let e : 2 ^ 0 * q + r ≡ q = omega arith in
    let f : 2 ^ 0 * m ≡ m = omega arith in rw (e, f) (omega arith)
bit_and_shifted (suc k) q r m lt =
    let a : (2 ^ suc k * q + r) / 2 ≡ 2 ^ k * q + r / 2 = omega (arith, two_pow_suc k q) in
    let b : (2 ^ suc k * m) / 2 ≡ 2 ^ k * m = omega (arith, two_pow_suc k m) in
    let c : (2 ^ suc k * m) % 2 ≡ 0 = omega (arith, two_pow_suc k m) in
    let ih = bit_and_shifted k q (r / 2) m (omega (arith, pow-suc 2 k)) in
    bit_and_halves (2 ^ suc k * q + r) (2 ^ suc k * m)
    ∙ rw (a, b, c, ih) (omega (arith, two_pow_suc k (bit_and q m)))
