-- ===== src/Common/SafeMath.antt =====
-- safe_math.hpp, for an unsigned type whose largest value is `top` (`numeric_limits<T>::max()`).
-- An operation of that type wraps at `top + 1`; `out` is the value under `some`.
use native.Mathlib.Nat.{mod-eq_of_lt, add-mod_right, le-div_iff_mul-le, mul_comm, zero-mul}
use xblob_emulator.Prelude.{
  ℕ, ◌+◌, ◌-◌, ◌*◌, ◌/◌, ◌%◌, ◌≤◌, ◌≡◌, ◌↔◌, Bool, true, false, not, ◌&&◌, Option, none, some, zero,
  suc, ◌∙◌, Bool-cases, ◌≢◌, arith, ltb, leb, ◌==◌, if◌then◌else◌, u64_mod, inl, inr,
}

-- A sum, difference or product that fits is not wrapped.
fits : (top x : ℕ) → x ≤ top → x % (top + 1) ≡ x
fits top x h = mod-eq_of_lt (omega arith)

fits_once : (top x : ℕ) → x ≤ top → (x + (top + 1)) % (top + 1) ≡ x
fits_once top x h = add-mod_right x (top + 1) ∙ fits top x h

le-div : (top a b : ℕ) → a ≢ 0 → (b ≤ top / a) ↔ (a * b ≤ top)
le-div top a b h = rw (mul_comm a b) (le-div_iff_mul-le {k = a} (omega arith))

module _ (top : ℕ) where
  unfoldable pub checked_add : ℕ → ℕ → Option ℕ
  checked_add a b = if ltb (top - b) a then none else some ((a + b) % (top + 1))

  unfoldable pub checked_sub : ℕ → ℕ → Option ℕ
  checked_sub a b = if ltb a b then none else some ((a + (top + 1) - b) % (top + 1))

  unfoldable pub checked_mul : ℕ → ℕ → Option ℕ
  checked_mul a b = if not (a == 0) && ltb (top / a) b then none else some (a * b % (top + 1))

  unfoldable pub range_in_bounds : ℕ → ℕ → ℕ → Bool
  unfolding checked_add
  range_in_bounds offset size total_size = elim (checked_add offset size) [
    | none ↦ false
    | some end ↦ leb end total_size
  ]

  -- For operands of the type, `CheckedAdd` gives the exact sum if it fits, and fails otherwise.
  pub checked_add_exact :
      (a b : ℕ)
      → a ≤ top
      → b ≤ top
      → checked_add a b ≡ (if leb (a + b) top then some (a + b) else none)
  unfolding checked_add
  checked_add_exact a b ha hb = ground (arith, fits top (a + b))

  -- `CheckedSub` gives the exact difference if it is not negative, and fails otherwise.
  pub checked_sub_exact :
      (a b : ℕ) → a ≤ top → checked_sub a b ≡ (if leb b a then some (a - b) else none)
  unfolding checked_sub
  checked_sub_exact a b ha = elim (Bool-cases (ltb a b)) [
    | inl e ↦ ground arith
    | inr e ↦
        let shift : a + (top + 1) - b ≡ a - b + (top + 1) = ground arith in
        ground (arith, shift, fits_once top (a - b))
  ]

  -- `CheckedMul` gives the exact product if it fits, and fails otherwise.
  pub checked_mul_exact :
      (a b : ℕ) → checked_mul a b ≡ (if leb (a * b) top then some (a * b) else none)
  unfolding checked_mul
  checked_mul_exact zero b = ground (arith, fits top (0 * b), zero-mul b)
  checked_mul_exact (suc a) b = ground (arith, fits top (suc a * b), le-div top (suc a) b)

  -- For arguments of the type, `RangeInBounds` holds exactly where `offset + size`, computed without
  -- wrapping, is at most the total.
  pub range_in_bounds_iff :
      (offset size total : ℕ)
      → offset ≤ top
      → size ≤ top
      → total ≤ top
      → (range_in_bounds offset size total ≡ true) ↔ (offset + size ≤ total)
  unfolding range_in_bounds
  range_in_bounds_iff offset size total ho hs ht =
      rw (checked_add_exact offset size ho hs, range_in_bounds) (ground arith)

abbrev pub u64_max : ℕ
u64_max = u64_mod - 1
