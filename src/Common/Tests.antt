-- ===== src/Common/Tests.antt =====
-- Checked arithmetic at concrete values.
use xblob_emulator.Common.SafeMath.{
  checked_add, checked_mul, range_in_bounds, checked_mul_exact, range_in_bounds_iff,
}
use xblob_emulator.Prelude.{◌+◌, ◌≤◌, ◌≡◌, refl, ◌↔◌, true, false, none, arith}

wraps : range_in_bounds 255 250 10 255 ≡ false
unfolding range_in_bounds checked_add
wraps = refl

checked_mul_exact_example : checked_mul 255 16 16 ≡ none
checked_mul_exact_example = checked_mul_exact 255 16 16

range_in_bounds_iff_example : (range_in_bounds 255 250 5 255 ≡ true) ↔ (250 + 5 ≤ 255)
range_in_bounds_iff_example =
    range_in_bounds_iff 255 250 5 255 (omega arith) (omega arith) (omega arith)
