-- ===== src/Cpu/Flags.antt =====
-- libs/cpu/include/xblob/cpu/flags.hpp: the arithmetic flags, and the conditions that
-- libs/cpu/include/xblob/cpu/instruction.hpp reads from them. A flag is a bit of a word, written as
-- a quotient and a remainder: clearing flags keeps the others, and setting cleared ones adds them. A
-- bit of `a ^ b` is set where the bits differ.
pub mod Conditions
mod Tests
use xblob_emulator.Cpu.Registers.{CpuContext}
use xblob_emulator.Prelude.{
  ℕ, zero, suc, ◌+◌, ◌-◌, ◌*◌, ◌/◌, ◌%◌, ◌^◌, Bool, false, not, ◌&&◌, ◌||◌, ltb, ◌==◌,
  if◌then◌else◌, add32, sub32,
}

-- Bit `k` of a word, as a number.
abbrev pub bit : ℕ → ℕ → ℕ
bit x k = x / 2 ^ k % 2

abbrev pub differ : ℕ → ℕ → ℕ → Bool
differ a b k = not (bit a k == bit b k)

abbrev pub digit : Bool → ℕ
digit b = if b then 1 else 0

abbrev pub flag : Bool → ℕ → ℕ
flag b k = digit b * 2 ^ k

-- The flags that are not arithmetic ones, with the reserved bit 1 set.
abbrev pub other_flags : ℕ → ℕ
other_flags x = 2 + bit x 3 * 8 + bit x 5 * 32 + x / 256 % 8 * 256 + x / 4096 * 4096

abbrev pub with_flags : ℕ → Bool → Bool → Bool → Bool → Bool → Bool → ℕ
with_flags x cf pf af zf sf of =
    other_flags x + (flag cf 0 + (flag pf 2 + (flag af 4 + (flag zf 6 + (flag sf 7 + flag of 11)))))

-- The loop of `CalculateParity`, from bit `i` on.
unfoldable pub count_ones : ℕ → ℕ → ℕ → ℕ
count_ones x i zero = 0
count_ones x i (suc n) = bit x i + count_ones x (i + 1) n

unfoldable pub calculate_parity : ℕ → Bool
calculate_parity byte = count_ones byte 0 8 % 2 == 0

unfoldable pub calculate_add_flags : ℕ → ℕ → ℕ → ℕ
calculate_add_flags a b current =
    let res = add32 a b in
    with_flags current (ltb 0xFFFFFFFF (a + b)) (calculate_parity (res % 2 ^ 8))
      (ltb 15 (a % 16 + b % 16)) (res == 0) (bit res 31 == 1) (differ a res 31 && differ b res 31)

unfoldable pub calculate_adc_flags : ℕ → ℕ → Bool → ℕ → ℕ
calculate_adc_flags a b cf_in current =
    let cin = if cf_in then 1 else 0 in
    let res = (a + b + cin) % 2 ^ 32 in
    with_flags current (ltb 0xFFFFFFFF (a + b + cin)) (calculate_parity (res % 2 ^ 8))
      (ltb 15 (a % 16 + b % 16 + cin)) (res == 0) (bit res 31 == 1)
      (not (differ a b 31) && differ a res 31)

unfoldable pub calculate_sub_flags : ℕ → ℕ → ℕ → ℕ
calculate_sub_flags a b current =
    let res = sub32 a b in
    with_flags current (ltb a b) (calculate_parity (res % 2 ^ 8)) (ltb (a % 16) (b % 16)) (res == 0)
      (bit res 31 == 1) (differ a b 31 && differ a res 31)

unfoldable pub calculate_sub_flags8 : ℕ → ℕ → ℕ → ℕ
calculate_sub_flags8 a b current =
    let res = (a + 2 ^ 8 - b) % 2 ^ 8 in
    with_flags current (ltb a b) (calculate_parity res) (ltb (a % 16) (b % 16)) (res == 0)
      (bit res 7 == 1) (differ a b 7 && differ a res 7)

unfoldable pub calculate_sub_flags16 : ℕ → ℕ → ℕ → ℕ
calculate_sub_flags16 a b current =
    let res = (a + 2 ^ 16 - b) % 2 ^ 16 in
    with_flags current (ltb a b) (calculate_parity (res % 2 ^ 8)) (ltb (a % 16) (b % 16)) (res == 0)
      (bit res 15 == 1) (differ a b 15 && differ a res 15)

-- For words, so that the difference does not stop at 0.
unfoldable pub calculate_sbb_flags : ℕ → ℕ → Bool → ℕ → ℕ
calculate_sbb_flags a b cf_in current =
    let cin = if cf_in then 1 else 0 in
    let res = (a + 2 ^ 32 - (b + cin)) % 2 ^ 32 in
    with_flags current (ltb a (b + cin)) (calculate_parity (res % 2 ^ 8))
      (ltb (a % 16) (b % 16 + cin)) (res == 0) (bit res 31 == 1) (differ a b 31 && differ a res 31)

-- `INC` and `DEC` keep the carry.
unfoldable pub calculate_inc_flags : ℕ → ℕ → ℕ
calculate_inc_flags a current =
    let res = add32 a 1 in
    with_flags current (bit current 0 == 1) (calculate_parity (res % 2 ^ 8)) (a % 16 == 15)
      (res == 0) (bit res 31 == 1) (a == 0x7FFFFFFF)

unfoldable pub calculate_dec_flags : ℕ → ℕ → ℕ
calculate_dec_flags a current =
    let res = sub32 a 1 in
    with_flags current (bit current 0 == 1) (calculate_parity (res % 2 ^ 8)) (a % 16 == 0)
      (res == 0) (bit res 31 == 1) (a == 0x80000000)

unfoldable pub calculate_logic_flags : ℕ → ℕ → ℕ
calculate_logic_flags res current =
    with_flags current false (calculate_parity (res % 2 ^ 8)) false (res == 0) (bit res 31 == 1)
      false

-- `GetFlag`, `SetFlag` and `SetEflags`, with the reserved bit set.
unfoldable pub get_flag : CpuContext → ℕ → Bool
get_flag c k = bit c.eflags k == 1

abbrev pub with_reserved : ℕ → ℕ
with_reserved x = if bit x 1 == 1 then x else x + 2

unfoldable pub set_flag : CpuContext → ℕ → Bool → CpuContext
set_flag c k val =
    let cleared = c.eflags - bit c.eflags k * 2 ^ k in
    record c { eflags = with_reserved (cleared + flag val k) }

unfoldable pub set_eflags : CpuContext → ℕ → CpuContext
set_eflags c val = record c { eflags = with_reserved val }

pub data ConditionCode : Type 0 where
  cond_o cond_no cond_b cond_nb cond_z cond_nz cond_be cond_nbe : ConditionCode
  cond_s cond_ns cond_p cond_np cond_l cond_nl cond_le cond_nle : ConditionCode

unfoldable pub evaluate_condition : ConditionCode → ℕ → Bool
evaluate_condition cond_o f = bit f 11 == 1
evaluate_condition cond_no f = not (bit f 11 == 1)
evaluate_condition cond_b f = bit f 0 == 1
evaluate_condition cond_nb f = not (bit f 0 == 1)
evaluate_condition cond_z f = bit f 6 == 1
evaluate_condition cond_nz f = not (bit f 6 == 1)
evaluate_condition cond_be f = (bit f 0 == 1) || (bit f 6 == 1)
evaluate_condition cond_nbe f = not (bit f 0 == 1) && not (bit f 6 == 1)
evaluate_condition cond_s f = bit f 7 == 1
evaluate_condition cond_ns f = not (bit f 7 == 1)
evaluate_condition cond_p f = bit f 2 == 1
evaluate_condition cond_np f = not (bit f 2 == 1)
evaluate_condition cond_l f = not (bit f 7 == bit f 11)
evaluate_condition cond_nl f = (bit f 7 == bit f 11)
evaluate_condition cond_le f = (bit f 6 == 1) || not (bit f 7 == bit f 11)
evaluate_condition cond_nle f = not (bit f 6 == 1) && (bit f 7 == bit f 11)
