-- ===== src/Cpu/Flags/Tests.antt =====
-- Flags and conditions at a few words.
use xblob_emulator.Cpu.Registers.{cpu_context}
use xblob_emulator.Cpu.Flags.{
  count_ones, calculate_parity, calculate_add_flags, calculate_sub_flags, calculate_sbb_flags,
  calculate_inc_flags, set_flag, set_eflags, cond_b, cond_nb, cond_z, cond_nz, cond_be, cond_nbe,
  cond_l, cond_nl, cond_le, cond_nle, evaluate_condition,
}
use xblob_emulator.Cpu.Flags.Conditions.{evaluate_condition_lem}
use xblob_emulator.Prelude.{◌≡◌, refl, true, false, arith}

even_parity : calculate_parity 0x81 ≡ true
unfolding calculate_parity count_ones
even_parity = refl

-- 0x7FFFFFFF + 1: sign, overflow, the half carry and parity.
sum_overflows : calculate_add_flags 0x7FFFFFFF 1 2 ≡ 0x896
unfolding calculate_add_flags calculate_parity count_ones
sum_overflows = refl

inc_keeps_carry : calculate_inc_flags 0xFFFFFFFF 3 ≡ 0x57
unfolding calculate_inc_flags calculate_parity count_ones
inc_keeps_carry = refl

borrow_wraps : calculate_sbb_flags 0 0xFFFFFFFF true 2 ≡ 0x57
unfolding calculate_sbb_flags calculate_parity count_ones
borrow_wraps = refl

cleared_carry :
    set_eflags (set_flag (set_eflags cpu_context 0x203) 0 false) 0x200
    ≡ record cpu_context { eflags = 0x202 }
unfolding set_flag set_eflags
cleared_carry = refl

evaluate_condition_lem_example :
    let f = calculate_sub_flags 5 0xFFFFFFFE 0x202 in
    (evaluate_condition cond_b f ≡ true)
    × (evaluate_condition cond_nb f ≡ false)
    × (evaluate_condition cond_z f ≡ false)
    × (evaluate_condition cond_nz f ≡ true)
    × (evaluate_condition cond_be f ≡ true)
    × (evaluate_condition cond_nbe f ≡ false)
    × (evaluate_condition cond_l f ≡ false)
    × (evaluate_condition cond_nl f ≡ true)
    × (evaluate_condition cond_le f ≡ false)
    × (evaluate_condition cond_nle f ≡ true)
evaluate_condition_lem_example =
    evaluate_condition_lem 5 0xFFFFFFFE 0x202 (omega arith) (omega arith)
