-- ===== src/Cpu/Instruction/Tests.antt =====
-- Operands on a few registers and on a memory that only answers with the address.
use xblob_emulator.Common.Stateful.{raise, gets}
use xblob_emulator.Common.{invalid_argument, ok, fail}
use xblob_emulator.Cpu.Registers.{cpu_context, get_gpr, get_gpr8}
use xblob_emulator.Cpu.Flags.{cond_nle}
use xblob_emulator.Cpu.Instruction.{
  MemoryType, make_reg8, make_imm, make_mem, Machine, on_mem, from_ctx, read_operand, write_operand,
  condition_code,
}
use xblob_emulator.Prelude.{◌%◌, ◌^◌, ◌≡◌, refl, [], ◌∷◌}

abbrev echo : MemoryType (Unit {0})
echo = record {
  read8 = λ addr m. (m, ok (addr % 2 ^ 8));
  read16 = λ addr m. (m, ok (addr % 2 ^ 16));
  read32 = λ addr m. (m, ok addr);
  write8 = λ addr value m. (m, ok tt);
  write16 = λ addr value m. (m, ok tt);
  write32 = λ addr value m. (m, ok tt);
  fetch8 = λ addr m. (m, ok 0);
}

abbrev start : Machine (Unit {0})
start = record {
  ctx = record cpu_context { gpr = 0x11223344 ∷ 0 ∷ 0 ∷ 0 ∷ 0 ∷ 0 ∷ 0 ∷ 0 ∷ [] };
  mem = tt;
}

high_byte : (read_operand echo (make_reg8 4) start).1 ≡ ok 0x33
unfolding read_operand from_ctx gets make_reg8 get_gpr8 get_gpr
high_byte = refl

half_word : (read_operand echo (make_mem 0x54321 2) start).1 ≡ ok 0x4321
unfolding read_operand on_mem make_mem
half_word = refl

not_writable : (write_operand echo (make_imm 1 4) 2 start).1 ≡ fail invalid_argument
unfolding write_operand raise make_imm
not_writable = refl

last_condition : condition_code 15 ≡ cond_nle
unfolding condition_code
last_condition = refl
