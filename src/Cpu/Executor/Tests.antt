-- ===== src/Cpu/Executor/Tests.antt =====
-- Instructions on a memory that is a function, with the stack at 0x100.
use xblob_emulator.Common.Stateful.{◌>>=◌, ◌>>◌, pure, gets, modify}
use xblob_emulator.Common.{ok}
use xblob_emulator.Cpu.Registers.{cpu_context, get_gpr, set_gpr}
use xblob_emulator.Cpu.Flags.{get_flag, set_flag, set_eflags}
use xblob_emulator.Cpu.Instruction.{
  MemoryType, make_reg, make_imm, Machine, on_mem, on_ctx, from_ctx, read_operand, write_operand,
  inst_push, inst_sub, inst_ror, inst_div, inst_idiv, inst_stos, DecodedInstruction, instruction,
}
use xblob_emulator.Cpu.Executor.Basic.{
  branch_to, alu_two, commit, execute_two, execute_alu, push_word, execute_stack,
}
use xblob_emulator.Cpu.Executor.Arithmetic.{
  shift_outcome, shift_flags, signed_division, unsigned_division, divide_error, execute_shift,
  execute_division, execute_mul_div,
}
use xblob_emulator.Cpu.Executor.Strings.{string_element, repeat_round, execute_string}
use xblob_emulator.Cpu.Executor.{execute}
use xblob_emulator.Prelude.{ℕ, ◌%◌, ◌^◌, ◌≡◌, refl, true, none, List, [], ◌∷◌, ◌==◌, if◌then◌else◌}

-- A memory of words, of which the low byte or the low half is read.
abbrev words : MemoryType (ℕ → ℕ)
words = record {
  read8 = λ addr m. (m, ok (m addr % 2 ^ 8));
  read16 = λ addr m. (m, ok (m addr % 2 ^ 16));
  read32 = λ addr m. (m, ok (m addr));
  write8 = λ addr value m. ((λ a. if a == addr then value else m a), ok tt);
  write16 = λ addr value m. ((λ a. if a == addr then value else m a), ok tt);
  write32 = λ addr value m. ((λ a. if a == addr then value else m a), ok tt);
  fetch8 = λ addr m. (m, ok 0x90);
}

abbrev start : Machine (ℕ → ℕ)
start = record {
  ctx = record cpu_context { gpr = 7 ∷ 3 ∷ 0 ∷ 5 ∷ 0x100 ∷ 0 ∷ 0 ∷ 0 ∷ [] };
  mem = λ a. 0;
}

-- The registers after an instruction.
abbrev after : DecodedInstruction → List ℕ
after inst = ((execute words none inst 0x400) start).0.ctx.gpr

pushed_register :
    after (record (instruction inst_push) { op1 = make_reg 3 })
    ≡ 7 ∷ 3 ∷ 0 ∷ 5 ∷ 0xFC ∷ 0 ∷ 0 ∷ 0 ∷ []
unfolding execute execute_stack push_word read_operand on_mem on_ctx from_ctx ◌>>=◌ ◌>>◌ pure gets
    modify get_gpr set_gpr make_reg
pushed_register = refl

subtracted :
    after (record (instruction inst_sub) { op1 = make_reg 1; op2 = make_reg 0 })
    ≡ 7 ∷ 0xFFFFFFFC ∷ 0 ∷ 5 ∷ 0x100 ∷ 0 ∷ 0 ∷ 0 ∷ []
unfolding execute execute_alu execute_two commit alu_two read_operand write_operand on_ctx from_ctx
    ◌>>=◌ ◌>>◌ pure gets modify get_gpr set_gpr make_reg set_eflags
subtracted = refl

divided :
    after (record (instruction inst_idiv) { op1 = make_imm 0xFFFFFFFE 4 })
    ≡ 0xFFFFFFFD ∷ 3 ∷ 1 ∷ 5 ∷ 0x100 ∷ 0 ∷ 0 ∷ 0 ∷ []
unfolding execute execute_mul_div execute_division signed_division read_operand on_ctx from_ctx
    ◌>>=◌ ◌>>◌ pure gets modify get_gpr set_gpr make_imm
divided = refl

not_divided :
    (execute words none (record (instruction inst_div) { op1 = make_reg 2 }) 0x400) start
    ≡ (start, ok (divide_error 0x400))
unfolding execute execute_mul_div execute_division unsigned_division read_operand on_ctx from_ctx
    ◌>>=◌ ◌>>◌ pure gets modify get_gpr make_reg
not_divided = refl

rotated :
    after (record (instruction inst_ror) { op1 = make_reg 0; op2 = make_imm 1 1 })
    ≡ 0x80000003 ∷ 3 ∷ 0 ∷ 5 ∷ 0x100 ∷ 0 ∷ 0 ∷ 0 ∷ []
unfolding execute execute_shift shift_outcome shift_flags read_operand write_operand on_ctx from_ctx
    ◌>>=◌ ◌>>◌ pure gets modify get_gpr set_gpr make_reg make_imm set_flag
rotated = refl

-- A repeated store leaves two more rounds.
stored_once :
    ((execute words none (record (instruction inst_stos) { rep = true }) 0x400) start).1
    ≡ ok (branch_to 0x400)
unfolding execute execute_string repeat_round string_element read_operand on_mem on_ctx from_ctx
    ◌>>=◌ ◌>>◌ pure gets modify get_gpr set_gpr get_flag
stored_once = refl
