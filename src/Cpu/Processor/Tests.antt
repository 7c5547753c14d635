-- ===== src/Cpu/Processor/Tests.antt =====
-- A program of three bytes: INC EAX, PUSH EAX, HLT, on a memory that is a function.
use xblob_emulator.Common.Stateful.{◌>>=◌, ◌>>◌, pure, gets, modify}
use xblob_emulator.Common.{ok}
use xblob_emulator.Cpu.Registers.{esp, cpu_context, get_gpr, set_gpr}
use xblob_emulator.Cpu.Flags.{set_eflags}
use xblob_emulator.Cpu.Instruction.{
  MemoryType, make_reg, on_mem, on_ctx, from_ctx, read_operand, write_operand,
}
use xblob_emulator.Cpu.Decoder.Stream.{instruction_stream, emit, not_mine, next_byte}
use xblob_emulator.Cpu.Decoder.Alu.{find_form, try_decode_alu, try_decode_mul_div}
use xblob_emulator.Cpu.Decoder.Data.{
  find_string, try_decode_string, try_decode_shift, try_decode_atomic, try_decode_data,
}
use xblob_emulator.Cpu.Decoder.Extended.{try_decode_bit_ext}
use xblob_emulator.Cpu.Decoder.{
  add_prefix, finalize, or_else, read_prefixes, decode_core, decode_opcode, decode,
}
use xblob_emulator.Cpu.Executor.Basic.{
  alu_one, commit, execute_step, execute_alu, push_word, execute_stack,
}
use xblob_emulator.Cpu.Executor.{execute}
use xblob_emulator.Cpu.Processor.{
  InterruptSource, running_cpu, Processor, RunStatus, run_halted, budget_exhausted, RunOutcome,
  check_interrupt, commit_step, execute_step_of, decode_step, step_generic, run_rounds,
  run_with_budget,
}
use xblob_emulator.Prelude.{ℕ, ◌≡◌, refl, false, none, ◌==◌, if◌then◌else◌}

abbrev cells : MemoryType (ℕ → ℕ)
cells = record {
  read8 = λ addr m. (m, ok (m addr));
  read16 = λ addr m. (m, ok (m addr));
  read32 = λ addr m. (m, ok (m addr));
  write8 = λ addr value m. ((λ a. if a == addr then value else m a), ok tt);
  write16 = λ addr value m. ((λ a. if a == addr then value else m a), ok tt);
  write32 = λ addr value m. ((λ a. if a == addr then value else m a), ok tt);
  fetch8 = λ addr m. (m, ok (m addr));
}

abbrev no_interrupts : InterruptSource (Unit {0})
no_interrupts = record {
  has_pending_interrupt = λ i. false;
  acknowledge_interrupt = λ i. (i, none);
}

abbrev program : ℕ → ℕ
program a = if a == 0 then 0x40 else if a == 1 then 0x50 else if a == 2 then 0xF4 else 0

abbrev booted : Processor (Unit {0}) (ℕ → ℕ)
booted = record {
  machine = record { ctx = set_gpr cpu_context esp 0x100; mem = program };
  source = tt;
  lifecycle = running_cpu;
  last_fault = none;
  last_exception = none;
  last_unsupported = none;
}

abbrev run : ℕ → RunOutcome
run count = (run_with_budget cells (λ m. none) no_interrupts none count 100 booted).1

abbrev expected : RunStatus → ℕ → ℕ → RunOutcome
expected status count cycles = record {
  status = status;
  instructions_executed = count;
  cycles_consumed = cycles;
  fault = none;
  exception = none;
  unsupported_form = none;
}

halts : run 10 ≡ expected run_halted 3 3
unfolding run_with_budget run_rounds step_generic check_interrupt decode_step execute_step_of
    commit_step decode instruction_stream read_prefixes next_byte ◌>>=◌ ◌>>◌ pure add_prefix
    decode_opcode or_else try_decode_shift try_decode_string find_string try_decode_mul_div
    try_decode_bit_ext try_decode_atomic try_decode_alu find_form try_decode_data decode_core emit
    gets modify not_mine finalize execute execute_alu execute_step execute_stack push_word commit
    alu_one read_operand write_operand on_mem on_ctx from_ctx make_reg get_gpr set_gpr set_eflags
halts = refl

out_of_budget : run 1 ≡ expected budget_exhausted 1 1
unfolding run_with_budget run_rounds step_generic check_interrupt decode_step execute_step_of
    commit_step decode instruction_stream read_prefixes next_byte ◌>>=◌ ◌>>◌ pure add_prefix
    decode_opcode or_else try_decode_shift try_decode_string find_string try_decode_mul_div
    try_decode_bit_ext try_decode_atomic try_decode_alu find_form try_decode_data decode_core emit
    gets modify not_mine finalize execute execute_alu execute_step execute_stack push_word commit
    alu_one read_operand write_operand on_mem on_ctx from_ctx make_reg get_gpr set_gpr set_eflags
out_of_budget = refl
