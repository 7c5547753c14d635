-- ===== src/Cpu/Decoder/Extended.antt =====
-- libs/cpu/src/decoder_bit_ext.hpp: CDQ, and the instructions behind the byte 0x0F but jumps.
use xblob_emulator.Common.Stateful.{◌>>=◌}
use xblob_emulator.Common.{unsupported_feature}
use xblob_emulator.Cpu.Registers.{CpuContext}
use xblob_emulator.Cpu.Instruction.{
  MemoryType, make_reg, make_imm, InstructionId, inst_imul, inst_movzx, inst_movsx, inst_cdq,
  inst_bt, inst_setcc, inst_cmpxchg, DecodedInstruction, instruction, condition_code,
}
use xblob_emulator.Cpu.Decoder.Stream.{
  Decode, unsupported_form, emit, not_mine, among, next_byte, parse_mod_rm,
}
use xblob_emulator.Cpu.Decoder.Data.{decode_exchange}
use xblob_emulator.Prelude.{ℕ, ◌%◌, Bool, not, ◌||◌, Option, ◌==◌, if◌then◌else◌}

unfoldable pub try_decode_bit_ext : {M : Type 0} → ℕ → Decode M (Option DecodedInstruction)
try_decode_bit_ext opcode = if opcode == 0x99 then emit (instruction inst_cdq) else not_mine

module _ {M : Type 0} (io : MemoryType M) (ctx : CpuContext) where
  -- MOVZX and MOVSX, from a byte or from two.
  unfoldable pub decode_extension : InstructionId → ℕ → Decode M (Option DecodedInstruction)
  decode_extension id src_size = do
    m ← parse_mod_rm io ctx src_size
    emit (record (instruction id) { op1 = make_reg m.1; op2 = m.0; data_size = src_size })

  -- BT with a register, and with a byte.
  unfoldable pub decode_bt : Bool → Decode M (Option DecodedInstruction)
  decode_bt is_reg = do
    m ← parse_mod_rm io ctx 4
    (if is_reg
        then emit (record (instruction inst_bt) { op1 = m.0; op2 = make_reg m.1 })
        else if not (m.1 == 4)
        then unsupported_form unsupported_feature
        else (next_byte io >>= λ imm.
            emit (record (instruction inst_bt) { op1 = m.0; op2 = make_imm imm 1 })))

  unfoldable pub decode_setcc : ℕ → Decode M (Option DecodedInstruction)
  decode_setcc second_byte = do
    m ← parse_mod_rm io ctx 1
    emit (record (instruction inst_setcc) {
      op1 = m.0;
      condition = condition_code (second_byte % 16);
    })

  unfoldable pub decode_imul_two : Decode M (Option DecodedInstruction)
  decode_imul_two = do
    m ← parse_mod_rm io ctx 4
    emit (record (instruction inst_imul) { op1 = make_reg m.1; op2 = m.0; cycles = 3 })

  unfoldable pub try_decode_two_byte_extended : ℕ → Decode M (Option DecodedInstruction)
  try_decode_two_byte_extended second_byte =
      if (second_byte == 0xB6) || (second_byte == 0xB7)
      then decode_extension inst_movzx (if second_byte == 0xB6 then 1 else 2)
      else if (second_byte == 0xBE) || (second_byte == 0xBF)
      then decode_extension inst_movsx (if second_byte == 0xBE then 1 else 2)
      else if (second_byte == 0xA3) || (second_byte == 0xBA)
      then decode_bt (second_byte == 0xA3)
      else if among 0x90 0x9F second_byte
      then decode_setcc second_byte
      else if second_byte == 0xAF
      then decode_imul_two
      else if (second_byte == 0xB0) || (second_byte == 0xB1)
      then decode_exchange io ctx inst_cmpxchg (if second_byte == 0xB0 then 1 else 4)
      else not_mine
