-- ===== src/Cpu/Decoder/Alu.antt =====
-- libs/cpu/src/decoder_alu.hpp and decoder_mul_div.hpp: arithmetic and logic.
use xblob_emulator.Common.Stateful.{◌>>=◌}
use xblob_emulator.Common.{unsupported_feature}
use xblob_emulator.Cpu.Registers.{eax, CpuContext}
use xblob_emulator.Cpu.Instruction.{
  MemoryType, Operand, make_reg, make_imm, is_memory, InstructionId, inst_unknown, inst_add,
  inst_adc, inst_sub, inst_sbb, inst_cmp, inst_and, inst_or, inst_xor, inst_test, inst_mul,
  inst_imul, inst_div, inst_idiv, DecodedInstruction, instruction,
}
use xblob_emulator.Cpu.Decoder.Stream.{
  Decode, unsupported_form, emit, not_mine, next_byte, read_imm32, read_imm8, parse_mod_rm,
}
use xblob_emulator.Prelude.{
  ℕ, Bool, ◌||◌, Option, none, some, List, [], ◌∷◌, ◌==◌, if◌then◌else◌, get_or,
}

pub data OperandForm : Type 0 where
  rm_reg reg_rm eax_imm : OperandForm

-- The opcodes of an instruction: its three forms.
pub record AluForms : Type 0 where
  pub id : InstructionId
  pub rm_reg32 : ℕ
  pub reg_rm32 : ℕ
  pub eax_imm32 : ℕ

abbrev pub alu_forms : List AluForms
alu_forms =
    record { id = inst_add; rm_reg32 = 0x01; reg_rm32 = 0x03; eax_imm32 = 0x05 }
    ∷ record { id = inst_adc; rm_reg32 = 0x11; reg_rm32 = 0x13; eax_imm32 = 0x15 }
    ∷ record { id = inst_sub; rm_reg32 = 0x29; reg_rm32 = 0x2B; eax_imm32 = 0x2D }
    ∷ record { id = inst_sbb; rm_reg32 = 0x19; reg_rm32 = 0x1B; eax_imm32 = 0x1D }
    ∷ record { id = inst_cmp; rm_reg32 = 0x39; reg_rm32 = 0x3B; eax_imm32 = 0x3D }
    ∷ record { id = inst_and; rm_reg32 = 0x21; reg_rm32 = 0x23; eax_imm32 = 0x25 }
    ∷ record { id = inst_or; rm_reg32 = 0x09; reg_rm32 = 0x0B; eax_imm32 = 0x0D }
    ∷ record { id = inst_xor; rm_reg32 = 0x31; reg_rm32 = 0x33; eax_imm32 = 0x35 }
    ∷ []

unfoldable pub find_form : ℕ → List AluForms → Option (InstructionId × OperandForm)
find_form opcode [] =
    if opcode == 0x85
    then some (inst_test, rm_reg)
    else if opcode == 0xA9
    then some (inst_test, eax_imm)
    else none
find_form opcode (f ∷ fs) =
    let rest = find_form opcode fs in
    if opcode == f.rm_reg32
    then some (f.id, rm_reg)
    else if opcode == f.reg_rm32
    then some (f.id, reg_rm)
    else if opcode == f.eax_imm32
    then some (f.id, eax_imm)
    else rest

abbrev pub group1_ids : List InstructionId
group1_ids =
    inst_add ∷ inst_or ∷ inst_adc ∷ inst_sbb ∷ inst_and ∷ inst_sub ∷ inst_xor ∷ inst_cmp ∷ []

-- The instructions of group 3 but TEST, with their cycles.
unfoldable pub group3 : ℕ → Option (InstructionId × ℕ)
group3 reg_op =
    if reg_op == 4
    then some (inst_mul, 3)
    else if reg_op == 5
    then some (inst_imul, 3)
    else if reg_op == 6
    then some (inst_div, 10)
    else if reg_op == 7
    then some (inst_idiv, 10)
    else none

abbrev pub alu_cycles : Operand → ℕ
alu_cycles op = if is_memory op then 2 else 1

module _ {M : Type 0} (io : MemoryType M) (ctx : CpuContext) where
  unfoldable pub parse_two_op : InstructionId → OperandForm → Decode M (Option DecodedInstruction)
  parse_two_op id eax_imm = do
    imm ← read_imm32 io
    emit (record (instruction id) { op1 = make_reg eax; op2 = make_imm imm 4; cycles = 1 })
  parse_two_op id rm_reg = do
    m ← parse_mod_rm io ctx 4
    emit (record (instruction id) { op1 = m.0; op2 = make_reg m.1; cycles = alu_cycles m.0 })
  parse_two_op id reg_rm = do
    m ← parse_mod_rm io ctx 4
    emit (record (instruction id) { op1 = make_reg m.1; op2 = m.0; cycles = alu_cycles m.0 })

  unfoldable pub decode_group3 : ℕ → Decode M (Option DecodedInstruction)
  decode_group3 size_bytes = do
    m ← parse_mod_rm io ctx size_bytes
    (if m.1 == 0
        then ((if size_bytes == 1 then next_byte io else read_imm32 io) >>= λ imm.
            emit (record (instruction inst_test) {
              op1 = m.0;
              op2 = make_imm imm size_bytes;
              cycles = alu_cycles m.0;
              data_size = size_bytes;
            }))
        else elim (group3 m.1) [
          | some (id, count) ↦
              emit (record (instruction id) { op1 = m.0; cycles = count; data_size = size_bytes })
          | none ↦ unsupported_form unsupported_feature
        ])

  unfoldable pub decode_group1 : Bool → Decode M (Option DecodedInstruction)
  decode_group1 is_imm32 = do
    m ← parse_mod_rm io ctx 4
    imm ← (if is_imm32 then read_imm32 io else read_imm8 io)
    emit (record (instruction (get_or group1_ids m.1 inst_unknown)) {
      op1 = m.0;
      op2 = make_imm imm 4;
      cycles = alu_cycles m.0;
    })

  unfoldable pub try_decode_alu : ℕ → Decode M (Option DecodedInstruction)
  try_decode_alu opcode = elim (find_form opcode alu_forms) [
    | some (id, form) ↦ parse_two_op id form
    | none ↦
        if (opcode == 0xF7) || (opcode == 0xF6)
        then decode_group3 (if opcode == 0xF6 then 1 else 4)
        else if (opcode == 0x81) || (opcode == 0x83)
        then decode_group1 (opcode == 0x81)
        else not_mine
  ]

  -- IMUL of three operands.
  unfoldable pub decode_imul : Bool → Decode M (Option DecodedInstruction)
  decode_imul is_imm32 = do
    m ← parse_mod_rm io ctx 4
    imm ← (if is_imm32 then read_imm32 io else read_imm8 io)
    emit (record (instruction inst_imul) {
      op1 = make_reg m.1;
      op2 = m.0;
      op3 = make_imm imm 4;
      cycles = 3;
    })

  unfoldable pub try_decode_mul_div : ℕ → Decode M (Option DecodedInstruction)
  try_decode_mul_div opcode =
      if (opcode == 0x69) || (opcode == 0x6B) then decode_imul (opcode == 0x69) else not_mine
