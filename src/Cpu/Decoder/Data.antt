-- ===== src/Cpu/Decoder/Data.antt =====
-- libs/cpu/src/decoder_data.hpp, decoder_atomic.hpp, decoder_string.hpp and decoder_shift.hpp:
-- moves, the stack, exchanges, strings and shifts.
use xblob_emulator.Common.Stateful.{◌>>=◌, pure, raise}
use xblob_emulator.Common.{unsupported_feature, invalid_opcode, fail}
use xblob_emulator.Cpu.Registers.{eax, CpuContext}
use xblob_emulator.Cpu.Instruction.{
  MemoryType, Operand, make_reg, make_reg8, make_imm, make_mem, is_memory, InstructionId, inst_nop,
  inst_hlt, inst_mov, inst_lea, inst_push, inst_pop, inst_pushf, inst_popf, inst_shl, inst_shr,
  inst_sar, inst_rol, inst_ror, inst_movs, inst_stos, inst_lods, inst_cmps, inst_scas, inst_cld,
  inst_std, inst_xchg, DecodedInstruction, instruction,
}
use xblob_emulator.Cpu.Decoder.Stream.{
  Decode, unsupported_form, emit, not_mine, among, next_byte, read_imm32, read_imm8, parse_mod_rm,
}
use xblob_emulator.Cpu.Decoder.Alu.{alu_cycles}
use xblob_emulator.Prelude.{
  ℕ, ◌-◌, Bool, not, ◌||◌, Option, none, some, List, [], ◌∷◌, ◌==◌, if◌then◌else◌, get_or,
}

-- The string instructions: the byte form, the form for words, and the instruction.
abbrev pub string_forms : List (ℕ × ℕ × InstructionId)
string_forms =
    (0xA4, 0xA5, inst_movs)
    ∷ (0xA6, 0xA7, inst_cmps)
    ∷ (0xAA, 0xAB, inst_stos)
    ∷ (0xAC, 0xAD, inst_lods)
    ∷ (0xAE, 0xAF, inst_scas)
    ∷ []

unfoldable pub find_string : ℕ → List (ℕ × ℕ × InstructionId) → Option (InstructionId × ℕ)
find_string opcode [] = none
find_string opcode ((byte, word, id) ∷ fs) =
    let rest = find_string opcode fs in
    if opcode == byte then some (id, 1) else if opcode == word then some (id, 4) else rest

unfoldable pub try_decode_string : {M : Type 0} → ℕ → Decode M (Option DecodedInstruction)
try_decode_string opcode =
    if opcode == 0xFC
    then emit (instruction inst_cld)
    else if opcode == 0xFD
    then emit (instruction inst_std)
    else elim (find_string opcode string_forms) [
      | some (id, size) ↦ emit (record (instruction id) { data_size = size; cycles = 2 })
      | none ↦ not_mine
    ]

-- Group 2 by its register field.
abbrev pub group2_ids : List (Option InstructionId)
group2_ids =
    some inst_rol
    ∷ some inst_ror
    ∷ none
    ∷ none
    ∷ some inst_shl
    ∷ some inst_shr
    ∷ some inst_shl
    ∷ some inst_sar
    ∷ []

abbrev pub is_group2 : ℕ → Bool
is_group2 opcode = among 0xC0 0xC1 opcode || among 0xD0 0xD3 opcode

abbrev pub is_group2_8bit : ℕ → Bool
is_group2_8bit opcode = (opcode == 0xC0) || ((opcode == 0xD0) || (opcode == 0xD2))

module _ {M : Type 0} (io : MemoryType M) (ctx : CpuContext) where
  -- The count of a shift: 1, CL or a byte.
  unfoldable pub shift_count : ℕ → Decode M Operand
  shift_count opcode =
      if among 0xD0 0xD1 opcode
      then pure (make_imm 1 1)
      else if among 0xD2 0xD3 opcode
      then pure (make_reg8 1)
      else (next_byte io >>= λ imm. pure (make_imm imm 1))

  unfoldable pub decode_shift : ℕ → Decode M (Option DecodedInstruction)
  decode_shift opcode = do
    m ← parse_mod_rm io ctx (if is_group2_8bit opcode then 1 else 4)
    (elim (get_or group2_ids m.1 none) [
      | none ↦ unsupported_form unsupported_feature
      | some id ↦ shift_count opcode >>= λ count.
          emit (record (instruction id) { op1 = m.0; op2 = count; cycles = alu_cycles m.0 })
    ])

  unfoldable pub try_decode_shift : ℕ → Decode M (Option DecodedInstruction)
  try_decode_shift opcode = if is_group2 opcode then decode_shift opcode else not_mine

  -- A register operand of the size.
  abbrev pub register_of : ℕ → ℕ → Operand
  register_of size_bytes reg = if size_bytes == 1 then make_reg8 reg else make_reg reg

  -- XCHG and CMPXCHG with a ModRM byte.
  unfoldable pub decode_exchange : InstructionId → ℕ → Decode M (Option DecodedInstruction)
  decode_exchange id size_bytes = do
    m ← parse_mod_rm io ctx size_bytes
    emit (record (instruction id) {
      op1 = m.0;
      op2 = register_of size_bytes m.1;
      data_size = size_bytes;
      cycles = 2;
    })

  unfoldable pub try_decode_atomic : ℕ → Decode M (Option DecodedInstruction)
  try_decode_atomic opcode =
      if among 0x91 0x97 opcode
      then emit (record (instruction inst_xchg) {
        op1 = make_reg eax;
        op2 = make_reg (opcode - 0x90);
        cycles = 2;
      })
      else if (opcode == 0x86) || (opcode == 0x87)
      then decode_exchange inst_xchg (if opcode == 0x86 then 1 else 4)
      else not_mine

  -- MOV with a ModRM byte, in its three forms.
  unfoldable pub decode_mov : ℕ → Decode M (Option DecodedInstruction)
  decode_mov opcode = do
    m ← parse_mod_rm io ctx 4
    (if opcode == 0x89
        then emit (record (instruction inst_mov) {
          op1 = m.0;
          op2 = make_reg m.1;
          cycles = alu_cycles m.0;
        })
        else if opcode == 0x8B
        then emit (record (instruction inst_mov) {
          op1 = make_reg m.1;
          op2 = m.0;
          cycles = alu_cycles m.0;
        })
        else if not (m.1 == 0)
        then raise (fail invalid_opcode)
        else (read_imm32 io >>= λ imm. emit (record (instruction inst_mov) {
          op1 = m.0;
          op2 = make_imm imm 4;
          cycles = alu_cycles m.0;
        })))

  unfoldable pub decode_lea : Decode M (Option DecodedInstruction)
  decode_lea = do
    m ← parse_mod_rm io ctx 4
    (if not (is_memory m.0)
        then raise (fail invalid_opcode)
        else emit
            (record (instruction inst_lea) { op1 = make_reg m.1; op2 = make_imm m.0.mem_addr 4 }))

  -- An immediate or an address follows the opcode.
  unfoldable pub with_imm32 : (ℕ → DecodedInstruction) → Decode M (Option DecodedInstruction)
  with_imm32 f = read_imm32 io >>= λ imm. emit (f imm)

  unfoldable pub try_decode_data : ℕ → Decode M (Option DecodedInstruction)
  try_decode_data opcode =
      if opcode == 0x90
      then emit (instruction inst_nop)
      else if opcode == 0xF4
      then emit (instruction inst_hlt)
      else if among 0xB8 0xBF opcode
      then with_imm32 (λ imm. record (instruction inst_mov) {
        op1 = make_reg (opcode - 0xB8);
        op2 = make_imm imm 4;
      })
      else if (opcode == 0x89) || ((opcode == 0x8B) || (opcode == 0xC7))
      then decode_mov opcode
      else if opcode == 0xA1
      then with_imm32 (λ addr. record (instruction inst_mov) {
        op1 = make_reg eax;
        op2 = make_mem addr 4;
        cycles = 2;
      })
      else if opcode == 0xA3
      then with_imm32 (λ addr. record (instruction inst_mov) {
        op1 = make_mem addr 4;
        op2 = make_reg eax;
        cycles = 2;
      })
      else if opcode == 0x8D
      then decode_lea
      else if among 0x50 0x57 opcode
      then emit (record (instruction inst_push) { op1 = make_reg (opcode - 0x50) })
      else if opcode == 0x68
      then with_imm32 (λ imm. record (instruction inst_push) { op1 = make_imm imm 4 })
      else if opcode == 0x6A
      then (read_imm8 io >>= λ imm. emit (record (instruction inst_push) { op1 = make_imm imm 4 }))
      else if among 0x58 0x5F opcode
      then emit (record (instruction inst_pop) { op1 = make_reg (opcode - 0x58) })
      else if opcode == 0x9C
      then emit (record (instruction inst_pushf) { cycles = 2 })
      else if opcode == 0x9D
      then emit (record (instruction inst_popf) { cycles = 2 })
      else not_mine
