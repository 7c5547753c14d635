-- ===== src/Cpu/Decoder/Stream.antt =====
-- libs/cpu/src/instruction_stream.hpp: the bytes of an instruction, at most 15, and the operand that
-- a ModRM byte describes. The state holds the memory, the bytes read so far, and what the decoder
-- reports of a form that it does not support.
use xblob_emulator.Common.Stateful.{Stateful, ◌>>=◌, pure, gets}
use xblob_emulator.Common.{ErrorCode, invalid_opcode, ok, err, fail, fail_at}
use xblob_emulator.Cpu.Registers.{CpuContext, get_gpr}
use xblob_emulator.Cpu.Instruction.{
  MemoryType, Operand, make_reg, make_reg8, make_reg16, make_mem, DecodedInstruction,
}
use xblob_emulator.Prelude.{
  ℕ, ◌+◌, ◌*◌, ◌/◌, ◌%◌, ◌^◌, Bool, ◌&&◌, Option, none, some, List, [], ◌∷◌, ◌++◌, ltb, leb, ◌==◌,
  if◌then◌else◌, add32,
}

pub record UnsupportedFormInfo : Type 0 where
  pub fault_eip : ℕ
  pub opcode_bytes : List ℕ

pub record InstructionStream (M : Type 0) : Type 0 where
  pub mem : M
  pub eip : ℕ
  pub raw_bytes : List ℕ
  pub length : ℕ
  pub unsupported : Option UnsupportedFormInfo

unfoldable pub instruction_stream : {M : Type 0} → M → ℕ → InstructionStream M
instruction_stream m eip = record {
  mem = m;
  eip = eip;
  raw_bytes = [];
  length = 0;
  unsupported = none;
}

abbrev pub Decode : Type 0 → Type 0 → Type 0
Decode M A = Stateful (InstructionStream M) A

-- The bytes are reported, and the error at the start of the instruction is returned.
unfoldable pub unsupported_form : {M A : Type 0} → ErrorCode → Decode M A
unsupported_form code = λ s. (
  record s { unsupported = some (record { fault_eip = s.eip; opcode_bytes = s.raw_bytes }) },
  fail_at code s.eip,
)

-- The instruction with its length, when all its bytes have been read.
unfoldable pub emit : {M : Type 0} → DecodedInstruction → Decode M (Option DecodedInstruction)
emit inst = gets λ s. some (record inst { length = s.length })

unfoldable pub not_mine : {M : Type 0} → Decode M (Option DecodedInstruction)
not_mine = pure none

abbrev pub among : ℕ → ℕ → ℕ → Bool
among low high x = leb low x && leb x high

-- A signed byte as a 32-bit number.
abbrev pub sign_extend8 : ℕ → ℕ
sign_extend8 b = if ltb b 0x80 then b else b + 0xFFFFFF00

module _ {M : Type 0} (io : MemoryType M) where
  unfoldable pub next_byte : Decode M ℕ
  next_byte s =
      if leb 15 s.length
      then (s, fail invalid_opcode)
      else let (m, r) = io.fetch8 (add32 s.eip s.length) s.mem in
        elim r [
          | err e ↦ (record s { mem = m }, err e)
          | ok b ↦ (
            record s { mem = m; raw_bytes = s.raw_bytes ++ (b ∷ []); length = s.length + 1 },
            ok b,
          )
        ]

  unfoldable pub read_imm32 : Decode M ℕ
  read_imm32 = do
    r0 ← next_byte
    r1 ← next_byte
    r2 ← next_byte
    r3 ← next_byte
    pure (r0 + r1 * 2 ^ 8 + r2 * 2 ^ 16 + r3 * 2 ^ 24)

  unfoldable pub read_imm16 : Decode M ℕ
  read_imm16 = do r0 ← next_byte; r1 ← next_byte; pure (r0 + r1 * 2 ^ 8)

  -- With its sign, as a 32-bit number.
  unfoldable pub read_imm8 : Decode M ℕ
  read_imm8 = do r ← next_byte; pure (sign_extend8 r)

  -- A register and the displacement that `mod` asks for.
  unfoldable pub with_displacement : ℕ → ℕ → Decode M ℕ
  with_displacement base mode =
      if mode == 1
      then (read_imm8 >>= λ disp. pure (add32 base disp))
      else if mode == 2
      then (read_imm32 >>= λ disp. pure (add32 base disp))
      else pure base

  -- The address that a SIB byte describes.
  unfoldable pub sib_address : CpuContext → ℕ → Decode M ℕ
  sib_address ctx mode = do
    sib ← next_byte
    let index = sib / 8 % 8
    let base = sib % 8
    let scaled_index = if index == 4 then 0 else get_gpr ctx index * 2 ^ (sib / 64 % 4) % 2 ^ 32
    base_val ←
        (if (base == 5) && (mode == 0)
          then read_imm32
          else with_displacement (get_gpr ctx base) mode)
    pure (add32 base_val scaled_index)

  unfoldable pub memory_address : CpuContext → ℕ → ℕ → Decode M ℕ
  memory_address ctx mode rm =
      if rm == 4
      then sib_address ctx mode
      else if (mode == 0) && (rm == 5)
      then read_imm32
      else with_displacement (get_gpr ctx rm) mode

  -- The operand, and the register field.
  unfoldable pub parse_mod_rm : CpuContext → ℕ → Decode M (Operand × ℕ)
  parse_mod_rm ctx size_bytes = do
    modrm ← next_byte
    let mode = modrm / 64 % 4
    let reg = modrm / 8 % 8
    let rm = modrm % 8
    let register =
        if size_bytes == 1
        then make_reg8 rm
        else if size_bytes == 2
        then make_reg16 rm
        else make_reg rm
    (if mode == 3
        then pure (register, reg)
        else (memory_address ctx mode rm >>= λ ea. pure (make_mem ea size_bytes, reg)))
