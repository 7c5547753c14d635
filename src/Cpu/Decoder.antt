-- ===== src/Cpu/Decoder.antt =====
-- libs/cpu/src/decoder.cpp: the decoder of instructions. It reads prefixes, then an opcode, and asks
-- the decoders of the families in turn.
pub mod Stream
pub mod Alu
pub mod Data
pub mod Extended
pub mod Bounds
mod Tests
use xblob_emulator.Common.Stateful.{◌>>=◌, ◌>>◌, pure, raise}
use xblob_emulator.Common.{unsupported_feature, invalid_opcode, fail, fail_at}
use xblob_emulator.Cpu.Registers.{CpuContext}
use xblob_emulator.Cpu.Instruction.{
  MemoryType, make_reg, make_imm, is_memory, InstructionId, inst_push, inst_pop, inst_call,
  inst_ret, inst_add, inst_sub, inst_inc, inst_dec, inst_and, inst_or, inst_xor, inst_jmp, inst_jcc,
  inst_cli, inst_sti, inst_iret, inst_int, inst_movs, inst_stos, inst_lods, inst_cmps, inst_scas,
  inst_xchg, inst_cmpxchg, DecodedInstruction, instruction, condition_code,
}
use xblob_emulator.Cpu.Decoder.Stream.{
  Decode, unsupported_form, emit, among, next_byte, read_imm32, read_imm16, read_imm8, parse_mod_rm,
}
use xblob_emulator.Cpu.Decoder.Alu.{alu_cycles, try_decode_alu, try_decode_mul_div}
use xblob_emulator.Cpu.Decoder.Data.{
  try_decode_string, try_decode_shift, try_decode_atomic, try_decode_data,
}
use xblob_emulator.Cpu.Decoder.Extended.{try_decode_bit_ext, try_decode_two_byte_extended}
use xblob_emulator.Prelude.{
  ℕ, zero, suc, ◌-◌, Bool, true, false, not, ◌&&◌, ◌||◌, Option, none, some, ◌==◌, if◌then◌else◌,
  add32,
}

pub record Prefixes : Type 0 where
  pub rep : Bool
  pub repne : Bool
  pub lock : Bool
  pub op_size : Bool
  pub addr_size : Bool

abbrev pub no_prefix : Prefixes
no_prefix = record { rep = false; repne = false; lock = false; op_size = false; addr_size = false }

abbrev pub is_segment_prefix : ℕ → Bool
is_segment_prefix b =
    (b == 0x2E) || ((b == 0x36) || ((b == 0x3E) || ((b == 0x26) || ((b == 0x64) || (b == 0x65)))))

-- The prefixes with one more byte, if it is a prefix.
unfoldable pub add_prefix : ℕ → Prefixes → Option Prefixes
add_prefix b p =
    if b == 0xF3
    then some (record p { rep = true })
    else if b == 0xF2
    then some (record p { repne = true })
    else if b == 0xF0
    then some (record p { lock = true })
    else if b == 0x66
    then some (record p { op_size = true })
    else if b == 0x67
    then some (record p { addr_size = true })
    else if is_segment_prefix b
    then some p
    else none

abbrev pub is_string : InstructionId → Bool
is_string inst_movs = true
is_string inst_stos = true
is_string inst_lods = true
is_string inst_cmps = true
is_string inst_scas = true
is_string _ = false

abbrev pub is_lockable : InstructionId → Bool
is_lockable inst_cmpxchg = true
is_lockable inst_xchg = true
is_lockable inst_add = true
is_lockable inst_sub = true
is_lockable inst_and = true
is_lockable inst_or = true
is_lockable inst_xor = true
is_lockable inst_inc = true
is_lockable inst_dec = true
is_lockable _ = false

unfoldable pub finalize : {M : Type 0} → Prefixes → DecodedInstruction → Decode M DecodedInstruction
finalize p i =
    let inst : DecodedInstruction = record i { rep = p.rep; repne = p.repne; lock = p.lock } in
    if (p.rep || p.repne) && not (is_string i.id)
    then unsupported_form unsupported_feature
    else if p.lock && not (is_lockable i.id)
    then unsupported_form invalid_opcode
    else pure inst

-- The first decoder that takes the opcode.
unfoldable pub or_else :
    {M : Type 0}
    → Decode M (Option DecodedInstruction)
    → Decode M (Option DecodedInstruction)
    → Decode M (Option DecodedInstruction)
or_else first second = first >>= λ found. elim found [ some i ↦ pure (some i) | none ↦ second ]

-- A jump to an address relative to the end of the instruction.
unfoldable pub emit_relative :
    {M : Type 0}
    → DecodedInstruction
    → ℕ
    → (DecodedInstruction → ℕ → DecodedInstruction)
    → Decode M (Option DecodedInstruction)
emit_relative inst disp target = λ s. emit (target inst (add32 (add32 s.eip s.length) disp)) s

abbrev pub to_target : DecodedInstruction → ℕ → DecodedInstruction
to_target inst target = record inst { branch_target = target; op1 = make_imm target 4 }

abbrev pub to_branch : DecodedInstruction → ℕ → DecodedInstruction
to_branch inst target = record inst { branch_target = target }

-- Group 5 by its register field, with the cycles for a register and for memory.
unfoldable pub group5 : ℕ → Option (InstructionId × ℕ × ℕ)
group5 reg =
    if reg == 0
    then some (inst_inc, 1, 2)
    else if reg == 1
    then some (inst_dec, 1, 2)
    else if reg == 2
    then some (inst_call, 3, 3)
    else if reg == 4
    then some (inst_jmp, 2, 2)
    else if reg == 6
    then some (inst_push, 1, 2)
    else none

module _ {M : Type 0} (io : MemoryType M) where
  -- `fuel` bytes at most: the stream ends after 15.
  unfoldable pub read_prefixes : ℕ → Prefixes → Decode M (Prefixes × ℕ)
  read_prefixes zero p = raise (fail invalid_opcode)
  read_prefixes (suc fuel) p = do
    b ← next_byte io
    (elim (add_prefix b p) [ some p' ↦ read_prefixes fuel p' | none ↦ pure (p, b) ])

  module _ (ctx : CpuContext) where
    unfoldable pub decode_group5 : Decode M (Option DecodedInstruction)
    decode_group5 = do
      m ← parse_mod_rm io ctx 4
      (elim (group5 m.1) [
        | none ↦ raise (fail invalid_opcode)
        | some (id, register, memory) ↦ emit (record (instruction id) {
          op1 = m.0;
          cycles = if is_memory m.0 then memory else register;
        })
      ])

    unfoldable pub decode_pop : Decode M (Option DecodedInstruction)
    decode_pop = do
      m ← parse_mod_rm io ctx 4
      (if not (m.1 == 0)
          then raise (fail invalid_opcode)
          else emit (record (instruction inst_pop) { op1 = m.0; cycles = alu_cycles m.0 }))

    unfoldable pub decode_two_byte : Decode M (Option DecodedInstruction)
    decode_two_byte = do
      second ← next_byte io
      (if among 0x80 0x8F second
          then (read_imm32 io >>= λ disp.
              emit_relative
                (record (instruction inst_jcc) { condition = condition_code (second - 0x80) }) disp
                to_branch)
          else or_else (try_decode_two_byte_extended io ctx second) (raise (fail invalid_opcode)))

    -- The opcodes that `Decode` itself knows.
    unfoldable pub decode_core : ℕ → Decode M (Option DecodedInstruction)
    decode_core opcode =
        if opcode == 0xE8
        then (read_imm32 io >>= λ disp.
            emit_relative (record (instruction inst_call) { cycles = 2 }) disp to_target)
        else if opcode == 0xC3
        then emit (record (instruction inst_ret) { cycles = 2 })
        else if opcode == 0xC2
        then (read_imm16 io >>= λ count.
            emit (record (instruction inst_ret) { ret_pop_bytes = count; cycles = 2 }))
        else if opcode == 0xEB
        then (read_imm8 io >>= λ disp. emit_relative (instruction inst_jmp) disp to_target)
        else if opcode == 0xE9
        then (read_imm32 io >>= λ disp. emit_relative (instruction inst_jmp) disp to_target)
        else if opcode == 0xFF
        then decode_group5
        else if among 0x40 0x47 opcode
        then emit (record (instruction inst_inc) { op1 = make_reg (opcode - 0x40) })
        else if among 0x48 0x4F opcode
        then emit (record (instruction inst_dec) { op1 = make_reg (opcode - 0x48) })
        else if opcode == 0x8F
        then decode_pop
        else if among 0x70 0x7F opcode
        then (read_imm8 io >>= λ disp.
            emit_relative
              (record (instruction inst_jcc) { condition = condition_code (opcode - 0x70) }) disp
              to_branch)
        else if opcode == 0x0F
        then decode_two_byte
        else if opcode == 0xFA
        then emit (instruction inst_cli)
        else if opcode == 0xFB
        then emit (instruction inst_sti)
        else if opcode == 0xCF
        then emit (record (instruction inst_iret) { cycles = 4 })
        else if opcode == 0xCD
        then (next_byte io >>= λ vector.
            emit (record (instruction inst_int) { int_vector = vector; cycles = 4 }))
        else raise (fail_at invalid_opcode opcode)

    unfoldable pub decode_opcode : ℕ → Decode M (Option DecodedInstruction)
    decode_opcode opcode = or_else (try_decode_shift io ctx opcode) (
        or_else (try_decode_string opcode) (
          or_else (try_decode_mul_div io ctx opcode) (
            or_else (try_decode_bit_ext opcode) (
              or_else (try_decode_atomic io ctx opcode) (
                or_else (try_decode_alu io ctx opcode)
                  (or_else (try_decode_data io ctx opcode) (decode_core opcode)))))))

    unfoldable pub decode : Decode M DecodedInstruction
    decode = do
      o ← read_prefixes 16 no_prefix
      (if o.0.rep && o.0.repne
          then unsupported_form invalid_opcode
          else if o.0.addr_size || o.0.op_size
          then unsupported_form unsupported_feature
          else (decode_opcode o.1 >>= λ found. elim found [
            | some i ↦ finalize o.0 i
            | none ↦ raise (fail_at invalid_opcode o.1)
          ]))
