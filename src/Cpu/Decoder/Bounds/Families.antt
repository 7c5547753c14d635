-- ===== src/Cpu/Decoder/Bounds/Families.antt =====
-- The decoders of the families: an instruction that they find has the length of the bytes read.
use xblob_emulator.Common.{unsupported_feature}
use xblob_emulator.Cpu.Registers.{CpuContext}
use xblob_emulator.Cpu.Instruction.{
  MemoryType, is_memory, InstructionId, inst_xchg, DecodedInstruction,
}
use xblob_emulator.Cpu.Decoder.Stream.{Decode, among, read_imm32, read_imm8}
use xblob_emulator.Cpu.Decoder.Alu.{
  OperandForm, rm_reg, reg_rm, eax_imm, alu_forms, find_form, group3, parse_two_op, decode_group3,
  decode_group1, try_decode_alu, decode_imul, try_decode_mul_div,
}
use xblob_emulator.Cpu.Decoder.Data.{
  string_forms, find_string, try_decode_string, group2_ids, is_group2, is_group2_8bit, shift_count,
  decode_shift, try_decode_shift, decode_exchange, try_decode_atomic, decode_mov, decode_lea,
  with_imm32, try_decode_data,
}
use xblob_emulator.Cpu.Decoder.Extended.{try_decode_bit_ext}
use xblob_emulator.Cpu.Decoder.Bounds.{
  Reads, Sizes, emit-Sizes, not_mine-Sizes, raise-Sizes, unsupported_form-Sizes, pure-Reads,
  bind-Sizes, bind-Reads, if-Sizes, if-Reads, next_byte-Reads, read_imm32-Reads, read_imm8-Reads,
  parse_mod_rm-Reads,
}
use xblob_emulator.Prelude.{ℕ, Bool, not, ◌||◌, Option, none, some, ◌==◌, if◌then◌else◌, get_or}

pub Option-Sizes :
    {M A : Type 0} (o : Option A) {m : Decode M (Option DecodedInstruction)}
    {k : A → Decode M (Option DecodedInstruction)}
    → Sizes m
    → ((a : A) → Sizes (k a))
    → Sizes (elim o [ none ↦ m | some a ↦ k a ])
Option-Sizes none h n = h
Option-Sizes (some a) h n = n a

pub try_decode_string-Sizes : {M : Type 0} (opcode : ℕ) → Sizes {M = M} (try_decode_string opcode)
unfolding try_decode_string
try_decode_string-Sizes opcode = if-Sizes (opcode == 0xFC) (emit-Sizes _) (
    if-Sizes (opcode == 0xFD) (emit-Sizes _)
      (Option-Sizes (find_string opcode string_forms) not_mine-Sizes (λ f. emit-Sizes _)))

pub try_decode_bit_ext-Sizes : {M : Type 0} (opcode : ℕ) → Sizes {M = M} (try_decode_bit_ext opcode)
unfolding try_decode_bit_ext
try_decode_bit_ext-Sizes opcode = if-Sizes (opcode == 0x99) (emit-Sizes _) not_mine-Sizes

module _ {M : Type 0} (io : MemoryType M) (ctx : CpuContext) where
  parse_two_op-Sizes : (id : InstructionId) (f : OperandForm) → Sizes (parse_two_op io ctx id f)
  unfolding parse_two_op
  parse_two_op-Sizes id eax_imm = bind-Sizes (read_imm32-Reads io) (λ imm. emit-Sizes _)
  parse_two_op-Sizes id rm_reg = bind-Sizes (parse_mod_rm-Reads io ctx 4) (λ m. emit-Sizes _)
  parse_two_op-Sizes id reg_rm = bind-Sizes (parse_mod_rm-Reads io ctx 4) (λ m. emit-Sizes _)

  pub decode_group3-Sizes : (size : ℕ) → Sizes (decode_group3 io ctx size)
  unfolding decode_group3
  decode_group3-Sizes size = bind-Sizes (parse_mod_rm-Reads io ctx size) (λ m.
      if-Sizes (m.1 == 0)
        (bind-Sizes (if-Reads (size == 1) (next_byte-Reads io) (read_imm32-Reads io))
          (λ imm. emit-Sizes _))
        (Option-Sizes (group3 m.1) (unsupported_form-Sizes unsupported_feature)
          (λ g. emit-Sizes _)))

  immediate-Reads : (is_imm32 : Bool) → Reads (if is_imm32 then read_imm32 io else read_imm8 io)
  immediate-Reads is_imm32 = if-Reads is_imm32 (read_imm32-Reads io) (read_imm8-Reads io)

  pub decode_group1-Sizes : (is_imm32 : Bool) → Sizes (decode_group1 io ctx is_imm32)
  unfolding decode_group1
  decode_group1-Sizes is_imm32 =
      bind-Sizes (parse_mod_rm-Reads io ctx 4)
        (λ m. bind-Sizes (immediate-Reads is_imm32) (λ imm. emit-Sizes _))

  pub try_decode_alu-Sizes : (opcode : ℕ) → Sizes (try_decode_alu io ctx opcode)
  unfolding try_decode_alu
  try_decode_alu-Sizes opcode =
      Option-Sizes (find_form opcode alu_forms)
        (if-Sizes ((opcode == 0xF7) || (opcode == 0xF6)) (decode_group3-Sizes _)
          (if-Sizes ((opcode == 0x81) || (opcode == 0x83)) (decode_group1-Sizes _) not_mine-Sizes))
        (λ f. parse_two_op-Sizes f.0 f.1)

  pub try_decode_mul_div-Sizes : (opcode : ℕ) → Sizes (try_decode_mul_div io ctx opcode)
  unfolding try_decode_mul_div decode_imul
  try_decode_mul_div-Sizes opcode =
      if-Sizes ((opcode == 0x69) || (opcode == 0x6B))
        (bind-Sizes (parse_mod_rm-Reads io ctx 4)
          (λ m. bind-Sizes (immediate-Reads (opcode == 0x69)) (λ imm. emit-Sizes _)))
        not_mine-Sizes

  shift_count-Reads : (opcode : ℕ) → Reads (shift_count io ctx opcode)
  unfolding shift_count
  shift_count-Reads opcode = if-Reads (among 0xD0 0xD1 opcode) (pure-Reads _) (
      if-Reads (among 0xD2 0xD3 opcode) (pure-Reads _)
        (bind-Reads (next_byte-Reads io) (λ imm. pure-Reads _)))

  pub try_decode_shift-Sizes : (opcode : ℕ) → Sizes (try_decode_shift io ctx opcode)
  unfolding try_decode_shift decode_shift
  try_decode_shift-Sizes opcode =
      if-Sizes (is_group2 opcode)
        (bind-Sizes (parse_mod_rm-Reads io ctx (if is_group2_8bit opcode then 1 else 4)) (λ m.
          Option-Sizes (get_or group2_ids m.1 none) (unsupported_form-Sizes unsupported_feature)
            (λ id. bind-Sizes (shift_count-Reads opcode) (λ count. emit-Sizes _))))
        not_mine-Sizes

  pub decode_exchange-Sizes :
      (id : InstructionId) (size : ℕ) → Sizes (decode_exchange io ctx id size)
  unfolding decode_exchange
  decode_exchange-Sizes id size = bind-Sizes (parse_mod_rm-Reads io ctx size) (λ m. emit-Sizes _)

  pub try_decode_atomic-Sizes : (opcode : ℕ) → Sizes (try_decode_atomic io ctx opcode)
  unfolding try_decode_atomic
  try_decode_atomic-Sizes opcode = if-Sizes (among 0x91 0x97 opcode) (emit-Sizes _) (
      if-Sizes ((opcode == 0x86) || (opcode == 0x87)) (decode_exchange-Sizes inst_xchg _)
        not_mine-Sizes)

  pub decode_mov-Sizes : (opcode : ℕ) → Sizes (decode_mov io ctx opcode)
  unfolding decode_mov
  decode_mov-Sizes opcode = bind-Sizes (parse_mod_rm-Reads io ctx 4) (λ m.
      if-Sizes (opcode == 0x89) (emit-Sizes _) (
        if-Sizes (opcode == 0x8B) (emit-Sizes _) (
          if-Sizes (not (m.1 == 0)) (raise-Sizes _)
            (bind-Sizes (read_imm32-Reads io) (λ imm. emit-Sizes _)))))

  pub decode_lea-Sizes : Sizes (decode_lea io ctx)
  unfolding decode_lea
  decode_lea-Sizes =
      bind-Sizes (parse_mod_rm-Reads io ctx 4)
        (λ m. if-Sizes (not (is_memory m.0)) (raise-Sizes _) (emit-Sizes _))

  with_imm32-Sizes : (f : ℕ → DecodedInstruction) → Sizes (with_imm32 io ctx f)
  unfolding with_imm32
  with_imm32-Sizes f = bind-Sizes (read_imm32-Reads io) (λ imm. emit-Sizes (f imm))

  pub try_decode_data-Sizes : (opcode : ℕ) → Sizes (try_decode_data io ctx opcode)
  unfolding try_decode_data
  try_decode_data-Sizes opcode = if-Sizes (opcode == 0x90) (emit-Sizes _) (
      if-Sizes (opcode == 0xF4) (emit-Sizes _) (
        if-Sizes (among 0xB8 0xBF opcode) (with_imm32-Sizes _) (
          if-Sizes ((opcode == 0x89) || ((opcode == 0x8B) || (opcode == 0xC7)))
            (decode_mov-Sizes opcode)
            (if-Sizes (opcode == 0xA1) (with_imm32-Sizes _) (
              if-Sizes (opcode == 0xA3) (with_imm32-Sizes _) (
                if-Sizes (opcode == 0x8D) decode_lea-Sizes (
                  if-Sizes (among 0x50 0x57 opcode) (emit-Sizes _) (
                    if-Sizes (opcode == 0x68) (with_imm32-Sizes _) (
                      if-Sizes (opcode == 0x6A)
                        (bind-Sizes (read_imm8-Reads io) (λ imm. emit-Sizes _))
                        (if-Sizes (among 0x58 0x5F opcode) (emit-Sizes _) (
                          if-Sizes (opcode == 0x9C) (emit-Sizes _)
                            (if-Sizes (opcode == 0x9D) (emit-Sizes _) not_mine-Sizes))))))))))))
