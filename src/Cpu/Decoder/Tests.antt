-- ===== src/Cpu/Decoder/Tests.antt =====
-- A memory of a few bytes, which reads and writes never fail at. The theorems at it.
use xblob_emulator.Common.Stateful.{◌>>=◌, pure, gets}
use xblob_emulator.Common.{invalid_opcode, Result, ok, fail_at}
use xblob_emulator.Cpu.Registers.{cpu_context}
use xblob_emulator.Cpu.Instruction.{
  MemoryType, make_reg, make_imm, inst_mov, DecodedInstruction, instruction,
}
use xblob_emulator.Cpu.Decoder.Stream.{
  instruction_stream, unsupported_form, emit, not_mine, next_byte, read_imm32,
}
use xblob_emulator.Cpu.Decoder.Alu.{find_form, try_decode_alu, try_decode_mul_div}
use xblob_emulator.Cpu.Decoder.Data.{
  find_string, try_decode_string, try_decode_shift, try_decode_atomic, with_imm32, try_decode_data,
}
use xblob_emulator.Cpu.Decoder.Extended.{try_decode_bit_ext}
use xblob_emulator.Cpu.Decoder.{
  no_prefix, add_prefix, finalize, or_else, read_prefixes, decode_opcode, decode,
}
use xblob_emulator.Cpu.Decoder.Bounds.Length.{decode_lem}
use xblob_emulator.Cpu.Decoder.Bounds.Fuel.{read_prefixes_lem}
use xblob_emulator.Prelude.{ℕ, ◌≤◌, ◌≡◌, refl, List, [], ◌∷◌, arith, get_or}

-- The memory is the list of its bytes, zero behind its end.
abbrev bytes_at : MemoryType (List ℕ)
bytes_at = record {
  read8 = λ addr m. (m, ok (get_or m addr 0));
  read16 = λ addr m. (m, ok (get_or m addr 0));
  read32 = λ addr m. (m, ok (get_or m addr 0));
  write8 = λ addr value m. (m, ok tt);
  write16 = λ addr value m. (m, ok tt);
  write32 = λ addr value m. (m, ok tt);
  fetch8 = λ addr m. (m, ok (get_or m addr 0));
}

abbrev outcome : List ℕ → Result DecodedInstruction
outcome m = (decode bytes_at cpu_context (instruction_stream m 0)).1

-- MOV EAX, 0x12345678.
abbrev mov_bytes : List ℕ
mov_bytes = 0xB8 ∷ 0x78 ∷ 0x56 ∷ 0x34 ∷ 0x12 ∷ []

abbrev mov : DecodedInstruction
mov = record (instruction inst_mov) { length = 5; op1 = make_reg 0; op2 = make_imm 0x12345678 4 }

mov_decoded : outcome mov_bytes ≡ ok mov
unfolding decode instruction_stream read_prefixes next_byte ◌>>=◌ pure add_prefix decode_opcode
    or_else try_decode_shift try_decode_string find_string try_decode_mul_div try_decode_bit_ext
    try_decode_atomic try_decode_alu find_form try_decode_data with_imm32 read_imm32 emit gets
    not_mine finalize
mov_decoded = refl

-- LOCK on a move is refused.
locked_mov : outcome (0xF0 ∷ mov_bytes) ≡ fail_at invalid_opcode 0
unfolding decode instruction_stream read_prefixes next_byte ◌>>=◌ pure add_prefix decode_opcode
    or_else try_decode_shift try_decode_string find_string try_decode_mul_div try_decode_bit_ext
    try_decode_atomic try_decode_alu find_form try_decode_data with_imm32 read_imm32 emit gets
    not_mine finalize unsupported_form
locked_mov = refl

decode_lem_example :
    (1 ≤ 5)
    × (5 ≤ 15)
    × (5 ≡ (decode bytes_at cpu_context (instruction_stream mov_bytes 0)).0.length)
decode_lem_example = decode_lem bytes_at cpu_context mov_bytes 0 mov mov_decoded

read_prefixes_lem_example :
    read_prefixes bytes_at 100 no_prefix (instruction_stream (0xF3 ∷ 0xF3 ∷ 0xA4 ∷ []) 0)
    ≡ read_prefixes bytes_at 16 no_prefix (instruction_stream (0xF3 ∷ 0xF3 ∷ 0xA4 ∷ []) 0)
read_prefixes_lem_example = read_prefixes_lem bytes_at (0xF3 ∷ 0xF3 ∷ 0xA4 ∷ []) 0 100 (omega arith)
