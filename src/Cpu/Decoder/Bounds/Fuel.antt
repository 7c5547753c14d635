-- ===== src/Cpu/Decoder/Bounds/Fuel.antt =====
-- The loop over the prefixes ends: the limit on the bytes of an instruction ends it.
use xblob_emulator.Common.Stateful.{◌>>=◌}
use xblob_emulator.Common.{Result-cases}
use xblob_emulator.Cpu.Instruction.{MemoryType}
use xblob_emulator.Cpu.Decoder.Stream.{InstructionStream, instruction_stream, next_byte}
use xblob_emulator.Cpu.Decoder.{Prefixes, no_prefix, add_prefix, read_prefixes}
use xblob_emulator.Cpu.Decoder.Bounds.{next_byte-Holds}
use xblob_emulator.Prelude.{ℕ, zero, suc, ◌+◌, ◌≤◌, ◌≡◌, inl, inr, arith, Option-cases}

module _ {M : Type 0} (io : MemoryType M) where
  -- More fuel than there are bytes left changes nothing.
  fuel_left :
      (more fuel : ℕ) (p : Prefixes) (s : InstructionStream M)
      → fuel ≤ more
      → 16 ≤ fuel + s.length
      → s.length ≤ 15
      → read_prefixes io more p s ≡ read_prefixes io fuel p s
  unfolding read_prefixes ◌>>=◌
  fuel_left more zero p s le enough room = absurd (omega arith)
  fuel_left zero (suc fuel) p s le enough room = absurd (omega arith)
  fuel_left (suc more) (suc fuel) p s le enough room = elim (Result-cases (next_byte io s).1) [
    | inr (x, e) ↦ rw (read_prefixes, ◌>>=◌, e)
    | inl (b, e) ↦ elim (Option-cases (add_prefix b p)) [
      | inl f ↦ rw (read_prefixes, ◌>>=◌, e, f)
      | inr (p', f) ↦
          let s' = (next_byte io s).0 in
          let (low, high) = next_byte-Holds io s.length s (omega arith, room) b e in
          rw (read_prefixes, ◌>>=◌, e, f)
            (fuel_left more fuel p' s' (omega arith) (omega (arith, low)) high)
    ]
  ]

  -- The loop over the prefixes ends within 16 rounds: for any memory, also one that has prefixes
  -- only, the outcome is the same for every larger bound on the rounds.
  pub read_prefixes_lem :
      (m : M) (eip fuel : ℕ)
      → 16 ≤ fuel
      → read_prefixes io fuel no_prefix (instruction_stream m eip)
        ≡ read_prefixes io 16 no_prefix (instruction_stream m eip)
  unfolding instruction_stream
  read_prefixes_lem m eip fuel le =
      fuel_left fuel 16 no_prefix (instruction_stream m eip) le (omega arith) (omega arith)
