-- ===== src/Cpu/Decoder/Bounds/Length.antt =====
-- The whole decoder: how long an instruction is, and that it reads every prefix.
use xblob_emulator.Common.Stateful.{Stateful, pure, raise}
use xblob_emulator.Common.{ErrorCode, unsupported_feature, invalid_opcode, Error, ok, err, fail_at}
use xblob_emulator.Cpu.Registers.{CpuContext}
use xblob_emulator.Cpu.Instruction.{MemoryType, inst_cmpxchg, DecodedInstruction}
use xblob_emulator.Cpu.Decoder.Stream.{
  InstructionStream, instruction_stream, Decode, unsupported_form, among, next_byte, parse_mod_rm,
}
use xblob_emulator.Cpu.Decoder.Extended.{
  decode_extension, decode_bt, decode_setcc, decode_imul_two, try_decode_two_byte_extended,
}
use xblob_emulator.Cpu.Decoder.{
  Prefixes, no_prefix, add_prefix, is_string, is_lockable, finalize, or_else, emit_relative, group5,
  read_prefixes, decode_group5, decode_pop, decode_two_byte, decode_core, decode_opcode, decode,
}
use xblob_emulator.Cpu.Decoder.Bounds.{
  Holds, bind-Holds, if-Holds, Within, Reads, SizedAs, Sizes, emit-Sizes, not_mine-Sizes,
  raise-Sizes, unsupported_form-Sizes, bind-Sizes, if-Sizes, next_byte-Holds, next_byte-Reads,
  read_imm32-Reads, read_imm16-Reads, read_imm8-Reads, parse_mod_rm-Reads,
}
use xblob_emulator.Cpu.Decoder.Bounds.Families.{
  Option-Sizes, try_decode_string-Sizes, try_decode_bit_ext-Sizes, try_decode_alu-Sizes,
  try_decode_mul_div-Sizes, try_decode_shift-Sizes, decode_exchange-Sizes, try_decode_atomic-Sizes,
  try_decode_data-Sizes,
}
use xblob_emulator.Prelude.{
  ℕ, zero, suc, ◌≤◌, ◌≡◌, subst, not, ◌&&◌, ◌||◌, Option, none, some, arith, ◌==◌, add32,
}

pure-Holds :
    {S A : Type 0} (x : A) (p : S → Type 0) (q : A → S → Type 0)
    → ((s : S) → p s → q x s)
    → Holds p (pure x) q
unfolding pure
pure-Holds x p q f s h a e = let same : x ≡ a = cc in subst (λ y. q y s) same (f s h)

or_else-Sizes :
    {M : Type 0} {m n : Decode M (Option DecodedInstruction)}
    → Sizes m
    → Sizes n
    → Sizes (or_else m n)
unfolding or_else
or_else-Sizes {m = m} {n = n} h k = record {
  holds = bind-Holds (Within 1) SizedAs SizedAs m (taken n) h.holds (rest n k);
}
  where
    taken :
        {M : Type 0}
        → Decode M (Option DecodedInstruction)
        → Option DecodedInstruction
        → Decode M (Option DecodedInstruction)
    taken n o = elim o [ some i ↦ pure (some i) | none ↦ n ]

    rest :
        {M : Type 0} (n : Decode M (Option DecodedInstruction))
        → Sizes n
        → (o : Option DecodedInstruction) → Holds (SizedAs o) (taken n o) SizedAs
    rest n k none = k.holds
    rest n k (some i) = pure-Holds (some i) (SizedAs (some i)) SizedAs (λ s h. h)

emit_relative-Sizes :
    {M : Type 0} (i : DecodedInstruction) (disp : ℕ)
    (f : DecodedInstruction → ℕ → DecodedInstruction)
    → Sizes {M = M} (emit_relative i disp f)
unfolding emit_relative
emit_relative-Sizes i disp f = record {
  holds = λ s h a e.
      let emitted = emit-Sizes (f i (add32 (add32 s.eip s.length) disp)) in emitted.holds s h a e;
}

module _ {M : Type 0} (io : MemoryType M) (ctx : CpuContext) where
  try_decode_two_byte_extended-Sizes :
      (second : ℕ) → Sizes (try_decode_two_byte_extended io ctx second)
  unfolding try_decode_two_byte_extended decode_extension decode_bt decode_setcc decode_imul_two
  try_decode_two_byte_extended-Sizes second =
      let operand : (size : ℕ) → Reads (parse_mod_rm io ctx size) =
        λ size. parse_mod_rm-Reads io ctx size in
      if-Sizes ((second == 0xB6) || (second == 0xB7)) (bind-Sizes (operand _) (λ m. emit-Sizes _)) (
        if-Sizes ((second == 0xBE) || (second == 0xBF)) (bind-Sizes (operand _) (λ m. emit-Sizes _))
          (if-Sizes ((second == 0xA3) || (second == 0xBA))
            (bind-Sizes (operand 4) (λ m. if-Sizes (second == 0xA3) (emit-Sizes _) (
              if-Sizes (not (m.1 == 4)) (unsupported_form-Sizes unsupported_feature)
                (bind-Sizes (next_byte-Reads io) (λ imm. emit-Sizes _)))))
            (if-Sizes (among 0x90 0x9F second) (bind-Sizes (operand 1) (λ m. emit-Sizes _)) (
              if-Sizes (second == 0xAF) (bind-Sizes (operand 4) (λ m. emit-Sizes _)) (
                if-Sizes ((second == 0xB0) || (second == 0xB1))
                  (decode_exchange-Sizes io ctx inst_cmpxchg _) not_mine-Sizes)))))

  decode_two_byte-Sizes : Sizes (decode_two_byte io ctx)
  unfolding decode_two_byte
  decode_two_byte-Sizes = bind-Sizes (next_byte-Reads io) (λ second.
      if-Sizes (among 0x80 0x8F second)
        (bind-Sizes (read_imm32-Reads io) (λ disp. emit_relative-Sizes _ disp _))
        (or_else-Sizes (try_decode_two_byte_extended-Sizes second) (raise-Sizes _)))

  decode_group5-Sizes : Sizes (decode_group5 io ctx)
  unfolding decode_group5
  decode_group5-Sizes =
      bind-Sizes (parse_mod_rm-Reads io ctx 4)
        (λ m. Option-Sizes (group5 m.1) (raise-Sizes _) (λ g. emit-Sizes _))

  decode_pop-Sizes : Sizes (decode_pop io ctx)
  unfolding decode_pop
  decode_pop-Sizes =
      bind-Sizes (parse_mod_rm-Reads io ctx 4)
        (λ m. if-Sizes (not (m.1 == 0)) (raise-Sizes _) (emit-Sizes _))

  decode_core-Sizes : (opcode : ℕ) → Sizes (decode_core io ctx opcode)
  unfolding decode_core
  decode_core-Sizes opcode =
      let imm32 = read_imm32-Reads io in
      let imm8 = read_imm8-Reads io in
      if-Sizes (opcode == 0xE8) (bind-Sizes imm32 (λ disp. emit_relative-Sizes _ disp _)) (
        if-Sizes (opcode == 0xC3) (emit-Sizes _) (
          if-Sizes (opcode == 0xC2) (bind-Sizes (read_imm16-Reads io) (λ count. emit-Sizes _)) (
            if-Sizes (opcode == 0xEB) (bind-Sizes imm8 (λ disp. emit_relative-Sizes _ disp _)) (
              if-Sizes (opcode == 0xE9) (bind-Sizes imm32 (λ disp. emit_relative-Sizes _ disp _)) (
                if-Sizes (opcode == 0xFF) decode_group5-Sizes (
                  if-Sizes (among 0x40 0x47 opcode) (emit-Sizes _) (
                    if-Sizes (among 0x48 0x4F opcode) (emit-Sizes _) (
                      if-Sizes (opcode == 0x8F) decode_pop-Sizes (
                        if-Sizes (among 0x70 0x7F opcode)
                          (bind-Sizes imm8 (λ disp. emit_relative-Sizes _ disp _))
                          (if-Sizes (opcode == 0x0F) decode_two_byte-Sizes (
                            if-Sizes (opcode == 0xFA) (emit-Sizes _) (
                              if-Sizes (opcode == 0xFB) (emit-Sizes _) (
                                if-Sizes (opcode == 0xCF) (emit-Sizes _) (
                                  if-Sizes (opcode == 0xCD)
                                    (bind-Sizes (next_byte-Reads io) (λ v. emit-Sizes _))
                                    (raise-Sizes _)))))))))))))))

  decode_opcode-Sizes : (opcode : ℕ) → Sizes (decode_opcode io ctx opcode)
  unfolding decode_opcode
  decode_opcode-Sizes opcode = or_else-Sizes (try_decode_shift-Sizes io ctx opcode) (
      or_else-Sizes (try_decode_string-Sizes opcode) (
        or_else-Sizes (try_decode_mul_div-Sizes io ctx opcode) (
          or_else-Sizes (try_decode_bit_ext-Sizes opcode) (
            or_else-Sizes (try_decode_atomic-Sizes io ctx opcode) (
              or_else-Sizes (try_decode_alu-Sizes io ctx opcode) (
                or_else-Sizes (try_decode_data-Sizes io ctx opcode) (decode_core-Sizes opcode)))))))

-- A call that only fails holds whatever is asked of its result.
unsupported_form-Holds :
    {M A : Type 0} (code : ErrorCode) (p : InstructionStream M → Type 0)
    (q : A → InstructionStream M → Type 0)
    → Holds p (unsupported_form code) q
unfolding unsupported_form
unsupported_form-Holds code p q s h a e = absurd cc

-- The decoded instruction has the length of the bytes read.
abbrev Lasts : {M : Type 0} → DecodedInstruction → InstructionStream M → Type 0
Lasts i s = Within 1 s × (i.length ≡ s.length)

finalize-Holds :
    {M : Type 0} (p : Prefixes) (i : DecodedInstruction)
    → Holds {S = InstructionStream M} (Lasts i) (finalize p i) Lasts
unfolding finalize
finalize-Holds p i =
    let inst : DecodedInstruction = record i { rep = p.rep; repne = p.repne; lock = p.lock } in
    if-Holds (Lasts i) Lasts ((p.rep || p.repne) && not (is_string i.id))
      (unsupported_form unsupported_feature) _
      (unsupported_form-Holds unsupported_feature (Lasts i) Lasts)
      (if-Holds (Lasts i) Lasts (p.lock && not (is_lockable i.id)) (unsupported_form invalid_opcode)
        (pure inst) (unsupported_form-Holds invalid_opcode (Lasts i) Lasts)
        (pure-Holds inst (Lasts i) Lasts (λ s h. h)))

raise-Holds :
    {S A : Type 0} (x : Error) (p : S → Type 0) (q : A → S → Type 0) → Holds p (raise (err x)) q
unfolding raise
raise-Holds x p q s h a e = absurd cc

Option-Holds :
    {S A B : Type 0} (p : S → Type 0) (q : B → S → Type 0) (o : Option A) (m : Stateful S B)
    (k : A → Stateful S B)
    → Holds p m q
    → ((a : A) → Holds p (k a) q)
    → Holds p (elim o [ none ↦ m | some a ↦ k a ]) q
Option-Holds p q none m k h n = h
Option-Holds p q (some a) m k h n = n a

-- What a decoder finds becomes the instruction, with its prefixes.
accepted-Holds :
    {M : Type 0} (p : Prefixes) (opcode : ℕ) (o : Option DecodedInstruction)
    → Holds {S = InstructionStream M}
        (SizedAs o)
        (elim o [ none ↦ raise (fail_at invalid_opcode opcode) | some i ↦ finalize p i ])
        Lasts
accepted-Holds p opcode none = raise-Holds _ (Within 1) Lasts
accepted-Holds p opcode (some i) = finalize-Holds p i

module _ {M : Type 0} (io : MemoryType M) where
  opcode-Holds : (low : ℕ) → Holds (Within low) (next_byte io) (λ b s. Within 1 s)
  opcode-Holds low s h a e = let k = next_byte-Holds io low s h a e in (omega (arith, k.0), k.1)

  -- At least one byte is read: the opcode.
  read_prefixes-Holds :
      (fuel low : ℕ) (p : Prefixes)
      → Holds (Within low) (read_prefixes io fuel p) (λ a s. Within 1 s)
  unfolding read_prefixes
  read_prefixes-Holds zero low p = raise-Holds _ (Within low) (λ a s. Within 1 s)
  read_prefixes-Holds (suc fuel) low p =
      bind-Holds (Within low) (λ b s. Within 1 s) (λ a s. Within 1 s) (next_byte io) _
        (opcode-Holds low)
        (λ b.
          Option-Holds (Within 1) (λ a s. Within 1 s) (add_prefix b p) (pure (p, b))
            (λ p'. read_prefixes io fuel p')
            (pure-Holds (p, b) (Within 1) (λ a s. Within 1 s) (λ s h. h))
            (λ p'. read_prefixes-Holds fuel 1 p'))

  decode-Holds : (ctx : CpuContext) → Holds (Within 0) (decode io ctx) Lasts
  unfolding decode
  decode-Holds ctx =
      bind-Holds (Within 0) (λ o s. Within 1 s) Lasts (read_prefixes io 16 no_prefix) _
        (read_prefixes-Holds 16 0 no_prefix)
        (λ o.
          if-Holds (Within 1) Lasts (o.0.rep && o.0.repne) (unsupported_form invalid_opcode) _
            (unsupported_form-Holds invalid_opcode (Within 1) Lasts)
            (if-Holds (Within 1) Lasts (o.0.addr_size || o.0.op_size)
              (unsupported_form unsupported_feature) _
              (unsupported_form-Holds unsupported_feature (Within 1) Lasts)
              (bind-Holds (Within 1) SizedAs Lasts (decode_opcode io ctx o.1) _
                (decode_opcode-Sizes io ctx o.1).holds (λ found. accepted-Holds o.0 o.1 found))))

  -- For any memory and registers, an instruction that is decoded has a length from 1 to 15, and this
  -- is the number of bytes that were read.
  pub decode_lem :
      (ctx : CpuContext) (m : M) (eip : ℕ) (i : DecodedInstruction)
      → (decode io ctx (instruction_stream m eip)).1 ≡ ok i
      → (1 ≤ i.length)
        × (i.length ≤ 15)
        × (i.length ≡ (decode io ctx (instruction_stream m eip)).0.length)
  unfolding instruction_stream
  decode_lem ctx m eip i e =
      let ((low, high), same) =
        decode-Holds ctx (instruction_stream m eip) (omega arith, omega arith) i e in
      (omega arith, omega arith, same)
