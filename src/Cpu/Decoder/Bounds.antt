-- ===== src/Cpu/Decoder/Bounds.antt =====
-- The length of a decoded instruction: what every decoder of a family keeps.
pub mod Families
pub mod Length
pub mod Fuel
use xblob_emulator.Common.Stateful.{Stateful, ◌>>=◌, pure, raise, gets}
use xblob_emulator.Common.{ErrorCode, Error, ok, err, Result-cases}
use xblob_emulator.Cpu.Registers.{CpuContext, get_gpr}
use xblob_emulator.Cpu.Instruction.{MemoryType, DecodedInstruction}
use xblob_emulator.Cpu.Decoder.Stream.{
  InstructionStream, Decode, unsupported_form, emit, not_mine, next_byte, read_imm32, read_imm16,
  read_imm8, with_displacement, sib_address, memory_address, parse_mod_rm,
}
use xblob_emulator.Prelude.{
  ℕ, ◌+◌, ◌/◌, ◌%◌, ◌≤◌, ◌<◌, ◌≡◌, refl, subst, inl, inr, Bool, true, false, ◌&&◌, Option, none,
  some, arith, leb, ◌==◌, if◌then◌else◌, Bool-cases, length, add32,
}

-- From a state as `p` says, a call that succeeds ends in one as `q` says of its result.
abbrev pub Holds : {S A : Type 0} → (S → Type 0) → Stateful S A → (A → S → Type 0) → Type 0
Holds {S = S} {A = A} p m q = (s : S) → p s → (a : A) → (m s).1 ≡ ok a → q a (m s).0

pub bind-Holds :
    {S A B : Type 0} (p : S → Type 0) (r : A → S → Type 0) (q : B → S → Type 0) (m : Stateful S A)
    (k : A → Stateful S B)
    → Holds p m r
    → ((a : A) → Holds (r a) (k a) q)
    → Holds p (m >>= k) q
unfolding ◌>>=◌
bind-Holds p r q m k first next s h b e = elim (Result-cases (m s).1) [
  | inr (x, f) ↦ let bad = rw (◌>>=◌, f) at e in cc
  | inl (a, f) ↦ rw (◌>>=◌, f) (next a (m s).0 (first s h a f) b (rw (◌>>=◌, f) at e))
]

pub if-Holds :
    {S A : Type 0} (p : S → Type 0) (q : A → S → Type 0) (test : Bool) (m n : Stateful S A)
    → Holds p m q
    → Holds p n q
    → Holds p (if test then m else n) q
if-Holds p q true m n h k = h
if-Holds p q false m n h k = k

-- At least `low` bytes have been read, and at most 15.
abbrev pub Within : {M : Type 0} → ℕ → InstructionStream M → Type 0
Within low s = (low ≤ s.length) × (s.length ≤ 15)

-- What is read adds to the bytes, and they stay within the limit.
pub record Reads {M A : Type 0} (m : Decode M A) : Type 0 where
  pub holds : Holds (Within 1) m (λ a s. Within 1 s)

-- An instruction that is found has the length of the bytes that were read.
abbrev pub SizedAs : {M : Type 0} → Option DecodedInstruction → InstructionStream M → Type 0
SizedAs none s = Within 1 s
SizedAs (some i) s = Within 1 s × (i.length ≡ s.length)

pub record Sizes {M : Type 0} (m : Decode M (Option DecodedInstruction)) : Type 0 where
  pub holds : Holds (Within 1) m SizedAs

pub emit-Sizes : {M : Type 0} (i : DecodedInstruction) → Sizes (emit {M = M} i)
unfolding emit gets
emit-Sizes i = record {
  holds = λ s h a e.
      let same : some (record i { length = s.length }) ≡ a = cc in
      subst (λ o. SizedAs o s) same (h, refl);
}

pub not_mine-Sizes : {M : Type 0} → Sizes (not_mine {M = M})
unfolding not_mine pure
not_mine-Sizes = record {
  holds = λ s h a e. let same : none ≡ a = cc in subst (λ o. SizedAs o s) same h;
}

pub raise-Sizes : {M : Type 0} (x : Error) → Sizes {M = M} (raise (err x))
unfolding raise
raise-Sizes x = record { holds = λ s h a e. absurd cc }

pub unsupported_form-Sizes : {M : Type 0} (code : ErrorCode) → Sizes {M = M} (unsupported_form code)
unfolding unsupported_form
unsupported_form-Sizes code = record { holds = λ s h a e. absurd cc }

pub pure-Reads : {M A : Type 0} (x : A) → Reads {M = M} (pure x)
unfolding pure
pure-Reads x = record { holds = λ s h a e. h }

-- What is read first, and what then emits the instruction.
pub bind-Sizes :
    {M A : Type 0} {m : Decode M A} {k : A → Decode M (Option DecodedInstruction)}
    → Reads m
    → ((a : A) → Sizes (k a))
    → Sizes (m >>= k)
bind-Sizes {m = m} {k = k} h n = record {
  holds = bind-Holds (Within 1) (λ a s. Within 1 s) SizedAs m k h.holds (λ a. (n a).holds);
}

pub bind-Reads :
    {M A B : Type 0} {m : Decode M A} {k : A → Decode M B}
    → Reads m
    → ((a : A) → Reads (k a))
    → Reads (m >>= k)
bind-Reads {m = m} {k = k} h n = record {
  holds =
      bind-Holds (Within 1) (λ a s. Within 1 s) (λ a s. Within 1 s) m k h.holds (λ a. (n a).holds);
}

pub if-Sizes :
    {M : Type 0} (test : Bool) {m n : Decode M (Option DecodedInstruction)}
    → Sizes m
    → Sizes n
    → Sizes (if test then m else n)
if-Sizes test {m = m} {n = n} h k = record {
  holds = if-Holds (Within 1) SizedAs test m n h.holds k.holds;
}

pub if-Reads :
    {M A : Type 0} (test : Bool) {m n : Decode M A}
    → Reads m
    → Reads n
    → Reads (if test then m else n)
if-Reads test {m = m} {n = n} h k = record {
  holds = if-Holds (Within 1) (λ a s. Within 1 s) test m n h.holds k.holds;
}

module _ {M : Type 0} (io : MemoryType M) where
  -- A byte is read below the limit only.
  pub next_byte-Holds : (low : ℕ) → Holds (Within low) (next_byte io) (λ a s. Within (low + 1) s)
  unfolding next_byte
  next_byte-Holds low s h a e = elim (Bool-cases (leb 15 s.length)) [
    | inl full ↦ let bad = rw (full, next_byte) at e in cc
    | inr room ↦ elim (Result-cases (io.fetch8 (add32 s.eip s.length) s.mem).1) [
      | inr (x, f) ↦ let bad = rw (room, f, next_byte) at e in cc
      | inl (b, f) ↦
          let below : s.length < 15 = ground arith in
          rw (room, f, next_byte) (omega (arith, h.0), omega arith)
    ]
  ]

  pub next_byte-Reads : Reads (next_byte io)
  next_byte-Reads = record {
    holds = λ s h a e. let k = next_byte-Holds 1 s h a e in (omega (arith, k.0), k.1);
  }

  pub read_imm32-Reads : Reads (read_imm32 io)
  unfolding read_imm32
  read_imm32-Reads = bind-Reads next_byte-Reads (λ r0.
      bind-Reads next_byte-Reads
        (λ r1. bind-Reads next_byte-Reads (λ r2. bind-Reads next_byte-Reads (λ r3. pure-Reads _))))

  pub read_imm16-Reads : Reads (read_imm16 io)
  unfolding read_imm16
  read_imm16-Reads =
      bind-Reads next_byte-Reads (λ r0. bind-Reads next_byte-Reads (λ r1. pure-Reads _))

  pub read_imm8-Reads : Reads (read_imm8 io)
  unfolding read_imm8
  read_imm8-Reads = bind-Reads next_byte-Reads (λ r. pure-Reads _)

  with_displacement-Reads : (base mode : ℕ) → Reads (with_displacement io base mode)
  unfolding with_displacement
  with_displacement-Reads base mode =
      if-Reads (mode == 1) (bind-Reads read_imm8-Reads (λ d. pure-Reads _))
        (if-Reads (mode == 2) (bind-Reads read_imm32-Reads (λ d. pure-Reads _)) (pure-Reads _))

  sib_address-Reads : (ctx : CpuContext) (mode : ℕ) → Reads (sib_address io ctx mode)
  unfolding sib_address
  sib_address-Reads ctx mode = bind-Reads next_byte-Reads (λ sib.
      bind-Reads
        (if-Reads ((sib % 8 == 5) && (mode == 0)) read_imm32-Reads
          (with_displacement-Reads (get_gpr ctx (sib % 8)) mode))
        (λ b. pure-Reads _))

  memory_address-Reads : (ctx : CpuContext) (mode rm : ℕ) → Reads (memory_address io ctx mode rm)
  unfolding memory_address
  memory_address-Reads ctx mode rm = if-Reads (rm == 4) (sib_address-Reads ctx mode) (
      if-Reads ((mode == 0) && (rm == 5)) read_imm32-Reads
        (with_displacement-Reads (get_gpr ctx rm) mode))

  pub parse_mod_rm-Reads : (ctx : CpuContext) (size : ℕ) → Reads (parse_mod_rm io ctx size)
  unfolding parse_mod_rm
  parse_mod_rm-Reads ctx size = bind-Reads next_byte-Reads (λ b.
      if-Reads (b / 64 % 4 == 3) (pure-Reads _)
        (bind-Reads (memory_address-Reads ctx (b / 64 % 4) (b % 8)) (λ ea. pure-Reads _)))
