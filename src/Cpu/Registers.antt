-- ===== src/Cpu/Registers.antt =====
-- libs/cpu/include/xblob/cpu/registers.hpp and libs/cpu/src/registers.cpp: the register file. A
-- register is a number below 2 ^ 32, a segment selector one below 2 ^ 16; a mask of the low bits is
-- a remainder, and a right shift a quotient. An index is in range, as in the source's calls.
pub mod Partial
mod Tests
use xblob_emulator.Prelude.{
  ℕ, ◌+◌, ◌-◌, ◌*◌, ◌/◌, ◌%◌, ◌^◌, List, [], ◌∷◌, ltb, if◌then◌else◌, set, get_or,
}

-- The numbers of the registers, as in the enumeration.
abbrev pub eax : ℕ
eax = 0

abbrev pub esp : ℕ
esp = 4

pub record Idtr : Type 0 where
  pub base : ℕ
  pub limit : ℕ

pub record CpuContext : Type 0 where
  pub gpr : List ℕ
  pub eip : ℕ
  pub eflags : ℕ
  pub segments : List ℕ
  pub cr0 : ℕ
  pub cr2 : ℕ
  pub cr3 : ℕ
  pub idtr : Idtr

-- `Reset`, which gives every field its initial value: only the reserved flag, bit 1, is set.
abbrev pub cpu_context : CpuContext
cpu_context = record {
  gpr = 0 ∷ 0 ∷ 0 ∷ 0 ∷ 0 ∷ 0 ∷ 0 ∷ 0 ∷ [];
  eip = 0;
  eflags = 2;
  segments = 0 ∷ 0 ∷ 0 ∷ 0 ∷ 0 ∷ 0 ∷ [];
  cr0 = 0;
  cr2 = 0;
  cr3 = 0;
  idtr = record { base = 0; limit = 0 };
}

unfoldable pub get_gpr : CpuContext → ℕ → ℕ
get_gpr c reg = get_or c.gpr reg 0

unfoldable pub set_gpr : CpuContext → ℕ → ℕ → CpuContext
set_gpr c reg val = record c { gpr = set c.gpr reg val }

-- The 8-bit registers: the low bytes of the first four registers, then their second bytes.
unfoldable pub get_gpr8 : CpuContext → ℕ → ℕ
get_gpr8 c reg8 =
    if ltb reg8 4 then get_gpr c reg8 % 2 ^ 8 else get_gpr c (reg8 - 4) / 2 ^ 8 % 2 ^ 8

-- For `val` below 2 ^ 8, so that `|` adds it to the cleared byte.
unfoldable pub set_gpr8 : CpuContext → ℕ → ℕ → CpuContext
set_gpr8 c reg8 val =
    if ltb reg8 4
    then set_gpr c reg8 (get_gpr c reg8 / 2 ^ 8 * 2 ^ 8 + val)
    else let old = get_gpr c (reg8 - 4) in
      set_gpr c (reg8 - 4) (old / 2 ^ 16 * 2 ^ 16 + val * 2 ^ 8 + old % 2 ^ 8)

unfoldable pub get_gpr16 : CpuContext → ℕ → ℕ
get_gpr16 c reg = get_gpr c reg % 2 ^ 16

-- For `val` below 2 ^ 16.
unfoldable pub set_gpr16 : CpuContext → ℕ → ℕ → CpuContext
set_gpr16 c reg val = set_gpr c reg (get_gpr c reg / 2 ^ 16 * 2 ^ 16 + val)

unfoldable pub get_segment : CpuContext → ℕ → ℕ
get_segment c seg = get_or c.segments seg 0

unfoldable pub set_segment : CpuContext → ℕ → ℕ → CpuContext
set_segment c seg val = record c { segments = set c.segments seg val }
