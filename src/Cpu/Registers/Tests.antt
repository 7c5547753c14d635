-- ===== src/Cpu/Registers/Tests.antt =====
-- Partial registers of a fresh register file.
use xblob_emulator.Cpu.Registers.{cpu_context, get_gpr, set_gpr, get_gpr8, set_gpr8}
use xblob_emulator.Cpu.Registers.Partial.{set_gpr8_lem}
use xblob_emulator.Prelude.{ℕ, ◌/◌, ◌<◌, ◌≡◌, refl, ◌≢◌, arith}

high_write : get_gpr (set_gpr8 cpu_context 5 0x12) 1 ≡ 0x1200
unfolding get_gpr set_gpr8 set_gpr
high_write = refl

set_gpr8_lem_example :
    let c' = set_gpr8 cpu_context 5 0x12 in
    (get_gpr8 c' 5 ≡ 0x12)
    × ((j : ℕ) → j < 8 → j ≢ 5 → get_gpr8 c' j ≡ get_gpr8 cpu_context j)
    × ((r : ℕ) → get_gpr c' r / 65536 ≡ get_gpr cpu_context r / 65536)
set_gpr8_lem_example = set_gpr8_lem cpu_context 5 0x12 refl (omega arith) (omega arith)
