-- ===== src/Cpu/Instruction.antt =====
-- libs/cpu/include/xblob/cpu/operand.hpp and instruction.hpp: operands and decoded instructions. The
-- memory that the source takes as a template parameter is a record of its calls.
mod Tests
use xblob_emulator.Common.{invalid_argument, fail}
use xblob_emulator.Common.Stateful.{Stateful, pure, raise, gets, modify}
use xblob_emulator.Cpu.Registers.{
  CpuContext, get_gpr, set_gpr, get_gpr8, set_gpr8, get_gpr16, set_gpr16,
}
use xblob_emulator.Cpu.Flags.{
  ConditionCode, cond_o, cond_no, cond_b, cond_nb, cond_z, cond_nz, cond_be, cond_nbe, cond_s,
  cond_ns, cond_p, cond_np, cond_l, cond_nl, cond_le, cond_nle,
}
use xblob_emulator.Prelude.{
  ℕ, ◌%◌, ◌^◌, Bool, true, false, List, [], ◌∷◌, ◌==◌, if◌then◌else◌, get_or,
}

-- `MemoryType`: what operands, the decoder and the executors call of a memory.
pub record MemoryType (M : Type 0) : Type 0 where
  pub read8 : ℕ → Stateful M ℕ
  pub read16 : ℕ → Stateful M ℕ
  pub read32 : ℕ → Stateful M ℕ
  pub write8 : ℕ → ℕ → Stateful M (Unit {0})
  pub write16 : ℕ → ℕ → Stateful M (Unit {0})
  pub write32 : ℕ → ℕ → Stateful M (Unit {0})
  pub fetch8 : ℕ → Stateful M ℕ

pub data OperandKind : Type 0 where
  no_operand register_operand immediate_operand memory_operand : OperandKind

pub record Operand : Type 0 where
  pub kind : OperandKind
  pub reg : ℕ
  pub reg8 : ℕ
  pub immediate : ℕ
  pub mem_addr : ℕ
  pub size_bytes : ℕ

abbrev pub operand : Operand
operand = record {
  kind = no_operand;
  reg = 0;
  reg8 = 0;
  immediate = 0;
  mem_addr = 0;
  size_bytes = 4;
}

unfoldable pub make_reg : ℕ → Operand
make_reg r = record operand { kind = register_operand; reg = r; reg8 = r }

unfoldable pub make_reg8 : ℕ → Operand
make_reg8 r8 = record operand { kind = register_operand; reg = r8 % 4; reg8 = r8; size_bytes = 1 }

unfoldable pub make_reg16 : ℕ → Operand
make_reg16 r = record operand { kind = register_operand; reg = r; reg8 = r; size_bytes = 2 }

unfoldable pub make_imm : ℕ → ℕ → Operand
make_imm val size = record operand { kind = immediate_operand; immediate = val; size_bytes = size }

unfoldable pub make_mem : ℕ → ℕ → Operand
make_mem addr size = record operand { kind = memory_operand; mem_addr = addr; size_bytes = size }

abbrev pub is_memory : Operand → Bool
is_memory op = elim op.kind [
  | no_operand ↦ false
  | register_operand ↦ false
  | immediate_operand ↦ false
  | memory_operand ↦ true
]

-- What the executors change: the registers and the memory.
pub record Machine (M : Type 0) : Type 0 where
  pub ctx : CpuContext
  pub mem : M

unfoldable pub on_mem : {M A : Type 0} → Stateful M A → Stateful (Machine M) A
on_mem m = λ s. let (mem', r) = m s.mem in (record s { mem = mem' }, r)

unfoldable pub on_ctx : {M : Type 0} → (CpuContext → CpuContext) → Stateful (Machine M) (Unit {0})
on_ctx f = modify λ s. record s { ctx = f s.ctx }

unfoldable pub from_ctx : {M A : Type 0} → (CpuContext → A) → Stateful (Machine M) A
from_ctx f = gets λ s. f s.ctx

-- The value of a register or an immediate cut to its size.
abbrev read_register : Operand → CpuContext → ℕ
read_register op c =
    if op.size_bytes == 1
    then get_gpr8 c op.reg8
    else if op.size_bytes == 2
    then get_gpr16 c op.reg
    else get_gpr c op.reg

abbrev read_immediate : Operand → ℕ
read_immediate op =
    if op.size_bytes == 1
    then op.immediate % 2 ^ 8
    else if op.size_bytes == 2
    then op.immediate % 2 ^ 16
    else op.immediate

abbrev write_register : Operand → ℕ → CpuContext → CpuContext
write_register op value c =
    if op.size_bytes == 1
    then set_gpr8 c op.reg8 (value % 2 ^ 8)
    else if op.size_bytes == 2
    then set_gpr16 c op.reg (value % 2 ^ 16)
    else set_gpr c op.reg value

module _ {M : Type 0} (io : MemoryType M) where
  abbrev read_memory : Operand → Stateful M ℕ
  read_memory op =
      if op.size_bytes == 1
      then io.read8 op.mem_addr
      else if op.size_bytes == 2
      then io.read16 op.mem_addr
      else io.read32 op.mem_addr

  abbrev write_memory : Operand → ℕ → Stateful M (Unit {0})
  write_memory op value =
      if op.size_bytes == 1
      then io.write8 op.mem_addr (value % 2 ^ 8)
      else if op.size_bytes == 2
      then io.write16 op.mem_addr (value % 2 ^ 16)
      else io.write32 op.mem_addr value

  unfoldable pub read_operand : Operand → Stateful (Machine M) ℕ
  read_operand op = elim op.kind [
    | register_operand ↦ from_ctx (read_register op)
    | immediate_operand ↦ pure (read_immediate op)
    | memory_operand ↦ on_mem (read_memory op)
    | no_operand ↦ raise (fail invalid_argument)
  ]

  unfoldable pub write_operand : Operand → ℕ → Stateful (Machine M) (Unit {0})
  write_operand op value = elim op.kind [
    | register_operand ↦ on_ctx (write_register op value)
    | memory_operand ↦ on_mem (write_memory op value)
    | immediate_operand ↦ raise (fail invalid_argument)
    | no_operand ↦ raise (fail invalid_argument)
  ]

pub data InstructionId : Type 0 where
  inst_unknown inst_nop inst_hlt inst_mov inst_lea : InstructionId
  inst_push inst_pop inst_pushf inst_popf inst_call inst_ret : InstructionId
  inst_add inst_adc inst_sub inst_sbb inst_cmp inst_inc inst_dec : InstructionId
  inst_and inst_or inst_xor inst_test inst_jmp inst_jcc : InstructionId
  inst_cli inst_sti inst_iret inst_int : InstructionId
  inst_shl inst_shr inst_sar inst_rol inst_ror : InstructionId
  inst_mul inst_imul inst_div inst_idiv : InstructionId
  inst_movzx inst_movsx inst_cdq inst_bt inst_setcc : InstructionId
  inst_movs inst_stos inst_lods inst_cmps inst_scas inst_cld inst_std : InstructionId
  inst_xchg inst_cmpxchg : InstructionId

pub record DecodedInstruction : Type 0 where
  pub id : InstructionId
  pub length : ℕ
  pub cycles : ℕ
  pub op1 : Operand
  pub op2 : Operand
  pub op3 : Operand
  pub condition : ConditionCode
  pub branch_target : ℕ
  pub ret_pop_bytes : ℕ
  pub int_vector : ℕ
  pub rep : Bool
  pub repne : Bool
  pub lock : Bool
  pub data_size : ℕ

abbrev pub instruction : InstructionId → DecodedInstruction
instruction id = record {
  id = id;
  length = 0;
  cycles = 1;
  op1 = operand;
  op2 = operand;
  op3 = operand;
  condition = cond_z;
  branch_target = 0;
  ret_pop_bytes = 0;
  int_vector = 0;
  rep = false;
  repne = false;
  lock = false;
  data_size = 4;
}

-- `static_cast<ConditionCode>` of a number below 16.
abbrev pub condition_codes : List ConditionCode
condition_codes =
    cond_o ∷ cond_no ∷ cond_b ∷ cond_nb ∷ cond_z ∷ cond_nz ∷ cond_be ∷ cond_nbe ∷ cond_s ∷ cond_ns
    ∷ cond_p ∷ cond_np ∷ cond_l ∷ cond_nl ∷ cond_le ∷ cond_nle ∷ []

unfoldable pub condition_code : ℕ → ConditionCode
condition_code n = get_or condition_codes n cond_z
