-- ===== src/Cpu/Executor/Strings.antt =====
-- libs/cpu/src/executor_string.cpp: string instructions, one element at a time. With a repeat prefix
-- the instruction branches to itself while there is more to do.
use xblob_emulator.Common.Stateful.{Stateful, ◌>>=◌, ◌>>◌, pure, raise}
use xblob_emulator.Common.{invalid_opcode, fail}
use xblob_emulator.Cpu.Registers.{eax, CpuContext, get_gpr, set_gpr, get_gpr8, set_gpr8}
use xblob_emulator.Cpu.Flags.{calculate_sub_flags, calculate_sub_flags8, get_flag, set_flag}
use xblob_emulator.Cpu.Instruction.{
  MemoryType, Machine, on_mem, on_ctx, from_ctx, inst_movs, inst_stos, inst_lods, inst_cmps,
  inst_scas, inst_cld, inst_std, DecodedInstruction,
}
use xblob_emulator.Cpu.Executor.Basic.{ExecutionResult, execution_result, branch_to}
use xblob_emulator.Prelude.{
  ℕ, Bool, true, false, not, ◌&&◌, ◌||◌, ltb, ◌==◌, if◌then◌else◌, add32, sub32,
}

abbrev pub ecx : ℕ
ecx = 1

abbrev pub esi : ℕ
esi = 6

abbrev pub edi : ℕ
edi = 7

-- A pointer after one element, in the direction of the flag DF.
abbrev pub advance : ℕ → CpuContext → ℕ → CpuContext
advance size c reg =
    let old = get_gpr c reg in
    set_gpr c reg (if get_flag c 10 then sub32 old size else add32 old size)

-- Does a comparison end the repetition?
abbrev pub ends : DecodedInstruction → CpuContext → Bool
ends inst c = (inst.rep && not (get_flag c 6)) || (inst.repne && get_flag c 6)

abbrev pub compare_elements : ℕ → ℕ → ℕ → CpuContext → CpuContext
compare_elements size a b c = record c {
  eflags =
      if size == 1 then calculate_sub_flags8 a b c.eflags else calculate_sub_flags a b c.eflags;
}

abbrev pub accumulator : ℕ → CpuContext → ℕ
accumulator size c = if size == 1 then get_gpr8 c 0 else get_gpr c eax

module _ {M : Type 0} (io : MemoryType M) where
  abbrev read_element : ℕ → ℕ → Stateful (Machine M) ℕ
  read_element size addr = on_mem (if size == 1 then io.read8 addr else io.read32 addr)

  abbrev write_element : ℕ → ℕ → ℕ → Stateful (Machine M) (Unit {0})
  write_element size addr val =
      on_mem (if size == 1 then io.write8 addr val else io.write32 addr val)

  -- One element; the answer says whether a comparison ends the repetition.
  unfoldable pub string_element : DecodedInstruction → Stateful (Machine M) Bool
  string_element inst = do
    let size = inst.data_size
    src ← from_ctx (λ c. get_gpr c esi)
    dst ← from_ctx (λ c. get_gpr c edi)
    acc ← from_ctx (accumulator size)
    (elim inst.id [
      | inst_movs ↦ do
        val ← read_element size src
        write_element size dst val
        on_ctx (λ c. advance size (advance size c esi) edi)
        pure false
      | inst_stos ↦ do write_element size dst acc; on_ctx (λ c. advance size c edi); pure false
      | inst_lods ↦ do
        val ← read_element size src
        on_ctx (λ c. if size == 1 then set_gpr8 c 0 val else set_gpr c eax val)
        on_ctx (λ c. advance size c esi)
        pure false
      | inst_cmps ↦ do
        a ← read_element size src
        b ← read_element size dst
        on_ctx (compare_elements size a b)
        on_ctx (λ c. advance size (advance size c esi) edi)
        from_ctx (ends inst)
      | inst_scas ↦ do
        b ← read_element size dst
        on_ctx (compare_elements size acc b)
        on_ctx (λ c. advance size c edi)
        from_ctx (ends inst)
      | _ ↦ raise (fail invalid_opcode)
    ])

  -- One round of a repetition.
  unfoldable pub repeat_round : DecodedInstruction → ℕ → Stateful (Machine M) ExecutionResult
  repeat_round inst current_eip = do
    stop ← string_element inst
    on_ctx (λ c. set_gpr c ecx (sub32 (get_gpr c ecx) 1))
    remaining ← from_ctx (λ c. get_gpr c ecx)
    pure (if ltb 0 remaining && not stop then branch_to current_eip else execution_result)

  unfoldable pub execute_string : DecodedInstruction → ℕ → Stateful (Machine M) ExecutionResult
  execute_string inst current_eip = elim inst.id [
    | inst_cld ↦ do on_ctx (λ c. set_flag c 10 false); pure execution_result
    | inst_std ↦ do on_ctx (λ c. set_flag c 10 true); pure execution_result
    | _ ↦ do
      count ← from_ctx (λ c. get_gpr c ecx)
      (if inst.rep || inst.repne
          then if count == 0 then pure execution_result else repeat_round inst current_eip
          else (string_element inst >>= λ stop. pure execution_result))
  ]
