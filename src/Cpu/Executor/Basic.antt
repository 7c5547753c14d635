-- ===== src/Cpu/Executor/Basic.antt =====
-- libs/cpu/src/executor_data.cpp, executor_alu.cpp, executor_branch.cpp, executor_stack.cpp,
-- executor_bit_ext.cpp and executor_atomic.cpp. An executor that fails keeps what it changed before.
use Prim.Native.Nat.{bit_and, bit_or, bit_xor}
use xblob_emulator.Common.Stateful.{Stateful, ◌>>=◌, ◌>>◌, pure, raise}
use xblob_emulator.Common.{invalid_opcode, invalid_argument, fail}
use xblob_emulator.Cpu.Registers.{eax, esp, CpuContext, get_gpr, set_gpr, get_gpr8, set_gpr8}
use xblob_emulator.Cpu.Flags.{
  bit, digit, calculate_add_flags, calculate_adc_flags, calculate_sub_flags, calculate_sub_flags8,
  calculate_sbb_flags, calculate_inc_flags, calculate_dec_flags, calculate_logic_flags, get_flag,
  set_flag, set_eflags, evaluate_condition,
}
use xblob_emulator.Cpu.Instruction.{
  MemoryType, register_operand, immediate_operand, Operand, Machine, on_mem, on_ctx, from_ctx,
  read_operand, write_operand, InstructionId, inst_mov, inst_lea, inst_push, inst_pop, inst_pushf,
  inst_popf, inst_call, inst_ret, inst_add, inst_adc, inst_sub, inst_sbb, inst_cmp, inst_inc,
  inst_dec, inst_and, inst_or, inst_xor, inst_test, inst_jmp, inst_jcc, inst_movzx, inst_movsx,
  inst_cdq, inst_bt, inst_setcc, inst_xchg, inst_cmpxchg, DecodedInstruction,
}
use xblob_emulator.Prelude.{
  ℕ, ◌+◌, ◌-◌, ◌*◌, ◌/◌, ◌%◌, ◌^◌, Bool, true, false, Option, none, some, ltb, ◌==◌, if◌then◌else◌,
  add32, sub32,
}

pub record CpuException : Type 0 where
  pub vector : ℕ
  pub error_code : Option ℕ
  pub fault_eip : ℕ
  pub cr2 : ℕ

pub record ExecutionResult : Type 0 where
  pub halted : Bool
  pub branched : Bool
  pub next_eip : ℕ
  pub exception : Option CpuException

abbrev pub execution_result : ExecutionResult
execution_result = record { halted = false; branched = false; next_eip = 0; exception = none }

abbrev pub branch_to : ℕ → ExecutionResult
branch_to eip = record execution_result { branched = true; next_eip = eip }

abbrev pub edx : ℕ
edx = 2

-- What an instruction of two operands writes, the flags, and whether it writes.
pub record AluOutput : Type 0 where
  pub out_val : ℕ
  pub new_flags : ℕ
  pub write_back : Bool

abbrev pub alu_output : ℕ → ℕ → Bool → Option AluOutput
alu_output out flags back = some (record { out_val = out; new_flags = flags; write_back = back })

unfoldable pub alu_two : InstructionId → ℕ → ℕ → CpuContext → Option AluOutput
alu_two inst_add a b c = alu_output (add32 a b) (calculate_add_flags a b c.eflags) true
alu_two inst_adc a b c =
    let cf = get_flag c 0 in
    alu_output ((a + b + digit cf) % 2 ^ 32) (calculate_adc_flags a b cf c.eflags) true
alu_two inst_sub a b c = alu_output (sub32 a b) (calculate_sub_flags a b c.eflags) true
alu_two inst_sbb a b c =
    let cf = get_flag c 0 in
    alu_output ((a + 2 ^ 32 - (b + digit cf)) % 2 ^ 32) (calculate_sbb_flags a b cf c.eflags) true
alu_two inst_cmp a b c = alu_output (sub32 a b) (calculate_sub_flags a b c.eflags) false
alu_two inst_and a b c =
    alu_output (bit_and a b) (calculate_logic_flags (bit_and a b) c.eflags) true
alu_two inst_or a b c = alu_output (bit_or a b) (calculate_logic_flags (bit_or a b) c.eflags) true
alu_two inst_xor a b c =
    alu_output (bit_xor a b) (calculate_logic_flags (bit_xor a b) c.eflags) true
alu_two inst_test a b c =
    alu_output (bit_and a b) (calculate_logic_flags (bit_and a b) c.eflags) false
alu_two _ a b c = none

-- INC and DEC.
unfoldable pub alu_one : InstructionId → ℕ → CpuContext → Option AluOutput
alu_one inst_inc a c = alu_output (add32 a 1) (calculate_inc_flags a c.eflags) true
alu_one inst_dec a c = alu_output (sub32 a 1) (calculate_dec_flags a c.eflags) true
alu_one _ a c = none

abbrev pub is_step : InstructionId → Bool
is_step inst_inc = true
is_step inst_dec = true
is_step _ = false

-- A number of `w` bits as one of 32, with its sign.
abbrev pub sign_extend : ℕ → ℕ → ℕ
sign_extend w x = if ltb x (2 ^ (w - 1)) then x else x + (2 ^ 32 - 2 ^ w)

-- An arithmetic shift to the right, of a number of `w` bits.
abbrev pub arithmetic_shift : ℕ → ℕ → ℕ → ℕ
arithmetic_shift w x k =
    if ltb x (2 ^ (w - 1)) then x / 2 ^ k else x / 2 ^ k + (2 ^ w - 2 ^ (w - k))

module _ {M : Type 0} (io : MemoryType M) where
  abbrev pub done : Stateful (Machine M) ExecutionResult
  done = pure execution_result

  unfoldable pub execute_data : DecodedInstruction → Stateful (Machine M) ExecutionResult
  execute_data inst = elim inst.id [
    | inst_mov ↦ do val ← read_operand io inst.op2; write_operand io inst.op1 val; done
    | inst_lea ↦ do write_operand io inst.op1 inst.op2.immediate; done
    | _ ↦ raise (fail invalid_argument)
  ]

  -- The result is written, and then the flags are.
  unfoldable pub commit : Operand → Option AluOutput → Stateful (Machine M) ExecutionResult
  commit op none = raise (fail invalid_argument)
  commit op (some out) = do
    (if out.write_back then write_operand io op out.out_val else pure tt)
    on_ctx (λ c. set_eflags c out.new_flags)
    done

  unfoldable pub execute_step : DecodedInstruction → Stateful (Machine M) ExecutionResult
  execute_step inst = do
    a ← read_operand io inst.op1
    out ← from_ctx (alu_one inst.id a)
    commit inst.op1 out

  unfoldable pub execute_two : DecodedInstruction → Stateful (Machine M) ExecutionResult
  execute_two inst = do
    a ← read_operand io inst.op1
    b ← read_operand io inst.op2
    out ← from_ctx (alu_two inst.id a b)
    commit inst.op1 out

  unfoldable pub execute_alu : DecodedInstruction → Stateful (Machine M) ExecutionResult
  execute_alu inst = if is_step inst.id then execute_step inst else execute_two inst

  -- Where a jump or a call goes.
  unfoldable pub branch_address : DecodedInstruction → Stateful (Machine M) ℕ
  branch_address inst = elim inst.op1.kind [
    | immediate_operand ↦ pure inst.branch_target
    | _ ↦ read_operand io inst.op1
  ]

  unfoldable pub execute_branch : DecodedInstruction → Stateful (Machine M) ExecutionResult
  execute_branch inst = elim inst.id [
    | inst_jmp ↦ do target ← branch_address inst; pure (branch_to target)
    | inst_jcc ↦ do
      taken ← from_ctx (λ c. evaluate_condition inst.condition c.eflags)
      pure (if taken then branch_to inst.branch_target else execution_result)
    | _ ↦ raise (fail invalid_argument)
  ]

  -- A word below the stack pointer, which then points to it.
  unfoldable pub push_word : ℕ → Stateful (Machine M) (Unit {0})
  push_word val = do
    top ← from_ctx (λ c. get_gpr c esp)
    on_mem (io.write32 (sub32 top 4) val)
    on_ctx (λ c. set_gpr c esp (sub32 top 4))

  unfoldable pub execute_stack : DecodedInstruction → ℕ → Stateful (Machine M) ExecutionResult
  execute_stack inst current_eip = do
    top ← from_ctx (λ c. get_gpr c esp)
    (elim inst.id [
      | inst_push ↦ do val ← read_operand io inst.op1; push_word val; done
      | inst_pop ↦ do
        val ← on_mem (io.read32 top)
        write_operand io inst.op1 val
        on_ctx (λ c. set_gpr c esp (add32 top 4))
        done
      | inst_pushf ↦ do flags ← from_ctx (λ c. c.eflags); push_word flags; done
      | inst_popf ↦ do
        val ← on_mem (io.read32 top)
        on_ctx (λ c. set_gpr (set_eflags c val) esp (add32 top 4))
        done
      | inst_call ↦ do
        target ← branch_address inst
        push_word (add32 current_eip inst.length)
        pure (branch_to target)
      | inst_ret ↦ do
        target ← on_mem (io.read32 top)
        on_ctx (λ c. set_gpr c esp (add32 (add32 top 4) inst.ret_pop_bytes))
        pure (branch_to target)
      | _ ↦ raise (fail invalid_argument)
    ])

  -- The bit that BT tests: of a register, or of the word in memory that a signed offset selects.
  unfoldable pub tested_bit : Operand → ℕ → Stateful (Machine M) Bool
  tested_bit op count = elim op.kind [
    | register_operand ↦ do val ← read_operand io op; pure (bit val (count % 32) == 1)
    | _ ↦ do
      let address = add32 op.mem_addr (arithmetic_shift 32 count 5 * 4 % 2 ^ 32)
      word ← on_mem (io.read32 address)
      pure (bit word (count % 32) == 1)
  ]

  unfoldable pub execute_bit_ext : DecodedInstruction → Stateful (Machine M) ExecutionResult
  execute_bit_ext inst = elim inst.id [
    | inst_movzx ↦ do
      src ← read_operand io inst.op2
      write_operand io inst.op1 (if inst.data_size == 1 then src % 2 ^ 8 else src % 2 ^ 16)
      done
    | inst_movsx ↦ do
      src ← read_operand io inst.op2
      write_operand io inst.op1 (
          if inst.data_size == 1
          then sign_extend 8 (src % 2 ^ 8)
          else sign_extend 16 (src % 2 ^ 16))
      done
    | inst_cdq ↦ do
      on_ctx (λ c. set_gpr c edx (if bit (get_gpr c eax) 31 == 1 then 0xFFFFFFFF else 0))
      done
    | inst_bt ↦ do
      count ← read_operand io inst.op2
      is_one ← tested_bit inst.op1 count
      on_ctx (λ c. set_flag c 0 is_one)
      done
    | inst_setcc ↦ do
      met ← from_ctx (λ c. evaluate_condition inst.condition c.eflags)
      write_operand io inst.op1 (digit met)
      done
    | _ ↦ raise (fail invalid_opcode)
  ]

  -- The comparison of CMPXCHG sets the flags before the operand is written.
  unfoldable pub compare_exchange8 : Operand → ℕ → ℕ → Stateful (Machine M) ExecutionResult
  compare_exchange8 op dest src = do
    accum ← from_ctx (λ c. get_gpr8 c 0)
    on_ctx (λ c. record c { eflags = calculate_sub_flags8 accum (dest % 2 ^ 8) c.eflags })
    (if accum == dest % 2 ^ 8
        then write_operand io op (src % 2 ^ 8)
        else on_ctx (λ c. set_gpr8 c 0 (dest % 2 ^ 8)))
    done

  unfoldable pub compare_exchange32 : Operand → ℕ → ℕ → Stateful (Machine M) ExecutionResult
  compare_exchange32 op dest src = do
    accum ← from_ctx (λ c. get_gpr c eax)
    on_ctx (λ c. record c { eflags = calculate_sub_flags accum dest c.eflags })
    (if accum == dest then write_operand io op src else on_ctx (λ c. set_gpr c eax dest))
    done

  unfoldable pub execute_atomic : DecodedInstruction → Stateful (Machine M) ExecutionResult
  execute_atomic inst = elim inst.id [
    | inst_xchg ↦ do
      v1 ← read_operand io inst.op1
      v2 ← read_operand io inst.op2
      write_operand io inst.op1 v2
      write_operand io inst.op2 v1
      done
    | inst_cmpxchg ↦ do
      dest ← read_operand io inst.op1
      src ← read_operand io inst.op2
      (if inst.data_size == 1
          then compare_exchange8 inst.op1 dest src
          else compare_exchange32 inst.op1 dest src)
    | _ ↦ raise (fail invalid_opcode)
  ]
