-- ===== src/Cpu/Executor.antt =====
-- libs/cpu/src/executor_interrupt.cpp: interrupt gates, IRET, and the dispatch over instructions.
-- The trap handler, which the host may set, is a parameter.
pub mod Basic
pub mod Arithmetic
pub mod Strings
mod Tests
use xblob_emulator.Common.Stateful.{Stateful, ◌>>=◌, ◌>>◌, pure, raise}
use xblob_emulator.Common.{
  invalid_opcode, general_protection, segment_not_present, invalid_argument, Result, ok, fail,
  fail_at,
}
use xblob_emulator.Cpu.Registers.{esp, CpuContext, get_gpr, set_gpr, get_segment, set_segment}
use xblob_emulator.Cpu.Flags.{bit, set_flag, set_eflags}
use xblob_emulator.Cpu.Instruction.{
  MemoryType, Machine, on_mem, on_ctx, from_ctx, inst_unknown, inst_nop, inst_hlt, inst_mov,
  inst_lea, inst_push, inst_pop, inst_pushf, inst_popf, inst_call, inst_ret, inst_add, inst_adc,
  inst_sub, inst_sbb, inst_cmp, inst_inc, inst_dec, inst_and, inst_or, inst_xor, inst_test,
  inst_jmp, inst_jcc, inst_cli, inst_sti, inst_iret, inst_int, inst_shl, inst_shr, inst_sar,
  inst_rol, inst_ror, inst_mul, inst_imul, inst_div, inst_idiv, inst_movzx, inst_movsx, inst_cdq,
  inst_bt, inst_setcc, inst_movs, inst_stos, inst_lods, inst_cmps, inst_scas, inst_cld, inst_std,
  inst_xchg, inst_cmpxchg, DecodedInstruction,
}
use xblob_emulator.Cpu.Executor.Basic.{
  ExecutionResult, execution_result, branch_to, execute_data, execute_alu, execute_branch,
  execute_stack, execute_bit_ext, execute_atomic,
}
use xblob_emulator.Cpu.Executor.Arithmetic.{execute_shift, execute_mul_div}
use xblob_emulator.Cpu.Executor.Strings.{execute_string}
use xblob_emulator.Prelude.{
  ℕ, ◌+◌, ◌*◌, ◌/◌, ◌%◌, ◌^◌, Bool, true, false, not, ◌&&◌, Option, none, some, ltb, ◌==◌,
  if◌then◌else◌, add32, sub32,
}

abbrev pub TrapHandler : Type 0
TrapHandler = Option (ℕ → CpuContext → CpuContext × Result Bool)

abbrev pub cs : ℕ
cs = 0

-- The fields of a gate: its selector, its attributes and its handler.
pub record Gate : Type 0 where
  pub selector : ℕ
  pub attr : ℕ
  pub handler : ℕ

abbrev pub gate_type : Gate → ℕ
gate_type g = g.attr / 2 ^ 8 % 16

-- Why a gate is refused.
unfoldable pub check_gate : Gate → ℕ → Bool → CpuContext → Result (Unit {0})
check_gate g vector is_software_int c =
    let at = vector * 8 + 2 in
    if not (bit g.attr 15 == 1)
    then fail_at segment_not_present at
    else if not (bit g.attr 12 == 0)
    then fail_at general_protection at
    else if not (gate_type g == 14) && not (gate_type g == 15)
    then fail_at general_protection at
    else if is_software_int && ltb (g.attr / 2 ^ 13 % 4) (get_segment c cs % 4)
    then fail_at general_protection at
    else ok tt

-- The context in the handler: an interrupt gate clears IF and TF.
unfoldable pub enter_handler : Gate → CpuContext → CpuContext
enter_handler g c =
    let entered : CpuContext = record (set_segment c cs g.selector) { eip = g.handler } in
    if gate_type g == 14 then set_flag (set_flag entered 9 false) 8 false else entered

module _ {M : Type 0} (io : MemoryType M) where
  unfoldable pub read_gate : ℕ → Stateful (Machine M) Gate
  read_gate addr = do
    low ← on_mem (io.read16 addr)
    sel ← on_mem (io.read16 (add32 addr 2))
    attr ← on_mem (io.read16 (add32 addr 4))
    high ← on_mem (io.read16 (add32 addr 6))
    pure (record { selector = sel; attr = attr; handler = high * 2 ^ 16 + low })

  -- The words of the frame, below the stack pointer.
  unfoldable pub push_frame : ℕ → Option ℕ → ℕ → Stateful (Machine M) (Unit {0})
  push_frame top error_code return_eip = do
    c ← from_ctx (λ c. c)
    on_mem (io.write32 (sub32 top 4) c.eflags)
    on_mem (io.write32 (sub32 top 8) (get_segment c cs))
    on_mem (io.write32 (sub32 top 12) return_eip)
    (elim error_code [
      | some code ↦ do
        on_mem (io.write32 (sub32 top 16) code)
        on_ctx (λ c. set_gpr c esp (sub32 top 16))
      | none ↦ on_ctx (λ c. set_gpr c esp (sub32 top 12))
    ])

  unfoldable pub deliver_gate : ℕ → Option ℕ → Bool → ℕ → Stateful (Machine M) (Unit {0})
  deliver_gate vector error_code is_software_int return_eip = do
    c ← from_ctx (λ c. c)
    (if ltb c.idtr.limit (vector * 8 + 7)
        then raise (fail_at general_protection (vector * 8 + 2))
        else pure tt)
    gate ← read_gate (add32 c.idtr.base (vector * 8))
    raise (check_gate gate vector is_software_int c)
    push_frame (get_gpr c esp) error_code return_eip
    on_ctx (enter_handler gate)

  unfoldable pub execute_iret : Stateful (Machine M) (Unit {0})
  execute_iret = do
    c ← from_ctx (λ c. c)
    let top = get_gpr c esp
    eip ← on_mem (io.read32 top)
    selector ← on_mem (io.read32 (add32 top 4))
    flags ← on_mem (io.read32 (add32 top 8))
    (if not (selector % 4 == get_segment c cs % 4)
        then raise (fail_at general_protection selector)
        else on_ctx (λ c.
          let back : CpuContext = record (set_segment c cs (selector % 2 ^ 16)) { eip = eip } in
          set_gpr (set_eflags back flags) esp (add32 top 12)))

  -- A branch to where the registers point now.
  abbrev resumed : Stateful (Machine M) ExecutionResult
  resumed = from_ctx (λ c. branch_to c.eip)

  -- The trap handler may take the interrupt.
  unfoldable pub call_trap : TrapHandler → ℕ → Stateful (Machine M) Bool
  call_trap none vector = pure false
  call_trap (some trap) vector = λ s. let (c, r) = trap vector s.ctx in (record s { ctx = c }, r)

  unfoldable pub execute_interrupt_instruction :
      TrapHandler → DecodedInstruction → ℕ → Stateful (Machine M) ExecutionResult
  execute_interrupt_instruction trap inst current_eip = elim inst.id [
    | inst_cli ↦ do on_ctx (λ c. set_flag c 9 false); pure execution_result
    | inst_sti ↦ do on_ctx (λ c. set_flag c 9 true); pure execution_result
    | inst_iret ↦ do execute_iret; resumed
    | inst_int ↦ do
      taken ← call_trap trap inst.int_vector
      (if taken
          then pure tt
          else deliver_gate inst.int_vector none true (add32 current_eip inst.length))
      resumed
    | _ ↦ raise (fail invalid_argument)
  ]

  unfoldable pub execute :
      TrapHandler → DecodedInstruction → ℕ → Stateful (Machine M) ExecutionResult
  execute trap inst current_eip = elim inst.id [
    | inst_unknown ↦ raise (fail invalid_opcode)
    | inst_nop ↦ pure execution_result
    | inst_hlt ↦ pure (record execution_result { halted = true })
    | inst_mov ↦ execute_data io inst
    | inst_lea ↦ execute_data io inst
    | inst_push ↦ execute_stack io inst current_eip
    | inst_pop ↦ execute_stack io inst current_eip
    | inst_pushf ↦ execute_stack io inst current_eip
    | inst_popf ↦ execute_stack io inst current_eip
    | inst_call ↦ execute_stack io inst current_eip
    | inst_ret ↦ execute_stack io inst current_eip
    | inst_add ↦ execute_alu io inst
    | inst_adc ↦ execute_alu io inst
    | inst_sub ↦ execute_alu io inst
    | inst_sbb ↦ execute_alu io inst
    | inst_cmp ↦ execute_alu io inst
    | inst_inc ↦ execute_alu io inst
    | inst_dec ↦ execute_alu io inst
    | inst_and ↦ execute_alu io inst
    | inst_or ↦ execute_alu io inst
    | inst_xor ↦ execute_alu io inst
    | inst_test ↦ execute_alu io inst
    | inst_shl ↦ execute_shift io inst
    | inst_shr ↦ execute_shift io inst
    | inst_sar ↦ execute_shift io inst
    | inst_rol ↦ execute_shift io inst
    | inst_ror ↦ execute_shift io inst
    | inst_mul ↦ execute_mul_div io inst current_eip
    | inst_imul ↦ execute_mul_div io inst current_eip
    | inst_div ↦ execute_mul_div io inst current_eip
    | inst_idiv ↦ execute_mul_div io inst current_eip
    | inst_movzx ↦ execute_bit_ext io inst
    | inst_movsx ↦ execute_bit_ext io inst
    | inst_cdq ↦ execute_bit_ext io inst
    | inst_bt ↦ execute_bit_ext io inst
    | inst_setcc ↦ execute_bit_ext io inst
    | inst_movs ↦ execute_string io inst current_eip
    | inst_stos ↦ execute_string io inst current_eip
    | inst_lods ↦ execute_string io inst current_eip
    | inst_cmps ↦ execute_string io inst current_eip
    | inst_scas ↦ execute_string io inst current_eip
    | inst_cld ↦ execute_string io inst current_eip
    | inst_std ↦ execute_string io inst current_eip
    | inst_xchg ↦ execute_atomic io inst
    | inst_cmpxchg ↦ execute_atomic io inst
    | inst_jmp ↦ execute_branch io inst
    | inst_jcc ↦ execute_branch io inst
    | inst_cli ↦ execute_interrupt_instruction trap inst current_eip
    | inst_sti ↦ execute_interrupt_instruction trap inst current_eip
    | inst_iret ↦ execute_interrupt_instruction trap inst current_eip
    | inst_int ↦ execute_interrupt_instruction trap inst current_eip
  ]
