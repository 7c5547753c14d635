-- ===== src/Cpu/Processor.antt =====
-- libs/cpu/include/xblob/cpu/cpu.hpp and libs/cpu/src/cpu.cpp: one step of the processor, and the
-- loop with a budget. The interrupt source (interrupt_controller.hpp), the trap handler and the
-- memory are parameters.
mod Tests
use xblob_emulator.Common.{
  ErrorCode, unsupported_feature, access_violation, invalid_opcode, general_protection,
  execution_fault, Error, Result, ok, err,
}
use xblob_emulator.Cpu.Registers.{cpu_context}
use xblob_emulator.Cpu.Flags.{get_flag}
use xblob_emulator.Cpu.Instruction.{MemoryType, Machine, DecodedInstruction}
use xblob_emulator.Cpu.Decoder.Stream.{UnsupportedFormInfo, instruction_stream}
use xblob_emulator.Cpu.Decoder.{decode}
use xblob_emulator.Cpu.Executor.Basic.{CpuException, ExecutionResult}
use xblob_emulator.Cpu.Executor.{TrapHandler, deliver_gate, execute}
use xblob_emulator.Prelude.{
  ℕ, zero, suc, ◌+◌, ◌%◌, ◌^◌, Bool, true, false, not, ◌&&◌, Option, none, some, [], ltb, ◌==◌,
  if◌then◌else◌, add32, add64,
}

-- `IInterruptSource`.
pub record InterruptSource (I : Type 0) : Type 0 where
  pub has_pending_interrupt : I → Bool
  pub acknowledge_interrupt : I → I × Option ℕ

-- What the processor reads of a page fault.
pub record PageFaultInfo : Type 0 where
  pub error_code : ℕ
  pub fault_address : ℕ

pub data CpuLifecycle : Type 0 where
  running_cpu halted_cpu faulted_cpu : CpuLifecycle

pub record Processor (I M : Type 0) : Type 0 where
  pub machine : Machine M
  pub source : I
  pub lifecycle : CpuLifecycle
  pub last_fault : Option Error
  pub last_exception : Option CpuException
  pub last_unsupported : Option UnsupportedFormInfo

pub data StepResult : Type 0 where
  step_ok step_halted step_faulted : StepResult

pub record StepOutcome : Type 0 where
  pub result : StepResult
  pub cycles_consumed : ℕ
  pub fault : Option Error
  pub exception : Option CpuException
  pub unsupported_form : Option UnsupportedFormInfo

pub data RunStatus : Type 0 where
  run_halted run_faulted budget_exhausted : RunStatus

pub record RunOutcome : Type 0 where
  pub status : RunStatus
  pub instructions_executed : ℕ
  pub cycles_consumed : ℕ
  pub fault : Option Error
  pub exception : Option CpuException
  pub unsupported_form : Option UnsupportedFormInfo

unfoldable pub reset_processor : {I M : Type 0} → Processor I M → Processor I M
reset_processor s = record s {
  machine = record (s.machine) { ctx = cpu_context };
  lifecycle = running_cpu;
  last_fault = none;
  last_exception = none;
  last_unsupported = none;
}

abbrev pub plain_outcome : StepResult → ℕ → StepOutcome
plain_outcome result cycles = record {
  result = result;
  cycles_consumed = cycles;
  fault = none;
  exception = none;
  unsupported_form = none;
}

abbrev pub is_unsupported_feature : ErrorCode → Bool
is_unsupported_feature unsupported_feature = true
is_unsupported_feature _ = false

abbrev pub is_invalid_opcode : ErrorCode → Bool
is_invalid_opcode invalid_opcode = true
is_invalid_opcode _ = false

abbrev pub with_eip : {M : Type 0} → Machine M → ℕ → Machine M
with_eip m eip = record m { ctx = record (m.ctx) { eip = eip } }

-- A fault ends the life of the processor.
unfoldable pub fault_step :
    {I M : Type 0} → Processor I M → ℕ → Error → Option CpuException → Processor I M × StepOutcome
fault_step s cycles e exception = (
  record s { lifecycle = faulted_cpu; last_fault = some e },
  record {
    result = step_faulted;
    cycles_consumed = cycles;
    fault = some e;
    exception = exception;
    unsupported_form = s.last_unsupported;
  },
)

-- The error of an exception that no gate takes.
abbrev pub unhandled : CpuException → Error
unhandled x =
    if x.vector == 0
    then record { code = execution_fault; offset = x.fault_eip }
    else if x.vector == 6
    then record { code = invalid_opcode; offset = x.fault_eip }
    else if x.vector == 14
    then record { code = access_violation; offset = x.cr2 }
    else record { code = general_protection; offset = x.fault_eip }

module _ {I M : Type 0} (io : MemoryType M) (page_fault : M → Option PageFaultInfo)
    (interrupts : InterruptSource I) (trap : TrapHandler) where
  -- A pending interrupt is delivered between two instructions, if IF is set.
  unfoldable pub check_interrupt : Processor I M → Processor I M × Option StepOutcome
  check_interrupt s =
      if interrupts.has_pending_interrupt s.source && get_flag s.machine.ctx 9
      then (let (source, vector) = interrupts.acknowledge_interrupt s.source in
          let acked : Processor I M = record s { source = source } in
          elim vector [
            | none ↦ (acked, none)
            | some v ↦
                let (machine, r) = deliver_gate io v none false s.machine.ctx.eip s.machine in
                let after : Processor I M = record acked { machine = machine } in
                elim r [
                  | err e ↦
                      let (faulted, outcome) = fault_step after 4 e after.last_exception in
                      (faulted, some outcome)
                  | ok _ ↦ (after, some (plain_outcome step_ok 4))
                ]
          ])
      else (s, none)

  -- The exception that a failure raises: the page fault of the memory, the last one, or #UD or #GP.
  unfoldable pub raised_exception : Processor I M → Error → Option ℕ → ℕ → Option CpuException
  raised_exception s e code start_eip =
      let vector = if is_invalid_opcode e.code then 6 else 13 in
      let error_code = if is_invalid_opcode e.code then none else code in
      elim (page_fault s.machine.mem) [
        | some pf ↦ some (record {
          vector = 14;
          error_code = some pf.error_code;
          fault_eip = start_eip;
          cr2 = pf.fault_address;
        })
        | none ↦ elim s.last_exception [
          | some x ↦ some x
          | none ↦
              some (record {
                vector = vector;
                error_code = error_code;
                fault_eip = start_eip;
                cr2 = 0;
              })
        ]
      ]

  -- A failure of the decoder or of an executor; an unsupported form raises no exception.
  unfoldable pub failed_step :
      Processor I M → ℕ → Error → Option ℕ → ℕ → Processor I M × StepOutcome
  failed_step s cycles e code start_eip =
      let raised = raised_exception s e code start_eip in
      if is_unsupported_feature e.code
      then fault_step s cycles e none
      else fault_step (record s { last_exception = raised }) cycles e raised

  -- An exception of the guest goes through its gate, if there is a table and the gate takes it.
  unfoldable pub deliver_exception : Processor I M → ℕ → CpuException → Processor I M × StepOutcome
  deliver_exception s cycles x =
      let noted : Processor I M = record s { last_exception = some x } in
      let e : Error = record { code = execution_fault; offset = x.fault_eip } in
      let (machine, r) = deliver_gate io x.vector x.error_code false x.fault_eip s.machine in
      let delivered : Processor I M = record noted { machine = machine } in
      let outcome : StepOutcome = record (fault_step noted cycles e (some x)).1 {
        unsupported_form = none;
      } in
      if ltb 0 s.machine.ctx.idtr.limit
      then elim r [
        | ok _ ↦ (delivered, plain_outcome step_ok cycles)
        | err x' ↦ ((fault_step delivered cycles e (some x)).0, outcome)
      ]
      else ((fault_step noted cycles e (some x)).0, outcome)

  -- The instruction pointer moves, and the processor may halt.
  unfoldable pub commit_step :
      Processor I M → DecodedInstruction → ExecutionResult → ℕ → Processor I M × StepOutcome
  commit_step s inst res start_eip =
      let next = add32 start_eip inst.length in
      if res.halted
      then (
        record s { machine = with_eip s.machine next; lifecycle = halted_cpu },
        plain_outcome step_halted inst.cycles,
      )
      else (
        record s { machine = with_eip s.machine (if res.branched then res.next_eip else next) },
        plain_outcome step_ok inst.cycles,
      )

  unfoldable pub execute_step_of :
      Processor I M → DecodedInstruction → ℕ → Processor I M × StepOutcome
  execute_step_of s inst start_eip =
      let (machine, r) = execute io trap inst start_eip s.machine in
      let after : Processor I M = record s { machine = machine } in
      elim r [
        | err e ↦
            let info : UnsupportedFormInfo = record { fault_eip = start_eip; opcode_bytes = [] } in
            let known : Processor I M =
              if is_unsupported_feature e.code
              then record after { last_unsupported = some info }
              else after in
            failed_step known inst.cycles e (some (e.offset % 2 ^ 32)) start_eip
        | ok res ↦ elim res.exception [
          | some x ↦ deliver_exception after inst.cycles x
          | none ↦ commit_step after inst res start_eip
        ]
      ]

  unfoldable pub decode_step : Processor I M → Processor I M × StepOutcome
  decode_step s =
      let start_eip = s.machine.ctx.eip in
      let (stream, r) = decode io s.machine.ctx (instruction_stream s.machine.mem start_eip) in
      let read : Processor I M = record s { machine = record (s.machine) { mem = stream.mem } } in
      elim r [
        | ok inst ↦ execute_step_of read inst start_eip
        | err e ↦
            let known : Processor I M = elim stream.unsupported [
              | none ↦ read
              | some info ↦ record read { last_unsupported = some info }
            ] in
            failed_step known 0 e none start_eip
      ]

  unfoldable pub step_generic : Processor I M → Processor I M × StepOutcome
  step_generic s = elim s.lifecycle [
    | halted_cpu ↦ (
      s,
      record (plain_outcome step_halted 0) {
        exception = s.last_exception;
        unsupported_form = s.last_unsupported;
      },
    )
    | faulted_cpu ↦ (
      s,
      record (plain_outcome step_faulted 0) {
        fault = s.last_fault;
        exception = s.last_exception;
        unsupported_form = s.last_unsupported;
      },
    )
    | running_cpu ↦
        let (checked, outcome) = check_interrupt s in
        elim outcome [ some o ↦ (checked, o) | none ↦ decode_step checked ]
  ]

  -- `RaiseException`: an exception from outside of a step.
  unfoldable pub raise_exception : Processor I M → CpuException → Processor I M × Result (Unit {0})
  raise_exception s x =
      let e : Error = unhandled x in
      let noted : Processor I M = record s { last_exception = some x } in
      let (machine, r) = deliver_gate io x.vector x.error_code false x.fault_eip s.machine in
      let delivered : Processor I M = record noted { machine = machine } in
      if ltb 0 s.machine.ctx.idtr.limit
      then elim r [
        | ok _ ↦ (delivered, ok tt)
        | err x' ↦ ((fault_step delivered 0 e (some x)).0, err e)
      ]
      else ((fault_step noted 0 e (some x)).0, err e)

  -- The loop, for the instructions that are left of the budget: a round ends it or uses one up.
  unfoldable pub run_rounds : ℕ → ℕ → Processor I M → RunOutcome → Processor I M × RunOutcome
  run_rounds zero max_cycles s out = (s, out)
  run_rounds (suc left) max_cycles s out =
      let (s', o) = step_generic s in
      let spent : RunOutcome = record out {
        cycles_consumed = add64 out.cycles_consumed o.cycles_consumed;
      } in
      let counted : RunOutcome = record spent {
        instructions_executed = spent.instructions_executed + 1;
      } in
      let rest = run_rounds left max_cycles s' counted in
      if not (ltb out.cycles_consumed max_cycles) then (s, out) else elim o.result [
        | step_halted ↦ (s', record counted { status = run_halted })
        | step_faulted ↦ (
          s',
          record spent {
            status = run_faulted;
            fault = o.fault;
            exception = o.exception;
            unsupported_form = o.unsupported_form;
          },
        )
        | step_ok ↦ rest
      ]

  -- A run that ends with a halted processor is halted.
  unfoldable pub run_with_budget : ℕ → ℕ → Processor I M → Processor I M × RunOutcome
  run_with_budget max_instructions max_cycles s =
      let start : RunOutcome = record {
        status = budget_exhausted;
        instructions_executed = 0;
        cycles_consumed = 0;
        fault = none;
        exception = none;
        unsupported_form = none;
      } in
      let (s', out) = run_rounds max_instructions max_cycles s start in
      elim s'.lifecycle [ halted_cpu ↦ (s', record out { status = run_halted }) | _ ↦ (s', out) ]
