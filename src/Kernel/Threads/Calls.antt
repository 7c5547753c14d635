-- ===== src/Kernel/Threads/Calls.antt =====
-- The calls of the scheduler as steps, and what each of them keeps.
use xblob_emulator.Kernel.Threads.{
  to_u8, GuestThread, ThreadScheduler, thread_scheduler, find, create_thread, schedule_next, yield,
  block_current_with_timeout, block_current, wake, exit_current, terminate_thread, suspend_thread,
  resume_thread, check_timeouts,
}
use xblob_emulator.Kernel.Threads.Consistent.{In, IsConsistent, dispatch-IsConsistent}
use xblob_emulator.Kernel.Threads.Dispatch.{
  yield-IsConsistent, block-IsConsistent, exit-IsConsistent,
}
use xblob_emulator.Kernel.Threads.Wakes.{
  wake-IsConsistent, terminate-IsConsistent, suspend-IsConsistent, resume-IsConsistent,
  check_timeouts-IsConsistent, create_thread-IsConsistent,
}
use xblob_emulator.Kernel.Handles.{HandleTable}
use xblob_emulator.Cpu.Registers.{CpuContext}
use xblob_emulator.Prelude.{ℕ, ◌+◌, ◌<◌, ◌≢◌, Bool, false, List, arith, u32_mod}

-- The calls that change the scheduler; what a caller writes through a pointer to a thread is none. The context of the processor and the handle table, which
-- some of them are given, are parts of the state.
pub data Op : Type 0 where
  creates : ℕ → ℕ → ℕ → ℕ → Bool → Op
  schedules yields : Op
  blocks : List ℕ → Bool → Bool → ℕ → Op
  blocks_on : ℕ → Op
  wakes : ℕ → ℕ → Op
  exits : ℕ → Op
  terminates : ℕ → ℕ → Op
  suspends : ℕ → Op
  resumes : ℕ → Op
  checks : ℕ → Op
  resets : Op

unfoldable pub step : ThreadScheduler → CpuContext → HandleTable → Op → ThreadScheduler
step s cpu table (creates entry top base size kernel) =
    (create_thread s entry top base size kernel).0
step s cpu table schedules = (schedule_next s cpu).0.0
step s cpu table yields = (yield s cpu).0
step s cpu table (blocks handles wait_all has_timeout cycle) =
    (block_current_with_timeout s handles wait_all has_timeout cycle cpu).0.0
step s cpu table (blocks_on handle) = (block_current s handle cpu).0.0
step s cpu table (wakes tid status) = (wake s tid status).0
step s cpu table (exits code) = (exit_current s code cpu).0.0
step s cpu table (terminates tid code) = (terminate_thread s tid code).0
step s cpu table (suspends tid) = (suspend_thread s tid).0
step s cpu table (resumes tid) = (resume_thread s tid).0
step s cpu table (checks now) = (check_timeouts s now table).0.0
step s cpu table resets = thread_scheduler

-- When a call may be made: `ScheduleNext` by itself only while no thread runs, the others always.
abbrev pub IsAllowed : ThreadScheduler → Op → Type 0
IsAllowed s schedules = (x : ℕ) (th : GuestThread) → In s x th → to_u8 th.state ≢ 1
IsAllowed s _ = Unit {0}

-- A new scheduler is consistent.
pub thread_scheduler-IsConsistent : IsConsistent thread_scheduler
unfolding find
thread_scheduler-IsConsistent = record {
  one_runs = λ x th e. cc;
  queued = λ x th e. cc;
  distinct = tt;
  counts = omega arith;
  numbered = λ x th e. cc;
}

-- Every call keeps the scheduler consistent, as long as thread numbers last and `ScheduleNext` is
-- called by itself only while no thread runs: at most one thread runs, and it is the current one;
-- every ready thread is queued; no thread is queued twice; and every number in use is above 0 and
-- below the next one.
pub step-IsConsistent :
    (s : ThreadScheduler) (cpu : CpuContext) (table : HandleTable) (o : Op)
    → s.next_tid + 1 < u32_mod
    → IsAllowed s o
    → IsConsistent s
    → IsConsistent (step s cpu table o)
unfolding step schedule_next block_current
step-IsConsistent s cpu table (creates entry top base size kernel) room may v =
    create_thread-IsConsistent s entry top base size kernel room v
step-IsConsistent s cpu table schedules room may v =
    dispatch-IsConsistent s cpu s.ready_queue (record {
      none_runs = may;
      queued = v.queued;
      distinct = v.distinct;
      counts = v.counts;
      numbered = v.numbered;
    })
step-IsConsistent s cpu table yields room may v = yield-IsConsistent s cpu v
step-IsConsistent s cpu table (blocks handles wait_all has_timeout cycle) room may v =
    block-IsConsistent s handles wait_all has_timeout cycle cpu v
step-IsConsistent s cpu table (blocks_on handle) room may v =
    block-IsConsistent s _ false false 0 cpu v
step-IsConsistent s cpu table (wakes tid status) room may v = wake-IsConsistent s tid status v
step-IsConsistent s cpu table (exits code) room may v = exit-IsConsistent s code cpu v
step-IsConsistent s cpu table (terminates tid code) room may v = terminate-IsConsistent s tid code v
step-IsConsistent s cpu table (suspends tid) room may v = suspend-IsConsistent s tid v
step-IsConsistent s cpu table (resumes tid) room may v = resume-IsConsistent s tid v
step-IsConsistent s cpu table (checks now) room may v = check_timeouts-IsConsistent s now table v
step-IsConsistent s cpu table resets room may v = thread_scheduler-IsConsistent
