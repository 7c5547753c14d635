-- ===== src/Kernel/Threads/Tests.antt =====
-- Two threads: the first runs, the second is ready. The theorems at these.
use xblob_emulator.Kernel.Threads.{
  ready, running, blocked, to_u8, GuestThread, ThreadScheduler, thread_scheduler, find, put,
  new_thread, enqueue_ready, create_thread, yield, wake, suspend_thread,
}
use xblob_emulator.Kernel.Threads.Consistent.{IsConsistent}
use xblob_emulator.Kernel.Threads.Calls.{
  creates, yields, step, thread_scheduler-IsConsistent, step-IsConsistent,
}
use xblob_emulator.Kernel.Threads.RoundRobin.{IsTurn, yield_lem, yield-yield, wake-suspend_thread}
use xblob_emulator.Kernel.Handles.{HandleTable}
use xblob_emulator.Cpu.Registers.{CpuContext, cpu_context, set_gpr}
use xblob_emulator.Prelude.{
  ℕ, ◌+◌, ◌^◌, ◌<◌, ◌≡◌, refl, subst, ◌≢◌, true, false, some, [], ◌∷◌, arith, contains, push_new,
}

abbrev first : GuestThread
first = record (new_thread 1 0x1000 0x8000 0 0 false) { state = running }

abbrev second : GuestThread
second = new_thread 2 0x2000 0x9000 0 0 false

abbrev two : ThreadScheduler
two = record {
  next_tid = 3;
  current_tid = 1;
  threads = (1, first) ∷ (2, second) ∷ [];
  ready_queue = 2 ∷ [];
}

abbrev registers : CpuContext
registers = record cpu_context { eip = 0x1005 }

abbrev no_handles : HandleTable
no_handles = record { slots = []; events = []; mutexes = []; semaphores = []; timers = [] }

two_made :
    (create_thread
      (create_thread thread_scheduler 0x1000 0x8000 0 0 false).0
      0x2000
      0x9000
      0
      0
      false).0
    ≡ two
unfolding create_thread enqueue_ready put push_new contains new_thread set_gpr
two_made = refl

two-IsTurn : IsTurn two first second 2 []
unfolding find new_thread contains
two-IsTurn = record {
  runs = refl;
  is_running = refl;
  queue = refl;
  next = refl;
  is_ready = refl;
  not_queued = refl;
}

yield_lem_example :
    let (s', cpu') = yield two registers in
    (s'.current_tid ≡ 2)
    × (cpu' ≡ second.context)
    × (s'.ready_queue ≡ 1 ∷ [])
    × (find 2 s'.threads ≡ some (record second { state = running }))
    × (find 1 s'.threads ≡ some (record first { context = registers; state = ready }))
    × ((x : ℕ) → x ≢ 2 → x ≢ 1 → find x s'.threads ≡ find x two.threads)
yield_lem_example = yield_lem two registers first second 2 [] two-IsTurn

yield-yield_example :
    let (s', cpu') = yield (yield two registers).0 cpu_context in
    (s'.current_tid ≡ 1) × (cpu' ≡ registers) × (s'.ready_queue ≡ 2 ∷ [])
yield-yield_example = yield-yield two registers cpu_context first second 2 two-IsTurn

two-IsConsistent : IsConsistent two
unfolding create_thread step
two-IsConsistent = subst IsConsistent two_made (
    step-IsConsistent (step thread_scheduler registers no_handles (creates 0x1000 0x8000 0 0 false))
      registers no_handles (creates 0x2000 0x9000 0 0 false) (omega arith) tt
      (step-IsConsistent thread_scheduler registers no_handles (creates 0x1000 0x8000 0 0 false)
        (omega arith) tt thread_scheduler-IsConsistent))

step-IsConsistent_example : IsConsistent (step two registers no_handles yields)
step-IsConsistent_example =
    step-IsConsistent two registers no_handles yields (omega arith) tt two-IsConsistent

abbrev waiting : ThreadScheduler
waiting = record two {
  threads = (1, first) ∷ (2, record second { state = blocked }) ∷ [];
  ready_queue = [];
}

waiting_blocked : find 2 waiting.threads ≡ some (record second { state = blocked })
unfolding find
waiting_blocked = refl

no_suspends : (record second { state = blocked }).suspend_count + 1 < 2 ^ 32
unfolding new_thread
no_suspends = omega arith

wake-suspend_thread_example :
    let s' = (wake (suspend_thread waiting 2).0 2 0).0 in
    (th' : GuestThread) × (find 2 s'.threads ≡ some th')
    × (to_u8 th'.state ≡ 0)
    × (th'.suspend_count ≡ second.suspend_count + 1)
    × (contains 2 s'.ready_queue ≡ true)
wake-suspend_thread_example =
    wake-suspend_thread waiting 2 0 (record second { state = blocked }) waiting_blocked refl
      no_suspends
