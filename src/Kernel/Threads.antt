-- ===== src/Kernel/Threads.antt =====
-- libs/kernel/include/xblob/kernel/thread_scheduler.hpp and libs/kernel/src/thread_scheduler.cpp:
-- the cooperative scheduler of the guest's threads. `threads_` is the list of the map's entries in
-- the order of their keys, and `active_cpu_ctx`, which the methods take by reference, is a part of
-- the state that they are given and return.
mod State
unfoldable pub use State.*
pub mod Table
pub mod Dispatch
pub mod Consistent
pub mod Wakes
pub mod Calls
pub mod RoundRobin
mod Tests
use xblob_emulator.Kernel.Handles.{HandleTable, invalid_handle_value, remove_waiting_thread}
use xblob_emulator.Cpu.Registers.{eax, CpuContext, set_gpr}
use xblob_emulator.Kernel.Sync.{invalid_thread_id}
use xblob_emulator.Common.{invalid_argument, invalid_state, Result, ok, fail}
use xblob_emulator.Prelude.{
  ℕ, ◌+◌, ◌-◌, Bool, true, false, ◌&&◌, ◌||◌, Option, none, some, List, [], ◌∷◌, leb, ◌==◌,
  if◌then◌else◌, remove, push_new, add32,
}

unfoldable pub enqueue_ready : ThreadScheduler → ℕ → ThreadScheduler
enqueue_ready s tid = record s { ready_queue = push_new tid s.ready_queue }

unfoldable pub create_thread : ThreadScheduler → ℕ → ℕ → ℕ → ℕ → Bool → ThreadScheduler × Result ℕ
create_thread s entry_point stack_top stack_base stack_size kernel_allocated_stack =
    let tid = s.next_tid in
    let th = new_thread tid entry_point stack_top stack_base stack_size kernel_allocated_stack in
    if s.current_tid == invalid_thread_id
    then (
      record s {
        next_tid = add32 tid 1;
        current_tid = tid;
        threads = put tid (record th { state = running }) s.threads;
      },
      ok tid,
    )
    else (
      enqueue_ready (record s { next_tid = add32 tid 1; threads = put tid th s.threads }) tid,
      ok tid,
    )

unfoldable pub current_thread : ThreadScheduler → Option GuestThread
current_thread s = find s.current_tid s.threads

unfoldable pub get_thread : ThreadScheduler → ℕ → Option GuestThread
get_thread s tid = find tid s.threads

unfoldable pub count_active : List (ℕ × GuestThread) → ℕ
count_active [] = 0
count_active ((key, th) ∷ ts) = if to_u8 th.state == 4 then count_active ts else count_active ts + 1

unfoldable pub active_thread_count : ThreadScheduler → ℕ
active_thread_count s = count_active s.threads

-- A thread under a key that it has.
abbrev pub with_thread : ThreadScheduler → ℕ → GuestThread → ThreadScheduler
with_thread s tid th = record s { threads = put tid th s.threads }

-- `ScheduleNext`, over the ready queue: terminated, suspended and unknown threads are dropped.
abbrev pub is_dropped : GuestThread → Bool
is_dropped th = to_u8 th.state == 4 || to_u8 th.state == 3

unfoldable pub dispatch :
    ThreadScheduler → CpuContext → List ℕ → (ThreadScheduler × CpuContext) × Bool
dispatch s cpu [] = ((record s { ready_queue = [] }, cpu), false)
dispatch s cpu (tid ∷ q) = elim (find tid s.threads) [
  | none ↦ dispatch s cpu q
  | some th ↦ elim (is_dropped th) [
    | true ↦ dispatch s cpu q
    | false ↦ (
      (
        record s {
          current_tid = tid;
          threads = put tid (record th { state = running }) s.threads;
          ready_queue = q;
        },
        th.context,
      ),
      true,
    )
  ]
]

unfoldable pub schedule_next : ThreadScheduler → CpuContext → (ThreadScheduler × CpuContext) × Bool
schedule_next s cpu = dispatch s cpu s.ready_queue

-- What `Yield` does before it schedules the next thread.
unfoldable pub give_up : ThreadScheduler → CpuContext → ThreadScheduler
give_up s cpu = elim (current_thread s) [
  | none ↦ s
  | some curr ↦
      if to_u8 curr.state == 1
      then enqueue_ready
          (with_thread s s.current_tid (record curr { context = cpu; state = ready })) s.current_tid
      else with_thread s s.current_tid (record curr { context = cpu })
]

unfoldable pub yield : ThreadScheduler → CpuContext → (ThreadScheduler × CpuContext)
yield s cpu = (schedule_next (give_up s cpu) cpu).0

unfoldable pub block_current_with_timeout :
    ThreadScheduler
    → List ℕ
    → Bool
    → Bool
    → ℕ
    → CpuContext
    → (ThreadScheduler × CpuContext) × Result (Unit {0})
block_current_with_timeout s handles wait_all has_timeout timeout_cycle cpu =
    elim (current_thread s) [
      | none ↦ ((s, cpu), fail invalid_state)
      | some curr ↦ (
        (schedule_next
            (with_thread s s.current_tid (record curr {
              context = cpu;
              state = blocked;
              wait_handles = handles;
              wait_all = wait_all;
              has_timeout = has_timeout;
              timeout_cycle = timeout_cycle;
            }))
            cpu).0,
        ok tt,
      )
    ]

unfoldable pub block_current :
    ThreadScheduler → ℕ → CpuContext → (ThreadScheduler × CpuContext) × Result (Unit {0})
block_current s handle cpu =
    block_current_with_timeout s (if handle == invalid_handle_value then [] else handle ∷ []) false
      false 0 cpu

-- A blocked thread made ready, with the status that its wait returns.
unfoldable pub awaken : ℕ → GuestThread → GuestThread
awaken status th = record th {
  state = ready;
  wait_handles = [];
  has_timeout = false;
  wait_status = status;
  context = set_gpr th.context eax status;
}

unfoldable pub wake : ThreadScheduler → ℕ → ℕ → ThreadScheduler × Result (Unit {0})
wake s tid status = elim (find tid s.threads) [
  | none ↦ (s, fail invalid_argument)
  | some th ↦
      if to_u8 th.state == 2
      then (enqueue_ready (with_thread s tid (awaken status th)) tid, ok tt)
      else (s, ok tt)
]

unfoldable pub exit_current :
    ThreadScheduler → ℕ → CpuContext → (ThreadScheduler × CpuContext) × Result (Unit {0})
exit_current s code cpu = elim (current_thread s) [
  | none ↦ ((s, cpu), fail invalid_state)
  | some curr ↦ (
    (schedule_next
        (with_thread s s.current_tid (record curr { state = terminated; exit_code = code })) cpu).0,
    ok tt,
  )
]

unfoldable pub terminate_thread : ThreadScheduler → ℕ → ℕ → ThreadScheduler × Result (Unit {0})
terminate_thread s tid code = elim (find tid s.threads) [
  | none ↦ (s, fail invalid_argument)
  | some th ↦ (
    record s {
      threads = put tid (record th { state = terminated; exit_code = code }) s.threads;
      ready_queue = remove tid s.ready_queue;
    },
    ok tt,
  )
]

unfoldable pub suspend_thread : ThreadScheduler → ℕ → ThreadScheduler × Result ℕ
suspend_thread s tid = elim (find tid s.threads) [
  | none ↦ (s, fail invalid_argument)
  | some th ↦
      let counted : GuestThread = record th { suspend_count = add32 th.suspend_count 1 } in
      if to_u8 th.state == 4
      then (s, fail invalid_argument)
      else if to_u8 th.state == 0
      then (
        record s {
          threads = put tid (record counted { state = suspended }) s.threads;
          ready_queue = remove tid s.ready_queue;
        },
        ok th.suspend_count,
      )
      else (with_thread s tid counted, ok th.suspend_count)
]

unfoldable pub resume_thread : ThreadScheduler → ℕ → ThreadScheduler × Result ℕ
resume_thread s tid = elim (find tid s.threads) [
  | none ↦ (s, fail invalid_argument)
  | some th ↦
      let counted : GuestThread = record th { suspend_count = th.suspend_count - 1 } in
      if to_u8 th.state == 4
      then (s, fail invalid_argument)
      else if th.suspend_count == 0
      then (s, ok 0)
      else if counted.suspend_count == 0 && to_u8 th.state == 3
      then (
        enqueue_ready (with_thread s tid (record counted { state = ready })) tid,
        ok th.suspend_count,
      )
      else (with_thread s tid counted, ok th.suspend_count)
]

abbrev pub is_expired : ℕ → GuestThread → Bool
is_expired now th = to_u8 th.state == 2 && (th.has_timeout && leb th.timeout_cycle now)

unfoldable pub remove_waits : HandleTable → List ℕ → ℕ → HandleTable
remove_waits table [] tid = table
remove_waits table (h ∷ hs) tid = remove_waits (remove_waiting_thread table h tid) hs tid

-- The loop of `CheckTimeouts`, over the entries of the map: the threads, the handle table, the ready
-- queue and the number of threads awakened.
pub record Sweep : Type 0 where
  pub threads : List (ℕ × GuestThread)
  pub handles : HandleTable
  pub ready_queue : List ℕ
  pub awakened : ℕ

unfoldable pub sweep : ℕ → List (ℕ × GuestThread) → HandleTable → List ℕ → Sweep
sweep now [] table q = record { threads = []; handles = table; ready_queue = q; awakened = 0 }
sweep now ((tid, th) ∷ ts) table q = elim (is_expired now th) [
  | true ↦
      let rest = sweep now ts (remove_waits table th.wait_handles tid) (push_new tid q) in
      record rest {
        threads = (tid, awaken status_wait_timeout th) ∷ rest.threads;
        awakened = rest.awakened + 1;
      }
  | false ↦ let rest = sweep now ts table q in record rest { threads = (tid, th) ∷ rest.threads }
]

unfoldable pub check_timeouts :
    ThreadScheduler → ℕ → HandleTable → (ThreadScheduler × HandleTable) × ℕ
check_timeouts s now table =
    let w = sweep now s.threads table s.ready_queue in
    ((record s { threads = w.threads; ready_queue = w.ready_queue }, w.handles), w.awakened)
