-- ===== src/Kernel/Threads/State.antt =====
-- The state of the thread scheduler, of thread_scheduler.hpp, with the lookups and assignments that
-- the methods of thread_scheduler.cpp make in the map of threads.
use xblob_emulator.Cpu.Registers.{esp, CpuContext, cpu_context, set_gpr}
use xblob_emulator.Kernel.Sync.{invalid_thread_id}
use xblob_emulator.Prelude.{
  ℕ, Bool, false, Option, none, some, List, [], ◌∷◌, ltb, ◌==◌, if◌then◌else◌,
}

pub data ThreadState : Type 0 where
  ready running blocked suspended terminated : ThreadState

-- The values of the enumeration, which its comparisons compare.
abbrev pub to_u8 : ThreadState → ℕ
to_u8 ready = 0
to_u8 running = 1
to_u8 blocked = 2
to_u8 suspended = 3
to_u8 terminated = 4

pub record GuestThread : Type 0 where
  pub id : ℕ
  pub state : ThreadState
  pub context : CpuContext
  pub stack_base : ℕ
  pub stack_size : ℕ
  pub kernel_allocated_stack : Bool
  pub wait_handles : List ℕ
  pub wait_all : Bool
  pub has_timeout : Bool
  pub timeout_cycle : ℕ
  pub wait_status : ℕ
  pub exit_code : ℕ
  pub suspend_count : ℕ
  pub priority : ℕ

pub record ThreadScheduler : Type 0 where
  pub next_tid : ℕ
  pub current_tid : ℕ
  pub threads : List (ℕ × GuestThread)
  pub ready_queue : List ℕ

abbrev pub thread_scheduler : ThreadScheduler
thread_scheduler = record {
  next_tid = 1;
  current_tid = invalid_thread_id;
  threads = [];
  ready_queue = [];
}

abbrev pub status_wait_timeout : ℕ
status_wait_timeout = 0x102

-- `threads_.find(tid)`.
unfoldable pub find : ℕ → List (ℕ × GuestThread) → Option GuestThread
find tid [] = none
find tid ((key, th) ∷ ts) = if key == tid then some th else find tid ts

-- `threads_[tid] = th`.
unfoldable pub put : ℕ → GuestThread → List (ℕ × GuestThread) → List (ℕ × GuestThread)
put tid th [] = (tid, th) ∷ []
put tid th ((key, old) ∷ ts) =
    if key == tid
    then (tid, th) ∷ ts
    else if ltb tid key
    then (tid, th) ∷ (key, old) ∷ ts
    else (key, old) ∷ put tid th ts

unfoldable pub new_thread : ℕ → ℕ → ℕ → ℕ → ℕ → Bool → GuestThread
new_thread tid entry_point stack_top stack_base stack_size kernel_allocated_stack = record {
  id = tid;
  state = ready;
  context = set_gpr (record cpu_context { eip = entry_point }) esp stack_top;
  stack_base = stack_base;
  stack_size = stack_size;
  kernel_allocated_stack = kernel_allocated_stack;
  wait_handles = [];
  wait_all = false;
  has_timeout = false;
  timeout_cycle = 0;
  wait_status = 0;
  exit_code = 0;
  suspend_count = 0;
  priority = 8;
}
