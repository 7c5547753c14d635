-- ===== src/Kernel/Handles/Calls.antt =====
-- The calls of the handle table as steps.
use xblob_emulator.Kernel.Handles.{
  validate_and_get_slot, object_id_at, put_event, put_mutex, put_semaphore, put_timer, satisfy_wait,
  add_waiting_thread, remove_waiting_thread, close_handle, event, mutex, semaphore, timer,
  HandleTable, reset, allocate_event, allocate_mutex, allocate_semaphore, allocate_timer,
  allocate_thread_handle,
}
use xblob_emulator.Kernel.Sync.{EventObject, MutexObject, SemaphoreObject, TimerType, TimerObject}
use xblob_emulator.Common.{ok, err}
use xblob_emulator.Prelude.{ℕ, Bool, true, false, List, [], ◌∷◌}

-- The calls that change a table, and what a caller writes through the pointer to an object that
-- `GetEvent` and the others like it return.
pub data Op : Type 0 where
  creates_event : Bool → Bool → Op
  creates_mutex : Bool → ℕ → Op
  creates_semaphore : ℕ → ℕ → Op
  creates_timer : TimerType → Op
  creates_thread : ℕ → Op
  waits : ℕ → ℕ → Op
  adds_waiting : ℕ → ℕ → Op
  removes_waiting : ℕ → ℕ → Op
  closes : ℕ → Op
  resets : Op
  writes_event : ℕ → EventObject → Op
  writes_mutex : ℕ → MutexObject → Op
  writes_semaphore : ℕ → SemaphoreObject → Op
  writes_timer : ℕ → TimerObject → Op

unfoldable pub step : HandleTable → Op → HandleTable
step t (creates_event manual initial) = (allocate_event t manual initial).0
step t (creates_mutex initial tid) = (allocate_mutex t initial tid).0
step t (creates_semaphore initial top) = (allocate_semaphore t initial top).0
step t (creates_timer kind) = (allocate_timer t kind).0
step t (creates_thread tid) = (allocate_thread_handle t tid).0
step t (waits h tid) = (satisfy_wait t h tid).0
step t (adds_waiting h tid) = add_waiting_thread t h tid
step t (removes_waiting h tid) = remove_waiting_thread t h tid
step t (closes h) = (close_handle t h).0
step t resets = reset t
step t (writes_event h e) = elim (validate_and_get_slot t h event) [
  | ok i ↦ put_event t (object_id_at t i) e
  | err x ↦ t
]
step t (writes_mutex h m) = elim (validate_and_get_slot t h mutex) [
  | ok i ↦ put_mutex t (object_id_at t i) m
  | err x ↦ t
]
step t (writes_semaphore h s) = elim (validate_and_get_slot t h semaphore) [
  | ok i ↦ put_semaphore t (object_id_at t i) s
  | err x ↦ t
]
step t (writes_timer h r) = elim (validate_and_get_slot t h timer) [
  | ok i ↦ put_timer t (object_id_at t i) r
  | err x ↦ t
]

unfoldable pub run : HandleTable → List Op → HandleTable
run t [] = t
run t (o ∷ os) = run (step t o) os

abbrev pub is_reset : Op → Bool
is_reset resets = true
is_reset _ = false
