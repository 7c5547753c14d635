-- ===== src/Kernel/Handles.antt =====
-- libs/kernel/include/xblob/kernel/types.hpp and the class HandleTable of sync_objects.hpp and
-- libs/kernel/src/sync_objects.cpp: the guest's handles to events, mutexes, semaphores, timers and
-- threads. Objects stand in one vector per kind and are never removed from it. Where the source
-- returns a pointer into such a vector, the model returns the object's value.
mod Entries
unfoldable pub use Entries.*
pub mod Slots
pub mod Allocate
pub mod Accessors
pub mod Objects
pub mod Close
pub mod Waits
pub mod Calls
pub mod Safe
pub mod Stale
mod Tests
use xblob_emulator.Kernel.Sync.{
  EventObject, MutexObject, SemaphoreObject, synchronization_timer, TimerObject, event_object,
  event_satisfy_wait, event_add_waiting, event_remove_waiting, mutex_object, mutex_is_signaled,
  mutex_acquire, mutex_add_waiting, mutex_remove_waiting, semaphore_object, semaphore_is_signaled,
  semaphore_acquire, semaphore_add_waiting, semaphore_remove_waiting, timer_object,
  timer_satisfy_wait, timer_add_waiting, timer_remove_waiting,
}
use xblob_emulator.Common.{
  out_of_bounds, invalid_argument, Result, ok, err, fail_at, has_value, check, ◌>>=◌, ◌>>◌,
}
use xblob_emulator.Prelude.{
  ℕ, Bool, true, false, not, ◌||◌, leb, ◌==◌, if◌then◌else◌, length, set, get_or, add16,
}

abbrev pub no_slot : Slot
no_slot = record {
  entry = record { type = no_type; generation = 1; object_id = 0 };
  in_use = false;
}

abbrev pub slot_at : HandleTable → ℕ → Slot
slot_at t i = get_or t.slots i no_slot

unfoldable pub validate_slot_only : HandleTable → ℕ → Result ℕ
validate_slot_only t handle =
    if handle == invalid_handle_value
    then fail_at invalid_argument handle
    else if leb (length t.slots) (get_handle_index handle)
    then fail_at out_of_bounds handle
    else let s = slot_at t (get_handle_index handle) in
      if not s.in_use || not (s.entry.generation == get_handle_generation handle)
      then fail_at invalid_argument handle
      else ok (get_handle_index handle)

abbrev pub same_type : HandleType → HandleType → Bool
same_type no_type no_type = true
same_type event event = true
same_type mutex mutex = true
same_type thread thread = true
same_type semaphore semaphore = true
same_type timer timer = true
same_type file file = true
same_type _ _ = false

unfoldable pub validate_and_get_slot : HandleTable → ℕ → HandleType → Result ℕ
validate_and_get_slot t handle expected = do
  idx ← validate_slot_only t handle
  check (same_type (slot_at t idx).entry.type expected)
      (record { code = invalid_argument; offset = handle })
  ok idx

unfoldable pub is_valid_handle : HandleTable → ℕ → Bool
is_valid_handle t handle = has_value (validate_slot_only t handle)

-- The objects of a slot; a default stands for an index out of range, which never occurs.
abbrev pub event_at : HandleTable → ℕ → EventObject
event_at t id = get_or t.events id (event_object false false)

abbrev pub mutex_at : HandleTable → ℕ → MutexObject
mutex_at t id = get_or t.mutexes id (mutex_object false 0)

abbrev pub semaphore_at : HandleTable → ℕ → SemaphoreObject
semaphore_at t id = get_or t.semaphores id (semaphore_object 0 1)

abbrev pub timer_at : HandleTable → ℕ → TimerObject
timer_at t id = get_or t.timers id (timer_object synchronization_timer)

abbrev pub object_id_at : HandleTable → ℕ → ℕ
object_id_at t idx = (slot_at t idx).entry.object_id

unfoldable pub get_event : HandleTable → ℕ → Result EventObject
get_event t handle = do
  idx ← validate_and_get_slot t handle event
  ok (event_at t (object_id_at t idx))

unfoldable pub get_mutex : HandleTable → ℕ → Result MutexObject
get_mutex t handle = do
  idx ← validate_and_get_slot t handle mutex
  ok (mutex_at t (object_id_at t idx))

unfoldable pub get_semaphore : HandleTable → ℕ → Result SemaphoreObject
get_semaphore t handle = do
  idx ← validate_and_get_slot t handle semaphore
  ok (semaphore_at t (object_id_at t idx))

unfoldable pub get_timer : HandleTable → ℕ → Result TimerObject
get_timer t handle = do
  idx ← validate_and_get_slot t handle timer
  ok (timer_at t (object_id_at t idx))

unfoldable pub get_thread_id : HandleTable → ℕ → Result ℕ
get_thread_id t handle = do idx ← validate_and_get_slot t handle thread; ok (object_id_at t idx)

unfoldable pub get_handle_type : HandleTable → ℕ → Result HandleType
get_handle_type t handle = do idx ← validate_slot_only t handle; ok (slot_at t idx).entry.type

-- The `switch` of `IsObjectSignaled`.
unfoldable pub entry_is_signaled : HandleTable → HandleType → ℕ → ℕ → Bool
entry_is_signaled t event id tid = (event_at t id).signaled
entry_is_signaled t mutex id tid = mutex_is_signaled (mutex_at t id) tid
entry_is_signaled t semaphore id tid = semaphore_is_signaled (semaphore_at t id)
entry_is_signaled t timer id tid = (timer_at t id).signaled
entry_is_signaled t _ id tid = false

unfoldable pub is_object_signaled : HandleTable → ℕ → ℕ → Bool
is_object_signaled t handle tid = elim (validate_slot_only t handle) [
  | err e ↦ false
  | ok idx ↦ entry_is_signaled t (slot_at t idx).entry.type (object_id_at t idx) tid
]

abbrev pub put_event : HandleTable → ℕ → EventObject → HandleTable
put_event t id e = record t { events = set t.events id e }

abbrev pub put_mutex : HandleTable → ℕ → MutexObject → HandleTable
put_mutex t id m = record t { mutexes = set t.mutexes id m }

abbrev pub put_semaphore : HandleTable → ℕ → SemaphoreObject → HandleTable
put_semaphore t id s = record t { semaphores = set t.semaphores id s }

abbrev pub put_timer : HandleTable → ℕ → TimerObject → HandleTable
put_timer t id r = record t { timers = set t.timers id r }

-- The `switch` of `SatisfyWait`; for a mutex and a semaphore it is their `Acquire`.
unfoldable pub entry_satisfy_wait : HandleTable → HandleType → ℕ → ℕ → HandleTable × Bool
entry_satisfy_wait t event id tid =
    let (e, done) = event_satisfy_wait (event_at t id) in (put_event t id e, done)
entry_satisfy_wait t mutex id tid =
    let (m, done) = mutex_acquire (mutex_at t id) tid in (put_mutex t id m, done)
entry_satisfy_wait t semaphore id tid =
    let (s, done) = semaphore_acquire (semaphore_at t id) in (put_semaphore t id s, done)
entry_satisfy_wait t timer id tid =
    let (r, done) = timer_satisfy_wait (timer_at t id) in (put_timer t id r, done)
entry_satisfy_wait t _ id tid = (t, false)

unfoldable pub satisfy_wait : HandleTable → ℕ → ℕ → HandleTable × Bool
satisfy_wait t handle tid = elim (validate_slot_only t handle) [
  | err e ↦ (t, false)
  | ok idx ↦ entry_satisfy_wait t (slot_at t idx).entry.type (object_id_at t idx) tid
]

unfoldable pub entry_add_waiting : HandleTable → HandleType → ℕ → ℕ → HandleTable
entry_add_waiting t event id tid = put_event t id (event_add_waiting (event_at t id) tid)
entry_add_waiting t mutex id tid = put_mutex t id (mutex_add_waiting (mutex_at t id) tid)
entry_add_waiting t semaphore id tid =
    put_semaphore t id (semaphore_add_waiting (semaphore_at t id) tid)
entry_add_waiting t timer id tid = put_timer t id (timer_add_waiting (timer_at t id) tid)
entry_add_waiting t _ id tid = t

unfoldable pub add_waiting_thread : HandleTable → ℕ → ℕ → HandleTable
add_waiting_thread t handle tid = elim (validate_slot_only t handle) [
  | err e ↦ t
  | ok idx ↦ entry_add_waiting t (slot_at t idx).entry.type (object_id_at t idx) tid
]

unfoldable pub entry_remove_waiting : HandleTable → HandleType → ℕ → ℕ → HandleTable
entry_remove_waiting t event id tid = put_event t id (event_remove_waiting (event_at t id) tid)
entry_remove_waiting t mutex id tid = put_mutex t id (mutex_remove_waiting (mutex_at t id) tid)
entry_remove_waiting t semaphore id tid =
    put_semaphore t id (semaphore_remove_waiting (semaphore_at t id) tid)
entry_remove_waiting t timer id tid = put_timer t id (timer_remove_waiting (timer_at t id) tid)
entry_remove_waiting t _ id tid = t

unfoldable pub remove_waiting_thread : HandleTable → ℕ → ℕ → HandleTable
remove_waiting_thread t handle tid = elim (validate_slot_only t handle) [
  | err e ↦ t
  | ok idx ↦ entry_remove_waiting t (slot_at t idx).entry.type (object_id_at t idx) tid
]

abbrev pub closed : Slot → Slot
closed s = record {
  entry = record s.entry { type = no_type; generation = add16 s.entry.generation 1 };
  in_use = false;
}

unfoldable pub close_handle : HandleTable → ℕ → HandleTable × Result (Unit {0})
close_handle t handle = elim (validate_slot_only t handle) [
  | err e ↦ (t, err e)
  | ok idx ↦ (record t { slots = set t.slots idx (closed (slot_at t idx)) }, ok tt)
]
