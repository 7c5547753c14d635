-- ===== src/Kernel/Sync.antt =====
-- The objects that a thread can wait for: libs/kernel/src/sync_objects.cpp (events, mutexes,
-- semaphores) and libs/kernel/src/kernel_time.cpp (timers), with their headers. A method that
-- changes its object returns the new object beside its result. An `i32` is its bit pattern below
-- 2 ^ 32; the overflow of a signed addition, which C++ leaves undefined, is read as wrapping.
pub mod Laws
pub mod Timer
mod Tests
use xblob_emulator.Common.{limit_reached, invalid_argument, Result, ok, fail}
use xblob_emulator.Prelude.{
  ℕ, ◌-◌, ◌/◌, ◌^◌, Bool, true, false, not, ◌||◌, List, [], ltb, ◌==◌, if◌then◌else◌, remove,
  push_new, add32, add64, mul64,
}

abbrev pub invalid_thread_id : ℕ
invalid_thread_id = 0

pub record EventObject : Type 0 where
  pub manual_reset : Bool
  pub signaled : Bool
  pub waiting_threads : List ℕ

pub record MutexObject : Type 0 where
  pub owner_tid : ℕ
  pub recursion_count : ℕ
  pub waiting_threads : List ℕ

pub record SemaphoreObject : Type 0 where
  pub current_count : ℕ
  pub maximum_count : ℕ
  pub waiting_threads : List ℕ

pub data TimerType : Type 0 where
  notification_timer synchronization_timer : TimerType

pub record TimerObject : Type 0 where
  pub type : TimerType
  pub signaled : Bool
  pub is_active : Bool
  pub due_cycle : ℕ
  pub period_ms : ℕ
  pub dpc_routine : ℕ
  pub dpc_context : ℕ
  pub waiting_threads : List ℕ

-- `a > b` for two `i32`.
abbrev pub signed_gt : ℕ → ℕ → Bool
signed_gt a b = ltb (add32 b (2 ^ 31)) (add32 a (2 ^ 31))

unfoldable pub event_object : Bool → Bool → EventObject
event_object manual_reset initial_state = record {
  manual_reset = manual_reset;
  signaled = initial_state;
  waiting_threads = [];
}

unfoldable pub set_event : EventObject → EventObject
set_event e = record e { signaled = true }

unfoldable pub reset_event : EventObject → EventObject
reset_event e = record e { signaled = false }

unfoldable pub event_satisfy_wait : EventObject → EventObject × Bool
event_satisfy_wait e =
    if e.signaled
    then (if not e.manual_reset then record e { signaled = false } else e, true)
    else (e, false)

unfoldable pub event_add_waiting : EventObject → ℕ → EventObject
event_add_waiting e tid = record e { waiting_threads = push_new tid e.waiting_threads }

unfoldable pub event_remove_waiting : EventObject → ℕ → EventObject
event_remove_waiting e tid = record e { waiting_threads = remove tid e.waiting_threads }

unfoldable pub mutex_object : Bool → ℕ → MutexObject
mutex_object initial_owner owner_tid = record {
  owner_tid = if initial_owner then owner_tid else invalid_thread_id;
  recursion_count = if initial_owner then 1 else 0;
  waiting_threads = [];
}

unfoldable pub is_locked : MutexObject → Bool
is_locked m = ltb 0 m.recursion_count

unfoldable pub mutex_is_signaled : MutexObject → ℕ → Bool
mutex_is_signaled m tid = m.recursion_count == 0 || m.owner_tid == tid

-- `Acquire` never fails, so the Boolean stands without its `Result`.
unfoldable pub mutex_acquire : MutexObject → ℕ → MutexObject × Bool
mutex_acquire m tid =
    if m.recursion_count == 0
    then (record m { owner_tid = tid; recursion_count = 1 }, true)
    else if m.owner_tid == tid
    then (record m { recursion_count = add32 m.recursion_count 1 }, true)
    else (m, false)

unfoldable pub mutex_release : MutexObject → ℕ → MutexObject × Result (Unit {0})
mutex_release m tid =
    if not (m.owner_tid == tid) || m.recursion_count == 0 then (m, fail invalid_argument) else (
      record m {
        recursion_count = m.recursion_count - 1;
        owner_tid = if m.recursion_count - 1 == 0 then invalid_thread_id else m.owner_tid;
      },
      ok tt,
    )

unfoldable pub mutex_add_waiting : MutexObject → ℕ → MutexObject
mutex_add_waiting m tid = record m { waiting_threads = push_new tid m.waiting_threads }

unfoldable pub mutex_remove_waiting : MutexObject → ℕ → MutexObject
mutex_remove_waiting m tid = record m { waiting_threads = remove tid m.waiting_threads }

unfoldable pub semaphore_object : ℕ → ℕ → SemaphoreObject
semaphore_object initial_count maximum_count = record {
  current_count = initial_count;
  maximum_count = if signed_gt maximum_count 0 then maximum_count else 1;
  waiting_threads = [];
}

unfoldable pub semaphore_is_signaled : SemaphoreObject → Bool
semaphore_is_signaled s = signed_gt s.current_count 0

unfoldable pub semaphore_acquire : SemaphoreObject → SemaphoreObject × Bool
semaphore_acquire s =
    if signed_gt s.current_count 0
    then (record s { current_count = s.current_count - 1 }, true)
    else (s, false)

-- The result carries what goes to `*previous_count`.
unfoldable pub semaphore_release : SemaphoreObject → ℕ → SemaphoreObject × Result ℕ
semaphore_release s release_count =
    if not (signed_gt release_count 0)
    then (s, fail invalid_argument)
    else if signed_gt (add32 s.current_count release_count) s.maximum_count
    then (s, fail limit_reached)
    else (record s { current_count = add32 s.current_count release_count }, ok s.current_count)

unfoldable pub semaphore_add_waiting : SemaphoreObject → ℕ → SemaphoreObject
semaphore_add_waiting s tid = record s { waiting_threads = push_new tid s.waiting_threads }

unfoldable pub semaphore_remove_waiting : SemaphoreObject → ℕ → SemaphoreObject
semaphore_remove_waiting s tid = record s { waiting_threads = remove tid s.waiting_threads }

unfoldable pub timer_object : TimerType → TimerObject
timer_object type = record {
  type = type;
  signaled = false;
  is_active = false;
  due_cycle = 0;
  period_ms = 0;
  dpc_routine = 0;
  dpc_context = 0;
  waiting_threads = [];
}

unfoldable pub set_timer : TimerObject → ℕ → ℕ → ℕ → ℕ → TimerObject
set_timer t due_cycle period_ms dpc dpc_context = record t {
  due_cycle = due_cycle;
  period_ms = period_ms;
  dpc_routine = dpc;
  dpc_context = dpc_context;
  signaled = false;
  is_active = true;
}

unfoldable pub cancel_timer : TimerObject → TimerObject × Bool
cancel_timer t = (record t { is_active = false; signaled = false }, t.is_active)

abbrev is_synchronization : TimerType → Bool
is_synchronization notification_timer = false
is_synchronization synchronization_timer = true

unfoldable pub timer_satisfy_wait : TimerObject → TimerObject × Bool
timer_satisfy_wait t =
    if t.signaled
    then (if is_synchronization t.type then record t { signaled = false } else t, true)
    else (t, false)

unfoldable pub timer_add_waiting : TimerObject → ℕ → TimerObject
timer_add_waiting t tid = record t { waiting_threads = push_new tid t.waiting_threads }

unfoldable pub timer_remove_waiting : TimerObject → ℕ → TimerObject
timer_remove_waiting t tid = record t { waiting_threads = remove tid t.waiting_threads }

abbrev pub cycles_per_millisecond : ℕ
cycles_per_millisecond = 733333

unfoldable pub millis_to_cycle : ℕ → ℕ
millis_to_cycle ms = mul64 ms cycles_per_millisecond

-- The period of a timer, of at least one cycle.
unfoldable pub period_cycles : TimerObject → ℕ
period_cycles t = if millis_to_cycle t.period_ms == 0 then 1 else millis_to_cycle t.period_ms

unfoldable pub advance_to_cycle : TimerObject → ℕ → TimerObject × ℕ
advance_to_cycle t current_cycle =
    if not t.is_active || ltb current_cycle t.due_cycle
    then (t, 0)
    else if t.period_ms == 0
    then (record t { signaled = true; is_active = false }, 1)
    else let count : ℕ = add64 ((current_cycle - t.due_cycle) / period_cycles t) 1 in
      (
        record t { signaled = true; due_cycle = add64 t.due_cycle (mul64 count (period_cycles t)) },
        count,
      )
