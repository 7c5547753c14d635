-- ===== src/Kernel/Sync/Tests.antt =====
-- Events, mutexes, semaphores and timers on small inputs.
use xblob_emulator.Kernel.Sync.{
  MutexObject, SemaphoreObject, notification_timer, TimerObject, event_object, event_satisfy_wait,
  mutex_acquire, mutex_release, semaphore_is_signaled, semaphore_acquire, semaphore_release,
  timer_object, millis_to_cycle, period_cycles, advance_to_cycle,
}
use xblob_emulator.Kernel.Sync.Laws.{
  lock_acquire, lock_release, lock_of, mutex_refines, mutex_release-acquire, IsSemaphore,
  semaphore_lem, semaphore_release_overflow,
}
use xblob_emulator.Kernel.Sync.Timer.{advance_to_cycle_lem}
use xblob_emulator.Common.{ok, has_value}
use xblob_emulator.Prelude.{
  ◌+◌, ◌*◌, ◌^◌, ◌≤◌, ◌<◌, ◌≡◌, refl, true, false, ◌&&◌, [], arith, leb, if◌then◌else◌,
}

abbrev held : MutexObject
held = record { owner_tid = 3; recursion_count = 2; waiting_threads = [] }

abbrev half_full : SemaphoreObject
half_full = record { current_count = 2; maximum_count = 4; waiting_threads = [] }

abbrev ticking : TimerObject
ticking = record (timer_object notification_timer) {
  is_active = true;
  due_cycle = 100;
  period_ms = 1;
}

auto_reset : event_satisfy_wait (event_object false true) ≡ (event_object false false, true)
unfolding event_satisfy_wait event_object
auto_reset = refl

three_periods : (advance_to_cycle ticking 1500000).1 ≡ 3
unfolding advance_to_cycle period_cycles millis_to_cycle timer_object
three_periods = refl

mutex_refines_example :
    ((lock_of (mutex_acquire held 3).0 ≡ (lock_acquire (lock_of held) 3).0)
      × ((mutex_acquire held 3).1 ≡ (lock_acquire (lock_of held) 3).1))
    × ((lock_of (mutex_release held 3).0 ≡ (lock_release (lock_of held) 3).0)
        × (has_value (mutex_release held 3).1 ≡ (lock_release (lock_of held) 3).1))
mutex_refines_example = mutex_refines held 3 (omega arith)

mutex_release-acquire_example :
    mutex_release (record held { recursion_count = 3 }) 3 ≡ (held, ok tt)
unfolding mutex_acquire
mutex_release-acquire_example =
    mutex_release-acquire held (record held { recursion_count = 3 }) 3 (λ e. absurd (omega arith))
      (omega arith) refl

half_full-IsSemaphore : IsSemaphore half_full
half_full-IsSemaphore = omega arith

semaphore_lem_example :
    let (a, taken) = semaphore_acquire half_full in
    let (b, r) = semaphore_release half_full 2 in
    IsSemaphore a
    × IsSemaphore b
    × (if taken then a.current_count + 1 ≡ 2 else half_full.current_count ≡ 0)
    × (if leb 1 2 && leb (2 + 2) 4
        then (b.current_count ≡ 2 + 2) × (r ≡ ok 2)
        else (b ≡ half_full) × (has_value r ≡ false))
semaphore_lem_example =
    semaphore_lem half_full 2 half_full-IsSemaphore (omega arith) (λ _. omega arith)

semaphore_release_overflow_example :
    let (s', r) = semaphore_release half_full 0x7fffffff in
    (r ≡ ok 2) × (2 ^ 31 ≤ s'.current_count) × (semaphore_is_signaled s' ≡ false)
semaphore_release_overflow_example =
    semaphore_release_overflow half_full 0x7fffffff half_full-IsSemaphore (omega arith)
      (omega arith)

advance_to_cycle_lem_example :
    let (t', n) = advance_to_cycle ticking 1500000 in
    (t'.signaled ≡ true)
    × (t'.is_active ≡ true)
    × (t'.due_cycle ≡ 100 + n * period_cycles ticking)
    × (1500000 < t'.due_cycle)
    × (t'.due_cycle ≤ 1500000 + period_cycles ticking)
unfolding period_cycles millis_to_cycle timer_object
advance_to_cycle_lem_example =
    advance_to_cycle_lem ticking 1500000 refl (omega arith) (omega arith) (omega arith)
