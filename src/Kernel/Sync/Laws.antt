-- ===== src/Kernel/Sync/Laws.antt =====
-- Mutexes against an abstract lock, and the bounds of semaphores.
use xblob_emulator.Kernel.Sync.{
  invalid_thread_id, MutexObject, SemaphoreObject, mutex_acquire, mutex_release,
  semaphore_is_signaled, semaphore_acquire, semaphore_release,
}
use xblob_emulator.Common.{ok, has_value}
use xblob_emulator.Prelude.{
  ℕ, ◌+◌, ◌-◌, ◌^◌, ◌≤◌, ◌<◌, ◌≡◌, Bool, true, false, ◌&&◌, Option, none, some, arith, leb, ◌==◌,
  if◌then◌else◌, u32_mod,
}

-- An abstract lock: the thread that holds it and how often.
abbrev pub Lock : Type 0
Lock = Option (ℕ × ℕ)

unfoldable pub lock_acquire : Lock → ℕ → Lock × Bool
lock_acquire none tid = (some (tid, 1), true)
lock_acquire (some (holder, depth)) tid =
    if holder == tid then (some (holder, depth + 1), true) else (some (holder, depth), false)

unfoldable pub lock_release : Lock → ℕ → Lock × Bool
lock_release none tid = (none, false)
lock_release (some (holder, depth)) tid =
    if holder == tid
    then (if depth == 1 then none else some (holder, depth - 1), true)
    else (some (holder, depth), false)

-- A mutex seen as a lock.
abbrev pub lock_of : MutexObject → Lock
lock_of m = if m.recursion_count == 0 then none else some (m.owner_tid, m.recursion_count)

-- As long as the recursion count does not wrap, a mutex is the lock: `Acquire` and `Release` change
-- it and answer as the lock does, for every thread.
pub mutex_refines :
    (m : MutexObject) (tid : ℕ)
    → m.recursion_count + 1 < u32_mod
    → ((lock_of (mutex_acquire m tid).0 ≡ (lock_acquire (lock_of m) tid).0)
        × ((mutex_acquire m tid).1 ≡ (lock_acquire (lock_of m) tid).1))
      × ((lock_of (mutex_release m tid).0 ≡ (lock_release (lock_of m) tid).0)
          × (has_value (mutex_release m tid).1 ≡ (lock_release (lock_of m) tid).1))
unfolding mutex_acquire mutex_release lock_acquire lock_release
mutex_refines m tid small = ground arith

-- A mutex that is not locked has no owner.
abbrev pub IsMutex : MutexObject → Type 0
IsMutex m = m.recursion_count ≡ 0 → m.owner_tid ≡ invalid_thread_id

-- A release undoes a successful acquire of a mutex whose recursion count does not wrap and which has
-- no owner where it is not locked.
pub mutex_release-acquire :
    (m m' : MutexObject) (tid : ℕ)
    → IsMutex m
    → m.recursion_count + 1 < u32_mod
    → mutex_acquire m tid ≡ (m', true)
    → mutex_release m' tid ≡ (m, ok tt)
unfolding mutex_acquire mutex_release
mutex_release-acquire m m' tid v small e = ground arith

-- A counter within its bounds, which are positive.
pub record IsSemaphore (s : SemaphoreObject) : Type 0 where
  pub within : s.current_count ≤ s.maximum_count
  pub positive : 0 < s.maximum_count
  pub small : s.maximum_count < 2 ^ 31

-- For a counter within its maximum, which is positive as an `i32`: `Acquire` takes one if there is
-- one. `Release` of a word that is positive as an `i32` and whose sum with the counter fits in an
-- `i32` adds it exactly where the sum is within the maximum, and is refused with no change otherwise;
-- of 0 and of every negative count it is refused with no change. Both keep the counter within bounds.
pub semaphore_lem :
    (s : SemaphoreObject) (n : ℕ)
    → IsSemaphore s
    → n < u32_mod
    → (n < 2 ^ 31 → s.current_count + n < 2 ^ 31)
    → let (a, taken) = semaphore_acquire s in
      let (b, r) = semaphore_release s n in
      IsSemaphore a
      × IsSemaphore b
      × (if taken then a.current_count + 1 ≡ s.current_count else s.current_count ≡ 0)
      × (if leb 1 n && leb (s.current_count + n) s.maximum_count
          then (b.current_count ≡ s.current_count + n) × (r ≡ ok s.current_count)
          else (b ≡ s) × (has_value r ≡ false))
unfolding semaphore_acquire semaphore_release
semaphore_lem s n v word fits = ground arith

-- Where the current count and a positive release count add up to more than an `i32` holds, `Release`
-- accepts it, although the sum exceeds the maximum; the counter becomes negative and is unsignaled.
pub semaphore_release_overflow :
    (s : SemaphoreObject) (n : ℕ)
    → IsSemaphore s
    → n < 2 ^ 31
    → 2 ^ 31 ≤ s.current_count + n
    → let (s', r) = semaphore_release s n in
      (r ≡ ok s.current_count) × (2 ^ 31 ≤ s'.current_count) × (semaphore_is_signaled s' ≡ false)
unfolding semaphore_release semaphore_is_signaled
semaphore_release_overflow s n v small big = ground arith
