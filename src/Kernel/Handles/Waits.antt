-- ===== src/Kernel/Handles/Waits.antt =====
-- Waiting for the object of a handle.
use xblob_emulator.Kernel.Handles.{
  HandleType, event, mutex, semaphore, timer, HandleTable, validate_slot_only, entry_is_signaled,
  is_object_signaled, entry_satisfy_wait, satisfy_wait,
}
use xblob_emulator.Kernel.Sync.{
  event_satisfy_wait, mutex_is_signaled, mutex_acquire, semaphore_is_signaled, semaphore_acquire,
  timer_satisfy_wait,
}
use xblob_emulator.Common.{Result-cases}
use xblob_emulator.Prelude.{ℕ, ◌≡◌, refl, inl, inr, arith}

entry_satisfy_wait_lem :
    (t : HandleTable) (k : HandleType) (id tid : ℕ)
    → (entry_satisfy_wait t k id tid).1 ≡ entry_is_signaled t k id tid
unfolding entry_satisfy_wait entry_is_signaled event_satisfy_wait mutex_acquire mutex_is_signaled
    semaphore_acquire semaphore_is_signaled timer_satisfy_wait
entry_satisfy_wait_lem t event id tid = ground arith
entry_satisfy_wait_lem t mutex id tid = ground arith
entry_satisfy_wait_lem t semaphore id tid = ground arith
entry_satisfy_wait_lem t timer id tid = ground arith
entry_satisfy_wait_lem t _ id tid = refl

-- A wait is satisfied exactly if the object is signaled for the thread: what the first pass of a
-- wait for several objects finds, its second pass can rely on for the first of them.
pub satisfy_wait-is_object_signaled :
    (t : HandleTable) (handle tid : ℕ)
    → (satisfy_wait t handle tid).1 ≡ is_object_signaled t handle tid
unfolding satisfy_wait is_object_signaled
satisfy_wait-is_object_signaled t handle tid = elim (Result-cases (validate_slot_only t handle)) [
  | inl (idx, e) ↦ rw (e, satisfy_wait, is_object_signaled) (entry_satisfy_wait_lem t _ _ tid)
  | inr (x, e) ↦ rw (e, satisfy_wait, is_object_signaled)
]
