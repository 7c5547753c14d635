-- ===== src/Kernel/Handles/Safe.antt =====
-- Every handle in use refers to an object that is there, whatever is called.
use xblob_emulator.Kernel.Handles.Calls.{
  Op, creates_event, creates_mutex, creates_semaphore, creates_timer, creates_thread, waits,
  adds_waiting, removes_waiting, closes, resets, writes_event, writes_mutex, writes_semaphore,
  writes_timer, step,
}
use xblob_emulator.Kernel.Handles.Slots.{InRange, SlotInRange, IsSafe, HasIds}
use xblob_emulator.Kernel.Handles.{
  slot_at, validate_slot_only, validate_and_get_slot, object_id_at, put_event, put_mutex,
  put_semaphore, put_timer, entry_satisfy_wait, satisfy_wait, entry_add_waiting, add_waiting_thread,
  entry_remove_waiting, remove_waiting_thread, closed, close_handle, HandleType, event, mutex,
  thread, semaphore, timer, Slot, HandleTable, encode_handle, reset, place, allocate_event,
  allocate_mutex, allocate_semaphore, allocate_timer, allocate_thread_handle,
}
use xblob_emulator.Kernel.Sync.{
  EventObject, MutexObject, SemaphoreObject, TimerObject, signed_gt, event_object, mutex_object,
  semaphore_object, timer_object,
}
use xblob_emulator.Common.{Result-cases}
use xblob_emulator.Prelude.{
  ℕ, ◌+◌, ◌%◌, ◌≤◌, ◌≡◌, refl, inl, inr, Bool, true, false, not, ◌||◌, List, [], ◌∷◌, ◌++◌, arith,
}
use xblob_emulator.Prelude.{
  if◌then◌else◌, Bool-cases, length, length-append, length-set, All, All-set, u16_mod,
}

-- No vector gets shorter, so what is in range stays there.
record Grows (t u : HandleTable) : Type 0 where
  more_events : length t.events ≤ length u.events
  more_mutexes : length t.mutexes ≤ length u.mutexes
  more_semaphores : length t.semaphores ≤ length u.semaphores
  more_timers : length t.timers ≤ length u.timers

InRange-mono :
    (t u : HandleTable) (k : HandleType) (id : ℕ) → Grows t u → InRange t k id → InRange u k id
InRange-mono t u event id g h = omega arith
InRange-mono t u mutex id g h = omega arith
InRange-mono t u semaphore id g h = omega arith
InRange-mono t u timer id g h = omega arith
InRange-mono t u _ id g h = tt

slots_mono :
    (t u : HandleTable) (ss : List Slot)
    → Grows t u
    → All (SlotInRange t) ss
    → All (SlotInRange u) ss
slots_mono t u [] g h = tt
slots_mono t u (s ∷ ss) g h =
    (λ used. InRange-mono t u s.entry.type s.entry.object_id g (h.0 used), slots_mono t u ss g h.1)

place-All :
    (P : Slot → Type 0) (type : HandleType) (id i : ℕ) (ss : List Slot)
    → ((g : ℕ)
        → P (record {
          entry = record { type = type; generation = g; object_id = id };
          in_use = true;
        }))
    → All P ss
    → All P (place type id i ss).0
unfolding place
place-All P type id i [] new h = (new 1, tt)
place-All P type id i (s ∷ ss) new h = step s.in_use (place-All P type id (i + 1) ss new h.1)
  where
    result : Bool → List Slot × ℕ
    result b =
        if not b
        then (
          record {
            entry = record { type = type; generation = s.entry.generation; object_id = id };
            in_use = true;
          }
              ∷ ss,
          encode_handle (i % u16_mod) s.entry.generation,
        )
        else (s ∷ (place type id (i + 1) ss).0, (place type id (i + 1) ss).1)

    step : (b : Bool) → All P (place type id (i + 1) ss).0 → All P (result b).0
    step false rest = (new s.entry.generation, h.1)
    step true rest = (h.0, rest)

length_last {ℓ} : {A : Type ℓ} (xs : List A) (x : A) → length (xs ++ (x ∷ [])) ≡ length xs + 1
length_last xs x = omega (arith, length-append {_} xs (x ∷ []))

-- An allocation that adds an object.
allocated-IsSafe :
    (t u : HandleTable) (k : HandleType) (id : ℕ)
    → u.slots ≡ (place k id 0 t.slots).0
    → Grows t u
    → InRange u k id
    → IsSafe t
    → IsSafe u
allocated-IsSafe t u k id same g here safe =
    rw same (place-All (SlotInRange u) k id 0 t.slots (λ _ _. here) (slots_mono t u t.slots g safe))

put-IsSafe : (t u : HandleTable) → u.slots ≡ t.slots → Grows t u → IsSafe t → IsSafe u
put-IsSafe t u same g safe = rw same (slots_mono t u t.slots g safe)

same-Grows : (t : HandleTable) → Grows t t
same-Grows t = omega arith

put_event-IsSafe :
    (t : HandleTable) (id : ℕ) (e : EventObject) → IsSafe t → IsSafe (put_event t id e)
put_event-IsSafe t id e = put-IsSafe t _ refl (omega (arith, length-set {_} t.events id e))

put_mutex-IsSafe :
    (t : HandleTable) (id : ℕ) (m : MutexObject) → IsSafe t → IsSafe (put_mutex t id m)
put_mutex-IsSafe t id m = put-IsSafe t _ refl (omega (arith, length-set {_} t.mutexes id m))

put_semaphore-IsSafe :
    (t : HandleTable) (id : ℕ) (s : SemaphoreObject) → IsSafe t → IsSafe (put_semaphore t id s)
put_semaphore-IsSafe t id s = put-IsSafe t _ refl (omega (arith, length-set {_} t.semaphores id s))

put_timer-IsSafe :
    (t : HandleTable) (id : ℕ) (r : TimerObject) → IsSafe t → IsSafe (put_timer t id r)
put_timer-IsSafe t id r = put-IsSafe t _ refl (omega (arith, length-set {_} t.timers id r))

entry_satisfy_wait-IsSafe :
    (t : HandleTable) (k : HandleType) (id tid : ℕ)
    → IsSafe t
    → IsSafe (entry_satisfy_wait t k id tid).0
unfolding entry_satisfy_wait
entry_satisfy_wait-IsSafe t event id tid = put_event-IsSafe t id _
entry_satisfy_wait-IsSafe t mutex id tid = put_mutex-IsSafe t id _
entry_satisfy_wait-IsSafe t semaphore id tid = put_semaphore-IsSafe t id _
entry_satisfy_wait-IsSafe t timer id tid = put_timer-IsSafe t id _
entry_satisfy_wait-IsSafe t _ id tid = λ h. h

entry_add_waiting-IsSafe :
    (t : HandleTable) (k : HandleType) (id tid : ℕ)
    → IsSafe t
    → IsSafe (entry_add_waiting t k id tid)
unfolding entry_add_waiting
entry_add_waiting-IsSafe t event id tid = put_event-IsSafe t id _
entry_add_waiting-IsSafe t mutex id tid = put_mutex-IsSafe t id _
entry_add_waiting-IsSafe t semaphore id tid = put_semaphore-IsSafe t id _
entry_add_waiting-IsSafe t timer id tid = put_timer-IsSafe t id _
entry_add_waiting-IsSafe t _ id tid = λ h. h

entry_remove_waiting-IsSafe :
    (t : HandleTable) (k : HandleType) (id tid : ℕ)
    → IsSafe t
    → IsSafe (entry_remove_waiting t k id tid)
unfolding entry_remove_waiting
entry_remove_waiting-IsSafe t event id tid = put_event-IsSafe t id _
entry_remove_waiting-IsSafe t mutex id tid = put_mutex-IsSafe t id _
entry_remove_waiting-IsSafe t semaphore id tid = put_semaphore-IsSafe t id _
entry_remove_waiting-IsSafe t timer id tid = put_timer-IsSafe t id _
entry_remove_waiting-IsSafe t _ id tid = λ h. h

-- Every call, `Reset` included, and every write to an object through a pointer keeps each handle in use within the vector of its kind, so that no
-- access through a handle leaves it, as long as there are fewer than 2 ^ 32 objects of each kind.
pub step-IsSafe : (t : HandleTable) (o : Op) → HasIds t → IsSafe t → IsSafe (step t o)
unfolding step allocate_event allocate_mutex allocate_semaphore allocate_timer
    allocate_thread_handle satisfy_wait add_waiting_thread remove_waiting_thread close_handle reset
step-IsSafe t (creates_event manual initial) ids safe =
    let l = length_last t.events (event_object manual initial) in
    allocated-IsSafe t _ event _ refl (omega (arith, l)) (omega (arith, l, ids)) safe
step-IsSafe t (creates_mutex initial tid) ids safe =
    let l = length_last t.mutexes (mutex_object initial tid) in
    allocated-IsSafe t _ mutex _ refl (omega (arith, l)) (omega (arith, l, ids)) safe
step-IsSafe t (creates_semaphore initial top) ids safe =
    let l = length_last t.semaphores (semaphore_object initial top) in
    elim (Bool-cases (signed_gt 0 initial || not (signed_gt top 0) || signed_gt initial top)) [
      | inl e ↦ rw (e, step, allocate_semaphore) safe
      | inr e ↦
          rw (e, step, allocate_semaphore)
            (allocated-IsSafe t _ semaphore _ refl (omega (arith, l)) (omega (arith, l, ids)) safe)
    ]
step-IsSafe t (creates_timer kind) ids safe =
    let l = length_last t.timers (timer_object kind) in
    allocated-IsSafe t _ timer _ refl (omega (arith, l)) (omega (arith, l, ids)) safe
step-IsSafe t (creates_thread tid) ids safe =
    allocated-IsSafe t _ thread tid refl (omega arith) tt safe
step-IsSafe t (waits h tid) ids safe = elim (Result-cases (validate_slot_only t h)) [
  | inl (i, e) ↦ rw (e, step, satisfy_wait) (entry_satisfy_wait-IsSafe t _ _ tid safe)
  | inr (x, e) ↦ rw (e, step, satisfy_wait) safe
]
step-IsSafe t (adds_waiting h tid) ids safe = elim (Result-cases (validate_slot_only t h)) [
  | inl (i, e) ↦ rw (e, step, add_waiting_thread) (entry_add_waiting-IsSafe t _ _ tid safe)
  | inr (x, e) ↦ rw (e, step, add_waiting_thread) safe
]
step-IsSafe t (removes_waiting h tid) ids safe = elim (Result-cases (validate_slot_only t h)) [
  | inl (i, e) ↦ rw (e, step, remove_waiting_thread) (entry_remove_waiting-IsSafe t _ _ tid safe)
  | inr (x, e) ↦ rw (e, step, remove_waiting_thread) safe
]
step-IsSafe t (closes h) ids safe = elim (Result-cases (validate_slot_only t h)) [
  | inl (i, e) ↦
      rw (e, step, close_handle)
        (All-set (SlotInRange t) t.slots i (closed (slot_at t i)) (λ used. cc) safe)
  | inr (x, e) ↦ rw (e, step, close_handle) safe
]
step-IsSafe t resets ids safe = tt
step-IsSafe t (writes_event h e) ids safe = elim (Result-cases (validate_and_get_slot t h event)) [
  | inl (i, q) ↦ rw (q, step) (put_event-IsSafe t (object_id_at t i) e safe)
  | inr (x, q) ↦ rw (q, step) safe
]
step-IsSafe t (writes_mutex h m) ids safe = elim (Result-cases (validate_and_get_slot t h mutex)) [
  | inl (i, q) ↦ rw (q, step) (put_mutex-IsSafe t (object_id_at t i) m safe)
  | inr (x, q) ↦ rw (q, step) safe
]
step-IsSafe t (writes_semaphore h s) ids safe =
    elim (Result-cases (validate_and_get_slot t h semaphore)) [
      | inl (i, q) ↦ rw (q, step) (put_semaphore-IsSafe t (object_id_at t i) s safe)
      | inr (x, q) ↦ rw (q, step) safe
    ]
step-IsSafe t (writes_timer h r) ids safe = elim (Result-cases (validate_and_get_slot t h timer)) [
  | inl (i, q) ↦ rw (q, step) (put_timer-IsSafe t (object_id_at t i) r safe)
  | inr (x, q) ↦ rw (q, step) safe
]
