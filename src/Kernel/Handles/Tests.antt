-- ===== src/Kernel/Handles/Tests.antt =====
-- Kernel handles on small inputs.
use xblob_emulator.Kernel.Handles.{
  validate_slot_only, is_valid_handle, get_event, get_mutex, get_semaphore, is_object_signaled,
  entry_satisfy_wait, satisfy_wait, close_handle, event, Slot, HandleTable, get_handle_index, place,
  allocate_event, allocate_mutex, allocate_semaphore,
}
use xblob_emulator.Kernel.Handles.Slots.{IsSafe, HasIds, Refers}
use xblob_emulator.Kernel.Handles.Allocate.{Fits}
use xblob_emulator.Kernel.Handles.Accessors.{KeepsObjects}
use xblob_emulator.Kernel.Handles.Objects.{
  get_event-allocate_event, get_mutex-allocate_mutex, get_semaphore-allocate_semaphore,
}
use xblob_emulator.Kernel.Handles.Close.{close_handle_lem}
use xblob_emulator.Kernel.Handles.Waits.{satisfy_wait-is_object_signaled}
use xblob_emulator.Kernel.Handles.Calls.{creates_mutex, creates_thread, step, run}
use xblob_emulator.Kernel.Handles.Safe.{step-IsSafe}
use xblob_emulator.Kernel.Handles.Stale.{closed_handle_stays_invalid}
use xblob_emulator.Kernel.Sync.{event_object, event_satisfy_wait, mutex_object, semaphore_object}
use xblob_emulator.Common.{invalid_argument, ok, fail, has_value}
use xblob_emulator.Prelude.{
  ℕ, ◌+◌, ◌%◌, ◌^◌, ◌≡◌, refl, ◌≢◌, true, false, ◌&&◌, some, [], ◌∷◌, arith,
}
use xblob_emulator.Prelude.{ltb, leb, if◌then◌else◌, get_elem?}

abbrev empty : HandleTable
empty = record { slots = []; events = []; mutexes = []; semaphores = []; timers = [] }

abbrev one_event : HandleTable
one_event = record {
  slots =
      record { entry = record { type = event; generation = 1; object_id = 0 }; in_use = true } ∷ [];
  events = record { manual_reset = false; signaled = true; waiting_threads = [] } ∷ [];
  mutexes = [];
  semaphores = [];
  timers = [];
}

first_event : allocate_event empty false true ≡ (one_event, ok 0x10000)
unfolding allocate_event place event_object
first_event = refl

taken : (satisfy_wait one_event 0x10000 5).1 ≡ true
unfolding satisfy_wait validate_slot_only entry_satisfy_wait event_satisfy_wait
taken = refl

one_event-Fits : Fits one_event
one_event-Fits = record { generations = (omega arith, tt); room = omega arith }

one_event-HasIds : HasIds one_event
one_event-HasIds = omega arith

get_event-allocate_event_example :
    let (u, r) = allocate_event one_event true false in
    (h : ℕ) × (r ≡ ok h)
    × (get_event u h ≡ ok (event_object true false))
    × ((g : ℕ) (s : Slot) → Refers one_event g s → Refers u g s)
    × KeepsObjects one_event u
get_event-allocate_event_example =
    get_event-allocate_event one_event one_event-Fits one_event-HasIds true false

get_mutex-allocate_mutex_example :
    let (u, r) = allocate_mutex one_event true 4 in
    (h : ℕ) × (r ≡ ok h)
    × (get_mutex u h ≡ ok (mutex_object true 4))
    × ((g : ℕ) (s : Slot) → Refers one_event g s → Refers u g s)
    × KeepsObjects one_event u
get_mutex-allocate_mutex_example =
    get_mutex-allocate_mutex one_event one_event-Fits one_event-HasIds true 4

get_semaphore-allocate_semaphore_example :
    let (u, r) = allocate_semaphore one_event 1 2 in
    if leb 1 2 && ltb 2 (2 ^ 31) && leb 1 2
    then ((h : ℕ) × (r ≡ ok h)
        × (get_semaphore u h ≡ ok (semaphore_object 1 2))
        × ((g : ℕ) (s : Slot) → Refers one_event g s → Refers u g s)
        × KeepsObjects one_event u)
    else (r ≡ fail invalid_argument) × (u ≡ one_event)
get_semaphore-allocate_semaphore_example =
    get_semaphore-allocate_semaphore one_event one_event-Fits one_event-HasIds 1 2 (omega arith)
      (omega arith)

close_handle_lem_example :
    let (u, r) = close_handle one_event 0x10000 in
    (has_value r ≡ is_valid_handle one_event 0x10000)
    × (is_valid_handle u 0x10000 ≡ false)
    × (has_value r ≡ false → ((s : Slot) → ¬ (Refers one_event 0x10000 s)) × (u ≡ one_event))
    × (has_value r ≡ true
        → (s : Slot) × (c : Slot) × (Refers one_event 0x10000 s)
          × (get_elem? u.slots 0 ≡ some c)
          × (c.in_use ≡ false)
          × (c.entry.generation ≡ (s.entry.generation + 1) % 2 ^ 16))
    × ((g : ℕ) (s : Slot) → get_handle_index g ≢ 0 → Refers one_event g s → Refers u g s)
    × (KeepsObjects one_event u)
close_handle_lem_example = close_handle_lem one_event 0x10000

was_closed : has_value (close_handle one_event 0x10000).1 ≡ true
unfolding close_handle validate_slot_only
was_closed = refl

-- The slot goes to a mutex, and the handle of the event stays refused.
closed_handle_stays_invalid_example :
    is_valid_handle (run (close_handle one_event 0x10000).0 (creates_mutex true 4 ∷ [])) 0x10000
    ≡ false
closed_handle_stays_invalid_example =
    closed_handle_stays_invalid one_event 0x10000 (creates_mutex true 4 ∷ []) was_closed (refl, tt)
      (omega arith)

satisfy_wait-is_object_signaled_example :
    (satisfy_wait one_event 0x10000 5).1 ≡ is_object_signaled one_event 0x10000 5
satisfy_wait-is_object_signaled_example = satisfy_wait-is_object_signaled one_event 0x10000 5

step-IsSafe_example : IsSafe (step one_event (creates_thread 9))
step-IsSafe_example =
    step-IsSafe one_event (creates_thread 9) one_event-HasIds ((λ used. omega arith), tt)
