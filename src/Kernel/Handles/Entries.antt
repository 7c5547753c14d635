-- ===== src/Kernel/Handles/Entries.antt =====
-- The state of the handle table, of types.hpp and sync_objects.hpp, and the calls of
-- sync_objects.cpp that enter new objects in it.
use xblob_emulator.Kernel.Sync.{
  EventObject, MutexObject, SemaphoreObject, TimerType, TimerObject, signed_gt, event_object,
  mutex_object, semaphore_object, timer_object,
}
use xblob_emulator.Common.{invalid_argument, Result, ok, fail}
use xblob_emulator.Prelude.{
  ℕ, ◌+◌, ◌*◌, ◌/◌, ◌%◌, ◌^◌, Bool, true, not, ◌||◌, List, [], ◌∷◌, ◌++◌, if◌then◌else◌, length,
  u16_mod, u32_mod,
}

abbrev pub invalid_handle_value : ℕ
invalid_handle_value = 0xFFFFFFFF

pub data HandleType : Type 0 where
  no_type event mutex thread semaphore timer file : HandleType

pub record HandleEntry : Type 0 where
  pub type : HandleType
  pub generation : ℕ
  pub object_id : ℕ

pub record Slot : Type 0 where
  pub entry : HandleEntry
  pub in_use : Bool

pub record HandleTable : Type 0 where
  pub slots : List Slot
  pub events : List EventObject
  pub mutexes : List MutexObject
  pub semaphores : List SemaphoreObject
  pub timers : List TimerObject

abbrev pub encode_handle : ℕ → ℕ → ℕ
encode_handle index generation = generation * 2 ^ 16 + index

abbrev pub get_handle_index : ℕ → ℕ
get_handle_index handle = handle % 2 ^ 16

abbrev pub get_handle_generation : ℕ → ℕ
get_handle_generation handle = handle / 2 ^ 16 % 2 ^ 16

unfoldable pub reset : HandleTable → HandleTable
reset t = record { slots = []; events = []; mutexes = []; semaphores = []; timers = [] }

-- The end of every `Allocate…`: the first slot not in use is taken under its generation, or a new
-- one of generation 1 is added. `i` is the index of the head of the list.
unfoldable pub place : HandleType → ℕ → ℕ → List Slot → List Slot × ℕ
place type id i [] = (
  record { entry = record { type = type; generation = 1; object_id = id }; in_use = true } ∷ [],
  encode_handle (i % u16_mod) 1,
)
place type id i (s ∷ ss) =
    if not s.in_use
    then (
      record {
        entry = record { type = type; generation = s.entry.generation; object_id = id };
        in_use = true;
      }
          ∷ ss,
      encode_handle (i % u16_mod) s.entry.generation,
    )
    else let (rest, h) = place type id (i + 1) ss in (s ∷ rest, h)

unfoldable pub allocate_event : HandleTable → Bool → Bool → HandleTable × Result ℕ
allocate_event t manual_reset initial_state =
    let (ss, h) = place event (length t.events % u32_mod) 0 t.slots in
    (
      record t { slots = ss; events = t.events ++ (event_object manual_reset initial_state ∷ []) },
      ok h,
    )

unfoldable pub allocate_mutex : HandleTable → Bool → ℕ → HandleTable × Result ℕ
allocate_mutex t initial_owner owner_tid =
    let (ss, h) = place mutex (length t.mutexes % u32_mod) 0 t.slots in
    (
      record t { slots = ss; mutexes = t.mutexes ++ (mutex_object initial_owner owner_tid ∷ []) },
      ok h,
    )

unfoldable pub allocate_semaphore : HandleTable → ℕ → ℕ → HandleTable × Result ℕ
allocate_semaphore t initial_count max_count =
    if signed_gt 0 initial_count || not (signed_gt max_count 0) || signed_gt initial_count max_count
    then (t, fail invalid_argument)
    else let (ss, h) = place semaphore (length t.semaphores % u32_mod) 0 t.slots in
      (
        record t {
          slots = ss;
          semaphores = t.semaphores ++ (semaphore_object initial_count max_count ∷ []);
        },
        ok h,
      )

unfoldable pub allocate_timer : HandleTable → TimerType → HandleTable × Result ℕ
allocate_timer t type =
    let (ss, h) = place timer (length t.timers % u32_mod) 0 t.slots in
    (record t { slots = ss; timers = t.timers ++ (timer_object type ∷ []) }, ok h)

unfoldable pub allocate_thread_handle : HandleTable → ℕ → HandleTable × Result ℕ
allocate_thread_handle t tid =
    let (ss, h) = place thread tid 0 t.slots in (record t { slots = ss }, ok h)
