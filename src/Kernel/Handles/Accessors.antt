-- ===== src/Kernel/Handles/Accessors.antt =====
-- What the accessors return for a handle that refers to a slot of the right kind.
use mathlib.Core.Option.{some-injective}
use xblob_emulator.Kernel.Handles.{
  no_slot, slot_at, same_type, validate_and_get_slot, event_at, mutex_at, semaphore_at, timer_at,
  get_event, get_mutex, get_semaphore, get_timer, get_thread_id, HandleType, no_type, event, mutex,
  thread, semaphore, timer, file, Slot, HandleTable, get_handle_index,
}
use xblob_emulator.Kernel.Handles.Slots.{Refers, validate_slot_only_iff}
use xblob_emulator.Kernel.Handles.Allocate.{filled_slot}
use xblob_emulator.Common.{ok}
use xblob_emulator.Prelude.{
  ℕ, zero, suc, ◌%◌, ◌<◌, ◌≡◌, refl, sym, ap, ◌∙◌, true, List, [], ◌∷◌, ◌++◌, arith,
}
use xblob_emulator.Prelude.{length, get_or, get_elem?-lt, get_elem?-get_or, u32_mod}

same_type_refl : (k : HandleType) → same_type k k ≡ true
same_type_refl no_type = refl
same_type_refl event = refl
same_type_refl mutex = refl
same_type_refl thread = refl
same_type_refl semaphore = refl
same_type_refl timer = refl
same_type_refl file = refl

slot_at-Refers :
    (t : HandleTable) (h : ℕ) (s : Slot) → Refers t h s → slot_at t (get_handle_index h) ≡ s
slot_at-Refers t h s r = some-injective _ _ (
    sym (
      get_elem?-get_or t.slots (get_handle_index h) no_slot
        (get_elem?-lt t.slots (get_handle_index h) s r.1))
    ∙ r.1)

-- A handle whose slot is of the kind asked for passes the validation.
pub validate-Refers :
    (t : HandleTable) (h : ℕ) (s : Slot)
    → Refers t h s
    → validate_and_get_slot t h s.entry.type ≡ ok (get_handle_index h)
unfolding validate_and_get_slot
validate-Refers t h s r = rw (
  validate_slot_only_iff t h s r,
  validate_and_get_slot,
  slot_at-Refers t h s r,
  same_type_refl s.entry.type,
)

get_or_last {ℓ} : {A : Type ℓ} (xs : List A) (x d : A) → get_or (xs ++ (x ∷ [])) (length xs) d ≡ x
get_or_last [] x d = refl
get_or_last (y ∷ xs) x d = get_or_last xs x d

pub get_or_front {ℓ} :
    {A : Type ℓ} (xs : List A) (x d : A) (i : ℕ)
    → i < length xs
    → get_or (xs ++ (x ∷ [])) i d ≡ get_or xs i d
get_or_front [] x d i lt = absurd (omega arith)
get_or_front (y ∷ xs) x d zero lt = refl
get_or_front (y ∷ xs) x d (suc i) lt = get_or_front xs x d i (omega arith)

-- The number of the last object, cut to 32 bits, where it fits.
pub get_or_id {ℓ} :
    {A : Type ℓ} (xs : List A) (x d : A)
    → length xs < u32_mod
    → get_or (xs ++ (x ∷ [])) (length xs % u32_mod) d ≡ x
get_or_id xs x d few =
    let same : length xs % u32_mod ≡ length xs = omega arith in rw same (get_or_last xs x d)

-- Every object of the first table stands in the second as it was.
abbrev pub KeepsObjects : HandleTable → HandleTable → Type 0
KeepsObjects t u =
    ((i : ℕ) → i < length t.events → event_at u i ≡ event_at t i)
    × ((i : ℕ) → i < length t.mutexes → mutex_at u i ≡ mutex_at t i)
    × ((i : ℕ) → i < length t.semaphores → semaphore_at u i ≡ semaphore_at t i)
    × ((i : ℕ) → i < length t.timers → timer_at u i ≡ timer_at t i)

-- What the accessors return for a handle of the right kind.
module _ (u : HandleTable) (h g id : ℕ) where
  pub get_event_of_Refers : Refers u h (filled_slot event g id) → get_event u h ≡ ok (event_at u id)
  unfolding get_event
  get_event_of_Refers r =
      rw (validate-Refers u h (filled_slot event g id) r, get_event)
        (ap (λ (s : Slot). ok (event_at u s.entry.object_id))
          (slot_at-Refers u h (filled_slot event g id) r))

  pub get_mutex_of_Refers : Refers u h (filled_slot mutex g id) → get_mutex u h ≡ ok (mutex_at u id)
  unfolding get_mutex
  get_mutex_of_Refers r =
      rw (validate-Refers u h (filled_slot mutex g id) r, get_mutex)
        (ap (λ (s : Slot). ok (mutex_at u s.entry.object_id))
          (slot_at-Refers u h (filled_slot mutex g id) r))

  pub get_semaphore_of_Refers :
      Refers u h (filled_slot semaphore g id) → get_semaphore u h ≡ ok (semaphore_at u id)
  unfolding get_semaphore
  get_semaphore_of_Refers r =
      rw (validate-Refers u h (filled_slot semaphore g id) r, get_semaphore)
        (ap (λ (s : Slot). ok (semaphore_at u s.entry.object_id))
          (slot_at-Refers u h (filled_slot semaphore g id) r))

  pub get_timer_of_Refers : Refers u h (filled_slot timer g id) → get_timer u h ≡ ok (timer_at u id)
  unfolding get_timer
  get_timer_of_Refers r =
      rw (validate-Refers u h (filled_slot timer g id) r, get_timer)
        (ap (λ (s : Slot). ok (timer_at u s.entry.object_id))
          (slot_at-Refers u h (filled_slot timer g id) r))

  pub get_thread_id_of_Refers : Refers u h (filled_slot thread g id) → get_thread_id u h ≡ ok id
  unfolding get_thread_id
  get_thread_id_of_Refers r =
      rw (validate-Refers u h (filled_slot thread g id) r, get_thread_id)
        (ap (λ (s : Slot). ok s.entry.object_id) (slot_at-Refers u h (filled_slot thread g id) r))
