-- ===== src/Kernel/Handles/Objects.antt =====
-- The objects behind the handles: what an allocation returns, and what it leaves alone.
use xblob_emulator.Kernel.Handles.Accessors.{
  get_or_front, get_or_id, KeepsObjects, get_event_of_Refers, get_mutex_of_Refers,
  get_semaphore_of_Refers, get_timer_of_Refers, get_thread_id_of_Refers,
}
use xblob_emulator.Kernel.Handles.{
  get_event, get_mutex, get_semaphore, get_timer, get_thread_id, event, mutex, thread, semaphore,
  timer, Slot, HandleTable, place, allocate_event, allocate_mutex, allocate_semaphore,
  allocate_timer, allocate_thread_handle,
}
use xblob_emulator.Kernel.Handles.Slots.{HasIds, Refers}
use xblob_emulator.Kernel.Handles.Allocate.{Fits, place-Grants}
use xblob_emulator.Kernel.Sync.{
  TimerType, synchronization_timer, signed_gt, event_object, mutex_object, semaphore_object,
  timer_object,
}
use xblob_emulator.Common.{invalid_argument, ok, fail}
use xblob_emulator.Prelude.{
  ℕ, ◌%◌, ◌^◌, ◌<◌, ◌≡◌, refl, ap, ◌∙◌, inl, inr, Bool, true, false, not, ◌&&◌, ◌||◌, [], ◌∷◌, ◌++◌,
  arith,
}
use xblob_emulator.Prelude.{ltb, leb, if◌then◌else◌, Bool-cases, length, u32_mod}

-- Each kind of object is found by the handle that its allocation returns, with the state it was
-- given; and what other handles referred to, they refer to still.
module _ (t : HandleTable) (f : Fits t) (ids : HasIds t) where
  -- With fewer than 65,535 slots, generations of 16 bits and fewer than 2 ^ 32 objects of each kind,
  -- `AllocateEvent` succeeds; its handle finds the new event as it was made, every handle that
  -- referred to a slot refers to it still, and every older object is there unchanged.
  pub get_event-allocate_event :
      (manual initial : Bool)
      → let (u, r) = allocate_event t manual initial in
        (h : ℕ) × (r ≡ ok h)
        × (get_event u h ≡ ok (event_object manual initial))
        × ((g : ℕ) (s : Slot) → Refers t g s → Refers u g s)
        × KeepsObjects t u
  unfolding allocate_event
  get_event-allocate_event manual initial =
      let id = length t.events % u32_mod in
      let u = (allocate_event t manual initial).0 in
      let h = (place event id 0 t.slots).1 in
      let g = place-Grants event id t u f refl in
      (
        h,
        refl,
        get_event_of_Refers u h g.generation id g.refers
            ∙ ap ok (
                get_or_id t.events (event_object manual initial) (event_object false false)
                  ids.few_events),
        g.others,
        (
          λ i lt.
              get_or_front t.events (event_object manual initial) (event_object false false) i lt,
          λ i lt. refl,
          λ i lt. refl,
          λ i lt. refl,
        ),
      )

  -- With fewer than 65,535 slots, generations of 16 bits and fewer than 2 ^ 32 objects of each kind,
  -- `AllocateMutex` succeeds; its handle finds the new mutex as it was made, every handle that
  -- referred to a slot refers to it still, and every older object is there unchanged.
  pub get_mutex-allocate_mutex :
      (initial : Bool) (tid : ℕ)
      → let (u, r) = allocate_mutex t initial tid in
        (h : ℕ) × (r ≡ ok h)
        × (get_mutex u h ≡ ok (mutex_object initial tid))
        × ((g : ℕ) (s : Slot) → Refers t g s → Refers u g s)
        × KeepsObjects t u
  unfolding allocate_mutex
  get_mutex-allocate_mutex initial tid =
      let id = length t.mutexes % u32_mod in
      let u = (allocate_mutex t initial tid).0 in
      let h = (place mutex id 0 t.slots).1 in
      let g = place-Grants mutex id t u f refl in
      (
        h,
        refl,
        get_mutex_of_Refers u h g.generation id g.refers
            ∙ ap ok (
                get_or_id t.mutexes (mutex_object initial tid) (mutex_object false 0)
                  ids.few_mutexes),
        g.others,
        (
          λ i lt. refl,
          λ i lt. get_or_front t.mutexes (mutex_object initial tid) (mutex_object false 0) i lt,
          λ i lt. refl,
          λ i lt. refl,
        ),
      )

  -- With fewer than 65,535 slots, generations of 16 bits and fewer than 2 ^ 32 objects of each kind,
  -- `AllocateTimer` succeeds; its handle finds the new timer as it was made, every handle that
  -- referred to a slot refers to it still, and every older object is there unchanged.
  pub get_timer-allocate_timer :
      (kind : TimerType)
      → let (u, r) = allocate_timer t kind in
        (h : ℕ) × (r ≡ ok h)
        × (get_timer u h ≡ ok (timer_object kind))
        × ((g : ℕ) (s : Slot) → Refers t g s → Refers u g s)
        × KeepsObjects t u
  unfolding allocate_timer
  get_timer-allocate_timer kind =
      let id = length t.timers % u32_mod in
      let u = (allocate_timer t kind).0 in
      let h = (place timer id 0 t.slots).1 in
      let g = place-Grants timer id t u f refl in
      (
        h,
        refl,
        get_timer_of_Refers u h g.generation id g.refers
            ∙ ap ok (
                get_or_id t.timers (timer_object kind) (timer_object synchronization_timer)
                  ids.few_timers),
        g.others,
        (
          λ i lt. refl,
          λ i lt. refl,
          λ i lt. refl,
          λ i lt.
              get_or_front t.timers (timer_object kind) (timer_object synchronization_timer) i lt,
        ),
      )

  -- With fewer than 65,535 slots, generations of 16 bits, fewer than 2 ^ 32 objects of each kind and
  -- counts that are words of 32 bits: exactly where the maximum is positive as an `i32` and the initial
  -- count is from 0 to the maximum, `AllocateSemaphore` succeeds; its handle finds the semaphore as it
  -- was made, every handle that referred to a slot refers to it still, and every older object is there
  -- unchanged. All other counts are refused, and nothing changes.
  pub get_semaphore-allocate_semaphore :
      (initial top : ℕ)
      → initial < u32_mod
      → top < u32_mod
      → let (u, r) = allocate_semaphore t initial top in
        if leb 1 top && ltb top (2 ^ 31) && leb initial top
        then ((h : ℕ) × (r ≡ ok h)
            × (get_semaphore u h ≡ ok (semaphore_object initial top))
            × ((g : ℕ) (s : Slot) → Refers t g s → Refers u g s)
            × KeepsObjects t u)
        else (r ≡ fail invalid_argument) × (u ≡ t)
  unfolding allocate_semaphore
  get_semaphore-allocate_semaphore initial top wi wt =
      elim (Bool-cases (leb 1 top && ltb top (2 ^ 31) && leb initial top)) [
        | inr e ↦
            let bad : (signed_gt 0 initial || not (signed_gt top 0) || signed_gt initial top)
                ≡ true =
              ground arith in
            rw (e, bad) (refl, refl)
        | inl e ↦
            let good : (signed_gt 0 initial || not (signed_gt top 0) || signed_gt initial top)
                ≡ false =
              ground arith in
            let id = length t.semaphores % u32_mod in
            let made = semaphore_object initial top in
            let u : HandleTable = record t {
              slots = (place semaphore id 0 t.slots).0;
              semaphores = t.semaphores ++ (made ∷ []);
            } in
            let h = (place semaphore id 0 t.slots).1 in
            let g = place-Grants semaphore id t u f refl in
            rw (e, good)
              (
                h,
                refl,
                get_semaphore_of_Refers u h g.generation id g.refers
                    ∙ ap ok (get_or_id t.semaphores made (semaphore_object 0 1) ids.few_semaphores),
                g.others,
                (
                  λ i lt. refl,
                  λ i lt. refl,
                  λ i lt. get_or_front t.semaphores made (semaphore_object 0 1) i lt,
                  λ i lt. refl,
                ),
              )
      ]

  -- The handle of a thread gives its identifier.
  pub get_thread_id-allocate_thread_handle :
      (tid : ℕ)
      → let (u, r) = allocate_thread_handle t tid in
        (h : ℕ) × (r ≡ ok h)
        × (get_thread_id u h ≡ ok tid)
        × ((g : ℕ) (s : Slot) → Refers t g s → Refers u g s)
  unfolding allocate_thread_handle
  get_thread_id-allocate_thread_handle tid =
      let u = (allocate_thread_handle t tid).0 in
      let h = (place thread tid 0 t.slots).1 in
      let g = place-Grants thread tid t u f refl in
      (h, refl, get_thread_id_of_Refers u h g.generation tid g.refers, g.others)
