-- ===== src/Kernel/Handles/Stale.antt =====
-- A closed handle stays refused, also when its slot is given to another object.
use mathlib.Core.Bool.{false≢true}
use mathlib.Core.Option.{some-injective}
use native.Mathlib.Decide.{ℕ_discrete}
use xblob_emulator.Kernel.Handles.Calls.{
  Op, creates_event, creates_mutex, creates_semaphore, creates_timer, creates_thread, waits,
  adds_waiting, removes_waiting, closes, resets, writes_event, writes_mutex, writes_semaphore,
  writes_timer, step, run, is_reset,
}
use xblob_emulator.Kernel.Handles.Slots.{validate_cases, place-Placed}
use xblob_emulator.Kernel.Handles.Allocate.{filled_slot}
use xblob_emulator.Kernel.Handles.{
  slot_at, validate_slot_only, validate_and_get_slot, is_valid_handle, entry_satisfy_wait,
  satisfy_wait, entry_add_waiting, add_waiting_thread, entry_remove_waiting, remove_waiting_thread,
  closed, close_handle, HandleType, event, mutex, thread, semaphore, timer, Slot, HandleTable,
  get_handle_index, get_handle_generation, place, allocate_event, allocate_mutex,
  allocate_semaphore, allocate_timer, allocate_thread_handle,
}
use xblob_emulator.Kernel.Sync.{signed_gt}
use xblob_emulator.Common.{has_value, Result-cases}
use xblob_emulator.Prelude.{
  ℕ, ◌+◌, ◌%◌, ◌^◌, ◌≤◌, ◌<◌, ◌≡◌, refl, sym, ap, ◌∙◌, ◌⊎◌, inl, inr, true, false, not, ◌||◌, some,
  List, [], ◌∷◌, arith,
}
use xblob_emulator.Prelude.{
  Bool-cases, length, get_elem?, set, get_elem?-set_self, get_elem?-set_ne, All, get_elem?-lt,
}

-- The slot of index `i` was closed `k` times since its generation was `g`.
record Aged (g i k : ℕ) (t : HandleTable) : Type 0 where
  slot : Slot
  here : get_elem? t.slots i ≡ some slot
  aged : slot.entry.generation ≡ (g + k) % 2 ^ 16

same_slots-Aged : (g i k : ℕ) (t u : HandleTable) → u.slots ≡ t.slots → Aged g i k t → Aged g i k u
same_slots-Aged g i k t u same a = record { slot = a.slot; here = rw same a.here; aged = a.aged }

place-Aged :
    (type : HandleType) (id g i k : ℕ) (t u : HandleTable)
    → u.slots ≡ (place type id 0 t.slots).0
    → Aged g i k t
    → Aged g i k u
place-Aged type id g i k t u same a =
    let p = place-Placed type id 0 t.slots in
    elim (ℕ_discrete i p.n) [
      | yes q ↦ record {
        slot = filled_slot type p.generation id;
        here = rw (same, q) p.filled;
        aged = sym (p.inherits a.slot (rw q at a.here)) ∙ a.aged;
      }
      | no n ↦ record { slot = a.slot; here = rw same (p.others i n ∙ a.here); aged = a.aged }
    ]

satisfy_wait_slots :
    (t : HandleTable) (k : HandleType) (id tid : ℕ)
    → (entry_satisfy_wait t k id tid).0.slots ≡ t.slots
unfolding entry_satisfy_wait
satisfy_wait_slots t event id tid = refl
satisfy_wait_slots t mutex id tid = refl
satisfy_wait_slots t semaphore id tid = refl
satisfy_wait_slots t timer id tid = refl
satisfy_wait_slots t _ id tid = refl

add_waiting_slots :
    (t : HandleTable) (k : HandleType) (id tid : ℕ) → (entry_add_waiting t k id tid).slots ≡ t.slots
unfolding entry_add_waiting
add_waiting_slots t event id tid = refl
add_waiting_slots t mutex id tid = refl
add_waiting_slots t semaphore id tid = refl
add_waiting_slots t timer id tid = refl
add_waiting_slots t _ id tid = refl

remove_waiting_slots :
    (t : HandleTable) (k : HandleType) (id tid : ℕ)
    → (entry_remove_waiting t k id tid).slots ≡ t.slots
unfolding entry_remove_waiting
remove_waiting_slots t event id tid = refl
remove_waiting_slots t mutex id tid = refl
remove_waiting_slots t semaphore id tid = refl
remove_waiting_slots t timer id tid = refl
remove_waiting_slots t _ id tid = refl

closed-Aged :
    (g i k : ℕ) (t : HandleTable) (a : Aged g i k t)
    → Aged g i (k + 1) (record t { slots = set t.slots i (closed a.slot) })
closed-Aged g i k t a = record {
  slot = closed a.slot;
  here = get_elem?-set_self t.slots i _ (get_elem?-lt t.slots i a.slot a.here);
  aged = let e = a.aged in omega (arith, e);
}

-- At most one close more.
Older : (g i k : ℕ) → HandleTable → Type 0
Older g i k t = Aged g i k t ⊎ Aged g i (k + 1) t

close-Older :
    (g i k : ℕ) (t : HandleTable) (h : ℕ) → Aged g i k t → Older g i k (close_handle t h).0
unfolding close_handle Older
close-Older g i k t h a = elim (validate_cases t h) [
  | inr (e, q) ↦ rw (q, close_handle) (inl a)
  | inl (s, r, at, q) ↦
      let j = get_handle_index h in
      let c = closed (slot_at t j) in
      elim (ℕ_discrete j i) [
        | yes p ↦
            let same : slot_at t j ≡ a.slot = at ∙ some-injective _ _ (sym r.1 ∙ rw p a.here) in
            rw (q, close_handle) (inr (rw (same, p) (closed-Aged g i k t a)))
        | no n ↦
            rw (q, close_handle)
              (inl (record {
                slot = a.slot;
                here = get_elem?-set_ne t.slots j i c n ∙ a.here;
                aged = a.aged;
              }))
      ]
]

step-Older :
    (g i k : ℕ) (t : HandleTable) (o : Op)
    → is_reset o ≡ false
    → Aged g i k t
    → Older g i k (step t o)
unfolding step allocate_event allocate_mutex allocate_semaphore allocate_timer
    allocate_thread_handle satisfy_wait add_waiting_thread remove_waiting_thread Older
step-Older g i k t (creates_event manual initial) n a = inl (place-Aged event _ g i k t _ refl a)
step-Older g i k t (creates_mutex initial tid) n a = inl (place-Aged mutex _ g i k t _ refl a)
step-Older g i k t (creates_semaphore initial top) n a =
    elim (Bool-cases (signed_gt 0 initial || not (signed_gt top 0) || signed_gt initial top)) [
      | inl e ↦ rw (e, step, allocate_semaphore) (inl a)
      | inr e ↦ rw (e, step, allocate_semaphore) (inl (place-Aged semaphore _ g i k t _ refl a))
    ]
step-Older g i k t (creates_timer kind) n a = inl (place-Aged timer _ g i k t _ refl a)
step-Older g i k t (creates_thread tid) n a = inl (place-Aged thread tid g i k t _ refl a)
step-Older g i k t (waits h tid) n a = elim (Result-cases (validate_slot_only t h)) [
  | inl (j, e) ↦
      rw (e, step, satisfy_wait) (inl (same_slots-Aged g i k t _ (satisfy_wait_slots t _ _ tid) a))
  | inr (x, e) ↦ rw (e, step, satisfy_wait) (inl a)
]
step-Older g i k t (adds_waiting h tid) n a = elim (Result-cases (validate_slot_only t h)) [
  | inl (j, e) ↦
      rw (e, step, add_waiting_thread)
        (inl (same_slots-Aged g i k t _ (add_waiting_slots t _ _ tid) a))
  | inr (x, e) ↦ rw (e, step, add_waiting_thread) (inl a)
]
step-Older g i k t (removes_waiting h tid) n a = elim (Result-cases (validate_slot_only t h)) [
  | inl (j, e) ↦
      rw (e, step, remove_waiting_thread)
        (inl (same_slots-Aged g i k t _ (remove_waiting_slots t _ _ tid) a))
  | inr (x, e) ↦ rw (e, step, remove_waiting_thread) (inl a)
]
step-Older g i k t (closes h) n a = close-Older g i k t h a
step-Older g i k t resets n a = absurd (false≢true (sym n))
step-Older g i k t (writes_event h e) n a = elim (Result-cases (validate_and_get_slot t h event)) [
  | inl (j, q) ↦ rw (q, step) (inl (same_slots-Aged g i k t _ refl a))
  | inr (x, q) ↦ rw (q, step) (inl a)
]
step-Older g i k t (writes_mutex h m) n a = elim (Result-cases (validate_and_get_slot t h mutex)) [
  | inl (j, q) ↦ rw (q, step) (inl (same_slots-Aged g i k t _ refl a))
  | inr (x, q) ↦ rw (q, step) (inl a)
]
step-Older g i k t (writes_semaphore h s) n a =
    elim (Result-cases (validate_and_get_slot t h semaphore)) [
      | inl (j, q) ↦ rw (q, step) (inl (same_slots-Aged g i k t _ refl a))
      | inr (x, q) ↦ rw (q, step) (inl a)
    ]
step-Older g i k t (writes_timer h r) n a = elim (Result-cases (validate_and_get_slot t h timer)) [
  | inl (j, q) ↦ rw (q, step) (inl (same_slots-Aged g i k t _ refl a))
  | inr (x, q) ↦ rw (q, step) (inl a)
]

-- After `n` calls the slot was closed at most `n` times more.
run-Aged :
    (g i k : ℕ) (t : HandleTable) (os : List Op)
    → All (λ o. is_reset o ≡ false) os
    → Aged g i k t
    → (m : ℕ) × (k ≤ m) × (m ≤ k + length os) × Aged g i m (run t os)
unfolding run Older
run-Aged g i k t [] n a = (k, omega arith, omega arith, a)
run-Aged g i k t (o ∷ os) n a = elim (step-Older g i k t o n.0 a) [
  | inl b ↦ let (m, lo, hi, c) = run-Aged g i k (step t o) os n.1 b in (m, lo, omega arith, c)
  | inr b ↦
      let (m, lo, hi, c) = run-Aged g i (k + 1) (step t o) os n.1 b in
      (m, omega arith, omega arith, c)
]

refused_if_Aged :
    (t : HandleTable) (h k : ℕ)
    → 0 < k
    → k < 65536
    → Aged (get_handle_generation h) (get_handle_index h) k t
    → is_valid_handle t h ≡ false
unfolding is_valid_handle
refused_if_Aged t h k k1 k2 a = elim (validate_cases t h) [
  | inr (e, q) ↦ ap has_value q
  | inl (s, r, at, q) ↦
      let same : s ≡ a.slot = some-injective _ _ (sym r.1 ∙ a.here) in
      let again : (get_handle_generation h + k) % 2 ^ 16 ≡ get_handle_generation h =
        sym a.aged ∙ ap (λ (x : Slot). x.entry.generation) (sym same) ∙ r.3 in
      absurd (omega (arith, again))
]

-- A handle that was closed is not valid after any sequence of fewer than 65,535 further calls and
-- writes to objects without a `Reset`, also where its slot has been given to other objects.
pub closed_handle_stays_invalid :
    (t : HandleTable) (h : ℕ) (os : List Op)
    → has_value (close_handle t h).1 ≡ true
    → All (λ o. is_reset o ≡ false) os
    → length os < 65535
    → is_valid_handle (run (close_handle t h).0 os) h ≡ false
unfolding close_handle
closed_handle_stays_invalid t h os done n few = elim (validate_cases t h) [
  | inr (e, q) ↦
      let bad : has_value (close_handle t h).1 ≡ false = rw (q, close_handle) in
      absurd (false≢true (sym bad ∙ done))
  | inl (s, r, at, q) ↦
      let g = get_handle_generation h in
      let i = get_handle_index h in
      let start : Aged g i 0 t = record {
        slot = slot_at t i;
        here = r.1 ∙ ap some (sym at);
        aged = let e = r.3 in rw at (omega (arith, e));
      } in
      let u : HandleTable = record t { slots = set t.slots i (closed (slot_at t i)) } in
      let shut : (close_handle t h).0 ≡ u = rw (q, close_handle) in
      let (m, lo, hi, b) = run-Aged g i 1 u os n (closed-Aged g i 0 t start) in
      rw shut (refused_if_Aged (run u os) h m (omega arith) (omega arith) b)
]
