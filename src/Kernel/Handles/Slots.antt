-- ===== src/Kernel/Handles/Slots.antt =====
-- Handles: what an allocation returns is valid, what a close invalidates, and every handle in use
-- refers to an object that is there.
use mathlib.Core.Option.{some-injective}
use xblob_emulator.Kernel.Handles.{
  invalid_handle_value, HandleType, event, mutex, semaphore, timer, Slot, HandleTable,
  encode_handle, get_handle_index, get_handle_generation, place, no_slot, slot_at,
  validate_slot_only,
}
use xblob_emulator.Common.{Error, ok, err, Result-cases}
use xblob_emulator.Prelude.{
  ℕ, zero, suc, ◌+◌, ◌%◌, ◌≤◌, ◌<◌, ◌≡◌, refl, sym, ap, ◌∙◌, ◌≢◌, ◌⊎◌, inl, inr, Bool, true, false,
  not, none, some, List, [], ◌∷◌, arith, if◌then◌else◌, length, get_elem?, All, get_elem?-lt,
  get_elem?-get_or, u16_mod, u32_mod,
}

-- An entry in use refers to an object of its kind.
abbrev pub InRange : HandleTable → HandleType → ℕ → Type 0
InRange t event id = id < length t.events
InRange t mutex id = id < length t.mutexes
InRange t semaphore id = id < length t.semaphores
InRange t timer id = id < length t.timers
InRange t _ id = Unit {0}

abbrev pub SlotInRange : HandleTable → Slot → Type 0
SlotInRange t s = s.in_use ≡ true → InRange t s.entry.type s.entry.object_id

abbrev pub IsSafe : HandleTable → Type 0
IsSafe t = All (SlotInRange t) t.slots

-- The number of one more object of each kind is a word of 32 bits, as the entries keep it.
pub record HasIds (t : HandleTable) : Type 0 where
  pub few_events : length t.events < u32_mod
  pub few_mutexes : length t.mutexes < u32_mod
  pub few_semaphores : length t.semaphores < u32_mod
  pub few_timers : length t.timers < u32_mod

-- What a handle refers to: the slot at its index, in use, of its generation.
abbrev pub Refers : HandleTable → ℕ → Slot → Type 0
Refers t handle s =
    (handle ≢ invalid_handle_value)
    × (get_elem? t.slots (get_handle_index handle) ≡ some s)
    × (s.in_use ≡ true)
    × (s.entry.generation ≡ get_handle_generation handle)

pub validate_slot_only_iff :
    (t : HandleTable) (handle : ℕ) (s : Slot)
    → Refers t handle s
    → validate_slot_only t handle ≡ ok (get_handle_index handle)
unfolding validate_slot_only
validate_slot_only_iff t handle s r = ground (
  arith,
  get_elem?-get_or t.slots (get_handle_index handle) no_slot,
  get_elem?-lt t.slots (get_handle_index handle) s r.1,
)

-- Every result of the validation.
pub validate_cases :
    (t : HandleTable) (handle : ℕ)
    → ((s : Slot) × Refers t handle s
        × (slot_at t (get_handle_index handle) ≡ s)
        × (validate_slot_only t handle ≡ ok (get_handle_index handle)))
      ⊎ ((e : Error) × (validate_slot_only t handle ≡ err e))
unfolding validate_slot_only
validate_cases t handle = elim (Result-cases (validate_slot_only t handle)) [
  | inr (e, q) ↦ inr (e, q)
  | inl (idx, q) ↦
      let at = get_elem?-get_or t.slots (get_handle_index handle) no_slot in
      let facts : Refers t handle (slot_at t (get_handle_index handle))
          × (idx ≡ get_handle_index handle) =
        ground (arith, at) in
      inl (slot_at t (get_handle_index handle), facts.0, refl, q ∙ ap ok facts.1)
]

-- What `place` does: one slot `n` is filled, from one that was not in use or behind the others; all
-- other slots stay.
pub record Placed (type : HandleType) (id i : ℕ) (ss : List Slot) (r : List Slot × ℕ) : Type 0 where
  pub n : ℕ
  pub generation : ℕ
  pub filled :
      get_elem? r.0 n
      ≡ some (record {
        entry = record { type = type; generation = generation; object_id = id };
        in_use = true;
      })
  pub handle : r.1 ≡ encode_handle ((i + n) % u16_mod) generation
  pub others : (j : ℕ) → j ≢ n → get_elem? r.0 j ≡ get_elem? ss j
  pub vacant : (s : Slot) → get_elem? ss n ≡ some s → s.in_use ≡ false
  pub bound : n ≤ length ss
  pub inherits : (s : Slot) → get_elem? ss n ≡ some s → s.entry.generation ≡ generation
  pub new : length ss ≤ n → generation ≡ 1

pub place-Placed :
    (type : HandleType) (id i : ℕ) (ss : List Slot) → Placed type id i ss (place type id i ss)
unfolding place
place-Placed type id i [] = record {
  n = 0;
  generation = 1;
  filled = refl;
  handle = ap (λ k. encode_handle (k % u16_mod) 1) (omega arith);
  others = by_index;
  vacant = λ s e. cc;
  bound = omega arith;
  inherits = λ s e. cc;
  new = λ h. refl;
}
  where
    new : Slot
    new = record { entry = record { type = type; generation = 1; object_id = id }; in_use = true }

    by_index : (j : ℕ) → j ≢ 0 → get_elem? (new ∷ []) j ≡ none
    by_index zero n = absurd (n refl)
    by_index (suc j) n = refl
place-Placed type id i (s ∷ ss) = step s.in_use refl (place-Placed type id (i + 1) ss)
  where
    filled : Slot
    filled = record {
      entry = record { type = type; generation = s.entry.generation; object_id = id };
      in_use = true;
    }

    by_index : (j : ℕ) → j ≢ 0 → get_elem? (filled ∷ ss) j ≡ get_elem? (s ∷ ss) j
    by_index zero n = absurd (n refl)
    by_index (suc j) n = refl

    shifted :
        (n : ℕ) (xs : List Slot)
        → ((j : ℕ) → j ≢ n → get_elem? xs j ≡ get_elem? ss j)
        → (j : ℕ) → j ≢ suc n
        → get_elem? (s ∷ xs) j ≡ get_elem? (s ∷ ss) j
    shifted n xs h zero ne = refl
    shifted n xs h (suc j) ne = h j (λ e. ne (ap suc e))

    step :
        (b : Bool)
        → s.in_use ≡ b
        → Placed type id (i + 1) ss (place type id (i + 1) ss)
        → Placed type id i (s ∷ ss) (
            if not b
            then (filled ∷ ss, encode_handle (i % u16_mod) s.entry.generation)
            else (s ∷ (place type id (i + 1) ss).0, (place type id (i + 1) ss).1))
    step false e p = record {
      n = 0;
      generation = s.entry.generation;
      filled = refl;
      handle = ap (λ k. encode_handle (k % u16_mod) s.entry.generation) (omega arith);
      others = by_index;
      vacant = λ r q. ap (λ (x : Slot). x.in_use) (sym (some-injective _ _ q)) ∙ e;
      bound = omega arith;
      inherits = λ r q. ap (λ (x : Slot). x.entry.generation) (sym (some-injective _ _ q));
      new = λ h. absurd (omega arith);
    }
    step true e p = record {
      n = suc p.n;
      generation = p.generation;
      filled = p.filled;
      handle = p.handle ∙ ap (λ k. encode_handle (k % u16_mod) p.generation) (omega arith);
      others = shifted p.n _ p.others;
      vacant = p.vacant;
      bound = omega (arith, p.bound);
      inherits = p.inherits;
      new = λ h. p.new (omega arith);
    }
