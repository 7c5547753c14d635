-- ===== src/Kernel/Handles/Close.antt =====
-- Closing a handle.
use mathlib.Core.Bool.{false≢true}
use mathlib.Core.Option.{some-injective}
use xblob_emulator.Kernel.Handles.Accessors.{KeepsObjects}
use xblob_emulator.Kernel.Handles.{
  slot_at, validate_slot_only, is_valid_handle, closed, close_handle, Slot, HandleTable,
  get_handle_index,
}
use xblob_emulator.Kernel.Handles.Slots.{Refers, validate_slot_only_iff, validate_cases}
use xblob_emulator.Common.{has_value}
use xblob_emulator.Prelude.{
  ℕ, ◌+◌, ◌%◌, ◌^◌, ◌≡◌, refl, sym, ap, ◌∙◌, ◌≢◌, inl, inr, true, false, some,
}
use xblob_emulator.Prelude.{
  get_elem?, set, get_elem?-set_self, get_elem?-set_ne, get_elem?-lt, add16,
}

-- Closing a handle succeeds exactly where it is valid, which is where it refers to a slot in use of its
-- generation; the handle is not valid in the table after the call. After a success that slot is not in
-- use, and its generation is one further, as a word of 16 bits; every handle with another index keeps
-- what it referred to, and every object stays. A failed close changes nothing.
pub close_handle_lem :
    (t : HandleTable) (h : ℕ)
    → let (u, r) = close_handle t h in
      (has_value r ≡ is_valid_handle t h)
      × (is_valid_handle u h ≡ false)
      × (has_value r ≡ false → ((s : Slot) → ¬ (Refers t h s)) × (u ≡ t))
      × (has_value r ≡ true
          → (s : Slot) × (c : Slot) × (Refers t h s)
            × (get_elem? u.slots (get_handle_index h) ≡ some c)
            × (c.in_use ≡ false)
            × (c.entry.generation ≡ (s.entry.generation + 1) % 2 ^ 16))
      × ((g : ℕ) (s : Slot) → get_handle_index g ≢ get_handle_index h → Refers t g s → Refers u g s)
      × (KeepsObjects t u)
unfolding close_handle is_valid_handle
close_handle_lem t h = elim (validate_cases t h) [
  | inr (e, q) ↦
      rw (q, close_handle)
        (
          refl,
          ap has_value q,
          λ _. (λ s r. (let k = validate_slot_only_iff t h s r in cc (k, q)), refl),
          λ good. absurd (false≢true good),
          λ g s n r. r,
          (λ i lt. refl, λ i lt. refl, λ i lt. refl, λ i lt. refl),
        )
  | inl (s, r, at, q) ↦
      let i = get_handle_index h in
      let c = closed (slot_at t i) in
      let u : HandleTable = record t { slots = set t.slots i c } in
      let here = get_elem?-set_self t.slots i c (get_elem?-lt t.slots i s r.1) in
      rw (q, close_handle)
        (
          refl,
          unused u c here refl,
          λ bad. absurd (false≢true (sym bad)),
          λ _. (s, c, r, here, refl, ap (λ (y : Slot). add16 y.entry.generation 1) at),
          λ g x n w. (
            w.0,
            get_elem?-set_ne t.slots i (get_handle_index g) c (λ e. n (sym e)) ∙ w.1,
            w.2,
            w.3,
          ),
          (λ i lt. refl, λ i lt. refl, λ i lt. refl, λ i lt. refl),
        )
]
  where
    unused :
        (u : HandleTable) (c : Slot)
        → get_elem? u.slots (get_handle_index h) ≡ some c
        → c.in_use ≡ false
        → has_value (validate_slot_only u h) ≡ false
    unused u c here off = elim (validate_cases u h) [
      | inr (e, q) ↦ rw q
      | inl (s, r, at, q) ↦ absurd (
          false≢true
            (sym off ∙ ap (λ (x : Slot). x.in_use) (some-injective _ _ (sym here ∙ r.1)) ∙ r.2))
    ]
