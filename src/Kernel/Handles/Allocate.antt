-- ===== src/Kernel/Handles/Allocate.antt =====
-- Allocation and closing: what the returned handle refers to, and what other handles keep.
use mathlib.Core.Bool.{false≢true}
use xblob_emulator.Kernel.Handles.{
  invalid_handle_value, HandleType, Slot, HandleTable, encode_handle, get_handle_index,
  get_handle_generation, place, no_slot,
}
use xblob_emulator.Kernel.Handles.Slots.{Refers, Placed, place-Placed}
use xblob_emulator.Prelude.{
  ℕ, ◌+◌, ◌%◌, ◌<◌, ◌≡◌, refl, sym, ◌∙◌, ◌≢◌, inl, inr, true, arith, Option-cases, length,
  get_elem?, All, All-get_elem?, get_elem?-get_or, u16_mod,
}

-- Generations are words of 16 bits, and the index of one more slot is one too, below the index of
-- the invalid handle.
pub record Fits (t : HandleTable) : Type 0 where
  pub generations : All (λ s. s.entry.generation < u16_mod) t.slots
  pub room : length t.slots + 1 < u16_mod

encode-decode :
    (i g : ℕ)
    → i + 1 < u16_mod
    → g < u16_mod
    → (get_handle_index (encode_handle (i % u16_mod) g) ≡ i)
      × (get_handle_generation (encode_handle (i % u16_mod) g) ≡ g)
      × (encode_handle (i % u16_mod) g ≢ invalid_handle_value)
encode-decode i g hi hg = omega arith

Placed-generation :
    (type : HandleType) (id : ℕ) (t : HandleTable)
    (p : Placed type id 0 t.slots (place type id 0 t.slots))
    → Fits t
    → p.generation < u16_mod
Placed-generation type id t p f = elim (Option-cases (get_elem? t.slots p.n)) [
  | inl e ↦ ground (arith, p.new, get_elem?-get_or t.slots p.n no_slot)
  | inr (s, e) ↦
      rw (← p.inherits s e)
        (All-get_elem? (λ (x : Slot). x.entry.generation < u16_mod) t.slots p.n s f.generations e)
]

-- The slot that an allocation fills.
abbrev pub filled_slot : HandleType → ℕ → ℕ → Slot
filled_slot type g id = record {
  entry = record { type = type; generation = g; object_id = id };
  in_use = true;
}

-- The handle of `place` refers to the slot that it filled, and every handle that referred to a slot
-- refers to it still. `u` is the table with the new slots.
pub record Grants (type : HandleType) (id : ℕ) (t u : HandleTable) (h : ℕ) : Type 0 where
  pub generation : ℕ
  pub refers : Refers u h (filled_slot type generation id)
  pub others : (g : ℕ) (s : Slot) → Refers t g s → Refers u g s

pub place-Grants :
    (type : HandleType) (id : ℕ) (t u : HandleTable)
    → Fits t
    → u.slots ≡ (place type id 0 t.slots).0
    → Grants type id t u (place type id 0 t.slots).1
place-Grants type id t u f same = record {
  generation = p.generation;
  refers = rw p.handle (code.2, rw (same, code.0) p.filled, refl, sym code.1);
  others = λ g s r.
      let apart : get_handle_index g ≢ p.n =
        λ q. false≢true (sym (p.vacant s (rw q at r.1)) ∙ r.2) in
      (r.0, rw same (p.others _ apart ∙ r.1), r.2, r.3);
}
  where
    p : Placed type id 0 t.slots (place type id 0 t.slots)
    p = place-Placed type id 0 t.slots

    code :
        (get_handle_index (encode_handle ((0 + p.n) % u16_mod) p.generation) ≡ p.n)
        × (get_handle_generation (encode_handle ((0 + p.n) % u16_mod) p.generation) ≡ p.generation)
        × (encode_handle ((0 + p.n) % u16_mod) p.generation ≢ invalid_handle_value)
    code =
        let k =
          encode-decode (0 + p.n) p.generation (omega (arith, p.bound, f.room))
            (Placed-generation type id t p f) in
        (k.0 ∙ omega arith, k.1, k.2)
