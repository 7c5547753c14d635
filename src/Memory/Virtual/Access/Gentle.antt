-- ===== src/Memory/Virtual/Access/Gentle.antt =====
-- What a translation does over quiet memory.
use xblob_emulator.Memory.Virtual.{
  VirtualAccessType, TlbEntry, VirtualMemory, has_bit, is_paging_enabled, find_entry, page_of,
  fault, refusal, use_entry, entry_of, enter_entry, pde_address, pte_address, walk_table, walk,
  translate,
}
use xblob_emulator.Memory.Virtual.Walk.{with_tlb}
use xblob_emulator.Memory.Virtual.Coherent.{walk-after_directory, walk_table-after_table, IsQuiet}
use xblob_emulator.Memory.AddressSpace.{Devices, read32}
use xblob_emulator.Common.{Error, Result, ok, err, Result-cases}
use xblob_emulator.Prelude.{ℕ, ◌≡◌, refl, ◌⊎◌, inl, inr, List, Bool-cases, Option-cases}

-- It keeps the memory, and if it succeeds it changes the cache only.
abbrev pub IsGentle :
    {D : Type 0} {A : Type 0} → VirtualMemory D → VirtualMemory D × Result A → Type 0
IsGentle s (s', r) =
    (s'.physical ≡ s.physical)
    × (((e : Error) × (r ≡ err e)) ⊎ ((es : List (ℕ × TlbEntry)) × (s' ≡ with_tlb s es)))

module _ {D : Type 0} (io : Devices D) where
  fault-IsGentle :
      (s : VirtualMemory D) (v code : ℕ) (t : VirtualAccessType) → IsGentle s (fault s v code t)
  unfolding fault
  fault-IsGentle s v code t = (refl, inl (_, refl))

  enter_entry-IsGentle :
      (s : VirtualMemory D) (v : ℕ) (t : VirtualAccessType) (e : TlbEntry)
      → IsGentle s (enter_entry s v t e)
  unfolding enter_entry
  enter_entry-IsGentle s v t e = elim (Option-cases (refusal s t e.user_accessible e.writable)) [
    | inl f ↦ rw (f, enter_entry) (refl, inr (_, refl))
    | inr (code, f) ↦ rw (f, enter_entry) (fault-IsGentle s v code t)
  ]

  use_entry-IsGentle :
      (s : VirtualMemory D) (v : ℕ) (t : VirtualAccessType) (e : TlbEntry)
      → IsGentle s (use_entry s v t e)
  unfolding use_entry
  use_entry-IsGentle s v t e = elim (Option-cases (refusal s t e.user_accessible e.writable)) [
    | inl f ↦ rw (f, use_entry) (refl, inr (s.tlb, refl))
    | inr (code, f) ↦ rw (f, use_entry) (fault-IsGentle s v code t)
  ]

  walk_table-IsGentle :
      (s : VirtualMemory D) (v : ℕ) (t : VirtualAccessType) (pde : ℕ)
      → IsQuiet io s.physical
      → IsGentle s (walk_table io s v t pde)
  walk_table-IsGentle s v t pde q =
      let at = pte_address pde v in
      elim (Result-cases (read32 io s.physical at).1) [
        | inr (x, f) ↦
            let b : read32 io s.physical at ≡ (s.physical, err x) = λ i. (q at i, f i) in
            rw (walk_table-after_table io s v t pde (s.physical, err x) b) (refl, inl (x, refl))
        | inl (pte, f) ↦
            let b : read32 io s.physical at ≡ (s.physical, ok pte) = λ i. (q at i, f i) in
            elim (Bool-cases (has_bit pte 0)) [
              | inr p ↦
                  rw (walk_table-after_table io s v t pde (s.physical, ok pte) b, p)
                    (fault-IsGentle s v _ t)
              | inl p ↦
                  rw (walk_table-after_table io s v t pde (s.physical, ok pte) b, p)
                    (enter_entry-IsGentle s v t (entry_of pde pte))
            ]
      ]

  walk-IsGentle :
      (s : VirtualMemory D) (v : ℕ) (t : VirtualAccessType)
      → IsQuiet io s.physical
      → IsGentle s (walk io s v t)
  walk-IsGentle s v t q =
      let at = pde_address s.cr3 v in
      elim (Result-cases (read32 io s.physical at).1) [
        | inr (x, f) ↦
            let b : read32 io s.physical at ≡ (s.physical, err x) = λ i. (q at i, f i) in
            rw (walk-after_directory io s v t (s.physical, err x) b) (refl, inl (x, refl))
        | inl (pde, f) ↦
            let b : read32 io s.physical at ≡ (s.physical, ok pde) = λ i. (q at i, f i) in
            elim (Bool-cases (has_bit pde 0)) [
              | inr p ↦
                  rw (walk-after_directory io s v t (s.physical, ok pde) b, p)
                    (fault-IsGentle s v _ t)
              | inl p ↦
                  rw (walk-after_directory io s v t (s.physical, ok pde) b, p)
                    (walk_table-IsGentle s v t pde q)
            ]
      ]

  pub translate-IsGentle :
      (s : VirtualMemory D) (v : ℕ) (t : VirtualAccessType)
      → IsQuiet io s.physical
      → IsGentle s (translate io s v t)
  unfolding translate
  translate-IsGentle s v t q = elim (Bool-cases (is_paging_enabled s)) [
    | inr off ↦ rw (off, translate) (refl, inr (s.tlb, refl))
    | inl on ↦ elim (Option-cases (find_entry (page_of v) s.tlb)) [
      | inl f ↦ rw (on, f, translate) (walk-IsGentle s v t q)
      | inr (e, f) ↦ rw (on, f, translate) (use_entry-IsGentle s v t e)
    ]
  ]
