-- ===== src/Memory/Virtual/Calls.antt =====
-- The calls that set up and use the cache of translations.
use Prim.Native.Nat.{bit_xor}
use xblob_emulator.Memory.Virtual.{
  VirtualAccessType, VirtualMemory, has_bit, is_paging_enabled, invalidate_all, set_cr0, set_cr3,
  set_cpl, find_entry, erase_entry, page_of, invalidate_translation, translate,
}
use xblob_emulator.Memory.Virtual.Coherent.{
  IsCoherent, find_entry-erase_entry, IsQuiet, walk-IsCoherent, used-IsCoherent,
}
use xblob_emulator.Memory.AddressSpace.{Devices}
use xblob_emulator.Prelude.{ℕ, ◌≡◌, sym, ◌∙◌, inl, inr, none, ◌==◌, Bool-cases, Option-cases}

pub data Op : Type 0 where
  sets_cr0 sets_cr3 sets_cpl invalidates : ℕ → Op
  invalidates_all : Op
  translates : ℕ → VirtualAccessType → Op

module _ {D : Type 0} (io : Devices D) where
  unfoldable pub step : VirtualMemory D → Op → VirtualMemory D
  step s (sets_cr0 cr0) = set_cr0 s cr0
  step s (sets_cr3 cr3) = set_cr3 s cr3
  step s (sets_cpl cpl) = set_cpl s cpl
  step s (invalidates vaddr) = invalidate_translation s vaddr
  step s invalidates_all = invalidate_all s
  step s (translates vaddr t) = (translate io s vaddr t).0

  -- Where reads do not change the memory, every call that sets up or uses the cache keeps it
  -- coherent with the page tables.
  pub step-IsCoherent :
      (s : VirtualMemory D) (o : Op)
      → IsQuiet io s.physical
      → IsCoherent io s
      → IsCoherent io (step s o)
  unfolding step set_cr0 set_cr3 set_cpl invalidate_translation invalidate_all translate find_entry
  step-IsCoherent s (sets_cr0 cr0) q c = elim (Bool-cases (has_bit (bit_xor s.cr0 cr0) 31)) [
    | inl e ↦ rw (e, set_cr0) (λ v x at. cc)
    | inr e ↦ rw (e, set_cr0) c
  ]
  step-IsCoherent s (sets_cr3 cr3) q c = λ v e at. cc
  step-IsCoherent s (sets_cpl cpl) q c = c
  step-IsCoherent s (invalidates vaddr) q c = λ v e at.
      let kept = find_entry-erase_entry (page_of v) (page_of vaddr) s.tlb in
      elim (Bool-cases (page_of vaddr == page_of v)) [
        | inl k ↦
            let gone : find_entry (page_of v) (erase_entry (page_of vaddr) s.tlb) ≡ none =
              kept ∙ rw k in
            cc (gone, at)
        | inr k ↦
            let same : find_entry (page_of v) (erase_entry (page_of vaddr) s.tlb)
                ≡ find_entry (page_of v) s.tlb =
              kept ∙ rw k in
            c v e (sym same ∙ at)
      ]
  step-IsCoherent s invalidates_all q c = λ v e at. cc
  step-IsCoherent s (translates vaddr t) q c = elim (Bool-cases (is_paging_enabled s)) [
    | inr off ↦ rw (step, off, translate) c
    | inl on ↦ elim (Option-cases (find_entry (page_of vaddr) s.tlb)) [
      | inl f ↦ rw (step, on, f, translate) (walk-IsCoherent io s vaddr t q c)
      | inr (e, f) ↦ rw (step, on, f, translate) (used-IsCoherent io s vaddr t e c)
    ]
  ]
