-- ===== src/Memory/Virtual/Walk.antt =====
-- The walk of the page tables: it does not depend on the cache, and what it enters there.
use xblob_emulator.Memory.Virtual.{
  VirtualAccessType, TlbEntry, VirtualMemory, has_bit, is_write_protect, erase_entry, page_of,
  fault, refusal, translated, use_entry, entry_of, enter_entry, pde_address, pte_address,
  walk_table, walk,
}
use xblob_emulator.Memory.AddressSpace.{Devices, Memory, read32}
use xblob_emulator.Common.{Result, ok, err, Result-cases}
use xblob_emulator.Prelude.{
  ℕ, ◌*◌, ◌/◌, ◌%◌, ◌^◌, ◌≡◌, refl, ap, subst, inl, inr, true, List, ◌∷◌, arith, Bool-cases,
  Option-cases, add32,
}

same_directory : (v w : ℕ) → page_of v ≡ page_of w → v / 2 ^ 22 ≡ w / 2 ^ 22
same_directory v w e = omega arith

-- The entries of the directory and of the table that a translation of `vaddr` reads are present and
-- make up the entry `e`, and reading them leaves the memory as it is.
pub record IsWalk {D : Type 0} (io : Devices D) (m : Memory D) (cr3 vaddr : ℕ) (e : TlbEntry)
    : Type 0 where
  pub pde : ℕ
  pub pte : ℕ
  pub pde_read : read32 io m (pde_address cr3 vaddr) ≡ (m, ok pde)
  pub pde_present : has_bit pde 0 ≡ true
  pub pte_read : read32 io m (pte_address pde vaddr) ≡ (m, ok pte)
  pub pte_present : has_bit pte 0 ≡ true
  pub entry : e ≡ entry_of pde pte

-- The walk of one address of a page is the walk of any other.
pub same-IsWalk :
    {D : Type 0} (io : Devices D) (m : Memory D) (cr3 v w : ℕ) (e : TlbEntry)
    → page_of v ≡ page_of w
    → IsWalk io m cr3 v e
    → IsWalk io m cr3 w e
same-IsWalk io m cr3 v w e same k =
    let d : pde_address cr3 v ≡ pde_address cr3 w =
      ap (λ x. add32 (cr3 / 2 ^ 12 * 2 ^ 12) (x % 2 ^ 10 * 4)) (same_directory v w same) in
    let t : pte_address k.pde v ≡ pte_address k.pde w =
      ap (λ x. add32 (k.pde / 2 ^ 12 * 2 ^ 12) (x % 2 ^ 10 * 4)) same in
    record {
      pde = k.pde;
      pte = k.pte;
      pde_read = subst (λ a. read32 io m a ≡ (m, ok k.pde)) d k.pde_read;
      pde_present = k.pde_present;
      pte_read = subst (λ a. read32 io m a ≡ (m, ok k.pte)) t k.pte_read;
      pte_present = k.pte_present;
      entry = k.entry;
    }

-- Two outcomes that agree but for the cache.
pub record Agree {D : Type 0} {A : Type 0} (x y : VirtualMemory D × Result A) : Type 0 where
  pub result : x.1 ≡ y.1
  pub memory : x.0.physical ≡ y.0.physical
  pub page_fault : x.0.last_page_fault ≡ y.0.last_page_fault
  pub cr0 : x.0.cr0 ≡ y.0.cr0
  pub cr3 : x.0.cr3 ≡ y.0.cr3
  pub cpl : x.0.cpl ≡ y.0.cpl

-- A state with another cache.
abbrev pub with_tlb : {D : Type 0} → VirtualMemory D → List (ℕ × TlbEntry) → VirtualMemory D
with_tlb s es = record s { tlb = es }

pub agrees :
    {D : Type 0} {A : Type 0} (x : VirtualMemory D × Result A) (es : List (ℕ × TlbEntry))
    → Agree x (with_tlb x.0 es, x.1)
agrees x es = record {
  result = refl;
  memory = refl;
  page_fault = refl;
  cr0 = refl;
  cr3 = refl;
  cpl = refl;
}

module _ {D : Type 0} (vaddr : ℕ) (t : VirtualAccessType) where
  fault-Agree :
      (s : VirtualMemory D) (es : List (ℕ × TlbEntry)) (code : ℕ)
      → Agree (fault s vaddr code t) (fault (with_tlb s es) vaddr code t)
  unfolding fault
  fault-Agree s es code = agrees (fault s vaddr code t) es

  enter_entry-Agree :
      (s : VirtualMemory D) (es : List (ℕ × TlbEntry)) (e : TlbEntry)
      → Agree (enter_entry s vaddr t e) (enter_entry (with_tlb s es) vaddr t e)
  unfolding enter_entry refusal is_write_protect
  enter_entry-Agree s es e = elim (Option-cases (refusal s t e.user_accessible e.writable)) [
    | inl f ↦
        rw (f, enter_entry)
          (agrees
            (
              with_tlb s ((page_of vaddr, e) ∷ erase_entry (page_of vaddr) s.tlb),
              ok (translated e vaddr),
            )
            ((page_of vaddr, e) ∷ erase_entry (page_of vaddr) es))
    | inr (code, f) ↦ rw (f, enter_entry) (fault-Agree s es code)
  ]

  -- A cached translation has the outcome of a fresh one.
  pub use_entry-Agree :
      (s : VirtualMemory D) (es : List (ℕ × TlbEntry)) (e : TlbEntry)
      → Agree (use_entry s vaddr t e) (enter_entry (with_tlb s es) vaddr t e)
  unfolding enter_entry use_entry refusal is_write_protect
  use_entry-Agree s es e = elim (Option-cases (refusal s t e.user_accessible e.writable)) [
    | inl f ↦ rw (f, enter_entry, use_entry) (agrees (s, ok (translated e vaddr)) _)
    | inr (code, f) ↦ rw (f, enter_entry, use_entry) (fault-Agree s es code)
  ]

  module _ (io : Devices D) where
    walk_table-Agree :
        (s : VirtualMemory D) (es : List (ℕ × TlbEntry)) (pde : ℕ)
        → Agree (walk_table io s vaddr t pde) (walk_table io (with_tlb s es) vaddr t pde)
    unfolding walk_table
    walk_table-Agree s es pde =
        let m = (read32 io s.physical (pte_address pde vaddr)).0 in
        elim (Result-cases (read32 io s.physical (pte_address pde vaddr)).1) [
          | inr (x, f) ↦ rw (f, walk_table) (agrees (record s { physical = m }, err x) es)
          | inl (pte, f) ↦ elim (Bool-cases (has_bit pte 0)) [
            | inr p ↦ rw (f, p, walk_table) (fault-Agree (record s { physical = m }) es _)
            | inl p ↦
                rw (f, p, walk_table)
                  (enter_entry-Agree (record s { physical = m }) es (entry_of pde pte))
          ]
        ]

    -- The walk does not depend on the cache.
    pub walk-Agree :
        (s : VirtualMemory D) (es : List (ℕ × TlbEntry))
        → Agree (walk io s vaddr t) (walk io (with_tlb s es) vaddr t)
    unfolding walk
    walk-Agree s es =
        let m = (read32 io s.physical (pde_address s.cr3 vaddr)).0 in
        elim (Result-cases (read32 io s.physical (pde_address s.cr3 vaddr)).1) [
          | inr (x, f) ↦ rw (f, walk) (agrees (record s { physical = m }, err x) es)
          | inl (pde, f) ↦ elim (Bool-cases (has_bit pde 0)) [
            | inr p ↦ rw (f, p, walk) (fault-Agree (record s { physical = m }) es _)
            | inl p ↦ rw (f, p, walk) (walk_table-Agree (record s { physical = m }) es pde)
          ]
        ]
