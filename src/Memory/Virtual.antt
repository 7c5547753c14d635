-- ===== src/Memory/Virtual.antt =====
-- libs/memory/include/xblob/memory/virtual_memory.hpp and libs/memory/src/virtual_memory.cpp: the
-- translation of virtual addresses through the guest's page tables, with a cache of translations
-- (`tlb_`, an association list). The physical memory that the source refers to is a field. A flag is
-- a bit of a word, written as a quotient and a remainder, and `|` of distinct bits is a sum.
mod State
pub mod Walk
pub mod Coherent
pub mod Calls
pub mod Access
pub mod Runs
mod Tests
unfoldable pub use State.*
use xblob_emulator.Memory.AddressSpace.{read32, Devices}
use xblob_emulator.Memory.Region.{perm_all}
use xblob_emulator.Common.{Result, ok, err}
use xblob_emulator.Memory.Virtual.State.{
  VirtualAccessType, is_write_access, TranslationResult, TlbEntry, VirtualMemory, has_bit,
  is_paging_enabled, is_write_protect, find_entry, erase_entry, page_of, fault, access_bits,
}
use xblob_emulator.Prelude.{
  ℕ, ◌+◌, ◌*◌, ◌/◌, ◌%◌, ◌^◌, Bool, true, not, ◌&&◌, Option, none, some, ◌∷◌, ◌==◌, if◌then◌else◌,
  add32,
}

-- The checks of privilege, the same for a cached translation and a fresh one: the code of the fault,
-- if the access is refused.
unfoldable pub refusal : {D : Type 0} → VirtualMemory D → VirtualAccessType → Bool → Bool → Option ℕ
refusal s access_type user_accessible writable =
    if s.cpl == 3
    then if not user_accessible
      then some (1 + access_bits access_type true)
      else if is_write_access access_type && not writable
      then some 7
      else none
    else if is_write_access access_type && (is_write_protect s && not writable)
    then some 3
    else none

abbrev pub translated : TlbEntry → ℕ → TranslationResult
translated e vaddr = record {
  physical_address = e.physical_page * 2 ^ 12 + vaddr % 2 ^ 12;
  effective_permissions = e.effective_permissions;
}

-- A cached translation.
unfoldable pub use_entry :
    {D : Type 0}
    → VirtualMemory D
    → ℕ
    → VirtualAccessType
    → TlbEntry
    → VirtualMemory D × Result TranslationResult
use_entry s vaddr access_type e = elim (refusal s access_type e.user_accessible e.writable) [
  | some code ↦ fault s vaddr code access_type
  | none ↦ (s, ok (translated e vaddr))
]

-- What the entries of the directory and of the table say together.
unfoldable pub entry_of : ℕ → ℕ → TlbEntry
entry_of pde pte =
    let writable = has_bit pde 1 && has_bit pte 1 in
    record {
      physical_page = pte / 2 ^ 12;
      effective_permissions = if writable then 7 else 5;
      user_accessible = has_bit pde 2 && has_bit pte 2;
      writable = writable;
    }

-- A fresh translation, which enters the cache if it is not refused.
unfoldable pub enter_entry :
    {D : Type 0}
    → VirtualMemory D
    → ℕ
    → VirtualAccessType
    → TlbEntry
    → VirtualMemory D × Result TranslationResult
enter_entry s vaddr access_type e = elim (refusal s access_type e.user_accessible e.writable) [
  | some code ↦ fault s vaddr code access_type
  | none ↦ (
    record s { tlb = (page_of vaddr, e) ∷ erase_entry (page_of vaddr) s.tlb },
    ok (translated e vaddr),
  )
]

abbrev pub pde_address : ℕ → ℕ → ℕ
pde_address cr3 vaddr = add32 (cr3 / 2 ^ 12 * 2 ^ 12) (vaddr / 2 ^ 22 % 2 ^ 10 * 4)

abbrev pub pte_address : ℕ → ℕ → ℕ
pte_address pde vaddr = add32 (pde / 2 ^ 12 * 2 ^ 12) (vaddr / 2 ^ 12 % 2 ^ 10 * 4)

module _ {D : Type 0} (io : Devices D) where
  -- The second step of the walk, with the entry of the directory.
  unfoldable pub walk_table :
      VirtualMemory D → ℕ → VirtualAccessType → ℕ → VirtualMemory D × Result TranslationResult
  walk_table s vaddr access_type pde =
      let (m, r) = read32 io s.physical (pte_address pde vaddr) in
      let s' : VirtualMemory D = record s { physical = m } in
      elim r [
        | err e ↦ (s', err e)
        | ok pte ↦
            if not (has_bit pte 0)
            then fault s' vaddr (access_bits access_type (s.cpl == 3)) access_type
            else enter_entry s' vaddr access_type (entry_of pde pte)
      ]

  unfoldable pub walk :
      VirtualMemory D → ℕ → VirtualAccessType → VirtualMemory D × Result TranslationResult
  walk s vaddr access_type =
      let (m, r) = read32 io s.physical (pde_address s.cr3 vaddr) in
      let s' : VirtualMemory D = record s { physical = m } in
      elim r [
        | err e ↦ (s', err e)
        | ok pde ↦
            if not (has_bit pde 0)
            then fault s' vaddr (access_bits access_type (s.cpl == 3)) access_type
            else walk_table s' vaddr access_type pde
      ]

  unfoldable pub translate :
      VirtualMemory D → ℕ → VirtualAccessType → VirtualMemory D × Result TranslationResult
  translate s vaddr access_type =
      if not (is_paging_enabled s)
      then (s, ok (record { physical_address = vaddr; effective_permissions = perm_all }))
      else elim (find_entry (page_of vaddr) s.tlb) [
        | some e ↦ use_entry s vaddr access_type e
        | none ↦ walk s vaddr access_type
      ]
