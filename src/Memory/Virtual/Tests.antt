-- ===== src/Memory/Virtual/Tests.antt =====
-- Page tables that map the page at 0x1000 and not the next. The theorems at them.
use xblob_emulator.Memory.Region.{perm_read, has_permission, Ram, ram, Region, contains_range}
use xblob_emulator.Memory.AddressSpace.{
  Devices, Memory, in_space, find_region, resolve_region, load32, read32,
}
use xblob_emulator.Memory.AddressSpace.Resolve.{found-Serves, resolved_find}
use xblob_emulator.Memory.Virtual.{
  read_access, write_access, TlbEntry, VirtualMemory, virtual_memory, is_paging_enabled,
  invalidate_all, set_cr0, set_cr3, find_entry, erase_entry, fault, refusal, entry_of, enter_entry,
  walk_table, walk, translate,
}
use xblob_emulator.Memory.Virtual.Walk.{Agree}
use xblob_emulator.Memory.Virtual.Coherent.{IsCoherent, IsQuiet}
use xblob_emulator.Memory.Virtual.Calls.{
  Op, sets_cr0, sets_cr3, sets_cpl, invalidates, translates, step,
}
use xblob_emulator.Memory.Virtual.Runs.{run, translate-run}
use xblob_emulator.Memory.Virtual.Access.{virtual_write_bytes}
use xblob_emulator.Memory.Virtual.Access.Transaction.{
  IsRefused, IsUnwritable, virtual_write_bytes-IsRefused,
}
use xblob_emulator.Common.{ok, Result-cases}
use xblob_emulator.Common.SafeMath.{checked_add}
use xblob_emulator.Prelude.{
  ◌≡◌, refl, inl, inr, true, ◌||◌, none, List, [], ◌∷◌, arith, ◌==◌, if◌then◌else◌,
}

abbrev silent : Devices (Unit {0})
silent = record {
  read = λ device d offset width. (d, ok 0);
  write = λ device d offset width value. (d, ok tt);
}

-- The directory at 0x1000 has one entry, for the table at 0x2000, whose entry 1 is the frame at
-- 0x3000.
abbrev tables : Ram
tables = record {
  size = 0x4000;
  byte = λ j.
      if j == 0x1000 || j == 0x2004
      then 7
      else if j == 0x1001
      then 0x20
      else if j == 0x2005
      then 0x30
      else 0;
}

abbrev whole : Region
whole = record {
  base = 0;
  size = 0x4000;
  permissions = 7;
  type = ram;
  ram_index = 0;
  ram_offset = 0;
  mmio_handler = none;
}

abbrev guest : Memory (Unit {0})
guest = record { regions = whole ∷ []; rams = λ i. tables; devices = tt }

abbrev paged : VirtualMemory (Unit {0})
paged = set_cr3 (set_cr0 (virtual_memory guest) 0x80000000) 0x1000

-- Memory without a device is quiet.
guest-IsQuiet : IsQuiet silent guest
unfolding read32
guest-IsQuiet a = elim (Result-cases (resolve_region (whole ∷ []) a 4 perm_read)) [
  | inr (e, f) ↦ rw (f, read32)
  | inl (r, f) ↦
      let find = resolved_find (whole ∷ []) r a 4 perm_read f in
      let (inside, s) = found-Serves (whole ∷ []) r a 4 perm_read find.1 in
      elim inside [ inl e ↦ rw (f, e, read32) | inr bad ↦ absurd bad ]
]

paged-IsCoherent : IsCoherent silent paged
unfolding set_cr3 set_cr0 virtual_memory invalidate_all find_entry
paged-IsCoherent v e at = cc

-- The state after a read at 0x1234, with the page in the cache.
abbrev warm : VirtualMemory (Unit {0})
warm = step silent paged (translates 0x1234 read_access)

abbrev entry : TlbEntry
entry = record {
  physical_page = 3;
  effective_permissions = 7;
  user_accessible = true;
  writable = true;
}

cached : warm.tlb ≡ (1, entry) ∷ []
unfolding step set_cr3 set_cr0 virtual_memory invalidate_all is_paging_enabled translate walk
    walk_table entry_of enter_entry refusal erase_entry find_entry read32 resolve_region find_region
    contains_range has_permission load32 in_space checked_add
cached = refl

abbrev calls : List Op
calls =
    sets_cr0 0x80000000
    ∷ sets_cr3 0x1000
    ∷ translates 0x1234 read_access
    ∷ sets_cpl 3
    ∷ translates 0x2000 write_access
    ∷ invalidates 0x2000
    ∷ []

translate-run_example :
    Agree (translate silent (run silent (virtual_memory guest) calls) 0x1FFC write_access) (
      translate silent
        (invalidate_all (run silent (virtual_memory guest) calls))
        0x1FFC
        write_access)
translate-run_example = translate-run silent guest calls 0x1FFC write_access guest-IsQuiet

-- The second page is not mapped.
missing_page : IsUnwritable silent paged 0x2000
unfolding set_cr3 set_cr0 virtual_memory invalidate_all is_paging_enabled translate walk walk_table
    fault find_entry read32 resolve_region find_region contains_range has_permission load32 in_space
    checked_add
missing_page = (_, refl)

virtual_write_bytes-IsRefused_example :
    IsRefused paged (virtual_write_bytes silent paged 0x1FFF (1 ∷ 2 ∷ []))
unfolding set_cr3 set_cr0 virtual_memory invalidate_all
virtual_write_bytes-IsRefused_example =
    virtual_write_bytes-IsRefused silent paged 0x1FFF (1 ∷ 2 ∷ []) 1 guest-IsQuiet paged-IsCoherent
      (omega arith) missing_page
