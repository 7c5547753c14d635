-- ===== src/Memory/Virtual/State.antt =====
-- libs/memory/include/xblob/memory/virtual_memory.hpp and the calls of virtual_memory.cpp that set up
-- the state: the control registers, the cache and the last fault.
use Prim.Native.Nat.{bit_xor}
use xblob_emulator.Memory.AddressSpace.{Memory}
use xblob_emulator.Common.{access_violation, Result, fail_at}
use xblob_emulator.Prelude.{
  ℕ, ◌+◌, ◌/◌, ◌%◌, ◌^◌, Bool, true, false, Option, none, some, List, [], ◌∷◌, ◌==◌, if◌then◌else◌,
}

pub data VirtualAccessType : Type 0 where
  read_access write_access execute_access : VirtualAccessType

abbrev pub is_write_access : VirtualAccessType → Bool
is_write_access read_access = false
is_write_access write_access = true
is_write_access execute_access = false

abbrev pub is_execute_access : VirtualAccessType → Bool
is_execute_access read_access = false
is_execute_access write_access = false
is_execute_access execute_access = true

pub record PageFault : Type 0 where
  pub fault_address : ℕ
  pub error_code : ℕ
  pub access_type : VirtualAccessType
  pub cpl : ℕ

pub record TranslationResult : Type 0 where
  pub physical_address : ℕ
  pub effective_permissions : ℕ

pub record TlbEntry : Type 0 where
  pub physical_page : ℕ
  pub effective_permissions : ℕ
  pub user_accessible : Bool
  pub writable : Bool

pub record VirtualMemory (D : Type 0) : Type 0 where
  pub physical : Memory D
  pub cr0 : ℕ
  pub cr3 : ℕ
  pub cpl : ℕ
  pub last_page_fault : Option PageFault
  pub tlb : List (ℕ × TlbEntry)

-- Bit `k` of a word.
abbrev pub has_bit : ℕ → ℕ → Bool
has_bit x k = x / 2 ^ k % 2 == 1

unfoldable pub virtual_memory : {D : Type 0} → Memory D → VirtualMemory D
virtual_memory m = record {
  physical = m;
  cr0 = 0;
  cr3 = 0;
  cpl = 0;
  last_page_fault = none;
  tlb = [];
}

unfoldable pub is_paging_enabled : {D : Type 0} → VirtualMemory D → Bool
is_paging_enabled s = has_bit s.cr0 31

unfoldable pub is_write_protect : {D : Type 0} → VirtualMemory D → Bool
is_write_protect s = has_bit s.cr0 16

unfoldable pub invalidate_all : {D : Type 0} → VirtualMemory D → VirtualMemory D
invalidate_all s = record s { tlb = [] }

-- A change of the paging bit empties the cache.
unfoldable pub set_cr0 : {D : Type 0} → VirtualMemory D → ℕ → VirtualMemory D
set_cr0 s cr0 =
    if has_bit (bit_xor s.cr0 cr0) 31
    then invalidate_all (record s { cr0 = cr0 })
    else record s { cr0 = cr0 }

unfoldable pub set_cr3 : {D : Type 0} → VirtualMemory D → ℕ → VirtualMemory D
set_cr3 s cr3 = invalidate_all (record s { cr3 = cr3 })

unfoldable pub set_cpl : {D : Type 0} → VirtualMemory D → ℕ → VirtualMemory D
set_cpl s cpl = record s { cpl = cpl }

unfoldable pub find_entry : ℕ → List (ℕ × TlbEntry) → Option TlbEntry
find_entry page [] = none
find_entry page ((key, e) ∷ es) = if key == page then some e else find_entry page es

unfoldable pub erase_entry : ℕ → List (ℕ × TlbEntry) → List (ℕ × TlbEntry)
erase_entry page [] = []
erase_entry page ((key, e) ∷ es) =
    if key == page then erase_entry page es else (key, e) ∷ erase_entry page es

abbrev pub page_of : ℕ → ℕ
page_of vaddr = vaddr / 2 ^ 12

unfoldable pub invalidate_translation : {D : Type 0} → VirtualMemory D → ℕ → VirtualMemory D
invalidate_translation s vaddr = record s { tlb = erase_entry (page_of vaddr) s.tlb }

-- `RecordFault` and the error returned with it.
unfoldable pub fault :
    {D : Type 0}
    → VirtualMemory D
    → ℕ
    → ℕ
    → VirtualAccessType
    → VirtualMemory D × Result TranslationResult
fault s vaddr code access_type = (
  record s {
    last_page_fault = some (record {
      fault_address = vaddr;
      error_code = code;
      access_type = access_type;
      cpl = s.cpl;
    });
  },
  fail_at access_violation vaddr,
)

-- The bits that say what was tried; a present page adds 1.
abbrev pub access_bits : VirtualAccessType → Bool → ℕ
access_bits access_type user =
    (if is_write_access access_type then 2 else 0)
    + ((if user then 4 else 0) + (if is_execute_access access_type then 16 else 0))
