-- ===== src/Memory/Virtual/Access.antt =====
-- Reads, writes and fetches at virtual addresses. Words that cross a page are read byte by byte, and
-- written after all their bytes have been translated.
pub mod Gentle
pub mod Transaction
use xblob_emulator.Memory.Virtual.{
  read_access, write_access, execute_access, VirtualMemory, translate,
}
use xblob_emulator.Memory.AddressSpace.{
  Devices, Memory, fetch8, read8, read16, read32, write8, write16, write32,
}
use xblob_emulator.Common.{Result, ok, err}
use xblob_emulator.Prelude.{
  ℕ, zero, suc, ◌+◌, ◌*◌, ◌/◌, ◌%◌, ◌^◌, List, [], ◌∷◌, leb, if◌then◌else◌, length, add32,
}

-- `if (!r) return r.error();` where the state goes on.
abbrev pub and_then :
    {D : Type 0} {A B : Type 0}
    → VirtualMemory D × Result A
    → (VirtualMemory D → A → VirtualMemory D × Result B)
    → VirtualMemory D × Result B
and_then x k = elim x.1 [ err e ↦ (x.0, err e) | ok a ↦ k x.0 a ]

-- A call of the physical memory.
abbrev pub on_physical :
    {D : Type 0} {A : Type 0} → VirtualMemory D → Memory D × Result A → VirtualMemory D × Result A
on_physical s x = (record s { physical = x.0 }, x.1)

module _ {D : Type 0} (io : Devices D) where
  unfoldable pub virtual_read8 : VirtualMemory D → ℕ → VirtualMemory D × Result ℕ
  virtual_read8 s vaddr =
      and_then (translate io s vaddr read_access)
        λ s t. on_physical s (read8 io s.physical t.physical_address)

  unfoldable pub virtual_read16 : VirtualMemory D → ℕ → VirtualMemory D × Result ℕ
  virtual_read16 s vaddr =
      if leb (vaddr % 2 ^ 12) 0xFFE
      then and_then (translate io s vaddr read_access)
          (λ s t. on_physical s (read16 io s.physical t.physical_address))
      else and_then (virtual_read8 s vaddr)
          λ s b0. and_then (virtual_read8 s (add32 vaddr 1)) λ s b1. (s, ok (b0 + b1 * 2 ^ 8))

  unfoldable pub virtual_read32 : VirtualMemory D → ℕ → VirtualMemory D × Result ℕ
  virtual_read32 s vaddr =
      if leb (vaddr % 2 ^ 12) 0xFFC
      then and_then (translate io s vaddr read_access)
          (λ s t. on_physical s (read32 io s.physical t.physical_address))
      else and_then (virtual_read8 s vaddr) λ s b0.
        and_then (virtual_read8 s (add32 vaddr 1)) λ s b1.
          and_then (virtual_read8 s (add32 vaddr 2)) λ s b2.
            and_then (virtual_read8 s (add32 vaddr 3))
              λ s b3. (s, ok (b0 + b1 * 2 ^ 8 + b2 * 2 ^ 16 + b3 * 2 ^ 24))

  unfoldable pub virtual_write8 : VirtualMemory D → ℕ → ℕ → VirtualMemory D × Result (Unit {0})
  virtual_write8 s vaddr value =
      and_then (translate io s vaddr write_access)
        λ s t. on_physical s (write8 io s.physical t.physical_address value)

  unfoldable pub virtual_write16 : VirtualMemory D → ℕ → ℕ → VirtualMemory D × Result (Unit {0})
  virtual_write16 s vaddr value =
      if leb (vaddr % 2 ^ 12) 0xFFE
      then and_then (translate io s vaddr write_access)
          (λ s t. on_physical s (write16 io s.physical t.physical_address value))
      else and_then (translate io s vaddr write_access) λ s t0.
        and_then (translate io s (add32 vaddr 1) write_access) λ s t1.
          and_then (on_physical s (write8 io s.physical t0.physical_address (value % 2 ^ 8)))
            λ s done.
              on_physical s (write8 io s.physical t1.physical_address (value / 2 ^ 8 % 2 ^ 8))

  -- The translations of `count` addresses from `vaddr + i` on.
  unfoldable pub translate_each : VirtualMemory D → ℕ → ℕ → ℕ → VirtualMemory D × Result (List ℕ)
  translate_each s vaddr i zero = (s, ok [])
  translate_each s vaddr i (suc count) =
      and_then (translate io s (add32 vaddr i) write_access) λ s t.
        and_then (translate_each s vaddr (i + 1) count)
          λ s rest. (s, ok (t.physical_address ∷ rest))

  -- Bytes written to physical addresses, up to the first that fails.
  unfoldable pub write_each :
      VirtualMemory D → List ℕ → List ℕ → VirtualMemory D × Result (Unit {0})
  write_each s [] bytes = (s, ok tt)
  write_each s (p ∷ ps) [] = (s, ok tt)
  write_each s (p ∷ ps) (b ∷ bs) =
      and_then (on_physical s (write8 io s.physical p b)) λ s done. write_each s ps bs

  abbrev pub bytes_of : ℕ → List ℕ
  bytes_of value =
      (value % 2 ^ 8)
      ∷ (value / 2 ^ 8 % 2 ^ 8)
      ∷ (value / 2 ^ 16 % 2 ^ 8)
      ∷ (value / 2 ^ 24 % 2 ^ 8)
      ∷ []

  unfoldable pub virtual_write32 : VirtualMemory D → ℕ → ℕ → VirtualMemory D × Result (Unit {0})
  virtual_write32 s vaddr value =
      if leb (vaddr % 2 ^ 12) 0xFFC
      then and_then (translate io s vaddr write_access)
          (λ s t. on_physical s (write32 io s.physical t.physical_address value))
      else and_then (translate_each s vaddr 0 4) λ s ps. write_each s ps (bytes_of value)

  unfoldable pub virtual_fetch8 : VirtualMemory D → ℕ → VirtualMemory D × Result ℕ
  virtual_fetch8 s vaddr =
      and_then (translate io s vaddr execute_access)
        λ s t. (s, fetch8 s.physical t.physical_address)

  unfoldable pub virtual_fetch_bytes :
      VirtualMemory D → ℕ → ℕ → ℕ → VirtualMemory D × Result (List ℕ)
  virtual_fetch_bytes s vaddr i zero = (s, ok [])
  virtual_fetch_bytes s vaddr i (suc count) =
      and_then (virtual_fetch8 s (add32 vaddr i))
        λ s b. and_then (virtual_fetch_bytes s vaddr (i + 1) count) λ s rest. (s, ok (b ∷ rest))

  unfoldable pub virtual_read_bytes :
      VirtualMemory D → ℕ → ℕ → ℕ → VirtualMemory D × Result (List ℕ)
  virtual_read_bytes s vaddr i zero = (s, ok [])
  virtual_read_bytes s vaddr i (suc count) =
      and_then (virtual_read8 s (add32 vaddr i))
        λ s b. and_then (virtual_read_bytes s vaddr (i + 1) count) λ s rest. (s, ok (b ∷ rest))

  -- The second loop of `WriteBytes`.
  unfoldable pub write_loop : VirtualMemory D → ℕ → ℕ → List ℕ → VirtualMemory D × Result (Unit {0})
  write_loop s vaddr i [] = (s, ok tt)
  write_loop s vaddr i (b ∷ bs) =
      and_then (virtual_write8 s (add32 vaddr i) b) λ s done. write_loop s vaddr (i + 1) bs

  -- Both loops: every address is translated before the first byte is written.
  unfoldable pub virtual_write_bytes :
      VirtualMemory D → ℕ → List ℕ → VirtualMemory D × Result (Unit {0})
  virtual_write_bytes s vaddr bytes =
      and_then (translate_each s vaddr 0 (length bytes)) λ s ps. write_loop s vaddr 0 bytes
