-- ===== src/Memory/Region.antt =====
-- libs/memory/include/xblob/memory: permission.hpp, ram.hpp with src/ram.cpp, mmio.hpp and
-- region.hpp. A set of permissions is its bits, a RAM is its size and its bytes, and a region names
-- its RAM and its device by numbers, for the pointer and the callbacks that the source keeps.
mod Tests
use Prim.Native.Nat.{bit_and}
use xblob_emulator.Common.{out_of_bounds, invalid_capacity, Result, ok, fail_at}
use xblob_emulator.Common.SafeMath.{checked_add, u64_max}
use xblob_emulator.Prelude.{
  ℕ, zero, suc, ◌+◌, ◌*◌, Bool, false, not, ◌&&◌, Option, none, some, List, [], ◌∷◌, ltb, leb, ◌==◌,
  if◌then◌else◌, length,
}

-- `MemoryPermission`.
abbrev pub perm_read : ℕ
perm_read = 1

abbrev pub perm_write : ℕ
perm_write = 2

abbrev pub perm_execute : ℕ
perm_execute = 4

abbrev pub perm_all : ℕ
perm_all = 7

unfoldable pub has_permission : ℕ → ℕ → Bool
has_permission perms required = bit_and perms required == required

pub record Ram : Type 0 where
  pub size : ℕ
  pub byte : ℕ → ℕ

abbrev pub ram_size_retail : ℕ
ram_size_retail = 64 * 1024 * 1024

abbrev pub ram_size_devkit : ℕ
ram_size_devkit = 128 * 1024 * 1024

unfoldable pub create_ram : ℕ → Result Ram
create_ram size_bytes =
    if not (size_bytes == ram_size_retail) && not (size_bytes == ram_size_devkit)
    then fail_at invalid_capacity size_bytes
    else ok (record { size = size_bytes; byte = λ i. 0 })

-- `data()[i]`, and the assignment to it.
abbrev pub load_byte : Ram → ℕ → ℕ
load_byte r i = r.byte i

unfoldable pub store_byte : Ram → ℕ → ℕ → Ram
store_byte r i value = record r { byte = λ j. if j == i then value else r.byte j }

unfoldable pub ram_read8 : Ram → ℕ → Result ℕ
ram_read8 r offset =
    if leb r.size offset then fail_at out_of_bounds offset else ok (load_byte r offset)

unfoldable pub ram_write8 : Ram → ℕ → ℕ → Ram × Result (Unit {0})
ram_write8 r offset value =
    if leb r.size offset
    then (r, fail_at out_of_bounds offset)
    else (store_byte r offset value, ok tt)

-- `std::copy` from and to the bytes of a RAM.
unfoldable pub load_bytes : Ram → ℕ → ℕ → List ℕ
load_bytes r offset zero = []
load_bytes r offset (suc count) = load_byte r offset ∷ load_bytes r (offset + 1) count

unfoldable pub store_bytes : Ram → ℕ → List ℕ → Ram
store_bytes r offset [] = r
store_bytes r offset (b ∷ bs) = store_bytes (store_byte r offset b) (offset + 1) bs

unfoldable pub in_ram : Ram → ℕ → ℕ → Bool
in_ram r offset count = elim (checked_add u64_max offset count) [
  | none ↦ false
  | some end ↦ leb end r.size
]

unfoldable pub ram_read_bytes : Ram → ℕ → ℕ → Result (List ℕ)
ram_read_bytes r offset count =
    if in_ram r offset count then ok (load_bytes r offset count) else fail_at out_of_bounds offset

unfoldable pub ram_write_bytes : Ram → ℕ → List ℕ → Ram × Result (Unit {0})
ram_write_bytes r offset bytes =
    if in_ram r offset (length bytes)
    then (store_bytes r offset bytes, ok tt)
    else (r, fail_at out_of_bounds offset)

-- A handler: its device, and which of its two callbacks are set.
pub record MmioHandler : Type 0 where
  pub device : ℕ
  pub has_read : Bool
  pub has_write : Bool

pub data RegionType : Type 0 where
  ram mmio : RegionType

pub record Region : Type 0 where
  pub base : ℕ
  pub size : ℕ
  pub permissions : ℕ
  pub type : RegionType
  pub ram_index : ℕ
  pub ram_offset : ℕ
  pub mmio_handler : Option MmioHandler

abbrev pub region_end : Region → ℕ
region_end r = r.base + r.size

unfoldable pub contains_range : Region → ℕ → ℕ → Bool
contains_range r addr len = leb r.base addr && leb (addr + len) (region_end r)

unfoldable pub overlaps : Region → ℕ → ℕ → Bool
overlaps r other_base other_size =
    ltb r.base (other_base + other_size) && ltb other_base (region_end r)
