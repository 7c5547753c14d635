-- ===== src/Memory/AddressSpace/Tests.antt =====
-- A map of 64 bytes of RAM at 0x1000 and one device at 0x2000. The theorems at it.
use xblob_emulator.Memory.Region.{
  perm_write, has_permission, load_byte, in_ram, MmioHandler, ram, Region, contains_range, overlaps,
}
use xblob_emulator.Memory.AddressSpace.{
  Devices, Memory, insert_region, sort_regions, overlaps_any, in_space, map_ram, map_mmio,
  find_region, resolve_region, ram_place, mmio_read, read32, write32,
}
use xblob_emulator.Memory.AddressSpace.Mapped.{IsMapped, map_ram-IsMapped, map_mmio-IsMapped}
use xblob_emulator.Memory.AddressSpace.Resolve.{IsIn, Serves, resolve_region_lem}
use xblob_emulator.Memory.AddressSpace.Words.{read32-write32}
use xblob_emulator.Memory.AddressSpace.Calls.{maps_ram, maps_mmio, writes32, step, step-IsMapped}
use xblob_emulator.Common.{region_overlap, ok, fail_at}
use xblob_emulator.Common.SafeMath.{checked_add}
use xblob_emulator.Prelude.{
  ℕ, ◌+◌, ◌≤◌, ◌<◌, ◌≡◌, refl, ◌≢◌, ◌↔◌, ◌⊎◌, true, false, none, [], arith,
}

-- A device that counts its reads and keeps what is written.
abbrev counter : Devices ℕ
counter = record {
  read = λ device d offset width. (d + 1, ok d);
  write = λ device d offset width value. (value, ok tt);
}

abbrev no_regions : Memory ℕ
no_regions = record { regions = []; rams = λ i. record { size = 64; byte = λ j. 0 }; devices = 0 }

abbrev handler : MmioHandler
handler = record { device = 0; has_read = true; has_write = false }

-- The device is mapped first; the map is sorted afterwards.
abbrev both : Memory ℕ
both =
    step counter (step counter no_regions (maps_mmio 0x2000 16 handler 7))
      (maps_ram 0x1000 64 0 0 7)

abbrev ram_region : Region
ram_region = record {
  base = 0x1000;
  size = 64;
  permissions = 7;
  type = ram;
  ram_index = 0;
  ram_offset = 0;
  mmio_handler = none;
}

both-IsMapped : IsMapped both
unfolding step
both-IsMapped =
    map_ram-IsMapped (step counter no_regions (maps_mmio 0x2000 16 handler 7)) 0x1000 64 0 0 7
      (omega arith)
      (map_mmio-IsMapped no_regions 0x2000 16 handler 7 (omega arith)
        (record { regions = tt; sorted = tt }))

is_resolved : resolve_region both.regions 0x1004 4 perm_write ≡ ok ram_region
unfolding step map_ram map_mmio overlaps_any overlaps in_space in_ram sort_regions insert_region
    resolve_region find_region contains_range has_permission checked_add
is_resolved = refl

refused_overlap : (map_ram both 0x103F 1 0 0 7).1 ≡ fail_at region_overlap 0x103F
unfolding step map_ram map_mmio overlaps_any overlaps in_space in_ram sort_regions insert_region
    checked_add
refused_overlap = refl

device_read : (read32 counter both 0x2004) ≡ (record both { devices = 1 }, ok 0)
unfolding step map_ram map_mmio overlaps_any overlaps in_space in_ram sort_regions insert_region
    resolve_region find_region contains_range has_permission checked_add read32 mmio_read
device_read = refl

step-IsMapped_example : IsMapped (step counter both (writes32 0x1004 0x12345678))
step-IsMapped_example = step-IsMapped counter both (writes32 0x1004 0x12345678) tt both-IsMapped

resolve_region_lem_example :
    ((resolve_region both.regions 0x1004 4 perm_write ≡ ok ram_region)
      ↔ (IsIn ram_region both.regions × Serves ram_region 0x1004 4 perm_write))
    × (resolve_region both.regions 0x1004 4 perm_write ≡ ok ram_region
        → ram ≡ ram
        → ram_place ram_region 0x1004 + 4 ≤ (both.rams 0).size)
resolve_region_lem_example =
    resolve_region_lem both ram_region 0x1004 4 perm_write both-IsMapped (omega arith) (omega arith)
      (omega arith)

read32-write32_example :
    let (m', done) = write32 counter both 0x1004 0x12345678 in
    (done ≡ ok tt)
    × (read32 counter m' 0x1004 ≡ (m', ok 0x12345678))
    × (m'.regions ≡ both.regions)
    × (m'.devices ≡ both.devices)
    × ((i j : ℕ)
        → (i ≢ 0) ⊎ ((j < ram_place ram_region 0x1004) ⊎ (ram_place ram_region 0x1004 + 4 ≤ j))
        → load_byte (m'.rams i) j ≡ load_byte (both.rams i) j)
unfolding has_permission
read32-write32_example =
    read32-write32 counter both ram_region 0x1004 0x12345678 (omega arith) is_resolved refl refl
