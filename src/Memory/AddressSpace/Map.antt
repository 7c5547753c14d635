-- ===== src/Memory/AddressSpace/Map.antt =====
-- libs/memory/src/address_space.cpp, `MapRam`, `MapMmio` and `ResolveRegion`: the regions of the map.
use xblob_emulator.Memory.Region.{
  has_permission, Ram, in_ram, MmioHandler, ram, mmio, Region, region_end, contains_range, overlaps,
}
use xblob_emulator.Common.{
  out_of_bounds, unmapped_address, access_violation, region_overlap, invalid_argument, Result, ok,
  fail_at,
}
use xblob_emulator.Common.SafeMath.{checked_add, u64_max}
use xblob_emulator.Prelude.{
  ℕ, Bool, false, not, ◌&&◌, ◌||◌, none, some, List, [], ◌∷◌, ◌++◌, ltb, leb, ◌==◌, if◌then◌else◌,
  u32_mod,
}

-- What the callbacks of the device with a number do with an offset and a width in bytes.
pub record Devices (D : Type 0) : Type 0 where
  pub read : ℕ → D → ℕ → ℕ → D × Result ℕ
  pub write : ℕ → D → ℕ → ℕ → ℕ → D × Result (Unit {0})

pub record Memory (D : Type 0) : Type 0 where
  pub regions : List Region
  pub rams : ℕ → Ram
  pub devices : D

abbrev pub put_ram : {D : Type 0} → Memory D → ℕ → Ram → Memory D
put_ram m i r = record m { rams = λ j. if j == i then r else m.rams j }

-- `std::sort` by base address; regions that are mapped differ in it.
unfoldable pub insert_region : Region → List Region → List Region
insert_region r [] = r ∷ []
insert_region r (s ∷ rs) = if ltb s.base r.base then s ∷ insert_region r rs else r ∷ s ∷ rs

unfoldable pub sort_regions : List Region → List Region
sort_regions [] = []
sort_regions (r ∷ rs) = insert_region r (sort_regions rs)

unfoldable pub overlaps_any : List Region → ℕ → ℕ → Bool
overlaps_any [] base size = false
overlaps_any (r ∷ rs) base size = overlaps r base size || overlaps_any rs base size

-- Does a range end within 32 bits?
unfoldable pub in_space : ℕ → ℕ → Bool
in_space base size = elim (checked_add u64_max base size) [
  | none ↦ false
  | some end ↦ leb end u32_mod
]

unfoldable pub map_ram : {D : Type 0} → Memory D → ℕ → ℕ → ℕ → ℕ → ℕ → Memory D × Result (Unit {0})
map_ram m base size index ram_offset perms =
    if size == 0
    then (m, fail_at invalid_argument base)
    else if not (in_space base size)
    then (m, fail_at out_of_bounds base)
    else if not (in_ram (m.rams index) ram_offset size)
    then (m, fail_at out_of_bounds ram_offset)
    else if overlaps_any m.regions base size
    then (m, fail_at region_overlap base)
    else let reg : Region = record {
      base = base;
      size = size;
      permissions = perms;
      type = ram;
      ram_index = index;
      ram_offset = ram_offset;
      mmio_handler = none;
    } in
      (record m { regions = sort_regions (m.regions ++ (reg ∷ [])) }, ok tt)

unfoldable pub map_mmio :
    {D : Type 0} → Memory D → ℕ → ℕ → MmioHandler → ℕ → Memory D × Result (Unit {0})
map_mmio m base size handler perms =
    if size == 0
    then (m, fail_at invalid_argument base)
    else if not (in_space base size)
    then (m, fail_at out_of_bounds base)
    else if overlaps_any m.regions base size
    then (m, fail_at region_overlap base)
    else let reg : Region = record {
      base = base;
      size = size;
      permissions = perms;
      type = mmio;
      ram_index = 0;
      ram_offset = 0;
      mmio_handler = some handler;
    } in
      (record m { regions = sort_regions (m.regions ++ (reg ∷ [])) }, ok tt)

-- The loop of `ResolveRegion` and `ResolveRegionMut`: the first region that holds the address.
unfoldable pub find_region : List Region → ℕ → ℕ → ℕ → Result Region
find_region [] addr len perm = fail_at unmapped_address addr
find_region (r ∷ rs) addr len perm =
    if leb r.base addr && ltb addr (region_end r)
    then if not (contains_range r addr len)
      then fail_at out_of_bounds addr
      else if not (has_permission r.permissions perm)
      then fail_at access_violation addr
      else ok r
    else find_region rs addr len perm

unfoldable pub resolve_region : List Region → ℕ → ℕ → ℕ → Result Region
resolve_region rs addr len perm =
    if len == 0
    then fail_at invalid_argument addr
    else if not (in_space addr len)
    then fail_at out_of_bounds addr
    else find_region rs addr len perm
