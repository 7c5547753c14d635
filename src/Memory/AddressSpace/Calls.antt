-- ===== src/Memory/AddressSpace/Calls.antt =====
-- The calls that change the memory as steps, and what each of them keeps.
use xblob_emulator.Memory.Region.{
  perm_read, perm_write, Ram, store_byte, ram_write8, store_bytes, MmioHandler, RegionType, ram,
  mmio, Region,
}
use xblob_emulator.Memory.AddressSpace.{
  Devices, Memory, put_ram, map_ram, map_mmio, resolve_region, ram_place, store16, store32,
  write_bytes, mmio_read, mmio_write, read8, read16, read32, write8, write16, write32,
}
use xblob_emulator.Memory.AddressSpace.Mapped.{
  IsRegion, IsMapped, map_ram-IsMapped, map_mmio-IsMapped,
}
use xblob_emulator.Common.{Result-cases}
use xblob_emulator.Prelude.{
  ℕ, ◌+◌, ◌%◌, ◌<◌, ◌≡◌, refl, sym, ap, ◌∙◌, ◌⊎◌, inl, inr, List, [], ◌∷◌, arith, ◌==◌, Bool-cases,
  Option-cases, length, All, u32_mod,
}

pub data Op : Type 0 where
  maps_ram : ℕ → ℕ → ℕ → ℕ → ℕ → Op
  maps_mmio : ℕ → ℕ → MmioHandler → ℕ → Op
  reads8 reads16 reads32 : ℕ → Op
  writes8 writes16 writes32 : ℕ → ℕ → Op
  copies : ℕ → List ℕ → Op

-- A size is a 32-bit number.
abbrev pub IsSized : Op → Type 0
IsSized (maps_ram base size index ram_offset perms) = size < u32_mod
IsSized (maps_mmio base size handler perms) = size < u32_mod
IsSized _ = Unit {0}

abbrev SameSizes : (ℕ → Ram) → (ℕ → Ram) → Type 0
SameSizes rams rams' = (i : ℕ) → (rams' i).size ≡ (rams i).size

regions_kept :
    (rams rams' : ℕ → Ram) (rs : List Region)
    → SameSizes rams rams'
    → All (IsRegion rams) rs
    → All (IsRegion rams') rs
regions_kept rams rams' [] k h = tt
regions_kept rams rams' (r ∷ rs) k h = (
  record {
    inhabited = h.0.inhabited;
    bounded = h.0.bounded;
    backed = λ t. let b = h.0.backed t in omega (arith, k r.ram_index);
  },
  regions_kept rams rams' rs k h.1,
)

put_ram-IsMapped :
    {D : Type 0} (m : Memory D) (i : ℕ) (t : Ram)
    → t.size ≡ (m.rams i).size
    → IsMapped m
    → IsMapped (put_ram m i t)
put_ram-IsMapped m i t e v =
    let same : SameSizes m.rams (put_ram m i t).rams = λ j. put_size m i j t e in
    record {
      regions = regions_kept m.rams (put_ram m i t).rams m.regions same v.regions;
      sorted = v.sorted;
    }
  where
    put_size :
        {D : Type 0} (m : Memory D) (i j : ℕ) (t : Ram)
        → t.size ≡ (m.rams i).size
        → ((put_ram m i t).rams j).size ≡ (m.rams j).size
    put_size m i j t e = elim (Bool-cases (j == i)) [
      | inl k ↦ let same : j ≡ i = ground arith in rw k (e ∙ ap (λ x. (m.rams x).size) (sym same))
      | inr k ↦ rw k
    ]

store_bytes_size : (t : Ram) (i : ℕ) (bs : List ℕ) → (store_bytes t i bs).size ≡ t.size
unfolding store_bytes store_byte
store_bytes_size t i [] = refl
store_bytes_size t i (b ∷ bs) = store_bytes_size (store_byte t i b) (i + 1) bs

ram_write8_size : (t : Ram) (i v : ℕ) → (ram_write8 t i v).0.size ≡ t.size
unfolding ram_write8 store_byte
ram_write8_size t i v = ground arith

type_cases : (t : RegionType) → (t ≡ ram) ⊎ (t ≡ mmio)
type_cases ram = inl refl
type_cases mmio = inr refl

module _ {D : Type 0} (io : Devices D) where
  unfoldable pub step : Memory D → Op → Memory D
  step m (maps_ram base size index ram_offset perms) =
      (map_ram m base size index ram_offset perms).0
  step m (maps_mmio base size handler perms) = (map_mmio m base size handler perms).0
  step m (reads8 addr) = (read8 io m addr).0
  step m (reads16 addr) = (read16 io m addr).0
  step m (reads32 addr) = (read32 io m addr).0
  step m (writes8 addr value) = (write8 io m addr value).0
  step m (writes16 addr value) = (write16 io m addr value).0
  step m (writes32 addr value) = (write32 io m addr value).0
  step m (copies addr bytes) = (write_bytes m addr bytes).0

  devices-IsMapped : (m : Memory D) (d : D) → IsMapped m → IsMapped (record m { devices = d })
  devices-IsMapped m d v = record { regions = v.regions; sorted = v.sorted }

  mmio_read-IsMapped :
      (m : Memory D) (r : Region) (addr width : ℕ)
      → IsMapped m
      → IsMapped (mmio_read io m r addr width).0
  unfolding mmio_read
  mmio_read-IsMapped m r addr width v = elim (Option-cases r.mmio_handler) [
    | inl e ↦ rw (e, mmio_read) v
    | inr (h, e) ↦ elim (Bool-cases h.has_read) [
      | inl k ↦ rw (e, k, mmio_read) (devices-IsMapped m _ v)
      | inr k ↦ rw (e, k, mmio_read) v
    ]
  ]

  mmio_write-IsMapped :
      (m : Memory D) (r : Region) (addr width value : ℕ)
      → IsMapped m
      → IsMapped (mmio_write io m r addr width value).0
  unfolding mmio_write
  mmio_write-IsMapped m r addr width value v = elim (Option-cases r.mmio_handler) [
    | inl e ↦ rw (e, mmio_write) v
    | inr (h, e) ↦ elim (Bool-cases h.has_write) [
      | inl k ↦ rw (e, k, mmio_write) (devices-IsMapped m _ v)
      | inr k ↦ rw (e, k, mmio_write) v
    ]
  ]

  read8-IsMapped : (m : Memory D) (addr : ℕ) → IsMapped m → IsMapped (read8 io m addr).0
  unfolding read8
  read8-IsMapped m addr v = elim (Result-cases (resolve_region m.regions addr 1 perm_read)) [
    | inr (e, f) ↦ rw (f, read8) v
    | inl (r, f) ↦ elim (type_cases r.type) [
      | inl t ↦ rw (f, t, read8) v
      | inr t ↦ rw (f, t, read8) (mmio_read-IsMapped m r addr 1 v)
    ]
  ]

  write8-IsMapped :
      (m : Memory D) (addr value : ℕ) → IsMapped m → IsMapped (write8 io m addr value).0
  unfolding write8
  write8-IsMapped m addr value v =
      elim (Result-cases (resolve_region m.regions addr 1 perm_write)) [
        | inr (e, f) ↦ rw (f, write8) v
        | inl (r, f) ↦ elim (type_cases r.type) [
          | inl t ↦
              rw (f, t, write8)
                (put_ram-IsMapped m r.ram_index _
                  (ram_write8_size (m.rams r.ram_index) (ram_place r addr) value) v)
          | inr t ↦ rw (f, t, write8) (mmio_write-IsMapped m r addr 1 value v)
        ]
      ]

  read16-IsMapped : (m : Memory D) (addr : ℕ) → IsMapped m → IsMapped (read16 io m addr).0
  unfolding read16
  read16-IsMapped m addr v = elim (Result-cases (resolve_region m.regions addr 2 perm_read)) [
    | inr (e, f) ↦ rw (f, read16) v
    | inl (r, f) ↦ elim (type_cases r.type) [
      | inl t ↦ rw (f, t, read16) v
      | inr t ↦ rw (f, t, read16) (mmio_read-IsMapped m r addr 2 v)
    ]
  ]

  write16-IsMapped :
      (m : Memory D) (addr value : ℕ) → IsMapped m → IsMapped (write16 io m addr value).0
  unfolding write16 store16 store_byte
  write16-IsMapped m addr value v =
      elim (Result-cases (resolve_region m.regions addr 2 perm_write)) [
        | inr (e, f) ↦ rw (f, write16) v
        | inl (r, f) ↦ elim (type_cases r.type) [
          | inl t ↦ rw (f, t, write16) (put_ram-IsMapped m r.ram_index _ refl v)
          | inr t ↦ rw (f, t, write16) (mmio_write-IsMapped m r addr 2 value v)
        ]
      ]

  read32-IsMapped : (m : Memory D) (addr : ℕ) → IsMapped m → IsMapped (read32 io m addr).0
  unfolding read32
  read32-IsMapped m addr v = elim (Result-cases (resolve_region m.regions addr 4 perm_read)) [
    | inr (e, f) ↦ rw (f, read32) v
    | inl (r, f) ↦ elim (type_cases r.type) [
      | inl t ↦ rw (f, t, read32) v
      | inr t ↦ rw (f, t, read32) (mmio_read-IsMapped m r addr 4 v)
    ]
  ]

  write32-IsMapped :
      (m : Memory D) (addr value : ℕ) → IsMapped m → IsMapped (write32 io m addr value).0
  unfolding write32 store32 store_byte
  write32-IsMapped m addr value v =
      elim (Result-cases (resolve_region m.regions addr 4 perm_write)) [
        | inr (e, f) ↦ rw (f, write32) v
        | inl (r, f) ↦ elim (type_cases r.type) [
          | inl t ↦ rw (f, t, write32) (put_ram-IsMapped m r.ram_index _ refl v)
          | inr t ↦ rw (f, t, write32) (mmio_write-IsMapped m r addr 4 value v)
        ]
      ]

  write_bytes-IsMapped :
      (m : Memory D) (addr : ℕ) (bytes : List ℕ)
      → IsMapped m
      → IsMapped (write_bytes m addr bytes).0
  unfolding write_bytes
  write_bytes-IsMapped m addr [] v = v
  write_bytes-IsMapped m addr (b ∷ bs) v =
      elim (Result-cases (resolve_region m.regions addr (length (b ∷ bs) % u32_mod) perm_write)) [
        | inr (e, f) ↦ rw (f, write_bytes) v
        | inl (r, f) ↦ elim (type_cases r.type) [
          | inl t ↦
              rw (f, t, write_bytes)
                (put_ram-IsMapped m r.ram_index _
                  (store_bytes_size (m.rams r.ram_index) (ram_place r addr) (b ∷ bs)) v)
          | inr t ↦ rw (f, t, write_bytes) v
        ]
      ]

  -- Every call keeps the map well formed, for any devices and whether or not the call succeeds:
  -- regions are in order, share no address, are not empty and end within 32 bits, and a RAM region
  -- lies within its RAM. Sizes are 32-bit numbers.
  pub step-IsMapped : (m : Memory D) (o : Op) → IsSized o → IsMapped m → IsMapped (step m o)
  unfolding step
  step-IsMapped m (maps_ram base size index ram_offset perms) small v =
      map_ram-IsMapped m base size index ram_offset perms small v
  step-IsMapped m (maps_mmio base size handler perms) small v =
      map_mmio-IsMapped m base size handler perms small v
  step-IsMapped m (reads8 addr) small v = read8-IsMapped m addr v
  step-IsMapped m (reads16 addr) small v = read16-IsMapped m addr v
  step-IsMapped m (reads32 addr) small v = read32-IsMapped m addr v
  step-IsMapped m (writes8 addr value) small v = write8-IsMapped m addr value v
  step-IsMapped m (writes16 addr value) small v = write16-IsMapped m addr value v
  step-IsMapped m (writes32 addr value) small v = write32-IsMapped m addr value v
  step-IsMapped m (copies addr bytes) small v = write_bytes-IsMapped m addr bytes v
