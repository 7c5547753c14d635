-- ===== src/Memory/AddressSpace.antt =====
-- libs/memory/include/xblob/memory/address_space.hpp and libs/memory/src/address_space.cpp: the map
-- of the guest's physical addresses. The state holds the regions, the RAMs they name, and the
-- devices, whose callbacks are the parameter `io`: a read may change a device.
mod Map
pub mod Mapped
pub mod Resolve
pub mod Words
pub mod Calls
mod Tests
unfoldable pub use Map.*
use xblob_emulator.Memory.Region.{
  perm_read, perm_write, perm_execute, Ram, load_byte, store_byte, ram_read8, ram_write8,
  load_bytes, store_bytes, ram, mmio, Region,
}
use xblob_emulator.Common.{unsupported_feature, Result, ok, err, fail_at, ◌>>=◌}
use xblob_emulator.Memory.AddressSpace.Map.{Devices, Memory, put_ram, resolve_region}
use xblob_emulator.Prelude.{
  ℕ, ◌+◌, ◌-◌, ◌*◌, ◌/◌, ◌%◌, ◌^◌, none, some, List, [], ◌∷◌, ◌==◌, if◌then◌else◌, length, u32_mod,
}

-- The place of an address of a region in its RAM.
abbrev pub ram_place : Region → ℕ → ℕ
ram_place r addr = r.ram_offset + (addr - r.base)

unfoldable pub load16 : Ram → ℕ → ℕ
load16 r i = load_byte r i + load_byte r (i + 1) * 2 ^ 8

unfoldable pub load32 : Ram → ℕ → ℕ
load32 r i =
    load_byte r i
    + load_byte r (i + 1) * 2 ^ 8
    + load_byte r (i + 2) * 2 ^ 16
    + load_byte r (i + 3) * 2 ^ 24

unfoldable pub store16 : Ram → ℕ → ℕ → Ram
store16 r i value = store_byte (store_byte r i (value % 2 ^ 8)) (i + 1) (value / 2 ^ 8 % 2 ^ 8)

unfoldable pub store32 : Ram → ℕ → ℕ → Ram
store32 r i value =
    let low = store_byte (store_byte r i (value % 2 ^ 8)) (i + 1) (value / 2 ^ 8 % 2 ^ 8) in
    store_byte (store_byte low (i + 2) (value / 2 ^ 16 % 2 ^ 8)) (i + 3) (value / 2 ^ 24 % 2 ^ 8)

-- `ValidateRange`.
unfoldable pub validate_range : List Region → ℕ → ℕ → ℕ → Result (Unit {0})
validate_range rs addr len perm =
    if len == 0
    then ok tt
    else elim (resolve_region rs addr len perm) [ err e ↦ err e | ok r ↦ ok tt ]

-- Instructions are fetched from RAM only.
unfoldable pub fetch8 : {D : Type 0} → Memory D → ℕ → Result ℕ
fetch8 m addr = elim (resolve_region m.regions addr 1 perm_execute) [
  | err e ↦ err e
  | ok r ↦ elim r.type [
    | ram ↦ ram_read8 (m.rams r.ram_index) (ram_place r addr)
    | mmio ↦ fail_at unsupported_feature addr
  ]
]

-- The copies of whole ranges, of `count` bytes; a count is cut to 32 bits where it is resolved.
unfoldable pub copy_bytes : {D : Type 0} → Memory D → ℕ → ℕ → ℕ → Result (List ℕ)
copy_bytes m perm addr count = elim (resolve_region m.regions addr (count % u32_mod) perm) [
  | err e ↦ err e
  | ok r ↦ elim r.type [
    | ram ↦ ok (load_bytes (m.rams r.ram_index) (ram_place r addr) count)
    | mmio ↦ fail_at unsupported_feature addr
  ]
]

unfoldable pub fetch_bytes : {D : Type 0} → Memory D → ℕ → ℕ → Result (List ℕ)
fetch_bytes m addr count = if count == 0 then ok [] else copy_bytes m perm_execute addr count

unfoldable pub read_bytes : {D : Type 0} → Memory D → ℕ → ℕ → Result (List ℕ)
read_bytes m addr count = if count == 0 then ok [] else copy_bytes m perm_read addr count

unfoldable pub write_bytes : {D : Type 0} → Memory D → ℕ → List ℕ → Memory D × Result (Unit {0})
write_bytes m addr [] = (m, ok tt)
write_bytes m addr (b ∷ bs) =
    elim (resolve_region m.regions addr (length (b ∷ bs) % u32_mod) perm_write) [
      | err e ↦ (m, err e)
      | ok r ↦ elim r.type [
        | ram ↦ (
          put_ram m r.ram_index (store_bytes (m.rams r.ram_index) (ram_place r addr) (b ∷ bs)),
          ok tt,
        )
        | mmio ↦ (m, fail_at unsupported_feature addr)
      ]
    ]

module _ {D : Type 0} (io : Devices D) where
  -- A read through the callback of a region, and the bits of its answer that the caller keeps.
  unfoldable pub mmio_read : Memory D → Region → ℕ → ℕ → Memory D × Result ℕ
  mmio_read m r addr width = elim r.mmio_handler [
    | none ↦ (m, fail_at unsupported_feature addr)
    | some h ↦
        if h.has_read
        then (let (d, v) = io.read h.device m.devices (addr - r.base) width in
            (record m { devices = d }, (v >>= λ x. ok (x % 2 ^ (8 * width)))))
        else (m, fail_at unsupported_feature addr)
  ]

  unfoldable pub mmio_write : Memory D → Region → ℕ → ℕ → ℕ → Memory D × Result (Unit {0})
  mmio_write m r addr width value = elim r.mmio_handler [
    | none ↦ (m, fail_at unsupported_feature addr)
    | some h ↦
        if h.has_write
        then (let (d, v) = io.write h.device m.devices (addr - r.base) width value in
            (record m { devices = d }, v))
        else (m, fail_at unsupported_feature addr)
  ]

  unfoldable pub read8 : Memory D → ℕ → Memory D × Result ℕ
  read8 m addr = elim (resolve_region m.regions addr 1 perm_read) [
    | err e ↦ (m, err e)
    | ok r ↦ elim r.type [
      | ram ↦ (m, ram_read8 (m.rams r.ram_index) (ram_place r addr))
      | mmio ↦ mmio_read m r addr 1
    ]
  ]

  unfoldable pub read16 : Memory D → ℕ → Memory D × Result ℕ
  read16 m addr = elim (resolve_region m.regions addr 2 perm_read) [
    | err e ↦ (m, err e)
    | ok r ↦ elim r.type [
      | ram ↦ (m, ok (load16 (m.rams r.ram_index) (ram_place r addr)))
      | mmio ↦ mmio_read m r addr 2
    ]
  ]

  unfoldable pub read32 : Memory D → ℕ → Memory D × Result ℕ
  read32 m addr = elim (resolve_region m.regions addr 4 perm_read) [
    | err e ↦ (m, err e)
    | ok r ↦ elim r.type [
      | ram ↦ (m, ok (load32 (m.rams r.ram_index) (ram_place r addr)))
      | mmio ↦ mmio_read m r addr 4
    ]
  ]

  unfoldable pub write8 : Memory D → ℕ → ℕ → Memory D × Result (Unit {0})
  write8 m addr value = elim (resolve_region m.regions addr 1 perm_write) [
    | err e ↦ (m, err e)
    | ok r ↦ elim r.type [
      | ram ↦
          let (t, done) = ram_write8 (m.rams r.ram_index) (ram_place r addr) value in
          (put_ram m r.ram_index t, done)
      | mmio ↦ mmio_write m r addr 1 value
    ]
  ]

  unfoldable pub write16 : Memory D → ℕ → ℕ → Memory D × Result (Unit {0})
  write16 m addr value = elim (resolve_region m.regions addr 2 perm_write) [
    | err e ↦ (m, err e)
    | ok r ↦ elim r.type [
      | ram ↦ (put_ram m r.ram_index (store16 (m.rams r.ram_index) (ram_place r addr) value), ok tt)
      | mmio ↦ mmio_write m r addr 2 value
    ]
  ]

  unfoldable pub write32 : Memory D → ℕ → ℕ → Memory D × Result (Unit {0})
  write32 m addr value = elim (resolve_region m.regions addr 4 perm_write) [
    | err e ↦ (m, err e)
    | ok r ↦ elim r.type [
      | ram ↦ (put_ram m r.ram_index (store32 (m.rams r.ram_index) (ram_place r addr) value), ok tt)
      | mmio ↦ mmio_write m r addr 4 value
    ]
  ]
