-- ===== src/Memory/AddressSpace/Words.antt =====
-- Words in RAM.
use xblob_emulator.Memory.Region.{
  perm_read, perm_write, has_permission, Ram, load_byte, store_byte, ram, Region,
}
use xblob_emulator.Memory.AddressSpace.{
  Devices, Memory, put_ram, resolve_region, ram_place, load32, store32, read32, write32,
}
use xblob_emulator.Memory.AddressSpace.Resolve.{resolve_other}
use xblob_emulator.Common.{ok}
use xblob_emulator.Prelude.{
  ℕ, ◌+◌, ◌*◌, ◌/◌, ◌%◌, ◌^◌, ◌≤◌, ◌<◌, ◌≡◌, refl, sym, ap, ◌∙◌, ◌≢◌, ◌⊎◌, inl, inr, true, arith,
  ◌==◌, if◌then◌else◌, Bool-cases,
}

load_byte-store_byte :
    (t : Ram) (i j v : ℕ) → load_byte (store_byte t i v) j ≡ (if j == i then v else load_byte t j)
unfolding store_byte
load_byte-store_byte t i j v = refl

word :
    (v : ℕ)
    → v < 2 ^ 32
    → v % 2 ^ 8
        + v / 2 ^ 8 % 2 ^ 8 * 2 ^ 8
        + v / 2 ^ 16 % 2 ^ 8 * 2 ^ 16
        + v / 2 ^ 24 % 2 ^ 8 * 2 ^ 24
      ≡ v
word v h = omega arith

load32-store32 : (t : Ram) (i v : ℕ) → v < 2 ^ 32 → load32 (store32 t i v) i ≡ v
unfolding load32 store32 store_byte
load32-store32 t i v h = ground (arith, word v h)

store32_others :
    (t : Ram) (i j v : ℕ) → (j < i) ⊎ (i + 4 ≤ j) → load_byte (store32 t i v) j ≡ load_byte t j
unfolding store32 store_byte
store32_others t i j v o = ground arith

put_ram_self : {D : Type 0} (m : Memory D) (i : ℕ) (t : Ram) → (put_ram m i t).rams i ≡ t
put_ram_self m i t = let e : (i == i) ≡ true = ground arith in rw e

other_bytes :
    {D : Type 0} (m : Memory D) (r : Region) (i j addr v : ℕ)
    → (i ≢ r.ram_index) ⊎ ((j < ram_place r addr) ⊎ (ram_place r addr + 4 ≤ j))
    → load_byte
        ((put_ram m r.ram_index (store32 (m.rams r.ram_index) (ram_place r addr) v)).rams i)
        j
      ≡ load_byte (m.rams i) j
other_bytes m r i j addr v o = elim (Bool-cases (i == r.ram_index)) [
  | inr k ↦ rw k
  | inl k ↦
      let same : i ≡ r.ram_index = ground arith in
      elim o [
        | inl n ↦ absurd (n same)
        | inr far ↦ rw k (
            store32_others (m.rams r.ram_index) (ram_place r addr) j v far
            ∙ ap (λ x. load_byte (m.rams x) j) (sym same))
      ]
]

module _ {D : Type 0} (io : Devices D) where
  stored :
      (m : Memory D) (r : Region) (addr v : ℕ)
      → v < 2 ^ 32
      → resolve_region m.regions addr 4 perm_read ≡ ok r
      → r.type ≡ ram
      → let m' = put_ram m r.ram_index (store32 (m.rams r.ram_index) (ram_place r addr) v) in
        read32 io m' addr ≡ (m', ok v)
  unfolding read32
  stored m r addr v small q t =
      let w = store32 (m.rams r.ram_index) (ram_place r addr) v in
      let at = put_ram_self m r.ram_index w in
      let back = load32-store32 (m.rams r.ram_index) (ram_place r addr) v small in
      rw (q, t, read32)
        (ap (λ x. (put_ram m r.ram_index w, ok x))
          (ap (λ x. load32 x (ram_place r addr)) at ∙ back))

  -- Where the four bytes at an address resolve for writing to a RAM region that also permits reading,
  -- a write of a 32-bit word there succeeds and reads back, aligned or not; the regions and the
  -- devices stay as they are, and so does every byte of every RAM but the four written.
  pub read32-write32 :
      (m : Memory D) (r : Region) (addr v : ℕ)
      → v < 2 ^ 32
      → resolve_region m.regions addr 4 perm_write ≡ ok r
      → r.type ≡ ram
      → has_permission r.permissions perm_read ≡ true
      → let (m', done) = write32 io m addr v in
        (done ≡ ok tt)
        × (read32 io m' addr ≡ (m', ok v))
        × (m'.regions ≡ m.regions)
        × (m'.devices ≡ m.devices)
        × ((i j : ℕ)
            → (i ≢ r.ram_index) ⊎ ((j < ram_place r addr) ⊎ (ram_place r addr + 4 ≤ j))
            → load_byte (m'.rams i) j ≡ load_byte (m.rams i) j)
  unfolding write32
  read32-write32 m r addr v small e t p =
      let q = resolve_other m.regions r addr 4 perm_write perm_read e p in
      rw (e, t, write32)
        (refl, stored m r addr v small q t, refl, refl, λ i j o. other_bytes m r i j addr v o)
