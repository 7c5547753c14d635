-- ===== src/Memory/AddressSpace/Mapped.antt =====
-- The map stays sorted and free of overlaps, and every RAM region lies in its RAM.
use xblob_emulator.Memory.Region.{Ram, in_ram, MmioHandler, ram, Region, region_end, overlaps}
use xblob_emulator.Memory.AddressSpace.{
  Memory, insert_region, sort_regions, overlaps_any, in_space, map_ram, map_mmio,
}
use xblob_emulator.Common.SafeMath.{checked_add}
use xblob_emulator.Prelude.{
  ℕ, ◌+◌, ◌≤◌, ◌<◌, ◌≡◌, ◌⊎◌, inl, inr, true, false, List, [], ◌∷◌, ◌++◌, arith, ltb, ◌==◌,
  Bool-cases, All, All-append, u32_mod,
}

-- A region that is not empty and ends within 32 bits; if it is backed by RAM, within the RAM.
pub record IsRegion (rams : ℕ → Ram) (r : Region) : Type 0 where
  pub inhabited : 0 < r.size
  pub bounded : region_end r ≤ u32_mod
  pub backed : r.type ≡ ram → r.ram_offset + r.size ≤ (rams r.ram_index).size

-- Two regions share no address, and a region comes after those that lie below it.
abbrev pub Below : Region → Region → Type 0
Below r s = region_end r ≤ s.base

abbrev pub AllBelow : Region → List Region → Type 0
AllBelow r [] = Unit {0}
AllBelow r (s ∷ rs) = Below r s × AllBelow r rs

abbrev pub IsSorted : List Region → Type 0
IsSorted [] = Unit {0}
IsSorted (r ∷ rs) = AllBelow r rs × IsSorted rs

pub record IsMapped {D : Type 0} (m : Memory D) : Type 0 where
  pub regions : All (IsRegion m.rams) m.regions
  pub sorted : IsSorted m.regions

-- A region apart from every one of a list.
abbrev Apart : Region → List Region → Type 0
Apart r [] = Unit {0}
Apart r (s ∷ rs) = (Below r s ⊎ Below s r) × Apart r rs

AllBelow-insert_region :
    (t r : Region) (rs : List Region) → Below t r → AllBelow t rs → AllBelow t (insert_region r rs)
unfolding insert_region
AllBelow-insert_region t r [] b h = (b, tt)
AllBelow-insert_region t r (s ∷ rs) b h = elim (Bool-cases (ltb s.base r.base)) [
  | inl e ↦ rw (e, insert_region) (h.0, AllBelow-insert_region t r rs b h.1)
  | inr e ↦ rw (e, insert_region) (b, h)
]

AllBelow-trans :
    (rams : ℕ → Ram) (r s : Region) (rs : List Region)
    → IsRegion rams s
    → Below r s
    → AllBelow s rs
    → AllBelow r rs
AllBelow-trans rams r s [] k b h = tt
AllBelow-trans rams r s (t ∷ rs) k b h =
    let i = k.inhabited in (omega (arith, h.0), AllBelow-trans rams r s rs k b h.1)

insert_region-IsSorted :
    (rams : ℕ → Ram) (r : Region) (rs : List Region)
    → IsRegion rams r
    → All (IsRegion rams) rs
    → Apart r rs
    → IsSorted rs
    → IsSorted (insert_region r rs)
unfolding insert_region
insert_region-IsSorted rams r [] k all a h = (tt, tt)
insert_region-IsSorted rams r (s ∷ rs) k all a h =
    let i = k.inhabited in
    let j = all.0.inhabited in
    elim (Bool-cases (ltb s.base r.base)) [
      | inl e ↦
          let below : Below s r = ground (arith, a.0) in
          rw (e, insert_region)
            (
              AllBelow-insert_region s r rs below h.0,
              insert_region-IsSorted rams r rs k all.1 a.1 h.1,
            )
      | inr e ↦
          let below : Below r s = ground (arith, a.0) in
          rw (e, insert_region) ((below, AllBelow-trans rams r s rs all.0 below h.0), h)
    ]

-- Regions of which any two are apart.
abbrev AllApart : List Region → Type 0
AllApart [] = Unit {0}
AllApart (r ∷ rs) = Apart r rs × AllApart rs

Apart-insert_region :
    (t r : Region) (rs : List Region)
    → Below t r ⊎ Below r t
    → Apart t rs
    → Apart t (insert_region r rs)
unfolding insert_region
Apart-insert_region t r [] b h = (b, tt)
Apart-insert_region t r (s ∷ rs) b h = elim (Bool-cases (ltb s.base r.base)) [
  | inl e ↦ rw (e, insert_region) (h.0, Apart-insert_region t r rs b h.1)
  | inr e ↦ rw (e, insert_region) (b, h)
]

All-insert_region :
    (rams : ℕ → Ram) (r : Region) (rs : List Region)
    → IsRegion rams r
    → All (IsRegion rams) rs
    → All (IsRegion rams) (insert_region r rs)
unfolding insert_region
All-insert_region rams r [] k h = (k, tt)
All-insert_region rams r (s ∷ rs) k h = elim (Bool-cases (ltb s.base r.base)) [
  | inl e ↦ rw (e, insert_region) (h.0, All-insert_region rams r rs k h.1)
  | inr e ↦ rw (e, insert_region) (k, h)
]

Apart-sort_regions : (t : Region) (rs : List Region) → Apart t rs → Apart t (sort_regions rs)
unfolding sort_regions
Apart-sort_regions t [] h = tt
Apart-sort_regions t (r ∷ rs) h =
    Apart-insert_region t r (sort_regions rs) h.0 (Apart-sort_regions t rs h.1)

sort_regions-IsSorted :
    (rams : ℕ → Ram) (rs : List Region)
    → All (IsRegion rams) rs
    → AllApart rs
    → All (IsRegion rams) (sort_regions rs) × IsSorted (sort_regions rs)
unfolding sort_regions
sort_regions-IsSorted rams [] h a = (tt, tt)
sort_regions-IsSorted rams (r ∷ rs) h a =
    let rest = sort_regions-IsSorted rams rs h.1 a.1 in
    (
      All-insert_region rams r (sort_regions rs) h.0 rest.0,
      insert_region-IsSorted rams r (sort_regions rs) h.0 rest.0 (Apart-sort_regions r rs a.0)
          rest.1,
    )

AllBelow-Apart : (r : Region) (rs : List Region) → AllBelow r rs → Apart r rs
AllBelow-Apart r [] h = tt
AllBelow-Apart r (s ∷ rs) h = (inl h.0, AllBelow-Apart r rs h.1)

Apart-last :
    (t r : Region) (rs : List Region)
    → Below t r ⊎ Below r t
    → Apart t rs
    → Apart t (rs ++ (r ∷ []))
Apart-last t r [] b h = (b, tt)
Apart-last t r (s ∷ rs) b h = (h.0, Apart-last t r rs b h.1)

-- A region that overlaps none, behind sorted ones.
pushed-AllApart :
    (r : Region) (rs : List Region)
    → IsSorted rs
    → overlaps_any rs r.base r.size ≡ false
    → AllApart (rs ++ (r ∷ []))
unfolding overlaps_any overlaps
pushed-AllApart r [] h o = (tt, tt)
pushed-AllApart r (s ∷ rs) h o =
    let here : Below s r ⊎ Below r s = ground arith in
    let later : overlaps_any rs r.base r.size ≡ false = ground arith in
    (Apart-last s r rs here (AllBelow-Apart s rs h.0), pushed-AllApart r rs h.1 later)

pushed-IsMapped :
    {D : Type 0} (m : Memory D) (r : Region)
    → IsMapped m
    → IsRegion m.rams r
    → overlaps_any m.regions r.base r.size ≡ false
    → IsMapped (record m { regions = sort_regions (m.regions ++ (r ∷ [])) })
pushed-IsMapped m r v k o =
    let sorted =
      sort_regions-IsSorted m.rams (m.regions ++ (r ∷ []))
        (All-append (IsRegion m.rams) m.regions (r ∷ []) v.regions (k, tt))
        (pushed-AllApart r m.regions v.sorted o) in
    record { regions = sorted.0; sorted = sorted.1 }

pub in_space_bound :
    (base size : ℕ) → size < u32_mod → in_space base size ≡ true → base + size ≤ u32_mod
unfolding in_space checked_add
in_space_bound base size h e = ground arith

in_ram_bound :
    (r : Ram) (offset count : ℕ)
    → count < u32_mod
    → in_ram r offset count ≡ true
    → offset + count ≤ r.size
unfolding in_ram checked_add
in_ram_bound r offset count h e = ground arith

-- `MapRam` keeps the map well formed, whether it succeeds or not.
pub map_ram-IsMapped :
    {D : Type 0} (m : Memory D) (base size index ram_offset perms : ℕ)
    → size < u32_mod
    → IsMapped m
    → IsMapped (map_ram m base size index ram_offset perms).0
unfolding map_ram
map_ram-IsMapped m base size index ram_offset perms small v = elim (Bool-cases (size == 0)) [
  | inl e ↦ rw (e, map_ram) v
  | inr e ↦ elim (Bool-cases (in_space base size)) [
    | inr f ↦ rw (e, f, map_ram) v
    | inl f ↦ elim (Bool-cases (in_ram (m.rams index) ram_offset size)) [
      | inr g ↦ rw (e, f, g, map_ram) v
      | inl g ↦ elim (Bool-cases (overlaps_any m.regions base size)) [
        | inl o ↦ rw (e, f, g, o, map_ram) v
        | inr o ↦
            rw (e, f, g, o, map_ram)
              (pushed-IsMapped m _ v
                (record {
                  inhabited = ground arith;
                  bounded = in_space_bound base size small f;
                  backed = λ _. in_ram_bound (m.rams index) ram_offset size small g;
                })
                o)
      ]
    ]
  ]
]

pub map_mmio-IsMapped :
    {D : Type 0} (m : Memory D) (base size : ℕ) (handler : MmioHandler) (perms : ℕ)
    → size < u32_mod
    → IsMapped m
    → IsMapped (map_mmio m base size handler perms).0
unfolding map_mmio
map_mmio-IsMapped m base size handler perms small v = elim (Bool-cases (size == 0)) [
  | inl e ↦ rw (e, map_mmio) v
  | inr e ↦ elim (Bool-cases (in_space base size)) [
    | inr f ↦ rw (e, f, map_mmio) v
    | inl f ↦ elim (Bool-cases (overlaps_any m.regions base size)) [
      | inl o ↦ rw (e, f, o, map_mmio) v
      | inr o ↦
          rw (e, f, o, map_mmio)
            (pushed-IsMapped m _ v
              (record {
                inhabited = ground arith;
                bounded = in_space_bound base size small f;
                backed = λ q. cc;
              })
              o)
    ]
  ]
]
