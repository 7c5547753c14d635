-- ===== src/Memory/AddressSpace/Resolve.antt =====
-- What an address is resolved to.
use xblob_emulator.Memory.Region.{has_permission, Ram, ram, Region, region_end, contains_range}
use xblob_emulator.Memory.AddressSpace.{Memory, in_space, find_region, resolve_region, ram_place}
use xblob_emulator.Memory.AddressSpace.Mapped.{IsRegion, AllBelow, IsSorted, IsMapped}
use xblob_emulator.Common.{ok}
use xblob_emulator.Common.SafeMath.{checked_add}
use xblob_emulator.Prelude.{
  ℕ, ◌+◌, ◌≤◌, ◌<◌, ◌≡◌, sym, ap, ◌∙◌, subst, ◌↔◌, ◌⊎◌, inl, inr, true, false, ◌&&◌, List, [], ◌∷◌,
  arith, ltb, leb, ◌==◌, Bool-cases, All, u32_mod,
}

abbrev pub IsIn : Region → List Region → Type 0
IsIn r [] = ⊥
IsIn r (s ∷ rs) = (r ≡ s) ⊎ IsIn r rs

-- The region serves an access of `len` bytes at `addr`.
abbrev pub Serves : Region → ℕ → ℕ → ℕ → Type 0
Serves r addr len perm =
    (r.base ≤ addr) × (addr + len ≤ region_end r) × (has_permission r.permissions perm ≡ true)

IsIn-AllBelow :
    (r s : Region) (rs : List Region) → IsIn r rs → AllBelow s rs → region_end s ≤ r.base
IsIn-AllBelow r s [] i h = absurd i
IsIn-AllBelow r s (t ∷ rs) (inl e) h = rw e h.0
IsIn-AllBelow r s (t ∷ rs) (inr i) h = IsIn-AllBelow r s rs i h.1

found :
    (rs : List Region) (r : Region) (addr len perm : ℕ)
    → IsSorted rs
    → 0 < len
    → IsIn r rs
    → Serves r addr len perm
    → find_region rs addr len perm ≡ ok r
unfolding contains_range find_region
found [] r addr len perm h pos i s = absurd i
found (t ∷ rs) r addr len perm h pos (inl e) s =
    let k : Serves t addr len perm = subst (λ x. Serves x addr len perm) e s in
    let c : (leb t.base addr && ltb addr (region_end t)) ≡ true = ground (arith, k.0, k.1) in
    let whole : contains_range t addr len ≡ true = ground (arith, k.0, k.1) in
    let allowed = k.2 in rw (c, whole, allowed, find_region) (ap ok (sym e))
found (t ∷ rs) r addr len perm h pos (inr i) s =
    let below = IsIn-AllBelow r t rs i h.0 in
    let c : (leb t.base addr && ltb addr (region_end t)) ≡ false = ground (arith, s.0) in
    rw (c, find_region) (found rs r addr len perm h.1 pos i s)

served_range :
    (t : Region) (addr len : ℕ)
    → contains_range t addr len ≡ true
    → (t.base ≤ addr) × (addr + len ≤ region_end t)
unfolding contains_range
served_range t addr len w = ground arith

pub found-Serves :
    (rs : List Region) (r : Region) (addr len perm : ℕ)
    → find_region rs addr len perm ≡ ok r
    → IsIn r rs × Serves r addr len perm
unfolding find_region
found-Serves [] r addr len perm e = cc
found-Serves (t ∷ rs) r addr len perm e =
    elim (Bool-cases (leb t.base addr && ltb addr (region_end t))) [
      | inr c ↦ let rest = found-Serves rs r addr len perm (rw c at e) in (inr rest.0, rest.1)
      | inl c ↦ elim (Bool-cases (contains_range t addr len)) [
        | inr w ↦ let bad = rw (c, w) at e in cc
        | inl w ↦ elim (Bool-cases (has_permission t.permissions perm)) [
          | inr p ↦ let bad = rw (c, w, p) at e in cc
          | inl p ↦
              let same : ok t ≡ ok r = rw (c, w, p) at e in
              let is : r ≡ t = cc in
              (
                inl is,
                subst (λ x. Serves x addr len perm) (sym is)
                    (let k = served_range t addr len w in (k.0, k.1, p)),
              )
        ]
      ]
    ]

checked :
    (rs : List Region) (addr len perm : ℕ)
    → 0 < len
    → len < u32_mod
    → addr + len ≤ u32_mod
    → resolve_region rs addr len perm ≡ find_region rs addr len perm
unfolding resolve_region in_space checked_add
checked rs addr len perm pos small fits =
    let n : (len == 0) ≡ false = ground arith in
    let f : in_space addr len ≡ true = ground arith in rw (n, f, resolve_region)

pub resolved_find :
    (rs : List Region) (r : Region) (addr len perm : ℕ)
    → resolve_region rs addr len perm ≡ ok r
    → (0 < len) × (find_region rs addr len perm ≡ ok r)
unfolding resolve_region
resolved_find rs r addr len perm e = elim (Bool-cases (len == 0)) [
  | inl z ↦ let bad = rw z at e in cc
  | inr z ↦ elim (Bool-cases (in_space addr len)) [
    | inr f ↦ let bad = rw (z, f) at e in cc
    | inl f ↦ (ground arith, rw (z, f) at e)
  ]
]

IsIn-All :
    (rams : ℕ → Ram) (r : Region) (rs : List Region)
    → All (IsRegion rams) rs
    → IsIn r rs
    → IsRegion rams r
IsIn-All rams r [] h i = absurd i
IsIn-All rams r (s ∷ rs) h (inl e) = subst (IsRegion rams) (sym e) h.0
IsIn-All rams r (s ∷ rs) h (inr i) = IsIn-All rams r rs h.1 i

-- In a well-formed map (regions in order of their addresses, apart from each other and within their
-- RAMs) an access that is not empty and ends within 32 bits is resolved to a region exactly where the
-- region is mapped, holds the whole range and permits the access; and a range resolved to a RAM region
-- lies within the RAM.
pub resolve_region_lem :
    {D : Type 0} (m : Memory D) (r : Region) (addr len perm : ℕ)
    → IsMapped m
    → 0 < len
    → len < u32_mod
    → addr + len ≤ u32_mod
    → ((resolve_region m.regions addr len perm ≡ ok r)
        ↔ (IsIn r m.regions × Serves r addr len perm))
      × (resolve_region m.regions addr len perm ≡ ok r
          → r.type ≡ ram
          → ram_place r addr + len ≤ (m.rams r.ram_index).size)
resolve_region_lem m r addr len perm v pos small fits =
    let same = checked m.regions addr len perm pos small fits in
    (
      (
        λ e. found-Serves m.regions r addr len perm (sym same ∙ e),
        λ k. same ∙ found m.regions r addr len perm v.sorted pos k.0 k.1,
      ),
      λ e t.
          let k = found-Serves m.regions r addr len perm (sym same ∙ e) in
          let in_ram_too = (IsIn-All m.rams r m.regions v.regions k.0).backed t in
          omega (arith, k.1.0, k.1.1, in_ram_too),
    )

find_other :
    (rs : List Region) (r : Region) (addr len perm other : ℕ)
    → find_region rs addr len perm ≡ ok r
    → has_permission r.permissions other ≡ true
    → find_region rs addr len other ≡ ok r
unfolding find_region
find_other [] r addr len perm other e q = cc
find_other (t ∷ rs) r addr len perm other e q =
    elim (Bool-cases (leb t.base addr && ltb addr (region_end t))) [
      | inr c ↦ rw (c, find_region) (find_other rs r addr len perm other (rw c at e) q)
      | inl c ↦ elim (Bool-cases (contains_range t addr len)) [
        | inr w ↦ let bad = rw (c, w) at e in cc
        | inl w ↦ elim (Bool-cases (has_permission t.permissions perm)) [
          | inr p ↦ let bad = rw (c, w, p) at e in cc
          | inl p ↦
              let same : ok t ≡ ok r = rw (c, w, p) at e in
              let is : r ≡ t = cc in
              let allowed : has_permission t.permissions other ≡ true =
                subst (λ (x : Region). has_permission x.permissions other ≡ true) is q in
              rw (c, w, allowed, find_region) same
        ]
      ]
    ]

-- A region that is found for one access is found for another permission that it has.
pub resolve_other :
    (rs : List Region) (r : Region) (addr len perm other : ℕ)
    → resolve_region rs addr len perm ≡ ok r
    → has_permission r.permissions other ≡ true
    → resolve_region rs addr len other ≡ ok r
unfolding resolve_region
resolve_other rs r addr len perm other e p = elim (Bool-cases (len == 0)) [
  | inl z ↦ let bad = rw z at e in cc
  | inr z ↦ elim (Bool-cases (in_space addr len)) [
    | inr f ↦ let bad = rw (z, f) at e in cc
    | inl f ↦ rw (z, f, resolve_region) (find_other rs r addr len perm other (rw (z, f) at e) p)
  ]
]
