-- ===== src/Kernel/Heap/Overlap.antt =====
-- No byte of a heap belongs to two blocks.
use mathlib.Core.Option.{some-injective}
use Prim.Native.Nat.{bit_and}
use xblob_emulator.Kernel.Heap.{
  FreeBlock, GuestHeap, reset, find_active, put_active, erase_active, align_up, Taken, take_blocks,
  allocate, allocate_aligned, insert_block, free, re_allocate,
}
use xblob_emulator.Kernel.Heap.Cover.{
  cover_free, cover_active, IsBounded, IsBoundedEntry, cover_active-put_active,
  cover_active-erase_active, cover_free-insert_block, insert_block-IsBounded, cover_free-coalesce,
}
use xblob_emulator.Kernel.Heap.AlignedFit.{aligned_fit-IsTaken}
use xblob_emulator.Kernel.Heap.Fit.{IsTaken, first_fit-IsTaken}
use xblob_emulator.Common.{Result-cases}
use xblob_emulator.Prelude.{
  ℕ, ◌+◌, ◌-◌, ◌≤◌, ◌<◌, max, ◌≡◌, inl, inr, not, ◌||◌, Option, none, some, List, [], ◌∷◌, arith,
  ltb, leb, ◌==◌, Bool-cases, Option-cases, All, u32_mod, u64_mod, add64,
}

-- Free and active blocks are apart and end within the address space, the alignment is not 0, and the
-- heap lies in the address space.
pub record IsApart (h : GuestHeap) : Type 0 where
  pub apart : (x : ℕ) → cover_free x h.free_blocks + cover_active x h.active_allocations ≤ 1
  pub free_bounded : All IsBounded h.free_blocks
  pub active_bounded : All IsBoundedEntry h.active_allocations
  pub aligned : 0 < h.alignment
  pub fits : h.base_addr + h.total_size ≤ u32_mod

put_active-IsBounded :
    (addr size : ℕ) (ms : List (ℕ × ℕ))
    → addr + size ≤ u32_mod
    → All IsBoundedEntry ms
    → All IsBoundedEntry (put_active addr size ms)
unfolding put_active
put_active-IsBounded addr size [] hb h = (hb, tt)
put_active-IsBounded addr size ((key, old) ∷ ms) hb h = elim (Bool-cases (key == addr)) [
  | inl e ↦ rw (e, put_active) (hb, h.1)
  | inr e ↦ elim (Bool-cases (ltb addr key)) [
    | inl l ↦ rw (e, l, put_active) (hb, h)
    | inr l ↦ rw (e, l, put_active) (h.0, put_active-IsBounded addr size ms hb h.1)
  ]
]

erase_active-IsBounded :
    (addr : ℕ) (ms : List (ℕ × ℕ))
    → All IsBoundedEntry ms
    → All IsBoundedEntry (erase_active addr ms)
unfolding erase_active
erase_active-IsBounded addr [] h = tt
erase_active-IsBounded addr ((key, old) ∷ ms) h = elim (Bool-cases (key == addr)) [
  | inl e ↦ rw (e, erase_active) h.1
  | inr e ↦ rw (e, erase_active) (h.0, erase_active-IsBounded addr ms h.1)
]

found-IsBounded :
    (addr size : ℕ) (ms : List (ℕ × ℕ))
    → All IsBoundedEntry ms
    → find_active addr ms ≡ some size
    → addr + size ≤ u32_mod
unfolding find_active
found-IsBounded addr size [] h e = cc
found-IsBounded addr size ((key, old) ∷ ms) h e = elim (Bool-cases (key == addr)) [
  | inl k ↦
      let same : key ≡ addr = ground arith in
      let is : old ≡ size = some-injective old size (rw k at e) in
      let b = h.0 in omega (arith, same, is)
  | inr k ↦ found-IsBounded addr size ms h.1 (rw k at e)
]

taken-IsApart :
    (h : GuestHeap) (n : ℕ) (r : Option Taken)
    → IsApart h
    → IsTaken h.free_blocks n r
    → IsApart (take_blocks h r).0
unfolding take_blocks
taken-IsApart h n none v k = v
taken-IsApart h n (some t) v k = record {
  apart = λ x.
      let all = v.apart x in
      let kept = k.3 x in
      let put = cover_active-put_active x t.addr t.size h.active_allocations in
      omega (arith, all, kept, put);
  free_bounded = k.0;
  active_bounded = put_active-IsBounded t.addr t.size h.active_allocations k.1 v.active_bounded;
  aligned = v.aligned;
  fits = v.fits;
}

pub allocate-IsApart :
    (h : GuestHeap) (size_bytes : ℕ) → IsApart h → IsApart (allocate h size_bytes).0
unfolding allocate
allocate-IsApart h size_bytes v = elim (Bool-cases (size_bytes == 0)) [
  | inl e ↦ rw (e, allocate) v
  | inr e ↦
      let n = align_up size_bytes h.alignment in
      rw (e, allocate)
        (taken-IsApart h n _ v
          (first_fit-IsTaken h.alignment n h.free_blocks v.aligned v.free_bounded))
]

pub free-IsApart : (h : GuestHeap) (addr : ℕ) → IsApart h → IsApart (free h addr).0
unfolding free
free-IsApart h addr v =
    elim (Bool-cases (ltb addr h.base_addr || leb (add64 h.base_addr h.total_size) addr)) [
      | inl e ↦ rw (e, free) v
      | inr e ↦ elim (Option-cases (find_active addr h.active_allocations)) [
        | inl f ↦ rw (e, f, free) v
        | inr (size, f) ↦
            let b : FreeBlock = record { addr = addr; size = size } in
            let bounded = found-IsBounded addr size h.active_allocations v.active_bounded f in
            let inserted = insert_block-IsBounded b h.free_blocks bounded v.free_bounded in
            rw (e, f, free)
              (record {
                apart = λ x.
                    let all = v.apart x in
                    let merged =
                      (cover_free-coalesce x (insert_block b h.free_blocks) inserted).0 in
                    let put = cover_free-insert_block x b h.free_blocks in
                    let gone = cover_active-erase_active x addr size h.active_allocations f in
                    omega (arith, all, merged, put, gone);
                free_bounded = (cover_free-coalesce 0 (insert_block b h.free_blocks) inserted).1;
                active_bounded = erase_active-IsBounded addr h.active_allocations v.active_bounded;
                aligned = v.aligned;
                fits = v.fits;
              })
      ]
    ]

pub re_allocate-IsApart :
    (h : GuestHeap) (addr new_size : ℕ) → IsApart h → IsApart (re_allocate h addr new_size).0.0
unfolding re_allocate
re_allocate-IsApart h addr new_size v =
    elim (Option-cases (find_active addr h.active_allocations)) [
      | inl f ↦ rw (f, re_allocate) v
      | inr (old, f) ↦ elim (Bool-cases (new_size == 0)) [
        | inl z ↦ rw (f, z, re_allocate) (free-IsApart h addr v)
        | inr z ↦ elim (Result-cases (allocate h new_size).1) [
          | inl (a, r) ↦
              rw (f, z, r, re_allocate)
                (free-IsApart (allocate h new_size).0 addr (allocate-IsApart h new_size v))
          | inr (e, r) ↦ rw (f, z, r, re_allocate) (allocate-IsApart h new_size v)
        ]
      ]
    ]

-- The size that `AllocateAligned` looks for leaves room for the padding in 64 bits.
abbrev pub HasRoom : GuestHeap → ℕ → ℕ → Type 0
HasRoom h size_bytes alignment = align_up size_bytes (max h.alignment alignment) + u32_mod ≤ u64_mod

pub allocate_aligned-IsApart :
    (h : GuestHeap) (size_bytes alignment : ℕ)
    → HasRoom h size_bytes alignment
    → IsApart h
    → IsApart (allocate_aligned h size_bytes alignment).0
unfolding allocate_aligned
allocate_aligned-IsApart h size_bytes alignment room v = elim (Bool-cases (size_bytes == 0)) [
  | inl e ↦ rw (e, allocate_aligned) v
  | inr e ↦ elim (Bool-cases (ltb alignment 4 || not (bit_and alignment (alignment - 1) == 0))) [
    | inl p ↦ rw (e, p, allocate_aligned) v
    | inr p ↦
        let align = max h.alignment alignment in
        let n = align_up size_bytes align in
        rw (e, p, allocate_aligned)
          (taken-IsApart h n _ v
            (aligned_fit-IsTaken h.alignment align n h.free_blocks v.aligned room v.free_bounded))
  ]
]

pub reset-IsApart :
    (h : GuestHeap) → 0 < h.alignment → h.base_addr + h.total_size ≤ u32_mod → IsApart (reset h)
unfolding reset cover_free cover_active
reset-IsApart h pos f = elim (Bool-cases (ltb 0 h.total_size)) [
  | inl e ↦
      rw (e, reset)
        (record {
          apart = λ x. ground arith;
          free_bounded = (f, tt);
          active_bounded = tt;
          aligned = pos;
          fits = f;
        })
  | inr e ↦
      rw (e, reset)
        (record {
          apart = λ x. omega arith;
          free_bounded = tt;
          active_bounded = tt;
          aligned = pos;
          fits = f;
        })
]
