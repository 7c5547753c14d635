-- ===== src/Kernel/Heap/Calls.antt =====
-- The calls of a heap as steps, and what each of them keeps and returns.
use xblob_emulator.Kernel.Heap.{
  GuestHeap, reset, find_active, put_active, align_up, first_fit, take_blocks, allocate,
  allocate_aligned, free, re_allocate, get_block_size,
}
use xblob_emulator.Kernel.Heap.Cover.{inside, cover_free}
use xblob_emulator.Kernel.Heap.Fit.{IsTaken, first_fit-IsTaken}
use xblob_emulator.Kernel.Heap.RoundUp.{
  IsRoundedUp, align_up-IsRoundedUp, IsFitted, first_fit-IsFitted,
}
use xblob_emulator.Kernel.Heap.Overlap.{
  IsApart, allocate-IsApart, free-IsApart, re_allocate-IsApart, HasRoom, allocate_aligned-IsApart,
  reset-IsApart,
}
use xblob_emulator.Common.{limit_reached, ok, fail}
use xblob_emulator.Prelude.{
  ℕ, ◌+◌, ◌^◌, ◌≤◌, ◌<◌, ◌≡◌, refl, sym, subst, ◌≢◌, ◌⊎◌, inl, inr, false, none, some, List, [],
  ◌∷◌, arith,
}
use xblob_emulator.Prelude.{◌==◌, Option-cases, All, u64_mod}

pub data Op : Type 0 where
  allocates frees : ℕ → Op
  allocates_aligned re_allocates : ℕ → ℕ → Op
  resets : Op

unfoldable pub step : GuestHeap → Op → GuestHeap
step h (allocates size_bytes) = (allocate h size_bytes).0
step h (frees addr) = (free h addr).0
step h (allocates_aligned size_bytes alignment) = (allocate_aligned h size_bytes alignment).0
step h (re_allocates addr new_size) = (re_allocate h addr new_size).0.0
step h resets = reset h

-- The sizes that a call may be given.
abbrev pub IsAdmissible : GuestHeap → Op → Type 0
IsAdmissible h (allocates_aligned size_bytes alignment) = HasRoom h size_bytes alignment
IsAdmissible h _ = Unit {0}

-- Every call keeps the blocks apart, whatever it is asked and whether or not it succeeds, where an
-- aligned size leaves room for the padding in 64 bits: no address lies in two blocks, free or
-- active, and every block ends within the address space.
pub step-IsApart : (h : GuestHeap) (o : Op) → IsAdmissible h o → IsApart h → IsApart (step h o)
unfolding step
step-IsApart h (allocates size_bytes) room v = allocate-IsApart h size_bytes v
step-IsApart h (frees addr) room v = free-IsApart h addr v
step-IsApart h (allocates_aligned size_bytes alignment) room v =
    allocate_aligned-IsApart h size_bytes alignment room v
step-IsApart h (re_allocates addr new_size) room v = re_allocate-IsApart h addr new_size v
step-IsApart h resets room v = reset-IsApart h v.aligned v.fits

find_active-put_active_self :
    (addr size : ℕ) (ms : List (ℕ × ℕ)) → find_active addr (put_active addr size ms) ≡ some size
unfolding find_active put_active
find_active-put_active_self addr size [] = ground arith
find_active-put_active_self addr size ((key, old) ∷ ms) =
    ground (arith, find_active-put_active_self addr size ms)

find_active-put_active_ne :
    (addr x size : ℕ) (ms : List (ℕ × ℕ))
    → x ≢ addr
    → find_active x (put_active addr size ms) ≡ find_active x ms
unfolding find_active put_active
find_active-put_active_ne addr x size [] n = ground arith
find_active-put_active_ne addr x size ((key, old) ∷ ms) n =
    ground (arith, find_active-put_active_ne addr x size ms n)

-- In a heap whose blocks are apart and whose alignment is a power of two, for a size that is not 0 and
-- whose sum with the alignment fits in 64 bits, let `n` be the least multiple of the alignment that is
-- not below the size. `Allocate` fails with the limit and changes nothing, and then every free block
-- is smaller than `n`; or it returns an address that is active with a size of at least `n` and less
-- than `n` and the alignment together, all of whose bytes were free and left the free blocks; and
-- every other allocation keeps its size.
pub allocate_lem :
    (h : GuestHeap) (k size_bytes : ℕ)
    → IsApart h
    → h.alignment ≡ 2 ^ k
    → k ≤ 64
    → 0 < size_bytes
    → size_bytes + h.alignment ≤ u64_mod
    → let (h', r) = allocate h size_bytes in
      (n : ℕ) × (IsRoundedUp size_bytes h.alignment n)
      × (((r ≡ fail limit_reached) × (h' ≡ h) × All (λ b. b.size < n) h.free_blocks)
          ⊎ ((addr : ℕ) × (size : ℕ) × (r ≡ ok addr)
              × (get_block_size h' addr ≡ ok size)
              × (n ≤ size)
              × (size < n + h.alignment)
              × ((x : ℕ)
                  → cover_free x h'.free_blocks + inside x addr size ≤ cover_free x h.free_blocks)
              × ((x : ℕ) → x ≢ addr → get_block_size h' x ≡ get_block_size h x)))
unfolding allocate take_blocks get_block_size
allocate_lem h k size_bytes v power le pos room =
    let n = align_up size_bytes h.alignment in
    let up : IsRoundedUp size_bytes h.alignment n =
      subst (λ a. IsRoundedUp size_bytes a (align_up size_bytes a)) (sym power)
        (align_up-IsRoundedUp k size_bytes le (omega (arith, power))) in
    let e : size_bytes == 0 ≡ false = ground arith in
    let found = first_fit-IsTaken h.alignment n h.free_blocks v.aligned v.free_bounded in
    let fitted = first_fit-IsFitted h.alignment n h.free_blocks v.aligned in
    (
      n,
      up,
      elim (Option-cases (first_fit h.alignment n h.free_blocks)) [
        | inl f ↦
            let none_fits : IsFitted h.alignment n h.free_blocks none = rw f at fitted in
            rw (e, f, allocate) (inl (refl, refl, none_fits))
        | inr (t, f) ↦
            let taken : IsTaken h.free_blocks n (some t) = rw f at found in
            let whole : IsFitted h.alignment n h.free_blocks (some t) = rw f at fitted in
            let self = find_active-put_active_self t.addr t.size h.active_allocations in
            rw (e, f, allocate)
              (inr (
                t.addr,
                t.size,
                refl,
                rw (self, get_block_size),
                taken.2,
                whole,
                taken.3,
                λ x ne.
                    let kept = find_active-put_active_ne t.addr x t.size h.active_allocations ne in
                    rw (kept, get_block_size),
              ))
      ],
    )
