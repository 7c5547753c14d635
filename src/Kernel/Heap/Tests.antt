-- ===== src/Kernel/Heap/Tests.antt =====
-- A heap of 256 bytes at address 0x1000. The theorems at it.
use xblob_emulator.Kernel.Heap.{
  GuestHeap, reset, guest_heap, find_active, put_active, erase_active, align_up, first_fit,
  take_blocks, allocate, aligned_fit, allocate_aligned, merge, coalesce, insert_block, free,
  get_block_size,
}
use xblob_emulator.Kernel.Heap.Cover.{inside, cover_free}
use xblob_emulator.Kernel.Heap.RoundUp.{IsRoundedUp}
use xblob_emulator.Kernel.Heap.Overlap.{IsApart, reset-IsApart}
use xblob_emulator.Kernel.Heap.Calls.{allocates_aligned, step, step-IsApart, allocate_lem}
use xblob_emulator.Kernel.Heap.Manager.{
  GuestHeapManager, create_heap, get_heap, get_heap-create_heap,
}
use xblob_emulator.Common.{limit_reached, ok, fail}
use xblob_emulator.Prelude.{ℕ, ◌+◌, ◌≤◌, ◌<◌, ◌≡◌, refl, ◌≢◌, ◌⊎◌, [], ◌∷◌, arith}
use xblob_emulator.Prelude.{All}

abbrev small : GuestHeap
small = record {
  base_addr = 0x1000;
  total_size = 256;
  alignment = 8;
  allocated_bytes = 0;
  free_blocks = record { addr = 0x1000; size = 256 } ∷ [];
  active_allocations = [];
}

small_made : guest_heap 0x1000 256 8 ≡ small
unfolding guest_heap reset
small_made = refl

small-IsApart : IsApart small
unfolding reset
small-IsApart = reset-IsApart small (omega arith) (omega arith)

first_address : (allocate small 13).1 ≡ ok 0x1000
unfolding allocate take_blocks first_fit align_up
first_address = refl

merged_back : (free (allocate small 13).0 0x1000).0 ≡ small
unfolding free allocate take_blocks first_fit align_up find_active erase_active put_active coalesce
    merge insert_block
merged_back = refl

aligned_address : (allocate_aligned (allocate small 13).0 40 64).1 ≡ ok 0x1040
unfolding allocate_aligned aligned_fit allocate take_blocks first_fit align_up
aligned_address = refl

-- The four bytes at 0x1080, behind an aligned block, are neither free nor active afterwards.
lost_bytes :
    let h = (allocate_aligned (guest_heap 0x1008 124 8) 40 64).0 in
    (h.free_blocks ≡ record { addr = 0x1008; size = 56 } ∷ [])
    × (h.active_allocations ≡ (0x1040, 64) ∷ [])
unfolding allocate_aligned aligned_fit take_blocks align_up guest_heap reset put_active
lost_bytes = (refl, refl)

step-IsApart_example : IsApart (step small (allocates_aligned 40 64))
unfolding align_up
step-IsApart_example = step-IsApart small (allocates_aligned 40 64) (omega arith) small-IsApart

allocate_lem_example :
    let (h', r) = allocate small 13 in
    (n : ℕ) × (IsRoundedUp 13 8 n)
    × (((r ≡ fail limit_reached) × (h' ≡ small) × All (λ b. b.size < n) small.free_blocks)
        ⊎ ((addr : ℕ) × (size : ℕ) × (r ≡ ok addr)
            × (get_block_size h' addr ≡ ok size)
            × (n ≤ size)
            × (size < n + 8)
            × ((x : ℕ)
                → cover_free x h'.free_blocks + inside x addr size ≤ cover_free x small.free_blocks)
            × ((x : ℕ) → x ≢ addr → get_block_size h' x ≡ get_block_size small x)))
allocate_lem_example =
    allocate_lem small 3 13 small-IsApart refl (omega arith) (omega arith) (omega arith)

abbrev manager : GuestHeapManager
manager = record { default_heap = small; secondary_heaps = []; next_secondary_base = 0x20000000 }

created : (create_heap manager 0 4096 16).1 ≡ ok 0x20000000
unfolding create_heap
created = refl

get_heap-create_heap_example :
    let m' = (create_heap manager 0 4096 16).0 in
    (get_heap m' 0x20000000 ≡ ok (guest_heap 0x20000000 4096 16))
    × ((x : ℕ) → x ≢ 0x20000000 → get_heap m' x ≡ get_heap manager x)
get_heap-create_heap_example =
    get_heap-create_heap manager 0 4096 16 0x20000000 created (λ e. omega arith) (λ e. omega arith)
