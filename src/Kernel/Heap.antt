-- ===== src/Kernel/Heap.antt =====
-- libs/kernel/include/xblob/kernel/guest_heap.hpp and libs/kernel/src/guest_heap.cpp: the guest's
-- heaps, first-fit over a list of free blocks sorted by address. An address has 32 bits, a size 64.
-- The map of active allocations is the list of its entries. The copy of the old contents that
-- `ReAllocate` makes through guest memory is returned as a request.
pub mod Bits
pub mod RoundUp
pub mod Cover
pub mod Fit
pub mod AlignedFit
pub mod Overlap
pub mod Calls
pub mod Manager
mod Tests
use Prim.Native.Nat.{bit_and}
use xblob_emulator.Common.{
  out_of_bounds, limit_reached, invalid_argument, Result, ok, err, fail, fail_at, ◌>>◌,
}
use xblob_emulator.Common.SafeMath.{u64_max}
use xblob_emulator.Prelude.{
  ℕ, ◌-◌, ◌%◌, min, max, true, false, not, ◌||◌, Option, none, some, List, [], ◌∷◌, ltb, leb, ◌==◌,
  if◌then◌else◌, u32_mod, add32, sub32, add64, sub64,
}

pub record FreeBlock : Type 0 where
  pub addr : ℕ
  pub size : ℕ

pub record GuestHeap : Type 0 where
  pub base_addr : ℕ
  pub total_size : ℕ
  pub alignment : ℕ
  pub allocated_bytes : ℕ
  pub free_blocks : List FreeBlock
  pub active_allocations : List (ℕ × ℕ)

unfoldable pub reset : GuestHeap → GuestHeap
reset h = record h {
  free_blocks =
      if ltb 0 h.total_size then record { addr = h.base_addr; size = h.total_size } ∷ [] else [];
  active_allocations = [];
  allocated_bytes = 0;
}

unfoldable pub guest_heap : ℕ → ℕ → ℕ → GuestHeap
guest_heap base_addr size_bytes alignment = reset (record {
  base_addr = base_addr;
  total_size = size_bytes;
  alignment = if alignment == 0 then 8 else alignment;
  allocated_bytes = 0;
  free_blocks = [];
  active_allocations = [];
})

-- `active_allocations_.find(addr)`.
unfoldable pub find_active : ℕ → List (ℕ × ℕ) → Option ℕ
find_active addr [] = none
find_active addr ((key, size) ∷ ms) = if key == addr then some size else find_active addr ms

-- `active_allocations_[addr] = size`.
unfoldable pub put_active : ℕ → ℕ → List (ℕ × ℕ) → List (ℕ × ℕ)
put_active addr size [] = (addr, size) ∷ []
put_active addr size ((key, old) ∷ ms) =
    if key == addr
    then (addr, size) ∷ ms
    else if ltb addr key
    then (addr, size) ∷ (key, old) ∷ ms
    else (key, old) ∷ put_active addr size ms

unfoldable pub erase_active : ℕ → List (ℕ × ℕ) → List (ℕ × ℕ)
erase_active addr [] = []
erase_active addr ((key, size) ∷ ms) =
    if key == addr then ms else (key, size) ∷ erase_active addr ms

-- `(x + (a - 1)) & ~(a - 1)` on 64 bits, for `a` that is not 0.
unfoldable pub align_up : ℕ → ℕ → ℕ
align_up x a = bit_and (add64 x (a - 1)) (u64_max - (a - 1))

-- The result of a search for room: the free blocks after it, the address and the size taken.
pub record Taken : Type 0 where
  pub blocks : List FreeBlock
  pub addr : ℕ
  pub size : ℕ

-- The loop of `Allocate`: the first block that is large enough is split or used whole.
unfoldable pub first_fit : ℕ → ℕ → List FreeBlock → Option Taken
first_fit alignment n [] = none
first_fit alignment n (b ∷ bs) = elim (leb n b.size) [
  | true ↦
      if leb alignment (b.size - n)
      then some (record {
        blocks = record { addr = add32 b.addr n; size = b.size - n } ∷ bs;
        addr = b.addr;
        size = n;
      })
      else some (record { blocks = bs; addr = b.addr; size = b.size })
  | false ↦ elim (first_fit alignment n bs) [
    | none ↦ none
    | some t ↦ some (record t { blocks = b ∷ t.blocks })
  ]
]

-- The blocks found, entered in the heap.
unfoldable pub take_blocks : GuestHeap → Option Taken → GuestHeap × Result ℕ
take_blocks h none = (h, fail limit_reached)
take_blocks h (some t) = (
  record h {
    free_blocks = t.blocks;
    active_allocations = put_active t.addr t.size h.active_allocations;
    allocated_bytes = add64 h.allocated_bytes t.size;
  },
  ok t.addr,
)

unfoldable pub allocate : GuestHeap → ℕ → GuestHeap × Result ℕ
allocate h size_bytes =
    if size_bytes == 0
    then (h, fail invalid_argument)
    else take_blocks h (first_fit h.alignment (align_up size_bytes h.alignment) h.free_blocks)

-- The loop of `AllocateAligned`, with the effective alignment `align`.
unfoldable pub aligned_fit : ℕ → ℕ → ℕ → List FreeBlock → Option Taken
aligned_fit alignment align n [] = none
aligned_fit alignment align n (b ∷ bs) =
    let candidate : ℕ = align_up b.addr align % u32_mod in
    let padding : ℕ = sub32 candidate b.addr in
    let consumed : ℕ = add64 padding n in
    let remaining : ℕ = b.size - consumed in
    elim (leb consumed b.size) [
      | true ↦
          if ltb 0 padding
          then some (record {
            blocks =
                record { addr = b.addr; size = padding }
                ∷ (if leb alignment remaining
                    then record { addr = add32 candidate (n % u32_mod); size = remaining } ∷ bs
                    else bs);
            addr = candidate;
            size = n;
          })
          else if leb alignment remaining
          then some (record {
            blocks = record { addr = add32 b.addr n; size = remaining } ∷ bs;
            addr = candidate;
            size = n;
          })
          else some (record { blocks = bs; addr = candidate; size = b.size })
      | false ↦ elim (aligned_fit alignment align n bs) [
        | none ↦ none
        | some t ↦ some (record t { blocks = b ∷ t.blocks })
      ]
    ]

unfoldable pub allocate_aligned : GuestHeap → ℕ → ℕ → GuestHeap × Result ℕ
allocate_aligned h size_bytes alignment =
    if size_bytes == 0
    then (h, fail invalid_argument)
    else if ltb alignment 4 || not (bit_and alignment (alignment - 1) == 0)
    then (h, fail invalid_argument)
    else let align : ℕ = max h.alignment alignment in
      take_blocks h (aligned_fit h.alignment align (align_up size_bytes align) h.free_blocks)

-- `Coalesce`, with the last of the merged blocks in hand.
unfoldable pub merge : FreeBlock → List FreeBlock → List FreeBlock
merge last [] = last ∷ []
merge last (b ∷ bs) = elim (add64 last.addr last.size == b.addr) [
  | true ↦ merge (record last { size = add64 last.size b.size }) bs
  | false ↦ last ∷ merge b bs
]

unfoldable pub coalesce : List FreeBlock → List FreeBlock
coalesce [] = []
coalesce (b ∷ bs) = merge b bs

-- `std::lower_bound` and `insert`.
unfoldable pub insert_block : FreeBlock → List FreeBlock → List FreeBlock
insert_block b [] = b ∷ []
insert_block b (c ∷ cs) = if ltb c.addr b.addr then c ∷ insert_block b cs else b ∷ c ∷ cs

unfoldable pub free : GuestHeap → ℕ → GuestHeap × Result (Unit {0})
free h addr =
    if ltb addr h.base_addr || leb (add64 h.base_addr h.total_size) addr
    then (h, fail_at out_of_bounds addr)
    else elim (find_active addr h.active_allocations) [
      | none ↦ (h, fail_at invalid_argument addr)
      | some size ↦ (
        record h {
          active_allocations = erase_active addr h.active_allocations;
          allocated_bytes = sub64 h.allocated_bytes size;
          free_blocks = coalesce (insert_block (record { addr = addr; size = size }) h.free_blocks);
        },
        ok tt,
      )
    ]

-- The copy that `ReAllocate` makes where it is given a guest memory.
pub record Copy : Type 0 where
  pub source : ℕ
  pub target : ℕ
  pub bytes : ℕ

unfoldable pub re_allocate : GuestHeap → ℕ → ℕ → (GuestHeap × Result ℕ) × Option Copy
re_allocate h addr new_size = elim (find_active addr h.active_allocations) [
  | none ↦ ((h, fail invalid_argument), none)
  | some old_size ↦
      if new_size == 0
      then (let (h', r) = free h addr in ((h', r >> ok 0), none))
      else let (h', r) = allocate h new_size in
        elim r [
          | err e ↦ ((h', err e), none)
          | ok new_addr ↦ (
            ((free h' addr).0, ok new_addr),
            if new_addr == addr
                then none
                else some
                    (record { source = addr; target = new_addr; bytes = min old_size new_size }),
          )
        ]
]

unfoldable pub get_block_size : GuestHeap → ℕ → Result ℕ
get_block_size h addr = elim (find_active addr h.active_allocations) [
  | none ↦ fail invalid_argument
  | some size ↦ ok size
]
