-- ===== src/Kernel/Heap/Manager.antt =====
-- `GuestHeapManager` of guest_heap.hpp and guest_heap.cpp: the default heap and the secondary heaps,
-- a map from handles, which are base addresses. `GetHeap` returns the heap's value.
use xblob_emulator.Kernel.Heap.{GuestHeap, reset, guest_heap}
use xblob_emulator.Common.{invalid_argument, Result, ok, fail}
use xblob_emulator.Prelude.{
  ℕ, ◌*◌, ◌/◌, ◌%◌, ◌^◌, ◌≡◌, sym, ap, ◌∙◌, ◌≢◌, false, ◌||◌, Option, none, some, List, [], ◌∷◌,
  arith, ltb, ◌==◌, if◌then◌else◌, u32_mod, add32, add64,
}

pub record GuestHeapManager : Type 0 where
  pub default_heap : GuestHeap
  pub secondary_heaps : List (ℕ × GuestHeap)
  pub next_secondary_base : ℕ

unfoldable pub guest_heap_manager : ℕ → ℕ → GuestHeapManager
guest_heap_manager default_base default_size = record {
  default_heap = guest_heap default_base default_size 8;
  secondary_heaps = [];
  next_secondary_base = 0x20000000;
}

unfoldable pub reset_all : GuestHeapManager → GuestHeapManager
reset_all m = record {
  default_heap = reset m.default_heap;
  secondary_heaps = [];
  next_secondary_base = 0x20000000;
}

unfoldable pub find_heap : ℕ → List (ℕ × GuestHeap) → Option GuestHeap
find_heap handle [] = none
find_heap handle ((key, h) ∷ hs) = if key == handle then some h else find_heap handle hs

unfoldable pub put_heap : ℕ → GuestHeap → List (ℕ × GuestHeap) → List (ℕ × GuestHeap)
put_heap handle h [] = (handle, h) ∷ []
put_heap handle h ((key, old) ∷ hs) =
    if key == handle
    then (handle, h) ∷ hs
    else if ltb handle key
    then (handle, h) ∷ (key, old) ∷ hs
    else (key, old) ∷ put_heap handle h hs

unfoldable pub erase_heap : ℕ → List (ℕ × GuestHeap) → List (ℕ × GuestHeap)
erase_heap handle [] = []
erase_heap handle ((key, h) ∷ hs) = if key == handle then hs else (key, h) ∷ erase_heap handle hs

-- `static_cast<u32>((size + 0xFFFF) & ~0xFFFF)`.
abbrev rounded : ℕ → ℕ
rounded size = add64 size 0xFFFF / 2 ^ 16 * 2 ^ 16 % u32_mod

unfoldable pub create_heap : GuestHeapManager → ℕ → ℕ → ℕ → GuestHeapManager × Result ℕ
create_heap m base size alignment =
    let target_base = if base == 0 then m.next_secondary_base else base in
    (
      record m {
        secondary_heaps =
            put_heap target_base (guest_heap target_base size alignment) m.secondary_heaps;
        next_secondary_base =
            if base == 0 then add32 m.next_secondary_base (rounded size) else m.next_secondary_base;
      },
      ok target_base,
    )

unfoldable pub destroy_heap : GuestHeapManager → ℕ → GuestHeapManager × Result (Unit {0})
destroy_heap m handle =
    if handle == m.default_heap.base_addr
    then (m, fail invalid_argument)
    else elim (find_heap handle m.secondary_heaps) [
      | none ↦ (m, fail invalid_argument)
      | some h ↦ (record m { secondary_heaps = erase_heap handle m.secondary_heaps }, ok tt)
    ]

unfoldable pub get_heap : GuestHeapManager → ℕ → Result GuestHeap
get_heap m handle =
    if handle == 0 || handle == m.default_heap.base_addr
    then ok m.default_heap
    else elim (find_heap handle m.secondary_heaps) [ some h ↦ ok h | none ↦ fail invalid_argument ]

find_heap-put_heap_self :
    (handle : ℕ) (h : GuestHeap) (hs : List (ℕ × GuestHeap))
    → find_heap handle (put_heap handle h hs) ≡ some h
unfolding find_heap put_heap
find_heap-put_heap_self handle h [] = ground arith
find_heap-put_heap_self handle h ((key, old) ∷ hs) =
    ground (arith, find_heap-put_heap_self handle h hs)

find_heap-put_heap_ne :
    (handle x : ℕ) (h : GuestHeap) (hs : List (ℕ × GuestHeap))
    → x ≢ handle
    → find_heap x (put_heap handle h hs) ≡ find_heap x hs
unfolding find_heap put_heap
find_heap-put_heap_ne handle x h [] n = ground arith
find_heap-put_heap_ne handle x h ((key, old) ∷ hs) n =
    ground (arith, find_heap-put_heap_ne handle x h hs n)

-- The handle of a new heap finds it, unless it is 0 or the base of the default heap, and every other
-- handle finds what it found.
pub get_heap-create_heap :
    (m : GuestHeapManager) (base size alignment handle : ℕ)
    → (create_heap m base size alignment).1 ≡ ok handle
    → handle ≢ 0
    → handle ≢ m.default_heap.base_addr
    → let m' = (create_heap m base size alignment).0 in
      (get_heap m' handle ≡ ok (guest_heap handle size alignment))
      × ((x : ℕ) → x ≢ handle → get_heap m' x ≡ get_heap m x)
unfolding create_heap get_heap
get_heap-create_heap m base size alignment handle e z d =
    let target = if base == 0 then m.next_secondary_base else base in
    let is : target ≡ handle = ground (arith, e) in
    let made : GuestHeap = guest_heap target size alignment in
    let at : find_heap handle (put_heap target made m.secondary_heaps)
        ≡ some (guest_heap handle size alignment) =
      ap (λ y. find_heap y (put_heap target made m.secondary_heaps)) (sym is)
      ∙ find_heap-put_heap_self target made m.secondary_heaps
      ∙ ap (λ y. some (guest_heap y size alignment)) is in
    let plain : (handle == 0 || handle == m.default_heap.base_addr) ≡ false = ground arith in
    (
      rw (plain, get_heap, at),
      λ x n.
          let ne : x ≢ target = λ k. n (k ∙ is) in
          let kept = find_heap-put_heap_ne target x made m.secondary_heaps ne in
          rw (kept, get_heap),
    )
