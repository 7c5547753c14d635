-- ===== src/Vfs/HandleTable/Close.antt =====
-- Closing, and the invariant through every call.
use mathlib.Core.Option.{some-injective}
use xblob_emulator.Vfs.HandleTable.{
  VfsHandle, VfsAccessMode, VfsFileInfo, VfsDirEntry, HandleSlot, VfsHandleTable, allocate_slot,
  put_slot, open_file, open_dir, allocate_file, allocate_dir, find_slot, next_generation, closed,
  close, reset_slot, reset, open_count,
}
use xblob_emulator.Vfs.HandleTable.Invariant.{
  IsGeneration, SlotOk, IsValid, next_generation-IsGeneration, Fills, open_file-Fills,
  open_dir-Fills, opened, full, put_slot-Opens,
}
use xblob_emulator.Vfs.HandleTable.Lookup.{
  Finds, find_slot-Finds, find_slot_of_Finds, find_slot_or_invalid, count_open-set,
}
use xblob_emulator.Common.{invalid_handle, ok, fail}
use xblob_emulator.Prelude.{
  ℕ, suc, ◌+◌, ◌%◌, ◌≡◌, refl, sym, ap, ◌∙◌, ◌≢◌, ◌⊎◌, inl, inr, Bool, true, false, Option, none,
  some, List, [], ◌∷◌, map, arith, if◌then◌else◌, length, get_elem?, set, length-set,
  get_elem?-set_self, get_elem?-set_ne, All, All-set, All-get_elem?, get_elem?-lt,
}

next_generation-mod : (g : ℕ) → IsGeneration g → next_generation g ≡ g % 65535 + 1
unfolding next_generation
next_generation-mod g h = ground arith

-- In a valid table `Close` succeeds exactly for a handle that finds a slot: one that is open and has
-- the handle's generation. The slot is then closed and its generation is the next one, 1 after 65,535;
-- the handle is refused in the new table, which is valid; one slot fewer is open, and every handle
-- with another index finds what it found. Any other handle is refused, and nothing changes.
pub close_lem :
    (t : VfsHandleTable) (h : VfsHandle)
    → IsValid t
    → let (t', r) = close t h in
      (((s : HandleSlot) → ¬ (Finds t h s))
        × (find_slot t h ≡ fail invalid_handle)
        × (r ≡ fail invalid_handle)
        × (t' ≡ t))
      ⊎ ((s : HandleSlot) × (c : HandleSlot) × (Finds t h s)
          × (r ≡ ok tt)
          × (get_elem? t'.slots h.index ≡ some c)
          × (c.is_open ≡ false)
          × (c.generation ≡ s.generation % 65535 + 1)
          × (find_slot t' h ≡ fail invalid_handle)
          × IsValid t'
          × (open_count t' + 1 ≡ open_count t)
          × ((g : VfsHandle) (s : HandleSlot)
              → g.index ≢ h.index
              → find_slot t g ≡ ok s
              → find_slot t' g ≡ ok s))
unfolding close open_count
close_lem t h v = elim (find_slot_or_invalid t h) [
  | inr e ↦
      rw (e, close)
        (inl (λ s w. (let k = find_slot_of_Finds t h s w in cc (k, e)), refl, refl, refl))
  | inl (s, e) ↦
      let f = find_slot-Finds t h s e in
      let lt = get_elem?-lt t.slots h.index s f.1 in
      let t' : VfsHandleTable = record t { slots = set t.slots h.index (closed s) } in
      let valid : IsValid t' = record {
        bounded = omega (arith, v.bounded, length-set t.slots h.index (closed s));
        generations =
            All-set SlotOk t.slots h.index (closed s) (next_generation-IsGeneration s.generation)
              v.generations;
      } in
      rw (e, close)
        (inr (
          s,
          closed s,
          f,
          refl,
          get_elem?-set_self t.slots h.index (closed s) lt,
          refl,
          next_generation-mod s.generation
              (All-get_elem? SlotOk t.slots h.index s v.generations f.1),
          refused t' (closed s) (get_elem?-set_self t.slots h.index (closed s) lt) refl,
          valid,
          ground (arith, count_open-set t.slots h.index s (closed s) f.1, f.2),
          λ g r n w.
              let k = find_slot-Finds t g r w in
              find_slot_of_Finds t' g r (
                k.0,
                get_elem?-set_ne t.slots h.index g.index (closed s) (λ q. n (sym q)) ∙ k.1,
                k.2,
                k.3,
              ),
        ))
]
  where
    refused :
        (u : VfsHandleTable) (c : HandleSlot)
        → get_elem? u.slots h.index ≡ some c
        → c.is_open ≡ false
        → find_slot u h ≡ fail invalid_handle
    refused u c at shut = elim (find_slot_or_invalid u h) [
      | inr e ↦ e
      | inl (s, e) ↦
          let f = find_slot-Finds u h s e in cc (shut, f.2, some-injective _ _ (sym at ∙ f.1))
    ]

-- The calls that change a table.
pub data Op : Type 0 where
  allocates_file : Option ℕ → VfsAccessMode → VfsFileInfo → Op
  allocates_dir : List VfsDirEntry → VfsFileInfo → Op
  closes : VfsHandle → Op
  resets : Op

unfoldable pub step : VfsHandleTable → Op → VfsHandleTable
step t (allocates_file source mode info) = (allocate_file t source mode info).0
step t (allocates_dir entries info) = (allocate_dir t entries info).0
step t (closes h) = (close t h).0
step t resets = reset t

unfoldable pub run : VfsHandleTable → List Op → VfsHandleTable
run t [] = t
run t (o ∷ os) = run (step t o) os

put_slot-IsValid :
    (t : VfsHandleTable) (f : HandleSlot → HandleSlot)
    → IsValid t
    → Fills f
    → IsValid (put_slot f (allocate_slot t)).0
put_slot-IsValid t f v fills = elim (put_slot-Opens t f v) [
  | full all le e ↦ rw e v
  | opened i old ss lt bound at shut good goods frame vacant count e ↦ rw e (record {
    bounded = omega (arith, length-set ss i (f old));
    generations = All-set SlotOk ss i (f old) (rw (fills.keeps old) good) goods;
  })
]

reset-SlotOk : (ss : List HandleSlot) → All SlotOk ss → All SlotOk (map reset_slot ss)
reset-SlotOk [] h = tt
reset-SlotOk (s ∷ ss) h = (by_state s.is_open, reset-SlotOk ss h.1)
  where
    by_state : (b : Bool) → SlotOk (if b then closed s else s)
    by_state true = next_generation-IsGeneration s.generation
    by_state false = h.0

length-reset : (ss : List HandleSlot) → length (map reset_slot ss) ≡ length ss
length-reset [] = refl
length-reset (s ∷ ss) = ap suc (length-reset ss)

-- Every call keeps the invariant, whatever its arguments and its result.
pub step-IsValid : (t : VfsHandleTable) (o : Op) → IsValid t → IsValid (step t o)
unfolding step allocate_file allocate_dir reset
step-IsValid t (allocates_file none mode info) v = v
step-IsValid t (allocates_file (some source) mode info) v =
    put_slot-IsValid t (open_file source mode info) v (open_file-Fills source mode info)
step-IsValid t (allocates_dir entries info) v =
    put_slot-IsValid t (open_dir entries info) v (open_dir-Fills entries info)
step-IsValid t (closes h) v = elim (close_lem t h v) [
  | inl (_, _, _, same) ↦ rw same v
  | inr (_, _, _, _, _, _, _, _, valid, _, _) ↦ valid
]
step-IsValid t resets v = record {
  bounded = omega (arith, v.bounded, length-reset t.slots);
  generations = reset-SlotOk t.slots v.generations;
}
