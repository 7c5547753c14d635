-- ===== src/Vfs/HandleTable/Lookup.antt =====
-- What a handle finds: after an allocation, after a close, and for all other handles.
use mathlib.Core.Bool.{false≢true}
use xblob_emulator.Vfs.HandleTable.{
  VfsHandle, is_valid, file, directory, VfsAccessMode, VfsFileInfo, VfsDirEntry, HandleSlot,
  VfsHandleTable, fresh_slot, allocate_slot, slot_at, put_slot, open_file, open_dir, allocate_file,
  allocate_dir, find_slot, get_file, get_dir, get_type, count_open, open_count,
}
use xblob_emulator.Vfs.HandleTable.Invariant.{
  SlotOk, IsValid, Fills, open_file-Fills, open_dir-Fills, opened, full, put_slot-Opens,
}
use xblob_emulator.Common.{
  not_a_directory, is_a_directory, invalid_handle, limit_reached, Result, ok, fail,
}
use xblob_emulator.Prelude.{
  ℕ, zero, suc, ◌+◌, ◌%◌, ◌≤◌, ◌≡◌, refl, sym, ap, ◌∙◌, subst, ◌≢◌, ◌⊎◌, inl, inr, true, false, not,
  ◌||◌, some, List, [], ◌∷◌, arith, leb, ◌==◌, if◌then◌else◌, Bool-cases, length, get_elem?, set,
  length-set, get_elem?-set_self, get_elem?-set_ne, All, All-set, get_elem?-lt, get_elem?-get_or,
  u16_mod,
}

-- A handle finds a slot exactly if its generation is not 0 and is that of the open slot at its index.
abbrev pub Finds : VfsHandleTable → VfsHandle → HandleSlot → Type 0
Finds t h s =
    (h.generation ≢ 0)
    × (get_elem? t.slots h.index ≡ some s)
    × (s.is_open ≡ true)
    × (s.generation ≡ h.generation)

pub find_slot-Finds :
    (t : VfsHandleTable) (h : VfsHandle) (s : HandleSlot) → find_slot t h ≡ ok s → Finds t h s
unfolding find_slot is_valid
find_slot-Finds t h s e = ground (arith, get_elem?-get_or t.slots h.index fresh_slot)

pub find_slot_of_Finds :
    (t : VfsHandleTable) (h : VfsHandle) (s : HandleSlot) → Finds t h s → find_slot t h ≡ ok s
unfolding find_slot is_valid
find_slot_of_Finds t h s f =
    ground (arith, get_elem?-get_or t.slots h.index fresh_slot, get_elem?-lt t.slots h.index s f.1)

-- Every refusal of a handle is the same error.
pub find_slot_or_invalid :
    (t : VfsHandleTable) (h : VfsHandle)
    → ((s : HandleSlot) × (find_slot t h ≡ ok s)) ⊎ (find_slot t h ≡ fail invalid_handle)
unfolding find_slot
find_slot_or_invalid t h = elim (Bool-cases (not (is_valid h) || leb (length t.slots) h.index)) [
  | inl a ↦ inr (rw (a, find_slot))
  | inr a ↦
      let s = slot_at t h.index in
      elim (Bool-cases (not s.is_open || not (s.generation == h.generation))) [
        | inl b ↦ inr (rw (a, find_slot, b))
        | inr b ↦ inl (s, rw (a, find_slot, b))
      ]
]

pub count_open-set :
    (ss : List HandleSlot) (i : ℕ) (old new : HandleSlot)
    → get_elem? ss i ≡ some old
    → count_open (set ss i new) + (if old.is_open then 1 else 0)
      ≡ count_open ss + (if new.is_open then 1 else 0)
unfolding count_open
count_open-set [] i old new e = cc
count_open-set (s ∷ ss) zero old new e = ground arith
count_open-set (s ∷ ss) (suc i) old new e = ground (arith, count_open-set ss i old new e)

-- An allocation fails with the limit, all slots open, and changes nothing; or it returns a handle
-- that finds the slot as filled, with one more slot open, and no other handle finds another slot
-- than before.
abbrev pub Allocated :
    VfsHandleTable → (HandleSlot → HandleSlot) → VfsHandleTable × Result VfsHandle → Type 0
Allocated t f (t', r) =
    ((r ≡ fail limit_reached)
      × (t' ≡ t)
      × All (λ s. s.is_open ≡ true) t.slots
      × (t.max_handles ≤ length t.slots))
    ⊎ ((h : VfsHandle) × (old : HandleSlot) × (r ≡ ok h)
        × (find_slot t' h ≡ ok (f old))
        × IsValid t'
        × (open_count t' ≡ open_count t + 1)
        × ((g : VfsHandle) (s : HandleSlot) → find_slot t g ≡ ok s → find_slot t' g ≡ ok s))

pub put_slot-Allocated :
    (t : VfsHandleTable) (f : HandleSlot → HandleSlot)
    → IsValid t
    → t.max_handles ≤ u16_mod
    → Fills f
    → Allocated t f (put_slot f (allocate_slot t))
unfolding open_count
put_slot-Allocated t f v small fills = elim (put_slot-Opens t f v) [
  | full all le e ↦ rw e (inl (refl, refl, all, le))
  | opened i old ss lt bound at shut good goods frame vacant count e ↦
      let h : VfsHandle = record { index = i % u16_mod; generation = old.generation } in
      let t' : VfsHandleTable = record t { slots = set ss i (f old) } in
      let index : i % u16_mod ≡ i = omega arith in
      let stored : get_elem? (set ss i (f old)) (i % u16_mod) ≡ some (f old) =
        rw index (get_elem?-set_self ss i (f old) lt) in
      let valid : IsValid t' = record {
        bounded = omega (arith, length-set ss i (f old));
        generations = All-set SlotOk ss i (f old) (rw (fills.keeps old) good) goods;
      } in
      rw e (
        inr (
          h,
          old,
          refl,
          find_slot_of_Finds t' h (f old)
              (omega (arith, good.0), stored, fills.opens old, fills.keeps old),
          valid,
          ground (arith, count_open-set ss i old (f old) at, fills.opens old),
          λ g s found. find_slot_of_Finds t' g s (
              others ss i (f old) frame
                (λ r q. ap (λ (x : HandleSlot). x.is_open) (vacant r q) ∙ shut) g s
                (find_slot-Finds t g s found)),
        ))
]
  where
    others :
        (ss : List HandleSlot) (i : ℕ) (new : HandleSlot)
        → ((j : ℕ) → j ≢ i → get_elem? ss j ≡ get_elem? t.slots j)
        → ((s : HandleSlot) → get_elem? t.slots i ≡ some s → s.is_open ≡ false)
        → (g : VfsHandle) (s : HandleSlot) → Finds t g s
        → Finds (record t { slots = set ss i new }) g s
    others ss i new frame vacant g s w =
        let n : i ≢ g.index = λ e. false≢true (sym (vacant s (rw e w.1)) ∙ w.2) in
        (w.0, get_elem?-set_ne ss i g.index new n ∙ frame g.index (λ e. n (sym e)) ∙ w.1, w.2, w.3)

-- In a valid table whose maximum is at most 65,536, which an index of 16 bits can name, `AllocateFile`
-- with a byte source either refuses with the limit, where no slot is closed and the table is at its
-- maximum, and changes nothing; or it returns a handle that finds the slot it filled, every handle
-- that found a slot still finds it, one slot more is open, and the table stays valid.
pub allocate_file_lem :
    (t : VfsHandleTable) (source : ℕ) (mode : VfsAccessMode) (info : VfsFileInfo)
    → IsValid t
    → t.max_handles ≤ u16_mod
    → Allocated t (open_file source mode info) (allocate_file t (some source) mode info)
unfolding allocate_file
allocate_file_lem t source mode info v small =
    put_slot-Allocated t (open_file source mode info) v small (open_file-Fills source mode info)

-- `AllocateDir`.
pub allocate_dir_lem :
    (t : VfsHandleTable) (entries : List VfsDirEntry) (info : VfsFileInfo)
    → IsValid t
    → t.max_handles ≤ u16_mod
    → Allocated t (open_dir entries info) (allocate_dir t entries info)
unfolding allocate_dir
allocate_dir_lem t entries info v small =
    put_slot-Allocated t (open_dir entries info) v small (open_dir-Fills entries info)

-- In a valid table whose maximum is at most 65,536, a handle that `AllocateFile` returns for a byte
-- source reads back as that file, at position 0, and is refused as a directory.
pub get_file-allocate_file :
    (t t' : VfsHandleTable) (source : ℕ) (mode : VfsAccessMode) (info : VfsFileInfo) (h : VfsHandle)
    → IsValid t
    → t.max_handles ≤ u16_mod
    → allocate_file t (some source) mode info ≡ (t', ok h)
    → (get_file t' h ≡ ok (record { source = some source; position = 0; mode = mode; info = info }))
      × (get_dir t' h ≡ fail not_a_directory)
      × (get_type t' h ≡ ok file)
unfolding get_file get_dir get_type
get_file-allocate_file t t' source mode info h v small e = read_back (
    subst (Allocated t (open_file source mode info)) e
      (allocate_file_lem t source mode info v small))
  where
    read_back :
        Allocated t (open_file source mode info) (t', ok h)
        → (get_file t' h
            ≡ ok (record { source = some source; position = 0; mode = mode; info = info }))
          × (get_dir t' h ≡ fail not_a_directory)
          × (get_type t' h ≡ ok file)
    read_back (inl bad) = cc (bad.0)
    read_back (inr (g, old, same, found, _, _, _)) =
        let hg : g ≡ h = cc same in
        let at : find_slot t' h ≡ ok (open_file source mode info old) = rw hg at found in
        (rw (at, get_file), rw (at, get_dir), rw (at, get_type))

-- So for a directory.
pub get_dir-allocate_dir :
    (t t' : VfsHandleTable) (entries : List VfsDirEntry) (info : VfsFileInfo) (h : VfsHandle)
    → IsValid t
    → t.max_handles ≤ u16_mod
    → allocate_dir t entries info ≡ (t', ok h)
    → (get_dir t' h ≡ ok (record { entries = entries; enumeration_index = 0; info = info }))
      × (get_file t' h ≡ fail is_a_directory)
      × (get_type t' h ≡ ok directory)
unfolding get_file get_dir get_type
get_dir-allocate_dir t t' entries info h v small e =
    read_back
      (subst (Allocated t (open_dir entries info)) e (allocate_dir_lem t entries info v small))
  where
    read_back :
        Allocated t (open_dir entries info) (t', ok h)
        → (get_dir t' h ≡ ok (record { entries = entries; enumeration_index = 0; info = info }))
          × (get_file t' h ≡ fail is_a_directory)
          × (get_type t' h ≡ ok directory)
    read_back (inl bad) = cc (bad.0)
    read_back (inr (g, old, same, found, _, _, _)) =
        let hg : g ≡ h = cc same in
        let at : find_slot t' h ≡ ok (open_dir entries info old) = rw hg at found in
        (rw (at, get_dir), rw (at, get_file), rw (at, get_type))
