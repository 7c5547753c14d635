-- ===== src/Vfs/HandleTable/Tests.antt =====
-- The handle table on small inputs.
use xblob_emulator.Vfs.HandleTable.{
  VfsHandle, is_valid, to_u32, from_u32, file, read, HandleSlot, VfsHandleTable, no_info,
  fresh_slot, first_closed, allocate_slot, put_slot, open_file, open_dir, allocate_file,
  allocate_dir, find_slot, next_generation, close, get_file, get_dir, get_type, open_count,
}
use xblob_emulator.Vfs.HandleTable.Invariant.{IsValid}
use xblob_emulator.Vfs.HandleTable.Lookup.{
  Finds, Allocated, allocate_file_lem, allocate_dir_lem, get_file-allocate_file,
}
use xblob_emulator.Vfs.HandleTable.Close.{
  close_lem, allocates_file, resets, step, run, step-IsValid,
}
use xblob_emulator.Vfs.HandleTable.Stale.{closed_handle_stays_refused}
use xblob_emulator.Common.{not_a_directory, invalid_handle, ok, fail}
use xblob_emulator.Prelude.{◌+◌, ◌%◌, ◌≡◌, refl, ◌≢◌, ◌⊎◌, false, get_elem?, some, [], ◌∷◌, arith}

-- Two handles at most, none yet.
abbrev empty : VfsHandleTable
empty = record { max_handles = 2; slots = [] }

abbrev loaded : HandleSlot
loaded = open_file 7 read no_info fresh_slot

abbrev one_file : VfsHandleTable
one_file = record { max_handles = 2; slots = loaded ∷ [] }

abbrev first : VfsHandle
first = record { index = 0; generation = 1 }

empty-IsValid : IsValid empty
empty-IsValid = record { bounded = omega arith; generations = tt }

one_file-IsValid : IsValid one_file
one_file-IsValid = record { bounded = omega arith; generations = (omega arith, tt) }

allocate_first : allocate_file empty (some 7) read no_info ≡ (one_file, ok first)
unfolding allocate_file put_slot allocate_slot first_closed
allocate_first = refl

-- The slot is given out again under the next generation.
reopened :
    (allocate_file (close one_file first).0 (some 8) read no_info).1
    ≡ ok (record { index = 0; generation = 2 })
unfolding allocate_file put_slot allocate_slot first_closed close find_slot is_valid next_generation
reopened = refl

handle_words :
    from_u32 (to_u32 (record { index = 3; generation = 5 })) ≡ record { index = 3; generation = 5 }
unfolding from_u32 to_u32
handle_words = refl

allocate_file_lem_example :
    Allocated empty (open_file 7 read no_info) (allocate_file empty (some 7) read no_info)
allocate_file_lem_example = allocate_file_lem empty 7 read no_info empty-IsValid (omega arith)

allocate_dir_lem_example :
    Allocated one_file (open_dir [] no_info) (allocate_dir one_file [] no_info)
allocate_dir_lem_example = allocate_dir_lem one_file [] no_info one_file-IsValid (omega arith)

get_file-allocate_file_example :
    (get_file one_file first
      ≡ ok (record { source = some 7; position = 0; mode = read; info = no_info }))
    × (get_dir one_file first ≡ fail not_a_directory)
    × (get_type one_file first ≡ ok file)
get_file-allocate_file_example =
    get_file-allocate_file empty one_file 7 read no_info first empty-IsValid (omega arith)
      allocate_first

close_lem_example :
    let (t', r) = close one_file first in
    (((s : HandleSlot) → ¬ (Finds one_file first s))
      × (find_slot one_file first ≡ fail invalid_handle)
      × (r ≡ fail invalid_handle)
      × (t' ≡ one_file))
    ⊎ ((s : HandleSlot) × (c : HandleSlot) × (Finds one_file first s)
        × (r ≡ ok tt)
        × (get_elem? t'.slots 0 ≡ some c)
        × (c.is_open ≡ false)
        × (c.generation ≡ s.generation % 65535 + 1)
        × (find_slot t' first ≡ fail invalid_handle)
        × IsValid t'
        × (open_count t' + 1 ≡ open_count one_file)
        × ((g : VfsHandle) (s : HandleSlot)
            → g.index ≢ 0
            → find_slot one_file g ≡ ok s
            → find_slot t' g ≡ ok s))
close_lem_example = close_lem one_file first one_file-IsValid

step-IsValid_example : IsValid (step one_file resets)
step-IsValid_example = step-IsValid one_file resets one_file-IsValid

closed_handle_stays_refused_example :
    find_slot (run (close one_file first).0 (allocates_file (some 8) read no_info ∷ [])) first
    ≡ fail invalid_handle
closed_handle_stays_refused_example =
    closed_handle_stays_refused one_file first (allocates_file (some 8) read no_info ∷ [])
      one_file-IsValid closed_ok (omega arith)
  where
    closed_ok : (close one_file first).1 ≡ ok tt
    closed_ok = unfold close find_slot is_valid in refl
