-- ===== src/Vfs/HandleTable.antt =====
-- libs/vfs/include/xblob/vfs/vfs_types.hpp, vfs_handle_table.hpp and src/vfs_handle_table.cpp: the
-- generational table of open files and directories. A byte source is known by a number, `none` is
-- the null pointer, and a name is a list of bytes. Where the source returns a pointer to a slot, the
-- model returns the slot's value.
pub mod Invariant
pub mod Lookup
pub mod Close
pub mod Stale
mod Tests
use xblob_emulator.Common.{
  not_a_directory, is_a_directory, invalid_handle, limit_reached, invalid_argument, Result, ok, err,
  fail, ◌>>=◌,
}
use xblob_emulator.Prelude.{
  ℕ, ◌+◌, ◌*◌, ◌/◌, ◌%◌, ◌^◌, Bool, true, false, not, ◌||◌, Option, none, some, List, [], ◌∷◌, ◌++◌,
  map, leb, ◌==◌, if◌then◌else◌, length, set, get_or, u16_mod, u32_mod, add16,
}

pub record VfsHandle : Type 0 where
  pub index : ℕ
  pub generation : ℕ

unfoldable pub is_valid : VfsHandle → Bool
is_valid h = not (h.generation == 0)

-- `ToU32` and `FromU32`
unfoldable pub to_u32 : VfsHandle → ℕ
to_u32 h = h.generation * 2 ^ 16 % u32_mod + h.index

unfoldable pub from_u32 : ℕ → VfsHandle
from_u32 val = record { index = val % 2 ^ 16; generation = val / 2 ^ 16 % 2 ^ 16 }

pub data VfsNodeType : Type 0 where
  file directory : VfsNodeType

pub data VfsAccessMode : Type 0 where
  read write : VfsAccessMode

pub record VfsFileInfo : Type 0 where
  pub name : List ℕ
  pub size : ℕ
  pub is_directory : Bool
  pub attributes : ℕ
  pub creation_timestamp : ℕ

pub record VfsDirEntry : Type 0 where
  pub name : List ℕ
  pub is_directory : Bool
  pub size : ℕ
  pub attributes : ℕ

pub record FileSlot : Type 0 where
  pub source : Option ℕ
  pub position : ℕ
  pub mode : VfsAccessMode
  pub info : VfsFileInfo

pub record DirSlot : Type 0 where
  pub entries : List VfsDirEntry
  pub enumeration_index : ℕ
  pub info : VfsFileInfo

pub record HandleSlot : Type 0 where
  pub generation : ℕ
  pub is_open : Bool
  pub type : VfsNodeType
  pub file_slot : FileSlot
  pub dir_slot : DirSlot

pub record VfsHandleTable : Type 0 where
  pub max_handles : ℕ
  pub slots : List HandleSlot

-- The default member values: `{}`.
abbrev pub no_info : VfsFileInfo
no_info = record {
  name = [];
  size = 0;
  is_directory = false;
  attributes = 0;
  creation_timestamp = 0;
}

abbrev pub no_file : FileSlot
no_file = record { source = none; position = 0; mode = read; info = no_info }

abbrev pub no_dir : DirSlot
no_dir = record { entries = []; enumeration_index = 0; info = no_info }

abbrev pub fresh_slot : HandleSlot
fresh_slot = record {
  generation = 1;
  is_open = false;
  type = file;
  file_slot = no_file;
  dir_slot = no_dir;
}

-- The loop of `AllocateSlot`: the first closed slot, counted from `i`.
unfoldable pub first_closed : List HandleSlot → ℕ → Option ℕ
first_closed [] i = none
first_closed (s ∷ ss) i = if s.is_open then first_closed ss (i + 1) else some i

unfoldable pub allocate_slot : VfsHandleTable → VfsHandleTable × Result ℕ
allocate_slot t = elim (first_closed t.slots 0) [
  | some i ↦ (t, ok i)
  | none ↦
      if leb t.max_handles (length t.slots)
      then (t, fail limit_reached)
      else (record t { slots = t.slots ++ (fresh_slot ∷ []) }, ok (length t.slots))
]

-- `slots_[i]`, which `AllocateSlot` returns in range.
abbrev pub slot_at : VfsHandleTable → ℕ → HandleSlot
slot_at t i = get_or t.slots i fresh_slot

-- What `AllocateFile` and `AllocateDir` do with the slot found.
unfoldable pub put_slot :
    (HandleSlot → HandleSlot) → VfsHandleTable × Result ℕ → VfsHandleTable × Result VfsHandle
put_slot f (t, err e) = (t, err e)
put_slot f (t, ok i) = (
  record t { slots = set t.slots i (f (slot_at t i)) },
  ok (record { index = i % u16_mod; generation = (slot_at t i).generation }),
)

abbrev pub open_file : ℕ → VfsAccessMode → VfsFileInfo → HandleSlot → HandleSlot
open_file source mode info s = record s {
  is_open = true;
  type = file;
  file_slot = record { source = some source; position = 0; mode = mode; info = info };
  dir_slot = no_dir;
}

abbrev pub open_dir : List VfsDirEntry → VfsFileInfo → HandleSlot → HandleSlot
open_dir entries info s = record s {
  is_open = true;
  type = directory;
  dir_slot = record { entries = entries; enumeration_index = 0; info = info };
  file_slot = no_file;
}

unfoldable pub allocate_file :
    VfsHandleTable → Option ℕ → VfsAccessMode → VfsFileInfo → VfsHandleTable × Result VfsHandle
allocate_file t none mode info = (t, fail invalid_argument)
allocate_file t (some source) mode info = put_slot (open_file source mode info) (allocate_slot t)

unfoldable pub allocate_dir :
    VfsHandleTable → List VfsDirEntry → VfsFileInfo → VfsHandleTable × Result VfsHandle
allocate_dir t entries info = put_slot (open_dir entries info) (allocate_slot t)

-- The checks that open every access by handle.
unfoldable pub find_slot : VfsHandleTable → VfsHandle → Result HandleSlot
find_slot t h =
    if not (is_valid h) || leb (length t.slots) h.index
    then fail invalid_handle
    else let s = slot_at t h.index in
      if not s.is_open || not (s.generation == h.generation) then fail invalid_handle else ok s

-- The generation after a close: 16 bits wide, and never 0.
unfoldable pub next_generation : ℕ → ℕ
next_generation g = if add16 g 1 == 0 then 1 else add16 g 1

abbrev pub closed : HandleSlot → HandleSlot
closed s = record s {
  is_open = false;
  generation = next_generation s.generation;
  file_slot = no_file;
  dir_slot = no_dir;
}

unfoldable pub close : VfsHandleTable → VfsHandle → VfsHandleTable × Result (Unit {0})
close t h = elim (find_slot t h) [
  | err e ↦ (t, err e)
  | ok s ↦ (record t { slots = set t.slots h.index (closed s) }, ok tt)
]

unfoldable pub get_file : VfsHandleTable → VfsHandle → Result FileSlot
get_file t h = do
  s ← find_slot t h
  elim s.type [ file ↦ ok s.file_slot | directory ↦ fail is_a_directory ]

unfoldable pub get_dir : VfsHandleTable → VfsHandle → Result DirSlot
get_dir t h = do
  s ← find_slot t h
  elim s.type [ file ↦ fail not_a_directory | directory ↦ ok s.dir_slot ]

unfoldable pub get_type : VfsHandleTable → VfsHandle → Result VfsNodeType
get_type t h = do s ← find_slot t h; ok s.type

abbrev pub reset_slot : HandleSlot → HandleSlot
reset_slot s = if s.is_open then closed s else s

unfoldable pub reset : VfsHandleTable → VfsHandleTable
reset t = record t { slots = map reset_slot t.slots }

unfoldable pub count_open : List HandleSlot → ℕ
count_open [] = 0
count_open (s ∷ ss) = if s.is_open then count_open ss + 1 else count_open ss

unfoldable pub open_count : VfsHandleTable → ℕ
open_count t = count_open t.slots
