-- ===== src/Memory/Region/Tests.antt =====
-- Small RAMs and regions.
use xblob_emulator.Memory.Region.{
  perm_write, has_permission, Ram, create_ram, store_byte, load_bytes, store_bytes, in_ram,
  ram_read_bytes, ram_write_bytes,
}
use xblob_emulator.Common.{out_of_bounds, invalid_capacity, ok, fail_at}
use xblob_emulator.Common.SafeMath.{checked_add}
use xblob_emulator.Prelude.{◌≡◌, refl, false, [], ◌∷◌}

abbrev small : Ram
small = record { size = 8; byte = λ j. j }

copied : ram_read_bytes (ram_write_bytes small 2 (7 ∷ 9 ∷ [])).0 1 4 ≡ ok (1 ∷ 7 ∷ 9 ∷ 4 ∷ [])
unfolding ram_read_bytes ram_write_bytes in_ram load_bytes store_bytes store_byte checked_add
copied = refl

past_end : ram_read_bytes small 7 2 ≡ fail_at out_of_bounds 7
unfolding ram_read_bytes in_ram checked_add
past_end = refl

other_size : create_ram 1024 ≡ fail_at invalid_capacity 1024
unfolding create_ram
other_size = refl

lacks_write : has_permission 5 perm_write ≡ false
unfolding has_permission
lacks_write = refl
