-- ===== src/Common.antt =====
-- libs/common: error codes and results (error.hpp, result.hpp) and checked arithmetic
-- (safe_math.hpp). An error keeps its code and its offset; the text of its message is left out.
pub mod SafeMath
pub mod Stateful
mod Tests
use xblob_emulator.Prelude.{if◌then◌else◌, ℕ, Bool, true, false, ◌≡◌, refl, ◌⊎◌, inl, inr}

-- `enum class ErrorCode`, in the order of the source.
pub data ErrorCode : Type 0 where
  no_error : ErrorCode
  file_not_found access_denied io_error unexpected_eof invalid_path : ErrorCode
  not_a_directory is_a_directory invalid_handle read_only_file_system : ErrorCode
  invalid_magic unknown_format truncated_data integer_overflow out_of_bounds : ErrorCode
  invalid_header invalid_field : ErrorCode
  unsupported_format unsupported_feature : ErrorCode
  unmapped_address access_violation region_overlap invalid_capacity : ErrorCode
  unsupported_access_size : ErrorCode
  past_cycle event_not_found limit_reached : ErrorCode
  invalid_opcode general_protection segment_not_present execution_fault cpu_halted : ErrorCode
  invalid_argument invalid_state internal_error : ErrorCode

pub record Error : Type 0 where
  pub code : ErrorCode
  pub offset : ℕ

pub data Result {ℓ} (A : Type ℓ) : Type ℓ where
  ok : A → Result A
  err : Error → Result A

-- `Error{code, message}` leaves the offset at its default, 0.
abbrev pub fail {ℓ} : {A : Type ℓ} → ErrorCode → Result A
fail c = err (record { code = c; offset = 0 })

abbrev pub fail_at {ℓ} : {A : Type ℓ} → ErrorCode → ℕ → Result A
fail_at c n = err (record { code = c; offset = n })

abbrev pub has_value {ℓ} : {A : Type ℓ} → Result A → Bool
has_value (ok a) = true
has_value (err e) = false

-- `if (!test) return error;`.
abbrev pub check : Bool → Error → Result (Unit {0})
check test e = if test then ok tt else err e

-- `if (!r) return r.error();` followed by the rest.
infixl 5 ◌>>=◌ ◌>>◌
abbrev pub ◌>>=◌ {ℓ κ} : {A : Type ℓ} {B : Type κ} → Result A → (A → Result B) → Result B
r >>= rest = elim r [ err e ↦ err e | ok value ↦ rest value ]

abbrev pub ◌>>◌ {ℓ κ} : {A : Type ℓ} {B : Type κ} → Result A → Result B → Result B
r >> rest = elim r [ err e ↦ err e | ok value ↦ rest ]

pub Result-cases {ℓ} :
    {A : Type ℓ} (r : Result A) → ((a : A) × (r ≡ ok a)) ⊎ ((e : Error) × (r ≡ err e))
Result-cases (ok a) = inl (a, refl)
Result-cases (err e) = inr (e, refl)
