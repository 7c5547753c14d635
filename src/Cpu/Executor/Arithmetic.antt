-- ===== src/Cpu/Executor/Arithmetic.antt =====
-- libs/cpu/src/executor_shift.cpp and executor_muldiv.cpp. Signed numbers are in two's complement: a
-- signed product is one modulo 2 ^ 64, and a signed division divides the magnitudes.
use xblob_emulator.Common.Stateful.{Stateful, ◌>>=◌, ◌>>◌, pure, raise}
use xblob_emulator.Common.{invalid_opcode, fail}
use xblob_emulator.Cpu.Registers.{eax, CpuContext, get_gpr, set_gpr, get_gpr8, set_gpr16}
use xblob_emulator.Cpu.Flags.{bit, calculate_parity, set_flag}
use xblob_emulator.Cpu.Instruction.{
  MemoryType, no_operand, Machine, on_ctx, from_ctx, read_operand, write_operand, InstructionId,
  inst_shl, inst_shr, inst_sar, inst_rol, inst_ror, inst_mul, inst_imul, inst_div, inst_idiv,
  DecodedInstruction,
}
use xblob_emulator.Cpu.Executor.Basic.{ExecutionResult, execution_result, edx, arithmetic_shift}
use xblob_emulator.Prelude.{
  ℕ, ◌+◌, ◌-◌, ◌*◌, ◌/◌, ◌%◌, ◌^◌, Bool, true, false, not, ◌&&◌, Option, none, some, ltb, leb, ◌==◌,
  if◌then◌else◌,
}

-- What a shift does to a number of `w` bits.
pub data ShiftOutcome : Type 0 where
  shifted : ℕ → Bool → Bool → Bool → ShiftOutcome
  unchanged unknown_shift : ShiftOutcome

abbrev pub is_set : ℕ → ℕ → Bool
is_set x k = bit x k == 1

abbrev pub xor_bit : Bool → Bool → Bool
xor_bit a b = if a then not b else b

abbrev pub shift_left : ℕ → ℕ → ℕ → ShiftOutcome
shift_left w val n =
    let cf = if leb n w then is_set val (w - n) else false in
    let res = if ltb n w then val * 2 ^ n % 2 ^ w else 0 in
    shifted res cf (xor_bit (is_set res (w - 1)) cf) true

abbrev pub shift_right : ℕ → ℕ → ℕ → ShiftOutcome
shift_right w val n =
    let cf = if leb n w then is_set val (n - 1) else false in
    shifted (if ltb n w then val / 2 ^ n else 0) cf (is_set val (w - 1)) true

abbrev pub shift_arithmetic : ℕ → ℕ → ℕ → ShiftOutcome
shift_arithmetic w val n =
    let negative = is_set val (w - 1) in
    let res = if ltb n w then arithmetic_shift w val n else if negative then 2 ^ w - 1 else 0 in
    let cf = if leb n w then is_set (arithmetic_shift w val (n - 1)) 0 else negative in
    shifted res cf false true

-- A rotation by a multiple of the width does nothing.
abbrev pub rotate_left : ℕ → ℕ → ℕ → ShiftOutcome
rotate_left w val n =
    if n % w == 0
    then unchanged
    else let res = val * 2 ^ (n % w) % 2 ^ w + val / 2 ^ (w - n % w) in
      shifted res (is_set res 0) (xor_bit (is_set res (w - 1)) (is_set res 0)) false

abbrev pub rotate_right : ℕ → ℕ → ℕ → ShiftOutcome
rotate_right w val n =
    if n % w == 0
    then unchanged
    else let res = val / 2 ^ (n % w) + val * 2 ^ (w - n % w) % 2 ^ w in
      shifted res (is_set res (w - 1)) (xor_bit (is_set res (w - 1)) (is_set res (w - 2))) false

unfoldable pub shift_outcome : InstructionId → ℕ → ℕ → ℕ → ShiftOutcome
shift_outcome inst_shl w val n = shift_left w val n
shift_outcome inst_shr w val n = shift_right w val n
shift_outcome inst_sar w val n = shift_arithmetic w val n
shift_outcome inst_rol w val n = rotate_left w val n
shift_outcome inst_ror w val n = rotate_right w val n
shift_outcome _ w val n = unknown_shift

-- The flags after a shift of a number of `w` bits by `n`: OF only if `n` is 1, the others but CF only
-- for a shift.
unfoldable pub shift_flags : ℕ → ℕ → ℕ → Bool → Bool → Bool → CpuContext → CpuContext
shift_flags w n res cf of update c =
    let carried = set_flag c 0 cf in
    let overflowed = if n == 1 then set_flag carried 11 of else carried in
    let signed = set_flag overflowed 7 (is_set res (w - 1)) in
    let updated = set_flag (set_flag signed 6 (res == 0)) 2 (calculate_parity (res % 2 ^ 8)) in
    if update then updated else overflowed

-- A 32-bit number as one of 64 bits, with its sign.
abbrev pub to_i64 : ℕ → ℕ
to_i64 x = if ltb x (2 ^ 31) then x else x + (2 ^ 64 - 2 ^ 32)

-- A signed product, modulo 2 ^ 64: it fits.
abbrev pub signed_product : ℕ → ℕ → ℕ
signed_product a b = to_i64 a * to_i64 b % 2 ^ 64

abbrev pub product_overflows : ℕ → Bool
product_overflows product = not (product == to_i64 (product % 2 ^ 32))

abbrev pub magnitude : ℕ → ℕ → ℕ
magnitude w x = if ltb x (2 ^ (w - 1)) then x else 2 ^ w - x

abbrev pub with_sign : Bool → ℕ → ℕ
with_sign negative x = if negative then (2 ^ 32 - x) % 2 ^ 32 else x

-- The quotient and the remainder of a signed division, or nothing where it does not fit.
unfoldable pub signed_division : ℕ → ℕ → Option (ℕ × ℕ)
signed_division dividend divisor =
    let n = leb (2 ^ 63) dividend in
    let d = leb (2 ^ 31) divisor in
    let quotient = magnitude 64 dividend / magnitude 32 divisor in
    let remainder = magnitude 64 dividend % magnitude 32 divisor in
    if divisor == 0
    then none
    else if (dividend == 2 ^ 63) && (divisor == 0xFFFFFFFF)
    then none
    else if ltb (if xor_bit n d then 2 ^ 31 else 2 ^ 31 - 1) quotient
    then none
    else some (with_sign (xor_bit n d) quotient, with_sign n remainder)

unfoldable pub unsigned_division : ℕ → ℕ → Option (ℕ × ℕ)
unsigned_division dividend divisor =
    if divisor == 0
    then none
    else if ltb 0xFFFFFFFF (dividend / divisor)
    then none
    else some (dividend / divisor, dividend % divisor)

abbrev pub dividend_of : CpuContext → ℕ
dividend_of c = get_gpr c edx * 2 ^ 32 + get_gpr c eax

abbrev pub set_wide : CpuContext → ℕ → CpuContext
set_wide c product = set_gpr (set_gpr c eax (product % 2 ^ 32)) edx (product / 2 ^ 32)

abbrev pub set_overflow : Bool → CpuContext → CpuContext
set_overflow overflow c = set_flag (set_flag c 0 overflow) 11 overflow

unfoldable pub divide_error : ℕ → ExecutionResult
divide_error eip = record execution_result {
  exception = some (record { vector = 0; error_code = none; fault_eip = eip; cr2 = 0 });
}

unfoldable pub multiply8 : ℕ → CpuContext → CpuContext
multiply8 src c =
    let product = get_gpr8 c 0 * (src % 2 ^ 8) in
    set_overflow (not (product / 2 ^ 8 == 0)) (set_gpr16 c eax product)

unfoldable pub multiply32 : ℕ → CpuContext → CpuContext
multiply32 src c =
    let product = get_gpr c eax * src in
    set_overflow (not (product / 2 ^ 32 == 0)) (set_wide c product)

module _ {M : Type 0} (io : MemoryType M) where
  unfoldable pub execute_shift : DecodedInstruction → Stateful (Machine M) ExecutionResult
  execute_shift inst = do
    val ← read_operand io inst.op1
    count ← read_operand io inst.op2
    let n = count % 32
    let w = if inst.op1.size_bytes == 1 then 8 else 32
    (if n == 0 then pure execution_result else elim (shift_outcome inst.id w (val % 2 ^ w) n) [
      | unchanged ↦ pure execution_result
      | unknown_shift ↦ raise (fail invalid_opcode)
      | shifted res cf of update ↦ do
        write_operand io inst.op1 res
        on_ctx (shift_flags w n res cf of update)
        pure execution_result
    ])

  unfoldable pub execute_mul : DecodedInstruction → Stateful (Machine M) ExecutionResult
  execute_mul inst = do
    src ← read_operand io inst.op1
    on_ctx (λ c. if inst.data_size == 1 then multiply8 src c else multiply32 src c)
    pure execution_result

  -- IMUL that writes its first operand.
  unfoldable pub imul_into : DecodedInstruction → ℕ → ℕ → Stateful (Machine M) ExecutionResult
  imul_into inst a b = do
    write_operand io inst.op1 (signed_product a b % 2 ^ 32)
    on_ctx (set_overflow (product_overflows (signed_product a b)))
    pure execution_result

  -- IMUL by its number of operands.
  unfoldable pub execute_imul : DecodedInstruction → Stateful (Machine M) ExecutionResult
  execute_imul inst = elim inst.op3.kind [
    | no_operand ↦ elim inst.op2.kind [
      | no_operand ↦ do
        src ← read_operand io inst.op1
        on_ctx (λ c.
            let product = signed_product (get_gpr c eax) src in
            set_overflow (product_overflows product) (set_wide c product))
        pure execution_result
      | _ ↦ do
        dst ← read_operand io inst.op1
        src ← read_operand io inst.op2
        imul_into inst dst src
    ]
    | _ ↦ do src ← read_operand io inst.op2; imm ← read_operand io inst.op3; imul_into inst src imm
  ]

  -- A division that does not fit is an exception of the guest, and changes nothing.
  unfoldable pub execute_division :
      (ℕ → ℕ → Option (ℕ × ℕ)) → DecodedInstruction → ℕ → Stateful (Machine M) ExecutionResult
  execute_division division inst current_eip = do
    divisor ← read_operand io inst.op1
    dividend ← from_ctx dividend_of
    (elim (division dividend divisor) [
      | none ↦ pure (divide_error current_eip)
      | some (quotient, remainder) ↦ do
        on_ctx (λ c. set_gpr (set_gpr c eax quotient) edx remainder)
        pure execution_result
    ])

  unfoldable pub execute_mul_div : DecodedInstruction → ℕ → Stateful (Machine M) ExecutionResult
  execute_mul_div inst current_eip = elim inst.id [
    | inst_mul ↦ execute_mul inst
    | inst_imul ↦ execute_imul inst
    | inst_div ↦ execute_division unsigned_division inst current_eip
    | inst_idiv ↦ execute_division signed_division inst current_eip
    | _ ↦ raise (fail invalid_opcode)
  ]
