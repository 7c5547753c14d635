-- ===== src/Cpu/Registers/Partial.antt =====
-- The 8-bit and 16-bit registers, which are parts of the 32-bit ones.
use xblob_emulator.Cpu.Registers.{CpuContext, get_gpr, set_gpr, get_gpr8, set_gpr8}
use xblob_emulator.Prelude.{
  ℕ, zero, suc, ◌+◌, ◌-◌, ◌*◌, ◌/◌, ◌%◌, ◌<◌, ◌≡◌, refl, ap, ◌≢◌, inl, inr, List, [], ◌∷◌, arith,
  ltb, ◌==◌, if◌then◌else◌, Bool-cases, length, set, get_or,
}

get_or-set_self : (xs : List ℕ) (i v d : ℕ) → i < length xs → get_or (set xs i v) i d ≡ v
get_or-set_self [] i v d h = elim h [ ]
get_or-set_self (x ∷ xs) zero v d h = refl
get_or-set_self (x ∷ xs) (suc i) v d h = get_or-set_self xs i v d (omega arith)

get_or-set_ne : (xs : List ℕ) (i j v d : ℕ) → i ≢ j → get_or (set xs i v) j d ≡ get_or xs j d
get_or-set_ne [] i j v d h = refl
get_or-set_ne (x ∷ xs) zero zero v d h = absurd (h refl)
get_or-set_ne (x ∷ xs) zero (suc j) v d h = refl
get_or-set_ne (x ∷ xs) (suc i) zero v d h = refl
get_or-set_ne (x ∷ xs) (suc i) (suc j) v d h = get_or-set_ne xs i j v d (λ e. h (ap suc e))

low_byte : (x v : ℕ) → v < 256 → (x / 256 * 256 + v) % 256 ≡ v
low_byte x v h = omega arith

low_above : (x v : ℕ) → v < 256 → (x / 256 * 256 + v) / 256 ≡ x / 256
low_above x v h = omega arith

high_byte : (x v : ℕ) → v < 256 → (x / 65536 * 65536 + v * 256 + x % 256) / 256 % 256 ≡ v
high_byte x v h = omega arith

high_below : (x v : ℕ) → (x / 65536 * 65536 + v * 256 + x % 256) % 256 ≡ x % 256
high_below x v = omega arith

low_upper : (x v : ℕ) → v < 256 → (x / 256 * 256 + v) / 65536 ≡ x / 65536
low_upper x v h = omega arith

high_upper : (x v : ℕ) → v < 256 → (x / 65536 * 65536 + v * 256 + x % 256) / 65536 ≡ x / 65536
high_upper x v h = omega arith

get_gpr-set_gpr :
    (c : CpuContext) (i v j : ℕ)
    → i < length c.gpr
    → get_gpr (set_gpr c i v) j ≡ (if j == i then v else get_gpr c j)
unfolding get_gpr set_gpr
get_gpr-set_gpr c i v j h = elim (Bool-cases (j == i)) [
  | inl e ↦
      let same : j ≡ i = ground arith in rw (same, get_or-set_self c.gpr i v 0 h) (ground arith)
  | inr e ↦ let n : i ≢ j = ground arith in rw (e, get_or-set_ne c.gpr i j v 0 n)
]

-- Writing an 8-bit register: it reads back, every other 8-bit register keeps its value, and so does
-- the upper half of every register.
pub set_gpr8_lem :
    (c : CpuContext) (i v : ℕ)
    → length c.gpr ≡ 8
    → i < 8
    → v < 256
    → let c' = set_gpr8 c i v in
      (get_gpr8 c' i ≡ v)
      × ((j : ℕ) → j < 8 → j ≢ i → get_gpr8 c' j ≡ get_gpr8 c j)
      × ((r : ℕ) → get_gpr c' r / 65536 ≡ get_gpr c r / 65536)
unfolding set_gpr8 get_gpr8
set_gpr8_lem c i v size hi hv = elim (Bool-cases (ltb i 4)) [
  | inl e ↦
      let x = get_gpr c i in
      let new = x / 256 * 256 + v in
      let at = λ (j : ℕ). get_gpr-set_gpr c i new j (omega (arith, size)) in
      rw (e, set_gpr8)
        (
          ground (arith, at i, low_byte x v hv),
          λ j hj n. ground (arith, at j, at (j - 4), low_above x v hv),
          λ r. ground (arith, at r, low_upper x v hv),
        )
  | inr e ↦
      let x = get_gpr c (i - 4) in
      let new = x / 65536 * 65536 + v * 256 + x % 256 in
      let at = λ (j : ℕ). get_gpr-set_gpr c (i - 4) new j (omega (arith, size)) in
      rw (e, set_gpr8)
        (
          ground (arith, at (i - 4), high_byte x v hv),
          λ j hj n. ground (arith, at j, at (j - 4), high_below x v),
          λ r. ground (arith, at r, high_upper x v hv),
        )
]
