-- ===== src/Kernel/Heap/RoundUp.antt =====
-- The rounding of a size, and when the search of `Allocate` finds no block.
use native.Mathlib.Nat.{
  mul-sub, one-le-pow, div-lt_iff_lt-mul, mul_comm, mod-lt, div-add-mod, pow-suc,
}
use Prim.Native.Nat.{bit_and}
use xblob_emulator.Kernel.Heap.{FreeBlock, align_up, Taken, first_fit}
use xblob_emulator.Kernel.Heap.Bits.{two_pow_suc, bit_and_ones, bit_and_shifted}
use xblob_emulator.Common.SafeMath.{u64_max}
use xblob_emulator.Prelude.{
  ℕ, zero, suc, ◌+◌, ◌-◌, ◌*◌, ◌/◌, ◌%◌, ◌^◌, ◌≤◌, ◌<◌, ◌≡◌, sym, ap, ◌∙◌, inl, inr, Option, none,
  some, List, [], ◌∷◌, arith,
}
use xblob_emulator.Prelude.{leb, Bool-cases, Option-cases, All, u64_mod, add64}

-- `n` is the least multiple of `a` that is not below `x`.
pub record IsRoundedUp (x a n : ℕ) : Type 0 where
  pub quotient : ℕ
  pub multiple : n ≡ a * quotient
  pub above : x ≤ n
  pub least : n < x + a

pow_split : (k j : ℕ) → 2 ^ k * 2 ^ j ≡ 2 ^ (k + j)
pow_split zero j = let e : 0 + j ≡ j = omega arith in rw e (omega arith)
pow_split (suc k) j =
    let e : suc k + j ≡ suc (k + j) = omega arith in
    two_pow_suc k (2 ^ j) ∙ rw e (omega (arith, pow_split k j, pow-suc 2 (k + j)))

-- The bits of a word from the `k`-th on.
high_mask : (k j : ℕ) → k + j ≡ 64 → u64_max - (2 ^ k - 1) ≡ 2 ^ k * (2 ^ j - 1)
high_mask k j e =
    let whole : 2 ^ k * 2 ^ j ≡ u64_mod = pow_split k j ∙ ap (λ x. 2 ^ x) e in
    let parts : 2 ^ k * (2 ^ j - 1) ≡ 2 ^ k * 2 ^ j - 2 ^ k * 1 = mul-sub (2 ^ k) (2 ^ j) 1 in
    omega (arith, whole, parts, one-le-pow k 2)

align_up_multiple :
    (k j x : ℕ)
    → k + j ≡ 64
    → x + 2 ^ k ≤ u64_mod
    → align_up x (2 ^ k) ≡ 2 ^ k * ((x + (2 ^ k - 1)) / 2 ^ k)
unfolding align_up
align_up_multiple k j x e room =
    let pos : 0 < 2 ^ k = omega (arith, one-le-pow k 2) in
    let y : ℕ = x + (2 ^ k - 1) in
    let q : ℕ = y / 2 ^ k in
    let r : ℕ = y % 2 ^ k in
    let small : add64 x (2 ^ k - 1) ≡ y = omega arith in
    let split : 2 ^ k * q + r ≡ y = div-add-mod y (2 ^ k) in
    let low : r < 2 ^ k = mod-lt y pos in
    let digits : q < 2 ^ j = (div-lt_iff_lt-mul pos).1 (
      let whole : 2 ^ k * 2 ^ j ≡ u64_mod = pow_split k j ∙ ap (λ x. 2 ^ x) e in
      omega (arith, whole, mul_comm (2 ^ j) (2 ^ k))) in
    ap (λ z. bit_and z (u64_max - (2 ^ k - 1))) (small ∙ sym split)
    ∙ ap (bit_and (2 ^ k * q + r)) (high_mask k j e)
    ∙ bit_and_shifted k q r (2 ^ j - 1) low
    ∙ ap (λ z. 2 ^ k * z) (bit_and_ones j q digits)

-- `AlignUp` by a power of two rounds up, where the sum fits in 64 bits.
pub align_up-IsRoundedUp :
    (k x : ℕ) → k ≤ 64 → x + 2 ^ k ≤ u64_mod → IsRoundedUp x (2 ^ k) (align_up x (2 ^ k))
align_up-IsRoundedUp k x le room =
    let q : ℕ = (x + (2 ^ k - 1)) / 2 ^ k in
    let m = align_up_multiple k (64 - k) x (omega arith) room in
    let split = div-add-mod (x + (2 ^ k - 1)) (2 ^ k) in
    let pos : 0 < 2 ^ k = omega (arith, one-le-pow k 2) in
    let low = mod-lt (x + (2 ^ k - 1)) pos in
    record {
      quotient = q;
      multiple = m;
      above = omega (arith, m, split, low);
      least = omega (arith, m, split, low);
    }

-- Where no block is found, all are too small; and a block that is found is taken whole only where
-- less than the alignment would be left.
abbrev pub IsFitted : ℕ → ℕ → List FreeBlock → Option Taken → Type 0
IsFitted alignment n bs none = All (λ b. b.size < n) bs
IsFitted alignment n bs (some t) = t.size < n + alignment

pub first_fit-IsFitted :
    (alignment n : ℕ) (bs : List FreeBlock)
    → 0 < alignment
    → IsFitted alignment n bs (first_fit alignment n bs)
unfolding first_fit
first_fit-IsFitted alignment n [] pos = tt
first_fit-IsFitted alignment n (b ∷ bs) pos = elim (Bool-cases (leb n b.size)) [
  | inl e ↦ elim (Bool-cases (leb alignment (b.size - n))) [
    | inl r ↦ rw (e, r, first_fit) (omega arith)
    | inr r ↦ rw (e, r, first_fit) (ground arith)
  ]
  | inr e ↦
      let rest = first_fit-IsFitted alignment n bs pos in
      elim (Option-cases (first_fit alignment n bs)) [
        | inl f ↦
            let k : IsFitted alignment n bs none = rw f at rest in
            rw (e, f, first_fit) (ground arith, k)
        | inr (t, f) ↦
            let k : IsFitted alignment n bs (some t) = rw f at rest in rw (e, f, first_fit) k
      ]
]
