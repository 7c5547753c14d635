-- ===== src/Cpu/Flags/Conditions.antt =====
-- The conditions after a comparison.
use xblob_emulator.Cpu.Flags.{
  bit, differ, digit, with_flags, calculate_parity, calculate_sub_flags, cond_b, cond_nb, cond_z,
  cond_nz, cond_be, cond_nbe, cond_l, cond_nl, cond_le, cond_nle, evaluate_condition,
}
use xblob_emulator.Prelude.{
  ℕ, ◌+◌, ◌*◌, ◌/◌, ◌%◌, ◌^◌, ◌≤◌, ◌<◌, ◌≡◌, refl, ◌∙◌, Bool, true, false, not, ◌&&◌, arith, ltb,
  leb, ◌==◌, if◌then◌else◌, add32, sub32,
}

-- The bits of the flags: the arithmetic ones are digits, the others stand between them.
bits_lem :
    (c p a z s o u v w t : ℕ)
    → c ≤ 1
    → p ≤ 1
    → a ≤ 1
    → z ≤ 1
    → s ≤ 1
    → o ≤ 1
    → u ≤ 1
    → v ≤ 1
    → w ≤ 7
    → let x =
        2
        + u * 8
        + v * 32
        + w * 256
        + t * 4096
        + (c * 1 + (p * 4 + (a * 16 + (z * 64 + (s * 128 + o * 2048))))) in
      (bit x 0 ≡ c) × (bit x 2 ≡ p) × (bit x 4 ≡ a) × (bit x 6 ≡ z) × (bit x 7 ≡ s) × (bit x 11 ≡ o)
bits_lem c p a z s o u v w t hc hp ha hz hs ho hu hv hw = omega arith

digit_bound : (b : Bool) → digit b ≤ 1
digit_bound true = omega arith
digit_bound false = omega arith

is_set : (b : Bool) (x : ℕ) → x ≡ digit b → (x == 1) ≡ b
is_set true x e = ground arith
is_set false x e = ground arith

with_flags_lem :
    (x : ℕ) (cf pf af zf sf of : Bool)
    → let f = with_flags x cf pf af zf sf of in
      ((bit f 0 == 1) ≡ cf)
      × ((bit f 6 == 1) ≡ zf)
      × ((bit f 7 == 1) ≡ sf)
      × (bit f 7 ≡ digit sf)
      × (bit f 11 ≡ digit of)
with_flags_lem x cf pf af zf sf of =
    let (c, p, a, z, s, o) =
      bits_lem (digit cf) (digit pf) (digit af) (digit zf) (digit sf) (digit of) (bit x 3) (bit x 5)
        (x / 256 % 8) (x / 4096) (digit_bound cf) (digit_bound pf) (digit_bound af) (digit_bound zf)
        (digit_bound sf) (digit_bound of) (omega arith) (omega arith) (omega arith) in
    (is_set cf _ c, is_set zf _ z, is_set sf _ s, s, o)

-- A word as a two's complement number, counted from the least.
abbrev pub signed : ℕ → ℕ
signed a = add32 a (2 ^ 31)

same_digits : (b c : Bool) → (digit b == digit c) ≡ (if b then c else not c)
same_digits true true = refl
same_digits true false = refl
same_digits false true = refl
same_digits false false = refl

-- The sign and the overflow differ exactly where the first is less.
less_signed :
    (a b : ℕ)
    → a < 2 ^ 32
    → b < 2 ^ 32
    → (digit (bit (sub32 a b) 31 == 1) == digit (differ a b 31 && differ a (sub32 a b) 31))
      ≡ leb (signed b) (signed a)
less_signed a b ha hb = ground arith

zero_iff : (a b : ℕ) → a < 2 ^ 32 → b < 2 ^ 32 → (sub32 a b == 0) ≡ (a == b)
zero_iff a b ha hb = ground arith

-- What the four tests read after a comparison.
compared :
    (a b current : ℕ)
    → a < 2 ^ 32
    → b < 2 ^ 32
    → let f = calculate_sub_flags a b current in
      ((bit f 0 == 1) ≡ ltb a b)
      × ((bit f 6 == 1) ≡ (a == b))
      × ((bit f 7 == bit f 11) ≡ leb (signed b) (signed a))
unfolding calculate_sub_flags
compared a b current ha hb =
    let res = sub32 a b in
    let (c, z, s, sd, od) =
      with_flags_lem current (ltb a b) (calculate_parity (res % 2 ^ 8)) (ltb (a % 16) (b % 16))
        (res == 0) (bit res 31 == 1) (differ a b 31 && differ a res 31) in
    (c, z ∙ zero_iff a b ha hb, rw (sd, od) (less_signed a b ha hb))

-- After a comparison of two words the conditions are the order of the words: below, equal and their
-- negations compare them as unsigned numbers, less and its negations as two's complement numbers,
-- whatever the flags were before.
pub evaluate_condition_lem :
    (a b current : ℕ)
    → a < 2 ^ 32
    → b < 2 ^ 32
    → let f = calculate_sub_flags a b current in
      (evaluate_condition cond_b f ≡ ltb a b)
      × (evaluate_condition cond_nb f ≡ leb b a)
      × (evaluate_condition cond_z f ≡ (a == b))
      × (evaluate_condition cond_nz f ≡ not (a == b))
      × (evaluate_condition cond_be f ≡ leb a b)
      × (evaluate_condition cond_nbe f ≡ ltb b a)
      × (evaluate_condition cond_l f ≡ ltb (signed a) (signed b))
      × (evaluate_condition cond_nl f ≡ leb (signed b) (signed a))
      × (evaluate_condition cond_le f ≡ leb (signed a) (signed b))
      × (evaluate_condition cond_nle f ≡ ltb (signed b) (signed a))
unfolding evaluate_condition
evaluate_condition_lem a b current ha hb =
    let (c, z, l) = compared a b current ha hb in
    (
      c,
      rw c (ground arith),
      z,
      rw z,
      rw (c, z) (ground arith),
      rw (c, z) (ground arith),
      rw l (ground arith),
      l,
      rw (z, l) (ground arith),
      rw (z, l) (ground arith),
    )
