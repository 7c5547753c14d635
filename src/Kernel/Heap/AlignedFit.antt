-- ===== src/Kernel/Heap/AlignedFit.antt =====
-- The search for room of `AllocateAligned`.
use xblob_emulator.Kernel.Heap.{FreeBlock, align_up, aligned_fit}
use xblob_emulator.Kernel.Heap.Cover.{inside, cover_free, IsBounded}
use xblob_emulator.Kernel.Heap.Fit.{IsTaken, added_IsTaken}
use xblob_emulator.Prelude.{
  ℕ, ◌+◌, ◌-◌, ◌%◌, ◌≤◌, ◌<◌, ◌≡◌, sym, ap, ◌⊎◌, inl, inr, some, List, [], ◌∷◌, arith, ltb, leb,
  Bool-cases, Option-cases, All, u32_mod, u64_mod, add32, sub32, add64,
}

three_parts :
    (x a p n r size c d : ℕ)
    → a + p ≡ c
    → c + n ≡ d
    → p + n + r ≤ size
    → inside x a p + inside x d r + inside x c n ≤ inside x a size
three_parts x a p n r size c d e f le = ground arith

two_parts :
    (x a p n size c : ℕ) → a + p ≡ c → p + n ≤ size → inside x a p + inside x c n ≤ inside x a size
two_parts x a p n size c e le = ground arith

one_part : (x a p n size c : ℕ) → n ≡ 0 → p ≤ size → inside x a p + inside x c n ≤ inside x a size
one_part x a p n size c e le = ground arith

-- A block split for an aligned address, of which the alignment may leave a part unused.
module _ (alignment n : ℕ) (b : FreeBlock) (bs : List FreeBlock) (pos : 0 < alignment)
    (h : All IsBounded (b ∷ bs)) (c : ℕ) (small : c < u32_mod) (room : n + u32_mod ≤ u64_mod)
    (fits : add64 (sub32 c b.addr) n ≤ b.size) where
  -- The aligned address lies in the block, unless nothing is taken.
  padded : (b.addr ≤ c) ⊎ ((c < b.addr) × (c ≡ 0) × (n ≡ 0))
  padded = let hb = h.0 in ground arith

  consumed : add64 (sub32 c b.addr) n ≡ sub32 c b.addr + n
  consumed = ground arith

  gap : b.addr ≤ c → b.addr + sub32 c b.addr ≡ c
  gap le = let hb = h.0 in ground arith

  prefix_suffix :
      alignment ≤ b.size - (sub32 c b.addr + n)
      → IsTaken (b ∷ bs) n (
          some (record {
            blocks =
                record { addr = b.addr; size = sub32 c b.addr }
                ∷ record { addr = add32 c (n % u32_mod); size = b.size - (sub32 c b.addr + n) }
                ∷ bs;
            addr = c;
            size = n;
          }))
  unfolding cover_free
  prefix_suffix r =
      let hb = h.0 in
      let used = consumed in
      elim padded [
        | inl le ↦
            let g = gap le in
            let next : add32 c (n % u32_mod) ≡ c + n = ground arith in
            (
              (omega (arith, g, used), (omega (arith, g, next, used), h.1)),
              omega (arith, g, used),
              omega arith,
              λ x.
                  let parts =
                    three_parts x b.addr (sub32 c b.addr) n (b.size - (sub32 c b.addr + n)) b.size c
                      (add32 c (n % u32_mod)) g (sym next) (omega (arith, used)) in
                  omega (arith, parts),
            )
        | inr (lt, zc, zn) ↦ absurd (ground (arith, used))
      ]

  prefix_only : IsTaken (b ∷ bs) n (
      some (record {
        blocks = record { addr = b.addr; size = sub32 c b.addr } ∷ bs;
        addr = c;
        size = n;
      }))
  unfolding cover_free
  prefix_only =
      let hb = h.0 in
      let used = consumed in
      elim padded [
        | inl le ↦
            let g = gap le in
            (
              (omega (arith, g, used), h.1),
              omega (arith, g, used),
              omega arith,
              λ x.
                  let parts =
                    two_parts x b.addr (sub32 c b.addr) n b.size c g (omega (arith, used)) in
                  omega (arith, parts),
            )
        | inr (lt, zc, zn) ↦ (
          (omega (arith, used), h.1),
          omega arith,
          omega arith,
          λ x.
              let parts = one_part x b.addr (sub32 c b.addr) n b.size c zn (omega (arith, used)) in
              omega (arith, parts),
        )
      ]

  no_padding : sub32 c b.addr ≡ 0 → (c ≡ b.addr) ⊎ (b.size ≡ 0)
  no_padding z = let hb = h.0 in ground arith

  -- Without padding the block is split as in `Allocate`, or used whole.
  suffix_only :
      sub32 c b.addr ≡ 0
      → alignment ≤ b.size - (sub32 c b.addr + n)
      → IsTaken (b ∷ bs) n (
          some (record {
            blocks = record { addr = add32 b.addr n; size = b.size - (sub32 c b.addr + n) } ∷ bs;
            addr = c;
            size = n;
          }))
  unfolding cover_free
  suffix_only z r =
      let hb = h.0 in
      let used = consumed in
      let next : add32 b.addr n ≡ b.addr + n = ground (arith, used) in
      let same : c ≡ b.addr = elim (no_padding z) [ inl e ↦ e | inr e ↦ absurd (omega arith) ] in
      (
        (omega (arith, next, used), h.1),
        omega (arith, same, used),
        omega arith,
        λ x.
            let parts =
              two_parts x b.addr n (b.size - (sub32 c b.addr + n)) b.size (add32 b.addr n)
                (sym next) (omega (arith, used)) in
            let at : inside x c n ≡ inside x b.addr n = ap (λ a. inside x a n) same in
            omega (arith, parts, at),
      )

  whole_block :
      sub32 c b.addr ≡ 0
      → IsTaken (b ∷ bs) n (some (record { blocks = bs; addr = c; size = b.size }))
  unfolding cover_free
  whole_block z =
      let hb = h.0 in
      let used = consumed in
      elim (no_padding z) [
        | inl e ↦ (
          h.1,
          omega (arith, e),
          omega (arith, used),
          λ x.
              let at : inside x c b.size ≡ inside x b.addr b.size = ap (λ a. inside x a b.size) e in
              omega (arith, at),
        )
        | inr e ↦ (
          h.1,
          omega (arith, e),
          omega (arith, used),
          λ x.
              let none_taken = one_part x b.addr b.size b.size b.size c e (omega arith) in
              omega (arith, none_taken),
        )
      ]

pub aligned_fit-IsTaken :
    (alignment align n : ℕ) (bs : List FreeBlock)
    → 0 < alignment
    → n + u32_mod ≤ u64_mod
    → All IsBounded bs
    → IsTaken bs n (aligned_fit alignment align n bs)
unfolding aligned_fit
aligned_fit-IsTaken alignment align n [] pos room h = tt
aligned_fit-IsTaken alignment align n (b ∷ bs) pos room h =
    let c : ℕ = align_up b.addr align % u32_mod in
    let used : ℕ = add64 (sub32 c b.addr) n in
    let small : c < u32_mod = omega arith in
    elim (Bool-cases (leb used b.size)) [
      | inl e ↦
          let fits : used ≤ b.size = ground arith in
          let exact = consumed alignment n b bs pos h c small room fits in
          elim (Bool-cases (ltb 0 (sub32 c b.addr))) [
            | inl p ↦ elim (Bool-cases (leb alignment (b.size - used))) [
              | inl r ↦
                  rw (e, p, r, aligned_fit, exact)
                    (prefix_suffix alignment n b bs pos h c small room fits (ground (arith, exact)))
              | inr r ↦
                  rw (e, p, r, aligned_fit) (prefix_only alignment n b bs pos h c small room fits)
            ]
            | inr p ↦ elim (Bool-cases (leb alignment (b.size - used))) [
              | inl r ↦
                  rw (e, p, r, aligned_fit, exact)
                    (suffix_only alignment n b bs pos h c small room fits (ground arith)
                      (ground (arith, exact)))
              | inr r ↦
                  rw (e, p, r, aligned_fit)
                    (whole_block alignment n b bs pos h c small room fits (ground arith))
            ]
          ]
      | inr e ↦
          let rest = aligned_fit-IsTaken alignment align n bs pos room h.1 in
          elim (Option-cases (aligned_fit alignment align n bs)) [
            | inl f ↦ rw (e, f, aligned_fit) tt
            | inr (t, f) ↦
                let k : IsTaken bs n (some t) = rw f at rest in
                rw (e, f, aligned_fit) (added_IsTaken b bs n t h k)
          ]
    ]
