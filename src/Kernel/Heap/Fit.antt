-- ===== src/Kernel/Heap/Fit.antt =====
-- The search for room of `Allocate`.
use xblob_emulator.Kernel.Heap.{FreeBlock, Taken, first_fit}
use xblob_emulator.Kernel.Heap.Cover.{inside, cover_free, IsBounded, inside_join}
use xblob_emulator.Prelude.{
  ℕ, ◌+◌, ◌-◌, ◌≤◌, ◌<◌, ◌≡◌, sym, ap, ◌∙◌, inl, inr, Option, none, some, List, [], ◌∷◌, arith, leb,
  Bool-cases, Option-cases, All, u32_mod, add32,
}

-- What a search for room takes was free and is large enough, and what stays free was free.
abbrev pub IsTaken : List FreeBlock → ℕ → Option Taken → Type 0
IsTaken bs n none = Unit
IsTaken bs n (some t) =
    All IsBounded t.blocks
    × (t.addr + t.size ≤ u32_mod)
    × (n ≤ t.size)
    × ((x : ℕ) → cover_free x t.blocks + inside x t.addr t.size ≤ cover_free x bs)

split_IsTaken :
    (alignment n : ℕ) (b : FreeBlock) (bs : List FreeBlock)
    → 0 < alignment
    → All IsBounded (b ∷ bs)
    → n ≤ b.size
    → alignment ≤ b.size - n
    → IsTaken (b ∷ bs) n (
        some (record {
          blocks = record { addr = add32 b.addr n; size = b.size - n } ∷ bs;
          addr = b.addr;
          size = n;
        }))
unfolding cover_free
split_IsTaken alignment n b bs pos h fits room =
    let hb = h.0 in
    let next : add32 b.addr n ≡ b.addr + n = ground arith in
    (
      (omega (arith, next), h.1),
      omega arith,
      omega arith,
      λ x.
          let whole : n + (b.size - n) ≡ b.size = omega arith in
          let parts : inside x b.addr b.size
              ≡ inside x b.addr n + inside x (add32 b.addr n) (b.size - n) =
            ap (inside x b.addr) (sym whole)
            ∙ inside_join x b.addr n (b.size - n)
            ∙ ap (λ a. inside x b.addr n + inside x a (b.size - n)) (sym next) in
          omega (arith, parts),
    )

-- A block that was passed over stays free.
pub added_IsTaken :
    (b : FreeBlock) (bs : List FreeBlock) (n : ℕ) (t : Taken)
    → All IsBounded (b ∷ bs)
    → IsTaken bs n (some t)
    → IsTaken (b ∷ bs) n (some (record t { blocks = b ∷ t.blocks }))
unfolding cover_free
added_IsTaken b bs n t h k = ((h.0, k.0), k.1, k.2, λ x. let c = k.3 x in omega (arith, c))

pub first_fit-IsTaken :
    (alignment n : ℕ) (bs : List FreeBlock)
    → 0 < alignment
    → All IsBounded bs
    → IsTaken bs n (first_fit alignment n bs)
unfolding first_fit cover_free
first_fit-IsTaken alignment n [] pos h = tt
first_fit-IsTaken alignment n (b ∷ bs) pos h = elim (Bool-cases (leb n b.size)) [
  | inl e ↦ elim (Bool-cases (leb alignment (b.size - n))) [
    | inl r ↦
        rw (e, r, first_fit) (split_IsTaken alignment n b bs pos h (ground arith) (ground arith))
    | inr r ↦ rw (e, r, first_fit) (h.1, h.0, ground arith, λ x. omega arith)
  ]
  | inr e ↦
      let rest = first_fit-IsTaken alignment n bs pos h.1 in
      elim (Option-cases (first_fit alignment n bs)) [
        | inl f ↦ rw (e, f, first_fit) tt
        | inr (t, f) ↦
            let k : IsTaken bs n (some t) = rw f at rest in
            rw (e, f, first_fit) (added_IsTaken b bs n t h k)
      ]
]
