-- ===== src/Kernel/Heap/Cover.antt =====
-- How many blocks cover an address, under each operation on the lists of blocks.
use xblob_emulator.Kernel.Heap.{
  FreeBlock, find_active, put_active, erase_active, merge, coalesce, insert_block,
}
use xblob_emulator.Prelude.{
  ℕ, ◌+◌, ◌≤◌, ◌≡◌, refl, ap, ◌∙◌, inl, inr, ◌&&◌, some, List, [], ◌∷◌, arith, ltb, leb, ◌==◌,
  if◌then◌else◌, Bool-cases, All, u32_mod, add64,
}

abbrev pub inside : ℕ → ℕ → ℕ → ℕ
inside x addr size = if leb addr x && ltb x (addr + size) then 1 else 0

unfoldable pub cover_free : ℕ → List FreeBlock → ℕ
cover_free x [] = 0
cover_free x (b ∷ bs) = inside x b.addr b.size + cover_free x bs

unfoldable pub cover_active : ℕ → List (ℕ × ℕ) → ℕ
cover_active x [] = 0
cover_active x ((addr, size) ∷ ms) = inside x addr size + cover_active x ms

-- A block ends within the address space.
abbrev pub IsBounded : FreeBlock → Type 0
IsBounded b = b.addr + b.size ≤ u32_mod

abbrev pub IsBoundedEntry : ℕ × ℕ → Type 0
IsBoundedEntry (addr, size) = addr + size ≤ u32_mod

pub cover_active-put_active :
    (x addr size : ℕ) (ms : List (ℕ × ℕ))
    → cover_active x (put_active addr size ms) ≤ inside x addr size + cover_active x ms
unfolding cover_active put_active
cover_active-put_active x addr size [] = ground arith
cover_active-put_active x addr size ((key, old) ∷ ms) =
    ground (arith, cover_active-put_active x addr size ms)

pub cover_active-erase_active :
    (x addr size : ℕ) (ms : List (ℕ × ℕ))
    → find_active addr ms ≡ some size
    → cover_active x (erase_active addr ms) + inside x addr size ≡ cover_active x ms
unfolding cover_active erase_active find_active
cover_active-erase_active x addr size [] e = cc
cover_active-erase_active x addr size ((key, old) ∷ ms) e =
    ground (arith, cover_active-erase_active x addr size ms)

pub cover_free-insert_block :
    (x : ℕ) (b : FreeBlock) (bs : List FreeBlock)
    → cover_free x (insert_block b bs) ≡ inside x b.addr b.size + cover_free x bs
unfolding cover_free insert_block
cover_free-insert_block x b [] = refl
cover_free-insert_block x b (c ∷ cs) = ground (arith, cover_free-insert_block x b cs)

pub insert_block-IsBounded :
    (b : FreeBlock) (bs : List FreeBlock)
    → IsBounded b
    → All IsBounded bs
    → All IsBounded (insert_block b bs)
unfolding insert_block
insert_block-IsBounded b [] hb h = (hb, tt)
insert_block-IsBounded b (c ∷ cs) hb h = elim (Bool-cases (ltb c.addr b.addr)) [
  | inl e ↦ rw (e, insert_block) (h.0, insert_block-IsBounded b cs hb h.1)
  | inr e ↦ rw (e, insert_block) (hb, h)
]

-- Two blocks that meet, as one.
meet : (b c : FreeBlock) → IsBounded b → add64 b.addr b.size ≡ c.addr → b.addr + b.size ≡ c.addr
meet b c hb e = ground arith

joined_size :
    (b c : FreeBlock)
    → IsBounded b
    → IsBounded c
    → b.addr + b.size ≡ c.addr
    → add64 b.size c.size ≡ b.size + c.size
joined_size b c hb hc e = ground arith

pub inside_join : (x a s t : ℕ) → inside x a (s + t) ≡ inside x a s + inside x (a + s) t
inside_join x a s t = ground arith

module _ (x : ℕ) where
  pub cover_free-merge :
      (last : FreeBlock) (bs : List FreeBlock)
      → IsBounded last
      → All IsBounded bs
      → (cover_free x (merge last bs) ≡ inside x last.addr last.size + cover_free x bs)
        × All IsBounded (merge last bs)
  unfolding cover_free merge
  cover_free-merge last [] hl h = (refl, (hl, tt))
  cover_free-merge last (b ∷ bs) hl h = elim (Bool-cases (add64 last.addr last.size == b.addr)) [
    | inl e ↦
        let at : last.addr + last.size ≡ b.addr = meet last b hl (ground arith) in
        let sum : add64 last.size b.size ≡ last.size + b.size = joined_size last b hl h.0 at in
        let joined : IsBounded (record last { size = add64 last.size b.size }) =
          let hb = h.0 in omega (arith, sum, at) in
        let rest = cover_free-merge (record last { size = add64 last.size b.size }) bs joined h.1 in
        let both : inside x last.addr (add64 last.size b.size)
            ≡ inside x last.addr last.size + inside x b.addr b.size =
          ap (inside x last.addr) sum
          ∙ inside_join x last.addr last.size b.size
          ∙ ap (λ a. inside x last.addr last.size + inside x a b.size) at in
        rw (e, merge) (omega (arith, rest.0, both), rest.1)
    | inr e ↦
        let rest = cover_free-merge b bs h.0 h.1 in
        rw (e, merge) (ap (λ n. inside x last.addr last.size + n) rest.0, (hl, rest.1))
  ]

  pub cover_free-coalesce :
      (bs : List FreeBlock)
      → All IsBounded bs
      → (cover_free x (coalesce bs) ≡ cover_free x bs) × All IsBounded (coalesce bs)
  unfolding cover_free coalesce
  cover_free-coalesce [] h = (refl, tt)
  cover_free-coalesce (b ∷ bs) h = cover_free-merge b bs h.0 h.1
