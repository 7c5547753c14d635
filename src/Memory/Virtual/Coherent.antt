-- ===== src/Memory/Virtual/Coherent.antt =====
-- The cache of translations is transparent as long as it agrees with the page tables.
use mathlib.Core.Option.{some-injective}
use xblob_emulator.Memory.Virtual.{
  VirtualAccessType, TranslationResult, TlbEntry, VirtualMemory, has_bit, is_paging_enabled,
  invalidate_all, find_entry, erase_entry, page_of, fault, access_bits, refusal, use_entry,
  entry_of, enter_entry, pde_address, pte_address, walk_table, walk, translate,
}
use xblob_emulator.Memory.Virtual.Walk.{
  IsWalk, same-IsWalk, Agree, with_tlb, agrees, use_entry-Agree, walk-Agree,
}
use xblob_emulator.Memory.AddressSpace.{Devices, Memory, read32}
use xblob_emulator.Common.{Result, ok, err, Result-cases}
use xblob_emulator.Prelude.{
  ℕ, ◌≡◌, refl, sym, ap, ◌∙◌, subst, inl, inr, true, not, none, some, List, [], ◌∷◌, arith, ◌==◌,
  if◌then◌else◌, Bool-cases, Option-cases,
}

-- Every cached translation is what a walk of the page tables finds.
abbrev pub IsCoherent : {D : Type 0} → Devices D → VirtualMemory D → Type 0
IsCoherent io s =
    (v : ℕ) (e : TlbEntry) → find_entry (page_of v) s.tlb ≡ some e → IsWalk io s.physical s.cr3 v e

pub find_entry-erase_entry :
    (p q : ℕ) (es : List (ℕ × TlbEntry))
    → find_entry p (erase_entry q es) ≡ (if q == p then none else find_entry p es)
unfolding find_entry erase_entry
find_entry-erase_entry p q [] = ground arith
find_entry-erase_entry p q ((key, e) ∷ es) = ground (arith, find_entry-erase_entry p q es)

module _ {D : Type 0} (io : Devices D) where
  -- The walk as a function of what it reads from the directory, and its second step as one of what
  -- it reads from the table.
  abbrev pub after_directory :
      VirtualMemory D
      → ℕ
      → VirtualAccessType
      → Memory D × Result ℕ
      → VirtualMemory D × Result TranslationResult
  after_directory s v t p = elim p.1 [
    | err x ↦ (record s { physical = p.0 }, err x)
    | ok pde ↦
        if not (has_bit pde 0)
        then fault (record s { physical = p.0 }) v (access_bits t (s.cpl == 3)) t
        else walk_table io (record s { physical = p.0 }) v t pde
  ]

  abbrev pub after_table :
      VirtualMemory D
      → ℕ
      → VirtualAccessType
      → ℕ
      → Memory D × Result ℕ
      → VirtualMemory D × Result TranslationResult
  after_table s v t pde p = elim p.1 [
    | err x ↦ (record s { physical = p.0 }, err x)
    | ok pte ↦
        if not (has_bit pte 0)
        then fault (record s { physical = p.0 }) v (access_bits t (s.cpl == 3)) t
        else enter_entry (record s { physical = p.0 }) v t (entry_of pde pte)
  ]

  pub walk-after_directory :
      (s : VirtualMemory D) (v : ℕ) (t : VirtualAccessType) (p : Memory D × Result ℕ)
      → read32 io s.physical (pde_address s.cr3 v) ≡ p
      → walk io s v t ≡ after_directory s v t p
  unfolding walk
  walk-after_directory s v t p e = ap (after_directory s v t) e

  pub walk_table-after_table :
      (s : VirtualMemory D) (v : ℕ) (t : VirtualAccessType) (pde : ℕ) (p : Memory D × Result ℕ)
      → read32 io s.physical (pte_address pde v) ≡ p
      → walk_table io s v t pde ≡ after_table s v t pde p
  unfolding walk_table
  walk_table-after_table s v t pde p e = ap (after_table s v t pde) e

  walked :
      (s : VirtualMemory D) (v : ℕ) (t : VirtualAccessType) (e : TlbEntry)
      → IsWalk io s.physical s.cr3 v e
      → walk io s v t ≡ enter_entry s v t e
  walked s v t e k =
      let c = k.pde_present in
      let d = k.pte_present in
      let first : after_directory s v t (s.physical, ok k.pde) ≡ walk_table io s v t k.pde = rw c in
      let second : after_table s v t k.pde (s.physical, ok k.pte)
          ≡ enter_entry s v t (entry_of k.pde k.pte) =
        rw d in
      walk-after_directory s v t (s.physical, ok k.pde) k.pde_read
      ∙ first
      ∙ walk_table-after_table s v t k.pde (s.physical, ok k.pte) k.pte_read
      ∙ second
      ∙ ap (enter_entry s v t) (sym k.entry)

  -- A translation through a coherent cache has the result, the page fault and the memory of a
  -- translation with an empty one, for every access and privilege, paging enabled or not.
  pub translate-invalidate_all :
      (s : VirtualMemory D) (v : ℕ) (t : VirtualAccessType)
      → IsCoherent io s
      → Agree (translate io s v t) (translate io (invalidate_all s) v t)
  unfolding translate invalidate_all find_entry is_paging_enabled
  translate-invalidate_all s v t c = elim (Bool-cases (has_bit s.cr0 31)) [
    | inr off ↦ rw (off, translate) (agrees (s, ok _) [])
    | inl on ↦ elim (Option-cases (find_entry (page_of v) s.tlb)) [
      | inl f ↦ rw (on, f, translate) (walk-Agree v t io s [])
      | inr (e, f) ↦
          let fresh = walked (with_tlb s []) v t e (c v e f) in
          rw (on, f, translate, fresh) (use_entry-Agree v t s [] e)
    ]
  ]

  -- Reads leave the memory as it is: no device changes state when it is read.
  abbrev pub IsQuiet : Memory D → Type 0
  IsQuiet m = (a : ℕ) → (read32 io m a).0 ≡ m

  entered-IsCoherent :
      (s : VirtualMemory D) (v : ℕ) (t : VirtualAccessType) (e : TlbEntry)
      → IsCoherent io s
      → IsWalk io s.physical s.cr3 v e
      → IsCoherent io (enter_entry s v t e).0
  unfolding enter_entry fault find_entry
  entered-IsCoherent s v t e c k = elim (Option-cases (refusal s t e.user_accessible e.writable)) [
    | inr (code, f) ↦ rw (f, enter_entry) c
    | inl f ↦
        rw (f, enter_entry)
          (λ w x at. elim (Bool-cases (page_of v == page_of w)) [
            | inl same ↦
                let is : e ≡ x = some-injective e x (rw (same, find_entry) at at) in
                let p : page_of v ≡ page_of w = ground arith in
                subst (IsWalk io s.physical s.cr3 w) is (same-IsWalk io s.physical s.cr3 v w e p k)
            | inr other ↦
                let kept : find_entry (page_of w) (erase_entry (page_of v) s.tlb) ≡ some x =
                  rw (other, find_entry) at at in
                let old : find_entry (page_of w) s.tlb ≡ some x =
                  sym (find_entry-erase_entry (page_of w) (page_of v) s.tlb ∙ rw other) ∙ kept in
                c w x old
          ])
  ]

  -- Over quiet memory a refusal leaves the cache, and what a walk enters it has found.
  walk_table-IsCoherent :
      (s : VirtualMemory D) (v : ℕ) (t : VirtualAccessType) (pde : ℕ)
      → IsQuiet s.physical
      → IsCoherent io s
      → read32 io s.physical (pde_address s.cr3 v) ≡ (s.physical, ok pde)
      → has_bit pde 0 ≡ true
      → IsCoherent io (walk_table io s v t pde).0
  unfolding fault
  walk_table-IsCoherent s v t pde q c a present =
      let at = pte_address pde v in
      elim (Result-cases (read32 io s.physical at).1) [
        | inr (x, f) ↦
            let b : read32 io s.physical at ≡ (s.physical, err x) = λ i. (q at i, f i) in
            rw (walk_table-after_table s v t pde (s.physical, err x) b) c
        | inl (pte, f) ↦
            let b : read32 io s.physical at ≡ (s.physical, ok pte) = λ i. (q at i, f i) in
            elim (Bool-cases (has_bit pte 0)) [
              | inr p ↦ rw (walk_table-after_table s v t pde (s.physical, ok pte) b, p) c
              | inl p ↦
                  rw (walk_table-after_table s v t pde (s.physical, ok pte) b, p)
                    (entered-IsCoherent s v t (entry_of pde pte) c (record {
                      pde = pde;
                      pte = pte;
                      pde_read = a;
                      pde_present = present;
                      pte_read = b;
                      pte_present = p;
                      entry = refl;
                    }))
            ]
      ]

  pub walk-IsCoherent :
      (s : VirtualMemory D) (v : ℕ) (t : VirtualAccessType)
      → IsQuiet s.physical
      → IsCoherent io s
      → IsCoherent io (walk io s v t).0
  unfolding fault
  walk-IsCoherent s v t q c =
      let at = pde_address s.cr3 v in
      elim (Result-cases (read32 io s.physical at).1) [
        | inr (x, f) ↦
            let b : read32 io s.physical at ≡ (s.physical, err x) = λ i. (q at i, f i) in
            rw (walk-after_directory s v t (s.physical, err x) b) c
        | inl (pde, f) ↦
            let b : read32 io s.physical at ≡ (s.physical, ok pde) = λ i. (q at i, f i) in
            elim (Bool-cases (has_bit pde 0)) [
              | inr p ↦ rw (walk-after_directory s v t (s.physical, ok pde) b, p) c
              | inl p ↦
                  rw (walk-after_directory s v t (s.physical, ok pde) b, p)
                    (walk_table-IsCoherent s v t pde q c b p)
            ]
      ]

  -- A cached translation leaves the cache as it is.
  pub used-IsCoherent :
      (s : VirtualMemory D) (v : ℕ) (t : VirtualAccessType) (e : TlbEntry)
      → IsCoherent io s
      → IsCoherent io (use_entry s v t e).0
  unfolding use_entry fault
  used-IsCoherent s v t e c = elim (Option-cases (refusal s t e.user_accessible e.writable)) [
    | inr (code, f) ↦ rw (f, use_entry) c
    | inl f ↦ rw (f, use_entry) c
  ]
