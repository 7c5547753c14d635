-- ===== src/Memory/Virtual/Access/Transaction.antt =====
-- Writes that cross pages: all addresses are translated before anything is written.
use xblob_emulator.Memory.Virtual.{
  write_access, TranslationResult, TlbEntry, VirtualMemory, invalidate_all, translate,
}
use xblob_emulator.Memory.Virtual.Walk.{with_tlb}
use xblob_emulator.Memory.Virtual.Coherent.{IsCoherent, translate-invalidate_all, IsQuiet}
use xblob_emulator.Memory.Virtual.Calls.{translates, step, step-IsCoherent}
use xblob_emulator.Memory.Virtual.Access.{and_then, translate_each, write_loop, virtual_write_bytes}
use xblob_emulator.Memory.Virtual.Access.Gentle.{translate-IsGentle}
use xblob_emulator.Memory.AddressSpace.{Devices}
use xblob_emulator.Common.{Error, Result, ok, err, Result-cases}
use xblob_emulator.Prelude.{
  ℕ, zero, suc, ◌+◌, ◌≤◌, ◌<◌, ◌≡◌, refl, sym, ◌∙◌, subst, inl, inr, List, ◌∷◌, arith, ◌==◌,
  Bool-cases, length, add32,
}

-- A call that fails and leaves the memory.
abbrev pub IsRefused :
    {D : Type 0} {A : Type 0} → VirtualMemory D → VirtualMemory D × Result A → Type 0
IsRefused s x = (x.0.physical ≡ s.physical) × ((e : Error) × (x.1 ≡ err e))

and_then-IsRefused :
    {D : Type 0} {A B : Type 0} (s : VirtualMemory D) (x : VirtualMemory D × Result A)
    (k : VirtualMemory D → A → VirtualMemory D × Result B)
    → IsRefused s x
    → IsRefused s (and_then x k)
and_then-IsRefused s x k (m, (e, f)) = rw f (m, (e, refl))

and_then-ok :
    {D : Type 0} {A B : Type 0} (s : VirtualMemory D) (x : VirtualMemory D × Result A)
    (k : VirtualMemory D → A → VirtualMemory D × Result B) (a : A)
    → x.1 ≡ ok a
    → IsRefused s (k x.0 a)
    → IsRefused s (and_then x k)
and_then-ok s x k a f r = rw f r

module _ {D : Type 0} (io : Devices D) where
  -- A translation with an empty cache that fails.
  abbrev pub IsUnwritable : VirtualMemory D → ℕ → Type 0
  IsUnwritable s v = (e : Error) × ((translate io (invalidate_all s) v write_access).1 ≡ err e)

  abbrev rest_of :
      ℕ → ℕ → ℕ → VirtualMemory D → TranslationResult → VirtualMemory D × Result (List ℕ)
  rest_of vaddr i count s t =
      and_then (translate_each io s vaddr (i + 1) count)
        λ s rest. (s, ok (t.physical_address ∷ rest))

  -- After a translation that succeeds, the others fail as before.
  still-IsUnwritable :
      (s s' : VirtualMemory D) (es : List (ℕ × TlbEntry)) (v : ℕ)
      → s' ≡ with_tlb s es
      → IsUnwritable s v
      → IsUnwritable s' v
  unfolding invalidate_all
  still-IsUnwritable s s' es v g u = subst (λ z. IsUnwritable z v) (sym g) u

  translated-IsCoherent :
      (s : VirtualMemory D) (v : ℕ)
      → IsQuiet io s.physical
      → IsCoherent io s
      → IsCoherent io (translate io s v write_access).0
  unfolding step
  translated-IsCoherent s v q c = step-IsCoherent io s (translates v write_access) q c

  -- An address that can be written is not one whose fresh translation fails.
  writable-IsUnwritable :
      (s : VirtualMemory D) (v : ℕ) (t : TranslationResult)
      → IsCoherent io s
      → (translate io s v write_access).1 ≡ ok t
      → ¬ (IsUnwritable s v)
  writable-IsUnwritable s v t c f (e, g) =
      let a = (translate-invalidate_all io s v write_access c).result in cc

  translate_each-IsRefused :
      (s : VirtualMemory D) (vaddr i count k : ℕ)
      → IsQuiet io s.physical
      → IsCoherent io s
      → i ≤ k
      → k < i + count
      → IsUnwritable s (add32 vaddr k)
      → IsRefused s (translate_each io s vaddr i count)
  unfolding translate_each
  translate_each-IsRefused s vaddr i zero k q c low high u = absurd (omega arith)
  translate_each-IsRefused s vaddr i (suc count) k q c low high u =
      let at = add32 vaddr i in
      let x = translate io s at write_access in
      let gentle = translate-IsGentle io s at write_access q in
      let next = rest_of vaddr i count in
      elim (Result-cases x.1) [
        | inr (e, f) ↦ and_then-IsRefused s x next (gentle.0, (e, f))
        | inl (t, f) ↦ elim gentle.1 [
          | inl (e, g) ↦ absurd cc
          | inr (es, g) ↦ elim (Bool-cases (i == k)) [
            | inl here ↦
                let same : i ≡ k = ground arith in
                absurd (
                  writable-IsUnwritable s at t c f
                    (subst (λ j. IsUnwritable s (add32 vaddr j)) (sym same) u))
            | inr there ↦
                let above : i + 1 ≤ k = ground arith in
                let (kept, failed) =
                  translate_each-IsRefused x.0 vaddr (i + 1) count k
                    (subst (IsQuiet io) (sym gentle.0) q) (translated-IsCoherent s at q c) above
                    (omega arith) (still-IsUnwritable s x.0 es (add32 vaddr k) g u) in
                let r =
                  and_then-IsRefused s (translate_each io x.0 vaddr (i + 1) count)
                    (λ s rest. (s, ok (t.physical_address ∷ rest))) (kept ∙ gentle.0, failed) in
                and_then-ok s x next t f r
          ]
        ]
      ]

  -- Over quiet memory with a coherent cache, if the translation of one of the addresses that a write
  -- of bytes covers fails with an empty cache, the write fails and leaves the memory as it is.
  pub virtual_write_bytes-IsRefused :
      (s : VirtualMemory D) (vaddr : ℕ) (bytes : List ℕ) (k : ℕ)
      → IsQuiet io s.physical
      → IsCoherent io s
      → k < length bytes
      → IsUnwritable s (add32 vaddr k)
      → IsRefused s (virtual_write_bytes io s vaddr bytes)
  unfolding virtual_write_bytes
  virtual_write_bytes-IsRefused s vaddr bytes k q c high u =
      let r =
        translate_each-IsRefused s vaddr 0 (length bytes) k q c (omega arith) (omega arith) u in
      and_then-IsRefused s (translate_each io s vaddr 0 (length bytes))
        (λ s ps. write_loop io s vaddr 0 bytes) r
