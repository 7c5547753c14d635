-- ===== src/Memory/Virtual/Runs.antt =====
-- Sequences of calls, from a virtual memory that has just been made.
use Prim.Native.Nat.{bit_xor}
use xblob_emulator.Memory.Virtual.{
  VirtualAccessType, VirtualMemory, has_bit, virtual_memory, invalidate_all, set_cr0, set_cr3,
  set_cpl, find_entry, invalidate_translation, translate,
}
use xblob_emulator.Memory.Virtual.Walk.{Agree}
use xblob_emulator.Memory.Virtual.Coherent.{IsCoherent, translate-invalidate_all, IsQuiet}
use xblob_emulator.Memory.Virtual.Calls.{
  Op, sets_cr0, sets_cr3, sets_cpl, invalidates, invalidates_all, translates, step, step-IsCoherent,
}
use xblob_emulator.Memory.Virtual.Access.Gentle.{translate-IsGentle}
use xblob_emulator.Memory.AddressSpace.{Devices, Memory}
use xblob_emulator.Prelude.{ℕ, ◌≡◌, refl, sym, subst, inl, inr, List, [], ◌∷◌, Bool-cases}

module _ {D : Type 0} (io : Devices D) where
  unfoldable pub run : VirtualMemory D → List Op → VirtualMemory D
  run s [] = s
  run s (o ∷ os) = run (step io s o) os

  -- No call changes quiet memory.
  step_physical :
      (s : VirtualMemory D) (o : Op) → IsQuiet io s.physical → (step io s o).physical ≡ s.physical
  unfolding step set_cr0 set_cr3 set_cpl invalidate_translation invalidate_all
  step_physical s (sets_cr0 cr0) q = elim (Bool-cases (has_bit (bit_xor s.cr0 cr0) 31)) [
    | inl e ↦ rw (step, e, set_cr0)
    | inr e ↦ rw (step, e, set_cr0)
  ]
  step_physical s (sets_cr3 cr3) q = refl
  step_physical s (sets_cpl cpl) q = refl
  step_physical s (invalidates vaddr) q = refl
  step_physical s invalidates_all q = refl
  step_physical s (translates vaddr t) q = (translate-IsGentle io s vaddr t q).0

  run-IsCoherent :
      (s : VirtualMemory D) (os : List Op)
      → IsQuiet io s.physical
      → IsCoherent io s
      → IsCoherent io (run s os)
  unfolding run
  run-IsCoherent s [] q c = c
  run-IsCoherent s (o ∷ os) q c =
      run-IsCoherent (step io s o) os (subst (IsQuiet io) (sym (step_physical s o q)) q)
        (step-IsCoherent io s o q c)

  -- The cache is invisible: where reads do not change the memory, after any sequence of changes of
  -- the control registers and the privilege level, invalidations and translations from a virtual
  -- memory just made, a translation has the result, the page fault and the memory that it has with
  -- the cache emptied first.
  pub translate-run :
      (m : Memory D) (os : List Op) (v : ℕ) (t : VirtualAccessType)
      → IsQuiet io m
      → Agree
          (translate io (run (virtual_memory m) os) v t)
          (translate io (invalidate_all (run (virtual_memory m) os)) v t)
  unfolding virtual_memory find_entry
  translate-run m os v t q =
      translate-invalidate_all io (run (virtual_memory m) os) v t
        (run-IsCoherent (virtual_memory m) os q (λ w e at. cc))
