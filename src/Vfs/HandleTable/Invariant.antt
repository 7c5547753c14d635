-- ===== src/Vfs/HandleTable/Invariant.antt =====
-- The table's invariant: no more slots than the limit, and every generation a nonzero 16-bit word.
use mathlib.Core.Option.{some-injective}
use xblob_emulator.Vfs.HandleTable.{
  VfsHandle, VfsAccessMode, VfsFileInfo, VfsDirEntry, HandleSlot, VfsHandleTable, fresh_slot,
  first_closed, allocate_slot, slot_at, put_slot, open_file, open_dir, next_generation, count_open,
}
use xblob_emulator.Common.{limit_reached, Result, ok, fail}
use xblob_emulator.Prelude.{
  ℕ, zero, suc, ◌+◌, ◌%◌, ◌≤◌, ◌<◌, ◌≡◌, refl, sym, ap, ◌∙◌, subst, ◌≢◌, inl, inr, Bool, true,
  false, Option, none, some, List, [], ◌∷◌, ◌++◌, arith, leb, if◌then◌else◌, leb→le, Bool-cases,
  length, get_elem?, set, length-append, All, All-append, All-get_elem?, get_or, get_elem?-lt,
  get_elem?-get_or, get_elem?-append_self, u16_mod,
}

abbrev pub IsGeneration : ℕ → Type 0
IsGeneration g = (0 < g) × (g < u16_mod)

abbrev pub SlotOk : HandleSlot → Type 0
SlotOk s = IsGeneration s.generation

pub record IsValid (t : VfsHandleTable) : Type 0 where
  pub bounded : length t.slots ≤ t.max_handles
  pub generations : All SlotOk t.slots

pub next_generation-IsGeneration : (g : ℕ) → IsGeneration (next_generation g)
unfolding next_generation
next_generation-IsGeneration g = ground arith

-- What the search from `i` finds: the first closed slot, or that all are open.
abbrev pub FirstClosed : List HandleSlot → ℕ → Option ℕ → Type 0
FirstClosed ss i none = All (λ s. s.is_open ≡ true) ss
FirstClosed ss i (some j) =
    (n : ℕ) × (j ≡ i + n) × (n < length ss) × ((get_or ss n fresh_slot).is_open ≡ false)

skip-FirstClosed :
    (s : HandleSlot) (ss : List HandleSlot) (i : ℕ) (o : Option ℕ)
    → s.is_open ≡ true
    → FirstClosed ss (i + 1) o
    → FirstClosed (s ∷ ss) i o
skip-FirstClosed s ss i none e h = (e, h)
skip-FirstClosed s ss i (some j) e h = (suc h.0, omega (arith, h.1), omega (arith, h.2), h.3)

pub first_closed-FirstClosed : (ss : List HandleSlot) (i : ℕ) → FirstClosed ss i (first_closed ss i)
unfolding first_closed
first_closed-FirstClosed [] i = tt
first_closed-FirstClosed (s ∷ ss) i = step s.is_open refl (first_closed-FirstClosed ss (i + 1))
  where
    step :
        (b : Bool)
        → s.is_open ≡ b
        → FirstClosed ss (i + 1) (first_closed ss (i + 1))
        → FirstClosed (s ∷ ss) i (if b then first_closed ss (i + 1) else some i)
    step true e rest = skip-FirstClosed s ss i _ e rest
    step false e rest = (0, omega arith, omega arith, e)

-- What `AllocateSlot` does: a closed slot of the table as it was, one new slot behind the others, or
-- a refusal because all slots are open and the limit is reached.
pub data Allocates (t : VfsHandleTable) (r : VfsHandleTable × Result ℕ) : Type 0 where
  reuses :
      (i : ℕ) → i < length t.slots → (slot_at t i).is_open ≡ false → r ≡ (t, ok i) → Allocates t r
  grows :
      All (λ s. s.is_open ≡ true) t.slots
      → length t.slots < t.max_handles
      → r ≡ (record t { slots = t.slots ++ (fresh_slot ∷ []) }, ok (length t.slots))
      → Allocates t r
  refuses :
      All (λ s. s.is_open ≡ true) t.slots
      → t.max_handles ≤ length t.slots
      → r ≡ (t, fail limit_reached)
      → Allocates t r

pub allocate_slot-Allocates : (t : VfsHandleTable) → Allocates t (allocate_slot t)
unfolding allocate_slot
allocate_slot-Allocates t = found (first_closed t.slots 0) refl (first_closed-FirstClosed t.slots 0)
  where
    found :
        (o : Option ℕ)
        → first_closed t.slots 0 ≡ o
        → FirstClosed t.slots 0 o
        → Allocates t (allocate_slot t)
    found (some j) e h =
        let same : h.0 ≡ j = omega (arith, h.1) in
        reuses j (rw same at h.2) (subst (λ n. (slot_at t n).is_open ≡ false) same h.3)
          (rw (e, allocate_slot))
    found none e h = elim (Bool-cases (leb t.max_handles (length t.slots))) [
      | inl l ↦ refuses h (leb→le _ _ l) (rw (e, allocate_slot, l))
      | inr l ↦ grows h (ground arith) (rw (e, allocate_slot, l))
    ]

-- The filling of a slot opens it and leaves its generation.
pub record Fills (f : HandleSlot → HandleSlot) : Type 0 where
  pub opens : (s : HandleSlot) → (f s).is_open ≡ true
  pub keeps : (s : HandleSlot) → (f s).generation ≡ s.generation

pub open_file-Fills :
    (source : ℕ) (mode : VfsAccessMode) (info : VfsFileInfo) → Fills (open_file source mode info)
open_file-Fills source mode info = record { opens = λ s. refl; keeps = λ s. refl }

pub open_dir-Fills :
    (entries : List VfsDirEntry) (info : VfsFileInfo) → Fills (open_dir entries info)
open_dir-Fills entries info = record { opens = λ s. refl; keeps = λ s. refl }

-- What an allocation does: it fills one slot `i` that was closed or new, leaves all others, and
-- returns a handle for it; or it fails, with all slots open, and changes nothing.
pub data Opens (t : VfsHandleTable) (f : HandleSlot → HandleSlot)
    (r : VfsHandleTable × Result VfsHandle) : Type 0 where
  opened :
      (i : ℕ) (old : HandleSlot) (ss : List HandleSlot)
      → i < length ss
      → length ss ≤ t.max_handles
      → get_elem? ss i ≡ some old
      → old.is_open ≡ false
      → SlotOk old
      → All SlotOk ss
      → ((j : ℕ) → j ≢ i → get_elem? ss j ≡ get_elem? t.slots j)
      → ((s : HandleSlot) → get_elem? t.slots i ≡ some s → s ≡ old)
      → count_open ss ≡ count_open t.slots
      → r ≡ (
        record t { slots = set ss i (f old) },
        ok (record { index = i % u16_mod; generation = old.generation }),
      )
      → Opens t f r
  full :
      All (λ s. s.is_open ≡ true) t.slots
      → t.max_handles ≤ length t.slots
      → r ≡ (t, fail limit_reached)
      → Opens t f r

count_open-grow : (ss : List HandleSlot) → count_open (ss ++ (fresh_slot ∷ [])) ≡ count_open ss
unfolding count_open
count_open-grow [] = refl
count_open-grow (s ∷ ss) = ground (arith, count_open-grow ss)

grow-frame :
    (ss : List HandleSlot) (j : ℕ)
    → j ≢ length ss
    → get_elem? (ss ++ (fresh_slot ∷ [])) j ≡ get_elem? ss j
grow-frame [] zero n = absurd (n refl)
grow-frame [] (suc j) n = refl
grow-frame (s ∷ ss) zero n = refl
grow-frame (s ∷ ss) (suc j) n = grow-frame ss j (λ e. n (ap suc e))

abbrev fill :
    VfsHandleTable
    → (HandleSlot → HandleSlot)
    → List HandleSlot
    → ℕ
    → HandleSlot
    → VfsHandleTable × Result VfsHandle
fill t f ss i old = (
  record t { slots = set ss i (f old) },
  ok (record { index = i % u16_mod; generation = old.generation }),
)

pub put_slot-Opens :
    (t : VfsHandleTable) (f : HandleSlot → HandleSlot)
    → IsValid t
    → Opens t f (put_slot f (allocate_slot t))
unfolding put_slot
put_slot-Opens t f v = elim (allocate_slot-Allocates t) [
  | reuses i lt shut e ↦
      let at = get_elem?-get_or t.slots i fresh_slot lt in
      opened i (slot_at t i) t.slots lt v.bounded at shut
        (All-get_elem? SlotOk t.slots i (slot_at t i) v.generations at) v.generations (λ j n. refl)
        (λ s e. some-injective _ _ (sym e ∙ at)) refl (ap (put_slot f) e)
  | grows all lt e ↦
      let n = length t.slots in
      let ss = t.slots ++ (fresh_slot ∷ []) in
      let at : get_or ss n fresh_slot ≡ fresh_slot = some-injective _ _ (
        sym (
          get_elem?-get_or ss n fresh_slot (omega (arith, length-append t.slots (fresh_slot ∷ []))))
        ∙ get_elem?-append_self t.slots fresh_slot) in
      let new = ap (fill t f ss n) at in
      opened n fresh_slot ss (omega (arith, length-append t.slots (fresh_slot ∷ [])))
        (omega (arith, length-append t.slots (fresh_slot ∷ [])))
        (get_elem?-append_self t.slots fresh_slot) refl (omega arith)
        (All-append SlotOk t.slots (fresh_slot ∷ []) v.generations (omega arith, tt))
        (grow-frame t.slots) (λ s e. absurd (omega (arith, get_elem?-lt t.slots n s e)))
        (count_open-grow t.slots) (ap (put_slot f) e ∙ new)
  | refuses all le e ↦ full all le (ap (put_slot f) e)
]
