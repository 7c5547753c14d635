-- ===== src/Vfs/HandleTable/Stale.antt =====
-- A closed handle stays refused, also when its slot is opened again.
use mathlib.Core.Option.{some-injective}
use native.Mathlib.Decide.{ℕ_discrete}
use xblob_emulator.Vfs.HandleTable.{
  VfsHandle, HandleSlot, VfsHandleTable, allocate_slot, put_slot, open_file, open_dir,
  allocate_file, allocate_dir, find_slot, next_generation, closed, close, reset_slot, reset,
}
use xblob_emulator.Vfs.HandleTable.Invariant.{
  IsGeneration, SlotOk, IsValid, Fills, open_file-Fills, open_dir-Fills, opened, full,
  put_slot-Opens,
}
use xblob_emulator.Vfs.HandleTable.Lookup.{find_slot-Finds, find_slot_or_invalid}
use xblob_emulator.Vfs.HandleTable.Close.{
  Op, allocates_file, allocates_dir, closes, resets, step, run, step-IsValid,
}
use xblob_emulator.Common.{invalid_handle, ok, fail}
use xblob_emulator.Prelude.{
  ℕ, zero, suc, ◌+◌, ◌-◌, ◌%◌, ◌≤◌, ◌<◌, ◌≡◌, refl, sym, ap, ◌∙◌, subst, ◌≢◌, ◌⊎◌, inl, inr, Bool,
  true, false, none, some, List, [], ◌∷◌, map, arith, if◌then◌else◌, length, get_elem?, set,
  get_elem?-set_self, get_elem?-set_ne, All-get_elem?, get_elem?-lt,
}

-- The generation `k` closes after `g`.
after_closes : ℕ → ℕ → ℕ
after_closes g k = (g - 1 + k) % 65535 + 1

next-after_closes : (g k : ℕ) → next_generation (after_closes g k) ≡ after_closes g (k + 1)
unfolding next_generation after_closes
next-after_closes g k = ground arith

-- The slot of index `i` was closed `k` times since its generation was `g`.
record Aged (g i k : ℕ) (t : VfsHandleTable) : Type 0 where
  slot : HandleSlot
  here : get_elem? t.slots i ≡ some slot
  aged : slot.generation ≡ after_closes g k

-- At most one close more.
Older : (g i k : ℕ) → VfsHandleTable → Type 0
Older g i k t = Aged g i k t ⊎ Aged g i (k + 1) t

closed-Aged :
    (g i k : ℕ) (t : VfsHandleTable) (a : Aged g i k t)
    → Aged g i (k + 1) (record t { slots = set t.slots i (closed a.slot) })
closed-Aged g i k t a = record {
  slot = closed a.slot;
  here = get_elem?-set_self t.slots i _ (get_elem?-lt t.slots i a.slot a.here);
  aged = ap next_generation a.aged ∙ next-after_closes g k;
}

put_slot-Aged :
    (g i k : ℕ) (t : VfsHandleTable) (f : HandleSlot → HandleSlot)
    → IsValid t
    → Fills f
    → Aged g i k t
    → Aged g i k (put_slot f (allocate_slot t)).0
put_slot-Aged g i k t f v fills a = elim (put_slot-Opens t f v) [
  | full all le e ↦ rw e a
  | opened j old ss lt bound at shut good goods frame vacant count e ↦
      rw e (kept j old ss lt frame vacant)
]
  where
    kept :
        (j : ℕ) (old : HandleSlot) (ss : List HandleSlot)
        → j < length ss
        → ((j' : ℕ) → j' ≢ j → get_elem? ss j' ≡ get_elem? t.slots j')
        → ((s : HandleSlot) → get_elem? t.slots j ≡ some s → s ≡ old)
        → Aged g i k (record t { slots = set ss j (f old) })
    kept j old ss lt frame vacant = elim (ℕ_discrete i j) [
      | yes p ↦ record {
        slot = f old;
        here = rw p (get_elem?-set_self ss j (f old) lt);
        aged =
            fills.keeps old
            ∙ ap (λ (s : HandleSlot). s.generation) (sym (vacant a.slot (rw p at a.here)))
            ∙ a.aged;
      }
      | no n ↦ record {
        slot = a.slot;
        here = get_elem?-set_ne ss j i (f old) (λ q. n (sym q)) ∙ frame i n ∙ a.here;
        aged = a.aged;
      }
    ]

get_elem?-map :
    (ss : List HandleSlot) (i : ℕ) (s : HandleSlot)
    → get_elem? ss i ≡ some s
    → get_elem? (map reset_slot ss) i ≡ some (reset_slot s)
get_elem?-map [] i s e = cc
get_elem?-map (x ∷ ss) zero s e = ap some (ap reset_slot (some-injective x s e))
get_elem?-map (x ∷ ss) (suc i) s e = get_elem?-map ss i s e

reset-Older : (g i k : ℕ) (t : VfsHandleTable) → Aged g i k t → Older g i k (reset t)
unfolding reset Older
reset-Older g i k t a = by_state a.slot.is_open refl
  where
    there : get_elem? (map reset_slot t.slots) i ≡ some (reset_slot a.slot)
    there = get_elem?-map t.slots i a.slot a.here

    by_state : (b : Bool) → a.slot.is_open ≡ b → Older g i k (reset t)
    by_state true e = inr (record {
      slot = closed a.slot;
      here = there ∙ ap some (ap (λ b. if b then closed a.slot else a.slot) e);
      aged = ap next_generation a.aged ∙ next-after_closes g k;
    })
    by_state false e = inl (record {
      slot = a.slot;
      here = there ∙ ap some (ap (λ b. if b then closed a.slot else a.slot) e);
      aged = a.aged;
    })

close-Older :
    (g i k : ℕ) (t : VfsHandleTable) (h : VfsHandle) → Aged g i k t → Older g i k (close t h).0
unfolding close Older
close-Older g i k t h a = elim (find_slot_or_invalid t h) [
  | inr e ↦ rw (e, close) (inl a)
  | inl (s, e) ↦
      let f = find_slot-Finds t h s e in
      elim (ℕ_discrete h.index i) [
        | yes p ↦
            let same : s ≡ a.slot = some-injective _ _ (sym f.1 ∙ rw p a.here) in
            rw (e, close)
              (inr (
                subst
                  (λ (x : HandleSlot).
                    Aged g i (k + 1) (record t { slots = set t.slots h.index (closed x) }))
                  (sym same) (rw p (closed-Aged g i k t a))))
        | no n ↦
            rw (e, close)
              (inl (record {
                slot = a.slot;
                here = get_elem?-set_ne t.slots h.index i _ n ∙ a.here;
                aged = a.aged;
              }))
      ]
]

step-Older :
    (g i k : ℕ) (t : VfsHandleTable) (o : Op) → IsValid t → Aged g i k t → Older g i k (step t o)
unfolding step allocate_file allocate_dir Older
step-Older g i k t (allocates_file none mode info) v a = inl a
step-Older g i k t (allocates_file (some source) mode info) v a =
    inl (put_slot-Aged g i k t (open_file source mode info) v (open_file-Fills source mode info) a)
step-Older g i k t (allocates_dir entries info) v a =
    inl (put_slot-Aged g i k t (open_dir entries info) v (open_dir-Fills entries info) a)
step-Older g i k t (closes h) v a = close-Older g i k t h a
step-Older g i k t resets v a = reset-Older g i k t a

-- After `n` calls the slot was closed at most `n` times more.
run-Aged :
    (g i k : ℕ) (t : VfsHandleTable) (os : List Op)
    → IsValid t
    → Aged g i k t
    → (m : ℕ) × (k ≤ m) × (m ≤ k + length os) × Aged g i m (run t os)
unfolding run Older
run-Aged g i k t [] v a = (k, omega arith, omega arith, a)
run-Aged g i k t (o ∷ os) v a = elim (step-Older g i k t o v a) [
  | inl b ↦
      let (m, lo, hi, c) = run-Aged g i k (step t o) os (step-IsValid t o v) b in
      (m, lo, omega arith, c)
  | inr b ↦
      let (m, lo, hi, c) = run-Aged g i (k + 1) (step t o) os (step-IsValid t o v) b in
      (m, omega arith, omega arith, c)
]

after_closes-ne : (g k : ℕ) → 0 < g → g < 65536 → 0 < k → k < 65535 → after_closes g k ≢ g
unfolding after_closes
after_closes-ne g k lo hi k1 k2 = omega arith

after_closes-one : (g : ℕ) → 0 < g → g < 65536 → after_closes g 0 ≡ g
unfolding after_closes
after_closes-one g lo hi = omega arith

close_refused :
    (t : VfsHandleTable) (h : VfsHandle)
    → find_slot t h ≡ fail invalid_handle
    → (close t h).1 ≡ fail invalid_handle
unfolding close
close_refused t h e = rw (e, close)

close_done :
    (t : VfsHandleTable) (h : VfsHandle) (s : HandleSlot)
    → find_slot t h ≡ ok s
    → (close t h).0 ≡ record t { slots = set t.slots h.index (closed s) }
unfolding close
close_done t h s e = rw (e, close)

refused_if_Aged :
    (t : VfsHandleTable) (h : VfsHandle) (k : ℕ)
    → IsGeneration h.generation
    → 0 < k
    → k < 65535
    → Aged h.generation h.index k t
    → find_slot t h ≡ fail invalid_handle
refused_if_Aged t h k gen k1 k2 a = elim (find_slot_or_invalid t h) [
  | inr e ↦ e
  | inl (s, e) ↦
      let f = find_slot-Finds t h s e in
      let same : s ≡ a.slot = some-injective _ _ (sym f.1 ∙ a.here) in
      let again : after_closes h.generation k ≡ h.generation =
        sym a.aged ∙ ap (λ (x : HandleSlot). x.generation) (sym same) ∙ f.3 in
      absurd (after_closes-ne h.generation k gen.0 gen.1 k1 k2 again)
]

-- A handle that was closed is refused after any sequence of fewer than 65,534 further calls, also
-- where the slot has been given to other files.
pub closed_handle_stays_refused :
    (t : VfsHandleTable) (h : VfsHandle) (os : List Op)
    → IsValid t
    → (close t h).1 ≡ ok tt
    → length os < 65534
    → find_slot (run (close t h).0 os) h ≡ fail invalid_handle
closed_handle_stays_refused t h os v done few = elim (find_slot_or_invalid t h) [
  | inr e ↦ cc (close_refused t h e, done)
  | inl (s, e) ↦
      let f = find_slot-Finds t h s e in
      let gen = All-get_elem? SlotOk t.slots h.index s v.generations f.1 in
      let start : Aged h.generation h.index 0 t = record {
        slot = s;
        here = f.1;
        aged = f.3 ∙ sym (after_closes-one h.generation (omega (arith, f.3)) (omega (arith, f.3)));
      } in
      let shut = closed-Aged h.generation h.index 0 t start in
      let valid : IsValid (close t h).0 = unfold step in step-IsValid t (closes h) v in
      rw (close_done t h s e) (
        later_on (record t { slots = set t.slots h.index (closed s) })
          (rw (close_done t h s e) at valid) (rw f.3 at gen) shut)
]
  where
    later_on :
        (u : VfsHandleTable)
        → IsValid u
        → IsGeneration h.generation
        → Aged h.generation h.index 1 u
        → find_slot (run u os) h ≡ fail invalid_handle
    later_on u w gen a =
        let (m, lo, hi, b) = run-Aged h.generation h.index 1 u os w a in
        refused_if_Aged (run u os) h m gen (omega arith) (omega arith) b
