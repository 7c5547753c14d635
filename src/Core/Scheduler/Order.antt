-- ===== src/Core/Scheduler/Order.antt =====
-- The order of the event queue.
use xblob_emulator.Core.Scheduler.{Event, later, push}
use xblob_emulator.Prelude.{ℕ, ◌≤◌, ◌≡◌, inl, inr, false, List, [], ◌∷◌, arith, Bool-cases}

-- `e` is not popped after `x`.
abbrev pub Before : Event → Event → Type 0
Before e x = later e x ≡ false

-- Every event of a queue stands where the comparison allows it, the first before all others.
abbrev pub AllBefore : Event → List Event → Type 0
AllBefore e [] = Unit {0}
AllBefore e (x ∷ xs) = Before e x × AllBefore e xs

abbrev pub IsOrdered : List Event → Type 0
IsOrdered [] = Unit {0}
IsOrdered (x ∷ xs) = AllBefore x xs × IsOrdered xs

-- No event of a queue lies before cycle `c`.
abbrev pub From : ℕ → List Event → Type 0
From c [] = Unit {0}
From c (x ∷ xs) = (c ≤ x.target_cycle) × From c xs

AllBefore-push :
    (a e : Event) (q : List Event) → Before a e → AllBefore a q → AllBefore a (push e q)
unfolding push
AllBefore-push a e [] h k = (h, tt)
AllBefore-push a e (x ∷ xs) h k = ground (arith, AllBefore-push a e xs h k.1)

AllBefore-trans : (a b : Event) (q : List Event) → Before a b → AllBefore b q → AllBefore a q
AllBefore-trans a b [] h k = tt
AllBefore-trans a b (x ∷ xs) h k = ground (arith, AllBefore-trans a b xs h k.1)

-- Insertion keeps the order.
pub push-IsOrdered : (e : Event) (q : List Event) → IsOrdered q → IsOrdered (push e q)
unfolding push
push-IsOrdered e [] h = (tt, tt)
push-IsOrdered e (x ∷ xs) h = elim (Bool-cases (later x e)) [
  | inl l ↦ let b : Before e x = ground arith in rw l ((b, AllBefore-trans e x xs b h.0), h)
  | inr l ↦ rw l (AllBefore-push x e xs l h.0, push-IsOrdered e xs h.1)
]

pub push-From :
    (c : ℕ) (e : Event) (q : List Event) → c ≤ e.target_cycle → From c q → From c (push e q)
unfolding push
push-From c e [] h k = (h, tt)
push-From c e (x ∷ xs) h k = ground (arith, push-From c e xs h k.1)

pub AllBefore-From : (e : Event) (q : List Event) → AllBefore e q → From e.target_cycle q
AllBefore-From e [] h = tt
AllBefore-From e (x ∷ xs) h = ground (arith, AllBefore-From e xs h.1)

pub From-mono : (c d : ℕ) (q : List Event) → d ≤ c → From c q → From d q
From-mono c d [] h k = tt
From-mono c d (x ∷ xs) h k = (omega arith, From-mono c d xs h k.1)
