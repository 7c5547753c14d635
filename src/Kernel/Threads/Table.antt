-- ===== src/Kernel/Threads/Table.antt =====
-- The thread table under assignment and under the sweep for deadlines, and the ready queue.
use mathlib.Core.Option.{some-injective}
use xblob_emulator.Kernel.Threads.{
  GuestThread, status_wait_timeout, find, put, awaken, is_expired, remove_waits, sweep,
}
use xblob_emulator.Kernel.Handles.{HandleTable}
use xblob_emulator.Prelude.{
  ℕ, ◌≡◌, refl, ap, ◌∙◌, ◌≢◌, inl, inr, true, Option, none, some, List, [], ◌∷◌, arith, ◌==◌,
  if◌then◌else◌, Bool-cases, contains, push_new, contains-push_new, Distinct, push_new-Distinct,
}

pub find-put_self :
    (tid : ℕ) (th : GuestThread) (ts : List (ℕ × GuestThread)) → find tid (put tid th ts) ≡ some th
unfolding find put
find-put_self tid th [] = ground arith
find-put_self tid th ((key, old) ∷ ts) = ground (arith, find-put_self tid th ts)

pub find-put_ne :
    (tid x : ℕ) (th : GuestThread) (ts : List (ℕ × GuestThread))
    → x ≢ tid
    → find x (put tid th ts) ≡ find x ts
unfolding find put
find-put_ne tid x th [] n = ground arith
find-put_ne tid x th ((key, old) ∷ ts) n = ground (arith, find-put_ne tid x th ts n)

-- The sweep wakes the threads whose deadline has passed and leaves the others.
abbrev pub swept : ℕ → GuestThread → GuestThread
swept now th = if is_expired now th then awaken status_wait_timeout th else th

abbrev pub swept? : ℕ → Option GuestThread → Option GuestThread
swept? now none = none
swept? now (some th) = some (swept now th)

pub find-sweep :
    (now x : ℕ) (ts : List (ℕ × GuestThread)) (table : HandleTable) (q : List ℕ)
    → find x (sweep now ts table q).threads ≡ swept? now (find x ts)
unfolding find sweep
find-sweep now x [] table q = refl
find-sweep now x ((key, th) ∷ ts) table q = elim (Bool-cases (key == x)) [
  | inl k ↦ elim (Bool-cases (is_expired now th)) [
    | inl c ↦
        let wakes : swept now th ≡ awaken status_wait_timeout th = rw c in
        rw (c, sweep, find, k, wakes)
    | inr c ↦ let stays : swept now th ≡ th = rw c in rw (c, sweep, find, k, stays)
  ]
  | inr k ↦ elim (Bool-cases (is_expired now th)) [
    | inl c ↦
        rw (c, sweep, find, k)
          (find-sweep now x ts (remove_waits table th.wait_handles key) (push_new key q))
    | inr c ↦ rw (c, sweep, find, k) (find-sweep now x ts table q)
  ]
]

-- What the sweep does to the ready queue: it keeps what is queued, adds the threads that it wakes,
-- and puts none there twice.
pub sweep-keeps :
    (now x : ℕ) (ts : List (ℕ × GuestThread)) (table : HandleTable) (q : List ℕ)
    → contains x q ≡ true
    → contains x (sweep now ts table q).ready_queue ≡ true
unfolding sweep
sweep-keeps now x [] table q h = h
sweep-keeps now x ((key, th) ∷ ts) table q h = elim (Bool-cases (is_expired now th)) [
  | inl c ↦
      rw (c, sweep)
        (sweep-keeps now x ts (remove_waits table th.wait_handles key) (push_new key q)
          (ground (arith, contains-push_new x key q)))
  | inr c ↦ rw (c, sweep) (sweep-keeps now x ts table q h)
]

pub sweep-adds :
    (now x : ℕ) (th : GuestThread) (ts : List (ℕ × GuestThread)) (table : HandleTable) (q : List ℕ)
    → find x ts ≡ some th
    → is_expired now th ≡ true
    → contains x (sweep now ts table q).ready_queue ≡ true
unfolding sweep find
sweep-adds now x th [] table q f c = cc
sweep-adds now x th ((key, old) ∷ ts) table q f c = elim (Bool-cases (key == x)) [
  | inl k ↦
      let same : old ≡ th = some-injective old th (rw k at f) in
      let d : is_expired now old ≡ true = ap (is_expired now) same ∙ c in
      rw (d, sweep)
        (sweep-keeps now x ts (remove_waits table old.wait_handles key) (push_new key q)
          (ground (arith, contains-push_new x key q)))
  | inr k ↦
      let g : find x ts ≡ some th = rw k at f in
      elim (Bool-cases (is_expired now old)) [
        | inl d ↦
            rw (d, sweep)
              (sweep-adds now x th ts (remove_waits table old.wait_handles key) (push_new key q) g
                c)
        | inr d ↦ rw (d, sweep) (sweep-adds now x th ts table q g c)
      ]
]

pub sweep-Distinct :
    (now : ℕ) (ts : List (ℕ × GuestThread)) (table : HandleTable) (q : List ℕ)
    → Distinct q
    → Distinct (sweep now ts table q).ready_queue
unfolding sweep
sweep-Distinct now [] table q h = h
sweep-Distinct now ((key, th) ∷ ts) table q h = elim (Bool-cases (is_expired now th)) [
  | inl c ↦
      rw (c, sweep)
        (sweep-Distinct now ts (remove_waits table th.wait_handles key) (push_new key q)
          (push_new-Distinct key q h))
  | inr c ↦ rw (c, sweep) (sweep-Distinct now ts table q h)
]
