-- ===== src/Kernel/Threads/Wakes.antt =====
-- The calls that change threads other than the current one keep the scheduler consistent.
use mathlib.Core.Option.{some-injective}
use xblob_emulator.Kernel.Threads.{
  to_u8, GuestThread, ThreadScheduler, find, put, new_thread, enqueue_ready, create_thread,
  with_thread, awaken, wake, terminate_thread, suspend_thread, resume_thread, is_expired, sweep,
  check_timeouts,
}
use xblob_emulator.Kernel.Threads.Table.{
  swept, swept?, find-sweep, sweep-keeps, sweep-adds, sweep-Distinct,
}
use xblob_emulator.Kernel.Threads.Consistent.{In, IsConsistent, in_put, replaced-IsConsistent}
use xblob_emulator.Kernel.Handles.{HandleTable}
use xblob_emulator.Prelude.{
  ℕ, ◌+◌, ◌-◌, ◌<◌, ◌≡◌, refl, sym, ap, ◌∙◌, subst, inl, inr, Bool, true, false, ◌&&◌, some, List,
  arith, ◌==◌, Bool-cases, Option-cases, contains, remove, push_new, contains-remove,
  contains-push_new, Distinct, remove-Distinct, push_new-Distinct, u32_mod, add32,
}

-- A thread made ready is queued.
readied-IsConsistent :
    (s : ThreadScheduler) (tid : ℕ) (old new : GuestThread)
    → IsConsistent s
    → In s tid old
    → to_u8 new.state ≡ 0
    → IsConsistent (enqueue_ready (with_thread s tid new) tid)
unfolding enqueue_ready
readied-IsConsistent s tid old new v i r =
    replaced-IsConsistent s tid old new (push_new tid s.ready_queue) v i (λ e. absurd (omega arith))
      (λ _. ground (arith, contains-push_new tid tid s.ready_queue))
      (λ x n c. ground (arith, contains-push_new x tid s.ready_queue))
      (push_new-Distinct tid s.ready_queue v.distinct)

-- A thread that is neither ready nor running leaves the queue.
removed-IsConsistent :
    (s : ThreadScheduler) (tid : ℕ) (old new : GuestThread)
    → IsConsistent s
    → In s tid old
    → 1 < to_u8 new.state
    → IsConsistent
        (record s { threads = put tid new s.threads; ready_queue = remove tid s.ready_queue })
removed-IsConsistent s tid old new v i l =
    replaced-IsConsistent s tid old new (remove tid s.ready_queue) v i (λ e. absurd (omega arith))
      (λ e. absurd (omega arith)) (λ x n c. ground (arith, contains-remove x tid s.ready_queue))
      (remove-Distinct tid s.ready_queue v.distinct)

-- A thread that keeps its state.
kept-IsConsistent :
    (s : ThreadScheduler) (tid : ℕ) (old new : GuestThread)
    → IsConsistent s
    → In s tid old
    → to_u8 new.state ≡ to_u8 old.state
    → IsConsistent (with_thread s tid new)
kept-IsConsistent s tid old new v i same =
    replaced-IsConsistent s tid old new s.ready_queue v i (λ e. v.one_runs tid old i (sym same ∙ e))
      (λ e. v.queued tid old i (sym same ∙ e)) (λ x n c. c) v.distinct

pub wake-IsConsistent :
    (s : ThreadScheduler) (tid status : ℕ) → IsConsistent s → IsConsistent (wake s tid status).0
unfolding wake awaken
wake-IsConsistent s tid status v = elim (Option-cases (find tid s.threads)) [
  | inl f ↦ rw (f, wake) v
  | inr (th, f) ↦ elim (Bool-cases (to_u8 th.state == 2)) [
    | inl b ↦ rw (f, b, wake) (readied-IsConsistent s tid th (awaken status th) v f refl)
    | inr b ↦ rw (f, b, wake) v
  ]
]

pub terminate-IsConsistent :
    (s : ThreadScheduler) (tid code : ℕ)
    → IsConsistent s
    → IsConsistent (terminate_thread s tid code).0
unfolding terminate_thread
terminate-IsConsistent s tid code v = elim (Option-cases (find tid s.threads)) [
  | inl f ↦ rw (f, terminate_thread) v
  | inr (th, f) ↦ rw (f, terminate_thread) (removed-IsConsistent s tid th _ v f (omega arith))
]

pub suspend-IsConsistent :
    (s : ThreadScheduler) (tid : ℕ) → IsConsistent s → IsConsistent (suspend_thread s tid).0
unfolding suspend_thread
suspend-IsConsistent s tid v = elim (Option-cases (find tid s.threads)) [
  | inl f ↦ rw (f, suspend_thread) v
  | inr (th, f) ↦ elim (Bool-cases (to_u8 th.state == 4)) [
    | inl t ↦ rw (f, t, suspend_thread) v
    | inr t ↦ elim (Bool-cases (to_u8 th.state == 0)) [
      | inl r ↦ rw (f, t, r, suspend_thread) (removed-IsConsistent s tid th _ v f (omega arith))
      | inr r ↦ rw (f, t, r, suspend_thread) (kept-IsConsistent s tid th _ v f refl)
    ]
  ]
]

pub resume-IsConsistent :
    (s : ThreadScheduler) (tid : ℕ) → IsConsistent s → IsConsistent (resume_thread s tid).0
unfolding resume_thread
resume-IsConsistent s tid v = elim (Option-cases (find tid s.threads)) [
  | inl f ↦ rw (f, resume_thread) v
  | inr (th, f) ↦ elim (Bool-cases (to_u8 th.state == 4)) [
    | inl t ↦ rw (f, t, resume_thread) v
    | inr t ↦ elim (Bool-cases (th.suspend_count == 0)) [
      | inl z ↦ rw (f, t, z, resume_thread) v
      | inr z ↦ elim (Bool-cases (th.suspend_count - 1 == 0 && to_u8 th.state == 3)) [
        | inl r ↦ rw (f, t, z, r, resume_thread) (readied-IsConsistent s tid th _ v f refl)
        | inr r ↦ rw (f, t, z, r, resume_thread) (kept-IsConsistent s tid th _ v f refl)
      ]
    ]
  ]
]

swept_from :
    (now x : ℕ) (ts : List (ℕ × GuestThread)) (table : HandleTable) (q : List ℕ) (th : GuestThread)
    → find x (sweep now ts table q).threads ≡ some th
    → (old : GuestThread) × (find x ts ≡ some old) × (th ≡ swept now old)
swept_from now x ts table q th e = elim (Option-cases (find x ts)) [
  | inl f ↦ let none_there = find-sweep now x ts table q ∙ ap (swept? now) f in cc (none_there, e)
  | inr (old, f) ↦ (
    old,
    f,
    some-injective th (swept now old) (sym e ∙ find-sweep now x ts table q ∙ ap (swept? now) f),
  )
]

swept_runs : (now : ℕ) (old : GuestThread) → to_u8 (swept now old).state ≡ 1 → to_u8 old.state ≡ 1
unfolding awaken
swept_runs now old e = ground arith

swept_ready :
    (now : ℕ) (old : GuestThread)
    → is_expired now old ≡ false
    → to_u8 (swept now old).state ≡ 0
    → to_u8 old.state ≡ 0
swept_ready now old c e = ground arith

pub check_timeouts-IsConsistent :
    (s : ThreadScheduler) (now : ℕ) (table : HandleTable)
    → IsConsistent s
    → IsConsistent (check_timeouts s now table).0.0
unfolding check_timeouts awaken
check_timeouts-IsConsistent s now table v =
    let was : (x : ℕ) (th : GuestThread)
        → find x (sweep now s.threads table s.ready_queue).threads ≡ some th
        → (old : GuestThread) × In s x old × (th ≡ swept now old) =
      λ x th e. swept_from now x s.threads table s.ready_queue th e in
    record {
      one_runs = λ x th e r.
          let (old, i, is) = was x th e in
          let code : to_u8 (swept now old).state ≡ 1 =
            ap (λ (y : GuestThread). to_u8 y.state) (sym is) ∙ r in
          v.one_runs x old i (swept_runs now old code);
      queued = λ x th e r.
          let (old, i, is) = was x th e in
          let code : to_u8 (swept now old).state ≡ 0 =
            ap (λ (y : GuestThread). to_u8 y.state) (sym is) ∙ r in
          elim (Bool-cases (is_expired now old)) [
            | inl c ↦ sweep-adds now x old s.threads table s.ready_queue i c
            | inr c ↦
                sweep-keeps now x s.threads table s.ready_queue
                  (v.queued x old i (swept_ready now old c code))
          ];
      distinct = sweep-Distinct now s.threads table s.ready_queue v.distinct;
      counts = v.counts;
      numbered = λ x th e. let (old, i, is) = was x th e in v.numbered x old i;
    }

-- A thread under a number that no other has had.
added-IsConsistent :
    (s : ThreadScheduler) (new : GuestThread) (current : ℕ) (q : List ℕ)
    → IsConsistent s
    → s.next_tid + 1 < u32_mod
    → ((x : ℕ) (th : GuestThread) → In s x th → to_u8 th.state ≡ 1 → x ≡ current)
    → (to_u8 new.state ≡ 1 → s.next_tid ≡ current)
    → (to_u8 new.state ≡ 0 → contains s.next_tid q ≡ true)
    → ((x : ℕ) → contains x s.ready_queue ≡ true → contains x q ≡ true)
    → Distinct q
    → IsConsistent (record {
      next_tid = add32 s.next_tid 1;
      current_tid = current;
      threads = put s.next_tid new s.threads;
      ready_queue = q;
    })
added-IsConsistent s new current q v room old_runs runs waits keeps d =
    let up : add32 s.next_tid 1 ≡ s.next_tid + 1 = ground arith in
    record {
      one_runs = λ x th e r. elim (in_put s.next_tid x new th s.threads e) [
        | inl (same, is) ↦ same ∙ runs (subst (λ (y : GuestThread). to_u8 y.state ≡ 1) is r)
        | inr (n, i) ↦ old_runs x th i r
      ];
      queued = λ x th e r. elim (in_put s.next_tid x new th s.threads e) [
        | inl (same, is) ↦
            ap (λ y. contains y q) same
            ∙ waits (subst (λ (y : GuestThread). to_u8 y.state ≡ 0) is r)
        | inr (n, i) ↦ keeps x (v.queued x th i r)
      ];
      distinct = d;
      counts = omega (arith, up);
      numbered = λ x th e. elim (in_put s.next_tid x new th s.threads e) [
        | inl (same, is) ↦ let c = v.counts in (omega (arith, same), omega (arith, up, same))
        | inr (n, i) ↦ let c = v.numbered x th i in (c.0, omega (arith, up, c.1))
      ];
    }

pub create_thread-IsConsistent :
    (s : ThreadScheduler) (entry top base size : ℕ) (kernel : Bool)
    → s.next_tid + 1 < u32_mod
    → IsConsistent s
    → IsConsistent (create_thread s entry top base size kernel).0
unfolding create_thread enqueue_ready new_thread
create_thread-IsConsistent s entry top base size kernel room v =
    elim (Bool-cases (s.current_tid == 0)) [
      | inl z ↦
          rw (z, create_thread)
            (added-IsConsistent s _ s.next_tid s.ready_queue v room
              (λ x th i r.
                let c = v.one_runs x th i r in
                let p = (v.numbered x th i).0 in absurd (ground arith))
              (λ _. refl) (λ e. absurd (omega arith)) (λ x c. c) v.distinct)
      | inr z ↦
          rw (z, create_thread)
            (added-IsConsistent s _ s.current_tid (push_new s.next_tid s.ready_queue) v room
              v.one_runs (λ e. absurd (omega arith))
              (λ _. ground (arith, contains-push_new s.next_tid s.next_tid s.ready_queue))
              (λ x c. ground (arith, contains-push_new x s.next_tid s.ready_queue))
              (push_new-Distinct s.next_tid s.ready_queue v.distinct))
    ]
