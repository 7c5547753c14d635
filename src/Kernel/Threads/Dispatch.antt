-- ===== src/Kernel/Threads/Dispatch.antt =====
-- The calls that schedule the next thread keep the scheduler consistent.
use mathlib.Core.Option.{some-injective}
use xblob_emulator.Kernel.Threads.{
  ready, to_u8, GuestThread, ThreadScheduler, find, put, enqueue_ready, current_thread,
  schedule_next, give_up, yield, block_current_with_timeout, exit_current,
}
use xblob_emulator.Kernel.Threads.Table.{find-put_self}
use xblob_emulator.Kernel.Threads.Consistent.{
  In, IsConsistent, replaced-IsConsistent, IsIdle, dispatch-IsConsistent,
}
use xblob_emulator.Cpu.Registers.{CpuContext}
use xblob_emulator.Prelude.{
  ℕ, ◌≡◌, refl, sym, ap, ◌∙◌, ◌≢◌, inl, inr, Bool, true, none, some, List, arith, ◌==◌, Bool-cases,
  Option-cases, contains, push_new, contains-push_new, Distinct, push_new-Distinct,
}

-- The current thread stops running.
module _ (s : ThreadScheduler) (old new : GuestThread) (q : List ℕ) where
  stopped-IsIdle :
      IsConsistent s
      → In s s.current_tid old
      → to_u8 new.state ≢ 1
      → (to_u8 new.state ≡ 0 → contains s.current_tid q ≡ true)
      → ((x : ℕ) → x ≢ s.current_tid → contains x s.ready_queue ≡ true → contains x q ≡ true)
      → Distinct q
      → IsIdle (record s { threads = put s.current_tid new s.threads; ready_queue = q }) q
  stopped-IsIdle v i stops waits others d =
      let next : IsConsistent
          (record s { threads = put s.current_tid new s.threads; ready_queue = q }) =
        replaced-IsConsistent s s.current_tid old new q v i (λ _. refl) waits others d in
      record {
        none_runs = λ x th e r.
            let same : x ≡ s.current_tid = next.one_runs x th e r in
            let at : find x (put s.current_tid new s.threads) ≡ some new =
              ap (λ y. find y (put s.current_tid new s.threads)) same
              ∙ find-put_self s.current_tid new s.threads in
            stops
              (ap (λ (y : GuestThread). to_u8 y.state) (some-injective new th (sym at ∙ e)) ∙ r);
        queued = next.queued;
        distinct = d;
        counts = v.counts;
        numbered = next.numbered;
      }

-- Where the current thread is not in the table, none runs.
absent-IsIdle :
    (s : ThreadScheduler)
    → IsConsistent s
    → find s.current_tid s.threads ≡ none
    → IsIdle s s.ready_queue
absent-IsIdle s v f = record {
  none_runs = λ x th e r.
      let at : find x s.threads ≡ none = ap (λ y. find y s.threads) (v.one_runs x th e r) ∙ f in
      cc (at, e);
  queued = v.queued;
  distinct = v.distinct;
  counts = v.counts;
  numbered = v.numbered;
}

pub yield-IsConsistent :
    (s : ThreadScheduler) (cpu : CpuContext) → IsConsistent s → IsConsistent (yield s cpu).0
unfolding yield schedule_next give_up current_thread enqueue_ready
yield-IsConsistent s cpu v = elim (Option-cases (find s.current_tid s.threads)) [
  | inl f ↦ rw (f, yield, give_up) (dispatch-IsConsistent s cpu s.ready_queue (absent-IsIdle s v f))
  | inr (curr, f) ↦ elim (Bool-cases (to_u8 curr.state == 1)) [
    | inl r ↦
        let q = push_new s.current_tid s.ready_queue in
        rw (f, r, yield, give_up)
          (dispatch-IsConsistent _ cpu q (
            stopped-IsIdle s curr (record curr { context = cpu; state = ready }) q v f
              (λ e. omega arith)
              (λ _. ground (arith, contains-push_new s.current_tid s.current_tid s.ready_queue))
              (λ x n c. ground (arith, contains-push_new x s.current_tid s.ready_queue))
              (push_new-Distinct s.current_tid s.ready_queue v.distinct)))
    | inr r ↦
        rw (f, r, yield, give_up)
          (dispatch-IsConsistent _ cpu s.ready_queue (
            stopped-IsIdle s curr (record curr { context = cpu }) s.ready_queue v f
              (λ e. ground arith) (λ e. v.queued s.current_tid curr f e) (λ x n c. c) v.distinct))
  ]
]

pub block-IsConsistent :
    (s : ThreadScheduler) (handles : List ℕ) (wait_all has_timeout : Bool) (cycle : ℕ)
    (cpu : CpuContext)
    → IsConsistent s
    → IsConsistent (block_current_with_timeout s handles wait_all has_timeout cycle cpu).0.0
unfolding block_current_with_timeout schedule_next current_thread
block-IsConsistent s handles wait_all has_timeout cycle cpu v =
    elim (Option-cases (find s.current_tid s.threads)) [
      | inl f ↦ rw (f, block_current_with_timeout) v
      | inr (curr, f) ↦
          rw (f, block_current_with_timeout)
            (dispatch-IsConsistent _ cpu s.ready_queue (
              stopped-IsIdle s curr _ s.ready_queue v f (λ e. omega arith)
                (λ e. absurd (omega arith)) (λ x n c. c) v.distinct))
    ]

pub exit-IsConsistent :
    (s : ThreadScheduler) (code : ℕ) (cpu : CpuContext)
    → IsConsistent s
    → IsConsistent (exit_current s code cpu).0.0
unfolding exit_current schedule_next current_thread
exit-IsConsistent s code cpu v = elim (Option-cases (find s.current_tid s.threads)) [
  | inl f ↦ rw (f, exit_current) v
  | inr (curr, f) ↦
      rw (f, exit_current)
        (dispatch-IsConsistent _ cpu s.ready_queue (
          stopped-IsIdle s curr _ s.ready_queue v f (λ e. omega arith) (λ e. absurd (omega arith))
            (λ x n c. c) v.distinct))
]
