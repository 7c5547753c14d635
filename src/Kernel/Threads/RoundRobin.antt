-- ===== src/Kernel/Threads/RoundRobin.antt =====
-- Threads take turns, and each finds its registers as it left them.
use xblob_emulator.Kernel.Threads.{
  ready, running, to_u8, GuestThread, ThreadScheduler, find, put, enqueue_ready, current_thread,
  with_thread, is_dropped, dispatch, schedule_next, give_up, yield, awaken, wake, suspend_thread,
}
use xblob_emulator.Kernel.Threads.Table.{find-put_self, find-put_ne}
use xblob_emulator.Kernel.Threads.Consistent.{In}
use xblob_emulator.Cpu.Registers.{CpuContext}
use xblob_emulator.Prelude.{
  ℕ, ◌+◌, ◌<◌, ◌≡◌, refl, sym, ap, ◌∙◌, ◌≢◌, true, false, some, List, [], ◌∷◌, ◌++◌, arith, ◌==◌,
  contains, push_new, contains-push_new, u32_mod, add32,
}

-- A thread that runs, and one that is ready at the head of the queue.
pub record IsTurn (s : ThreadScheduler) (curr th : GuestThread) (n : ℕ) (q : List ℕ) : Type 0 where
  pub runs : In s s.current_tid curr
  pub is_running : to_u8 curr.state ≡ 1
  pub queue : s.ready_queue ≡ n ∷ q
  pub next : In s n th
  pub is_ready : to_u8 th.state ≡ 0
  pub not_queued : contains s.current_tid (n ∷ q) ≡ false

head_ne : (n c : ℕ) (q : List ℕ) → contains c (n ∷ q) ≡ false → n ≢ c
unfolding contains
head_ne n c q h e = ground arith

contains_swap : (n c : ℕ) → contains c (n ∷ []) ≡ false → contains n (c ∷ []) ≡ false
unfolding contains
contains_swap n c h = ground arith

push_new_absent :
    (c n : ℕ) (q qs : List ℕ)
    → qs ≡ n ∷ q
    → contains c (n ∷ q) ≡ false
    → push_new c qs ≡ n ∷ (q ++ (c ∷ []))
unfolding push_new
push_new_absent c n q qs e h = rw (e, h)

-- The state after `Yield`.
abbrev turned :
    ThreadScheduler → CpuContext → GuestThread → GuestThread → ℕ → List ℕ → ThreadScheduler
turned s cpu curr th n q = record s {
  current_tid = n;
  threads =
      put n (record th { state = running })
        (put s.current_tid (record curr { context = cpu; state = ready }) s.threads);
  ready_queue = q ++ (s.current_tid ∷ []);
}

module _ (s : ThreadScheduler) (cpu : CpuContext) (curr th : GuestThread) (n : ℕ) (q : List ℕ)
    (v : IsTurn s curr th n q) where
  next_kept :
      find n (put s.current_tid (record curr { context = cpu; state = ready }) s.threads) ≡ some th
  next_kept =
      find-put_ne s.current_tid n _ s.threads (head_ne n s.current_tid q v.not_queued) ∙ v.next

  gave_up : give_up s cpu ≡ record s {
    threads = put s.current_tid (record curr { context = cpu; state = ready }) s.threads;
    ready_queue = n ∷ (q ++ (s.current_tid ∷ []));
  }
  unfolding give_up enqueue_ready current_thread
  gave_up =
      let r : to_u8 curr.state == 1 ≡ true = let k = v.is_running in ground arith in
      let pushed = push_new_absent s.current_tid n q s.ready_queue v.queue v.not_queued in
      rw (v.runs, r, give_up, pushed)

  yielded : yield s cpu ≡ (turned s cpu curr th n q, th.context)
  unfolding yield schedule_next dispatch
  yielded =
      let keep : is_dropped th ≡ false = let r = v.is_ready in ground arith in
      ap (λ (g : ThreadScheduler). (dispatch g cpu g.ready_queue).0) gave_up
      ∙ rw (dispatch, next_kept, keep)

-- Where the current thread runs and is not queued, and the first thread of the queue is ready:
-- `Yield` gives the processor to that thread and loads its registers, saves those of the thread that
-- yields, which goes to the back of the queue, and leaves every other thread as it was.
pub yield_lem :
    (s : ThreadScheduler) (cpu : CpuContext) (curr th : GuestThread) (n : ℕ) (q : List ℕ)
    → IsTurn s curr th n q
    → let (s', cpu') = yield s cpu in
      (s'.current_tid ≡ n)
      × (cpu' ≡ th.context)
      × (s'.ready_queue ≡ q ++ (s.current_tid ∷ []))
      × (find n s'.threads ≡ some (record th { state = running }))
      × (find s.current_tid s'.threads ≡ some (record curr { context = cpu; state = ready }))
      × ((x : ℕ) → x ≢ n → x ≢ s.current_tid → find x s'.threads ≡ find x s.threads)
yield_lem s cpu curr th n q v =
    let saved : GuestThread = record curr { context = cpu; state = ready } in
    let ts : List (ℕ × GuestThread) = put s.current_tid saved s.threads in
    let new : GuestThread = record th { state = running } in
    let ne : n ≢ s.current_tid = head_ne n s.current_tid q v.not_queued in
    rw (yielded s cpu curr th n q v) (
      refl,
      refl,
      refl,
      find-put_self n new ts,
      find-put_ne n s.current_tid new ts (λ e. ne (sym e))
          ∙ find-put_self s.current_tid saved s.threads,
      λ x a b. find-put_ne n x new ts a ∙ find-put_ne s.current_tid x saved s.threads b,
    )

-- Where the current thread runs and one other thread is queued and ready, two yields come back to
-- the first: whatever the second one does to the registers, the first finds them as they were when
-- it yielded.
pub yield-yield :
    (s : ThreadScheduler) (cpu other : CpuContext) (curr th : GuestThread) (n : ℕ)
    → IsTurn s curr th n []
    → let (s', cpu') = yield (yield s cpu).0 other in
      (s'.current_tid ≡ s.current_tid) × (cpu' ≡ cpu) × (s'.ready_queue ≡ n ∷ [])
yield-yield s cpu other curr th n v =
    let first = yield_lem s cpu curr th n [] v in
    let next : IsTurn (yield s cpu).0 (record th { state = running })
        (record curr { context = cpu; state = ready }) s.current_tid [] =
      record {
        runs = ap (λ x. find x (yield s cpu).0.threads) first.0 ∙ first.3;
        is_running = refl;
        queue = first.2;
        next = first.4;
        is_ready = refl;
        not_queued =
            ap (λ x. contains x (s.current_tid ∷ [])) first.0
            ∙ contains_swap n s.current_tid v.not_queued;
      } in
    let second = yield_lem (yield s cpu).0 other _ _ s.current_tid [] next in
    (second.0, second.1, second.2 ∙ ap (λ x. x ∷ []) first.0)

suspend_blocked :
    (s : ThreadScheduler) (tid : ℕ) (th : GuestThread)
    → In s tid th
    → to_u8 th.state ≡ 2
    → (suspend_thread s tid).0
      ≡ with_thread s tid (record th { suspend_count = add32 th.suspend_count 1 })
unfolding suspend_thread
suspend_blocked s tid th i b =
    let live : to_u8 th.state == 4 ≡ false = ground arith in
    let wait : to_u8 th.state == 0 ≡ false = ground arith in rw (i, live, wait, suspend_thread)

wake_blocked :
    (s : ThreadScheduler) (tid status : ℕ) (th : GuestThread)
    → In s tid th
    → to_u8 th.state ≡ 2
    → (wake s tid status).0 ≡ enqueue_ready (with_thread s tid (awaken status th)) tid
unfolding wake
wake_blocked s tid status th i b =
    let is_blocked : to_u8 th.state == 2 ≡ true = ground arith in rw (i, is_blocked, wake)

-- A thread that is suspended while it is blocked, with a suspend count that does not wrap, and then
-- woken, is ready and queued although its suspend count is not zero.
pub wake-suspend_thread :
    (s : ThreadScheduler) (tid status : ℕ) (th : GuestThread)
    → In s tid th
    → to_u8 th.state ≡ 2
    → th.suspend_count + 1 < u32_mod
    → let s' = (wake (suspend_thread s tid).0 tid status).0 in
      (th' : GuestThread) × In s' tid th'
      × (to_u8 th'.state ≡ 0)
      × (th'.suspend_count ≡ th.suspend_count + 1)
      × (contains tid s'.ready_queue ≡ true)
unfolding awaken enqueue_ready
wake-suspend_thread s tid status th i b small =
    let up : add32 th.suspend_count 1 ≡ th.suspend_count + 1 = ground arith in
    let counted : GuestThread = record th { suspend_count = add32 th.suspend_count 1 } in
    let u : ThreadScheduler = with_thread s tid counted in
    let all : (wake (suspend_thread s tid).0 tid status).0
        ≡ enqueue_ready (with_thread u tid (awaken status counted)) tid =
      ap (λ x. (wake x tid status).0) (suspend_blocked s tid th i b)
      ∙ wake_blocked u tid status counted (find-put_self tid counted s.threads) b in
    rw all (
      awaken status counted,
      find-put_self tid (awaken status counted) u.threads,
      refl,
      up,
      ground (arith, contains-push_new tid tid s.ready_queue),
    )
