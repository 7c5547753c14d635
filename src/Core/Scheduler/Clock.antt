-- ===== src/Core/Scheduler/Clock.antt =====
-- The clock of a run: it never goes back, and a run that reaches its target leaves nothing due.
use xblob_emulator.Core.Scheduler.{
  SchedulerStatus, target_reached, event_limit_reached, Event, Scheduler, Request, schedule_at,
  schedule_in, cancel, schedule_event, schedule_relative, cancel_event, perform, perform_all,
  LoopEnd, ran, limited, drain, is_due, finish, after_loop, fire, run_loop, run_until,
}
use xblob_emulator.Core.Scheduler.Order.{
  IsOrdered, From, push-IsOrdered, push-From, AllBefore-From, From-mono,
}
use xblob_emulator.Common.{ok}
use xblob_emulator.Common.SafeMath.{checked_add, u64_max}
use xblob_emulator.Prelude.{
  ℕ, zero, suc, ◌≤◌, ◌<◌, ◌≡◌, refl, ◌∙◌, ◌⊎◌, inl, inr, false, Option, List, [], ◌∷◌, arith, ltb,
  ltb→lt, Bool-cases, Option-cases, contains, remove,
}

-- The queue is in order, and nothing in it lies before the clock.
pub record InTime (s : Scheduler) : Type 0 where
  pub ordered : IsOrdered s.event_queue
  pub from : From s.current_cycle s.event_queue

pub schedule_event-InTime :
    (s : Scheduler) (t : ℕ) (c : Option ℕ) → InTime s → InTime (schedule_event s t c).0
unfolding schedule_event
schedule_event-InTime s t c h = elim (Bool-cases (ltb t s.current_cycle)) [
  | inl e ↦ rw e h
  | inr e ↦ rw e (record {
    ordered = push-IsOrdered _ s.event_queue h.ordered;
    from = push-From s.current_cycle _ s.event_queue (ground arith) h.from;
  })
]

current_cycle-schedule_event :
    (s : Scheduler) (t : ℕ) (c : Option ℕ)
    → (schedule_event s t c).0.current_cycle ≡ s.current_cycle
unfolding schedule_event
current_cycle-schedule_event s t c = ground arith

-- No request of a callback moves the clock, or puts an event behind it.
abbrev Keeps : Scheduler → Scheduler → Type 0
Keeps s s' = InTime s' × (s'.current_cycle ≡ s.current_cycle)

perform-Keeps : (s : Scheduler) (r : Request) → InTime s → Keeps s (perform s r)
unfolding perform schedule_relative cancel_event
perform-Keeps s (schedule_at t c) h =
    (schedule_event-InTime s t c h, current_cycle-schedule_event s t c)
perform-Keeps s (schedule_in d c) h = elim (Option-cases (checked_add u64_max s.current_cycle d)) [
  | inl e ↦ rw (e, perform, schedule_relative) (h, refl)
  | inr (t, e) ↦
      rw (e, perform, schedule_relative)
        (schedule_event-InTime s t c h, current_cycle-schedule_event s t c)
]
perform-Keeps s (cancel id) h = ground arith

perform_all-Keeps : (s : Scheduler) (rs : List Request) → InTime s → Keeps s (perform_all s rs)
unfolding perform_all
perform_all-Keeps s [] h = (h, refl)
perform_all-Keeps s (r ∷ rs) h =
    let k = perform-Keeps s r h in
    let k' = perform_all-Keeps (perform s r) rs k.0 in (k'.0, k'.1 ∙ k.1)

-- The first event is due and was not canceled.
abbrev pub Stuck : ℕ → Scheduler → Type 0
Stuck target s =
    (e : Event) × (q : List Event) × (s.event_queue ≡ e ∷ q)
    × (e.target_cycle ≤ target)
    × (contains e.id s.canceled_ids ≡ false)

-- What holds when the first loop ends, started at clock `c`: nothing due is left, or the first
-- event of the queue is due and may not fire.
abbrev Ended : ℕ → ℕ → LoopEnd → Type 0
Ended c target (ran left s) =
    InTime s × (c ≤ s.current_cycle) × (s.current_cycle ≤ target) × From (suc target) s.event_queue
Ended c target (limited s) =
    InTime s × (c ≤ s.current_cycle) × (s.current_cycle ≤ target) × Stuck target s

Ended-mono : (c d target : ℕ) (o : LoopEnd) → d ≤ c → Ended c target o → Ended d target o
Ended-mono c d target (ran left s) h k = (k.0, omega arith, k.2, k.3)
Ended-mono c d target (limited s) h k = (k.0, omega arith, k.2, k.3)

-- The two ways in which the loop stops before a live event `e`.
stop-Ended :
    (target left : ℕ) (e : Event) (q : List Event) (s : Scheduler)
    → IsOrdered (e ∷ q)
    → From s.current_cycle (e ∷ q)
    → s.current_cycle ≤ target
    → contains e.id s.canceled_ids ≡ false
    → (target < e.target_cycle
        → Ended s.current_cycle target (ran left (record s { event_queue = e ∷ q })))
      × (e.target_cycle ≤ target
          → Ended s.current_cycle target (limited (record s { event_queue = e ∷ q })))
stop-Ended target left e q s o f h c = (
  λ l. (
    record { ordered = o; from = f },
    omega arith,
    h,
    (l, From-mono e.target_cycle (suc target) q l (AllBefore-From e q o.0)),
  ),
  λ l. (record { ordered = o; from = f }, omega arith, h, (e, q, refl, l, c)),
)

-- The drain drops events from the front, and the check after it finds none due.
drain-From :
    (c : ℕ) (q : List Event) (s : Scheduler)
    → IsOrdered q
    → From c q
    → IsOrdered (drain q s).event_queue
      × From c (drain q s).event_queue
      × ((drain q s).current_cycle ≡ s.current_cycle)
unfolding drain
drain-From c [] s o f = (tt, tt, refl)
drain-From c (e ∷ q) s o f = elim (Bool-cases (contains e.id s.canceled_ids)) [
  | inl k ↦ rw (k, drain) (drain-From c q _ o.1 f.1)
  | inr k ↦ rw (k, drain) (o, f, refl)
]

is_due-From :
    (target left : ℕ) (q : List Event) → From (suc target) q → is_due target left q ≡ false
unfolding is_due
is_due-From target left [] f = refl
is_due-From target left (x ∷ q) f = ground arith

finish-reached :
    (target left : ℕ) (s : Scheduler)
    → From (suc target) s.event_queue
    → finish target left s ≡ (record s { current_cycle = target }, target_reached)
unfolding finish
finish-reached target left s f = rw (is_due-From target left s.event_queue f)

-- The clock stays between where it was and the target, and the queue stays in order with nothing
-- in it before the clock. Either the target is reached, and all that is queued lies beyond it, or
-- the limit is, and the first event of the queue is due and was not canceled.
abbrev pub Ran : ℕ → ℕ → Scheduler × SchedulerStatus → Type 0
Ran c target (s, status) =
    InTime s
    × (c ≤ s.current_cycle)
    × (s.current_cycle ≤ target)
    × (((status ≡ target_reached) × (s.current_cycle ≡ target) × From (suc target) s.event_queue)
        ⊎ ((status ≡ event_limit_reached) × Stuck target s))

after_loop-Ran :
    (c target : ℕ) (o : LoopEnd) → Ended c target o → Ran c target (after_loop target o)
unfolding after_loop
after_loop-Ran c target (ran left s) h =
    let d = drain-From (suc target) s.event_queue s h.0.ordered h.3 in
    rw (finish-reached target left (drain s.event_queue s) d.1) (
      record {
        ordered = d.0;
        from = From-mono (suc target) target (drain s.event_queue s).event_queue (omega arith) d.1;
      },
      omega arith,
      omega arith,
      inl (refl, refl, d.1),
    )
after_loop-Ran c target (limited s) h = (h.0, h.1, h.2, inr (refl, h.3))

module _ (on_event : ℕ → Scheduler → List Request) where
  fire-Keeps :
      (e : Event) (q : List Event) (s : Scheduler)
      → IsOrdered (e ∷ q)
      → InTime (fire on_event e q s) × ((fire on_event e q s).current_cycle ≡ e.target_cycle)
  unfolding fire
  fire-Keeps e q s h = elim (Option-cases e.callback) [
    | inl n ↦ rw (n, fire) (moved, refl)
    | inr (c, n) ↦ rw (n, fire) (perform_all-Keeps _ (on_event c _) moved)
  ]
    where
      moved : InTime (record s {
        event_queue = q;
        pending_ids = remove e.id s.pending_ids;
        current_cycle = e.target_cycle;
      })
      moved = record { ordered = h.1; from = AllBefore-From e q h.0 }

  run_loop-Ended :
      (target left : ℕ) (q : List Event) (s : Scheduler)
      → IsOrdered q
      → From s.current_cycle q
      → s.current_cycle ≤ target
      → Ended s.current_cycle target (run_loop on_event target left q s)
  unfolding run_loop
  run_loop-Ended target zero [] s o f h = (record { ordered = tt; from = tt }, omega arith, h, tt)
  run_loop-Ended target (suc left) [] s o f h =
      (record { ordered = tt; from = tt }, omega arith, h, tt)
  run_loop-Ended target zero (e ∷ q) s o f h = elim (Bool-cases (contains e.id s.canceled_ids)) [
    | inl c ↦ rw (c, run_loop) (run_loop-Ended target zero q _ o.1 f.1 h)
    | inr c ↦
        let stop = stop-Ended target zero e q s o f h c in
        elim (Bool-cases (ltb target e.target_cycle)) [
          | inl l ↦ rw (c, run_loop, l) (stop.0 (ltb→lt _ _ l))
          | inr l ↦ rw (c, run_loop, l) (stop.1 (ground arith))
        ]
  ]
  run_loop-Ended target (suc left) (e ∷ q) s o f h =
      elim (Bool-cases (contains e.id s.canceled_ids)) [
        | inl c ↦ rw (c, run_loop) (run_loop-Ended target (suc left) q _ o.1 f.1 h)
        | inr c ↦ elim (Bool-cases (ltb target e.target_cycle)) [
          | inl l ↦
              rw (c, run_loop, l) ((stop-Ended target (suc left) e q s o f h c).0 (ltb→lt _ _ l))
          | inr l ↦
              let k = fire-Keeps e q s o in
              rw (c, run_loop, l)
                (Ended-mono (fire on_event e q s).current_cycle s.current_cycle target _
                  (omega (arith, f.0))
                  (run_loop-Ended target left (fire on_event e q s).event_queue
                    (fire on_event e q s) k.0.ordered k.0.from (ground arith)))
        ]
      ]

  -- `RunUntil`, for any callbacks, from a queue in order with nothing before the clock, to a cycle
  -- that is not past: it returns a status, the clock ends between where it was and the target, and
  -- the queue is in order with nothing before the clock. Either the target is reached, and all that
  -- is queued lies beyond it, or the limit is, and the first event of the queue is due and was not
  -- canceled.
  pub run_until_lem :
      (s : Scheduler) (target max_events : ℕ)
      → InTime s
      → s.current_cycle ≤ target
      → let (s', r) = run_until on_event s target max_events in
        (status : SchedulerStatus) × (r ≡ ok status) × Ran s.current_cycle target (s', status)
  unfolding run_until
  run_until_lem s target max_events h le =
      let k = run_loop-Ended target max_events s.event_queue s h.ordered h.from le in
      let p : ltb target s.current_cycle ≡ false = ground arith in
      let m = after_loop-Ran s.current_cycle target _ k in rw (p, run_until) (_, refl, m)
