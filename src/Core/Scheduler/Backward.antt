-- ===== src/Core/Scheduler/Backward.antt =====
-- A clock that `AdvanceCycles` moves past pending events.
use xblob_emulator.Core.Scheduler.{
  Event, Scheduler, Request, advance_cycles, limited, after_loop, fire, run_loop, run_until,
}
use xblob_emulator.Common.{ok}
use xblob_emulator.Common.SafeMath.{checked_add, checked_add_exact, u64_max}
use xblob_emulator.Prelude.{
  ℕ, zero, suc, ◌+◌, ◌≤◌, ◌<◌, ◌≡◌, refl, ◌∙◌, false, none, some, List, ◌∷◌, arith, ltb, contains,
  remove, u64_mod,
}

advance_cycles-ok :
    (s : Scheduler) (delta : ℕ)
    → s.current_cycle + delta < u64_mod
    → advance_cycles s delta ≡ (record s { current_cycle = s.current_cycle + delta }, ok tt)
unfolding advance_cycles
advance_cycles-ok s delta h =
    let e : checked_add u64_max s.current_cycle delta ≡ some (s.current_cycle + delta) =
      ground (arith, checked_add_exact u64_max s.current_cycle delta) in
    rw (e, advance_cycles)

module _ (on_event : ℕ → Scheduler → List Request) where
  run_loop_fires :
      (target left : ℕ) (e : Event) (q : List Event) (s : Scheduler)
      → contains e.id s.canceled_ids ≡ false
      → ltb target e.target_cycle ≡ false
      → run_loop on_event target (suc left) (e ∷ q) s
        ≡ run_loop on_event target left (fire on_event e q s).event_queue (fire on_event e q s)
  unfolding run_loop
  run_loop_fires target left e q s c l = rw (c, run_loop, l)

  run_loop_stops :
      (target : ℕ) (e : Event) (q : List Event) (s : Scheduler)
      → contains e.id s.canceled_ids ≡ false
      → ltb target e.target_cycle ≡ false
      → run_loop on_event target zero (e ∷ q) s ≡ limited (record s { event_queue = e ∷ q })
  unfolding run_loop
  run_loop_stops target e q s c l = rw (c, run_loop, l)

  fire_silent :
      (e : Event) (q : List Event) (s : Scheduler)
      → e.callback ≡ none
      → fire on_event e q s ≡ record s {
        event_queue = q;
        pending_ids = remove e.id s.pending_ids;
        current_cycle = e.target_cycle;
      }
  unfolding fire
  fire_silent e q s cb = rw cb

  -- With room for one event, the first is fired and the second is found due.
  run_loop_one :
      (s : Scheduler) (target : ℕ) (e1 e2 : Event) (q : List Event)
      → e1.callback ≡ none
      → contains e1.id s.canceled_ids ≡ false
      → contains e2.id s.canceled_ids ≡ false
      → ltb target e1.target_cycle ≡ false
      → ltb target e2.target_cycle ≡ false
      → run_loop on_event target (suc zero) (e1 ∷ e2 ∷ q) s
        ≡ limited (record s {
          event_queue = e2 ∷ q;
          pending_ids = remove e1.id s.pending_ids;
          current_cycle = e1.target_cycle;
        })
  run_loop_one s target e1 e2 q cb c1 c2 l1 l2 =
      run_loop_fires target zero e1 (e2 ∷ q) s c1 l1
      ∙ rw (fire_silent e1 (e2 ∷ q) s cb) (run_loop_stops target e2 q _ c2 l2)

-- Where the first two queued events are in order and not canceled, the first has no callback,
-- `AdvanceCycles` moves the clock past the first without leaving 64 bits, and the second is due by a
-- target at or after the new clock, a run to that target that is limited to one event sets the clock
-- back to the first event's cycle.
pub run_until-advance_cycles :
    (on_event : ℕ → Scheduler → List Request) (s : Scheduler) (delta target : ℕ) (e1 e2 : Event)
    (q : List Event)
    → s.event_queue ≡ e1 ∷ e2 ∷ q
    → e1.callback ≡ none
    → contains e1.id s.canceled_ids ≡ false
    → contains e2.id s.canceled_ids ≡ false
    → e1.target_cycle < s.current_cycle + delta
    → e1.target_cycle ≤ e2.target_cycle
    → e2.target_cycle ≤ target
    → s.current_cycle + delta ≤ target
    → target < u64_mod
    → let s' = (advance_cycles s delta).0 in
      let after = (run_until on_event s' target 1).0 in
      (s'.current_cycle ≡ s.current_cycle + delta)
      × (after.current_cycle ≡ e1.target_cycle)
      × (after.current_cycle < s'.current_cycle)
run_until-advance_cycles on_event s delta target e1 e2 q hq cb c1 c2 early o d t w =
    let s' : Scheduler = record s { current_cycle = s.current_cycle + delta } in
    let moved : (advance_cycles s delta).0 ≡ s' = rw (advance_cycles-ok s delta (omega arith)) in
    let back : (run_until on_event s' target 1).0.current_cycle ≡ e1.target_cycle =
      unfold run_until after_loop in
      let p : ltb target s'.current_cycle ≡ false = ground arith in
      rw (
        p,
        hq,
        run_loop_one on_event (record s' { event_queue = e1 ∷ e2 ∷ q }) target e1 e2 q cb c1 c2
            (ground arith) (ground arith),
      ) in
    rw moved (refl, back, omega (arith, back))
