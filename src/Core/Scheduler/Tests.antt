-- ===== src/Core/Scheduler/Tests.antt =====
-- The scheduler on small inputs.
use xblob_emulator.Core.Scheduler.{
  SchedulerStatus, target_reached, Scheduler, Request, schedule_in, init, push, advance_cycles,
  schedule_event, schedule_relative, cancel_event, perform, perform_all, drain, is_due, finish,
  after_loop, fire, run_loop, run_until,
}
use xblob_emulator.Core.Scheduler.Clock.{InTime, schedule_event-InTime, Ran, run_until_lem}
use xblob_emulator.Core.Scheduler.Cancel.{cancel_event_lem}
use xblob_emulator.Core.Scheduler.Backward.{run_until-advance_cycles}
use xblob_emulator.Common.{event_not_found, ok, fail_at}
use xblob_emulator.Common.SafeMath.{checked_add}
use xblob_emulator.Prelude.{
  ℕ, ◌<◌, ◌≡◌, refl, ◌≢◌, true, none, some, List, [], ◌∷◌, arith, ◌==◌, if◌then◌else◌, contains,
}

-- Callback 1 asks for an event five cycles on; any other asks for nothing.
abbrev chain : ℕ → Scheduler → List Request
chain c s = if c == 1 then schedule_in 5 none ∷ [] else []

abbrev one_event : Scheduler
one_event = (schedule_event (init 0) 10 (some 1)).0

abbrev two_events : Scheduler
two_events = (schedule_event one_event 20 none).0

abbrev quiet : Scheduler
quiet = record {
  current_cycle = 0;
  next_event_id = 3;
  next_sequence = 2;
  event_queue =
      record { id = 1; target_cycle = 10; sequence = 0; callback = none }
      ∷ record { id = 2; target_cycle = 20; sequence = 1; callback = none }
      ∷ [];
  pending_ids = 2 ∷ 1 ∷ [];
  canceled_ids = [];
}

init-InTime : (c : ℕ) → InTime (init c)
unfolding init
init-InTime c = record { ordered = tt; from = tt }

two_events-InTime : InTime two_events
two_events-InTime =
    schedule_event-InTime one_event 20 none
      (schedule_event-InTime (init 0) 10 (some 1) (init-InTime 0))

run_chain : (run_until chain two_events 15 10).1 ≡ ok target_reached
unfolding run_until run_loop after_loop drain finish is_due fire perform_all perform schedule_event
    schedule_relative checked_add push init contains
run_chain = refl

run_until_lem_example :
    let (s', r) = run_until chain two_events 15 10 in
    (status : SchedulerStatus) × (r ≡ ok status) × Ran 0 15 (s', status)
unfolding init schedule_event
run_until_lem_example = run_until_lem chain two_events 15 10 two_events-InTime (omega arith)

cancel_event_lem_example :
    let (s', r) = cancel_event quiet 2 in
    (r ≡ ok tt)
    × (cancel_event s' 2 ≡ (s', fail_at event_not_found 2))
    × (contains 2 s'.canceled_ids ≡ true)
    × (s'.event_queue ≡ quiet.event_queue)
    × (s'.current_cycle ≡ 0)
    × ((j : ℕ)
        → j ≢ 2
        → (contains j s'.pending_ids ≡ contains j (2 ∷ 1 ∷ []))
          × (contains j s'.canceled_ids ≡ contains j quiet.canceled_ids))
unfolding contains
cancel_event_lem_example = cancel_event_lem quiet 2

run_until-advance_cycles_example :
    let s' = (advance_cycles quiet 15).0 in
    let after = (run_until chain s' 30 1).0 in
    (s'.current_cycle ≡ 15) × (after.current_cycle ≡ 10) × (after.current_cycle < s'.current_cycle)
unfolding contains
run_until-advance_cycles_example =
    run_until-advance_cycles chain quiet 15 30 _ _ [] refl refl refl refl (omega arith)
      (omega arith) (omega arith) (omega arith) (omega arith)
