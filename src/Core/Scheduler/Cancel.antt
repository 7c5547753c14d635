-- ===== src/Core/Scheduler/Cancel.antt =====
-- Identifiers through a whole run, cancellation, and a clock that is moved past pending events.
use xblob_emulator.Core.Scheduler.{Scheduler, cancel_event, LoopEnd, ran, limited}
use xblob_emulator.Core.Scheduler.Ids.{Booked}
use xblob_emulator.Common.{event_not_found, ok, fail_at}
use xblob_emulator.Prelude.{
  ℕ, ◌≡◌, refl, ◌≢◌, inl, inr, true, arith, if◌then◌else◌, Bool-cases, contains, contains-remove,
  contains-push_new,
}

abbrev End-Booked : LoopEnd → Type 0
End-Booked (ran left s) = Booked s
End-Booked (limited s) = Booked s

-- Canceling a pending event succeeds: it is no longer pending and is marked, every other identifier
-- stays pending or not and marked or not as it was, the queue and the clock stay, and a second try
-- fails. An identifier that is not pending is refused, and nothing changes.
pub cancel_event_lem :
    (s : Scheduler) (id : ℕ)
    → let (s', r) = cancel_event s id in
      if contains id s.pending_ids
      then (r ≡ ok tt)
        × (cancel_event s' id ≡ (s', fail_at event_not_found id))
        × (contains id s'.canceled_ids ≡ true)
        × (s'.event_queue ≡ s.event_queue)
        × (s'.current_cycle ≡ s.current_cycle)
        × ((j : ℕ)
            → j ≢ id
            → (contains j s'.pending_ids ≡ contains j s.pending_ids)
              × (contains j s'.canceled_ids ≡ contains j s.canceled_ids))
      else (s' ≡ s) × (r ≡ fail_at event_not_found id)
unfolding cancel_event
cancel_event_lem s id = elim (Bool-cases (contains id s.pending_ids)) [
  | inl e ↦
      rw (e, cancel_event)
        (
          refl,
          ground (arith, contains-remove id id s.pending_ids),
          ground (arith, contains-push_new id id s.canceled_ids),
          refl,
          refl,
          λ j n. (
            ground (arith, contains-remove j id s.pending_ids),
            ground (arith, contains-push_new j id s.canceled_ids),
          ),
        )
  | inr e ↦ rw (e, cancel_event) (refl, refl)
]
