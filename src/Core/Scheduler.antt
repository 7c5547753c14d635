-- ===== src/Core/Scheduler.antt =====
-- libs/core/include/xblob/core/scheduler.hpp and libs/core/src/scheduler.cpp, the deterministic
-- event scheduler. `std::priority_queue` is a list in the order in which it is popped, and the two
-- `std::unordered_set`s are lists. A callback is known by a number; what it asks of the scheduler
-- when it is called, which may depend on the scheduler's state, is the parameter `on_event`.
-- Callbacks that call `RunUntil`, `StepCycles` or `AdvanceCycles` themselves are left out.
pub mod Order
pub mod Clock
pub mod Ids
pub mod Cancel
pub mod Backward
mod Tests
use xblob_emulator.Prelude.{
  ℕ, zero, suc, ◌+◌, Bool, true, false, not, ◌&&◌, ◌||◌, List, [], ◌∷◌, Option, none, some, ltb,
  leb, ◌==◌, if◌then◌else◌, add64, contains, remove, push_new,
}
use xblob_emulator.Common.{
  ErrorCode, integer_overflow, past_cycle, event_not_found, Result, ok, err, fail_at, ◌>>=◌,
}
use xblob_emulator.Common.SafeMath.{checked_add, u64_max}

pub data SchedulerStatus : Type 0 where
  idle target_reached event_limit_reached : SchedulerStatus

-- `callback` is `none` for an empty `std::function`.
pub record Event : Type 0 where
  pub id : ℕ
  pub target_cycle : ℕ
  pub sequence : ℕ
  pub callback : Option ℕ

pub record Scheduler : Type 0 where
  pub current_cycle : ℕ
  pub next_event_id : ℕ
  pub next_sequence : ℕ
  pub event_queue : List Event
  pub pending_ids : List ℕ
  pub canceled_ids : List ℕ

-- What a callback may ask for.
pub data Request : Type 0 where
  schedule_at : ℕ → Option ℕ → Request
  schedule_in : ℕ → Option ℕ → Request
  cancel : ℕ → Request

unfoldable pub init : ℕ → Scheduler
init initial_cycle = record {
  current_cycle = initial_cycle;
  next_event_id = 1;
  next_sequence = 0;
  event_queue = [];
  pending_ids = [];
  canceled_ids = [];
}

-- `Event::operator>`
abbrev pub later : Event → Event → Bool
later a b =
    if not (a.target_cycle == b.target_cycle)
    then ltb b.target_cycle a.target_cycle
    else ltb b.sequence a.sequence

-- `event_queue_.push`: the queue is popped by `std::greater`, the smallest first.
unfoldable pub push : Event → List Event → List Event
push e [] = e ∷ []
push e (x ∷ xs) = if later x e then e ∷ x ∷ xs else x ∷ push e xs

unfoldable pub advance_cycles : Scheduler → ℕ → Scheduler × Result (Unit {0})
advance_cycles s delta = elim (checked_add u64_max s.current_cycle delta) [
  | none ↦ (s, fail_at integer_overflow s.current_cycle)
  | some new_cycle ↦ (record s { current_cycle = new_cycle }, ok tt)
]

-- The event that `ScheduleEvent` builds.
abbrev pub new_event : Scheduler → ℕ → Option ℕ → Event
new_event s target callback = record {
  id = s.next_event_id;
  target_cycle = target;
  sequence = s.next_sequence;
  callback = callback;
}

unfoldable pub schedule_event : Scheduler → ℕ → Option ℕ → Scheduler × Result ℕ
schedule_event s target callback =
    if ltb target s.current_cycle then (s, fail_at past_cycle target) else (
      record s {
        next_event_id = add64 s.next_event_id 1;
        next_sequence = add64 s.next_sequence 1;
        pending_ids = push_new s.next_event_id s.pending_ids;
        event_queue = push (new_event s target callback) s.event_queue;
      },
      ok s.next_event_id,
    )

unfoldable pub schedule_relative : Scheduler → ℕ → Option ℕ → Scheduler × Result ℕ
schedule_relative s delta callback = elim (checked_add u64_max s.current_cycle delta) [
  | none ↦ (s, fail_at integer_overflow s.current_cycle)
  | some target ↦ schedule_event s target callback
]

unfoldable pub cancel_event : Scheduler → ℕ → Scheduler × Result (Unit {0})
cancel_event s id =
    if contains id s.pending_ids
    then (
      record s { pending_ids = remove id s.pending_ids; canceled_ids = push_new id s.canceled_ids },
      ok tt,
    )
    else (s, fail_at event_not_found id)

unfoldable pub perform : Scheduler → Request → Scheduler
perform s (schedule_at target c) = (schedule_event s target c).0
perform s (schedule_in delta c) = (schedule_relative s delta c).0
perform s (cancel id) = (cancel_event s id).0

unfoldable pub perform_all : Scheduler → List Request → Scheduler
perform_all s [] = s
perform_all s (r ∷ rs) = perform_all (perform s r) rs

-- The first loop ends at an empty queue or a later event (`ran`), or by the return at the limit.
pub data LoopEnd : Type 0 where
  ran : ℕ → Scheduler → LoopEnd
  limited : Scheduler → LoopEnd

-- The second loop: canceled events at the front are dropped.
unfoldable pub drain : List Event → Scheduler → Scheduler
drain [] s = record s { event_queue = [] }
drain (e ∷ q) s =
    if contains e.id s.canceled_ids
    then drain q (record s { canceled_ids = remove e.id s.canceled_ids })
    else record s { event_queue = e ∷ q }

-- The check after the loops: is the limit reached with an event due?
unfoldable pub is_due : ℕ → ℕ → List Event → Bool
is_due target left [] = false
is_due target left (e ∷ q) = leb e.target_cycle target && left == 0

unfoldable pub finish : ℕ → ℕ → Scheduler → Scheduler × SchedulerStatus
finish target left s =
    if is_due target left s.event_queue
    then (s, event_limit_reached)
    else (record s { current_cycle = target }, target_reached)

unfoldable pub after_loop : ℕ → LoopEnd → Scheduler × SchedulerStatus
after_loop target (limited s) = (s, event_limit_reached)
after_loop target (ran left s) = finish target left (drain s.event_queue s)

module _ (on_event : ℕ → Scheduler → List Request) where
  -- The event leaves the queue, the clock moves to it, and its callback runs.
  unfoldable pub fire : Event → List Event → Scheduler → Scheduler
  fire e q s =
      let moved : Scheduler = record s {
        event_queue = q;
        pending_ids = remove e.id s.pending_ids;
        current_cycle = e.target_cycle;
      } in
      elim e.callback [ none ↦ moved | some c ↦ perform_all moved (on_event c moved) ]

  -- The first loop, over `left`, the events that may still fire (`max_events - events_fired`), and
  -- over the queue of `s`, which stands as an argument of its own.
  unfoldable pub run_loop : ℕ → ℕ → List Event → Scheduler → LoopEnd
  run_loop target left [] s = ran left (record s { event_queue = [] })
  run_loop target zero (e ∷ q) s = elim (contains e.id s.canceled_ids) [
    | true ↦ run_loop target zero q (record s { canceled_ids = remove e.id s.canceled_ids })
    | false ↦
        if ltb target e.target_cycle
        then ran zero (record s { event_queue = e ∷ q })
        else limited (record s { event_queue = e ∷ q })
  ]
  run_loop target (suc left) (e ∷ q) s = elim (contains e.id s.canceled_ids) [
    | true ↦ run_loop target (suc left) q (record s { canceled_ids = remove e.id s.canceled_ids })
    | false ↦ elim (ltb target e.target_cycle) [
      | true ↦ ran (suc left) (record s { event_queue = e ∷ q })
      | false ↦ run_loop target left (fire e q s).event_queue (fire e q s)
    ]
  ]

  unfoldable pub run_until : Scheduler → ℕ → ℕ → Scheduler × Result SchedulerStatus
  run_until s target max_events =
      if ltb target s.current_cycle
      then (s, fail_at past_cycle target)
      else let (s', status) = after_loop target (run_loop target max_events s.event_queue s) in
        (s', ok status)

  unfoldable pub step_cycles : Scheduler → ℕ → ℕ → Scheduler × Result SchedulerStatus
  step_cycles s delta max_events = elim (checked_add u64_max s.current_cycle delta) [
    | none ↦ (s, fail_at integer_overflow s.current_cycle)
    | some target ↦ run_until s target max_events
  ]
