-- ===== src/Core/Scheduler/Ids.antt =====
-- The identifiers of events: which are pending, which are canceled, and which are queued.
use xblob_emulator.Core.Scheduler.{
  Event, Scheduler, Request, schedule_at, schedule_in, cancel, init, push, new_event,
  schedule_event, schedule_relative, cancel_event, perform, perform_all,
}
use xblob_emulator.Common.SafeMath.{checked_add, u64_max}
use xblob_emulator.Prelude.{
  ℕ, ◌+◌, ◌≤◌, ◌<◌, ◌≡◌, refl, inl, inr, Bool, true, false, not, ◌&&◌, ◌||◌, Option, List, [], ◌∷◌,
  map, arith, ltb, ◌==◌, Bool-cases, Option-cases, length, contains, remove, contains-remove,
  contains-push_new, Distinct, u64_mod,
}

abbrev pub ids : List Event → List ℕ
ids = map λ e. e.id

-- Queued identifiers are distinct and were given out; a pending one is queued and not canceled, and
-- the set of canceled ones holds queued ones only.
pub record Booked (s : Scheduler) : Type 0 where
  pub distinct : Distinct (ids s.event_queue)
  pub tracked :
      (id : ℕ)
      → contains id s.pending_ids
        ≡ (contains id (ids s.event_queue) && not (contains id s.canceled_ids))
  pub known : (id : ℕ) → contains id s.canceled_ids ≡ true → contains id (ids s.event_queue) ≡ true
  pub fresh : (id : ℕ) → contains id (ids s.event_queue) ≡ true → id < s.next_event_id

contains-push :
    (id : ℕ) (e : Event) (q : List Event)
    → contains id (ids (push e q)) ≡ (e.id == id || contains id (ids q))
unfolding contains push
contains-push id e [] = refl
contains-push id e (x ∷ xs) = ground (arith, contains-push id e xs)

push-Distinct :
    (e : Event) (q : List Event)
    → contains e.id (ids q) ≡ false
    → Distinct (ids q)
    → Distinct (ids (push e q))
unfolding contains push
push-Distinct e [] n d = (refl, tt)
push-Distinct e (x ∷ xs) n d = ground (arith, push-Distinct e xs, contains-push x.id e xs)

not_true : (b : Bool) → (b ≡ true → ⊥) → b ≡ false
not_true b h = ground arith

pub init-Booked : (c : ℕ) → Booked (init c)
unfolding init contains
init-Booked c = record {
  distinct = tt;
  tracked = λ id. refl;
  known = λ id h. cc;
  fresh = λ id h. cc;
}

pub schedule_event-Booked :
    (s : Scheduler) (t : ℕ) (c : Option ℕ)
    → s.next_event_id + 1 < u64_mod
    → Booked s
    → Booked (schedule_event s t c).0
unfolding schedule_event
schedule_event-Booked s t c room b = elim (Bool-cases (ltb t s.current_cycle)) [
  | inl e ↦ rw e b
  | inr e ↦
      let n = s.next_event_id in
      let new : contains n (ids s.event_queue) ≡ false =
        not_true _ (λ h. omega (arith, b.fresh n h)) in
      let alive : contains n s.canceled_ids ≡ false =
        not_true _ (λ h. omega (arith, b.fresh n (b.known n h))) in
      rw e (record {
        distinct = push-Distinct (new_event s t c) s.event_queue new b.distinct;
        tracked = λ id. ground (
          arith,
          b.tracked id,
          contains-push id (new_event s t c) s.event_queue,
          contains-push_new id n s.pending_ids,
        );
        known =
            λ id h. ground (arith, b.known id h, contains-push id (new_event s t c) s.event_queue);
        fresh = λ id h.
            ground
              (arith, b.fresh id, b.known id, contains-push id (new_event s t c) s.event_queue);
      })
]

pub cancel_event-Booked : (s : Scheduler) (id : ℕ) → Booked s → Booked (cancel_event s id).0
unfolding cancel_event
cancel_event-Booked s id b = elim (Bool-cases (contains id s.pending_ids)) [
  | inl e ↦ rw e (record {
    distinct = b.distinct;
    tracked = λ j. ground (
      arith,
      b.tracked j,
      contains-remove j id s.pending_ids,
      contains-push_new j id s.canceled_ids,
    );
    known = λ j h. ground (arith, b.known j, b.tracked j, contains-push_new j id s.canceled_ids);
    fresh = b.fresh;
  })
  | inr e ↦ rw e b
]

-- Room for `k` more identifiers.
abbrev pub Room : ℕ → Scheduler → Type 0
Room k s = s.next_event_id + k < u64_mod

-- A state to build on: booked, with its next identifier at most `k` further.
abbrev pub Books : ℕ → Scheduler → Scheduler → Type 0
Books k s s' = Booked s' × (s'.next_event_id ≤ s.next_event_id + k)

next_event_id-schedule_event :
    (s : Scheduler) (t : ℕ) (c : Option ℕ)
    → (schedule_event s t c).0.next_event_id ≤ s.next_event_id + 1
unfolding schedule_event
next_event_id-schedule_event s t c = ground arith

perform-Books : (s : Scheduler) (r : Request) → Room 1 s → Booked s → Books 1 s (perform s r)
unfolding perform schedule_relative
perform-Books s (schedule_at t c) room b =
    (schedule_event-Booked s t c room b, next_event_id-schedule_event s t c)
perform-Books s (schedule_in d c) room b =
    elim (Option-cases (checked_add u64_max s.current_cycle d)) [
      | inl e ↦ rw (e, perform, schedule_relative) (b, omega arith)
      | inr (t, e) ↦
          rw (e, perform, schedule_relative)
            (schedule_event-Booked s t c room b, next_event_id-schedule_event s t c)
    ]
perform-Books s (cancel id) room b = (cancel_event-Booked s id b, kept)
  where
    kept : (cancel_event s id).0.next_event_id ≤ s.next_event_id + 1
    kept = unfold cancel_event in ground arith

pub perform_all-Books :
    (s : Scheduler) (rs : List Request)
    → Room (length rs) s
    → Booked s
    → Books (length rs) s (perform_all s rs)
unfolding perform_all
perform_all-Books s [] room b = (b, omega arith)
perform_all-Books s (r ∷ rs) room b =
    let h = perform-Books s r (omega arith) b in
    let k = perform_all-Books (perform s r) rs (omega (arith, h.1)) h.0 in
    (k.0, omega (arith, h.1, k.1))

-- Dropping a canceled event from the front, with its mark.
pub discard-Booked :
    (e : Event) (q : List Event) (s : Scheduler)
    → contains e.id s.canceled_ids ≡ true
    → Booked (record s { event_queue = e ∷ q })
    → Booked (record s { event_queue = q; canceled_ids = remove e.id s.canceled_ids })
unfolding contains
discard-Booked e q s c b = record {
  distinct = b.distinct.1;
  tracked =
      λ id. ground (arith, b.tracked id, b.distinct.0, c, contains-remove id e.id s.canceled_ids);
  known = λ id h. ground (arith, b.known id, contains-remove id e.id s.canceled_ids);
  fresh = λ id h. ground (arith, b.fresh id);
}

-- Taking a live event from the front, with its entry among the pending ones.
pub take-Booked :
    (e : Event) (q : List Event) (s : Scheduler) (c : ℕ)
    → contains e.id s.canceled_ids ≡ false
    → Booked (record s { event_queue = e ∷ q })
    → Booked
        (record s { event_queue = q; pending_ids = remove e.id s.pending_ids; current_cycle = c })
unfolding contains
take-Booked e q s cyc c b = record {
  distinct = b.distinct.1;
  tracked =
      λ id. ground (arith, b.tracked id, b.distinct.0, c, contains-remove id e.id s.pending_ids);
  known = λ id h. ground (arith, b.known id h);
  fresh = λ id h. ground (arith, b.fresh id);
}
