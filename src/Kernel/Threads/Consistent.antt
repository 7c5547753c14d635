-- ===== src/Kernel/Threads/Consistent.antt =====
-- What the scheduler's calls keep: at most one thread runs, the current one, and a thread that is
-- ready waits in the queue, in which none stands twice.
use mathlib.Core.Option.{some-injective}
use xblob_emulator.Kernel.Threads.{
  running, to_u8, GuestThread, ThreadScheduler, find, put, is_dropped, dispatch,
}
use xblob_emulator.Kernel.Threads.Table.{find-put_self, find-put_ne}
use xblob_emulator.Cpu.Registers.{CpuContext}
use xblob_emulator.Prelude.{
  ℕ, ◌<◌, ◌≡◌, sym, ap, ◌∙◌, subst, ◌≢◌, ◌⊎◌, inl, inr, true, some, List, [], ◌∷◌, arith, ◌==◌,
  Bool-cases, Option-cases, contains, Distinct,
}

-- A thread in the table and its key.
abbrev pub In : ThreadScheduler → ℕ → GuestThread → Type 0
In s tid th = find tid s.threads ≡ some th

pub record IsConsistent (s : ThreadScheduler) : Type 0 where
  pub one_runs : (x : ℕ) (th : GuestThread) → In s x th → to_u8 th.state ≡ 1 → x ≡ s.current_tid
  pub queued :
      (x : ℕ) (th : GuestThread) → In s x th → to_u8 th.state ≡ 0 → contains x s.ready_queue ≡ true
  pub distinct : Distinct s.ready_queue
  pub counts : 0 < s.next_tid
  pub numbered : (x : ℕ) (th : GuestThread) → In s x th → (0 < x) × (x < s.next_tid)

-- A thread of the table after an assignment is the one assigned or an old one.
pub in_put :
    (tid x : ℕ) (new th : GuestThread) (ts : List (ℕ × GuestThread))
    → find x (put tid new ts) ≡ some th
    → ((x ≡ tid) × (th ≡ new)) ⊎ ((x ≢ tid) × (find x ts ≡ some th))
in_put tid x new th ts e = elim (Bool-cases (x == tid)) [
  | inl k ↦
      let same : x ≡ tid = ground arith in
      inl (
        same,
        some-injective th new
            (sym e ∙ ap (λ y. find y (put tid new ts)) same ∙ find-put_self tid new ts),
      )
  | inr k ↦ let n : x ≢ tid = ground arith in inr (n, sym (find-put_ne tid x new ts n) ∙ e)
]

-- One thread of the table and the queue change.
pub replaced-IsConsistent :
    (s : ThreadScheduler) (tid : ℕ) (old new : GuestThread) (q : List ℕ)
    → IsConsistent s
    → In s tid old
    → (to_u8 new.state ≡ 1 → tid ≡ s.current_tid)
    → (to_u8 new.state ≡ 0 → contains tid q ≡ true)
    → ((x : ℕ) → x ≢ tid → contains x s.ready_queue ≡ true → contains x q ≡ true)
    → Distinct q
    → IsConsistent (record s { threads = put tid new s.threads; ready_queue = q })
replaced-IsConsistent s tid old new q v i runs waits others d = record {
  one_runs = λ x th e r. elim (in_put tid x new th s.threads e) [
    | inl (same, is) ↦ same ∙ runs (subst (λ (y : GuestThread). to_u8 y.state ≡ 1) is r)
    | inr (n, old_in) ↦ v.one_runs x th old_in r
  ];
  queued = λ x th e r. elim (in_put tid x new th s.threads e) [
    | inl (same, is) ↦
        ap (λ y. contains y q) same ∙ waits (subst (λ (y : GuestThread). to_u8 y.state ≡ 0) is r)
    | inr (n, old_in) ↦ others x n (v.queued x th old_in r)
  ];
  distinct = d;
  counts = v.counts;
  numbered = λ x th e. elim (in_put tid x new th s.threads e) [
    | inl (same, is) ↦ subst (λ y. (0 < y) × (y < s.next_tid)) (sym same) (v.numbered tid old i)
    | inr (n, old_in) ↦ v.numbered x th old_in
  ];
}

-- Where no thread runs, the next one can be scheduled.
pub record IsIdle (s : ThreadScheduler) (q : List ℕ) : Type 0 where
  pub none_runs : (x : ℕ) (th : GuestThread) → In s x th → to_u8 th.state ≢ 1
  pub queued : (x : ℕ) (th : GuestThread) → In s x th → to_u8 th.state ≡ 0 → contains x q ≡ true
  pub distinct : Distinct q
  pub counts : 0 < s.next_tid
  pub numbered : (x : ℕ) (th : GuestThread) → In s x th → (0 < x) × (x < s.next_tid)

-- The head of the queue is dropped if no ready thread has that key.
drop_head :
    (s : ThreadScheduler) (tid : ℕ) (q : List ℕ)
    → ((th : GuestThread) → In s tid th → to_u8 th.state ≢ 0)
    → IsIdle s (tid ∷ q)
    → IsIdle s q
unfolding contains
drop_head s tid q never v = record {
  none_runs = v.none_runs;
  queued = λ x th e r. elim (Bool-cases (tid == x)) [
    | inl k ↦
        let same : x ≡ tid = ground arith in absurd (never th (subst (λ y. In s y th) same e) r)
    | inr k ↦ let c = v.queued x th e r in ground arith
  ];
  distinct = v.distinct.1;
  counts = v.counts;
  numbered = v.numbered;
}

-- The head of the queue runs.
picked_IsConsistent :
    (s : ThreadScheduler) (tid : ℕ) (th : GuestThread) (q : List ℕ)
    → IsIdle s (tid ∷ q)
    → In s tid th
    → IsConsistent (record s {
      current_tid = tid;
      threads = put tid (record th { state = running }) s.threads;
      ready_queue = q;
    })
unfolding contains
picked_IsConsistent s tid th q v i =
    let new : GuestThread = record th { state = running } in
    record {
      one_runs = λ x y e r. elim (in_put tid x new y s.threads e) [
        | inl (same, is) ↦ same
        | inr (n, old_in) ↦ absurd (v.none_runs x y old_in r)
      ];
      queued = λ x y e r. elim (in_put tid x new y s.threads e) [
        | inl (same, is) ↦
            let code : to_u8 y.state ≡ 1 = ap (λ (z : GuestThread). to_u8 z.state) is in
            absurd (omega arith)
        | inr (n, old_in) ↦ let c = v.queued x y old_in r in ground arith
      ];
      distinct = v.distinct.1;
      counts = v.counts;
      numbered = λ x y e. elim (in_put tid x new y s.threads e) [
        | inl (same, is) ↦ subst (λ z. (0 < z) × (z < s.next_tid)) (sym same) (v.numbered tid th i)
        | inr (n, old_in) ↦ v.numbered x y old_in
      ];
    }

pub dispatch-IsConsistent :
    (s : ThreadScheduler) (cpu : CpuContext) (q : List ℕ)
    → IsIdle s q
    → IsConsistent (dispatch s cpu q).0.0
unfolding dispatch
dispatch-IsConsistent s cpu [] v = record {
  one_runs = λ x th e r. absurd (v.none_runs x th e r);
  queued = v.queued;
  distinct = v.distinct;
  counts = v.counts;
  numbered = v.numbered;
}
dispatch-IsConsistent s cpu (tid ∷ q) v = elim (Option-cases (find tid s.threads)) [
  | inl f ↦ rw (f, dispatch) (dispatch-IsConsistent s cpu q (drop_head s tid q (λ th e. cc) v))
  | inr (th, f) ↦ elim (Bool-cases (is_dropped th)) [
    | inl d ↦
        let not_ready : to_u8 th.state ≢ 0 = ground arith in
        let never : (other : GuestThread) → In s tid other → to_u8 other.state ≢ 0 = λ other e.
          subst (λ (y : GuestThread). to_u8 y.state ≢ 0) (some-injective th other (sym f ∙ e))
            not_ready in
        rw (f, d, dispatch) (dispatch-IsConsistent s cpu q (drop_head s tid q never v))
    | inr d ↦ rw (f, d, dispatch) (picked_IsConsistent s tid th q v f)
  ]
]
