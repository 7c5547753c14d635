-- ===== src/Kernel/Sync/Timer.antt =====
-- The expirations of a periodic timer.
use native.Mathlib.Nat.{div-mul-le_self, lt-div-mul-add, div-le_self}
use xblob_emulator.Kernel.Sync.{TimerObject, period_cycles, advance_to_cycle}
use xblob_emulator.Prelude.{
  ℕ, ◌+◌, ◌-◌, ◌*◌, ◌/◌, ◌≤◌, ◌<◌, ◌≡◌, refl, true, false, arith, ltb, ◌==◌, u64_mod, add64, mul64,
}

period_cycles_pos : (t : TimerObject) → 0 < period_cycles t
unfolding period_cycles
period_cycles_pos t = ground arith

-- The arithmetic of the expirations, without a wrap.
abbrev expirations : ℕ → ℕ → ℕ → ℕ
expirations due now p = add64 ((now - due) / p) 1

expirations_lem :
    (due now p : ℕ)
    → 0 < p
    → due ≤ now
    → now + p < u64_mod
    → let n = expirations due now p in
      (add64 due (mul64 n p) ≡ due + n * p) × (now < due + n * p) × (due + n * p ≤ now + p)
expirations_lem due now p pos le fits =
    let q = (now - due) / p in
    let lo = div-mul-le_self (now - due) p in
    let hi = lt-div-mul-add {a = now - due} pos in
    let small = div-le_self (now - due) p in
    let one : add64 q 1 ≡ q + 1 = omega arith in rw one (omega (arith, lo, hi))

-- An active timer with a period that is due expires, once for each period that has begun since it
-- was due; it is signaled, stays active, and its next due cycle lies after the current one, by at
-- most a period, provided that this cycle fits in 64 bits.
pub advance_to_cycle_lem :
    (t : TimerObject) (now : ℕ)
    → t.is_active ≡ true
    → 0 < t.period_ms
    → t.due_cycle ≤ now
    → now + period_cycles t < u64_mod
    → let (t', n) = advance_to_cycle t now in
      (t'.signaled ≡ true)
      × (t'.is_active ≡ true)
      × (t'.due_cycle ≡ t.due_cycle + n * period_cycles t)
      × (now < t'.due_cycle)
      × (t'.due_cycle ≤ now + period_cycles t)
unfolding advance_to_cycle
advance_to_cycle_lem t now act per due fits =
    let h = expirations_lem t.due_cycle now (period_cycles t) (period_cycles_pos t) due fits in
    let a : ltb now t.due_cycle ≡ false = ground arith in
    let b : (t.period_ms == 0) ≡ false = ground arith in
    simp (act, a, b) (refl, refl, h.0, rw (h.0) (h.1), rw (h.0) (h.2))
