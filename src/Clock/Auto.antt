-- ===== src/Clock/Auto.antt =====
-- By how much the deadlines move when the clock and the ticks disagree.
use event_loop.Clock.{
  shift_time, is_small, eloop_time_update, eloop_time_change0, clock_diff, expected_time,
  eloop_time_change_auto,
}
use event_loop.Clock.Shift.{IsUniform, shift_all, shift_loop-uniform, instants, shift_time_lem}
use event_loop.Clock.Ticks.{IsClock, clock_diff_64}
use event_loop.Eloop.{Timeout, Eloop}
use event_loop.Prelude.{
  if◌then◌else◌, Bool-cases, ℕ, ◌*◌, ◌/◌, ◌%◌, ◌<◌, ◌≡◌, refl, ap₂, ◌∙◌, ◌⊎◌, inl, inr, Bool, true,
  false, List, [], ◌∷◌, map, arith,
}
use event_loop.Prelude.Int.{ℤ, pos, ◌+ℤ◌, ◌-ℤ◌, ltb_ℤ, eqb_ℤ, int_laws}
use event_loop.Time.{OsTime, million, cmp_time, sub_time}
use event_loop.Time.Arith.{micros, time_laws, sub_time-micros}

-- The size of the step from `cur` to `new`.
abbrev pub clock_step : OsTime → OsTime → OsTime
clock_step new cur = if ltb_ℤ (pos 0) (cmp_time new cur) then sub_time new cur else sub_time cur new

-- The step is large enough to act on.
abbrev pub IsJump : OsTime → OsTime → Type 0
IsJump new cur =
    (eqb_ℤ (cmp_time new cur) (pos 0) ≡ false) × (is_small (clock_step new cur) ≡ false)

shift_all-instants :
    (new cur : OsTime) (xs : List Timeout)
    → instants (shift_all (cmp_time new cur) (clock_step new cur) xs)
      ≡ map (λ t. micros t.time +ℤ (micros new -ℤ micros cur)) xs
shift_all-instants new cur [] = refl
shift_all-instants new cur (t ∷ xs) =
    ap₂ ◌∷◌ (shifted (Bool-cases (ltb_ℤ (pos 0) (cmp_time new cur))))
      (shift_all-instants new cur xs)
  where
    shifted :
        (ltb_ℤ (pos 0) (cmp_time new cur) ≡ true) ⊎ (ltb_ℤ (pos 0) (cmp_time new cur) ≡ false)
        → micros (shift_time (cmp_time new cur) (clock_step new cur) t.time)
          ≡ micros t.time +ℤ (micros new -ℤ micros cur)
    shifted (inl forward) = rw (shift_time_lem, forward, sub_time-micros new cur) refl
    shifted (inr back) = rw (shift_time_lem, back, sub_time-micros cur new) (omega int_laws)

-- When the clock jumps from `cur` to `new`, each deadline of a uniform queue moves by exactly as
-- much; otherwise the loop is left as it is.
pub time_change0_lem :
    (old : Bool) (new cur : OsTime) (e : Eloop)
    → IsUniform old e.timeout
    → (IsJump new cur
        → instants (eloop_time_change0 new cur e).timeout
          ≡ map (λ t. micros t.time +ℤ (micros new -ℤ micros cur)) e.timeout)
      × (¬ IsJump new cur → eloop_time_change0 new cur e ≡ e)
unfolding eloop_time_change0 eloop_time_update
time_change0_lem old new cur e u = (
  λ jump.
      rw
        (jump.0, jump.1, shift_loop-uniform old (cmp_time new cur) (clock_step new cur) e.timeout u)
        (shift_all-instants new cur e.timeout),
  λ none'. ground arith,
)

abbrev plain_sum : ℕ → OsTime → OsTime
plain_sum ticks prev = record {
  sec = prev.sec +ℤ pos (ticks / 100);
  usec = prev.usec +ℤ pos (ticks % 100 * 1000000 / 100);
}

-- The three forms of the result.
expected_time_cases :
    (ticks : ℕ) (prev : OsTime)
    → let s = plain_sum ticks prev in
      (expected_time ticks prev ≡ record { sec = s.sec +ℤ pos 1; usec = s.usec -ℤ million })
      ⊎ (expected_time ticks prev ≡ record { sec = s.sec -ℤ pos 1; usec = s.usec +ℤ million })
      ⊎ (expected_time ticks prev ≡ s)
unfolding expected_time
expected_time_cases ticks prev = ground arith

-- The time expected after `ticks` is a hundredth of a second later for each of them.
pub expected_time_lem :
    (ticks : ℕ) (prev : OsTime)
    → micros (expected_time ticks prev) ≡ micros prev +ℤ pos (ticks * 10000)
expected_time_lem ticks prev = elim (expected_time_cases ticks prev) [
  | inl e ↦ rw e (omega time_laws)
  | inr (inl e) ↦ rw e (omega time_laws)
  | inr (inr e) ↦ rw e (omega time_laws)
]

-- The ticks as `clock_diff` counts them.
time_change_auto-ticks :
    (bits : ℕ) (t1 t0 : ℤ) (old : Bool) (new prev : OsTime) (e : Eloop)
    → IsUniform old e.timeout
    → let cur = expected_time (clock_diff bits t1 t0) prev in
      let gone = micros prev +ℤ pos (clock_diff bits t1 t0 * 10000) in
      let e' = eloop_time_change_auto bits t1 t0 new prev e in
      (IsJump new cur
        → instants e'.timeout ≡ map (λ t. micros t.time +ℤ (micros new -ℤ gone)) e.timeout)
      × (¬ IsJump new cur → e' ≡ e)
unfolding eloop_time_change_auto
time_change_auto-ticks bits t1 t0 old new prev e u =
    let cur : OsTime = expected_time (clock_diff bits t1 t0) prev in
    let r = time_change0_lem old new cur e u in
    (λ jump. rw (← expected_time_lem (clock_diff bits t1 t0) prev) (r.0 jump), r.1)

-- Where `long` has 64 bits, and a number of ticks, one at least, stands between two readings of the
-- counter: the deadlines of a uniform queue move by as much as the clock has gone from `prev` to `new`
-- beyond a hundredth of a second for each tick, if that is a jump, and otherwise nothing changes.
pub time_change_auto_lem :
    (ticks : ℕ) (t1 t0 : ℤ) (old : Bool) (new prev : OsTime) (e : Eloop)
    → IsClock 64 t1
    → IsClock 64 t0
    → t1 ≡ t0 +ℤ pos ticks
    → 0 < ticks
    → IsUniform old e.timeout
    → let gone = micros prev +ℤ pos (ticks * 10000) in
      let e' = eloop_time_change_auto 64 t1 t0 new prev e in
      (IsJump new (expected_time ticks prev)
        → instants e'.timeout ≡ map (λ t. micros t.time +ℤ (micros new -ℤ gone)) e.timeout)
      × (¬ IsJump new (expected_time ticks prev) → e' ≡ e)
time_change_auto_lem ticks t1 t0 old new prev e h1 h0 later some' u =
    let same : pos (clock_diff 64 t1 t0) ≡ pos ticks =
      clock_diff_64 t1 t0 h1 h0 (rw later (omega int_laws)) ∙ rw later (omega int_laws) in
    let exact : clock_diff 64 t1 t0 ≡ ticks = cc in
    rw exact at (time_change_auto-ticks 64 t1 t0 old new prev e u)
