-- ===== src/Clock.antt =====
-- What eloop/eloop.c does when the clock of the system is set: the deadlines of the queue follow.
pub mod Ticks
pub mod Shift
pub mod Auto
use event_loop.Eloop.{Timeout, Eloop}
use event_loop.Prelude.{
  if◌then◌else◌, ℕ, ◌-◌, ◌*◌, ◌/◌, ◌%◌, ◌^◌, Bool, false, not, ◌&&◌, ◌||◌, List, [], ◌∷◌,
}
use event_loop.Prelude.Int.{ℤ, pos, negsuc, ◌+ℤ◌, ◌-ℤ◌, ltb_ℤ, eqb_ℤ}
use event_loop.Time.{OsTime, million, cmp_time, add_time, sub_time}

-- The test that marks a time from before the clock was set.
unfoldable pub is_prehistoric : OsTime → Bool
is_prehistoric t = ltb_ℤ t.sec (pos 1000000001)

-- `AddTime` or `SubTime`, by the sign.
unfoldable pub shift_time : ℤ → OsTime → OsTime → OsTime
shift_time sign diff t = if ltb_ℤ (pos 0) sign then add_time t diff else sub_time t diff

-- The loop of `eloop_timeUpdate`, with `bHasPrehistoric`.
unfoldable pub shift_loop : Bool → ℤ → OsTime → List Timeout → List Timeout
unfolding is_prehistoric shift_time
shift_loop seen sign diff [] = []
shift_loop seen sign diff (t ∷ rest) =
    let old = is_prehistoric t.time in
    (if old || not (seen || old) then record t { time = shift_time sign diff t.time } else t)
    ∷ shift_loop (seen || old) sign diff rest

-- A difference that is too small to act on.
unfoldable pub is_small : OsTime → Bool
is_small diff = ltb_ℤ diff.sec (pos 1) && ltb_ℤ diff.usec (pos 900001)

-- `eloop_timeUpdate`
unfoldable pub eloop_time_update : ℤ → OsTime → Eloop → Eloop
unfolding shift_loop is_small
eloop_time_update sign diff e =
    if eqb_ℤ sign (pos 0) || is_small diff
    then e
    else record e { timeout = shift_loop false sign diff e.timeout }

-- `eloop_timeChange0`
unfoldable pub eloop_time_change0 : OsTime → OsTime → Eloop → Eloop
unfolding eloop_time_update
eloop_time_change0 new cur e =
    let sign = cmp_time new cur in
    if eqb_ℤ sign (pos 0)
    then e
    else eloop_time_update sign (if ltb_ℤ (pos 0) sign then sub_time new cur else sub_time cur new)
        e

-- The conversion of a `long` to an `unsigned long` of `bits` bits.
unfoldable pub to_unsigned : ℕ → ℤ → ℕ
to_unsigned bits (pos n) = n % 2 ^ bits
to_unsigned bits (negsuc n) = 2 ^ bits - 1 - n % 2 ^ bits

-- `clockdiff`: the ticks between two values of `times()`. The constant has 32 bits, `long` has
-- `bits`.
unfoldable pub clock_diff : ℕ → ℤ → ℤ → ℕ
unfolding to_unsigned
clock_diff bits t1 t0 =
    if ltb_ℤ t0 t1
    then to_unsigned bits (t1 -ℤ t0)
    else to_unsigned bits (pos 0xffffffff -ℤ t0 +ℤ t1 +ℤ pos 1)

-- The time that the ticks since `prev` lead to.
unfoldable pub expected_time : ℕ → OsTime → OsTime
expected_time ticks prev =
    let sec = prev.sec +ℤ pos (ticks / 100) in
    let usec = prev.usec +ℤ pos (ticks % 100 * 1000000 / 100) in
    if ltb_ℤ million usec
    then record { sec = sec +ℤ pos 1; usec = usec -ℤ million }
    else if ltb_ℤ usec (pos 0)
    then record { sec = sec -ℤ pos 1; usec = usec +ℤ million }
    else record { sec = sec; usec = usec }

-- `eloop_timeChangeAuto`
unfoldable pub eloop_time_change_auto : ℕ → ℤ → ℤ → OsTime → OsTime → Eloop → Eloop
unfolding clock_diff expected_time eloop_time_change0
eloop_time_change_auto bits t1 t0 new prev e =
    eloop_time_change0 new (expected_time (clock_diff bits t1 t0) prev) e
