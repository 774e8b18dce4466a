-- ===== src/Tests/Clocks.antt =====
-- Times and changes of the clock at concrete values.
use event_loop.Clock.{
  is_prehistoric, to_unsigned, clock_diff, expected_time, eloop_time_change_auto,
}
use event_loop.Clock.Auto.{IsJump, time_change_auto_lem}
use event_loop.Clock.Shift.{IsUniform, instants}
use event_loop.Clock.Ticks.{clock_diff_32}
use event_loop.Eloop.{Eloop}
use event_loop.Prelude.{◌*◌, ◌^◌, ◌<◌, ◌≡◌, refl, true, false, [], ◌∷◌, map, arith}
use event_loop.Prelude.Int.{pos, negsuc, ◌+ℤ◌, ◌-ℤ◌, int_laws}
use event_loop.Tests.{time_at, node, waiting, state}
use event_loop.Time.{deadline}
use event_loop.Time.Arith.{micros}

-- Microseconds of more than a second are carried.
deadline_carries : deadline (time_at 100 700000) 2 1500000 ≡ time_at 104 200000
unfolding deadline ◌+ℤ◌ ◌-ℤ◌
deadline_carries = refl

waiting-IsUniform : IsUniform true waiting
unfolding is_prehistoric
waiting-IsUniform = (refl, (refl, (refl, tt)))

time_change_auto_lem_example :
    let cur = expected_time 200 (time_at 100 0) in
    let gone = micros (time_at 100 0) +ℤ pos (200 * 10000) in
    let e = eloop_time_change_auto 64 (pos 700) (pos 500) (time_at 9000 0) (time_at 100 0) state in
    (IsJump (time_at 9000 0) cur
      → instants e.timeout ≡ map (λ t. micros t.time +ℤ (micros (time_at 9000 0) -ℤ gone)) waiting)
    × (¬ IsJump (time_at 9000 0) cur → e ≡ state)
time_change_auto_lem_example =
    time_change_auto_lem 200 (pos 700) (pos 500) true (time_at 9000 0) (time_at 100 0) state
      (omega arith, omega arith) (omega arith, omega arith) (omega int_laws) (omega arith)
      waiting-IsUniform

abbrev mixed : Eloop
mixed = record state {
  timeout = node 10 (time_at 100 0) false ∷ node 20 (time_at 1400000000 0) false ∷ [];
}

clock_diff_32_example :
    (clock_diff 32 (negsuc 2147483640) (pos 2147483640) < 2 ^ 32)
    × (to_unsigned 32 (pos 2147483640 +ℤ pos (clock_diff 32 (negsuc 2147483640) (pos 2147483640)))
        ≡ to_unsigned 32 (negsuc 2147483640))
clock_diff_32_example =
    clock_diff_32 (negsuc 2147483640) (pos 2147483640) (omega arith, omega arith)
      (omega arith, omega arith)
