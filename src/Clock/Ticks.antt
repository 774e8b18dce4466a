-- ===== src/Clock/Ticks.antt =====
-- The ticks between two readings of `times()`.
use event_loop.Clock.{to_unsigned, clock_diff}
use event_loop.Prelude.{ℕ, ◌/◌, ◌^◌, ◌≤◌, ◌<◌, ◌≡◌, arith}
use event_loop.Prelude.Int.{ℤ, pos, negsuc, pos_part, neg_part, ◌+ℤ◌, ◌-ℤ◌, ◌<ℤ◌}

-- The values of a `clock_t` of `bits` bits.
abbrev pub IsClock : ℕ → ℤ → Type 0
IsClock bits t = (pos_part t < 2 ^ bits / 2) × (neg_part t ≤ 2 ^ bits / 2)

clock_diff_32-sub :
    (t1 t0 : ℤ) → IsClock 32 t1 → IsClock 32 t0 → clock_diff 32 t1 t0 ≡ to_unsigned 32 (t1 -ℤ t0)
unfolding clock_diff ◌+ℤ◌ ◌-ℤ◌
clock_diff_32-sub (pos a) (pos b) h1 h0 = ground arith
clock_diff_32-sub (pos a) (negsuc b) h1 h0 = ground arith
clock_diff_32-sub (negsuc a) (pos b) h1 h0 = ground arith
clock_diff_32-sub (negsuc a) (negsuc b) h1 h0 = ground arith

to_unsigned-lt : (z : ℤ) → to_unsigned 32 z < 2 ^ 32
unfolding to_unsigned
to_unsigned-lt (pos n) = omega arith
to_unsigned-lt (negsuc n) = omega arith

-- Unsigned conversion in 32 bits loses multiples of 2 ^ 32 only.
to_unsigned-add_sub :
    (a b : ℤ)
    → IsClock 32 a
    → IsClock 32 b
    → to_unsigned 32 (b +ℤ pos (to_unsigned 32 (a -ℤ b))) ≡ to_unsigned 32 a
unfolding to_unsigned ◌+ℤ◌ ◌-ℤ◌
to_unsigned-add_sub (pos a) (pos b) h1 h0 = ground arith
to_unsigned-add_sub (pos a) (negsuc b) h1 h0 = ground arith
to_unsigned-add_sub (negsuc a) (pos b) h1 h0 = ground arith
to_unsigned-add_sub (negsuc a) (negsuc b) h1 h0 = ground arith

-- Where `long` has 32 bits, adding the ticks to the first reading gives the second, also if the
-- counter wrapped between them.
pub clock_diff_32 :
    (t1 t0 : ℤ)
    → IsClock 32 t1
    → IsClock 32 t0
    → (clock_diff 32 t1 t0 < 2 ^ 32)
      × (to_unsigned 32 (t0 +ℤ pos (clock_diff 32 t1 t0)) ≡ to_unsigned 32 t1)
clock_diff_32 t1 t0 h1 h0 =
    rw (clock_diff_32-sub t1 t0 h1 h0) (to_unsigned-lt (t1 -ℤ t0), to_unsigned-add_sub t1 t0 h1 h0)

-- Where it has 64 bits, a later reading gives the exact number of ticks.
pub clock_diff_64 :
    (t1 t0 : ℤ) → IsClock 64 t1 → IsClock 64 t0 → t0 <ℤ t1 → pos (clock_diff 64 t1 t0) ≡ t1 -ℤ t0
unfolding clock_diff ◌-ℤ◌
clock_diff_64 t1 t0 h1 h0 later = ground arith

-- But two readings within one tick give 2 ^ 32 ticks.
pub clock_diff_64-same : (t : ℤ) → clock_diff 64 t t ≡ 2 ^ 32
unfolding clock_diff ◌+ℤ◌ ◌-ℤ◌
clock_diff_64-same t = ground arith
