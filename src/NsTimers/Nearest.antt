-- ===== src/NsTimers/Nearest.antt =====
-- How long the program's loop may wait.
use event_loop.Clock.{to_unsigned}
use event_loop.NsTimers.{NsTimeout}
use event_loop.NsTimers.Expire.{times_1000, over_1000, find_nearest_timeout_ms}
use event_loop.Prelude.{
  ℕ, ◌+◌, ◌*◌, ◌/◌, ◌≤◌, ◌<◌, ◌≡◌, refl, ◌⊎◌, inl, inr, true, false, List, ◌∷◌, arith,
}
use event_loop.Prelude.Int.{
  ℤ, pos, negsuc, pos_part, neg_part, ◌+ℤ◌, ◌-ℤ◌, ◌≤ℤ◌, ◌<ℤ◌, leb_ℤ, int_laws,
}
use event_loop.Time.{OsTime, million, IsNormal, os_time_before, os_time_sub, sub_time}
use event_loop.Time.Arith.{micros, time_laws, sub_time_cases, sub_time_lem, os_time_sub-eq-sub_time}

before_parts :
    (a b : OsTime)
    → os_time_before b a ≡ true
    → (b.sec <ℤ a.sec) ⊎ ((b.sec ≤ℤ a.sec) × (b.usec <ℤ a.usec))
unfolding os_time_before
before_parts a b h = ground arith

-- The seconds left for a normal time that is not more than 4294966 seconds ahead.
left_sec :
    (a b : OsTime)
    → IsNormal a
    → IsNormal b
    → (b.sec <ℤ a.sec) ⊎ ((b.sec ≤ℤ a.sec) × (b.usec <ℤ a.usec))
    → a.sec ≤ℤ b.sec +ℤ pos 4294966
    → (pos 0 ≤ℤ (sub_time a b).sec) × ((sub_time a b).sec ≤ℤ pos 4294966)
left_sec a b na nb later near = elim (sub_time_cases a b) [
  | inl (borrow, e) ↦ rw e (elim later [
    | inl h ↦ omega (int_laws, h, near, borrow, na, nb)
    | inr h ↦ omega (int_laws, h, near, borrow, na, nb)
  ])
  | inr (fits, e) ↦ rw e (elim later [
    | inl h ↦ omega (int_laws, h, near, fits, na, nb)
    | inr h ↦ omega (int_laws, h, near, fits, na, nb)
  ])
]

ms_of :
    (s u : ℕ)
    → s ≤ 4294966
    → u < 1000000
    → to_unsigned 32 (pos (s * 1000) +ℤ pos (u / 1000)) ≡ s * 1000 + u / 1000
unfolding to_unsigned ◌+ℤ◌
ms_of s u h k = ground arith

to_ms :
    (s u : ℤ)
    → pos 0 ≤ℤ s
    → s ≤ℤ pos 4294966
    → pos 0 ≤ℤ u
    → u <ℤ million
    → to_unsigned 32 (times_1000 s +ℤ over_1000 u) ≡ pos_part s * 1000 + pos_part u / 1000
to_ms (pos s) (pos u) h k l m = ms_of s u (omega (arith, k)) (omega (arith, m))
to_ms (negsuc s) u h k l m = absurd (omega (arith, h))
to_ms (pos s) (negsuc u) h k l m = absurd (omega (arith, l))

nonneg_part : (z : ℤ) → pos 0 ≤ℤ z → neg_part z ≡ 0
nonneg_part z h = ground arith

-- Whole milliseconds, rounded down.
ms_bounds :
    (d : OsTime)
    → pos 0 ≤ℤ d.sec
    → IsNormal d
    → let ms = pos_part d.sec * 1000 + pos_part d.usec / 1000 in
      (pos (ms * 1000) ≤ℤ micros d) × (micros d <ℤ pos (ms * 1000 + 1000))
ms_bounds d h n =
    let s = nonneg_part d.sec h in
    let u = nonneg_part d.usec n.0 in (omega (time_laws, s, u), omega (time_laws, s, u))

find_due :
    (now : OsTime) (t : NsTimeout) (rest : List NsTimeout)
    → os_time_before now t.time ≡ false
    → find_nearest_timeout_ms now (t ∷ rest) ≡ 0
unfolding find_nearest_timeout_ms ◌+ℤ◌
find_due now t rest h = rw h refl

find_later :
    (now : OsTime) (t : NsTimeout) (rest : List NsTimeout)
    → os_time_before now t.time ≡ true
    → (os_time_sub t.time now).sec ≤ℤ pos 4294966
    → let d = os_time_sub t.time now in
      find_nearest_timeout_ms now (t ∷ rest) ≡ to_unsigned 32 (times_1000 d.sec +ℤ over_1000 d.usec)
unfolding find_nearest_timeout_ms
find_later now t rest h near =
    let small : leb_ℤ (pos 0x7ffffff) (os_time_sub t.time now).sec ≡ false = ground arith in
    rw (h, small) refl

-- Between normal times, with the first timeout at most 4294966 seconds ahead, the wait is zero if that
-- timeout is due, and otherwise the whole milliseconds left until it.
pub find_nearest_timeout_ms_lem :
    (now : OsTime) (t : NsTimeout) (rest : List NsTimeout)
    → IsNormal now
    → IsNormal t.time
    → t.time.sec ≤ℤ now.sec +ℤ pos 4294966
    → let ms = find_nearest_timeout_ms now (t ∷ rest) in
      (os_time_before now t.time ≡ false → ms ≡ 0)
      × (os_time_before now t.time ≡ true
          → (pos (ms * 1000) ≤ℤ (micros t.time -ℤ micros now))
            × ((micros t.time -ℤ micros now) <ℤ pos (ms * 1000 + 1000)))
find_nearest_timeout_ms_lem now t rest nn nt near = (
  find_due now t rest,
  λ later.
      let d = os_time_sub t.time now in
      let same = os_time_sub-eq-sub_time t.time now in
      let exact = sub_time_lem t.time now nt nn in
      let secs = left_sec t.time now nt nn (before_parts t.time now later) near in
      let n : IsNormal d = rw same exact.1 in
      let low : pos 0 ≤ℤ d.sec = rw same secs.0 in
      let high : d.sec ≤ℤ pos 4294966 = rw same secs.1 in
      let left : micros d ≡ micros t.time -ℤ micros now = rw same exact.0 in
      rw (find_later now t rest later high, to_ms d.sec d.usec low high n.0 n.1, ← left)
        (ms_bounds d low n),
)
