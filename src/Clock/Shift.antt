-- ===== src/Clock/Shift.antt =====
-- A shift of the queue: uniform if all of its times, or none, are from before the clock was set.
use event_loop.Clock.{is_prehistoric, shift_time, shift_loop, is_small, eloop_time_update}
use event_loop.Eloop.{Timeout, Eloop}
use event_loop.Prelude.{
  if◌then◌else◌, Bool-cases, All, ◌≡◌, refl, ◌∙◌, inl, inr, Bool, true, false, ◌||◌, List, [], ◌∷◌,
  map, arith,
}
use event_loop.Prelude.Int.{ℤ, pos, ◌+ℤ◌, ◌-ℤ◌, ltb_ℤ, eqb_ℤ, +ℤ_parts, -ℤ_parts}
use event_loop.Time.{OsTime, IsNormal, os_time_before, add_time}
use event_loop.Time.Arith.{
  micros, add_time-micros, sub_time-micros, add_time_lem, sub_time_lem, before_iff,
}
use event_loop.Timers.Order.{NoneBefore, IsSorted}

-- All times of the list are on one side of the test `is_prehistoric`.
abbrev pub IsUniform : Bool → List Timeout → Type 0
IsUniform old xs = All (λ t. is_prehistoric t.time ≡ old) xs

-- The list with every time shifted.
abbrev pub shift_all : ℤ → OsTime → List Timeout → List Timeout
shift_all sign diff [] = []
shift_all sign diff (t ∷ rest) =
    record t { time = shift_time sign diff t.time } ∷ shift_all sign diff rest

shift_old :
    (seen : Bool) (sign : ℤ) (diff : OsTime) (xs : List Timeout)
    → IsUniform true xs
    → shift_loop seen sign diff xs ≡ shift_all sign diff xs
unfolding shift_loop
shift_old seen sign diff [] h = refl
shift_old seen sign diff (t ∷ xs) h =
    ground (arith, shift_old (seen || is_prehistoric t.time) sign diff xs h.1)

shift_new :
    (sign : ℤ) (diff : OsTime) (xs : List Timeout)
    → IsUniform false xs
    → shift_loop false sign diff xs ≡ shift_all sign diff xs
unfolding shift_loop
shift_new sign diff [] h = refl
shift_new sign diff (t ∷ xs) h = ground (arith, shift_new sign diff xs h.1)

pub shift_loop-uniform :
    (old : Bool) (sign : ℤ) (diff : OsTime) (xs : List Timeout)
    → IsUniform old xs
    → shift_loop false sign diff xs ≡ shift_all sign diff xs
shift_loop-uniform true sign diff xs h = shift_old false sign diff xs h
shift_loop-uniform false sign diff xs h = shift_new sign diff xs h

-- The instants of a list.
abbrev pub instants : List Timeout → List ℤ
instants xs = map (λ t. micros t.time) xs

-- A shift adds or subtracts the difference, as an instant.
pub shift_time_lem :
    (sign : ℤ) (diff t : OsTime)
    → micros (shift_time sign diff t)
      ≡ (if ltb_ℤ (pos 0) sign then micros t +ℤ micros diff else micros t -ℤ micros diff)
unfolding shift_time
shift_time_lem sign diff t = ground (arith, add_time-micros t diff, sub_time-micros t diff)

shift_time-IsNormal :
    (sign : ℤ) (diff t : OsTime) → IsNormal diff → IsNormal t → IsNormal (shift_time sign diff t)
unfolding shift_time
shift_time-IsNormal sign diff t nd nt = elim (Bool-cases (ltb_ℤ (pos 0) sign)) [
  | inl forward ↦ rw forward ((add_time_lem t diff nt nd).1)
  | inr back ↦ rw back ((sub_time_lem t diff nt nd).1)
]

-- Two normal times keep their order.
shift_time-before :
    (sign : ℤ) (diff a b : OsTime)
    → IsNormal diff
    → IsNormal a
    → IsNormal b
    → os_time_before (shift_time sign diff a) (shift_time sign diff b) ≡ os_time_before a b
shift_time-before sign diff a b nd na nb = ground (
  arith,
  before_iff a b na nb,
  before_iff (shift_time sign diff a) (shift_time sign diff b)
      (shift_time-IsNormal sign diff a nd na) (shift_time-IsNormal sign diff b nd nb),
  shift_time_lem sign diff a,
  shift_time_lem sign diff b,
  +ℤ_parts (micros a) (micros diff),
  +ℤ_parts (micros b) (micros diff),
  -ℤ_parts (micros a) (micros diff),
  -ℤ_parts (micros b) (micros diff),
)

-- All times of the list have normal microseconds.
abbrev pub AllNormal : List Timeout → Type 0
AllNormal xs = All (λ t. IsNormal t.time) xs

shift_all-IsSorted :
    (sign : ℤ) (diff : OsTime) (xs : List Timeout)
    → IsNormal diff
    → AllNormal xs
    → IsSorted xs
    → IsSorted (shift_all sign diff xs)
shift_all-IsSorted sign diff [] nd n s = tt
shift_all-IsSorted sign diff (t ∷ xs) nd n s =
    (none_before xs n.1 s.0, shift_all-IsSorted sign diff xs nd n.1 s.1)
  where
    none_before :
        (ys : List Timeout)
        → AllNormal ys
        → NoneBefore t.time ys
        → NoneBefore (shift_time sign diff t.time) (shift_all sign diff ys)
    none_before [] m h = tt
    none_before (y ∷ ys) m h =
        (shift_time-before sign diff y.time t.time nd m.0 n.0 ∙ h.0, none_before ys m.1 h.1)

-- A uniform queue in order, of normal times, stays in order when the clock is set by a normal step.
pub time_update-IsSorted :
    (old : Bool) (sign : ℤ) (diff : OsTime) (e : Eloop)
    → IsNormal diff
    → AllNormal e.timeout
    → IsUniform old e.timeout
    → IsSorted e.timeout
    → IsSorted (eloop_time_update sign diff e).timeout
unfolding eloop_time_update
time_update-IsSorted old sign diff e nd n u s =
    elim (Bool-cases (eqb_ℤ sign (pos 0) || is_small diff)) [
      | inl ignored ↦ rw ignored s
      | inr acted ↦
          rw (acted, shift_loop-uniform old sign diff e.timeout u)
            (shift_all-IsSorted sign diff e.timeout nd n s)
    ]

-- A timeout from before the clock was set, ahead of one from after it: when the clock is set forward
-- past the second one's time the queue is out of order.
pub time_update-mixed :
    (diff : OsTime) (p q : Timeout) (e : Eloop)
    → e.timeout ≡ p ∷ q ∷ []
    → is_prehistoric p.time ≡ true
    → is_prehistoric q.time ≡ false
    → is_small diff ≡ false
    → os_time_before q.time (add_time p.time diff) ≡ true
    → ¬ IsSorted (eloop_time_update (pos 1) diff e).timeout
unfolding eloop_time_update shift_loop
time_update-mixed diff p q e two old new large past s = ground arith
