-- ===== src/Time/Left.antt =====
-- `GetTimeLeft`, and the deadline of a new timeout.
use event_loop.Prelude.{Bool-cases, ℕ, zero, suc, ◌≤◌, ◌≡◌, refl, ap, ◌∙◌, ◌⊎◌, inl, inr, arith}
use event_loop.Prelude.Int.{
  ℤ, pos, negsuc, pos_part, neg_part, ◌+ℤ◌, ◌-ℤ◌, ◌≤ℤ◌, ◌<ℤ◌, ltb_ℤ, int_laws,
}
use event_loop.Time.{OsTime, million, zero_time, IsNormal, get_time_left, carry, deadline}
use event_loop.Time.Arith.{micros, time_laws}

-- The three forms of the result, with the tests that lead to each.
get_time_left_cases :
    (cur dst : OsTime)
    → pos 1 ≤ℤ dst.sec
    → ((dst.sec <ℤ cur.sec) × (get_time_left cur dst ≡ zero_time))
      ⊎ ((cur.sec ≤ℤ dst.sec)
          × (dst.usec <ℤ cur.usec)
          × (get_time_left cur dst ≡ record {
            sec = dst.sec -ℤ cur.sec -ℤ pos 1;
            usec = pos 999999 -ℤ cur.usec +ℤ dst.usec +ℤ pos 1;
          }))
      ⊎ ((cur.sec ≤ℤ dst.sec)
          × (cur.usec ≤ℤ dst.usec)
          × (get_time_left cur dst
              ≡ record { sec = dst.sec -ℤ cur.sec; usec = dst.usec -ℤ cur.usec }))
unfolding get_time_left
get_time_left_cases cur dst late = ground arith

-- `GetTimeLeft` of a normal time after the epoch's first second: nothing if the destination lies in
-- an earlier second; otherwise normal microseconds and the exact difference of the instants, which
-- is negative for a destination passed within the current second.
pub get_time_left_lem :
    (cur dst : OsTime)
    → IsNormal cur
    → IsNormal dst
    → pos 1 ≤ℤ dst.sec
    → ((dst.sec <ℤ cur.sec) × (get_time_left cur dst ≡ zero_time))
      ⊎ ((cur.sec ≤ℤ dst.sec)
          × IsNormal (get_time_left cur dst)
          × (micros (get_time_left cur dst) ≡ micros dst -ℤ micros cur))
get_time_left_lem cur dst nc nd late = elim (get_time_left_cases cur dst late) [
  | inl past ↦ inl past
  | inr (inl (le, borrow, e)) ↦ inr (le, rw e (omega int_laws), rw e (omega time_laws))
  | inr (inr (le, fits, e)) ↦ inr (le, rw e (omega int_laws), rw e (omega time_laws))
]

-- A destination passed within the current second yields a negative number of seconds.
pub get_time_left-negative :
    (cur dst : OsTime)
    → pos 1 ≤ℤ dst.sec
    → dst.sec ≡ cur.sec
    → dst.usec <ℤ cur.usec
    → (get_time_left cur dst).sec ≡ negsuc 0
get_time_left-negative cur dst late e passed = elim (get_time_left_cases cur dst late) [
  | inl past ↦ absurd (omega (arith, past.0, ap pos_part e, ap neg_part e))
  | inr (inl borrow) ↦ rw (borrow.2, e) (omega int_laws)
  | inr (inr fits) ↦ absurd (omega (arith, fits.1))
]

-- A round of the carry loop uses up fuel.
million_falls :
    (u : ℤ) (fuel : ℕ) → million ≤ℤ u → pos_part u ≤ suc fuel → pos_part (u -ℤ million) ≤ fuel
unfolding ◌-ℤ◌
million_falls u fuel h k = ground arith

-- The carry loop, given enough fuel, ends with microseconds below a second, and keeps the instant.
carry_lem :
    (fuel : ℕ) (t : OsTime)
    → pos 0 ≤ℤ t.usec
    → pos_part t.usec ≤ fuel
    → (micros (carry fuel t) ≡ micros t) × IsNormal (carry fuel t)
unfolding carry
carry_lem zero t nonneg enough = (refl, (nonneg, omega arith))
carry_lem (suc fuel) t nonneg enough = elim (Bool-cases (ltb_ℤ t.usec million)) [
  | inl done ↦ rw done (refl, (nonneg, ground arith))
  | inr more ↦
      let less : million ≤ℤ t.usec = ground arith in
      let t' : OsTime = record { sec = t.sec +ℤ pos 1; usec = t.usec -ℤ million } in
      let rest : (micros (carry fuel t') ≡ micros t') × IsNormal (carry fuel t') =
        carry_lem fuel t' (omega int_laws) (million_falls t.usec fuel less enough) in
      rw more (rest.0 ∙ omega time_laws, rest.1)
]

-- The time of a new timeout is the reading of the clock plus the given seconds and microseconds,
-- which may be more than a second's, with its own microseconds below a second.
pub deadline_lem :
    (now : OsTime) (secs usecs : ℕ)
    → IsNormal now
    → (micros (deadline now secs usecs)
        ≡ micros now +ℤ micros (record { sec = pos secs; usec = pos usecs }))
      × IsNormal (deadline now secs usecs)
unfolding deadline
deadline_lem now secs usecs nn =
    let t : OsTime = record { sec = now.sec +ℤ pos secs; usec = now.usec +ℤ pos usecs } in
    let d : (micros (carry (pos_part t.usec) t) ≡ micros t) × IsNormal (carry (pos_part t.usec) t) =
      carry_lem (pos_part t.usec) t (omega int_laws) (omega arith) in
    (d.0 ∙ omega time_laws, d.1)
