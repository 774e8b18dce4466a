-- ===== src/Time/Arith.antt =====
-- Sums and differences of times, against the instant that a time stands for in microseconds.
use event_loop.Prelude.{if◌then◌else◌, ◌+◌, ◌*◌, ◌≡◌, ◌⊎◌, inl, inr, arith}
use event_loop.Prelude.Int.{
  ℤ, pos, negsuc, pos_part, neg_part, sub_ℕ, ◌+ℤ◌, ◌-ℤ◌, ◌≤ℤ◌, ◌<ℤ◌, ltb_ℤ, int_laws,
}
use event_loop.Time.{
  OsTime, million, IsNormal, os_time_before, os_time_sub, cmp_time, add_time, sub_time,
}

-- The microseconds that a time stands for.
pub micros : OsTime → ℤ
micros t =
    sub_ℕ (pos_part t.sec * 1000000 + pos_part t.usec) (neg_part t.sec * 1000000 + neg_part t.usec)

pub micros_parts :
    (t : OsTime)
    → pos_part (micros t) + neg_part t.sec * 1000000 + neg_part t.usec
      ≡ neg_part (micros t) + pos_part t.sec * 1000000 + pos_part t.usec
unfolding micros
micros_parts t = ground arith

pub ruleset time_laws = (int_laws, micros_parts)

-- The two forms that a normalised sum takes.
add_time_cases :
    (a b : OsTime)
    → ((a.usec +ℤ b.usec <ℤ million)
        × (add_time a b ≡ record { sec = a.sec +ℤ b.sec; usec = a.usec +ℤ b.usec }))
      ⊎ ((million ≤ℤ a.usec +ℤ b.usec)
          × (add_time a b
              ≡ record { sec = a.sec +ℤ b.sec +ℤ pos 1; usec = a.usec +ℤ b.usec -ℤ million }))
unfolding add_time
add_time_cases a b = ground arith

pub sub_time_cases :
    (a b : OsTime)
    → ((a.usec -ℤ b.usec <ℤ pos 0)
        × (sub_time a b
            ≡ record { sec = a.sec -ℤ b.sec -ℤ pos 1; usec = a.usec -ℤ b.usec +ℤ million }))
      ⊎ ((pos 0 ≤ℤ a.usec -ℤ b.usec)
          × (sub_time a b ≡ record { sec = a.sec -ℤ b.sec; usec = a.usec -ℤ b.usec }))
unfolding sub_time
sub_time_cases a b = ground arith

-- Both are exact as instants, whatever the microseconds.
pub add_time-micros : (a b : OsTime) → micros (add_time a b) ≡ micros a +ℤ micros b
add_time-micros a b = elim (add_time_cases a b) [
  | inl (small, e) ↦ rw e (omega time_laws)
  | inr (large, e) ↦ rw e (omega time_laws)
]

pub sub_time-micros : (a b : OsTime) → micros (sub_time a b) ≡ micros a -ℤ micros b
sub_time-micros a b = elim (sub_time_cases a b) [
  | inl (negative, e) ↦ rw e (omega time_laws)
  | inr (fits, e) ↦ rw e (omega time_laws)
]

-- `AddTime` of normal times adds the instants, and gives a normal time.
pub add_time_lem :
    (a b : OsTime)
    → IsNormal a
    → IsNormal b
    → (micros (add_time a b) ≡ micros a +ℤ micros b) × IsNormal (add_time a b)
add_time_lem a b na nb = elim (add_time_cases a b) [
  | inl (small, e) ↦ rw e (omega time_laws)
  | inr (large, e) ↦ rw e (omega time_laws)
]

-- `SubTime` of normal times subtracts the instants, and gives a normal time.
pub sub_time_lem :
    (a b : OsTime)
    → IsNormal a
    → IsNormal b
    → (micros (sub_time a b) ≡ micros a -ℤ micros b) × IsNormal (sub_time a b)
sub_time_lem a b na nb = elim (sub_time_cases a b) [
  | inl (negative, e) ↦ rw e (omega time_laws)
  | inr (fits, e) ↦ rw e (omega time_laws)
]

pub os_time_sub-eq-sub_time : (a b : OsTime) → os_time_sub a b ≡ sub_time a b
unfolding os_time_sub sub_time
os_time_sub-eq-sub_time a b = ground arith

-- Between normal times `os_time_before` compares the instants.
pub before_iff :
    (a b : OsTime) → IsNormal a → IsNormal b → os_time_before a b ≡ ltb_ℤ (micros a) (micros b)
unfolding os_time_before
before_iff a b na nb = ground (arith, micros_parts a, micros_parts b)

-- `CmpTime` of normal times gives the sign of the difference of the instants.
pub cmp_time_lem :
    (a b : OsTime)
    → IsNormal a
    → IsNormal b
    → cmp_time a b ≡ (
        if ltb_ℤ (micros b) (micros a)
        then pos 1
        else if ltb_ℤ (micros a) (micros b)
        then negsuc 0
        else pos 0)
unfolding cmp_time
cmp_time_lem a b na nb = ground (arith, micros_parts a, micros_parts b)
