-- ===== src/Time.antt =====
-- Times of day: `struct os_time` and its helper macros of eloop/os.h, and the time functions of
-- eloop/eloop.c. `os_time_t` is a C `long`; its values are far from the limits, and signed
-- overflow has no meaning in C, so a component is an integer.
pub mod Order
pub mod Arith
pub mod Left
use event_loop.Prelude.{if◌then◌else◌, ℕ, zero, suc, Bool, ◌&&◌, ◌||◌}
use event_loop.Prelude.Int.{ℤ, pos, negsuc, pos_part, ◌+ℤ◌, ◌-ℤ◌, ◌≤ℤ◌, ◌<ℤ◌, ltb_ℤ, eqb_ℤ}

pub record OsTime : Type 0 where
  pub sec : ℤ
  pub usec : ℤ

abbrev pub million : ℤ
million = pos 1000000

abbrev pub zero_time : OsTime
zero_time = record { sec = pos 0; usec = pos 0 }

-- The microseconds are those of one second.
abbrev pub IsNormal : OsTime → Type 0
IsNormal t = (pos 0 ≤ℤ t.usec) × (t.usec <ℤ million)

unfoldable pub os_time_before : OsTime → OsTime → Bool
os_time_before a b = ltb_ℤ a.sec b.sec || (eqb_ℤ a.sec b.sec && ltb_ℤ a.usec b.usec)

unfoldable pub os_time_sub : OsTime → OsTime → OsTime
os_time_sub a b =
    let usec = a.usec -ℤ b.usec in
    if ltb_ℤ usec (pos 0)
    then record { sec = a.sec -ℤ b.sec -ℤ pos 1; usec = usec +ℤ million }
    else record { sec = a.sec -ℤ b.sec; usec = usec }

-- `CmpTime`
unfoldable pub cmp_time : OsTime → OsTime → ℤ
cmp_time dst src =
    if ltb_ℤ src.sec dst.sec
    then pos 1
    else if eqb_ℤ dst.sec src.sec
    then (if ltb_ℤ src.usec dst.usec
        then pos 1
        else if eqb_ℤ dst.usec src.usec
        then pos 0
        else negsuc 0)
    else negsuc 0

-- `AddTime`
unfoldable pub add_time : OsTime → OsTime → OsTime
add_time a diff =
    let sec = a.sec +ℤ diff.sec in
    let usec = a.usec +ℤ diff.usec in
    if ltb_ℤ usec million
    then record { sec = sec; usec = usec }
    else record { sec = sec +ℤ pos 1; usec = usec -ℤ million }

-- `SubTime`
unfoldable pub sub_time : OsTime → OsTime → OsTime
sub_time a diff =
    let sec = a.sec -ℤ diff.sec in
    let usec = a.usec -ℤ diff.usec in
    if ltb_ℤ usec (pos 0)
    then record { sec = sec -ℤ pos 1; usec = usec +ℤ million }
    else record { sec = sec; usec = usec }

-- `GetTimeLeft`, at the reading `cur` of the clock.
unfoldable pub get_time_left : OsTime → OsTime → OsTime
get_time_left cur dst =
    if ltb_ℤ dst.sec cur.sec || (ltb_ℤ dst.usec cur.usec && ltb_ℤ dst.sec (pos 1))
    then zero_time
    else if ltb_ℤ dst.usec cur.usec
    then record {
      sec = dst.sec -ℤ cur.sec -ℤ pos 1;
      usec = pos 999999 -ℤ cur.usec +ℤ dst.usec +ℤ pos 1;
    }
    else record { sec = dst.sec -ℤ cur.sec; usec = dst.usec -ℤ cur.usec }

-- `GetTimeElapsed`, at the reading `cur` of the clock.
unfoldable pub get_time_elapsed : OsTime → OsTime → OsTime
get_time_elapsed cur dst =
    if ltb_ℤ cur.sec dst.sec || (ltb_ℤ cur.usec dst.usec && ltb_ℤ cur.sec (pos 1))
    then zero_time
    else if ltb_ℤ cur.usec dst.usec
    then record {
      sec = cur.sec -ℤ dst.sec;
      usec = pos 0xffffffff -ℤ dst.usec +ℤ cur.usec +ℤ pos 1 -ℤ pos 1;
    }
    else record { sec = cur.sec -ℤ dst.sec; usec = cur.usec -ℤ dst.usec }

-- The loop of `eloop_register_timeout0` that carries microseconds into seconds. The fuel bounds
-- its rounds.
unfoldable pub carry : ℕ → OsTime → OsTime
carry zero t = t
carry (suc fuel) t =
    let rest = carry fuel (record { sec = t.sec +ℤ pos 1; usec = t.usec -ℤ million }) in
    if ltb_ℤ t.usec million then t else rest

-- The time `secs`, `usecs` after `now`. One round fewer than there are microseconds is enough.
unfoldable pub deadline : OsTime → ℕ → ℕ → OsTime
unfolding carry
deadline now secs usecs =
    let usec = now.usec +ℤ pos usecs in
    carry (pos_part usec) (record { sec = now.sec +ℤ pos secs; usec = usec })
