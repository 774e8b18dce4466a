-- ===== src/Time/Order.antt =====
-- `os_time_before` and `CmpTime` as an order.
use event_loop.Prelude.{◌≡◌, true, false, arith}
use event_loop.Time.{OsTime, os_time_before}

pub before_irrefl : (a : OsTime) → os_time_before a a ≡ false
unfolding os_time_before
before_irrefl a = ground arith

-- Of two times one is before the other, or neither is.
pub before_asymm : (a b : OsTime) → os_time_before a b ≡ true → os_time_before b a ≡ false
unfolding os_time_before
before_asymm a b h = ground arith

pub before_trans :
    (a b c : OsTime)
    → os_time_before a b ≡ true
    → os_time_before b c ≡ true
    → os_time_before a c ≡ true
unfolding os_time_before
before_trans a b c h k = ground arith

-- "Not before" is transitive too.
pub not-before_trans :
    (a b c : OsTime)
    → os_time_before a b ≡ false
    → os_time_before b c ≡ false
    → os_time_before a c ≡ false
unfolding os_time_before
not-before_trans a b c h k = ground arith

pub before_le_trans :
    (a b c : OsTime)
    → os_time_before a b ≡ true
    → os_time_before c b ≡ false
    → os_time_before a c ≡ true
unfolding os_time_before
before_le_trans a b c h k = ground arith
