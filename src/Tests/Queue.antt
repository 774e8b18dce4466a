-- ===== src/Tests/Queue.antt =====
-- The timeout queue and its watchdog on concrete states.
use event_loop.Eloop.{Timeout, all_ctx}
use event_loop.Prelude.{length, All, ◌+◌, ◌≡◌, refl, true, false, List, ◌∷◌, ◌++◌, arith}
use event_loop.Prelude.Int.{pos}
use event_loop.Tests.{time_at, node, world, waiting, state}
use event_loop.Time.{os_time_before}
use event_loop.Timers.{insert, first_wdt, eloop_register_timeout0, eloop_cancel_timeout0}
use event_loop.Timers.Cancel.{keep, cancel_timeout_lem}
use event_loop.Timers.Order.{IsSorted, AllLater, insert_lem}
use event_loop.Timers.Register.{new_node, register_timeout_lem}
use event_loop.Timers.Watchdog.{Distinct, Follows, cancel_timeout-Follows}

pub waiting-IsSorted : IsSorted waiting
unfolding os_time_before
waiting-IsSorted = ((refl, (refl, tt)), ((refl, tt), (tt, tt)))

waiting-Distinct : Distinct waiting
waiting-Distinct = (
  omega arith,
  (omega arith, (omega arith, tt)),
  (omega arith, (omega arith, tt), (omega arith, tt, tt)),
)

state-Follows : Follows waiting state
unfolding first_wdt
state-Follows = (refl, refl)

insert_lem_example :
    (front back : List Timeout) × (waiting ≡ front ++ back)
    × (insert (node 40 (time_at 102 0) false) waiting
        ≡ front ++ node 40 (time_at 102 0) false ∷ back)
    × All (λ t. os_time_before (time_at 102 0) t.time ≡ false) front
    × AllLater (time_at 102 0) back
insert_lem_example = insert_lem (node 40 (time_at 102 0) false) waiting waiting-IsSorted

register_timeout_lem_example :
    let (ret, e) = eloop_register_timeout0 world 1 500000 8 1 77 true state in
    (ret ≡ pos 0)
    × (e.timeout ≡ insert (new_node world 1 500000 8 1 77 true state) waiting)
    × Distinct e.timeout
    × Follows e.timeout e
register_timeout_lem_example =
    register_timeout_lem world 1 500000 8 1 77 true state (omega arith)
      (omega arith, (omega arith, (omega arith, tt))) waiting-Distinct state-Follows

cancel_timeout_lem_example :
    let (removed, e) = eloop_cancel_timeout0 world 8 all_ctx 10 false state in
    (e.timeout ≡ keep 8 all_ctx 10 waiting) × (removed + length e.timeout ≡ 3)
cancel_timeout_lem_example = cancel_timeout_lem 8 all_ctx 10 world false state

cancel_timeout-Follows_example :
    let e = (eloop_cancel_timeout0 world 8 1 20 true state).1 in Follows e.timeout e
cancel_timeout-Follows_example =
    cancel_timeout-Follows world 8 1 20 true state waiting-Distinct state-Follows
