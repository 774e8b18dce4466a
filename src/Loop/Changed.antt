-- ===== src/Loop/Changed.antt =====
-- What handlers can do to a table that is dispatched: any change marks it.
use event_loop.Eloop.{
  Sock, EventType, read, write, exception, unknown, Invocation, Eloop, Call, register_sock,
  unregister_sock, register_timeout, cancel_timeout, register_watchdog_timeout,
  cancel_watchdog_timeout, register_signal, deliver, request_terminate, set_tmp_terminate, Env,
  next_io,
}
use event_loop.Handlers.{perform}
use event_loop.Loop.{table_changed, table_entries}
use event_loop.Loop.Invariant.{IsKept}
use event_loop.Prelude.{ℕ, suc, ◌≡◌, ◌⊎◌, inl, inr, Bool, true, false, List, [], ◌∷◌, arith}
use event_loop.Prelude.Int.{ℤ}
use event_loop.Socks.{eloop_register_sock, eloop_unregister_sock}
use event_loop.Timers.Frame.{IsRetimed, register_timeout0-keeps, cancel_timeout0-keeps}

-- The table is marked as changed, or has these entries.
abbrev pub Unless : EventType → List Sock → Eloop → Type 0
Unless type xs e = (table_changed type e ≡ true) ⊎ (table_entries type e ≡ xs)

register-Unless :
    (type : EventType) (xs : List Sock) (room : Bool) (new : Sock) (other : EventType) (e : Eloop)
    → Unless type xs e
    → Unless type xs (eloop_register_sock room new other e).1
unfolding eloop_register_sock
register-Unless read xs room new read e h = ground arith
register-Unless read xs room new write e h = ground arith
register-Unless read xs room new exception e h = ground arith
register-Unless write xs room new read e h = ground arith
register-Unless write xs room new write e h = ground arith
register-Unless write xs room new exception e h = ground arith
register-Unless exception xs room new read e h = ground arith
register-Unless exception xs room new write e h = ground arith
register-Unless exception xs room new exception e h = ground arith
register-Unless type xs room new unknown e h = h
register-Unless unknown xs room new other e h = inr (h_unknown h)
  where
    h_unknown : Unless unknown xs e → [] ≡ xs
    h_unknown (inr k) = k
    h_unknown (inl k) = absurd (ground arith)

unregister-Unless :
    (type : EventType) (xs : List Sock) (sock : ℤ) (other : EventType) (e : Eloop)
    → Unless type xs e
    → Unless type xs (eloop_unregister_sock sock other e)
unfolding eloop_unregister_sock
unregister-Unless read xs sock read e h = ground arith
unregister-Unless read xs sock write e h = ground arith
unregister-Unless read xs sock exception e h = ground arith
unregister-Unless write xs sock read e h = ground arith
unregister-Unless write xs sock write e h = ground arith
unregister-Unless write xs sock exception e h = ground arith
unregister-Unless exception xs sock read e h = ground arith
unregister-Unless exception xs sock write e h = ground arith
unregister-Unless exception xs sock exception e h = ground arith
unregister-Unless type xs sock unknown e h = h
unregister-Unless unknown xs sock other e h = ground arith

Unless-IsRetimed : (type : EventType) (xs : List Sock) → IsRetimed (Unless type xs)
Unless-IsRetimed read xs ts current commands n e h = h
Unless-IsRetimed write xs ts current commands n e h = h
Unless-IsRetimed exception xs ts current commands n e h = h
Unless-IsRetimed unknown xs ts current commands n e h = h

perform-Unless :
    (type : EventType) (xs : List Sock) (env : Env) (c : Call) (e : Eloop)
    → Unless type xs e
    → Unless type xs (perform env c e)
unfolding perform
perform-Unless type xs env (register_sock new other) e h =
    register-Unless type xs (env.realloc e.io) new other (next_io e)
      (Unless-IsRetimed type xs e.timeout e.timeout_current_wdt e.wdt (suc e.io) e h)
perform-Unless type xs env (unregister_sock sock other) e h =
    unregister-Unless type xs sock other e h
perform-Unless type xs env (register_timeout secs usecs handler eloop_data user_data) e h =
    register_timeout0-keeps (Unless-IsRetimed type xs) env secs usecs handler eloop_data user_data
      false e h
perform-Unless type xs env (cancel_timeout handler eloop_data user_data) e h =
    cancel_timeout0-keeps (Unless-IsRetimed type xs) env handler eloop_data user_data false e h
perform-Unless type xs env (register_watchdog_timeout secs usecs eloop_data user_data) e h =
    register_timeout0-keeps (Unless-IsRetimed type xs) env secs usecs env.wdt_handler eloop_data
      user_data true e h
perform-Unless type xs env (cancel_watchdog_timeout eloop_data user_data) e h =
    cancel_timeout0-keeps (Unless-IsRetimed type xs) env env.wdt_handler eloop_data user_data true e
      h
perform-Unless read xs env (register_signal sig handler user_data) e h = ground arith
perform-Unless write xs env (register_signal sig handler user_data) e h = ground arith
perform-Unless exception xs env (register_signal sig handler user_data) e h = ground arith
perform-Unless unknown xs env (register_signal sig handler user_data) e h = h
perform-Unless read xs env (deliver sig) e h = ground arith
perform-Unless write xs env (deliver sig) e h = ground arith
perform-Unless exception xs env (deliver sig) e h = ground arith
perform-Unless unknown xs env (deliver sig) e h = h
perform-Unless read xs env request_terminate e h = h
perform-Unless write xs env request_terminate e h = h
perform-Unless exception xs env request_terminate e h = h
perform-Unless unknown xs env request_terminate e h = h
perform-Unless read xs env (set_tmp_terminate v) e h = h
perform-Unless write xs env (set_tmp_terminate v) e h = h
perform-Unless exception xs env (set_tmp_terminate v) e h = h
perform-Unless unknown xs env (set_tmp_terminate v) e h = h

pub Unless-IsKept : (env : Env) (type : EventType) (xs : List Sock) → IsKept env (Unless type xs)
Unless-IsKept env type xs = record {
  asked = λ n e h. asked' type n e h;
  called = λ inv e h. called' type inv e h;
  monitored = λ m e h. monitored' type m e h;
  performed = perform-Unless type xs env;
}
  where
    asked' :
        (type : EventType) (n : ℕ) (e : Eloop)
        → Unless type xs e
        → Unless type xs (record e { io = n })
    asked' read n e h = h
    asked' write n e h = h
    asked' exception n e h = h
    asked' unknown n e h = h

    called' :
        (type : EventType) (inv : Invocation) (e : Eloop)
        → Unless type xs e
        → Unless type xs (record e { trace = inv ∷ e.trace })
    called' read inv e h = h
    called' write inv e h = h
    called' exception inv e h = h
    called' unknown inv e h = h

    monitored' :
        (type : EventType) (m : ℤ) (e : Eloop)
        → Unless type xs e
        → Unless type xs (record e { monitor = m })
    monitored' read m e h = h
    monitored' write m e h = h
    monitored' exception m e h = h
    monitored' unknown m e h = h
