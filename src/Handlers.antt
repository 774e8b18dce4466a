-- ===== src/Handlers.antt =====
-- Calls of handlers by eloop/eloop.c: the monitor around them, what they may do to the loop, and
-- the exception that ends the process.
use event_loop.Eloop.{
  Sock, Timeout, Signal, Invocation, sock_call, timeout_call, signal_call, Eloop, Call,
  register_sock, unregister_sock, register_timeout, cancel_timeout, register_watchdog_timeout,
  cancel_watchdog_timeout, register_signal, deliver, request_terminate, set_tmp_terminate, Env,
  next_io, eloop_terminate, eloop_tmp_terminate,
}
use event_loop.Prelude.{◌==◌, if◌then◌else◌, suc, not, ◌&&◌, ◌||◌, List, [], ◌∷◌}
use event_loop.Prelude.Int.{ℤ, pos, negsuc, eqb_ℤ}
use event_loop.Signals.{sig_int, sig_term, eloop_handle_signal, eloop_register_signal}
use event_loop.Socks.{eloop_register_sock, eloop_unregister_sock}
use event_loop.Timers.{
  eloop_register_timeout, eloop_cancel_timeout, eloop_register_watchdog_timeout,
  eloop_cancel_watchdog_timeout,
}

-- How a part of the loop ends: it returns, the process exits, or the fuel of the model runs out.
pub data Outcome (A : Type 0) : Type 0 where
  returned : A → Eloop → Outcome A
  exited : ℤ → Eloop → Outcome A
  stuck : Eloop → Outcome A

infixl 5 ◌>>=◌
abbrev pub ◌>>=◌ : {A B : Type 0} → Outcome A → (A → Eloop → Outcome B) → Outcome B
returned a e >>= f = f a e
exited code e >>= f = exited code e
stuck e >>= f = stuck e

-- `SetPendingMonitor`
unfoldable pub set_pending_monitor : ℤ → Eloop → Eloop
set_pending_monitor type e =
    if not (eqb_ℤ e.monitor (negsuc 0)) || e.pending_terminate
    then e
    else record e { monitor = type }

-- `ClrPendingMonitor`
unfoldable pub clr_pending_monitor : Eloop → Eloop
clr_pending_monitor e =
    if eqb_ℤ e.monitor (negsuc 0) || e.pending_terminate then e else record e { monitor = negsuc 0 }

-- A call by a handler. What the function returns does not matter to the loop.
unfoldable pub perform : Env → Call → Eloop → Eloop
unfolding eloop_register_sock eloop_unregister_sock eloop_register_timeout eloop_cancel_timeout
    eloop_register_watchdog_timeout eloop_cancel_watchdog_timeout eloop_register_signal
    eloop_handle_signal eloop_terminate eloop_tmp_terminate
perform env (register_sock new type) e =
    (eloop_register_sock (env.realloc e.io) new type (next_io e)).1
perform env (unregister_sock sock type) e = eloop_unregister_sock sock type e
perform env (register_timeout secs usecs handler eloop_data user_data) e =
    (eloop_register_timeout env secs usecs handler eloop_data user_data e).1
perform env (cancel_timeout handler eloop_data user_data) e =
    (eloop_cancel_timeout env handler eloop_data user_data e).1
perform env (register_watchdog_timeout secs usecs eloop_data user_data) e =
    (eloop_register_watchdog_timeout env secs usecs eloop_data user_data e).1
perform env (cancel_watchdog_timeout eloop_data user_data) e =
    (eloop_cancel_watchdog_timeout env eloop_data user_data e).1
perform env (register_signal sig handler user_data) e =
    (eloop_register_signal (env.realloc e.io) sig handler user_data (next_io e)).1
perform env (deliver sig) e = eloop_handle_signal sig e
perform env request_terminate e = eloop_terminate e
perform env (set_tmp_terminate v) e = eloop_tmp_terminate v e

unfoldable pub perform_all : Env → List Call → Eloop → Eloop
perform_all env [] e = e
perform_all env (c ∷ cs) e = perform_all env cs (perform env c e)

-- The handler's own run, between `Try` and `Catch`: its calls, and then its exception, which ends
-- the process, or its return.
unfoldable pub invoke : Env → Invocation → Eloop → Outcome (Unit {0})
unfolding perform_all
invoke env inv e =
    let b = env.callback e.io inv in
    let e' = perform_all env b.calls (record e { io = suc e.io; trace = inv ∷ e.trace }) in
    if b.raises then exited (negsuc 98) (eloop_terminate e') else returned tt e'

unfoldable pub call_eloop_sock_handler : Env → Sock → Eloop → Outcome (Unit {0})
unfolding invoke
call_eloop_sock_handler env s e =
    invoke env (sock_call s.handler s.sock s.eloop_data s.user_data) (set_pending_monitor (pos 1) e)
    >>= λ _ e'. returned tt (clr_pending_monitor e')

unfoldable pub call_eloop_timeout_handler : Env → Timeout → Eloop → Outcome (Unit {0})
unfolding invoke
call_eloop_timeout_handler env t e =
    invoke env (timeout_call t.handler t.eloop_data t.user_data) (set_pending_monitor (pos 2) e)
    >>= λ _ e'. returned tt (clr_pending_monitor e')

unfoldable pub call_eloop_signal_handler : Env → Signal → Eloop → Outcome (Unit {0})
unfolding invoke
call_eloop_signal_handler env s e =
    let watched = not (s.sig == sig_int) && not (s.sig == sig_term) in
    invoke env (signal_call s.handler s.sig e.user_data s.user_data)
      (if watched then set_pending_monitor (pos 4) e else e)
    >>= λ _ e'. returned tt (if watched then clr_pending_monitor e' else e')
