-- ===== src/Loop/Safety.antt =====
-- What holds throughout a run: the range of descriptors that `pselect` looks at, and the alarm.
use event_loop.Eloop.{
  EventType, read, write, exception, unknown, Eloop, Call, register_sock, unregister_sock,
  register_timeout, cancel_timeout, register_watchdog_timeout, cancel_watchdog_timeout,
  register_signal, deliver, request_terminate, set_tmp_terminate, Env, next_io,
}
use event_loop.Handlers.{perform}
use event_loop.Loop.{clear_changed, eloop_run}
use event_loop.Loop.Invariant.{Ends, IsInvariant, eloop_run-keeps}
use event_loop.Prelude.{
  ◌==◌, if◌then◌else◌, if-keeps, ℕ, ◌≡◌, refl, true, false, not, ◌&&◌, ◌||◌, arith,
}
use event_loop.Prelude.Int.{ℤ}
use event_loop.Signals.{sig_int, sig_term}
use event_loop.Socks.MaxSock.{IsWatched, unregister-IsWatched, register-IsWatched}
use event_loop.Timers.Frame.{
  IsRetimed, register_timeout0-keeps, cancel_timeout0-keeps, time_change_auto-keeps,
}

same-IsWatched :
    (e e' : Eloop)
    → e'.max_sock ≡ e.max_sock
    → e'.readers ≡ e.readers
    → e'.writers ≡ e.writers
    → e'.exceptions ≡ e.exceptions
    → IsWatched e
    → IsWatched e'
same-IsWatched e e' m a b c w = record {
  readers = rw (m, a) w.readers;
  writers = rw (m, b) w.writers;
  exceptions = rw (m, c) w.exceptions;
}

IsWatched-IsRetimed : IsRetimed IsWatched
IsWatched-IsRetimed xs current commands n e w = record {
  readers = w.readers;
  writers = w.writers;
  exceptions = w.exceptions;
}

perform-IsWatched : (env : Env) (c : Call) (e : Eloop) → IsWatched e → IsWatched (perform env c e)
unfolding perform
perform-IsWatched env (register_sock new type) e w =
    register-IsWatched (env.realloc e.io) new type (next_io e)
      (same-IsWatched e _ refl refl refl refl w)
perform-IsWatched env (unregister_sock sock type) e w = unregister-IsWatched sock type e
perform-IsWatched env (register_timeout secs usecs handler eloop_data user_data) e w =
    register_timeout0-keeps IsWatched-IsRetimed env secs usecs handler eloop_data user_data false e
      w
perform-IsWatched env (cancel_timeout handler eloop_data user_data) e w =
    cancel_timeout0-keeps IsWatched-IsRetimed env handler eloop_data user_data false e w
perform-IsWatched env (register_watchdog_timeout secs usecs eloop_data user_data) e w =
    register_timeout0-keeps IsWatched-IsRetimed env secs usecs env.wdt_handler eloop_data user_data
      true e w
perform-IsWatched env (cancel_watchdog_timeout eloop_data user_data) e w =
    cancel_timeout0-keeps IsWatched-IsRetimed env env.wdt_handler eloop_data user_data true e w
perform-IsWatched env (register_signal sig handler user_data) e w =
    if-keeps (λ (p : ℤ × Eloop). IsWatched p.1) (env.realloc e.io) _ _
      (same-IsWatched e _ refl refl refl refl w) (same-IsWatched e _ refl refl refl refl w)
perform-IsWatched env (deliver sig) e w =
    let pending = (sig == sig_int || sig == sig_term) && not e.pending_terminate in
    let armed : Eloop = record e { pending_terminate = true; alarm = 2 } in
    same-IsWatched (if pending then armed else e) _ refl refl refl refl
      (if-keeps IsWatched pending armed e (same-IsWatched e _ refl refl refl refl w) w)
perform-IsWatched env request_terminate e w = same-IsWatched e _ refl refl refl refl w
perform-IsWatched env (set_tmp_terminate v) e w = same-IsWatched e _ refl refl refl refl w

settled-IsWatched : (type : EventType) (e : Eloop) → IsWatched e → IsWatched (clear_changed type e)
unfolding clear_changed
settled-IsWatched read e w = record {
  readers = w.readers;
  writers = w.writers;
  exceptions = w.exceptions;
}
settled-IsWatched write e w = record {
  readers = w.readers;
  writers = w.writers;
  exceptions = w.exceptions;
}
settled-IsWatched exception e w = record {
  readers = w.readers;
  writers = w.writers;
  exceptions = w.exceptions;
}
settled-IsWatched unknown e w = w

IsWatched-IsInvariant : (env : Env) → IsInvariant env IsWatched
IsWatched-IsInvariant env = record {
  handled = record {
    asked = λ n e w. same-IsWatched e _ refl refl refl refl w;
    called = λ inv e w. same-IsWatched e _ refl refl refl refl w;
    monitored = λ m e w. same-IsWatched e _ refl refl refl refl w;
    performed = perform-IsWatched env;
  };
  settled = settled-IsWatched;
  started = λ e w. same-IsWatched e _ refl refl refl refl w;
  disarmed = λ e w. same-IsWatched e _ refl refl refl refl w;
  cleared = λ i e w. same-IsWatched e _ refl refl refl refl w;
  taken = λ t rest e queued w. same-IsWatched e _ refl refl refl refl w;
  moved = time_change_auto-keeps IsWatched-IsRetimed;
}

-- A run that starts with every descriptor of the tables at most `max_sock` ends so, whatever
-- calls of eloop.h the handlers make (but eloop_run), and where it stops for want of fuel too.
pub eloop_run-IsWatched :
    (env : Env) (bits fuel rounds : ℕ) (e : Eloop)
    → IsWatched e
    → Ends IsWatched (eloop_run env bits fuel rounds e)
eloop_run-IsWatched env bits fuel rounds e w =
    eloop_run-keeps (IsWatched-IsInvariant env) bits fuel rounds e w

-- The alarm of two seconds is on exactly while a termination is pending.
abbrev pub IsArmed : Eloop → Type 0
IsArmed e = e.alarm ≡ (if e.pending_terminate then 2 else 0)

IsArmed-IsRetimed : IsRetimed IsArmed
IsArmed-IsRetimed xs current commands n e h = h

perform-IsArmed : (env : Env) (c : Call) (e : Eloop) → IsArmed e → IsArmed (perform env c e)
unfolding perform
perform-IsArmed env (register_sock new read) e h = ground arith
perform-IsArmed env (register_sock new write) e h = ground arith
perform-IsArmed env (register_sock new exception) e h = ground arith
perform-IsArmed env (register_sock new unknown) e h = h
perform-IsArmed env (unregister_sock sock read) e h = h
perform-IsArmed env (unregister_sock sock write) e h = h
perform-IsArmed env (unregister_sock sock exception) e h = h
perform-IsArmed env (unregister_sock sock unknown) e h = h
perform-IsArmed env (register_timeout secs usecs handler eloop_data user_data) e h =
    register_timeout0-keeps IsArmed-IsRetimed env secs usecs handler eloop_data user_data false e h
perform-IsArmed env (cancel_timeout handler eloop_data user_data) e h =
    cancel_timeout0-keeps IsArmed-IsRetimed env handler eloop_data user_data false e h
perform-IsArmed env (register_watchdog_timeout secs usecs eloop_data user_data) e h =
    register_timeout0-keeps IsArmed-IsRetimed env secs usecs env.wdt_handler eloop_data user_data
      true e h
perform-IsArmed env (cancel_watchdog_timeout eloop_data user_data) e h =
    cancel_timeout0-keeps IsArmed-IsRetimed env env.wdt_handler eloop_data user_data true e h
perform-IsArmed env (register_signal sig handler user_data) e h = ground arith
perform-IsArmed env (deliver sig) e h = ground arith
perform-IsArmed env request_terminate e h = h
perform-IsArmed env (set_tmp_terminate v) e h = h

settled-IsArmed : (type : EventType) (e : Eloop) → IsArmed e → IsArmed (clear_changed type e)
unfolding clear_changed
settled-IsArmed read e h = h
settled-IsArmed write e h = h
settled-IsArmed exception e h = h
settled-IsArmed unknown e h = h

IsArmed-IsInvariant : (env : Env) → IsInvariant env IsArmed
unfolding clear_changed
IsArmed-IsInvariant env = record {
  handled = record {
    asked = λ n e h. h;
    called = λ inv e h. h;
    monitored = λ m e h. h;
    performed = perform-IsArmed env;
  };
  settled = settled-IsArmed;
  started = λ e h. h;
  disarmed = λ e h. refl;
  cleared = λ i e h. h;
  taken = λ t rest e queued h. h;
  moved = time_change_auto-keeps IsArmed-IsRetimed;
}

-- A run that starts with the alarm on exactly while a termination is pending ends so, whatever
-- calls of eloop.h the handlers make (but eloop_run), and where it stops for want of fuel too.
pub eloop_run-IsArmed :
    (env : Env) (bits fuel rounds : ℕ) (e : Eloop)
    → IsArmed e
    → Ends IsArmed (eloop_run env bits fuel rounds e)
eloop_run-IsArmed env bits fuel rounds e h =
    eloop_run-keeps (IsArmed-IsInvariant env) bits fuel rounds e h
