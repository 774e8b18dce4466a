-- ===== src/Loop.antt =====
-- `eloop_run` of eloop/eloop.c and its parts: pending signals, the first timeout, the sockets.
pub mod Invariant
pub mod Safety
pub mod Changed
pub mod Dispatch
use event_loop.Clock.{eloop_time_change_auto}
use event_loop.Eloop.{
  Sock, Timeout, Signal, EventType, read, write, exception, unknown, Eloop, Selected, Env, entries,
  next_io,
}
use event_loop.Handlers.{
  Outcome, returned, stuck, ◌>>=◌, call_eloop_sock_handler, call_eloop_timeout_handler,
  call_eloop_signal_handler,
}
use event_loop.Prelude.{
  ltb, ◌==◌, if◌then◌else◌, length, get_elem?, ℕ, zero, suc, ◌+◌, Bool, true, false, not, ◌&&◌,
  ◌||◌, Option, none, some, List, [], ◌∷◌,
}
use event_loop.Prelude.Int.{ℤ, pos, ltb_ℤ, eqb_ℤ}
use event_loop.Signals.{eloop_handle_signal}
use event_loop.Socks.{eloop_get_sock_table, put_sock_table, FdSet, eloop_sock_table_set_fds}
use event_loop.Time.{OsTime, zero_time, os_time_before, os_time_sub}

-- `signals[i].signaled=0`
unfoldable pub clear_signal : ℕ → List Signal → List Signal
clear_signal i [] = []
clear_signal zero (s ∷ rest) = record s { signaled = 0 } ∷ rest
clear_signal (suc i) (s ∷ rest) = s ∷ clear_signal i rest

-- The loop of `eloop_process_pending_signals` from entry `i`. Handlers may make the table longer.
unfoldable pub signal_loop : Env → ℕ → ℕ → Eloop → Outcome (Unit {0})
unfolding clear_signal call_eloop_signal_handler
signal_loop env zero i e = stuck e
signal_loop env (suc fuel) i e = elim (get_elem? e.signals i) [
  | none ↦ returned tt e
  | some s ↦ elim (s.signaled == 0) [
    | true ↦ signal_loop env fuel (suc i) e
    | false ↦
        call_eloop_signal_handler env s (record e { signals = clear_signal i e.signals })
        >>= λ _ e'. signal_loop env fuel (suc i) e'
  ]
]

unfoldable pub eloop_process_pending_signals : Env → ℕ → Eloop → Outcome (Unit {0})
unfolding signal_loop
eloop_process_pending_signals env fuel e =
    if e.signaled == 0
    then returned tt e
    else signal_loop env fuel 0 (
        if e.pending_terminate
        then record e { signaled = 0; pending_terminate = false; alarm = 0 }
        else record e { signaled = 0 })

-- The time that `pselect` may wait for the first of these timeouts; `none` is forever.
unfoldable pub wait_for : Env → List Timeout → Eloop → Option OsTime × Eloop
wait_for env [] e = (none, e)
wait_for env (t ∷ rest) e =
    let now = env.get_time e.io in
    (some (if os_time_before now t.time then os_time_sub t.time now else zero_time), next_io e)

unfoldable pub wait_time : Env → Eloop → Option OsTime × Eloop
unfolding wait_for
wait_time env e = wait_for env e.timeout e

-- The first of these timeouts is taken out of the queue and its handler called, if its time has
-- come.
unfoldable pub run_first : Env → List Timeout → Eloop → Outcome (Unit {0})
unfolding call_eloop_timeout_handler
run_first env [] e = returned tt e
run_first env (t ∷ rest) e =
    if os_time_before (env.get_time e.io) t.time
    then returned tt (next_io e)
    else call_eloop_timeout_handler env t (record e { io = suc e.io; timeout = rest })

unfoldable pub run_timeout : Env → Eloop → Outcome (Unit {0})
unfolding run_first
run_timeout env e = run_first env e.timeout e

-- `table->changed = 0`
unfoldable pub clear_changed : EventType → Eloop → Eloop
unfolding eloop_get_sock_table
clear_changed type e = elim (eloop_get_sock_table type e) [
  | none ↦ e
  | some t ↦ put_sock_table type (record t { changed = false }) e
]

abbrev pub table_changed : EventType → Eloop → Bool
table_changed read e = e.readers.changed
table_changed write e = e.writers.changed
table_changed exception e = e.exceptions.changed
table_changed unknown e = false

abbrev pub table_entries : EventType → Eloop → List Sock
table_entries read e = entries e.readers
table_entries write e = entries e.writers
table_entries exception e = entries e.exceptions
table_entries unknown e = []

-- The loop of `eloop_sock_table_dispatch` from entry `i`. It stops when a handler changes the table.
unfoldable pub dispatch_loop : Env → EventType → FdSet → ℕ → ℕ → Eloop → Outcome (Unit {0})
unfolding call_eloop_sock_handler
dispatch_loop env type fds zero i e = stuck e
dispatch_loop env type fds (suc fuel) i e = elim (get_elem? (table_entries type e) i) [
  | none ↦ returned tt e
  | some s ↦ elim (fds s.sock) [
    | false ↦ dispatch_loop env type fds fuel (suc i) e
    | true ↦ call_eloop_sock_handler env s e >>= λ _ e'. elim (table_changed type e') [
      | true ↦ returned tt e'
      | false ↦ dispatch_loop env type fds fuel (suc i) e'
    ]
  ]
]

-- `table->table == NULL`
abbrev pub is_null : EventType → Eloop → Bool
is_null type e = elim (eloop_get_sock_table type e) [
  | none ↦ true
  | some t ↦ elim t.table [ none ↦ true | some xs ↦ false ]
]

-- `eloop_sock_table_dispatch`. A round for each entry and one to see the end are enough.
unfoldable pub eloop_sock_table_dispatch : Env → EventType → FdSet → Eloop → Outcome (Unit {0})
unfolding eloop_get_sock_table clear_changed dispatch_loop
eloop_sock_table_dispatch env type fds e =
    if is_null type e
    then returned tt e
    else dispatch_loop env type fds (suc (length (table_entries type e))) 0 (clear_changed type e)

-- What the loop carries from round to round for the clock.
pub record Vars : Type 0 where
  pub t0 : ℤ
  pub time0 : OsTime

-- The readings of `times` and the clock, and the change that they lead to.
unfoldable pub follow_clock : Env → ℕ → Vars → Eloop → Vars × Eloop
follow_clock env bits v e =
    let t1 = env.times e.io in
    let time1 = env.get_time (suc e.io) in
    (
      record { t0 = t1; time0 = time1 },
      eloop_time_change_auto bits t1 v.t0 time1 v.time0 (record e { io = suc (suc e.io) }),
    )

-- Signals that arrive one after the other.
unfoldable pub deliver_all : List ℕ → Eloop → Eloop
deliver_all [] e = e
deliver_all (sig ∷ rest) e = deliver_all rest (eloop_handle_signal sig e)

-- `pselect` leaves of a set the descriptors that are ready and below `nfds`.
abbrev pub narrowed : FdSet → FdSet → ℤ → FdSet
narrowed given ready max_sock fd = given fd && (ready fd && not (ltb_ℤ max_sock fd))

-- `EINTR` of Linux
abbrev pub eintr : ℕ
eintr = 4

-- The three calls of `eloop_sock_table_dispatch`.
unfoldable pub dispatch_all : Env → (rfds wfds efds : FdSet) → Eloop → Outcome (Unit {0})
unfolding eloop_sock_table_dispatch
dispatch_all env rfds wfds efds e = eloop_sock_table_dispatch env read rfds e >>= λ _ e'.
    eloop_sock_table_dispatch env write wfds e' >>= λ _ e''.
    eloop_sock_table_dispatch env exception efds e''

-- The body of the loop behind `pselect`; the result is `none` where it jumps to `out`.
unfoldable pub serve :
    Env → ℕ → Selected → (rfds wfds efds : FdSet) → Vars → Eloop → Outcome (Option Vars)
unfolding eloop_process_pending_signals run_timeout dispatch_all
serve env fuel answer rfds wfds efds v e =
    if ltb_ℤ answer.res (pos 0) && (not (answer.errno == eintr) && not (answer.errno == 0))
    then returned none e
    else eloop_process_pending_signals env fuel e >>= λ _ e1. run_timeout env e1 >>= λ _ e2.
        if ltb_ℤ answer.res (pos 1)
        then returned (some v) e2
        else dispatch_all env rfds wfds efds e2 >>= λ _ e3. returned (some v) e3

-- The body of the loop. The sets are made before the wait, and cover the entries of that time.
unfoldable pub iteration : Env → (bits fuel : ℕ) → Vars → Eloop → Outcome (Option Vars)
unfolding follow_clock wait_time deliver_all serve eloop_sock_table_set_fds
iteration env bits fuel v e =
    let (v1, e1) = follow_clock env bits v e in
    let (wait, e2) = wait_time env e1 in
    let answer = env.pselect e2.io in
    let (v2, e3) = follow_clock env bits v1 (deliver_all answer.delivered (next_io e2)) in
    serve env fuel answer
      (narrowed (eloop_sock_table_set_fds e2.readers) answer.readable e2.max_sock)
      (narrowed (eloop_sock_table_set_fds e2.writers) answer.writable e2.max_sock)
      (narrowed (eloop_sock_table_set_fds e2.exceptions) answer.exceptional e2.max_sock) v2 e3

-- The condition of the loop.
unfoldable pub goes_on : Eloop → Bool
goes_on e =
    eqb_ℤ e.tmp_terminate (pos 0)
    && (not e.terminate
        && (ltb 0 (length e.timeout)
            || (ltb 0 (length (entries e.readers))
                || (ltb 0 (length (entries e.writers)) || ltb 0 (length (entries e.exceptions))))))

-- The loop, for at most `rounds` rounds.
unfoldable pub run_loop : Env → (bits fuel rounds : ℕ) → Vars → Eloop → Outcome (Unit {0})
unfolding goes_on iteration
run_loop env bits fuel zero v e = stuck e
run_loop env bits fuel (suc rounds) v e = elim (goes_on e) [
  | false ↦ returned tt e
  | true ↦ iteration env bits fuel v e >>= λ next e'. elim next [
    | none ↦ returned tt e'
    | some v' ↦ run_loop env bits fuel rounds v' e'
  ]
]

unfoldable pub eloop_run : Env → (bits fuel rounds : ℕ) → Eloop → Outcome (Unit {0})
unfolding run_loop
eloop_run env bits fuel rounds e =
    let v : Vars = record { t0 = env.times e.io; time0 = env.get_time (suc e.io) } in
    let e' : Eloop = record e { io = 5 + e.io } in
    if env.malloc (2 + e.io) == 0 || (env.malloc (3 + e.io) == 0 || env.malloc (4 + e.io) == 0)
    then returned tt e'
    else run_loop env bits fuel rounds v e'
