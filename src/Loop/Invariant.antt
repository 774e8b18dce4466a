-- ===== src/Loop/Invariant.antt =====
-- A property that every step keeps holds wherever the loop ends, whatever calls the handlers
-- make.
use event_loop.Clock.{eloop_time_change_auto}
use event_loop.Eloop.{
  Sock, Timeout, Signal, EventType, read, write, exception, Invocation, Eloop, Call, deliver,
  request_terminate, Selected, Env, next_io, eloop_terminate,
}
use event_loop.Handlers.{
  Outcome, returned, exited, stuck, ◌>>=◌, set_pending_monitor, clr_pending_monitor, perform,
  perform_all, invoke, call_eloop_sock_handler, call_eloop_timeout_handler,
  call_eloop_signal_handler,
}
use event_loop.Loop.{
  clear_signal, signal_loop, eloop_process_pending_signals, wait_for, wait_time, run_first,
  run_timeout, clear_changed, table_changed, table_entries, dispatch_loop, is_null,
  eloop_sock_table_dispatch, Vars, follow_clock, deliver_all, narrowed, eintr, dispatch_all, serve,
  iteration, goes_on, run_loop, eloop_run,
}
use event_loop.Prelude.{
  ◌==◌, Bool-cases, Option-cases, if-keeps, length, get_elem?, ℕ, zero, suc, ◌+◌, ◌≡◌, refl, inl,
  inr, false, not, ◌&&◌, ◌||◌, Option, none, some, List, [], ◌∷◌,
}
use event_loop.Prelude.Int.{ℤ, pos, negsuc, ltb_ℤ, eqb_ℤ}
use event_loop.Signals.{sig_int, sig_term, eloop_handle_signal}
use event_loop.Socks.{FdSet, eloop_sock_table_set_fds}
use event_loop.Time.{OsTime, os_time_before}

-- `P` holds of the state with which a part ends, in each of the three ways.
abbrev pub Ends : {A : Type 0} → (Eloop → Type 0) → Outcome A → Type 0
Ends P (returned a e) = P e
Ends P (exited code e) = P e
Ends P (stuck e) = P e

-- What a run of a handler is made of.
pub record IsKept (env : Env) (P : Eloop → Type 0) : Type 0 where
  pub asked : (n : ℕ) (e : Eloop) → P e → P (record e { io = n })
  pub called : (inv : Invocation) (e : Eloop) → P e → P (record e { trace = inv ∷ e.trace })
  pub monitored : (m : ℤ) (e : Eloop) → P e → P (record e { monitor = m })
  pub performed : (c : Call) (e : Eloop) → P e → P (perform env c e)

-- The steps that the loop is made of.
pub record IsInvariant (env : Env) (P : Eloop → Type 0) : Type 0 where
  pub handled : IsKept env P
  pub settled : (type : EventType) (e : Eloop) → P e → P (clear_changed type e)
  pub started : (e : Eloop) → P e → P (record e { signaled = 0 })
  pub disarmed :
      (e : Eloop) → P e → P (record e { signaled = 0; pending_terminate = false; alarm = 0 })
  pub cleared : (i : ℕ) (e : Eloop) → P e → P (record e { signals = clear_signal i e.signals })
  pub taken :
      (t : Timeout) (rest : List Timeout) (e : Eloop)
      → e.timeout ≡ t ∷ rest
      → P e
      → P (record e { timeout = rest })
  pub moved :
      (bits : ℕ) (t1 t0 : ℤ) (new prev : OsTime) (e : Eloop)
      → P e
      → P (eloop_time_change_auto bits t1 t0 new prev e)

pub >>=-Ends :
    {A B : Type 0} (P : Eloop → Type 0) (m : Outcome A) (f : A → Eloop → Outcome B)
    → Ends P m
    → ((a : A) (e : Eloop) → P e → Ends P (f a e))
    → Ends P (m >>= f)
>>=-Ends P (returned a e) f h k = k a e h
>>=-Ends P (exited code e) f h k = h
>>=-Ends P (stuck e) f h k = h

module _ {env : Env} {P : Eloop → Type 0} (kept : IsKept env P) where
  open kept use {asked, called, monitored, performed}

  pub perform_all-keeps : (cs : List Call) (e : Eloop) → P e → P (perform_all env cs e)
  unfolding perform_all
  perform_all-keeps [] e h = h
  perform_all-keeps (c ∷ cs) e h = perform_all-keeps cs (perform env c e) (performed c e h)

  set_monitor-keeps : (m : ℤ) (e : Eloop) → P e → P (set_pending_monitor m e)
  unfolding set_pending_monitor
  set_monitor-keeps m e h =
      if-keeps P (not (eqb_ℤ e.monitor (negsuc 0)) || e.pending_terminate) e
        (record e { monitor = m }) h (monitored m e h)

  pub clr_monitor-keeps : (e : Eloop) → P e → P (clr_pending_monitor e)
  unfolding clr_pending_monitor
  clr_monitor-keeps e h =
      if-keeps P (eqb_ℤ e.monitor (negsuc 0) || e.pending_terminate) e
        (record e { monitor = negsuc 0 }) h (monitored (negsuc 0) e h)

  pub terminate-keeps : (e : Eloop) → P e → P (eloop_terminate e)
  unfolding perform
  terminate-keeps e h = performed request_terminate e h

  invoke-keeps : (i : Invocation) (e : Eloop) → P e → Ends P (invoke env i e)
  unfolding invoke
  invoke-keeps i e h =
      let b = env.callback e.io i in
      let e1 : Eloop = record e { io = suc e.io; trace = i ∷ e.trace } in
      let h1 : P e1 = called i (record e { io = suc e.io }) (asked (suc e.io) e h) in
      let h2 = perform_all-keeps b.calls e1 h1 in
      elim (Bool-cases b.raises) [
        | inl raised ↦ rw raised (terminate-keeps (perform_all env b.calls e1) h2)
        | inr fine ↦ rw fine h2
      ]

  pub sock_handler-keeps : (s : Sock) (e : Eloop) → P e → Ends P (call_eloop_sock_handler env s e)
  unfolding call_eloop_sock_handler
  sock_handler-keeps s e h =
      >>=-Ends P (invoke env _ (set_pending_monitor (pos 1) e)) _
        (invoke-keeps _ _ (set_monitor-keeps (pos 1) e h)) (λ _. clr_monitor-keeps)

  pub timeout_handler-keeps :
      (t : Timeout) (e : Eloop) → P e → Ends P (call_eloop_timeout_handler env t e)
  unfolding call_eloop_timeout_handler
  timeout_handler-keeps t e h =
      >>=-Ends P (invoke env _ (set_pending_monitor (pos 2) e)) _
        (invoke-keeps _ _ (set_monitor-keeps (pos 2) e h)) (λ _. clr_monitor-keeps)

  signal_handler-keeps : (s : Signal) (e : Eloop) → P e → Ends P (call_eloop_signal_handler env s e)
  unfolding call_eloop_signal_handler
  signal_handler-keeps s e h =
      elim (Bool-cases (not (s.sig == sig_int) && not (s.sig == sig_term))) [
        | inl watched ↦ rw watched (
            >>=-Ends P (invoke env _ (set_pending_monitor (pos 4) e)) _
              (invoke-keeps _ _ (set_monitor-keeps (pos 4) e h)) (λ _. clr_monitor-keeps))
        | inr plain ↦ rw plain (>>=-Ends P (invoke env _ e) _ (invoke-keeps _ e h) (λ _ e' h'. h'))
      ]

module _ {env : Env} {P : Eloop → Type 0} (inv : IsInvariant env P) where
  open inv use {handled, settled, started, disarmed, cleared, taken, moved}
  open handled use {asked, performed}

  deliver_all-keeps : (sigs : List ℕ) (e : Eloop) → P e → P (deliver_all sigs e)
  unfolding deliver_all perform
  deliver_all-keeps [] e h = h
  deliver_all-keeps (sig ∷ sigs) e h =
      deliver_all-keeps sigs (eloop_handle_signal sig e) (performed (deliver sig) e h)

  signal_loop-keeps : (fuel i : ℕ) (e : Eloop) → P e → Ends P (signal_loop env fuel i e)
  unfolding signal_loop
  signal_loop-keeps zero i e h = h
  signal_loop-keeps (suc fuel) i e h = elim (Option-cases (get_elem? e.signals i)) [
    | inl done ↦ rw (done, signal_loop) h
    | inr (s, found) ↦
        rw (found, signal_loop)
          (elim (Bool-cases (s.signaled == 0)) [
            | inl idle ↦ rw (idle, signal_loop) (signal_loop-keeps fuel (suc i) e h)
            | inr due ↦
                rw (due, signal_loop)
                  (>>=-Ends P (call_eloop_signal_handler env s _) _
                    (signal_handler-keeps handled s _ (cleared i e h))
                    (λ _ e' h'. signal_loop-keeps fuel (suc i) e' h'))
          ])
  ]

  pending-keeps : (fuel : ℕ) (e : Eloop) → P e → Ends P (eloop_process_pending_signals env fuel e)
  unfolding eloop_process_pending_signals
  pending-keeps fuel e h =
      if-keeps (Ends P) (e.signaled == 0) (returned tt e) (signal_loop env fuel 0 _) h (
        signal_loop-keeps fuel 0 _
          (if-keeps P e.pending_terminate _ _ (disarmed e h) (started e h)))

  run_first-keeps :
      (xs : List Timeout) (e : Eloop) → e.timeout ≡ xs → P e → Ends P (run_first env xs e)
  unfolding run_first
  run_first-keeps [] e queued h = h
  run_first-keeps (t ∷ rest) e queued h =
      if-keeps (Ends P) (os_time_before (env.get_time e.io) t.time) (returned tt (next_io e)) _
        (asked (suc e.io) e h)
        (timeout_handler-keeps handled t _ (asked (suc e.io) _ (taken t rest e queued h)))

  dispatch_loop-keeps :
      (type : EventType) (fds : FdSet) (fuel i : ℕ) (e : Eloop)
      → P e
      → Ends P (dispatch_loop env type fds fuel i e)
  unfolding dispatch_loop
  dispatch_loop-keeps type fds zero i e h = h
  dispatch_loop-keeps type fds (suc fuel) i e h =
      elim (Option-cases (get_elem? (table_entries type e) i)) [
        | inl done ↦ rw (done, dispatch_loop) h
        | inr (s, found) ↦
            rw (found, dispatch_loop)
              (elim (Bool-cases (fds s.sock)) [
                | inr idle ↦
                    rw (idle, dispatch_loop) (dispatch_loop-keeps type fds fuel (suc i) e h)
                | inl ready ↦
                    rw (ready, dispatch_loop)
                      (>>=-Ends P (call_eloop_sock_handler env s e) _
                        (sock_handler-keeps handled s e h)
                        (λ _ e' h'. elim (Bool-cases (table_changed type e')) [
                          | inl changed ↦ rw changed h'
                          | inr same ↦ rw same (dispatch_loop-keeps type fds fuel (suc i) e' h')
                        ]))
              ])
      ]

  dispatch-keeps :
      (type : EventType) (fds : FdSet) (e : Eloop)
      → P e
      → Ends P (eloop_sock_table_dispatch env type fds e)
  unfolding eloop_sock_table_dispatch
  dispatch-keeps type fds e h =
      if-keeps (Ends P) (is_null type e) (returned tt e) _ h
        (dispatch_loop-keeps type fds (suc (length (table_entries type e))) 0 _ (settled type e h))

  follow_clock-keeps : (bits : ℕ) (v : Vars) (e : Eloop) → P e → P (follow_clock env bits v e).1
  unfolding follow_clock
  follow_clock-keeps bits v e h = moved bits _ _ _ _ _ (asked (suc (suc e.io)) e h)

  wait_time-keeps : (e : Eloop) → P e → P (wait_time env e).1
  unfolding wait_time
  wait_time-keeps e h = for e.timeout
    where
      for : (xs : List Timeout) → P (wait_for env xs e).1
      for [] = h
      for (t ∷ rest) = asked (suc e.io) e h

  pub dispatch_all-keeps :
      (rfds wfds efds : FdSet) (e : Eloop) → P e → Ends P (dispatch_all env rfds wfds efds e)
  unfolding dispatch_all
  dispatch_all-keeps rfds wfds efds e h =
      >>=-Ends P (eloop_sock_table_dispatch env read rfds e) _ (dispatch-keeps read rfds e h)
        (λ _ e1 h1.
          >>=-Ends P (eloop_sock_table_dispatch env write wfds e1) _
            (dispatch-keeps write wfds e1 h1) (λ _ e2. dispatch-keeps exception efds e2))

  serve-keeps :
      (fuel : ℕ) (answer : Selected) (rfds wfds efds : FdSet) (v : Vars) (e : Eloop)
      → P e
      → Ends P (serve env fuel answer rfds wfds efds v e)
  unfolding serve run_timeout
  serve-keeps fuel answer rfds wfds efds v e h =
      if-keeps (Ends P)
        (ltb_ℤ answer.res (pos 0) && (not (answer.errno == eintr) && not (answer.errno == 0)))
        (returned none e) _ h
        (>>=-Ends P (eloop_process_pending_signals env fuel e) _ (pending-keeps fuel e h)
          (λ _ e1 h1.
            >>=-Ends P (run_timeout env e1) _ (run_first-keeps e1.timeout e1 refl h1) (λ _ e2 h2.
              if-keeps (Ends P) (ltb_ℤ answer.res (pos 1)) (returned (some v) e2) _ h2 (
                >>=-Ends P (dispatch_all env rfds wfds efds e2) _
                  (dispatch_all-keeps rfds wfds efds e2 h2) (λ _ e3 h3. h3)))))

  iteration-keeps :
      (bits fuel : ℕ) (v : Vars) (e : Eloop) → P e → Ends P (iteration env bits fuel v e)
  unfolding iteration
  iteration-keeps bits fuel v e h =
      let (v1, e1) = follow_clock env bits v e in
      let e2 : Eloop = (wait_time env e1).1 in
      let answer = env.pselect e2.io in
      let e3 : Eloop = deliver_all answer.delivered (next_io e2) in
      let (v2, e4) = follow_clock env bits v1 e3 in
      serve-keeps fuel answer
        (narrowed (eloop_sock_table_set_fds e2.readers) answer.readable e2.max_sock)
        (narrowed (eloop_sock_table_set_fds e2.writers) answer.writable e2.max_sock)
        (narrowed (eloop_sock_table_set_fds e2.exceptions) answer.exceptional e2.max_sock) v2 e4
        (follow_clock-keeps bits v1 e3 (
          deliver_all-keeps answer.delivered (next_io e2)
            (asked (suc e2.io) e2 (wait_time-keeps e1 (follow_clock-keeps bits v e h)))))

  next_round-keeps :
      (loop : Vars → Eloop → Outcome (Unit {0}))
      → ((v : Vars) (e : Eloop) → P e → Ends P (loop v e))
      → (o : Option Vars) (e : Eloop) → P e
      → Ends P (elim o [ none ↦ returned tt e | some v ↦ loop v e ])
  next_round-keeps loop k none e h = h
  next_round-keeps loop k (some v) e h = k v e h

  run_loop-keeps :
      (bits fuel rounds : ℕ) (v : Vars) (e : Eloop)
      → P e
      → Ends P (run_loop env bits fuel rounds v e)
  unfolding run_loop
  run_loop-keeps bits fuel zero v e h = h
  run_loop-keeps bits fuel (suc rounds) v e h = elim (Bool-cases (goes_on e)) [
    | inr over ↦ rw (over, run_loop) h
    | inl on ↦
        rw (on, run_loop)
          (>>=-Ends P (iteration env bits fuel v e) _ (iteration-keeps bits fuel v e h)
            (next_round-keeps (run_loop env bits fuel rounds) (run_loop-keeps bits fuel rounds)))
  ]

  -- Whatever the handlers, the clock and the descriptors do, the property holds of the state that
  -- `eloop_run` ends with, if it held at the start.
  pub eloop_run-keeps :
      (bits fuel rounds : ℕ) (e : Eloop) → P e → Ends P (eloop_run env bits fuel rounds e)
  unfolding eloop_run
  eloop_run-keeps bits fuel rounds e h =
      if-keeps (Ends P) _ (returned tt _) _ (asked (5 + e.io) e h)
        (run_loop-keeps bits fuel rounds _ _ (asked (5 + e.io) e h))
