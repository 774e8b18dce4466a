-- ===== src/Signals.antt =====
-- The signal table of eloop/eloop.c. A signal may arrive at any time; `eloop_handle_signal` only
-- notes it. The calls of `signal` that install it are left out: every signal is taken to reach it.
-- The numbers are those of Linux.
use event_loop.Eloop.{Signal, Eloop}
use event_loop.Prelude.{
  ◌==◌, if◌then◌else◌, ℕ, suc, Bool, true, not, ◌&&◌, ◌||◌, List, [], ◌∷◌, ◌++◌,
}
use event_loop.Prelude.Int.{ℤ, pos, negsuc, eqb_ℤ}

abbrev pub sig_hup : ℕ
sig_hup = 1

abbrev pub sig_int : ℕ
sig_int = 2

abbrev pub sig_term : ℕ
sig_term = 15

-- The loop of `eloop_handle_signal`: the first entry for the signal counts it.
unfoldable pub note_signal : ℕ → List Signal → List Signal
note_signal sig [] = []
note_signal sig (s ∷ rest) =
    if s.sig == sig then record s { signaled = suc s.signaled } ∷ rest else s ∷ note_signal sig rest

unfoldable pub eloop_handle_signal : ℕ → Eloop → Eloop
unfolding note_signal
eloop_handle_signal sig e =
    let e' : Eloop =
      if (sig == sig_int || sig == sig_term) && not e.pending_terminate
      then record e { pending_terminate = true; alarm = 2 }
      else e in
    record e' { signaled = suc e.signaled; signals = note_signal sig e.signals }

-- `room` says whether `os_realloc` succeeds.
unfoldable pub eloop_register_signal : Bool → (sig handler user_data : ℕ) → Eloop → ℤ × Eloop
eloop_register_signal room sig handler user_data e =
    if room
    then (
      pos 0,
      record e {
        signals =
            e.signals
            ++ record { sig = sig; user_data = user_data; handler = handler; signaled = 0 } ∷ [];
      },
    )
    else (negsuc 0, e)

unfoldable pub eloop_register_signal_terminate :
    (room_int room_term : Bool) → (handler user_data : ℕ) → Eloop → ℤ × Eloop
unfolding eloop_register_signal
eloop_register_signal_terminate room_int room_term handler user_data e =
    let (ret, e') = eloop_register_signal room_int sig_int handler user_data e in
    if eqb_ℤ ret (pos 0)
    then eloop_register_signal room_term sig_term handler user_data e'
    else (ret, e')

unfoldable pub eloop_register_signal_reconfig : Bool → (handler user_data : ℕ) → Eloop → ℤ × Eloop
unfolding eloop_register_signal
eloop_register_signal_reconfig room handler user_data e =
    eloop_register_signal room sig_hup handler user_data e
