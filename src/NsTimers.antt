-- ===== src/NsTimers.antt =====
-- The timers of ns_support/ns_timer_support.c: a reduced copy of the event loop without descriptors,
-- with several contexts (`eloopTbl`), for a program that has a loop of its own. It is compiled
-- without ELOOP_WATCHDOG_ADDON and ELOOP_EXCEPTION_ADDON. Names that eloop/eloop.c has too begin
-- with `ns`. The calls of `signal` that install the handlers are left out.
pub mod Expire
pub mod Nearest
pub mod Contexts
use event_loop.Eloop.{Signal, Invocation, all_ctx}
use event_loop.Prelude.{
  ◌==◌, if◌then◌else◌, ℕ, suc, Bool, true, false, not, ◌&&◌, ◌||◌, List, [], ◌∷◌, ◌++◌,
}
use event_loop.Prelude.Int.{ℤ, pos, negsuc}
use event_loop.Signals.{sig_int, sig_term, note_signal}
use event_loop.Time.{OsTime, os_time_before, deadline}

-- `struct eloop_timeout`
pub record NsTimeout : Type 0 where
  pub time : OsTime
  pub eloop_data : ℕ
  pub user_data : ℕ
  pub handler : ℕ

-- `struct eloop_data`
pub record NsContext : Type 0 where
  pub user_data : ℕ
  pub timeout : List NsTimeout
  pub signals : List Signal
  pub signaled : ℕ
  pub pending_terminate : Bool
  pub terminate : Bool
  pub tmp_terminate : ℤ

-- `eloopTbl` and the process: the last `alarm`, the questions asked, the handlers called.
pub record NsState : Type 0 where
  pub contexts : ℕ → NsContext
  pub alarm : ℕ
  pub io : ℕ
  pub trace : List Invocation

-- What a handler can call; the first argument is the context.
pub data NsCall : Type 0 where
  ns_register : (ctx secs usecs handler eloop_data user_data : ℕ) → NsCall
  ns_cancel : (ctx handler eloop_data user_data : ℕ) → NsCall
  ns_register_sig : (ctx sig handler user_data : ℕ) → NsCall
  ns_deliver : (sig : ℕ) → NsCall
  ns_stop : (ctx : ℕ) → NsCall

-- The outside world: its n-th answers.
pub record NsEnv : Type 0 where
  pub get_time : ℕ → OsTime
  pub malloc : ℕ → Bool
  pub realloc : ℕ → Bool
  pub callback : ℕ → Invocation → List NsCall

-- A write to one context.
abbrev pub put_context : ℕ → NsContext → NsState → NsState
put_context ctx c s = record s { contexts = λ i. if i == ctx then c else s.contexts i }

-- `eloop_init`
unfoldable pub ns_init : (ctx user_data : ℕ) → NsState → NsState
ns_init ctx user_data s =
    put_context ctx
      (record {
        user_data = user_data;
        timeout = [];
        signals = [];
        signaled = 0;
        pending_terminate = false;
        terminate = false;
        tmp_terminate = pos 0;
      })
      s

-- The loop of `eloop_register_timeout`.
unfoldable pub ns_insert : NsTimeout → List NsTimeout → List NsTimeout
ns_insert new [] = new ∷ []
ns_insert new (t ∷ rest) =
    let later = ns_insert new rest in
    if os_time_before new.time t.time then new ∷ t ∷ rest else t ∷ later

-- `eloop_register_timeout`
unfoldable pub ns_register_timeout :
    NsEnv → (ctx secs usecs handler eloop_data user_data : ℕ) → NsState → ℤ × NsState
unfolding ns_insert
ns_register_timeout env ctx secs usecs handler eloop_data user_data s =
    let c = s.contexts ctx in
    let new : NsTimeout = record {
      time = deadline (env.get_time (suc s.io)) secs usecs;
      eloop_data = eloop_data;
      user_data = user_data;
      handler = handler;
    } in
    if env.malloc s.io
    then (
      pos 0,
      put_context ctx (record c { timeout = ns_insert new c.timeout })
          (record s { io = suc (suc s.io) }),
    )
    else (negsuc 0, record s { io = suc s.io })

-- The test of `eloop_cancel_timeout`.
unfoldable pub ns_matches : (handler eloop_data user_data : ℕ) → NsTimeout → Bool
ns_matches handler eloop_data user_data t =
    t.handler == handler
    && ((t.eloop_data == eloop_data || eloop_data == all_ctx)
        && (t.user_data == user_data || user_data == all_ctx))

-- The loop of `eloop_cancel_timeout`: the nodes that stay, and how many are removed.
unfoldable pub ns_cancel_loop :
    (handler eloop_data user_data : ℕ) → List NsTimeout → List NsTimeout × ℕ
unfolding ns_matches
ns_cancel_loop handler eloop_data user_data [] = ([], 0)
ns_cancel_loop handler eloop_data user_data (t ∷ rest) =
    let (kept, removed) = ns_cancel_loop handler eloop_data user_data rest in
    if ns_matches handler eloop_data user_data t then (kept, suc removed) else (t ∷ kept, removed)

-- `eloop_cancel_timeout`
unfoldable pub ns_cancel_timeout : (ctx handler eloop_data user_data : ℕ) → NsState → ℕ × NsState
unfolding ns_cancel_loop
ns_cancel_timeout ctx handler eloop_data user_data s =
    let c = s.contexts ctx in
    let (kept, removed) = ns_cancel_loop handler eloop_data user_data c.timeout in
    (removed, put_context ctx (record c { timeout = kept }) s)

-- `eloop_handle_signal`: signals go to the first context.
unfoldable pub ns_handle_signal : (sig : ℕ) → NsState → NsState
ns_handle_signal sig s =
    let c = s.contexts 0 in
    let ends = (sig == sig_int || sig == sig_term) && not c.pending_terminate in
    put_context 0
      (record c {
        pending_terminate = ends || c.pending_terminate;
        signaled = suc c.signaled;
        signals = note_signal sig c.signals;
      })
      (if ends then record s { alarm = 2 } else s)

-- `eloop_register_signal`
unfoldable pub ns_register_signal : NsEnv → (ctx sig handler user_data : ℕ) → NsState → ℤ × NsState
ns_register_signal env ctx sig handler user_data s =
    let c = s.contexts ctx in
    let new : Signal = record {
      sig = sig;
      user_data = user_data;
      handler = handler;
      signaled = 0;
    } in
    if env.realloc s.io
    then (
      pos 0,
      put_context ctx (record c { signals = c.signals ++ new ∷ [] }) (record s { io = suc s.io }),
    )
    else (negsuc 0, record s { io = suc s.io })

-- `eloop_terminate`
unfoldable pub ns_terminate : (ctx : ℕ) → NsState → NsState
ns_terminate ctx s = put_context ctx (record (s.contexts ctx) { terminate = true }) s

unfoldable pub ns_perform : NsEnv → NsCall → NsState → NsState
unfolding ns_register_timeout ns_cancel_timeout ns_register_signal ns_handle_signal ns_terminate
ns_perform env (ns_register ctx secs usecs handler eloop_data user_data) s =
    (ns_register_timeout env ctx secs usecs handler eloop_data user_data s).1
ns_perform env (ns_cancel ctx handler eloop_data user_data) s =
    (ns_cancel_timeout ctx handler eloop_data user_data s).1
ns_perform env (ns_register_sig ctx sig handler user_data) s =
    (ns_register_signal env ctx sig handler user_data s).1
ns_perform env (ns_deliver sig) s = ns_handle_signal sig s
ns_perform env (ns_stop ctx) s = ns_terminate ctx s

unfoldable pub ns_perform_all : NsEnv → List NsCall → NsState → NsState
unfolding ns_perform
ns_perform_all env [] s = s
ns_perform_all env (c ∷ cs) s = ns_perform_all env cs (ns_perform env c s)

-- The call of a handler.
unfoldable pub ns_invoke : NsEnv → Invocation → NsState → NsState
unfolding ns_perform_all
ns_invoke env inv s =
    ns_perform_all env (env.callback s.io inv) (record s { io = suc s.io; trace = inv ∷ s.trace })
