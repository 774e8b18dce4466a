-- ===== src/Timers.antt =====
-- The timeout queue of eloop/eloop.c and the watchdog that follows its first watchdog timeout.
pub mod Order
pub mod Cancel
pub mod Watchdog
pub mod Register
pub mod Frame
use event_loop.Eloop.{Timeout, start_wdt, restart_wdt, stop_wdt, Eloop, Env, all_ctx, next_io}
use event_loop.Prelude.{
  ◌==◌, if◌then◌else◌, ℕ, suc, Bool, true, false, ◌&&◌, ◌||◌, Option, none, some, List, [], ◌∷◌,
}
use event_loop.Prelude.Int.{ℤ, pos, negsuc}
use event_loop.Time.{os_time_before, get_time_left, deadline}

-- The loop of `eloop_register_timeout0`: a new node goes before the first one it is earlier than.
unfoldable pub insert : Timeout → List Timeout → List Timeout
insert new [] = new ∷ []
insert new (t ∷ rest) =
    if os_time_before new.time t.time then new ∷ t ∷ rest else t ∷ insert new rest

-- The loops that look for the next node with `bIsWDTimeout`.
unfoldable pub first_wdt : List Timeout → Option Timeout
first_wdt [] = none
first_wdt (t ∷ rest) = if t.is_wd_timeout then some t else first_wdt rest

-- `timeout->bIsWDTimeout=1` on the node at `addr`.
unfoldable pub mark : ℕ → List Timeout → List Timeout
mark addr [] = []
mark addr (t ∷ rest) =
    (if t.addr == addr then record t { is_wd_timeout = true } else t) ∷ mark addr rest

-- `GetTimeLeft` of the node, `eloop_restartWDT`, and the node as the current one.
unfoldable pub follow : Env → Timeout → Eloop → Eloop
follow env t e = record e {
  io = suc e.io;
  wdt = restart_wdt e.user_data (get_time_left (env.get_time e.io) t.time) ∷ e.wdt;
  timeout_current_wdt = t.addr;
}

-- `OnRegisterWDT`
unfoldable pub on_register_wdt : Env → ℕ → ℕ → ℕ → Eloop → Eloop
unfolding first_wdt mark follow
on_register_wdt env addr secs usecs e =
    let e' : Eloop = record e { timeout = mark addr e.timeout } in
    if e.timeout_current_wdt == 0
    then record e' { wdt = start_wdt e.user_data secs usecs ∷ e.wdt; timeout_current_wdt = addr }
    else elim (first_wdt e'.timeout) [
      | none ↦ e'
      | some t ↦ if t.addr == addr then follow env t e' else e'
    ]

-- `OnUnregisterWDT`, on a node with the nodes behind it. The node is freed next, so the flag that
-- the function clears in it is of no consequence.
unfoldable pub on_unregister_wdt : Env → Timeout → List Timeout → Eloop → Eloop
unfolding first_wdt follow
on_unregister_wdt env t rest e =
    if e.timeout_current_wdt == 0
    then e
    else if e.timeout_current_wdt == t.addr
    then elim (first_wdt rest) [
      | none ↦ record e { wdt = stop_wdt e.user_data ∷ e.wdt; timeout_current_wdt = 0 }
      | some n ↦ follow env n e
    ]
    else e

-- `eloop_register_timeout0`
unfoldable pub eloop_register_timeout0 :
    Env → (secs usecs handler eloop_data user_data : ℕ) → Bool → Eloop → ℤ × Eloop
unfolding insert on_register_wdt
eloop_register_timeout0 env secs usecs handler eloop_data user_data is_wd e =
    let addr = env.malloc e.io in
    if addr == 0 then (negsuc 0, next_io e) else (
      pos 0,
      let new : Timeout = record {
        addr = addr;
        time = deadline (env.get_time (suc e.io)) secs usecs;
        eloop_data = eloop_data;
        user_data = user_data;
        is_wd_timeout = is_wd;
        handler = handler;
      } in
          let e' : Eloop = record e { io = suc (suc e.io); timeout = insert new e.timeout } in
          if is_wd then on_register_wdt env addr secs usecs e' else e',
    )

-- The test of `eloop_cancel_timeout0`.
unfoldable pub matches : (handler eloop_data user_data : ℕ) → Timeout → Bool
matches handler eloop_data user_data t =
    t.handler == handler
    && (t.eloop_data == eloop_data || eloop_data == all_ctx)
    && (t.user_data == user_data || user_data == all_ctx)

-- The loop of `eloop_cancel_timeout0`: the nodes that stay, and how many are removed.
unfoldable pub cancel_loop :
    Env
    → (handler eloop_data user_data : ℕ) → Bool
    → List Timeout
    → Eloop
    → List Timeout × ℕ × Eloop
unfolding matches on_unregister_wdt
cancel_loop env handler eloop_data user_data is_wd [] e = ([], 0, e)
cancel_loop env handler eloop_data user_data is_wd (t ∷ rest) e =
    elim (matches handler eloop_data user_data t) [
      | true ↦
          let e' : Eloop = if t.is_wd_timeout || is_wd then on_unregister_wdt env t rest e else e in
          let (kept, removed, e'') = cancel_loop env handler eloop_data user_data is_wd rest e' in
          (kept, suc removed, e'')
      | false ↦
          let (kept, removed, e'') = cancel_loop env handler eloop_data user_data is_wd rest e in
          (t ∷ kept, removed, e'')
    ]

-- `eloop_cancel_timeout0`
unfoldable pub eloop_cancel_timeout0 :
    Env → (handler eloop_data user_data : ℕ) → Bool → Eloop → ℕ × Eloop
unfolding cancel_loop
eloop_cancel_timeout0 env handler eloop_data user_data is_wd e =
    let (kept, removed, e') = cancel_loop env handler eloop_data user_data is_wd e.timeout e in
    (removed, record e' { timeout = kept })

unfoldable pub eloop_register_timeout :
    Env → (secs usecs handler eloop_data user_data : ℕ) → Eloop → ℤ × Eloop
unfolding eloop_register_timeout0
eloop_register_timeout env secs usecs handler eloop_data user_data e =
    eloop_register_timeout0 env secs usecs handler eloop_data user_data false e

unfoldable pub eloop_cancel_timeout : Env → (handler eloop_data user_data : ℕ) → Eloop → ℕ × Eloop
unfolding eloop_cancel_timeout0
eloop_cancel_timeout env handler eloop_data user_data e =
    eloop_cancel_timeout0 env handler eloop_data user_data false e

unfoldable pub eloop_register_watchdog_timeout :
    Env → (secs usecs eloop_data user_data : ℕ) → Eloop → ℤ × Eloop
unfolding eloop_register_timeout0
eloop_register_watchdog_timeout env secs usecs eloop_data user_data e =
    eloop_register_timeout0 env secs usecs env.wdt_handler eloop_data user_data true e

unfoldable pub eloop_cancel_watchdog_timeout : Env → (eloop_data user_data : ℕ) → Eloop → ℕ × Eloop
unfolding eloop_cancel_timeout0
eloop_cancel_watchdog_timeout env eloop_data user_data e =
    eloop_cancel_timeout0 env env.wdt_handler eloop_data user_data true e
