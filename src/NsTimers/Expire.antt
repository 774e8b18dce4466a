-- ===== src/NsTimers/Expire.antt =====
-- The functions of ns_support/ns_timer_support.c that the program's own loop calls.
use mathlib.Core.Option
use event_loop.Clock.{to_unsigned}
use event_loop.Eloop.{timeout_call, signal_call}
use event_loop.Loop.{clear_signal}
use event_loop.NsTimers.{NsTimeout, NsState, NsEnv, put_context, ns_invoke}
use event_loop.Prelude.{
  ◌==◌, if◌then◌else◌, get_elem?, ℕ, zero, suc, ◌+◌, ◌*◌, ◌/◌, true, false, Option, none, some,
  List, [], ◌∷◌,
}
use event_loop.Prelude.Int.{ℤ, pos, negsuc, sub_ℕ, ◌+ℤ◌, leb_ℤ}
use event_loop.Time.{OsTime, zero_time, os_time_before, os_time_sub}

-- The loop of `eloop_process_pending_signals` from entry `i`; `none` where the fuel runs out.
unfoldable pub ns_signal_loop : NsEnv → (ctx fuel i : ℕ) → NsState → Option NsState
unfolding ns_invoke clear_signal
ns_signal_loop env ctx zero i s = none
ns_signal_loop env ctx (suc fuel) i s = elim (get_elem? (s.contexts ctx).signals i) [
  | none ↦ some s
  | some g ↦ elim (g.signaled == 0) [
    | true ↦ ns_signal_loop env ctx fuel (suc i) s
    | false ↦
        let c = s.contexts ctx in
        ns_signal_loop env ctx fuel (suc i) (
          ns_invoke env (signal_call g.handler g.sig c.user_data g.user_data)
            (put_context ctx (record c { signals = clear_signal i c.signals }) s))
  ]
]

-- `eloop_process_pending_signals`
unfoldable pub ns_process_pending_signals : NsEnv → (ctx fuel : ℕ) → NsState → Option NsState
unfolding ns_signal_loop
ns_process_pending_signals env ctx fuel s =
    let c = s.contexts ctx in
    if c.signaled == 0
    then some s
    else ns_signal_loop env ctx fuel 0 (
        put_context ctx (record c { signaled = 0; pending_terminate = false })
          (if c.pending_terminate then record s { alarm = 0 } else s))

-- `get_eloop_timeval`, for the queue of a context.
unfoldable pub get_eloop_timeval : (now : OsTime) → List NsTimeout → OsTime
get_eloop_timeval now [] = record { sec = pos 0x7ffffff; usec = pos 0 }
get_eloop_timeval now (t ∷ rest) =
    if os_time_before now t.time then os_time_sub t.time now else zero_time

-- A second's milliseconds, and the whole milliseconds of microseconds, as C computes them.
abbrev pub times_1000 : ℤ → ℤ
times_1000 (pos n) = pos (n * 1000)
times_1000 (negsuc n) = negsuc (n * 1000 + 999)

abbrev pub over_1000 : ℤ → ℤ
over_1000 (pos n) = pos (n / 1000)
over_1000 (negsuc n) = sub_ℕ 0 (suc n / 1000)

-- `find_nearest_timeout_ms`
unfoldable pub find_nearest_timeout_ms : (now : OsTime) → List NsTimeout → ℕ
unfolding get_eloop_timeval to_unsigned
find_nearest_timeout_ms now xs =
    let tv = get_eloop_timeval now xs in
    if leb_ℤ (pos 0x7ffffff) tv.sec
    then 0xffffffff
    else to_unsigned 32 (times_1000 tv.sec +ℤ over_1000 tv.usec)

-- The part of `expire_timers` behind the pending signals, for the queue of the context.
unfoldable pub expire_first : NsEnv → (ctx : ℕ) → List NsTimeout → NsState → ℕ × NsState
unfolding ns_invoke
expire_first env ctx [] s = (0, s)
expire_first env ctx (t ∷ rest) s =
    if os_time_before (env.get_time s.io) t.time then (0, record s { io = suc s.io }) else (
      1,
      ns_invoke env (timeout_call t.handler t.eloop_data t.user_data) (
          put_context ctx (record (s.contexts ctx) { timeout = rest })
            (record s { io = suc s.io })),
    )

-- `expire_timers`
unfoldable pub expire_timers : NsEnv → (ctx fuel : ℕ) → NsState → Option (ℕ × NsState)
unfolding ns_process_pending_signals expire_first
expire_timers env ctx fuel s =
    Option.map (λ (s' : NsState). expire_first env ctx (s'.contexts ctx).timeout s')
      (ns_process_pending_signals env ctx fuel s)
