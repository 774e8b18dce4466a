-- ===== src/NsTimers/Contexts.antt =====
-- A context is not touched by what is done to another.
use event_loop.NsTimers.{
  NsState, NsCall, ns_register, ns_cancel, ns_register_sig, ns_deliver, ns_stop, NsEnv, ns_perform,
}
use event_loop.Prelude.{◌==◌, ℕ, ◌≡◌, ◌≢◌, false, arith}

-- The context that a call changes; signals go to the first one.
abbrev pub touched : NsCall → ℕ
touched (ns_register ctx secs usecs handler eloop_data user_data) = ctx
touched (ns_cancel ctx handler eloop_data user_data) = ctx
touched (ns_register_sig ctx sig handler user_data) = ctx
touched (ns_deliver sig) = 0
touched (ns_stop ctx) = ctx

other_context : (a b : ℕ) → a ≢ b → (a == b) ≡ false
other_context a b h = ground arith

-- A call leaves every other context as it is.
pub ns_perform-other :
    (env : NsEnv) (c : NsCall) (s : NsState) (other : ℕ)
    → other ≢ touched c
    → (ns_perform env c s).contexts other ≡ s.contexts other
unfolding ns_perform
ns_perform-other env (ns_register ctx secs usecs handler eloop_data user_data) s other h =
    ground arith
ns_perform-other env (ns_cancel ctx handler eloop_data user_data) s other h = ground arith
ns_perform-other env (ns_register_sig ctx sig handler user_data) s other h = ground arith
ns_perform-other env (ns_deliver sig) s other h = ground arith
ns_perform-other env (ns_stop ctx) s other h = ground arith
