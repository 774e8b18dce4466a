-- ===== src/Timers/Frame.antt =====
-- The functions on timeouts touch the queue and the watchdog, and nothing else of the loop.
use event_loop.Clock.{eloop_time_update, eloop_time_change0, eloop_time_change_auto}
use event_loop.Eloop.{Timeout, WdtCommand, stop_wdt, Eloop, Env}
use event_loop.Prelude.{
  ◌==◌, if◌then◌else◌, Bool-cases, if-keeps, ℕ, suc, inl, inr, Bool, ◌||◌, Option, none, some, List,
  [], ◌∷◌,
}
use event_loop.Prelude.Int.{ℤ}
use event_loop.Time.{OsTime}
use event_loop.Timers.{
  insert, first_wdt, mark, follow, on_register_wdt, on_unregister_wdt, eloop_register_timeout0,
  matches, cancel_loop, eloop_cancel_timeout0,
}
use event_loop.Timers.Register.{new_node}

-- `P` does not speak of the queue, the watchdog or the count of questions to the outside.
abbrev pub IsRetimed : (Eloop → Type 0) → Type 0
IsRetimed P =
    (xs : List Timeout) (current : ℕ) (commands : List WdtCommand) (n : ℕ) (e : Eloop)
    → P e
    → P (record e { timeout = xs; timeout_current_wdt = current; wdt = commands; io = n })

module _ {P : Eloop → Type 0} (r : IsRetimed P) where
  follow-keeps : (env : Env) (t : Timeout) (e : Eloop) → P e → P (follow env t e)
  unfolding follow
  follow-keeps env t e h = r e.timeout _ _ _ e h

  on_register-keeps :
      (env : Env) (addr secs usecs : ℕ) (e : Eloop)
      → P e
      → P (on_register_wdt env addr secs usecs e)
  unfolding on_register_wdt
  on_register-keeps env addr secs usecs e h =
      if-keeps P (e.timeout_current_wdt == 0) _ _ (r _ _ _ e.io e h)
        (found (first_wdt (mark addr e.timeout)))
    where
      e' : Eloop
      e' = record e { timeout = mark addr e.timeout }

      h' : P e'
      h' = r (mark addr e.timeout) e.timeout_current_wdt e.wdt e.io e h

      found :
          (o : Option Timeout)
          → P (elim o [ none ↦ e' | some t ↦ if t.addr == addr then follow env t e' else e' ])
      found none = h'
      found (some t) =
          if-keeps P (t.addr == addr) (follow env t e') e' (follow-keeps env t e' h') h'

  on_unregister-keeps :
      (env : Env) (t : Timeout) (rest : List Timeout) (e : Eloop)
      → P e
      → P (on_unregister_wdt env t rest e)
  unfolding on_unregister_wdt
  on_unregister-keeps env t rest e h =
      if-keeps P (e.timeout_current_wdt == 0) e _ h
        (if-keeps P (e.timeout_current_wdt == t.addr) _ e (next (first_wdt rest)) h)
    where
      next :
          (o : Option Timeout)
          → P (elim o [
            | none ↦ record e { wdt = stop_wdt e.user_data ∷ e.wdt; timeout_current_wdt = 0 }
            | some n ↦ follow env n e
          ])
      next none = r e.timeout _ _ e.io e h
      next (some n) = follow-keeps env n e h

  pub register_timeout0-keeps :
      (env : Env) (secs usecs handler eloop_data user_data : ℕ) (is_wd : Bool) (e : Eloop)
      → P e
      → P (eloop_register_timeout0 env secs usecs handler eloop_data user_data is_wd e).1
  unfolding eloop_register_timeout0
  register_timeout0-keeps env secs usecs handler eloop_data user_data is_wd e h =
      if-keeps (λ (p : ℤ × Eloop). P p.1) (env.malloc e.io == 0) _ _
        (r e.timeout e.timeout_current_wdt e.wdt (suc e.io) e h)
        (if-keeps P is_wd _ _ (on_register-keeps env _ secs usecs _ queued) queued)
    where
      queued : P (record e {
        io = suc (suc e.io);
        timeout = insert (new_node env secs usecs handler eloop_data user_data is_wd e) e.timeout;
      })
      queued = r _ e.timeout_current_wdt e.wdt (suc (suc e.io)) e h

  cancel_loop-keeps :
      (env : Env) (handler eloop_data user_data : ℕ) (is_wd : Bool) (xs : List Timeout) (e : Eloop)
      → P e
      → P (cancel_loop env handler eloop_data user_data is_wd xs e).2
  unfolding cancel_loop
  cancel_loop-keeps env handler eloop_data user_data is_wd [] e h = h
  cancel_loop-keeps env handler eloop_data user_data is_wd (t ∷ rest) e h =
      elim (Bool-cases (matches handler eloop_data user_data t)) [
        | inl gone ↦
            rw (gone, cancel_loop)
              (cancel_loop-keeps env handler eloop_data user_data is_wd rest
                (if t.is_wd_timeout || is_wd then on_unregister_wdt env t rest e else e)
                (if-keeps P (t.is_wd_timeout || is_wd) (on_unregister_wdt env t rest e) e
                  (on_unregister-keeps env t rest e h) h))
        | inr stays ↦
            rw (stays, cancel_loop)
              (cancel_loop-keeps env handler eloop_data user_data is_wd rest e h)
      ]

  pub cancel_timeout0-keeps :
      (env : Env) (handler eloop_data user_data : ℕ) (is_wd : Bool) (e : Eloop)
      → P e
      → P (eloop_cancel_timeout0 env handler eloop_data user_data is_wd e).1
  unfolding eloop_cancel_timeout0
  cancel_timeout0-keeps env handler eloop_data user_data is_wd e h =
      let e' : Eloop = (cancel_loop env handler eloop_data user_data is_wd e.timeout e).2 in
      r _ e'.timeout_current_wdt e'.wdt e'.io e'
        (cancel_loop-keeps env handler eloop_data user_data is_wd e.timeout e h)

  pub time_change_auto-keeps :
      (bits : ℕ) (t1 t0 : ℤ) (new prev : OsTime) (e : Eloop)
      → P e
      → P (eloop_time_change_auto bits t1 t0 new prev e)
  unfolding eloop_time_change_auto eloop_time_change0 eloop_time_update
  time_change_auto-keeps bits t1 t0 new prev e h =
      if-keeps P _ e _ h (if-keeps P _ e _ h (r _ e.timeout_current_wdt e.wdt e.io e h))
