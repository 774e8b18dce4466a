-- ===== src/Timers/Watchdog.antt =====
-- The watchdog device runs exactly while a watchdog timeout waits, and follows the first of them.
use event_loop.Eloop.{Timeout, WdtCommand, start_wdt, restart_wdt, stop_wdt, Eloop, Env}
use event_loop.Prelude.{
  ◌==◌, Bool-cases, Option-cases, All, ℕ, ◌≡◌, refl, sym, ◌≢◌, inl, inr, Bool, true, false, not,
  ◌||◌, none, some, List, [], ◌∷◌, arith,
}
use event_loop.Timers.{first_wdt, on_unregister_wdt, matches, cancel_loop, eloop_cancel_timeout0}

-- The address of the first watchdog timeout, 0 if there is none.
abbrev pub first_addr : List Timeout → ℕ
first_addr xs = elim (first_wdt xs) [ none ↦ 0 | some t ↦ t.addr ]

-- The device runs after these commands, the newest first.
abbrev pub running : List WdtCommand → Bool
running [] = false
running (start_wdt _ _ _ ∷ _) = true
running (restart_wdt _ _ ∷ _) = true
running (stop_wdt _ ∷ _) = false

-- No node of the list is at `addr`.
abbrev pub IsFresh : ℕ → List Timeout → Type 0
IsFresh addr xs = All (λ t. t.addr ≢ addr) xs

-- The nodes have addresses of their own, none of them NULL.
abbrev pub Distinct : List Timeout → Type 0
Distinct [] = Unit
Distinct (t ∷ rest) = (t.addr ≢ 0) × IsFresh t.addr rest × Distinct rest

-- `timeout_currentWDT` is the first watchdog timeout of `xs`, and the device runs if there is one.
abbrev pub Follows : List Timeout → Eloop → Type 0
Follows xs e =
    (e.timeout_current_wdt ≡ first_addr xs) × (running e.wdt ≡ not (e.timeout_current_wdt == 0))

pub first_addr-fresh :
    (addr : ℕ) (xs : List Timeout) → addr ≢ 0 → IsFresh addr xs → first_addr xs ≢ addr
unfolding first_wdt
first_addr-fresh addr [] h k = λ e. h (sym e)
first_addr-fresh addr (t ∷ xs) h k = elim (Bool-cases t.is_wd_timeout) [
  | inl yes' ↦ rw yes' k.0
  | inr no' ↦ rw no' (first_addr-fresh addr xs h k.1)
]

-- A node that is not the current one goes unnoticed.
unregister-other :
    (env : Env) (t : Timeout) (rest : List Timeout) (e : Eloop)
    → t.addr ≢ e.timeout_current_wdt
    → on_unregister_wdt env t rest e ≡ e
unfolding on_unregister_wdt
unregister-other env t rest e h = ground arith

module _ (env : Env) (handler eloop_data user_data : ℕ) (is_wd : Bool) where
  cancel_loop-fresh :
      (xs : List Timeout) (e : Eloop)
      → IsFresh e.timeout_current_wdt xs
      → (cancel_loop env handler eloop_data user_data is_wd xs e).2 ≡ e
  unfolding cancel_loop
  cancel_loop-fresh [] e h = refl
  cancel_loop-fresh (t ∷ rest) e h =
      ground (arith, unregister-other env t rest e h.0, cancel_loop-fresh rest e h.1)

-- A node of the list has the address that is looked for.
pub first_wdt-addr :
    (xs : List Timeout) (n : Timeout) → Distinct xs → first_wdt xs ≡ some n → n.addr ≢ 0
unfolding first_wdt
first_wdt-addr [] n d h = cc
first_wdt-addr (x ∷ xs) n d h = elim (Bool-cases x.is_wd_timeout) [
  | inl wd ↦ let e : n ≡ x = ground arith in rw e d.0
  | inr plain ↦ first_wdt-addr xs n d.2 (simp plain at h)
]

-- When the first node goes, the watchdog moves on to the next watchdog timeout, or stops.
unregister-Follows :
    (env : Env) (t : Timeout) (rest : List Timeout) (e : Eloop)
    → Distinct (t ∷ rest)
    → Follows (t ∷ rest) e
    → Follows rest (on_unregister_wdt env t rest e)
unfolding on_unregister_wdt first_wdt
unregister-Follows env t rest e d f = elim (Bool-cases t.is_wd_timeout) [
  | inl wd ↦ elim (Option-cases (first_wdt rest)) [
    | inl last ↦ ground (arith, first_addr-fresh t.addr rest d.0 d.1)
    | inr (n, next) ↦
        ground (arith, first_addr-fresh t.addr rest d.0 d.1, first_wdt-addr rest n d.2 next)
  ]
  | inr plain ↦ ground (arith, first_addr-fresh t.addr rest d.0 d.1)
]

-- If the first node is no watchdog timeout the watchdog follows the rest.
Follows-tail :
    (t : Timeout) (rest : List Timeout) (e : Eloop)
    → t.is_wd_timeout ≡ false
    → Follows (t ∷ rest) e
    → Follows rest e
unfolding first_wdt
Follows-tail t rest e h f = ground arith

Follows-cons :
    (t : Timeout) (rest : List Timeout) (e : Eloop)
    → t.is_wd_timeout ≡ false
    → Follows rest e
    → Follows (t ∷ rest) e
unfolding first_wdt
Follows-cons t rest e h f = ground arith

-- If it is one, the watchdog is with it, whatever comes behind.
Follows-head :
    (t : Timeout) (rest kept : List Timeout) (e : Eloop)
    → t.is_wd_timeout ≡ true
    → Follows (t ∷ rest) e
    → (e.timeout_current_wdt ≡ t.addr) × Follows (t ∷ kept) e
unfolding first_wdt
Follows-head t rest kept e h f = ground arith

module _ (env : Env) (handler eloop_data user_data : ℕ) (is_wd : Bool) where
  cancel_loop-Follows :
      (xs : List Timeout) (e : Eloop)
      → Distinct xs
      → Follows xs e
      → let (kept, removed, e') = cancel_loop env handler eloop_data user_data is_wd xs e in
        Follows kept e'
  unfolding cancel_loop
  cancel_loop-Follows [] e d f = f
  cancel_loop-Follows (t ∷ rest) e d f =
      let (kept, removed, e') = cancel_loop env handler eloop_data user_data is_wd rest e in
      elim (Bool-cases (matches handler eloop_data user_data t)) [
        | inl gone ↦
            rw (gone, cancel_loop)
              (elim (Bool-cases (t.is_wd_timeout || is_wd)) [
                | inl told ↦ rw told (
                    cancel_loop-Follows rest (on_unregister_wdt env t rest e) d.2
                      (unregister-Follows env t rest e d f))
                | inr untold ↦
                    rw untold
                      (cancel_loop-Follows rest e d.2 (Follows-tail t rest e (ground arith) f))
              ])
        | inr stays ↦
            rw (stays, cancel_loop)
              (elim (Bool-cases t.is_wd_timeout) [
                | inl wd ↦
                    let same = Follows-head t rest rest e wd f in
                    rw
                      (cancel_loop-fresh env handler eloop_data user_data is_wd rest e
                        (rw same.0 d.1))
                      (Follows-head t rest kept e wd f).1
                | inr plain ↦
                    Follows-cons t kept e' plain
                      (cancel_loop-Follows rest e d.2 (Follows-tail t rest e plain f))
              ])
      ]

  -- In a queue of distinct addresses, a cancellation keeps the watchdog with the first watchdog
  -- timeout: the device runs afterwards exactly if one is left.
  pub cancel_timeout-Follows :
      (e : Eloop)
      → Distinct e.timeout
      → Follows e.timeout e
      → let e' = (eloop_cancel_timeout0 env handler eloop_data user_data is_wd e).1 in
        Follows e'.timeout e'
  unfolding eloop_cancel_timeout0
  cancel_timeout-Follows e d f = cancel_loop-Follows e.timeout e d f
