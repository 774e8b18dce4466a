-- ===== src/Timers/Register.antt =====
-- `eloop_register_timeout`: the node that is queued, the failure, and what the watchdog does.
use event_loop.Eloop.{Timeout, Eloop, Env}
use event_loop.Prelude.{
  Bool-cases, Option-cases, ℕ, suc, ◌≡◌, refl, sym, ◌≢◌, ◌⊎◌, inl, inr, Bool, true, false, none,
  some, List, [], ◌∷◌, arith,
}
use event_loop.Prelude.Int.{ℤ, pos, negsuc}
use event_loop.Time.{os_time_before, deadline}
use event_loop.Timers.{insert, first_wdt, mark, on_register_wdt, eloop_register_timeout0}
use event_loop.Timers.Watchdog.{IsFresh, Distinct, Follows, first_addr-fresh, first_wdt-addr}

mark-insert :
    (new : Timeout) (xs : List Timeout)
    → new.is_wd_timeout ≡ true
    → IsFresh new.addr xs
    → mark new.addr (insert new xs) ≡ insert new xs
unfolding mark insert
mark-insert new [] wd h = ground arith
mark-insert new (t ∷ xs) wd h =
    ground (arith, mark-insert new xs wd h.1, mark-fresh new.addr xs h.1)
  where
    mark-fresh : (addr : ℕ) (xs : List Timeout) → IsFresh addr xs → mark addr xs ≡ xs
    mark-fresh addr [] h = refl
    mark-fresh addr (t ∷ xs) h = ground (arith, mark-fresh addr xs h.1)

Distinct-insert :
    (new : Timeout) (xs : List Timeout)
    → new.addr ≢ 0
    → IsFresh new.addr xs
    → Distinct xs
    → Distinct (insert new xs)
unfolding insert
Distinct-insert new [] nz fresh d = (nz, tt, tt)
Distinct-insert new (t ∷ xs) nz fresh d = elim (Bool-cases (os_time_before new.time t.time)) [
  | inl earlier ↦ rw earlier (nz, fresh, d)
  | inr other ↦ rw other (d.0, IsFresh-insert xs d.1, Distinct-insert new xs nz fresh.1 d.2)
]
  where
    IsFresh-insert : (ys : List Timeout) → IsFresh t.addr ys → IsFresh t.addr (insert new ys)
    IsFresh-insert [] h = ((λ e. fresh.0 (sym e)), tt)
    IsFresh-insert (y ∷ ys) h = elim (Bool-cases (os_time_before new.time y.time)) [
      | inl earlier ↦ rw earlier ((λ e. fresh.0 (sym e)), h)
      | inr other ↦ rw other (h.0, IsFresh-insert ys h.1)
    ]

-- A new node that is no watchdog timeout does not change which one is first.
first_wdt-insert :
    (new : Timeout) (xs : List Timeout)
    → new.is_wd_timeout ≡ false
    → first_wdt (insert new xs) ≡ first_wdt xs
unfolding insert first_wdt
first_wdt-insert new [] plain = ground arith
first_wdt-insert new (t ∷ xs) plain = ground (arith, first_wdt-insert new xs plain)

-- One that is comes first, or the one that was first still is.
first_wdt-insert_wd :
    (new : Timeout) (xs : List Timeout)
    → new.is_wd_timeout ≡ true
    → (first_wdt (insert new xs) ≡ some new)
      ⊎ ((first_wdt (insert new xs) ≡ first_wdt xs) × (first_wdt xs ≢ none))
unfolding insert first_wdt
first_wdt-insert_wd new [] wd = ground arith
first_wdt-insert_wd new (t ∷ xs) wd = ground (arith, first_wdt-insert_wd new xs wd)

-- The watchdog after `OnRegisterWDT` on a new watchdog timeout in the queue.
on_register-Follows :
    (env : Env) (new : Timeout) (secs usecs : ℕ) (xs : List Timeout) (e : Eloop)
    → new.is_wd_timeout ≡ true
    → new.addr ≢ 0
    → IsFresh new.addr xs
    → Distinct xs
    → Follows xs e
    → e.timeout ≡ insert new xs
    → let e' = on_register_wdt env new.addr secs usecs e in
      (e'.timeout ≡ insert new xs) × Follows (insert new xs) e'
unfolding on_register_wdt
on_register-Follows env new secs usecs xs e wd nz fresh d f queued =
    elim (Option-cases (first_wdt xs)) [
      | inl idle ↦ ground (arith, mark-insert new xs wd fresh, first_wdt-insert_wd new xs wd)
      | inr (n, first) ↦ ground (
        arith,
        mark-insert new xs wd fresh,
        first_wdt-insert_wd new xs wd,
        first_wdt-addr xs n d first,
        first_addr-fresh new.addr xs nz fresh,
      )
    ]

module _ (env : Env) (secs usecs handler eloop_data user_data : ℕ) (is_wd : Bool) (e : Eloop) where
  -- The node that a registration queues.
  abbrev pub new_node : Timeout
  new_node = record {
    addr = env.malloc e.io;
    time = deadline (env.get_time (suc e.io)) secs usecs;
    eloop_data = eloop_data;
    user_data = user_data;
    is_wd_timeout = is_wd;
    handler = handler;
  }

  abbrev registered : ℤ × Eloop
  registered = eloop_register_timeout0 env secs usecs handler eloop_data user_data is_wd e

  -- Without memory a registration returns -1 and changes nothing.
  pub register_timeout-no_memory :
      env.malloc e.io ≡ 0 → registered ≡ (negsuc 0, record e { io = suc e.io })
  unfolding eloop_register_timeout0
  register_timeout-no_memory h = ground arith

  -- With memory at an address that no node has, in a queue of distinct addresses whose first
  -- watchdog timeout the watchdog follows, a registration returns 0, queues the new node in its
  -- place, keeps the addresses distinct and the watchdog with the first watchdog timeout.
  pub register_timeout_lem :
      env.malloc e.io ≢ 0
      → IsFresh (env.malloc e.io) e.timeout
      → Distinct e.timeout
      → Follows e.timeout e
      → (registered.0 ≡ pos 0)
        × (registered.1.timeout ≡ insert new_node e.timeout)
        × Distinct registered.1.timeout
        × Follows registered.1.timeout registered.1
  unfolding eloop_register_timeout0
  register_timeout_lem nz fresh d f =
      let queued : Eloop = record e { io = suc (suc e.io); timeout = insert new_node e.timeout } in
      let distinct = Distinct-insert new_node e.timeout nz fresh d in
      elim (Bool-cases is_wd) [
        | inl wd ↦ ground (
          arith,
          on_register-Follows env new_node secs usecs e.timeout queued wd nz fresh d f refl,
          distinct,
        )
        | inr plain ↦ ground (arith, first_wdt-insert new_node e.timeout plain, distinct)
      ]
