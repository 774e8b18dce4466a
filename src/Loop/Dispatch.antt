-- ===== src/Loop/Dispatch.antt =====
-- A dispatch ends: the fuel for its entries is enough, whatever calls the handlers make,
-- none of which runs the loop again.
use mathlib.Core.Bool.{false≢true}
use event_loop.Eloop.{Sock, EventType, read, write, exception, unknown, Eloop, Env}
use event_loop.Handlers.{Outcome, returned, exited, stuck, ◌>>=◌, call_eloop_sock_handler}
use event_loop.Loop.{
  clear_changed, table_changed, table_entries, dispatch_loop, is_null, eloop_sock_table_dispatch,
}
use event_loop.Loop.Changed.{Unless, Unless-IsKept}
use event_loop.Loop.Invariant.{Ends, sock_handler-keeps}
use event_loop.Prelude.{
  Bool-cases, Option-cases, if-keeps, length, get_elem?, ℕ, zero, suc, ◌+◌, ◌≤◌, ◌<◌, ◌≡◌, refl,
  sym, ◌∙◌, inl, inr, Bool, true, false, some, List, [], ◌∷◌, arith,
}
use event_loop.Socks.{FdSet}

get_elem?-lt : (xs : List Sock) (i : ℕ) (x : Sock) → get_elem? xs i ≡ some x → i < length xs
get_elem?-lt [] i x h = ground arith
get_elem?-lt (y ∷ xs) zero x h = omega arith
get_elem?-lt (y ∷ xs) (suc i) x h = omega (arith, get_elem?-lt xs i x h)

-- The outcome is not for want of fuel.
abbrev pub IsDone : {A : Type 0} → Outcome A → Type 0
IsDone (returned a e) = Unit
IsDone (exited code e) = Unit
IsDone (stuck e) = ⊥

-- A call of a handler ends, and what comes behind it ends wherever the handler leaves the loop.
pub >>=-IsDone :
    {A B : Type 0} (P : Eloop → Type 0) (m : Outcome A) (f : A → Eloop → Outcome B)
    → IsDone m
    → Ends P m
    → ((a : A) (e : Eloop) → P e → IsDone (f a e))
    → IsDone (m >>= f)
>>=-IsDone P (returned a e) f d h k = k a e h
>>=-IsDone P (exited code e) f d h k = tt
>>=-IsDone P (stuck e) f d h k = d

sock_handler-IsDone : (env : Env) (s : Sock) (e : Eloop) → IsDone (call_eloop_sock_handler env s e)
unfolding call_eloop_sock_handler
sock_handler-IsDone env s e = ground arith

true-false : {b : Bool} → b ≡ true → b ≡ false → ⊥
true-false h k = false≢true (sym k ∙ h)

dispatch_loop-IsDone :
    (env : Env) (type : EventType) (fds : FdSet) (fuel i : ℕ) (e : Eloop)
    → i ≤ length (table_entries type e)
    → length (table_entries type e) < i + fuel
    → IsDone (dispatch_loop env type fds fuel i e)
unfolding dispatch_loop
dispatch_loop-IsDone env type fds zero i e le enough = absurd (omega arith)
dispatch_loop-IsDone env type fds (suc fuel) i e le enough =
    elim (Option-cases (get_elem? (table_entries type e) i)) [
      | inl end ↦ rw (dispatch_loop, end) tt
      | inr (s, present) ↦
          let xs = table_entries type e in
          let lt : i < length xs = get_elem?-lt xs i s present in
          elim (Bool-cases (fds s.sock)) [
            | inl ready ↦
                rw (dispatch_loop, present, ready)
                  (>>=-IsDone (Unless type xs) (call_eloop_sock_handler env s e) _
                    (sock_handler-IsDone env s e)
                    (sock_handler-keeps (Unless-IsKept env type xs) s e (inr refl))
                    (λ a e' u. elim (Bool-cases (table_changed type e')) [
                      | inl changed ↦ rw changed tt
                      | inr same ↦ elim u [
                        | inl changed ↦ absurd (true-false changed same)
                        | inr kept ↦ rw same (
                            dispatch_loop-IsDone env type fds fuel (suc i) e'
                              (rw kept (omega (arith, lt))) (rw kept (omega (arith, enough))))
                      ]
                    ]))
            | inr idle ↦
                rw (dispatch_loop, present, idle)
                  (dispatch_loop-IsDone env type fds fuel (suc i) e (omega (arith, lt))
                    (omega (arith, enough)))
          ]
    ]

settled-entries :
    (type : EventType) (e : Eloop)
    → table_entries type (clear_changed type e) ≡ table_entries type e
unfolding clear_changed
settled-entries read e = refl
settled-entries write e = refl
settled-entries exception e = refl
settled-entries unknown e = refl

-- A dispatch has enough fuel: it returns, or the process exits, whatever calls of
-- eloop.h the handlers make; none of them runs the loop again by eloop_run.
pub dispatch-IsDone :
    (env : Env) (type : EventType) (fds : FdSet) (e : Eloop)
    → IsDone (eloop_sock_table_dispatch env type fds e)
unfolding eloop_sock_table_dispatch
dispatch-IsDone env type fds e = if-keeps IsDone (is_null type e) _ _ tt (
    dispatch_loop-IsDone env type fds (suc (length (table_entries type e))) 0 (clear_changed type e)
      (omega arith) (rw (settled-entries type e) (omega arith)))
