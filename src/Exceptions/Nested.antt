-- ===== src/Exceptions/Nested.antt =====
-- An event loop inside a handler of another, as eloop_run and its calls of handlers use the table of
-- eloop/cexceptNew.c.
use event_loop.Exceptions.{
  ThreadState, findstate, allocstate, freestate, set_penv, penv_at, new_thread_context, thrown,
  jumps_to_null, sighandler,
}
use event_loop.Exceptions.Bag.{states_of}
use event_loop.Prelude.{
  ◌==◌, ==_iff, Bool-cases, Option-cases, ℕ, suc, ◌<◌, ◌≡◌, refl, ap, ◌∙◌, inl, inr, true, false,
  Option, none, some, List, [], ◌∷◌, arith,
}

-- A loop that begins and ends within the body of a Try: NEW_THREAD_EXCEPT_CONTEXT and
-- DEL_THREAD_EXCEPT_CONTEXT, with handlers between that leave the table as it was.
abbrev pub inner_run : (tid : ℕ) → List ThreadState → List ThreadState
inner_run tid ss = freestate tid (new_thread_context tid ss)

-- A state of another thread in front makes no difference to a signal.
sighandler-behind :
    (tid signum : ℕ) (s : ThreadState) (ss : List ThreadState)
    → (s.pid == tid) ≡ false
    → sighandler tid signum (s ∷ ss) ≡ sighandler tid signum ss
unfolding sighandler findstate penv_at
sighandler-behind tid signum s ss h = elim (Option-cases (findstate tid ss)) [
  | inl e ↦ rw (h, sighandler) (rw (e, sighandler) refl)
  | inr (i, e) ↦ rw (h, sighandler) (rw (e, sighandler) refl)
]

-- NEW_THREAD_EXCEPT_CONTEXT behind its allocstate.
abbrev with_penv : Option ℕ × List ThreadState → List ThreadState
with_penv (i, ss) = elim i [ none ↦ ss | some k ↦ set_penv k 0 ss ]

with_penv-behind :
    (s : ThreadState) (i : Option ℕ) (ss : List ThreadState)
    → with_penv (elim i as (λ _. Option ℕ) [ none ↦ none | some k ↦ some (suc k) ], s ∷ ss)
      ≡ s ∷ with_penv (i, ss)
unfolding set_penv
with_penv-behind s none ss = refl
with_penv-behind s (some i) ss = refl

allocstate-behind :
    (tid : ℕ) (s : ThreadState) (ss : List ThreadState)
    → (s.pid == 0) ≡ false
    → allocstate tid (s ∷ ss) ≡ (
      elim (allocstate tid ss).0 as (λ _. Option ℕ) [ none ↦ none | some k ↦ some (suc k) ],
      s ∷ (allocstate tid ss).1,
    )
unfolding allocstate
allocstate-behind tid s ss h = rw h refl

new_thread-first :
    (tid : ℕ) (s : ThreadState) (ss : List ThreadState)
    → (s.pid == 0) ≡ true
    → new_thread_context tid (s ∷ ss) ≡ record { pid = tid; penv = 0 } ∷ ss
unfolding new_thread_context allocstate set_penv
new_thread-first tid s ss h =
    let e : allocstate tid (s ∷ ss) ≡ (some 0, record { pid = tid; penv = s.penv } ∷ ss) =
      rw h refl in
    ap (λ (r : Option ℕ × List ThreadState). with_penv r) e

new_thread-behind :
    (tid : ℕ) (s : ThreadState) (ss : List ThreadState)
    → (s.pid == 0) ≡ false
    → new_thread_context tid (s ∷ ss) ≡ s ∷ new_thread_context tid ss
unfolding new_thread_context set_penv
new_thread-behind tid s ss h =
    ap with_penv (allocstate-behind tid s ss h)
    ∙ with_penv-behind s ((allocstate tid ss).0) ((allocstate tid ss).1)

-- A signal in a thread that has just taken its first state, and that is in no Try.
fresh-jumps :
    (tid signum : ℕ) (ss : List ThreadState)
    → (tid == 0) ≡ false
    → states_of tid ss ≡ 0
    → 0 < states_of 0 ss
    → sighandler tid signum (new_thread_context tid ss) ≡ jumps_to_null
unfolding sighandler findstate penv_at
fresh-jumps tid signum [] h k l = absurd (omega arith)
fresh-jumps tid signum (s ∷ ss) h k l = elim (Bool-cases (s.pid == 0)) [
  | inl e ↦
      let self : (tid == tid) ≡ true = (==_iff tid tid).1 refl in
      rw (new_thread-first tid s ss e) (rw (self, sighandler) refl)
  | inr e ↦ rw (new_thread-behind tid s ss e) (
      sighandler-behind tid signum s (new_thread_context tid ss) (ground arith)
      ∙ fresh-jumps tid signum ss h (ground arith) (ground arith))
]

-- In the body of a Try, whose thread has the first state and no other, a signal is thrown to this Try;
-- but once another loop has begun and ended in the body, for which there is a state, the signal's handler
-- jumps to NULL: the inner loop has given back the state of the outer one.
pub sighandler-nested :
    (tid env signum : ℕ) (ss : List ThreadState)
    → (tid == 0) ≡ false
    → (env == 0) ≡ false
    → states_of tid ss ≡ 0
    → 0 < states_of 0 ss
    → (sighandler tid signum (record { pid = tid; penv = env } ∷ ss) ≡ thrown env signum)
      × (sighandler tid signum (inner_run tid (record { pid = tid; penv = env } ∷ ss))
          ≡ jumps_to_null)
unfolding sighandler findstate penv_at freestate
sighandler-nested tid env signum ss h k l m =
    let self : (tid == tid) ≡ true = (==_iff tid tid).1 refl in
    let apart : (0 == tid) ≡ false = ground arith in
    (
      rw (self, sighandler) (rw (k, sighandler) refl),
      rw (new_thread-behind tid record { pid = tid; penv = env } ss h) (
          rw (self, freestate)
            (sighandler-behind tid signum record { pid = 0; penv = env } (new_thread_context tid ss)
                apart
              ∙ fresh-jumps tid signum ss h l m)),
    )
