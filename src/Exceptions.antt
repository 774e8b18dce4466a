-- ===== src/Exceptions.antt =====
-- The exceptions of eloop/cexceptNew.c: the table of states, one for each thread that handles exceptions,
-- and the signals that become exceptions. Threads and environments are numbers, 0 is no thread and NULL.
-- Of the library cexcept, which eloop/cexcept.h has a copy of, `penv` is used: Try sets it, Throw jumps
-- to it.
pub mod Bag
pub mod Nested
use event_loop.Prelude.{
  ◌==◌, if◌then◌else◌, replicate, ℕ, zero, suc, Option, none, some, List, [], ◌∷◌,
}

-- `struct thread_state`: its thread, and the `penv` of its context.
pub record ThreadState : Type 0 where
  pub pid : ℕ
  pub penv : ℕ

-- `MAX_THREAD`
abbrev pub max_thread : ℕ
max_thread = 20

abbrev pub unused_state : ThreadState
unused_state = record { pid = 0; penv = 0 }

-- The table behind init_except_handler.
abbrev pub init_states : List ThreadState
init_states = replicate max_thread unused_state

-- findstate: the index of the first state of the thread.
unfoldable pub findstate : (tid : ℕ) → List ThreadState → Option ℕ
findstate tid [] = none
findstate tid (s ∷ ss) =
    if s.pid == tid then some 0 else elim (findstate tid ss) [ none ↦ none | some i ↦ some (suc i) ]

-- allocstate: the index of the state, if one is unused, and the table.
unfoldable pub allocstate : (tid : ℕ) → List ThreadState → Option ℕ × List ThreadState
allocstate tid [] = (none, [])
allocstate tid (s ∷ ss) =
    let (i, ss') = allocstate tid ss in
    if s.pid == 0
    then (some 0, record { pid = tid; penv = s.penv } ∷ ss)
    else (elim i [ none ↦ none | some k ↦ some (suc k) ], s ∷ ss')

-- freestate
unfoldable pub freestate : (tid : ℕ) → List ThreadState → List ThreadState
freestate tid [] = []
freestate tid (s ∷ ss) =
    if s.pid == tid then record { pid = 0; penv = s.penv } ∷ ss else s ∷ freestate tid ss

-- A write to the `penv` of a state.
unfoldable pub set_penv : (index env : ℕ) → List ThreadState → List ThreadState
set_penv i env [] = []
set_penv zero env (s ∷ ss) = record { pid = s.pid; penv = env } ∷ ss
set_penv (suc i) env (s ∷ ss) = s ∷ set_penv i env ss

unfoldable pub penv_at : (index : ℕ) → List ThreadState → ℕ
penv_at i [] = 0
penv_at zero (s ∷ ss) = s.penv
penv_at (suc i) (s ∷ ss) = penv_at i ss

-- NEW_THREAD_EXCEPT_CONTEXT: a state with an empty context.
unfoldable pub new_thread_context : (tid : ℕ) → List ThreadState → List ThreadState
unfolding allocstate set_penv
new_thread_context tid ss =
    let (i, ss') = allocstate tid ss in elim i [ none ↦ ss' | some k ↦ set_penv k 0 ss' ]

-- FIND_THREAD_EXCEPT_CONTEXT and Try: the state, the `penv` before, and the table in the body.
unfoldable pub enter_try : (tid env : ℕ) → List ThreadState → Option (ℕ × ℕ × List ThreadState)
unfolding findstate set_penv penv_at
enter_try tid env ss = elim (findstate tid ss) [
  | none ↦ none
  | some i ↦ some (i, penv_at i ss, set_penv i env ss)
]

-- The end of Try, whether something was thrown or not.
unfoldable pub leave_try : (index prev : ℕ) → List ThreadState → List ThreadState
unfolding set_penv
leave_try i prev ss = set_penv i prev ss

-- What a signal leads to: the handler returns, a jump to an environment with the signal as the flavor,
-- or a jump to NULL.
pub data SignalOutcome : Type 0 where
  returns : SignalOutcome
  thrown : (env flavor : ℕ) → SignalOutcome
  jumps_to_null : SignalOutcome

-- sighandler, in a thread.
unfoldable pub sighandler : (tid signum : ℕ) → List ThreadState → SignalOutcome
unfolding findstate penv_at
sighandler tid signum ss = elim (findstate tid ss) [
  | none ↦ returns
  | some i ↦ if penv_at i ss == 0 then jumps_to_null else thrown (penv_at i ss) signum
]
