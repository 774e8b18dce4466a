-- ===== src/Exceptions/Bag.antt =====
-- The table of eloop/cexceptNew.c as a bag of threads.
use event_loop.Exceptions.{
  ThreadState, max_thread, unused_state, init_states, findstate, allocstate, freestate, set_penv,
  new_thread_context,
}
use event_loop.Prelude.{
  ltb, ◌==◌, if◌then◌else◌, Bool-cases, Option-cases, length, replicate, All, ℕ, zero, suc, ◌+◌,
  ◌-◌, ◌≡◌, refl, sym, ◌∙◌, ◌↔◌, inl, inr, false, ◌&&◌, Option, none, some, List, [], ◌∷◌, arith,
}

-- What a thread does with the table.
pub data ThreadOp : Type 0 where
  takes_state : (tid : ℕ) → ThreadOp
  gives_back : (tid : ℕ) → ThreadOp

unfoldable pub do_op : ThreadOp → List ThreadState → List ThreadState
unfolding new_thread_context freestate
do_op (takes_state tid) ss = new_thread_context tid ss
do_op (gives_back tid) ss = freestate tid ss

unfoldable pub do_ops : List ThreadOp → List ThreadState → List ThreadState
unfolding do_op
do_ops [] ss = ss
do_ops (o ∷ os) ss = do_ops os (do_op o ss)

-- How often a thread is in the table, or in a list.
abbrev pub states_of : ℕ → List ThreadState → ℕ
states_of tid [] = 0
states_of tid (s ∷ ss) = if s.pid == tid then suc (states_of tid ss) else states_of tid ss

abbrev pub times_in : ℕ → List ℕ → ℕ
times_in tid [] = 0
times_in tid (t ∷ ts) = if t == tid then suc (times_in tid ts) else times_in tid ts

-- A bag of at most `room` threads: one more, where there is room; one fewer, if it is there.
abbrev pub take_out : ℕ → List ℕ → List ℕ
take_out tid [] = []
take_out tid (t ∷ ts) = if t == tid then ts else t ∷ take_out tid ts

abbrev pub bag_op : (room : ℕ) → ThreadOp → List ℕ → List ℕ
bag_op room (takes_state tid) ts = if ltb (length ts) room then tid ∷ ts else ts
bag_op room (gives_back tid) ts = take_out tid ts

abbrev pub bag_ops : (room : ℕ) → List ThreadOp → List ℕ → List ℕ
bag_ops room [] ts = ts
bag_ops room (o ∷ os) ts = bag_ops room os (bag_op room o ts)

-- The threads have numbers other than 0.
abbrev pub IsThread : ThreadOp → Type 0
IsThread (takes_state tid) = (tid == 0) ≡ false
IsThread (gives_back tid) = (tid == 0) ≡ false

set_penv-states_of :
    (t i env : ℕ) (ss : List ThreadState) → states_of t (set_penv i env ss) ≡ states_of t ss
unfolding set_penv
set_penv-states_of t i env [] = refl
set_penv-states_of t zero env (s ∷ ss) = refl
set_penv-states_of t (suc i) env (s ∷ ss) = rw (set_penv-states_of t i env ss) refl

-- One state more of the thread, one unused state fewer, if there is one.
allocstate-states_of :
    (t tid : ℕ) (ss : List ThreadState)
    → (t == 0) ≡ false
    → (tid == 0) ≡ false
    → states_of t ((allocstate tid ss).1)
      ≡ states_of t ss + (if (ltb 0 (states_of 0 ss)) && (tid == t) then 1 else 0)
unfolding allocstate
allocstate-states_of t tid [] h k = refl
allocstate-states_of t tid (s ∷ ss) h k = ground (arith, allocstate-states_of t tid ss h k)

allocstate-unused :
    (tid : ℕ) (ss : List ThreadState)
    → (tid == 0) ≡ false
    → states_of 0 ((allocstate tid ss).1) ≡ states_of 0 ss - 1
unfolding allocstate
allocstate-unused tid [] k = refl
allocstate-unused tid (s ∷ ss) k = ground (arith, allocstate-unused tid ss k)

freestate-states_of :
    (t tid : ℕ) (ss : List ThreadState)
    → (t == 0) ≡ false
    → (tid == 0) ≡ false
    → states_of t (freestate tid ss) ≡ states_of t ss - (if tid == t then 1 else 0)
unfolding freestate
freestate-states_of t tid [] h k = ground arith
freestate-states_of t tid (s ∷ ss) h k = ground (arith, freestate-states_of t tid ss h k)

freestate-unused :
    (tid : ℕ) (ss : List ThreadState)
    → (tid == 0) ≡ false
    → states_of 0 (freestate tid ss) ≡ states_of 0 ss + (if ltb 0 (states_of tid ss) then 1 else 0)
unfolding freestate
freestate-unused tid [] k = refl
freestate-unused tid (s ∷ ss) k = ground (arith, freestate-unused tid ss k)

take_out-times_in :
    (t tid : ℕ) (ts : List ℕ)
    → times_in t (take_out tid ts) ≡ times_in t ts - (if tid == t then 1 else 0)
take_out-times_in t tid [] = ground arith
take_out-times_in t tid (u ∷ ts) = ground (arith, take_out-times_in t tid ts)

length-take_out :
    (tid : ℕ) (ts : List ℕ)
    → length (take_out tid ts) + (if ltb 0 (times_in tid ts) then 1 else 0) ≡ length ts
length-take_out tid [] = refl
length-take_out tid (u ∷ ts) = ground (arith, length-take_out tid ts)

-- The table stands for the bag: every thread has as many states, and the other states are unused.
abbrev pub StandsFor : (room : ℕ) → List ℕ → List ThreadState → Type 0
StandsFor room ts ss =
    ((t : ℕ) → (t == 0) ≡ false → states_of t ss ≡ times_in t ts)
    × (states_of 0 ss + length ts ≡ room)

new_thread-states_of :
    (t tid : ℕ) (ss : List ThreadState)
    → states_of t (new_thread_context tid ss) ≡ states_of t ((allocstate tid ss).1)
unfolding new_thread_context
new_thread-states_of t tid ss = elim (Option-cases ((allocstate tid ss).0)) [
  | inl e ↦ rw (e, new_thread_context) refl
  | inr (i, e) ↦ rw (e, new_thread_context) (set_penv-states_of t i 0 ((allocstate tid ss).1))
]

do_op-StandsFor :
    (room : ℕ) (o : ThreadOp) (ts : List ℕ) (ss : List ThreadState)
    → IsThread o
    → StandsFor room ts ss
    → StandsFor room (bag_op room o ts) (do_op o ss)
unfolding do_op
do_op-StandsFor room (takes_state tid) ts ss h (each, all) = (
  λ t k.
      ground
        (arith, new_thread-states_of t tid ss, allocstate-states_of t tid ss k h, each t k, all),
  ground (arith, new_thread-states_of 0 tid ss, allocstate-unused tid ss h, all),
)
do_op-StandsFor room (gives_back tid) ts ss h (each, all) = (
  λ t k. ground (arith, freestate-states_of t tid ss k h, each t k, take_out-times_in t tid ts),
  ground (arith, freestate-unused tid ss h, all, each tid h, length-take_out tid ts),
)

do_ops-StandsFor :
    (room : ℕ) (os : List ThreadOp) (ts : List ℕ) (ss : List ThreadState)
    → All IsThread os
    → StandsFor room ts ss
    → StandsFor room (bag_ops room os ts) (do_ops os ss)
unfolding do_ops
do_ops-StandsFor room [] ts ss h k = k
do_ops-StandsFor room (o ∷ os) ts ss h k =
    do_ops-StandsFor room os (bag_op room o ts) (do_op o ss) (h.1)
      (do_op-StandsFor room o ts ss (h.0) k)

shift-none :
    (o : Option ℕ)
    → elim o as (λ _. Option ℕ) [ none ↦ none | some i ↦ some (suc i) ] ≡ none
    → o ≡ none
shift-none none h = refl
shift-none (some i) h = cc

init-states_of : (n t : ℕ) → (t == 0) ≡ false → states_of t (replicate n unused_state) ≡ 0
init-states_of zero t h = refl
init-states_of (suc n) t h = let e : (0 == t) ≡ false = ground arith in rw e (init-states_of n t h)

findstate-states_of :
    (t : ℕ) (ss : List ThreadState) → (findstate t ss ≡ none) ↔ (states_of t ss ≡ 0)
unfolding findstate
findstate-states_of t [] = ((λ h. refl), (λ h. refl))
findstate-states_of t (s ∷ ss) =
    let (f, g) = findstate-states_of t ss in
    elim (Bool-cases (s.pid == t)) [
      | inl e ↦ rw e ((λ h. cc), (λ h. absurd (omega (arith, h))))
      | inr e ↦ rw e ((λ h. f (shift-none (findstate t ss) h)), (λ h. rw (g h) refl))
    ]

-- After any sequence of threads that take and give back a state, the table stands for a bag of at most
-- 20 threads: a thread that takes a state is added where there is room, one that gives a state back is
-- taken out once. A thread has a state exactly if it is in the bag, and as many as it is there.
pub do_ops-refines :
    (os : List ThreadOp) (t : ℕ)
    → All IsThread os
    → (t == 0) ≡ false
    → (states_of t (do_ops os init_states) ≡ times_in t (bag_ops max_thread os []))
      × ((findstate t (do_ops os init_states) ≡ none) ↔ (times_in t (bag_ops max_thread os []) ≡ 0))
do_ops-refines os t h k =
    let (each, all) =
      do_ops-StandsFor max_thread os [] init_states h (init-states_of max_thread, refl) in
    let e : states_of t (do_ops os init_states) ≡ times_in t (bag_ops max_thread os []) =
      each t k in
    let (f, g) = findstate-states_of t (do_ops os init_states) in
    (e, ((λ n. sym e ∙ f n), (λ n. g (e ∙ n))))
