-- ===== src/Lookup/Progress.antt =====
-- How many queries the loop of __dns_lookup_async in eloop/dns.c can make.
use native.Mathlib.Nat.{mod-lt}
-- The loop ends with fuel for the rounds that are left, at a server of the list, and makes no more.
use event_loop.Lookup.{
  Query, Attempt, Place, Setup, Next, lookup_overran, lookup_crashed, lookup_failed, go_on,
  lookup_done, lookup_round, next_id, query, LookupOutcome, gave_up, answered_by, overran, crashed,
  Ending, lookup_loop, Resume, most_queries, dns_lookup,
}
use event_loop.Lookup.Answers.{Found}
use event_loop.Lookup.Rounds.{
  InTable, servers_left, rounds_left, rounds_mono, Advances, next_server-Advances,
  lookup_round-Advances,
}
use event_loop.Prelude.{
  ltb, ltb→lt, Bool-cases, ==-gt, length, length-append, ℕ, zero, suc, ◌+◌, ◌-◌, ◌*◌, ◌%◌, ◌≤◌, ◌<◌,
  ◌≡◌, refl, subst, inl, inr, Option, some, List, [], ◌∷◌, ◌++◌, arith,
}

abbrev pub Terminates : Setup → (most : ℕ) → Option (List Query × Ending) → Type 0
Terminates s most o =
    (out : List Query × Ending) × (o ≡ some out)
    × (length (out.0) ≤ most)
    × (out.1.place.local_ns < s.nscount)

more-Terminates :
    (s : Setup) (m n r : ℕ) (o : Option (List Query × Ending))
    → n ≡ m
    → Terminates s (n + r) o
    → Terminates s (m + r) o
more-Terminates s m n r o e h = subst (λ (t : ℕ). Terminates s (t + r) o) e h

round-Terminates :
    (fuel : ℕ) (s : Setup) (ask : List Query → Query → Attempt) (asked : List Query) (p : Place)
    → InTable s p
    → p.retries < s.n_retries
    → ((q : Place)
        → Advances s p q
        → Terminates s
            (length asked + 1 + rounds_left s q)
            (lookup_loop fuel s ask (asked ++ query s (next_id p) ∷ []) q))
    → (o : Next) → ((q : Place) → o ≡ go_on q → Advances s p q)
    → Terminates s (length asked + rounds_left s p) (elim o as (λ _. Option (List Query × Ending)) [
      | lookup_overran ↦ some (asked, record { place = next_id p; result = overran })
      | lookup_crashed ↦ some (asked, record { place = next_id p; result = crashed })
      | lookup_failed ↦
          some (asked ++ query s (next_id p) ∷ [], record { place = next_id p; result = gave_up })
      | go_on q ↦ lookup_loop fuel s ask (asked ++ query s (next_id p) ∷ []) q
      | lookup_done len a ↦ some (
        asked ++ query s (next_id p) ∷ [],
        record { place = next_id p; result = answered_by len a },
      )
    ])
unfolding next_id
round-Terminates fuel s ask asked p h k rec lookup_overran adv = (_, refl, omega arith, h.0)
round-Terminates fuel s ask asked p h k rec lookup_crashed adv = (_, refl, omega arith, h.0)
round-Terminates fuel s ask asked p h k rec lookup_failed adv = (
  _,
  refl,
  omega (arith, length-append asked (query s (next_id p) ∷ []), (next_server-Advances s p h k).1),
  h.0,
)
round-Terminates fuel s ask asked p h k rec (lookup_done len a) adv = (
  _,
  refl,
  omega (arith, length-append asked (query s (next_id p) ∷ []), (next_server-Advances s p h k).1),
  h.0,
)
round-Terminates fuel s ask asked p h k rec (go_on q) adv =
    let (out, e, b, t) = rec q (adv q refl) in (out, e, omega (arith, (adv q refl).1), t)

pub lookup_loop-Terminates :
    (fuel : ℕ) (s : Setup) (ask : List Query → Query → Attempt) (asked : List Query) (p : Place)
    → InTable s p
    → rounds_left s p < fuel
    → Terminates s (length asked + rounds_left s p) (lookup_loop fuel s ask asked p)
unfolding lookup_loop
lookup_loop-Terminates zero s ask asked p h k = absurd (omega arith)
lookup_loop-Terminates (suc fuel) s ask asked p h k =
    elim (Bool-cases (ltb p.retries s.n_retries)) [
      | inr e ↦ rw (e, lookup_loop) (_, refl, omega arith, h.0)
      | inl e ↦
          let lt = ltb→lt p.retries s.n_retries e in
          rw (e, lookup_loop)
            (round-Terminates fuel s ask asked p h lt
              (λ q adv.
                more-Terminates s (length asked + 1) (length (asked ++ query s (next_id p) ∷ []))
                  (rounds_left s q) _ (length-append asked (query s (next_id p) ∷ []))
                  (lookup_loop-Terminates fuel s ask (asked ++ query s (next_id p) ∷ []) q (adv.0)
                    (omega (arith, adv.1))))
              (lookup_round s (next_id p) (ask asked (query s (next_id p))))
              (λ q e'. lookup_round-Advances s p q (ask asked (query s (next_id p))) h lt e'))
    ]

-- The place where the loop starts.
abbrev pub lookup_start : Setup → Found → Resume → Place
lookup_start s a g = record {
  local_ns = g.ns % s.nscount;
  tried = 0;
  local_id = g.id;
  retries = 0;
  partial = a;
}

pub lookup_start-InTable :
    (s : Setup) (a : Found) (g : Resume) → 0 < s.nscount → InTable s (lookup_start s a g)
lookup_start-InTable s a g h = (mod-lt g.ns h, omega arith)

start-rounds :
    (s : Setup) (a : Found) (g : Resume) → rounds_left s (lookup_start s a g) ≤ most_queries s
start-rounds s a g =
    let e : s.n_retries - 0 ≡ s.n_retries = omega arith in
    let le : servers_left s (lookup_start s a g) ≤ s.n_retries * s.nscount = rw e (omega arith) in
    omega (arith, rounds_mono (servers_left s (lookup_start s a g)) _ (length s.searchdomain) le)

pub start-loop :
    (s : Setup) (ask : List Query → Query → Attempt) (a : Found) (g : Resume)
    → 0 < s.nscount
    → Terminates s
        (most_queries s)
        (lookup_loop (suc (most_queries s)) s ask [] (lookup_start s a g))
start-loop s ask a g h =
    let (out, e, b, t) =
      lookup_loop-Terminates (suc (most_queries s)) s ask [] (lookup_start s a g)
        (lookup_start-InTable s a g h) (omega (arith, start-rounds s a g)) in
    (out, e, omega (arith, start-rounds s a g), t)

-- With any servers, whatever becomes of each query, a lookup ends; it makes at most nRetries queries for
-- each server and each of the names that it asks a server for (the name, and one for each search domain),
-- and it leaves `ns` at a server of the list.
pub dns_lookup-ends :
    (s : Setup) (ask : List Query → Query → Attempt) (a : Found) (g : Resume)
    → 0 < s.nscount
    → (out : List Query × Resume × LookupOutcome) × (dns_lookup s ask a g ≡ some out)
      × (length (out.0) ≤ s.n_retries * s.nscount * suc (length s.searchdomain))
      × (out.1.ns < s.nscount)
unfolding dns_lookup
dns_lookup-ends s ask a g h =
    let (o, e, b, t) = start-loop s ask a g h in rw (==-gt s.nscount 0 h) (rw e (_, refl, b, t))
