-- ===== src/Lookup/Silent.antt =====
-- Which servers the loop of __dns_lookup_async in eloop/dns.c asks, and in which order, while no server
-- answers.
use event_loop.Lookup.{
  Query, Attempt, unreachable, no_answer, Place, Setup, next_server, tryall, go_on, attempt_round,
  overruns, lookup_round, next_id, query, LookupOutcome, gave_up, Ending, lookup_loop, Resume,
  most_queries, dns_lookup,
}
use event_loop.Lookup.Answers.{Found}
use event_loop.Lookup.Progress.{lookup_start, lookup_start-InTable, start-loop}
use event_loop.Prelude.{
  ltb, ◌==◌, if◌then◌else◌, ltb→lt, ==_iff, Bool-cases, ==-gt, replicate, concat, ℕ, zero, suc, ◌+◌,
  ◌-◌, ◌%◌, ◌<◌, ◌≡◌, refl, sym, ap, ◌∙◌, ◌⊎◌, inl, inr, true, false, some, List, [], ◌∷◌, ◌++◌,
  map, append-nil, append_assoc, arith,
}

-- The numbers from `l` on.
abbrev pub span : (l k : ℕ) → List ℕ
span l zero = []
span l (suc k) = l ∷ span (suc l) k

-- The rest of a pass over `n` servers from the server `l` on, and `k` - 1 passes more.
abbrev pub passes : (n l k : ℕ) → List ℕ
passes n l zero = []
passes n l (suc k) = span l (n - l) ++ concat (replicate k (span 0 n))

-- The servers of the queries.
abbrev pub servers : List Query → List ℕ
servers qs = map (λ q. q.server) qs

-- No query leads to a message: each runs into the timeout, or its server cannot be reached.
abbrev pub IsSilent : (List Query → Query → Attempt) → Type 0
IsSilent ask =
    (asked : List Query) (q : Query) → (ask asked q ≡ no_answer) ⊎ (ask asked q ≡ unreachable)

passes-zero : (n k : ℕ) → passes n 0 k ≡ concat (replicate k (span 0 n))
passes-zero n zero = refl
passes-zero n (suc k) = let e : n - 0 ≡ n = omega arith in rw e refl

pub span-step : (l n : ℕ) → l < n → span l (n - l) ≡ l ∷ span (suc l) (n - suc l)
span-step l n h = let e : n - l ≡ suc (n - suc l) = omega arith in rw e refl

-- One query at the head, and the pass goes on with the next server or ends.
passes-step :
    (n l k : ℕ)
    → l < n
    → passes n l (suc k) ≡ l ∷ (if l + 1 == n then passes n 0 k else passes n (l + 1) (suc k))
passes-step n l k h = elim (Bool-cases (l + 1 == n)) [
  | inl e ↦
      let last : l + 1 ≡ n = (==_iff (l + 1) n).0 e in
      let e' : n - suc l ≡ 0 = omega arith in
      rw e (rw (span-step l n h) (rw e' (rw (passes-zero n k) refl)))
  | inr e ↦ let e' : l + 1 ≡ suc l = omega arith in rw e (rw (span-step l n h) (rw e' refl))
]

pub passes-next_server :
    (s : Setup) (p : Place)
    → p.local_ns < s.nscount
    → p.retries < s.n_retries
    → passes s.nscount p.local_ns (s.n_retries - p.retries)
      ≡ p.local_ns
        ∷ passes s.nscount
            (next_server s.nscount (next_id p)).local_ns
            (s.n_retries - (next_server s.nscount (next_id p)).retries)
unfolding next_server next_id
passes-next_server s p h k =
    let m : s.n_retries - p.retries ≡ suc (s.n_retries - suc p.retries) = omega arith in
    elim (Bool-cases (p.local_ns + 1 == s.nscount)) [
      | inl e ↦
          rw e (rw m (passes-step s.nscount p.local_ns (s.n_retries - suc p.retries) h ∙ rw e refl))
      | inr e ↦ rw e (
          rw (==-gt (p.local_ns + 1) 0 (omega arith))
            (rw m (passes-step s.nscount p.local_ns (s.n_retries - suc p.retries) h ∙ rw e refl)))
    ]

pub next_server-below :
    (s : Setup) (p : Place)
    → p.local_ns < s.nscount
    → (next_server s.nscount (next_id p)).local_ns < s.nscount
unfolding next_server next_id
next_server-below s p h = ground arith

-- The name itself fits.
pub first-overruns : (s : Setup) (p : Place) → p.tried ≡ 0 → overruns s p ≡ false
unfolding overruns
first-overruns s p h = rw h refl

silent-round :
    (s : Setup) (p : Place) (a : Attempt)
    → p.tried ≡ 0
    → (a ≡ no_answer) ⊎ (a ≡ unreachable)
    → lookup_round s p a ≡ go_on (next_server s.nscount p)
unfolding lookup_round attempt_round tryall
silent-round s p a z (inl e) = rw (first-overruns s p z, lookup_round) (rw e refl)
silent-round s p a z (inr e) = rw (first-overruns s p z, lookup_round) (rw e refl)

next_server-tried : (n : ℕ) (p : Place) → (next_server n p).tried ≡ 0
unfolding next_server
next_server-tried n p = refl

pub loop-go_on :
    (fuel : ℕ) (s : Setup) (ask : List Query → Query → Attempt) (asked : List Query) (p q : Place)
    → ltb p.retries s.n_retries ≡ true
    → lookup_round s (next_id p) (ask asked (query s (next_id p))) ≡ go_on q
    → lookup_loop (suc fuel) s ask asked p
      ≡ lookup_loop fuel s ask (asked ++ query s (next_id p) ∷ []) q
unfolding lookup_loop
loop-go_on fuel s ask asked p q h k = rw (h, lookup_loop) (rw (k, lookup_loop) refl)

pub loop-end :
    (fuel : ℕ) (s : Setup) (ask : List Query → Query → Attempt) (asked : List Query) (p : Place)
    → ltb p.retries s.n_retries ≡ false
    → lookup_loop (suc fuel) s ask asked p ≡ some (asked, record { place = p; result = gave_up })
unfolding lookup_loop
loop-end fuel s ask asked p h = rw (h, lookup_loop) refl

servers-append : (qs rs : List Query) → servers (qs ++ rs) ≡ servers qs ++ servers rs
servers-append [] rs = refl
servers-append (q ∷ qs) rs = ap (λ l. q.server ∷ l) (servers-append qs rs)

-- The loop asks what is left of the passes.
asks_passes :
    (fuel : ℕ) (s : Setup) (ask : List Query → Query → Attempt) (asked : List Query) (p : Place)
    (out : List Query × Ending)
    → IsSilent ask
    → p.local_ns < s.nscount
    → p.tried ≡ 0
    → lookup_loop fuel s ask asked p ≡ some out
    → (servers (out.0) ≡ servers asked ++ passes s.nscount p.local_ns (s.n_retries - p.retries))
      × (out.1.result ≡ gave_up)
unfolding lookup_loop next_id
asks_passes zero s ask asked p out h k v e = cc
asks_passes (suc fuel) s ask asked p out h k v e = elim (Bool-cases (ltb p.retries s.n_retries)) [
  | inr f ↦
      let e' : some (asked, record { place = p; result = gave_up }) ≡ some out =
        sym (loop-end fuel s ask asked p f) ∙ e in
      let o : (asked, record { place = p; result = gave_up }) ≡ out = cc in
      let z : s.n_retries - p.retries ≡ 0 = ground arith in
      (
        ap (λ (x : List Query × Ending). servers (x.0)) (sym o) ∙ rw z (sym (append-nil _)),
        ap (λ (x : List Query × Ending). x.1.result) (sym o),
      )
  | inl f ↦
      let lt = ltb→lt p.retries s.n_retries f in
      let sent_query = query s (next_id p) in
      let q = next_server s.nscount (next_id p) in
      let e' : lookup_loop fuel s ask (asked ++ sent_query ∷ []) q ≡ some out =
        sym (
          loop-go_on fuel s ask asked p q f
            (silent-round s (next_id p) (ask asked sent_query) v (h asked sent_query)))
        ∙ e in
      let (i, r) =
        asks_passes fuel s ask (asked ++ sent_query ∷ []) q out h (next_server-below s p k)
          (next_server-tried s.nscount (next_id p)) e' in
      (
        i
            ∙ rw (servers-append asked (sent_query ∷ [])) (
                append_assoc (servers asked) (p.local_ns ∷ []) _
                ∙ ap (λ l. servers asked ++ l) (sym (passes-next_server s p k lt))),
        r,
      )
]

-- While no server answers, a lookup that starts at the server `ns` asks the servers from `ns` on to the
-- last one, and then nRetries - 1 times all of them in their order, and ends without a result.
pub dns_lookup-silent :
    (s : Setup) (ask : List Query → Query → Attempt) (a : Found) (g : Resume)
    → 0 < s.nscount
    → 0 < s.n_retries
    → IsSilent ask
    → (out : List Query × Resume × LookupOutcome) × (dns_lookup s ask a g ≡ some out)
      × (servers (out.0)
          ≡ span (g.ns % s.nscount) (s.nscount - g.ns % s.nscount)
            ++ concat (replicate (s.n_retries - 1) (span 0 s.nscount)))
      × (out.2 ≡ gave_up)
unfolding dns_lookup
dns_lookup-silent s ask a g h k silent =
    let (o, e, b, t) = start-loop s ask a g h in
    let (i, r) =
      asks_passes (suc (most_queries s)) s ask [] (lookup_start s a g) o silent
        ((lookup_start-InTable s a g h).0) refl e in
    let m : s.n_retries - 0 ≡ suc (s.n_retries - 1) = omega arith in
    rw (==-gt s.nscount 0 h) (rw e (_, refl, (rw m at i), r))
