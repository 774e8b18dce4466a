-- ===== src/Lookup/Refused.antt =====
-- Which names the loop of __dns_lookup_async in eloop/dns.c asks for, and in which order, while every
-- server refuses.
use event_loop.Lookup.{
  Query, DnsReply, Attempt, received, Place, Setup, lookup_name, next_server, again,
  skips_questions, check_reply, go_on, attempt_round, overruns, lookup_round, next_id, query,
  LookupOutcome, gave_up, Ending, lookup_loop, Resume, most_queries, dns_lookup,
}
use event_loop.Lookup.Answers.{Wanted, Found, unusable}
use event_loop.Lookup.Progress.{lookup_start, lookup_start-InTable, start-loop}
use event_loop.Lookup.Rounds.{InTable, again-Advances}
use event_loop.Lookup.Silent.{span, passes, span-step, passes-next_server, loop-go_on, loop-end}
use event_loop.Prelude.{
  ltb, ◌==◌, ltb→lt, Bool-cases, ==-gt, length, get_elem?, replicate, length-append, concat,
  map-map, map-equal, ℕ, zero, suc, ◌-◌, ◌%◌, ◌≤◌, ◌<◌, ◌≡◌, refl, sym, ap, ap₂, ◌∙◌, ◌⊎◌, inl, inr,
  Bool, true, false, not, ◌||◌, some, List, [], ◌∷◌, ◌++◌, map, append-nil, append_assoc, arith,
}

-- Every message has an error as its result.
abbrev pub IsRefusing : (List Query → Query → Attempt) → Type 0
IsRefusing ask =
    (asked : List Query) (q : Query)
    → (r : DnsReply) × (ask asked q ≡ received r) × ((r.rcode == 0) ≡ false)

-- The queries as servers and names.
abbrev pub asked_for : List Query → List (ℕ × List ℕ)
asked_for qs = map (λ q. (q.server, q.name)) qs

-- A server is asked for the names from the `t`-th on; the first is the name itself.
abbrev pub names_from : Setup → (t server : ℕ) → List (ℕ × List ℕ)
names_from s t server =
    map (λ i. (server, lookup_name s.name s.searchdomain i))
      (span t (suc (length s.searchdomain) - t))

-- Servers one after the other, the first of them from the `t`-th name on.
abbrev pub due_from : Setup → (t : ℕ) → (ls : List ℕ) → List (ℕ × List ℕ)
due_from s t [] = []
due_from s t (l ∷ ls) = names_from s t l ++ concat (map (names_from s 0) ls)

third_true : (x y z : Bool) → (x || y || true || z) ≡ true
third_true true y z = refl
third_true false true z = refl
third_true false false z = refl

refused-check :
    (w : Wanted) (p : Place) (r : DnsReply)
    → (r.rcode == 0) ≡ false
    → check_reply w p r ≡ unusable p.partial
unfolding check_reply
refused-check w p r h = rw h (
    rw
      (third_true (ltb r.len 12) (not (r.id == p.local_id) || not r.qr)
        (not (skips_questions r.questions)))
      refl)

pub refused-round :
    (s : Setup) (p : Place) (a : Attempt) (r : DnsReply)
    → a ≡ received r
    → (r.rcode == 0) ≡ false
    → overruns s p ≡ false
    → lookup_round s p a ≡ go_on (again s p)
unfolding lookup_round attempt_round
refused-round s p a r e h z =
    rw (z, lookup_round) (rw e (rw (refused-check s.wanted p r h, attempt_round) refl))

due_from-zero : (s : Setup) (ls : List ℕ) → due_from s 0 ls ≡ concat (map (names_from s 0) ls)
due_from-zero s [] = refl
due_from-zero s (l ∷ ls) = refl

names_from-step :
    (s : Setup) (t l : ℕ)
    → t ≤ length s.searchdomain
    → names_from s t l ≡ (l, lookup_name s.name s.searchdomain t) ∷ names_from s (suc t) l
names_from-step s t l h =
    ap (map (λ i. (l, lookup_name s.name s.searchdomain i)))
      (span-step t (suc (length s.searchdomain)) (omega arith))

names_from-last :
    (s : Setup) (t l : ℕ)
    → t ≡ length s.searchdomain
    → names_from s t l ≡ (l, lookup_name s.name s.searchdomain t) ∷ []
names_from-last s t l h =
    let e : suc (length s.searchdomain) - suc t ≡ 0 = omega arith in
    names_from-step s t l (omega arith) ∙ rw e refl

asked_for-append :
    (qs : List Query) (q : Query)
    → asked_for (qs ++ q ∷ []) ≡ asked_for qs ++ (q.server, q.name) ∷ []
asked_for-append [] q = refl
asked_for-append (p ∷ qs) q = ap (λ l. (p.server, p.name) ∷ l) (asked_for-append qs q)

-- The servers that are due at a place.
abbrev pub servers_due : Setup → Place → List ℕ
servers_due s p = passes s.nscount p.local_ns (s.n_retries - p.retries)

-- A round takes the first name that is due.
due-again :
    (s : Setup) (p : Place)
    → InTable s p
    → p.retries < s.n_retries
    → due_from s p.tried (servers_due s p)
      ≡ (p.local_ns, lookup_name s.name s.searchdomain p.tried)
        ∷ due_from s (again s (next_id p)).tried (servers_due s (again s (next_id p)))
unfolding again next_id
due-again s p h k =
    let q = next_server s.nscount (next_id p) in
    let ps = passes-next_server s p (h.0) k in
    elim (Bool-cases (ltb p.tried (length s.searchdomain))) [
      | inl e ↦ rw e (
          rw ps (
            ap (λ (l : List (ℕ × List ℕ)). l ++ concat (map (names_from s 0) (servers_due s q)))
              (names_from-step s p.tried p.local_ns (h.1))))
      | inr e ↦ rw e (
          rw ps (
            ap (λ (l : List (ℕ × List ℕ)). l ++ concat (map (names_from s 0) (servers_due s q)))
              (names_from-last s p.tried p.local_ns (ground arith))
            ∙ ap
                (λ (l : List (ℕ × List ℕ)).
                  (p.local_ns, lookup_name s.name s.searchdomain p.tried) ∷ l)
                (sym (due_from-zero s (servers_due s q)))))
    ]

-- The loop asks for what is due.
asks_due :
    (fuel : ℕ) (s : Setup) (ask : List Query → Query → Attempt) (asked : List Query) (p : Place)
    (out : List Query × Ending)
    → IsRefusing ask
    → ((q : Place) → overruns s q ≡ false)
    → InTable s p
    → lookup_loop fuel s ask asked p ≡ some out
    → (asked_for (out.0) ≡ asked_for asked ++ due_from s p.tried (servers_due s p))
      × (out.1.result ≡ gave_up)
unfolding lookup_loop
asks_due zero s ask asked p out h v k e = cc
asks_due (suc fuel) s ask asked p out h v k e = elim (Bool-cases (ltb p.retries s.n_retries)) [
  | inr f ↦
      let e' : some (asked, record { place = p; result = gave_up }) ≡ some out =
        sym (loop-end fuel s ask asked p f) ∙ e in
      let o : (asked, record { place = p; result = gave_up }) ≡ out = cc in
      let z : s.n_retries - p.retries ≡ 0 = ground arith in
      (
        ap (λ (x : List Query × Ending). asked_for (x.0)) (sym o) ∙ rw z (sym (append-nil _)),
        ap (λ (x : List Query × Ending). x.1.result) (sym o),
      )
  | inl f ↦
      let lt = ltb→lt p.retries s.n_retries f in
      let sent_query = query s (next_id p) in
      let q = again s (next_id p) in
      let (r, a, c) = h asked sent_query in
      let e' : lookup_loop fuel s ask (asked ++ sent_query ∷ []) q ≡ some out =
        sym (
          loop-go_on fuel s ask asked p q f
            (refused-round s (next_id p) (ask asked sent_query) r a c (v (next_id p))))
        ∙ e in
      let (i, n) =
        asks_due fuel s ask (asked ++ sent_query ∷ []) q out h v
          ((again-Advances s (next_id p) k lt).0) e' in
      (
        i
            ∙ rw (asked_for-append asked sent_query) (
                append_assoc (asked_for asked) ((sent_query.server, sent_query.name) ∷ []) _
                ∙ ap (λ l. asked_for asked ++ l) (sym (due-again s p k lt))),
        n,
      )
]

get_elem?-behind :
    (pre : List (List ℕ)) (d : List ℕ) (post : List (List ℕ))
    → get_elem? (pre ++ d ∷ post) (length pre) ≡ some d
get_elem?-behind [] d post = refl
get_elem?-behind (c ∷ pre) d post = get_elem?-behind pre d post

-- The name with each of the domains that stand behind others.
names-behind :
    (server : ℕ) (name : List ℕ) (pre post : List (List ℕ))
    → map {B = ℕ × List ℕ}
        (λ i. (server, lookup_name name (pre ++ post) i))
        (span (suc (length pre)) (length post))
      ≡ map (λ domain. (server, name ++ domain)) post
unfolding lookup_name
names-behind server name pre [] = refl
names-behind server name pre (d ∷ post) =
    let ih = names-behind server name (pre ++ d ∷ []) post in
    let e : (pre ++ d ∷ []) ++ post ≡ pre ++ d ∷ post = append_assoc pre (d ∷ []) post in
    let n : length (pre ++ d ∷ []) ≡ suc (length pre) = omega (arith, length-append pre (d ∷ [])) in
    ap₂ (λ (x : ℕ × List ℕ) xs. x ∷ xs) (rw (get_elem?-behind pre d post, lookup_name) refl)
      (rw n at (rw e at ih))

names-all :
    (s : Setup) (server : ℕ)
    → names_from s 0 server
      ≡ map (λ name. (server, name)) (s.name ∷ map (λ domain. s.name ++ domain) s.searchdomain)
unfolding lookup_name
names-all s server =
    let e : suc (length s.searchdomain) - 0 ≡ suc (length s.searchdomain) = omega arith in
    rw e (
      ap (λ l. (server, s.name) ∷ l)
        (names-behind server s.name [] s.searchdomain
          ∙ sym
              (map-map (λ (n : List ℕ). (server, n)) (λ (d : List ℕ). s.name ++ d) s.searchdomain)))

-- Nothing is written behind the buffer.
never-overruns :
    (s : Setup) (p : Place) → (s.name ≡ []) ⊎ (s.searchdomain ≡ []) → overruns s p ≡ false
unfolding overruns
never-overruns s p (inl e) = rw e (ground arith)
never-overruns s p (inr e) = rw e (ground arith)

-- Where the name is empty or there are no search domains, so that nothing is written behind the buffer:
-- while every server refuses, a lookup that starts at the server `ns` asks the servers from `ns` on to
-- the last one, and then nRetries - 1 times all of them in their order, each for the name and then for
-- the name followed by each search domain in its order, and ends without a result.
pub dns_lookup-refused :
    (s : Setup) (ask : List Query → Query → Attempt) (a : Found) (g : Resume)
    → 0 < s.nscount
    → 0 < s.n_retries
    → IsRefusing ask
    → (s.name ≡ []) ⊎ (s.searchdomain ≡ [])
    → (out : List Query × Resume × LookupOutcome) × (dns_lookup s ask a g ≡ some out)
      × (asked_for (out.0)
          ≡ concat (
              map
                (λ server.
                  map
                    (λ name. (server, name))
                    (s.name ∷ map (λ domain. s.name ++ domain) s.searchdomain))
                (span (g.ns % s.nscount) (s.nscount - g.ns % s.nscount)
                  ++ concat (replicate (s.n_retries - 1) (span 0 s.nscount)))))
      × (out.2 ≡ gave_up)
unfolding dns_lookup
dns_lookup-refused s ask a g h k refuses fits =
    let (o, e, b, t) = start-loop s ask a g h in
    let (i, r) =
      asks_due (suc (most_queries s)) s ask [] (lookup_start s a g) o refuses
        (λ q. never-overruns s q fits) (lookup_start-InTable s a g h) e in
    let m : s.n_retries - 0 ≡ suc (s.n_retries - 1) = omega arith in
    let ps : List ℕ =
      span (g.ns % s.nscount) (s.nscount - g.ns % s.nscount)
      ++ concat (replicate (s.n_retries - 1) (span 0 s.nscount)) in
    let j : asked_for (o.0) ≡ due_from s 0 ps = (rw m at i) in
    rw (==-gt s.nscount 0 h) (
      rw e (
        _,
        refl,
        j ∙ due_from-zero s ps ∙ ap concat (map-equal (names_from s 0) _ ps (names-all s)),
        r,
      ))
