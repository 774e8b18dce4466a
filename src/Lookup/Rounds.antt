-- ===== src/Lookup/Rounds.antt =====
-- How many rounds the loop of __dns_lookup_async in eloop/dns.c has left, and what a round takes of them.
-- A server of the list, and at most as many search domains as there are.
use event_loop.Lookup.{
  DnsReply, Attempt, not_encoded, no_socket, unreachable, not_connected, null_server, no_answer,
  received, Place, Setup, next_server, tryall, again, retry, check_reply, keep_partial, Next,
  lookup_overran, go_on, lookup_done, attempt_round, overruns, lookup_round, next_id,
}
use event_loop.Lookup.Answers.{Reading, unusable, usable}
use event_loop.Prelude.{
  ltb, ltb→lt, Bool-cases, length, ℕ, zero, suc, ◌+◌, ◌-◌, ◌*◌, ◌≤◌, ◌<◌, ◌≡◌, subst, inl, inr,
  arith,
}

abbrev pub InTable : Setup → Place → Type 0
InTable s p = (p.local_ns < s.nscount) × (p.tried ≤ length s.searchdomain)

-- The servers that are still to be asked, the one at work included.
abbrev pub servers_left : Setup → Place → ℕ
servers_left s p = (s.n_retries - p.retries) * s.nscount - p.local_ns

-- The rounds that are left.
abbrev pub rounds_left : Setup → Place → ℕ
rounds_left s p = servers_left s p * suc (length s.searchdomain) - p.tried

mul-suc_left : (m n : ℕ) → suc m * n ≡ m * n + n
mul-suc_left m n = omega arith

-- One try fewer is `nscount` servers fewer.
servers-try : (r m n : ℕ) → r < m → (m - r) * n ≡ (m - suc r) * n + n
servers-try r m n h =
    let e : m - r ≡ suc (m - suc r) = omega arith in rw e (mul-suc_left (m - suc r) n)

pub rounds_mono : (x y d : ℕ) → x ≤ y → x * suc d ≤ y * suc d
rounds_mono x y d h = grind arith

-- One server fewer is at least one round fewer, whatever domains have been tried.
rounds-fewer : (x y d t : ℕ) → y < x → t ≤ d → y * suc d < x * suc d - t
rounds-fewer zero y d t h k = absurd (omega arith)
rounds-fewer (suc x) y d t h k =
    let le : y * suc d ≤ x * suc d = rounds_mono y x d (omega arith) in
    omega (arith, mul-suc_left x (suc d))

servers_left-next_server :
    (s : Setup) (p : Place)
    → InTable s p
    → p.retries < s.n_retries
    → servers_left s p ≡ suc (servers_left s (next_server s.nscount p))
unfolding next_server
servers_left-next_server s p h k = ground (arith, servers-try p.retries s.n_retries s.nscount k)

servers_left-retry :
    (s : Setup) (p : Place)
    → InTable s p
    → p.retries < s.n_retries
    → servers_left s (retry p) < servers_left s p
unfolding retry
servers_left-retry s p h k = omega (arith, servers-try p.retries s.n_retries s.nscount k)

-- A round that goes on stays in the tables and has fewer rounds left.
abbrev pub Advances : Setup → Place → Place → Type 0
Advances s p q = InTable s q × (rounds_left s q < rounds_left s p)

pub next_server-Advances :
    (s : Setup) (p : Place)
    → InTable s p
    → p.retries < s.n_retries
    → Advances s p (next_server s.nscount p)
unfolding next_server
next_server-Advances s p h k = (
  (ground arith, omega arith),
  omega (
    arith,
    rounds-fewer (servers_left s p) (servers_left s (next_server s.nscount p))
        (length s.searchdomain) p.tried (omega (arith, servers_left-next_server s p h k)) (h.1),
  ),
)

retry-Advances :
    (s : Setup) (p : Place) → InTable s p → p.retries < s.n_retries → Advances s p (retry p)
unfolding retry
retry-Advances s p h k = (
  h,
  omega (
    arith,
    rounds-fewer (servers_left s p) (servers_left s (retry p)) (length s.searchdomain) p.tried
        (servers_left-retry s p h k) (h.1),
  ),
)

pub again-Advances :
    (s : Setup) (p : Place) → InTable s p → p.retries < s.n_retries → Advances s p (again s p)
unfolding again
again-Advances s p h k = elim (Bool-cases (ltb p.tried (length s.searchdomain))) [
  | inl e ↦ rw e (
    (h.0, ltb→lt p.tried (length s.searchdomain) e),
    omega (
      arith,
      rounds-fewer (servers_left s p) (servers_left s (next_server s.nscount p))
          (length s.searchdomain) p.tried (omega (arith, servers_left-next_server s p h k)) (h.1),
    ),
  )
  | inr e ↦ rw e (next_server-Advances s p h k)
]

Advances-to : (s : Setup) (p q r : Place) → Advances s p q → go_on q ≡ go_on r → Advances s p r
Advances-to s p q r h e = let e' : q ≡ r = cc in subst (Advances s p) e' h

reading-Advances :
    (s : Setup) (p q : Place) (r : DnsReply) (o : Reading)
    → InTable s p
    → p.retries < s.n_retries
    → elim o as (λ _. Next) [
      | unusable a ↦ go_on (again s (keep_partial (next_id p) a))
      | usable a ↦ lookup_done r.len a
    ]
      ≡ go_on q
    → Advances s p q
unfolding next_id
reading-Advances s p q r (unusable a) h k e =
    Advances-to s p (again s (keep_partial (next_id p) a)) q
      (again-Advances s (keep_partial (next_id p) a) h k) e
reading-Advances s p q r (usable a) h k e = cc

attempt_round-Advances :
    (s : Setup) (p q : Place) (a : Attempt)
    → InTable s p
    → p.retries < s.n_retries
    → attempt_round s (next_id p) a ≡ go_on q
    → Advances s p q
unfolding attempt_round next_id tryall
attempt_round-Advances s p q not_encoded h k e = cc
attempt_round-Advances s p q no_socket h k e =
    Advances-to s p (retry (next_id p)) q (retry-Advances s (next_id p) h k) e
attempt_round-Advances s p q unreachable h k e =
    Advances-to s p (tryall s (next_id p)) q (next_server-Advances s (next_id p) h k) e
attempt_round-Advances s p q not_connected h k e =
    Advances-to s p (retry (next_id p)) q (retry-Advances s (next_id p) h k) e
attempt_round-Advances s p q null_server h k e = cc
attempt_round-Advances s p q no_answer h k e =
    Advances-to s p (tryall s (next_id p)) q (next_server-Advances s (next_id p) h k) e
attempt_round-Advances s p q (received r) h k e =
    reading-Advances s p q r (check_reply s.wanted (next_id p) r) h k e

-- Every round that goes on advances.
pub lookup_round-Advances :
    (s : Setup) (p q : Place) (a : Attempt)
    → InTable s p
    → p.retries < s.n_retries
    → lookup_round s (next_id p) a ≡ go_on q
    → Advances s p q
unfolding lookup_round
lookup_round-Advances s p q a h k e = elim (Bool-cases (overruns s (next_id p))) [
  | inl o ↦ let d : lookup_overran ≡ go_on q = (rw (o, lookup_round) at e) in cc
  | inr o ↦ attempt_round-Advances s p q a h k (rw (o, lookup_round) at e)
]
