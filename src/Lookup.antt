-- ===== src/Lookup.antt =====
-- Asking the name servers: __dns_lookup_async of eloop/dns.c, with its servers, search domains and tries.
-- A byte is a number, a name a list of bytes. The message codec is a copy of uClibc's and the sockets are
-- the system's: an `Attempt` says what they gave for one query.
pub mod Answers
pub mod Rounds
pub mod Progress
pub mod Silent
pub mod Refused
pub mod Overruns
pub mod Copies
pub mod Addresses
pub mod Host
pub mod Answered
pub mod Kept
pub mod Overlap
pub mod Shares
pub use Answers.*
use event_loop.Prelude.{
  ltb, leb, ◌==◌, if◌then◌else◌, length, get_elem?, ℕ, zero, suc, ◌+◌, ◌*◌, ◌%◌, Bool, true, false,
  not, ◌&&◌, ◌||◌, Option, none, some, List, [], ◌∷◌, ◌++◌,
}

-- One query as the loop sends it: its id, the server it goes to, the name it asks for.
pub record Query : Type 0 where
  pub id : ℕ
  pub server : ℕ
  pub name : List ℕ

-- A message that has been received, as __decode_header, __length_question and __decode_answer read it:
-- one length (`none` where it is negative) for each of `qdcount` questions, and one answer (`none` where
-- it cannot be decoded) for each of `ancount`.
pub record DnsReply : Type 0 where
  pub len : ℕ
  pub id : ℕ
  pub qr : Bool
  pub rcode : ℕ
  pub questions : List (Option ℕ)
  pub answers : List (Option Answer)

-- What becomes of one query: a call that fails before it is sent (the encoder, the socket, connect), a
-- timeout, or a message; `null_server` is inet_addr with the null pointer of a slot that is not filled.
pub data Attempt : Type 0 where
  not_encoded : Attempt
  no_socket : Attempt
  unreachable : Attempt
  not_connected : Attempt
  null_server : Attempt
  no_answer : Attempt
  received : DnsReply → Attempt

-- The locals `local_ns`, `variant`, `local_id` and `retries`, and the answer `*a` as the last message has
-- left it. `tried` is `variant` + 1, the number of search domains tried at this server.
pub record Place : Type 0 where
  pub local_ns : ℕ
  pub tried : ℕ
  pub local_id : ℕ
  pub retries : ℕ
  pub partial : Found

-- The numbers that stay the same: `nscount`, `nRetries`, the domains of `__searchdomain`, the name, and
-- what is asked.
pub record Setup : Type 0 where
  pub nscount : ℕ
  pub n_retries : ℕ
  pub searchdomain : List (List ℕ)
  pub name : List ℕ
  pub wanted : Wanted

-- The name in `lookup`, where nothing is written behind its end (`overruns` below): the dot is copied
-- behind the name, and then the domain to the same place. A name is shorter than MAXDNAME.
unfoldable pub lookup_name : (name : List ℕ) → (searchdomain : List (List ℕ)) → (tried : ℕ) → List ℕ
lookup_name name searchdomain zero = name
lookup_name name searchdomain (suc variant) = elim (get_elem? searchdomain variant) [
  | none ↦ name
  | some domain ↦ name ++ domain
]

-- The next server, and another try behind the last.
unfoldable pub next_server : (nscount : ℕ) → Place → Place
next_server nscount p =
    let local_ns = if p.local_ns + 1 == nscount then 0 else p.local_ns + 1 in
    record {
      local_ns = local_ns;
      tried = 0;
      local_id = p.local_id;
      retries = if local_ns == 0 then suc p.retries else p.retries;
      partial = p.partial;
    }

-- The label `tryall`.
unfoldable pub tryall : Setup → Place → Place
unfolding next_server
tryall s p = next_server s.nscount p

-- The label `again`: the next search domain, or the next server.
unfoldable pub again : Setup → Place → Place
unfolding next_server
again s p =
    if ltb p.tried (length s.searchdomain)
    then record {
      local_ns = p.local_ns;
      tried = suc p.tried;
      local_id = p.local_id;
      retries = p.retries;
      partial = p.partial;
    }
    else next_server s.nscount p

-- Another try at the same place.
unfoldable pub retry : Place → Place
retry p = record {
  local_ns = p.local_ns;
  tried = p.tried;
  local_id = p.local_id;
  retries = suc p.retries;
  partial = p.partial;
}

-- Whether every question could be skipped.
abbrev pub skips_questions : List (Option ℕ) → Bool
skips_questions [] = true
skips_questions (none ∷ qs) = false
skips_questions (some n ∷ qs) = skips_questions qs

-- The guards on a message, and its answers; `unusable` leads to `again`.
unfoldable pub check_reply : Wanted → Place → DnsReply → Reading
unfolding first_answers
check_reply w p r =
    if ltb r.len 12
      || (not (r.id == p.local_id) || not r.qr)
      || (not (r.rcode == 0) || ltb (length r.answers) 1)
      || not (skips_questions r.questions)
    then unusable p.partial
    else first_answers w p.partial r.answers

-- `*a` behind a message that is not used.
abbrev pub keep_partial : Place → Found → Place
keep_partial p a = record {
  local_ns = p.local_ns;
  tried = p.tried;
  local_id = p.local_id;
  retries = p.retries;
  partial = a;
}

-- What one round of the loop leads to; `lookup_overran` is a write behind the end of `lookup`,
-- `lookup_crashed` the read of a null pointer.
pub data Next : Type 0 where
  lookup_overran : Next
  lookup_crashed : Next
  lookup_failed : Next
  go_on : Place → Next
  lookup_done : (len : ℕ) → Found → Next

-- A round of the loop behind the query: `p` is the place with the id of the query.
unfoldable pub attempt_round : Setup → Place → Attempt → Next
unfolding retry tryall again check_reply
attempt_round s p not_encoded = lookup_failed
attempt_round s p no_socket = go_on (retry p)
attempt_round s p unreachable = go_on (tryall s p)
attempt_round s p not_connected = go_on (retry p)
attempt_round s p null_server = lookup_crashed
attempt_round s p no_answer = go_on (tryall s p)
attempt_round s p (received r) = elim (check_reply s.wanted p r) [
  | unusable a ↦ go_on (again s (keep_partial p a))
  | usable a ↦ lookup_done r.len a
]

-- strncpy fills MAXDNAME bytes from `lookup` + `nameLen` on, and `lookup` has MAXDNAME bytes: with a
-- domain, it writes behind the end by as many bytes as the name has.
unfoldable pub overruns : Setup → Place → Bool
overruns s p = ltb 0 p.tried && leb p.tried (length s.searchdomain) && ltb 0 (length s.name)

-- A round of the loop, the name included.
unfoldable pub lookup_round : Setup → Place → Attempt → Next
unfolding attempt_round overruns
lookup_round s p a = if overruns s p then lookup_overran else attempt_round s p a

-- The id of the next query.
unfoldable pub next_id : Place → Place
next_id p = record {
  local_ns = p.local_ns;
  tried = p.tried;
  local_id = (p.local_id + 1) % 65536;
  retries = p.retries;
  partial = p.partial;
}

abbrev pub query : Setup → Place → Query
query s p = record {
  id = p.local_id;
  server = p.local_ns;
  name = lookup_name s.name s.searchdomain p.tried;
}

-- What a lookup ends with: -1, the length and the answers, or what is no result of the call: a write
-- behind a buffer, or a null pointer that is read.
pub data LookupOutcome : Type 0 where
  gave_up : LookupOutcome
  answered_by : (len : ℕ) → Found → LookupOutcome
  overran : LookupOutcome
  crashed : LookupOutcome

-- How a lookup ends: the place it has reached, and what it ends with.
pub record Ending : Type 0 where
  pub place : Place
  pub result : LookupOutcome

-- The loop, with the query of every round in their order; `ask` gives what becomes of each. Without fuel it has no
-- result.
unfoldable pub lookup_loop :
    (fuel : ℕ)
    → Setup
    → (ask : List Query → Query → Attempt) → (asked : List Query) → Place
    → Option (List Query × Ending)
unfolding next_id lookup_round
lookup_loop zero s ask asked p = none
lookup_loop (suc fuel) s ask asked p = elim (ltb p.retries s.n_retries) [
  | false ↦ some (asked, record { place = p; result = gave_up })
  | true ↦
      let at_query = next_id p in
      let asked' = asked ++ query s at_query ∷ [] in
      elim (lookup_round s at_query (ask asked (query s at_query))) [
        | lookup_overran ↦ some (asked, record { place = at_query; result = overran })
        | lookup_crashed ↦ some (asked, record { place = at_query; result = crashed })
        | lookup_failed ↦ some (asked', record { place = at_query; result = gave_up })
        | go_on p' ↦ lookup_loop fuel s ask asked' p'
        | lookup_done len a ↦ some (asked', record { place = at_query; result = answered_by len a })
      ]
]

-- The globals `ns` and `id`.
pub record Resume : Type 0 where
  pub ns : ℕ
  pub id : ℕ

-- The most queries of a lookup.
abbrev pub most_queries : Setup → ℕ
most_queries s = s.n_retries * s.nscount * suc (length s.searchdomain)

-- __dns_lookup_async: the queries, the globals behind it, and the result. The fuel is
-- one round more than the most queries. The memory for the packet and the name is always there.
unfoldable pub dns_lookup :
    Setup
    → (ask : List Query → Query → Attempt) → (a : Found) → Resume
    → Option (List Query × Resume × LookupOutcome)
unfolding lookup_loop
dns_lookup s ask a g =
    if s.nscount == 0
    then some ([], g, gave_up)
    else elim (lookup_loop (suc (most_queries s)) s ask [] record {
      local_ns = g.ns % s.nscount;
      tried = 0;
      local_id = g.id;
      retries = 0;
      partial = a;
    }) [
      | none ↦ none
      | some (asked, e) ↦
          some (asked, record { ns = e.place.local_ns; id = e.place.local_id }, e.result)
    ]
