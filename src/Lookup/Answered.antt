-- ===== src/Lookup/Answered.antt =====
-- A lookup of eloop/dns.c whose first query is answered, from the message to the caller's entry.
use native.Mathlib.Nat.{mul-le-mul_left}
use event_loop.Lookup.{
  Query, DnsReply, Attempt, received, Place, Setup, skips_questions, check_reply, attempt_round,
  lookup_round, next_id, query, answered_by, lookup_loop, Resume, dns_lookup,
}
use event_loop.Lookup.Addresses.{
  data_of, IsOther, HasLength, first_answers-addresses, first_answers-others,
}
use event_loop.Lookup.Answers.{
  Answer, rdlength, Wanted, t_a, Found, usable, take_answer, first_answers,
}
use event_loop.Lookup.Host.{
  ServerTable, HostRequest, netdb_success, try_again, no_error, host_not_found, HostEntry,
  chosen_count, chosen_slots, fixed_part, fill_entry, host_result, lookup_setup, empty_answer,
  ask_slot, host_lookup, gethostbyname_r_2,
}
use event_loop.Lookup.Kept.{set_slot-restores}
use event_loop.Lookup.Progress.{lookup_start}
use event_loop.Lookup.Silent.{first-overruns}
use event_loop.Prelude.{
  ltb, ◌==◌, lt→ltb, ==_iff, Bool-cases, ltb-ge, ==-gt, length, take, All, take-all, ℕ, ◌+◌, ◌-◌,
  ◌*◌, ◌%◌, ◌≤◌, ◌<◌, ◌≡◌, refl, ◌∙◌, inl, inr, true, false, Option, none, some, List, [], ◌∷◌,
  ◌++◌, map, arith,
}

-- The guards on a message that answers a query with this id.
abbrev pub AnswersQuery : ℕ → DnsReply → Type 0
AnswersQuery id r =
    (12 ≤ r.len)
    × ((r.id == id) ≡ true)
    × (r.qr ≡ true)
    × (r.rcode ≡ 0)
    × (1 ≤ length r.answers)
    × (skips_questions r.questions ≡ true)

check_reply-answers :
    (w : Wanted) (p : Place) (r : DnsReply)
    → AnswersQuery p.local_id r
    → check_reply w p r ≡ first_answers w p.partial r.answers
unfolding check_reply
check_reply-answers w p r (l, i, q, c, n, k) =
    rw (ltb-ge r.len 12 l) (rw i (rw q (rw c (rw (ltb-ge (length r.answers) 1 n) (rw k refl)))))

-- The first query is answered.
dns_lookup-first :
    (s : Setup) (ask : List Query → Query → Attempt) (a b : Found) (g : Resume) (r : DnsReply)
    → 0 < s.nscount
    → 0 < s.n_retries
    → ask [] (query s (next_id (lookup_start s a g))) ≡ received r
    → AnswersQuery ((g.id + 1) % 65536) r
    → first_answers s.wanted a r.answers ≡ usable b
    → dns_lookup s ask a g
      ≡ some (
        query s (next_id (lookup_start s a g)) ∷ [],
        record { ns = g.ns % s.nscount; id = (g.id + 1) % 65536 },
        answered_by r.len b,
      )
unfolding dns_lookup lookup_loop lookup_round attempt_round next_id
dns_lookup-first s ask a b g r h k e ans f =
    let c : check_reply s.wanted (next_id (lookup_start s a g)) r ≡ usable b =
      check_reply-answers s.wanted (next_id (lookup_start s a g)) r ans ∙ f in
    let z = first-overruns s (next_id (lookup_start s a g)) refl in
    rw (==-gt s.nscount 0 h) (
      rw (lt→ltb 0 s.n_retries k, lookup_loop)
        (rw (z, lookup_loop) (rw (e, lookup_loop) (rw (c, lookup_loop) refl))))

-- A request behind the checks of the buffer, for a name that is no address, with a server and a try.
abbrev pub IsLookup :
    (List ℕ → Option (List ℕ)) → HostRequest → (name : List ℕ) → ServerTable → Type 0
IsLookup inet_aton q name t =
    (q.name_arg ≡ some name)
    × (fixed_part q.pointer + 256 ≤ q.host_buflen)
    × (inet_aton name ≡ none)
    × (0 < chosen_count q.serverchoice t.nameservers)
    × (0 < q.host_retries)

-- The bytes left behind the fixed part.
abbrev pub bytes_left : HostRequest → ℕ
bytes_left q = q.host_buflen - fixed_part q.pointer

-- The first query of a lookup.
abbrev pub first_query : HostRequest → (name : List ℕ) → ServerTable → Answer → Resume → Query
first_query q name t m g =
    query (lookup_setup q name (bytes_left q) t)
      (next_id (lookup_start (lookup_setup q name (bytes_left q) t) (empty_answer m) g))

-- The outcome of a request whose first query is answered.
gethostbyname-first :
    (inet_aton : List ℕ → Option (List ℕ))
    (ask : List (Option (List ℕ)) → List Query → Query → Attempt) (m : Answer) (q : HostRequest)
    (name : List ℕ) (t : ServerTable) (g : Resume) (r : DnsReply) (b : Found)
    → IsLookup inet_aton q name t
    → ask_slot ask (chosen_slots q.serverchoice t.nameserver) [] (first_query q name t m g)
      ≡ received r
    → AnswersQuery ((g.id + 1) % 65536) r
    → first_answers (lookup_setup q name (bytes_left q) t).wanted (empty_answer m) r.answers
      ≡ usable b
    → gethostbyname_r_2 inet_aton ask m q t g
      ≡ some (
        host_result q.pointer (bytes_left q) (answered_by r.len b),
        t,
        record { ns = g.ns % chosen_count q.serverchoice t.nameservers; id = (g.id + 1) % 65536 },
      )
unfolding gethostbyname_r_2 host_lookup
gethostbyname-first inet_aton ask m q name t g r b (e, f, i, c, k) h ans u =
    let d =
      dns_lookup-first (lookup_setup q name (bytes_left q) t)
        (ask_slot ask (chosen_slots q.serverchoice t.nameserver)) (empty_answer m) b g r c k h ans
        u in
    rw e (
      rw (ltb-ge q.host_buflen (fixed_part q.pointer + 256) f)
        (rw i (rw d (rw (set_slot-restores q.serverchoice t.nameserver) refl))))

length-data_of : (t : ℕ) (ms : List Answer) → length (data_of t ms) ≤ length ms
length-data_of t [] = omega arith
length-data_of t (m ∷ ms) = elim (Bool-cases (m.atype == t)) [
  | inl e ↦ rw e (omega (arith, length-data_of t ms))
  | inr e ↦ rw e (omega (arith, length-data_of t ms))
]

fits-count :
    (post : List Answer) (a : Answer) (p b : ℕ)
    → (rdlength a + p) * length post + 256 ≤ b
    → (rdlength a + p) * length (data_of t_a post) + 256 ≤ b
fits-count post a p b h = omega (arith, mul-le-mul_left (rdlength a + p) (length-data_of t_a post))

host_result-room :
    (p left len : ℕ) (b : Found)
    → (rdlength b.leading + p) * b.add_count + 256 ≤ left
    → b.leading.atype ≡ t_a
    → host_result p left (answered_by len b) ≡ record {
      code = netdb_success;
      host_errno = no_error;
      entry = some (fill_entry p left b);
      freed_twice = b.dotted_freed;
    }
unfolding host_result
host_result-room p left len b h ty =
    rw (ltb-ge left ((rdlength b.leading + p) * b.add_count + 256) h) (rw ((==_iff _ _).1 ty) refl)

-- A request for a name leads to the addresses of the first message, if that is well-formed and fits,
-- and no other request changes the table meanwhile: where the server's slot is filled, the message answers the first query, can be decoded, has answers of other types before an answer
-- with an address, and behind it any answers whose addresses are as long, and where the buffer has room
-- for as many addresses and pointers as answers follow and 256 bytes more, the entry has this address
-- and the later ones in their order. The table of servers stays as it was, and the next lookup starts at
-- the server that has answered.
pub gethostbyname_r_2-addresses :
    (inet_aton : List ℕ → Option (List ℕ))
    (ask : List (Option (List ℕ)) → List Query → Query → Attempt) (m : Answer) (q : HostRequest)
    (name : List ℕ) (t : ServerTable) (g : Resume) (r : DnsReply) (pre post : List Answer)
    (a : Answer)
    → IsLookup inet_aton q name t
    → ask_slot ask (chosen_slots q.serverchoice t.nameserver) [] (first_query q name t m g)
      ≡ received r
    → AnswersQuery ((g.id + 1) % 65536) r
    → r.answers ≡ map some (pre ++ a ∷ post)
    → All (IsOther t_a) pre
    → a.atype ≡ t_a
    → All (HasLength t_a (rdlength a)) post
    → (rdlength a + q.pointer) * length post + 256 ≤ bytes_left q
    → (e : HostEntry) × (e.h_addr_list ≡ take 4 a.rdata ∷ data_of t_a post)
      × (gethostbyname_r_2 inet_aton ask m q t g
          ≡ some (
            record {
              code = netdb_success;
              host_errno = no_error;
              entry = some e;
              freed_twice = false;
            },
            t,
            record {
              ns = g.ns % chosen_count q.serverchoice t.nameservers;
              id = (g.id + 1) % 65536;
            },
          ))
unfolding host_result fill_entry
gethostbyname_r_2-addresses inet_aton ask m q name t g r pre post a look h ans e o ty l f =
    let b : Found = take_answer a (length (data_of t_a post)) (data_of t_a post) false in
    let u =
      first_answers-addresses (lookup_setup q name (bytes_left q) t).wanted (empty_answer m) pre
        post a (refl, refl) o ((==_iff _ _).1 ty) (omega arith) l in
    let k = gethostbyname-first inet_aton ask m q name t g r b look h ans (rw e u) in
    let ds = data_of t_a post in
    (
      fill_entry q.pointer (bytes_left q) b,
      rw (take-all (length ds) ds (omega arith)) refl,
      k
          ∙ rw
              (host_result-room q.pointer (bytes_left q) r.len b (fits-count post a q.pointer _ f)
                ty)
              refl,
    )

-- Where the server's slot is filled, the first message answers the query and can be decoded, but none of its answers has an address,
-- the request fails with TRY_AGAIN and no entry, without another query, and frees a name twice (the
-- answer's name has been freed in the loop over the answers, and is freed once more behind it).
pub gethostbyname_r_2-others :
    (inet_aton : List ℕ → Option (List ℕ))
    (ask : List (Option (List ℕ)) → List Query → Query → Attempt) (m : Answer) (q : HostRequest)
    (name : List ℕ) (t : ServerTable) (g : Resume) (r : DnsReply) (a : Answer)
    (others : List Answer)
    → IsLookup inet_aton q name t
    → ask_slot ask (chosen_slots q.serverchoice t.nameserver) [] (first_query q name t m g)
      ≡ received r
    → AnswersQuery ((g.id + 1) % 65536) r
    → r.answers ≡ map some (a ∷ others)
    → All (IsOther t_a) (a ∷ others)
    → gethostbyname_r_2 inet_aton ask m q t g
      ≡ some (
        record { code = try_again; host_errno = host_not_found; entry = none; freed_twice = true },
        t,
        record { ns = g.ns % chosen_count q.serverchoice t.nameservers; id = (g.id + 1) % 65536 },
      )
unfolding host_result
gethostbyname_r_2-others inet_aton ask m q name t g r a others look h ans e o =
    let (l, u, ty) =
      first_answers-others (lookup_setup q name (bytes_left q) t).wanted (empty_answer m) a others
        (refl, refl) o in
    let k =
      gethostbyname-first inet_aton ask m q name t g r (take_answer l 0 [] true) look h ans
        (rw e u) in
    let room : ltb (bytes_left q) ((rdlength l + q.pointer) * 0 + 256) ≡ false =
      ltb-ge _ _ (omega (arith, look.1)) in
    k ∙ rw room (rw ty refl)
