-- ===== src/Tests/Lookups.antt =====
-- Lookups of names with two servers and one search domain.
use event_loop.Lookup.{
  Query, DnsReply, Attempt, no_answer, received, Setup, lookup_name, next_id, LookupOutcome,
  gave_up, Resume, dns_lookup,
}
use event_loop.Lookup.Answered.{gethostbyname_r_2-addresses, gethostbyname_r_2-others}
use event_loop.Lookup.Answers.{Answer, t_a, first_answers}
use event_loop.Lookup.Copies.{bytes_copied, left_by, first_answers-bound}
use event_loop.Lookup.Host.{
  ServerTable, HostRequest, netdb_success, try_again, process_faulty, not_set, no_error,
  host_not_found, HostEntry, chosen_count, chosen_slots, empty_answer, ask_slot, gethostbyname_r_2,
}
use event_loop.Lookup.Overlap.{chooses, restores, Shared, table_steps}
use event_loop.Lookup.Progress.{dns_lookup-ends}
use event_loop.Lookup.Refused.{asked_for, dns_lookup-refused}
use event_loop.Lookup.Shares.{table_steps-leave}
use event_loop.Lookup.Silent.{servers, dns_lookup-silent}
use event_loop.Prelude.{
  length, ℕ, ◌≤◌, ◌<◌, ◌≡◌, refl, inl, inr, true, false, Option, none, some, List, [], ◌∷◌, arith,
}

-- An answer with an address, and one of another type (an alias).
abbrev address : (last : ℕ) → Answer
address last = record { atype = 1; rdata = 10 ∷ 0 ∷ 0 ∷ last ∷ []; dotted = 104 ∷ [] }

abbrev other_type : Answer
other_type = record { atype = 5; rdata = 1 ∷ 97 ∷ 0 ∷ []; dotted = 104 ∷ [] }

abbrev two_slots : List (Option (List ℕ))
two_slots = some (49 ∷ []) ∷ some (50 ∷ []) ∷ none ∷ []

abbrev server_table : ServerTable
server_table = record { nameservers = 2; nameserver = two_slots; search_list = (100 ∷ []) ∷ [] }

abbrev request : HostRequest
request = record {
  name_arg = some (104 ∷ []);
  host_buflen = 512;
  pointer = 4;
  serverchoice = 0;
  host_retries = 2;
}

abbrev small_setup : Setup
small_setup = record {
  nscount = 2;
  n_retries = 2;
  searchdomain = (100 ∷ []) ∷ [];
  name = 104 ∷ [];
  wanted = record { qtype = t_a; has_buf = true; buflen = 512; ptr_size = 4 };
}

abbrev no_servers_answer : List Query → Query → Attempt
no_servers_answer asked q = no_answer

-- A message to the query with the id 8.
abbrev message : List (Option Answer) → DnsReply
message ms = record {
  len = 60;
  id = 8;
  qr = true;
  rcode = 0;
  questions = some 20 ∷ [];
  answers = ms;
}

abbrev answer_with : List (Option Answer) → List (Option (List ℕ)) → List Query → Query → Attempt
answer_with ms slots asked q = received (message ms)

abbrev resume : Resume
resume = record { ns = 1; id = 7 }

abbrev no_addresses : List ℕ → Option (List ℕ)
no_addresses name = none

-- Three queries: from the second server on.
silent_test :
    dns_lookup small_setup no_servers_answer (empty_answer other_type) resume
    ≡ some (
      record { id = 8; server = 1; name = 104 ∷ [] }
          ∷ record { id = 9; server = 0; name = 104 ∷ [] }
          ∷ record { id = 10; server = 1; name = 104 ∷ [] }
          ∷ [],
      record { ns = 0; id = 10 },
      gave_up,
    )
unfolding dns_lookup lookup_name
silent_test = refl

dns_lookup-ends_example :
    (out : List Query × Resume × LookupOutcome) × (dns_lookup small_setup no_servers_answer
        (empty_answer other_type)
        resume
      ≡ some out)
    × (length (out.0) ≤ 8)
    × (out.1.ns < 2)
dns_lookup-ends_example =
    dns_lookup-ends small_setup no_servers_answer (empty_answer other_type) resume (omega arith)

dns_lookup-silent_example :
    (out : List Query × Resume × LookupOutcome) × (dns_lookup small_setup no_servers_answer
        (empty_answer other_type)
        resume
      ≡ some out)
    × (servers (out.0) ≡ 1 ∷ 0 ∷ 1 ∷ [])
    × (out.2 ≡ gave_up)
dns_lookup-silent_example =
    dns_lookup-silent small_setup no_servers_answer (empty_answer other_type) resume (omega arith)
      (omega arith) (λ asked q. inl refl)

gethostbyname_r_2-addresses_example :
    (e : HostEntry) × (e.h_addr_list ≡ (10 ∷ 0 ∷ 0 ∷ 1 ∷ []) ∷ (10 ∷ 0 ∷ 0 ∷ 2 ∷ []) ∷ [])
    × (gethostbyname_r_2 no_addresses
          (answer_with
            (some other_type ∷ some (address 1) ∷ some other_type ∷ some (address 2) ∷ []))
          other_type
          request
          server_table
          resume
        ≡ some (
          record {
            code = netdb_success;
            host_errno = no_error;
            entry = some e;
            freed_twice = false;
          },
          server_table,
          record { ns = 1; id = 8 },
        ))
unfolding chosen_count ask_slot chosen_slots next_id
gethostbyname_r_2-addresses_example =
    gethostbyname_r_2-addresses no_addresses
      (answer_with (some other_type ∷ some (address 1) ∷ some other_type ∷ some (address 2) ∷ []))
      other_type request (104 ∷ []) server_table resume
      (message (some other_type ∷ some (address 1) ∷ some other_type ∷ some (address 2) ∷ []))
      (other_type ∷ []) (other_type ∷ address 2 ∷ []) (address 1)
      (refl, omega arith, refl, omega arith, omega arith) refl
      (omega arith, refl, refl, refl, omega arith, refl) refl (refl, tt) refl
      ((λ e. cc), ((λ e. refl), tt)) (omega arith)

gethostbyname_r_2-others_example :
    gethostbyname_r_2 no_addresses
      (answer_with (some other_type ∷ []))
      other_type
      request
      server_table
      resume
    ≡ some (
      record { code = try_again; host_errno = host_not_found; entry = none; freed_twice = true },
      server_table,
      record { ns = 1; id = 8 },
    )
unfolding chosen_count ask_slot chosen_slots next_id
gethostbyname_r_2-others_example =
    gethostbyname_r_2-others no_addresses (answer_with (some other_type ∷ [])) other_type request
      (104 ∷ []) server_table resume (message (some other_type ∷ [])) other_type []
      (refl, omega arith, refl, omega arith, omega arith) refl
      (omega arith, refl, refl, refl, omega arith, refl) refl (refl, tt)

first_answers-bound_example :
    bytes_copied (
      left_by (
        first_answers small_setup.wanted
          (empty_answer other_type)
          (some (address 1) ∷ some (address 2) ∷ none ∷ [])))
    ≤ 512
first_answers-bound_example =
    first_answers-bound small_setup.wanted (empty_answer other_type)
      (some (address 1) ∷ some (address 2) ∷ none ∷ []) (omega arith)

abbrev not_waiting : Shared
not_waiting = record { slots = two_slots; backups = [] }

table_steps-leave_example :
    (table_steps (chooses 1 0 ∷ chooses 2 1 ∷ restores 1 ∷ restores 2 ∷ []) not_waiting).slots
    ≡ two_slots
table_steps-leave_example =
    table_steps-leave (some (49 ∷ [])) (chooses 1 0 ∷ chooses 2 1 ∷ restores 1 ∷ restores 2 ∷ [])
      not_waiting (refl, (refl, (tt, (tt, tt)))) (tt, refl)

-- Every server answers that there is no such name.
abbrev refusal : DnsReply
refusal = record { len = 20; id = 0; qr = true; rcode = 3; questions = []; answers = [] }

abbrev refuse_all : List Query → Query → Attempt
refuse_all asked q = received refusal

abbrev no_domains : Setup
no_domains = record small_setup { searchdomain = [] }

dns_lookup-refused_example :
    (out : List Query × Resume × LookupOutcome) × (dns_lookup no_domains refuse_all
        (empty_answer other_type)
        resume
      ≡ some out)
    × (asked_for (out.0) ≡ (1, 104 ∷ []) ∷ (0, 104 ∷ []) ∷ (1, 104 ∷ []) ∷ [])
    × (out.2 ≡ gave_up)
dns_lookup-refused_example =
    dns_lookup-refused no_domains refuse_all (empty_answer other_type) resume (omega arith)
      (omega arith) (λ asked q. (refusal, refl, refl)) (inr refl)

-- The second server's slot is asked for and is not filled.
null_test :
    gethostbyname_r_2 no_addresses
      (answer_with [])
      other_type
      request
      (record server_table { nameserver = some (49 ∷ []) ∷ none ∷ [] })
      resume
    ≡ some (
      record { code = process_faulty; host_errno = not_set; entry = none; freed_twice = false },
      record server_table { nameserver = some (49 ∷ []) ∷ none ∷ [] },
      record { ns = 1; id = 8 },
    )
unfolding gethostbyname_r_2 lookup_name
null_test = refl
