-- ===== src/Lookup/Host.antt =====
-- One name looked up: gethostbyname_r_2_async of eloop/dns.c. The buffer's parts are counted in bytes:
-- an address, two pointers to addresses, eight pointers to aliases (ALIAS_DIM), and the rest. What
-- inet_aton gives is a parameter, and so is what becomes of each query. The table of servers belongs to
-- this request alone, from its start to its end: no other request changes it while this one waits. An answer has four bytes of data.
use event_loop.Lookup.{
  Query, Attempt, not_encoded, no_socket, unreachable, not_connected, null_server, no_answer,
  received, Setup, LookupOutcome, gave_up, answered_by, overran, crashed, Resume, dns_lookup,
}
use event_loop.Lookup.Answers.{Answer, rdlength, t_a, Found, take_answer}
use event_loop.Prelude.{
  ltb, ◌==◌, if◌then◌else◌, take, ℕ, zero, suc, ◌+◌, ◌-◌, ◌*◌, Bool, true, false, Option, none,
  some, List, [], ◌∷◌,
}

-- `__nameservers`, `__nameserver` and `__searchdomain`; a slot that is not filled is `none`.
pub record ServerTable : Type 0 where
  pub nameservers : ℕ
  pub nameserver : List (Option (List ℕ))
  pub search_list : List (List ℕ)

-- The arguments. `ptr_size` is the size of a pointer.
pub record HostRequest : Type 0 where
  pub name_arg : Option (List ℕ)
  pub host_buflen : ℕ
  pub pointer : ℕ
  pub serverchoice : ℕ
  pub host_retries : ℕ

-- What is returned, and `*h_errnop`, which is not set for EINVAL. `process_faulty` stands for a call that
-- has read a null pointer or written behind a buffer: nothing is said of what follows.
pub data HostCode : Type 0 where
  netdb_success : HostCode
  einval : HostCode
  erange : HostCode
  try_again : HostCode
  process_faulty : HostCode

pub data HostErrno : Type 0 where
  not_set : HostErrno
  no_error : HostErrno
  netdb_internal : HostErrno
  host_not_found : HostErrno

-- The fields of `struct hostent` that depend on the lookup.
pub record HostEntry : Type 0 where
  pub h_name : List ℕ
  pub h_addr_list : List (List ℕ)

-- The code, the error and `*result`; and whether a name is freed that has been freed before.
pub record HostResult : Type 0 where
  pub code : HostCode
  pub host_errno : HostErrno
  pub entry : Option HostEntry
  pub freed_twice : Bool

abbrev pub no_entry : HostCode → HostErrno → HostResult
no_entry c e = record { code = c; host_errno = e; entry = none; freed_twice = false }

-- `__nameserverXX[0]`, and a write to it.
abbrev pub slot_at : ℕ → List (Option (List ℕ)) → Option (List ℕ)
slot_at i [] = none
slot_at zero (x ∷ xs) = x
slot_at (suc i) (x ∷ xs) = slot_at i xs

abbrev pub set_slot_zero : Option (List ℕ) → List (Option (List ℕ)) → List (Option (List ℕ))
set_slot_zero x [] = []
set_slot_zero x (y ∷ ys) = x ∷ ys

-- How many servers a lookup uses, and the slots while it runs.
unfoldable pub chosen_count : (serverchoice nameservers : ℕ) → ℕ
chosen_count serverchoice nameservers =
    if serverchoice == 1 then 1 else if serverchoice == 2 then 1 else nameservers

unfoldable pub chosen_slots : (serverchoice : ℕ) → List (Option (List ℕ)) → List (Option (List ℕ))
chosen_slots serverchoice slots =
    if serverchoice == 2 then set_slot_zero (slot_at 1 slots) slots else slots

-- The bytes in front of the rest of the buffer.
abbrev pub fixed_part : (ptr_size : ℕ) → ℕ
fixed_part ptr_size = 4 + ptr_size * 2 + ptr_size * 8

-- The entry of an answer with its addresses; the name is cut to what is left of the buffer.
unfoldable pub fill_entry : (ptr_size buflen : ℕ) → Found → HostEntry
fill_entry ptr_size buflen a =
    let left =
      if ltb 0 a.add_count
      then buflen - (a.add_count * rdlength a.leading + (a.add_count + 2) * ptr_size)
      else buflen in
    record {
      h_name = take left a.leading.dotted;
      h_addr_list = take 4 a.leading.rdata ∷ take a.add_count a.copied;
    }

-- What a lookup has given, for a buffer with `buflen` bytes left.
unfoldable pub host_result : (ptr_size buflen : ℕ) → LookupOutcome → HostResult
unfolding fill_entry
host_result ptr_size buflen overran = no_entry process_faulty not_set
host_result ptr_size buflen crashed = no_entry process_faulty not_set
host_result ptr_size buflen gave_up = no_entry try_again host_not_found
host_result ptr_size buflen (answered_by len a) =
    if ltb buflen ((rdlength a.leading + ptr_size) * a.add_count + 256)
    then record {
      code = erange;
      host_errno = netdb_internal;
      entry = none;
      freed_twice = a.dotted_freed;
    }
    else if a.leading.atype == t_a
    then record {
      code = netdb_success;
      host_errno = no_error;
      entry = some (fill_entry ptr_size buflen a);
      freed_twice = a.dotted_freed;
    }
    else record {
      code = try_again;
      host_errno = host_not_found;
      entry = none;
      freed_twice = a.dotted_freed;
    }

-- An address given as a name.
abbrev pub numeric_entry : List ℕ → List ℕ → HostResult
numeric_entry name address = record {
  code = netdb_success;
  host_errno = no_error;
  entry = some record { h_name = name; h_addr_list = address ∷ [] };
  freed_twice = false;
}

-- What __dns_lookup_async is called with; `buflen` is what is left behind the fixed part.
abbrev pub lookup_setup : HostRequest → (name : List ℕ) → (buflen : ℕ) → ServerTable → Setup
lookup_setup q name buflen t = record {
  nscount = chosen_count q.serverchoice t.nameservers;
  n_retries = q.host_retries;
  searchdomain = t.search_list;
  name = name;
  wanted = record { qtype = t_a; has_buf = true; buflen = buflen; ptr_size = q.pointer };
}

-- `a` before the lookup: what its fields hold is not set but for the count.
abbrev pub empty_answer : Answer → Found
empty_answer m = take_answer m 0 [] false

-- inet_addr with the server's slot: a query that has been encoded and has its socket needs a filled slot.
unfoldable pub to_null : Attempt → Attempt
to_null not_encoded = not_encoded
to_null no_socket = no_socket
to_null unreachable = null_server
to_null not_connected = null_server
to_null null_server = null_server
to_null no_answer = null_server
to_null (received r) = null_server

unfoldable pub ask_slot :
    (ask : List (Option (List ℕ)) → List Query → Query → Attempt)
    → List (Option (List ℕ))
    → List Query
    → Query
    → Attempt
unfolding to_null
ask_slot ask slots asked q = elim (slot_at q.server slots) [
  | none ↦ to_null (ask slots asked q)
  | some server ↦ ask slots asked q
]

-- A lookup behind the checks, with the slots of the choice. No other lookup changes the table while this
-- one waits: lookups that overlap are in Lookup/Overlap.antt.
unfoldable pub host_lookup :
    (ask : List (Option (List ℕ)) → List Query → Query → Attempt)
    → Answer
    → HostRequest
    → (name : List ℕ) → (buflen : ℕ) → ServerTable
    → Resume
    → Option (HostResult × Resume)
unfolding dns_lookup host_result chosen_slots chosen_count ask_slot
host_lookup ask m q name buflen t g =
    elim (dns_lookup (lookup_setup q name buflen t)
      (ask_slot ask (chosen_slots q.serverchoice t.nameserver)) (empty_answer m) g) [
        | none ↦ none
        | some (asked, g', r) ↦ some (host_result q.pointer buflen r, g')
      ]

-- gethostbyname_r_2_async, where no other lookup runs meanwhile. The slot that the choice has changed is
-- written back behind the lookup.
unfoldable pub gethostbyname_r_2 :
    (inet_aton : List ℕ → Option (List ℕ))
    → (ask : List (Option (List ℕ)) → List Query → Query → Attempt) → Answer
    → HostRequest
    → ServerTable
    → Resume
    → Option (HostResult × ServerTable × Resume)
unfolding host_lookup
gethostbyname_r_2 inet_aton ask m q t g = elim q.name_arg [
  | none ↦ some (no_entry einval not_set, t, g)
  | some name ↦
      if ltb q.host_buflen (fixed_part q.pointer + 256)
      then some (no_entry erange netdb_internal, t, g)
      else elim (inet_aton name) [
        | some address ↦
            some (numeric_entry (take (q.host_buflen - fixed_part q.pointer) name) address, t, g)
        | none ↦ elim (host_lookup ask m q name (q.host_buflen - fixed_part q.pointer) t g) [
          | none ↦ none
          | some (r, g') ↦ some (
            r,
            record {
              nameservers = t.nameservers;
              nameserver =
                  set_slot_zero (slot_at 0 t.nameserver) (chosen_slots q.serverchoice t.nameserver);
              search_list = t.search_list;
            },
            g',
          )
        ]
      ]
]
