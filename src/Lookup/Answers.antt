-- ===== src/Lookup/Answers.antt =====
-- The loop over the answers of a message in __dns_lookup_async of eloop/dns.c, which __decode_answer gives
-- one by one. Bytes and types are numbers.
use event_loop.Prelude.{
  ltb, ◌==◌, length, ℕ, suc, ◌+◌, ◌*◌, Bool, true, false, not, ◌&&◌, ◌||◌, Option, none, some, List,
  [], ◌∷◌, ◌++◌,
}

-- The fields of `struct resolv_answer` that the loop reads: the type, the data and the name.
pub record Answer : Type 0 where
  pub atype : ℕ
  pub rdata : List ℕ
  pub dotted : List ℕ

-- `rdlength`
abbrev pub rdlength : Answer → ℕ
rdlength m = length m.rdata

-- What is asked: `type`, whether there is a buffer and how many bytes it has, and `sizeof(struct in_addr*)`.
pub record Wanted : Type 0 where
  pub qtype : ℕ
  pub has_buf : Bool
  pub buflen : ℕ
  pub ptr_size : ℕ

abbrev pub t_a : ℕ
t_a = 1

abbrev pub t_sig : ℕ
t_sig = 24

abbrev pub t_aaaa : ℕ
t_aaaa = 28

-- `*a` behind the loop: its first answer, `add_count`, what has been copied to `buf`, and whether
-- `dotted` has been freed.
pub record Found : Type 0 where
  pub leading : Answer
  pub add_count : ℕ
  pub copied : List (List ℕ)
  pub dotted_freed : Bool

-- How the loop ends: at `again`, or behind the last answer it reads.
pub data Reading : Type 0 where
  unusable : Found → Reading
  usable : Found → Reading

-- An answer put into `*a`.
abbrev pub take_answer : Answer → (add_count : ℕ) → (copied : List (List ℕ)) → Bool → Found
take_answer m add_count copied dotted_freed = record {
  leading = m;
  add_count = add_count;
  copied = copied;
  dotted_freed = dotted_freed;
}

-- The answer's name is freed.
abbrev pub free_dotted : Found → Found
free_dotted a = take_answer a.leading a.add_count a.copied true

-- The address of a further answer behind those copied before.
unfoldable pub copy_address : Answer → Found → Found
copy_address m a = record {
  leading = a.leading;
  add_count = suc a.add_count;
  copied = a.copied ++ m.rdata ∷ [];
  dotted_freed = a.dotted_freed;
}

-- The loop from the first answer of the type that is asked on.
unfoldable pub more_answers : Wanted → Found → List (Option Answer) → Reading
unfolding copy_address
more_answers w a [] = usable a
more_answers w a (none ∷ ms) = unusable a
more_answers w a (some m ∷ ms) = elim (m.atype == w.qtype) [
  | false ↦ more_answers w a ms
  | true ↦ elim (rdlength a.leading == rdlength m) [
    | false ↦ unusable (free_dotted a)
    | true ↦ more_answers w (copy_address m a) ms
  ]
]

-- The loop while `first_answer` is set, with what stands in `*a`.
unfoldable pub first_answers : Wanted → Found → List (Option Answer) → Reading
unfolding more_answers
first_answers w a [] = usable a
first_answers w a (none ∷ ms) = unusable a
first_answers w a (some m ∷ ms) =
    elim (not (m.atype == t_sig)
      && (not w.has_buf || (not (w.qtype == t_a) && not (w.qtype == t_aaaa)))) [
        | true ↦ usable (take_answer m a.add_count a.copied false)
        | false ↦ elim (m.atype == w.qtype) [
          | false ↦ first_answers w (take_answer m a.add_count a.copied true) ms
          | true ↦ elim (ltb w.buflen ((rdlength m + w.ptr_size) * length ms)) [
            | true ↦ usable (take_answer m (length ms) a.copied false)
            | false ↦ more_answers w (take_answer m 0 [] false) ms
          ]
        ]
      ]
