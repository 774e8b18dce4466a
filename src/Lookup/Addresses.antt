-- ===== src/Lookup/Addresses.antt =====
-- Which answers of a message __dns_lookup_async of eloop/dns.c takes for the addresses.
use event_loop.Lookup.Answers.{
  Answer, rdlength, Wanted, t_a, t_sig, t_aaaa, Found, usable, take_answer, copy_address,
  more_answers, first_answers,
}
use event_loop.Prelude.{
  ltb, ◌==◌, if◌then◌else◌, ==_iff, Bool-cases, ltb-ge, length, All, ℕ, suc, ◌+◌, ◌*◌, ◌≤◌, ◌≡◌,
  refl, ap, ◌∙◌, inl, inr, true, false, not, ◌&&◌, ◌||◌, Option, some, List, [], ◌∷◌, ◌++◌, map,
  append-nil, append_assoc, arith,
}

-- The data of the answers of one type.
abbrev pub data_of : (atype : ℕ) → List Answer → List (List ℕ)
data_of t [] = []
data_of t (m ∷ ms) = if m.atype == t then m.rdata ∷ data_of t ms else data_of t ms

-- An answer of another type.
abbrev pub IsOther : (atype : ℕ) → Answer → Type 0
IsOther t m = (m.atype == t) ≡ false

-- An answer that is no longer and no shorter than `l`, if it is of the type.
abbrev pub HasLength : (atype l : ℕ) → Answer → Type 0
HasLength t l m = (m.atype == t) ≡ true → l ≡ rdlength m

-- Addresses are asked, and there is a buffer.
abbrev pub AsksAddresses : Wanted → Type 0
AsksAddresses w = (w.qtype ≡ t_a) × (w.has_buf ≡ true)

copied-equal :
    (a : Found) (m : Answer) (ds : List (List ℕ))
    → usable record {
      leading = a.leading;
      add_count = suc a.add_count + length ds;
      copied = (a.copied ++ m.rdata ∷ []) ++ ds;
      dotted_freed = a.dotted_freed;
    }
      ≡ usable record {
        leading = a.leading;
        add_count = a.add_count + suc (length ds);
        copied = a.copied ++ m.rdata ∷ ds;
        dotted_freed = a.dotted_freed;
      }
copied-equal a m ds =
    let e : suc a.add_count + length ds ≡ a.add_count + suc (length ds) = omega arith in
    rw e (rw (append_assoc a.copied (m.rdata ∷ []) ds) refl)

-- All the addresses behind the first are copied, in their order.
more_answers-copies :
    (w : Wanted) (a : Found) (ms : List Answer)
    → All (HasLength w.qtype (rdlength a.leading)) ms
    → more_answers w a (map some ms)
      ≡ usable record {
        leading = a.leading;
        add_count = a.add_count + length (data_of w.qtype ms);
        copied = a.copied ++ data_of w.qtype ms;
        dotted_freed = a.dotted_freed;
      }
unfolding more_answers copy_address
more_answers-copies w a [] h =
    let z : a.add_count + 0 ≡ a.add_count = omega arith in rw z (rw (append-nil a.copied) refl)
more_answers-copies w a (m ∷ ms) h = elim (Bool-cases (m.atype == w.qtype)) [
  | inr e ↦ rw (e, more_answers) (more_answers-copies w a ms (h.1))
  | inl e ↦
      let f : (rdlength a.leading == rdlength m) ≡ true = (==_iff _ _).1 (h.0 e) in
      rw (e, more_answers)
        (rw (f, more_answers)
          (more_answers-copies w (copy_address m a) ms (h.1)
            ∙ copied-equal a m (data_of w.qtype ms)))
]

-- Where addresses are asked, an answer does not end the loop by its type alone.
no-break :
    (w : Wanted) (m : Answer)
    → AsksAddresses w
    → (not (m.atype == t_sig)
        && (not w.has_buf || (not (w.qtype == t_a) && not (w.qtype == t_aaaa))))
      ≡ false
no-break w m h = rw (h.0) (rw (h.1) (ground arith))

-- An answer of another type stands in `*a`, and its name has been freed.
other-step :
    (w : Wanted) (a : Found) (m : Answer) (rest : List (Option Answer))
    → AsksAddresses w
    → IsOther w.qtype m
    → first_answers w a (some m ∷ rest)
      ≡ first_answers w (take_answer m a.add_count a.copied true) rest
unfolding first_answers
other-step w a m rest h k = rw (no-break w m h, first_answers) (rw (k, first_answers) refl)

zero-count :
    (m : Answer) (ds : List (List ℕ))
    → usable (take_answer m (0 + length ds) ds false) ≡ usable (take_answer m (length ds) ds false)
zero-count m ds = let z : 0 + length ds ≡ length ds = omega arith in rw z refl

-- The first answer of the type that is asked.
first_answers-hit :
    (w : Wanted) (a : Found) (m : Answer) (post : List Answer)
    → AsksAddresses w
    → (m.atype == w.qtype) ≡ true
    → ltb w.buflen ((rdlength m + w.ptr_size) * length (map some post)) ≡ false
    → All (HasLength w.qtype (rdlength m)) post
    → first_answers w a (some m ∷ map some post)
      ≡ usable (take_answer m (length (data_of w.qtype post)) (data_of w.qtype post) false)
unfolding first_answers
first_answers-hit w a m post h k f l =
    rw (no-break w m h, first_answers)
      (rw (k, first_answers)
        (rw (f, first_answers)
          (more_answers-copies w (take_answer m 0 [] false) post l
            ∙ zero-count m (data_of w.qtype post))))

length-map-some : (ms : List Answer) → length (map some ms) ≡ length ms
length-map-some [] = refl
length-map-some (m ∷ ms) = ap suc (length-map-some ms)

-- Where addresses are asked, of a message that can be decoded the first answer of their type is taken,
-- and the data of all later ones of the type are copied in their order and counted, whatever stands
-- between them and before; that is, if they are as long as the first, and if the buffer has room for as
-- many addresses and pointers as answers follow the first.
pub first_answers-addresses :
    (w : Wanted) (a : Found) (pre post : List Answer) (m : Answer)
    → AsksAddresses w
    → All (IsOther w.qtype) pre
    → (m.atype == w.qtype) ≡ true
    → (rdlength m + w.ptr_size) * length post ≤ w.buflen
    → All (HasLength w.qtype (rdlength m)) post
    → first_answers w a (map some (pre ++ m ∷ post))
      ≡ usable record {
        leading = m;
        add_count = length (data_of w.qtype post);
        copied = data_of w.qtype post;
        dotted_freed = false;
      }
first_answers-addresses w a [] post m h o e f l =
    first_answers-hit w a m post h e
      (rw (length-map-some post) (ltb-ge w.buflen ((rdlength m + w.ptr_size) * length post) f)) l
first_answers-addresses w a (n ∷ pre) post m h o e f l =
    other-step w a n (map some (pre ++ m ∷ post)) h (o.0)
    ∙ first_answers-addresses w (take_answer n a.add_count a.copied true) pre post m h (o.1) e f l

-- Where addresses are asked, and a message can be decoded and has answers, but none of their type, the
-- message counts as an answer: `*a` is one of its answers, whose name has been freed, with the count of
-- the message before.
pub first_answers-others :
    (w : Wanted) (a : Found) (m : Answer) (ms : List Answer)
    → AsksAddresses w
    → All (IsOther w.qtype) (m ∷ ms)
    → (l : Answer) × (first_answers w a (map some (m ∷ ms))
        ≡ usable (take_answer l a.add_count a.copied true))
      × ((l.atype == w.qtype) ≡ false)
unfolding first_answers
first_answers-others w a m [] h k = (m, other-step w a m [] h (k.0), k.0)
first_answers-others w a m (n ∷ ms) h k =
    let (l, e, o) = first_answers-others w (take_answer m a.add_count a.copied true) n ms h (k.1) in
    (l, other-step w a m (map some (n ∷ ms)) h (k.0) ∙ e, o)
