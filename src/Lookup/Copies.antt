-- ===== src/Lookup/Copies.antt =====
-- What the answers of a message leave in `*a` in __dns_lookup_async of eloop/dns.c.
use native.Mathlib.Nat.{add-mul, mul_comm}
use event_loop.Lookup.Answers.{
  Answer, rdlength, Wanted, t_a, t_sig, t_aaaa, Found, Reading, unusable, usable, take_answer,
  copy_address, more_answers, first_answers,
}
use event_loop.Prelude.{
  ltb, ◌==◌, ==_iff, Bool-cases, length, length-append, concat, ℕ, ◌+◌, ◌*◌, ◌≤◌, ◌≡◌, sym, ap, ◌∙◌,
  inl, inr, true, false, not, ◌&&◌, ◌||◌, Option, none, some, List, [], ◌∷◌, ◌++◌, append-nil,
  append_assoc, arith,
}

-- The bytes that have been copied to `buf`.
abbrev pub bytes_copied : Found → ℕ
bytes_copied a = length (concat a.copied)

-- `*a` behind a message, used or not.
abbrev pub left_by : Reading → Found
left_by (unusable a) = a
left_by (usable a) = a

-- Every copy is as long as the first answer, and `add_count` of them have been made.
abbrev pub CopiesEqual : Found → Type 0
CopiesEqual a = bytes_copied a ≡ a.add_count * rdlength a.leading

concat-snoc {ℓ} :
    {A : Type ℓ} (xss : List (List A)) (xs : List A) → concat (xss ++ xs ∷ []) ≡ concat xss ++ xs
concat-snoc [] xs = append-nil xs
concat-snoc (ys ∷ xss) xs =
    ap (λ l. ys ++ l) (concat-snoc xss xs) ∙ sym (append_assoc ys (concat xss) xs)

copy_address-CopiesEqual :
    (m : Answer) (a : Found)
    → rdlength a.leading ≡ rdlength m
    → CopiesEqual a
    → CopiesEqual (copy_address m a)
unfolding copy_address
copy_address-CopiesEqual m a e h =
    rw (concat-snoc a.copied m.rdata) (omega (arith, length-append (concat a.copied) m.rdata))

-- Behind every answer that is read, the copies are no more than there were answers to read.
more_answers-bound :
    (w : Wanted) (a : Found) (ms : List (Option Answer))
    → CopiesEqual a
    → a.add_count * rdlength a.leading + length ms * rdlength a.leading ≤ w.buflen
    → bytes_copied (left_by (more_answers w a ms)) ≤ w.buflen
unfolding more_answers
more_answers-bound w a [] h k = omega arith
more_answers-bound w a (none ∷ ms) h k = omega arith
more_answers-bound w a (some m ∷ ms) h k = elim (Bool-cases (m.atype == w.qtype)) [
  | inr e ↦ rw (e, left_by) (more_answers-bound w a ms h (omega arith))
  | inl e ↦ elim (Bool-cases (rdlength a.leading == rdlength m)) [
    | inr f ↦ rw (e, left_by) (rw (f, left_by) (omega arith))
    | inl f ↦
        let g : rdlength a.leading ≡ rdlength m = (==_iff _ _).0 f in
        rw (e, left_by)
          (rw (f, left_by)
            (more_answers-bound w (copy_address m a) ms (copy_address-CopiesEqual m a g h)
              (unfold copy_address in omega arith)))
  ]
]

fits-bound : (l p n b : ℕ) → ltb b ((l + p) * n) ≡ false → 0 * l + n * l ≤ b
fits-bound l p n b h =
    let k : (l + p) * n ≤ b = ground arith in omega (arith, add-mul l p n, mul_comm n l)

-- Whatever a message holds, usable or not, its addresses stay within `buflen` bytes of `buf`, if those
-- did that the message before has left there.
pub first_answers-bound :
    (w : Wanted) (a : Found) (ms : List (Option Answer))
    → bytes_copied a ≤ w.buflen
    → bytes_copied (left_by (first_answers w a ms)) ≤ w.buflen
unfolding first_answers
first_answers-bound w a [] h = h
first_answers-bound w a (none ∷ ms) h = h
first_answers-bound w a (some m ∷ ms) h =
    elim (Bool-cases (
      not (m.atype == t_sig)
      && (not w.has_buf || (not (w.qtype == t_a) && not (w.qtype == t_aaaa))))) [
        | inl e ↦ rw (e, left_by) h
        | inr e ↦ elim (Bool-cases (m.atype == w.qtype)) [
          | inr f ↦
              rw (e, left_by)
                (rw (f, left_by)
                  (first_answers-bound w (take_answer m a.add_count a.copied true) ms h))
          | inl f ↦ elim (Bool-cases (ltb w.buflen ((rdlength m + w.ptr_size) * length ms))) [
            | inl g ↦ rw (e, left_by) (rw (f, left_by) (rw (g, left_by) h))
            | inr g ↦
                rw (e, left_by)
                  (rw (f, left_by)
                    (rw (g, left_by)
                      (more_answers-bound w (take_answer m 0 [] false) ms (omega arith)
                        (fits-bound (rdlength m) w.ptr_size (length ms) w.buflen g))))
          ]
        ]
      ]
