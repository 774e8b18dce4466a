-- ===== src/LogFile/Nearest.antt =====
-- What `getNearSeq` finds in a file of lines.
use mathlib.Core.Option
use event_loop.LogFile.{newline, find_newline, get_near_seq}
use event_loop.LogFile.Lines.{
  Line, text, size, bytes_of, IsReadable, find_newline-append, find_newline-drop, drop-short,
  drop-long, length-drop, take-append,
}
use event_loop.Prelude.{
  Option-cases, length, take, drop, length-append, drop-append_one, ℕ, suc, ◌+◌, ◌-◌, ◌≤◌, ◌<◌, ◌≡◌,
  refl, ap, ◌∙◌, inl, inr, Option, none, some, List, ◌∷◌, ◌++◌, append_assoc, arith,
}

-- What it makes of the bytes that it reads.
abbrev near_in : (scan : List ℕ → Option ℕ) → (off : ℕ) → (window : List ℕ) → Option (ℕ × ℕ)
near_in scan off window = elim (find_newline window) [
  | none ↦ none
  | some i ↦ Option.map (λ mt. (mt, off + i)) (scan (drop (suc i) window))
]

get_near_seq-near_in :
    (scan : List ℕ → Option ℕ) (file : List ℕ) (p : ℕ)
    → get_near_seq scan file (suc p) ≡ near_in scan (suc p) (take 1024 (drop p file))
unfolding get_near_seq
get_near_seq-near_in scan file p =
    let e : suc p - 1 ≡ p = omega arith in
    ap (λ q. near_in scan (suc p) (take 1024 (drop q file))) e

near_in-shift :
    (scan : List ℕ → Option ℕ) (k off : ℕ) (window : List ℕ)
    → near_in scan (k + off) window
      ≡ Option.map (λ (r : ℕ × ℕ). (r.0, k + r.1)) (near_in scan off window)
near_in-shift scan k off window = elim (Option-cases (find_newline window)) [
  | inl e ↦ rw (near_in, e) refl
  | inr (i, e) ↦ elim (Option-cases (scan (drop (suc i) window))) [
    | inl f ↦ rw (near_in, e, f) refl
    | inr (mt, f) ↦
        let sum : k + off + i ≡ k + (off + i) = omega arith in rw (near_in, e, f, sum) refl
  ]
]

module _ (scan : List ℕ → Option ℕ) where
  -- The digits of the next line are read as a whole.
  scan_next :
      (n : ℕ) (m : Line) (more : List ℕ)
      → IsReadable scan m
      → 512 ≤ n
      → scan (take n (text m ++ more)) ≡ some m.time
  scan_next n m more rm wide =
      let small = rm.short in
      let len = length-append m.digits m.rest in
      rw
        (
          append_assoc m.digits m.rest more,
          take-append n m.digits (m.rest ++ more) (omega (arith, small, len, wide)),
        )
        (rm.scanned (take (n - length m.digits) (m.rest ++ more)))

  -- Within the first line the next one is found.
  pub near_first :
      (l m : Line) (ls : List Line) (p : ℕ)
      → IsReadable scan l
      → IsReadable scan m
      → p < size l
      → get_near_seq scan (bytes_of (l ∷ m ∷ ls)) (suc p) ≡ some (m.time, size l)
  unfolding bytes_of
  near_first l m ls p rl rm within =
      let rest = text m ++ newline ∷ bytes_of ls in
      let tail = drop p (text l) in
      let small = rl.short in
      let len : length tail ≡ length (text l) - p = length-drop p (text l) in
      let n = 1023 - length tail in
      let room : 1024 - length tail ≡ suc n = omega (arith, len, small) in
      let window : take 1024 (drop p (text l ++ newline ∷ rest)) ≡ tail ++ newline ∷ take n rest =
        rw
          (
            drop-short p (text l) (newline ∷ rest) (omega (arith, within)),
            take-append 1024 tail (newline ∷ rest) (omega (arith, len, small)),
            room,
          )
          refl in
      let at_end : find_newline (tail ++ newline ∷ take n rest) ≡ some (length tail) =
        find_newline-append tail (take n rest) (find_newline-drop p (text l) rl.one_line) in
      let start : suc p + length tail ≡ size l = omega (arith, len, within) in
      get_near_seq-near_in scan (bytes_of (l ∷ m ∷ ls)) p
      ∙ ap (near_in scan (suc p)) window
      ∙ rw
          (
            near_in,
            at_end,
            drop-append_one tail (take n rest) newline,
            scan_next n m (newline ∷ bytes_of ls) rm (omega (arith, len, small)),
            start,
          )
          refl

  -- Behind it, it does not matter.
  pub near_next :
      (l : Line) (ls : List Line) (p : ℕ)
      → size l ≤ p
      → get_near_seq scan (bytes_of (l ∷ ls)) (suc p)
        ≡ Option.map
            (λ (r : ℕ × ℕ). (r.0, size l + r.1))
            (get_near_seq scan (bytes_of ls) (suc (p - size l)))
  unfolding bytes_of
  near_next l ls p behind =
      let skip : p - length (text l) ≡ suc (p - size l) = omega (arith, behind) in
      let off : suc p ≡ size l + suc (p - size l) = omega (arith, behind) in
      let window : drop p (text l ++ newline ∷ bytes_of ls) ≡ drop (p - size l) (bytes_of ls) =
        rw (drop-long p (text l) (newline ∷ bytes_of ls) (omega (arith, behind)), skip) refl in
      rw
        (
          get_near_seq-near_in scan (bytes_of (l ∷ ls)) p,
          window,
          get_near_seq-near_in scan (bytes_of ls) (p - size l),
        )
        (ap (λ o. near_in scan o (take 1024 (drop (p - size l) (bytes_of ls)))) off
          ∙ near_in-shift scan (size l) (suc (p - size l))
              (take 1024 (drop (p - size l) (bytes_of ls))))
