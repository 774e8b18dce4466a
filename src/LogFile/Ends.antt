-- ===== src/LogFile/Ends.antt =====
-- The loops of `init_lfs` on a file of lines.
use event_loop.LogFile.{newline, find_newline, last_line, first_line}
use event_loop.LogFile.Bytes.{byte_at-left, byte_at-right, byte_at-other, IsEnded}
use event_loop.Prelude.{
  ltb, leb, ◌==◌, Bool-cases, length, length-append, ℕ, zero, suc, ◌+◌, ◌-◌, ◌≤◌, ◌<◌, ◌≡◌, refl,
  ◌∙◌, inl, inr, true, false, none, List, [], ◌∷◌, ◌++◌, arith,
}
use event_loop.WebSock.{byte_at}

last_line-ends :
    (pre xs : List ℕ) (rounds i : ℕ)
    → IsEnded pre
    → length pre ≡ suc rounds
    → i ≡ suc (length xs)
    → last_line (pre ++ (xs ++ newline ∷ [])) (suc rounds) i ≡ i
unfolding last_line
last_line-ends pre xs rounds i (inl e) more end = absurd (omega (arith, e, more))
last_line-ends pre xs rounds i (inr (n, e, f)) more end =
    let len = length-append pre (xs ++ newline ∷ []) in
    let len' = length-append xs (newline ∷ []) in
    let at : length (pre ++ (xs ++ newline ∷ [])) - 1 - i ≡ n = omega (arith, len, len', e, end) in
    let here : (byte_at (pre ++ (xs ++ newline ∷ [])) n == newline) ≡ true =
      rw (byte_at-left pre (xs ++ newline ∷ []) n (omega (arith, e)), f) refl in
    rw (last_line, at, here) refl

-- The loop from the end stops before the last line.
pub last_line-stops :
    (pre xs : List ℕ) (rounds i : ℕ)
    → IsEnded pre
    → find_newline xs ≡ none
    → i + rounds ≡ length (pre ++ (xs ++ newline ∷ []))
    → 0 < i
    → i ≤ suc (length xs)
    → last_line (pre ++ (xs ++ newline ∷ [])) rounds i ≡ suc (length xs)
unfolding last_line
last_line-stops pre xs zero i ended none_in all after within =
    let len = length-append pre (xs ++ newline ∷ []) in
    let len' = length-append xs (newline ∷ []) in omega (arith, len, len', all, within)
last_line-stops pre xs (suc rounds) i ended none_in all after within =
    let len = length-append pre (xs ++ newline ∷ []) in
    let len' = length-append xs (newline ∷ []) in
    elim (Bool-cases (leb i (length xs))) [
      | inl more ↦
          let at : length (pre ++ (xs ++ newline ∷ [])) - 1 - i ≡ length pre + (length xs - i) =
            ground (arith, len, len') in
          let other : (byte_at (pre ++ (xs ++ newline ∷ []))
                  (length (pre ++ (xs ++ newline ∷ [])) - 1 - i)
                == newline)
              ≡ false =
            rw
              (
                byte_at-right pre (xs ++ newline ∷ []) (length xs - i)
                    (length (pre ++ (xs ++ newline ∷ [])) - 1 - i) at,
                byte_at-left xs (newline ∷ []) (length xs - i) (ground arith),
              )
              (byte_at-other xs (length xs - i) none_in (ground arith)) in
          rw (last_line, other)
            (last_line-stops pre xs rounds (suc i) ended none_in (omega (arith, all)) (omega arith)
              (ground arith))
      | inr end ↦
          let end' : i ≡ suc (length xs) = ground arith in
          last_line-ends pre xs rounds i ended (omega (arith, all, len, len', within, end')) end'
          ∙ end'
    ]

first_line-ge : (bytes : List ℕ) (rounds i : ℕ) → i ≤ first_line bytes rounds i
unfolding first_line
first_line-ge bytes zero i = omega arith
first_line-ge bytes (suc rounds) i = ground (arith, first_line-ge bytes rounds (suc i))

-- The loop from the start does not stop within the first line.
pub first_line-reaches :
    (xs ys : List ℕ) (rounds i : ℕ)
    → find_newline xs ≡ none
    → length xs ≤ i + rounds
    → i ≤ length xs
    → length xs ≤ first_line (xs ++ ys) rounds i
unfolding first_line
first_line-reaches xs ys zero i none_in all within = omega (arith, all)
first_line-reaches xs ys (suc rounds) i none_in all within = elim (Bool-cases (ltb i (length xs))) [
  | inl more ↦
      let other : (byte_at (xs ++ ys) i == newline) ≡ false =
        rw (byte_at-left xs ys i (ground arith)) (byte_at-other xs i none_in (ground arith)) in
      rw (first_line, other)
        (first_line-reaches xs ys rounds (suc i) none_in (omega (arith, all)) (ground arith))
  | inr end ↦
      let le : length xs ≤ i = ground arith in
      omega (arith, first_line-ge (xs ++ ys) (suc rounds) i, le)
]
