-- ===== src/SubProcess/Arguments.antt =====
-- The arguments of a program in etc/unixProcess.c.
use event_loop.Prelude.{
  ◌==◌, ==-gt, length, All, ℕ, zero, suc, ◌<◌, ◌≡◌, refl, ap, false, Option, none, some, List, [],
  ◌∷◌, ◌++◌, arith,
}
use event_loop.SubProcess.{cut_at_space, argv_ended, split_arguments, run_arguments}

-- Words with a space between each and the next.
abbrev pub join_words : List (List ℕ) → List ℕ
join_words [] = []
join_words (w ∷ []) = w
join_words (w ∷ v ∷ ws) = w ++ 32 ∷ join_words (v ∷ ws)

-- No byte is a space.
abbrev pub IsWord : List ℕ → Type 0
IsWord w = All (λ c. (c == 32) ≡ false) w

cut-word : (w : List ℕ) → IsWord w → cut_at_space w ≡ (w, none)
cut-word [] h = refl
cut-word (c ∷ cs) h = rw (h.0) (rw (cut-word cs (h.1)) refl)

cut-word_space : (w rest : List ℕ) → IsWord w → cut_at_space (w ++ 32 ∷ rest) ≡ (w, some rest)
cut-word_space [] rest h = refl
cut-word_space (c ∷ cs) rest h = rw (h.0) (rw (cut-word_space cs rest (h.1)) refl)

split_arguments-join :
    (places : ℕ) (w : List ℕ) (ws : List (List ℕ))
    → All IsWord (w ∷ ws)
    → suc (length ws) < places
    → split_arguments places (join_words (w ∷ ws)) ≡ argv_ended (w ∷ ws)
unfolding split_arguments
split_arguments-join zero w ws h k = absurd (omega arith)
split_arguments-join (suc places) w [] h k =
    let e = cut-word w (h.0) in
    rw (ap (λ (r : List ℕ × Option (List ℕ)). r.1) e, split_arguments)
      (rw (==-gt places 0 (omega arith), split_arguments)
        (ap (λ (r : List ℕ × Option (List ℕ)). argv_ended (r.0 ∷ [])) e))
split_arguments-join (suc places) w (v ∷ ws) h k =
    let e = cut-word_space w (join_words (v ∷ ws)) (h.0) in
    rw (ap (λ (r : List ℕ × Option (List ℕ)). r.1) e, split_arguments)
      (rw (split_arguments-join places v ws (h.1) (omega arith), split_arguments)
        (ap (λ (r : List ℕ × Option (List ℕ)). argv_ended (r.0 ∷ v ∷ ws)) e))

-- At least one and at most 255 words, of which some may be empty, with one space between each and the
-- next, are the arguments, and NULL stands behind them in the array.
pub run_arguments-join :
    (w : List ℕ) (ws : List (List ℕ))
    → All IsWord (w ∷ ws)
    → length (w ∷ ws) < 256
    → run_arguments (join_words (w ∷ ws)) ≡ argv_ended (w ∷ ws)
unfolding run_arguments
run_arguments-join w ws h k = split_arguments-join 256 w ws h k
