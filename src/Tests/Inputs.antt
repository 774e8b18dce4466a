-- ===== src/Tests/Inputs.antt =====
-- Standard input at concrete bytes.
use event_loop.Prelude.{concat, ℕ, ◌≡◌, refl, true, false, some, List, [], ◌∷◌, arith}
use event_loop.Stdin.{Modes, on_stdin_read, on_stdin_reads}
use event_loop.Stdin.Sends.{calls_for, on_stdin_reads-sends}

abbrev by_line : Modes
by_line = record { buffered_send = true; ws_mode = false }

-- A line and the start of one.
sent_by_line :
    on_stdin_reads 4 by_line (calls_for (79 ∷ 75 ∷ 10 ∷ 65 ∷ [])) []
    ≡ some ((79 ∷ 75 ∷ 10 ∷ []) ∷ (65 ∷ []) ∷ [], [])
unfolding on_stdin_reads on_stdin_read
sent_by_line = refl

on_stdin_reads-sends_example :
    (sends : List (List ℕ)) × (on_stdin_reads 4 by_line (calls_for (79 ∷ 75 ∷ 10 ∷ 65 ∷ [])) []
      ≡ some (sends, []))
    × (concat sends ≡ 79 ∷ 75 ∷ 10 ∷ 65 ∷ [])
on_stdin_reads-sends_example = on_stdin_reads-sends 4 by_line (79 ∷ 75 ∷ 10 ∷ 65 ∷ []) (omega arith)
