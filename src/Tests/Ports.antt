-- ===== src/Tests/Ports.antt =====
-- Lines from a serial port at concrete bytes.
use event_loop.Prelude.{replicate, All, ℕ, zero, suc, ◌≡◌, refl, [], ◌∷◌, ◌++◌, map, arith}
use event_loop.Serial.{on_serial_bytes, on_serial_calls}
use event_loop.Serial.Lines.{IsPlain, on_serial_bytes-deaf, arrival, on_serial_calls-lines}

-- The lines `OK` and `AT` and the start of a third, in two pieces.
on_serial_calls-lines_example :
    on_serial_calls (map arrival ((79 ∷ 75 ∷ 10 ∷ 65 ∷ []) ∷ (84 ∷ 10 ∷ 43 ∷ []) ∷ [])) []
    ≡ ((79 ∷ 75 ∷ 10 ∷ []) ∷ (65 ∷ 84 ∷ 10 ∷ []) ∷ [], 43 ∷ [])
on_serial_calls-lines_example =
    on_serial_calls-lines ((79 ∷ 75 ∷ 10 ∷ 65 ∷ []) ∷ (84 ∷ 10 ∷ 43 ∷ []) ∷ [])
      ((79 ∷ 75 ∷ []) ∷ (65 ∷ 84 ∷ []) ∷ []) (43 ∷ [])
      ((omega arith, omega arith), ((omega arith, omega arith), tt))
      (
        (((refl, refl), ((refl, refl), tt)), omega arith),
        ((((refl, refl), ((refl, refl), tt)), omega arith), tt),
      )
      ((refl, refl), tt) (omega arith) refl

IsPlain-replicate : (n : ℕ) → All IsPlain (replicate n 65)
IsPlain-replicate zero = tt
IsPlain-replicate (suc n) = ((refl, refl), IsPlain-replicate n)

-- 250 letters, and then a line.
on_serial_bytes-deaf_example :
    on_serial_bytes (replicate 250 65 ++ (10 ∷ 79 ∷ 75 ∷ 10 ∷ [])) [] ≡ ([], replicate 250 65)
on_serial_bytes-deaf_example =
    on_serial_bytes-deaf (replicate 250 65) (10 ∷ 79 ∷ 75 ∷ 10 ∷ []) (IsPlain-replicate 250) refl
