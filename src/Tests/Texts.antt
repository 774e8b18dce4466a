-- ===== src/Tests/Texts.antt =====
-- The escapes of JSON at concrete texts.
use event_loop.Escapes.{quote, jss_encode, jss_decode}
use event_loop.Escapes.RoundTrip.{jss_decode-encode}
use event_loop.Prelude.{
  ℕ, ◌+◌, ◌-◌, ◌*◌, ◌/◌, ◌%◌, ◌<◌, ◌≡◌, refl, ap, Option, none, some, List, [], ◌∷◌, ◌++◌, arith,
}

-- Digits from the byte 48 on, also beyond 9.
abbrev hex_digits : ℕ → List ℕ
hex_digits c = 48 ∷ 48 ∷ (48 + c / 16) ∷ (48 + c % 16) ∷ []

abbrev scan_digits : List ℕ → Option (ℕ × List ℕ)
scan_digits (a ∷ b ∷ c ∷ d ∷ rest) = some ((c - 48) * 16 + (d - 48), rest)
scan_digits _ = none

scan_hex : (c : ℕ) (more : List ℕ) → c < 256 → scan_digits (hex_digits c ++ more) ≡ some (c, more)
scan_hex c more small =
    let e : (48 + c / 16 - 48) * 16 + (48 + c % 16 - 48) ≡ c = omega (arith, small) in
    ap (λ x. some (x, more)) e

-- A newline, a quote, a control byte and a letter, behind a brace.
jss_decode-encode_example :
    jss_decode scan_digits 10 1 2
      (jss_encode hex_digits (123 ∷ []) (quote ∷ 125 ∷ []) (10 ∷ quote ∷ 1 ∷ 97 ∷ []))
    ≡ some (10 ∷ quote ∷ 1 ∷ 97 ∷ [])
jss_decode-encode_example =
    jss_decode-encode hex_digits scan_digits scan_hex (123 ∷ []) 125 (10 ∷ quote ∷ 1 ∷ 97 ∷ []) 10 3
      (omega arith, (omega arith, (omega arith, (omega arith, tt)))) (refl, tt) refl
