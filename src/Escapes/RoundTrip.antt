-- ===== src/Escapes/RoundTrip.antt =====
-- The text of jss_encode in jss_decode.
use event_loop.Escapes.{
  quote, backslash, escape, encode_char, encode_all, jss_encode, unescape, jss_decode,
}
use event_loop.Prelude.{
  ltb, ◌==◌, Bool-cases, Option-cases, length, All, ℕ, zero, suc, ◌+◌, ◌%◌, ◌<◌, ◌≡◌, refl, ap, ◌∙◌,
  inl, inr, false, ◌&&◌, ◌||◌, Option, none, some, List, [], ◌∷◌, ◌++◌, append-nil, append_assoc,
  arith,
}

unescape-escape : (c d : ℕ) → escape c ≡ some d → unescape d ≡ some c
unfolding escape unescape
unescape-escape c d h = ground arith

plain-escape : (c : ℕ) → escape c ≡ none → ((c == quote) ≡ false) × ((c == backslash) ≡ false)
unfolding escape
plain-escape c h = ground arith

module _ (scan4 : List ℕ → Option (ℕ × List ℕ)) (fuel cut : ℕ) (rest r : List ℕ)
    (more : jss_decode scan4 fuel 0 cut rest ≡ some r) where
  decode-escape :
      (d x : ℕ)
      → unescape d ≡ some x
      → jss_decode scan4 (suc fuel) 0 cut (backslash ∷ d ∷ rest) ≡ some (x ∷ r)
  unfolding jss_decode
  decode-escape d x e = rw (jss_decode, e, more) refl

  decode-plain :
      (c : ℕ)
      → (c == quote) ≡ false
      → (c == backslash) ≡ false
      → jss_decode scan4 (suc fuel) 0 cut (c ∷ rest) ≡ some (c ∷ r)
  unfolding jss_decode
  decode-plain c e f =
      let no_end : (ltb 0 cut && (c == quote)) ≡ false = ground (arith, e) in
      rw (jss_decode, f, no_end, more) refl

  decode-hex :
      (ds : List ℕ) (x : ℕ)
      → scan4 ds ≡ some (x, rest)
      → x < 256
      → jss_decode scan4 (suc fuel) 0 cut (backslash ∷ 117 ∷ ds) ≡ some (x ∷ r)
  unfolding jss_decode unescape
  decode-hex ds x e small =
      let byte : x % 256 ≡ x = omega (arith, small) in rw (jss_decode, e, more, byte) refl

-- What stands in front is skipped.
decode-skip :
    (scan4 : List ℕ → Option (ℕ × List ℕ)) (pre : List ℕ) (n fuel cut : ℕ) (rest : List ℕ)
    → All (λ c. (c == backslash) ≡ false) pre
    → n ≡ length pre + fuel
    → jss_decode scan4 n (length pre) cut (pre ++ rest) ≡ jss_decode scan4 fuel 0 cut rest
unfolding jss_decode
decode-skip scan4 [] n fuel cut rest plain e =
    let same : n ≡ fuel = omega (arith, e) in rw same refl
decode-skip scan4 (c ∷ pre) zero fuel cut rest plain e = absurd (omega (arith, e))
decode-skip scan4 (c ∷ pre) (suc n) fuel cut rest plain e =
    rw (jss_decode, plain.0) (decode-skip scan4 pre n fuel cut rest plain.1 (omega (arith, e)))

module _ (hex4 : ℕ → List ℕ) (scan4 : List ℕ → Option (ℕ × List ℕ))
    (reads : (c : ℕ) (more : List ℕ) → c < 256 → scan4 (hex4 c ++ more) ≡ some (c, more)) where
  decode-encode_char :
      (fuel cut c : ℕ) (rest r : List ℕ)
      → c < 256
      → jss_decode scan4 fuel 0 cut rest ≡ some r
      → jss_decode scan4 (suc fuel) 0 cut (encode_char hex4 c ++ rest) ≡ some (c ∷ r)
  unfolding encode_char
  decode-encode_char fuel cut c rest r small more = elim (Option-cases (escape c)) [
    | inr (d, e) ↦
        rw (encode_char, e) (decode-escape scan4 fuel cut rest r more d c (unescape-escape c d e))
    | inl e ↦ elim (Bool-cases (ltb c 32 || ltb 0x10ffff c)) [
      | inl control ↦
          let byte : c % 256 ≡ c = omega (arith, small) in
          rw (encode_char, e, control, byte)
            (decode-hex scan4 fuel cut rest r more (hex4 c ++ rest) c (reads c rest small) small)
      | inr plain ↦
          let (no_quote, no_backslash) = plain-escape c e in
          rw (encode_char, e, plain)
            (decode-plain scan4 fuel cut rest r more c no_quote no_backslash)
    ]
  ]

  decode-encode_all :
      (cs : List ℕ) (n fuel cut : ℕ) (rest r : List ℕ)
      → All (λ c. c < 256) cs
      → n ≡ length cs + fuel
      → jss_decode scan4 fuel 0 cut rest ≡ some r
      → jss_decode scan4 n 0 cut (encode_all hex4 cs ++ rest) ≡ some (cs ++ r)
  unfolding encode_all
  decode-encode_all [] n fuel cut rest r small e more =
      let same : n ≡ fuel = omega (arith, e) in rw same more
  decode-encode_all (c ∷ cs) zero fuel cut rest r small e more = absurd (omega (arith, e))
  decode-encode_all (c ∷ cs) (suc n) fuel cut rest r small e more =
      rw (append_assoc (encode_char hex4 c) (encode_all hex4 cs) rest) (
        decode-encode_char n cut c (encode_all hex4 cs ++ rest) (cs ++ r) small.0
          (decode-encode_all cs n fuel cut rest r small.1 (omega (arith, e)) more))

  -- jss_decode gives back every text of bytes that jss_encode wrote, if it is told to skip as many
  -- characters as stand in front of the text, with no backslash among them, and to cut off two behind
  -- it, of which the first is a quote. `scanf` reads what `printf` wrote for a byte. The loop has a
  -- round for each character of the text and of what stands around it.
  pub jss_decode-encode :
      (pre : List ℕ) (last : ℕ) (cs : List ℕ) (n fuel : ℕ)
      → All (λ c. c < 256) cs
      → All (λ c. (c == backslash) ≡ false) pre
      → n ≡ length pre + (length cs + suc (suc fuel))
      → jss_decode scan4 n (length pre) 2 (jss_encode hex4 pre (quote ∷ last ∷ []) cs) ≡ some cs
  unfolding jss_encode jss_decode
  jss_decode-encode pre last cs n fuel small plain e =
      decode-skip scan4 pre n (length cs + suc (suc fuel)) 2
        (encode_all hex4 cs ++ (quote ∷ last ∷ [])) plain e
      ∙ decode-encode_all cs (length cs + suc (suc fuel)) (suc (suc fuel)) 2 (quote ∷ last ∷ []) []
          small refl refl
      ∙ ap some (append-nil cs)
