-- ===== src/Escapes.antt =====
-- The escapes of strings in JSON: the filters etc/jss_encode.c and etc/jss_decode.c, from input to
-- output, a byte for a character. `printf` with "%04x" and `scanf` with "%04x" are parameters; where
-- `scanf` fails, the C code prints a variable that it has not set, and the result is `none`.
pub mod RoundTrip
use mathlib.Core.Option
use event_loop.Prelude.{
  ltb, ◌==◌, if◌then◌else◌, drop, ℕ, zero, suc, ◌-◌, ◌%◌, true, false, ◌&&◌, ◌||◌, Option, none,
  some, List, [], ◌∷◌, ◌++◌, map,
}

abbrev pub quote : ℕ
quote = 34

abbrev pub backslash : ℕ
backslash = 92

-- The letter behind the backslash.
unfoldable pub escape : ℕ → Option ℕ
escape c =
    if c == quote
    then some quote
    else if c == 12
    then some 102
    else if c == 10
    then some 110
    else if c == 13
    then some 114
    else if c == 9
    then some 116
    else if c == 8
    then some 98
    else if c == backslash
    then some backslash
    else if c == 47
    then some 47
    else none

-- The loop of jss_encode.
unfoldable pub encode_char : (hex4 : ℕ → List ℕ) → ℕ → List ℕ
unfolding escape
encode_char hex4 c = elim (escape c) [
  | some d ↦ backslash ∷ d ∷ []
  | none ↦ if ltb c 32 || ltb 0x10ffff c then backslash ∷ 117 ∷ hex4 (c % 256) else c ∷ []
]

unfoldable pub encode_all : (hex4 : ℕ → List ℕ) → List ℕ → List ℕ
unfolding encode_char
encode_all hex4 [] = []
encode_all hex4 (c ∷ cs) = encode_char hex4 c ++ encode_all hex4 cs

-- The program, with the two texts that it puts around.
unfoldable pub jss_encode : (hex4 : ℕ → List ℕ) → (pre post : List ℕ) → List ℕ → List ℕ
unfolding encode_all
jss_encode hex4 pre post cs = pre ++ (encode_all hex4 cs ++ post)

-- What the letter behind the backslash stands for.
unfoldable pub unescape : ℕ → Option ℕ
unescape d =
    if d == quote
    then some quote
    else if d == 110
    then some 10
    else if d == 114
    then some 13
    else if d == 116
    then some 9
    else if d == 98
    then some 8
    else if d == 102
    then some 12
    else if d == backslash
    then some backslash
    else if d == 47
    then some 47
    else none

-- jss_decode; a unit of fuel for each round of its loop.
unfoldable pub jss_decode :
    (scan4 : List ℕ → Option (ℕ × List ℕ)) → (fuel skip_n tail_cut : ℕ) → List ℕ → Option (List ℕ)
unfolding unescape
jss_decode scan4 zero skip_n tail_cut input = none
jss_decode scan4 (suc fuel) skip_n tail_cut [] = some []
jss_decode scan4 (suc fuel) skip_n tail_cut (c ∷ cs) = elim (c == backslash) [
  | true ↦ elim cs [
    | [] ↦ some []
    | d ∷ ds ↦ elim (unescape d) [
      | some x ↦ Option.map (λ xs. x ∷ xs) (jss_decode scan4 fuel skip_n tail_cut ds)
      | none ↦ elim (d == 117) [
        | false ↦ jss_decode scan4 fuel skip_n tail_cut ds
        | true ↦ elim (scan4 ds) [
          | none ↦ none
          | some (x, rest) ↦
              Option.map (λ xs. (x % 256) ∷ xs) (jss_decode scan4 fuel skip_n tail_cut rest)
        ]
      ]
    ]
  ]
  | false ↦ elim skip_n [
    | suc n ↦ jss_decode scan4 fuel n tail_cut cs
    | zero ↦ elim (ltb 0 tail_cut && (c == quote)) [
      | false ↦ Option.map (λ xs. c ∷ xs) (jss_decode scan4 fuel 0 tail_cut cs)
      | true ↦ elim (ltb 1 tail_cut) [
        | true ↦ jss_decode scan4 fuel 0 (tail_cut - 2) (drop 1 cs)
        | false ↦ jss_decode scan4 fuel 0 (tail_cut - 1) cs
      ]
    ]
  ]
]
