-- ===== src/LogServer/Split.antt =====
-- The packets of a stream of bytes: each ends with a byte 0.
use event_loop.LogServer.{find_null}
use event_loop.Prelude.{
  ◌==◌, if◌then◌else◌, Bool-cases, length, ℕ, suc, ◌+◌, ◌≤◌, ◌≡◌, refl, ap, ◌∙◌, ◌⊎◌, inl, inr,
  false, none, some, List, [], ◌∷◌, ◌++◌, arith,
}

-- The packets of a stream, each with its byte 0, and what is left behind the last.
abbrev put_byte : ℕ → List (List ℕ) × List ℕ → List (List ℕ) × List ℕ
put_byte b s =
    if b == 0
    then ((b ∷ []) ∷ s.0, s.1)
    else elim s.0 [ [] ↦ ([], b ∷ s.1) | p ∷ ps ↦ ((b ∷ p) ∷ ps, s.1) ]

abbrev pub split_packets : List ℕ → List (List ℕ) × List ℕ
split_packets [] = ([], [])
split_packets (b ∷ bs) = put_byte b (split_packets bs)

-- The number of bytes 0.
abbrev pub nulls : List ℕ → ℕ
nulls [] = 0
nulls (b ∷ bs) = if b == 0 then suc (nulls bs) else nulls bs

-- Without a byte 0 all is left.
pub split-open : (xs : List ℕ) → nulls xs ≡ 0 → split_packets xs ≡ ([], xs)
split-open [] h = refl
split-open (x ∷ xs) h = elim (Bool-cases (x == 0)) [
  | inl e ↦ absurd (ground arith)
  | inr e ↦ let k : nulls xs ≡ 0 = ground arith in ap (put_byte x) (split-open xs k) ∙ rw e refl
]

-- The first packet.
pub split-packet :
    (xs ys : List ℕ)
    → nulls xs ≡ 0
    → split_packets (xs ++ 0 ∷ ys) ≡ ((xs ++ 0 ∷ []) ∷ (split_packets ys).0, (split_packets ys).1)
split-packet [] ys h = refl
split-packet (x ∷ xs) ys h = elim (Bool-cases (x == 0)) [
  | inl e ↦ absurd (ground arith)
  | inr e ↦
      let k : nulls xs ≡ 0 = ground arith in ap (put_byte x) (split-packet xs ys k) ∙ rw e refl
]

-- What `strlen` finds: bytes other than 0, and one.
pub find_null-cases :
    (xs : List ℕ)
    → ((find_null xs ≡ none) × (nulls xs ≡ 0))
      ⊎ ((i : ℕ) × (before after : List ℕ) × (find_null xs ≡ some i)
          × (xs ≡ before ++ 0 ∷ after)
          × (length before ≡ i)
          × (nulls before ≡ 0))
unfolding find_null
find_null-cases [] = inl (refl, refl)
find_null-cases (x ∷ xs) = elim (Bool-cases (x == 0)) [
  | inl e ↦
      let z : x ≡ 0 = ground arith in
      inr (0, [], xs, rw (find_null, e) refl, ap (λ y. y ∷ xs) z, refl, refl)
  | inr e ↦ elim (find_null-cases xs) [
    | inl (f, k) ↦ inl (rw (find_null, e, f) refl, rw (e) k)
    | inr (i, before, after, f, g, l, k) ↦
        inr (
          suc i,
          x ∷ before,
          after,
          rw (find_null, e, f) refl,
          ap (λ ys. x ∷ ys) g,
          ap suc l,
          rw e k,
        )
  ]
]

put-left : (b : ℕ) (s : List (List ℕ) × List ℕ) → length (put_byte b s).1 ≤ suc (length s.1)
put-left b ([], rest) = ground arith
put-left b (p ∷ ps, rest) = ground arith

pub split-left : (xs : List ℕ) → length (split_packets xs).1 ≤ length xs
split-left [] = omega arith
split-left (x ∷ xs) = omega (arith, put-left x (split_packets xs), split-left xs)

put-open : (b : ℕ) (s : List (List ℕ) × List ℕ) → nulls s.1 ≡ 0 → nulls (put_byte b s).1 ≡ 0
put-open b ([], rest) h = ground arith
put-open b (p ∷ ps, rest) h = ground arith

pub split-left_open : (xs : List ℕ) → nulls (split_packets xs).1 ≡ 0
split-left_open [] = refl
split-left_open (x ∷ xs) = put-open x (split_packets xs) (split-left_open xs)

-- A stream that goes on: what was left belongs to what follows.
abbrev join : List (List ℕ) × List ℕ → List ℕ → List (List ℕ) × List ℕ
join s ys = (s.0 ++ (split_packets (s.1 ++ ys)).0, (split_packets (s.1 ++ ys)).1)

put-join :
    (b : ℕ) (s : List (List ℕ) × List ℕ) (ys : List ℕ)
    → put_byte b (join s ys) ≡ join (put_byte b s) ys
put-join b (ps, rest) ys = elim (Bool-cases (b == 0)) [ inl e ↦ rw e refl | inr e ↦ packet ps e ]
  where
    packet :
        (ps : List (List ℕ))
        → (b == 0) ≡ false
        → put_byte b (join (ps, rest) ys) ≡ join (put_byte b (ps, rest)) ys
    packet [] e = rw (e, e) refl
    packet (p ∷ ps') e = rw e refl

pub split-append : (xs ys : List ℕ) → split_packets (xs ++ ys) ≡ join (split_packets xs) ys
split-append [] ys = refl
split-append (x ∷ xs) ys = ap (put_byte x) (split-append xs ys) ∙ put-join x (split_packets xs) ys

pub nulls-append : (xs ys : List ℕ) → nulls (xs ++ ys) ≡ nulls xs + nulls ys
nulls-append [] ys = omega arith
nulls-append (x ∷ xs) ys = ground (arith, nulls-append xs ys)
