-- ===== src/LogFile/Bytes.antt =====
-- Bytes of a part of a file, and where its lines end.
use event_loop.LogFile.{newline, find_newline}
use event_loop.LogFile.Lines.{Line, text, bytes_of, length-drop}
use event_loop.Prelude.{
  leb, ◌==◌, Bool-cases, length, drop, length-append, ℕ, zero, suc, ◌+◌, ◌-◌, ◌<◌, ◌≡◌, refl, sym,
  ◌∙◌, ◌⊎◌, inl, inr, false, none, List, [], ◌∷◌, ◌++◌, arith,
}
use event_loop.WebSock.{byte_at}

pub byte_at-left : (xs ys : List ℕ) (i : ℕ) → i < length xs → byte_at (xs ++ ys) i ≡ byte_at xs i
byte_at-left [] ys i h = absurd (omega arith)
byte_at-left (x ∷ xs) ys zero h = refl
byte_at-left (x ∷ xs) ys (suc i) h = byte_at-left xs ys i (omega arith)

pub byte_at-right :
    (xs ys : List ℕ) (i j : ℕ) → j ≡ length xs + i → byte_at (xs ++ ys) j ≡ byte_at ys i
byte_at-right [] ys i j e = let same : j ≡ i = omega arith in rw same refl
byte_at-right (x ∷ xs) ys i zero e = absurd (omega arith)
byte_at-right (x ∷ xs) ys i (suc j) e = byte_at-right xs ys i j (omega arith)

pub byte_at-drop :
    (n : ℕ) (xs : List ℕ) (i j : ℕ) → j ≡ n + i → byte_at (drop n xs) i ≡ byte_at xs j
byte_at-drop zero xs i j e = let same : j ≡ i = omega arith in rw same refl
byte_at-drop (suc n) [] i j e = refl
byte_at-drop (suc n) (x ∷ xs) i zero e = absurd (omega arith)
byte_at-drop (suc n) (x ∷ xs) i (suc j) e = byte_at-drop n xs i j (omega arith)

pub byte_at-other :
    (xs : List ℕ) (i : ℕ)
    → find_newline xs ≡ none
    → i < length xs
    → (byte_at xs i == newline) ≡ false
unfolding find_newline
byte_at-other [] i h le = absurd (omega arith)
byte_at-other (x ∷ xs) zero h le = ground arith
byte_at-other (x ∷ xs) (suc i) h le = byte_at-other xs i (ground arith) (omega arith)

-- Nothing, or lines that end.
abbrev pub IsEnded : List ℕ → Type 0
IsEnded xs = (length xs ≡ 0) ⊎ ((n : ℕ) × (length xs ≡ suc n) × (byte_at xs n ≡ newline))

pub bytes_of-IsEnded : (ls : List Line) → IsEnded (bytes_of ls)
unfolding bytes_of
bytes_of-IsEnded [] = inl refl
bytes_of-IsEnded (l ∷ ls) = elim (bytes_of-IsEnded ls) [
  | inl e ↦ inr (
    length (text l),
    omega (arith, length-append (text l) (newline ∷ bytes_of ls), e),
    byte_at-right (text l) (newline ∷ bytes_of ls) 0 (length (text l)) (omega arith),
  )
  | inr (n, e, f) ↦ inr (
    length (text l) + suc n,
    omega (arith, length-append (text l) (newline ∷ bytes_of ls), e),
    byte_at-right (text l) (newline ∷ bytes_of ls) (suc n) (length (text l) + suc n) refl ∙ f,
  )
]

pub drop-IsEnded : (n : ℕ) (xs : List ℕ) → IsEnded xs → IsEnded (drop n xs)
drop-IsEnded n xs (inl e) = inl (omega (arith, length-drop n xs, e))
drop-IsEnded n xs (inr (k, e, f)) = elim (Bool-cases (leb n k)) [
  | inl within ↦
      let sum : n + (k - n) ≡ k = ground arith in
      inr
        (k - n, omega (arith, length-drop n xs, e, sum), byte_at-drop n xs (k - n) k (sym sum) ∙ f)
  | inr beyond ↦ inl (ground (arith, length-drop n xs))
]
