-- ===== src/LogFile/Lines.antt =====
-- Files of lines, as `getNearSeq` of logfile/lfs_read.c reads them.
use event_loop.LogFile.{newline, find_newline}
use event_loop.Prelude.{
  length, take, drop, ℕ, zero, suc, ◌+◌, ◌-◌, ◌≤◌, ◌<◌, ◌≡◌, refl, ap, ◌⊎◌, Option, none, some,
  List, [], ◌∷◌, ◌++◌, arith,
}

-- A line: its digits with the comma, and what follows up to its newline.
pub record Line : Type 0 where
  pub time : ℕ
  pub digits : List ℕ
  pub rest : List ℕ

abbrev pub text : Line → List ℕ
text l = l.digits ++ l.rest

abbrev pub size : Line → ℕ
size l = suc (length (text l))

unfoldable pub bytes_of : List Line → List ℕ
bytes_of [] = []
bytes_of (l ∷ ls) = text l ++ newline ∷ bytes_of ls

-- The line that starts at `o` has the time `t`.
abbrev pub At : List Line → ℕ → ℕ → Type 0
At [] o t = ⊥
At (l ∷ ls) o t = ((o ≡ 0) × (t ≡ l.time)) ⊎ ((size l ≤ o) × At ls (o - size l) t)

-- The last line starts here.
abbrev pub last_start : List Line → ℕ
last_start [] = 0
last_start (l ∷ []) = 0
last_start (l ∷ m ∷ ls) = size l + last_start (m ∷ ls)

-- `sscanf` reads the time of the line from its digits and the comma, whatever follows; the line has
-- at most 512 bytes, with its newline, and no newline within.
pub record IsReadable (scan : List ℕ → Option ℕ) (l : Line) : Type 0 where
  pub scanned : (more : List ℕ) → scan (l.digits ++ more) ≡ some l.time
  pub one_line : find_newline (text l) ≡ none
  pub short : size l ≤ 512

-- Times grow.
abbrev pub Grows : List Line → Type 0
Grows [] = Unit
Grows (l ∷ []) = Unit
Grows (l ∷ m ∷ ls) = (l.time < m.time) × Grows (m ∷ ls)

pub find_newline-append :
    (xs ys : List ℕ) → find_newline xs ≡ none → find_newline (xs ++ newline ∷ ys) ≡ some (length xs)
unfolding find_newline
find_newline-append [] ys h = refl
find_newline-append (x ∷ xs) ys h = ground (arith, find_newline-append xs ys)

pub find_newline-drop :
    (n : ℕ) (xs : List ℕ) → find_newline xs ≡ none → find_newline (drop n xs) ≡ none
unfolding find_newline
find_newline-drop zero xs h = h
find_newline-drop (suc n) [] h = h
find_newline-drop (suc n) (x ∷ xs) h = find_newline-drop n xs (ground arith)

pub drop-short : (n : ℕ) (xs ys : List ℕ) → n ≤ length xs → drop n (xs ++ ys) ≡ drop n xs ++ ys
drop-short zero xs ys h = refl
drop-short (suc n) [] ys h = absurd (omega arith)
drop-short (suc n) (x ∷ xs) ys h = drop-short n xs ys (omega arith)

pub drop-long :
    (n : ℕ) (xs ys : List ℕ) → length xs ≤ n → drop n (xs ++ ys) ≡ drop (n - length xs) ys
drop-long n [] ys h = let e : n - 0 ≡ n = omega arith in rw e refl
drop-long zero (x ∷ xs) ys h = absurd (omega arith)
drop-long (suc n) (x ∷ xs) ys h =
    let e : suc n - suc (length xs) ≡ n - length xs = omega arith in
    rw e (drop-long n xs ys (omega arith))

pub length-drop : (n : ℕ) (xs : List ℕ) → length (drop n xs) ≡ length xs - n
length-drop zero xs = omega arith
length-drop (suc n) [] = omega arith
length-drop (suc n) (x ∷ xs) = omega (arith, length-drop n xs)

pub take-append :
    (n : ℕ) (xs ys : List ℕ) → length xs ≤ n → take n (xs ++ ys) ≡ xs ++ take (n - length xs) ys
take-append n [] ys h = let e : n - 0 ≡ n = omega arith in rw e refl
take-append zero (x ∷ xs) ys h = absurd (omega arith)
take-append (suc n) (x ∷ xs) ys h =
    let e : suc n - suc (length xs) ≡ n - length xs = omega arith in
    rw e (ap (λ zs. x ∷ zs) (take-append n xs ys (omega arith)))
