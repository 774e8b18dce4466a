-- ===== src/LogFile/Sorted.antt =====
-- Files of readable lines whose times grow.
use event_loop.LogFile.{get_near_seq, get_seq_position}
use event_loop.LogFile.Lines.{Line, size, bytes_of, At, last_start, IsReadable, Grows}
use event_loop.LogFile.Nearest.{near_first, near_next}
use event_loop.LogFile.Search.{IsLog, Finds, get_seq_position-Finds}
use event_loop.Prelude.{
  ltb, Bool-cases, ℕ, zero, suc, ◌+◌, ◌-◌, ◌≤◌, ◌<◌, ◌≡◌, refl, sym, ◌∙◌, subst, inl, inr, Option,
  some, List, [], ◌∷◌, arith,
}

-- All lines are readable.
abbrev pub AllReadable : (scan : List ℕ → Option ℕ) → List Line → Type 0
AllReadable scan [] = Unit
AllReadable scan (l ∷ ls) = IsReadable scan l × AllReadable scan ls

-- A position has one time.
At-unique : (ls : List Line) (o t t' : ℕ) → At ls o t → At ls o t' → t ≡ t'
At-unique [] o t t' h k = absurd h
At-unique (l ∷ ls) o t t' (inl (e, f)) (inl (e', f')) = f ∙ sym f'
At-unique (l ∷ ls) o t t' (inl (e, f)) (inr (le, k)) = absurd (omega (arith, e, le))
At-unique (l ∷ ls) o t t' (inr (le, h)) (inl (e, f)) = absurd (omega (arith, e, le))
At-unique (l ∷ ls) o t t' (inr (le, h)) (inr (le', k)) = At-unique ls (o - size l) t t' h k

-- The lines behind the first are later.
At-later : (l : Line) (ls : List Line) (o t : ℕ) → Grows (l ∷ ls) → At ls o t → l.time < t
At-later l [] o t g h = absurd h
At-later l (m ∷ ls) o t g (inl (e, f)) = omega (arith, g.0, f)
At-later l (m ∷ ls) o t g (inr (le, h)) = omega (arith, g.0, At-later m ls (o - size m) t g.1 h)

Grows-tail : (l : Line) (ls : List Line) → Grows (l ∷ ls) → Grows ls
Grows-tail l [] g = tt
Grows-tail l (m ∷ ls) g = g.1

At-ordered : (ls : List Line) (o t o' t' : ℕ) → Grows ls → At ls o t → At ls o' t' → o < o' → t < t'
At-ordered [] o t o' t' g h k lt = absurd h
At-ordered (l ∷ ls) o t o' t' g (inl (e, f)) (inl (e', f')) lt = absurd (omega (arith, e, e', lt))
At-ordered (l ∷ ls) o t o' t' g (inl (e, f)) (inr (le, k)) lt =
    omega (arith, f, At-later l ls (o' - size l) t' g k)
At-ordered (l ∷ ls) o t o' t' g (inr (le, h)) (inl (e', f')) lt = absurd (omega (arith, e', lt))
At-ordered (l ∷ ls) o t o' t' g (inr (le, h)) (inr (le', k)) lt =
    At-ordered ls (o - size l) t (o' - size l) t' (Grows-tail l ls g) h k
      (omega (arith, le, le', lt))

-- The first line behind `off`.
abbrev Next : (scan : List ℕ → Option ℕ) → (ls : List Line) → (off : ℕ) → Type 0
Next scan ls off =
    (t o : ℕ) × (get_near_seq scan (bytes_of ls) off ≡ some (t, o))
    × At ls o t
    × (off ≤ o)
    × (o < off + 512)
    × ((o' t' : ℕ) → At ls o' t' → off ≤ o' → o ≤ o')

At-start : (m : Line) (ls : List Line) (d : ℕ) → d ≡ 0 → At (m ∷ ls) d m.time
At-start m ls d e = inl (e, refl)

At-behind :
    (l : Line) (ls : List Line) (o' t' p k : ℕ)
    → At (l ∷ ls) o' t'
    → suc p ≤ o'
    → ((o t : ℕ) → At ls o t → suc p ≤ size l + o → k ≤ size l + o)
    → k ≤ o'
At-behind l ls o' t' p k (inl (e, f)) le rest = absurd (omega (arith, e, le))
At-behind l ls o' t' p k (inr (le', h)) le rest =
    omega (arith, le', rest (o' - size l) t' h (omega (arith, le, le')))

module _ (scan : List ℕ → Option ℕ) where
  Next-first :
      (l m : Line) (ls : List Line) (p : ℕ)
      → IsReadable scan l
      → IsReadable scan m
      → p < size l
      → Next scan (l ∷ m ∷ ls) (suc p)
  Next-first l m ls p rl rm within =
      let small = rl.short in
      (
        m.time,
        size l,
        near_first scan l m ls p rl rm within,
        inr (omega arith, At-start m ls (size l - size l) (omega arith)),
        omega (arith, within),
        omega (arith, small),
        λ o' t' h le. At-behind l (m ∷ ls) o' t' p (size l) h le (λ o t k more. omega arith),
      )

  Next-behind :
      (l : Line) (ls : List Line) (p : ℕ)
      → size l ≤ p
      → Next scan ls (suc (p - size l))
      → Next scan (l ∷ ls) (suc p)
  Next-behind l ls p behind (t, o, e, h, le, close, first) =
      let back : size l + o - size l ≡ o = omega arith in
      (
        t,
        size l + o,
        near_next scan l ls p behind ∙ rw e refl,
        inr (omega arith, subst (λ d. At ls d t) (sym back) h),
        omega (arith, le, behind),
        omega (arith, close, behind),
        λ o' t' k after.
            At-behind l ls o' t' p (size l + o) k after
              (λ o'' t'' k' more. omega (arith, first o'' t'' k' (omega (arith, more, behind)))),
      )

  -- Up to the last line there is a next one.
  Next-all :
      (ls : List Line) (p : ℕ) → AllReadable scan ls → suc p ≤ last_start ls → Next scan ls (suc p)
  Next-all [] p r le = absurd (omega (arith, le))
  Next-all (l ∷ []) p r le = absurd (omega (arith, le))
  Next-all (l ∷ m ∷ ls) p r le = elim (Bool-cases (ltb p (size l))) [
    | inl within ↦ Next-first l m ls p r.0 r.1.0 (ground arith)
    | inr behind ↦
        Next-behind l (m ∷ ls) p (ground arith) (Next-all (m ∷ ls) (p - size l) r.1 (ground arith))
  ]

  Next-any :
      (ls : List Line) (off : ℕ)
      → AllReadable scan ls
      → 0 < off
      → off ≤ last_start ls
      → Next scan ls off
  Next-any ls zero r after le = absurd (omega (arith, after))
  Next-any ls (suc p) r after le = Next-all ls p r le

  pub lines-IsLog :
      (ls : List Line)
      → AllReadable scan ls
      → Grows ls
      → IsLog (get_near_seq scan (bytes_of ls)) (At ls) (last_start ls)
  lines-IsLog ls r g = record {
    unique = At-unique ls;
    ordered = λ o t o' t' h k lt. At-ordered ls o t o' t' g h k lt;
    nearest = λ off after le. Next-any ls off r after le;
  }

-- The time of the last line.
abbrev pub last_time : Line → List Line → ℕ
last_time l [] = l.time
last_time l (m ∷ ls) = last_time m ls

last-At : (l : Line) (ls : List Line) → At (l ∷ ls) (last_start (l ∷ ls)) (last_time l ls)
last-At l [] = inl (refl, refl)
last-At l (m ∷ ls) =
    let back : size l + last_start (m ∷ ls) - size l ≡ last_start (m ∷ ls) = omega arith in
    inr (omega arith, subst (λ d. At (m ∷ ls) d (last_time m ls)) (sym back) (last-At m ls))

-- No line is later than the last.
pub last-latest :
    (l : Line) (ls : List Line) (o t : ℕ) → Grows (l ∷ ls) → At (l ∷ ls) o t → t ≤ last_time l ls
last-latest l [] o t g (inl (e, f)) = omega (arith, f)
last-latest l [] o t g (inr (le, h)) = absurd h
last-latest l (m ∷ ls) o t g (inl (e, f)) =
    omega (arith, f, g.0, last-latest m ls 0 m.time g.1 (inl (refl, refl)))
last-latest l (m ∷ ls) o t g (inr (le, h)) = last-latest m ls (o - size l) t g.1 h

-- In a file of readable lines whose times grow, `getSeqPosition` returns for a time between those of
-- the first and of the last line where the first line starts whose time is not before it, and that
-- line's time. Fuel beyond the start of the last line is enough.
pub get_seq_position-lines :
    (scan : List ℕ → Option ℕ) (l : Line) (ls : List Line) (fuel t : ℕ)
    → AllReadable scan (l ∷ ls)
    → Grows (l ∷ ls)
    → l.time ≤ t
    → t ≤ last_time l ls
    → last_start (l ∷ ls) < fuel
    → Finds (At (l ∷ ls)) t (
        get_seq_position
          (get_near_seq scan (bytes_of (l ∷ ls)))
          fuel
          t
          l.time
          (last_time l ls)
          0
          (last_start (l ∷ ls)))
get_seq_position-lines scan l ls fuel t r g early late enough =
    get_seq_position-Finds (lines-IsLog scan (l ∷ ls) r g) fuel t l.time (last_time l ls) 0
      (last_start (l ∷ ls)) (inl (refl, refl)) (last-At l ls) early late (omega arith)
      (omega (arith, enough))
