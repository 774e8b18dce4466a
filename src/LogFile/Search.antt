-- ===== src/LogFile/Search.antt =====
-- The search in a log whose times grow from line to line, with lines of at most 512 bytes.
use event_loop.LogFile.{Sought, found_at, scan_on, seek, get_seq_position}
use event_loop.LogFile.Lines.{At}
use event_loop.Prelude.{
  ltb, leb, ◌==◌, Bool-cases, ltb-ge, leb-lt, ==-lt, ℕ, zero, suc, ◌+◌, ◌-◌, ◌/◌, ◌≤◌, ◌<◌, ◌≡◌,
  refl, subst, inl, inr, true, false, ◌||◌, Option, some, arith,
}
use event_loop.Prelude.Int.{pos}

-- A line that starts at `o` has the time `t`; the last one starts at `last`.
pub record IsLog (near : ℕ → Option (ℕ × ℕ)) (At : ℕ → ℕ → Type 0) (last : ℕ) : Type 0 where
  pub unique : (o t t' : ℕ) → At o t → At o t' → t ≡ t'
  pub ordered : (o t o' t' : ℕ) → At o t → At o' t' → o < o' → t < t'
  pub nearest :
      (off : ℕ)
      → 0 < off
      → off ≤ last
      → (t o : ℕ) × (near off ≡ some (t, o))
        × At o t
        × (off ≤ o)
        × (o < off + 512)
        × ((o' t' : ℕ) → At o' t' → off ≤ o' → o ≤ o')

-- The first line whose time is not before `t` starts at `o` and has the time `m`.
abbrev pub IsFirst : (At : ℕ → ℕ → Type 0) → (t o m : ℕ) → Type 0
IsFirst At t o m = At o m × (t ≤ m) × ((o' t' : ℕ) → At o' t' → t ≤ t' → o ≤ o')

-- The search finds that line.
abbrev pub Finds : (At : ℕ → ℕ → Type 0) → (t : ℕ) → Sought → Type 0
Finds At t s = (o m : ℕ) × (s ≡ found_at (pos o) (some m)) × IsFirst At t o m

module _ {near : ℕ → Option (ℕ × ℕ)} {At : ℕ → ℕ → Type 0} {last : ℕ}
    (log : IsLog near At last) where
  open log use {unique, ordered, nearest}

  -- Times are ordered like positions.
  starts_before : (o t o' t' : ℕ) → At o t → At o' t' → t < t' → o < o'
  starts_before o t o' t' h k lt = ground (arith, unique o t t' h, ordered o' t' o t k h)

  -- The first line behind one that is too early, if it is late enough, is the first one that is.
  IsFirst-behind :
      (t foff tf noff nt : ℕ)
      → At foff tf
      → tf < t
      → At noff nt
      → t ≤ nt
      → ((o' t' : ℕ) → At o' t' → suc foff ≤ o' → noff ≤ o')
      → IsFirst At t noff nt
  IsFirst-behind t foff tf noff nt hf early hn late next =
      (hn, late, λ o' t' h le. next o' t' h (starts_before foff tf o' t' hf h (omega arith)))

  scan_on-Finds :
      (fuel t lt foff loff tf : ℕ)
      → At foff tf
      → At loff lt
      → tf < t
      → t ≤ lt
      → loff ≤ last
      → loff < foff + fuel
      → Finds At t (scan_on near fuel t lt foff)
  unfolding scan_on
  scan_on-Finds zero t lt foff loff tf hf hl early late within enough =
      absurd (omega (arith, starts_before foff tf loff lt hf hl (omega arith)))
  scan_on-Finds (suc fuel) t lt foff loff tf hf hl early late within enough =
      let before : foff < loff = starts_before foff tf loff lt hf hl (omega arith) in
      let (nt, noff, e, hn, le, near', first) = nearest (suc foff) (omega arith) (omega arith) in
      elim (Bool-cases (nt == lt || leb t nt)) [
        | inl stop ↦
            rw (scan_on, e, stop)
              (noff, nt, refl, IsFirst-behind t foff tf noff nt hf early hn (ground arith) first)
        | inr more ↦
            rw (scan_on, e, more)
              (scan_on-Finds fuel t lt noff loff nt hn hl (ground arith) late within (omega arith))
      ]

  -- A line at the time that is looked for is the first that is not before it.
  IsFirst-exact : (t o : ℕ) → At o t → IsFirst At t o t
  IsFirst-exact t o h = (h, omega arith, λ o' t' h' le. ground (arith, ordered o' t' o t h' h))

-- A step of the search where the range is small.
seek-small :
    (near : ℕ → Option (ℕ × ℕ)) (fuel t ft lt foff loff : ℕ)
    → ft < t
    → t < lt
    → (ltb loff (foff + 1023) || leb (lt - ft) 3) ≡ true
    → seek near (suc fuel) t ft lt foff loff ≡ scan_on near (suc fuel) t lt foff
unfolding seek
seek-small near fuel t ft lt foff loff early late small =
    rw (ltb-ge t ft (omega arith), ltb-ge lt t (omega arith), small) refl

-- What follows from the line in the middle.
abbrev pub halves : (near : ℕ → Option (ℕ × ℕ)) → (fuel t ft lt foff loff mt moff : ℕ) → Sought
halves near fuel t ft lt foff loff mt moff = elim (mt == t) [
  | true ↦ found_at (pos moff) (some t)
  | false ↦ elim (ltb t mt) [
    | true ↦ seek near fuel t ft mt foff moff
    | false ↦ seek near fuel t mt lt moff loff
  ]
]

-- A step where it is large.
pub seek-large :
    (near : ℕ → Option (ℕ × ℕ)) (fuel t ft lt foff loff mt moff : ℕ)
    → ft < t
    → t < lt
    → foff + 1023 ≤ loff
    → ft + 3 < lt
    → near ((foff + loff) / 2) ≡ some (mt, moff)
    → seek near (suc fuel) t ft lt foff loff ≡ halves near fuel t ft lt foff loff mt moff
unfolding seek
seek-large near fuel t ft lt foff loff mt moff early late wide long e =
    rw
      (
        ltb-ge t ft (omega arith),
        ltb-ge lt t (omega arith),
        ltb-ge loff (foff + 1023) wide,
        leb-lt 3 (lt - ft) (omega arith),
        ==-lt foff loff (omega arith),
        leb-lt ft t early,
        leb-lt t lt late,
        leb-lt 2 (lt - ft) (omega arith),
        e,
      )
      refl

module _ {near : ℕ → Option (ℕ × ℕ)} {At : ℕ → ℕ → Type 0} {last : ℕ}
    (log : IsLog near At last) where
  open log use {unique, ordered, nearest}

  halves-Finds :
      (fuel t ft lt foff loff mt moff : ℕ)
      → At moff mt
      → (t < mt → Finds At t (seek near fuel t ft mt foff moff))
      → (mt < t → Finds At t (seek near fuel t mt lt moff loff))
      → Finds At t (halves near fuel t ft lt foff loff mt moff)
  halves-Finds fuel t ft lt foff loff mt moff hm below above = elim (Bool-cases (mt == t)) [
    | inl hit ↦
        let e : mt ≡ t = ground arith in
        rw (halves, hit) (moff, t, refl, IsFirst-exact log t moff (subst (λ m. At moff m) e hm))
    | inr other ↦ elim (Bool-cases (ltb t mt)) [
      | inl lower ↦ rw (halves, other, lower) (below (ground arith))
      | inr higher ↦ rw (halves, other, higher) (above (ground arith))
    ]
  ]

  -- The search returns the first line whose time is not before `t`, given fuel for every byte.
  pub seek-Finds :
      (fuel t ft lt foff loff : ℕ)
      → At foff ft
      → At loff lt
      → ft < t
      → t < lt
      → loff ≤ last
      → loff < foff + fuel
      → Finds At t (seek near fuel t ft lt foff loff)
  seek-Finds zero t ft lt foff loff hf hl early late within enough =
      absurd (omega (arith, starts_before log foff ft loff lt hf hl (omega arith)))
  seek-Finds (suc fuel) t ft lt foff loff hf hl early late within enough =
      elim (Bool-cases (ltb loff (foff + 1023) || leb (lt - ft) 3)) [
        | inl small ↦ rw (seek-small near fuel t ft lt foff loff early late small) (
            scan_on-Finds log (suc fuel) t lt foff loff ft hf hl early (omega arith) within
              (omega arith))
        | inr large ↦
            let wide : foff + 1023 ≤ loff = ground arith in
            let long : ft + 3 < lt = ground arith in
            let (mt, moff, e, hm, le, close, first) =
              nearest ((foff + loff) / 2) (omega arith) (omega arith) in
            rw (seek-large near fuel t ft lt foff loff mt moff early late wide long e) (
              halves-Finds fuel t ft lt foff loff mt moff hm
                (λ below.
                  seek-Finds fuel t ft mt foff moff hf hm early below (omega arith) (omega arith))
                (λ above. seek-Finds fuel t mt lt moff loff hm hl above late within (omega arith)))
      ]

-- In a log with lines of at most 512 bytes and growing times, `getSeqPosition` returns the first line
-- whose time is not before `t`, if `t` lies between the first and the last time. The fuel is enough
-- if there is a unit for each byte up to the last line.
pub get_seq_position-Finds :
    {near : ℕ → Option (ℕ × ℕ)} {At : ℕ → ℕ → Type 0} {last : ℕ} (log : IsLog near At last)
    (fuel t ft lt foff loff : ℕ)
    → At foff ft
    → At loff lt
    → ft ≤ t
    → t ≤ lt
    → loff ≤ last
    → loff < foff + fuel
    → Finds At t (get_seq_position near fuel t ft lt foff loff)
unfolding get_seq_position
get_seq_position-Finds {near} {At} log fuel t ft lt foff loff hf hl early late within enough =
    elim (Bool-cases (t == ft)) [
      | inl first ↦
          let e : ft ≡ t = ground arith in
          rw (ltb-ge t ft early, ltb-ge lt t late, first)
            (foff, ft, refl, subst (λ m. IsFirst At m foff ft) e (IsFirst-exact log ft foff hf))
      | inr inner ↦ elim (Bool-cases (t == lt)) [
        | inl end ↦
            let e : lt ≡ t = ground arith in
            rw (ltb-ge t ft early, ltb-ge lt t late, inner, end)
              (loff, lt, refl, subst (λ m. IsFirst At m loff lt) e (IsFirst-exact log lt loff hl))
        | inr other ↦
            rw (ltb-ge t ft early, ltb-ge lt t late, inner, other)
              (seek-Finds log fuel t ft lt foff loff hf hl (ground arith) (ground arith) within
                enough)
      ]
    ]
