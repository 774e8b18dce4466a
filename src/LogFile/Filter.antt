-- ===== src/LogFile/Filter.antt =====
-- The range that `filter1` finds in a file of lines, and where it is not the right one.
use event_loop.LogFile.{
  newline, get_near_seq, Sought, found_at, get_seq_position, filter_end, filter1,
}
use event_loop.LogFile.Lines.{Line, text, size, bytes_of, At, last_start, Grows}
use event_loop.LogFile.Range.{
  log_ctx, Between, From, filter_end-last, filter_end-inner, filter1-Between,
}
use event_loop.LogFile.Search.{IsLog, Finds}
use event_loop.LogFile.Sorted.{
  AllReadable, lines-IsLog, last_time, last-latest, get_seq_position-lines,
}
use event_loop.Prelude.{
  ◌==◌, ltb-ge, leb-lt, length, length-append, ℕ, suc, ◌-◌, ◌^◌, ◌≤◌, ◌<◌, ◌≡◌, refl, ◌⊎◌, inl, inr,
  true, Option, some, List, [], ◌∷◌, arith,
}
use event_loop.Prelude.Int.{pos}

-- `getSeqPosition`, as `filter1` calls it.
abbrev pub seek_in : (scan : List ℕ → Option ℕ) → Line → List Line → (fuel t : ℕ) → Sought
seek_in scan l ls fuel t =
    get_seq_position (get_near_seq scan (bytes_of (l ∷ ls))) fuel t l.time (last_time l ls) 0
      (last_start (l ∷ ls))

-- Every line starts within the file.
At-inside : (ls : List Line) (o m : ℕ) → At ls o m → o < length (bytes_of ls)
unfolding bytes_of
At-inside [] o m h = absurd h
At-inside (l ∷ ls) o m (inl (e, f)) =
    rw (length-append (text l) (newline ∷ bytes_of ls)) (omega (arith, e))
At-inside (l ∷ ls) o m (inr (le, h)) =
    rw (length-append (text l) (newline ∷ bytes_of ls))
      (omega (arith, le, At-inside ls (o - size l) m h))

module _ (scan : List ℕ → Option ℕ) (l : Line) (ls : List Line) (fuel : ℕ)
    (readable : AllReadable scan (l ∷ ls)) (grows : Grows (l ∷ ls))
    (enough : last_start (l ∷ ls) < fuel) where
  abbrev log : IsLog (get_near_seq scan (bytes_of (l ∷ ls))) (At (l ∷ ls)) (last_start (l ∷ ls))
  log = lines-IsLog scan (l ∷ ls) readable grows

  finds :
      (t : ℕ) → l.time ≤ t → t ≤ last_time l ls → Finds (At (l ∷ ls)) t (seek_in scan l ls fuel t)
  finds t early late = get_seq_position-lines scan l ls fuel t readable grows early late enough

  end_in_file : From (At (l ∷ ls)) (suc (last_time l ls)) (length (bytes_of (l ∷ ls)))
  end_in_file o m h = (
    λ le. absurd (omega (arith, le, At-inside (l ∷ ls) o m h)),
    λ late. absurd (omega (arith, late, last-latest l ls o m grows h)),
  )

  -- In a file of readable lines whose times grow, below 2 ^ 64, `filter1` finds the lines with the
  -- times from `st` to `et`: those that start from `soff` on and before `eoff`. `st` is not behind the
  -- last line, `et` not before the first, and it is the time of the last or there is a line at `et` or
  -- behind it that is not the last. Fuel beyond the start of the last line is enough.
  pub filter1-lines :
      (st et : ℕ)
      → st ≤ last_time l ls
      → l.time ≤ et
      → last_time l ls < 2 ^ 64
      → ((et ≡ last_time l ls) ⊎ ((o m : ℕ) × At (l ∷ ls) o m × (et ≤ m) × (m < last_time l ls)))
      → (s e : ℕ) × (filter1 (seek_in scan l ls fuel) (log_ctx l ls) st et
          ≡ some (record (log_ctx l ls) { st = st; et = et; soff = pos s; eoff = pos e }))
        × Between (At (l ∷ ls)) st et s e
  filter1-lines st et late early small (inl end) =
      let size = length (bytes_of (l ∷ ls)) in
      let from : From (At (l ∷ ls)) (suc et) size = rw end end_in_file in
      let (s, e, between) =
        filter1-Between log (seek_in scan l ls fuel) (log_ctx l ls) et finds st size
          (some (last_time l ls)) (inl (refl, refl)) refl late
          (filter_end-last log (seek_in scan l ls fuel) (log_ctx l ls) et finds end) from in
      (s, size, e, between)
  filter1-lines st et late early small (inr (o', m', h', le', lt')) =
      let less : et < last_time l ls = omega (arith, le', lt') in
      let (e, met, ending, from) =
        filter_end-inner log (seek_in scan l ls fuel) (log_ctx l ls) et finds early less small
          (o', m', h', le', lt') in
      let (s, found_it, between) =
        filter1-Between log (seek_in scan l ls fuel) (log_ctx l ls) et finds st e met
          (inl (refl, refl)) refl late ending from in
      (s, e, found_it, between)

  -- Where no line but the last is at `et` or behind it, and the last is behind it, the range goes up to
  -- the end of the file: it takes the last line in. The file is one of readable lines whose times
  -- grow, `et` is not before the first, and there is fuel beyond the start of the last line.
  pub filter_end-gap :
      (et : ℕ)
      → l.time ≤ et
      → et < last_time l ls
      → ((o m : ℕ) → At (l ∷ ls) o m → et ≤ m → last_time l ls ≤ m)
      → filter_end (seek_in scan l ls fuel) (log_ctx l ls) et
        ≡ found_at (pos (length (bytes_of (l ∷ ls)))) (some (last_time l ls))
  unfolding filter_end
  filter_end-gap et early late gap =
      let (o, m, e, (h, le, first)) = finds et early (omega (arith, late)) in
      let last : m ≡ last_time l ls = omega (arith, gap o m h le, last-latest l ls o m grows h) in
      let same : (m == last_time l ls) ≡ true = ground arith in
      rw
        (
          filter_end,
          ltb-ge (last_time l ls) et (omega (arith, late)),
          leb-lt et (last_time l ls) late,
          e,
          same,
          last,
        )
        refl
