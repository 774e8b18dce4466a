-- ===== src/LogFile/Messages.antt =====
-- What `filter2` prints of a range of lines.
use event_loop.LogFile.{newline, data_size, read_at, find_newline, LfsCtx}
use event_loop.LogFile.Lines.{
  Line, text, size, bytes_of, IsReadable, find_newline-append, drop-long, take-append,
}
use event_loop.LogFile.Reading.{
  bulk_buf_size, Output, shifted, is_kept, max_loglines_size, outfilter, each_line, to_read,
  filter2_loop, filter2,
}
use event_loop.LogFile.Sorted.{AllReadable}
use event_loop.Prelude.{
  ltb, leb, ◌==◌, if◌then◌else◌, Bool-cases, ltb-ge, leb-lt, ==-gt, length, take, drop,
  length-append, take-append_one, drop-append_one, ℕ, zero, suc, ◌+◌, ◌-◌, ◌%◌, ◌≤◌, ◌<◌, min, ◌≡◌,
  refl, sym, ap, ◌∙◌, inl, inr, true, false, some, List, [], ◌∷◌, ◌++◌, append-nil, append_assoc,
  arith,
}
use event_loop.Prelude.Int.{pos}

-- A line that is kept, with its time in decimal digits, or nothing.
abbrev pub printed : Output → Line → List ℕ
printed o l =
    let msg = text l ++ newline ∷ [] in
    if is_kept o (drop 9 msg)
    then o.print (shifted l.time o.t_offset) ++ (o.sep ++ drop 9 msg)
    else []

abbrev pub printed_all : Output → List Line → List ℕ
printed_all o [] = []
printed_all o (l ∷ ls) = printed o l ++ printed_all o ls

-- The lines have the eight digits and the comma.
abbrev pub AllLong : List Line → Type 0
AllLong [] = Unit
AllLong (l ∷ ls) = (9 ≤ size l) × AllLong ls

module _ (o : Output) where
  outfilter-printed :
      (l : Line) (out : List ℕ)
      → IsReadable o.scan l
      → 9 ≤ size l
      → length (out ++ printed o l) < max_loglines_size
      → outfilter o (text l ++ newline ∷ []) out ≡ some (out ++ printed o l)
  unfolding outfilter
  outfilter-printed l out rl long room =
      let len = length-append (text l) (newline ∷ []) in
      let read : o.scan (text l ++ newline ∷ []) ≡ some l.time =
        rw (append_assoc l.digits l.rest (newline ∷ [])) (rl.scanned (l.rest ++ newline ∷ [])) in
      elim (Bool-cases (is_kept o (drop 9 (text l ++ newline ∷ [])))) [
        | inl kept ↦
            rw
              (
                outfilter,
                ltb-ge (length (text l ++ newline ∷ [])) 9 (omega (arith, len, long)),
                kept,
                read,
                leb-lt _ max_loglines_size (rw kept at room),
              )
              refl
        | inr other ↦
            rw
              (
                outfilter,
                ltb-ge (length (text l ++ newline ∷ [])) 9 (omega (arith, len, long)),
                other,
              )
              (ap some (sym (append-nil out)))
      ]

  each_line-lines :
      (ls : List Line) (fuel : ℕ) (out : List ℕ)
      → AllReadable o.scan ls
      → AllLong ls
      → length (bytes_of ls) ≤ fuel
      → length (out ++ printed_all o ls) < max_loglines_size
      → each_line fuel o (bytes_of ls) out ≡ some ([], out ++ printed_all o ls)
  unfolding each_line bytes_of find_newline
  each_line-lines [] zero out r long enough room = rw (append-nil out) refl
  each_line-lines [] (suc fuel) out r long enough room = rw (append-nil out) refl
  each_line-lines (l ∷ ls) zero out r long enough room =
      absurd (omega (arith, enough, length-append (text l) (newline ∷ bytes_of ls)))
  each_line-lines (l ∷ ls) (suc fuel) out r long enough room =
      let len = length-append (text l) (newline ∷ bytes_of ls) in
      let end = find_newline-append (text l) (bytes_of ls) r.0.one_line in
      let small = r.0.short in
      let all = append_assoc out (printed o l) (printed_all o ls) in
      let first_fits : length (out ++ printed o l) < max_loglines_size = omega (
        arith,
        room,
        length-append out (printed o l),
        length-append out (printed o l ++ printed_all o ls),
        length-append (printed o l) (printed_all o ls),
      ) in
      let first_line : outfilter o (take (suc (length (text l))) (bytes_of (l ∷ ls))) out
          ≡ some (out ++ printed o l) =
        ap (λ m. outfilter o m out) (take-append_one (text l) (bytes_of ls) newline)
        ∙ outfilter-printed l out r.0 long.0 first_fits in
      rw
        (
          each_line,
          end,
          ltb-ge data_size (size l) (omega (arith, small)),
          first_line,
          drop-append_one (text l) (bytes_of ls) newline,
        )
        (each_line-lines ls fuel (out ++ printed o l) r.1 long.1 (omega (arith, enough, len))
            (omega (arith, room, ap length all))
          ∙ ap (λ ys. some ([], ys)) (all))

  printed-none : (ls : List Line) → length (bytes_of ls) ≡ 0 → printed_all o ls ≡ []
  unfolding bytes_of
  printed-none [] e = refl
  printed-none (l ∷ ls) e =
      absurd (omega (arith, e, length-append (text l) (newline ∷ bytes_of ls)))

read_range :
    (front back mid : List ℕ) → read_at (front ++ (mid ++ back)) (length front) (length mid) ≡ mid
read_range front back mid =
    let none_left : length front - length front ≡ 0 = omega arith in
    let none_more : length mid - length mid ≡ 0 = omega arith in
    rw
      (
        drop-long (length front) front (mid ++ back) (omega arith),
        none_left,
        take-append (length mid) mid back (omega arith),
        none_more,
      )
      (append-nil mid)

-- A round that reads bytes.
filter2_loop-next :
    (o : Output) (fuel : ℕ) (file : List ℕ) (eoff off at n : ℕ) (unbuf out bytes rest out' : List ℕ)
    → off < eoff
    → to_read (length unbuf) off eoff ≡ n
    → read_at file at n ≡ bytes
    → 0 < n
    → 0 < length bytes
    → each_line (length (unbuf ++ bytes)) o (unbuf ++ bytes) out ≡ some (rest, out')
    → filter2_loop (suc fuel) o file eoff off at unbuf out
      ≡ filter2_loop fuel o file eoff (off + length (unbuf ++ bytes)) (at + length bytes) rest out'
unfolding filter2_loop
filter2_loop-next o fuel file eoff off at n unbuf out bytes rest out' more e f some_size some_bytes
      lines =
    let asked : (to_read (length unbuf) off eoff == 0) ≡ false = rw e (==-gt n 0 some_size) in
    let read_now : read_at file at (to_read (length unbuf) off eoff) ≡ bytes =
      ap (read_at file at) e ∙ f in
    rw
      (
        filter2_loop,
        leb-lt off eoff more,
        asked,
        read_now,
        ==-gt (length bytes) 0 some_bytes,
        lines,
      )
      (ap
        (λ bs.
          filter2_loop fuel o file eoff (off + length (unbuf ++ bs)) (at + length bs) rest out')
        read_now)

filter2_loop-end :
    (o : Output) (fuel : ℕ) (file : List ℕ) (eoff off at : ℕ) (unbuf out : List ℕ)
    → eoff ≤ off
    → filter2_loop (suc fuel) o file eoff off at unbuf out ≡ some out
unfolding filter2_loop
filter2_loop-end o fuel file eoff off at unbuf out end =
    let done : leb eoff off ≡ true = ground arith in rw (filter2_loop, done) refl

to_read-aligned :
    (off size : ℕ) → off % 512 ≡ 0 → size < bulk_buf_size → to_read 0 off (off + size) ≡ size
to_read-aligned off size aligned fits =
    let aligned' : (off % 512 == 0) ≡ true = ground (arith, aligned) in
    rw aligned' (omega (arith, fits))

-- A range that starts at a multiple of 512 bytes and fits into the buffer.
filter2_loop-lines :
    (o : Output) (front back : List ℕ) (ls : List Line) (fuel : ℕ) (out : List ℕ)
    → AllReadable o.scan ls
    → AllLong ls
    → length front % 512 ≡ 0
    → length (bytes_of ls) < bulk_buf_size
    → length (out ++ printed_all o ls) < max_loglines_size
    → filter2_loop
        (suc (suc fuel))
        o
        (front ++ (bytes_of ls ++ back))
        (length front + length (bytes_of ls))
        (length front)
        (length front)
        []
        out
      ≡ some (out ++ printed_all o ls)
filter2_loop-lines o front back ls fuel out r long aligned fits room =
    let size = length (bytes_of ls) in
    let off = length front in
    let file = front ++ (bytes_of ls ++ back) in
    elim (Bool-cases (ltb 0 size)) [
      | inl some_lines ↦
          filter2_loop-next o (suc fuel) file (off + size) off off size [] out (bytes_of ls) []
            (out ++ printed_all o ls) (ground arith) (to_read-aligned off size aligned fits)
            (read_range front back (bytes_of ls)) (ground arith) (ground arith)
            (each_line-lines o ls size out r long (omega arith) room)
          ∙ filter2_loop-end o fuel file (off + size) (off + size) (off + size) []
              (out ++ printed_all o ls) (omega arith)
      | inr empty ↦
          let e : size ≡ 0 = ground arith in
          filter2_loop-end o (suc fuel) file (off + size) off off [] out (omega (arith, e))
          ∙ rw (printed-none o ls e) (ap some (sym (append-nil out)))
    ]

filter2_loop-short :
    (o : Output) (fuel : ℕ) (file : List ℕ) (soff eoff : ℕ) (out : List ℕ)
    → 0 < soff % 512
    → eoff ≤ soff + (512 - soff % 512)
    → filter2_loop (suc fuel) o file eoff soff soff [] out ≡ some out
unfolding filter2_loop
filter2_loop-short o fuel file soff eoff out unaligned near = elim (Bool-cases (leb eoff soff)) [
  | inl empty ↦ rw (filter2_loop, empty) refl
  | inr more ↦
      let off : (soff % 512 == 0) ≡ false = ==-gt (soff % 512) 0 unaligned in
      let n : (to_read 0 soff eoff == 0) ≡ true = rw off (
        let e : min (bulk_buf_size - 0 - 1) (eoff - soff) - (512 - soff % 512) ≡ 0 =
          omega (arith, near) in
        ground (arith, e)) in
      rw (filter2_loop, more, n) refl
]

-- If the range does not start at a multiple of 512 bytes and does not go beyond the next one,
-- `filter2` prints none of its lines.
pub filter2-short :
    (o : Output) (fuel : ℕ) (file : List ℕ) (ctx : LfsCtx) (soff eoff : ℕ) (out : List ℕ)
    → ctx.soff ≡ pos soff
    → ctx.eoff ≡ pos eoff
    → 0 < soff % 512
    → eoff ≤ soff + (512 - soff % 512)
    → filter2 (suc fuel) o file ctx out ≡ some out
unfolding filter2 filter2_loop
filter2-short o fuel file ctx soff eoff out start end unaligned near =
    rw (filter2, start, end) (filter2_loop-short o fuel file soff eoff out unaligned near)

-- `filter2` prints, behind what the buffer has, the lines of the range that have the filter, each with
-- its time in decimal digits. The range is made of readable lines of at least nine bytes, starts at a
-- multiple of 512 bytes and fits into the buffer, and what is printed fits into its own. Two rounds of its loop are enough.
pub filter2-lines :
    (o : Output) (front back : List ℕ) (ls : List Line) (ctx : LfsCtx) (fuel : ℕ) (out : List ℕ)
    → AllReadable o.scan ls
    → AllLong ls
    → length front % 512 ≡ 0
    → length (bytes_of ls) < bulk_buf_size
    → length (out ++ printed_all o ls) < max_loglines_size
    → ctx.soff ≡ pos (length front)
    → ctx.eoff ≡ pos (length front + length (bytes_of ls))
    → filter2 (suc (suc fuel)) o (front ++ (bytes_of ls ++ back)) ctx out
      ≡ some (out ++ printed_all o ls)
unfolding filter2
filter2-lines o front back ls ctx fuel out r long aligned fits room start end =
    rw (filter2, start, end) (filter2_loop-lines o front back ls fuel out r long aligned fits room)
