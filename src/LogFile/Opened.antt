-- ===== src/LogFile/Opened.antt =====
-- What `init_lfs` reads of a file of lines.
use event_loop.LogFile.{newline, data_size, read_at, last_line, first_line, init_lfs}
use event_loop.LogFile.Bytes.{IsEnded, bytes_of-IsEnded, drop-IsEnded}
use event_loop.LogFile.Ends.{last_line-stops, first_line-reaches}
use event_loop.LogFile.Lines.{
  Line, text, size, bytes_of, last_start, IsReadable, drop-short, drop-long, length-drop,
  take-append,
}
use event_loop.LogFile.Range.{log_ctx}
use event_loop.LogFile.Sorted.{AllReadable, last_time}
use event_loop.Prelude.{
  ltb, Bool-cases, length, take, drop, length-append, take-all, ℕ, suc, ◌-◌, ◌≤◌, ◌≡◌, refl, sym,
  ap, ◌∙◌, subst, inl, inr, Option, some, List, [], ◌∷◌, ◌++◌, append_assoc, arith,
}
use event_loop.Prelude.Int.{pos}

-- The lines before the last one, and that one.
record IsSplit (scan : List ℕ → Option ℕ) (l : Line) (ls front : List Line) (z : Line)
    : Type 0 where
  bytes : bytes_of (l ∷ ls) ≡ bytes_of front ++ (text z ++ newline ∷ [])
  start : last_start (l ∷ ls) ≡ length (bytes_of front)
  time : last_time l ls ≡ z.time
  readable : IsReadable scan z

split :
    (scan : List ℕ → Option ℕ) (l : Line) (ls : List Line)
    → AllReadable scan (l ∷ ls)
    → (front : List Line) × (z : Line) × IsSplit scan l ls front z
unfolding bytes_of
split scan l [] r = ([], l, record { bytes = refl; start = refl; time = refl; readable = r.0 })
split scan l (m ∷ ls) r =
    let (front, z, s) = split scan m ls r.1 in
    (
      l ∷ front,
      z,
      record {
        bytes =
            ap (λ ys. text l ++ newline ∷ ys) s.bytes
            ∙ sym (append_assoc (text l) (newline ∷ bytes_of front) (text z ++ newline ∷ []));
        start = omega (arith, s.start, length-append (text l) (newline ∷ bytes_of front));
        time = s.time;
        readable = s.readable;
      },
    )

-- The last line is read from its start.
module _ (scan : List ℕ → Option ℕ) (before : List ℕ) (z : Line) (rz : IsReadable scan z)
    (ended : IsEnded before) where
  abbrev file : List ℕ
  file = before ++ (text z ++ newline ∷ [])

  abbrev tail : List ℕ
  tail = read_at file (length file - data_size) data_size

  abbrev skipped : List ℕ
  skipped = drop (length file - data_size) before

  tail_lem : tail ≡ skipped ++ (text z ++ newline ∷ [])
  tail_lem =
      let len = length-append before (text z ++ newline ∷ []) in
      let len' = length-append (text z) (newline ∷ []) in
      let small = rz.short in
      let n = length file - data_size in
      rw (drop-short n before (text z ++ newline ∷ []) (omega (arith, len, len', small))) (
        take-all data_size (skipped ++ (text z ++ newline ∷ [])) (
          omega (
            arith,
            length-append skipped (text z ++ newline ∷ []),
            length-drop n before,
            len,
            len',
          )))

  last_line_lem : last_line tail (length tail - 1) 1 ≡ size z
  last_line_lem =
      let len = length-append skipped (text z ++ newline ∷ []) in
      let len' = length-append (text z) (newline ∷ []) in
      rw tail_lem (
        last_line-stops skipped (text z) (length (skipped ++ (text z ++ newline ∷ [])) - 1) 1
          (drop-IsEnded (length file - data_size) before ended) rz.one_line
          (omega (arith, len, len')) (omega arith) (omega arith))

  last_read : scan (drop (length tail - size z) tail) ≡ some z.time
  last_read =
      let len = length-append skipped (text z ++ newline ∷ []) in
      let len' = length-append (text z) (newline ∷ []) in
      let from : length (skipped ++ (text z ++ newline ∷ [])) - size z ≡ length skipped =
        omega (arith, len, len') in
      let none_left : length skipped - length skipped ≡ 0 = omega arith in
      rw
        (
          tail_lem,
          from,
          drop-long (length skipped) skipped (text z ++ newline ∷ []) (omega arith),
          none_left,
          append_assoc z.digits z.rest (newline ∷ []),
        )
        (rz.scanned (z.rest ++ newline ∷ []))

  last_at : length file - size z ≡ length before
  last_at =
      omega (
        arith,
        length-append before (text z ++ newline ∷ []),
        length-append (text z) (newline ∷ []),
      )

module _ (scan : List ℕ → Option ℕ) (l : Line) (rl : IsReadable scan l) where
  scan-take :
      (n : ℕ) (more : List ℕ) → length (text l) ≤ n → scan (take n (text l ++ more)) ≡ some l.time
  scan-take n more h =
      let len = length-append l.digits l.rest in
      rw
        (
          append_assoc l.digits l.rest more,
          take-append n l.digits (l.rest ++ more) (omega (arith, len, h)),
        )
        (rl.scanned (take (n - length l.digits) (l.rest ++ more)))

  -- The loop from the start passes the first line.
  first_line-passes :
      (more : List ℕ)
      → length (text l) ≤ first_line (text l ++ more) (length (text l ++ more) - 1) 1
  first_line-passes more = elim (Bool-cases (ltb 0 (length (text l)))) [
    | inl some_text ↦
        first_line-reaches (text l) more (length (text l ++ more) - 1) 1 rl.one_line
          (omega (arith, length-append (text l) more)) (ground arith)
    | inr empty ↦ let e : length (text l) ≡ 0 = ground arith in omega (arith, e)
  ]

  -- The first line is read at the start of the file.
  first_read :
      (more head : List ℕ)
      → head ≡ read_at (text l ++ newline ∷ more) 0 data_size
      → scan (take (suc (first_line head (length head - 1) 1)) head) ≡ some l.time
  first_read more head e =
      let small = rl.short in
      let rest = take (data_size - length (text l)) (newline ∷ more) in
      let e' : head ≡ text l ++ rest =
        e ∙ take-append data_size (text l) (newline ∷ more) (omega (arith, small)) in
      rw e' (
        scan-take (suc (first_line (text l ++ rest) (length (text l ++ rest) - 1) 1)) rest
          (omega (arith, first_line-passes rest)))

  first_read-file :
      (ls : List Line)
      → (let head = read_at (bytes_of (l ∷ ls)) 0 data_size in
          scan (take (suc (first_line head (length head - 1) 1)) head) ≡ some l.time)
  unfolding bytes_of
  first_read-file ls = first_read (bytes_of ls) (read_at (bytes_of (l ∷ ls)) 0 data_size) refl

-- What `init_lfs` reads at the end of the file.
abbrev ReadsLast : (scan : List ℕ → Option ℕ) → (file : List ℕ) → (i t : ℕ) → Type 0
ReadsLast scan file i t =
    let end = read_at file (length file - data_size) data_size in
    (last_line end (length end - 1) 1 ≡ i) × (scan (drop (length end - i) end) ≡ some t)

init_lfs-reads :
    (scan : List ℕ → Option ℕ) (file : List ℕ) (i lt ft : ℕ)
    → ReadsLast scan file i lt
    → (let head = read_at file 0 data_size in
        scan (take (suc (first_line head (length head - 1) 1)) head) ≡ some ft)
    → init_lfs scan file
      ≡ some (record {
        foff = 0;
        loff = length file - i;
        ft = ft;
        lt = lt;
        file_size = length file;
        st = 0;
        et = 0;
        soff = pos 0;
        eoff = pos 0;
      })
unfolding init_lfs
init_lfs-reads scan file i lt ft (e, f) g = rw (init_lfs, e, f, g, e) refl

-- On a file of readable lines, `init_lfs` takes the size of the file, the times of its first and its
-- last line, and where they start.
pub init_lfs-lines :
    (scan : List ℕ → Option ℕ) (l : Line) (ls : List Line)
    → AllReadable scan (l ∷ ls)
    → init_lfs scan (bytes_of (l ∷ ls)) ≡ some (log_ctx l ls)
init_lfs-lines scan l ls r =
    let (front, z, s) = split scan l ls r in
    let before = bytes_of front in
    let ended = bytes_of-IsEnded front in
    let last : ReadsLast scan (bytes_of (l ∷ ls)) (size z) z.time =
      subst (λ f. ReadsLast scan f (size z) z.time) (sym s.bytes)
        (last_line_lem scan before z s.readable ended, last_read scan before z s.readable ended) in
    let at : length (bytes_of (l ∷ ls)) - size z ≡ last_start (l ∷ ls) =
      ap (λ f. length f - size z) s.bytes ∙ last_at scan before z s.readable ended ∙ sym s.start in
    init_lfs-reads scan (bytes_of (l ∷ ls)) (size z) z.time l.time last
      (first_read-file scan l r.0 ls)
    ∙ rw (at, s.time) refl
