-- ===== src/LogFile/Writing.antt =====
-- The line that `lfs_write_out` appends to a file of lines.
use event_loop.LogFile.{newline, find_newline}
use event_loop.LogFile.Lines.{Line, text, size, bytes_of, IsReadable, Grows}
use event_loop.LogFile.Reading.{comma, lfs_write_out}
use event_loop.LogFile.Sorted.{AllReadable, last_time}
use event_loop.Prelude.{
  leb-lt, length, ℕ, ◌^◌, ◌≤◌, ◌<◌, ◌≡◌, refl, sym, ap, ◌∙◌, Option, none, some, List, [], ◌∷◌,
  ◌++◌, append_assoc, arith,
}

-- What the log relies on: `sscanf` reads the time that `printf` wrote, and neither the digits nor
-- what `jss_encode` returns has a newline.
pub record IsFormat (scan : List ℕ → Option ℕ) (encode : List ℕ → List ℕ) (print : ℕ → List ℕ)
    : Type 0 where
  pub scanned : (t : ℕ) (more : List ℕ) → t < 2 ^ 64 → scan (print t ++ comma ∷ more) ≡ some t
  pub digits_only : (t : ℕ) → find_newline (print t) ≡ none
  pub escaped : (xs : List ℕ) → find_newline (encode xs) ≡ none

-- The line that is written.
abbrev pub written :
    (encode : List ℕ → List ℕ) → (print : ℕ → List ℕ) → (ct : ℕ) → (xs : List ℕ) → Line
written encode print ct xs = record { time = ct; digits = print ct ++ comma ∷ []; rest = encode xs }

find_newline-none :
    (xs ys : List ℕ)
    → find_newline xs ≡ none
    → find_newline ys ≡ none
    → find_newline (xs ++ ys) ≡ none
unfolding find_newline
find_newline-none [] ys h k = k
find_newline-none (x ∷ xs) ys h k = ground (arith, find_newline-none xs ys)

bytes_of-append :
    (ls : List Line) (z : Line) → bytes_of (ls ++ z ∷ []) ≡ bytes_of ls ++ (text z ++ newline ∷ [])
unfolding bytes_of
bytes_of-append [] z = refl
bytes_of-append (l ∷ ls) z =
    ap (λ ys. text l ++ newline ∷ ys) (bytes_of-append ls z)
    ∙ sym (append_assoc (text l) (newline ∷ bytes_of ls) (text z ++ newline ∷ []))

AllReadable-append :
    (scan : List ℕ → Option ℕ) (ls : List Line) (z : Line)
    → AllReadable scan ls
    → IsReadable scan z
    → AllReadable scan (ls ++ z ∷ [])
AllReadable-append scan [] z r rz = (rz, tt)
AllReadable-append scan (l ∷ ls) z r rz = (r.0, AllReadable-append scan ls z r.1 rz)

Grows-append :
    (l : Line) (ls : List Line) (z : Line)
    → Grows (l ∷ ls)
    → last_time l ls < z.time
    → Grows (l ∷ ls ++ z ∷ [])
Grows-append l [] z g late = (late, tt)
Grows-append l (m ∷ ls) z g late = (g.0, Grows-append m ls z g.1 late)

module _ {scan : List ℕ → Option ℕ} {encode : List ℕ → List ℕ} {print : ℕ → List ℕ}
    (format : IsFormat scan encode print) where
  written-IsReadable :
      (ct : ℕ) (xs : List ℕ)
      → ct < 2 ^ 64
      → size (written encode print ct xs) ≤ 512
      → IsReadable scan (written encode print ct xs)
  unfolding find_newline
  written-IsReadable ct xs small short = record {
    scanned = λ more. rw (append_assoc (print ct) (comma ∷ []) more) (format.scanned ct more small);
    one_line =
        find_newline-none (print ct ++ comma ∷ []) (encode xs)
          (find_newline-none (print ct) (comma ∷ []) (format.digits_only ct) refl)
          (format.escaped xs);
    short = short;
  }

  -- A text of less than 32768 bytes that makes a line of at most 512 bytes, written at a time behind the
  -- last one, leaves a file of readable lines whose times grow: the lines from before and the new one.
  -- `sscanf` reads the time that `printf` wrote, and neither the digits nor what `jss_encode` returns has
  -- a newline.
  pub lfs_write_out-lines :
      (l : Line) (ls : List Line) (ct : ℕ) (xs : List ℕ)
      → AllReadable scan (l ∷ ls)
      → Grows (l ∷ ls)
      → last_time l ls < ct
      → ct < 2 ^ 64
      → length xs < 32768
      → size (written encode print ct xs) ≤ 512
      → (bytes_of (l ∷ ls) ++ lfs_write_out encode print ct xs
          ≡ bytes_of (l ∷ ls ++ written encode print ct xs ∷ []))
        × AllReadable scan (l ∷ ls ++ written encode print ct xs ∷ [])
        × Grows (l ∷ ls ++ written encode print ct xs ∷ [])
  unfolding lfs_write_out
  lfs_write_out-lines l ls ct xs r g late small fits short =
      let z = written encode print ct xs in
      let bytes : lfs_write_out encode print ct xs ≡ text z ++ newline ∷ [] =
        rw (lfs_write_out, leb-lt (length xs) 32768 fits)
          (sym (
            append_assoc (print ct ++ comma ∷ []) (encode xs) (newline ∷ [])
            ∙ append_assoc (print ct) (comma ∷ []) (encode xs ++ newline ∷ []))) in
      (
        ap (λ ys. bytes_of (l ∷ ls) ++ ys) bytes ∙ sym (bytes_of-append (l ∷ ls) z),
        AllReadable-append scan (l ∷ ls) z r (written-IsReadable ct xs small short),
        Grows-append l ls z g late,
      )
