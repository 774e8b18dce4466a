-- ===== src/LogFile/Whole.antt =====
-- `lfs_read_in` on all lines of a file.
use event_loop.LogFile.{found_at, get_seq_position, LfsCtx, filter_end, filter1}
use event_loop.LogFile.Filter.{seek_in}
use event_loop.LogFile.Lines.{Line, bytes_of, Grows}
use event_loop.LogFile.Messages.{printed_all, AllLong, filter2-lines}
use event_loop.LogFile.Range.{log_ctx}
use event_loop.LogFile.Reading.{
  bulk_buf_size, Output, max_loglines_size, filter2, unshifted, filled, lfs_read_in,
}
use event_loop.LogFile.Sorted.{AllReadable, last_time, last-latest}
use event_loop.Prelude.{
  ltb, leb, ◌==◌, if◌then◌else◌, Bool-cases, ltb-ge, length, ℕ, suc, ◌+◌, ◌≤◌, ◌<◌, ◌≡◌, refl, ap,
  subst, inl, inr, true, Option, some, List, [], ◌∷◌, ◌++◌, append-nil, arith,
}
use event_loop.Prelude.Int.{pos}

start_of_file :
    (scan : List ℕ → Option ℕ) (l : Line) (ls : List Line) (fuel st : ℕ)
    → st ≤ l.time
    → l.time ≤ last_time l ls
    → (if ltb st l.time then found_at (pos 0) (some l.time) else seek_in scan l ls fuel st)
      ≡ found_at (pos 0) (some l.time)
unfolding get_seq_position
start_of_file scan l ls fuel st early within = elim (Bool-cases (ltb st l.time)) [
  | inl before ↦ rw before refl
  | inr first ↦
      let same : (st == l.time) ≡ true = ground arith in
      rw (first, ltb-ge (last_time l ls) st (omega (arith, early, within)), same) refl
]

filter1-whole :
    (scan : List ℕ → Option ℕ) (l : Line) (ls : List Line) (fuel st et : ℕ)
    → AllReadable scan (l ∷ ls)
    → Grows (l ∷ ls)
    → st ≤ l.time
    → et ≡ last_time l ls
    → filter1 (seek_in scan l ls fuel) (log_ctx l ls) st et
      ≡ some (record (log_ctx l ls) {
        st = st;
        et = et;
        soff = pos 0;
        eoff = pos (length (bytes_of (l ∷ ls)));
      })
unfolding filter1 filter_end
filter1-whole scan l ls fuel st et r g early end =
    let start =
      start_of_file scan l ls fuel st early (last-latest l ls 0 l.time g (inl (refl, refl))) in
    let behind : leb (last_time l ls) et ≡ true = ground arith in
    let same : (last_time l ls == last_time l ls) ≡ true = ground arith in
    rw (filter1, start, filter_end, ltb-ge (last_time l ls) et (omega (arith, end)), behind, same)
      refl

-- With a range that starts at or before the first line's time and ends at exactly the last line's, the
-- offset taken off both, `lfs_read_in` returns every line that has the filter, with its time in decimal
-- digits, decoded. The file is one of readable lines of at least 9 bytes whose times grow, of less than
-- 0x100000 bytes, there is memory, and what is printed fits into the caller's buffer and has less than the
-- 33554432 bytes of the buffer that it is printed into.
pub lfs_read_in-whole :
    (decode : List ℕ → List ℕ) (o : Output) (l : Line) (ls : List Line) (fuel buf_len st et : ℕ)
    → AllReadable o.scan (l ∷ ls)
    → AllLong (l ∷ ls)
    → Grows (l ∷ ls)
    → unshifted st o.t_offset ≤ l.time
    → unshifted et o.t_offset ≡ last_time l ls
    → length (bytes_of (l ∷ ls)) < bulk_buf_size
    → length (printed_all o (l ∷ ls)) ≤ buf_len
    → length (printed_all o (l ∷ ls)) < max_loglines_size
    → lfs_read_in decode true
        (suc (suc fuel))
        (bytes_of (l ∷ ls))
        (some (log_ctx l ls))
        buf_len
        st
        et
        o
        0
      ≡ filled (decode (printed_all o (l ∷ ls)))
unfolding lfs_read_in
lfs_read_in-whole decode o l ls fuel buf_len st et r long g early end fits room sampled =
    let range =
      filter1-whole o.scan l ls (suc (suc fuel)) (unshifted st o.t_offset) (unshifted et o.t_offset)
        r g early end in
    let ctx : LfsCtx = record (log_ctx l ls) {
      st = unshifted st o.t_offset;
      et = unshifted et o.t_offset;
      soff = pos 0;
      eoff = pos (length (bytes_of (l ∷ ls)));
    } in
    let file : bytes_of (l ∷ ls) ++ [] ≡ bytes_of (l ∷ ls) = append-nil (bytes_of (l ∷ ls)) in
    let zero_plus : length (bytes_of (l ∷ ls)) ≡ 0 + length (bytes_of (l ∷ ls)) = omega arith in
    let lines : filter2 (suc (suc fuel)) o (bytes_of (l ∷ ls)) ctx []
        ≡ some (printed_all o (l ∷ ls)) =
      subst (λ f. filter2 (suc (suc fuel)) o f ctx [] ≡ some (printed_all o (l ∷ ls))) file
        (filter2-lines o [] [] (l ∷ ls) ctx fuel [] r long refl fits sampled refl
          (ap pos zero_plus)) in
    rw (lfs_read_in, range, lines, ltb-ge buf_len (length (printed_all o (l ∷ ls))) room) refl
