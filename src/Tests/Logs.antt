-- ===== src/Tests/Logs.antt =====
-- Log files at concrete contents.
use event_loop.LogFile.{find_newline, get_near_seq, get_seq_position, LfsCtx, filter1}
use event_loop.LogFile.Filter.{seek_in, filter1-lines}
use event_loop.LogFile.Lines.{Line, bytes_of, At, IsReadable, Grows}
use event_loop.LogFile.Messages.{printed_all, AllLong, filter2-short}
use event_loop.LogFile.Range.{log_ctx, Between}
use event_loop.LogFile.Reading.{comma, Output, filter2, filled, lfs_read_in, lfs_write_out}
use event_loop.LogFile.Search.{Finds}
use event_loop.LogFile.Sorted.{AllReadable, get_seq_position-lines}
use event_loop.LogFile.Whole.{lfs_read_in-whole}
use event_loop.LogFile.Writing.{IsFormat, written, lfs_write_out-lines}
use event_loop.Prelude.{
  ◌==◌, if◌then◌else◌, length, ℕ, ◌+◌, ◌-◌, ◌/◌, ◌%◌, ◌≤◌, ◌≡◌, refl, ap, inl, inr, true, Option,
  none, some, List, [], ◌∷◌, ◌++◌, arith,
}
use event_loop.Prelude.Int.{pos}
use event_loop.WebSock.{byte_at}

-- A time of one byte before its comma.
abbrev scan_byte : List ℕ → Option ℕ
scan_byte [] = none
scan_byte (b ∷ []) = none
scan_byte (b ∷ c ∷ bs) = if c == comma then some (b - 11) else none

abbrev log_line : (t : ℕ) → List ℕ → Line
log_line t rest = record { time = t; digits = (t + 11) ∷ comma ∷ []; rest = rest }

abbrev l1 : Line
l1 = log_line 40 (98 ∷ 111 ∷ 111 ∷ 116 ∷ 101 ∷ 100 ∷ [])

abbrev l2 : Line
l2 = log_line 41 (98 ∷ 117 ∷ 115 ∷ 121 ∷ 32 ∷ 98 ∷ 117 ∷ 115 ∷ 121 ∷ [])

abbrev l3 : Line
l3 = log_line 45 (100 ∷ 111 ∷ 119 ∷ 110 ∷ 32 ∷ 97 ∷ 103 ∷ [])

log_line-IsReadable :
    (t : ℕ) (rest : List ℕ)
    → find_newline ((t + 11) ∷ comma ∷ rest) ≡ none
    → length rest ≤ 500
    → IsReadable scan_byte (log_line t rest)
log_line-IsReadable t rest plain short = record {
  scanned = λ more. let e : t + 11 - 11 ≡ t = omega arith in ap some e;
  one_line = plain;
  short = omega (arith, short);
}

three_readable : AllReadable scan_byte (l1 ∷ l2 ∷ l3 ∷ [])
unfolding find_newline
three_readable = (
  log_line-IsReadable 40 (98 ∷ 111 ∷ 111 ∷ 116 ∷ 101 ∷ 100 ∷ []) refl (omega arith),
  (
    log_line-IsReadable 41 (98 ∷ 117 ∷ 115 ∷ 121 ∷ 32 ∷ 98 ∷ 117 ∷ 115 ∷ 121 ∷ []) refl
        (omega arith),
    (log_line-IsReadable 45 (100 ∷ 111 ∷ 119 ∷ 110 ∷ 32 ∷ 97 ∷ 103 ∷ []) refl (omega arith), tt),
  ),
)

three_grow : Grows (l1 ∷ l2 ∷ l3 ∷ [])
three_grow = (omega arith, (omega arith, tt))

three_long : AllLong (l1 ∷ l2 ∷ l3 ∷ [])
three_long = (omega arith, (omega arith, (omega arith, tt)))

get_seq_position-lines_example :
    Finds
      (At (l1 ∷ l2 ∷ l3 ∷ []))
      43
      (get_seq_position (get_near_seq scan_byte (bytes_of (l1 ∷ l2 ∷ l3 ∷ []))) 30 43 40 45 0 21)
get_seq_position-lines_example =
    get_seq_position-lines scan_byte l1 (l2 ∷ l3 ∷ []) 30 43 three_readable three_grow (omega arith)
      (omega arith) (omega arith)

filter1-lines_example :
    (s e : ℕ) × (filter1 (seek_in scan_byte l1 (l2 ∷ l3 ∷ []) 30) (log_ctx l1 (l2 ∷ l3 ∷ [])) 41 45
      ≡ some (record (log_ctx l1 (l2 ∷ l3 ∷ [])) { st = 41; et = 45; soff = pos s; eoff = pos e }))
    × Between (At (l1 ∷ l2 ∷ l3 ∷ [])) 41 45 s e
filter1-lines_example =
    filter1-lines scan_byte l1 (l2 ∷ l3 ∷ []) 30 three_readable three_grow (omega arith) 41 45
      (omega arith) (omega arith) (omega arith) (inl refl)

last_only : (o m : ℕ) → At (l1 ∷ l2 ∷ l3 ∷ []) o m → 43 ≤ m → 45 ≤ m
last_only o m (inl (e, f)) h = omega (arith, f, h)
last_only o m (inr (le, inl (e, f))) h = omega (arith, f, h)
last_only o m (inr (le, inr (le', inl (e, f)))) h = omega (arith, f, h)
last_only o m (inr (le, inr (le', inr (le'', k)))) h = absurd k

-- A text is kept if it begins with the filter's first byte.
abbrev to_buffer : Output
to_buffer = record {
  scan = scan_byte;
  print = λ t. (48 + t / 10) ∷ (48 + t % 10) ∷ [];
  contains = λ text filter. byte_at text 0 == byte_at filter 0;
  filter = some (115 ∷ []);
  t_offset = pos 9;
  sep = 32 ∷ [];
}

abbrev whole_range : LfsCtx
whole_range = record (log_ctx l1 (l2 ∷ l3 ∷ [])) { soff = pos 0; eoff = pos 31 }

lfs_read_in-whole_example :
    lfs_read_in
      (λ xs. xs)
      true
      32
      (bytes_of (l1 ∷ l2 ∷ l3 ∷ []))
      (some (log_ctx l1 (l2 ∷ l3 ∷ [])))
      100
      49
      54
      to_buffer
      0
    ≡ filled (printed_all to_buffer (l1 ∷ l2 ∷ l3 ∷ []))
unfolding bytes_of find_newline
lfs_read_in-whole_example =
    lfs_read_in-whole (λ xs. xs) to_buffer l1 (l2 ∷ l3 ∷ []) 30 100 49 54 three_readable three_long
      three_grow (omega arith) refl (omega arith) (omega arith) (omega arith)

-- Digits and texts that are never 10.
abbrev print_byte : ℕ → List ℕ
print_byte t = (t + 11) ∷ []

abbrev encode_bytes : List ℕ → List ℕ
encode_bytes [] = []
encode_bytes (b ∷ bs) = (b + 11) ∷ encode_bytes bs

encode_bytes-plain : (xs : List ℕ) → find_newline (encode_bytes xs) ≡ none
unfolding find_newline
encode_bytes-plain [] = refl
encode_bytes-plain (x ∷ xs) = ground (arith, encode_bytes-plain xs)

print_byte-plain : (t : ℕ) → find_newline (print_byte t) ≡ none
unfolding find_newline
print_byte-plain t = ground arith

byte-IsFormat : IsFormat scan_byte encode_bytes print_byte
byte-IsFormat = record {
  scanned = λ t more small. let e : t + 11 - 11 ≡ t = omega arith in ap some e;
  digits_only = print_byte-plain;
  escaped = encode_bytes-plain;
}

lfs_write_out-lines_example :
    let z = written encode_bytes print_byte 50 (1 ∷ 2 ∷ []) in
    (bytes_of (l1 ∷ l2 ∷ l3 ∷ []) ++ lfs_write_out encode_bytes print_byte 50 (1 ∷ 2 ∷ [])
      ≡ bytes_of (l1 ∷ l2 ∷ l3 ∷ z ∷ []))
    × AllReadable scan_byte (l1 ∷ l2 ∷ l3 ∷ z ∷ [])
    × Grows (l1 ∷ l2 ∷ l3 ∷ z ∷ [])
lfs_write_out-lines_example =
    lfs_write_out-lines byte-IsFormat l1 (l2 ∷ l3 ∷ []) 50 (1 ∷ 2 ∷ []) three_readable three_grow
      (omega arith) (omega arith) (omega arith) (omega arith)

filter2-short_example :
    filter2 2 to_buffer
      (bytes_of (l1 ∷ l2 ∷ l3 ∷ []))
      (record (log_ctx l1 (l2 ∷ l3 ∷ [])) { soff = pos 9; eoff = pos 21 })
      []
    ≡ some []
filter2-short_example =
    filter2-short to_buffer 1 (bytes_of (l1 ∷ l2 ∷ l3 ∷ []))
      (record (log_ctx l1 (l2 ∷ l3 ∷ [])) { soff = pos 9; eoff = pos 21 }) 9 21 [] refl refl
      (omega arith) (omega arith)
