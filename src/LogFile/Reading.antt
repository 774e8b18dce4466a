-- ===== src/LogFile/Reading.antt =====
-- The filter over the lines of a range, logfile/lfs_read.c from `outfilter` on, and the line that
-- `lfs_write_out` appends. Parameters are `sscanf` with "%lx," (`scan`), `printf` of a time
-- (`print`), `strstr` (`contains`) and the functions `jss_encode` and `jss_decode`. Lines have no
-- byte 0. The result is `none` where the C code uses what it has not set or writes behind a buffer.
use event_loop.LogFile.{
  newline, data_size, read_at, find_newline, get_near_seq, Sought, get_seq_position, LfsCtx,
  filter1,
}
use event_loop.LogFile.Lines.{text}
use event_loop.Prelude.{
  ltb, leb, ◌==◌, if◌then◌else◌, length, take, drop, ℕ, zero, suc, ◌+◌, ◌-◌, ◌%◌, ◌^◌, min, Bool,
  true, false, Option, none, some, List, [], ◌∷◌, ◌++◌,
}
use event_loop.Prelude.Int.{ℤ, pos, negsuc}

abbrev pub comma : ℕ
comma = 44

abbrev pub bulk_buf_size : ℕ
bulk_buf_size = 0x100000

-- What `filter2` is called with, besides the file and its range.
pub record Output : Type 0 where
  pub scan : List ℕ → Option ℕ
  pub print : ℕ → List ℕ
  pub contains : (text filter : List ℕ) → Bool
  pub filter : Option (List ℕ)
  pub t_offset : ℤ
  pub sep : List ℕ

-- `unsigned long` and `int` added.
abbrev pub shifted : ℕ → ℤ → ℕ
shifted t (pos n) = (t + n) % 2 ^ 64
shifted t (negsuc n) = (t + (2 ^ 64 - suc n)) % 2 ^ 64

abbrev pub is_kept : Output → List ℕ → Bool
is_kept o text = elim o.filter [ none ↦ true | some filter ↦ o.contains text filter ]

-- The buffer for the lines that are kept (MAX_LOGLINES_SIZE).
abbrev pub max_loglines_size : ℕ
max_loglines_size = 33554432

-- `outfilter` with a buffer; sprintf writes a byte 0 behind the line, and does not look at the room.
unfoldable pub outfilter : Output → (msg out : List ℕ) → Option (List ℕ)
outfilter o msg out =
    if ltb (length msg) 9
    then none
    else if is_kept o (drop 9 msg)
    then elim (o.scan msg) [
      | none ↦ none
      | some t ↦
          let longer = out ++ (o.print (shifted t o.t_offset) ++ (o.sep ++ drop 9 msg)) in
          if leb max_loglines_size (length longer) then none else some longer
    ]
    else some out

-- The loop over the lines of the buffer, and what is left behind the last newline; a unit of fuel for
-- each byte.
unfoldable pub each_line : (fuel : ℕ) → Output → (buf out : List ℕ) → Option (List ℕ × List ℕ)
unfolding outfilter
each_line zero o buf out = some (buf, out)
each_line (suc fuel) o buf out = elim (find_newline buf) [
  | none ↦ some (buf, out)
  | some j ↦ if ltb data_size (suc j) then none else elim (outfilter o (take (suc j) buf) out) [
    | none ↦ none
    | some out' ↦ each_line fuel o (drop (suc j) buf) out'
  ]
]

-- The bytes that a round of `filter2` asks for.
abbrev pub to_read : (unbuf off eoff : ℕ) → ℕ
to_read unbuf off eoff =
    let n = min (bulk_buf_size - unbuf - 1) (eoff - off) in
    if off % 512 == 0 then n else n - (512 - off % 512)

-- The loop of `filter2`: `at` is where the file is read, `unbuf` what is left in the buffer.
unfoldable pub filter2_loop :
    (fuel : ℕ)
    → Output
    → (file : List ℕ) → (eoff off at : ℕ) → (unbuf out : List ℕ) → Option (List ℕ)
unfolding each_line
filter2_loop zero o file eoff off at unbuf out = none
filter2_loop (suc fuel) o file eoff off at unbuf out =
    if leb eoff off
    then some out
    else if to_read (length unbuf) off eoff == 0
    then some out
    else let bytes = read_at file at (to_read (length unbuf) off eoff) in
      if length bytes == 0
      then some out
      else elim (each_line (length (unbuf ++ bytes)) o (unbuf ++ bytes) out) [
        | none ↦ none
        | some (rest, out') ↦
            filter2_loop fuel o file eoff (off + length (unbuf ++ bytes)) (at + length bytes) rest
              out'
      ]

-- `filter2`, on a range that `filter1` has set.
unfoldable pub filter2 :
    (fuel : ℕ) → Output → (file : List ℕ) → LfsCtx → (out : List ℕ) → Option (List ℕ)
unfolding filter2_loop
filter2 fuel o file ctx out = elim ctx.soff [
  | negsuc n ↦ none
  | pos soff ↦ elim ctx.eoff [
    | negsuc n ↦ some out
    | pos eoff ↦ filter2_loop fuel o file eoff soff soff [] out
  ]
]

-- `unsigned long` less `int`.
abbrev pub unshifted : ℕ → ℤ → ℕ
unshifted t (pos n) = (t + (2 ^ 64 - n)) % 2 ^ 64
unshifted t (negsuc n) = (t + suc n) % 2 ^ 64

-- What `opt` makes of the arguments: the first or the last second of the log, as it is.
abbrev pub only : Output → Output
only o = record o { filter = none; t_offset = pos 0 }

abbrev pub choose : (opt : ℕ) → LfsCtx → Output → (st et : ℕ) → ℕ × ℕ × Output
choose opt ctx o st et =
    if opt == 2
    then (ctx.lt, suc ctx.lt % 2 ^ 64, only o)
    else if opt == 1
    then (ctx.ft, suc ctx.ft % 2 ^ 64, only o)
    else (st, et, o)

-- What `lfs_read_in` returns: the bytes that it leaves in the buffer, or -1. It is `unset` where the C
-- code uses what it has not set.
pub data ReadIn : Type 0 where
  filled : List ℕ → ReadIn
  refused unset : ReadIn

-- `lfs_read_in`, with whether there is memory and a buffer of `buf_len` bytes.
unfoldable pub lfs_read_in :
    (decode : List ℕ → List ℕ)
    → (malloc : Bool) → (fuel : ℕ) → (file : List ℕ) → Option LfsCtx
    → (buf_len st et : ℕ) → Output
    → (opt : ℕ) → ReadIn
unfolding filter2
lfs_read_in decode malloc fuel file none buf_len st et o opt = refused
lfs_read_in decode malloc fuel file (some ctx) buf_len st et o opt =
    let (st', et', o') = choose opt ctx o st et in
    let seek_to : ℕ → Sought =
      λ t. get_seq_position (get_near_seq o.scan file) fuel t ctx.ft ctx.lt ctx.foff ctx.loff in
    elim (filter1 seek_to ctx (unshifted st' o'.t_offset) (unshifted et' o'.t_offset)) [
      | none ↦ unset
      | some ctx' ↦ elim malloc [
        | false ↦ filled []
        | true ↦ elim (filter2 fuel o' file ctx' []) [
          | none ↦ unset
          | some sample ↦ filled (if ltb buf_len (length sample) then [] else decode sample)
        ]
      ]
    ]

-- `lfs_write_out`: the bytes that it appends to the file.
unfoldable pub lfs_write_out :
    (encode : List ℕ → List ℕ) → (print : ℕ → List ℕ) → (ct : ℕ) → (text : List ℕ) → List ℕ
lfs_write_out encode print ct text =
    if leb 32768 (length text) then [] else print ct ++ (comma ∷ (encode text ++ newline ∷ []))
