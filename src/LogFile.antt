-- ===== src/LogFile.antt =====
-- Log files of lines that begin with a time in hexadecimal digits: logfile/lfs_read.c finds the part
-- between two times. A byte is a number, and an open file is the list of its bytes. `sscanf` with
-- "%lx," is the parameter `scan`; it fails by `none`, and then, as where no line is found, the C
-- code goes on with variables that it has not set.
pub mod Search
pub mod Lines
pub mod Nearest
pub mod Sorted
pub mod Range
pub mod Filter
pub mod Opened
pub mod Ends
pub mod Bytes
pub mod Reading
pub mod Messages
pub mod Writing
pub mod Whole
use mathlib.Core.Option
use event_loop.Prelude.{
  ltb, leb, ◌==◌, if◌then◌else◌, length, take, drop, ℕ, zero, suc, ◌+◌, ◌-◌, ◌/◌, ◌%◌, ◌^◌, true,
  false, ◌||◌, Option, none, some, List, [], ◌∷◌, map,
}
use event_loop.Prelude.Int.{ℤ, pos, negsuc}
use event_loop.WebSock.{byte_at}

abbrev pub newline : ℕ
newline = 10

abbrev pub data_size : ℕ
data_size = 1024

-- `lseek` and `read`.
abbrev pub read_at : List ℕ → (from n : ℕ) → List ℕ
read_at file from n = take n (drop from file)

-- The loop of `getNearSeq`: the index of the first newline.
unfoldable pub find_newline : List ℕ → Option ℕ
find_newline [] = none
find_newline (b ∷ bs) = if b == newline then some 0 else Option.map suc (find_newline bs)

-- `getNearSeq`: the time of the first line that starts at `off`, which is not 0, or behind it, and
-- where it starts.
unfoldable pub get_near_seq :
    (scan : List ℕ → Option ℕ) → (file : List ℕ) → (off : ℕ) → Option (ℕ × ℕ)
unfolding find_newline
get_near_seq scan file off =
    let window = read_at file (off - 1) data_size in
    elim (find_newline window) [
      | none ↦ none
      | some i ↦ Option.map (λ mt. (mt, off + i)) (scan (drop (suc i) window))
    ]

-- What a search returns: a position, with the time where `*p_mt` is written. It is `unread` where a
-- variable is used that is not set, and `unfinished` where the fuel runs out.
pub data Sought : Type 0 where
  found_at : (position : ℤ) → (met : Option ℕ) → Sought
  unread unfinished : Sought

-- The position that stands for a time behind the last one.
abbrev pub behind_last : ℕ
behind_last = 0xfffffffe

module _ (near : ℕ → Option (ℕ × ℕ)) where
  -- The loop of `_getSeqPosition`, line by line.
  unfoldable pub scan_on : (fuel t lt foff : ℕ) → Sought
  scan_on zero t lt foff = unfinished
  scan_on (suc fuel) t lt foff = elim (near (suc foff)) [
    | none ↦ unread
    | some (nt, noff) ↦ elim (nt == lt || leb t nt) [
      | true ↦ found_at (pos noff) (some nt)
      | false ↦ scan_on fuel t lt noff
    ]
  ]

  -- `_getSeqPosition`
  unfoldable pub seek : (fuel t ft lt foff loff : ℕ) → Sought
  unfolding scan_on
  seek zero t ft lt foff loff = unfinished
  seek (suc fuel) t ft lt foff loff =
      if ltb t ft
      then found_at (negsuc 0) none
      else if ltb lt t
      then found_at (pos behind_last) none
      else if ltb loff (foff + 1023) || leb (lt - ft) 3
      then scan_on (suc fuel) t lt foff
      else if foff == loff || leb t ft
      then found_at (pos foff) (some ft)
      else if leb lt t
      then found_at (pos loff) (some lt)
      else elim (near (if leb (lt - ft) 2 then suc foff else (foff + loff) / 2)) [
        | none ↦ unread
        | some (mt, moff) ↦ elim (mt == t) [
          | true ↦ found_at (pos moff) (some t)
          | false ↦ elim (ltb t mt) [
            | true ↦ seek fuel t ft mt foff moff
            | false ↦ seek fuel t mt lt moff loff
          ]
        ]
      ]

  -- `getSeqPosition`
  unfoldable pub get_seq_position : (fuel t ft lt foff loff : ℕ) → Sought
  unfolding seek
  get_seq_position fuel t ft lt foff loff =
      if ltb t ft
      then found_at (negsuc 0) none
      else if ltb lt t
      then found_at (pos behind_last) none
      else if t == ft
      then found_at (pos foff) (some ft)
      else if t == lt
      then found_at (pos loff) (some lt)
      else seek fuel t ft lt foff loff

-- `lfs_ctx`, without the buffers.
pub record LfsCtx : Type 0 where
  pub foff : ℕ
  pub loff : ℕ
  pub ft : ℕ
  pub lt : ℕ
  pub file_size : ℕ
  pub st : ℕ
  pub et : ℕ
  pub soff : ℤ
  pub eoff : ℤ

-- The loops of `init_lfs`: the length of the last line, from the end of what was read, and of the
-- first one without its newline.
unfoldable pub last_line : (bytes : List ℕ) → (rounds i : ℕ) → ℕ
last_line bytes zero i = i
last_line bytes (suc rounds) i =
    let next = last_line bytes rounds (suc i) in
    if byte_at bytes (length bytes - 1 - i) == newline then i else next

unfoldable pub first_line : (bytes : List ℕ) → (rounds i : ℕ) → ℕ
first_line bytes zero i = i
first_line bytes (suc rounds) i =
    let next = first_line bytes rounds (suc i) in if byte_at bytes i == newline then i else next

-- `init_lfs`, on a file that could be opened.
unfoldable pub init_lfs : (scan : List ℕ → Option ℕ) → (file : List ℕ) → Option LfsCtx
unfolding last_line first_line
init_lfs scan file =
    let size = length file in
    let tail = read_at file (size - data_size) data_size in
    let head = read_at file 0 data_size in
    let i = last_line tail (length tail - 1) 1 in
    let j = first_line head (length head - 1) 1 in
    elim (scan (drop (length tail - i) tail)) [
      | none ↦ none
      | some lt ↦ elim (scan (take (suc j) head)) [
        | none ↦ none
        | some ft ↦ some (record {
          foff = 0;
          loff = size - i;
          ft = ft;
          lt = lt;
          file_size = size;
          st = 0;
          et = 0;
          soff = pos 0;
          eoff = pos 0;
        })
      ]
    ]

-- `filter1`
abbrev pub met_of : Option ℕ → ℕ
met_of none = 0
met_of (some t) = t

-- The end of the range; `seek_to` is `getSeqPosition` on the file.
unfoldable pub filter_end : (seek_to : ℕ → Sought) → LfsCtx → (et : ℕ) → Sought
filter_end seek_to ctx et =
    elim (if ltb ctx.lt et
      then found_at (pos ctx.file_size) (some et)
      else if leb ctx.lt et
      then found_at (pos ctx.loff) (some ctx.lt)
      else seek_to et) [
        | unread ↦ unread
        | unfinished ↦ unfinished
        | found_at eoff met ↦
            if met_of met == ctx.lt
            then found_at (pos ctx.file_size) met
            else if met_of met == et
            then seek_to (suc et % 2 ^ 64)
            else found_at eoff met
      ]

unfoldable pub filter1 : (seek_to : ℕ → Sought) → LfsCtx → (st et : ℕ) → Option LfsCtx
unfolding filter_end
filter1 seek_to ctx st et =
    elim (if ltb st ctx.ft then found_at (pos ctx.foff) (some ctx.ft) else seek_to st) [
      | unread ↦ none
      | unfinished ↦ none
      | found_at soff met ↦ elim (filter_end seek_to ctx et) [
        | unread ↦ none
        | unfinished ↦ none
        | found_at eoff met' ↦ some (record ctx { st = st; et = et; soff = soff; eoff = eoff })
      ]
    ]
