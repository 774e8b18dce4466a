-- ===== src/Serial/Lines.antt =====
-- Which lines arrive, and the length from which on none does.
use event_loop.Prelude.{
  ltb, ◌==◌, lt→ltb, ltb-ge, ==-gt, length, take, length-append, All, take-all, concat, ℕ, ◌+◌, ◌≤◌,
  ◌<◌, ◌≡◌, refl, sym, ap, ◌∙◌, Bool, true, false, Option, none, some, List, [], ◌∷◌, ◌++◌, map,
  append-nil, append_assoc, arith,
}
use event_loop.Serial.{
  SerialRead, got, on_serial_byte, on_serial_bytes, on_serial_receive, on_serial_calls,
}

-- A byte of a line: neither 0 nor a newline.
abbrev pub IsPlain : ℕ → Type 0
IsPlain b = ((b == 0) ≡ false) × ((b == 10) ≡ false)

-- What the loop makes of the bytes behind one.
abbrev with_rest : List ℕ → Option (List ℕ) × List ℕ → List (List ℕ) × List ℕ
with_rest bs r = let s = on_serial_bytes bs r.1 in (elim r.0 [ none ↦ s.0 | some l ↦ l ∷ s.0 ], s.1)

on_serial_bytes-next :
    (b : ℕ) (bs buf : List ℕ) (r : Option (List ℕ) × List ℕ)
    → on_serial_byte b buf ≡ r
    → on_serial_bytes (b ∷ bs) buf ≡ with_rest bs r
unfolding on_serial_bytes
on_serial_bytes-next b bs buf r e = ap (with_rest bs) e

byte-plain :
    (b : ℕ) (buf : List ℕ)
    → IsPlain b
    → length buf < 250
    → on_serial_byte b buf ≡ (none, buf ++ b ∷ [])
unfolding on_serial_byte
byte-plain b buf (no_null, no_end) room =
    let less : ltb (length buf) 250 ≡ true = lt→ltb (length buf) 250 room in
    rw (on_serial_byte, less, no_null, no_end) refl

byte-end : (buf : List ℕ) → length buf < 250 → on_serial_byte 10 buf ≡ (some (buf ++ 10 ∷ []), [])
unfolding on_serial_byte
byte-end buf room =
    let less : ltb (length buf) 250 ≡ true = lt→ltb (length buf) 250 room in
    rw (on_serial_byte, less) refl

byte-full : (b : ℕ) (buf : List ℕ) → length buf ≡ 250 → on_serial_byte b buf ≡ (none, buf)
unfolding on_serial_byte
byte-full b buf h =
    let no_room : ltb (length buf) 250 ≡ false = ground arith in rw (on_serial_byte, no_room) refl

-- Bytes of a line are collected while there is room.
collect :
    (xs ys buf : List ℕ)
    → All IsPlain xs
    → length buf + length xs ≤ 250
    → on_serial_bytes (xs ++ ys) buf ≡ on_serial_bytes ys (buf ++ xs)
collect [] ys buf plain room = ap (on_serial_bytes ys) (sym (append-nil buf))
collect (x ∷ xs) ys buf plain room =
    on_serial_bytes-next x (xs ++ ys) buf (none, buf ++ x ∷ [])
      (byte-plain x buf plain.0 (omega (arith, room)))
    ∙ collect xs ys (buf ++ x ∷ []) plain.1 (omega (arith, room, length-append buf (x ∷ [])))
    ∙ ap (on_serial_bytes ys) (append_assoc buf (x ∷ []) xs)

-- With 250 bytes collected nothing is.
full : (ys buf : List ℕ) → length buf ≡ 250 → on_serial_bytes ys buf ≡ ([], buf)
unfolding on_serial_bytes
full [] buf h = refl
full (y ∷ ys) buf h = on_serial_bytes-next y ys buf (none, buf) (byte-full y buf h) ∙ full ys buf h

-- Lines with their newlines.
abbrev pub sent : List (List ℕ) → List ℕ
sent [] = []
sent (l ∷ ls) = l ++ 10 ∷ sent ls

abbrev pub AllShort : List (List ℕ) → Type 0
AllShort [] = Unit
AllShort (l ∷ ls) = (All IsPlain l × (length l < 250)) × AllShort ls

-- From an empty buffer, lines of less than 250 bytes before their newline, and none of them 0, arrive
-- each with its newline and in their order, and what follows the last is collected.
pub on_serial_bytes-lines :
    (ls : List (List ℕ)) (rest : List ℕ)
    → AllShort ls
    → All IsPlain rest
    → length rest ≤ 250
    → on_serial_bytes (sent ls ++ rest) [] ≡ (map (λ l. l ++ 10 ∷ []) ls, rest)
unfolding on_serial_bytes
on_serial_bytes-lines [] rest short plain room =
    ap (λ xs. on_serial_bytes xs []) (sym (append-nil rest))
    ∙ collect rest [] [] plain (omega (arith, room))
on_serial_bytes-lines (l ∷ ls) rest short plain room =
    let more = on_serial_bytes-lines ls rest short.1 plain room in
    ap (λ xs. on_serial_bytes xs []) (append_assoc l (10 ∷ sent ls) rest)
    ∙ collect l (10 ∷ (sent ls ++ rest)) [] short.0.0 (omega (arith, short.0.1))
    ∙ on_serial_bytes-next 10 (sent ls ++ rest) l (some (l ++ 10 ∷ []), []) (byte-end l short.0.1)
    ∙ ap (λ (s : List (List ℕ) × List ℕ). ((l ++ 10 ∷ []) ∷ s.0, s.1)) more

-- Behind 250 bytes without a newline, of which none is 0, no line arrives any more, whatever is sent.
pub on_serial_bytes-deaf :
    (xs ys : List ℕ) → All IsPlain xs → length xs ≡ 250 → on_serial_bytes (xs ++ ys) [] ≡ ([], xs)
on_serial_bytes-deaf xs ys plain long =
    collect xs ys [] plain (omega (arith, long)) ∙ full ys xs long

-- What follows bytes that have been taken.
abbrev followed : List (List ℕ) × List ℕ → List ℕ → List (List ℕ) × List ℕ
followed s ys = (s.0 ++ (on_serial_bytes ys s.1).0, (on_serial_bytes ys s.1).1)

with_rest-append :
    (xs ys : List ℕ) (r : Option (List ℕ) × List ℕ)
    → on_serial_bytes (xs ++ ys) r.1 ≡ followed (on_serial_bytes xs r.1) ys
    → with_rest (xs ++ ys) r ≡ followed (with_rest xs r) ys
with_rest-append xs ys (none, c) h = h
with_rest-append xs ys (some l, c) h = ap (λ (s : List (List ℕ) × List ℕ). (l ∷ s.0, s.1)) h

on_serial_bytes-append :
    (xs ys buf : List ℕ) → on_serial_bytes (xs ++ ys) buf ≡ followed (on_serial_bytes xs buf) ys
unfolding on_serial_bytes
on_serial_bytes-append [] ys buf = refl
on_serial_bytes-append (x ∷ xs) ys buf =
    let r = on_serial_byte x buf in with_rest-append xs ys r (on_serial_bytes-append xs ys r.1)

-- A piece has arrived: FIONREAD counts it, and `read` returns as much of it as is asked for.
abbrev pub arrival : List ℕ → ℕ × (ℕ → SerialRead)
arrival piece = (length piece, λ n. got (take n piece))

call-arrival :
    (piece buf : List ℕ)
    → 0 < length piece
    → length piece ≤ 250
    → on_serial_receive (length piece) (λ n. got (take n piece)) buf
      ≡ (true, (on_serial_bytes piece buf).0, (on_serial_bytes piece buf).1)
unfolding on_serial_receive
call-arrival piece buf some_bytes fits =
    let whole : take (length piece) piece ≡ piece = take-all (length piece) piece (omega arith) in
    rw (on_serial_receive, ==-gt (length piece) 0 some_bytes, ltb-ge 250 (length piece) fits, whole)
      refl

calls-concat :
    (pieces : List (List ℕ)) (buf : List ℕ)
    → All (λ p. (0 < length p) × (length p ≤ 250)) pieces
    → on_serial_calls (map arrival pieces) buf ≡ on_serial_bytes (concat pieces) buf
unfolding on_serial_calls on_serial_bytes
calls-concat [] buf fit = refl
calls-concat (p ∷ ps) buf fit =
    let s = on_serial_bytes p buf in
    ap
      (λ (r : Bool × List (List ℕ) × List ℕ).
        (r.1 ++ (on_serial_calls (map arrival ps) r.2).0, (on_serial_calls (map arrival ps) r.2).1))
      (call-arrival p buf fit.0.0 fit.0.1)
    ∙ ap (λ (q : List (List ℕ) × List ℕ). (s.0 ++ q.0, q.1)) (calls-concat ps s.1 fit.1)
    ∙ sym (on_serial_bytes-append p (concat ps) buf)

-- Where every line has less than 250 bytes before its newline, none of them 0, and what follows the last
-- newline has at most 250 bytes, none of them 0: however all this is cut into pieces of at most 250 bytes
-- that are read one after the other, the lines arrive each with its newline and in their order, and what
-- follows the last is collected.
pub on_serial_calls-lines :
    (pieces ls : List (List ℕ)) (rest : List ℕ)
    → All (λ p. (0 < length p) × (length p ≤ 250)) pieces
    → AllShort ls
    → All IsPlain rest
    → length rest ≤ 250
    → concat pieces ≡ sent ls ++ rest
    → on_serial_calls (map arrival pieces) [] ≡ (map (λ l. l ++ 10 ∷ []) ls, rest)
on_serial_calls-lines pieces ls rest fit short plain room cut =
    calls-concat pieces [] fit
    ∙ ap (λ xs. on_serial_bytes xs []) cut
    ∙ on_serial_bytes-lines ls rest short plain room
