-- ===== src/Stdin/Sends.antt =====
-- What on_stdin_read of etc/nc.c sends, byte by byte.
use mathlib.Core.Bool.{false≢true}
use event_loop.Prelude.{
  ltb, ◌==◌, Bool-cases, leb-lt, length, length-append, concat, ℕ, suc, ◌+◌, ◌≤◌, ◌<◌, ◌≡◌, refl,
  sym, ap, ◌∙◌, ◌⊎◌, inl, inr, true, false, not, ◌&&◌, ◌||◌, Option, none, some, List, [], ◌∷◌,
  ◌++◌, append-nil, append_assoc, arith,
}
use event_loop.Stdin.{buf_size, is_ws_packet, Modes, on_stdin_read, on_stdin_reads}

concat-append : (ps qs : List (List ℕ)) → concat (ps ++ qs) ≡ concat ps ++ concat qs
concat-append [] qs = refl
concat-append (p ∷ ps) qs =
    ap (λ xs. p ++ xs) (concat-append ps qs) ∙ sym (append_assoc p (concat ps) (concat qs))

-- The buffer is used only where sends are buffered.
abbrev IsUsed : Modes → List ℕ → Type 0
IsUsed m buf = (m.buffered_send ≡ true) ⊎ (buf ≡ [])

unused : (m : Modes) (buf : List ℕ) → m.buffered_send ≡ false → IsUsed m buf → buf ≡ []
unused m buf direct (inl buffered) = absurd (false≢true (sym direct ∙ buffered))
unused m buf direct (inr e) = e

-- Where nothing is flushed at the end, nothing is left.
none_left :
    (m : Modes) (buf : List ℕ)
    → IsUsed m buf
    → (m.buffered_send && ltb 0 (length buf)) ≡ false
    → buf ≡ []
none_left m [] used h = refl
none_left m (b ∷ buf) (inr e) h = e
none_left m (b ∷ buf) (inl buffered) h = absurd (ground arith)

-- A byte is sent or kept.
abbrev Takes : (mask_len : ℕ) → Modes → ℕ → List ℕ → Type 0
Takes mask_len m ch buf =
    (sends : List (List ℕ)) × (buf' : List ℕ) × (on_stdin_read mask_len m (some ch) buf
      ≡ some (sends, buf'))
    × (concat sends ++ buf' ≡ buf ++ ch ∷ [])
    × (length buf' ≤ suc (length buf))
    × IsUsed m buf'

read-Takes :
    (mask_len : ℕ) (m : Modes) (ch : ℕ) (buf : List ℕ)
    → IsUsed m buf
    → length buf < buf_size
    → Takes mask_len m ch buf
unfolding on_stdin_read
read-Takes mask_len m ch buf used room = elim (Bool-cases m.buffered_send) [
  | inl buffered ↦
      elim (Bool-cases
        ((m.ws_mode && is_ws_packet mask_len (buf ++ ch ∷ [])) || (not m.ws_mode && (ch == 10)))) [
          | inl ends ↦ (
            (buf ++ ch ∷ []) ∷ [],
            [],
            rw (on_stdin_read, buffered, leb-lt (length buf) buf_size room, ends) refl,
            append-nil ((buf ++ ch ∷ []) ++ []) ∙ append-nil (buf ++ ch ∷ []),
            omega arith,
            inr refl,
          )
          | inr more ↦ (
            [],
            buf ++ ch ∷ [],
            rw (on_stdin_read, buffered, leb-lt (length buf) buf_size room, more) refl,
            refl,
            omega (arith, length-append buf (ch ∷ [])),
            inl buffered,
          )
        ]
  | inr direct ↦ (
    (ch ∷ []) ∷ [],
    buf,
    rw (on_stdin_read, direct) refl,
    (let e : buf ≡ [] = unused m buf direct used in rw e refl),
    omega arith,
    used,
  )
]

-- The calls for the bytes of an input, and then for its end.
abbrev pub calls_for : List ℕ → List (Option ℕ)
calls_for [] = none ∷ []
calls_for (ch ∷ input) = some ch ∷ calls_for input

on_stdin_reads-from :
    (mask_len : ℕ) (m : Modes) (input buf : List ℕ)
    → IsUsed m buf
    → length buf + length input ≤ buf_size
    → (sends : List (List ℕ)) × (on_stdin_reads mask_len m (calls_for input) buf ≡ some (sends, []))
      × (concat sends ≡ buf ++ input)
unfolding on_stdin_reads on_stdin_read
on_stdin_reads-from mask_len m [] buf used room =
    elim (Bool-cases (m.buffered_send && ltb 0 (length buf))) [
      | inl flush ↦ (buf ∷ [], rw (on_stdin_reads, on_stdin_read, flush) refl, refl)
      | inr done ↦
          let e : buf ≡ [] = none_left m buf used done in
          ([], rw (on_stdin_reads, on_stdin_read, done) (rw e refl), sym (append-nil buf ∙ e))
    ]
on_stdin_reads-from mask_len m (ch ∷ input) buf used room =
    let (sends, buf', e, same, small, used') =
      read-Takes mask_len m ch buf used (omega (arith, room)) in
    let (more, f, all) =
      on_stdin_reads-from mask_len m input buf' used' (omega (arith, room, small)) in
    (
      sends ++ more,
      rw (on_stdin_reads, e, f) refl,
      concat-append sends more
          ∙ ap (λ xs. concat sends ++ xs) all
          ∙ sym (append_assoc (concat sends) buf' input)
          ∙ ap (λ xs. xs ++ input) same
          ∙ append_assoc buf (ch ∷ []) input,
    )

-- Where the manager's thread runs one call of on_stdin_read for each byte of an input of at most 65536
-- bytes, in their order, and then one for the end, the sends of all the calls are the input, in each mode:
-- nothing is lost, doubled or moved, and the buffer is empty behind them.
pub on_stdin_reads-sends :
    (mask_len : ℕ) (m : Modes) (input : List ℕ)
    → length input ≤ buf_size
    → (sends : List (List ℕ)) × (on_stdin_reads mask_len m (calls_for input) [] ≡ some (sends, []))
      × (concat sends ≡ input)
on_stdin_reads-sends mask_len m input room =
    on_stdin_reads-from mask_len m input [] (inr refl) (omega (arith, room))
