-- ===== src/Stdin.antt =====
-- What etc/nc.c sends of its standard input: the calls of on_stdin_read that stdio_thread_func hands over. A byte is a
-- number. The result is `none` where the C code writes behind its buffer.
pub mod Sends
use event_loop.Prelude.{
  ltb, leb, ◌==◌, if◌then◌else◌, length, ℕ, Bool, not, ◌&&◌, ◌||◌, Option, none, some, List, [],
  ◌∷◌, ◌++◌,
}
use event_loop.Prelude.Int.{pos, leb_ℤ}
use event_loop.WebSock.{decode_websock_msg}

-- `sizeof(Buf)`
abbrev pub buf_size : ℕ
buf_size = 65536

-- isWSpacket: a frame is complete if it can be decoded.
unfoldable pub is_ws_packet : (mask_len : ℕ) → List ℕ → Bool
unfolding decode_websock_msg
is_ws_packet mask_len buf = leb_ℤ (pos 0) (decode_websock_msg mask_len buf).ret

-- The command line's `g_bufferedSend` and `b_wsMode`.
pub record Modes : Type 0 where
  pub buffered_send : Bool
  pub ws_mode : Bool

-- on_stdin_read: a byte, or the end by `none`; what is sent, and the buffer.
unfoldable pub on_stdin_read :
    (mask_len : ℕ) → Modes → Option ℕ → (buf : List ℕ) → Option (List (List ℕ) × List ℕ)
unfolding is_ws_packet
on_stdin_read mask_len m none buf =
    if m.buffered_send && ltb 0 (length buf) then some (buf ∷ [], []) else some ([], buf)
on_stdin_read mask_len m (some ch) buf =
    if m.buffered_send
    then (if leb buf_size (length buf)
        then none
        else if (m.ws_mode && is_ws_packet mask_len (buf ++ ch ∷ []))
            || (not m.ws_mode && (ch == 10))
        then some ((buf ++ ch ∷ []) ∷ [], [])
        else some ([], buf ++ ch ∷ []))
    else some ((ch ∷ []) ∷ [], buf)

-- The calls that ns_broadcast has handed over, as the manager's thread runs them one after the other:
-- what is sent, and the buffer. When they run, against the thread that reads, is not modelled, and so not
-- the test of `BufPos` in that thread, by which it hands over the call for the end.
unfoldable pub on_stdin_reads :
    (mask_len : ℕ) → Modes → List (Option ℕ) → (buf : List ℕ) → Option (List (List ℕ) × List ℕ)
unfolding on_stdin_read
on_stdin_reads mask_len m [] buf = some ([], buf)
on_stdin_reads mask_len m (c ∷ cs) buf = elim (on_stdin_read mask_len m c buf) [
  | none ↦ none
  | some (sends, buf') ↦ elim (on_stdin_reads mask_len m cs buf') [
    | none ↦ none
    | some (more, buf'') ↦ some (sends ++ more, buf'')
  ]
]
