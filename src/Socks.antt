-- ===== src/Socks.antt =====
-- The socket tables of eloop/eloop.c: registration, removal, `max_sock`, and the descriptor sets
-- that `pselect` is given. `room` says whether `os_realloc` succeeds.
pub mod MaxSock
pub mod Tables
use mathlib.Core.Option
use event_loop.Eloop.{Sock, SockTable, EventType, read, write, exception, unknown, Eloop, entries}
use event_loop.Prelude.{
  if◌then◌else◌, Bool, true, false, ◌||◌, Option, none, some, List, [], ◌∷◌, ◌++◌, map,
}
use event_loop.Prelude.Int.{ℤ, pos, negsuc, ltb_ℤ, eqb_ℤ}

-- `eloop_get_sock_table`
unfoldable pub eloop_get_sock_table : EventType → Eloop → Option SockTable
eloop_get_sock_table read e = some e.readers
eloop_get_sock_table write e = some e.writers
eloop_get_sock_table exception e = some e.exceptions
eloop_get_sock_table unknown e = none

-- A write through the pointer that `eloop_get_sock_table` returns.
abbrev pub put_sock_table : EventType → SockTable → Eloop → Eloop
put_sock_table read t e = record e { readers = t }
put_sock_table write t e = record e { writers = t }
put_sock_table exception t e = record e { exceptions = t }
put_sock_table unknown t e = e

-- `eloop_sock_table_add_sock`, on the table of `type`
unfoldable pub eloop_sock_table_add_sock : Bool → EventType → Sock → Eloop → ℤ × Eloop
unfolding eloop_get_sock_table
eloop_sock_table_add_sock room type new e = elim (eloop_get_sock_table type e) [
  | none ↦ (negsuc 0, e)
  | some t ↦
      if room
      then (
        pos 0,
        let e' =
              put_sock_table type (record { table = some (entries t ++ new ∷ []); changed = true })
                e in
            if ltb_ℤ e.max_sock new.sock then record e' { max_sock = new.sock } else e',
      )
      else (negsuc 0, e)
]

-- The array without its first entry for `sock`; `none` if there is no such entry.
unfoldable pub remove_first : ℤ → List Sock → Option (List Sock)
remove_first sock [] = none
remove_first sock (x ∷ xs) =
    if eqb_ℤ x.sock sock then some xs else Option.map (λ ys. x ∷ ys) (remove_first sock xs)

-- `eloop_sock_table_remove_sock`
unfoldable pub eloop_sock_table_remove_sock : SockTable → ℤ → SockTable
unfolding remove_first
eloop_sock_table_remove_sock t sock = elim (remove_first sock (entries t)) [
  | none ↦ t
  | some xs ↦ record { table = some xs; changed = true }
]

-- One of the loops of `eloop_recalc_max_sock`.
unfoldable pub max_over : List Sock → ℤ → ℤ
max_over [] m = m
max_over (x ∷ xs) m = max_over xs (if ltb_ℤ m x.sock then x.sock else m)

unfoldable pub eloop_recalc_max_sock : Eloop → Eloop
unfolding max_over
eloop_recalc_max_sock e = record e {
  max_sock =
      max_over (entries e.exceptions)
        (max_over (entries e.writers) (max_over (entries e.readers) (negsuc 0)));
}

unfoldable pub eloop_register_sock : Bool → Sock → EventType → Eloop → ℤ × Eloop
unfolding eloop_sock_table_add_sock
eloop_register_sock room new type e = eloop_sock_table_add_sock room type new e

-- The removal from the table that `eloop_get_sock_table` finds.
unfoldable pub remove_in : EventType → ℤ → Eloop → Eloop
unfolding eloop_get_sock_table eloop_sock_table_remove_sock
remove_in type sock e = elim (eloop_get_sock_table type e) [
  | none ↦ e
  | some t ↦ put_sock_table type (eloop_sock_table_remove_sock t sock) e
]

unfoldable pub eloop_unregister_sock : ℤ → EventType → Eloop → Eloop
unfolding remove_in eloop_recalc_max_sock
eloop_unregister_sock sock type e = eloop_recalc_max_sock (remove_in type sock e)

unfoldable pub eloop_register_read_sock : Bool → Sock → Eloop → ℤ × Eloop
unfolding eloop_register_sock
eloop_register_read_sock room new e = eloop_register_sock room new read e

unfoldable pub eloop_unregister_read_sock : ℤ → Eloop → Eloop
unfolding eloop_unregister_sock
eloop_unregister_read_sock sock e = eloop_unregister_sock sock read e

-- A `fd_set`: FD_ZERO, FD_SET and FD_ISSET.
abbrev pub FdSet : Type 0
FdSet = ℤ → Bool

abbrev pub fd_zero : FdSet
fd_zero fd = false

abbrev pub fd_set : ℤ → FdSet → FdSet
fd_set sock fds fd = eqb_ℤ sock fd || fds fd

unfoldable pub set_all : List Sock → FdSet → FdSet
set_all [] fds = fds
set_all (x ∷ xs) fds = set_all xs (fd_set x.sock fds)

-- `eloop_sock_table_set_fds`
unfoldable pub eloop_sock_table_set_fds : SockTable → FdSet
unfolding set_all
eloop_sock_table_set_fds t = set_all (entries t) fd_zero
