-- ===== src/Socks/Tables.antt =====
-- What the tables hold after registration and removal, and the descriptor sets made of them.
use event_loop.Eloop.{Sock, SockTable, EventType, read, write, exception, unknown, Eloop, entries}
use event_loop.Prelude.{
  ◌≡◌, refl, sym, ◌∙◌, Bool, true, false, ◌||◌, none, some, List, [], ◌∷◌, ◌++◌, append-nil, arith,
}
use event_loop.Prelude.Int.{ℤ, ◌≤ℤ◌, eqb_ℤ}
use event_loop.Socks.{
  remove_first, eloop_sock_table_remove_sock, eloop_register_sock, eloop_unregister_sock, FdSet,
  fd_zero, fd_set, set_all, eloop_sock_table_set_fds,
}
use event_loop.Socks.MaxSock.{AtMost, IsWatched}

-- Some entry is for `sock`.
unfoldable pub has_sock : ℤ → List Sock → Bool
has_sock sock [] = false
has_sock sock (x ∷ xs) = eqb_ℤ x.sock sock || has_sock sock xs

set_all-has_sock :
    (xs : List Sock) (fds : FdSet) (fd : ℤ) → set_all xs fds fd ≡ (has_sock fd xs || fds fd)
unfolding set_all has_sock
set_all-has_sock [] fds fd = refl
set_all-has_sock (x ∷ xs) fds fd = ground (arith, set_all-has_sock xs (fd_set x.sock fds) fd)

-- A descriptor is in the set that `pselect` is given exactly when the table has an entry for it.
pub set_fds-has_sock :
    (t : SockTable) (fd : ℤ) → eloop_sock_table_set_fds t fd ≡ has_sock fd (entries t)
unfolding eloop_sock_table_set_fds
set_fds-has_sock t fd = ground (arith, set_all-has_sock (entries t) fd_zero fd)

AtMost-has_sock : (m fd : ℤ) (xs : List Sock) → AtMost m xs → has_sock fd xs ≡ true → fd ≤ℤ m
unfolding has_sock
AtMost-has_sock m fd [] h k = cc
AtMost-has_sock m fd (x ∷ xs) h k = ground (arith, AtMost-has_sock m fd xs)

-- `pselect`, called with `max_sock + 1`, looks at every descriptor of its three sets.
pub set_fds-le-max_sock :
    (e : Eloop) (fd : ℤ)
    → IsWatched e
    → (eloop_sock_table_set_fds e.readers fd ≡ true → fd ≤ℤ e.max_sock)
      × (eloop_sock_table_set_fds e.writers fd ≡ true → fd ≤ℤ e.max_sock)
      × (eloop_sock_table_set_fds e.exceptions fd ≡ true → fd ≤ℤ e.max_sock)
set_fds-le-max_sock e fd w = (
  λ h.
      AtMost-has_sock e.max_sock fd (entries e.readers) w.readers
        (sym (set_fds-has_sock e.readers fd) ∙ h),
  λ h.
      AtMost-has_sock e.max_sock fd (entries e.writers) w.writers
        (sym (set_fds-has_sock e.writers fd) ∙ h),
  λ h.
      AtMost-has_sock e.max_sock fd (entries e.exceptions) w.exceptions
        (sym (set_fds-has_sock e.exceptions fd) ∙ h),
)

remove_first-absent :
    (sock : ℤ) (xs : List Sock) → has_sock sock xs ≡ false → remove_first sock xs ≡ none
unfolding remove_first has_sock
remove_first-absent sock [] h = refl
remove_first-absent sock (x ∷ xs) h = ground (arith, remove_first-absent sock xs)

-- The entry removed is the first for `sock`: the others keep their order.
pub remove_first-append :
    (sock : ℤ) (xs ys : List Sock) (x : Sock)
    → has_sock sock xs ≡ false
    → eqb_ℤ x.sock sock ≡ true
    → remove_first sock (xs ++ x ∷ ys) ≡ some (xs ++ ys)
unfolding remove_first has_sock
remove_first-append sock [] ys x h k = rw k
remove_first-append sock (y ∷ xs) ys x h k = ground (arith, remove_first-append sock xs ys x)

-- The entries of the table for `type`.
abbrev pub socks_of : EventType → Eloop → List Sock
socks_of read e = entries e.readers
socks_of write e = entries e.writers
socks_of exception e = entries e.exceptions
socks_of unknown e = []

remove-snoc :
    (xs : List Sock) (new : Sock) (b : Bool)
    → has_sock new.sock xs ≡ false
    → entries (
        eloop_sock_table_remove_sock
          (record { table = some (xs ++ new ∷ []); changed = b })
          new.sock)
      ≡ xs
unfolding eloop_sock_table_remove_sock
remove-snoc xs new b h =
    ground (arith, remove_first-append new.sock xs [] new h (ground arith), append-nil xs)

remove-absent :
    (t : SockTable) (sock : ℤ)
    → has_sock sock (entries t) ≡ false
    → entries (eloop_sock_table_remove_sock t sock) ≡ entries t
unfolding eloop_sock_table_remove_sock
remove-absent t sock h = ground (arith, remove_first-absent sock (entries t) h)

-- A descriptor registered where it had no entry, then removed, leaves the entries of every table as
-- they were, if there is room for it or not.
pub unregister-register :
    (room : Bool) (new : Sock) (type other : EventType) (e : Eloop)
    → has_sock new.sock (socks_of type e) ≡ false
    → socks_of other (eloop_unregister_sock new.sock type (eloop_register_sock room new type e).1)
      ≡ socks_of other e
unfolding eloop_unregister_sock eloop_register_sock
unregister-register false new read read e h = remove-absent e.readers new.sock h
unregister-register false new write write e h = remove-absent e.writers new.sock h
unregister-register false new exception exception e h = remove-absent e.exceptions new.sock h
unregister-register true new read read e h =
    ground (arith, remove-snoc (entries e.readers) new true h)
unregister-register true new write write e h =
    ground (arith, remove-snoc (entries e.writers) new true h)
unregister-register true new exception exception e h =
    ground (arith, remove-snoc (entries e.exceptions) new true h)
unregister-register room new type other e h = ground arith
