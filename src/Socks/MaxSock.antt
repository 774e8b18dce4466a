-- ===== src/Socks/MaxSock.antt =====
-- `max_sock`: every descriptor of the tables is in the range that `pselect` looks at.
use event_loop.Eloop.{Sock, SockTable, EventType, read, write, exception, unknown, Eloop, entries}
use event_loop.Prelude.{
  if◌then◌else◌, Bool-cases, All, All-append, All-map_of, ◌≡◌, refl, sym, ◌∙◌, ◌⊎◌, inl, inr, Bool,
  true, false, some, List, [], ◌∷◌, ◌++◌, arith,
}
use event_loop.Prelude.Int.{ℤ, negsuc, ◌≤ℤ◌, ltb_ℤ}
use event_loop.Socks.{
  put_sock_table, max_over, eloop_recalc_max_sock, eloop_register_sock, remove_in,
  eloop_unregister_sock,
}

abbrev pub AtMost : ℤ → List Sock → Type 0
AtMost m xs = All (λ x. x.sock ≤ℤ m) xs

-- `max_sock` bounds the descriptors of the three tables.
pub record IsWatched (e : Eloop) : Type 0 where
  pub readers : AtMost e.max_sock (entries e.readers)
  pub writers : AtMost e.max_sock (entries e.writers)
  pub exceptions : AtMost e.max_sock (entries e.exceptions)

pub AtMost-mono : (m n : ℤ) → m ≤ℤ n → (xs : List Sock) → AtMost m xs → AtMost n xs
AtMost-mono m n h xs = All-map_of (λ x k. omega (arith, h)) xs

max_over-ge : (xs : List Sock) (m : ℤ) → m ≤ℤ max_over xs m
unfolding max_over
max_over-ge [] m = omega arith
max_over-ge (x ∷ xs) m = ground (arith, max_over-ge xs (if ltb_ℤ m x.sock then x.sock else m))

max_over-AtMost : (xs : List Sock) (m : ℤ) → AtMost (max_over xs m) xs
unfolding max_over
max_over-AtMost [] m = tt
max_over-AtMost (x ∷ xs) m =
    let m' = if ltb_ℤ m x.sock then x.sock else m in
    (ground (arith, max_over-ge xs m'), max_over-AtMost xs m')

-- The largest value is the one started with or that of an entry.
pub data Attained (m : ℤ) : List Sock → Type 0 where
  here : {x : Sock} {xs : List Sock} → x.sock ≡ m → Attained m (x ∷ xs)
  there : {x : Sock} {xs : List Sock} → Attained m xs → Attained m (x ∷ xs)

max_over-Attained : (xs : List Sock) (m : ℤ) → (max_over xs m ≡ m) ⊎ Attained (max_over xs m) xs
unfolding max_over
max_over-Attained [] m = inl refl
max_over-Attained (x ∷ xs) m = elim (Bool-cases (ltb_ℤ m x.sock)) [
  | inl larger ↦
      rw larger
        (elim (max_over-Attained xs x.sock) [ inl e ↦ inr (here (sym e)) | inr a ↦ inr (there a) ])
  | inr other ↦ rw other (elim (max_over-Attained xs m) [ inl e ↦ inl e | inr a ↦ inr (there a) ])
]

-- `eloop_recalc_max_sock` finds the bound again, from any state.
pub recalc-IsWatched : (e : Eloop) → IsWatched (eloop_recalc_max_sock e)
unfolding eloop_recalc_max_sock
recalc-IsWatched e =
    let r : ℤ = max_over (entries e.readers) (negsuc 0) in
    let w : ℤ = max_over (entries e.writers) r in
    let m : ℤ = max_over (entries e.exceptions) w in
    let rw_le : r ≤ℤ w = max_over-ge (entries e.writers) r in
    let wm_le : w ≤ℤ m = max_over-ge (entries e.exceptions) w in
    record {
      readers =
          AtMost-mono r m (omega (arith, rw_le, wm_le)) (entries e.readers)
            (max_over-AtMost (entries e.readers) (negsuc 0));
      writers = AtMost-mono w m wm_le (entries e.writers) (max_over-AtMost (entries e.writers) r);
      exceptions = max_over-AtMost (entries e.exceptions) w;
    }

-- After a removal every remaining descriptor is at most `max_sock`, whatever the state before.
pub unregister-IsWatched :
    (sock : ℤ) (type : EventType) (e : Eloop) → IsWatched (eloop_unregister_sock sock type e)
unfolding eloop_unregister_sock
unregister-IsWatched sock type e = recalc-IsWatched (remove_in type sock e)

add-AtMost :
    (m : ℤ) (xs : List Sock) (new : Sock) → AtMost m xs → new.sock ≤ℤ m → AtMost m (xs ++ new ∷ [])
add-AtMost m xs new h k = All-append (λ x. x.sock ≤ℤ m) xs (new ∷ []) h (k, tt)

IsWatched-mono :
    (e : Eloop) (m : ℤ) → e.max_sock ≤ℤ m → IsWatched e → IsWatched (record e { max_sock = m })
IsWatched-mono e m le w = record {
  readers = AtMost-mono e.max_sock m le (entries e.readers) w.readers;
  writers = AtMost-mono e.max_sock m le (entries e.writers) w.writers;
  exceptions = AtMost-mono e.max_sock m le (entries e.exceptions) w.exceptions;
}

-- A table with one more entry, within a bound that already holds.
IsWatched-put :
    (type : EventType) (t : SockTable) (e : Eloop)
    → AtMost e.max_sock (entries t)
    → IsWatched e
    → IsWatched (put_sock_table type t e)
IsWatched-put read t e h w = record { readers = h; writers = w.writers; exceptions = w.exceptions }
IsWatched-put write t e h w = record { readers = w.readers; writers = h; exceptions = w.exceptions }
IsWatched-put exception t e h w = record {
  readers = w.readers;
  writers = w.writers;
  exceptions = h;
}
IsWatched-put unknown t e h w = w

-- What a successful `eloop_sock_table_add_sock` leaves of the table `t`.
abbrev added : EventType → SockTable → Sock → Eloop → Eloop
added type t new e =
    let e' : Eloop =
      put_sock_table type (record { table = some (entries t ++ new ∷ []); changed = true }) e in
    if ltb_ℤ e.max_sock new.sock then record e' { max_sock = new.sock } else e'

max_sock-put :
    (type : EventType) (t : SockTable) (e : Eloop) (m : ℤ)
    → record (put_sock_table type t e) { max_sock = m }
      ≡ put_sock_table type t (record e { max_sock = m })
max_sock-put read t e m = refl
max_sock-put write t e m = refl
max_sock-put exception t e m = refl
max_sock-put unknown t e m = refl

added-IsWatched :
    (type : EventType) (t : SockTable) (new : Sock) (e : Eloop)
    → AtMost e.max_sock (entries t)
    → IsWatched e
    → IsWatched (added type t new e)
added-IsWatched type t new e h w = elim (Bool-cases (ltb_ℤ e.max_sock new.sock)) [
  | inl larger ↦
      let le : e.max_sock ≤ℤ new.sock = ground arith in
      rw (larger, max_sock-put)
        (IsWatched-put type _ (record e { max_sock = new.sock })
          (add-AtMost new.sock (entries t) new (AtMost-mono e.max_sock new.sock le (entries t) h)
            (omega arith))
          (IsWatched-mono e new.sock le w))
  | inr within ↦
      let le : new.sock ≤ℤ e.max_sock = ground arith in
      rw within (IsWatched-put type _ e (add-AtMost e.max_sock (entries t) new h le) w)
]

-- Registration, failed or not, keeps every descriptor at most `max_sock`.
pub register-IsWatched :
    (room : Bool) (new : Sock) (type : EventType) (e : Eloop)
    → IsWatched e
    → IsWatched (eloop_register_sock room new type e).1
unfolding eloop_register_sock
register-IsWatched false new read e w = w
register-IsWatched false new write e w = w
register-IsWatched false new exception e w = w
register-IsWatched false new unknown e w = w
register-IsWatched true new read e w = added-IsWatched read e.readers new e w.readers w
register-IsWatched true new write e w = added-IsWatched write e.writers new e w.writers w
register-IsWatched true new exception e w =
    added-IsWatched exception e.exceptions new e w.exceptions w
register-IsWatched true new unknown e w = w

-- The descriptors of a table that has an entry for `max_sock`.
abbrev pub HasMax : Eloop → Type 0
HasMax e =
    Attained e.max_sock (entries e.readers)
    ⊎ Attained e.max_sock (entries e.writers)
    ⊎ Attained e.max_sock (entries e.exceptions)

recalc-tight :
    (e : Eloop) → let e' = eloop_recalc_max_sock e in (e'.max_sock ≡ negsuc 0) ⊎ HasMax e'
unfolding eloop_recalc_max_sock
recalc-tight e =
    let r : ℤ = max_over (entries e.readers) (negsuc 0) in
    let w : ℤ = max_over (entries e.writers) r in
    elim (max_over-Attained (entries e.exceptions) w) [
      | inr a ↦ inr (inr (inr a))
      | inl same ↦ elim (max_over-Attained (entries e.writers) r) [
        | inr a ↦ inr (inr (inl (rw same a)))
        | inl same' ↦ elim (max_over-Attained (entries e.readers) (negsuc 0)) [
          | inr a ↦ inr (inl (rw (same, same') a))
          | inl none_left ↦ inl (same ∙ same' ∙ none_left)
        ]
      ]
    ]

-- After a removal `max_sock` is not larger than needed: it is -1 or the descriptor of an entry.
pub unregister-tight :
    (sock : ℤ) (type : EventType) (e : Eloop)
    → let e' = eloop_unregister_sock sock type e in (e'.max_sock ≡ negsuc 0) ⊎ HasMax e'
unfolding eloop_unregister_sock
unregister-tight sock type e = recalc-tight (remove_in type sock e)
