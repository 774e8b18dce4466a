-- ===== src/HostCopy/Size.antt =====
-- When dup_hostentry of eloop/dns.c has room for a copy.
use event_loop.HostCopy.{
  HostEnt, Piece, HostCopied, DupResult, out_of_range, duplicated, alias_count, place_all,
  address_texts, alias_texts, host_copied, dup_hostentry,
}
use event_loop.Prelude.{
  ltb, leb, if◌then◌else◌, ltb→lt, leb→le, le→leb, Bool-cases, leb-lt, length, ℕ, suc, ◌+◌, ◌*◌,
  ◌≤◌, ◌<◌, ◌≡◌, refl, inl, inr, true, none, some, List, [], ◌∷◌, arith,
}

-- The bytes set aside for texts.
abbrev pub text_bytes : List (ℕ × List ℕ) → ℕ
text_bytes [] = 0
text_bytes ((n, b) ∷ bs) = n + text_bytes bs

-- The pieces of texts one behind the other.
abbrev pub pieces_of : (used : ℕ) → List (ℕ × List ℕ) → List Piece
pieces_of used [] = []
pieces_of used ((n, b) ∷ bs) =
    record { offset = used; size = n; bytes = b } ∷ pieces_of (used + n) bs

pub place_all-fits :
    (total used : ℕ) (bs : List (ℕ × List ℕ))
    → used + text_bytes bs < total
    → place_all total used bs ≡ some (pieces_of used bs, used + text_bytes bs)
unfolding place_all
place_all-fits total used [] h = let e : used + 0 ≡ used = omega arith in rw e refl
place_all-fits total used ((n, b) ∷ bs) h =
    let e : used + (n + text_bytes bs) ≡ used + n + text_bytes bs = omega arith in
    rw (leb-lt (used + n) total (omega arith), place_all)
      (rw (place_all-fits total (used + n) bs (omega arith), place_all) (rw e refl))

pub place_all-short :
    (total used : ℕ) (bs : List (ℕ × List ℕ))
    → used < total
    → total ≤ used + text_bytes bs
    → place_all total used bs ≡ none
unfolding place_all
place_all-short total used [] h k = absurd (omega arith)
place_all-short total used ((n, b) ∷ bs) h k = elim (Bool-cases (leb total (used + n))) [
  | inl e ↦ rw (e, place_all) refl
  | inr e ↦
      rw (e, place_all)
        (rw (place_all-short total (used + n) bs (ground arith) (omega arith), place_all) refl)
]

-- The bytes that a copy needs: an address, the two arrays, the addresses, the aliases and the name.
abbrev pub bytes_needed : (ptr : ℕ) → HostEnt → ℕ
bytes_needed ptr h =
    4
    + ptr * suc (length h.addr_list)
    + text_bytes (address_texts h)
    + ptr * alias_count h.h_aliases
    + text_bytes (alias_texts h)
    + (length h.host_name + 1)

-- The copy as it should be: the parts one behind the other.
abbrev pub strings_start : (ptr : ℕ) → HostEnt → ℕ
strings_start ptr h =
    4
    + ptr * suc (length h.addr_list)
    + text_bytes (address_texts h)
    + ptr * alias_count h.h_aliases

abbrev pub copy_of : (ptr : ℕ) → HostEnt → HostCopied
copy_of ptr h =
    host_copied ptr h (pieces_of (4 + ptr * suc (length h.addr_list)) (address_texts h))
      (4 + ptr * suc (length h.addr_list) + text_bytes (address_texts h))
      (pieces_of (strings_start ptr h) (alias_texts h))
      (strings_start ptr h + text_bytes (alias_texts h))

dup_hostentry-fits :
    (ptr total : ℕ) (h : HostEnt)
    → h.is_inet ≡ true
    → bytes_needed ptr h < total
    → dup_hostentry ptr total h ≡ duplicated (copy_of ptr h)
unfolding dup_hostentry
dup_hostentry-fits ptr total h i k =
    let e =
      place_all-fits total (4 + ptr * suc (length h.addr_list)) (address_texts h) (omega arith) in
    let f = place_all-fits total (strings_start ptr h) (alias_texts h) (omega arith) in
    rw (leb-lt 0 total (omega arith)) (
      rw i (
        rw (leb-lt (4 + ptr * suc (length h.addr_list)) total (omega arith)) (
          rw (e, place_all)
            (rw (leb-lt (strings_start ptr h) total (omega arith)) (
              rw (f, place_all)
                (rw
                  (leb-lt
                    (strings_start ptr h + text_bytes (alias_texts h) + (length h.host_name + 1))
                    total (omega arith))
                  refl))))))

-- The part of dup_hostentry behind the addresses.
abbrev strings_part : (ptr total : ℕ) → HostEnt → DupResult
strings_part ptr total h =
    if leb total (strings_start ptr h)
    then out_of_range
    else elim (place_all total (strings_start ptr h) (alias_texts h)) [
      | none ↦ out_of_range
      | some (strings, name_base) ↦
          if leb total (name_base + (length h.host_name + 1))
          then out_of_range
          else duplicated (
              host_copied ptr h (pieces_of (4 + ptr * suc (length h.addr_list)) (address_texts h))
                (4 + ptr * suc (length h.addr_list) + text_bytes (address_texts h)) strings
                name_base)
    ]

strings-short :
    (ptr total : ℕ) (h : HostEnt)
    → total ≤ bytes_needed ptr h
    → strings_part ptr total h ≡ out_of_range
strings-short ptr total h k = elim (Bool-cases (leb total (strings_start ptr h))) [
  | inl e ↦ rw e refl
  | inr e ↦ elim (Bool-cases (leb total (strings_start ptr h + text_bytes (alias_texts h)))) [
    | inl f ↦
        let s =
          place_all-short total (strings_start ptr h) (alias_texts h) (ground arith)
            (leb→le _ _ f) in
        rw e (rw s refl)
    | inr f ↦
        let s = place_all-fits total (strings_start ptr h) (alias_texts h) (ground arith) in
        let le : leb total
              (strings_start ptr h + text_bytes (alias_texts h) + (length h.host_name + 1))
            ≡ true =
          le→leb _ _ k in
        rw e (rw s (rw le refl))
  ]
]

dup_hostentry-short :
    (ptr total : ℕ) (h : HostEnt)
    → h.is_inet ≡ true
    → total ≤ bytes_needed ptr h
    → dup_hostentry ptr total h ≡ out_of_range
unfolding dup_hostentry
dup_hostentry-short ptr total h i k =
    let addresses_base = 4 + ptr * suc (length h.addr_list) in
    let strings_base = strings_start ptr h in
    let name_base = strings_base + text_bytes (alias_texts h) in
    elim (Bool-cases (leb total 0)) [
      | inl e0 ↦ rw e0 refl
      | inr e0 ↦ elim (Bool-cases (leb total addresses_base)) [
        | inl e1 ↦ rw e0 (rw i (rw e1 refl))
        | inr e1 ↦ elim (Bool-cases (leb total (addresses_base + text_bytes (address_texts h)))) [
          | inl e2 ↦
              let s =
                place_all-short total addresses_base (address_texts h) (ground arith)
                  (leb→le _ _ e2) in
              rw e0 (rw i (rw e1 (rw (s, place_all) refl)))
          | inr e2 ↦
              let f = place_all-fits total addresses_base (address_texts h) (ground arith) in
              rw e0 (rw i (rw e1 (rw (f, place_all) (strings-short ptr total h k))))
        ]
      ]
    ]

-- An entry of the family AF_INET is copied exactly where the buffer has more than the bytes needed, and
-- then its parts stand one behind the other; where it has not, no copy is returned.
pub dup_hostentry_lem :
    (ptr total : ℕ) (h : HostEnt)
    → h.is_inet ≡ true
    → dup_hostentry ptr total h
      ≡ (if ltb (bytes_needed ptr h) total then duplicated (copy_of ptr h) else out_of_range)
dup_hostentry_lem ptr total h i = elim (Bool-cases (ltb (bytes_needed ptr h) total)) [
  | inl e ↦ rw e (dup_hostentry-fits ptr total h i (ltb→lt _ _ e))
  | inr e ↦ rw e (dup_hostentry-short ptr total h i (ground arith))
]
