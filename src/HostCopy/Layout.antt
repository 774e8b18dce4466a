-- ===== src/HostCopy/Layout.antt =====
-- Where dup_hostentry of eloop/dns.c puts the parts of a copy, and what they hold.
use event_loop.HostCopy.{
  HostEnt, Piece, PointerArray, HostCopied, out_of_range, duplicated, stride_of, alias_list,
  address_texts, string_text, alias_texts, offsets, address_pointers, host_copied, dup_hostentry,
}
use event_loop.HostCopy.Size.{
  text_bytes, pieces_of, bytes_needed, strings_start, copy_of, dup_hostentry_lem,
}
use event_loop.Prelude.{
  ltb, ltb→lt, lt→ltb, Bool-cases, length, take, length-append, length-take, All, length-map, ℕ,
  suc, ◌+◌, ◌*◌, ◌≤◌, ◌<◌, ◌≡◌, refl, sym, ap, ◌∙◌, subst, inl, inr, true, none, some, List, [],
  ◌∷◌, ◌++◌, map, arith,
}

-- Parts of the buffer one behind the other, from one offset to another.
abbrev pub Chain : (start : ℕ) → List (ℕ × ℕ) → (end : ℕ) → Type 0
Chain u [] e = u ≡ e
Chain u ((o, n) ∷ ps) e = (o ≡ u) × Chain (u + n) ps e

abbrev pub spans : List Piece → List (ℕ × ℕ)
spans ps = map (λ p. (p.offset, p.size)) ps

-- All parts of a copy: the address at the start, the array of addresses, the addresses, the array of
-- aliases, the aliases, the name.
abbrev pub parts : HostCopied → List (ℕ × ℕ)
parts c =
    (0, 4)
    ∷ (c.address_array.base, c.address_array.array_size)
    ∷ (spans c.addresses_at
        ++ ((c.alias_array.base, c.alias_array.array_size)
            ∷ (spans c.aliases_at ++ (c.name_at.offset, c.name_at.size) ∷ [])))

-- What is written to a part is no longer than the part.
abbrev pub FitsPiece : Piece → Type 0
FitsPiece p = length p.bytes ≤ p.size

abbrev pub FitsArray : (ptr : ℕ) → PointerArray → Type 0
FitsArray ptr a = ptr * length a.pointers ≤ a.array_size

Chain-pieces_of :
    (u e : ℕ) (bs : List (ℕ × List ℕ)) (rest : List (ℕ × ℕ))
    → Chain (u + text_bytes bs) rest e
    → Chain u (spans (pieces_of u bs) ++ rest) e
Chain-pieces_of u e [] rest h = subst (λ (t : ℕ). Chain t rest e) (omega arith) h
Chain-pieces_of u e ((n, b) ∷ bs) rest h =
    (refl, Chain-pieces_of (u + n) e bs rest (subst (λ (t : ℕ). Chain t rest e) (omega arith) h))

-- The texts, with the bytes set aside for them at least as long.
pieces_of-FitsPiece :
    (u : ℕ) (bs : List (ℕ × List ℕ))
    → All (λ b. length (b.1) ≤ b.0) bs
    → All FitsPiece (pieces_of u bs)
pieces_of-FitsPiece u [] h = tt
pieces_of-FitsPiece u ((n, b) ∷ bs) h = (h.0, pieces_of-FitsPiece (u + n) bs (h.1))

length-pieces_of : (u : ℕ) (bs : List (ℕ × List ℕ)) → length (pieces_of u bs) ≡ length bs
length-pieces_of u [] = refl
length-pieces_of u ((n, b) ∷ bs) = ap suc (length-pieces_of (u + n) bs)

length-offsets : (ps : List Piece) → length (offsets ps) ≡ length ps
length-offsets [] = refl
length-offsets (p ∷ ps) = ap suc (length-offsets ps)

strings-fit :
    (ts : List (List ℕ)) → All (λ (b : ℕ × List ℕ). length (b.1) ≤ b.0) (map string_text ts)
strings-fit [] = tt
strings-fit (t ∷ ts) = (omega (arith, length-append t (0 ∷ [])), strings-fit ts)

addresses-fit :
    (n : ℕ) (bs : List (List ℕ))
    → All (λ (b : ℕ × List ℕ). length (b.1) ≤ b.0) (map (λ a. (n, take n a)) bs)
addresses-fit n [] = tt
addresses-fit n (a ∷ bs) = (omega (arith, length-take n a), addresses-fit n bs)

-- The copy of an entry that has an address and whose list of aliases is not NULL.
abbrev pub IsFull : HostEnt → Type 0
IsFull h =
    (h.is_inet ≡ true)
    × (0 < length h.addr_list)
    × (0 < stride_of h)
    × ((ts : List (List ℕ)) × (h.h_aliases ≡ some ts))

-- A copy that is returned has found room.
pub copied-room :
    (ptr total : ℕ) (h : HostEnt) (c : HostCopied)
    → h.is_inet ≡ true
    → dup_hostentry ptr total h ≡ duplicated c
    → (bytes_needed ptr h < total) × (copy_of ptr h ≡ c)
copied-room ptr total h c i e =
    let r = sym (dup_hostentry_lem ptr total h i) ∙ e in
    elim (Bool-cases (ltb (bytes_needed ptr h) total)) [
      | inl f ↦
          let d : duplicated (copy_of ptr h) ≡ duplicated c = (rw f at r) in (ltb→lt _ _ f, (cc))
      | inr f ↦ let d : out_of_range ≡ duplicated c = (rw f at r) in cc
    ]

copy_of-Chain : (ptr : ℕ) (h : HostEnt) → Chain 0 (parts (copy_of ptr h)) (bytes_needed ptr h)
unfolding host_copied
copy_of-Chain ptr h = (
  refl,
  (
    refl,
    Chain-pieces_of (4 + ptr * suc (length h.addr_list)) (bytes_needed ptr h) (address_texts h) _ (
      refl,
      Chain-pieces_of (strings_start ptr h) (bytes_needed ptr h) (alias_texts h) _ (refl, refl),
    ),
  ),
)

-- The pieces of the addresses, and the pointers to them.
pub address_texts-all :
    (h : HostEnt)
    → 0 < stride_of h
    → address_texts h ≡ map (λ a. (stride_of h, take (stride_of h) a)) h.addr_list
address_texts-all h l = rw (lt→ltb 0 (stride_of h) l) refl

pub address_pointers-all :
    (h : HostEnt) (ps : List Piece)
    → 0 < stride_of h
    → 0 < length ps
    → address_pointers h ps ≡ offsets ps ++ none ∷ []
unfolding address_pointers
address_pointers-all h ps l k = rw (lt→ltb 0 (stride_of h) l) (rw (lt→ltb 0 (length ps) k) refl)

addresses_text-fit :
    (h : HostEnt) → 0 < stride_of h → All (λ (b : ℕ × List ℕ). length (b.1) ≤ b.0) (address_texts h)
addresses_text-fit h l =
    subst (All (λ (b : ℕ × List ℕ). length (b.1) ≤ b.0)) (sym (address_texts-all h l))
      (addresses-fit (stride_of h) h.addr_list)

pub length-address_pieces :
    (h : HostEnt) (u : ℕ)
    → 0 < stride_of h
    → length (pieces_of u (address_texts h)) ≡ length h.addr_list
length-address_pieces h u l =
    length-pieces_of u (address_texts h)
    ∙ ap length (address_texts-all h l)
    ∙ length-map (λ (a : List ℕ). (stride_of h, take (stride_of h) a)) h.addr_list

length-with_null : (ps : List Piece) → length (offsets ps ++ none ∷ []) ≡ suc (length ps)
length-with_null ps =
    let l = length-append (offsets ps) (none ∷ []) in omega (arith, l, length-offsets ps)

-- The array of addresses, with as many pointers as addresses and NULL.
length-address_pointers :
    (h : HostEnt) (u : ℕ)
    → 0 < length h.addr_list
    → 0 < stride_of h
    → length (address_pointers h (pieces_of u (address_texts h))) ≡ suc (length h.addr_list)
length-address_pointers h u k l =
    let n = length-address_pieces h u l in
    ap length (address_pointers-all h (pieces_of u (address_texts h)) l (omega (arith, n)))
    ∙ length-with_null (pieces_of u (address_texts h))
    ∙ ap suc n

length-alias_pointers :
    (u : ℕ) (ts : List (List ℕ))
    → length (offsets (pieces_of u (map string_text ts)) ++ none ∷ []) ≡ suc (length ts)
length-alias_pointers u ts =
    length-with_null (pieces_of u (map string_text ts))
    ∙ ap suc (length-pieces_of u (map string_text ts) ∙ length-map string_text ts)

-- Where an entry of the family AF_INET that has an address, at a positive distance to a second, and a
-- list of aliases is copied, the parts of the copy stand one behind the other within the buffer, and
-- nothing is written beyond its part: neither into another part nor behind the buffer.
pub dup_hostentry-apart :
    (ptr total : ℕ) (h : HostEnt) (c : HostCopied)
    → IsFull h
    → dup_hostentry ptr total h ≡ duplicated c
    → Chain 0 (parts c) (bytes_needed ptr h)
      × (bytes_needed ptr h < total)
      × FitsArray ptr c.address_array
      × All FitsPiece c.addresses_at
      × FitsArray ptr c.alias_array
      × All FitsPiece c.aliases_at
      × FitsPiece c.name_at
dup_hostentry-apart ptr total h c (i, k, l, (ts, f)) e =
    let (room, same) = copied-room ptr total h c i e in
    subst
      (λ (d : HostCopied).
        Chain 0 (parts d) (bytes_needed ptr h)
        × (bytes_needed ptr h < total)
        × FitsArray ptr d.address_array
        × All FitsPiece d.addresses_at
        × FitsArray ptr d.alias_array
        × All FitsPiece d.aliases_at
        × FitsPiece d.name_at)
      same
      (unfold host_copied in
        (
          copy_of-Chain ptr h,
          room,
          rw (length-address_pointers h (4 + ptr * suc (length h.addr_list)) k l) (omega arith),
          pieces_of-FitsPiece (4 + ptr * suc (length h.addr_list)) (address_texts h)
              (addresses_text-fit h l),
          rw f (rw (length-alias_pointers _ ts) (omega arith)),
          pieces_of-FitsPiece (strings_start ptr h) (alias_texts h)
              (strings-fit (alias_list h.h_aliases)),
          omega (arith, length-append h.host_name (0 ∷ [])),
        ))
