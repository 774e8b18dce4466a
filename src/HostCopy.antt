-- ===== src/HostCopy.antt =====
-- The copy of a host's entry: dup_hostentry of eloop/dns.c, which puts everything that an entry points to
-- into one buffer. A pointer into the buffer is an offset, a string is its bytes without the 0 behind
-- them. The entry, its name and its list of addresses are not NULL.
pub mod Size
pub mod Layout
use event_loop.LogFile.Lines.{size}
use event_loop.Prelude.{
  ltb, leb, if◌then◌else◌, length, take, ℕ, suc, ◌+◌, ◌*◌, Bool, true, false, not, Option, none,
  some, List, [], ◌∷◌, ◌++◌, map,
}

-- `struct hostent`: `h_stride` is the distance from the first address to the second, 0 if it is not
-- positive. An address is what stands at its pointer.
pub record HostEnt : Type 0 where
  pub host_name : List ℕ
  pub h_aliases : Option (List (List ℕ))
  pub is_inet : Bool
  pub h_stride : ℕ
  pub addr_list : List (List ℕ)

-- A part of the buffer: where it starts, the bytes that are set aside for it, and what is written.
pub record Piece : Type 0 where
  pub offset : ℕ
  pub size : ℕ
  pub bytes : List ℕ

-- A part for pointers: those that are written, `none` for NULL.
pub record PointerArray : Type 0 where
  pub base : ℕ
  pub array_size : ℕ
  pub pointers : List (Option ℕ)

-- What the copy consists of, behind the four bytes for one address at its start.
pub record HostCopied : Type 0 where
  pub address_array : PointerArray
  pub addresses_at : List Piece
  pub alias_array : PointerArray
  pub aliases_at : List Piece
  pub name_at : Piece

pub data DupResult : Type 0 where
  out_of_range : DupResult
  wrong_family : DupResult
  duplicated : HostCopied → DupResult

-- `a.rdlength`
abbrev pub stride_of : HostEnt → ℕ
stride_of h = if ltb 1 (length h.addr_list) then h.h_stride else 4

-- `a.add_count` and `nAlias`, which count the NULL at the end.
abbrev pub alias_count : Option (List (List ℕ)) → ℕ
alias_count none = 0
alias_count (some ts) = suc (length ts)

abbrev pub alias_list : Option (List (List ℕ)) → List (List ℕ)
alias_list none = []
alias_list (some ts) = ts

-- Texts one behind the other, each with the bytes set aside for it, as long as the buffer of `total`
-- bytes has more than them.
unfoldable pub place_all : (total used : ℕ) → List (ℕ × List ℕ) → Option (List Piece × ℕ)
place_all total used [] = some ([], used)
place_all total used ((n, b) ∷ bs) = elim (leb total (used + n)) [
  | true ↦ none
  | false ↦ elim (place_all total (used + n) bs) [
    | none ↦ none
    | some (ps, end) ↦ some (record { offset = used; size = n; bytes = b } ∷ ps, end)
  ]
]

-- The loops over the addresses and over the aliases.
abbrev pub address_texts : HostEnt → List (ℕ × List ℕ)
address_texts h =
    if ltb 0 (stride_of h) then map (λ a. (stride_of h, take (stride_of h) a)) h.addr_list else []

abbrev pub string_text : List ℕ → ℕ × List ℕ
string_text s = (length s + 1, s ++ 0 ∷ [])

abbrev pub alias_texts : HostEnt → List (ℕ × List ℕ)
alias_texts h = map string_text (alias_list h.h_aliases)

abbrev pub offsets : List Piece → List (Option ℕ)
offsets ps = map (λ p. some p.offset) ps

-- What is written to the array of addresses: its first two entries are set before the loop.
unfoldable pub address_pointers : HostEnt → List Piece → List (Option ℕ)
address_pointers h ps =
    if ltb 0 (stride_of h)
    then (if ltb 0 (length ps) then offsets ps ++ none ∷ [] else none ∷ none ∷ [])
    else some 0 ∷ none ∷ []

-- What `pheOut` points to: for each part where in the buffer it is written, and the bytes. The buffer itself
-- is not a list of bytes here, so where the parts stand to each other is a question of its own
-- (HostCopy/Layout.antt). The loop that sets the pointers to the addresses is given by its result, the
-- offsets and a NULL.
unfoldable pub host_copied :
    (ptr : ℕ)
    → HostEnt
    → (addresses : List Piece) → (alias_base : ℕ) → (strings : List Piece) → (name_base : ℕ)
    → HostCopied
unfolding address_pointers
host_copied ptr h addresses alias_base strings name_base = record {
  address_array = record {
    base = 4;
    array_size = ptr * suc (length h.addr_list);
    pointers = address_pointers h addresses;
  };
  addresses_at = addresses;
  alias_array = record {
    base = alias_base;
    array_size = ptr * alias_count h.h_aliases;
    pointers = offsets strings ++ none ∷ [];
  };
  aliases_at = strings;
  name_at = record {
    offset = name_base;
    size = length h.host_name + 1;
    bytes = h.host_name ++ 0 ∷ [];
  };
}

-- dup_hostentry, with a buffer of `total` bytes and pointers of `ptr` bytes.
unfoldable pub dup_hostentry : (ptr total : ℕ) → HostEnt → DupResult
unfolding place_all host_copied
dup_hostentry ptr total h =
    if leb total 0
    then out_of_range
    else if not h.is_inet
    then wrong_family
    else (let addresses_base = 4 + ptr * suc (length h.addr_list) in
        if leb total addresses_base
        then out_of_range
        else elim (place_all total addresses_base (address_texts h)) [
          | none ↦ out_of_range
          | some (addresses, alias_base) ↦
              let strings_base = alias_base + ptr * alias_count h.h_aliases in
              if leb total strings_base
              then out_of_range
              else elim (place_all total strings_base (alias_texts h)) [
                | none ↦ out_of_range
                | some (strings, name_base) ↦
                    if leb total (name_base + (length h.host_name + 1))
                    then out_of_range
                    else duplicated (host_copied ptr h addresses alias_base strings name_base)
              ]
        ])
