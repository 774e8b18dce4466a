-- ===== src/WebSock/Header.antt =====
-- The header of a frame is read as it was written.
use event_loop.Prelude.{
  ltb, ◌==◌, if◌then◌else◌, ltb-ge, ==-lt, length, ℕ, suc, ◌+◌, ◌*◌, ◌/◌, ◌%◌, ◌^◌, ◌≤◌, ◌<◌, ◌≡◌,
  refl, ◌∙◌, ◌⊎◌, inl, inr, Bool, true, false, not, List, [], ◌∷◌, ◌++◌, arith,
}
use event_loop.Prelude.Int.{pos}
use event_loop.WebSock.{byte_at, length_bytes, to_int, decode_payload, is_frame, decode_websock_msg}

-- The header for a short message, by its second byte.
decode_short :
    (mask_len first second : ℕ) (rest : List ℕ) (masked : Bool)
    → is_frame first ≡ true
    → (second / 128 % 2 == 0) ≡ not masked
    → (second % 128 == 126) ≡ false
    → (second % 128 == 127) ≡ false
    → decode_websock_msg mask_len (first ∷ second ∷ rest)
      ≡ decode_payload mask_len
          (first ∷ second ∷ rest)
          masked
          (pos (second % 128))
          (2 + (if masked then mask_len else 0))
unfolding decode_websock_msg
decode_short mask_len first second rest false frame flag a b = ground arith
decode_short mask_len first second rest true frame flag a b = ground arith

decode_medium :
    (mask_len first second b2 b3 : ℕ) (rest : List ℕ) (masked : Bool)
    → is_frame first ≡ true
    → (second / 128 % 2 == 0) ≡ not masked
    → second % 128 ≡ 126
    → 4 ≤ length rest
    → decode_websock_msg mask_len (first ∷ second ∷ b2 ∷ b3 ∷ rest)
      ≡ decode_payload mask_len
          (first ∷ second ∷ b2 ∷ b3 ∷ rest)
          masked
          (pos (b2 * 2 ^ 8 + b3))
          (4 + (if masked then mask_len else 0))
unfolding decode_websock_msg
decode_medium mask_len first second b2 b3 rest false frame flag a enough = ground arith
decode_medium mask_len first second b2 b3 rest true frame flag a enough = ground arith

decode_long :
    (mask_len : ℕ) (bytes : List ℕ) (masked : Bool)
    → ltb (length bytes) 2 ≡ false
    → is_frame (byte_at bytes 0) ≡ true
    → (byte_at bytes 1 / 128 % 2 == 0) ≡ not masked
    → byte_at bytes 1 % 128 ≡ 127
    → ltb (length bytes) (if masked then 14 else 10) ≡ false
    → decode_websock_msg mask_len bytes
      ≡ decode_payload mask_len bytes masked
          (to_int (
            byte_at bytes 6 * 2 ^ 24
            + byte_at bytes 7 * 2 ^ 16
            + byte_at bytes 8 * 2 ^ 8
            + byte_at bytes 9))
          (10 + (if masked then mask_len else 0))
unfolding decode_websock_msg
decode_long mask_len bytes false two frame flag a enough = rw (two, frame, flag, a, enough) refl
decode_long mask_len bytes true two frame flag a enough = rw (two, frame, flag, a, enough) refl

-- The length that the four last bytes give.
long_length :
    (n : ℕ)
    → n < 2 ^ 31
    → to_int
        (n / 2 ^ 24 % 256 * 2 ^ 24 + n / 2 ^ 16 % 256 * 2 ^ 16 + n / 2 ^ 8 % 256 * 2 ^ 8 + n % 256)
      ≡ pos n
unfolding to_int
long_length n h = ground arith

medium_length : (n : ℕ) → n ≤ 65535 → n / 2 ^ 8 % 256 * 2 ^ 8 + n % 256 ≡ n
medium_length n h = omega arith

-- The three forms of the length's bytes.
length_bytes-cases :
    (flag n : ℕ)
    → ((65535 < n)
        × (length_bytes flag n
            ≡ (127 + flag)
              ∷ (n / 2 ^ 56 % 128)
              ∷ (n / 2 ^ 48 % 256)
              ∷ (n / 2 ^ 40 % 256)
              ∷ (n / 2 ^ 32 % 256)
              ∷ (n / 2 ^ 24 % 256)
              ∷ (n / 2 ^ 16 % 256)
              ∷ (n / 2 ^ 8 % 256)
              ∷ (n % 256)
              ∷ []))
      ⊎ ((125 < n)
          × (n ≤ 65535)
          × (length_bytes flag n ≡ (126 + flag) ∷ (n / 2 ^ 8 % 256) ∷ (n % 256) ∷ []))
      ⊎ ((n ≤ 125) × (length_bytes flag n ≡ (n % 128 + flag) ∷ []))
unfolding length_bytes
length_bytes-cases flag n = ground arith

-- What a key adds to the second byte.
abbrev pub flag_of : Bool → ℕ
flag_of masked = if masked then 0x80 else 0

-- The header is read as it was written: the rest depends on the payload only.
pub decode_header :
    (mask_len first n : ℕ) (masked : Bool) (tail : List ℕ)
    → n < 2 ^ 31
    → is_frame first ≡ true
    → n ≤ length tail
    → let head = length_bytes (flag_of masked) n in
      decode_websock_msg mask_len (first ∷ (head ++ tail))
      ≡ decode_payload mask_len
          (first ∷ (head ++ tail))
          masked
          (pos n)
          (suc (length head) + (if masked then mask_len else 0))
decode_header mask_len first n false tail small frame enough = elim (length_bytes-cases 0 n) [
  | inl long ↦ rw long.1 (
      decode_long mask_len _ false (ltb-ge _ 2 (omega arith)) frame refl refl
        (ltb-ge _ 10 (omega (arith, long.0)))
      ∙ rw (long_length n small) refl)
  | inr (inl medium) ↦ rw medium.2 (
      decode_medium mask_len first 126 _ _ tail false frame refl refl (omega (arith, medium.0))
      ∙ rw (medium_length n medium.1) refl)
  | inr (inr short) ↦
      let code : (n % 128 + 0) % 128 ≡ n = omega (arith, short.0) in
      let bit : (n % 128 + 0) / 128 % 2 ≡ 0 = omega (arith, short.0) in
      rw short.1 (
        decode_short mask_len first _ tail false frame (rw bit refl)
          (rw code (==-lt n 126 (omega (arith, short.0))))
          (rw code (==-lt n 127 (omega (arith, short.0))))
        ∙ rw code refl)
]
decode_header mask_len first n true tail small frame enough = elim (length_bytes-cases 128 n) [
  | inl long ↦ rw long.1 (
      decode_long mask_len _ true (ltb-ge _ 2 (omega arith)) frame refl refl
        (ltb-ge _ 14 (omega (arith, long.0)))
      ∙ rw (long_length n small) refl)
  | inr (inl medium) ↦ rw medium.2 (
      decode_medium mask_len first 254 _ _ tail true frame refl refl (omega (arith, medium.0))
      ∙ rw (medium_length n medium.1) refl)
  | inr (inr short) ↦
      let code : (n % 128 + 128) % 128 ≡ n = omega (arith, short.0) in
      let bit : (n % 128 + 128) / 128 % 2 ≡ 1 = omega (arith, short.0) in
      rw short.1 (
        decode_short mask_len first _ tail true frame (rw bit refl)
          (rw code (==-lt n 126 (omega (arith, short.0))))
          (rw code (==-lt n 127 (omega (arith, short.0))))
        ∙ rw code refl)
]
