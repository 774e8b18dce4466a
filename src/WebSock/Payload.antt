-- ===== src/WebSock/Payload.antt =====
-- The payload of a frame, with a key or without.
use native.Mathlib.Nat.{mod-lt}
use event_loop.Prelude.{
  ◌==◌, if◌then◌else◌, length, take, drop, length-append, ℕ, zero, suc, ◌+◌, ◌-◌, ◌%◌, ◌<◌, bit_xor,
  ◌≡◌, refl, ap, ap₂, Bool, true, false, some, List, [], ◌∷◌, ◌++◌, arith,
}
use event_loop.Prelude.Bits.{bit_xor-twice}
use event_loop.Prelude.Int.{pos, ◌+ℤ◌}
use event_loop.WebSock.{byte_at, mask_bytes, Decoded, decode_payload}

take-all : (xs : List ℕ) → take (length xs) xs ≡ xs
take-all [] = refl
take-all (x ∷ xs) = ap (λ ys. x ∷ ys) (take-all xs)

pub take-length : (xs : List ℕ) (n : ℕ) → length xs ≡ n → take n xs ≡ xs
take-length xs n h = rw (← h) (take-all xs)

drop-append : (xs ys : List ℕ) → drop (length xs) (xs ++ ys) ≡ ys
drop-append [] ys = refl
drop-append (x ∷ xs) ys = drop-append xs ys

byte_at-append : (xs ys : List ℕ) (i : ℕ) → i < length xs → byte_at (xs ++ ys) i ≡ byte_at xs i
byte_at-append [] ys i h = absurd (omega arith)
byte_at-append (x ∷ xs) ys zero h = refl
byte_at-append (x ∷ xs) ys (suc i) h = byte_at-append xs ys i (omega arith)

drop-append_twice :
    (n : ℕ) (xs ys zs : List ℕ) → length ys ≡ n → drop (length xs + n) (xs ++ (ys ++ zs)) ≡ zs
drop-append_twice n [] ys zs h =
    let e : 0 + n ≡ length ys = omega (arith, h) in rw e (drop-append ys zs)
drop-append_twice n (x ∷ xs) ys zs h =
    let e : suc (length xs) + n ≡ suc (length xs + n) = omega arith in
    rw e (drop-append_twice n xs ys zs h)

module _ (mask_len : ℕ) (key : List ℕ) where
  pub length-mask_bytes :
      (i : ℕ) (msg : List ℕ) → length (mask_bytes mask_len key i msg) ≡ length msg
  unfolding mask_bytes
  length-mask_bytes i [] = refl
  length-mask_bytes i (b ∷ bs) = ap suc (length-mask_bytes (suc i) bs)

  -- To combine with the key twice changes nothing.
  mask_bytes-twice :
      (i : ℕ) (msg : List ℕ) → mask_bytes mask_len key i (mask_bytes mask_len key i msg) ≡ msg
  unfolding mask_bytes
  mask_bytes-twice i [] = refl
  mask_bytes-twice i (b ∷ bs) =
      ap₂ ◌∷◌ (bit_xor-twice b (byte_at key (i % mask_len))) (mask_bytes-twice (suc i) bs)

  -- The loop reads no more of the key than its length.
  mask_bytes-append :
      (rest : List ℕ) (i : ℕ) (msg : List ℕ)
      → length key ≡ mask_len
      → 0 < mask_len
      → mask_bytes mask_len (key ++ rest) i msg ≡ mask_bytes mask_len key i msg
  unfolding mask_bytes
  mask_bytes-append rest i [] fits some' = refl
  mask_bytes-append rest i (b ∷ bs) fits some' =
      ap₂ (λ k ys. bit_xor b k ∷ ys)
        (byte_at-append key rest (i % mask_len) (rw fits (mod-lt i some')))
        (mask_bytes-append rest (suc i) bs fits some')

-- The result for a frame with this message.
abbrev pub accepted : (first : ℕ) → (msg : List ℕ) → Decoded
accepted first msg = record {
  ret = pos (length msg);
  msg = msg;
  final = some (first == 0x88);
  ctrl = first % 16;
}

pub payload_fits :
    (mask_len : ℕ) (bytes : List ℕ) (masked : Bool) (n head_len : ℕ)
    → length bytes ≡ head_len + n
    → let body = take n (drop head_len bytes) in
      decode_payload mask_len bytes masked (pos n) head_len ≡ record {
        ret = pos n;
        msg =
            if masked then mask_bytes mask_len (drop (head_len - mask_len) bytes) 0 body else body;
        final = some (byte_at bytes 0 == 0x88);
        ctrl = byte_at bytes 0 % 16;
      }
unfolding decode_payload ◌+ℤ◌
payload_fits mask_len bytes masked n head_len h = ground arith

pub payload_plain :
    (mask_len first : ℕ) (head msg : List ℕ)
    → decode_payload mask_len (first ∷ (head ++ msg)) false (pos (length msg)) (suc (length head))
      ≡ accepted first msg
payload_plain mask_len first head msg =
    rw
      (
        payload_fits mask_len (first ∷ (head ++ msg)) false (length msg) (suc (length head))
            (omega (arith, length-append head msg)),
        drop-append head msg,
        take-all msg,
      )
      refl

pub payload_masked :
    (mask_len first : ℕ) (head key msg : List ℕ)
    → length key ≡ mask_len
    → 0 < mask_len
    → decode_payload mask_len
        (first ∷ (head ++ (key ++ mask_bytes mask_len key 0 msg)))
        true
        (pos (length msg))
        (suc (length head + mask_len))
      ≡ accepted first msg
payload_masked mask_len first head key msg fits some' =
    let body = mask_bytes mask_len key 0 msg in
    let same = length-mask_bytes mask_len key 0 msg in
    let start : suc (length head + mask_len) - mask_len ≡ suc (length head) = omega arith in
    let behind : drop (length head + mask_len) (head ++ (key ++ body)) ≡ body =
      drop-append_twice mask_len head key body fits in
    let whole : take (length msg) body ≡ body = rw (← same) (take-all body) in
    rw
      (
        payload_fits mask_len (first ∷ (head ++ (key ++ body))) true (length msg)
            (suc (length head + mask_len))
            (omega (arith, length-append head (key ++ body), length-append key body, same, fits)),
        start,
        behind,
        whole,
        drop-append head (key ++ body),
        mask_bytes-append mask_len key body 0 body fits some',
        mask_bytes-twice mask_len key 0 msg,
      )
      refl
