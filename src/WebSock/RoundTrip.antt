-- ===== src/WebSock/RoundTrip.antt =====
-- What is encoded is decoded, and what the decoder makes of bytes behind a frame.
use event_loop.Prelude.{
  length, take, length-append, ℕ, suc, ◌+◌, ◌^◌, ◌<◌, ◌≡◌, ap, ◌∙◌, Bool, true, false, Option, none,
  some, List, ◌∷◌, ◌++◌, append_assoc, arith,
}
use event_loop.Prelude.Int.{pos, ◌+ℤ◌, ◌-ℤ◌}
use event_loop.WebSock.{
  mask_bytes, first_byte, length_bytes, encode_websock_msg, Decoded, decode_payload, is_frame,
  decode_websock_msg,
}
use event_loop.WebSock.Header.{decode_header}
use event_loop.WebSock.Payload.{
  take-length, length-mask_bytes, accepted, payload_plain, payload_masked,
}

-- A key, if there is one, has `mask_len` bytes.
abbrev pub Fits : ℕ → Option (List ℕ) → Type 0
Fits mask_len none = Unit
Fits mask_len (some key) = (length key ≡ mask_len) × (0 < mask_len)

-- A message, with a key of `mask_len` bytes, at least one, or without, is decoded from its encoding, with
-- the length as the result, provided that the whole encoding has less than 2 ^ 31 bytes, so that all the
-- lengths fit an `int`, and that the first byte is one that the decoder takes.
pub roundtrip :
    (mask_len final : ℕ) (msg : List ℕ) (key : Option (List ℕ))
    → length (encode_websock_msg mask_len msg final key) < 2 ^ 31
    → is_frame (first_byte final) ≡ true
    → Fits mask_len key
    → decode_websock_msg mask_len (encode_websock_msg mask_len msg final key)
      ≡ accepted (first_byte final) msg
unfolding encode_websock_msg
roundtrip mask_len final msg none whole frame fits =
    let small : length msg < 2 ^ 31 =
      omega (arith, whole, length-append (length_bytes 0 (length msg)) msg) in
    decode_header mask_len (first_byte final) (length msg) false msg small frame (omega arith)
    ∙ (let l = length (length_bytes 0 (length msg)) in
        let e : suc l + 0 ≡ suc l = omega arith in
        rw e (payload_plain mask_len (first_byte final) (length_bytes 0 (length msg)) msg))
roundtrip mask_len final msg (some key) whole frame fits =
    let tail = key ++ mask_bytes mask_len key 0 msg in
    let small : length msg < 2 ^ 31 = omega (
      arith,
      whole,
      ap length (take-length key mask_len fits.0),
      length-append (length_bytes 0x80 (length msg))
          (take mask_len key ++ mask_bytes mask_len key 0 msg),
      length-append (take mask_len key) (mask_bytes mask_len key 0 msg),
      length-mask_bytes mask_len key 0 msg,
    ) in
    rw (take-length key mask_len fits.0) (
      decode_header mask_len (first_byte final) (length msg) true tail small frame (
        omega (
          arith,
          length-append key (mask_bytes mask_len key 0 msg),
          length-mask_bytes mask_len key 0 msg,
        ))
      ∙ (let l = length (length_bytes 0x80 (length msg)) in
          let e : suc l + mask_len ≡ suc (l + mask_len) = omega arith in
          rw e (
            payload_masked mask_len (first_byte final) (length_bytes 0x80 (length msg)) key msg
              fits.0 fits.1)))

payload_excess :
    (mask_len : ℕ) (bytes : List ℕ) (masked : Bool) (n head_len extra : ℕ)
    → length bytes ≡ head_len + n + extra
    → 0 < extra
    → (decode_payload mask_len bytes masked (pos n) head_len).ret ≡ pos extra
unfolding decode_payload ◌+ℤ◌ ◌-ℤ◌
payload_excess mask_len bytes masked n head_len extra h some' = ground arith

-- Bytes behind a frame without a key and with a first byte that the decoder takes, less than 2 ^ 31 bytes
-- with the frame, make the decoder return their number, which is positive like the length of a message.
pub decode-excess :
    (mask_len final : ℕ) (msg extra : List ℕ)
    → length (encode_websock_msg mask_len msg final none ++ extra) < 2 ^ 31
    → is_frame (first_byte final) ≡ true
    → 0 < length extra
    → (decode_websock_msg mask_len (encode_websock_msg mask_len msg final none ++ extra)).ret
      ≡ pos (length extra)
unfolding encode_websock_msg
decode-excess mask_len final msg extra whole frame some' =
    let head = length_bytes 0 (length msg) in
    let first = first_byte final in
    let small : length msg < 2 ^ 31 =
      omega (arith, whole, length-append (first ∷ (head ++ msg)) extra, length-append head msg) in
    rw (append_assoc head msg extra) (
      ap (λ (d : Decoded). d.ret)
        (decode_header mask_len first (length msg) false (msg ++ extra) small frame
          (omega (arith, length-append msg extra)))
      ∙ payload_excess mask_len (first ∷ (head ++ (msg ++ extra))) false (length msg)
          (suc (length head) + 0) (length extra)
          (omega (arith, length-append head (msg ++ extra), length-append msg extra)) some')
