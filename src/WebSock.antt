-- ===== src/WebSock.antt =====
-- The frames of WebSocket messages: etc/ws_encode.c and etc/ws_decode.c, as compiled with
-- USE_WEBSOCK_LONG_DATA. A byte is a number. `mask_len` is WEBSOCK_MSKLEN, which a header outside of
-- the repository defines; `main` of both programs is input and output.
pub mod Payload
pub mod Header
pub mod RoundTrip
use event_loop.Prelude.{
  ltb, ◌==◌, if◌then◌else◌, length, get_elem?, take, drop, ℕ, suc, ◌+◌, ◌-◌, ◌*◌, ◌/◌, ◌%◌, ◌^◌,
  bit_xor, Bool, not, ◌||◌, Option, none, some, List, [], ◌∷◌, ◌++◌,
}
use event_loop.Prelude.Int.{ℤ, pos, negsuc, pos_part, sub_ℕ, ◌+ℤ◌, ◌-ℤ◌, eqb_ℤ}

-- The byte at an index that the callers keep in range; 0 stands for what would be read beyond.
abbrev pub byte_at : List ℕ → ℕ → ℕ
byte_at bytes i = elim (get_elem? bytes i) [ none ↦ 0 | some b ↦ b ]

-- The loops that combine the bytes from index `i` on with the key.
unfoldable pub mask_bytes : (mask_len : ℕ) → (key : List ℕ) → (i : ℕ) → List ℕ → List ℕ
mask_bytes mask_len key i [] = []
mask_bytes mask_len key i (b ∷ bs) =
    bit_xor b (byte_at key (i % mask_len)) ∷ mask_bytes mask_len key (suc i) bs

-- The first byte.
unfoldable pub first_byte : (final : ℕ) → ℕ
first_byte final = if final == 0 then 0x81 else 0x80 + final % 16

-- The bytes that hold the length, `webSockMsg[1]` and those behind it; `flag` is the 0x80 that a
-- key adds to the first.
unfoldable pub length_bytes : (flag n : ℕ) → List ℕ
length_bytes flag n =
    if ltb 65535 n
    then (127 + flag)
      ∷ (n / 2 ^ 56 % 128)
      ∷ (n / 2 ^ 48 % 256)
      ∷ (n / 2 ^ 40 % 256)
      ∷ (n / 2 ^ 32 % 256)
      ∷ (n / 2 ^ 24 % 256)
      ∷ (n / 2 ^ 16 % 256)
      ∷ (n / 2 ^ 8 % 256)
      ∷ (n % 256)
      ∷ []
    else if ltb 125 n
    then (126 + flag) ∷ (n / 2 ^ 8 % 256) ∷ (n % 256) ∷ []
    else (n % 128 + flag) ∷ []

-- `encodeWebSockMsg`: the bytes it writes, whose number it returns. The number is an `int`: this is the code
-- as long as there are less than 2 ^ 31 of them.
unfoldable pub encode_websock_msg :
    (mask_len : ℕ) → (msg : List ℕ) → (final : ℕ) → (key : Option (List ℕ)) → List ℕ
unfolding mask_bytes first_byte length_bytes
encode_websock_msg mask_len msg final none = first_byte final ∷ (length_bytes 0 (length msg) ++ msg)
encode_websock_msg mask_len msg final (some key) =
    first_byte final
    ∷ (length_bytes 0x80 (length msg) ++ (take mask_len key ++ mask_bytes mask_len key 0 msg))

-- What `decodeWebSockMsg` returns and writes: the message, `*p_bFinal` where it is written, and
-- `*p_nCtrl`.
pub record Decoded : Type 0 where
  pub ret : ℤ
  pub msg : List ℕ
  pub final : Option Bool
  pub ctrl : ℕ

-- `decode_error`: the bytes are copied as they are.
unfoldable pub decode_error : (bytes : List ℕ) → ℤ → Decoded
decode_error bytes ret = record {
  ret = ret;
  msg = bytes;
  final = none;
  ctrl = byte_at bytes 0 % 16;
}

-- The conversion of an `unsigned int` to an `int`.
unfoldable pub to_int : ℕ → ℤ
to_int n = if ltb n (2 ^ 31) then pos n else sub_ℕ n (2 ^ 32)

-- The test of the length and the payload, with the header's length. The sums are those of `int` as long as
-- `payload` + `head_len` is below 2 ^ 31; behind that the C code overflows, and this is not the code.
unfoldable pub decode_payload :
    (mask_len : ℕ) → (bytes : List ℕ) → (masked : Bool) → (payload : ℤ) → (head_len : ℕ) → Decoded
unfolding mask_bytes decode_error
decode_payload mask_len bytes masked payload head_len =
    let all_of = pos head_len +ℤ payload in
    if eqb_ℤ all_of (pos (length bytes))
    then (let body = take (pos_part payload) (drop head_len bytes) in
        record {
          ret = payload;
          msg =
              if masked
              then mask_bytes mask_len (drop (head_len - mask_len) bytes) 0 body
              else body;
          final = some (byte_at bytes 0 == 0x88);
          ctrl = byte_at bytes 0 % 16;
        })
    else decode_error bytes (pos (length bytes) -ℤ all_of)

-- The first bytes that are taken for a frame's.
abbrev pub is_frame : ℕ → Bool
is_frame b = b == 0x81 || (b == 0x88 || (b == 0x8a || b == 0x89))

-- `decodeWebSockMsg`; `netLen` is the number of the bytes, an `int`: below 2 ^ 31.
unfoldable pub decode_websock_msg : (mask_len : ℕ) → (bytes : List ℕ) → Decoded
unfolding decode_payload to_int
decode_websock_msg mask_len bytes =
    let net = length bytes in
    let masked = not (byte_at bytes 1 / 128 % 2 == 0) in
    let code = byte_at bytes 1 % 128 in
    let mask = if masked then mask_len else 0 in
    if ltb net 2
    then decode_error bytes (sub_ℕ net 2)
    else if not (is_frame (byte_at bytes 0))
    then decode_error bytes (negsuc 9998)
    else if code == 126
    then (let least = if masked then 8 else 4 in
        if ltb net least
        then decode_error bytes (sub_ℕ net least)
        else decode_payload mask_len bytes masked (pos (byte_at bytes 2 * 2 ^ 8 + byte_at bytes 3))
            (4 + mask))
    else if code == 127
    then (let least = if masked then 14 else 10 in
        if ltb net least
        then decode_error bytes (sub_ℕ net least)
        else decode_payload mask_len bytes masked
            (to_int (
              byte_at bytes 6 * 2 ^ 24
              + byte_at bytes 7 * 2 ^ 16
              + byte_at bytes 8 * 2 ^ 8
              + byte_at bytes 9))
            (10 + mask))
    else decode_payload mask_len bytes masked (pos code) (2 + mask)
