-- ===== src/Tests/Frames.antt =====
-- WebSocket frames.
use event_loop.Prelude.{ℕ, ◌≡◌, refl, none, some, List, [], ◌∷◌, ◌++◌, arith}
use event_loop.Prelude.Int.{pos, negsuc, ◌+ℤ◌, ◌-ℤ◌}
use event_loop.WebSock.{first_byte, encode_websock_msg, decode_websock_msg}
use event_loop.WebSock.Payload.{accepted}
use event_loop.WebSock.RoundTrip.{roundtrip, decode-excess}

abbrev hello : List ℕ
hello = 104 ∷ 101 ∷ 108 ∷ 108 ∷ 111 ∷ []

abbrev test_key : List ℕ
test_key = 1 ∷ 2 ∷ 4 ∷ 200 ∷ []

-- The message "hello" with a key.
encode_hello :
    encode_websock_msg 4 hello 0 (some test_key)
    ≡ 0x81 ∷ 0x85 ∷ 1 ∷ 2 ∷ 4 ∷ 200 ∷ 105 ∷ 103 ∷ 104 ∷ 164 ∷ 110 ∷ []
unfolding encode_websock_msg
encode_hello = refl

-- A frame that is not complete asks for the bytes that are missing.
decode_part : (decode_websock_msg 4 (0x81 ∷ 0x85 ∷ 1 ∷ 2 ∷ [])).ret ≡ negsuc 6
unfolding decode_websock_msg ◌+ℤ◌ ◌-ℤ◌
decode_part = refl

roundtrip_example :
    decode_websock_msg 4 (encode_websock_msg 4 hello 9 (some test_key)) ≡ accepted 0x89 hello
unfolding first_byte encode_websock_msg
roundtrip_example = roundtrip 4 9 hello (some test_key) (omega arith) refl (refl, omega arith)

decode-excess_example :
    (decode_websock_msg 4 (encode_websock_msg 4 hello 0 none ++ (7 ∷ 8 ∷ []))).ret ≡ pos 2
unfolding first_byte encode_websock_msg
decode-excess_example = decode-excess 4 0 hello (7 ∷ 8 ∷ []) (omega arith) refl (omega arith)
