-- ===== src/Protocol/Tests.antt =====
-- doc/gateway-protocol/src/lib.rs on concrete packets.
use ws_gateway.Common.{ℕ, ◌≡◌, refl, arith, [], ◌∷◌, ok, err, length, ◌==◌, if◌then◌else◌, ◌⊎◌}
use ws_gateway.Protocol.PacketType.{ai_event}
use ws_gateway.Protocol.TargetType.{unicast}
use ws_gateway.Protocol.Fields.{Bytes}
use ws_gateway.Protocol.Header.{
  DecodeError, IsTyped, PacketHeader, length_mismatch, non_ascii_room_id, new, room_id_str,
  user_id_str, encode, decode, too_short, unsupported_version,
}
use ws_gateway.Protocol.Header.RoundTrip.{IsHeader, encode-decode, decode-encode}
use ws_gateway.Protocol.Header.New.{new-decode, new-embedded_nul}
use ws_gateway.Protocol.Header.Errors.{IsFault, decode_cases}
use ws_gateway.Protocol.Header.{unknown_packet_type, too_short}
use ws_gateway.Protocol.Header.Display.{codes, decode_error_text, decode_error_text-injective}
use ws_gateway.Decimal.{decimal, hex}
use ws_gateway.Fixtures.{
  hello_packet-IsBytes, decode-hello, room_name, user_name, hello, hello_payload, hello_packet,
}

decode_rejects :
    (decode (2 ∷ 2 ∷ []) ≡ err too_short)
    × (decode (3 ∷ hello_packet) ≡ err (unsupported_version 3))
unfolding decode
decode_rejects = (refl, refl)

encode-decode_example :
    IsHeader hello × (length hello_payload ≡ 2) × (encode hello hello_payload ≡ hello_packet)
encode-decode_example =
    encode-decode hello_packet hello hello_payload hello_packet-IsBytes decode-hello

decode-encode_example : decode (encode hello (1 ∷ [])) ≡ (
    if length (let p : Bytes = 1 ∷ [] in p) == 2
    then ok (hello, 1 ∷ [])
    else err (length_mismatch 2 1))
decode-encode_example = decode-encode hello (1 ∷ []) encode-decode_example.0

new-decode_example :
    (h : PacketHeader) × (new ai_event unicast room_name user_name 7 2 ≡ ok h)
    × (decode (encode h hello_payload) ≡ ok (h, hello_payload))
    × (room_id_str h ≡ room_name)
    × (user_id_str h ≡ user_name)
new-decode_example =
    new-decode ai_event unicast room_name user_name 7 hello_payload (omega arith) (omega arith)
      (omega arith) (omega arith) (omega arith) (omega arith)

new-embedded_nul_example :
    (h : PacketHeader) × (new ai_event unicast (65 ∷ 0 ∷ 66 ∷ []) user_name 7 2 ≡ ok h)
    × (decode (encode h hello_payload) ≡ err non_ascii_room_id)
new-embedded_nul_example =
    new-embedded_nul ai_event unicast (65 ∷ []) [] user_name 66 7 hello_payload (omega arith)
      (omega arith) (refl, omega arith) (refl, omega arith) (omega arith) (omega arith)

abbrev payload_len : ℕ
payload_len = 65_536

decode_cases_example :
    ((r : PacketHeader × Bytes) × (decode (3 ∷ hello_packet) ≡ ok r)
      × ((e : DecodeError) → ¬ IsFault (3 ∷ hello_packet) e))
    ⊎ ((e : DecodeError) × (decode (3 ∷ hello_packet) ≡ err e) × IsFault (3 ∷ hello_packet) e)
decode_cases_example = decode_cases (3 ∷ hello_packet)

hello-IsTyped : IsTyped hello
hello-IsTyped = encode-decode_example.0.typed

decode_error_text-injective_example : unknown_packet_type 9 ≡ unknown_packet_type 9
decode_error_text-injective_example =
    decode_error_text-injective (unknown_packet_type 9) (unknown_packet_type 9) (omega arith)
      (omega arith) refl

-- "packet shorter than 24-byte header", "unknown packet type: 0xff"
too_short_text : decode_error_text too_short ≡ codes "packet shorter than 24-byte header"
unfolding decode_error_text decimal
too_short_text = refl

unknown_text : decode_error_text (unknown_packet_type 255) ≡ codes "unknown packet type: 0xff"
unfolding decode_error_text hex
unknown_text = refl
