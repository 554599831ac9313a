-- ===== src/Protocol/Header/Errors.antt =====
-- doc/gateway-protocol/src/lib.rs: what the errors of `decode` say of the buffer, and the size of what
-- `encode` writes.
use ws_gateway.Common.{
  ◌∙◌, ℕ, ◌+◌, ◌<◌, ◌≡◌, ◌≢◌, ◌⊎◌, refl, inl, inr, false, none, arith, length, get_or, slice,
  Result, ok, err,
}
use ws_gateway.Protocol.PacketType
use ws_gateway.Protocol.PacketType.{PacketType}
use ws_gateway.Protocol.TargetType
use ws_gateway.Protocol.TargetType.{TargetType}
use ws_gateway.Protocol.Fields.{Bytes, is_valid_ascii_field}
use ws_gateway.Protocol.Header.{
  PacketHeader, DecodeError, too_short, unsupported_version, non_zero_reserved, unknown_packet_type,
  unknown_target_type, non_ascii_room_id, non_ascii_user_id, length_mismatch, header_len,
  protocol_version, decode, u16_from_be_bytes,
}

-- What is wrong with a buffer for which an error is given.
abbrev pub IsFault : Bytes → DecodeError → Type 0
IsFault buf too_short = length buf < header_len
IsFault buf (unsupported_version v) = (get_or buf 0 0 ≡ v) × (v ≢ protocol_version)
IsFault buf (non_zero_reserved v) = (get_or buf 3 0 ≡ v) × (v ≢ 0)
IsFault buf (unknown_packet_type v) =
    (get_or buf 1 0 ≡ v) × ((t : PacketType) → PacketType.as_u8 t ≢ v)
IsFault buf (unknown_target_type v) =
    (get_or buf 2 0 ≡ v) × ((t : TargetType) → TargetType.as_u8 t ≢ v)
IsFault buf non_ascii_room_id = is_valid_ascii_field (slice 4 10 buf) ≡ false
IsFault buf non_ascii_user_id = is_valid_ascii_field (slice 10 18 buf) ≡ false
IsFault buf (length_mismatch declared actual) =
    (u16_from_be_bytes (slice 22 24 buf) ≡ declared)
    × (length buf ≡ header_len + actual)
    × (declared ≢ actual)

-- An error that `decode` gives is true of the buffer, and names the value at fault.
pub decode-IsFault : (buf : Bytes) (e : DecodeError) → decode buf ≡ err e → IsFault buf e
unfolding decode
decode-IsFault buf too_short h = ground arith
decode-IsFault buf (unsupported_version v) h = ground arith
decode-IsFault buf (non_zero_reserved v) h = ground arith
decode-IsFault buf (unknown_packet_type v) h =
    (ground arith, λ t e. ground (arith, PacketType.from_u8-as_u8 (get_or buf 1 0) t))
decode-IsFault buf (unknown_target_type v) h =
    (ground arith, λ t e. ground (arith, TargetType.from_u8-as_u8 (get_or buf 2 0) t))
decode-IsFault buf non_ascii_room_id h = ground arith
decode-IsFault buf non_ascii_user_id h = ground arith
decode-IsFault buf (length_mismatch declared actual) h = ground arith

no_packet_type : (v : ℕ) → ((t : PacketType) → PacketType.as_u8 t ≢ v) → PacketType.from_u8 v ≡ none
unfolding PacketType.from_u8 PacketType.as_u8
no_packet_type v f = ground (
  arith,
  f PacketType.raw_motion,
  f PacketType.ai_event,
  f PacketType.system_cmd,
  f PacketType.heartbeat,
)

no_target_type : (v : ℕ) → ((t : TargetType) → TargetType.as_u8 t ≢ v) → TargetType.from_u8 v ≡ none
unfolding TargetType.from_u8 TargetType.as_u8
no_target_type v f = ground (arith, f TargetType.broadcast, f TargetType.unicast)

-- A buffer that `decode` accepts has none of the faults.
decode-ok-IsFault :
    (buf : Bytes) (r : PacketHeader × Bytes) (e : DecodeError) → decode buf ≡ ok r → ¬ IsFault buf e
unfolding decode
decode-ok-IsFault buf r too_short h f = ground arith
decode-ok-IsFault buf r (unsupported_version v) h f = ground arith
decode-ok-IsFault buf r (non_zero_reserved v) h f = ground arith
decode-ok-IsFault buf r (unknown_packet_type v) h (q, f) =
    ground (arith, no_packet_type (get_or buf 1 0) (λ t e. f t (e ∙ q)))
decode-ok-IsFault buf r (unknown_target_type v) h (q, f) =
    ground (arith, no_target_type (get_or buf 2 0) (λ t e. f t (e ∙ q)))
decode-ok-IsFault buf r non_ascii_room_id h f = ground arith
decode-ok-IsFault buf r non_ascii_user_id h f = ground arith
decode-ok-IsFault buf r (length_mismatch declared actual) h f = ground arith

-- Of every buffer, either `decode` accepts it and it has none of the faults that the errors name, or
-- `decode` gives an error, and the buffer has the fault that this error names, with its values.
pub decode_cases :
    (buf : Bytes)
    → ((r : PacketHeader × Bytes) × (decode buf ≡ ok r) × ((e : DecodeError) → ¬ IsFault buf e))
      ⊎ ((e : DecodeError) × (decode buf ≡ err e) × IsFault buf e)
decode_cases buf = by_result (decode buf) refl
  where
    by_result :
        (d : Result (PacketHeader × Bytes) DecodeError)
        → decode buf ≡ d
        → ((r : PacketHeader × Bytes) × (decode buf ≡ ok r) × ((e : DecodeError) → ¬ IsFault buf e))
          ⊎ ((e : DecodeError) × (decode buf ≡ err e) × IsFault buf e)
    by_result (ok r) p = inl (r, p, λ e. decode-ok-IsFault buf r e p)
    by_result (err e) p = inr (e, p, decode-IsFault buf e p)
