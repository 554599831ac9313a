-- ===== src/Protocol/Header/Layout.antt =====
-- The 24 header bytes as the concatenation of the fields, for the writer and for the parser.
use ws_gateway.Common.{
  ℕ, ◌-◌, ◌≡◌, refl, [], ◌∷◌, ◌++◌, suc, leb, le→leb, true, arith, ◌==◌, length, fixed, Result, ok,
  ◌>>=◌, ◌>>◌, guard, ok_or,
}
use ws_gateway.Protocol.PacketType
use ws_gateway.Protocol.TargetType
use ws_gateway.Protocol.Fields.{Bytes, is_valid_ascii_field}
use ws_gateway.Protocol.Header.{
  PacketHeader, IsTyped, DecodeError, unsupported_version, non_zero_reserved, unknown_packet_type,
  unknown_target_type, non_ascii_room_id, non_ascii_user_id, length_mismatch, protocol_version,
  header_len, u32_to_be_bytes, u16_to_be_bytes, u32_from_be_bytes, u16_from_be_bytes, encode_header,
  encode, decode,
}

-- The bytes of a packet in wire order.
abbrev pub wire : ℕ → ℕ → ℕ → ℕ → Bytes → Bytes → Bytes → Bytes → Bytes → Bytes
wire v p t r room user seq len payload =
    v ∷ p ∷ t ∷ r ∷ (room ++ (user ++ (seq ++ (len ++ payload))))

abbrev pub EncodesAs : PacketHeader → Bytes → Type 0
EncodesAs h payload =
    encode h payload
    ≡ wire h.version (PacketType.as_u8 h.packet_type) (TargetType.as_u8 h.target_type) 0 h.room_id
        h.user_id (u32_to_be_bytes h.sequence) (u16_to_be_bytes h.length) payload

-- The buffer that `encode_header` fills holds the fields in wire order, and the payload follows.
pub encode-wire : (h : PacketHeader) (payload : Bytes) → IsTyped h → EncodesAs h payload
unfolding encode encode_header u32_to_be_bytes u16_to_be_bytes
encode-wire h payload typed =
    fixed 6
      (λ room.
        (user : Bytes)
        → length user ≡ 8
        → EncodesAs (record h { room_id = room; user_id = user }) payload)
      (λ a b c d e f user w.
        fixed 8
          (λ user.
            EncodesAs (record h { room_id = a ∷ b ∷ c ∷ d ∷ e ∷ f ∷ []; user_id = user }) payload)
          (λ i j k l m n o p. refl) user w)
      h.room_id typed.room_width h.user_id typed.user_width

-- `decode` with the fields handed over one by one.
unfoldable pub decode_fields :
    ℕ
    → ℕ
    → ℕ
    → ℕ
    → Bytes
    → Bytes
    → Bytes
    → Bytes
    → Bytes
    → Result (PacketHeader × Bytes) DecodeError
decode_fields v p t r room user seq len payload = do
  guard (v == protocol_version) (unsupported_version v)
  guard (r == 0x00) (non_zero_reserved r)
  packet_type ← ok_or (PacketType.from_u8 p) (unknown_packet_type p)
  target_type ← ok_or (TargetType.from_u8 t) (unknown_target_type t)
  guard (is_valid_ascii_field room) non_ascii_room_id
  guard (is_valid_ascii_field user) non_ascii_user_id
  guard (length payload == u16_from_be_bytes len)
      (length_mismatch (u16_from_be_bytes len) (length payload))
  ok (
    record {
      version = v;
      packet_type = packet_type;
      target_type = target_type;
      room_id = room;
      user_id = user;
      sequence = u32_from_be_bytes seq;
      length = u16_from_be_bytes len;
    },
    payload,
  )

-- The length of a packet with `n` payload bytes, as it computes.
abbrev with_header : ℕ → ℕ
with_header n = suc (
    suc (
      suc (
        suc (
          suc (
            suc (
              suc (
                suc (
                  suc (
                    suc (
                      suc (
                        suc (
                          suc (
                            suc (
                              suc (
                                suc (suc (suc (suc (suc (suc (suc (suc (suc n)))))))))))))))))))))))

long_enough : (n : ℕ) → leb header_len (with_header n) ≡ true
long_enough n = le→leb header_len (with_header n) (omega arith)

payload_part : (n : ℕ) → with_header n - header_len ≡ n
payload_part n = omega arith

-- The slices that `decode` takes of a packet in wire order are its fields.
pub decode-wire :
    (v p t r : ℕ) (room user seq len payload : Bytes)
    → length room ≡ 6
    → length user ≡ 8
    → length seq ≡ 4
    → length len ≡ 2
    → decode (wire v p t r room user seq len payload)
      ≡ decode_fields v p t r room user seq len payload
unfolding decode decode_fields
decode-wire v p t r room user seq len payload wr wu ws wl =
    fixed 6
      (λ room.
        (user seq len : Bytes)
        → length user ≡ 8
        → length seq ≡ 4
        → length len ≡ 2
        → decode (wire v p t r room user seq len payload)
          ≡ decode_fields v p t r room user seq len payload)
      (λ a b c d e f user seq len wu ws wl.
        let room : Bytes = a ∷ b ∷ c ∷ d ∷ e ∷ f ∷ [] in
        fixed 8
          (λ user.
            (seq len : Bytes)
            → length seq ≡ 4
            → length len ≡ 2
            → decode (wire v p t r room user seq len payload)
              ≡ decode_fields v p t r room user seq len payload)
          (λ i j k l m n o q seq len ws wl.
            let user : Bytes = i ∷ j ∷ k ∷ l ∷ m ∷ n ∷ o ∷ q ∷ [] in
            fixed 4
              (λ seq.
                (len : Bytes)
                → length len ≡ 2
                → decode (wire v p t r room user seq len payload)
                  ≡ decode_fields v p t r room user seq len payload)
              (λ s0 s1 s2 s3 len wl.
                let seq : Bytes = s0 ∷ s1 ∷ s2 ∷ s3 ∷ [] in
                fixed 2
                  (λ len.
                    decode (wire v p t r room user seq len payload)
                    ≡ decode_fields v p t r room user seq len payload)
                  (λ l0 l1. rw (long_enough (length payload), payload_part (length payload)) refl)
                  len wl)
              seq ws len wl)
          user wu seq len ws wl)
      room wr user seq len wu ws wl
