-- ===== src/Protocol/Header/Size.antt =====
-- doc/gateway-protocol/src/lib.rs: the size of what `encode` writes.
use ws_gateway.Common.{ℕ, ◌+◌, ◌<◌, ◌≡◌, arith, length, length-append, All-append, refl, ◌++◌}
use ws_gateway.Protocol.PacketType
use ws_gateway.Protocol.PacketType.{PacketType, raw_motion, ai_event, system_cmd, heartbeat}
use ws_gateway.Protocol.TargetType
use ws_gateway.Protocol.TargetType.{TargetType, broadcast, unicast}
use ws_gateway.Protocol.Fields.{Bytes, IsBytes}
use ws_gateway.Protocol.Header.{
  PacketHeader, IsTyped, header_len, u32_to_be_bytes, u16_to_be_bytes, encode,
}
use ws_gateway.Protocol.Header.Words.{words-IsBytes}
use ws_gateway.Protocol.Header.Layout.{encode-wire}

codes_fit :
    (p : PacketType) (t : TargetType) → (PacketType.as_u8 p < 256) × (TargetType.as_u8 t < 256)
unfolding PacketType.as_u8 TargetType.as_u8
codes_fit p t = ground arith

words_width : (n : ℕ) → (length (u32_to_be_bytes n) ≡ 4) × (length (u16_to_be_bytes n) ≡ 2)
unfolding u32_to_be_bytes u16_to_be_bytes
words_width n = (refl, refl)

-- What `encode` writes for a header of the Rust types and a payload of bytes are bytes, 24 more than
-- the payload has.
pub encode-IsBytes :
    (h : PacketHeader) (payload : Bytes)
    → IsTyped h
    → IsBytes payload
    → IsBytes (encode h payload) × (length (encode h payload) ≡ header_len + length payload)
encode-IsBytes h payload v b =
    let room = h.room_id in
    let user = h.user_id in
    let seq = u32_to_be_bytes h.sequence in
    let len = u16_to_be_bytes h.length in
    let (p, t) = codes_fit h.packet_type h.target_type in
    let fields = All-append _ room _ v.room_bytes (
      All-append _ user _ v.user_bytes (
        All-append _ seq _ ((words-IsBytes h.sequence).0 v.sequence_in)
          (All-append _ len payload ((words-IsBytes h.length).1 v.length_in) b))) in
    rw (encode-wire h payload v) (
      (omega arith, (p, (t, (omega arith, fields)))),
      omega (
        arith,
        length-append room (user ++ (seq ++ (len ++ payload))),
        length-append user (seq ++ (len ++ payload)),
        length-append seq (len ++ payload),
        length-append len payload,
        (words_width h.sequence).0,
        (words_width h.length).1,
        v.room_width,
        v.user_width,
      ),
    )
