-- ===== src/Protocol/Header.antt =====
-- doc/gateway-protocol/src/lib.rs: the protocol constants, `PacketHeader`, its constructor, its
-- wire form and its parser, with their errors.
pub mod Words
mod Layout
pub mod RoundTrip
pub mod New
pub mod Errors
pub mod Size
pub mod Display
use ws_gateway.Common.{
  ℕ, ◌+◌, ◌-◌, ◌*◌, ◌/◌, ◌%◌, ◌^◌, ◌≤◌, ◌<◌, ◌≡◌, List, [], ◌∷◌, ◌++◌, ltb, leb, ◌==◌,
  if◌then◌else◌, length, get_or, set, drop, slice, replicate, copy_from_slice, Result, ok, err,
  ◌>>=◌, ◌>>◌, guard, ok_or,
}
use ws_gateway.Protocol.PacketType
use ws_gateway.Protocol.PacketType.{PacketType}
use ws_gateway.Protocol.TargetType
use ws_gateway.Protocol.TargetType.{TargetType}
use ws_gateway.Protocol.Fields.{
  Bytes, IsBytes, pack_ascii_field, is_valid_ascii_field, ascii_field_str,
}

abbrev pub protocol_version : ℕ
protocol_version = 0x02

abbrev pub header_len : ℕ
header_len = 24

abbrev pub room_id_len : ℕ
room_id_len = 6

abbrev pub user_id_len : ℕ
user_id_len = 8

-- `[u8; N]` fields are lists of bytes; the widths of the Rust types are in `IsTyped`.
pub record PacketHeader : Type 0 where
  pub version : ℕ
  pub packet_type : PacketType
  pub target_type : TargetType
  pub room_id : Bytes
  pub user_id : Bytes
  pub sequence : ℕ
  pub length : ℕ

-- What the Rust types of the fields enforce.
pub record IsTyped (h : PacketHeader) : Type 0 where
  pub version_in : h.version < 2 ^ 8
  pub room_width : length h.room_id ≡ room_id_len
  pub room_bytes : IsBytes h.room_id
  pub user_width : length h.user_id ≡ user_id_len
  pub user_bytes : IsBytes h.user_id
  pub sequence_in : h.sequence < 2 ^ 32
  pub length_in : h.length < 2 ^ 16

pub data EncodeError : Type 0 where
  invalid_room_id invalid_user_id payload_too_large : EncodeError

pub data DecodeError : Type 0 where
  too_short : DecodeError
  unsupported_version : ℕ → DecodeError
  non_zero_reserved : ℕ → DecodeError
  unknown_packet_type : ℕ → DecodeError
  unknown_target_type : ℕ → DecodeError
  non_ascii_room_id : DecodeError
  non_ascii_user_id : DecodeError
  length_mismatch : ℕ → ℕ → DecodeError

-- `u32::to_be_bytes`, `u16::to_be_bytes` and their inverses.
unfoldable pub u32_to_be_bytes : ℕ → Bytes
u32_to_be_bytes n = (n / 2 ^ 24) ∷ (n / 2 ^ 16 % 2 ^ 8) ∷ (n / 2 ^ 8 % 2 ^ 8) ∷ (n % 2 ^ 8) ∷ []

unfoldable pub u16_to_be_bytes : ℕ → Bytes
u16_to_be_bytes n = (n / 2 ^ 8) ∷ (n % 2 ^ 8) ∷ []

unfoldable pub u32_from_be_bytes : Bytes → ℕ
u32_from_be_bytes b =
    get_or b 0 0 * 2 ^ 24 + get_or b 1 0 * 2 ^ 16 + get_or b 2 0 * 2 ^ 8 + get_or b 3 0

unfoldable pub u16_from_be_bytes : Bytes → ℕ
u16_from_be_bytes b = get_or b 0 0 * 2 ^ 8 + get_or b 1 0

-- `PacketHeader::new`
unfoldable pub new :
    PacketType → TargetType → Bytes → Bytes → ℕ → ℕ → Result PacketHeader EncodeError
new packet_type target_type room user sequence payload_len = do
  room_id ← ok_or (pack_ascii_field room_id_len room) invalid_room_id
  user_id ← ok_or (pack_ascii_field user_id_len user) invalid_user_id
  guard (ltb payload_len (2 ^ 16)) payload_too_large
  ok (record {
    version = protocol_version;
    packet_type = packet_type;
    target_type = target_type;
    room_id = room_id;
    user_id = user_id;
    sequence = sequence;
    length = payload_len;
  })

unfoldable pub room_id_str : PacketHeader → Bytes
room_id_str h = ascii_field_str h.room_id

unfoldable pub user_id_str : PacketHeader → Bytes
user_id_str h = ascii_field_str h.user_id

unfoldable pub encode_header : PacketHeader → Bytes
encode_header h =
    let b0 : Bytes = replicate header_len 0 in
    let b1 = set b0 0 h.version in
    let b2 = set b1 1 (PacketType.as_u8 h.packet_type) in
    let b3 = set b2 2 (TargetType.as_u8 h.target_type) in
    let b4 = set b3 3 0 in
    let b5 = copy_from_slice 4 h.room_id b4 in
    let b6 = copy_from_slice 10 h.user_id b5 in
    let b7 = copy_from_slice 18 (u32_to_be_bytes h.sequence) b6 in
    copy_from_slice 22 (u16_to_be_bytes h.length) b7

unfoldable pub encode : PacketHeader → Bytes → Bytes
encode h payload = encode_header h ++ payload

-- `buf[i]` is read only after the length check, so the default of `get_or` is never met.
unfoldable pub decode : Bytes → Result (PacketHeader × Bytes) DecodeError
decode buf = do
  guard (leb header_len (length buf)) too_short
  guard (get_or buf 0 0 == protocol_version) (unsupported_version (get_or buf 0 0))
  guard (get_or buf 3 0 == 0x00) (non_zero_reserved (get_or buf 3 0))
  packet_type ← ok_or (PacketType.from_u8 (get_or buf 1 0)) (unknown_packet_type (get_or buf 1 0))
  target_type ← ok_or (TargetType.from_u8 (get_or buf 2 0)) (unknown_target_type (get_or buf 2 0))
  guard (is_valid_ascii_field (slice 4 10 buf)) non_ascii_room_id
  guard (is_valid_ascii_field (slice 10 18 buf)) non_ascii_user_id
  let sequence = u32_from_be_bytes (slice 18 22 buf)
  let declared = u16_from_be_bytes (slice 22 24 buf)
  let actual = length buf - header_len
  guard (actual == declared) (length_mismatch declared actual)
  ok (
    record {
      version = get_or buf 0 0;
      packet_type = packet_type;
      target_type = target_type;
      room_id = slice 4 10 buf;
      user_id = slice 10 18 buf;
      sequence = sequence;
      length = declared;
    },
    drop header_len buf,
  )
