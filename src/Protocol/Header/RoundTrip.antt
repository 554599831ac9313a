-- ===== src/Protocol/Header/RoundTrip.antt =====
-- doc/gateway-protocol/src/lib.rs: `encode` and `decode` against one another.
use ws_gateway.Common.{
  ℕ, ◌+◌, ◌-◌, ◌≤◌, ◌≡◌, refl, sym, ap, ◌∙◌, true, false, [], ◌++◌, arith, leb, leb→le, ◌==◌,
  if◌then◌else◌, length, take, drop, get_or, slice, take-append-drop, take-append_of_le,
  drop-append_of_le, nil_of_length, length-take, length-drop, length-append, fixed, All-take,
  All-drop, ok, err, guard-ok,
}
use ws_gateway.Protocol.PacketType
use ws_gateway.Protocol.TargetType
use ws_gateway.Protocol.Fields.{Bytes, IsBytes, is_valid_ascii_field}
use ws_gateway.Protocol.Header.{
  PacketHeader, IsTyped, length_mismatch, too_short, non_ascii_room_id, protocol_version,
  header_len, u32_to_be_bytes, u16_to_be_bytes, u32_from_be_bytes, u16_from_be_bytes, encode,
  decode,
}
use ws_gateway.Protocol.Header.Words.{
  u32_from_be_bytes-u32_to_be_bytes, u16_from_be_bytes-u16_to_be_bytes,
  u16_to_be_bytes-u16_from_be_bytes, u32_to_be_bytes-u32_from_be_bytes, u32_from_be_bytes-lt,
  u16_from_be_bytes-lt,
}
use ws_gateway.Protocol.Header.Layout.{wire, encode-wire, decode_fields, decode-wire}

-- A header that `decode` can return: typed, of this version, with well-formed text fields.
pub record IsHeader (h : PacketHeader) : Type 0 where
  pub typed : IsTyped h
  pub open typed use *
  pub current : h.version ≡ protocol_version
  pub room_valid : is_valid_ascii_field h.room_id ≡ true
  pub user_valid : is_valid_ascii_field h.user_id ≡ true

width-u32 : (n : ℕ) → length (u32_to_be_bytes n) ≡ 4
unfolding u32_to_be_bytes
width-u32 n = refl

width-u16 : (n : ℕ) → length (u16_to_be_bytes n) ≡ 2
unfolding u16_to_be_bytes
width-u16 n = refl

-- Decoding the encoding of a well-formed header and a payload gives the two back, if the
-- payload has the declared length, and otherwise the mismatch.
pub decode-encode :
    (h : PacketHeader) (payload : Bytes)
    → IsHeader h
    → decode (encode h payload) ≡ (
        if length payload == h.length
        then ok (h, payload)
        else err (length_mismatch h.length (length payload)))
unfolding decode_fields
decode-encode h payload v =
    rw
      (
        encode-wire h payload v.typed,
        decode-wire _ _ _ _ h.room_id h.user_id (u32_to_be_bytes h.sequence)
            (u16_to_be_bytes h.length) payload v.room_width v.user_width (width-u32 h.sequence)
            (width-u16 h.length),
        u32_from_be_bytes-u32_to_be_bytes h.sequence,
        u16_from_be_bytes-u16_to_be_bytes h.length,
        (PacketType.from_u8-as_u8 _ h.packet_type).1 refl,
        (TargetType.from_u8-as_u8 _ h.target_type).1 refl,
        v.current,
        v.room_valid,
        v.user_valid,
      )
      (ground arith)

-- A room field that is not padded ASCII text makes the packet undecodable.
pub decode-invalid_room :
    (h : PacketHeader) (payload : Bytes)
    → IsTyped h
    → h.version ≡ protocol_version
    → is_valid_ascii_field h.room_id ≡ false
    → decode (encode h payload) ≡ err non_ascii_room_id
unfolding decode_fields
decode-invalid_room h payload typed current bad =
    rw
      (
        encode-wire h payload typed,
        decode-wire _ _ _ _ h.room_id h.user_id (u32_to_be_bytes h.sequence)
            (u16_to_be_bytes h.length) payload typed.room_width typed.user_width
            (width-u32 h.sequence) (width-u16 h.length),
        (PacketType.from_u8-as_u8 _ h.packet_type).1 refl,
        (TargetType.from_u8-as_u8 _ h.target_type).1 refl,
        current,
        bad,
      )
      refl

abbrev as_wire : Bytes → Bytes
as_wire buf =
    wire (get_or buf 0 0) (get_or buf 1 0) (get_or buf 2 0) (get_or buf 3 0) (slice 4 10 buf)
      (slice 10 18 buf) (slice 18 22 buf) (slice 22 24 buf) (drop 24 buf)

-- A buffer with a full header is its fields in wire order.
buffer-wire : (buf : Bytes) → 24 ≤ length buf → buf ≡ as_wire buf
buffer-wire buf h =
    sym (take-append-drop 24 buf)
    ∙ fixed 24 (λ xs. (rest : Bytes) → xs ++ rest ≡ as_wire (xs ++ rest))
        (λ b0 b1 b2 b3 b4 b5 b6 b7 b8 b9 b10 b11 b12 b13 b14 b15 b16 b17 b18 b19 b20 b21 b22 b23
            rest.
          refl)
        (take 24 buf) (omega (arith, length-take 24 buf)) (drop 24 buf)
    ∙ ap as_wire (take-append-drop 24 buf)

decode-ok-long :
    (buf : Bytes) (r : PacketHeader × Bytes) → decode buf ≡ ok r → header_len ≤ length buf
unfolding decode
decode-ok-long buf r e =
    leb→le header_len (length buf) (guard-ok (leb header_len (length buf)) too_short _ e)

-- What `decode_fields` accepts, field by field.
decode_fields-ok :
    (v p t r : ℕ) (room user seq len payload : Bytes) (h : PacketHeader) (q : Bytes)
    → decode_fields v p t r room user seq len payload ≡ ok (h, q)
    → (v ≡ protocol_version)
      × (r ≡ 0)
      × (p ≡ PacketType.as_u8 h.packet_type)
      × (t ≡ TargetType.as_u8 h.target_type)
      × (is_valid_ascii_field room ≡ true)
      × (is_valid_ascii_field user ≡ true)
      × (length payload ≡ u16_from_be_bytes len)
      × (h.version ≡ v)
      × (h.room_id ≡ room)
      × (h.user_id ≡ user)
      × (h.sequence ≡ u32_from_be_bytes seq)
      × (h.length ≡ u16_from_be_bytes len)
      × (q ≡ payload)
unfolding decode_fields
decode_fields-ok v p t r room user seq len payload h q e =
    ground
      (arith, PacketType.from_u8-as_u8 p h.packet_type, TargetType.from_u8-as_u8 t h.target_type)

length-slice : (i j : ℕ) (xs : Bytes) → i ≤ j → j ≤ length xs → length (slice i j xs) ≡ j - i
length-slice i j xs h k = omega (arith, length-take (j - i) (drop i xs), length-drop i xs)

slice-IsBytes : (i j : ℕ) (xs : Bytes) → IsBytes xs → IsBytes (slice i j xs)
slice-IsBytes i j xs h = All-take _ (j - i) (drop i xs) (All-drop _ i xs h)

-- What `decode` accepts, of a buffer of bytes, is exactly an encoding: the header is well
-- formed, the payload has the declared length, and encoding the two again gives the same bytes.
pub encode-decode :
    (buf : Bytes) (h : PacketHeader) (payload : Bytes)
    → IsBytes buf
    → decode buf ≡ ok (h, payload)
    → IsHeader h × (length payload ≡ h.length) × (encode h payload ≡ buf)
encode-decode buf h payload bytes e =
    let long = decode-ok-long buf (h, payload) e in
    let whole = buffer-wire buf long in
    let wr = length-slice 4 10 buf (omega arith) (omega arith) in
    let wu = length-slice 10 18 buf (omega arith) (omega arith) in
    let ws = length-slice 18 22 buf (omega arith) (omega arith) in
    let wl = length-slice 22 24 buf (omega arith) (omega arith) in
    let parts =
      decode_fields-ok _ _ _ _ (slice 4 10 buf) (slice 10 18 buf) (slice 18 22 buf)
        (slice 22 24 buf) (drop 24 buf) h payload
        (sym (decode-wire _ _ _ _ _ _ _ _ (drop 24 buf) wr wu ws wl) ∙ ap decode (sym whole) ∙ e) in
    let (ev, er, ep, et, vr, vu, el, hv, hr, hu, hs, hl, hq) = parts in
    let sb = slice-IsBytes 18 22 buf bytes in
    let lb = slice-IsBytes 22 24 buf bytes in
    let s_back = u32_to_be_bytes-u32_from_be_bytes (slice 18 22 buf) ws sb in
    let l_back = u16_to_be_bytes-u16_from_be_bytes (slice 22 24 buf) wl lb in
    let s_in = u32_from_be_bytes-lt (slice 18 22 buf) ws sb in
    let l_in = u16_from_be_bytes-lt (slice 22 24 buf) wl lb in
    let typed : IsTyped h = record {
      version_in = omega arith;
      room_width = rw hr wr;
      room_bytes = rw hr (slice-IsBytes 4 10 buf bytes);
      user_width = rw hu wu;
      user_bytes = rw hu (slice-IsBytes 10 18 buf bytes);
      sequence_in = omega arith;
      length_in = omega arith;
    } in
    (
      record { typed = typed; current = hv ∙ ev; room_valid = rw hr vr; user_valid = rw hu vu },
      rw hq (el ∙ sym hl),
      encode-wire h payload typed ∙ cc,
    )

-- An accepted packet is as long as its header says.
decode-length :
    (buf : Bytes) (h : PacketHeader) (payload : Bytes)
    → decode buf ≡ ok (h, payload)
    → length buf ≡ header_len + u16_from_be_bytes (slice 22 24 buf)
decode-length buf h payload e =
    let long = decode-ok-long buf (h, payload) e in
    let wr = length-slice 4 10 buf (omega arith) (omega arith) in
    let wu = length-slice 10 18 buf (omega arith) (omega arith) in
    let ws = length-slice 18 22 buf (omega arith) (omega arith) in
    let wl = length-slice 22 24 buf (omega arith) (omega arith) in
    let parts =
      decode_fields-ok _ _ _ _ (slice 4 10 buf) (slice 10 18 buf) (slice 18 22 buf)
        (slice 22 24 buf) (drop 24 buf) h payload
        (sym (decode-wire _ _ _ _ _ _ _ _ (drop 24 buf) wr wu ws wl)
          ∙ ap decode (sym (buffer-wire buf long))
          ∙ e) in
    omega (arith, parts.6, length-drop 24 buf)

slice-append :
    (i j : ℕ) (xs ys : Bytes) → i ≤ j → j ≤ length xs → slice i j (xs ++ ys) ≡ slice i j xs
slice-append i j xs ys h k =
    ap (take (j - i)) (drop-append_of_le i xs ys (omega arith))
    ∙ take-append_of_le (j - i) (drop i xs) ys (omega (arith, length-drop i xs))

-- Of a packet that `decode` accepts, no longer buffer that begins with it is accepted.
pub decode-prefix :
    (buf rest : Bytes) (r s : PacketHeader × Bytes)
    → decode buf ≡ ok r
    → decode (buf ++ rest) ≡ ok s
    → rest ≡ []
decode-prefix buf rest (h, p) (k, q) e f =
    let long = decode-ok-long buf (h, p) e in
    nil_of_length rest (
      omega (
        arith,
        decode-length buf h p e,
        decode-length (buf ++ rest) k q f,
        length-append buf rest,
        ap u16_from_be_bytes (slice-append 22 24 buf rest (omega arith) (omega arith)),
      ))
