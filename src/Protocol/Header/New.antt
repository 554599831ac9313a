-- ===== src/Protocol/Header/New.antt =====
-- doc/gateway-protocol/src/lib.rs: what `PacketHeader::new` makes and what it refuses.
use ws_gateway.Common.{
  ℕ, ◌-◌, ◌^◌, ◌≤◌, ◌<◌, ◌≡◌, refl, inl, inr, ◌⊎◌, true, none, some, [], ◌∷◌, ◌++◌, arith, ltb,
  lt→ltb, ltb→lt, ==_refl, Bool-cases, Option-cases, length, replicate, length-append,
  length-replicate, All-append, All-replicate, ok, err,
}
use mathlib.Core.List.{append_assoc}
use ws_gateway.Protocol.PacketType.{PacketType}
use ws_gateway.Protocol.TargetType.{TargetType}
use ws_gateway.Protocol.Fields.{Bytes, IsBytes, is_ascii, pack_ascii_field}
use ws_gateway.Protocol.Fields.Laws.{
  IsText, padded, pack_ascii_field_iff, text-is_valid_ascii_field, ascii_field_str-text,
  embedded_nul,
}
use ws_gateway.Protocol.Header.{
  PacketHeader, IsTyped, invalid_room_id, invalid_user_id, payload_too_large, non_ascii_room_id,
  protocol_version, room_id_len, user_id_len, new, room_id_str, user_id_str, encode, decode,
}
use ws_gateway.Protocol.Header.RoundTrip.{IsHeader, decode-encode, decode-invalid_room}

-- What `new` makes of its arguments where it accepts them.
abbrev pub made : PacketType → TargetType → Bytes → Bytes → ℕ → ℕ → PacketHeader
made pt tt room user seq len = record {
  version = protocol_version;
  packet_type = pt;
  target_type = tt;
  room_id = padded room_id_len room;
  user_id = padded user_id_len user;
  sequence = seq;
  length = len;
}

abbrev pub Fits : ℕ → Bytes → Type 0
Fits n s = (is_ascii s ≡ true) × (length s ≤ n)

pack-Fits : (n : ℕ) (s : Bytes) → Fits n s → pack_ascii_field n s ≡ some (padded n s)
pack-Fits n s (a, l) = (pack_ascii_field_iff n s (padded n s)).1 (a, l, refl)

text-is_ascii : (s : Bytes) → IsText s → is_ascii s ≡ true
text-is_ascii [] h = refl
text-is_ascii (b ∷ s) h = ground (arith, text-is_ascii s h.1)

-- Strings that fit their fields, and a payload that fits its length word, make a header.
pub new-Fits :
    (pt : PacketType) (tt : TargetType) (room user : Bytes) (seq len : ℕ)
    → Fits room_id_len room
    → Fits user_id_len user
    → len < 2 ^ 16
    → new pt tt room user seq len ≡ ok (made pt tt room user seq len)
unfolding new
new-Fits pt tt room user seq len fr fu l =
    rw (pack-Fits room_id_len room fr, pack-Fits user_id_len user fu, lt→ltb len (2 ^ 16) l) refl

pack_cases :
    (n : ℕ) (s : Bytes)
    → (¬ Fits n s × (pack_ascii_field n s ≡ none))
      ⊎ (Fits n s × (pack_ascii_field n s ≡ some (padded n s)))
pack_cases n s = elim (Option-cases (pack_ascii_field n s)) [
  | inl e ↦ inl ((λ f. cc (pack-Fits n s f)), e)
  | inr (f, e) ↦
      let (a, l, q) = (pack_ascii_field_iff n s f).0 e in
      let fits : Fits n s = (a, l) in inr (fits, pack-Fits n s fits)
]

-- Which of its four results `new` gives: the first check that fails names the error.
pub new_cases :
    (pt : PacketType) (tt : TargetType) (room user : Bytes) (seq len : ℕ)
    → (¬ Fits room_id_len room × (new pt tt room user seq len ≡ err invalid_room_id))
      ⊎ (Fits room_id_len room
          × ¬ Fits user_id_len user
          × (new pt tt room user seq len ≡ err invalid_user_id))
      ⊎ (Fits room_id_len room
          × Fits user_id_len user
          × (2 ^ 16 ≤ len)
          × (new pt tt room user seq len ≡ err payload_too_large))
      ⊎ (Fits room_id_len room
          × Fits user_id_len user
          × (len < 2 ^ 16)
          × (new pt tt room user seq len ≡ ok (made pt tt room user seq len)))
unfolding new
new_cases pt tt room user seq len = elim (pack_cases room_id_len room) [
  | inl (nf, e) ↦ inl (nf, rw e refl)
  | inr (fr, e) ↦ inr (elim (pack_cases user_id_len user) [
    | inl (nf, e') ↦ inl (fr, nf, rw (e, e') refl)
    | inr (fu, e') ↦ inr (elim (Bool-cases (ltb len (2 ^ 16))) [
      | inl small ↦ inr (fr, fu, ltb→lt len (2 ^ 16) small, rw (e, e', small) refl)
      | inr big ↦ inl (fr, fu, ground arith, rw (e, e', big) refl)
    ])
  ])
]

ascii-IsBytes : (s : Bytes) → is_ascii s ≡ true → IsBytes s
ascii-IsBytes [] h = tt
ascii-IsBytes (b ∷ s) h = ground (arith, ascii-IsBytes s)

length-padded : (n : ℕ) (s : Bytes) → length s ≤ n → length (padded n s) ≡ n
length-padded n s h = omega (
  arith,
  length-append s (replicate (n - length s) 0),
  length-replicate {0} (n - length s) (let z : ℕ = 0 in z),
)

padded-IsBytes : (n : ℕ) (s : Bytes) → is_ascii s ≡ true → IsBytes (padded n s)
padded-IsBytes n s h =
    All-append _ s _ (ascii-IsBytes s h) (All-replicate _ (n - length s) 0 (omega arith))

made-IsTyped :
    (pt : PacketType) (t : TargetType) (room user : Bytes) (seq len : ℕ)
    → Fits room_id_len room
    → Fits user_id_len user
    → seq < 2 ^ 32
    → len < 2 ^ 16
    → IsTyped (made pt t room user seq len)
made-IsTyped pt t room user seq len fr fu s l = record {
  version_in = omega arith;
  room_width = length-padded room_id_len room fr.1;
  room_bytes = padded-IsBytes room_id_len room fr.0;
  user_width = length-padded user_id_len user fu.1;
  user_bytes = padded-IsBytes user_id_len user fu.0;
  sequence_in = s;
  length_in = l;
}

-- For names of ASCII text without NUL that fit their fields, and a sequence number and payload
-- in their ranges: `new` makes a header, the packet decodes to that header and the payload, and
-- the views of the header are the names.
pub new-decode :
    (pt : PacketType) (t : TargetType) (room user : Bytes) (seq : ℕ) (payload : Bytes)
    → IsText room
    → length room ≤ room_id_len
    → IsText user
    → length user ≤ user_id_len
    → seq < 2 ^ 32
    → length payload < 2 ^ 16
    → (h : PacketHeader) × (new pt t room user seq (length payload) ≡ ok h)
      × (decode (encode h payload) ≡ ok (h, payload))
      × (room_id_str h ≡ room)
      × (user_id_str h ≡ user)
unfolding room_id_str user_id_str
new-decode pt t room user seq payload xr lr xu lu s l =
    let fr : Fits room_id_len room = (text-is_ascii room xr, lr) in
    let fu : Fits user_id_len user = (text-is_ascii user xu, lu) in
    let h = made pt t room user seq (length payload) in
    let v : IsHeader h = record {
      typed = made-IsTyped pt t room user seq (length payload) fr fu s l;
      current = refl;
      room_valid = text-is_valid_ascii_field room _ xr;
      user_valid = text-is_valid_ascii_field user _ xu;
    } in
    (
      h,
      new-Fits pt t room user seq (length payload) fr fu l,
      rw (decode-encode h payload v, ==_refl (length payload)) refl,
      ascii_field_str-text room _ xr,
      ascii_field_str-text user _ xu,
    )

-- The defect: a fitting room name with a NUL before another character is accepted by `new`, if
-- the user name fits and the numbers are in their ranges, and the packet of that header is
-- refused by `decode`.
pub new-embedded_nul :
    (pt : PacketType) (t : TargetType) (s rest user : Bytes) (b seq : ℕ) (payload : Bytes)
    → IsText s
    → 0 < b
    → Fits room_id_len (s ++ 0 ∷ b ∷ rest)
    → Fits user_id_len user
    → seq < 2 ^ 32
    → length payload < 2 ^ 16
    → (h : PacketHeader) × (new pt t (s ++ 0 ∷ b ∷ rest) user seq (length payload) ≡ ok h)
      × (decode (encode h payload) ≡ err non_ascii_room_id)
new-embedded_nul pt t s rest user b seq payload x p fr fu sq l =
    let room : Bytes = s ++ 0 ∷ b ∷ rest in
    let h = made pt t room user seq (length payload) in
    (
      h,
      new-Fits pt t room user seq (length payload) fr fu l,
      decode-invalid_room h payload (made-IsTyped pt t room user seq (length payload) fr fu sq l)
          refl (rw append_assoc (embedded_nul s b _ x p)),
    )

-- The header that `new` makes has the types that it was given.
pub new-types :
    (pt : PacketType) (t : TargetType) (room user : Bytes) (seq len : ℕ) (h : PacketHeader)
    → new pt t room user seq len ≡ ok h
    → (h.packet_type ≡ pt) × (h.target_type ≡ t)
unfolding new
new-types pt t room user seq len h e = ground arith
