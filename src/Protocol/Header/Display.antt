-- ===== src/Protocol/Header/Display.antt =====
-- doc/gateway-protocol/src/lib.rs: the texts of `EncodeError` and `DecodeError`.
use Prim.Native.Char.{code}
use Prim.Native.String.{String}
use ws_gateway.Common.{
  ℕ, ◌+◌, ◌*◌, ◌/◌, ◌%◌, ◌<◌, ◌≤◌, ◌≡◌, refl, ap, inl, inr, [], ◌∷◌, ◌++◌, arith, All, ltb, ltb→lt,
  Bool-cases, get_or,
}
use ws_gateway.Protocol.Fields.{Bytes}
use ws_gateway.Protocol.Header.{
  EncodeError, invalid_room_id, invalid_user_id, payload_too_large, DecodeError, too_short,
  unsupported_version, non_zero_reserved, unknown_packet_type, unknown_target_type,
  non_ascii_room_id, non_ascii_user_id, length_mismatch, header_len,
}
use ws_gateway.Decimal.{decimal, hex, hex_digit}
use ws_gateway.Decimal.Laws.{decimal-injective, decimal-digits}

-- The bytes of an ASCII text.
abbrev pub codes : String → Bytes
codes String.[] = []
codes (String.◌∷◌ c s) = code c ∷ codes s

unfoldable pub encode_error_text : EncodeError → Bytes
encode_error_text invalid_room_id = codes "room_id must be <= 6 ASCII bytes"
encode_error_text invalid_user_id = codes "user_id must be <= 8 ASCII bytes"
encode_error_text payload_too_large = codes "payload length exceeds u16::MAX"

unfoldable pub decode_error_text : DecodeError → Bytes
decode_error_text too_short =
    codes "packet shorter than " ++ (decimal header_len ++ codes "-byte header")
decode_error_text (unsupported_version v) = codes "unsupported protocol version: " ++ hex v
decode_error_text (non_zero_reserved v) = codes "reserved field must be 0x00, got: " ++ hex v
decode_error_text (unknown_packet_type v) = codes "unknown packet type: " ++ hex v
decode_error_text (unknown_target_type v) = codes "unknown target type: " ++ hex v
decode_error_text non_ascii_room_id = codes "room_id contains non-ASCII bytes"
decode_error_text non_ascii_user_id = codes "user_id contains non-ASCII bytes"
decode_error_text (length_mismatch declared actual) =
    codes "declared payload length "
    ++ (decimal declared ++ (codes " does not match actual " ++ decimal actual))

-- The values that the types of the fields allow: the bytes are `u8`.
abbrev pub IsTyped : DecodeError → Type 0
IsTyped (unsupported_version v) = v < 256
IsTyped (non_zero_reserved v) = v < 256
IsTyped (unknown_packet_type v) = v < 256
IsTyped (unknown_target_type v) = v < 256
IsTyped _ = Unit {0}

-- Four of the letters of a text, which tell the kinds of errors apart.
abbrev mark : Bytes → ℕ
mark text =
    get_or text 0 0 * 1000000000
    + get_or text 1 0 * 1000000
    + get_or text 2 0 * 1000
    + get_or text 8 0

cancel : (xs : Bytes) {a b : Bytes} → xs ++ a ≡ xs ++ b → a ≡ b
cancel [] e = e
cancel (x ∷ xs) e = cancel xs (cc)

-- A number ends at the blank behind it.
upto_blank :
    (xs ys a b : Bytes)
    → All (λ c. 48 ≤ c) xs
    → All (λ c. 48 ≤ c) ys
    → xs ++ 32 ∷ a ≡ ys ++ 32 ∷ b
    → (xs ≡ ys) × (a ≡ b)
upto_blank [] [] a b h k e = (refl, cc)
upto_blank [] (y ∷ ys) a b h k e =
    let clash : ◌≡◌ {A = ℕ} 32 y = cc in let high = k.0 in absurd (omega arith)
upto_blank (x ∷ xs) [] a b h k e =
    let clash : ◌≡◌ {A = ℕ} x 32 = cc in let high = h.0 in absurd (omega arith)
upto_blank (x ∷ xs) (y ∷ ys) a b h k e =
    let here : x ≡ y = cc in
    let behind : xs ++ 32 ∷ a ≡ ys ++ 32 ∷ b = cc in
    let (same, rest) = upto_blank xs ys a b h.1 k.1 behind in (cc, rest)

hex_digit-injective : (c d : ℕ) → c < 16 → d < 16 → hex_digit c ≡ hex_digit d → c ≡ d
hex_digit-injective c d h k e = ground arith

-- The hexadecimal text of a byte tells the byte.
hex-injective : (v w : ℕ) → v < 256 → w < 256 → hex v ≡ hex w → v ≡ w
unfolding hex
hex-injective v w h k e = elim (Bool-cases (ltb v 16)) [
  | inl low ↦ elim (Bool-cases (ltb w 16)) [
    | inl low' ↦
        let e' : 48 ∷ 120 ∷ hex_digit v ∷ [] ≡ 48 ∷ 120 ∷ hex_digit w ∷ [] = rw (low, low') at e in
        let same : hex_digit v ≡ hex_digit w = cc in
        hex_digit-injective v w (ltb→lt v 16 low) (ltb→lt w 16 low') same
    | inr high' ↦
        let e' : 48 ∷ 120 ∷ hex_digit v ∷ []
            ≡ 48 ∷ 120 ∷ hex_digit (w / 16) ∷ hex_digit (w % 16) ∷ [] =
          rw (low, high') at e in
        cc
  ]
  | inr high ↦ elim (Bool-cases (ltb w 16)) [
    | inl low' ↦
        let e' : 48 ∷ 120 ∷ hex_digit (v / 16) ∷ hex_digit (v % 16) ∷ []
            ≡ 48 ∷ 120 ∷ hex_digit w ∷ [] =
          rw (high, low') at e in
        cc
    | inr high' ↦
        let e' : 48 ∷ 120 ∷ hex_digit (v / 16) ∷ hex_digit (v % 16) ∷ []
            ≡ 48 ∷ 120 ∷ hex_digit (w / 16) ∷ hex_digit (w % 16) ∷ [] =
          rw (high, high') at e in
        let first : hex_digit (v / 16) ≡ hex_digit (w / 16) = cc in
        let second : hex_digit (v % 16) ≡ hex_digit (w % 16) = cc in
        let q = hex_digit-injective (v / 16) (w / 16) (omega arith) (omega arith) first in
        let r = hex_digit-injective (v % 16) (w % 16) (omega arith) (omega arith) second in
        omega arith
  ]
]

-- The text of an error tells the error: two errors with one text are of the same
-- kind and carry the same values (a byte where the source has a `u8`).
pub decode_error_text-injective :
    (e e' : DecodeError)
    → IsTyped e
    → IsTyped e'
    → decode_error_text e ≡ decode_error_text e'
    → e ≡ e'
unfolding decode_error_text
decode_error_text-injective too_short too_short t t' h = refl
decode_error_text-injective (unsupported_version v) (unsupported_version w) t t' h =
    ap unsupported_version
      (hex-injective v w t t' (cancel (codes "unsupported protocol version: ") h))
decode_error_text-injective (non_zero_reserved v) (non_zero_reserved w) t t' h =
    ap non_zero_reserved
      (hex-injective v w t t' (cancel (codes "reserved field must be 0x00, got: ") h))
decode_error_text-injective (unknown_packet_type v) (unknown_packet_type w) t t' h =
    ap unknown_packet_type (hex-injective v w t t' (cancel (codes "unknown packet type: ") h))
decode_error_text-injective (unknown_target_type v) (unknown_target_type w) t t' h =
    ap unknown_target_type (hex-injective v w t t' (cancel (codes "unknown target type: ") h))
decode_error_text-injective non_ascii_room_id non_ascii_room_id t t' h = refl
decode_error_text-injective non_ascii_user_id non_ascii_user_id t t' h = refl
decode_error_text-injective (length_mismatch m n) (length_mismatch m' n') t t' h =
    let numbers = cancel (codes "declared payload length ") h in
    let (first, rest) =
      upto_blank (decimal m) (decimal m') _ _ (decimal-digits m) (decimal-digits m') numbers in
    let second = cancel (codes "does not match actual ") rest in
    let one = decimal-injective m m' first in let two = decimal-injective n n' second in cc
decode_error_text-injective e e' t t' h = let clash = ap mark h in absurd (omega arith)
