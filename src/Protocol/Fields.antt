-- ===== src/Protocol/Fields.antt =====
-- doc/gateway-protocol/src/lib.rs: `pack_ascii_field`, `is_valid_ascii_field` and
-- `ascii_field_str`, and the functions of Rust's standard library that they call. A `&str` and a
-- `[u8; N]` are lists of bytes.
pub mod Laws
use ws_gateway.Common.{
  ℕ, ◌-◌, ◌<◌, Bool, true, false, not, ◌&&◌, ◌||◌, Option, none, some, List, [], ◌∷◌, ltb, leb,
  ◌==◌, if◌then◌else◌, length, take, drop, replicate, all, position, copy_from_slice, unwrap_or,
  All,
}

abbrev pub Bytes : Type 0
Bytes = List ℕ

-- A `u8` is below 256.
abbrev pub IsBytes : Bytes → Type 0
IsBytes = All λ b. b < 256

-- `u8::is_ascii`, and `str::is_ascii` over the bytes of the string.
abbrev pub is_ascii_byte : ℕ → Bool
is_ascii_byte b = ltb b 128

abbrev pub is_ascii : Bytes → Bool
is_ascii = all is_ascii_byte

abbrev is_zero : ℕ → Bool
is_zero b = b == 0

-- What the rest of a code point must look like: how many continuation bytes, and the range of the
-- next one.
pub data Utf8 : Type 0 where
  start : Utf8
  tail : ℕ → ℕ → ℕ → Utf8
  bad : Utf8

abbrev between : ℕ → ℕ → ℕ → Bool
between lo hi b = leb lo b && leb b hi

pub lead : ℕ → Utf8
lead b =
    if ltb b 0x80
    then start
    else if between 0xc2 0xdf b
    then tail 0 0x80 0xbf
    else if b == 0xe0
    then tail 1 0xa0 0xbf
    else if b == 0xed
    then tail 1 0x80 0x9f
    else if between 0xe1 0xef b
    then tail 1 0x80 0xbf
    else if b == 0xf0
    then tail 2 0x90 0xbf
    else if between 0xf1 0xf3 b
    then tail 2 0x80 0xbf
    else if b == 0xf4
    then tail 2 0x80 0x8f
    else bad

pub utf8_step : Utf8 → ℕ → Utf8
unfolding lead
utf8_step start b = lead b
utf8_step (tail ℕ.zero lo hi) b = if between lo hi b then start else bad
utf8_step (tail (ℕ.suc n) lo hi) b = if between lo hi b then tail n 0x80 0xbf else bad
utf8_step bad b = bad

unfoldable pub utf8_run : Utf8 → Bytes → Bool
unfolding utf8_step
utf8_run start [] = true
utf8_run (tail n lo hi) [] = false
utf8_run bad [] = false
utf8_run s (b ∷ bs) = utf8_run (utf8_step s b) bs

-- `std::str::from_utf8(bytes).unwrap_or("")`
unfoldable pub from_utf8_or_empty : Bytes → Bytes
from_utf8_or_empty bs = if utf8_run start bs then bs else []

unfoldable pub pack_ascii_field : ℕ → Bytes → Option Bytes
pack_ascii_field n s =
    if not (is_ascii s) || ltb n (length s)
    then none
    else some (copy_from_slice 0 s (replicate n 0))

-- `field.iter().position(|&b| b == 0).unwrap_or(field.len())`
unfoldable pub first_zero : Bytes → ℕ
first_zero field = unwrap_or (position is_zero field) (length field)

unfoldable pub is_valid_ascii_field : Bytes → Bool
is_valid_ascii_field field =
    all (λ b. is_ascii_byte b && not (b == 0)) (take (first_zero field) field)
    && all is_zero (drop (first_zero field) field)

unfoldable pub ascii_field_str : Bytes → Bytes
ascii_field_str field = from_utf8_or_empty (take (first_zero field) field)
