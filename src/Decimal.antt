-- ===== src/Decimal.antt =====
-- How `{}` and `{:#x}` print a number, in the texts of examples/stress.rs, src/observability.rs and
-- doc/gateway-protocol/src/lib.rs.
pub mod Laws
use ws_gateway.Common.{
  ℕ, zero, suc, ◌+◌, ◌-◌, ◌*◌, ◌==◌, true, false, ◌/◌, ◌%◌, [], ◌∷◌, ◌++◌, ltb, if◌then◌else◌,
}
use ws_gateway.Protocol.Fields.{Bytes}

-- The decimal digits of a number, as `{}` prints them. The fuel bounds the digits.
pub digits : ℕ → ℕ → Bytes
digits zero n = []
digits (suc fuel) n =
    let more = digits fuel (n / 10) ++ (48 + n % 10) ∷ [] in
    if ltb n 10 then (48 + n) ∷ [] else more

-- Each digit takes a tenth, so the number itself bounds how many there are.
unfoldable pub decimal : ℕ → Bytes
unfolding digits
decimal n = digits (suc n) n

-- A hexadecimal digit, in lower case.
abbrev pub hex_digit : ℕ → ℕ
hex_digit d = if ltb d 10 then 48 + d else 87 + d

-- `{:#x}` of a `u8`: no leading zero.
unfoldable pub hex : ℕ → Bytes
hex v =
    48 ∷ 120 ∷ (if ltb v 16 then hex_digit v ∷ [] else hex_digit (v / 16) ∷ hex_digit (v % 16) ∷ [])

-- What digits after a point say, the first worth `place`.
pub fraction : ℕ → Bytes → ℕ
fraction place [] = 0
fraction place (c ∷ cs) = (c - 48) * place + fraction (place / 10) cs

-- What a number with a decimal point says, in thousandths.
unfoldable pub thousandths : ℕ → Bytes → ℕ
unfolding fraction
thousandths whole [] = whole * 1000
thousandths whole (c ∷ cs) = elim (c == 46) [
  | true ↦ whole * 1000 + fraction 100 cs
  | false ↦ thousandths (whole * 10 + (c - 48)) cs
]
