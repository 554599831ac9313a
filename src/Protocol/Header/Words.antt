-- ===== src/Protocol/Header/Words.antt =====
-- The big-endian words of the header, written and read.
use ws_gateway.Common.{ℕ, ◌^◌, ◌<◌, ◌≡◌, arith, length, fixed}
use ws_gateway.Protocol.Fields.{Bytes, IsBytes}
use ws_gateway.Protocol.Header.{
  u32_to_be_bytes, u16_to_be_bytes, u32_from_be_bytes, u16_from_be_bytes,
}

pub u32_from_be_bytes-u32_to_be_bytes : (n : ℕ) → u32_from_be_bytes (u32_to_be_bytes n) ≡ n
unfolding u32_from_be_bytes u32_to_be_bytes
u32_from_be_bytes-u32_to_be_bytes n = omega arith

pub u16_from_be_bytes-u16_to_be_bytes : (n : ℕ) → u16_from_be_bytes (u16_to_be_bytes n) ≡ n
unfolding u16_from_be_bytes u16_to_be_bytes
u16_from_be_bytes-u16_to_be_bytes n = omega arith

pub u16_to_be_bytes-u16_from_be_bytes :
    (b : Bytes) → length b ≡ 2 → IsBytes b → u16_to_be_bytes (u16_from_be_bytes b) ≡ b
unfolding u16_from_be_bytes u16_to_be_bytes
u16_to_be_bytes-u16_from_be_bytes b w =
    fixed 2 (λ b. IsBytes b → u16_to_be_bytes (u16_from_be_bytes b) ≡ b) (λ x y h. ground arith) b w

pub u32_to_be_bytes-u32_from_be_bytes :
    (b : Bytes) → length b ≡ 4 → IsBytes b → u32_to_be_bytes (u32_from_be_bytes b) ≡ b
unfolding u32_from_be_bytes u32_to_be_bytes
u32_to_be_bytes-u32_from_be_bytes b w =
    fixed 4 (λ b. IsBytes b → u32_to_be_bytes (u32_from_be_bytes b) ≡ b) (λ x y z t h. ground arith)
      b w

pub u32_from_be_bytes-lt : (b : Bytes) → length b ≡ 4 → IsBytes b → u32_from_be_bytes b < 2 ^ 32
unfolding u32_from_be_bytes
u32_from_be_bytes-lt b w =
    fixed 4 (λ b. IsBytes b → u32_from_be_bytes b < 2 ^ 32) (λ x y z t h. omega arith) b w

pub u16_from_be_bytes-lt : (b : Bytes) → length b ≡ 2 → IsBytes b → u16_from_be_bytes b < 2 ^ 16
unfolding u16_from_be_bytes
u16_from_be_bytes-lt b w =
    fixed 2 (λ b. IsBytes b → u16_from_be_bytes b < 2 ^ 16) (λ x y h. omega arith) b w

pub words-IsBytes :
    (n : ℕ)
    → (n < 2 ^ 32 → IsBytes (u32_to_be_bytes n)) × (n < 2 ^ 16 → IsBytes (u16_to_be_bytes n))
unfolding u32_to_be_bytes u16_to_be_bytes
words-IsBytes n = (λ h. omega arith, λ h. omega arith)
