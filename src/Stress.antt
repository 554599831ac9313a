-- ===== src/Stress.antt =====
-- examples/stress.rs: the packets that the load generator sends. The sockets, the clock and the
-- statistics over floating-point latencies are left out.
mod Tests
pub mod Limit
pub mod Report
pub mod Bench
use ws_gateway.Common.{
  ℕ, zero, suc, ◌+◌, ◌/◌, ◌%◌, Option, none, some, List, [], ◌∷◌, ◌++◌, length, ltb, if◌then◌else◌,
  ok, err,
}
use ws_gateway.Decimal.{decimal}
use ws_gateway.Protocol.PacketType.{ai_event}
use ws_gateway.Protocol.TargetType.{broadcast}
use ws_gateway.Protocol.Fields.{Bytes}
use ws_gateway.Protocol.Header.{new, encode}

-- "bench", "warm", "user" and "msg"
abbrev pub bench : Bytes
bench = 98 ∷ 101 ∷ 110 ∷ 99 ∷ 104 ∷ []

abbrev pub warm : Bytes
warm = 119 ∷ 97 ∷ 114 ∷ 109 ∷ []

abbrev pub user : Bytes
user = 117 ∷ 115 ∷ 101 ∷ 114 ∷ []

abbrev pub msg : Bytes
msg = 109 ∷ 115 ∷ 103 ∷ []

-- `none` is the panic of `unwrap`.
unfoldable pub make_packet : Bytes → Bytes → Option Bytes
make_packet name payload = elim (new ai_event broadcast bench name 0 (length payload)) [
  | ok h ↦ some (encode h payload)
  | err e ↦ none
]

infixl 5 ◌>>=◌
abbrev pub ◌>>=◌ {ℓ κ} : {A : Type ℓ} {B : Type κ} → Option A → (A → Option B) → Option B
none >>= f = none
some a >>= f = f a

-- One packet for each of the clients from `i` on, in their order, `k` of them.
unfoldable pub send_each : Bytes → Bytes → ℕ → ℕ → Option (List Bytes)
send_each prefix payload i zero = some []
send_each prefix payload i (suc k) = do
  wire ← make_packet (prefix ++ decimal i) payload
  rest ← send_each prefix payload (i + 1) k
  some (wire ∷ rest)

-- The measured rounds from `round` on, `m` of them.
unfoldable pub rounds : ℕ → ℕ → ℕ → Option (List Bytes)
rounds clients round zero = some []
rounds clients round (suc m) = do
  wires ← send_each user (msg ++ decimal round) 0 clients
  rest ← rounds clients (round + 1) m
  some (wires ++ rest)

-- All packets of a run: the warm-up, then the rounds.
unfoldable pub run : ℕ → ℕ → Option (List Bytes)
run clients messages = do
  warmed ← send_each warm warm 0 clients
  measured ← rounds clients 0 messages
  some (warmed ++ measured)
