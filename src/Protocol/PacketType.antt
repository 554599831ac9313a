-- ===== src/Protocol/PacketType.antt =====
-- doc/gateway-protocol/src/lib.rs: `PacketType` and its byte on the wire.
use ws_gateway.Common.{ℕ, ◌≡◌, ◌↔◌, Option, none, some, arith, ◌==◌, if◌then◌else◌}

pub data PacketType : Type 0 where
  raw_motion ai_event system_cmd heartbeat : PacketType

unfoldable pub as_u8 : PacketType → ℕ
as_u8 raw_motion = 0x01
as_u8 ai_event = 0x02
as_u8 system_cmd = 0x03
as_u8 heartbeat = 0x04

unfoldable pub from_u8 : ℕ → Option PacketType
from_u8 v =
    if v == 0x01
    then some raw_motion
    else if v == 0x02
    then some ai_event
    else if v == 0x03
    then some system_cmd
    else if v == 0x04
    then some heartbeat
    else none

-- A byte decodes to a packet type exactly when it is that type's code.
pub from_u8-as_u8 : (v : ℕ) (t : PacketType) → (from_u8 v ≡ some t) ↔ (v ≡ as_u8 t)
unfolding from_u8 as_u8
from_u8-as_u8 v raw_motion = (λ h. ground arith, λ h. ground arith)
from_u8-as_u8 v ai_event = (λ h. ground arith, λ h. ground arith)
from_u8-as_u8 v system_cmd = (λ h. ground arith, λ h. ground arith)
from_u8-as_u8 v heartbeat = (λ h. ground arith, λ h. ground arith)
