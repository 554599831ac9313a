-- ===== src/Protocol/TargetType.antt =====
-- doc/gateway-protocol/src/lib.rs: `TargetType` and its byte on the wire.
use ws_gateway.Common.{ℕ, ◌≡◌, ◌↔◌, Option, none, some, arith, ◌==◌, if◌then◌else◌}

pub data TargetType : Type 0 where
  broadcast unicast : TargetType

unfoldable pub as_u8 : TargetType → ℕ
as_u8 broadcast = 0x01
as_u8 unicast = 0x02

unfoldable pub from_u8 : ℕ → Option TargetType
from_u8 v = if v == 0x01 then some broadcast else if v == 0x02 then some unicast else none

-- A byte decodes to a target type exactly when it is that type's code.
pub from_u8-as_u8 : (v : ℕ) (t : TargetType) → (from_u8 v ≡ some t) ↔ (v ≡ as_u8 t)
unfolding from_u8 as_u8
from_u8-as_u8 v broadcast = (λ h. ground arith, λ h. ground arith)
from_u8-as_u8 v unicast = (λ h. ground arith, λ h. ground arith)
