-- ===== src/Protocol.antt =====
-- doc/gateway-protocol/src/lib.rs.
pub mod PacketType
pub mod TargetType
pub mod Fields
pub mod Header
mod Tests
