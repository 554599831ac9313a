-- ===== src/Observability.antt =====
-- src/observability.rs: the labels of the metrics and the counters that carry them; and
-- `record_decode_metric` of src/network.rs, the log line for a packet that does not decode. The
-- `metrics` crate is the parameter `Recorder`.
mod Tests
pub mod Counting
pub mod Drain
pub mod Logging
pub mod Setup
use Prim.Native.String.{String}
use ws_gateway.Common.{ℕ, ◌+◌, ◌%◌, ◌^◌, ◌≡◌, ◌≢◌, List, [], ◌∷◌}
use ws_gateway.Protocol.PacketType.{PacketType, raw_motion, ai_event, system_cmd, heartbeat}
use ws_gateway.Protocol.TargetType.{TargetType, broadcast, unicast}
use ws_gateway.Protocol.Header.{
  DecodeError, too_short, unsupported_version, non_zero_reserved, unknown_packet_type,
  unknown_target_type, non_ascii_room_id, non_ascii_user_id, length_mismatch,
}

unfoldable pub packet_type_label : PacketType → String
packet_type_label raw_motion = "RawMotion"
packet_type_label ai_event = "AiEvent"
packet_type_label system_cmd = "SystemCmd"
packet_type_label heartbeat = "Heartbeat"

unfoldable pub target_type_label : TargetType → String
target_type_label broadcast = "Broadcast"
target_type_label unicast = "Unicast"

unfoldable pub drop_reason_label : DecodeError → String
drop_reason_label too_short = "too_short"
drop_reason_label (unsupported_version v) = "unsupported_version"
drop_reason_label (non_zero_reserved v) = "non_zero_reserved"
drop_reason_label (unknown_packet_type v) = "unknown_packet_type"
drop_reason_label (unknown_target_type v) = "unknown_target_type"
drop_reason_label non_ascii_room_id = "non_ascii_room_id"
drop_reason_label non_ascii_user_id = "non_ascii_user_id"
drop_reason_label (length_mismatch declared actual) = "length_mismatch"

-- A counter is named by its name and its labels.
abbrev pub Key : Type 0
Key = String × List (String × String)

-- The counters of the `metrics` crate: each key has its own value, a `u64` that wraps.
pub record Recorder : Type 1 where
  pub State : Type 0
  pub value : State → Key → ℕ
  pub increment : Key → State → State
  pub counts : (s : State) (k : Key) → value (increment k s) k ≡ (value s k + 1) % 2 ^ 64
  pub keeps : (s : State) (k j : Key) → k ≢ j → value (increment k s) j ≡ value s j

abbrev pub routed_key : PacketType → TargetType → Key
routed_key pt t = (
  "packets_routed_total",
  ("packet_type", packet_type_label pt) ∷ ("target_type", target_type_label t) ∷ [],
)

abbrev pub dropped_key : String → Key
dropped_key reason = ("packets_dropped_total", ("reason", reason) ∷ [])

module _ (r : Recorder) where
  unfoldable pub metric_packet_routed : PacketType → TargetType → r.State → r.State
  metric_packet_routed pt t s = r.increment (routed_key pt t) s

  unfoldable pub metric_packet_dropped : String → r.State → r.State
  metric_packet_dropped reason s = r.increment (dropped_key reason) s

  unfoldable pub metric_packet_dropped_decode : DecodeError → r.State → r.State
  metric_packet_dropped_decode e s = r.increment (dropped_key (drop_reason_label e)) s

-- A structured log line at level `WARN`: its numeric fields and its message.
pub record Warning : Type 0 where
  pub fields : List (String × ℕ)
  pub message : String

unfoldable pub record_decode_metric : DecodeError → Warning
record_decode_metric too_short = record {
  fields = [];
  message = "decode: packet too short (min 24 B, protocol v0x2)";
}
record_decode_metric (unsupported_version v) = record {
  fields = ("version", v) ∷ [];
  message = "decode: unsupported protocol version";
}
record_decode_metric (non_zero_reserved v) = record {
  fields = ("value", v) ∷ [];
  message = "decode: reserved field must be 0x00";
}
record_decode_metric (unknown_packet_type v) = record {
  fields = ("raw_type", v) ∷ [];
  message = "decode: unknown packet type";
}
record_decode_metric (unknown_target_type v) = record {
  fields = ("raw_type", v) ∷ [];
  message = "decode: unknown target type";
}
record_decode_metric non_ascii_room_id = record {
  fields = [];
  message = "decode: room_id contains non-ASCII bytes";
}
record_decode_metric non_ascii_user_id = record {
  fields = [];
  message = "decode: user_id contains non-ASCII bytes";
}
record_decode_metric (length_mismatch declared actual) = record {
  fields = ("declared", declared) ∷ ("actual", actual) ∷ [];
  message = "decode: payload length mismatch";
}
