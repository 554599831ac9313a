-- ===== src/Observability/Logging.antt =====
-- src/observability.rs: the helpers that log one line. No other part of the program calls them:
-- src/network.rs and src/routing.rs log on their own.
use Prim.Native.String.{String}
use ws_gateway.Common.{List, [], ◌∷◌}
use ws_gateway.Protocol.Fields.{Bytes}

pub data Level : Type 0 where
  info warn error : Level

-- A line with its fields, and with the text that is put into its message.
pub record Entry : Type 0 where
  pub level : Level
  pub fields : List (String × Bytes)
  pub message : String
  pub argument : Bytes

unfoldable pub log_connection_established : Bytes → Bytes → Entry
log_connection_established room user = record {
  level = info;
  fields = ("room", room) ∷ ("user", user) ∷ [];
  message = "connection established";
  argument = [];
}

unfoldable pub log_connection_closed : Bytes → Bytes → Entry
log_connection_closed room user = record {
  level = info;
  fields = ("room", room) ∷ ("user", user) ∷ [];
  message = "connection closed";
  argument = [];
}

unfoldable pub log_frame_dropped : Bytes → Entry
log_frame_dropped reason = record {
  level = warn;
  fields = [];
  message = "frame dropped: ";
  argument = reason;
}

unfoldable pub log_heartbeat_timeout : Bytes → Bytes → Entry
log_heartbeat_timeout room user = record {
  level = warn;
  fields = ("room", room) ∷ ("user", user) ∷ [];
  message = "heartbeat timeout";
  argument = [];
}

unfoldable pub log_duplicate_connection : Bytes → Bytes → Entry
log_duplicate_connection room user = record {
  level = warn;
  fields = ("room", room) ∷ ("user", user) ∷ [];
  message = "duplicate connection, kicking old session";
  argument = [];
}

unfoldable pub log_internal_error : Bytes → Entry
log_internal_error err = record {
  level = error;
  fields = [];
  message = "internal error: ";
  argument = err;
}
