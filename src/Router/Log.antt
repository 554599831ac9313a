-- ===== src/Router/Log.antt =====
-- src/routing.rs: what the router logs.
pub mod Silence
use ws_gateway.Common.{Option, none, some, List, [], ◌∷◌, ◌++◌, if◌then◌else◌, Result, ok, err}
use ws_gateway.Protocol.PacketType.{PacketType, raw_motion, ai_event, system_cmd, heartbeat}
use ws_gateway.Protocol.TargetType.{TargetType, broadcast, unicast}
use ws_gateway.Protocol.Fields.{Bytes}
use ws_gateway.Protocol.Header.{PacketHeader, room_id_str, user_id_str, encode}
use ws_gateway.DashMap.{lookup, is_empty}
use ws_gateway.Channel.{Notify, ChannelInner, try_send}
use ws_gateway.Router.{Sender, Room, Rooms, Retry, Shared, Iteration, register, dispatch, targets}

-- The messages, with the room and the user that they name.
pub data Line : Type 0 where
  duplicate_kicked : Bytes → Bytes → Line
  room_destroyed : Bytes → Line
  room_not_found : Bytes → Bytes → Line
  user_not_in_room : Bytes → Bytes → Line
  channel_full_retrying : Bytes → Bytes → Line
  send_failed : Bytes → Bytes → Line
  channel_full : PacketType → Bytes → Bytes → Line

unfoldable pub kicked_line : Bytes → Bytes → Option Sender → List Line
kicked_line r u none = []
kicked_line r u (some old) = duplicate_kicked r u ∷ []

unfoldable pub register_lines : Rooms → Bytes → Bytes → Sender → List Line
unfolding kicked_line
register_lines rooms r u tx = kicked_line r u (register rooms r u tx).1

-- The clean-up of a room, where it removes one.
unfoldable pub cleanup_lines : Rooms → Bytes → List Line
cleanup_lines rooms r = elim (lookup r rooms) [
  | none ↦ []
  | some room ↦ if is_empty room then room_destroyed r ∷ [] else []
]

-- The end of a retry task.
unfoldable pub finish_retry_lines : Retry → Result (Unit {0}) Bytes → List Line
finish_retry_lines t (ok _) = []
finish_retry_lines t (err _) = send_failed t.room_id t.user_id ∷ []

module _ {n : Notify} where
  -- What an attempt that was refused logs.
  abbrev refused : Line → Result (Unit {0}) Bytes × ChannelInner n Bytes → List Line
  refused line (ok _, c) = []
  refused line (err _, c) = line ∷ []

  unfoldable pub deliver_lines : PacketType → Retry → Shared n → List Line
  deliver_lines raw_motion t s = []
  deliver_lines system_cmd t s =
      refused (channel_full_retrying t.room_id t.user_id) (try_send t.packet (s.channels t.tx))
  deliver_lines ai_event t s =
      refused (channel_full ai_event t.room_id t.user_id) (try_send t.packet (s.channels t.tx))
  deliver_lines heartbeat t s =
      refused (channel_full heartbeat t.room_id t.user_id) (try_send t.packet (s.channels t.tx))

  unfoldable pub dispatch_lines : PacketHeader → Bytes → Bytes × Sender → Shared n → List Line
  unfolding deliver_lines
  dispatch_lines header payload (target_user, tx) s =
      deliver_lines header.packet_type
        (record {
          tx = tx;
          packet = encode header payload;
          room_id = room_id_str header;
          user_id = target_user;
        })
        s

  unfoldable pub dispatch_all_lines :
      PacketHeader → Bytes → List (Bytes × Sender) → Shared n → List Line
  dispatch_all_lines header payload [] s = []
  dispatch_all_lines header payload (t ∷ ts) s =
      dispatch_lines header payload t s
      ++ dispatch_all_lines header payload ts (dispatch header payload t s)

  module _ (iteration : Iteration) where
    -- In the room that was found.
    unfoldable pub room_lines : PacketHeader → Bytes → TargetType → Room → Shared n → List Line
    unfolding dispatch_all_lines targets
    room_lines header payload broadcast room s =
        dispatch_all_lines header payload (targets iteration header broadcast room) s
    room_lines header payload unicast room s = elim (lookup (user_id_str header) room) [
      | none ↦ user_not_in_room (room_id_str header) (user_id_str header) ∷ []
      | some tx ↦ dispatch_all_lines header payload ((user_id_str header, tx) ∷ []) s
    ]

    unfoldable pub route_lines : PacketHeader → Bytes → Shared n → List Line
    unfolding room_lines
    route_lines header payload s = elim (lookup (room_id_str header) s.rooms) [
      | none ↦ room_not_found (room_id_str header) (user_id_str header) ∷ []
      | some room ↦ room_lines header payload header.target_type room s
    ]
