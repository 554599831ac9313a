-- ===== src/System/Tests.antt =====
-- A run of the gateway of src/network.rs: a user connects, a datagram for it comes, is routed,
-- delivered and written to its client.
mod Connected
use mathlib.Core.List.{Memᴰ}
use ws_gateway.Common.{
  ltb, map, ◌≢◌, inr, none, ◌+◌, ℕ, ◌%◌, ◌^◌, ◌≡◌, ◌<◌, ◌≤◌, if◌then◌else◌, refl, List, [], ◌∷◌,
  ◌++◌, some, true, arith, length,
}
use ws_gateway.Protocol.PacketType
use ws_gateway.Protocol.TargetType
use ws_gateway.Protocol.Fields.{
  Bytes, first_zero, is_valid_ascii_field, ascii_field_str, from_utf8_or_empty, utf8_run,
}
use ws_gateway.Protocol.Header.{
  decode, room_id_str, user_id_str, encode, encode_header, u32_from_be_bytes, u16_from_be_bytes,
  u32_to_be_bytes, u16_to_be_bytes,
}
use ws_gateway.DashMap.{same, lookup, insert}
use ws_gateway.Channel.{closed, ChannelInner, item, bounded, try_send, recv}
use ws_gateway.Channel.Wakeup.{recv-item}
use ws_gateway.Router.{user_count, room_count, route, register, new, dispatch, targets}
use ws_gateway.Router.Registry.{sender_of}
use ws_gateway.Router.References.{references}
use ws_gateway.Network
use ws_gateway.Network.{
  binary, upgrade, ws_handler, udp_turn, udp_decoded, turn, message_binary, message_closed, tick,
  handle_ws_connection,
}
use ws_gateway.State.{
  running, done, System, Delivery, init, set_shared, set_channel, resume, opened, counted,
  registered, resolved, polled, strong,
}
use ws_gateway.System.{counts, Reach, start, later, opens, hears, resolves, delivers, receives}
use ws_gateway.System.Safety.{IsRelayed, isolated, queues_bounded}
use ws_gateway.System.Gauge.{live, gauge_exact}
use ws_gateway.Router.Cleanup
use ws_gateway.Router.Cleanup.{Event}
use ws_gateway.System.Registry.{table, history, Reach-refines}
use ws_gateway.System.Loads.{tally, of_retry}
use ws_gateway.System.Loads.Turns.{shown}
use ws_gateway.System.Once.{at_most_once}
use ws_gateway.System.Kick.{replaced-unregisters}
use ws_gateway.System.Passage.{datagram-written, message-written}
use ws_gateway.Router.Registry.{IsClean}
use ws_gateway.System.Listed.{stands}
use ws_gateway.System.Population.{registry_bounded}
use ws_gateway.Router.Sizes.{sum_below}
use ws_gateway.System.Rest.{IsAtRest, rest-IsClean}
use ws_gateway.System.Senders.{recv-registered, held_once}
use ws_gateway.Fixtures.{
  decode-hello, hello-room_id_str, hello-user_id_str, one_permit, in_order, room_name, user_name,
  hello, hello_payload, hello_packet, hello_packet-IsBytes,
}

abbrev connected : System one_permit
connected = counted 5 0 (opened room_name user_name (init one_permit))

abbrev heard : System one_permit
heard = record connected {
  gateway = udp_turn (some hello_packet) connected.gateway;
  received = hello_packet ∷ connected.received;
}

abbrev routed : System one_permit
routed = record heard {
  gateway = record heard.gateway { spawned = [] };
  sending =
      heard.sending
      ++ resolved in_order hello hello_payload
          (lookup (room_id_str hello) heard.gateway.shared.rooms);
}

abbrev delivery : Delivery
delivery = record { header = hello; payload = hello_payload; target_user = user_name; tx = 0 }

abbrev delivered : System one_permit
delivered =
    record (set_shared routed (dispatch hello hello_payload (user_name, 0) routed.gateway.shared)) {
      sending = [];
    }

accepts : ws_handler room_name user_name ≡ upgrade room_name user_name
unfolding ws_handler
accepts = refl

made : 0 < (opened room_name user_name (init one_permit)).next
unfolding opened
made = omega arith

at_start : ((opened room_name user_name (init one_permit)).connections 0).phase ≡ registered
unfolding opened init
at_start = refl

spawned-heard : heard.gateway.spawned ≡ (hello, hello_payload) ∷ []
unfolding udp_turn opened counted init decode u32_from_be_bytes u16_from_be_bytes
    is_valid_ascii_field first_zero PacketType.from_u8 TargetType.from_u8
spawned-heard = refl

sending-routed : routed.sending ≡ delivery ∷ []
unfolding udp_turn opened counted init decode u32_from_be_bytes u16_from_be_bytes
    is_valid_ascii_field first_zero PacketType.from_u8 TargetType.from_u8 resolved room_id_str
    user_id_str ascii_field_str from_utf8_or_empty utf8_run register new targets lookup insert same
sending-routed = refl

reached : Reach in_order delivered
reached =
    later
      (later
        (later (later (later start (opens room_name user_name accepts)) (counts 0 5 made at_start))
          (hears (some hello_packet) (hello_packet-IsBytes, tt)))
        (resolves hello hello_payload [] [] spawned-heard))
      (delivers delivery [] [] sending-routed)

queue-delivered : (delivered.gateway.shared.channels 0).queue ≡ hello_packet ∷ []
unfolding dispatch try_send udp_turn opened counted init bounded decode u32_from_be_bytes
    u16_from_be_bytes is_valid_ascii_field first_zero PacketType.from_u8 TargetType.from_u8
    PacketType.as_u8 TargetType.as_u8 encode encode_header u32_to_be_bytes u16_to_be_bytes
queue-delivered = refl

abbrev emptied : ChannelInner one_permit Bytes
emptied = record (delivered.gateway.shared.channels 0) { queue = [] }

abbrev written : System one_permit
written = polled 7 true 0 (item hello_packet) (set_channel delivered 0 emptied)

takes :
    recv (strong delivered 0) (delivered.gateway.shared.channels 0)
    ≡ some (item hello_packet, emptied)
takes =
    recv-item (strong delivered 0) (delivered.gateway.shared.channels 0) hello_packet []
      queue-delivered

exists : 0 < delivered.next
unfolding opened counted
exists = omega arith

runs : (delivered.connections 0).phase ≡ running
unfolding opened counted init
runs = refl

reached_written : Reach in_order written
reached_written = later reached (receives 0 7 true (item hello_packet) emptied exists runs takes)

frames-written : (written.connections 0).frames ≡ binary hello_packet ∷ []
unfolding polled resume turn opened counted init
frames-written = refl

isolated_example : IsRelayed written 0 hello_packet
isolated_example =
    isolated in_order written reached_written 0 hello_packet
      (inr (rw frames-written (Memᴰ.head refl)))

queues_bounded_example : length (delivered.gateway.shared.channels 0).queue ≤ 64
queues_bounded_example = queues_bounded in_order delivered reached 0

gauge_exact_example :
    written.gateway.counters.ws_connections_active ≡ live written.next written.connections % 2 ^ 64
gauge_exact_example = gauge_exact in_order written reached_written

Reach-refines_example : Cleanup.Reach (table written) (history in_order reached_written)
Reach-refines_example = Reach-refines in_order reached_written

-- Only the opening of the connection is an event of the registry.
one_event : history in_order reached_written ≡ Event.joined room_name user_name 0 ∷ []
unfolding reached_written reached init
one_event = refl

-- The one packet that came stands in the queue, and is written later.
abbrev is_hello : Bytes → ℕ
is_hello x = if same x hello_packet then 1 else 0

at_most_once_example :
    tally (shown is_hello) (written.connections 0).frames
      + tally is_hello (written.gateway.shared.channels 0).queue
      + tally (of_retry is_hello 0) written.gateway.shared.retries
    ≤ tally is_hello written.received
at_most_once_example = at_most_once in_order is_hello 0 written reached_written

registered-delivered : sender_of delivered.gateway.shared.rooms room_name user_name ≡ some 0
unfolding dispatch udp_turn udp_decoded opened counted init register new lookup insert same decode
    u32_from_be_bytes u16_from_be_bytes is_valid_ascii_field first_zero PacketType.from_u8
    TargetType.from_u8
registered-delivered = refl

recv-registered_example : item hello_packet ≢ closed
recv-registered_example =
    recv-registered delivered room_name user_name 0 (item hello_packet) emptied registered-delivered
      takes

held_once_example :
    references 0 written.gateway.shared.rooms ≤ (if ltb 0 written.next then 1 else 0)
held_once_example = held_once in_order reached_written 0
