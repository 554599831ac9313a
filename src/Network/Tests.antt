-- ===== src/Network/Tests.antt =====
-- The tasks of src/network.rs on concrete events.
use ws_gateway.Common.{ℕ, ◌≡◌, ◌↔◌, ◌≢◌, refl, arith, List, [], ◌∷◌, ok, some, none, true}
use ws_gateway.Protocol.PacketType.{ai_event}
use ws_gateway.Protocol.TargetType.{unicast}
use ws_gateway.Protocol.Fields.{Bytes, IsBytes}
use ws_gateway.Protocol.Header.{
  PacketHeader, room_id_len, user_id_len, new, room_id_str, encode, decode,
}
use ws_gateway.Protocol.Header.New.{Fits}
use ws_gateway.Router.{route}
use ws_gateway.Network.{
  Session, Event, message_closed, message_pong, outbound, tick, goes_on, ping, binary, upgrade,
  ws_handler, run_udp, open_connection, handle_ws_connection,
}
use ws_gateway.Network.Udp.{accepted, datagrams, Counted, run_udp_lem}
use ws_gateway.Network.Handshake.{ws_handler_iff, nul_room_unreachable, opened_receives}
use ws_gateway.Network.Heartbeat.{Detected, silence-Detected}
use ws_gateway.Fixtures.{
  one_permit, in_order, room_name, user_name, hello_payload, hello_packet, gateway, session,
}

abbrev Events : Type 0
Events = List (ℕ × Event one_permit)

run_udp_lem_example :
    Counted gateway
      (run_udp (some hello_packet ∷ none ∷ some [] ∷ []) gateway)
      (accepted (some hello_packet ∷ none ∷ some [] ∷ []))
      (datagrams (some hello_packet ∷ none ∷ some [] ∷ []))
run_udp_lem_example = run_udp_lem (some hello_packet ∷ none ∷ some [] ∷ []) gateway (omega arith)

ws_handler_iff_example : (ws_handler room_name user_name ≡ upgrade room_name user_name) ↔ (
    Fits room_id_len room_name
    × Fits user_id_len user_name
    × (room_name ≡ room_name)
    × (user_name ≡ user_name))
ws_handler_iff_example = ws_handler_iff room_name user_name room_name user_name

nul_room_unreachable_example :
    (ws_handler (65 ∷ 0 ∷ []) user_name ≡ upgrade (65 ∷ 0 ∷ []) user_name)
    × ((buf : Bytes) (h : PacketHeader) (payload : Bytes)
        → IsBytes buf
        → decode buf ≡ ok (h, payload)
        → room_id_str h ≢ 65 ∷ 0 ∷ [])
nul_room_unreachable_example =
    nul_room_unreachable (65 ∷ []) [] user_name (refl, omega arith) (refl, omega arith)

accepts : ws_handler room_name user_name ≡ upgrade room_name user_name
unfolding ws_handler
accepts = refl

opened_receives_example :
    (h : PacketHeader) × (new ai_event unicast room_name user_name 7 2 ≡ ok h)
    × (((route in_order h hello_payload
            (open_connection 9 1_000 room_name user_name gateway).gateway.shared).channels
          9).queue
        ≡ encode h hello_payload ∷ [])
opened_receives_example =
    opened_receives in_order ai_event room_name user_name 7 hello_payload 9 1_000 gateway accepts
      (omega arith) (omega arith) (omega arith) (omega arith)

abbrev life : Events
life =
    (10, tick true)
    ∷ (20, message_pong)
    ∷ (30, outbound (some hello_packet) true)
    ∷ (40, message_closed)
    ∷ []

abbrev opened : Session one_permit
opened = open_connection 9 5 room_name user_name gateway

abbrev before_cleanup : Session one_permit
before_cleanup = record {
  gateway = opened.gateway;
  last_alive = 20;
  frames = ping ∷ binary hello_packet ∷ [];
}

begins : handle_ws_connection 9 5 room_name user_name [] true gateway ≡ goes_on opened
unfolding handle_ws_connection
begins = refl

abbrev answers : Events
answers = (10_000, tick true) ∷ (10_001, message_pong) ∷ (40_000, tick true) ∷ []

abbrev silence : Events
silence = (10_000, tick true) ∷ (20_000, tick true) ∷ (30_000, tick true) ∷ (40_000, tick true) ∷ []

silence-Detected_example : Detected session silence
silence-Detected_example =
    silence-Detected silence 0 session (omega arith) (omega arith) (omega arith)
