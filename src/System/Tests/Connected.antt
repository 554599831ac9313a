-- ===== src/System/Tests/Connected.antt =====
-- A user of the gateway of src/network.rs that has just connected, and what can happen to it.
use ws_gateway.Common.{
  map, true, none, ◌↔◌, ◌+◌, ◌≡◌, ◌<◌, ◌≤◌, refl, [], ◌∷◌, ◌++◌, some, arith, length,
}
use ws_gateway.Protocol.Header.{room_id_str, user_id_str}
use ws_gateway.DashMap.{same, lookup, insert}
use ws_gateway.Channel.{closed, bounded, recv}
use ws_gateway.Router.{user_count, room_count, register, new}
use ws_gateway.Router.Registry.{sender_of}
use ws_gateway.Network.{binary, udp_turn, turn, tick}
use ws_gateway.State.{
  running, leaving, resume, session_of, done, System, init, opened, counted, registered, strong,
}
use ws_gateway.System.{counts, Reach, later, opens, hears}
use ws_gateway.System
use ws_gateway.System.Clock.{Clocked, start, passes, acts, last_heard}
use ws_gateway.System.Clock.Silence.{dropped_iff}
use ws_gateway.System.Senders.{replaced-ends}
use ws_gateway.System.Kick.{replaced-unregisters}
use ws_gateway.System.Passage.{datagram-written, message-written}
use ws_gateway.Router.Registry.{IsClean}
use ws_gateway.System.Listed.{stands}
use ws_gateway.System.Population.{registry_bounded}
use ws_gateway.Router.Sizes.{sum_below}
use ws_gateway.System.Rest.{IsAtRest, rest-IsClean}
use ws_gateway.System.Routes.{Steps}
use ws_gateway.Fixtures.{
  decode-hello, hello-room_id_str, hello-user_id_str, one_permit, in_order, room_name, user_name,
  hello, hello_payload, hello_packet, hello_packet-IsBytes,
}
use ws_gateway.System.Tests.{connected, heard, accepts, made, at_start}

reached_connected : Reach in_order connected
reached_connected =
    later (later System.start (opens room_name user_name accepts)) (counts 0 5 made at_start)

idle-connected :
    (sender_of connected.gateway.shared.rooms room_name user_name ≡ some 0)
    × ((connected.gateway.shared.channels 0).queue ≡ [])
    × (connected.sending ≡ [])
    × (connected.gateway.shared.retries ≡ [])
unfolding counted opened init bounded register new lookup insert same
idle-connected = (refl, refl, refl, refl)

-- A second connection under the same names.
replaced-ends_example :
    let t = opened room_name user_name connected in
    let c = t.gateway.shared.channels 0 in recv (strong t 0) c ≡ some (closed, c)
replaced-ends_example =
    replaced-ends in_order reached_connected room_name user_name 0 idle-connected.0 idle-connected.1
      idle-connected.2 idle-connected.3

running-connected : (connected.connections 0).phase ≡ running
unfolding counted opened init
running-connected = refl

-- The second connection is at its handshake's end when the first one's task is over.
replaced-unregisters_example :
    (t : System one_permit) × Steps in_order connected t
    × ((t.connections 0).phase ≡ done)
    × (t.connections 1 ≡ record {
      room = room_name;
      user = user_name;
      last_alive = 0;
      frames = [];
      phase = registered;
    })
    × (sender_of t.gateway.shared.rooms room_name user_name ≡ none)
unfolding counted opened init
replaced-unregisters_example =
    replaced-unregisters in_order connected room_name user_name 0 reached_connected accepts
      idle-connected.0 running-connected idle-connected.1 idle-connected.2 idle-connected.3

hello-registered :
    sender_of connected.gateway.shared.rooms (room_id_str hello) (user_id_str hello) ≡ some 0
hello-registered = rw (hello-room_id_str, hello-user_id_str) idle-connected.0

few-queued : length (connected.gateway.shared.channels 0).queue < 64
few-queued = rw idle-connected.1 (omega arith)

datagram-written_example :
    (t : System one_permit) × Steps in_order
      (record connected {
        gateway = udp_turn (some hello_packet) connected.gateway;
        received = hello_packet ∷ connected.received;
      })
      t
    × ((t.connections 0).frames
        ≡ (connected.connections 0).frames
          ++ map binary ((connected.gateway.shared.channels 0).queue ++ hello_packet ∷ []))
    × ((t.gateway.shared.channels 0).queue ≡ [])
datagram-written_example =
    datagram-written in_order connected reached_connected hello_packet hello hello_payload
      (user_id_str hello) 0 7 hello_packet-IsBytes decode-hello (λ _. refl) hello-registered
      running-connected few-queued

connected_made : 0 < connected.next
unfolding counted opened
connected_made = made

-- The user's own message comes back to it.
message-written_example :
    (t : System one_permit) × Steps in_order connected t
    × ((t.connections 0).frames
        ≡ (connected.connections 0).frames
          ++ map binary ((connected.gateway.shared.channels 0).queue ++ hello_packet ∷ []))
    × ((t.gateway.shared.channels 0).queue ≡ [])
message-written_example =
    message-written in_order connected reached_connected hello_packet hello hello_payload
      (user_id_str hello) 0 0 7 hello_packet-IsBytes decode-hello (λ _. refl) hello-registered
      connected_made running-connected running-connected few-queued

reached_heard : Reach in_order heard
reached_heard = later reached_connected (hears (some hello_packet) (hello_packet-IsBytes, tt))

-- The datagram that came in has still to be routed.
rest-IsClean_example :
    (t : System one_permit) × Steps in_order heard t × IsAtRest t × IsClean t.gateway.shared.rooms
rest-IsClean_example = rest-IsClean in_order heard reached_heard

registry_bounded_example :
    (user_count connected.gateway.shared.rooms ≤ sum_below connected.next (stands connected))
    × (room_count connected.gateway.shared.rooms
        ≤ user_count connected.gateway.shared.rooms + length connected.pending)
registry_bounded_example = registry_bounded in_order connected reached_connected

-- The connection is opened and counted at 5, and nothing else happens until 40006.
silent_run : Clocked in_order 40_006 connected
silent_run =
    passes 40_006
      (acts (acts (start 5) (opens room_name user_name accepts) tt) (counts 0 5 made at_start) refl)
      (omega arith)

dropped_iff_example :
    (((resume connected 0 (turn 40_006 (tick true) (session_of connected 0))).connections 0).phase
      ≡ leaving)
    ↔ (last_heard in_order silent_run 0 + 30_000 < 40_006)
dropped_iff_example = dropped_iff in_order silent_run 0 running-connected
