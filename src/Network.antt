-- ===== src/Network.antt =====
-- src/network.rs: the counters, the UDP receive loop, the WebSocket handshake and the task of one
-- WebSocket connection. Sockets are lists of what arrives and of what is written; times are
-- milliseconds.
mod Tests
pub mod Udp
pub mod Handshake
pub mod Closing
pub mod Heartbeat
pub mod Passage
use ws_gateway.Common.{
  ℕ, ◌+◌, ◌-◌, ◌%◌, ◌^◌, ◌≡◌, Bool, true, false, not, Option, none, some, List, [], ◌∷◌, ◌++◌, ltb,
  if◌then◌else◌, length, Result, ok, err,
}
use ws_gateway.Protocol.Fields.{Bytes, is_ascii}
use ws_gateway.Protocol.Header.{PacketHeader, DecodeError, room_id_len, user_id_len, decode}
use ws_gateway.Channel.{Notify, bounded}
use ws_gateway.Router.{Sender, Shared, update, register, unregister}

-- The static counters, and the snapshot that `metrics()` takes of them.
pub record Metrics : Type 0 where
  pub udp_packets_received : ℕ
  pub udp_decode_errors : ℕ
  pub ws_messages_received : ℕ
  pub ws_decode_errors : ℕ
  pub ws_connections_active : ℕ
  pub ws_pong_timeouts : ℕ

-- `fetch_add(1)` and `fetch_sub(1)` on an `AtomicU64` wrap.
abbrev pub fetch_add : ℕ → ℕ
fetch_add n = (n + 1) % 2 ^ 64

abbrev pub fetch_sub : ℕ → ℕ
fetch_sub n = (n + 2 ^ 64 - 1) % 2 ^ 64

-- What the network tasks share: the router's state, the counters, and the packets for which a task
-- that routes them was spawned.
pub record Gateway (n : Notify) : Type 0 where
  pub shared : Shared n
  pub counters : Metrics
  pub spawned : List (PacketHeader × Bytes)

module _ {n : Notify} where
  unfoldable pub metrics : Gateway n → Metrics
  metrics g = g.counters

  unfoldable pub udp_decoded : Result (PacketHeader × Bytes) DecodeError → Gateway n → Gateway n
  udp_decoded (ok packet) g = record g { spawned = g.spawned ++ packet ∷ [] }
  udp_decoded (err e) g = record g {
    counters = record g.counters { udp_decode_errors = fetch_add g.counters.udp_decode_errors };
  }

  -- One turn of the receive loop: `none` is a failed `recv_from`.
  unfoldable pub udp_turn : Option Bytes → Gateway n → Gateway n
  unfolding udp_decoded
  udp_turn none g = g
  udp_turn (some raw) g = udp_decoded (decode raw) (record g {
    counters = record g.counters {
      udp_packets_received = fetch_add g.counters.udp_packets_received;
    };
  })

  unfoldable pub run_udp : List (Option Bytes) → Gateway n → Gateway n
  run_udp [] g = g
  run_udp (r ∷ rs) g = run_udp rs (udp_turn r g)

pub data Response : Type 0 where
  room_not_ascii user_not_ascii room_too_long user_too_long : Response
  upgrade : Bytes → Bytes → Response

unfoldable pub ws_handler : Bytes → Bytes → Response
ws_handler room user =
    if not (is_ascii room)
    then room_not_ascii
    else if not (is_ascii user)
    then user_not_ascii
    else if ltb room_id_len (length room)
    then room_too_long
    else if ltb user_id_len (length user)
    then user_too_long
    else upgrade room user

abbrev pub ping_interval : ℕ
ping_interval = 10_000

abbrev pub pong_timeout : ℕ
pong_timeout = 30_000

abbrev pub ws_channel_capacity : ℕ
ws_channel_capacity = 64

-- A frame that the gateway writes.
pub data Frame : Type 0 where
  binary : Bytes → Frame
  ping : Frame
  close : Frame

-- The close frame, where its write succeeds; where it does not, the error is dropped.
abbrev pub best_effort_close : Bool → List Frame
best_effort_close true = close ∷ []
best_effort_close false = []

-- The state of one connection's task in its loop.
pub record Session (n : Notify) : Type 0 where
  pub gateway : Gateway n
  pub last_alive : ℕ
  pub frames : List Frame

-- What the loop's `select!` picks: a message read from the client (`message_closed` stands for a
-- close frame and for the end of the stream), what `rx.recv()` gave, or a tick. The Boolean says
-- whether the write to the socket succeeds. `others` is what other tasks did to the shared state.
pub data Event (n : Notify) : Type 0 where
  message_binary : Bytes → Event n
  message_pong message_ping message_text message_closed message_failed : Event n
  outbound : Option Bytes → Bool → Event n
  tick : Bool → Event n
  others : Shared n → Event n

pub data Flow (n : Notify) : Type 0 where
  goes_on : Session n → Flow n
  breaks : Session n → Flow n

module _ {n : Notify} where
  unfoldable pub ws_decoded : Result (PacketHeader × Bytes) DecodeError → Gateway n → Gateway n
  ws_decoded (ok packet) g = record g { spawned = g.spawned ++ packet ∷ [] }
  ws_decoded (err e) g = record g {
    counters = record g.counters { ws_decode_errors = fetch_add g.counters.ws_decode_errors };
  }

  abbrev pub count_message : Gateway n → Gateway n
  count_message g = record g {
    counters = record g.counters {
      ws_messages_received = fetch_add g.counters.ws_messages_received;
    };
  }

  abbrev pub count_timeout : Session n → Session n
  count_timeout s = record s {
    gateway = record s.gateway {
      counters = record s.gateway.counters {
        ws_pong_timeouts = fetch_add s.gateway.counters.ws_pong_timeouts;
      };
    };
  }

  -- One turn of the loop at time `now`.
  unfoldable pub turn : ℕ → Event n → Session n → Flow n
  unfolding ws_decoded
  turn now (message_binary raw) s =
      goes_on
        (record s { gateway = ws_decoded (decode raw) (count_message s.gateway); last_alive = now })
  turn now message_pong s = goes_on (record s { last_alive = now })
  turn now message_ping s = goes_on (record s { last_alive = now })
  turn now message_text s = goes_on (record s { last_alive = now })
  turn now message_closed s = breaks s
  turn now message_failed s = breaks s
  turn now (outbound (some bytes) true) s =
      goes_on (record s { frames = s.frames ++ binary bytes ∷ [] })
  turn now (outbound (some bytes) false) s = breaks s
  turn now (outbound none sent) s = breaks s
  turn now (tick false) s = breaks s
  turn now (tick true) s =
      if ltb pong_timeout (now - s.last_alive)
      then breaks (count_timeout (record s { frames = s.frames ++ ping ∷ [] }))
      else goes_on (record s { frames = s.frames ++ ping ∷ [] })
  turn now (others shared) s = goes_on (record s { gateway = record s.gateway { shared = shared } })

  -- The loop over what happens, to its `break` or to the end of the list.
  unfoldable pub loop : List (ℕ × Event n) → Session n → Flow n
  loop [] s = goes_on s
  loop ((now, e) ∷ es) s = elim (turn now e s) [ breaks s' ↦ breaks s' | goes_on s' ↦ loop es s' ]

  -- Before the loop: the channel `tx` is made, registered and counted.
  unfoldable pub open_connection : Sender → ℕ → Bytes → Bytes → Gateway n → Session n
  open_connection tx now room user g = record {
    gateway = record g {
      shared = record g.shared {
        channels = update g.shared.channels tx (bounded n Bytes ws_channel_capacity);
        rooms = (register g.shared.rooms room user tx).0;
      };
      counters = record g.counters {
        ws_connections_active = fetch_add g.counters.ws_connections_active;
      };
    };
    last_alive = now;
    frames = [];
  }

  -- After the loop. The Boolean says whether the close frame can be written.
  unfoldable pub cleanup : Bytes → Bytes → Bool → Session n → Session n
  cleanup room user sent s = record s {
    gateway = record s.gateway {
      shared = record s.gateway.shared { rooms = unregister s.gateway.shared.rooms room user };
      counters = record s.gateway.counters {
        ws_connections_active = fetch_sub s.gateway.counters.ws_connections_active;
      };
    };
    frames = s.frames ++ best_effort_close sent;
  }

  -- `goes_on` while the loop has not ended, `breaks` when the task is done.
  unfoldable pub handle_ws_connection :
      Sender → ℕ → Bytes → Bytes → List (ℕ × Event n) → Bool → Gateway n → Flow n
  unfolding loop open_connection cleanup
  handle_ws_connection tx now room user events sent g =
      elim (loop events (open_connection tx now room user g)) [
        | goes_on s ↦ goes_on s
        | breaks s ↦ breaks (cleanup room user sent s)
      ]
