-- ===== src/Process/Tests.antt =====
-- The witnesses of the theorems on src/main.rs: a start, a datagram, the signal, another datagram.
use ws_gateway.Common.{◌≡◌, ◌≢◌, refl, true, some, ◌∷◌, arith}
use ws_gateway.Network.{udp_turn}
use ws_gateway.System.{hears}
use ws_gateway.Process.{
  stopped, runnable, serving, Process, launch, spawn_udp, spawn_ws, bind_udp, shut_down, spawns_udp,
  spawns_ws, binds, acts, shuts_down, Moves, Runs, stays, moves,
}
use ws_gateway.Process.Shutdown.{shut_down-receives}
use ws_gateway.Fixtures.{one_permit, in_order, hello_packet, hello_packet-IsBytes}

abbrev waiting : Process one_permit
waiting = bind_udp true (spawn_ws (spawn_udp (launch one_permit)))

abbrev hearing : Process one_permit → Process one_permit
hearing p = record p {
  system = record p.system {
    gateway = udp_turn (some hello_packet) p.system.gateway;
    received = hello_packet ∷ p.system.received;
  };
}

waiting-serving : (waiting.stage ≡ serving) × (waiting.receiving ≡ runnable)
unfolding bind_udp spawn_ws
waiting-serving = (refl, refl)

started : Runs in_order (launch one_permit) waiting
unfolding launch spawn_udp spawn_ws
started =
    moves (moves (moves stays (spawns_udp refl)) (spawns_ws refl))
      (binds true (omega arith) (omega arith))

-- From the launch to the signal, with a datagram between.
drained : Runs in_order (launch one_permit) (shut_down (hearing waiting))
unfolding bind_udp spawn_ws
drained =
    moves (moves started (acts (hears (some hello_packet) (hello_packet-IsBytes, tt)) (tt, refl)))
      (shuts_down refl)

still_draining : (shut_down waiting).stage ≢ stopped
unfolding shut_down
still_draining = λ e. ground arith

shut_down-receives_example : Moves in_order (shut_down waiting) (hearing (shut_down waiting))
shut_down-receives_example =
    shut_down-receives in_order waiting (shut_down waiting) hello_packet waiting-serving.0
      waiting-serving.1 stays still_draining hello_packet-IsBytes
