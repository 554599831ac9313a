-- ===== src/System/Loads/Turns.antt =====
-- Copies of a packet that the loops of src/network.rs make: what a turn routes and what it writes.
-- `f` weighs a packet.
use ws_gateway.Common.{
  ℕ, ◌+◌, ◌-◌, ◌≤◌, ◌≡◌, refl, ap, inl, inr, true, false, Bool, Option, none, some, List, [], ◌∷◌,
  ◌++◌, arith, ◌==◌, Bool-cases, All, if◌then◌else◌, Result, ok, err, ltb,
}
use ws_gateway.Protocol.Fields.{Bytes, IsBytes}
use ws_gateway.Protocol.Header.{PacketHeader, DecodeError, decode, encode}
use ws_gateway.Protocol.Header.RoundTrip.{encode-decode}
use ws_gateway.Channel.{Notify}
use ws_gateway.Router.{Sender}
use ws_gateway.Network.{
  Frame, binary, ping, close, best_effort_close, Gateway, Session, Event, message_binary,
  message_pong, message_ping, message_text, message_closed, message_failed, outbound, others, tick,
  turn, udp_turn, udp_decoded, ws_decoded, pong_timeout,
}
use ws_gateway.Network.Closing.{session}
use ws_gateway.State.{Delivery, IsInput, datagram, message}
use ws_gateway.System.Loads.{tally, tally-append}

module _ (f : Bytes → ℕ) where
  abbrev pub shown : Frame → ℕ
  shown (binary x) = f x
  shown ping = 0
  shown close = 0

  abbrev pub of_packet : PacketHeader × Bytes → ℕ
  of_packet (h, payload) = f (encode h payload)

  abbrev pub of_delivery : Sender → Delivery → ℕ
  of_delivery c d = if d.tx == c then f (encode d.header d.payload) else 0

  tally-decoded :
      (raw : Bytes) (h : PacketHeader) (payload : Bytes) (spawned : List (PacketHeader × Bytes))
      → IsBytes raw
      → decode raw ≡ ok (h, payload)
      → tally of_packet (spawned ++ (h, payload) ∷ []) ≡ tally of_packet spawned + f raw
  tally-decoded raw h payload spawned b e =
      let (_, _, same) = encode-decode raw h payload b e in
      omega (arith, ap f same, tally-append of_packet spawned ((h, payload) ∷ []))

-- The close frame is no packet.
pub tally-close : (f : Bytes → ℕ) (sent : Bool) → tally (shown f) (best_effort_close sent) ≤ 0
tally-close f true = omega arith
tally-close f false = omega arith

module _ {n : Notify} (f : Bytes → ℕ) where
  spawns-udp_decoded :
      (raw : Bytes) (r : Result (PacketHeader × Bytes) DecodeError) (g : Gateway n)
      → IsBytes raw
      → decode raw ≡ r
      → (tally (of_packet f) (udp_decoded r g).spawned ≤ tally (of_packet f) g.spawned + f raw)
        × ((udp_decoded r g).shared ≡ g.shared)
  unfolding udp_decoded
  spawns-udp_decoded raw (ok (h, payload)) g b e =
      (omega (arith, tally-decoded f raw h payload g.spawned b e), refl)
  spawns-udp_decoded raw (err _) g b e = (omega arith, refl)

  pub spawns-udp_turn :
      (r : Option Bytes) (g : Gateway n)
      → All IsBytes (datagram r)
      → (tally (of_packet f) (udp_turn r g).spawned
          ≤ tally (of_packet f) g.spawned + tally f (datagram r))
        × ((udp_turn r g).shared ≡ g.shared)
  unfolding udp_turn
  spawns-udp_turn none g b = (omega arith, refl)
  spawns-udp_turn (some raw) g b =
      let (more, same) = spawns-udp_decoded raw (decode raw) _ b.0 refl in
      (omega (arith, more), same)

  spawns-ws_decoded :
      (raw : Bytes) (r : Result (PacketHeader × Bytes) DecodeError) (g : Gateway n)
      → IsBytes raw
      → decode raw ≡ r
      → tally (of_packet f) (ws_decoded r g).spawned ≤ tally (of_packet f) g.spawned + f raw
  unfolding ws_decoded
  spawns-ws_decoded raw (ok (h, payload)) g b e =
      omega (arith, tally-decoded f raw h payload g.spawned b e)
  spawns-ws_decoded raw (err _) g b e = omega arith

  -- A turn of a loop on what comes from its client or the clock writes no packet.
  pub turn_load :
      (now : ℕ) (e : Event n) (s : Session n)
      → IsInput e
      → (tally (of_packet f) (session (turn now e s)).gateway.spawned
          ≤ tally (of_packet f) s.gateway.spawned + tally f (message e))
        × (tally (shown f) (session (turn now e s)).frames ≡ tally (shown f) s.frames)
  unfolding turn
  turn_load now (message_binary raw) s b =
      (omega (arith, spawns-ws_decoded raw (decode raw) _ b refl), refl)
  turn_load now message_pong s b = (omega arith, refl)
  turn_load now message_ping s b = (omega arith, refl)
  turn_load now message_text s b = (omega arith, refl)
  turn_load now message_closed s b = (omega arith, refl)
  turn_load now message_failed s b = (omega arith, refl)
  turn_load now (tick false) s b = (omega arith, refl)
  turn_load now (tick true) s b =
      let one_more = tally-append (shown f) s.frames (ping ∷ []) in
      elim (Bool-cases (ltb pong_timeout (now - s.last_alive))) [
        | inl late ↦ rw late (omega arith, omega (arith, one_more))
        | inr soon ↦ rw soon (omega arith, omega (arith, one_more))
      ]
  turn_load now (outbound packet sent) s b = absurd b
  turn_load now (others shared) s b = absurd b

  -- On a packet from its channel it writes that packet at most.
  pub outbound_load :
      (now : ℕ) (x : Bytes) (sent : Bool) (s : Session n)
      → ((session (turn now (outbound (some x) sent) s)).gateway.spawned ≡ s.gateway.spawned)
        × (tally (shown f) (session (turn now (outbound (some x) sent) s)).frames
            ≤ tally (shown f) s.frames + f x)
  unfolding turn
  outbound_load now x true s =
      (refl, omega (arith, tally-append (shown f) s.frames (binary x ∷ [])))
  outbound_load now x false s = (refl, omega arith)
