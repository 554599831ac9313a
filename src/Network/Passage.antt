-- ===== src/Network/Passage.antt =====
-- From a datagram to the receive of the connection that it is for.
use ws_gateway.Common.{ℕ, ◌<◌, ◌≤◌, ◌≡◌, refl, ap, ◌∙◌, arith, some, [], ◌∷◌, ◌++◌, length, ok}
use ws_gateway.Protocol.TargetType.{unicast}
use ws_gateway.Protocol.Fields.{Bytes, IsBytes}
use ws_gateway.Protocol.Header.{PacketHeader, room_id_str, user_id_str, decode}
use ws_gateway.DashMap.{lookup}
use ws_gateway.Channel.{Notify, ChannelInner, item, recv}
use ws_gateway.Channel.Wakeup.{recv-item}
use ws_gateway.Router.{Sender, Room, Iteration, route}
use ws_gateway.Router.Relay.{route_relays}
use ws_gateway.Network.{Gateway, udp_decoded, udp_turn, run_udp}

module _ {n : Notify} where
  run_udp-decoded :
      (buf : Bytes) (h : PacketHeader) (payload : Bytes) (g : Gateway n)
      → decode buf ≡ ok (h, payload)
      → ((run_udp (some buf ∷ []) g).spawned ≡ g.spawned ++ (h, payload) ∷ [])
        × ((run_udp (some buf ∷ []) g).shared ≡ g.shared)
  unfolding run_udp udp_turn udp_decoded
  run_udp-decoded buf h payload g e = rw e (refl, refl)

  -- A datagram that decodes to a unicast for a registered user, whose queue is empty with a capacity
  -- of at least 1, makes the UDP loop spawn a task that routes its packet; once that task has run
  -- on the shared state that the loop left, the receive of the user's channel takes the bytes of
  -- the datagram and leaves the queue empty, however many senders there are.
  pub datagram_arrives :
      (iteration : Iteration) (buf : Bytes) (h : PacketHeader) (payload : Bytes) (g : Gateway n)
      (room : Room) (tx : Sender) (strong : ℕ)
      → IsBytes buf
      → decode buf ≡ ok (h, payload)
      → h.target_type ≡ unicast
      → lookup (room_id_str h) g.shared.rooms ≡ some room
      → lookup (user_id_str h) room ≡ some tx
      → (g.shared.channels tx).queue ≡ []
      → 1 ≤ (g.shared.channels tx).capacity
      → ((run_udp (some buf ∷ []) g).spawned ≡ g.spawned ++ (h, payload) ∷ [])
        × ((c : ChannelInner n Bytes) × (recv strong
                ((route iteration h payload (run_udp (some buf ∷ []) g).shared).channels tx)
              ≡ some (item buf, c))
            × (c.queue ≡ []))
  datagram_arrives iteration buf h payload g room tx strong bytes e u er eu empty p =
      let (spawned, kept) = run_udp-decoded buf h payload g e in
      let short : length (g.shared.channels tx).queue < (g.shared.channels tx).capacity =
        rw empty (omega arith) in
      let queued =
        route_relays iteration buf h payload g.shared room tx bytes e u er eu short
        ∙ ap (λ q. q ++ buf ∷ []) empty in
      let c = (route iteration h payload g.shared).channels tx in
      (spawned, (record c { queue = [] }, rw kept (recv-item strong c buf [] queued), refl))
