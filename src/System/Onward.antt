-- ===== src/System/Onward.antt =====
-- From a routing task that waits to the frame that src/network.rs writes to a client, through the
-- blocks of all the tasks on the way.
use mathlib.Core.List.{append-nil, append_assoc}
use ws_gateway.Common.{
  ℕ, ◌<◌, ◌≡◌, refl, ap, sym, ◌∙◌, inl, inr, true, none, some, List, [], ◌∷◌, ◌++◌, map, ok, arith,
  length, ==_refl, Option-cases, if◌then◌else◌,
}
use ws_gateway.Protocol.TargetType.{TargetType, unicast, broadcast}
use ws_gateway.Protocol.Fields.{Bytes, IsBytes}
use ws_gateway.Protocol.Header.{PacketHeader, room_id_str, user_id_str, decode, encode}
use ws_gateway.Protocol.Header.RoundTrip.{encode-decode}
use ws_gateway.DashMap.{lookup}
use ws_gateway.Channel.{Notify, ChannelInner, item}
use ws_gateway.Channel.Wakeup.{recv-item}
use ws_gateway.Router.{Sender, Room, Iteration, count_sender, route}
use ws_gateway.Router.Registry.{sender_of}
use ws_gateway.Router.References.{count_sender-lookup, count_sender-references}
use ws_gateway.Router.Offers.{times, offer}
use ws_gateway.Router.Relay.{offer-room}
use ws_gateway.Router.Delivery.{route-broadcast, route-unicast}
use ws_gateway.System.Senders.{held_once}
use ws_gateway.Network.{Gateway, binary, turn, ws_channel_capacity}
use ws_gateway.State.{Connection, System, running, resume, polled, set_channel, strong}
use ws_gateway.System.{Reach, receives}
use ws_gateway.System.Routes.{Steps, here, next, Steps-trans, route-Steps}
use ws_gateway.System.Safety.{registered_owned}
use ws_gateway.System.Steps.{Reach-IsSystem}

module _ (iteration : Iteration) {n : Notify} where
  -- A connection in its loop, whose socket takes what is written, can write all that is queued.
  drain-Steps :
      (now : ℕ) (i : Sender) (q : List Bytes) (s : System n)
      → i < s.next
      → (s.connections i).phase ≡ running
      → (s.gateway.shared.channels i).queue ≡ q
      → (t : System n) × Steps iteration s t
        × ((t.connections i).frames ≡ (s.connections i).frames ++ map binary q)
        × ((t.gateway.shared.channels i).queue ≡ [])
  unfolding polled resume turn
  drain-Steps now i [] s lt run e = (s, here, sym (append-nil _), e)
  drain-Steps now i (x ∷ q) s lt run e =
      let c = record (s.gateway.shared.channels i) { queue = q } in
      let after = polled now true i (item x) (set_channel s i c) in
      let takes = recv-item (strong s i) (s.gateway.shared.channels i) x q e in
      let (t, steps, frames, empty) =
        drain-Steps now i q after lt (rw (==_refl i) refl) (rw (==_refl i) refl) in
      let one_more : (after.connections i).frames ≡ (s.connections i).frames ++ binary x ∷ [] =
        rw (==_refl i) refl in
      (
        t,
        next (receives i now true (item x) c lt run takes) steps,
        frames
            ∙ ap (λ f. f ++ map binary q) one_more
            ∙ append_assoc (s.connections i).frames (binary x ∷ []) (map binary q),
        empty,
      )

  -- A registered sender stands in one entry of its room.
  held_in_room :
      (s : System n) (reach : Reach iteration s) (r u : Bytes) (i : Sender) (room : Room)
      → lookup r s.gateway.shared.rooms ≡ some room
      → lookup u room ≡ some i
      → count_sender i room ≡ 1
  held_in_room s reach r u i room there member =
      let once = held_once iteration reach i in
      let within = count_sender-references i r s.gateway.shared.rooms room there in
      let at_least = count_sender-lookup i u room member in ground arith

  -- `route` offers the packet to it once.
  offered_once :
      (s : System n) (reach : Reach iteration s) (h : PacketHeader) (payload u : Bytes) (i : Sender)
      (room : Room) (o : TargetType)
      → h.target_type ≡ o
      → (o ≡ unicast → u ≡ user_id_str h)
      → lookup (room_id_str h) s.gateway.shared.rooms ≡ some room
      → lookup u room ≡ some i
      → (route iteration h payload s.gateway.shared).channels i
        ≡ offer h.packet_type (encode h payload) (s.gateway.shared.channels i)
  offered_once s reach h payload u i room broadcast b mine there member =
      route-broadcast iteration h payload s.gateway.shared room there b i
      ∙ ap
          (λ (k : ℕ).
            times k (offer h.packet_type (encode h payload)) (s.gateway.shared.channels i))
          (held_in_room s reach (room_id_str h) u i room there member)
  offered_once s reach h payload u i room unicast b mine there member =
      route-unicast iteration h payload s.gateway.shared room (some i) there
        (rw (mine refl) at member) b i
      ∙ ap
          (λ hit.
            if hit
            then offer h.packet_type (encode h payload) (s.gateway.shared.channels i)
            else s.gateway.shared.channels i)
          (==_refl i)

  relayed :
      (s : System n) (reach : Reach iteration s) (raw : Bytes) (h : PacketHeader)
      (payload u : Bytes) (i : Sender)
      → IsBytes raw
      → decode raw ≡ ok (h, payload)
      → (h.target_type ≡ unicast → u ≡ user_id_str h)
      → sender_of s.gateway.shared.rooms (room_id_str h) u ≡ some i
      → length (s.gateway.shared.channels i).queue < ws_channel_capacity
      → ((route iteration h payload s.gateway.shared).channels i).queue
        ≡ (s.gateway.shared.channels i).queue ++ raw ∷ []
  relayed s reach raw h payload u i bytes e mine reg short =
      let full = ((Reach-IsSystem iteration reach).shared.channels i).capacity in
      elim (Option-cases (lookup (room_id_str h) s.gateway.shared.rooms)) [
        | inl gone ↦ (let clash : none ≡ some i = rw gone at reg in cc)
        | inr (room, there) ↦
            let member : lookup u room ≡ some i = rw there at reg in
            let c = s.gateway.shared.channels i in
            ap (λ (c : ChannelInner n Bytes). c.queue)
              (offered_once s reach h payload u i room h.target_type refl mine there member)
            ∙ offer-room h.packet_type (encode h payload) c (omega (arith, full, short))
            ∙ ap (λ x. c.queue ++ x ∷ []) (encode-decode raw h payload bytes e).2
      ]

  -- A packet that waits for its routing task can reach a connection that it is for.
  pub spawned_written :
      (s : System n) (reach : Reach iteration s) (raw : Bytes) (h : PacketHeader)
      (payload u : Bytes) (i : Sender) (now : ℕ) (before after : List (PacketHeader × Bytes))
      → s.gateway.spawned ≡ before ++ (h, payload) ∷ after
      → IsBytes raw
      → decode raw ≡ ok (h, payload)
      → (h.target_type ≡ unicast → u ≡ user_id_str h)
      → sender_of s.gateway.shared.rooms (room_id_str h) u ≡ some i
      → (s.connections i).phase ≡ running
      → length (s.gateway.shared.channels i).queue < ws_channel_capacity
      → (t : System n) × Steps iteration s t
        × ((t.connections i).frames
            ≡ (s.connections i).frames
              ++ map binary ((s.gateway.shared.channels i).queue ++ raw ∷ []))
        × ((t.gateway.shared.channels i).queue ≡ [])
  spawned_written s reach raw h payload u i now before after spawned bytes e mine reg run short =
      let (routed, to_routed, done, sent, same, upto) =
        route-Steps iteration h payload before after s spawned in
      let (exists, _, _) = registered_owned iteration s reach (room_id_str h) u i reg in
      let queued : (routed.gateway.shared.channels i).queue
          ≡ (s.gateway.shared.channels i).queue ++ raw ∷ [] =
        ap (λ (g : Gateway n). (g.shared.channels i).queue) done
        ∙ relayed s reach raw h payload u i bytes e mine reg short in
      let (t, to_written, frames, empty) =
        drain-Steps now i ((s.gateway.shared.channels i).queue ++ raw ∷ []) routed
          (omega (arith, upto)) (ap (λ (f : Sender → Connection). (f i).phase) same ∙ run) queued in
      (
        t,
        Steps-trans iteration to_routed to_written,
        frames
            ∙ ap
                (λ (f : Sender → Connection).
                  (f i).frames ++ map binary ((s.gateway.shared.channels i).queue ++ raw ∷ []))
                same,
        empty,
      )
