-- ===== src/Router/Relay.antt =====
-- A packet from the wire through `decode` and `route` into a queue: the bytes, and the bounds of
-- the queues.
use ws_gateway.Common.{
  ℕ, ◌≤◌, ◌<◌, ◌≡◌, ap, ◌∙◌, some, [], ◌∷◌, ◌++◌, arith, if◌then◌else◌, ==_refl, length, ok, zero,
  suc,
}
use ws_gateway.Protocol.PacketType.{PacketType, raw_motion, ai_event, system_cmd, heartbeat}
use ws_gateway.Protocol.TargetType.{unicast}
use ws_gateway.Protocol.Fields.{Bytes, IsBytes}
use ws_gateway.Protocol.Header.{PacketHeader, room_id_str, user_id_str, encode, decode}
use ws_gateway.Protocol.Header.RoundTrip.{encode-decode}
use ws_gateway.DashMap.{lookup}
use ws_gateway.Channel.{Notify, ChannelInner, try_send, send_drop_oldest}
use ws_gateway.Channel.Bounds.{
  IsBounded, try_send-IsBounded, send_drop_oldest-IsBounded, capacity-send_drop_oldest,
}
use ws_gateway.Router.{Sender, Room, Shared, Iteration, route}
use ws_gateway.Router.Offers.{times, offer}
use ws_gateway.Router.Delivery.{route-unicast, route_cases}

module _ {n : Notify} where
  -- With room in the queue an offer of any type of packet puts it at the back.
  pub offer-room :
      (pt : PacketType) (x : Bytes) (c : ChannelInner n Bytes)
      → length c.queue < c.capacity
      → (offer pt x c).queue ≡ c.queue ++ x ∷ []
  unfolding offer try_send send_drop_oldest
  offer-room raw_motion x c h = ground arith
  offer-room system_cmd x c h = ground arith
  offer-room ai_event x c h = ground arith
  offer-room heartbeat x c h = ground arith

  -- A channel as the gateway makes them: its queue is within a capacity of at least 1.
  pub record IsSound (c : ChannelInner n Bytes) : Type 0 where
    pub positive : 1 ≤ c.capacity
    pub within : IsBounded c

  pub capacity-try_send :
      (x : Bytes) (c : ChannelInner n Bytes) → (try_send x c).1.capacity ≡ c.capacity
  unfolding try_send
  capacity-try_send x c = ground arith

  pub try_send-IsSound :
      (x : Bytes) (c : ChannelInner n Bytes) → IsSound c → IsSound (try_send x c).1
  try_send-IsSound x c v = record {
    positive = omega (arith, capacity-try_send x c, v.positive);
    within = try_send-IsBounded x c v.within;
  }

  pub offer-IsSound :
      (pt : PacketType) (x : Bytes) (c : ChannelInner n Bytes) → IsSound c → IsSound (offer pt x c)
  unfolding offer
  offer-IsSound raw_motion x c v = record {
    positive = omega (arith, capacity-send_drop_oldest x c, v.positive);
    within = send_drop_oldest-IsBounded x c v.positive v.within;
  }
  offer-IsSound system_cmd x c v = try_send-IsSound x c v
  offer-IsSound ai_event x c v = try_send-IsSound x c v
  offer-IsSound heartbeat x c v = try_send-IsSound x c v

  pub capacity-offer :
      (pt : PacketType) (x : Bytes) (c : ChannelInner n Bytes)
      → (offer pt x c).capacity ≡ c.capacity
  unfolding offer
  capacity-offer raw_motion x c = capacity-send_drop_oldest x c
  capacity-offer system_cmd x c = capacity-try_send x c
  capacity-offer ai_event x c = capacity-try_send x c
  capacity-offer heartbeat x c = capacity-try_send x c

  times-IsSound :
      (k : ℕ) (pt : PacketType) (x : Bytes) (c : ChannelInner n Bytes)
      → IsSound c
      → IsSound (times k (offer pt x) c)
  times-IsSound zero pt x c v = v
  times-IsSound (suc k) pt x c v = times-IsSound k pt x (offer pt x c) (offer-IsSound pt x c v)

  -- Where every queue is within a capacity of at least 1, every queue is so after `route`.
  pub route-IsSound :
      (iteration : Iteration) (h : PacketHeader) (payload : Bytes) (s : Shared n)
      → ((c : Sender) → IsSound (s.channels c))
      → (c : Sender) → IsSound ((route iteration h payload s).channels c)
  route-IsSound iteration h payload s v c =
      let (k, e) = route_cases iteration h payload s c in
      rw e (times-IsSound k h.packet_type (encode h payload) (s.channels c) (v c))

  -- The gateway relays a packet byte for byte: a buffer of bytes that decodes to a unicast for
  -- a registered user, whose queue has room, stands after `route` at the back of that queue as
  -- it came.
  pub route_relays :
      (iteration : Iteration) (buf : Bytes) (h : PacketHeader) (payload : Bytes) (s : Shared n)
      (room : Room) (tx : Sender)
      → IsBytes buf
      → decode buf ≡ ok (h, payload)
      → h.target_type ≡ unicast
      → lookup (room_id_str h) s.rooms ≡ some room
      → lookup (user_id_str h) room ≡ some tx
      → length (s.channels tx).queue < (s.channels tx).capacity
      → ((route iteration h payload s).channels tx).queue ≡ (s.channels tx).queue ++ buf ∷ []
  route_relays iteration buf h payload s room tx bytes e u er eu room_left =
      ap (λ (c : ChannelInner n Bytes). c.queue)
        (route-unicast iteration h payload s room (some tx) er eu u tx
          ∙ ap
              (λ b.
                if b then offer h.packet_type (encode h payload) (s.channels tx) else s.channels tx)
              (==_refl tx))
      ∙ offer-room h.packet_type (encode h payload) (s.channels tx) room_left
      ∙ ap (λ x. (s.channels tx).queue ++ x ∷ []) (encode-decode buf h payload bytes e).2
