-- ===== src/Router/Log/Silence.antt =====
-- src/routing.rs: what became of a packet for which `route` logs nothing. That says nothing of the
-- packets queued before it: a motion frame evicts the oldest one without a line.
use ws_gateway.Common.{
  ◌≡◌, refl, inl, inr, some, List, [], ◌∷◌, ◌++◌, All, Bool-cases, Option-cases, ltb, leb, length,
  ◌==◌, ==_refl,
}
use ws_gateway.Protocol.PacketType.{PacketType, raw_motion, ai_event, system_cmd, heartbeat}
use ws_gateway.Protocol.TargetType.{TargetType, broadcast, unicast}
use ws_gateway.Protocol.Fields.{Bytes}
use ws_gateway.Protocol.Header.{PacketHeader, room_id_str, user_id_str, encode}
use ws_gateway.DashMap.{lookup}
use ws_gateway.Channel.{Notify, ChannelInner, try_send, send_drop_oldest, push_back, pop_front}
use ws_gateway.Router.{
  Sender, Room, Shared, Iteration, Retry, dispatch, dispatch_all, targets, route,
}
use ws_gateway.Router.Offers.{offer, dispatch-channels}
use ws_gateway.Router.Delivery.{route-found}
use ws_gateway.Router.Log.{
  Line, room_not_found, user_not_in_room, refused, deliver_lines, dispatch_lines,
  dispatch_all_lines, room_lines, route_lines,
}

-- The packet stands at the back of the queue.
pub record Ends (q : List Bytes) (x : Bytes) : Type 0 where
  pub before : List Bytes
  pub back : q ≡ before ++ x ∷ []

append-eq-nil : (xs ys : List Line) → xs ++ ys ≡ [] → (xs ≡ []) × (ys ≡ [])
append-eq-nil [] ys e = (refl, e)
append-eq-nil (x ∷ xs) ys e = cc

module _ {n : Notify} where
  try_send-Ends :
      (x : Bytes) (c : ChannelInner n Bytes) (line : Line)
      → refused line (try_send x c) ≡ []
      → Ends (try_send x c).1.queue x
  unfolding try_send push_back
  try_send-Ends x c line quiet = elim (Bool-cases (ltb (length c.queue) c.capacity)) [
    | inl space ↦ record { before = c.queue; back = rw space refl }
    | inr full ↦ (let said : line ∷ [] ≡ [] = rw full at quiet in cc)
  ]

  send_drop_oldest-Ends :
      (x : Bytes) (c : ChannelInner n Bytes) → Ends (send_drop_oldest x c).queue x
  unfolding send_drop_oldest push_back pop_front
  send_drop_oldest-Ends x c = elim (Bool-cases (leb c.capacity (length c.queue))) [
    | inl full ↦ record { before = pop_front c.queue; back = rw full refl }
    | inr space ↦ record { before = c.queue; back = rw space refl }
  ]

  try_send-Ends_kept :
      (x : Bytes) (c : ChannelInner n Bytes) → Ends c.queue x → Ends (try_send x c).1.queue x
  unfolding try_send push_back
  try_send-Ends_kept x c v = elim (Bool-cases (ltb (length c.queue) c.capacity)) [
    | inl space ↦ record { before = c.queue; back = rw space refl }
    | inr full ↦ rw full v
  ]

  -- Offered once more, a packet that stands at the back still does.
  offer-Ends_kept :
      (pt : PacketType) (x : Bytes) (c : ChannelInner n Bytes)
      → Ends c.queue x
      → Ends (offer pt x c).queue x
  unfolding offer
  offer-Ends_kept raw_motion x c v = send_drop_oldest-Ends x c
  offer-Ends_kept system_cmd x c v = try_send-Ends_kept x c v
  offer-Ends_kept ai_event x c v = try_send-Ends_kept x c v
  offer-Ends_kept heartbeat x c v = try_send-Ends_kept x c v

  -- Where nothing is logged, the packet was taken.
  offer-Ends :
      (pt : PacketType) (t : Retry) (s : Shared n)
      → deliver_lines pt t s ≡ []
      → Ends (offer pt t.packet (s.channels t.tx)).queue t.packet
  unfolding offer deliver_lines
  offer-Ends raw_motion t s quiet = send_drop_oldest-Ends t.packet (s.channels t.tx)
  offer-Ends system_cmd t s quiet = try_send-Ends t.packet (s.channels t.tx) _ quiet
  offer-Ends ai_event t s quiet = try_send-Ends t.packet (s.channels t.tx) _ quiet
  offer-Ends heartbeat t s quiet = try_send-Ends t.packet (s.channels t.tx) _ quiet

  module _ (h : PacketHeader) (payload : Bytes) where
    -- The packet at the back of a channel.
    abbrev Arrived : Shared n → Sender → Type 0
    Arrived s c = Ends (s.channels c).queue (encode h payload)

    dispatch-Arrived :
        (u : Bytes) (tx : Sender) (s : Shared n)
        → dispatch_lines h payload (u, tx) s ≡ []
        → Arrived (dispatch h payload (u, tx) s) tx
    unfolding dispatch_lines
    dispatch-Arrived u tx s quiet =
        let taken = offer-Ends h.packet_type _ s quiet in
        rw (dispatch-channels h payload u tx s tx, ==_refl tx) taken

    dispatch-Arrived_kept :
        (u : Bytes) (tx : Sender) (s : Shared n) (c : Sender)
        → Arrived s c
        → Arrived (dispatch h payload (u, tx) s) c
    dispatch-Arrived_kept u tx s c v =
        rw (dispatch-channels h payload u tx s c) (elim (Bool-cases (tx == c)) [
          | inl hit ↦ rw hit (offer-Ends_kept h.packet_type _ (s.channels c) v)
          | inr miss ↦ rw miss v
        ])

    dispatch_all-Arrived_kept :
        (ts : List (Bytes × Sender)) (s : Shared n) (c : Sender)
        → Arrived s c
        → Arrived (dispatch_all h payload ts s) c
    unfolding dispatch_all
    dispatch_all-Arrived_kept [] s c v = v
    dispatch_all-Arrived_kept ((u, tx) ∷ ts) s c v =
        dispatch_all-Arrived_kept ts (dispatch h payload (u, tx) s) c
          (dispatch-Arrived_kept u tx s c v)

    dispatch_all-Arrived :
        (ts : List (Bytes × Sender)) (s : Shared n)
        → dispatch_all_lines h payload ts s ≡ []
        → All (λ t. Arrived (dispatch_all h payload ts s) t.1) ts
    unfolding dispatch_all dispatch_all_lines
    dispatch_all-Arrived [] s quiet = tt
    dispatch_all-Arrived ((u, tx) ∷ ts) s quiet =
        let after = dispatch h payload (u, tx) s in
        let (here, rest) =
          append-eq-nil (dispatch_lines h payload (u, tx) s) (dispatch_all_lines h payload ts after)
            quiet in
        (
          dispatch_all-Arrived_kept ts after tx (dispatch-Arrived u tx s here),
          dispatch_all-Arrived ts after rest,
        )

    module _ (iteration : Iteration) where
      room-Arrived :
          (tt' : TargetType) (room : Room) (s : Shared n)
          → room_lines iteration h payload tt' room s ≡ []
          → All
              (λ t. Arrived (dispatch_all h payload (targets iteration h tt' room) s) t.1)
              (targets iteration h tt' room)
            × (tt' ≡ unicast → (tx : Sender) × (lookup (user_id_str h) room ≡ some tx))
      unfolding room_lines targets
      room-Arrived broadcast room s quiet =
          (dispatch_all-Arrived (iteration.entries room) s quiet, λ e. cc)
      room-Arrived unicast room s quiet = elim (Option-cases (lookup (user_id_str h) room)) [
        | inl gone ↦
            (let said : user_not_in_room (room_id_str h) (user_id_str h) ∷ [] ≡ [] =
                rw (gone, room_lines) at quiet in
              cc)
        | inr (tx, there) ↦
            let one = (user_id_str h, tx) ∷ [] in
            let quiet' : dispatch_all_lines h payload one s ≡ [] =
              rw (there, room_lines) at quiet in
            let all = dispatch_all-Arrived one s quiet' in
            rw (there, targets) (all, λ e. (tx, refl))
      ]

      -- Where `route` logs nothing, the packet was delivered: its room is there, a unicast has its
      -- user there, and the encoded packet stands at the back of the queue of every target, for a
      -- broadcast those of all entries of the room.
      pub route-Arrived :
          (s : Shared n)
          → route_lines iteration h payload s ≡ []
          → (room : Room) × (lookup (room_id_str h) s.rooms ≡ some room)
            × All
                (λ t. Ends ((route iteration h payload s).channels t.1).queue (encode h payload))
                (targets iteration h h.target_type room)
            × (h.target_type ≡ unicast → (tx : Sender) × (lookup (user_id_str h) room ≡ some tx))
      unfolding route_lines
      route-Arrived s quiet = elim (Option-cases (lookup (room_id_str h) s.rooms)) [
        | inl gone ↦
            (let said : room_not_found (room_id_str h) (user_id_str h) ∷ [] ≡ [] =
                rw (gone, route_lines) at quiet in
              cc)
        | inr (room, found) ↦
            let quiet' : room_lines iteration h payload h.target_type room s ≡ [] =
              rw (found, route_lines) at quiet in
            let (all, user) = room-Arrived h.target_type room s quiet' in
            (room, found, rw (route-found iteration h payload s room found) all, user)
      ]
