-- ===== src/Router/Delivery.antt =====
-- Which channels a routed packet reaches, how often, and with which bytes.
use ws_gateway.Common.{
  ℕ, ◌≤◌, ◌≡◌, inl, inr, refl, ap, sym, ◌∙◌, Option, none, some, [], ◌∷◌, arith, Option-cases,
  Bool-cases, if◌then◌else◌, ◌==◌,
}
use ws_gateway.Protocol.TargetType.{TargetType, broadcast, unicast}
use ws_gateway.Protocol.Fields.{Bytes}
use ws_gateway.Protocol.Header.{PacketHeader, room_id_str, user_id_str, encode}
use ws_gateway.DashMap.{lookup}
use ws_gateway.Channel.{Notify}
use ws_gateway.Router.{Sender, Room, Shared, Iteration, count_sender, dispatch_all, targets, route}
use ws_gateway.Router.Offers.{
  times, times_if, offer, offered, dispatch_all-channels, dispatch_all-rooms,
}

count-lookup :
    (u : Bytes) (c : Sender) (room : Room) → lookup u room ≡ some c → 1 ≤ count_sender c room
unfolding lookup
count-lookup u c [] e = cc
count-lookup u c ((v, d) ∷ room) e = ground (arith, count-lookup u c room)

module _ (iteration : Iteration) {n : Notify} (h : PacketHeader) (payload : Bytes)
    (s : Shared n) where
  pub route-found :
      (room : Room)
      → lookup (room_id_str h) s.rooms ≡ some room
      → route iteration h payload s
        ≡ dispatch_all h payload (targets iteration h h.target_type room) s
  unfolding route
  route-found room e = rw (e, route) refl

  -- A packet for a room that is not there changes nothing.
  pub route-no_room : lookup (room_id_str h) s.rooms ≡ none → route iteration h payload s ≡ s
  unfolding route
  route-no_room e = rw (e, route) refl

  route-channels :
      (room : Room) (c : Sender)
      → lookup (room_id_str h) s.rooms ≡ some room
      → (route iteration h payload s).channels c
        ≡ times
            (count_sender c (targets iteration h h.target_type room))
            (offered h payload)
            (s.channels c)
  route-channels room c e =
      ap (λ (t : Shared n). t.channels c) (route-found room e)
      ∙ dispatch_all-channels h payload (targets iteration h h.target_type room) s c

  -- A broadcast to a room that is there offers the packet to every channel as often as the
  -- room's entries hold its sender, in whatever order the room is gone through.
  pub route-broadcast :
      (room : Room)
      → lookup (room_id_str h) s.rooms ≡ some room
      → h.target_type ≡ broadcast
      → (c : Sender)
      → (route iteration h payload s).channels c
        ≡ times (count_sender c room) (offer h.packet_type (encode h payload)) (s.channels c)
  unfolding targets
  route-broadcast room e b c =
      route-channels room c e
      ∙ ap (λ k. times k (offered h payload) (s.channels c))
          (ap (λ t. count_sender c (targets iteration h t room)) b ∙ iteration.once room c)

  targets-unicast :
      (room : Room) (o : Option Sender) (c : Sender)
      → lookup (user_id_str h) room ≡ o
      → times (count_sender c (targets iteration h unicast room)) (offered h payload) (s.channels c)
        ≡ (elim o [
          | none ↦ s.channels c
          | some tx ↦
              if tx == c
              then offer h.packet_type (encode h payload) (s.channels c)
              else s.channels c
        ])
  unfolding targets
  targets-unicast room none c e = rw (e, targets) refl
  targets-unicast room (some tx) c e =
      rw (e, targets) (sym (times_if (tx == c) 0 (offered h payload) (s.channels c)))

  -- A unicast to a room that is there offers the packet to the channel of its user, once, and
  -- changes no other channel; with the user not in the room it changes no channel.
  pub route-unicast :
      (room : Room) (o : Option Sender)
      → lookup (room_id_str h) s.rooms ≡ some room
      → lookup (user_id_str h) room ≡ o
      → h.target_type ≡ unicast
      → (c : Sender)
      → (route iteration h payload s).channels c ≡ (elim o [
        | none ↦ s.channels c
        | some tx ↦
            if tx == c then offer h.packet_type (encode h payload) (s.channels c) else s.channels c
      ])
  route-unicast room o e f b c =
      route-channels room c e
      ∙ ap
          (λ t.
            times (count_sender c (targets iteration h t room)) (offered h payload) (s.channels c))
          b
      ∙ targets-unicast room o c f

  -- Routing registers and unregisters nobody.
  pub route-rooms : (route iteration h payload s).rooms ≡ s.rooms
  route-rooms = elim (Option-cases (lookup (room_id_str h) s.rooms)) [
    | inl gone ↦ ap (λ (t : Shared n). t.rooms) (route-no_room gone)
    | inr (room, e) ↦
        ap (λ (t : Shared n). t.rooms) (route-found room e)
        ∙ dispatch_all-rooms h payload (targets iteration h h.target_type room) s
  ]

  targets-outsider :
      (room : Room) (t : TargetType) (c : Sender)
      → count_sender c room ≡ 0
      → count_sender c (targets iteration h t room) ≡ 0
  unfolding targets
  targets-outsider room broadcast c z = iteration.once room c ∙ z
  targets-outsider room unicast c z = elim (Option-cases (lookup (user_id_str h) room)) [
    | inl gone ↦ rw (gone, targets) refl
    | inr (tx, found) ↦ elim (Bool-cases (tx == c)) [
      | inl hit ↦
          let member : 1 ≤ count_sender c room =
            count-lookup (user_id_str h) c room (ground arith) in
          absurd (omega arith)
      | inr miss ↦ rw (found, targets, miss) refl
    ]
  ]

  -- A channel that no entry of the packet's room holds is not changed by `route`, whatever the
  -- packet is, and with the room not there no channel is.
  pub route_isolated :
      (c : Sender)
      → ((room : Room) → lookup (room_id_str h) s.rooms ≡ some room → count_sender c room ≡ 0)
      → (route iteration h payload s).channels c ≡ s.channels c
  route_isolated c outside = elim (Option-cases (lookup (room_id_str h) s.rooms)) [
    | inl gone ↦ ap (λ (t : Shared n). t.channels c) (route-no_room gone)
    | inr (room, e) ↦
        route-channels room c e
        ∙ ap (λ k. times k (offered h payload) (s.channels c))
            (targets-outsider room h.target_type c (outside room e))
  ]

  -- In every case a channel is offered the packet some number of times, and nothing else happens
  -- to it.
  pub route_cases :
      (c : Sender)
      → (k : ℕ) × ((route iteration h payload s).channels c
          ≡ times k (offer h.packet_type (encode h payload)) (s.channels c))
  route_cases c = elim (Option-cases (lookup (room_id_str h) s.rooms)) [
    | inl gone ↦ (0, ap (λ (t : Shared n). t.channels c) (route-no_room gone))
    | inr (room, e) ↦
        (count_sender c (targets iteration h h.target_type room), route-channels room c e)
  ]
