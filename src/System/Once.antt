-- ===== src/System/Once.antt =====
-- What src/routing.rs and src/network.rs make of a buffer that came: one copy at most for each
-- connection, over all steps of all tasks.
use ws_gateway.Common.{
  ℕ, ◌+◌, ◌≤◌, ◌≡◌, ap, inl, inr, List, [], ◌∷◌, ◌++◌, map, arith, ◌==◌, Bool-cases, Option-cases,
}
use ws_gateway.Protocol.TargetType.{TargetType, unicast, broadcast}
use ws_gateway.Protocol.Fields.{Bytes}
use ws_gateway.Protocol.Header.{PacketHeader, room_id_str, user_id_str, encode}
use ws_gateway.DashMap.{lookup}
use ws_gateway.Channel.{Notify, bounded}
use ws_gateway.Router.{
  Sender, Room, Rooms, Iteration, Shared, count_sender, targets, dispatch, leave,
}
use ws_gateway.Router.References.{references, count_sender-references}
use ws_gateway.Network.{turn}
use ws_gateway.State.{
  set_channel, opened, System, Delivery, init, session_of, set_shared, resolved, message, datagram,
}
use ws_gateway.System.{
  Step, hears, opens, counts, reads, receives, discounts, leaves, closes, cleans, resolves,
  delivers, retries, gives_up, Reach, start, later,
}
use ws_gateway.System.Registry.{shared-turn}
use ws_gateway.System.Names.{
  counted-SameNames, discounted-SameNames, removed-SameNames, finished-SameNames, polled-SameNames,
  left-SameNames, resume-SameNames,
}
use ws_gateway.System.Senders.{held_once}
use ws_gateway.System.Loads.{
  tally, tally-append, tally-without, of_retry, shared_load, shared_load-deliver,
  shared_load-attempted,
}
use ws_gateway.System.Loads.Turns.{shown, of_packet, of_delivery, spawns-udp_turn, turn_load}
use ws_gateway.System.Loads.Connections.{
  load, load-resume, load-receives, load-opened, load-counted, load-discounted, load-left,
  load-removed, load-finished, if_nothing,
}

module _ (f : Bytes → ℕ) (c : Sender) where
  module _ (h : PacketHeader) (payload : Bytes) where
    -- The deliveries to the targets.
    abbrev aimed : List (Bytes × Sender) → List Delivery
    aimed = map (λ t. record { header = h; payload = payload; target_user = t.0; tx = t.1 })

    none_aimed :
        (ts : List (Bytes × Sender))
        → count_sender c ts ≡ 0
        → tally (of_delivery f c) (aimed ts) ≡ 0
    none_aimed [] e = omega arith
    none_aimed ((u, tx) ∷ ts) e = elim (Bool-cases (tx == c)) [
      | inl hit ↦ absurd (let e' = rw hit at e in omega (arith, e'))
      | inr miss ↦ rw miss (omega (arith, none_aimed ts (rw miss at e)))
    ]

    aimed_once :
        (ts : List (Bytes × Sender))
        → count_sender c ts ≤ 1
        → tally (of_delivery f c) (aimed ts) ≤ f (encode h payload)
    aimed_once [] e = omega arith
    aimed_once ((u, tx) ∷ ts) e = elim (Bool-cases (tx == c)) [
      | inl hit ↦
          (let e' = rw hit at e in
            let rest = none_aimed ts (omega (arith, e')) in rw hit (omega (arith, rest)))
      | inr miss ↦ rw miss (omega (arith, aimed_once ts (rw miss at e)))
    ]

    module _ (iteration : Iteration) where
      count-targets :
          (t : TargetType) (room : Room)
          → count_sender c room ≤ 1
          → count_sender c (targets iteration h t room) ≤ 1
      unfolding targets
      count-targets broadcast room e = omega (arith, iteration.once room c, e)
      count-targets unicast room e = elim (Option-cases (lookup (user_id_str h) room)) [
        | inl gone ↦ rw (gone, targets) (omega arith)
        | inr (tx, found) ↦ rw (found, targets) (ground arith)
      ]

      -- A routing task makes one delivery to a connection at most.
      resolved_load :
          (rooms : Rooms)
          → references c rooms ≤ 1
          → tally (of_delivery f c) (resolved iteration h payload (lookup (room_id_str h) rooms))
            ≤ f (encode h payload)
      unfolding resolved
      resolved_load rooms e = elim (Option-cases (lookup (room_id_str h) rooms)) [
        | inl gone ↦ rw (gone, resolved) (omega arith)
        | inr (room, found) ↦
            let within = count_sender-references c (room_id_str h) rooms room found in
            rw (found, resolved)
              (aimed_once (targets iteration h h.target_type room)
                (count-targets h.target_type room (omega (arith, within, e))))
      ]

-- A step with which nothing comes in.
kept_load :
    (f : Bytes → ℕ) {xs ys : List Bytes} {k l : ℕ}
    → ys ≡ xs
    → k ≤ l
    → k + tally f xs ≤ l + tally f ys
kept_load f same less = omega (arith, less, ap (tally f) same)

module _ {n : Notify} (iteration : Iteration) (f : Bytes → ℕ) (c : Sender) where
  shared_load-dispatch :
      (d : Delivery) (s : Shared n)
      → shared_load f c (dispatch d.header d.payload (d.target_user, d.tx) s)
        ≤ shared_load f c s + of_delivery f c d
  unfolding dispatch
  shared_load-dispatch d s = shared_load-deliver f c d.header.packet_type _ s

  Step_load :
      {s t : System n}
      → references c s.gateway.shared.rooms ≤ 1
      → Step iteration s t
      → load f c t + tally f s.received ≤ load f c s + tally f t.received
  unfolding opened
  Step_load {s} once (hears r b) =
      let (more, same) = spawns-udp_turn f r s.gateway b in
      omega (arith, more, ap (shared_load f c) same, tally-append f (datagram r) s.received)
  Step_load {s} once (opens r u h) = omega (arith, load-opened f c r u s)
  Step_load {s} once (counts i now lt at_start) =
      kept_load f (counted-SameNames now i s).received (load-counted f c now i s)
  Step_load {s} once (reads i now e lt run input) =
      let (spawned, frames) = turn_load f now e (session_of s i) input in
      omega (
        arith,
        if_nothing (i == c),
        load-resume f c s i (turn now e (session_of s i)) (tally f (message e)) 0
            (shared-turn now e (session_of s i) input) spawned (omega (arith, frames)),
        ap (λ (xs : List Bytes). tally f (message e ++ xs))
            (resume-SameNames s i (turn now e (session_of s i))).received,
        tally-append f (message e) s.received,
      )
  Step_load {s} once (receives i now sent p k lt run e) =
      kept_load f (polled-SameNames now sent i p (set_channel s i k)).received
        (load-receives f c now sent i p k s _ e)
  Step_load {s} once (discounts i lt out) =
      kept_load f (discounted-SameNames i s).received (load-discounted f c i s)
  Step_load {s} once (leaves i lt out) =
      kept_load f (removed-SameNames i s).received (load-removed f c i s)
  Step_load {s} once (closes i sent lt out) =
      kept_load f (finished-SameNames sent i s).received (load-finished f c sent i s)
  Step_load once (cleans r before after e) = omega arith
  Step_load {s} once (resolves h payload before after e) =
      let made = resolved iteration h payload (lookup (room_id_str h) s.gateway.shared.rooms) in
      omega (
        arith,
        tally-without (of_packet f) s.gateway.spawned before (h, payload) after e,
        tally-append (of_delivery f c) s.sending made,
        resolved_load f c h payload iteration s.gateway.shared.rooms once,
      )
  Step_load {s} once (delivers d before after e) = omega (
    arith,
    tally-without (of_delivery f c) s.sending before d after e,
    shared_load-dispatch d s.gateway.shared,
  )
  Step_load {s} once (retries t before after e) =
      omega (arith, shared_load-attempted f c s.gateway.shared before t after e)
  Step_load {s} once (gives_up t before after returned e h) =
      let rest = set_shared s (record s.gateway.shared { retries = before ++ after }) in
      let o = leave s.gateway.shared.rooms t.room_id t.user_id in
      omega (
        arith,
        load-left f c t.room_id (leave s.gateway.shared.rooms t.room_id t.user_id) rest,
        ap (tally f) (left-SameNames t.room_id o rest).received,
        tally-without (of_retry f c) s.gateway.shared.retries before t after e,
      )

  Reach_load : {s : System n} → Reach iteration s → load f c s ≤ tally f s.received
  unfolding init bounded
  Reach_load start = omega arith
  Reach_load (later {s} r st) =
      let once = held_once iteration r c in
      omega (arith, Reach_load r, Step_load (ground (arith, once)) st)

  -- In every state that the gateway reaches, for every connection and however packets are weighed:
  -- what its client was written, what its queue holds and what its retry tasks still have to send
  -- weigh no more than what has come from the sockets. Where `f` is 1 for one buffer and 0 for all
  -- others, this says that as many copies of it as came are the most that a client is sent.
  pub at_most_once :
      (s : System n)
      → Reach iteration s
      → tally (shown f) (s.connections c).frames
          + tally f (s.gateway.shared.channels c).queue
          + tally (of_retry f c) s.gateway.shared.retries
        ≤ tally f s.received
  at_most_once s reach = omega (arith, Reach_load reach)
