-- ===== src/System/Passage.antt =====
-- From a datagram, and from a message of a client, to the frame that src/network.rs writes to
-- another client.
use ws_gateway.Common.{
  ℕ, ◌<◌, ◌≡◌, refl, ap, ◌∙◌, inl, inr, some, List, [], ◌∷◌, ◌++◌, map, ok, length, ◌==◌, ==_iff,
  Bool-cases,
}
use ws_gateway.Protocol.TargetType.{unicast}
use ws_gateway.Protocol.Fields.{Bytes, IsBytes}
use ws_gateway.Protocol.Header.{PacketHeader, room_id_str, user_id_str, decode}
use ws_gateway.Channel.{Notify}
use ws_gateway.Router.{Shared, Sender, Iteration}
use ws_gateway.Router.Registry.{sender_of}
use ws_gateway.Network.{
  Frame, Gateway, message_binary, ws_decoded, binary, turn, udp_turn, udp_decoded,
  ws_channel_capacity,
}
use ws_gateway.State.{System, running, resume, session_of}
use ws_gateway.System.{Reach, later, hears, reads}
use ws_gateway.System.Routes.{Steps, next}
use ws_gateway.System.Onward.{spawned_written}

module _ (iteration : Iteration) {n : Notify} where
  udp_turn-decoded :
      (raw : Bytes) (h : PacketHeader) (payload : Bytes) (g : Gateway n)
      → decode raw ≡ ok (h, payload)
      → ((udp_turn (some raw) g).spawned ≡ g.spawned ++ (h, payload) ∷ [])
        × ((udp_turn (some raw) g).shared ≡ g.shared)
  unfolding udp_turn udp_decoded
  udp_turn-decoded raw h payload g e = rw e (refl, refl)

  -- In every state that the gateway reaches in which a connection is registered under a room and a
  -- user, is in its loop and has room in its queue: if a datagram comes that decodes to a packet for
  -- this room, and for this user if it is a unicast, blocks of the tasks follow after which what was
  -- queued for the connection and then the bytes of the datagram were written to its client, in this
  -- order, and nothing is left in its queue.
  pub datagram-written :
      (s : System n) (reach : Reach iteration s) (raw : Bytes) (h : PacketHeader)
      (payload u : Bytes) (i : Sender) (now : ℕ)
      → IsBytes raw
      → decode raw ≡ ok (h, payload)
      → (h.target_type ≡ unicast → u ≡ user_id_str h)
      → sender_of s.gateway.shared.rooms (room_id_str h) u ≡ some i
      → (s.connections i).phase ≡ running
      → length (s.gateway.shared.channels i).queue < ws_channel_capacity
      → (t : System n) × Steps iteration
          (record s { gateway = udp_turn (some raw) s.gateway; received = raw ∷ s.received })
          t
        × ((t.connections i).frames
            ≡ (s.connections i).frames
              ++ map binary ((s.gateway.shared.channels i).queue ++ raw ∷ []))
        × ((t.gateway.shared.channels i).queue ≡ [])
  datagram-written s reach raw h payload u i now bytes e mine reg run short =
      let (spawned, kept) = udp_turn-decoded raw h payload s.gateway e in
      let heard = record s {
        gateway = udp_turn (some raw) s.gateway;
        received = raw ∷ s.received;
      } in
      let (t, steps, frames, empty) =
        spawned_written iteration heard (later reach (hears (some raw) (bytes, tt))) raw h payload u
          i now s.gateway.spawned [] spawned bytes e mine (rw kept reg) run (rw kept short) in
      (
        t,
        steps,
        frames
            ∙ ap
                (λ (shared : Shared n).
                  (s.connections i).frames ++ map binary ((shared.channels i).queue ++ raw ∷ []))
                kept,
        empty,
      )

  -- What reading a message that decodes leaves as it was, and the task that it spawns.
  message_read :
      (s : System n) (raw : Bytes) (h : PacketHeader) (payload : Bytes) (i j : Sender) (now : ℕ)
      → decode raw ≡ ok (h, payload)
      → (s.connections i).phase ≡ running
      → let s' = resume s j (turn now (message_binary raw) (session_of s j)) in
        (s'.gateway.spawned ≡ s.gateway.spawned ++ (h, payload) ∷ [])
        × (s'.gateway.shared ≡ s.gateway.shared)
        × ((s'.connections i).phase ≡ running)
        × ((s'.connections i).frames ≡ (s.connections i).frames)
  unfolding resume turn ws_decoded
  message_read s raw h payload i j now e run = elim (Bool-cases (j == i)) [
    | inl hit ↦
        let same : j ≡ i = (==_iff j i).0 hit in
        let frames : (s.connections j).frames ≡ (s.connections i).frames =
          ap (λ (k : Sender). (s.connections k).frames) same in
        (rw e refl, rw e refl, rw hit refl, rw hit frames)
    | inr miss ↦ (rw e refl, rw e refl, rw miss run, rw miss refl)
  ]

  -- In every state that the gateway reaches in which the connection `j` is in its loop, another or
  -- the same connection is registered under a room and a user, is in its loop and has room in its
  -- queue: a binary message from the client of `j` that decodes to a packet for this room, and for
  -- this user if it is a unicast, can be read, and blocks of the tasks follow after which what was
  -- queued for the registered connection and then the bytes of the message were written to its
  -- client, in this order, and nothing is left in its queue.
  pub message-written :
      (s : System n) (reach : Reach iteration s) (raw : Bytes) (h : PacketHeader)
      (payload u : Bytes) (i j : Sender) (now : ℕ)
      → IsBytes raw
      → decode raw ≡ ok (h, payload)
      → (h.target_type ≡ unicast → u ≡ user_id_str h)
      → sender_of s.gateway.shared.rooms (room_id_str h) u ≡ some i
      → j < s.next
      → (s.connections j).phase ≡ running
      → (s.connections i).phase ≡ running
      → length (s.gateway.shared.channels i).queue < ws_channel_capacity
      → (t : System n) × Steps iteration s t
        × ((t.connections i).frames
            ≡ (s.connections i).frames
              ++ map binary ((s.gateway.shared.channels i).queue ++ raw ∷ []))
        × ((t.gateway.shared.channels i).queue ≡ [])
  message-written s reach raw h payload u i j now bytes e mine reg lt talks run short =
      let first = reads j now (message_binary raw) lt talks bytes in
      let s' = record (resume s j (turn now (message_binary raw) (session_of s j))) {
        received = raw ∷ s.received;
      } in
      let (spawned, kept, runs, same) = message_read s raw h payload i j now e run in
      let (t, steps, frames, empty) =
        spawned_written iteration s' (later reach first) raw h payload u i now s.gateway.spawned []
          spawned bytes e mine (rw kept reg) runs (rw kept short) in
      (
        t,
        next first steps,
        frames
            ∙ ap
                (λ (f : List Frame).
                  f ++ map binary ((s'.gateway.shared.channels i).queue ++ raw ∷ []))
                same
            ∙ ap
                (λ (shared : Shared n).
                  (s.connections i).frames ++ map binary ((shared.channels i).queue ++ raw ∷ []))
                kept,
        empty,
      )
