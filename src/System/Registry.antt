-- ===== src/System/Registry.antt =====
-- The registry of src/routing.rs within the whole gateway: the blocks of all tasks act on it as the
-- blocks of `register` and `unregister_internal` do, with nothing in between.
use ws_gateway.Common.{
  ℕ, ◌≡◌, ◌≢◌, ◌⊎◌, refl, ap, inl, inr, true, false, Bool, Option, none, some, List, [], ◌∷◌, ◌++◌,
  arith, Result, ok, err,
}
use ws_gateway.Protocol.Fields.{Bytes}
use ws_gateway.Protocol.Header.{PacketHeader, DecodeError, decode}
use ws_gateway.DashMap.{lookup}
use ws_gateway.Channel.{Notify, ChannelInner, Poll, item, closed, pending}
use ws_gateway.Router.{Sender, Rooms, Retry, Shared, Iteration, leave, dispatch}
use ws_gateway.Router.Offers.{deliver-rooms}
use ws_gateway.Router.Registry.{sender_of}
use ws_gateway.Router.Cleanup
use ws_gateway.Router.Cleanup.{Table, Event, expected, Reach-expected, quiescent-IsClean}
use ws_gateway.Network
use ws_gateway.Network.{
  Gateway, Session, Flow, goes_on, breaks, message_binary, message_pong, message_ping, message_text,
  message_closed, message_failed, outbound, tick, others, turn, udp_turn, udp_decoded, ws_decoded,
}
use ws_gateway.Network.Closing.{session}
use ws_gateway.State.{
  System, init, session_of, set_channel, resume, polled, opened, counted, discounted, left, removed,
  finished, attempted, IsInput,
}
use ws_gateway.System.{
  Step, hears, opens, counts, reads, receives, discounts, leaves, closes, cleans, resolves,
  delivers, retries, gives_up, Reach, start, later,
}

abbrev pub table : {n : Notify} → System n → Table
table s = record { rooms = s.gateway.shared.rooms; pending = s.pending }

-- Nothing happened to the registry, or one of its blocks.
abbrev pub Follows : Table → Table → List Event → Type 0
Follows t u events = ((u ≡ t) × (events ≡ [])) ⊎ Cleanup.Step t u events

module _ {n : Notify} where
  shared-ws_decoded :
      (r : Result (PacketHeader × Bytes) DecodeError) (g : Gateway n)
      → (ws_decoded r g).shared ≡ g.shared
  unfolding ws_decoded
  shared-ws_decoded (ok packet) g = refl
  shared-ws_decoded (err e) g = refl

  shared-udp_decoded :
      (r : Result (PacketHeader × Bytes) DecodeError) (g : Gateway n)
      → (udp_decoded r g).shared ≡ g.shared
  unfolding udp_decoded
  shared-udp_decoded (ok packet) g = refl
  shared-udp_decoded (err e) g = refl

  shared-udp_turn : (r : Option Bytes) (g : Gateway n) → (udp_turn r g).shared ≡ g.shared
  unfolding udp_turn
  shared-udp_turn none g = refl
  shared-udp_turn (some raw) g = shared-udp_decoded (decode raw) _

  -- A turn of a connection's loop on what comes from its client or the clock.
  pub shared-turn :
      (now : ℕ) (e : Network.Event n) (s : Session n)
      → IsInput e
      → (session (turn now e s)).gateway.shared ≡ s.gateway.shared
  unfolding turn
  shared-turn now (message_binary raw) s h = shared-ws_decoded (decode raw) _
  shared-turn now (outbound packet sent) s h = absurd h
  shared-turn now (tick false) s h = refl
  shared-turn now (tick true) s h = ground arith
  shared-turn now (others shared) s h = absurd h
  shared-turn now _ s h = refl

  -- On what its channel gave.
  pub shared-outbound :
      (now : ℕ) (packet : Option Bytes) (sent : Bool) (s : Session n)
      → (session (turn now (outbound packet sent) s)).gateway.shared ≡ s.gateway.shared
  unfolding turn
  shared-outbound now (some bytes) true s = refl
  shared-outbound now (some bytes) false s = refl
  shared-outbound now none sent s = refl

  table-resume :
      (s : System n) (i : Sender) (f : Flow n)
      → (session f).gateway.shared ≡ s.gateway.shared
      → table (resume s i f) ≡ table s
  unfolding resume
  table-resume s i (goes_on after) e =
      ap (λ (h : Shared n). let t : Table = record { rooms = h.rooms; pending = s.pending } in t) e
  table-resume s i (breaks after) e =
      ap (λ (h : Shared n). let t : Table = record { rooms = h.rooms; pending = s.pending } in t) e

  table-polled :
      (now : ℕ) (sent : Bool) (i : Sender) (p : Poll Bytes) (s : System n)
      → table (polled now sent i p s) ≡ table s
  unfolding polled
  table-polled now sent i (item x) s =
      table-resume s i _ (shared-outbound now (some x) sent (session_of s i))
  table-polled now sent i closed s =
      table-resume s i _ (shared-outbound now none sent (session_of s i))
  table-polled now sent i pending s = refl

  rooms-attempted :
      (before : List Retry) (t : Retry) (after : List Retry)
      (r : Result (Unit {0}) Bytes × ChannelInner n Bytes) (shared : Shared n)
      → (attempted before t after r shared).rooms ≡ shared.rooms
  unfolding attempted
  rooms-attempted before t after (ok _, c) shared = refl
  rooms-attempted before t after (err returned, c) shared = refl

  -- The first block of `unregister_internal`, by what it found.
  leaves_block :
      (r u : Bytes) (o : Option (Bool × Rooms)) (s : System n)
      → leave s.gateway.shared.rooms r u ≡ o
      → Cleanup.Step (table s) (table (left r o s)) (Event.left r u ∷ [])
  unfolding left
  leaves_block r u none s e = Cleanup.leaves_nothing r u e
  leaves_block r u (some (should_cleanup, rooms)) s e = Cleanup.leaves r u should_cleanup rooms e

  module _ (iteration : Iteration) where
    -- What a block does to the registry, as events of it.
    abbrev pub happened : {s t : System n} → Step iteration s t → List Event
    happened {s} (opens r u h) = Event.joined r u s.next ∷ []
    happened {s} (leaves i lt out) = Event.left (s.connections i).room (s.connections i).user ∷ []
    happened (gives_up t before after returned e f) = Event.left t.room_id t.user_id ∷ []
    happened _ = []

    -- The events of a run, newest first.
    abbrev pub history : {s : System n} → Reach iteration s → List Event
    history start = []
    history (later r st) = happened st ++ history r

    pub Step-Follows :
        {s t : System n} (st : Step iteration s t) → Follows (table s) (table t) (happened st)
    unfolding opened counted discounted removed finished dispatch
    Step-Follows {s} (hears r b) = inl (
      ap (λ (h : Shared n). let t : Table = record { rooms = h.rooms; pending = s.pending } in t)
          (shared-udp_turn r s.gateway),
      refl,
    )
    Step-Follows {s} (opens r u h) = inr (Cleanup.registers r u s.next)
    Step-Follows (counts i now lt at_start) = inl (refl, refl)
    Step-Follows {s} (reads i now e lt run input) =
        inl (table-resume s i _ (shared-turn now e (session_of s i) input), refl)
    Step-Follows {s} (receives i now sent p c lt run e) =
        inl (table-polled now sent i p (set_channel s i c), refl)
    Step-Follows (discounts i lt out) = inl (refl, refl)
    Step-Follows {s} (leaves i lt out) =
        inr (leaves_block (s.connections i).room (s.connections i).user _ s refl)
    Step-Follows (closes i sent lt out) = inl (refl, refl)
    Step-Follows (cleans r before after e) = inr (Cleanup.cleans r before after e)
    Step-Follows (resolves h payload before after e) = inl (refl, refl)
    Step-Follows {s} (delivers d before after e) = inl (
      ap (λ (h : Rooms). let t : Table = record { rooms = h; pending = s.pending } in t)
          (deliver-rooms d.header.packet_type _ s.gateway.shared),
      refl,
    )
    Step-Follows {s} (retries t before after e) = inl (
      ap (λ (h : Rooms). let t : Table = record { rooms = h; pending = s.pending } in t)
          (rooms-attempted before t after _ s.gateway.shared),
      refl,
    )
    Step-Follows {s} (gives_up t before after returned e f) =
        inr (leaves_block t.room_id t.user_id _ _ refl)

    -- What all tasks of the gateway do, in any order of their blocks, is to the registry and to the
    -- clean-ups that are due what the blocks of `register` and `unregister_internal` do, with the
    -- same events.
    pub Reach-refines :
        {s : System n} (reach : Reach iteration s) → Cleanup.Reach (table s) (history reach)
    unfolding init
    Reach-refines start = Cleanup.start
    Reach-refines (later {s} {t} r st) = elim (Step-Follows st) [
      | inl (same, quiet) ↦ rw (same, quiet) (Reach-refines r)
      | inr block ↦ Cleanup.later (Reach-refines r) block
    ]

    -- In every state that the gateway reaches, the sender under a room and user is that of the last
    -- connection opened under them after which no task took them off the registry.
    pub registry_follows :
        {s : System n} (reach : Reach iteration s) (r u : Bytes)
        → sender_of s.gateway.shared.rooms r u ≡ expected (history reach) r u
    registry_follows reach r u = Reach-expected (Reach-refines reach) r u

    -- In every state that the gateway reaches in which no clean-up is due, no room is empty.
    pub registry_clean :
        {s : System n} (reach : Reach iteration s) (r : Bytes)
        → s.pending ≡ []
        → lookup r s.gateway.shared.rooms ≢ some []
    registry_clean reach r quiet = quiescent-IsClean (Reach-refines reach) quiet r
