-- ===== src/System/Ending.antt =====
-- The end of `handle_ws_connection` of src/network.rs, after its loop, as a run of its blocks.
use ws_gateway.Common.{
  ◌==◌, ◌<◌, ◌≡◌, refl, inl, inr, true, false, Bool, none, some, [], ==_refl, Option-cases,
  if◌then◌else◌, Option,
}
use ws_gateway.Protocol.Fields.{Bytes}
use ws_gateway.Channel.{Notify, drop_receiver}
use ws_gateway.Router.{
  Sender, Rooms, Iteration, update, leave, remove_if_empty, unregister, unregister_internal,
}
use ws_gateway.Network.{Session, cleanup}
use ws_gateway.State.{
  System, leaving, unregistered, done, session_of, set_shared, set_connection, discounted, left,
  removed, finished,
}
use ws_gateway.System.{discounts, leaves, cleans, closes}
use ws_gateway.System.Routes.{Steps, here, next, Steps-trans}

-- What `unregister_internal` makes of the rooms, by what its first block left to do.
abbrev settled_rooms : Bytes → Option (Bool × Rooms) → Rooms → Rooms
settled_rooms r none rooms = rooms
settled_rooms r (some (should_cleanup, rest)) rooms =
    if should_cleanup then remove_if_empty rest r else rest

settled_rooms-leave :
    (rooms : Rooms) (r u : Bytes)
    → settled_rooms r (leave rooms r u) rooms ≡ unregister_internal rooms r u
unfolding unregister_internal
settled_rooms-leave rooms r u = elim (Option-cases (leave rooms r u)) [
  | inl gone ↦ rw (gone, unregister_internal) refl
  | inr ((should_cleanup, rest), p) ↦ rw (p, unregister_internal) refl
]

module _ (iteration : Iteration) {n : Notify} where
  -- The receiver of the connection is dropped.
  abbrev pub without_receiver : Sender → Session n → Session n
  without_receiver i s = record s {
    gateway = record s.gateway {
      shared = record s.gateway.shared {
        channels = update s.gateway.shared.channels i (drop_receiver (s.gateway.shared.channels i));
      };
    };
  }

  -- A connection that has unregistered, with nothing left to clean up.
  abbrev settled : Sender → Option (Bool × Rooms) → System n → System n
  settled i o s =
      let c = s.connections i in
      set_connection
        (set_shared s
          (record s.gateway.shared { rooms = settled_rooms c.room o s.gateway.shared.rooms }))
        i (record c { phase = unregistered })

  -- The clean-up, where it is due, right after the connection has left its room.
  settles :
      (i : Sender) (o : Option (Bool × Rooms)) (s : System n)
      → let c = s.connections i in
        Steps iteration
          (set_connection (left c.room o s) i (record c { phase = unregistered }))
          (settled i o s)
  unfolding left
  settles i none s = here
  settles i (some (false, rest)) s = here
  settles i (some (true, rest)) s = next (cleans (s.connections i).room [] s.pending refl) here

  -- The blocks after the loop have the effect of the cleanup, and drop the receiver.
  pub cleanup-Steps :
      (sent : Bool) (i : Sender) (s : System n)
      → i < s.next
      → (s.connections i).phase ≡ leaving
      → (t : System n) × Steps iteration s t
        × (session_of t i
            ≡ without_receiver i
                (cleanup (s.connections i).room (s.connections i).user sent (session_of s i)))
        × ((t.connections i).phase ≡ done)
        × (t.pending ≡ s.pending)
        × ((j : Sender) → (i == j) ≡ false → t.connections j ≡ s.connections j)
  unfolding discounted removed left finished cleanup unregister
  cleanup-Steps sent i s lt out =
      let off = discounted i s in
      let c = off.connections i in
      let o = leave off.gateway.shared.rooms c.room c.user in
      (
        finished sent i (settled i o off),
        next (discounts i lt out) (
            next (leaves i lt (rw (==_refl i) refl)) (
              Steps-trans iteration (settles i o off)
                (next (closes i sent lt (rw (==_refl i) refl)) here))),
        rw (==_refl i) (
            rw
              (settled_rooms-leave s.gateway.shared.rooms (s.connections i).room
                (s.connections i).user)
              refl),
        rw (==_refl i) refl,
        refl,
        λ j other. rw other refl,
      )
