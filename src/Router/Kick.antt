-- ===== src/Router/Kick.antt =====
-- src/routing.rs and src/network.rs: a second connection under the room and user of a first one.
use ws_gateway.Common.{◌+◌, ◌≤◌, ◌≡◌, ◌≢◌, none, some, [], arith, Option-cases, inl, inr}
use ws_gateway.Protocol.Fields.{Bytes}
use ws_gateway.DashMap.Laws.{same_refl}
use ws_gateway.Channel.{Notify, ChannelInner, closed, recv}
use ws_gateway.Channel.Wakeup.{recv-closed}
use ws_gateway.Router.{Sender, Rooms, register, leave, unregister, unregister_internal}
use ws_gateway.Router.Registry.{sender_of, register_lem, unregister_lem, sender_of-leave-none}
use ws_gateway.Router.References.{
  references, references-register, references-remove_if_empty, references-leave,
}

-- The registered sender of a connection goes with its registration.
pub references-unregister :
    (rooms : Rooms) (r u : Bytes) (c : Sender)
    → sender_of rooms r u ≡ some c
    → references c (unregister rooms r u) + 1 ≤ references c rooms
unfolding unregister unregister_internal
references-unregister rooms r u c e = elim (Option-cases (leave rooms r u)) [
  | inl gone ↦
      let nobody = sender_of-leave-none rooms r u gone r u in
      absurd (ground (arith, same_refl r, same_refl u))
  | inr ((cleanup, left), p) ↦
      let (room, there, fewer) = references-leave c rooms left r u cleanup p in
      ground (arith, references-remove_if_empty c r left)
]

module _ (rooms : Rooms) (r u : Bytes) (old tx : Sender) (differ : old ≢ tx) where
  -- The registry after a second connection registered over a first one that was its user's only.
  abbrev after : Rooms
  after = (register rooms r u tx).0

  -- Registering a sender over another one takes one of the references that the registry has to
  -- that one, and gives one to the new sender.
  pub register_kicks :
      sender_of rooms r u ≡ some old
      → (references old after + 1 ≡ references old rooms)
        × (references tx after ≡ references tx rooms + 1)
  register_kicks e = ground (
    arith,
    (register_lem rooms r u tx).0,
    references-register old rooms r u tx,
    references-register tx rooms r u tx,
  )

  registered : sender_of after r u ≡ some tx
  registered = ground (arith, (register_lem rooms r u tx).1 r u, same_refl r, same_refl u)

  -- The defect: where a connection is registered over another sender, under the same room and
  -- user, and is held by no other entry, the end of the evicted connection's task unregisters
  -- that room and user. The new connection, found before, is found no more, and with its queue
  -- empty its own receive reports the end, if no sender but those of the registry is left.
  stale_unregister :
      {n : Notify} (c : ChannelInner n Bytes)
      → sender_of rooms r u ≡ some old
      → references tx rooms ≡ 0
      → c.queue ≡ []
      → (sender_of after r u ≡ some tx)
        × (sender_of (unregister after r u) r u ≡ none)
        × (recv (1 + references tx (unregister after r u)) c ≡ some (closed, c))
  stale_unregister c e fresh empty =
      let gone : references tx (unregister after r u) ≡ 0 =
        omega (arith, references-unregister after r u tx registered, register_kicks e) in
      (
        registered,
        ground (arith, unregister_lem after r u r u, same_refl r, same_refl u),
        rw gone (recv-closed c empty),
      )
