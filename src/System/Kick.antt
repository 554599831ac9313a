-- ===== src/System/Kick.antt =====
-- A second connection under the names of a first one, through the blocks of src/network.rs.
use ws_gateway.Common.{
  ◌≡◌, refl, ap, ◌∙◌, true, false, none, some, [], arith, ==_refl, ==-eq-false, ◌==◌,
}
use ws_gateway.Protocol.Fields.{Bytes}
use ws_gateway.DashMap.Laws.{same_refl}
use ws_gateway.Channel.{Notify, closed}
use ws_gateway.Router.{Sender, Rooms, Iteration, register, unregister}
use ws_gateway.Router.Registry.{sender_of, unregister_lem}
use ws_gateway.Network.{Session, upgrade, ws_handler, turn, cleanup}
use ws_gateway.State.{System, registered, running, done, resume, polled, opened, set_channel}
use ws_gateway.System.{Reach, opens, receives}
use ws_gateway.System.Ending.{cleanup-Steps}
use ws_gateway.System.Routes.{Steps, next}
use ws_gateway.System.Safety.{registered_owned}
use ws_gateway.System.Senders.{replaced-ends}

-- Nobody is registered under the names just unregistered.
unregister-none : (rooms : Rooms) (r u : Bytes) → sender_of (unregister rooms r u) r u ≡ none
unregister-none rooms r u = ground (arith, unregister_lem rooms r u r u, same_refl r, same_refl u)

module _ (iteration : Iteration) {n : Notify} where
  -- The defect: from every state that the gateway reaches with no delivery and no retry under way, in
  -- which a connection with an empty queue is registered and in its loop, the handshake accepting
  -- its names, blocks of the tasks lead to a state in which that connection is done and a second one
  -- has been opened under its names and not gone on, but nobody is registered under them.
  pub replaced-unregisters :
      (s : System n) (r u : Bytes) (old : Sender)
      → Reach iteration s
      → ws_handler r u ≡ upgrade r u
      → sender_of s.gateway.shared.rooms r u ≡ some old
      → (s.connections old).phase ≡ running
      → (s.gateway.shared.channels old).queue ≡ []
      → s.sending ≡ []
      → s.gateway.shared.retries ≡ []
      → (t : System n) × Steps iteration s t
        × ((t.connections old).phase ≡ done)
        × (t.connections s.next
            ≡ record { room = r; user = u; last_alive = 0; frames = []; phase = registered })
        × (sender_of t.gateway.shared.rooms r u ≡ none)
  unfolding opened polled resume turn cleanup
  replaced-unregisters s r u old reach accepted e run empty idle quiet =
      let (exists, in_room, as_user) = registered_owned iteration s reach r u old e in
      let differ : (s.next == old) ≡ false = ==-eq-false s.next old (λ same. omega arith) in
      let differ' : (old == s.next) ≡ false = ==-eq-false old s.next (λ same. omega arith) in
      let second = opened r u s in
      let c = second.gateway.shared.channels old in
      let told = polled 0 true old closed (set_channel second old c) in
      let ends = replaced-ends iteration reach r u old e empty idle quiet in
      let (t, steps, after, over, _, others) =
        cleanup-Steps iteration true old told (omega arith) (rw (==_refl old) refl) in
      (
        t,
        next (opens r u accepted)
            (next (receives old 0 true closed c (omega arith) (rw differ run) ends) steps),
        over,
        others s.next differ' ∙ rw differ' (rw (==_refl s.next) refl),
        ap (λ (x : Session n). sender_of x.gateway.shared.rooms r u) after
            ∙ rw (==_refl old, differ, in_room, as_user)
                (unregister-none (register s.gateway.shared.rooms r u s.next).0 r u),
      )
