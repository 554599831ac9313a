-- ===== src/System/Population.antt =====
-- The size of the registry of src/routing.rs against the connections of src/network.rs that there
-- are: what is registered does not pile up.
use ws_gateway.Common.{◌+◌, ◌<◌, ◌≤◌, inl, inr, length, arith, All, All-map, Bool-cases, ltb}
use ws_gateway.Channel.{Notify}
use ws_gateway.Router.{Sender, Iteration, room_count, user_count}
use ws_gateway.Router.References.{references}
use ws_gateway.Router.Sizes.{
  Reach-IsKeyed, room_count-le, references-found, sum_below, sum_below-le, user_count-total,
}
use ws_gateway.State.{System}
use ws_gateway.System.{Reach}
use ws_gateway.System.World.{world}
use ws_gateway.System.Tidy.{IsMember}
use ws_gateway.System.Steps.{Reach-IsSystem}
use ws_gateway.System.Registry.{Reach-refines}
use ws_gateway.System.Senders.{held_once}
use ws_gateway.System.Listed.{stands, registered_stands}

module _ {n : Notify} (iteration : Iteration) (s : System n) (reach : Reach iteration s) where
  -- An entry holds a connection that stands, and no two hold the same.
  references-stands : (c : Sender) → references c s.gateway.shared.rooms ≤ stands s c
  references-stands c =
      let rooms = s.gateway.shared.rooms in
      elim (Bool-cases (ltb 0 (references c rooms))) [
        | inl there ↦
            let (r, u, found) =
              references-found c rooms (Reach-IsKeyed (Reach-refines iteration reach))
                (ground arith) in
            let once = held_once iteration reach c in
            let at_work = registered_stands iteration reach r u c found in ground arith
        | inr gone ↦ ground arith
      ]

  senders_below : All (λ e. All (λ m. m.1 < s.next) e.1) s.gateway.shared.rooms
  senders_below =
      All-map _ _ s.gateway.shared.rooms
        (λ e v. All-map (IsMember (world s) e.0) (λ m. m.1 < s.next) e.1 (λ m o. o.made) v)
        (Reach-IsSystem iteration reach).shared.rooms

  -- In every state that the gateway reaches, the users of all rooms are no more than the connections
  -- that have been opened and have not unregistered yet, and the rooms no more than the users and the
  -- clean-ups due.
  pub registry_bounded :
      (user_count s.gateway.shared.rooms ≤ sum_below s.next (stands s))
      × (room_count s.gateway.shared.rooms ≤ user_count s.gateway.shared.rooms + length s.pending)
  registry_bounded = (
    omega (
      arith,
      user_count-total s.next s.gateway.shared.rooms senders_below,
      sum_below-le s.next (λ c. references c s.gateway.shared.rooms) (stands s)
          (λ c lt. references-stands c),
    ),
    room_count-le (Reach-refines iteration reach),
  )
