-- ===== src/System.antt =====
-- src/network.rs and src/routing.rs together: the tasks of the gateway on the state that they share,
-- one atomic block of one task after another, in any order.
mod Tests
mod World
mod Tidy
mod Queues
mod Valid
mod Kept
mod Blocks
mod Names
mod Arrivals
mod Steps
pub mod Gauge
pub mod Registry
pub mod Senders
pub mod Routes
pub mod Ending
pub mod Safety
mod Onward
pub mod Passage
pub mod Rest
pub mod Kick
pub mod Clock
pub mod Listed
pub mod Population
pub mod Loads
pub mod Once
use ws_gateway.State.{
  Delivery, IsInput, System, attempted, counted, datagram, discounted, finished, init, leaving,
  left, message, opened, polled, registered, removed, resolved, resume, running, session_of,
  set_channel, set_shared, strong, uncounted, unregistered,
}
use ws_gateway.Common.{ℕ, ◌<◌, ◌≡◌, Bool, Option, some, List, ◌∷◌, ◌++◌, err, All}
use ws_gateway.Protocol.Fields.{Bytes, IsBytes}
use ws_gateway.Protocol.Header.{PacketHeader, room_id_str}
use ws_gateway.DashMap.{lookup}
use ws_gateway.Channel.{Notify, ChannelInner, Poll, pending, try_send, recv}
use ws_gateway.Router.{Sender, Retry, Iteration, leave, remove_if_empty, dispatch}
use ws_gateway.Network.{Event, upgrade, ws_handler, udp_turn, turn}

module _ {n : Notify} where
  module _ (iteration : Iteration) where
    -- One atomic block of one task.
    pub data Step (s : System n) : System n → Type 0 where
      hears :
          (r : Option Bytes)
          → All IsBytes (datagram r)
          → Step s
              (record s { gateway = udp_turn r s.gateway; received = datagram r ++ s.received })
      opens : (r u : Bytes) → ws_handler r u ≡ upgrade r u → Step s (opened r u s)
      counts :
          (i : Sender) (now : ℕ)
          → i < s.next
          → (s.connections i).phase ≡ registered
          → Step s (counted now i s)
      reads :
          (i : Sender) (now : ℕ) (e : Event n)
          → i < s.next
          → (s.connections i).phase ≡ running
          → IsInput e
          → Step s (record (resume s i (turn now e (session_of s i))) {
            received = message e ++ s.received;
          })
      receives :
          (i : Sender) (now : ℕ) (sent : Bool) (p : Poll Bytes) (c : ChannelInner n Bytes)
          → i < s.next
          → (s.connections i).phase ≡ running
          → recv (strong s i) (s.gateway.shared.channels i) ≡ some (p, c)
          → Step s (polled now sent i p (set_channel s i c))
      discounts :
          (i : Sender) → i < s.next → (s.connections i).phase ≡ leaving → Step s (discounted i s)
      leaves :
          (i : Sender) → i < s.next → (s.connections i).phase ≡ uncounted → Step s (removed i s)
      closes :
          (i : Sender) (sent : Bool)
          → i < s.next
          → (s.connections i).phase ≡ unregistered
          → Step s (finished sent i s)
      cleans :
          (r : Bytes) (before after : List Bytes)
          → s.pending ≡ before ++ r ∷ after
          → Step s
              (record (set_shared s
                (record s.gateway.shared { rooms = remove_if_empty s.gateway.shared.rooms r })) {
                  pending = before ++ after;
                })
      resolves :
          (h : PacketHeader) (payload : Bytes) (before after : List (PacketHeader × Bytes))
          → s.gateway.spawned ≡ before ++ (h, payload) ∷ after
          → Step s (record s {
            gateway = record s.gateway { spawned = before ++ after };
            sending =
                s.sending
                ++ resolved iteration h payload (lookup (room_id_str h) s.gateway.shared.rooms);
          })
      delivers :
          (d : Delivery) (before after : List Delivery)
          → s.sending ≡ before ++ d ∷ after
          → Step s
              (record (set_shared s
                (dispatch d.header d.payload (d.target_user, d.tx) s.gateway.shared)) {
                  sending = before ++ after;
                })
      retries :
          (t : Retry) (before after : List Retry)
          → s.gateway.shared.retries ≡ before ++ t ∷ after
          → Step s (
              set_shared s (
                attempted before t after
                  (try_send t.packet (s.gateway.shared.channels t.tx))
                  s.gateway.shared))
      gives_up :
          (t : Retry) (before after : List Retry) (returned : Bytes)
          → s.gateway.shared.retries ≡ before ++ t ∷ after
          → (try_send t.packet (s.gateway.shared.channels t.tx)).0 ≡ err returned
          → Step s (
              left t.room_id
                (leave s.gateway.shared.rooms t.room_id t.user_id)
                (set_shared s (record s.gateway.shared { retries = before ++ after })))

    pub data Reach : System n → Type 0 where
      start : Reach (init n)
      later : {s t : System n} → Reach s → Step s t → Reach t
