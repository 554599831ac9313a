-- ===== src/System/Safety.antt =====
-- What holds in every state that the tasks of the gateway reach, in any order of their blocks.
use mathlib.Core.List.{Memᴰ}
use ws_gateway.Common.{
  ◌<◌, ◌≤◌, ◌≡◌, inl, inr, ◌⊎◌, sym, none, some, List, [], ◌∷◌, ok, All, length, arith,
  Option-cases,
}
use ws_gateway.Protocol.TargetType.{unicast}
use ws_gateway.Protocol.Fields.{Bytes}
use ws_gateway.Protocol.Header.{PacketHeader, room_id_str, user_id_str, decode}
use ws_gateway.DashMap.{lookup}
use ws_gateway.Channel.{Notify}
use ws_gateway.Router.{Sender, Iteration}
use ws_gateway.Router.Registry.{sender_of}
use ws_gateway.Network.{binary, ws_channel_capacity}
use ws_gateway.State.{System}
use ws_gateway.System.{Reach}
use ws_gateway.System.World.{world, Reaches}
use ws_gateway.DashMap.Entries.{All-lookup}
use ws_gateway.System.Tidy.{IsMember, found_members}
use ws_gateway.System.Steps.{Reach-IsSystem}

-- The bytes are one of the buffers that sockets brought, they decode to a packet for the room of the
-- connection, and a unicast is for the user of the connection.
pub record IsRelayed {n : Notify} (s : System n) (c : Sender) (x : Bytes) : Type 0 where
  pub header : PacketHeader
  pub payload : Bytes
  pub arrived : Memᴰ x s.received
  pub decodes : decode x ≡ ok (header, payload)
  pub same_room : room_id_str header ≡ (s.connections c).room
  pub same_user : header.target_type ≡ unicast → user_id_str header ≡ (s.connections c).user

Reaches-IsRelayed :
    {n : Notify} (s : System n) (c : Sender) (x : Bytes) → Reaches (world s) c x → IsRelayed s c x
Reaches-IsRelayed s c x v = record {
  header = v.header;
  payload = v.payload;
  arrived = v.came.arrived;
  decodes = v.came.decodes;
  same_room = sym v.addressed.same_room;
  same_user = λ u. sym (v.addressed.same_user u);
}

All-Memᴰ {ℓ κ} : {A : Type ℓ} (P : A → Type κ) (x : A) (xs : List A) → All P xs → Memᴰ x xs → P x
All-Memᴰ P x [] h m = elim m [ ]
All-Memᴰ P x (y ∷ xs) h (Memᴰ.head e) = rw e h.0
All-Memᴰ P x (y ∷ xs) h (Memᴰ.tail m) = All-Memᴰ P x xs h.1 m

module _ {n : Notify} (iteration : Iteration) (s : System n) (reach : Reach iteration s) where
  queued_isolated :
      (c : Sender) (x : Bytes) → Memᴰ x (s.gateway.shared.channels c).queue → IsRelayed s c x
  queued_isolated c x m = Reaches-IsRelayed s c x (
      All-Memᴰ (Reaches (world s) c) x _ ((Reach-IsSystem iteration reach).shared.channels c).items
        m)

  written_isolated :
      (c : Sender) (x : Bytes) → Memᴰ (binary x) (s.connections c).frames → IsRelayed s c x
  written_isolated c x m =
      Reaches-IsRelayed s c x
        (All-Memᴰ _ (binary x) _ ((Reach-IsSystem iteration reach).frames c) m)

  -- In every state that the gateway reaches, a packet that stands in the queue of a connection, or
  -- was written to its client in a binary frame, is one of the buffers received, decodes to a packet
  -- for the connection's room and, if that is a unicast, for its user.
  pub isolated :
      (c : Sender) (x : Bytes)
      → Memᴰ x (s.gateway.shared.channels c).queue ⊎ Memᴰ (binary x) (s.connections c).frames
      → IsRelayed s c x
  isolated c x (inl queued) = queued_isolated c x queued
  isolated c x (inr written) = written_isolated c x written

  -- In every state that the gateway reaches, no queue is longer than the capacity of 64.
  pub queues_bounded :
      (c : Sender) → length (s.gateway.shared.channels c).queue ≤ ws_channel_capacity
  queues_bounded c =
      let v = (Reach-IsSystem iteration reach).shared.channels c in
      omega (arith, v.capacity, v.sound.within)

  -- In every state that the gateway reaches, the sender that is registered under a room and a user is
  -- that of a connection that was opened under this room and this user.
  pub registered_owned :
      (r u : Bytes) (c : Sender)
      → sender_of s.gateway.shared.rooms r u ≡ some c
      → (c < s.next) × ((s.connections c).room ≡ r) × ((s.connections c).user ≡ u)
  registered_owned r u c e = elim (Option-cases (lookup r s.gateway.shared.rooms)) [
    | inl gone ↦ (let clash : none ≡ some c = rw gone at e in cc)
    | inr (room, there) ↦
        let member : lookup u room ≡ some c = rw there at e in
        let tidy = (Reach-IsSystem iteration reach).shared.rooms in
        let v =
          All-lookup (IsMember (world s) r) u room c member
            (found_members (world s) s.gateway.shared.rooms tidy r room there) in
        (v.made, v.in_room, v.as_user)
  ]
