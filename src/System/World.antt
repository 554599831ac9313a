-- ===== src/System/World.antt =====
-- What can be said of buffers, packets and senders once and for all: connections keep their names,
-- and what has been received stays received.
use mathlib.Core.List.{Memᴰ}
use ws_gateway.Common.{◌<◌, ◌≤◌, ◌≡◌, arith, ◌∙◌, List, ok}
use ws_gateway.Protocol.TargetType.{unicast}
use ws_gateway.Protocol.Fields.{Bytes, IsBytes}
use ws_gateway.Protocol.Header.{PacketHeader, room_id_str, user_id_str, decode, encode}
use ws_gateway.Protocol.Header.RoundTrip.{encode-decode}
use ws_gateway.Channel.{Notify}
use ws_gateway.Network.{Frame, binary, ping, close}
use ws_gateway.Router.{Sender}
use ws_gateway.State.{System, Delivery}

pub record World : Type 0 where
  pub next : Sender
  pub room : Sender → Bytes
  pub user : Sender → Bytes
  pub received : List Bytes

abbrev pub world : {n : Notify} → System n → World
world s = record {
  next = s.next;
  room = λ c. (s.connections c).room;
  user = λ c. (s.connections c).user;
  received = s.received;
}

-- The channel of a connection that was made under these names.
pub record Owns (w : World) (c : Sender) (r u : Bytes) : Type 0 where
  pub made : c < w.next
  pub in_room : w.room c ≡ r
  pub as_user : w.user c ≡ u

-- The connection is in the packet's room, and is the packet's user if the packet is a unicast.
pub record IsFor (w : World) (h : PacketHeader) (c : Sender) : Type 0 where
  pub made : c < w.next
  pub same_room : w.room c ≡ room_id_str h
  pub same_user : h.target_type ≡ unicast → w.user c ≡ user_id_str h

-- A packet that a socket brought.
pub record Came (w : World) (x : Bytes) (h : PacketHeader) (payload : Bytes) : Type 0 where
  pub bytes : IsBytes x
  pub arrived : Memᴰ x w.received
  pub decodes : decode x ≡ ok (h, payload)

-- The packet came from a socket and is for the connection.
pub record Reaches (w : World) (c : Sender) (x : Bytes) : Type 0 where
  pub header : PacketHeader
  pub payload : Bytes
  pub came : Came w x header payload
  pub addressed : IsFor w header c

abbrev pub Shows : World → Sender → Frame → Type 0
Shows w c (binary x) = Reaches w c x
Shows w c _ = Unit {0}

abbrev pub IsSpawned : World → PacketHeader × Bytes → Type 0
IsSpawned w (h, payload) = (x : Bytes) × Came w x h payload

-- A delivery of a packet that came, to a connection that it is for, under that connection's names.
pub record IsDelivery (w : World) (d : Delivery) : Type 0 where
  pub origin : Bytes
  pub came : Came w origin d.header d.payload
  pub addressed : IsFor w d.header d.tx
  pub named : w.user d.tx ≡ d.target_user

-- The packet that `dispatch` encodes again is the one that came.
pub IsDelivery-Reaches :
    (w : World) (d : Delivery) → IsDelivery w d → Reaches w d.tx (encode d.header d.payload)
IsDelivery-Reaches w d v =
    let (valid, len, same) =
      encode-decode v.origin d.header d.payload v.came.bytes v.came.decodes in
    record {
      header = d.header;
      payload = d.payload;
      came = rw same v.came;
      addressed = v.addressed;
    }

pub record Extends (w w' : World) : Type 0 where
  pub next_le : w.next ≤ w'.next
  pub rooms_kept : (c : Sender) → c < w.next → w'.room c ≡ w.room c
  pub users_kept : (c : Sender) → c < w.next → w'.user c ≡ w.user c
  pub received_kept : (x : Bytes) → Memᴰ x w.received → Memᴰ x w'.received

module _ {w w' : World} (more : Extends w w') where
  pub Owns-Extends : (c : Sender) (r u : Bytes) → Owns w c r u → Owns w' c r u
  Owns-Extends c r u v = record {
    made = omega (arith, more.next_le, v.made);
    in_room = more.rooms_kept c v.made ∙ v.in_room;
    as_user = more.users_kept c v.made ∙ v.as_user;
  }

  pub IsFor-Extends : (h : PacketHeader) (c : Sender) → IsFor w h c → IsFor w' h c
  IsFor-Extends h c v = record {
    made = omega (arith, more.next_le, v.made);
    same_room = more.rooms_kept c v.made ∙ v.same_room;
    same_user = λ u. more.users_kept c v.made ∙ v.same_user u;
  }

  pub Came-Extends : (x : Bytes) (h : PacketHeader) (p : Bytes) → Came w x h p → Came w' x h p
  Came-Extends x h p v = record {
    bytes = v.bytes;
    arrived = more.received_kept x v.arrived;
    decodes = v.decodes;
  }

  pub Reaches-Extends : (c : Sender) (x : Bytes) → Reaches w c x → Reaches w' c x
  Reaches-Extends c x v = record {
    header = v.header;
    payload = v.payload;
    came = Came-Extends x v.header v.payload v.came;
    addressed = IsFor-Extends v.header c v.addressed;
  }

  pub Shows-Extends : (c : Sender) (f : Frame) → Shows w c f → Shows w' c f
  Shows-Extends c (binary x) v = Reaches-Extends c x v
  Shows-Extends c ping v = tt
  Shows-Extends c close v = tt

  pub IsSpawned-Extends : (p : PacketHeader × Bytes) → IsSpawned w p → IsSpawned w' p
  IsSpawned-Extends (h, p) (x, v) = (x, Came-Extends x h p v)

  pub IsDelivery-Extends : (d : Delivery) → IsDelivery w d → IsDelivery w' d
  IsDelivery-Extends d v = record {
    origin = v.origin;
    came = Came-Extends v.origin d.header d.payload v.came;
    addressed = IsFor-Extends d.header d.tx v.addressed;
    named = more.users_kept d.tx v.addressed.made ∙ v.named;
  }
