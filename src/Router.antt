-- ===== src/Router.antt =====
-- src/routing.rs, `Router`: the registry of rooms, registration and its end, routing, and the
-- backpressure policy of `dispatch` with the retry task that it spawns.
mod Tests
pub mod Registry
pub mod Cleanup
pub mod Offers
pub mod Delivery
pub mod Relay
pub mod Kick
pub mod Commands
pub mod References
pub mod Population
pub mod Sizes
pub mod Log
use ws_gateway.Common.{
  ℕ, suc, ◌+◌, ◌≡◌, Bool, true, false, Option, none, some, List, [], ◌∷◌, ◌++◌, map, ◌==◌,
  if◌then◌else◌, unwrap_or, All, Result, ok, err, length,
}
use mathlib.Core.List.{foldl}
use ws_gateway.Protocol.PacketType.{PacketType, raw_motion, ai_event, system_cmd, heartbeat}
use ws_gateway.Protocol.TargetType.{TargetType, broadcast, unicast}
use ws_gateway.Protocol.Fields.{Bytes}
use ws_gateway.Protocol.Header.{PacketHeader, room_id_str, user_id_str, encode}
use ws_gateway.DashMap.{DashMap, lookup, insert, remove, is_empty}
use ws_gateway.Channel.{Notify, ChannelInner, try_send, send_drop_oldest, send_timeout}

-- A `BoundedSender` is an `Arc` of a channel: the number of the channel in the store.
abbrev pub Sender : Type 0
Sender = ℕ

abbrev pub Room : Type 0
Room = DashMap Sender

abbrev pub Rooms : Type 0
Rooms = DashMap Room

unfoldable pub new : Rooms
new = []

-- `register`, with the sender that was evicted, if any, for the warning.
unfoldable pub register : Rooms → Bytes → Bytes → Sender → Rooms × Option Sender
register rooms room_id user_id tx =
    let room = unwrap_or (lookup room_id rooms) [] in
    (insert room_id (insert user_id tx room) rooms, lookup user_id room)

-- The first block of `unregister_internal`: `none` where the room is not there, and otherwise
-- `should_cleanup` with the map after the removal.
unfoldable pub leave : Rooms → Bytes → Bytes → Option (Bool × Rooms)
leave rooms room_id user_id = elim (lookup room_id rooms) [
  | none ↦ none
  | some room ↦ some (is_empty (remove user_id room), insert room_id (remove user_id room) rooms)
]

-- `rooms.remove_if(room_id, |_, r| r.is_empty())`
unfoldable pub remove_if_empty : Rooms → Bytes → Rooms
remove_if_empty rooms room_id = elim (lookup room_id rooms) [
  | none ↦ rooms
  | some room ↦ if is_empty room then remove room_id rooms else rooms
]

-- Both blocks of `unregister_internal` with no other task between them.
unfoldable pub unregister_internal : Rooms → Bytes → Bytes → Rooms
unregister_internal rooms room_id user_id = elim (leave rooms room_id user_id) [
  | none ↦ rooms
  | some (should_cleanup, left) ↦ if should_cleanup then remove_if_empty left room_id else left
]

unfoldable pub unregister : Rooms → Bytes → Bytes → Rooms
unregister rooms room_id user_id = unregister_internal rooms room_id user_id

-- The number of rooms, and that of the users of all rooms.
unfoldable pub room_count : Rooms → ℕ
room_count rooms = length rooms

unfoldable pub user_count : Rooms → ℕ
user_count [] = 0
user_count ((r, room) ∷ rooms) = length room + user_count rooms

-- The task that `dispatch` spawns for a `SystemCmd` that found its channel full.
pub record Retry : Type 0 where
  pub tx : Sender
  pub packet : Bytes
  pub room_id : Bytes
  pub user_id : Bytes

-- What the router's tasks share: the registry, the channels, and the retry tasks spawned.
pub record Shared (n : Notify) : Type 0 where
  pub rooms : Rooms
  pub channels : Sender → ChannelInner n Bytes
  pub retries : List Retry

abbrev pub update {ℓ} : {A : Type ℓ} → (Sender → A) → Sender → A → Sender → A
update f i a j = if i == j then a else f j

abbrev pub retry_budget : ℕ
retry_budget = 50

module _ {n : Notify} where
  abbrev set_channel : Shared n → Sender → ChannelInner n Bytes → Shared n
  set_channel s tx c = record s { channels = update s.channels tx c }

  unfoldable pub dispatch_cmd :
      Retry → Result (Unit {0}) Bytes × ChannelInner n Bytes → Shared n → Shared n
  dispatch_cmd t (ok _, c) s = record s { channels = update s.channels t.tx c }
  dispatch_cmd t (err returned, c) s = record s {
    channels = update s.channels t.tx c;
    retries = s.retries ++ record t { packet = returned } ∷ [];
  }

  unfoldable pub deliver : PacketType → Retry → Shared n → Shared n
  unfolding dispatch_cmd
  deliver raw_motion t s = set_channel s t.tx (send_drop_oldest t.packet (s.channels t.tx))
  deliver system_cmd t s = dispatch_cmd t (try_send t.packet (s.channels t.tx)) s
  deliver ai_event t s = set_channel s t.tx (try_send t.packet (s.channels t.tx)).1
  deliver heartbeat t s = set_channel s t.tx (try_send t.packet (s.channels t.tx)).1

  unfoldable pub dispatch : PacketHeader → Bytes → Bytes × Sender → Shared n → Shared n
  unfolding deliver
  dispatch header payload (target_user, tx) s =
      deliver header.packet_type
        (record {
          tx = tx;
          packet = encode header payload;
          room_id = room_id_str header;
          user_id = target_user;
        })
        s

  unfoldable pub dispatch_all : PacketHeader → Bytes → List (Bytes × Sender) → Shared n → Shared n
  dispatch_all header payload [] s = s
  dispatch_all header payload (t ∷ ts) s =
      dispatch_all header payload ts (dispatch header payload t s)

  -- What the retry task does with the result of its `send_timeout`.
  unfoldable pub finish_retry : Retry → Result (Unit {0}) Bytes → Shared n → Shared n
  finish_retry t (ok _) s = s
  finish_retry t (err _) s = record s { rooms = unregister_internal s.rooms t.room_id t.user_id }

-- How many entries hold a sender.
abbrev pub count_sender : Sender → List (Bytes × Sender) → ℕ
count_sender c [] = 0
count_sender c ((u, d) ∷ room) = let rest = count_sender c room in if d == c then suc rest else rest

-- `room.iter()`: the entries of a room in the order of its shards, which is not known. Each entry
-- comes once, and nothing else comes.
pub record Iteration : Type 1 where
  pub entries : Room → List (Bytes × Sender)
  pub once : (room : Room) (c : Sender) → count_sender c (entries room) ≡ count_sender c room
  pub only : (room : Room) (P : Bytes × Sender → Type 0) → All P room → All P (entries room)

module _ (iteration : Iteration) where
  -- The targets of a packet in the room that was found.
  unfoldable pub targets : PacketHeader → TargetType → Room → List (Bytes × Sender)
  targets header broadcast room = iteration.entries room
  targets header unicast room = elim (lookup (user_id_str header) room) [
    | none ↦ []
    | some tx ↦ (user_id_str header, tx) ∷ []
  ]

  unfoldable pub route : {n : Notify} → PacketHeader → Bytes → Shared n → Shared n
  unfolding dispatch_all targets
  route header payload s = elim (lookup (room_id_str header) s.rooms) [
    | none ↦ s
    | some room ↦ dispatch_all header payload (targets header header.target_type room) s
  ]
