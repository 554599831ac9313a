-- ===== src/Router/References.antt =====
-- How many entries of the registry hold a sender: with the receiver, and the retry tasks, these are
-- what `Arc::strong_count` counts.
use ws_gateway.Common.{
  ℕ, suc, ◌+◌, ◌≤◌, ◌≡◌, inl, inr, Bool, Option, none, some, List, [], ◌∷◌, arith, Option-cases,
  if◌then◌else◌, ◌==◌, unwrap_or,
}
use ws_gateway.Protocol.Fields.{Bytes}
use ws_gateway.DashMap.{lookup, insert, remove}
use ws_gateway.Router.{
  Sender, Room, Rooms, Retry, Shared, count_sender, register, leave, remove_if_empty,
}
use ws_gateway.Channel.{Notify}

unfoldable pub references : Sender → Rooms → ℕ
references c [] = 0
references c ((r, room) ∷ rooms) = count_sender c room + references c rooms

unfoldable pub count_retries : Sender → List Retry → ℕ
count_retries c [] = 0
count_retries c (t ∷ ts) = let rest = count_retries c ts in if t.tx == c then suc rest else rest

-- `Arc::strong_count` of a channel whose receiver is alive.
unfoldable pub strong_count : {n : Notify} → Sender → Shared n → ℕ
unfolding references count_retries
strong_count c s = 1 + references c s.rooms + count_retries c s.retries

abbrev pub held : Option Sender → Sender → ℕ
held none c = 0
held (some d) c = if d == c then 1 else 0

count-insert :
    (c : Sender) (u : Bytes) (tx : Sender) (room : Room)
    → count_sender c (insert u tx room) + held (lookup u room) c
      ≡ count_sender c room + held (some tx) c
unfolding insert lookup
count-insert c u tx [] = ground arith
count-insert c u tx ((v, d) ∷ room) = ground (arith, count-insert c u tx room)

count-remove :
    (c : Sender) (u : Bytes) (room : Room)
    → count_sender c (remove u room) + held (lookup u room) c ≤ count_sender c room
unfolding remove lookup
count-remove c u [] = ground arith
count-remove c u ((v, d) ∷ room) = ground (arith, count-remove c u room)

references-insert :
    (c : Sender) (r : Bytes) (room : Room) (rooms : Rooms)
    → references c (insert r room rooms) + count_sender c (unwrap_or (lookup r rooms) [])
      ≡ references c rooms + count_sender c room
unfolding references insert lookup
references-insert c r room [] = ground arith
references-insert c r room ((q, old) ∷ rooms) = ground (arith, references-insert c r room rooms)

references-remove :
    (c : Sender) (r : Bytes) (rooms : Rooms) → references c (remove r rooms) ≤ references c rooms
unfolding references remove
references-remove c r [] = ground arith
references-remove c r ((q, old) ∷ rooms) = ground (arith, references-remove c r rooms)

-- A registration adds one holder of the new sender and takes one of the sender it evicts.
pub references-register :
    (c : Sender) (rooms : Rooms) (r u : Bytes) (tx : Sender)
    → references c (register rooms r u tx).0 + held (register rooms r u tx).1 c
      ≡ references c rooms + held (some tx) c
unfolding register
references-register c rooms r u tx =
    let room = unwrap_or (lookup r rooms) [] in
    omega (arith, references-insert c r (insert u tx room) rooms, count-insert c u tx room)

pub references-remove_if_empty :
    (c : Sender) (r : Bytes) (rooms : Rooms)
    → references c (remove_if_empty rooms r) ≤ references c rooms
unfolding remove_if_empty
references-remove_if_empty c r rooms = ground (arith, references-remove c r rooms)

pub references-leave :
    (c : Sender) (rooms left : Rooms) (r u : Bytes) (cleanup : Bool)
    → leave rooms r u ≡ some (cleanup, left)
    → (room : Room) × (lookup r rooms ≡ some room)
      × (references c left + held (lookup u room) c ≤ references c rooms)
unfolding leave
references-leave c rooms left r u cleanup e = elim (Option-cases (lookup r rooms)) [
  | inl gone ↦ absurd (ground arith)
  | inr (room, there) ↦ (
    room,
    there,
    ground (arith, references-insert c r (remove u room) rooms, count-remove c u room),
  )
]

-- A user's entry holds its sender.
pub count_sender-lookup :
    (c : Sender) (u : Bytes) (room : Room) → lookup u room ≡ some c → 1 ≤ count_sender c room
unfolding lookup
count_sender-lookup c u [] e = cc
count_sender-lookup c u ((v, d) ∷ room) e = ground (arith, count_sender-lookup c u room)

-- The entries of one room are among those of the registry.
pub count_sender-references :
    (c : Sender) (r : Bytes) (rooms : Rooms) (room : Room)
    → lookup r rooms ≡ some room
    → count_sender c room ≤ references c rooms
unfolding references lookup
count_sender-references c r [] room e = cc
count_sender-references c r ((q, old) ∷ rooms) room e =
    ground (arith, count_sender-references c r rooms room)
