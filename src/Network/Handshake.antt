-- ===== src/Network/Handshake.antt =====
-- The WebSocket handshake against the names that packets can carry.
use ws_gateway.Common.{
  ℕ, ◌^◌, ◌<◌, ◌≡◌, ◌≢◌, ◌↔◌, refl, ap, ◌∙◌, Option, none, some, [], ◌∷◌, ◌++◌, arith, length,
  ==_refl, ok, All-append_right,
}
use ws_gateway.Protocol.PacketType.{PacketType}
use ws_gateway.Protocol.TargetType.{unicast}
use ws_gateway.Protocol.Fields.{Bytes, IsBytes}
use ws_gateway.Protocol.Fields.Laws.{IsText, is_valid_ascii_field-IsText, ascii_field_str-text}
use ws_gateway.Protocol.Header.{
  PacketHeader, room_id_len, user_id_len, new, room_id_str, user_id_str, encode, decode,
}
use ws_gateway.Protocol.Header.RoundTrip.{IsHeader, encode-decode}
use ws_gateway.Protocol.Header.New.{Fits, new-decode, new-types}
use ws_gateway.DashMap.{lookup}
use ws_gateway.DashMap.Laws.{same_refl}
use ws_gateway.Channel.{Notify, bounded}
use ws_gateway.Router.{Sender, Room, Iteration, route}
use ws_gateway.Router.Registry.{sender_of, find, register_lem}
use ws_gateway.Router.Relay.{offer-room}
use ws_gateway.Router.Delivery.{route-unicast}
use ws_gateway.Network.{Gateway, upgrade, ws_handler, open_connection, ws_channel_capacity}

-- A connection is accepted exactly when its names are ASCII and fit the fields of a header.
pub ws_handler_iff :
    (room user r u : Bytes)
    → (ws_handler room user ≡ upgrade r u)
      ↔ (Fits room_id_len room × Fits user_id_len user × (r ≡ room) × (u ≡ user))
unfolding ws_handler
ws_handler_iff room user r u = ((λ h. ground arith), (λ h. ground arith))

room_id_str-IsText : (h : PacketHeader) → IsHeader h → IsText (room_id_str h)
unfolding room_id_str
room_id_str-IsText h v =
    let (s, k, t, e) = is_valid_ascii_field-IsText h.room_id v.room_valid in
    rw (e, ascii_field_str-text s k t) t

-- A connection whose room name is ASCII, fits its field and has a NUL is accepted, if its user
-- name fits too, and no buffer of bytes decodes to a packet for that room.
pub nul_room_unreachable :
    (s rest user : Bytes)
    → Fits room_id_len (s ++ 0 ∷ rest)
    → Fits user_id_len user
    → (ws_handler (s ++ 0 ∷ rest) user ≡ upgrade (s ++ 0 ∷ rest) user)
      × ((buf : Bytes) (h : PacketHeader) (payload : Bytes)
          → IsBytes buf
          → decode buf ≡ ok (h, payload)
          → room_id_str h ≢ s ++ 0 ∷ rest)
nul_room_unreachable s rest user fr fu = (
  (ws_handler_iff (s ++ 0 ∷ rest) user _ _).1 (fr, fu, refl, refl),
  λ buf h payload bytes d e.
      let t : IsText (s ++ 0 ∷ rest) =
        rw e at (room_id_str-IsText h (encode-decode buf h payload bytes d).0) in
      let nul = All-append_right _ s (0 ∷ rest) t in absurd (omega arith),
)

find-some :
    (o : Option Room) (u : Bytes) (tx : Sender)
    → find o u ≡ some tx
    → (room : Room) × (o ≡ some room) × (lookup u room ≡ some tx)
find-some none u tx e = cc
find-some (some room) u tx e = (room, refl, e)

-- For names of text under which the handshake accepts a connection, and a sequence number and
-- payload in their ranges, `new` makes a unicast header with these names, and its packet,
-- routed right after the connection was opened, stands alone in the queue of the connection,
-- whatever was registered before.
pub opened_receives :
    {n : Notify} (iteration : Iteration) (pt : PacketType) (r u : Bytes) (seq : ℕ) (payload : Bytes)
    (tx : Sender) (now : ℕ) (g : Gateway n)
    → ws_handler r u ≡ upgrade r u
    → IsText r
    → IsText u
    → seq < 2 ^ 32
    → length payload < 2 ^ 16
    → (h : PacketHeader) × (new pt unicast r u seq (length payload) ≡ ok h)
      × (((route iteration h payload (open_connection tx now r u g).gateway.shared).channels
            tx).queue
          ≡ encode h payload ∷ [])
unfolding open_connection bounded
opened_receives {n} iteration pt r u seq payload tx now g accepted tr tu sq len =
    let (fr, fu, _, _) = (ws_handler_iff r u r u).0 accepted in
    let (h, made, _, er, eu) = new-decode pt unicast r u seq payload tr fr.1 tu fu.1 sq len in
    let types = new-types pt unicast r u seq (length payload) h made in
    let s = (open_connection tx now r u g).gateway.shared in
    let there : sender_of s.rooms (room_id_str h) (user_id_str h) ≡ some tx =
      rw (er, eu)
        (ground (arith, (register_lem g.shared.rooms r u tx).1 r u, same_refl r, same_refl u)) in
    let (room, found, member) =
      find-some (lookup (room_id_str h) s.rooms) (user_id_str h) tx there in
    (
      h,
      made,
      ap (λ c. c.queue) (route-unicast iteration h payload s room (some tx) found member types.1 tx)
          ∙ rw (==_refl tx) (
              offer-room h.packet_type (encode h payload) (bounded n Bytes ws_channel_capacity)
                (omega arith)),
    )
