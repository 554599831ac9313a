-- ===== src/Router/Registry.antt =====
-- Who is registered after each operation of the registry.
use ws_gateway.Common.{
  ◌≡◌, ◌≢◌, ◌↔◌, ◌⊎◌, inl, inr, refl, sym, ◌∙◌, Bool, true, false, ◌&&◌, Option, none, some, [],
  ◌∷◌, arith, Option-cases, List-cases, if◌then◌else◌, unwrap_or,
}
use ws_gateway.Protocol.Fields.{Bytes}
use ws_gateway.DashMap.{same, lookup, insert, remove, is_empty}
use ws_gateway.DashMap.Laws.{same_refl, same_iff, lookup-insert, lookup-remove, nil_of_is_empty}
use ws_gateway.Router.{
  Sender, Room, Rooms, register, leave, remove_if_empty, unregister_internal, unregister,
}

-- The sender under a room and a user.
abbrev pub find : Option Room → Bytes → Option Sender
find none user_id = none
find (some room) user_id = lookup user_id room

abbrev pub sender_of : Rooms → Bytes → Bytes → Option Sender
sender_of rooms room_id user_id = find (lookup room_id rooms) user_id

find-unwrap_or : (o : Option Room) (u : Bytes) → lookup u (unwrap_or o []) ≡ find o u
unfolding lookup
find-unwrap_or none u = refl
find-unwrap_or (some room) u = refl

-- `register` returns the sender that stood under the room and user; after it the new sender is
-- found there, and every other room and user is as before.
pub register_lem :
    (rooms : Rooms) (r u : Bytes) (tx : Sender)
    → ((register rooms r u tx).1 ≡ sender_of rooms r u)
      × ((r' u' : Bytes)
          → sender_of (register rooms r u tx).0 r' u'
            ≡ (if same r r' && same u u' then some tx else sender_of rooms r' u'))
unfolding register
register_lem rooms r u tx = (
  find-unwrap_or (lookup r rooms) u,
  λ r' u'.
      let room = unwrap_or (lookup r rooms) [] in
      ground (
        arith,
        lookup-insert r r' (insert u tx room) rooms,
        lookup-insert u u' tx room,
        find-unwrap_or (lookup r rooms) u',
        same_iff r r',
      ),
)

pub find-leave :
    (rooms left : Rooms) (r u : Bytes) (cleanup : Bool)
    → leave rooms r u ≡ some (cleanup, left)
    → (r' u' : Bytes)
    → sender_of left r' u' ≡ (if same r r' && same u u' then none else sender_of rooms r' u')
unfolding leave
find-leave rooms left r u cleanup e r' u' = elim (Option-cases (lookup r rooms)) [
  | inl gone ↦ ground arith
  | inr (room, there) ↦
      ground
        (arith, lookup-insert r r' (remove u room) rooms, lookup-remove u u' room, same_iff r r')
]

-- The destruction of an empty room takes no registered user away.
pub sender_of-remove_if_empty :
    (rooms : Rooms) (r r' u' : Bytes)
    → sender_of (remove_if_empty rooms r) r' u' ≡ sender_of rooms r' u'
unfolding remove_if_empty lookup
sender_of-remove_if_empty rooms r r' u' = elim (Option-cases (lookup r rooms)) [
  | inl gone ↦ rw (gone, remove_if_empty) refl
  | inr (room, there) ↦
      ground (arith, lookup-remove r r' rooms, nil_of_is_empty room, same_iff r r')
]

pub sender_of-leave-none :
    (rooms : Rooms) (r u : Bytes)
    → leave rooms r u ≡ none
    → (r' u' : Bytes)
    → sender_of rooms r' u' ≡ (if same r r' && same u u' then none else sender_of rooms r' u')
unfolding leave
sender_of-leave-none rooms r u e r' u' = elim (Option-cases (lookup r rooms)) [
  | inl gone ↦ ground (arith, same_iff r r')
  | inr (room, there) ↦ ground arith
]

-- After `unregister` nobody is found under its room and user, and every other room and user is
-- as before.
pub unregister_lem :
    (rooms : Rooms) (r u r' u' : Bytes)
    → sender_of (unregister rooms r u) r' u'
      ≡ (if same r r' && same u u' then none else sender_of rooms r' u')
unfolding unregister unregister_internal
unregister_lem rooms r u r' u' = elim (Option-cases (leave rooms r u)) [
  | inl gone ↦ rw (gone, unregister_internal) (sender_of-leave-none rooms r u gone r' u')
  | inr ((cleanup, left), e) ↦
      ground
        (arith, find-leave rooms left r u cleanup e r' u', sender_of-remove_if_empty left r r' u')
]

-- No room is empty.
abbrev pub IsClean : Rooms → Type 0
IsClean rooms = (r : Bytes) → lookup r rooms ≢ some []

insert-ne-nil : (u : Bytes) (tx : Sender) (room : Room) → insert u tx room ≢ []
unfolding insert
insert-ne-nil u tx [] e = cc
insert-ne-nil u tx ((v, w) ∷ room) e = ground arith

pub lookup-register :
    (rooms : Rooms) (r u : Bytes) (tx : Sender) (r' : Bytes)
    → lookup r' (register rooms r u tx).0 ≡ some []
    → (lookup r' rooms ≡ some []) × (same r r' ≡ false)
unfolding register
lookup-register rooms r u tx r' e =
    let room = unwrap_or (lookup r rooms) [] in
    ground (arith, lookup-insert r r' (insert u tx room) rooms, insert-ne-nil u tx room)

-- An empty room after the first block of `unregister_internal` was empty before, or is the room
-- left, with the clean-up due.
pub lookup-leave :
    (rooms left : Rooms) (r u : Bytes) (cleanup : Bool)
    → leave rooms r u ≡ some (cleanup, left)
    → (r' : Bytes) → lookup r' left ≡ some []
    → (lookup r' rooms ≡ some []) ⊎ ((same r r' ≡ true) × (cleanup ≡ true))
unfolding leave is_empty
lookup-leave rooms left r u cleanup e r' h = elim (Option-cases (lookup r rooms)) [
  | inl gone ↦ ground arith
  | inr (room, there) ↦ ground (arith, lookup-insert r r' (remove u room) rooms)
]

-- An empty room after the second block is another room, and was empty before.
pub lookup-remove_if_empty :
    (rooms : Rooms) (r r' : Bytes)
    → lookup r' (remove_if_empty rooms r) ≡ some []
    → (lookup r' rooms ≡ some []) × (same r r' ≡ false)
unfolding remove_if_empty is_empty
lookup-remove_if_empty rooms r r' e = elim (Option-cases (lookup r rooms)) [
  | inl gone ↦ ground (arith, same_iff r r')
  | inr (room, there) ↦ ground (arith, lookup-remove r r' rooms, same_iff r r')
]

-- Registration leaves no room empty.
pub register-IsClean :
    (rooms : Rooms) (r u : Bytes) (tx : Sender) → IsClean rooms → IsClean (register rooms r u tx).0
register-IsClean rooms r u tx clean r' e = clean r' (lookup-register rooms r u tx r' e).0

-- Where no room is empty, none is after `unregister`.
pub unregister-IsClean :
    (rooms : Rooms) (r u : Bytes) → IsClean rooms → IsClean (unregister rooms r u)
unfolding unregister unregister_internal
unregister-IsClean rooms r u clean r' e = elim (Option-cases (leave rooms r u)) [
  | inl gone ↦ clean r' (rw (gone, unregister_internal) at e)
  | inr ((cleanup, left), p) ↦
      ground (
        arith,
        lookup-leave rooms left r u cleanup p r',
        lookup-remove_if_empty left r r',
        clean r',
      )
]

first-find : (v : Bytes) (w : Sender) (room : Room) → lookup v ((v, w) ∷ room) ≡ some w
unfolding lookup
first-find v w room = rw (same_refl v) refl

absent :
    (rooms : Rooms) (r : Bytes)
    → IsClean rooms
    → ((u : Bytes) → sender_of rooms r u ≡ none)
    → lookup r rooms ≡ none
absent rooms r clean nobody = elim (Option-cases (lookup r rooms)) [
  | inl gone ↦ gone
  | inr (room, there) ↦ elim (List-cases room) [
    | inl e ↦ absurd (clean r (cc))
    | inr ((v, w), rest, e) ↦
        let found : sender_of rooms r v ≡ some w = rw (there, e) (first-find v w rest) in
        absurd (let clash : none ≡ some w = sym (nobody v) ∙ found in cc)
  ]
]

-- Where no room is empty, a room is missing exactly when nobody is registered in it.
pub room_iff :
    (rooms : Rooms) (r : Bytes)
    → IsClean rooms
    → (lookup r rooms ≡ none) ↔ ((u : Bytes) → sender_of rooms r u ≡ none)
room_iff rooms r clean = ((λ gone u. rw gone refl), λ nobody. absent rooms r clean nobody)
