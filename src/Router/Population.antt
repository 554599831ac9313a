-- ===== src/Router/Population.antt =====
-- `room_count` and `user_count` of src/routing.rs, through the blocks of `register` and
-- `unregister_internal`.
use ws_gateway.Common.{
  ◌+◌, ◌≡◌, inl, inr, Bool, some, [], ◌∷◌, length, arith, All, Bool-cases, Option-cases, unwrap_or,
}
use ws_gateway.Protocol.Fields.{Bytes}
use ws_gateway.DashMap.{lookup, insert, remove, is_empty}
use ws_gateway.DashMap.Laws.{eq_of_same, nil_of_is_empty}
use ws_gateway.DashMap.Keys.{
  IsUnique, insert-IsUnique, remove-IsUnique, remove-none, present, length-insert, length-remove,
}
use ws_gateway.DashMap.Entries.{All-insert, All-remove, All-lookup}
use ws_gateway.Router.{Sender, Room, Rooms, register, leave, remove_if_empty, user_count}
use ws_gateway.Router.Registry.{sender_of}

-- No room stands twice in the registry, and no user twice in a room.
pub record IsKeyed (rooms : Rooms) : Type 0 where
  pub outer : IsUnique rooms
  pub inner : All (λ e. IsUnique e.1) rooms

module _ (rooms : Rooms) (v : IsKeyed rooms) (r : Bytes) where
  found-IsUnique : IsUnique (unwrap_or (lookup r rooms) [])
  found-IsUnique = elim (Option-cases (lookup r rooms)) [
    | inl gone ↦ rw gone tt
    | inr (room, there) ↦ rw there (All-lookup (λ e. IsUnique e.1) r rooms room there v.inner)
  ]

  insert-IsKeyed : (room : Room) → IsUnique room → IsKeyed (insert r room rooms)
  insert-IsKeyed room u = record {
    outer = insert-IsUnique r room rooms v.outer;
    inner = All-insert (λ e. IsUnique e.1) r room rooms u v.inner;
  }

  pub register-IsKeyed : (u : Bytes) (tx : Sender) → IsKeyed (register rooms r u tx).0
  unfolding register
  register-IsKeyed u tx = insert-IsKeyed _ (insert-IsUnique u tx _ found-IsUnique)

  pub leave-IsKeyed :
      (u : Bytes) (cleanup : Bool) (left : Rooms)
      → leave rooms r u ≡ some (cleanup, left)
      → IsKeyed left
  unfolding leave
  leave-IsKeyed u cleanup left e = elim (Option-cases (lookup r rooms)) [
    | inl gone ↦ absurd (ground arith)
    | inr (room, there) ↦
        let same_rooms : insert r (remove u room) rooms ≡ left = ground arith in
        let unique : IsUnique room = rw there at found-IsUnique in
        rw (← same_rooms) (insert-IsKeyed (remove u room) (remove-IsUnique u room unique))
  ]

  pub remove_if_empty-IsKeyed : IsKeyed (remove_if_empty rooms r)
  unfolding remove_if_empty
  remove_if_empty-IsKeyed = elim (Option-cases (lookup r rooms)) [
    | inl gone ↦ rw (gone, remove_if_empty) v
    | inr (room, there) ↦ elim (Bool-cases (is_empty room)) [
      | inl yes_empty ↦
          rw (there, remove_if_empty, yes_empty)
            (record {
              outer = remove-IsUnique r rooms v.outer;
              inner = All-remove (λ e. IsUnique e.1) r rooms v.inner;
            })
      | inr no_empty ↦ rw (there, remove_if_empty, no_empty) v
    ]
  ]

user_count-insert :
    (r : Bytes) (room : Room) (rooms : Rooms)
    → user_count (insert r room rooms) + length (unwrap_or (lookup r rooms) [])
      ≡ user_count rooms + length room
unfolding user_count insert lookup
user_count-insert r room [] = omega arith
user_count-insert r room ((q, old) ∷ rooms) = ground (arith, user_count-insert r room rooms)

user_count-remove :
    (r : Bytes) (rooms : Rooms)
    → IsUnique rooms
    → user_count (remove r rooms) + length (unwrap_or (lookup r rooms) []) ≡ user_count rooms
unfolding user_count remove lookup
user_count-remove r [] h = omega arith
user_count-remove r ((q, old) ∷ rooms) h =
    ground (arith, user_count-remove r rooms h.1, eq_of_same q r, remove-none r rooms)

module _ (rooms : Rooms) (v : IsKeyed rooms) (r u : Bytes) where
  -- A registration adds a user, but where it evicts one.
  pub user_count-register :
      (tx : Sender)
      → user_count (register rooms r u tx).0 + present (register rooms r u tx).1
        ≡ user_count rooms + 1
  unfolding register
  user_count-register tx =
      let room = unwrap_or (lookup r rooms) [] in
      omega (arith, user_count-insert r (insert u tx room) rooms, length-insert u tx room)

  -- Its end takes the user away, where one is registered.
  pub user_count-leave :
      (cleanup : Bool) (left : Rooms)
      → leave rooms r u ≡ some (cleanup, left)
      → user_count left + present (sender_of rooms r u) ≡ user_count rooms
  unfolding leave
  user_count-leave cleanup left e = elim (Option-cases (lookup r rooms)) [
    | inl gone ↦ absurd (ground arith)
    | inr (room, there) ↦
        let unique : IsUnique room = rw there at (found-IsUnique rooms v r) in
        ground (arith, user_count-insert r (remove u room) rooms, length-remove u room unique)
  ]

-- The clean-up of an empty room takes no user away.
pub user_count-remove_if_empty :
    (rooms : Rooms) (v : IsKeyed rooms) (r : Bytes)
    → user_count (remove_if_empty rooms r) ≡ user_count rooms
unfolding remove_if_empty
user_count-remove_if_empty rooms v r = elim (Option-cases (lookup r rooms)) [
  | inl gone ↦ ground arith
  | inr (room, there) ↦ ground (arith, user_count-remove r rooms v.outer, nil_of_is_empty room)
]
