-- ===== src/System/Tidy.antt =====
-- A predicate on every entry of every room, through the operations of the registry in
-- src/routing.rs.
use ws_gateway.Common.{
  ◌≡◌, ◌⊎◌, inl, inr, none, some, [], All, Bool-cases, Option-cases, Bool, unwrap_or,
}
use ws_gateway.Protocol.Fields.{Bytes}
use ws_gateway.DashMap.{lookup, insert, remove, is_empty}
use ws_gateway.DashMap.Entries.{All-insert, All-remove, All-lookup}
use ws_gateway.Router.{Sender, Room, Rooms, register, leave, remove_if_empty}
use ws_gateway.System.World.{World, Owns}

-- Every entry of the room is owned under the room's name and its own.
abbrev pub IsMember : World → Bytes → Bytes × Sender → Type 0
IsMember w r (u, c) = Owns w c r u

abbrev pub IsTidy : World → Rooms → Type 0
IsTidy w = All (λ e. All (IsMember w e.0) e.1)

module _ (w : World) (rooms : Rooms) (tidy : IsTidy w rooms) (r : Bytes) where
  pub found_members : (room : Room) → lookup r rooms ≡ some room → All (IsMember w r) room
  found_members room e = All-lookup (λ e. All (IsMember w e.0) e.1) r rooms room e tidy

  pub register-IsTidy :
      (u : Bytes) (tx : Sender) → Owns w tx r u → IsTidy w (register rooms r u tx).0
  unfolding register
  register-IsTidy u tx v =
      All-insert (λ e. All (IsMember w e.0) e.1) r _ rooms
        (All-insert (IsMember w r) u tx (unwrap_or (lookup r rooms) []) v
          (members (Option-cases (lookup r rooms))))
        tidy
    where
      members :
          (lookup r rooms ≡ none) ⊎ ((room : Room) × (lookup r rooms ≡ some room))
          → All (IsMember w r) (unwrap_or (lookup r rooms) [])
      members (inl gone) = rw gone tt
      members (inr (room, there)) = rw there (found_members room there)

  pub leave-IsTidy :
      (u : Bytes) (cleanup : Bool) (left : Rooms)
      → leave rooms r u ≡ some (cleanup, left)
      → IsTidy w left
  unfolding leave
  leave-IsTidy u cleanup left e = elim (Option-cases (lookup r rooms)) [
    | inl gone ↦ (let clash : none ≡ some (cleanup, left) = rw (gone, leave) at e in cc)
    | inr (room, there) ↦
        let same_rooms : insert r (remove u room) rooms ≡ left =
          (let e' : some (is_empty (remove u room), insert r (remove u room) rooms)
                ≡ some (cleanup, left) =
              rw (there, leave) at e in
            cc) in
        rw (← same_rooms) (
          All-insert (λ e. All (IsMember w e.0) e.1) r (remove u room) rooms
            (All-remove (IsMember w r) u room (found_members room there)) tidy)
  ]

  pub remove_if_empty-IsTidy : IsTidy w (remove_if_empty rooms r)
  unfolding remove_if_empty
  remove_if_empty-IsTidy = elim (Option-cases (lookup r rooms)) [
    | inl gone ↦ rw (gone, remove_if_empty) tidy
    | inr (room, there) ↦ elim (Bool-cases (is_empty room)) [
      | inl yes_empty ↦
          rw (there, remove_if_empty, yes_empty)
            (All-remove (λ e. All (IsMember w e.0) e.1) r rooms tidy)
      | inr no_empty ↦ rw (there, remove_if_empty, no_empty) tidy
    ]
  ]
