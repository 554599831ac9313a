-- ===== src/DashMap.antt =====
-- The maps of src/routing.rs (`DashMap`) as association lists with byte-string keys: each call is
-- one atomic step under the map's lock.
pub mod Laws
pub mod Entries
pub mod Keys
use ws_gateway.Common.{
  ℕ, ◌≡◌, Bool, true, false, ◌&&◌, Option, none, some, List, [], ◌∷◌, ◌==◌, if◌then◌else◌,
}
use ws_gateway.Protocol.Fields.{Bytes}

-- `==` of two strings.
unfoldable pub same : Bytes → Bytes → Bool
same [] [] = true
same [] (b ∷ bs) = false
same (a ∷ r) [] = false
same (a ∷ r) (b ∷ bs) = (a == b) && same r bs

abbrev pub DashMap : Type 0 → Type 0
DashMap V = List (Bytes × V)

module _ {V : Type 0} where
  unfoldable pub lookup : Bytes → DashMap V → Option V
  lookup k [] = none
  lookup k ((j, v) ∷ m) = if same j k then some v else lookup k m

  -- Replaces the value of a key that is there.
  unfoldable pub insert : Bytes → V → DashMap V → DashMap V
  insert k v [] = (k, v) ∷ []
  insert k v ((j, w) ∷ m) =
      let rest = insert k v m in if same j k then (j, v) ∷ m else (j, w) ∷ rest

  unfoldable pub remove : Bytes → DashMap V → DashMap V
  remove k [] = []
  remove k ((j, v) ∷ m) = let rest = remove k m in if same j k then rest else (j, v) ∷ rest

  unfoldable pub is_empty : DashMap V → Bool
  is_empty [] = true
  is_empty (e ∷ m) = false
