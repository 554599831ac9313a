-- ===== src/DashMap/Entries.antt =====
-- A predicate on every entry of a map, through its operations.
use ws_gateway.Common.{◌≡◌, inl, inr, some, [], ◌∷◌, All, Bool-cases}
use ws_gateway.Protocol.Fields.{Bytes}
use ws_gateway.DashMap.{DashMap, same, lookup, insert, remove}
use ws_gateway.DashMap.Laws.{eq_of_same}

module _ {V : Type 0} (P : Bytes × V → Type 0) where
  pub All-insert : (k : Bytes) (v : V) (m : DashMap V) → P (k, v) → All P m → All P (insert k v m)
  unfolding insert
  All-insert k v [] p h = (p, tt)
  All-insert k v ((j, w) ∷ m) p h = elim (Bool-cases (same j k)) [
    | inl hit ↦ rw (hit, eq_of_same j k hit) (p, h.1)
    | inr miss ↦ rw miss (h.0, All-insert k v m p h.1)
  ]

  pub All-remove : (k : Bytes) (m : DashMap V) → All P m → All P (remove k m)
  unfolding remove
  All-remove k [] h = tt
  All-remove k ((j, w) ∷ m) h = elim (Bool-cases (same j k)) [
    | inl hit ↦ rw hit (All-remove k m h.1)
    | inr miss ↦ rw miss (h.0, All-remove k m h.1)
  ]

  pub All-lookup : (k : Bytes) (m : DashMap V) (v : V) → lookup k m ≡ some v → All P m → P (k, v)
  unfolding lookup
  All-lookup k [] v e h = cc
  All-lookup k ((j, w) ∷ m) v e h = elim (Bool-cases (same j k)) [
    | inl hit ↦
        let here : w ≡ v = (let e' : some w ≡ some v = rw hit at e in cc) in
        rw (← here, ← (eq_of_same j k hit)) h.0
    | inr miss ↦ All-lookup k m v (rw miss at e) h.1
  ]
