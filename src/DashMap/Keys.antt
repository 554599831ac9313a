-- ===== src/DashMap/Keys.antt =====
-- No key twice: what `insert` and `remove` keep, and what makes every entry of a map one that a
-- lookup finds.
use ws_gateway.Common.{
  ℕ, ◌+◌, ◌≡◌, refl, inl, inr, Option, none, some, [], ◌∷◌, length, arith, Bool-cases,
}
use ws_gateway.Protocol.Fields.{Bytes}
use ws_gateway.DashMap.{DashMap, same, lookup, insert, remove}
use ws_gateway.DashMap.Laws.{same_iff, eq_of_same, lookup-insert, lookup-remove}

module _ {V : Type 0} where
  -- Each key is found in none of the entries behind it.
  abbrev pub IsUnique : DashMap V → Type 0
  IsUnique [] = Unit {0}
  IsUnique ((k, v) ∷ m) = (lookup k m ≡ none) × IsUnique m

  pub insert-IsUnique : (k : Bytes) (v : V) (m : DashMap V) → IsUnique m → IsUnique (insert k v m)
  unfolding insert lookup
  insert-IsUnique k v [] h = (refl, tt)
  insert-IsUnique k v ((j, w) ∷ m) h = elim (Bool-cases (same j k)) [
    | inl hit ↦ rw hit h
    | inr miss ↦ rw miss (
      ground (arith, lookup-insert k j v m, same_iff k j, same_iff j k),
      insert-IsUnique k v m h.1,
    )
  ]

  pub remove-IsUnique : (k : Bytes) (m : DashMap V) → IsUnique m → IsUnique (remove k m)
  unfolding remove
  remove-IsUnique k [] h = tt
  remove-IsUnique k ((j, w) ∷ m) h = elim (Bool-cases (same j k)) [
    | inl hit ↦ rw hit (remove-IsUnique k m h.1)
    | inr miss ↦ rw miss (ground (arith, lookup-remove k j m), remove-IsUnique k m h.1)
  ]

  -- How many entries a key has.
  abbrev pub present : Option V → ℕ
  present none = 0
  present (some v) = 1

  pub remove-none : (k : Bytes) (m : DashMap V) → lookup k m ≡ none → remove k m ≡ m
  unfolding remove lookup
  remove-none k [] e = refl
  remove-none k ((j, w) ∷ m) e = ground (arith, remove-none k m)

  pub length-insert :
      (k : Bytes) (v : V) (m : DashMap V)
      → length (insert k v m) + present (lookup k m) ≡ length m + 1
  unfolding insert lookup
  length-insert k v [] = omega arith
  length-insert k v ((j, w) ∷ m) = ground (arith, length-insert k v m)

  pub length-remove :
      (k : Bytes) (m : DashMap V)
      → IsUnique m
      → length (remove k m) + present (lookup k m) ≡ length m
  unfolding remove lookup
  length-remove k [] h = omega arith
  length-remove k ((j, w) ∷ m) h =
      ground (arith, length-remove k m h.1, eq_of_same j k, remove-none k m)
