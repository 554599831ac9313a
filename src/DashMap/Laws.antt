-- ===== src/DashMap/Laws.antt =====
-- What a lookup finds after each operation.
use ws_gateway.Common.{◌≡◌, ◌↔◌, refl, true, none, some, [], ◌∷◌, arith, if◌then◌else◌}
use ws_gateway.Protocol.Fields.{Bytes}
use ws_gateway.DashMap.{DashMap, same, lookup, insert, remove, is_empty}

pub same_refl : (a : Bytes) → same a a ≡ true
unfolding same
same_refl [] = refl
same_refl (x ∷ a) = ground (arith, same_refl a)

pub eq_of_same : (a b : Bytes) → same a b ≡ true → a ≡ b
unfolding same
eq_of_same [] [] h = refl
eq_of_same [] (y ∷ b) h = cc
eq_of_same (x ∷ a) [] h = cc
eq_of_same (x ∷ a) (y ∷ b) h = ground (arith, eq_of_same a b)

pub same_iff : (a b : Bytes) → (same a b ≡ true) ↔ (a ≡ b)
same_iff a b = (eq_of_same a b, λ e. rw e (same_refl b))

module _ {V : Type 0} where
  pub lookup-insert :
      (k j : Bytes) (v : V) (m : DashMap V)
      → lookup j (insert k v m) ≡ (if same k j then some v else lookup j m)
  unfolding lookup insert
  lookup-insert k j v [] = refl
  lookup-insert k j v ((i, w) ∷ m) =
      ground (arith, same_iff k j, same_iff i k, same_iff i j, lookup-insert k j v m)

  pub lookup-remove :
      (k j : Bytes) (m : DashMap V)
      → lookup j (remove k m) ≡ (if same k j then none else lookup j m)
  unfolding lookup remove
  lookup-remove k j [] = ground arith
  lookup-remove k j ((i, w) ∷ m) =
      ground (arith, same_iff k j, same_iff i k, same_iff i j, lookup-remove k j m)

  -- A map is empty exactly when no key is found.
  pub nil_of_is_empty : (m : DashMap V) → is_empty m ≡ true → m ≡ []
  unfolding is_empty
  nil_of_is_empty [] h = refl
  nil_of_is_empty (e ∷ m) h = cc
