-- ===== src/Router/Sizes.antt =====
-- How large the registry of src/routing.rs gets: rooms against users and clean-ups due, and users
-- against the senders that its entries hold.
use ws_gateway.Common.{
  ℕ, zero, suc, ◌+◌, ◌≤◌, ◌<◌, ◌≡◌, refl, ap, inl, inr, true, false, none, some, List, [], ◌∷◌,
  ◌++◌, length, length-append, arith, All, Bool-cases, if◌then◌else◌, ◌==◌, ltb, ==-eq-false,
}
use ws_gateway.Protocol.Fields.{Bytes}
use ws_gateway.DashMap.{same, lookup}
use ws_gateway.DashMap.Laws.{same_refl, eq_of_same, same_iff}
use ws_gateway.DashMap.Keys.{IsUnique}
use ws_gateway.Router.{Sender, Room, Rooms, new, count_sender, room_count, user_count}
use ws_gateway.Router.Registry.{sender_of}
use ws_gateway.Router.References.{references}
use ws_gateway.Router.Cleanup
use ws_gateway.Router.Cleanup.{Table, Event, is_pending, is_pending-drop, Reach-IsTracked}
use ws_gateway.Router.Population.{IsKeyed, register-IsKeyed, leave-IsKeyed, remove_if_empty-IsKeyed}

Step-IsKeyed :
    {t u : Table} {events : List Event}
    → Cleanup.Step t u events
    → IsKeyed t.rooms
    → IsKeyed u.rooms
Step-IsKeyed {t} (Cleanup.registers r u tx) v = register-IsKeyed t.rooms v r u tx
Step-IsKeyed {t} (Cleanup.leaves r u should_cleanup rooms e) v =
    leave-IsKeyed t.rooms v r u should_cleanup rooms e
Step-IsKeyed (Cleanup.leaves_nothing r u e) v = v
Step-IsKeyed {t} (Cleanup.cleans r others more e) v = remove_if_empty-IsKeyed t.rooms v r

pub Reach-IsKeyed : {t : Table} {log : List Event} → Cleanup.Reach t log → IsKeyed t.rooms
unfolding new
Reach-IsKeyed Cleanup.start = record { outer = tt; inner = tt }
Reach-IsKeyed (Cleanup.later r st) = Step-IsKeyed st (Reach-IsKeyed r)

-- Where a clean-up is due, it stands between others.
due_split :
    (q : Bytes) (ps : List Bytes)
    → is_pending q ps ≡ true
    → (before : List Bytes) × (p : Bytes) × (after : List Bytes) × (ps ≡ before ++ p ∷ after)
      × (same p q ≡ true)
due_split q [] h = cc
due_split q (p ∷ ps) h = elim (Bool-cases (same p q)) [
  | inl hit ↦ ([], p, ps, refl, hit)
  | inr miss ↦
      let (before, p', after, e, hit) = due_split q ps (rw miss at h) in
      (p ∷ before, p', after, ap (λ l. p ∷ l) e, hit)
]

-- A room behind the first one is found past it.
lookup-behind :
    (q r : Bytes) (room : Room) (rooms : Rooms)
    → lookup q rooms ≡ none
    → lookup r rooms ≡ some []
    → (same q r ≡ false) × (lookup r ((q, room) ∷ rooms) ≡ some [])
unfolding lookup
lookup-behind q r room rooms gone there = elim (Bool-cases (same q r)) [
  | inl hit ↦ absurd (ground (arith, eq_of_same q r hit))
  | inr miss ↦ (miss, rw miss there)
]

tracked_count :
    (rooms : Rooms) (ps : List Bytes)
    → IsUnique rooms
    → ((r : Bytes) → lookup r rooms ≡ some [] → is_pending r ps ≡ true)
    → length rooms ≤ user_count rooms + length ps
unfolding user_count lookup
tracked_count [] ps v due = omega arith
tracked_count ((q, x ∷ room) ∷ rooms) ps v due =
    omega (
      arith,
      tracked_count rooms ps v.1 (λ r e. due r (lookup-behind q r (x ∷ room) rooms v.0 e).1),
    )
tracked_count ((q, []) ∷ rooms) ps v due =
    let (before, p, after, e, hit) = due_split q ps (due q (rw (same_refl q) refl)) in
    let rest = tracked_count rooms (before ++ after) v.1 (λ r there.
      let (other, found) = lookup-behind q r [] rooms v.0 there in
      is_pending-drop p r before after (ground (arith, eq_of_same p q hit))
        (rw e at (due r found))) in
    omega
      (arith, rest, ap (length {0}) e, length-append before (p ∷ after), length-append before after)

-- In every registry that the blocks of `register` and `unregister_internal` reach, the rooms are no
-- more than the users and the clean-ups due.
pub room_count-le :
    {t : Table} {log : List Event}
    → Cleanup.Reach t log
    → room_count t.rooms ≤ user_count t.rooms + length t.pending
unfolding room_count
room_count-le {t} reach =
    tracked_count t.rooms t.pending (Reach-IsKeyed reach).outer (Reach-IsTracked reach)

-- An entry of a room without repetition is found by its user.
count_sender-found :
    (c : Sender) (room : Room)
    → IsUnique room
    → 1 ≤ count_sender c room
    → (u : Bytes) × (lookup u room ≡ some c)
unfolding lookup
count_sender-found c [] v h = absurd (omega arith)
count_sender-found c ((u, d) ∷ room) v h = elim (Bool-cases (d == c)) [
  | inl hit ↦ (u, ground (arith, same_refl u))
  | inr miss ↦
      let (u', there) = count_sender-found c room v.1 (rw miss at h) in
      (u', ground (arith, same_iff u u'))
]

pub references-found :
    (c : Sender) (rooms : Rooms)
    → IsKeyed rooms
    → 1 ≤ references c rooms
    → (r : Bytes) × (u : Bytes) × (sender_of rooms r u ≡ some c)
unfolding references lookup
references-found c [] v h = absurd (omega arith)
references-found c ((r, room) ∷ rooms) v h = elim (Bool-cases (ltb 0 (count_sender c room))) [
  | inl here ↦
      let (u, there) = count_sender-found c room v.inner.0 (ground arith) in
      (r, u, rw (same_refl r) there)
  | inr past ↦
      let rest : IsKeyed rooms = record { outer = v.outer.1; inner = v.inner.1 } in
      let (r', u', there) = references-found c rooms rest (ground arith) in
      (r', u', ground (arith, same_iff r r'))
]

-- The sum of a function below a bound.
abbrev pub sum_below : ℕ → (ℕ → ℕ) → ℕ
sum_below zero f = 0
sum_below (suc k) f = f k + sum_below k f

sum_below-add : (k : ℕ) (f g : ℕ → ℕ) → sum_below k (λ c. f c + g c) ≡ sum_below k f + sum_below k g
sum_below-add zero f g = refl
sum_below-add (suc k) f g = omega (arith, sum_below-add k f g)

pub sum_below-le :
    (k : ℕ) (f g : ℕ → ℕ) → ((c : ℕ) → c < k → f c ≤ g c) → sum_below k f ≤ sum_below k g
sum_below-le zero f g h = omega arith
sum_below-le (suc k) f g h =
    omega (arith, h k (omega arith), sum_below-le k f g (λ c lt. h c (omega arith)))

sum_below-zero : (k : ℕ) → sum_below k (λ c. 0) ≡ 0
sum_below-zero zero = refl
sum_below-zero (suc k) = omega (arith, sum_below-zero k)

sum_below-eq : (k : ℕ) (f g : ℕ → ℕ) → ((c : ℕ) → f c ≡ g c) → sum_below k f ≡ sum_below k g
sum_below-eq zero f g h = refl
sum_below-eq (suc k) f g h = omega (arith, h k, sum_below-eq k f g h)

-- 1 for the sender `d`.
abbrev only : Sender → Sender → ℕ
only d c = if d == c then 1 else 0

sum_below-above : (k d : ℕ) → k ≤ d → sum_below k (only d) ≡ 0
sum_below-above zero d h = refl
sum_below-above (suc k) d h =
    rw (==-eq-false d k (omega arith)) (omega (arith, sum_below-above k d (omega arith)))

sum_below-only : (k d : ℕ) → d < k → sum_below k (only d) ≡ 1
sum_below-only zero d h = absurd (omega arith)
sum_below-only (suc k) d h = elim (Bool-cases (d == k)) [
  | inl hit ↦ rw hit (omega (arith, sum_below-above k d (ground arith)))
  | inr miss ↦ rw miss (omega (arith, sum_below-only k d (ground arith)))
]

count_sender-cons :
    (u : Bytes) (d : Sender) (room : Room) (c : Sender)
    → count_sender c ((u, d) ∷ room) ≡ only d c + count_sender c room
count_sender-cons u d room c = ground arith

room_total :
    (k : ℕ) (room : Room)
    → All (λ e. e.1 < k) room
    → length room ≡ sum_below k (λ c. count_sender c room)
room_total k [] h = omega (arith, sum_below-zero k)
room_total k ((u, d) ∷ room) h = omega (
  arith,
  room_total k room h.1,
  sum_below-only k d h.0,
  sum_below-add k (only d) (λ c. count_sender c room),
  sum_below-eq k (λ c. count_sender c ((u, d) ∷ room)) (λ c. only d c + count_sender c room)
      (count_sender-cons u d room),
)

-- Where all senders are below `k`, the users are as many as the entries that hold these.
pub user_count-total :
    (k : ℕ) (rooms : Rooms)
    → All (λ e. All (λ m. m.1 < k) e.1) rooms
    → user_count rooms ≡ sum_below k (λ c. references c rooms)
unfolding user_count references
user_count-total k [] h = omega (arith, sum_below-zero k)
user_count-total k ((r, room) ∷ rooms) h = omega (
  arith,
  room_total k room h.0,
  user_count-total k rooms h.1,
  sum_below-add k (λ c. count_sender c room) (λ c. references c rooms),
)
