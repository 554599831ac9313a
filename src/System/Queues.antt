-- ===== src/System/Queues.antt =====
-- A predicate on every item of a queue, through the operations of a channel in src/routing.rs.
use ws_gateway.Common.{
  ℕ, ◌≡◌, inl, inr, some, [], ◌∷◌, ◌++◌, List, All, All-append, Bool-cases, leb, length, ok, err,
  refl, ap, sym, ◌∙◌, ◌≤◌, arith,
}
use ws_gateway.Protocol.PacketType.{PacketType, raw_motion, ai_event, system_cmd, heartbeat}
use ws_gateway.Protocol.Fields.{Bytes}
use ws_gateway.Channel.{
  Notify, ChannelInner, Poll, item, closed, pending, push_back, pop_front, try_send,
  send_drop_oldest, recv,
}
use ws_gateway.Channel.Bounds.{try_send_cases}
use ws_gateway.Channel.Wakeup.{recv_cases}
use ws_gateway.Router.Offers.{offer}

module _ {A : Type 0} (P : A → Type 0) where
  push-Holds : (x : A) (q : List A) → P x → All P q → All P (q ++ x ∷ [])
  push-Holds x q p h = All-append P q (x ∷ []) h (p, tt)

  All-pop_front : (q : List A) → All P q → All P (pop_front q)
  unfolding pop_front
  All-pop_front [] h = tt
  All-pop_front (x ∷ q) h = h.1

  -- What a poll takes held before, and so does what it leaves.
  abbrev pub Given : Poll A → Type 0
  Given (item x) = P x
  Given closed = Unit
  Given pending = Unit

module _ {n : Notify} {A : Type 0} (P : A → Type 0) where
  abbrev pub Holds : ChannelInner n A → Type 0
  Holds c = All P c.queue

  pub try_send-Holds : (x : A) (c : ChannelInner n A) → P x → Holds c → Holds (try_send x c).1
  unfolding push_back
  try_send-Holds x c p h = elim (try_send_cases x c) [
    | inl (room, e) ↦ rw e (push-Holds P x c.queue p h)
    | inr (full, e) ↦ rw e h
  ]

  -- A send that fails gives back the item that it was given.
  pub try_send-returns :
      (x returned : A) (c : ChannelInner n A) → (try_send x c).0 ≡ err returned → returned ≡ x
  try_send-returns x returned c e = elim (try_send_cases x c) [
    | inl (room, s) ↦ (let clash : ok tt ≡ err returned = rw s at e in cc)
    | inr (full, s) ↦ (let back : err x ≡ err returned = rw s at e in cc)
  ]

  pub send_drop_oldest-Holds :
      (x : A) (c : ChannelInner n A) → P x → Holds c → Holds (send_drop_oldest x c)
  unfolding send_drop_oldest
  send_drop_oldest-Holds x c p h = elim (Bool-cases (leb c.capacity (length c.queue))) [
    | inl full ↦ rw full (push-Holds P x (pop_front c.queue) p (All-pop_front P c.queue h))
    | inr room ↦ rw room (push-Holds P x c.queue p h)
  ]

  pub recv-Holds :
      (strong : ℕ) (c c' : ChannelInner n A) (p : Poll A)
      → recv strong c ≡ some (p, c')
      → Holds c
      → Given P p × Holds c' × (c'.capacity ≡ c.capacity) × (length c'.queue ≤ length c.queue)
  recv-Holds strong c c' p e h = elim (recv_cases strong c) [
    | inl (x, q, full, r) ↦
        let same : some (item x, record c { queue = q }) ≡ some (p, c') = sym r ∙ e in
        let taken : item x ≡ p = cc in
        let left : record c { queue = q } ≡ c' = cc in
        let (px, pq) = (let there : All P (x ∷ q) = rw full at h in there) in
        rw (← taken, ← left) (px, pq, refl, omega (arith, ap length full))
    | inr (inl (empty, _, r)) ↦
        let same : some (closed, c) ≡ some (p, c') = sym r ∙ e in
        let taken : closed ≡ p = cc in
        let left : c ≡ c' = cc in rw (← taken, ← left) (tt, h, refl, omega arith)
    | inr (inr (s, empty, _, r, _)) ↦
        let same : some (pending, record c { notify = s }) ≡ some (p, c') = sym r ∙ e in
        let taken : pending ≡ p = cc in
        let left : record c { notify = s } ≡ c' = cc in
        rw (← taken, ← left) (tt, h, refl, omega arith)
  ]

module _ {n : Notify} (P : Bytes → Type 0) where
  pub offer-Holds :
      (pt : PacketType) (x : Bytes) (c : ChannelInner n Bytes)
      → P x
      → Holds P c
      → Holds P (offer pt x c)
  unfolding offer
  offer-Holds raw_motion x c p h = send_drop_oldest-Holds P x c p h
  offer-Holds ai_event x c p h = try_send-Holds P x c p h
  offer-Holds system_cmd x c p h = try_send-Holds P x c p h
  offer-Holds heartbeat x c p h = try_send-Holds P x c p h
