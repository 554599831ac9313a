-- ===== src/System/Loads.antt =====
-- Copies of a packet in what the tasks of src/routing.rs share: in the queue of one connection and
-- with the retry tasks that send to it. `f` weighs a packet.
pub mod Turns
pub mod Connections
use ws_gateway.Common.{
  ℕ, ◌+◌, ◌≤◌, ◌≡◌, inl, inr, List, [], ◌∷◌, ◌++◌, arith, ◌==◌, ==_iff, Bool-cases, if◌then◌else◌,
  Result, ok, err, leb, length, sym, ◌∙◌, ap, refl, some,
}
use ws_gateway.Protocol.PacketType.{PacketType, raw_motion, ai_event, system_cmd, heartbeat}
use ws_gateway.Protocol.Fields.{Bytes}
use ws_gateway.Channel.{
  Notify, ChannelInner, Poll, item, closed, pending, push_back, pop_front, try_send,
  send_drop_oldest, recv,
}
use ws_gateway.Channel.Bounds.{try_send_cases}
use ws_gateway.Channel.Wakeup.{recv_cases}
use ws_gateway.Router.{Sender, Retry, Shared, update, deliver, dispatch_cmd}
use ws_gateway.State.{attempted}

module _ {A : Type 0} (f : A → ℕ) where
  abbrev pub tally : List A → ℕ
  tally [] = 0
  tally (x ∷ xs) = f x + tally xs

  pub tally-append : (xs ys : List A) → tally (xs ++ ys) ≡ tally xs + tally ys
  tally-append [] ys = omega arith
  tally-append (x ∷ xs) ys = omega (arith, tally-append xs ys)

  -- One is taken out.
  pub tally-without :
      (xs before : List A) (x : A) (after : List A)
      → xs ≡ before ++ x ∷ after
      → tally xs ≡ f x + tally (before ++ after)
  tally-without xs before x after e =
      omega (arith, ap tally e, tally-append before (x ∷ after), tally-append before after)

module _ (f : Bytes → ℕ) where
  -- What a refused send gives back.
  abbrev refused : Result (Unit {0}) Bytes → ℕ
  refused (ok _) = 0
  refused (err x) = f x

  -- What a poll takes.
  abbrev pub taken : Poll Bytes → ℕ
  taken (item x) = f x
  taken closed = 0
  taken pending = 0

  abbrev pub of_retry : Sender → Retry → ℕ
  of_retry c t = if t.tx == c then f t.packet else 0

  tally-pop_front : (q : List Bytes) → tally f (pop_front q) ≤ tally f q
  unfolding pop_front
  tally-pop_front [] = omega arith
  tally-pop_front (x ∷ q) = omega arith

module _ {n : Notify} (f : Bytes → ℕ) where
  tally-try_send :
      (x : Bytes) (k : ChannelInner n Bytes)
      → tally f (try_send x k).1.queue + refused f (try_send x k).0 ≡ tally f k.queue + f x
  unfolding push_back
  tally-try_send x k = elim (try_send_cases x k) [
    | inl (room, e) ↦ rw e (omega (arith, tally-append f k.queue (x ∷ [])))
    | inr (full, e) ↦ rw e (omega arith)
  ]

  tally-send_drop_oldest :
      (x : Bytes) (k : ChannelInner n Bytes)
      → tally f (send_drop_oldest x k).queue ≤ tally f k.queue + f x
  unfolding send_drop_oldest push_back
  tally-send_drop_oldest x k = elim (Bool-cases (leb k.capacity (length k.queue))) [
    | inl full ↦
        rw full
          (omega (arith, tally-append f (pop_front k.queue) (x ∷ []), tally-pop_front f k.queue))
    | inr room ↦ rw room (omega (arith, tally-append f k.queue (x ∷ [])))
  ]

  pub tally-recv :
      (strong : ℕ) (k k' : ChannelInner n Bytes) (p : Poll Bytes)
      → recv strong k ≡ some (p, k')
      → tally f k'.queue + taken f p ≤ tally f k.queue
  tally-recv strong k k' p e = elim (recv_cases strong k) [
    | inl (x, q, full, r) ↦
        let same : some (item x, record k { queue = q }) ≡ some (p, k') = sym r ∙ e in
        let got : item x ≡ p = cc in
        let left : record k { queue = q } ≡ k' = cc in
        rw (← got, ← left) (omega (arith, ap (tally f) full))
    | inr (inl (empty, _, r)) ↦
        let same : some (closed, k) ≡ some (p, k') = sym r ∙ e in
        let got : closed ≡ p = cc in let left : k ≡ k' = cc in rw (← got, ← left) (omega arith)
    | inr (inr (s, empty, _, r, _)) ↦
        let same : some (pending, record k { notify = s }) ≡ some (p, k') = sym r ∙ e in
        let got : pending ≡ p = cc in
        let left : record k { notify = s } ≡ k' = cc in rw (← got, ← left) (omega arith)
  ]

  -- A channel is put in its place, with `more` elsewhere, for what was in it and `less`.
  pub tally-update :
      (channels : Sender → ChannelInner n Bytes) (i c : Sender) (k : ChannelInner n Bytes)
      (more less : ℕ)
      → tally f k.queue + more ≤ tally f (channels i).queue + less
      → tally f (update channels i k c).queue + (if i == c then more else 0)
        ≤ tally f (channels c).queue + (if i == c then less else 0)
  tally-update channels i c k more less h = elim (Bool-cases (i == c)) [
    | inl hit ↦
        let same : i ≡ c = (==_iff i c).0 hit in
        rw hit (omega (arith, h, ap (λ (j : Sender). tally f (channels j).queue) same))
    | inr miss ↦ rw miss (omega arith)
  ]

  module _ (c : Sender) where
    abbrev pub shared_load : Shared n → ℕ
    shared_load s = tally f (s.channels c).queue + tally (of_retry f c) s.retries

    shared_load-dispatch_cmd :
        (t : Retry) (r : Result (Unit {0}) Bytes × ChannelInner n Bytes) (s : Shared n)
        → tally f r.1.queue + refused f r.0 ≤ tally f (s.channels t.tx).queue + f t.packet
        → shared_load (dispatch_cmd t r s) ≤ shared_load s + of_retry f c t
    unfolding dispatch_cmd
    shared_load-dispatch_cmd t (ok _, k) s h =
        omega (arith, tally-update s.channels t.tx c k 0 (f t.packet) h)
    shared_load-dispatch_cmd t (err x, k) s h = omega (
      arith,
      tally-update s.channels t.tx c k (f x) (f t.packet) h,
      tally-append (of_retry f c) s.retries (record t { packet = x } ∷ []),
    )

    send_load :
        (t : Retry) (s : Shared n)
        → tally f (update s.channels t.tx (try_send t.packet (s.channels t.tx)).1 c).queue
          ≤ tally f (s.channels c).queue + of_retry f c t
    send_load t s = omega (
      arith,
      tally-update s.channels t.tx c (try_send t.packet (s.channels t.tx)).1 0 (f t.packet)
          (omega (arith, tally-try_send t.packet (s.channels t.tx))),
    )

    -- A delivery makes one copy at most.
    pub shared_load-deliver :
        (pt : PacketType) (t : Retry) (s : Shared n)
        → shared_load (deliver pt t s) ≤ shared_load s + of_retry f c t
    unfolding deliver
    shared_load-deliver raw_motion t s = omega (
      arith,
      tally-update s.channels t.tx c (send_drop_oldest t.packet (s.channels t.tx)) 0 (f t.packet)
          (omega (arith, tally-send_drop_oldest t.packet (s.channels t.tx))),
    )
    shared_load-deliver system_cmd t s =
        shared_load-dispatch_cmd t (try_send t.packet (s.channels t.tx)) s
          (omega (arith, tally-try_send t.packet (s.channels t.tx)))
    shared_load-deliver ai_event t s = omega (arith, send_load t s)
    shared_load-deliver heartbeat t s = omega (arith, send_load t s)

    attempt_load :
        (s : Shared n) (before : List Retry) (t : Retry) (after : List Retry)
        (r : Result (Unit {0}) Bytes × ChannelInner n Bytes)
        → s.retries ≡ before ++ t ∷ after
        → tally f r.1.queue + refused f r.0 ≤ tally f (s.channels t.tx).queue + f t.packet
        → shared_load (attempted before t after r s) ≤ shared_load s
    unfolding attempted
    attempt_load s before t after (ok _, k) e h = omega (
      arith,
      tally-update s.channels t.tx c k 0 (f t.packet) h,
      tally-without (of_retry f c) s.retries before t after e,
    )
    attempt_load s before t after (err x, k) e h = omega (
      arith,
      tally-update s.channels t.tx c k (f x) (f t.packet) h,
      tally-without (of_retry f c) s.retries before t after e,
      tally-without (of_retry f c) (before ++ record t { packet = x } ∷ after) before
          (record t { packet = x }) after refl,
    )

    -- An attempt of a retry task puts its packet into the queue or keeps it.
    pub shared_load-attempted :
        (s : Shared n) (before : List Retry) (t : Retry) (after : List Retry)
        → s.retries ≡ before ++ t ∷ after
        → shared_load (attempted before t after (try_send t.packet (s.channels t.tx)) s)
          ≤ shared_load s
    shared_load-attempted s before t after e =
        attempt_load s before t after (try_send t.packet (s.channels t.tx)) e
          (omega (arith, tally-try_send t.packet (s.channels t.tx)))
