-- ===== src/Channel/History.antt =====
-- Sequences of sends and receives on one channel of src/routing.rs, and what becomes of each item.
use mathlib.Core.List.{append_assoc, append-nil, map-append}
use ws_gateway.Common.{
  ℕ, ◌≡◌, inl, inr, refl, sym, ap, ◌∙◌, Bool, true, false, Option, none, some, List, [], ◌∷◌, ◌++◌,
  map, arith, leb, length, if◌then◌else◌, Result, ok, err,
}
use ws_gateway.Channel.{
  Notify, ChannelInner, Poll, item, closed, pending, pop_front, try_send, send_drop_oldest, recv,
}
use ws_gateway.Channel.Wakeup.{recv_cases}

-- What tasks do to the channel: the number is the strong count that a receive reads.
pub data Call (A : Type 0) : Type 0 where
  tries : A → Call A
  evicts : A → Call A
  receives : ℕ → Call A

-- What leaves the queue, and how.
pub data Out (A : Type 0) : Type 0 where
  delivered : A → Out A
  evicted : A → Out A

abbrev pub item_of : {A : Type 0} → Out A → A
item_of (delivered x) = x
item_of (evicted x) = x

pub record Step (n : Notify) (A : Type 0) : Type 0 where
  pub accepted : List A
  pub outs : List (Out A)
  pub after : ChannelInner n A

pub accepted_by : {A : Type 0} → Result (Unit {0}) A → A → List A
accepted_by (ok _) x = x ∷ []
accepted_by (err _) x = []

pub evicted_by : {A : Type 0} → List A → List (Out A)
evicted_by [] = []
evicted_by (x ∷ q) = evicted x ∷ []

evicts-Conserves :
    {A : Type 0} (q : List A) (x : A) (full : Bool)
    → q ++ x ∷ []
      ≡ map item_of (if full then evicted_by q else [])
        ++ ((if full then pop_front q else q) ++ x ∷ [])
unfolding evicted_by pop_front
evicts-Conserves [] x true = refl
evicts-Conserves (y ∷ q) x true = refl
evicts-Conserves q x false = refl

module _ {n : Notify} {A : Type 0} where
  pub received : ChannelInner n A → Option (Poll A × ChannelInner n A) → Step n A
  received c none = record { accepted = []; outs = []; after = c }
  received c (some (item x, c')) = record { accepted = []; outs = delivered x ∷ []; after = c' }
  received c (some (closed, c')) = record { accepted = []; outs = []; after = c' }
  received c (some (pending, c')) = record { accepted = []; outs = []; after = c' }

  pub step : ChannelInner n A → Call A → Step n A
  unfolding accepted_by evicted_by received
  step c (tries x) = record {
    accepted = accepted_by (try_send x c).0 x;
    outs = [];
    after = (try_send x c).1;
  }
  step c (evicts x) = record {
    accepted = x ∷ [];
    outs = if leb c.capacity (length c.queue) then evicted_by c.queue else [];
    after = send_drop_oldest x c;
  }
  step c (receives strong) = received c (recv strong c)

  pub run : ChannelInner n A → List (Call A) → Step n A
  run c [] = record { accepted = []; outs = []; after = c }
  run c (k ∷ ks) =
      let s = step c k in
      let r = run s.after ks in
      record { accepted = s.accepted ++ r.accepted; outs = s.outs ++ r.outs; after = r.after }

  abbrev pub Conserves : ChannelInner n A → Step n A → Type 0
  Conserves c s = c.queue ++ s.accepted ≡ map item_of s.outs ++ s.after.queue

  recv-Conserves : (strong : ℕ) (c : ChannelInner n A) → Conserves c (received c (recv strong c))
  unfolding received
  recv-Conserves strong c = elim (recv_cases strong c) [
    | inl (x, q, e, r) ↦ rw (r, e, append-nil (x ∷ q)) refl
    | inr (inl (e, _, r)) ↦ rw r (append-nil c.queue)
    | inr (inr (s, e, _, r, _)) ↦ rw r (append-nil c.queue)
  ]

  queue-send_drop_oldest :
      (x : A) (c : ChannelInner n A)
      → (send_drop_oldest x c).queue
        ≡ (if leb c.capacity (length c.queue) then pop_front c.queue else c.queue) ++ x ∷ []
  unfolding send_drop_oldest
  queue-send_drop_oldest x c = ground arith

  step-Conserves : (c : ChannelInner n A) (k : Call A) → Conserves c (step c k)
  unfolding step try_send
  step-Conserves c (tries x) = ground (arith, append-nil c.queue)
  step-Conserves c (evicts x) =
      rw (queue-send_drop_oldest x c) (evicts-Conserves c.queue x (leb c.capacity (length c.queue)))
  step-Conserves c (receives strong) = recv-Conserves strong c

  -- Through any sequence of sends and receives, what was in the queue and what was accepted after
  -- it is, in this order, what was delivered or evicted and then what is still queued.
  pub run-Conserves : (ks : List (Call A)) (c : ChannelInner n A) → Conserves c (run c ks)
  unfolding run
  run-Conserves [] c = append-nil c.queue
  run-Conserves (k ∷ ks) c =
      let s = step c k in
      let r = run s.after ks in
      sym (append_assoc c.queue s.accepted r.accepted)
      ∙ ap (λ q. q ++ r.accepted) (step-Conserves c k)
      ∙ append_assoc (map item_of s.outs) s.after.queue r.accepted
      ∙ ap (λ q. map item_of s.outs ++ q) (run-Conserves ks s.after)
      ∙ sym (append_assoc (map item_of s.outs) (map item_of r.outs) r.after.queue)
      ∙ ap (λ q. q ++ r.after.queue) (sym (map-append item_of s.outs r.outs))
