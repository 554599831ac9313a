-- ===== src/Channel/Bounds.antt =====
-- The length of a channel's queue against its capacity, and what each send of src/routing.rs leaves
-- in it.
use mathlib.Core.List.{append_assoc, append-nil}
use ws_gateway.Common.{
  ℕ, ◌-◌, ◌≤◌, ◌<◌, ◌≡◌, ◌⊎◌, inl, inr, refl, sym, ap, ◌∙◌, List, [], ◌∷◌, ◌++◌, arith, leb, length,
  drop, length-append, length-drop, drop-drop, drop-append_of_le, Bool-cases, ok, err,
}
use ws_gateway.Channel.{Notify, ChannelInner, push_back, pop_front, try_send, send_drop_oldest}

-- The last `k` elements.
abbrev pub newest : {A : Type 0} → ℕ → List A → List A
newest k xs = drop (length xs - k) xs

length-pop_front : {A : Type 0} (q : List A) → length (pop_front q) ≡ length q - 1
unfolding pop_front
length-pop_front [] = omega arith
length-pop_front (x ∷ q) = omega arith

drop-one :
    {A : Type 0} (q : List A) (x : A) → 1 ≤ length q → pop_front q ++ x ∷ [] ≡ drop 1 (q ++ x ∷ [])
unfolding pop_front
drop-one [] x h = absurd (omega arith)
drop-one (y ∷ q) x h = refl

-- Cutting to the newest `k` before more elements come changes nothing.
newest-append :
    {A : Type 0} (k : ℕ) (xs ys : List A) → newest k (newest k xs ++ ys) ≡ newest k (xs ++ ys)
newest-append k xs ys =
    ap (λ (t : ℕ). drop t (newest k xs ++ ys))
      (let e : length (newest k xs ++ ys) - k ≡ length (xs ++ ys) - k - (length xs - k) = omega (
        arith,
        length-append (newest k xs) ys,
        length-append xs ys,
        length-drop (length xs - k) xs,
      ) in
        e)
    ∙ ap (drop (length (xs ++ ys) - k - (length xs - k)))
        (sym (drop-append_of_le (length xs - k) xs ys (omega arith)))
    ∙ drop-drop (length xs - k) (length (xs ++ ys) - k - (length xs - k)) (length (xs ++ ys) - k)
        (xs ++ ys) (omega (arith, length-append xs ys))

module _ {n : Notify} {A : Type 0} where
  abbrev pub IsBounded : ChannelInner n A → Type 0
  IsBounded c = length c.queue ≤ c.capacity

  -- A full channel refuses the item and stays as it was; one with room takes it at the back and
  -- wakes the receiver.
  pub try_send_cases :
      (x : A) (c : ChannelInner n A)
      → ((length c.queue < c.capacity) × (try_send x c ≡ (ok tt, push_back x c)))
        ⊎ ((c.capacity ≤ length c.queue) × (try_send x c ≡ (err x, c)))
  unfolding try_send
  try_send_cases x c = ground arith

  pub try_send-IsBounded : (x : A) (c : ChannelInner n A) → IsBounded c → IsBounded (try_send x c).1
  unfolding try_send
  try_send-IsBounded x c h = ground (arith, length-append c.queue (x ∷ []))

  -- With a capacity of at least 1, an evicting send stays within it too.
  pub send_drop_oldest-IsBounded :
      (x : A) (c : ChannelInner n A)
      → 1 ≤ c.capacity
      → IsBounded c
      → IsBounded (send_drop_oldest x c)
  unfolding send_drop_oldest
  send_drop_oldest-IsBounded x c p h = ground (
    arith,
    length-append c.queue (x ∷ []),
    length-append (pop_front c.queue) (x ∷ []),
    length-pop_front c.queue,
  )

  pub capacity-send_drop_oldest :
      (x : A) (c : ChannelInner n A) → (send_drop_oldest x c).capacity ≡ c.capacity
  unfolding send_drop_oldest
  capacity-send_drop_oldest x c = ground arith

  -- An evicting send keeps the newest items, as many as fit.
  pub send_drop_oldest_lem :
      (x : A) (c : ChannelInner n A)
      → 1 ≤ c.capacity
      → IsBounded c
      → (send_drop_oldest x c).queue ≡ newest c.capacity (c.queue ++ x ∷ [])
  unfolding send_drop_oldest
  send_drop_oldest_lem x c p h = elim (Bool-cases (leb c.capacity (length c.queue))) [
    | inl full ↦ rw full (
        drop-one c.queue x (ground arith)
        ∙ ap (λ (k : ℕ). drop k (c.queue ++ x ∷ []))
            (let e : 1 ≡ length (c.queue ++ x ∷ []) - c.capacity =
                ground (arith, length-append c.queue (x ∷ [])) in
              e))
    | inr room ↦ rw room (
        ap (λ (k : ℕ). drop k (c.queue ++ x ∷ []))
          (let e : 0 ≡ length (c.queue ++ x ∷ []) - c.capacity =
              ground (arith, length-append c.queue (x ∷ [])) in
            e))
  ]

  -- A burst of evicting sends.
  pub send_burst : List A → ChannelInner n A → ChannelInner n A
  send_burst [] c = c
  send_burst (x ∷ xs) c = send_burst xs (send_drop_oldest x c)

  send_burst-newest :
      (xs : List A) (k : ℕ) (c : ChannelInner n A)
      → c.capacity ≡ k
      → 1 ≤ k
      → IsBounded c
      → (send_burst xs c).queue ≡ newest k (c.queue ++ xs)
  unfolding send_burst
  send_burst-newest [] k c e p h =
      rw append-nil
        (ap (λ (j : ℕ). drop j c.queue) (let z : 0 ≡ length c.queue - k = omega arith in z))
  send_burst-newest (x ∷ xs) k c e p h =
      send_burst-newest xs k (send_drop_oldest x c) (capacity-send_drop_oldest x c ∙ e) p
        (send_drop_oldest-IsBounded x c (omega arith) h)
      ∙ ap (λ q. newest k (q ++ xs))
          (send_drop_oldest_lem x c (omega arith) h ∙ ap (λ m. newest m (c.queue ++ x ∷ [])) e)
      ∙ newest-append k (c.queue ++ x ∷ []) xs
      ∙ ap (newest k) (append_assoc c.queue (x ∷ []) xs)

  -- On a queue within its capacity of at least 1, a burst of evicting sends leaves the newest
  -- items of what the queue held and what was sent, in order and as many as the capacity.
  pub send_burst_lem :
      (xs : List A) (c : ChannelInner n A)
      → 1 ≤ c.capacity
      → IsBounded c
      → (send_burst xs c).queue ≡ newest c.capacity (c.queue ++ xs)
  send_burst_lem xs c p h = send_burst-newest xs c.capacity c refl p h
