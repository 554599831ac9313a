-- ===== src/Channel/Timeout.antt =====
-- `send_timeout`: how long it tries, and what its two results mean.
use ws_gateway.Common.{
  ℕ, zero, suc, ◌+◌, ◌*◌, ◌≤◌, ◌<◌, ◌≡◌, inl, inr, refl, some, arith, leb, length, Bool-cases,
  Result, ok, err,
}
use ws_gateway.Channel.{Notify, ChannelInner, push_back, send_timeout}
use ws_gateway.Channel.Bounds.{try_send_cases}

-- Each sleep lasts at least five milliseconds on the clock.
abbrev pub Sleeps : (ℕ → ℕ) → Type 0
Sleeps clock = (i : ℕ) → clock i + 5 ≤ clock (i + 1)

module _ {n : Notify} {A : Type 0} (clock : ℕ → ℕ)
    (others : ℕ → ChannelInner n A → ChannelInner n A) (timeout : ℕ) where
  -- The channel before attempt `i + k` if no attempt from `i` on changes it.
  abbrev pub before : ℕ → ℕ → ChannelInner n A → ChannelInner n A
  before i zero c = c
  before i (suc k) c = before (i + 1) k (others i c)

  -- How a call ends that stands before attempt `i`: attempt `i + k` found room and put the item at
  -- the back, or found the channel full and the time up and gave the item back. No attempt before
  -- it changed the channel.
  pub data Ended (i : ℕ) (x : A) (c : ChannelInner n A)
      : Result (Unit {0}) A × ChannelInner n A → Type 0 where
    sent :
        {r : Result (Unit {0}) A × ChannelInner n A} (k : ℕ)
        → length (before i k c).queue < (before i k c).capacity
        → r ≡ (ok tt, push_back x (before i k c))
        → Ended i x c r
    gave_up :
        {r : Result (Unit {0}) A × ChannelInner n A} (k : ℕ)
        → timeout ≤ clock (i + k)
        → (before i k c).capacity ≤ length (before i k c).queue
        → r ≡ (err x, before i k c)
        → Ended i x c r

  Ended-later :
      (i : ℕ) (x : A) (c : ChannelInner n A) {r : Result (Unit {0}) A × ChannelInner n A}
      → Ended (i + 1) x (others i c) r
      → Ended i x c r
  Ended-later i x c (sent k room e) = sent (suc k) room e
  Ended-later i x c (gave_up k late full e) =
      let same : i + 1 + k ≡ i + suc k = omega arith in gave_up (suc k) (rw (← same) late) full e

  ends :
      Sleeps clock
      → (fuel i : ℕ) (x : A) (c : ChannelInner n A) → 1 ≤ fuel
      → timeout + 5 ≤ clock i + 5 * fuel
      → (r : Result (Unit {0}) A × ChannelInner n A) × (send_timeout clock others fuel i x timeout c
          ≡ some r)
        × Ended i x c r
  unfolding send_timeout
  ends sleeps zero i x c p h = absurd (omega arith)
  ends sleeps (suc fuel) i x c p h = elim (try_send_cases x c) [
    | inl (room, e) ↦ ((ok tt, push_back x c), rw (e, send_timeout, e) refl, sent 0 room refl)
    | inr (full, e) ↦ elim (Bool-cases (leb timeout (clock i))) [
      | inl late ↦
          let here : i ≡ i + 0 = omega arith in
          let up : timeout ≤ clock i = ground arith in
          ((err x, c), rw (e, send_timeout, late, e) refl, gave_up 0 (rw (← here) up) full refl)
      | inr early ↦
          let (r, s, end) =
            ends sleeps fuel (i + 1) x (others i c) (ground arith) (ground (arith, sleeps i)) in
          (r, rw (e, send_timeout, early, e) s, Ended-later i x c end)
    ]
  ]

  -- With sleeps of at least five milliseconds, a fifth of the timeout and one more attempts are
  -- enough for `send_timeout`. It ends at an attempt that found room and put the item at the
  -- back, or at one that found the channel full with the timeout over and gave the item back;
  -- no attempt before changed the channel.
  pub send_timeout_ends :
      Sleeps clock
      → (fuel : ℕ) (x : A) (c : ChannelInner n A) → timeout + 5 ≤ 5 * fuel
      → (r : Result (Unit {0}) A × ChannelInner n A) × (send_timeout clock others fuel 0 x timeout c
          ≡ some r)
        × Ended 0 x c r
  send_timeout_ends sleeps fuel x c h = ends sleeps fuel 0 x c (omega arith) (omega arith)
