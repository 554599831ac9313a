-- ===== src/Channel/Wakeup.antt =====
-- `recv` of src/routing.rs: which answer a poll gives, and which events wake a pending one.
use ws_gateway.Common.{
  ℕ, suc, ◌≡◌, ◌≢◌, ◌⊎◌, inl, inr, refl, ap, none, some, List, [], ◌∷◌, ◌++◌, arith, ◌==◌,
  ==-eq-false, Bool-cases, Option-cases, List-cases,
}
use ws_gateway.Channel.{
  Notify, ChannelInner, item, closed, pending, push_back, recv, recv_loop, resume_recv,
}

module _ {n : Notify} {A : Type 0} where
  recv_loop-item :
      (f strong : ℕ) (c : ChannelInner n A) (x : A) (q : List A)
      → c.queue ≡ x ∷ q
      → recv_loop (suc f) strong c ≡ some (item x, record c { queue = q })
  unfolding recv_loop
  recv_loop-item f strong c x q e = rw (e, recv_loop) refl

  -- A receive takes the oldest item.
  pub recv-item :
      (strong : ℕ) (c : ChannelInner n A) (x : A) (q : List A)
      → c.queue ≡ x ∷ q
      → recv strong c ≡ some (item x, record c { queue = q })
  unfolding recv
  recv-item strong c x q e = recv_loop-item 1 strong c x q e

  -- On an empty queue a receive reports the end when only the receiver holds the channel.
  pub recv-closed : (c : ChannelInner n A) → c.queue ≡ [] → recv 1 c ≡ some (closed, c)
  unfolding recv
  recv-closed c e = simp (e, recv_loop)

  -- On an empty queue with a sender left a receive stays pending, and the stored permit, if there
  -- was one, is used up: `notified` pends.
  pub recv-pending :
      (strong : ℕ) (c : ChannelInner n A)
      → c.queue ≡ []
      → strong ≢ 1
      → (s : n.State) × (recv strong c ≡ some (pending, record c { notify = s }))
        × (n.notified s ≡ none)
  unfolding recv
  recv-pending strong c e ne = elim (Option-cases (n.notified c.notify)) [
    | inl p ↦ (c.notify, ground arith, p)
    | inr (s, p) ↦ (
      s,
      simp (e, recv_loop, ==-eq-false strong 1 ne, p, n.consumes c.notify s p),
      n.consumes c.notify s p,
    )
  ]

  -- A receive always comes to an answer: the oldest item, the end, or pending with the queue empty
  -- and no permit left.
  pub recv_cases :
      (strong : ℕ) (c : ChannelInner n A)
      → ((x : A) × (q : List A) × (c.queue ≡ x ∷ q)
          × (recv strong c ≡ some (item x, record c { queue = q })))
        ⊎ ((c.queue ≡ []) × (strong ≡ 1) × (recv strong c ≡ some (closed, c)))
        ⊎ ((s : n.State) × (c.queue ≡ [])
            × (strong ≢ 1)
            × (recv strong c ≡ some (pending, record c { notify = s }))
            × (n.notified s ≡ none))
  recv_cases strong c = elim (List-cases c.queue) [
    | inr (x, q, e) ↦ inl (x, q, e, recv-item strong c x q e)
    | inl e ↦ inr (elim (Bool-cases (strong == 1)) [
      | inl last ↦ let one : strong ≡ 1 = ground arith in inl (e, one, rw one (recv-closed c e))
      | inr more ↦
          let ne : strong ≢ 1 = ground arith in
          let (s, r, p) = recv-pending strong c e ne in inr (s, e, ne, r, p)
    ])
  ]

  -- A pending receive, whose queue is empty, takes the item when it is polled again after a
  -- push.
  pub resume-push_back :
      (strong : ℕ) (x : A) (c : ChannelInner n A)
      → c.queue ≡ []
      → (s : n.State) × (resume_recv strong (push_back x c)
          ≡ some (item x, record c { queue = []; notify = s }))
  unfolding resume_recv push_back
  resume-push_back strong x c e =
      let (s, w) = n.wakes c.notify in
      (
        s,
        rw (w, resume_recv)
            (recv_loop-item 1 strong (record c { queue = c.queue ++ x ∷ []; notify = s }) x []
              (ap (λ q. q ++ x ∷ []) e)),
      )

  -- The end is not announced: a receive that is pending stays pending when it is polled again
  -- after the last sender went away, though a new receive would report the end.
  pub resume-closed :
      (strong : ℕ) (c c' : ChannelInner n A)
      → recv strong c ≡ some (pending, c')
      → (resume_recv 1 c' ≡ some (pending, c')) × (recv 1 c' ≡ some (closed, c'))
  unfolding resume_recv
  resume-closed strong c c' e = elim (recv_cases strong c) [
    | inl (x, q, _, r) ↦ cc
    | inr (inl (_, _, r)) ↦ cc
    | inr (inr (s, q, _, r, p)) ↦
        let same : c' ≡ record c { notify = s } = cc in
        rw same (simp (p, resume_recv), recv-closed (record c { notify = s }) q)
  ]
