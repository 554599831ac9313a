-- ===== src/Channel.antt =====
-- src/routing.rs, the bounded channel: `ChannelInner`, `bounded`, `try_send`,
-- `send_drop_oldest`, `send_timeout` and `recv`. A method that locks the queue is one atomic step
-- on the shared inner state; sender and receiver are handles of it.
mod Tests
pub mod Bounds
pub mod History
pub mod Wakeup
pub mod Timeout
use ws_gateway.Common.{
  ℕ, zero, suc, ◌+◌, ◌≡◌, Bool, true, false, Option, none, some, List, [], ◌∷◌, ◌++◌, ltb, leb,
  ◌==◌, if◌then◌else◌, length, Result, ok, err,
}

-- tokio's `Notify`, which is not part of the repository: its stored permit is behind `notified`,
-- a poll of `notified()`, which is `none` while there is no permit and takes the permit otherwise.
-- The laws are its documented behaviour: a permit is there after `notify_one`, at most one is
-- stored, and a new `Notify` has none.
pub record Notify : Type 1 where
  pub State : Type 0
  pub new : State
  pub notify_one : State → State
  pub notified : State → Option State
  pub wakes : (s : State) → (s' : State) × (notified (notify_one s) ≡ some s')
  pub consumes : (s s' : State) → notified s ≡ some s' → notified s' ≡ none
  pub new_pends : notified new ≡ none

pub record ChannelInner (n : Notify) (A : Type 0) : Type 0 where
  pub queue : List A
  pub capacity : ℕ
  pub notify : n.State

-- What a poll of `recv()` gives: `Ready(Some(item))`, `Ready(None)`, or `Pending`.
pub data Poll (A : Type 0) : Type 0 where
  item : A → Poll A
  closed : Poll A
  pending : Poll A

unfoldable pub bounded : (n : Notify) (A : Type 0) → ℕ → ChannelInner n A
bounded n A capacity = record { queue = []; capacity = capacity; notify = n.new }

-- `q.pop_front()` with the result dropped
unfoldable pub pop_front : {A : Type 0} → List A → List A
pop_front [] = []
pop_front (x ∷ q) = q

module _ {n : Notify} {A : Type 0} where
  -- `q.push_back(item); notify.notify_one()`
  unfoldable pub push_back : A → ChannelInner n A → ChannelInner n A
  push_back x c = record c { queue = c.queue ++ x ∷ []; notify = n.notify_one c.notify }

  unfoldable pub try_send : A → ChannelInner n A → Result (Unit {0}) A × ChannelInner n A
  unfolding push_back
  try_send x c = if ltb (length c.queue) c.capacity then (ok tt, push_back x c) else (err x, c)

  unfoldable pub send_drop_oldest : A → ChannelInner n A → ChannelInner n A
  unfolding push_back pop_front
  send_drop_oldest x c =
      if leb c.capacity (length c.queue)
      then push_back x (record c { queue = pop_front c.queue })
      else push_back x c

  -- `Drop` of the receiver
  unfoldable pub drop_receiver : ChannelInner n A → ChannelInner n A
  drop_receiver c = record c { notify = n.notify_one c.notify }

  -- One turn of the loop of `recv` after another, where `strong` is `Arc::strong_count`. The fuel
  -- bounds the turns; `Wakeup.recv_cases` shows that two are enough.
  unfoldable pub recv_loop : ℕ → ℕ → ChannelInner n A → Option (Poll A × ChannelInner n A)
  recv_loop zero strong c = none
  recv_loop (suc fuel) strong c = elim c.queue [
    | x ∷ q ↦ some (item x, record c { queue = q })
    | [] ↦ elim (strong == 1) [
      | true ↦ some (closed, c)
      | false ↦ elim (n.notified c.notify) [
        | none ↦ some (pending, c)
        | some s ↦ recv_loop fuel strong (record c { notify = s })
      ]
    ]
  ]

  -- The first poll of a `recv()` future.
  unfoldable pub recv : ℕ → ChannelInner n A → Option (Poll A × ChannelInner n A)
  unfolding recv_loop
  recv strong c = recv_loop 2 strong c

  -- A later poll of a `recv()` future that was pending: it stands at `notified().await`.
  unfoldable pub resume_recv : ℕ → ChannelInner n A → Option (Poll A × ChannelInner n A)
  unfolding recv_loop
  resume_recv strong c = elim (n.notified c.notify) [
    | none ↦ some (pending, c)
    | some s ↦ recv_loop 2 strong (record c { notify = s })
  ]

  -- `send_timeout`, in milliseconds: `clock i` is what `start.elapsed()` reads after attempt `i`,
  -- and `others i` is what other tasks do to the channel during the sleep after attempt `i`. The
  -- fuel bounds the attempts; `none` means that it ran out.
  unfoldable pub send_timeout :
      (ℕ → ℕ)
      → (ℕ → ChannelInner n A → ChannelInner n A)
      → ℕ
      → ℕ
      → A
      → ℕ
      → ChannelInner n A
      → Option (Result (Unit {0}) A × ChannelInner n A)
  send_timeout clock others zero i x timeout c = none
  send_timeout clock others (suc fuel) i x timeout c =
      let (r, c') = try_send x c in
      elim r [
        | ok _ ↦ some (ok tt, c')
        | err returned ↦ elim (leb timeout (clock i)) [
          | true ↦ some (err returned, c')
          | false ↦ send_timeout clock others fuel (i + 1) returned timeout (others i c')
        ]
      ]
