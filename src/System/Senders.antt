-- ===== src/System/Senders.antt =====
-- The senders of src/network.rs in the registry of src/routing.rs: each is held by one entry at most,
-- so that a receive reports the end to a connection that was replaced, and to none that is registered.
use ws_gateway.Common.{
  ℕ, suc, ◌+◌, ◌≤◌, ◌≡◌, ◌≢◌, ap, sym, inl, inr, some, List, [], ◌∷◌, ◌++◌, arith, ◌==◌,
  ==-eq-false, if◌then◌else◌, ltb,
}
use ws_gateway.Protocol.Fields.{Bytes}
use ws_gateway.Channel.{Notify, ChannelInner, Poll, closed, recv}
use ws_gateway.Channel.Wakeup.{recv_cases, recv-closed}
use ws_gateway.Router.{Sender, Iteration, new, leave}
use ws_gateway.Router.References.{
  references, count_retries, strong_count, references-register, references-leave,
  references-remove_if_empty,
}
use ws_gateway.Router.Registry.{sender_of}
use ws_gateway.Router.Kick.{references-unregister, register_kicks}
use ws_gateway.Router.Cleanup
use ws_gateway.Router.Cleanup.{Table, Event}
use ws_gateway.Network.{turn}
use ws_gateway.State.{
  System, session_of, set_shared, set_channel, opened, counted, discounted, finished, strong,
  count_sending,
}
use ws_gateway.System.{
  Step, hears, opens, counts, reads, receives, discounts, leaves, closes, cleans, resolves,
  delivers, retries, gives_up, Reach, start, later,
}
use ws_gateway.System.Names.{
  SameNames, resume-SameNames, polled-SameNames, left-SameNames, removed-SameNames,
}
use ws_gateway.System.Registry.{happened, history, Reach-refines}

-- How often a sender was registered.
abbrev joins : Sender → List Event → ℕ
joins c [] = 0
joins c (Event.joined r u tx ∷ log) = (if tx == c then 1 else 0) + joins c log
joins c (Event.left r u ∷ log) = joins c log

joins-append : (c : Sender) (xs ys : List Event) → joins c (xs ++ ys) ≡ joins c xs + joins c ys
joins-append c [] ys = omega arith
joins-append c (Event.joined r u tx ∷ xs) ys = omega (arith, joins-append c xs ys)
joins-append c (Event.left r u ∷ xs) ys = joins-append c xs ys

-- The entries that hold a sender are no more than its registrations.
Step-references :
    (c : Sender) {t u : Table} {events : List Event}
    → Cleanup.Step t u events
    → references c u.rooms ≤ references c t.rooms + joins c events
Step-references c {t} (Cleanup.registers r u tx) =
    omega (arith, references-register c t.rooms r u tx)
Step-references c {t} (Cleanup.leaves r u should_cleanup rooms e) =
    let (room, there, fewer) = references-leave c t.rooms rooms r u should_cleanup e in omega arith
Step-references c (Cleanup.leaves_nothing r u e) = omega arith
Step-references c {t} (Cleanup.cleans r others more e) =
    omega (arith, references-remove_if_empty c r t.rooms)

Reach-references :
    (c : Sender) {t : Table} {log : List Event}
    → Cleanup.Reach t log
    → references c t.rooms ≤ joins c log
unfolding references new
Reach-references c Cleanup.start = omega arith
Reach-references c (Cleanup.later {log} {events} r st) =
    omega (arith, Reach-references c r, Step-references c st, joins-append c events log)

-- 1 for a connection that exists, and 0 for one that does not yet.
abbrev made : Sender → Sender → ℕ
made c next = if ltb c next then 1 else 0

made-suc : (c k : ℕ) → (if k == c then 1 else 0) + made c k ≤ made c (suc k)
made-suc c k = ground arith

module _ {n : Notify} where
  -- A sender that is registered is held.
  strong-registered :
      (s : System n) (r u : Bytes) (c : Sender)
      → sender_of s.gateway.shared.rooms r u ≡ some c
      → 2 ≤ strong s c
  unfolding strong_count
  strong-registered s r u c e = omega (arith, references-unregister s.gateway.shared.rooms r u c e)

  -- Whatever state the tasks are in, a receive does not report the end to a connection whose sender
  -- is registered, under whatever room and user.
  pub recv-registered :
      (s : System n) (r u : Bytes) (c : Sender) (p : Poll Bytes) (after : ChannelInner n Bytes)
      → sender_of s.gateway.shared.rooms r u ≡ some c
      → recv (strong s c) (s.gateway.shared.channels c) ≡ some (p, after)
      → p ≢ closed
  recv-registered s r u c p after e got =
      elim (recv_cases (strong s c) (s.gateway.shared.channels c)) [
        | inl (x, q, some_left, gives) ↦ (λ ends. cc)
        | inr (inl (empty, one, gives)) ↦ absurd (omega (arith, strong-registered s r u c e))
        | inr (inr (permit, empty, more, gives, waits)) ↦ (λ ends. cc)
      ]

  made-kept : (c : Sender) {s t : System n} → SameNames s t → 0 + made c s.next ≤ made c t.next
  made-kept c p = omega (arith, ap (made c) p.next)

  module _ (iteration : Iteration) where
    -- A connection registers its sender once, as it is opened.
    Step-joins :
        (c : Sender) {s t : System n} (st : Step iteration s t)
        → joins c (happened iteration st) + made c s.next ≤ made c t.next
    unfolding opened counted discounted finished
    Step-joins c {s} (opens r u h) = omega (arith, made-suc c s.next)
    Step-joins c (hears r b) = omega arith
    Step-joins c (counts i now lt at_start) = omega arith
    Step-joins c {s} (reads i now e lt run input) =
        made-kept c (resume-SameNames s i (turn now e (session_of s i)))
    Step-joins c {s} (receives i now sent p ch lt run e) =
        made-kept c (polled-SameNames now sent i p (set_channel s i ch))
    Step-joins c (discounts i lt out) = omega arith
    Step-joins c {s} (leaves i lt out) = made-kept c (removed-SameNames i s)
    Step-joins c (closes i sent lt out) = omega arith
    Step-joins c (cleans r before after e) = omega arith
    Step-joins c (resolves h payload before after e) = omega arith
    Step-joins c (delivers d before after e) = omega arith
    Step-joins c (retries t before after e) = omega arith
    Step-joins c {s} (gives_up t before after returned e f) =
        let rest = set_shared s (record s.gateway.shared { retries = before ++ after }) in
        made-kept c
          (left-SameNames t.room_id (leave s.gateway.shared.rooms t.room_id t.user_id) rest)

    Reach-joins :
        (c : Sender) {s : System n} (reach : Reach iteration s)
        → joins c (history iteration reach) ≤ made c s.next
    Reach-joins c start = omega arith
    Reach-joins c (later r st) = omega (
      arith,
      Reach-joins c r,
      Step-joins c st,
      joins-append c (happened iteration st) (history iteration r),
    )

    -- In every state that the gateway reaches, at most one entry of the registry holds the sender of
    -- a connection that was opened, and none that of one that was not.
    pub held_once :
        {s : System n} (reach : Reach iteration s) (c : Sender)
        → references c s.gateway.shared.rooms ≤ (if ltb c s.next then 1 else 0)
    held_once {s} reach c =
        omega (arith, Reach-references c (Reach-refines iteration reach), Reach-joins c reach)

    -- Where, in a state that the gateway reaches with no delivery and no retry under way, a
    -- connection is opened under the room and user of a registered one whose queue is empty: the
    -- next receive of the connection that it replaces reports the end.
    pub replaced-ends :
        {s : System n} (reach : Reach iteration s) (r u : Bytes) (old : Sender)
        → sender_of s.gateway.shared.rooms r u ≡ some old
        → (s.gateway.shared.channels old).queue ≡ []
        → s.sending ≡ []
        → s.gateway.shared.retries ≡ []
        → let t = opened r u s in
          let c = t.gateway.shared.channels old in recv (strong t old) c ≡ some (closed, c)
    unfolding opened strong_count count_retries
    replaced-ends {s} reach r u old e empty idle quiet =
        let rooms = s.gateway.shared.rooms in
        let once = held_once reach old in
        let some_left = references-unregister rooms r u old e in
        let differ : old ≢ s.next = λ same. ground arith in
        let kicked = (register_kicks rooms r u old s.next differ e).0 in
        let last : strong (opened r u s) old ≡ 1 =
          ground (arith, ap (count_sending old) idle, ap (count_retries old) quiet) in
        rw (==-eq-false s.next old (λ same. differ (sym same)), last)
          (recv-closed (s.gateway.shared.channels old) empty)
