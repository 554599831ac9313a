-- ===== src/System/Clock/Silence.antt =====
-- The heartbeat of src/network.rs in the whole gateway: a connection is dropped for silence exactly
-- when it has been silent.
use ws_gateway.Common.{
  ℕ, ◌+◌, ◌-◌, ◌<◌, ◌≡◌, ◌↔◌, refl, ◌∙◌, inl, inr, Bool, true, false, ◌&&◌, Option, none, some,
  ◌++◌, arith, ◌==◌, ==_iff, ==_refl, Bool-cases, ltb, if◌then◌else◌,
}
use ws_gateway.Protocol.Fields.{Bytes}
use ws_gateway.Channel.{Notify, Poll, item, closed, pending}
use ws_gateway.Router.{Sender, Rooms, Iteration, update, leave}
use ws_gateway.Network.{Event, Session, Flow, goes_on, breaks, outbound, tick, turn, pong_timeout}
use ws_gateway.Network.Closing.{session}
use ws_gateway.State.{
  System, Connection, init, running, leaving, session_of, set_channel, set_shared, resume, polled,
  opened, counted, discounted, left, removed, finished,
}
use ws_gateway.System.{
  hears, opens, counts, reads, receives, discounts, leaves, closes, cleans, resolves, delivers,
  retries, gives_up,
}
use ws_gateway.System.Gauge.{left-connections}
use ws_gateway.System.Clock.{is_message, Clocked, start, passes, acts, last_heard, last_heard-le}

-- In its loop, the connection has its last sign of life at this time.
abbrev IsAlive : ℕ → Connection → Type 0
IsAlive k c = c.phase ≡ running → c.last_alive ≡ k

-- A connection out of its loop is put in its place.
update-IsAlive_out :
    (f : Sender → Connection) (j : Sender) (a : Connection) (i : Sender) (k : ℕ)
    → ¬ (a.phase ≡ running)
    → IsAlive k (f i)
    → IsAlive k (update f j a i)
update-IsAlive_out f j a i k out h = elim (Bool-cases (j == i)) [
  | inl hit ↦ rw hit (λ p. absurd (out p))
  | inr miss ↦ rw miss h
]

-- One in its loop.
update-IsAlive_in :
    (f : Sender → Connection) (j : Sender) (a : Connection) (i : Sender) (k k' : ℕ)
    → (j ≡ i → a.last_alive ≡ k')
    → IsAlive k (f i)
    → IsAlive (if j == i then k' else k) (update f j a i)
update-IsAlive_in f j a i k k' mine h = elim (Bool-cases (j == i)) [
  | inl hit ↦ rw hit (λ p. mine ((==_iff j i).0 hit))
  | inr miss ↦ rw miss h
]

IsAlive-moved :
    (f : Sender → Connection) (j i : Sender) (k : ℕ) → j ≡ i → IsAlive k (f i) → IsAlive k (f j)
IsAlive-moved f j i k same h = rw same h

if_same : (b : Bool) (x : ℕ) → (if b then x else x) ≡ x
if_same b x = ground arith

if_each :
    (b : Bool) (x x' y y' : ℕ) → x ≡ x' → y ≡ y' → (if b then x else y) ≡ (if b then x' else y')
if_each b x x' y y' e f = ground arith

if_and : (a b : Bool) (x y : ℕ) → (if a then if b then x else y else y) ≡ (if a && b then x else y)
if_and true b x y = refl
if_and false b x y = refl

module _ {n : Notify} where
  alive-turn :
      (now : ℕ) (e : Event n) (s : Session n)
      → (session (turn now e s)).last_alive ≡ (if is_message e then now else s.last_alive)
  unfolding turn
  alive-turn now (tick true) s = ground arith
  alive-turn now (tick false) s = refl
  alive-turn now (outbound (some bytes) true) s = refl
  alive-turn now (outbound (some bytes) false) s = refl
  alive-turn now (outbound none sent) s = refl
  alive-turn now _ s = refl

  resume-IsAlive :
      (s : System n) (j : Sender) (f : Flow n) (i : Sender) (k k' : ℕ)
      → (j ≡ i → (session f).last_alive ≡ k')
      → IsAlive k (s.connections i)
      → IsAlive (if j == i then k' else k) ((resume s j f).connections i)
  unfolding resume
  resume-IsAlive s j (goes_on after) i k k' mine h =
      update-IsAlive_in s.connections j _ i k k' mine h
  resume-IsAlive s j (breaks after) i k k' mine h = elim (Bool-cases (j == i)) [
    | inl hit ↦ rw hit (λ p. mine ((==_iff j i).0 hit))
    | inr miss ↦ rw miss h
  ]

  -- The arm of `rx.recv()` is no sign of life.
  polled-IsAlive :
      (now : ℕ) (sent : Bool) (j : Sender) (p : Poll Bytes) (s : System n) (i : Sender) (k : ℕ)
      → (j ≡ i → (s.connections j).last_alive ≡ k)
      → IsAlive k (s.connections i)
      → IsAlive k ((polled now sent j p s).connections i)
  unfolding polled
  polled-IsAlive now sent j (item x) s i k mine h =
      let turned = turn now (outbound (some x) sent) (session_of s j) in
      let kept =
        resume-IsAlive s j turned i k k
          (λ same. alive-turn now (outbound (some x) sent) (session_of s j) ∙ mine same) h in
      rw (if_same (j == i) k) at kept
  polled-IsAlive now sent j closed s i k mine h =
      let turned = turn now (outbound none sent) (session_of s j) in
      let kept =
        resume-IsAlive s j turned i k k
          (λ same. alive-turn now (outbound none sent) (session_of s j) ∙ mine same) h in
      rw (if_same (j == i) k) at kept
  polled-IsAlive now sent j pending s i k mine h = h

  left-IsAlive :
      (r : Bytes) (o : Option (Bool × Rooms)) (s : System n) (i : Sender) (k : ℕ)
      → IsAlive k (s.connections i)
      → IsAlive k ((left r o s).connections i)
  left-IsAlive r o s i k h = rw ((left-connections r o s).1) h

  module _ (iteration : Iteration) where
    -- A connection in its loop has its last sign of life in `last_alive`.
    IsAlive-last_heard :
        {clock : ℕ} {s : System n} (run : Clocked iteration clock s) (i : Sender)
        → IsAlive (last_heard iteration run i) (s.connections i)
    unfolding init opened counted discounted removed finished
    IsAlive-last_heard (start clock) i = λ p. refl
    IsAlive-last_heard (passes later run le) i = IsAlive-last_heard run i
    IsAlive-last_heard (acts run (hears r b) at) i = IsAlive-last_heard run i
    IsAlive-last_heard (acts {s} run (opens r u h) at) i =
        update-IsAlive_out s.connections s.next _ i _ (λ p. cc) (IsAlive-last_heard run i)
    IsAlive-last_heard (acts {clock} {s} run (counts j now lt p) at) i =
        update-IsAlive_in s.connections j _ i (last_heard iteration run i) clock (λ same. at)
          (IsAlive-last_heard run i)
    IsAlive-last_heard (acts {clock} {s} run (reads j now e lt p input) at) i =
        let k = last_heard iteration run i in
        let turned = turn now e (session_of s j) in
        let mine : j ≡ i → (session turned).last_alive ≡ (if is_message e then clock else k) =
          λ same.
            alive-turn now e (session_of s j)
            ∙ if_each (is_message e) now clock (s.connections j).last_alive k at
                (IsAlive-moved s.connections j i k same (IsAlive-last_heard run i) p) in
        let kept =
          resume-IsAlive s j turned i k (if is_message e then clock else k) mine
            (IsAlive-last_heard run i) in
        rw (if_and (j == i) (is_message e) clock k) at kept
    IsAlive-last_heard (acts {clock} {s} run (receives j now sent p c lt r e) at) i =
        polled-IsAlive now sent j p (set_channel s j c) i (last_heard iteration run i)
          (λ same.
            IsAlive-moved s.connections j i (last_heard iteration run i) same
              (IsAlive-last_heard run i) r)
          (IsAlive-last_heard run i)
    IsAlive-last_heard (acts {s} run (discounts j lt out) at) i =
        update-IsAlive_out s.connections j _ i _ (λ p. cc) (IsAlive-last_heard run i)
    IsAlive-last_heard (acts {s} run (leaves j lt out) at) i =
        let c = s.connections j in
        let o = leave s.gateway.shared.rooms c.room c.user in
        update-IsAlive_out (left c.room o s).connections j _ i _ (λ p. cc)
          (left-IsAlive c.room o s i _ (IsAlive-last_heard run i))
    IsAlive-last_heard (acts {s} run (closes j sent lt out) at) i =
        update-IsAlive_out s.connections j _ i _ (λ p. cc) (IsAlive-last_heard run i)
    IsAlive-last_heard (acts run (cleans r before after e) at) i = IsAlive-last_heard run i
    IsAlive-last_heard (acts run (resolves h payload before after e) at) i =
        IsAlive-last_heard run i
    IsAlive-last_heard (acts run (delivers d before after e) at) i = IsAlive-last_heard run i
    IsAlive-last_heard (acts run (retries t before after e) at) i = IsAlive-last_heard run i
    IsAlive-last_heard (acts {s} run (gives_up t before after returned e f) at) i =
        let rest = set_shared s (record s.gateway.shared { retries = before ++ after }) in
        left-IsAlive t.room_id (leave s.gateway.shared.rooms t.room_id t.user_id) rest i _
          (IsAlive-last_heard run i)

    -- In every run of the gateway in which the clock never goes back, in any order of the blocks: at a
    -- tick whose ping is written, a connection in its loop leaves it exactly when its loop began, and
    -- its client was last heard, more than 30 seconds ago.
    pub dropped_iff :
        {clock : ℕ} {s : System n} (run : Clocked iteration clock s) (i : Sender)
        → (s.connections i).phase ≡ running
        → (((resume s i (turn clock (tick true) (session_of s i))).connections i).phase ≡ leaving)
          ↔ (last_heard iteration run i + 30_000 < clock)
    unfolding resume turn
    dropped_iff {clock} {s} run i p =
        let alive = IsAlive-last_heard run i p in
        let past = last_heard-le iteration run i in
        elim (Bool-cases (ltb pong_timeout (clock - (s.connections i).last_alive))) [
          | inl over ↦ (λ out. ground arith, λ long. rw (over, resume) (rw (==_refl i) refl))
          | inr early ↦ (
            λ out.
                let went = rw (early, resume) at out in
                let stays : running ≡ leaving = rw (==_refl i) at went in cc,
            λ long. absurd (ground arith),
          )
        ]
