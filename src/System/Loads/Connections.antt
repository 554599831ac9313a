-- ===== src/System/Loads/Connections.antt =====
-- Copies of a packet that src/network.rs writes to one connection and that the tasks hold for it,
-- through the blocks of the UDP loop and of the connections. `f` weighs a packet.
use ws_gateway.Common.{
  ℕ, ◌+◌, ◌≤◌, ◌≡◌, refl, ap, inl, inr, true, false, Bool, Option, none, some, ◌++◌, arith, ◌==◌,
  ==_iff, Bool-cases, if◌then◌else◌,
}
use ws_gateway.Protocol.Fields.{Bytes}
use ws_gateway.Channel.{
  Notify, ChannelInner, Poll, item, closed, pending, bounded, drop_receiver, recv,
}
use ws_gateway.Router.{Sender, Rooms, update, leave}
use ws_gateway.Network.{best_effort_close, Flow, goes_on, breaks, outbound, turn}
use ws_gateway.Network.Closing.{session}
use ws_gateway.State.{
  System, Connection, session_of, set_channel, resume, polled, opened, counted, discounted, left,
  removed, finished, running, leaving, uncounted, unregistered, done,
}
use ws_gateway.System.Registry.{shared-outbound}
use ws_gateway.System.Gauge.{left-connections}
use ws_gateway.System.Loads.{tally, tally-append, taken, shared_load, tally-recv, tally-update}
use ws_gateway.System.Loads.Turns.{shown, of_packet, of_delivery, outbound_load, tally-close}

pub if_nothing : (b : Bool) → (if b then 0 else 0) ≤ 0
if_nothing true = omega arith
if_nothing false = omega arith

module _ {n : Notify} (f : Bytes → ℕ) where
  module _ (c : Sender) where
    -- All that a connection was sent and all that tasks hold and may send to it.
    abbrev pub load : System n → ℕ
    load s =
        tally (shown f) (s.connections c).frames
        + shared_load f c s.gateway.shared
        + tally (of_delivery f c) s.sending
        + tally (of_packet f) s.gateway.spawned

    -- A connection is put in its place, with packets more among its frames.
    tally-connection :
        (s : System n) (i : Sender) (k : Connection) (written : ℕ)
        → tally (shown f) k.frames ≤ tally (shown f) (s.connections i).frames + written
        → tally (shown f) (update s.connections i k c).frames
          ≤ tally (shown f) (s.connections c).frames + (if i == c then written else 0)
    tally-connection s i k written h = elim (Bool-cases (i == c)) [
      | inl hit ↦
          let at_c =
            ap (λ (j : Sender). tally (shown f) (s.connections j).frames) ((==_iff i c).0 hit) in
          rw hit (omega (arith, h, at_c))
      | inr miss ↦ rw miss (omega arith)
    ]

    pub load-resume :
        (s : System n) (i : Sender) (flow : Flow n) (spawned written : ℕ)
        → (session flow).gateway.shared ≡ s.gateway.shared
        → tally (of_packet f) (session flow).gateway.spawned
          ≤ tally (of_packet f) s.gateway.spawned + spawned
        → tally (shown f) (session flow).frames ≤ tally (shown f) (s.connections i).frames + written
        → load (resume s i flow) ≤ load s + spawned + (if i == c then written else 0)
    unfolding resume
    load-resume s i (goes_on after) spawned written same more frames = omega (
      arith,
      more,
      ap (shared_load f c) same,
      tally-connection s i
          (record (s.connections i) {
            last_alive = after.last_alive;
            frames = after.frames;
            phase = running;
          })
          written frames,
    )
    load-resume s i (breaks after) spawned written same more frames = omega (
      arith,
      more,
      ap (shared_load f c) same,
      tally-connection s i
          (record (s.connections i) {
            last_alive = after.last_alive;
            frames = after.frames;
            phase = leaving;
          })
          written frames,
    )

    pub load-polled :
        (now : ℕ) (sent : Bool) (i : Sender) (p : Poll Bytes) (s : System n)
        → load (polled now sent i p s) ≤ load s + (if i == c then taken f p else 0)
    unfolding polled turn
    load-polled now sent i (item x) s =
        let (same, frames) = outbound_load f now x sent (session_of s i) in
        let step =
          load-resume s i (turn now (outbound (some x) sent) (session_of s i)) 0 (f x)
            (shared-outbound now (some x) sent (session_of s i))
            (omega (arith, ap (tally (of_packet f)) same)) frames in
        omega (arith, step)
    load-polled now sent i closed s =
        let step = load-resume s i (breaks (session_of s i)) 0 0 refl (omega arith) (omega arith) in
        omega (arith, step, if_nothing (i == c))
    load-polled now sent i pending s = omega (arith, if_nothing (i == c))

    pub load-receives :
        (now : ℕ) (sent : Bool) (i : Sender) (p : Poll Bytes) (k : ChannelInner n Bytes)
        (s : System n) (strong : ℕ)
        → recv strong (s.gateway.shared.channels i) ≡ some (p, k)
        → load (polled now sent i p (set_channel s i k)) ≤ load s
    load-receives now sent i p k s strong e = omega (
      arith,
      if_nothing (i == c),
      load-polled now sent i p (set_channel s i k),
      tally-update f s.gateway.shared.channels i c k (taken f p) 0
          (omega (arith, tally-recv f strong (s.gateway.shared.channels i) k p e)),
    )

    pub load-opened : (r u : Bytes) (s : System n) → load (opened r u s) ≤ load s
    unfolding opened bounded
    load-opened r u s = elim (Bool-cases (s.next == c)) [
      | inl hit ↦ rw hit (omega arith)
      | inr miss ↦ rw miss (omega arith)
    ]

    pub load-counted : (now : ℕ) (i : Sender) (s : System n) → load (counted now i s) ≤ load s
    unfolding counted
    load-counted now i s = omega (
      arith,
      if_nothing (i == c),
      tally-connection s i (record (s.connections i) { last_alive = now; phase = running }) 0
          (omega arith),
    )

    pub load-discounted : (i : Sender) (s : System n) → load (discounted i s) ≤ load s
    unfolding discounted
    load-discounted i s = omega (
      arith,
      if_nothing (i == c),
      tally-connection s i (record (s.connections i) { phase = uncounted }) 0 (omega arith),
    )

    pub load-left :
        (r : Bytes) (o : Option (Bool × Rooms)) (s : System n) → load (left r o s) ≡ load s
    unfolding left
    load-left r none s = refl
    load-left r (some (cleanup, rooms)) s = refl

    pub load-removed : (i : Sender) (s : System n) → load (removed i s) ≤ load s
    unfolding removed
    load-removed i s =
        let k = s.connections i in
        let o = leave s.gateway.shared.rooms k.room k.user in
        let t = left k.room o s in
        let kept : tally (shown f) (t.connections i).frames ≡ tally (shown f) k.frames =
          ap (λ (h : Sender → Connection). tally (shown f) (h i).frames)
            (left-connections k.room o s).1 in
        omega (
          arith,
          if_nothing (i == c),
          load-left k.room o s,
          tally-connection t i (record k { phase = unregistered }) 0 (omega (arith, kept)),
        )

    pub load-finished :
        (sent : Bool) (i : Sender) (s : System n) → load (finished sent i s) ≤ load s
    unfolding finished drop_receiver
    load-finished sent i s = omega (
      arith,
      if_nothing (i == c),
      tally-update f s.gateway.shared.channels i c (drop_receiver (s.gateway.shared.channels i)) 0 0
          (omega arith),
      tally-connection s i
          (record (s.connections i) {
            frames = (s.connections i).frames ++ best_effort_close sent;
            phase = done;
          })
          0
          (omega (
            arith,
            tally-append (shown f) (s.connections i).frames (best_effort_close sent),
            tally-close f sent,
          )),
    )
