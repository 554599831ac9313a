-- ===== src/System/Gauge.antt =====
-- The gauge of active connections against the connections there are.
use ws_gateway.Common.{
  ℕ, zero, suc, ◌+◌, ◌%◌, ◌^◌, ◌<◌, ◌≤◌, ◌≡◌, refl, ap, ◌∙◌, inl, inr, false, Bool, Option, none,
  some, [], ◌++◌, arith, ◌==◌, ==_refl, ==-eq-false, ==_iff, Bool-cases,
}
use ws_gateway.Protocol.Fields.{Bytes}
use ws_gateway.Channel.{Notify, Poll, item, closed, pending}
use ws_gateway.Router.{Sender, Rooms, Iteration, update, leave}
use ws_gateway.Network.{
  best_effort_close, Gateway, Flow, goes_on, breaks, outbound, turn, udp_turn, udp_decoded,
}
use ws_gateway.Network.Closing.{active, session, active-turn}
use ws_gateway.State.{
  set_shared, System, Phase, running, leaving, done, Connection, init, session_of, set_channel,
  resume, polled, opened, counted, discounted, left, removed, finished, registered, uncounted,
  unregistered,
}
use ws_gateway.System.{
  Step, hears, opens, counts, discounts, closes, reads, receives, leaves, cleans, resolves,
  delivers, retries, gives_up, Reach, start, later,
}

-- A connection counts from where its task has counted it to where it takes it off the gauge.
abbrev pub weight : Phase → ℕ
weight running = 1
weight leaving = 1
weight _ = 0

-- How many of the connections below `k` count.
abbrev pub live : ℕ → (Sender → Connection) → ℕ
live zero connections = 0
live (suc k) connections = weight (connections k).phase + live k connections

live-update_above :
    (k i : ℕ) (f : Sender → Connection) (c : Connection) → k ≤ i → live k (update f i c) ≡ live k f
live-update_above zero i f c h = refl
live-update_above (suc k) i f c h =
    let miss : (i == k) ≡ false = ==-eq-false i k (omega arith) in
    rw miss (ap (λ m. weight (f k).phase + m) (live-update_above k i f c (omega arith)))

live-update :
    (k i : ℕ) (f : Sender → Connection) (c : Connection)
    → i < k
    → live k (update f i c) + weight (f i).phase ≡ live k f + weight c.phase
live-update zero i f c h = absurd (omega arith)
live-update (suc k) i f c h = elim (Bool-cases (i == k)) [
  | inl hit ↦
      let same : i ≡ k = (==_iff i k).0 hit in
      let counted : weight c.phase + live k (update f i c) + weight (f i).phase
          ≡ weight (f k).phase + live k f + weight c.phase =
        omega (
          arith,
          live-update_above k i f c (omega arith),
          ap (λ (m : ℕ). weight (f m).phase) same,
        ) in
      rw hit counted
  | inr miss ↦ rw miss (omega (arith, live-update k i f c (ground arith)))
]

module _ {n : Notify} where
  abbrev pub gauge : System n → ℕ
  gauge s = s.gateway.counters.ws_connections_active

  abbrev pub IsExact : System n → Type 0
  IsExact s = gauge s ≡ live s.next s.connections % 2 ^ 64

  -- A running connection that goes on or leaves its loop counts as before.
  resume-IsExact :
      (s : System n) (i : Sender) (f : Flow n)
      → i < s.next
      → weight (s.connections i).phase ≡ 1
      → active (session f) ≡ gauge s
      → IsExact s
      → IsExact (resume s i f)
  unfolding resume
  resume-IsExact s i (goes_on after) lt w e v =
      let count =
        live-update s.next i s.connections
          (record (s.connections i) {
            last_alive = after.last_alive;
            frames = after.frames;
            phase = running;
          })
          lt in
      omega (arith, count)
  resume-IsExact s i (breaks after) lt w e v =
      let count =
        live-update s.next i s.connections
          (record (s.connections i) {
            last_alive = after.last_alive;
            frames = after.frames;
            phase = leaving;
          })
          lt in
      omega (arith, count)

  polled-IsExact :
      (now : ℕ) (sent : Bool) (i : Sender) (p : Poll Bytes) (s : System n)
      → i < s.next
      → weight (s.connections i).phase ≡ 1
      → IsExact s
      → IsExact (polled now sent i p s)
  unfolding polled
  polled-IsExact now sent i (item x) s lt w v =
      resume-IsExact s i _ lt w (active-turn now (outbound (some x) sent) (session_of s i)) v
  polled-IsExact now sent i closed s lt w v =
      resume-IsExact s i _ lt w (active-turn now (outbound none sent) (session_of s i)) v
  polled-IsExact now sent i pending s lt w v = v

  -- A connection is put in its place in a state that differs in no other connection.
  set_connection-live :
      (s : System n) (i : Sender) (c : Connection)
      → i < s.next
      → live s.next (update s.connections i c) + weight (s.connections i).phase
        ≡ live s.next s.connections + weight c.phase
  set_connection-live s i c lt = live-update s.next i s.connections c lt

  counted-IsExact :
      (now : ℕ) (i : Sender) (s : System n)
      → i < s.next
      → weight (s.connections i).phase ≡ 0
      → IsExact s
      → IsExact (counted now i s)
  unfolding counted
  counted-IsExact now i s lt w v =
      let c = record (s.connections i) { last_alive = now; phase = running } in
      omega (arith, set_connection-live s i c lt)

  discounted-IsExact :
      (i : Sender) (s : System n)
      → i < s.next
      → weight (s.connections i).phase ≡ 1
      → IsExact s
      → IsExact (discounted i s)
  unfolding discounted
  discounted-IsExact i s lt w v =
      let c = record (s.connections i) { phase = uncounted } in
      omega (arith, set_connection-live s i c lt)

  left-IsExact :
      (r : Bytes) (o : Option (Bool × Rooms)) (s : System n) → IsExact s → IsExact (left r o s)
  unfolding left
  left-IsExact r none s v = v
  left-IsExact r (some (cleanup, rooms)) s v = v

  pub left-connections :
      (r : Bytes) (o : Option (Bool × Rooms)) (s : System n)
      → ((left r o s).next ≡ s.next) × ((left r o s).connections ≡ s.connections)
  unfolding left
  left-connections r none s = (refl, refl)
  left-connections r (some (cleanup, rooms)) s = (refl, refl)

  removed-IsExact :
      (i : Sender) (s : System n)
      → i < s.next
      → weight (s.connections i).phase ≡ 0
      → IsExact s
      → IsExact (removed i s)
  unfolding removed
  removed-IsExact i s lt w v =
      let c = s.connections i in
      let o = leave s.gateway.shared.rooms c.room c.user in
      let t = left c.room o s in
      let (k, f) = left-connections c.room o s in
      let before : gauge t ≡ live t.next t.connections % 2 ^ 64 = left-IsExact c.room o s v in
      let same : weight (t.connections i).phase ≡ weight (s.connections i).phase =
        ap (λ (h : Sender → Connection). weight (h i).phase) f in
      omega (
        arith,
        before,
        same,
        set_connection-live t i (record c { phase = unregistered }) (omega (arith, k)),
      )

  finished-IsExact :
      (sent : Bool) (i : Sender) (s : System n)
      → i < s.next
      → weight (s.connections i).phase ≡ 0
      → IsExact s
      → IsExact (finished sent i s)
  unfolding finished
  finished-IsExact sent i s lt w v =
      let c = record (s.connections i) {
        frames = (s.connections i).frames ++ best_effort_close sent;
        phase = done;
      } in
      omega (arith, set_connection-live s i c lt)

  opened-IsExact : (r u : Bytes) (s : System n) → IsExact s → IsExact (opened r u s)
  unfolding opened
  opened-IsExact r u s v =
      let c : Connection = record {
        room = r;
        user = u;
        last_alive = 0;
        frames = [];
        phase = registered;
      } in
      let rest = live-update_above s.next s.next s.connections c (omega arith) in
      rw (==_refl s.next) (
        let kept : gauge s ≡ (0 + live s.next (update s.connections s.next c)) % 2 ^ 64 =
          omega (arith, rest) in
        kept)

  active-udp_turn :
      (r : Option Bytes) (g : Gateway n)
      → (udp_turn r g).counters.ws_connections_active ≡ g.counters.ws_connections_active
  unfolding udp_turn udp_decoded
  active-udp_turn none g = refl
  active-udp_turn (some raw) g = ground arith

  module _ (iteration : Iteration) where
    Step-IsExact : {s t : System n} → Step iteration s t → IsExact s → IsExact t
    Step-IsExact {s} (hears r b) v = active-udp_turn r s.gateway ∙ v
    Step-IsExact {s} (opens r u h) v = opened-IsExact r u s v
    Step-IsExact {s} (counts i now lt at_start) v =
        counted-IsExact now i s lt (ap weight at_start) v
    Step-IsExact {s} (reads i now e lt run input) v =
        resume-IsExact s i (turn now e (session_of s i)) lt (ap weight run)
          (active-turn now e (session_of s i)) v
    Step-IsExact {s} (receives i now sent p c lt run e) v =
        polled-IsExact now sent i p (set_channel s i c) lt (ap weight run) v
    Step-IsExact {s} (discounts i lt out) v = discounted-IsExact i s lt (ap weight out) v
    Step-IsExact {s} (leaves i lt out) v = removed-IsExact i s lt (ap weight out) v
    Step-IsExact {s} (closes i sent lt out) v = finished-IsExact sent i s lt (ap weight out) v
    Step-IsExact {s} (cleans r before after e) v = v
    Step-IsExact {s} (resolves h payload before after e) v = v
    Step-IsExact {s} (delivers d before after e) v = v
    Step-IsExact {s} (retries t before after e) v = v
    Step-IsExact {s} (gives_up t before after returned e f) v =
        let rest = set_shared s (record s.gateway.shared { retries = before ++ after }) in
        left-IsExact t.room_id (leave s.gateway.shared.rooms t.room_id t.user_id) rest v

    -- In every state that the gateway reaches, the gauge of active connections is the number of the
    -- connections whose task has counted them and not yet taken them off the gauge, modulo 2^64.
    pub gauge_exact :
        (s : System n)
        → Reach iteration s
        → s.gateway.counters.ws_connections_active ≡ live s.next s.connections % 2 ^ 64
    unfolding init
    gauge_exact s start = omega arith
    gauge_exact s (later r st) = Step-IsExact st (gauge_exact _ r)
