-- ===== src/Network/Heartbeat.antt =====
-- The heartbeat of `handle_ws_connection` in src/network.rs: silent clients and clients that answer.
use ws_gateway.Common.{
  ℕ, ◌+◌, ◌-◌, ◌≤◌, ◌<◌, ◌≡◌, inl, inr, refl, ap, ◌∙◌, true, false, none, some, List, [], ◌∷◌, ◌++◌,
  arith, ltb, ltb-eq-false, Bool-cases,
}
use ws_gateway.Channel.{Notify}
use ws_gateway.Network.{
  Session, Event, goes_on, breaks, message_binary, message_pong, message_ping, message_text,
  message_closed, message_failed, outbound, tick, others, turn, loop, ping_interval, pong_timeout,
  fetch_add, count_timeout, ping,
}

module _ {n : Notify} where
  -- Events of a silent client whose socket takes what is written, with a tick at most
  -- `ping_interval` after the one before.
  abbrev pub Silent : ℕ → List (ℕ × Event n) → Type 0
  Silent t [] = Unit {0}
  Silent t ((now, outbound (some bytes) true) ∷ es) = Silent t es
  Silent t ((now, others shared) ∷ es) = Silent t es
  Silent t ((now, tick true) ∷ es) = (now ≤ t + ping_interval) × Silent now es
  Silent t ((now, _) ∷ es) = ⊥

  -- The time of the last tick.
  abbrev pub last_tick : ℕ → List (ℕ × Event n) → ℕ
  last_tick t [] = t
  last_tick t ((now, tick sent) ∷ es) = last_tick now es
  last_tick t ((now, _) ∷ es) = last_tick t es

  -- A client that answers: no message ends the connection, every write succeeds, and at each tick
  -- the last message is at most `pong_timeout` old.
  abbrev pub Alive : ℕ → List (ℕ × Event n) → Type 0
  Alive seen [] = Unit {0}
  Alive seen ((now, message_binary raw) ∷ es) = Alive now es
  Alive seen ((now, message_pong) ∷ es) = Alive now es
  Alive seen ((now, message_ping) ∷ es) = Alive now es
  Alive seen ((now, message_text) ∷ es) = Alive now es
  Alive seen ((now, outbound (some bytes) true) ∷ es) = Alive seen es
  Alive seen ((now, others shared) ∷ es) = Alive seen es
  Alive seen ((now, tick true) ∷ es) = (now ≤ seen + pong_timeout) × Alive seen es
  Alive seen ((now, _) ∷ es) = ⊥

  -- A loop goes on through any events in which no message ends the connection, every write
  -- succeeds, and each tick is at most 30 seconds after the last message.
  pub Alive-stays :
      (es : List (ℕ × Event n)) (s : Session n)
      → Alive s.last_alive es
      → (s' : Session n) × (loop es s ≡ goes_on s')
  unfolding loop turn
  Alive-stays [] s h = (s, refl)
  Alive-stays ((now, message_binary raw) ∷ es) s h = Alive-stays es _ h
  Alive-stays ((now, message_pong) ∷ es) s h = Alive-stays es _ h
  Alive-stays ((now, message_ping) ∷ es) s h = Alive-stays es _ h
  Alive-stays ((now, message_text) ∷ es) s h = Alive-stays es _ h
  Alive-stays ((now, others shared) ∷ es) s h = Alive-stays es _ h
  Alive-stays ((now, outbound (some bytes) true) ∷ es) s h = Alive-stays es _ h
  Alive-stays ((now, outbound (some bytes) false) ∷ es) s h = elim h [ ]
  Alive-stays ((now, outbound none sent) ∷ es) s h = elim h [ ]
  Alive-stays ((now, message_closed) ∷ es) s h = elim h [ ]
  Alive-stays ((now, message_failed) ∷ es) s h = elim h [ ]
  Alive-stays ((now, tick false) ∷ es) s h = elim h [ ]
  Alive-stays ((now, tick true) ∷ es) s h =
      rw (ltb-eq-false pong_timeout (now - s.last_alive) (let h' = h.0 in omega arith), loop)
        (Alive-stays es _ h.1)

  -- How silence is detected: the loop still runs before a tick that is more than `pong_timeout` and
  -- at most `pong_timeout + ping_interval` after the last message, ends at it, and counts a timeout.
  pub record Detected (s : Session n) (es : List (ℕ × Event n)) : Type 0 where
    pub before : List (ℕ × Event n)
    pub now : ℕ
    pub rest : List (ℕ × Event n)
    pub running : Session n
    pub ended : Session n
    pub split : es ≡ before ++ (now, tick true) ∷ rest
    pub late : s.last_alive + pong_timeout < now
    pub soon : now ≤ s.last_alive + pong_timeout + ping_interval
    pub runs : loop before s ≡ goes_on running
    pub ends : loop es s ≡ breaks ended
    pub counted :
        ended.gateway.counters.ws_pong_timeouts ≡ fetch_add s.gateway.counters.ws_pong_timeouts

  pub loop-goes_on :
      (now : ℕ) (e : Event n) (es : List (ℕ × Event n)) (s s' : Session n)
      → turn now e s ≡ goes_on s'
      → loop ((now, e) ∷ es) s ≡ loop es s'
  unfolding loop
  loop-goes_on now e es s s' p = rw (p, loop) refl

  Detected-cons :
      (now : ℕ) (e : Event n) (es : List (ℕ × Event n)) (s s' : Session n)
      → turn now e s ≡ goes_on s'
      → s'.last_alive ≡ s.last_alive
      → s'.gateway.counters.ws_pong_timeouts ≡ s.gateway.counters.ws_pong_timeouts
      → Detected s' es
      → Detected s ((now, e) ∷ es)
  Detected-cons now e es s s' p same_alive same_count d = record {
    before = (now, e) ∷ d.before;
    now = d.now;
    rest = d.rest;
    running = d.running;
    ended = d.ended;
    split = ap (λ r. (now, e) ∷ r) d.split;
    late = omega (arith, d.late);
    soon = omega (arith, d.soon);
    runs = loop-goes_on now e d.before s s' p ∙ d.runs;
    ends = loop-goes_on now e es s s' p ∙ d.ends;
    counted = omega (arith, d.counted);
  }

  -- A silent client whose socket takes what is written, with ticks at most 10 seconds apart
  -- that go on past 30 seconds after its last message, is disconnected by a tick that is later
  -- than 30 seconds and at most 40 seconds after that message; the loop runs before it, and the
  -- timeout is counted.
  pub silence-Detected :
      (es : List (ℕ × Event n)) (t : ℕ) (s : Session n)
      → Silent t es
      → t ≤ s.last_alive + pong_timeout
      → s.last_alive + pong_timeout < last_tick t es
      → Detected s es
  unfolding loop turn
  silence-Detected [] t s q h past = absurd (omega arith)
  silence-Detected ((now, others shared) ∷ es) t s q h past =
      Detected-cons now (others shared) es s _ refl refl refl (silence-Detected es t _ q h past)
  silence-Detected ((now, outbound (some bytes) true) ∷ es) t s q h past =
      Detected-cons now (outbound (some bytes) true) es s _ refl refl refl
        (silence-Detected es t _ q h past)
  silence-Detected ((now, tick true) ∷ es) t s q h past =
      elim (Bool-cases (ltb pong_timeout (now - s.last_alive))) [
        | inl over ↦
            let close_enough = q.0 in
            record {
              before = [];
              now = now;
              rest = es;
              running = s;
              ended = count_timeout (record s { frames = s.frames ++ ping ∷ [] });
              split = refl;
              late = ground arith;
              soon = omega arith;
              runs = refl;
              ends = rw (over, loop) refl;
              counted = refl;
            }
        | inr early ↦
            let pinged = record s { frames = s.frames ++ ping ∷ [] } in
            Detected-cons now (tick true) es s pinged (rw early refl) refl refl
              (silence-Detected es now pinged q.1 (ground arith) past)
      ]
  silence-Detected ((now, outbound (some bytes) false) ∷ es) t s q h past = elim q [ ]
  silence-Detected ((now, outbound none sent) ∷ es) t s q h past = elim q [ ]
  silence-Detected ((now, message_binary raw) ∷ es) t s q h past = elim q [ ]
  silence-Detected ((now, message_pong) ∷ es) t s q h past = elim q [ ]
  silence-Detected ((now, message_ping) ∷ es) t s q h past = elim q [ ]
  silence-Detected ((now, message_text) ∷ es) t s q h past = elim q [ ]
  silence-Detected ((now, message_closed) ∷ es) t s q h past = elim q [ ]
  silence-Detected ((now, message_failed) ∷ es) t s q h past = elim q [ ]
  silence-Detected ((now, tick false) ∷ es) t s q h past = elim q [ ]
