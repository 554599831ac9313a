-- ===== src/Stress/Bench/Lag.antt =====
-- examples/stress.rs: which packet a measured read brings, and when it was sent.
use mathlib.Core.List.{append_assoc}
use ws_gateway.Common.{
  ℕ, zero, suc, ◌+◌, ◌*◌, ◌^◌, ◌<◌, ◌≤◌, ◌≡◌, refl, ap, sym, ◌∙◌, inl, inr, some, List, [], ◌∷◌,
  ◌++◌, length, arith, get_or, get_elem?, get_elem?-get_or, All, Option-cases,
}
use ws_gateway.Protocol.Fields.{Bytes}
use ws_gateway.Stress.{run, rounds, send_each, warm, user, msg}
use ws_gateway.Decimal.{decimal}
use ws_gateway.Stress.Limit.{run-sends}
use ws_gateway.Stress.Bench.{frame, failed, Stream, drain_each, receive, receive_each, measure}

-- The stream starts with these packets, in this order.
abbrev pub Carries : List Bytes → Stream → Type 0
Carries [] s = Unit {0}
Carries (x ∷ xs) [] = ⊥
Carries (x ∷ xs) (failed ∷ s) = ⊥
Carries (x ∷ xs) (frame y micros ∷ s) = (y ≡ x) × Carries xs s

-- Every read of the first round brought the first packet, and so on.
abbrev Reads : List Bytes → List (List (Bytes × ℕ)) → Type 0
Reads ws [] = Unit {0}
Reads [] (got ∷ later) = ⊥
Reads (w ∷ ws) (got ∷ later) = All (λ g. g.0 ≡ w) got × Reads ws later

receive_each-Carries :
    (w : Bytes) (ws : List Bytes) (streams : List Stream)
    → All (Carries (w ∷ ws)) streams
    → (got : List (Bytes × ℕ)) × (rest : List Stream) × (receive_each streams ≡ some (got, rest))
      × All (λ g. g.0 ≡ w) got
      × All (Carries ws) rest
unfolding receive_each receive
receive_each-Carries w ws [] h = ([], [], refl, tt, tt)
receive_each-Carries w ws ([] ∷ streams) h = absurd h.0
receive_each-Carries w ws ((failed ∷ s) ∷ streams) h = absurd h.0
receive_each-Carries w ws ((frame y micros ∷ s) ∷ streams) h =
    let (got, rest, e, same, more) = receive_each-Carries w ws streams h.1 in
    ((y, micros) ∷ got, s ∷ rest, rw e refl, (h.0.0, same), (h.0.1, more))

measure-Reads :
    (m : ℕ) (ws : List Bytes) (streams : List Stream)
    → m ≤ length ws
    → All (Carries ws) streams
    → (all : List (List (Bytes × ℕ))) × (measure m streams ≡ some all)
      × (length all ≡ m)
      × Reads ws all
unfolding measure
measure-Reads zero ws streams l h = ([], refl, refl, tt)
measure-Reads (suc m) [] streams l h = absurd (omega arith)
measure-Reads (suc m) (w ∷ ws) streams l h =
    let (got, rest, e, same, more) = receive_each-Carries w ws streams h in
    let (later, e', n, reads) = measure-Reads m ws rest (omega arith) more in
    (got ∷ later, rw (e, e') refl, ap suc n, (same, reads))

drain_each-Carries :
    (w : Bytes) (ws : List Bytes) (streams : List Stream)
    → All (Carries (w ∷ ws)) streams
    → All (Carries ws) (drain_each streams)
unfolding drain_each
drain_each-Carries w ws [] h = tt
drain_each-Carries w ws ([] ∷ streams) h = absurd h.0
drain_each-Carries w ws ((failed ∷ s) ∷ streams) h = absurd h.0
drain_each-Carries w ws ((frame y micros ∷ s) ∷ streams) h =
    (h.0.1, drain_each-Carries w ws streams h.1)

Reads-at :
    (r : ℕ) (ws : List Bytes) (all : List (List (Bytes × ℕ)))
    → r < length all
    → Reads ws all
    → (got : List (Bytes × ℕ)) × (get_elem? all r ≡ some got) × All (λ g. g.0 ≡ get_or ws r []) got
Reads-at r ws [] lt h = absurd (omega arith)
Reads-at r [] (got ∷ later) lt h = absurd h
Reads-at zero (w ∷ ws) (got ∷ later) lt h = (got, refl, h.0)
Reads-at (suc r) (w ∷ ws) (got ∷ later) lt h = Reads-at r ws later (omega arith) h.1

-- The packets of fewer rounds come first.
rounds-prefix :
    (clients round a n : ℕ) (ws : List Bytes)
    → a ≤ n
    → rounds clients round n ≡ some ws
    → (early : List Bytes) × (late : List Bytes) × (rounds clients round a ≡ some early)
      × (ws ≡ early ++ late)
unfolding rounds
rounds-prefix clients round zero n ws le e = ([], ws, refl, refl)
rounds-prefix clients round (suc a) zero ws le e = absurd (omega arith)
rounds-prefix clients round (suc a) (suc n) ws le e =
    elim (Option-cases (send_each user (msg ++ decimal round) 0 clients)) [
      | inl panics ↦ absurd (ground arith)
      | inr (wires, sent) ↦ elim (Option-cases (rounds clients (round + 1) n)) [
        | inl panics ↦ absurd (ground arith)
        | inr (rest, later) ↦
            let (early, late, begins, split) =
              rounds-prefix clients (round + 1) a n rest (omega arith) later in
            let whole : wires ++ rest ≡ ws = ground arith in
            (
              wires ++ early,
              late,
              rw (sent, begins) refl,
              sym whole ∙ ap (λ l. wires ++ l) split ∙ sym (append_assoc wires early late),
            )
      ]
    ]

run-prefix :
    (clients r messages : ℕ) (ws : List Bytes)
    → r ≤ messages
    → run clients messages ≡ some ws
    → (early : List Bytes) × (late : List Bytes) × (run clients r ≡ some early)
      × (ws ≡ early ++ late)
unfolding run
run-prefix clients r messages ws le e = elim (Option-cases (send_each warm warm 0 clients)) [
  | inl panics ↦ absurd (ground arith)
  | inr (warmed, sent) ↦ elim (Option-cases (rounds clients 0 messages)) [
    | inl panics ↦ absurd (ground arith)
    | inr (rest, later) ↦
        let (early, late, begins, split) = rounds-prefix clients 0 r messages rest le later in
        let whole : warmed ++ rest ≡ ws = ground arith in
        (
          warmed ++ early,
          late,
          rw (sent, begins) refl,
          sym whole ∙ ap (λ l. warmed ++ l) split ∙ sym (append_assoc warmed early late),
        )
  ]
]

get_or-append :
    (i : ℕ) (xs ys : List Bytes) → i < length xs → get_or (xs ++ ys) i [] ≡ get_or xs i []
get_or-append i [] ys h = absurd (omega arith)
get_or-append zero (x ∷ xs) ys h = refl
get_or-append (suc i) (x ∷ xs) ys h = get_or-append i xs ys (omega arith)

-- With two clients or more, what is sent before a round is more than the rounds read so far.
enough : (clients r : ℕ) → 2 ≤ clients → suc r < clients + r * clients
enough clients r h = grind arith

enough_read : (clients messages : ℕ) → 2 ≤ clients → suc messages ≤ clients + messages * clients
enough_read clients messages h = grind arith

-- A read of the round `r` brings a packet that a run of only `r` rounds has sent.
pub record IsStale (clients r : ℕ) (all : List (List (Bytes × ℕ))) : Type 0 where
  pub earlier : List Bytes
  pub packet : Bytes
  pub got : List (Bytes × ℕ)
  pub sent_before : run clients r ≡ some earlier
  pub among : get_elem? earlier (suc r) ≡ some packet
  pub reads : get_elem? all r ≡ some got
  pub brings : All (λ g. g.0 ≡ packet) got

module _ (clients messages : ℕ) (two : 2 ≤ clients) (fits : clients ≤ 10000)
    (m : messages ≤ 2 ^ 64) where
  IsStale-at :
      (first : Bytes) (ws : List Bytes) (all : List (List (Bytes × ℕ)))
      → run clients messages ≡ some (first ∷ ws)
      → length all ≡ messages
      → Reads ws all
      → (r : ℕ) → r < messages
      → IsStale clients r all
  IsStale-at first ws all e n reads r lt =
      let (early, late, begins, split) =
        run-prefix clients r messages (first ∷ ws) (omega arith) e in
      let (wires, sent, count, _) = run-sends clients r fits (omega arith) in
      let same : wires ≡ early = ground arith in
      let long : suc r < length early = omega (arith, ap (length {0}) same, enough clients r two) in
      let (got, there, brings) = Reads-at r ws all (omega arith) reads in
      let one : get_or ws r [] ≡ get_or early (suc r) [] =
        ap (λ l. get_or l (suc r) []) split ∙ get_or-append (suc r) early late long in
      record {
        earlier = early;
        packet = get_or early (suc r) [];
        got = got;
        sent_before = begins;
        among = get_elem?-get_or early (suc r) [] long;
        reads = there;
        brings = rw one at brings;
      }

  -- The defect: with at least two clients, where each client is given the packets of the run in the
  -- order in which they are sent, every frame whose arrival a round measures is one that was sent
  -- before the round, in the warm-up or in an earlier round: what is reported are no round trips.
  pub measure-IsStale :
      (wires : List Bytes) (streams : List Stream)
      → run clients messages ≡ some wires
      → All (Carries wires) streams
      → (all : List (List (Bytes × ℕ))) × (measure messages (drain_each streams) ≡ some all)
        × ((r : ℕ) → r < messages → IsStale clients r all)
  measure-IsStale [] streams e h =
      let (wires, sent, count, _) = run-sends clients messages fits m in
      let none_sent : wires ≡ [] = ground arith in absurd (omega (arith, ap (length {0}) none_sent))
  measure-IsStale (first ∷ ws) streams e h =
      let (wires, sent, count, _) = run-sends clients messages fits m in
      let same : wires ≡ first ∷ ws = ground arith in
      let long : messages ≤ length ws =
        omega (arith, ap (length {0}) same, enough_read clients messages two) in
      let (all, got, n, reads) =
        measure-Reads messages ws (drain_each streams) long
          (drain_each-Carries first ws streams h) in
      (all, got, IsStale-at first ws all e n reads)
