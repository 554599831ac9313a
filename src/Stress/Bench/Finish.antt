-- ===== src/Stress/Bench/Finish.antt =====
-- examples/stress.rs: a run that gets its frames ends with a report.
use ws_gateway.Common.{
  ℕ, zero, suc, ◌*◌, ◌^◌, ◌≤◌, ◌≡◌, refl, ap, inl, inr, some, List, [], ◌∷◌, map, length,
  length-append, arith, All, Bool, true, ltb, lt→ltb, ◌<◌,
}
use ws_gateway.Protocol.Fields.{Bytes}
use ws_gateway.Stress.Limit.{run-sends}
use ws_gateway.Stress.Report.{Scaling, Report}
use ws_gateway.Stress.Report.Order.{IsReport, report_cases}
use ws_gateway.Stress.Bench.{
  frame, failed, Stream, drain_each, receive, receive_each, measure, latencies_us, mul_usize,
  with_capacity, main,
}

-- At least so many frames come before an error or the end.
abbrev pub Frames : ℕ → Stream → Type 0
Frames zero s = Unit {0}
Frames (suc k) [] = ⊥
Frames (suc k) (failed ∷ s) = ⊥
Frames (suc k) (frame x micros ∷ s) = Frames k s

drain_each-Frames :
    (k : ℕ) (streams : List Stream)
    → All (Frames (suc k)) streams
    → All (Frames k) (drain_each streams) × (length (drain_each streams) ≡ length streams)
unfolding drain_each
drain_each-Frames k [] h = (tt, refl)
drain_each-Frames k ([] ∷ streams) h = absurd h.0
drain_each-Frames k ((failed ∷ s) ∷ streams) h = absurd h.0
drain_each-Frames k ((frame x micros ∷ s) ∷ streams) h =
    let (more, same) = drain_each-Frames k streams h.1 in ((h.0, more), ap suc same)

receive_each-Frames :
    (k : ℕ) (streams : List Stream)
    → All (Frames (suc k)) streams
    → (got : List (Bytes × ℕ)) × (rest : List Stream) × (receive_each streams ≡ some (got, rest))
      × (length got ≡ length streams)
      × (length rest ≡ length streams)
      × All (Frames k) rest
unfolding receive_each receive
receive_each-Frames k [] h = ([], [], refl, refl, refl, tt)
receive_each-Frames k ([] ∷ streams) h = absurd h.0
receive_each-Frames k ((failed ∷ s) ∷ streams) h = absurd h.0
receive_each-Frames k ((frame x micros ∷ s) ∷ streams) h =
    let (got, rest, e, n, n', more) = receive_each-Frames k streams h.1 in
    ((x, micros) ∷ got, s ∷ rest, rw e refl, ap suc n, ap suc n', (h.0, more))

length-map : (got : List (Bytes × ℕ)) → length (map (λ g. g.1) got) ≡ length got
length-map [] = refl
length-map (g ∷ got) = ap suc (length-map got)

measure-Frames :
    (m : ℕ) (streams : List Stream)
    → All (Frames m) streams
    → (all : List (List (Bytes × ℕ))) × (measure m streams ≡ some all)
      × (length (latencies_us all) ≡ m * length streams)
unfolding measure latencies_us
measure-Frames zero streams h = ([], refl, omega arith)
measure-Frames (suc m) streams h =
    let (got, rest, e, n, n', more) = receive_each-Frames m streams h in
    let (later, e', count) = measure-Frames m rest more in
    (
      got ∷ later,
      rw (e, e') refl,
      grind (
        arith,
        length-append (map (λ g. g.1) got) (latencies_us later),
        length-map got,
        count,
        n,
        n',
      ),
    )

some_measured : (m clients : ℕ) → 1 ≤ m → 1 ≤ clients → 1 ≤ m * clients
some_measured m clients h k = grind arith

few_rounds : (clients messages : ℕ) → 1 ≤ clients → messages ≤ clients * messages
few_rounds clients messages c = grind arith

-- A product whose bytes are below 2^63 fits a `usize`, and the allocator is asked for them.
reserves :
    (checks : Bool) (allocates : ℕ → Bool) (clients messages : ℕ)
    → 8 * (clients * messages) < 2 ^ 63
    → allocates (8 * (clients * messages)) ≡ true
    → (mul_usize checks clients messages ≡ some (clients * messages))
      × (with_capacity allocates (clients * messages) ≡ some tt)
unfolding mul_usize with_capacity
reserves checks allocates clients messages small granted =
    let product : ltb (clients * messages) (2 ^ 64) ≡ true = lt→ltb _ _ (omega (arith, small)) in
    let bytes : ltb (8 * (clients * messages)) (2 ^ 63) ≡ true = lt→ltb _ _ small in
    (rw product refl, rw (bytes, granted) refl)

-- With 1 to 10000 clients and at least one round, where eight bytes for each message are below 2^63
-- bytes and the allocator has them, and each client is given a frame for the warm-up and one for
-- each round before any error, the run ends with a report, with overflow checks or without, on as
-- many latencies as there are messages: measured values in order, the extremes among them.
pub main-reports :
    (s : Scaling) (checks : Bool) (allocates : ℕ → Bool) (clients messages : ℕ)
    (streams : List Stream)
    → 1 ≤ clients
    → clients ≤ 10000
    → 1 ≤ messages
    → 8 * (clients * messages) < 2 ^ 63
    → allocates (8 * (clients * messages)) ≡ true
    → length streams ≡ clients
    → All (Frames (suc messages)) streams
    → (all : List (List (Bytes × ℕ))) × (r : Report) × (measure messages (drain_each streams)
        ≡ some all)
      × (length (latencies_us all) ≡ messages * clients)
      × (main s checks allocates clients messages streams ≡ some r)
      × IsReport (latencies_us all) r
unfolding main
main-reports s checks allocates clients messages streams c fits m small granted l h =
    let (total, room) = reserves checks allocates clients messages small granted in
    let rounds = few_rounds clients messages c in
    let (wires, sent, _, _) = run-sends clients messages fits (omega (arith, small, rounds)) in
    let (ready, same) = drain_each-Frames messages streams h in
    let (all, got, n) = measure-Frames messages (drain_each streams) ready in
    let count : length (latencies_us all) ≡ messages * clients = ground arith in
    elim (report_cases s (latencies_us all)) [
      | inl (nothing, panics) ↦
          absurd (omega (arith, ap (length {0}) nothing, some_measured messages clients m c))
      | inr (r, made, good) ↦ (all, r, got, count, rw (total, sent, room, got) made, good)
    ]
