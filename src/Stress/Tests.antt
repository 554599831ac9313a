-- ===== src/Stress/Tests.antt =====
-- The witnesses of the theorems on examples/stress.rs, and runs of its packets.
use ws_gateway.Common.{
  true, ltb, ◌*◌, ◌≤◌, ℕ, ◌/◌, ◌<◌, ◌≡◌, refl, arith, none, some, List, [], ◌∷◌, length, All, map,
  unwrap_or,
}
use ws_gateway.Protocol.Fields.{Bytes}
use ws_gateway.Decimal.{decimal}
use ws_gateway.Stress.{run}
use ws_gateway.Stress.Report.{Scaling, Report, report}
use ws_gateway.Protocol.Header.Display.{codes}
use ws_gateway.Stress.Report.Order.{IsReport}
use ws_gateway.Stress.Bench.{
  Stream, frame, failed, drain_each, measure, latencies_us, main, url_str,
}
use ws_gateway.Stress.Bench.Lag.{Carries, IsStale, measure-IsStale}
use ws_gateway.Stress.Bench.Finish.{main-reports}
use ws_gateway.Stress.Limit.{IsBench, run-sends, run-none}

decimal_2026 : decimal 2026 ≡ 50 ∷ 48 ∷ 50 ∷ 54 ∷ []
unfolding decimal
decimal_2026 = refl

-- Two clients and one round.
two_wires-IsBench :
    (wires : List Bytes) × (run 2 1 ≡ some wires) × (length wires ≡ 4) × All IsBench wires
two_wires-IsBench = run-sends 2 1 (omega arith) (omega arith)

abbrev two_wires : List Bytes
two_wires = unwrap_or (run 2 1) []

run-two_wires : run 2 1 ≡ some two_wires
run-two_wires = rw two_wires-IsBench.1 refl

-- A client that is given each packet after 100 microseconds.
abbrev relayed : List Bytes → Stream
relayed wires = map (λ x. frame x 100) wires

relayed-Carries : (wires : List Bytes) → Carries wires (relayed wires)
relayed-Carries [] = tt
relayed-Carries (x ∷ wires) = (refl, relayed-Carries wires)

measure-IsStale_example :
    (all : List (List (Bytes × ℕ))) × (measure 1
        (drain_each (relayed two_wires ∷ relayed two_wires ∷ []))
      ≡ some all)
    × ((r : ℕ) → r < 1 → IsStale 2 r all)
measure-IsStale_example =
    measure-IsStale 2 1 (omega arith) (omega arith) (omega arith) two_wires
      (relayed two_wires ∷ relayed two_wires ∷ []) run-two_wires
      (relayed-Carries two_wires, (relayed-Carries two_wires, tt))

run-none_example : run 10001 20 ≡ none
run-none_example = run-none 10001 20 (omega arith)

-- The exact products, rounded down.
abbrev exactly : ℕ → ℕ → ℕ
exactly k n = k * n / 1000

exactly-below : (k n : ℕ) → k < 1000 → 0 < n → exactly k n < n
exactly-below k n h pos = grind arith

exactly-grows : (j k n : ℕ) → j ≤ k → exactly j n ≤ exactly k n
exactly-grows j k n h = grind arith

abbrev scaling : Scaling
scaling = record {
  scaled = exactly;
  below = exactly-below;
  grows = exactly-grows;
  half = λ n. omega arith;
}

abbrev latencies : List ℕ
latencies = 30 ∷ 10 ∷ 50 ∷ 20 ∷ 40 ∷ []

report_of_five :
    report scaling latencies
    ≡ some (record { p50 = 30; p90 = 50; p99 = 50; p999 = 50; min = 10; max = 50 })
unfolding report
report_of_five = refl

abbrev two_streams : List Stream
two_streams = (frame [] 10 ∷ frame [] 30 ∷ []) ∷ (frame [] 20 ∷ frame [] 40 ∷ failed ∷ []) ∷ []

main-reports_example :
    (all : List (List (Bytes × ℕ))) × (r : Report) × (measure 1 (drain_each two_streams) ≡ some all)
    × (length (latencies_us all) ≡ 1 * 2)
    × (main scaling true (λ bytes. ltb bytes 1_000_000) 2 1 two_streams ≡ some r)
    × IsReport (latencies_us all) r
main-reports_example =
    main-reports scaling true (λ bytes. ltb bytes 1_000_000) 2 1 two_streams (omega arith)
      (omega arith) (omega arith) (omega arith) refl refl (tt, (tt, tt))

-- "ws://127.0.0.1:8080/ws?room=bench&user=7"
url_of_seven : url_str 8080 7 ≡ codes "ws://127.0.0.1:8080/ws?room=bench&user=7"
unfolding url_str decimal
url_of_seven = refl
