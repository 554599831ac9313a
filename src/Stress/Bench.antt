-- ===== src/Stress/Bench.antt =====
-- examples/stress.rs, `main`: what a run reads from its clients. Every write to a socket succeeds
-- here; what `ws.next()` gives is a stream for each client, with the microseconds that a read takes.
pub mod Lag
pub mod Finish
use ws_gateway.Common.{
  ℕ, zero, suc, Option, none, some, List, [], ◌∷◌, ◌++◌, map, drop, ◌≡◌, refl, Bool, ltb, ◌*◌, ◌^◌,
  ◌%◌, if◌then◌else◌,
}
use ws_gateway.Decimal.{decimal}
use ws_gateway.Protocol.Fields.{Bytes}
use ws_gateway.Stress.{run, ◌>>=◌, bench}
use ws_gateway.Stress.Report.{Scaling, Report, report}

-- A frame with the time that the read took, or an error. The end of the list is `None`.
pub data Arrival : Type 0 where
  frame : Bytes → ℕ → Arrival
  failed : Arrival

abbrev pub Stream : Type 0
Stream = List Arrival

-- "ws://127.0.0.1:", "/ws?room=bench&user="
abbrev pub host : Bytes
host = 119 ∷ 115 ∷ 58 ∷ 47 ∷ 47 ∷ 49 ∷ 50 ∷ 55 ∷ 46 ∷ 48 ∷ 46 ∷ 48 ∷ 46 ∷ 49 ∷ 58 ∷ []

abbrev pub query : Bytes
query =
    47 ∷ 119 ∷ 115 ∷ 63 ∷ 114 ∷ 111 ∷ 111 ∷ 109 ∷ 61 ∷ bench ++ 38 ∷ 117 ∷ 115 ∷ 101 ∷ 114 ∷ 61 ∷ []

unfoldable pub base : ℕ → Bytes
base ws = host ++ (decimal ws ++ query)

-- The address that the client `i` connects to: its user is the number.
unfoldable pub url_str : ℕ → ℕ → Bytes
unfolding base
url_str ws i = base ws ++ decimal i

-- The warm-up reads once from each client, whatever comes.
unfoldable pub drain_each : List Stream → List Stream
drain_each streams = map (λ s. drop 1 s) streams

-- A measured read: `none` is the panic at an error or at the end of the stream.
unfoldable pub receive : Stream → Option ((Bytes × ℕ) × Stream)
receive [] = none
receive (failed ∷ s) = none
receive (frame x micros ∷ s) = some ((x, micros), s)

unfoldable pub receive_each : List Stream → Option (List (Bytes × ℕ) × List Stream)
receive_each [] = some ([], [])
receive_each (s ∷ streams) = do
  (got, s') ← receive s
  (rest, streams') ← receive_each streams
  some (got ∷ rest, s' ∷ streams')

-- What each of the measured rounds reads.
unfoldable pub measure : ℕ → List Stream → Option (List (List (Bytes × ℕ)))
measure zero streams = some []
measure (suc m) streams = do
  (got, streams') ← receive_each streams
  later ← measure m streams'
  some (got ∷ later)

-- All latencies, in the order in which they are pushed.
unfoldable pub latencies_us : List (List (Bytes × ℕ)) → List ℕ
latencies_us [] = []
latencies_us (got ∷ later) = map (λ g. g.1) got ++ latencies_us later

-- A product of two `usize`. One that does not fit panics where the build has overflow checks, as
-- `cargo run` without `--release` has them, and wraps around otherwise.
unfoldable pub mul_usize : Bool → ℕ → ℕ → Option ℕ
mul_usize checks a b =
    if ltb (a * b) (2 ^ 64) then some (a * b) else if checks then none else some (a * b % 2 ^ 64)

-- `Vec::with_capacity(k)` for numbers of eight bytes: more than `isize::MAX` bytes are refused with
-- a panic, and what the allocator does not have ends the process. `allocates` says which numbers of
-- bytes it has. The other allocations of a run succeed here.
unfoldable pub with_capacity : (ℕ → Bool) → ℕ → Option (Unit {0})
with_capacity allocates k =
    if ltb (8 * k) (2 ^ 63) then (if allocates (8 * k) then some tt else none) else none

-- The run to its report; `none` is its end without one. The product is taken for the banner, for
-- the capacity and for the throughput.
unfoldable pub main : Scaling → Bool → (ℕ → Bool) → ℕ → ℕ → List Stream → Option Report
unfolding mul_usize with_capacity
main s checks allocates clients messages streams = do
  total ← mul_usize checks clients messages
  wires ← run clients messages
  capacity ← with_capacity allocates total
  rounds ← measure messages (drain_each streams)
  report s (latencies_us rounds)
