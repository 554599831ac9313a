-- ===== src/Stress/Report.antt =====
-- examples/stress.rs: the percentiles that a run reports. Latencies are whole microseconds, which
-- `f64` holds exactly below 2^53; the throughput and the average, which are not whole, are left out.
pub mod Order
use ws_gateway.Common.{
  ℕ, ◌-◌, ◌/◌, ◌<◌, ◌≤◌, Option, none, some, List, [], ◌∷◌, length, leb, if◌then◌else◌, get_elem?,
}
use ws_gateway.Stress.{◌>>=◌}

-- `sort_by` with the order of the numbers.
pub insert : ℕ → List ℕ → List ℕ
insert x [] = x ∷ []
insert x (y ∷ ys) = let rest = insert x ys in if leb x y then x ∷ y ∷ ys else y ∷ rest

unfoldable pub sort : List ℕ → List ℕ
unfolding insert
sort [] = []
sort (x ∷ xs) = insert x (sort xs)

-- `(n as f64 * 0.90) as usize` and its kin, by the number of thousandths. The product of a length
-- and a factor below one stays below the length, and grows with the factor; nine tenths are no less
-- than the half rounded down.
pub record Scaling : Type 0 where
  pub scaled : ℕ → ℕ → ℕ
  pub below : (k n : ℕ) → k < 1000 → 0 < n → scaled k n < n
  pub grows : (j k n : ℕ) → j ≤ k → scaled j n ≤ scaled k n
  pub half : (n : ℕ) → n / 2 ≤ scaled 900 n

pub record Report : Type 0 where
  pub p50 : ℕ
  pub p90 : ℕ
  pub p99 : ℕ
  pub p999 : ℕ
  pub min : ℕ
  pub max : ℕ

-- `none` is the panic of an index out of bounds. `n - 1` is read last, where `n` is not 0.
unfoldable pub report : Scaling → List ℕ → Option Report
unfolding sort
report s latencies_us = do
  let sorted = sort latencies_us
  let n = length sorted
  p50 ← get_elem? sorted (n / 2)
  p90 ← get_elem? sorted (s.scaled 900 n)
  p99 ← get_elem? sorted (s.scaled 990 n)
  p999 ← get_elem? sorted (s.scaled 999 n)
  min ← get_elem? sorted 0
  max ← get_elem? sorted (n - 1)
  some (record { p50 = p50; p90 = p90; p99 = p99; p999 = p999; min = min; max = max })
