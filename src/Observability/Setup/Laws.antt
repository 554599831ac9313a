-- ===== src/Observability/Setup/Laws.antt =====
-- `init_metrics` of src/observability.rs: what it sets up serves every helper, and it acts once.
use mathlib.Core.List.{Memᴰ}
use mathlib.Core.List.Memᴰ
use ws_gateway.Common.{ℕ, ◌≡◌, refl, Bool, true, false, some, List, [], ◌∷◌, ◌++◌}
use Prim.Native.String.{String}
use ws_gateway.Observability.Setup.{
  updated, returned, metric_active_connections_set, metric_active_rooms_set, metric_route_latency,
  Call, Kind, MetricUnit, Setup, Attempt, init_metrics, init_all, descriptions, zeros, listen,
  describe, install_recorder, serve, info_listening, Recording, active_connections, active_rooms,
  packet_routed, packet_dropped, packet_dropped_decode, route_latency, recorded, IsSetUp,
}

by_calls :
    {F : Type 0} {c initial : Call F} {calls : List (Call F)} {kind : Kind} {name : String}
    {unit : MetricUnit} {text : String}
    → Memᴰ (describe kind name unit text) calls
    → Memᴰ initial calls
    → updated c ≡ some (kind, name)
    → updated initial ≡ some (kind, name)
    → IsSetUp c calls
by_calls {c} {initial} {calls} {kind} {name} {unit} {text} d z p q = record {
  kind = kind;
  name = name;
  metric = p;
  unit = unit;
  text = text;
  described = d;
  initial = initial;
  zeroed = z;
  same_metric = q;
}

module _ (F : Type 0) (as_f64 : ℕ → F) where
  again :
      (installs listens : Bool) (addr : ℕ) (s : Setup F)
      → s.metrics_init ≡ true
      → init_metrics F as_f64 installs listens addr s ≡ (s, returned)
  unfolding init_metrics
  again installs listens addr s h = simp h

  abbrev served : ℕ → Setup F → Setup F
  served addr s = record s {
    metrics_init = true;
    calls =
        ((s.calls ++ (descriptions F as_f64 ++ install_recorder ∷ []))
          ++ (zeros F as_f64 ++ listen addr ∷ []))
        ++ serve addr ∷ info_listening addr ∷ [];
  }

  first_time :
      (addr : ℕ) (s : Setup F)
      → s.metrics_init ≡ false
      → init_metrics F as_f64 true true addr s ≡ (served addr s, returned)
  unfolding init_metrics
  first_time addr s h = simp h

  -- Once it has been called, `init_metrics` does nothing more.
  init_all-once :
      (more : List (Attempt F as_f64)) (s : Setup F)
      → s.metrics_init ≡ true
      → init_all F as_f64 more s ≡ s
  unfolding init_all
  init_all-once [] s h = refl
  init_all-once (a ∷ more) s h = rw (again a.installs a.listens a.addr s h) (init_all-once more s h)

  -- What a helper updates is in every list of calls that has the descriptions and the zeros.
  recorded-IsSetUp :
      (r : Recording F as_f64) (calls : List (Call F))
      → ((c : Call F) → Memᴰ c (descriptions F as_f64) → Memᴰ c calls)
      → ((c : Call F) → Memᴰ c (zeros F as_f64) → Memᴰ c calls)
      → IsSetUp (recorded F as_f64 r) calls
  unfolding recorded metric_active_connections_set metric_active_rooms_set metric_route_latency
  recorded-IsSetUp (active_connections room n) calls d z =
      by_calls (d _ (Memᴰ.head refl)) (z _ (Memᴰ.head refl)) refl refl
  recorded-IsSetUp (active_rooms n) calls d z =
      by_calls (d _ (Memᴰ.tail (Memᴰ.head refl))) (z _ (Memᴰ.tail (Memᴰ.head refl))) refl refl
  recorded-IsSetUp (packet_routed pt t) calls d z =
      by_calls (d _ (Memᴰ.tail (Memᴰ.tail (Memᴰ.head refl))))
        (z _ (Memᴰ.tail (Memᴰ.tail (Memᴰ.head refl)))) refl refl
  recorded-IsSetUp (packet_dropped reason) calls d z =
      by_calls (d _ (Memᴰ.tail (Memᴰ.tail (Memᴰ.tail (Memᴰ.head refl)))))
        (z _ (Memᴰ.tail (Memᴰ.tail (Memᴰ.tail (Memᴰ.head refl))))) refl refl
  recorded-IsSetUp (packet_dropped_decode e) calls d z =
      by_calls (d _ (Memᴰ.tail (Memᴰ.tail (Memᴰ.tail (Memᴰ.head refl)))))
        (z _ (Memᴰ.tail (Memᴰ.tail (Memᴰ.tail (Memᴰ.head refl))))) refl refl
  recorded-IsSetUp (route_latency secs) calls d z =
      by_calls (d _ (Memᴰ.tail (Memᴰ.tail (Memᴰ.tail (Memᴰ.tail (Memᴰ.head refl))))))
        (z _ (Memᴰ.tail (Memᴰ.tail (Memᴰ.tail (Memᴰ.tail (Memᴰ.head refl)))))) refl refl

  -- After a first call of `init_metrics` that returns, and any later calls of it, however they find
  -- their surroundings: every metric that a helper updates has been described under its kind and has
  -- been given a first value, the later calls having called nothing.
  pub init_metrics-IsSetUp :
      (addr : ℕ) (s : Setup F) (more : List (Attempt F as_f64)) (r : Recording F as_f64)
      → s.metrics_init ≡ false
      → let first = (init_metrics F as_f64 true true addr s).0 in
        let after = init_all F as_f64 more first in
        IsSetUp (recorded F as_f64 r) after.calls × (after ≡ first)
  init_metrics-IsSetUp addr s more r h =
      rw (first_time addr s h, init_all-once more (served addr s) refl)
        (
          recorded-IsSetUp r (served addr s).calls
              (λ c m.
                Memᴰ.append_left _
                  (Memᴰ.append_left _ (Memᴰ.append_right s.calls (Memᴰ.append_left _ m))))
              (λ c m. Memᴰ.append_left _ (Memᴰ.append_right _ (Memᴰ.append_left _ m))),
          refl,
        )
