-- ===== src/Observability/Setup.antt =====
-- `init_logging` and `init_metrics` of src/observability.rs, and the helpers that record metrics, by
-- the calls that they make of the `tracing` and `metrics` crates. The floating-point numbers of
-- gauges and histograms are the parameter `F`.
pub mod Laws
use mathlib.Core.List.{Memᴰ}
use Prim.Native.String.{String}
use ws_gateway.Common.{
  ℕ, ◌≡◌, Bool, true, false, Option, none, some, List, [], ◌∷◌, ◌++◌, if◌then◌else◌,
}
use ws_gateway.Protocol.PacketType.{PacketType, raw_motion}
use ws_gateway.Protocol.TargetType.{TargetType, broadcast}
use ws_gateway.Protocol.Header.{DecodeError}
use ws_gateway.Observability.{Key, routed_key, dropped_key, drop_reason_label}

pub data Kind : Type 0 where
  gauge counter histogram : Kind

pub data MetricUnit : Type 0 where
  count seconds : MetricUnit

-- A call of a third-party crate. A filter is its text, an address a number, and the other options of
-- the subscriber are constants.
pub data Call (F : Type 0) : Type 0 where
  install_subscriber : String → Call F
  describe : Kind → String → MetricUnit → String → Call F
  install_recorder : Call F
  set_gauge : Key → F → Call F
  increment : Key → ℕ → Call F
  record_value : Key → F → Call F
  listen : ℕ → Call F
  serve : ℕ → Call F
  info : String → Call F
  -- The line that names the address of the endpoint.
  info_listening : ℕ → Call F

pub record Setup (F : Type 0) : Type 0 where
  pub logging_init : Bool
  pub metrics_init : Bool
  pub calls : List (Call F)

pub data Outcome : Type 0 where
  returned panicked : Outcome

abbrev pub fresh : (F : Type 0) → Setup F
fresh F = record { logging_init = false; metrics_init = false; calls = [] }

abbrev pub default_filter : String
default_filter = "gateway=info,warn"

abbrev pub filter_or_default : Option String → String
filter_or_default none = default_filter
filter_or_default (some filter) = filter

abbrev pub active_connections_key : String → Key
active_connections_key room = ("active_connections_total", ("room", room) ∷ [])

abbrev pub active_rooms_key : Key
active_rooms_key = ("active_rooms_total", [])

abbrev pub route_latency_key : Key
route_latency_key = ("route_latency_seconds", [])

module _ (F : Type 0) (as_f64 : ℕ → F) where
  -- `env` is what `EnvFilter::try_from_default_env` gives.
  unfoldable pub init_logging : Option String → Setup F → Setup F
  init_logging env s = if s.logging_init then s else (record s {
    logging_init = true;
    calls = s.calls ++ install_subscriber (filter_or_default env) ∷ info "logging initialised" ∷ [];
  })

  abbrev pub descriptions : List (Call F)
  descriptions =
      describe gauge "active_connections_total" count
        "Current number of active connections, labelled by room"
      ∷ describe gauge "active_rooms_total" count
          "Current number of distinct rooms with at least one active connection"
      ∷ describe counter "packets_routed_total" count
          "Total number of packets successfully routed, labelled by packet_type and target_type"
      ∷ describe counter "packets_dropped_total" count
          "Total number of packets dropped, labelled by drop reason"
      ∷ describe histogram "route_latency_seconds" seconds
          "End-to-end route latency histogram in seconds"
      ∷ []

  abbrev pub zeros : List (Call F)
  zeros =
      set_gauge (active_connections_key "") (as_f64 0)
      ∷ set_gauge active_rooms_key (as_f64 0)
      ∷ increment (routed_key raw_motion broadcast) 0
      ∷ increment (dropped_key "init") 0
      ∷ record_value route_latency_key (as_f64 0)
      ∷ []

  -- `installs` says whether the recorder can be installed, `listens` whether the address can be bound
  -- and the listener be made.
  unfoldable pub init_metrics : Bool → Bool → ℕ → Setup F → Setup F × Outcome
  init_metrics installs listens addr s =
      let begun = record s {
        metrics_init = true;
        calls = s.calls ++ (descriptions ++ install_recorder ∷ []);
      } in
      let zeroed = record begun { calls = begun.calls ++ (zeros ++ listen addr ∷ []) } in
      let served = record zeroed {
        calls = zeroed.calls ++ serve addr ∷ info_listening addr ∷ [];
      } in
      if s.metrics_init
      then (s, returned)
      else if installs
      then (if listens then (served, returned) else (zeroed, panicked))
      else (begun, panicked)

  -- A call of `init_metrics`, with what its surroundings do.
  pub record Attempt : Type 0 where
    pub installs : Bool
    pub listens : Bool
    pub addr : ℕ

  unfoldable pub init_all : List Attempt → Setup F → Setup F
  init_all [] s = s
  init_all (a ∷ more) s = init_all more (init_metrics a.installs a.listens a.addr s).0

  unfoldable pub metric_active_connections_set : String → ℕ → Call F
  metric_active_connections_set room n = set_gauge (active_connections_key room) (as_f64 n)

  unfoldable pub metric_active_rooms_set : ℕ → Call F
  metric_active_rooms_set n = set_gauge active_rooms_key (as_f64 n)

  unfoldable pub metric_route_latency : F → Call F
  metric_route_latency secs = record_value route_latency_key secs

  -- The helpers that record metrics, with their arguments.
  pub data Recording : Type 0 where
    active_connections : String → ℕ → Recording
    active_rooms : ℕ → Recording
    packet_routed : PacketType → TargetType → Recording
    packet_dropped : String → Recording
    packet_dropped_decode : DecodeError → Recording
    route_latency : F → Recording

  -- What a helper calls. Those of counters are `metric_packet_routed` and its kin.
  unfoldable pub recorded : Recording → Call F
  unfolding metric_active_connections_set metric_active_rooms_set metric_route_latency
  recorded (active_connections room n) = metric_active_connections_set room n
  recorded (active_rooms n) = metric_active_rooms_set n
  recorded (packet_routed pt t) = increment (routed_key pt t) 1
  recorded (packet_dropped reason) = increment (dropped_key reason) 1
  recorded (packet_dropped_decode e) = increment (dropped_key (drop_reason_label e)) 1
  recorded (route_latency secs) = metric_route_latency secs

-- The metric that a call updates.
abbrev pub updated : {F : Type 0} → Call F → Option (Kind × String)
updated (set_gauge (name, labels) value) = some (gauge, name)
updated (increment (name, labels) by) = some (counter, name)
updated (record_value (name, labels) value) = some (histogram, name)
updated _ = none

-- The metric that a call updates has been described under its kind, and has been updated.
pub record IsSetUp {F : Type 0} (c : Call F) (calls : List (Call F)) : Type 0 where
  pub kind : Kind
  pub name : String
  pub metric : updated c ≡ some (kind, name)
  pub unit : MetricUnit
  pub text : String
  pub described : Memᴰ (describe kind name unit text) calls
  pub initial : Call F
  pub zeroed : Memᴰ initial calls
  pub same_metric : updated initial ≡ some (kind, name)
