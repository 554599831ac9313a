-- ===== src/Network/Udp.antt =====
-- The UDP receive loop: what it spawns and what it counts.
use mathlib.Core.List.{append_assoc, append-nil}
use ws_gateway.Common.{
  ℕ, suc, ◌+◌, ◌%◌, ◌^◌, ◌<◌, ◌≡◌, refl, ap, sym, ◌∙◌, Option, none, some, List, [], ◌∷◌, ◌++◌,
  arith, length, length-append, Result, ok, err,
}
use ws_gateway.Protocol.Fields.{Bytes}
use ws_gateway.Protocol.Header.{PacketHeader, DecodeError, decode}
use ws_gateway.Channel.{Notify}
use ws_gateway.Network.{Gateway, fetch_add, udp_decoded, udp_turn, run_udp}

-- The packets among the datagrams, in order, and the number of the other datagrams.
pub accepted_of : Result (PacketHeader × Bytes) DecodeError → List (PacketHeader × Bytes)
accepted_of (ok packet) = packet ∷ []
accepted_of (err e) = []

pub accepted : List (Option Bytes) → List (PacketHeader × Bytes)
accepted [] = []
accepted (none ∷ rs) = accepted rs
accepted (some raw ∷ rs) = accepted_of (decode raw) ++ accepted rs

pub datagrams : List (Option Bytes) → ℕ
datagrams [] = 0
datagrams (none ∷ rs) = datagrams rs
datagrams (some raw ∷ rs) = suc (datagrams rs)

module _ {n : Notify} where
  -- What the loop leaves unchanged or counts, between its start and its end.
  pub record Counted (g g' : Gateway n) (packets : List (PacketHeader × Bytes)) (count : ℕ)
      : Type 0 where
    pub routes : g'.spawned ≡ g.spawned ++ packets
    pub received :
        g'.counters.udp_packets_received ≡ (g.counters.udp_packets_received + count) % 2 ^ 64
    pub errors :
        (g'.counters.udp_decode_errors + length packets) % 2 ^ 64
        ≡ (g.counters.udp_decode_errors + count) % 2 ^ 64
    pub shared_kept : g'.shared ≡ g.shared

  abbrev count_datagram : Gateway n → Gateway n
  count_datagram g = record g {
    counters = record g.counters {
      udp_packets_received = fetch_add g.counters.udp_packets_received;
    };
  }

  decoded-Counted :
      (r : Result (PacketHeader × Bytes) DecodeError) (g : Gateway n)
      → Counted g (udp_decoded r (count_datagram g)) (accepted_of r) 1
  unfolding udp_decoded accepted_of
  decoded-Counted (ok packet) g = record {
    routes = refl;
    received = refl;
    errors = refl;
    shared_kept = refl;
  }
  decoded-Counted (err e) g = record {
    routes = sym (append-nil g.spawned);
    received = refl;
    errors = omega arith;
    shared_kept = refl;
  }

  Counted-trans :
      (g g' g'' : Gateway n) (xs ys : List (PacketHeader × Bytes)) (c d k : ℕ)
      → c + d ≡ k
      → Counted g g' xs c
      → Counted g' g'' ys d
      → Counted g g'' (xs ++ ys) k
  Counted-trans g g' g'' xs ys c d k e v w = record {
    routes = w.routes ∙ ap (λ q. q ++ ys) v.routes ∙ append_assoc g.spawned xs ys;
    received = omega (arith, v.received, w.received);
    errors = omega (arith, v.errors, w.errors, length-append xs ys);
    shared_kept = w.shared_kept ∙ v.shared_kept;
  }

  -- Every datagram is counted once as received; those that decode are each handed to a routing
  -- task, in order, and the others are counted as errors; the loop itself leaves the shared
  -- state alone. The counters count modulo 2^64.
  pub run_udp_lem :
      (rs : List (Option Bytes)) (g : Gateway n)
      → g.counters.udp_packets_received < 2 ^ 64
      → Counted g (run_udp rs g) (accepted rs) (datagrams rs)
  unfolding run_udp udp_turn accepted datagrams
  run_udp_lem [] g h = record {
    routes = sym (append-nil g.spawned);
    received = omega arith;
    errors = omega arith;
    shared_kept = refl;
  }
  run_udp_lem (none ∷ rs) g h = run_udp_lem rs g h
  run_udp_lem (some raw ∷ rs) g h =
      let g' = udp_decoded (decode raw) (count_datagram g) in
      let v = decoded-Counted (decode raw) g in
      Counted-trans g g' (run_udp rs g') (accepted_of (decode raw)) (accepted rs) 1 (datagrams rs)
        (suc (datagrams rs)) (omega arith) v (run_udp_lem rs g' (omega (arith, v.received)))
