-- ===== src/Process/Shutdown.antt =====
-- src/main.rs: what the shutdown stops, and what it leaves running.
use ws_gateway.Common.{◌≡◌, ◌≢◌, ◌⊎◌, refl, inl, inr, true, false, some, ◌∷◌, arith}
use ws_gateway.Protocol.Fields.{Bytes, IsBytes}
use ws_gateway.Channel.{Notify}
use ws_gateway.Router.{Iteration}
use ws_gateway.Network.{udp_turn}
use ws_gateway.System.{hears}
use ws_gateway.Process.{
  runnable, serving, stopped, Process, spawn_udp, spawn_ws, bind_udp, shut_down, stop, IsUp, Moves,
  fails, spawns_udp, spawns_ws, binds, cancels_udp, ends_ws, acts, shuts_down, stops, Runs, stays,
  moves,
}

module _ (iteration : Iteration) {n : Notify} where
  -- The receive loop runs, or `main` has returned.
  abbrev Receives : Process n → Type 0
  Receives p = (IsUp p.stage × (p.receiving ≡ runnable)) ⊎ (p.stage ≡ stopped)

  Moves-Receives : {p q : Process n} → Moves iteration p q → Receives p → Receives q
  unfolding spawn_udp spawn_ws bind_udp shut_down stop
  Moves-Receives (fails e) o = inr refl
  Moves-Receives (spawns_udp e) (inl (up, loop)) = inl (tt, loop)
  Moves-Receives (spawns_udp e) (inr end) = ground arith
  Moves-Receives (spawns_ws e) (inl (up, loop)) = inl (tt, loop)
  Moves-Receives (spawns_ws e) (inr end) = ground arith
  Moves-Receives (binds true up live) o = inl (up, refl)
  Moves-Receives (binds false up live) o = o
  Moves-Receives (cancels_udp up e) o = o
  Moves-Receives (ends_ws up live) o = o
  Moves-Receives (acts st may) o = o
  Moves-Receives (shuts_down e) (inl (up, loop)) = inl (tt, loop)
  Moves-Receives (shuts_down e) (inr end) = ground arith
  Moves-Receives (stops e) o = inr refl

  Runs-Receives : {p q : Process n} → Runs iteration p q → Receives p → Receives q
  Runs-Receives stays o = o
  Runs-Receives (moves r m) o = Moves-Receives m (Runs-Receives r o)

  -- The defect: where `main` was serving and the receive loop ran, the loop is not stopped by the
  -- shutdown that the signal brings. However the process goes on, until `main` returns the loop
  -- still takes any datagram that comes.
  pub shut_down-receives :
      (p q : Process n) (raw : Bytes)
      → p.stage ≡ serving
      → p.receiving ≡ runnable
      → Runs iteration (shut_down p) q
      → q.stage ≢ stopped
      → IsBytes raw
      → Moves iteration q (record q {
        system = record q.system {
          gateway = udp_turn (some raw) q.system.gateway;
          received = raw ∷ q.system.received;
        };
      })
  unfolding shut_down
  shut_down-receives p q raw s loop runs on b = elim (Runs-Receives runs (inl (tt, loop))) [
    | inl here ↦ acts (hears (some raw) (b, tt)) here
    | inr end ↦ absurd (on end)
  ]
