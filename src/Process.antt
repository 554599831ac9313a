-- ===== src/Process.antt =====
-- src/main.rs: what `main` starts and stops around the gateway, with `run_udp` and `run_ws` of
-- src/network.rs as the tasks that it spawns.
mod Tests
pub mod Shutdown
pub mod Cli
use ws_gateway.Common.{ℕ, ◌<◌, ◌≡◌, ◌≢◌, ◌⊎◌, Bool, true, false, Option, some, List, []}
use ws_gateway.Channel.{Notify}
use ws_gateway.Router.{Iteration}
use ws_gateway.System
use ws_gateway.State.{System, init}
use ws_gateway.System.{
  Step, hears, opens, counts, reads, receives, discounts, leaves, closes, cleans, resolves,
  delivers, retries, gives_up,
}

-- A task as its runtime sees it. `stopping` is an aborted task that has not been cancelled yet: it
-- may still finish what it is at.
pub data TaskState : Type 0 where
  unspawned runnable stopping ended : TaskState

-- `JoinHandle::abort`. It does nothing to a task that has ended, nor to what that task has spawned.
unfoldable pub abort : TaskState → TaskState
abort runnable = stopping
abort unspawned = unspawned
abort stopping = stopping
abort ended = ended

-- Where `main` stands: it sets up, has spawned `run_udp`, waits for the signal, sleeps, has returned.
pub data Stage : Type 0 where
  starting spawning serving draining stopped : Stage

-- `udp` and `ws` are the tasks whose handles `main` keeps; `receiving` is the task of the receive
-- loop, which `run_udp` spawns.
pub record Process (n : Notify) : Type 0 where
  pub stage : Stage
  pub udp : TaskState
  pub receiving : TaskState
  pub ws : TaskState
  pub system : System n

unfoldable pub launch : (n : Notify) → Process n
launch n = record {
  stage = starting;
  udp = unspawned;
  receiving = unspawned;
  ws = unspawned;
  system = init n;
}

-- The runtime is there, and `main` has spawned a task.
abbrev pub IsUp : Stage → Type 0
IsUp starting = ⊥
IsUp stopped = ⊥
IsUp _ = Unit {0}

-- A task that has not ended and may run.
abbrev pub IsLive : TaskState → Type 0
IsLive runnable = Unit {0}
IsLive stopping = Unit {0}
IsLive _ = ⊥

module _ {n : Notify} where
  unfoldable pub spawn_udp : Process n → Process n
  spawn_udp p = record p { stage = spawning; udp = runnable }

  unfoldable pub spawn_ws : Process n → Process n
  spawn_ws p = record p { stage = serving; ws = runnable }

  -- `run_udp` binds its socket, spawns the loop and returns; or it panics.
  unfoldable pub bind_udp : Bool → Process n → Process n
  bind_udp true p = record p { udp = ended; receiving = runnable }
  bind_udp false p = record p { udp = ended }

  -- After the signal `main` aborts both handles and sleeps.
  unfoldable pub shut_down : Process n → Process n
  unfolding abort
  shut_down p = record p { stage = draining; udp = abort p.udp; ws = abort p.ws }

  -- `main` returns, and the runtime drops all tasks.
  unfoldable pub stop : Process n → Process n
  stop p = record p { stage = stopped; udp = ended; receiving = ended; ws = ended }

  module _ (iteration : Iteration) where
    -- The task that makes a step of the gateway: datagrams are read by the receive loop alone, and
    -- connections are opened by tasks of the server, which `run_ws` starts; they outlive it.
    abbrev pub MayAct : Process n → {s t : System n} → Step iteration s t → Type 0
    MayAct p (hears r b) = IsUp p.stage × (p.receiving ≡ runnable)
    MayAct p (opens r u h) = IsUp p.stage × (p.ws ≢ unspawned)
    MayAct p (counts i now lt at_start) = IsUp p.stage
    MayAct p (reads i now e lt run input) = IsUp p.stage
    MayAct p (receives i now sent poll c lt run e) = IsUp p.stage
    MayAct p (discounts i lt out) = IsUp p.stage
    MayAct p (leaves i lt out) = IsUp p.stage
    MayAct p (closes i sent lt out) = IsUp p.stage
    MayAct p (cleans r before after e) = IsUp p.stage
    MayAct p (resolves h payload before after e) = IsUp p.stage
    MayAct p (delivers d before after e) = IsUp p.stage
    MayAct p (retries t before after e) = IsUp p.stage
    MayAct p (gives_up t before after returned e f) = IsUp p.stage

    pub data Moves (p : Process n) : Process n → Type 0 where
      -- The set-up panics, as where the address of the metrics is taken.
      fails : p.stage ≡ starting → Moves p (stop p)
      spawns_udp : p.stage ≡ starting → Moves p (spawn_udp p)
      spawns_ws : p.stage ≡ spawning → Moves p (spawn_ws p)
      binds : (bound : Bool) → IsUp p.stage → IsLive p.udp → Moves p (bind_udp bound p)
      cancels_udp : IsUp p.stage → p.udp ≡ stopping → Moves p (record p { udp = ended })
      -- `run_ws` is cancelled, or panics.
      ends_ws : IsUp p.stage → IsLive p.ws → Moves p (record p { ws = ended })
      acts :
          {t : System n} (st : Step iteration p.system t)
          → MayAct p st
          → Moves p (record p { system = t })
      shuts_down : p.stage ≡ serving → Moves p (shut_down p)
      stops : p.stage ≡ draining → Moves p (stop p)

    -- Any number of moves.
    pub data Runs (p : Process n) : Process n → Type 0 where
      stays : Runs p p
      moves : {q r : Process n} → Runs p q → Moves q r → Runs p r
