-- ===== src/System/Clock.antt =====
-- The clock of src/network.rs in the whole gateway: every block of a task that reads it reads a time
-- that never goes back.
pub mod Silence
use ws_gateway.Common.{
  ℕ, ◌+◌, ◌-◌, ◌<◌, ◌≤◌, ◌≡◌, ◌↔◌, refl, ap, sym, ◌∙◌, inl, inr, Bool, true, false, ◌&&◌, Option,
  none, some, ◌++◌, arith, ◌==◌, ==_iff, ==_refl, Bool-cases, ltb, if◌then◌else◌,
}
use ws_gateway.Protocol.Fields.{Bytes}
use ws_gateway.Channel.{Notify, Poll, item, closed, pending}
use ws_gateway.Router.{Sender, Rooms, Iteration, update, leave}
use ws_gateway.Network.{
  Event, Session, Flow, goes_on, breaks, message_binary, message_pong, message_ping, message_text,
  message_closed, message_failed, outbound, tick, others, turn, pong_timeout,
}
use ws_gateway.Network.Closing.{session}
use ws_gateway.State.{
  System, Connection, init, running, leaving, session_of, set_channel, set_shared, resume, polled,
  opened, counted, discounted, left, removed, finished,
}
use ws_gateway.System.{
  Step, hears, opens, counts, reads, receives, discounts, leaves, closes, cleans, resolves,
  delivers, retries, gives_up,
}
use ws_gateway.System.Gauge.{left-connections}

module _ {n : Notify} where
  -- A sign of life: what the source sets `last_alive` at.
  abbrev pub is_message : Event n → Bool
  is_message (message_binary raw) = true
  is_message message_pong = true
  is_message message_ping = true
  is_message message_text = true
  is_message _ = false

  module _ (iteration : Iteration) where
    -- The block reads the clock at this time, if it does.
    abbrev pub At : ℕ → {s t : System n} → Step iteration s t → Type 0
    At clock (counts i now lt at_start) = now ≡ clock
    At clock (reads i now e lt run input) = now ≡ clock
    At clock (receives i now sent p c lt run e) = now ≡ clock
    At clock _ = Unit {0}

    -- The states that the gateway reaches, with the time.
    pub data Clocked : ℕ → System n → Type 0 where
      start : (clock : ℕ) → Clocked clock (init n)
      passes :
          {clock : ℕ} {s : System n} (later : ℕ) → Clocked clock s → clock ≤ later → Clocked later s
      acts :
          {clock : ℕ} {s t : System n}
          → Clocked clock s
          → (st : Step iteration s t) → At clock st
          → Clocked clock t

    -- When a connection gave its last sign of life, after a block.
    abbrev pub heard_at : ℕ → {s t : System n} → Step iteration s t → Sender → ℕ → ℕ
    heard_at clock (counts j now lt at_start) i before = if j == i then clock else before
    heard_at clock (reads j now e lt run input) i before =
        if (j == i) && is_message e then clock else before
    heard_at clock _ i before = before

    -- The last time in a run at which the loop of a connection began or a message from its client
    -- was read.
    abbrev pub last_heard : {clock : ℕ} {s : System n} → Clocked clock s → Sender → ℕ
    last_heard (start clock) i = 0
    last_heard (passes later run le) i = last_heard run i
    last_heard (acts {clock} run st at) i = heard_at clock st i (last_heard run i)

    pub last_heard-le :
        {clock : ℕ} {s : System n} (run : Clocked clock s) (i : Sender) → last_heard run i ≤ clock
    last_heard-le (start clock) i = omega arith
    last_heard-le (passes later run le) i = omega (arith, last_heard-le run i)
    last_heard-le (acts run (hears r b) at) i = last_heard-le run i
    last_heard-le (acts run (counts j now lt p) at) i = ground (arith, last_heard-le run i)
    last_heard-le (acts run (reads j now e lt p input) at) i = ground (arith, last_heard-le run i)
    last_heard-le (acts run _ at) i = last_heard-le run i
