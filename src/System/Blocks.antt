-- ===== src/System/Blocks.antt =====
-- The blocks of the cleanup of connections and of retry tasks, and what changes one part of the
-- shared state.
use ws_gateway.Common.{Bool, true, false, ℕ, inl, inr, Option-cases, All, All-append}
use ws_gateway.Protocol.Fields.{Bytes}
use ws_gateway.Channel.{Notify, ChannelInner, drop_receiver}
use ws_gateway.Router.{Sender, Rooms, Shared, leave}
use ws_gateway.Network.{best_effort_close}
use ws_gateway.State.{
  System, Connection, set_shared, set_channel, counted, discounted, left, removed, finished,
  set_connection, set_gauge,
}
use ws_gateway.System.World.{World, Shows}
use ws_gateway.System.Tidy.{IsTidy, leave-IsTidy}
use ws_gateway.System.Valid.{IsChannel, IsShared, IsSystem, update-cases, IsShared-set_channel}

Shows-close : (w : World) (i : Sender) (sent : Bool) → All (Shows w i) (best_effort_close sent)
Shows-close w i true = (tt, tt)
Shows-close w i false = tt

module _ {n : Notify} (w : World) where
  pub set_channel-IsSystem :
      (s : System n) (i : Sender) (c : ChannelInner n Bytes)
      → IsSystem w s
      → IsChannel w i c
      → IsSystem w (set_channel s i c)
  set_channel-IsSystem s i c v h = record {
    shared = IsShared-set_channel w s.gateway.shared i c v.shared h;
    spawned = v.spawned;
    sending = v.sending;
    frames = v.frames;
  }

  pub set_shared-IsSystem :
      (s : System n) (shared : Shared n)
      → IsSystem w s
      → IsShared w shared
      → IsSystem w (set_shared s shared)
  set_shared-IsSystem s shared v h = record {
    shared = h;
    spawned = v.spawned;
    sending = v.sending;
    frames = v.frames;
  }

  pub set_rooms-IsShared :
      (s : Shared n) (rooms : Rooms)
      → IsShared w s
      → IsTidy w rooms
      → IsShared w (record s { rooms = rooms })
  set_rooms-IsShared s rooms v h = record { rooms = h; channels = v.channels; retries = v.retries }

  pub left-IsSystem :
      (s : System n) (rooms : Rooms) (r u : Bytes)
      → IsTidy w rooms
      → IsSystem w s
      → IsSystem w (left r (leave rooms r u) s)
  unfolding left
  left-IsSystem s rooms r u tidy v = elim (Option-cases (leave rooms r u)) [
    | inl gone ↦ rw (gone, left) v
    | inr ((cleanup, rest), p) ↦
        rw (p, left)
          (record {
            shared =
                set_rooms-IsShared s.gateway.shared rest v.shared
                  (leave-IsTidy w rooms tidy r u cleanup rest p);
            spawned = v.spawned;
            sending = v.sending;
            frames = v.frames;
          })
  ]

  -- A connection is put in its place with frames that may be shown.
  set_connection-IsSystem :
      (s : System n) (i : Sender) (c : Connection)
      → All (Shows w i) c.frames
      → IsSystem w s
      → IsSystem w (set_connection s i c)
  set_connection-IsSystem s i c h v = record {
    shared = v.shared;
    spawned = v.spawned;
    sending = v.sending;
    frames =
        update-cases (λ j (c : Connection). All (Shows w j) c.frames) s.connections i c h v.frames;
  }

  set_gauge-IsSystem : (s : System n) (k : ℕ) → IsSystem w s → IsSystem w (set_gauge s k)
  set_gauge-IsSystem s k v = record {
    shared = v.shared;
    spawned = v.spawned;
    sending = v.sending;
    frames = v.frames;
  }

  pub counted-IsSystem :
      (now : ℕ) (i : Sender) (s : System n) → IsSystem w s → IsSystem w (counted now i s)
  unfolding counted
  counted-IsSystem now i s v = set_connection-IsSystem _ i _ (v.frames i) (set_gauge-IsSystem s _ v)

  pub discounted-IsSystem : (i : Sender) (s : System n) → IsSystem w s → IsSystem w (discounted i s)
  unfolding discounted
  discounted-IsSystem i s v = set_connection-IsSystem _ i _ (v.frames i) (set_gauge-IsSystem s _ v)

  pub removed-IsSystem : (i : Sender) (s : System n) → IsSystem w s → IsSystem w (removed i s)
  unfolding removed
  removed-IsSystem i s v =
      let c = s.connections i in
      let t = left-IsSystem s s.gateway.shared.rooms c.room c.user v.shared.rooms v in
      set_connection-IsSystem _ i _ (v.frames i) t

  pub finished-IsSystem :
      (sent : Bool) (i : Sender) (s : System n) → IsSystem w s → IsSystem w (finished sent i s)
  unfolding finished drop_receiver
  finished-IsSystem sent i s v =
      let ch = v.shared.channels i in
      set_connection-IsSystem _ i _
        (All-append (Shows w i) (s.connections i).frames (best_effort_close sent) (v.frames i)
          (Shows-close w i sent))
        (set_channel-IsSystem s i _ v (record {
          items = ch.items;
          capacity = ch.capacity;
          sound = record { positive = ch.sound.positive; within = ch.sound.within };
        }))
