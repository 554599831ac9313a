-- ===== src/System/Steps.antt =====
-- Every step keeps what holds of the state that all tasks share.
use ws_gateway.DashMap.{lookup}
use ws_gateway.Common.{ℕ, ◌≡◌, refl, ◌∙◌, Bool, some, List, ◌∷◌, ◌++◌, arith, All-append}
use ws_gateway.Protocol.Fields.{Bytes}
use ws_gateway.Protocol.Header.{PacketHeader, room_id_str}
use ws_gateway.Channel.{Poll, Notify, ChannelInner, bounded, recv}
use ws_gateway.Router.{Sender, Retry, Iteration, new, leave}
use ws_gateway.State.{resolved, polled, System, init, set_channel, set_shared, left}
use ws_gateway.System.{
  Step, hears, opens, counts, discounts, closes, reads, receives, leaves, cleans, resolves,
  delivers, retries, gives_up, Reach, start, later,
}
use ws_gateway.System.World.{world, Reaches, IsSpawned, IsDelivery}
use ws_gateway.System.Tidy.{remove_if_empty-IsTidy}
use ws_gateway.System.Queues.{recv-Holds}
use ws_gateway.System.Valid.{
  IsRetry, IsSystem, IsSystem-Extends, All-without, IsShared-dispatch, IsShared-attempted,
}
use ws_gateway.System.Names.{
  SameNames, SameNames-Extends, polled-SameNames, left-SameNames, counted-SameNames,
  discounted-SameNames, removed-SameNames, finished-SameNames,
}
use ws_gateway.System.Kept.{resolved-IsDelivery, polled-IsSystem}
use ws_gateway.System.Blocks.{
  set_channel-IsSystem, set_shared-IsSystem, set_rooms-IsShared, left-IsSystem, counted-IsSystem,
  discounted-IsSystem, removed-IsSystem, finished-IsSystem,
}
use ws_gateway.System.Arrivals.{hears-IsSystem, opened-IsSystem, reads-IsSystem}

module _ {n : Notify} where
  receives-IsSystem :
      (i : Sender) (now : ℕ) (sent : Bool) (p : Poll Bytes) (c : ChannelInner n Bytes)
      (s : System n) (strong : ℕ)
      → recv strong (s.gateway.shared.channels i) ≡ some (p, c)
      → IsSystem (world s) s
      → let t = polled now sent i p (set_channel s i c) in IsSystem (world t) t
  receives-IsSystem i now sent p c s strong e v =
      let w = world s in
      let ch = v.shared.channels i in
      let (given, items, cap, shorter) =
        recv-Holds (Reaches w i) strong (s.gateway.shared.channels i) c p e ch.items in
      let after = set_channel-IsSystem w s i c v (record {
        items = items;
        capacity = cap ∙ ch.capacity;
        sound = record {
          positive = omega (arith, cap, ch.sound.positive);
          within = omega (arith, cap, shorter, ch.sound.within);
        };
      }) in
      IsSystem-Extends (SameNames-Extends (polled-SameNames now sent i p (set_channel s i c)))
        (polled now sent i p (set_channel s i c))
        (polled-IsSystem w i now sent p (set_channel s i c) given after)

  -- A step that changes neither.
  kept : {s t : System n} → SameNames s t → IsSystem (world s) t → IsSystem (world t) t
  kept {s} {t} same v = IsSystem-Extends (SameNames-Extends same) t v

  gives_up-IsSystem :
      (t : Retry) (before after : List Retry) (s : System n)
      → s.gateway.shared.retries ≡ before ++ t ∷ after
      → IsSystem (world s) s
      → let rest = set_shared s (record s.gateway.shared { retries = before ++ after }) in
        let u = left t.room_id (leave s.gateway.shared.rooms t.room_id t.user_id) rest in
        IsSystem (world u) u
  gives_up-IsSystem t before after s e v =
      let rest = set_shared s (record s.gateway.shared { retries = before ++ after }) in
      let (_, others) =
        All-without (IsRetry (world s)) before t after s.gateway.shared.retries e
          v.shared.retries in
      let dropped =
        set_shared-IsSystem (world s) s _ v
          (record { rooms = v.shared.rooms; channels = v.shared.channels; retries = others }) in
      kept {s = rest}
        (left-SameNames t.room_id (leave s.gateway.shared.rooms t.room_id t.user_id) rest)
        (left-IsSystem (world s) rest s.gateway.shared.rooms t.room_id t.user_id v.shared.rooms
          dropped)

  module _ (iteration : Iteration) where
    resolves-IsSystem :
        (h : PacketHeader) (payload : Bytes) (before after : List (PacketHeader × Bytes))
        (s : System n)
        → s.gateway.spawned ≡ before ++ (h, payload) ∷ after
        → IsSystem (world s) s
        → IsSystem (world s) (record s {
          gateway = record s.gateway { spawned = before ++ after };
          sending =
              s.sending
              ++ resolved iteration h payload (lookup (room_id_str h) s.gateway.shared.rooms);
        })
    resolves-IsSystem h payload before after s e v =
        let w = world s in
        let ((x, came), rest) =
          All-without (IsSpawned w) before (h, payload) after s.gateway.spawned e v.spawned in
        record {
          shared = v.shared;
          spawned = rest;
          sending = All-append (IsDelivery w) s.sending _ v.sending (
              resolved-IsDelivery w iteration h payload x came s.gateway.shared.rooms
                v.shared.rooms);
          frames = v.frames;
        }

    Step-IsSystem :
        {s t : System n} → Step iteration s t → IsSystem (world s) s → IsSystem (world t) t
    Step-IsSystem {s} (hears r b) v = hears-IsSystem r s b v
    Step-IsSystem {s} (opens r u h) v = opened-IsSystem r u s v
    Step-IsSystem {s} (counts i now lt at_start) v =
        kept (counted-SameNames now i s) (counted-IsSystem (world s) now i s v)
    Step-IsSystem {s} (reads i now e lt run input) v = reads-IsSystem i now e s input v
    Step-IsSystem {s} (receives i now sent p c lt run e) v =
        receives-IsSystem i now sent p c s _ e v
    Step-IsSystem {s} (discounts i lt out) v =
        kept (discounted-SameNames i s) (discounted-IsSystem (world s) i s v)
    Step-IsSystem {s} (leaves i lt out) v =
        kept (removed-SameNames i s) (removed-IsSystem (world s) i s v)
    Step-IsSystem {s} (closes i sent lt out) v =
        kept (finished-SameNames sent i s) (finished-IsSystem (world s) sent i s v)
    Step-IsSystem {s} (cleans r before after e) v = record {
      shared =
          set_rooms-IsShared (world s) s.gateway.shared _ v.shared
            (remove_if_empty-IsTidy (world s) s.gateway.shared.rooms v.shared.rooms r);
      spawned = v.spawned;
      sending = v.sending;
      frames = v.frames;
    }
    Step-IsSystem {s} (resolves h payload before after e) v =
        let r = resolves-IsSystem h payload before after s e v in
        record { shared = r.shared; spawned = r.spawned; sending = r.sending; frames = r.frames }
    Step-IsSystem {s} (delivers d before after e) v =
        let (mine, rest) =
          All-without (IsDelivery (world s)) before d after s.sending e v.sending in
        record {
          shared = IsShared-dispatch (world s) s.gateway.shared d v.shared mine;
          spawned = v.spawned;
          sending = rest;
          frames = v.frames;
        }
    Step-IsSystem {s} (retries t before after e) v =
        set_shared-IsSystem (world s) s _ v
          (IsShared-attempted (world s) s.gateway.shared before t after e v.shared)
    Step-IsSystem {s} (gives_up t before after returned e f) v =
        gives_up-IsSystem t before after s e v

    init-IsSystem : IsSystem (world (init n)) (init n)
    unfolding init new bounded
    init-IsSystem = record {
      shared = record {
        rooms = tt;
        channels = λ c. record {
          items = tt;
          capacity = refl;
          sound = record { positive = omega arith; within = omega arith };
        };
        retries = tt;
      };
      spawned = tt;
      sending = tt;
      frames = λ c. tt;
    }

    pub Reach-IsSystem : {s : System n} → Reach iteration s → IsSystem (world s) s
    Reach-IsSystem start = init-IsSystem
    Reach-IsSystem (later r st) = Step-IsSystem st (Reach-IsSystem r)
