-- ===== src/System/Kept.antt =====
-- Each step of the system keeps its invariant.
use mathlib.Core.List.{Memᴰ}
use ws_gateway.Common.{
  ℕ, ◌-◌, ◌≡◌, refl, ◌∙◌, inl, inr, true, false, Bool, Option, none, some, List, [], ◌∷◌, ◌++◌, ltb,
  Bool-cases, Option-cases, All, All-append, Result, ok, err, map,
}
use ws_gateway.Protocol.TargetType.{TargetType, broadcast, unicast}
use ws_gateway.Protocol.Fields.{Bytes, IsBytes}
use ws_gateway.Protocol.Header.{PacketHeader, DecodeError, room_id_str, user_id_str, decode}
use ws_gateway.DashMap.{lookup}
use ws_gateway.Channel.{Notify, Poll, item, closed, pending}
use ws_gateway.Router.{Sender, Room, Rooms, Iteration, targets}
use ws_gateway.Network.{
  Gateway, Session, Event, Flow, Frame, goes_on, breaks, binary, ping, message_binary, message_pong,
  message_ping, message_text, message_closed, message_failed, outbound, tick, others, turn,
  ws_decoded, pong_timeout,
}
use ws_gateway.State.{System, Connection, resolved, message, IsInput, session_of, resume, polled}
use ws_gateway.System.World.{World, Came, Reaches, Shows, IsSpawned, IsDelivery}
use ws_gateway.DashMap.Entries.{All-lookup}
use ws_gateway.System.Tidy.{IsMember, IsTidy, found_members}
use ws_gateway.System.Queues.{Given}
use ws_gateway.System.Valid.{IsShared, IsSystem, update-cases}

All-of-map {ℓ κ μ} :
    {A : Type ℓ} {B : Type κ} (P : B → Type μ) (f : A → B) (xs : List A)
    → All (λ x. P (f x)) xs
    → All P (map f xs)
All-of-map P f [] h = tt
All-of-map P f (x ∷ xs) h = (h.0, All-of-map P f xs h.1)

module _ (w : World) (iteration : Iteration) (h : PacketHeader) (payload x : Bytes)
    (came : Came w x h payload) where
  members-IsDelivery :
      (ts : List (Bytes × Sender))
      → All (IsMember w (room_id_str h)) ts
      → (h.target_type ≡ unicast → All (λ t. t.0 ≡ user_id_str h) ts)
      → All
          (IsDelivery w)
          (map (λ t. record { header = h; payload = payload; target_user = t.0; tx = t.1 }) ts)
  members-IsDelivery [] m u = tt
  members-IsDelivery ((v, tx) ∷ ts) m u = (
    record {
      origin = x;
      came = came;
      addressed = record {
        made = m.0.made;
        same_room = m.0.in_room;
        same_user = λ e. m.0.as_user ∙ (u e).0;
      };
      named = m.0.as_user;
    },
    members-IsDelivery ts m.1 (λ e. (u e).1),
  )

  targets-named :
      (t : TargetType) (room : Room)
      → All (IsMember w (room_id_str h)) room
      → All (IsMember w (room_id_str h)) (targets iteration h t room)
        × (t ≡ unicast
            → All (λ (m : Bytes × Sender). m.0 ≡ user_id_str h) (targets iteration h t room))
  unfolding targets
  targets-named broadcast room m = (iteration.only room (IsMember w (room_id_str h)) m, λ e. cc)
  targets-named unicast room m = elim (Option-cases (lookup (user_id_str h) room)) [
    | inl gone ↦ rw (gone, targets) (tt, λ e. tt)
    | inr (tx, found) ↦
        rw (found, targets)
          (
            (All-lookup (IsMember w (room_id_str h)) (user_id_str h) room tx found m, tt),
            λ e. (refl, tt),
          )
  ]

  pub resolved-IsDelivery :
      (rooms : Rooms)
      → IsTidy w rooms
      → All (IsDelivery w) (resolved iteration h payload (lookup (room_id_str h) rooms))
  unfolding resolved
  resolved-IsDelivery rooms tidy = elim (Option-cases (lookup (room_id_str h) rooms)) [
    | inl gone ↦ rw (gone, resolved) tt
    | inr (room, found) ↦
        let named =
          targets-named h.target_type room
            (found_members w rooms tidy (room_id_str h) room found) in
        rw (found, resolved)
          (members-IsDelivery (targets iteration h h.target_type room) named.0 named.1)
  ]

module _ {n : Notify} (w : World) (i : Sender) where
  -- What the task of connection `i` sees.
  pub record IsSession (s : Session n) : Type 0 where
    pub shared : IsShared w s.gateway.shared
    pub spawned : All (IsSpawned w) s.gateway.spawned
    pub frames : All (Shows w i) s.frames

  abbrev pub IsFlow : Flow n → Type 0
  IsFlow (goes_on s) = IsSession s
  IsFlow (breaks s) = IsSession s

  pub ws_decoded-IsSpawned :
      (raw : Bytes) (r : Result (PacketHeader × Bytes) DecodeError) (g : Gateway n)
      → decode raw ≡ r
      → IsBytes raw
      → Memᴰ raw w.received
      → All (IsSpawned w) g.spawned
      → All (IsSpawned w) (ws_decoded r g).spawned
  unfolding ws_decoded
  ws_decoded-IsSpawned raw (ok packet) g e b m h =
      All-append (IsSpawned w) g.spawned (packet ∷ []) h
        ((raw, record { bytes = b; arrived = m; decodes = e }), tt)
  ws_decoded-IsSpawned raw (err _) g e b m h = h

  ws_decoded-shared :
      (r : Result (PacketHeader × Bytes) DecodeError) (g : Gateway n)
      → (ws_decoded r g).shared ≡ g.shared
  unfolding ws_decoded
  ws_decoded-shared (ok packet) g = refl
  ws_decoded-shared (err _) g = refl

  show :
      (s : Session n) (f : Frame)
      → Shows w i f
      → IsSession s
      → IsSession (record s { frames = s.frames ++ f ∷ [] })
  show s f p v = record {
    shared = v.shared;
    spawned = v.spawned;
    frames = All-append (Shows w i) s.frames (f ∷ []) v.frames (p, tt);
  }

  pub turn-IsFlow :
      (now : ℕ) (e : Event n) (s : Session n)
      → IsInput e
      → All (λ raw. Memᴰ raw w.received) (message e)
      → IsSession s
      → IsFlow (turn now e s)
  unfolding turn
  turn-IsFlow now (message_binary raw) s b m v = record {
    shared = rw (ws_decoded-shared (decode raw) _) v.shared;
    spawned = ws_decoded-IsSpawned raw (decode raw) _ refl b m.0 v.spawned;
    frames = v.frames;
  }
  turn-IsFlow now message_pong s b m v = record {
    shared = v.shared;
    spawned = v.spawned;
    frames = v.frames;
  }
  turn-IsFlow now message_ping s b m v = record {
    shared = v.shared;
    spawned = v.spawned;
    frames = v.frames;
  }
  turn-IsFlow now message_text s b m v = record {
    shared = v.shared;
    spawned = v.spawned;
    frames = v.frames;
  }
  turn-IsFlow now message_closed s b m v = v
  turn-IsFlow now message_failed s b m v = v
  turn-IsFlow now (tick false) s b m v = v
  turn-IsFlow now (tick true) s b m v = elim (Bool-cases (ltb pong_timeout (now - s.last_alive))) [
    | inl late ↦
        let p = show s ping tt v in
        rw late (record { shared = p.shared; spawned = p.spawned; frames = p.frames })
    | inr soon ↦ rw soon (show s ping tt v)
  ]
  turn-IsFlow now (outbound packet sent) s b m v = elim b [ ]
  turn-IsFlow now (others shared) s b m v = elim b [ ]

  pub outbound-IsFlow :
      (now : ℕ) (p : Option Bytes) (sent : Bool) (s : Session n)
      → ((x : Bytes) → p ≡ some x → Reaches w i x)
      → IsSession s
      → IsFlow (turn now (outbound p sent) s)
  unfolding turn
  outbound-IsFlow now (some x) true s r v = show s (binary x) (r x refl) v
  outbound-IsFlow now (some x) false s r v = v
  outbound-IsFlow now none sent s r v = v

  pub session_of-IsSession : (s : System n) → IsSystem w s → IsSession (session_of s i)
  session_of-IsSession s v = record { shared = v.shared; spawned = v.spawned; frames = v.frames i }

  pub resume-IsSystem :
      (s : System n) (f : Flow n) → IsSystem w s → IsFlow f → IsSystem w (resume s i f)
  unfolding resume
  resume-IsSystem s (goes_on after) v h = record {
    shared = h.shared;
    spawned = h.spawned;
    sending = v.sending;
    frames =
        update-cases (λ j (c : Connection). All (Shows w j) c.frames) s.connections i _ h.frames
          v.frames;
  }
  resume-IsSystem s (breaks after) v h = record {
    shared = h.shared;
    spawned = h.spawned;
    sending = v.sending;
    frames =
        update-cases (λ j (c : Connection). All (Shows w j) c.frames) s.connections i _ h.frames
          v.frames;
  }

  pub polled-IsSystem :
      (now : ℕ) (sent : Bool) (p : Poll Bytes) (s : System n)
      → Given (Reaches w i) p
      → IsSystem w s
      → IsSystem w (polled now sent i p s)
  unfolding polled
  polled-IsSystem now sent (item x) s given v = resume-IsSystem s _ v (
      outbound-IsFlow now (some x) sent (session_of s i)
        (λ y e. (let same : x ≡ y = cc in rw (← same) given)) (session_of-IsSession s v))
  polled-IsSystem now sent closed s given v =
      resume-IsSystem s _ v
        (outbound-IsFlow now none sent (session_of s i) (λ y e. cc) (session_of-IsSession s v))
  polled-IsSystem now sent pending s given v = v
