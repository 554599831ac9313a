-- ===== src/System/Arrivals.antt =====
-- The steps that change what has been received or which connections there are.
use mathlib.Core.List.{Memᴰ}
use mathlib.Core.List.Memᴰ
use ws_gateway.Common.{
  ℕ, ◌≡◌, refl, Option, none, some, List, [], ◌∷◌, ◌++◌, arith, ==_refl, ==-eq-false, All,
  All-append, Result, ok, err,
}
use ws_gateway.Protocol.Fields.{Bytes, IsBytes}
use ws_gateway.Protocol.Header.{PacketHeader, DecodeError, decode}
use ws_gateway.Channel.{Notify, bounded}
use ws_gateway.Router.{Sender}
use ws_gateway.Network.{Event, Gateway, turn, udp_turn, udp_decoded}
use ws_gateway.State.{IsInput, session_of, System, Connection, datagram, message, resume, opened}
use ws_gateway.System.World.{World, world, Owns, Shows, IsSpawned, Extends}
use ws_gateway.System.Tidy.{register-IsTidy}
use ws_gateway.System.Valid.{IsChannel, IsSystem, IsSystem-Extends, update-cases}
use ws_gateway.System.Names.{resume-SameNames}
use ws_gateway.System.Kept.{turn-IsFlow, session_of-IsSession, resume-IsSystem}

-- The world after buffers have come.
abbrev heard : World → List Bytes → World
heard w more = record w { received = more ++ w.received }

heard-Extends : (w : World) (more : List Bytes) → Extends w (heard w more)
heard-Extends w more = record {
  next_le = omega arith;
  rooms_kept = λ c h. refl;
  users_kept = λ c h. refl;
  received_kept = λ x m. Memᴰ.append_right more m;
}

-- The buffers that came are among those received.
arrived : (more xs : List Bytes) → All (λ x. Memᴰ x (more ++ xs)) more
arrived more xs = from more (λ x m. m)
  where
    from :
        (some_of : List Bytes)
        → ((x : Bytes) → Memᴰ x (some_of ++ xs) → Memᴰ x (more ++ xs))
        → All (λ x. Memᴰ x (more ++ xs)) some_of
    from [] f = tt
    from (y ∷ ys) f = (f y (Memᴰ.head refl), from ys (λ x m. f x (Memᴰ.tail m)))

module _ {n : Notify} where
  udp_decoded-IsSpawned :
      (w : World) (raw : Bytes) (r : Result (PacketHeader × Bytes) DecodeError) (g : Gateway n)
      → decode raw ≡ r
      → IsBytes raw
      → Memᴰ raw w.received
      → All (IsSpawned w) g.spawned
      → All (IsSpawned w) (udp_decoded r g).spawned × ((udp_decoded r g).shared ≡ g.shared)
  unfolding udp_decoded
  udp_decoded-IsSpawned w raw (ok packet) g e b m h = (
    All-append (IsSpawned w) g.spawned (packet ∷ []) h
        ((raw, record { bytes = b; arrived = m; decodes = e }), tt),
    refl,
  )
  udp_decoded-IsSpawned w raw (err _) g e b m h = (h, refl)

  pub hears-IsSystem :
      (r : Option Bytes) (s : System n)
      → All IsBytes (datagram r)
      → IsSystem (world s) s
      → IsSystem
          (heard (world s) (datagram r))
          (record s { gateway = udp_turn r s.gateway; received = datagram r ++ s.received })
  unfolding udp_turn
  hears-IsSystem none s b v = record {
    shared = v.shared;
    spawned = v.spawned;
    sending = v.sending;
    frames = v.frames;
  }
  hears-IsSystem (some raw) s b v =
      let w = heard (world s) (raw ∷ []) in
      let v' = IsSystem-Extends (heard-Extends (world s) (raw ∷ [])) s v in
      let (spawned, same) =
        udp_decoded-IsSpawned w raw (decode raw) _ refl b.0 (Memᴰ.head refl) v'.spawned in
      record {
        shared = rw same v'.shared;
        spawned = spawned;
        sending = v'.sending;
        frames = v'.frames;
      }

  opened-Extends : (r u : Bytes) (s : System n) → Extends (world s) (world (opened r u s))
  unfolding opened
  opened-Extends r u s = record {
    next_le = omega arith;
    rooms_kept = λ c h. rw (==-eq-false s.next c (omega arith)) refl;
    users_kept = λ c h. rw (==-eq-false s.next c (omega arith)) refl;
    received_kept = λ x m. m;
  }

  pub opened-IsSystem :
      (r u : Bytes) (s : System n)
      → IsSystem (world s) s
      → IsSystem (world (opened r u s)) (opened r u s)
  unfolding opened bounded
  opened-IsSystem r u s v =
      let w = world (opened r u s) in
      let v' = IsSystem-Extends (opened-Extends r u s) s v in
      let mine : Owns w s.next r u = record {
        made = omega arith;
        in_room = rw (==_refl s.next) refl;
        as_user = rw (==_refl s.next) refl;
      } in
      record {
        shared = record {
          rooms = register-IsTidy w s.gateway.shared.rooms v'.shared.rooms r u s.next mine;
          channels =
              update-cases (λ j c. IsChannel w j c) s.gateway.shared.channels s.next _
                (record {
                  items = tt;
                  capacity = refl;
                  sound = record { positive = omega arith; within = omega arith };
                })
                v'.shared.channels;
          retries = v'.shared.retries;
        };
        spawned = v'.spawned;
        sending = v'.sending;
        frames =
            update-cases (λ j (c : Connection). All (Shows w j) c.frames) s.connections s.next _ tt
              v'.frames;
      }

  pub reads-IsSystem :
      (i : Sender) (now : ℕ) (e : Event n) (s : System n)
      → IsInput e
      → IsSystem (world s) s
      → let t = record (resume s i (turn now e (session_of s i))) {
        received = message e ++ s.received;
      } in
        IsSystem (world t) t
  reads-IsSystem i now e s input v =
      let w = heard (world s) (message e) in
      let f = turn now e (session_of s i) in
      let names = resume-SameNames s i f in
      let v' = IsSystem-Extends (heard-Extends (world s) (message e)) s v in
      let r = resume-IsSystem w i s f v' (
        turn-IsFlow w i now e (session_of s i) input (arrived (message e) s.received)
          (session_of-IsSession w i s v')) in
      IsSystem-Extends
        (record {
          next_le = omega (arith, names.next);
          rooms_kept = λ c h. names.rooms c;
          users_kept = λ c h. names.users c;
          received_kept = λ x m. m;
        })
        (record (resume s i f) { received = message e ++ s.received })
        (record { shared = r.shared; spawned = r.spawned; sending = r.sending; frames = r.frames })
