-- ===== src/Router/Cleanup.antt =====
-- `unregister_internal` releases its lock between the removal of the user and the removal of the
-- empty room. Here other tasks register and unregister between the two, in any order.
use ws_gateway.Common.{
  ◌≡◌, ◌≢◌, refl, ap, ◌∙◌, Bool, true, false, ◌&&◌, ◌||◌, Option, none, some, List, [], ◌∷◌, ◌++◌,
  arith, if◌then◌else◌,
}
use ws_gateway.Protocol.Fields.{Bytes}
use ws_gateway.DashMap.{same, lookup}
use ws_gateway.Router.{Sender, Rooms, new, register, leave, remove_if_empty}
use ws_gateway.Router.Registry.{
  sender_of, register_lem, find-leave, sender_of-leave-none, sender_of-remove_if_empty,
  lookup-register, lookup-leave, lookup-remove_if_empty,
}

-- The registry, and the rooms whose clean-up some task still has to do.
pub record Table : Type 0 where
  pub rooms : Rooms
  pub pending : List Bytes

-- What happened, newest first.
pub data Event : Type 0 where
  joined : Bytes → Bytes → Sender → Event
  left : Bytes → Bytes → Event

-- Who is registered, by the events alone.
unfoldable pub expected : List Event → Bytes → Bytes → Option Sender
expected [] r' u' = none
expected (joined r u tx ∷ log) r' u' =
    if same r r' && same u u' then some tx else expected log r' u'
expected (left r u ∷ log) r' u' = if same r r' && same u u' then none else expected log r' u'

-- One atomic block of one task.
pub data Step (t : Table) : Table → List Event → Type 0 where
  registers :
      (r u : Bytes) (tx : Sender)
      → Step t (record t { rooms = (register t.rooms r u tx).0 }) (joined r u tx ∷ [])
  leaves :
      (r u : Bytes) (cleanup : Bool) (rooms : Rooms)
      → leave t.rooms r u ≡ some (cleanup, rooms)
      → Step t
          (record { rooms = rooms; pending = if cleanup then r ∷ t.pending else t.pending })
          (left r u ∷ [])
  leaves_nothing : (r u : Bytes) → leave t.rooms r u ≡ none → Step t t (left r u ∷ [])
  cleans :
      (r : Bytes) (others more : List Bytes)
      → t.pending ≡ others ++ r ∷ more
      → Step t (record { rooms = remove_if_empty t.rooms r; pending = others ++ more }) []

pub data Reach : Table → List Event → Type 0 where
  start : Reach (record { rooms = new; pending = [] }) []
  later :
      {t u : Table} {log events : List Event}
      → Reach t log
      → Step t u events
      → Reach u (events ++ log)

abbrev pub is_pending : Bytes → List Bytes → Bool
is_pending r [] = false
is_pending r (p ∷ ps) = same p r || is_pending r ps

-- Every empty room has its clean-up due.
abbrev pub IsTracked : Table → Type 0
IsTracked t = (r : Bytes) → lookup r t.rooms ≡ some [] → is_pending r t.pending ≡ true

pub is_pending-drop :
    (r q : Bytes) (others more : List Bytes)
    → same r q ≡ false
    → is_pending q (others ++ r ∷ more) ≡ true
    → is_pending q (others ++ more) ≡ true
is_pending-drop r q [] more ne h = ground arith
is_pending-drop r q (p ∷ others) more ne h = ground (arith, is_pending-drop r q others more ne)

Step-IsTracked : {t u : Table} {events : List Event} → Step t u events → IsTracked t → IsTracked u
Step-IsTracked {t} (registers r u tx) h q e = h q (lookup-register t.rooms r u tx q e).0
Step-IsTracked {t} (leaves r u cleanup rooms p) h q e =
    ground (arith, lookup-leave t.rooms rooms r u cleanup p q, h q)
Step-IsTracked (leaves_nothing r u p) h q e = h q e
Step-IsTracked {t} (cleans r others more p) h q e =
    let (was, ne) = lookup-remove_if_empty t.rooms r q e in
    is_pending-drop r q others more ne (rw p at (h q was))

nothing_empty : IsTracked (record { rooms = new; pending = [] })
unfolding new lookup
nothing_empty q e = cc

pub Reach-IsTracked : {t : Table} {log : List Event} → Reach t log → IsTracked t
Reach-IsTracked start = nothing_empty
Reach-IsTracked (later r st) = Step-IsTracked st (Reach-IsTracked r)

-- In every table that those blocks reach, however they interleave: where no clean-up is due, no
-- room is empty.
pub quiescent-IsClean :
    {t : Table} {log : List Event}
    → Reach t log
    → t.pending ≡ []
    → (r : Bytes) → lookup r t.rooms ≢ some []
quiescent-IsClean {t} reach quiet r e =
    let due : is_pending r t.pending ≡ true = Reach-IsTracked reach r e in
    let none_due : is_pending r [] ≡ true = rw quiet at due in cc

Step-expected :
    {t u : Table} {events : List Event} (log : List Event)
    → Step t u events
    → ((r' u' : Bytes) → sender_of t.rooms r' u' ≡ expected log r' u')
    → (r' u' : Bytes) → sender_of u.rooms r' u' ≡ expected (events ++ log) r' u'
unfolding expected
Step-expected {t} log (registers r u tx) h r' u' =
    ground (arith, (register_lem t.rooms r u tx).1 r' u', h r' u')
Step-expected {t} log (leaves r u cleanup rooms p) h r' u' =
    ground (arith, find-leave t.rooms rooms r u cleanup p r' u', h r' u')
Step-expected {t} log (leaves_nothing r u p) h r' u' =
    sender_of-leave-none t.rooms r u p r' u'
    ∙ ap (λ (o : Option Sender). if same r r' && same u u' then none else o) (h r' u')
Step-expected {t} log (cleans r others more p) h r' u' =
    sender_of-remove_if_empty t.rooms r r' u' ∙ h r' u'

-- In every table that the atomic blocks of `register` and `unregister_internal` reach from an
-- empty registry, however they interleave, the sender under a room and user is that of the last
-- registration after which the user did not leave.
pub Reach-expected :
    {t : Table} {log : List Event}
    → Reach t log
    → (r u : Bytes) → sender_of t.rooms r u ≡ expected log r u
unfolding expected new lookup
Reach-expected start r u = refl
Reach-expected (later {log} reach st) r u = Step-expected log st (Reach-expected reach) r u
