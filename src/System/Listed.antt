-- ===== src/System/Listed.antt =====
-- Who stands in the registry of src/routing.rs while its task of src/network.rs goes on: a registered
-- sender is that of a connection which has not unregistered yet.
use ws_gateway.Common.{
  ℕ, ◌<◌, ◌≡◌, ◌⊎◌, refl, ap, ◌∙◌, inl, inr, Bool, Option, none, some, List, [], ◌∷◌, ◌++◌, sym,
  ◌&&◌, arith, ◌==◌, ==_iff, ==_refl, Bool-cases, Option-cases,
}
use ws_gateway.Protocol.Fields.{Bytes}
use ws_gateway.DashMap.{lookup, same}
use ws_gateway.DashMap.Laws.{same_refl}
use ws_gateway.Channel.{Notify, Poll, item, closed, pending}
use ws_gateway.Router.{Sender, Rooms, Iteration, new, update, leave}
use ws_gateway.Router.Registry.{
  sender_of, register_lem, find-leave, sender_of-leave-none, sender_of-remove_if_empty,
}
use ws_gateway.Router.Cleanup
use ws_gateway.Router.Cleanup.{Table, Event}
use ws_gateway.Network.{Flow, goes_on, breaks, turn}
use ws_gateway.State.{
  System, Phase, Connection, init, registered, running, leaving, uncounted, session_of, set_channel,
  set_shared, resume, polled, opened, counted, discounted, left, removed, finished,
}
use ws_gateway.System.{
  Step, hears, opens, counts, reads, receives, discounts, leaves, closes, cleans, resolves,
  delivers, retries, gives_up, Reach, start, later,
}
use ws_gateway.System.Registry.{happened, Follows, Step-Follows}
use ws_gateway.System.Safety.{registered_owned}
use ws_gateway.System.Gauge.{left-connections}

-- From where the task registers to where it has unregistered.
abbrev pub presence : Phase → ℕ
presence registered = 1
presence running = 1
presence leaving = 1
presence uncounted = 1
presence _ = 0

-- Who is found after a block was found before it, or has just joined.
Step-found :
    {t u : Table} {events : List Event}
    → Cleanup.Step t u events
    → (r' u' : Bytes) (c : Sender) → sender_of u.rooms r' u' ≡ some c
    → (sender_of t.rooms r' u' ≡ some c)
      ⊎ ((r : Bytes) × (q : Bytes) × (events ≡ Event.joined r q c ∷ []))
Step-found {t} (Cleanup.registers r u tx) r' u' c e =
    let found = (register_lem t.rooms r u tx).1 r' u' in
    elim (Bool-cases (same r r' && same u u')) [
      | inl hit ↦
          let mine : some tx ≡ some c = sym (rw hit at found) ∙ e in
          let here : tx ≡ c = cc in inr (r, u, ap (λ (d : Sender). Event.joined r u d ∷ []) here)
      | inr miss ↦ inl (sym (rw miss at found) ∙ e)
    ]
Step-found {t} (Cleanup.leaves r u should_cleanup rooms p) r' u' c e =
    inl (ground (arith, find-leave t.rooms rooms r u should_cleanup p r' u'))
Step-found (Cleanup.leaves_nothing r u p) r' u' c e = inl e
Step-found {t} (Cleanup.cleans r others more p) r' u' c e =
    inl (ground (arith, sender_of-remove_if_empty t.rooms r r' u'))

Follows-found :
    {t u : Table} {events : List Event}
    → Follows t u events
    → (r' u' : Bytes) (c : Sender) → sender_of u.rooms r' u' ≡ some c
    → (sender_of t.rooms r' u' ≡ some c)
      ⊎ ((r : Bytes) × (q : Bytes) × (events ≡ Event.joined r q c ∷ []))
Follows-found (inl (same, quiet)) r' u' c e =
    inl (sym (ap (λ (t : Table). sender_of t.rooms r' u') same) ∙ e)
Follows-found (inr block) r' u' c e = Step-found block r' u' c e

module _ {n : Notify} where
  abbrev pub stands : System n → Sender → ℕ
  stands s c = presence (s.connections c).phase

  -- A connection that is put in its place does not stand less.
  update-stands :
      (s : System n) (i : Sender) (f : Connection) (c : Sender)
      → presence f.phase ≡ 1
      → stands s c ≡ 1
      → presence (update s.connections i f c).phase ≡ 1
  update-stands s i f c p h = elim (Bool-cases (i == c)) [
    | inl hit ↦ rw hit p
    | inr miss ↦ rw miss h
  ]

  resume-stands :
      (s : System n) (i : Sender) (f : Flow n) (c : Sender)
      → stands s c ≡ 1
      → stands (resume s i f) c ≡ 1
  unfolding resume
  resume-stands s i (goes_on after) c h = update-stands s i _ c refl h
  resume-stands s i (breaks after) c h = update-stands s i _ c refl h

  polled-stands :
      (now : ℕ) (sent : Bool) (i : Sender) (p : Poll Bytes) (s : System n) (c : Sender)
      → stands s c ≡ 1
      → stands (polled now sent i p s) c ≡ 1
  unfolding polled
  polled-stands now sent i (item x) s c h = resume-stands s i _ c h
  polled-stands now sent i closed s c h = resume-stands s i _ c h
  polled-stands now sent i pending s c h = h

  left-stands :
      (r : Bytes) (o : Option (Bool × Rooms)) (s : System n) (c : Sender)
      → stands s c ≡ 1
      → stands (left r o s) c ≡ 1
  left-stands r o s c h =
      ap (λ (f : Sender → Connection). presence (f c).phase) (left-connections r o s).1 ∙ h

  -- Who unregisters is found no more under its names.
  removed-none :
      (i : Sender) (s : System n)
      → sender_of (removed i s).gateway.shared.rooms (s.connections i).room (s.connections i).user
        ≡ none
  unfolding removed left
  removed-none i s =
      let rooms = s.gateway.shared.rooms in
      let r = (s.connections i).room in
      let u = (s.connections i).user in
      elim (Option-cases (leave rooms r u)) [
        | inl gone ↦
            rw (gone, left)
              (ground (arith, sender_of-leave-none rooms r u gone r u, same_refl r, same_refl u))
        | inr ((should_cleanup, rest), e) ↦
            rw (e, left)
              (ground
                (arith, find-leave rooms rest r u should_cleanup e r u, same_refl r, same_refl u))
      ]

  module _ (iteration : Iteration) where
    -- A block leaves a connection standing, but where the connection itself unregisters.
    Step-stands :
        {s t : System n} (st : Step iteration s t) (c : Sender)
        → c < s.next
        → stands s c ≡ 1
        → (stands t c ≡ 1) ⊎ (t ≡ removed c s)
    unfolding opened counted discounted finished removed
    Step-stands (hears r b) c lt h = inl h
    Step-stands {s} (opens r u p) c lt h = inl (update-stands s s.next _ c refl h)
    Step-stands {s} (counts i now li at_start) c lt h = inl (update-stands s i _ c refl h)
    Step-stands {s} (reads i now e li run input) c lt h =
        inl (resume-stands s i (turn now e (session_of s i)) c h)
    Step-stands {s} (receives i now sent p ch li run e) c lt h =
        inl (polled-stands now sent i p (set_channel s i ch) c h)
    Step-stands {s} (discounts i li out) c lt h = inl (update-stands s i _ c refl h)
    Step-stands {s} (leaves i li out) c lt h = elim (Bool-cases (i == c)) [
      | inl hit ↦ inr (ap (λ (k : Sender). removed k s) ((==_iff i c).0 hit))
      | inr miss ↦
          let k = s.connections i in
          let kept = left-stands k.room (leave s.gateway.shared.rooms k.room k.user) s c h in
          inl (rw miss kept)
    ]
    Step-stands {s} (closes i sent li out) c lt h = elim (Bool-cases (i == c)) [
      | inl hit ↦
          let same : i ≡ c = (==_iff i c).0 hit in
          let over : 0 ≡ stands s c = sym (ap presence out) ∙ ap (stands s) same in
          absurd (omega arith)
      | inr miss ↦ inl (rw miss h)
    ]
    Step-stands (cleans r before after e) c lt h = inl h
    Step-stands (resolves p payload before after e) c lt h = inl h
    Step-stands (delivers d before after e) c lt h = inl h
    Step-stands (retries t before after e) c lt h = inl h
    Step-stands {s} (gives_up t before after returned e f) c lt h =
        let rest = set_shared s (record s.gateway.shared { retries = before ++ after }) in
        inl (left-stands t.room_id (leave s.gateway.shared.rooms t.room_id t.user_id) rest c h)

    -- Only a connection that is opened joins.
    Step-joined :
        {s t : System n} (st : Step iteration s t) (r u : Bytes) (c : Sender)
        → happened iteration st ≡ Event.joined r u c ∷ []
        → stands t c ≡ 1
    unfolding opened
    Step-joined {s} (opens r' u' p) r u c e =
        let same : s.next ≡ c = cc in rw (← same) (rw (==_refl s.next) refl)
    Step-joined {s} (leaves i li out) r u c e = cc
    Step-joined (gives_up t before after returned e' f) r u c e = cc
    Step-joined _ r u c e = cc

    -- In every state that the gateway reaches, a registered sender is that of a connection whose task
    -- has not unregistered yet.
    pub registered_stands :
        {s : System n} (reach : Reach iteration s) (r u : Bytes) (c : Sender)
        → sender_of s.gateway.shared.rooms r u ≡ some c
        → stands s c ≡ 1
    unfolding init new lookup
    registered_stands start r u c e = cc
    registered_stands (later {s} {t} reach st) r u c e =
        elim (Follows-found (Step-Follows iteration st) r u c e) [
          | inr (r', u', joined) ↦ Step-joined st r' u' c joined
          | inl before ↦
              let (lt, in_room, as_user) = registered_owned iteration s reach r u c before in
              elim (Step-stands st c lt (registered_stands reach r u c before)) [
                | inl still ↦ still
                | inr gone ↦
                    let found : sender_of (removed c s).gateway.shared.rooms r u ≡ some c =
                      rw gone at e in
                    let clash : none ≡ some c =
                      sym (rw (in_room, as_user) at (removed-none c s)) ∙ found in
                    cc
              ]
        ]
