-- ===== src/System/Rest.antt =====
-- How the tasks of src/network.rs and src/routing.rs come to rest when nothing more arrives.
use ws_gateway.Common.{
  ◌≡◌, ◌⊎◌, refl, ap, ◌∙◌, inl, inr, Bool, Option, none, some, List, [], ◌∷◌, Result, ok, err,
}
use ws_gateway.Protocol.Fields.{Bytes}
use ws_gateway.Protocol.Header.{PacketHeader}
use ws_gateway.Channel.{Notify, ChannelInner, try_send}
use ws_gateway.Router.Registry.{IsClean}
use ws_gateway.Router.{Retry, Rooms, Shared, Iteration, leave}
use ws_gateway.Network.{Gateway}
use ws_gateway.State.{System, Delivery, set_shared, left, attempted}
use ws_gateway.System.{Reach, later, delivers, retries, gives_up, cleans}
use ws_gateway.System.Routes.{Steps, here, next, Steps-trans, route-Steps}
use ws_gateway.System.Registry.{registry_clean}

-- No routing task has anything left to do, and no delivery, retry or clean-up is due.
pub record IsAtRest {n : Notify} (s : System n) : Type 0 where
  pub spawned : s.gateway.spawned ≡ []
  pub sending : s.sending ≡ []
  pub retries : s.gateway.shared.retries ≡ []
  pub pending : s.pending ≡ []

Result-cases :
    (r : Result (Unit {0}) Bytes) → ((u : Unit {0}) × (r ≡ ok u)) ⊎ ((x : Bytes) × (r ≡ err x))
Result-cases (ok u) = inl (u, refl)
Result-cases (err x) = inr (x, refl)

module _ {n : Notify} where
  attempted-ok :
      (t : Retry) (after : List Retry) (r : Result (Unit {0}) Bytes × ChannelInner n Bytes)
      (shared : Shared n) (u : Unit {0})
      → r.0 ≡ ok u
      → (attempted [] t after r shared).retries ≡ after
  unfolding attempted
  attempted-ok t after (ok _, c) shared u e = refl
  attempted-ok t after (err returned, c) shared u e = cc

  left-leaves :
      (r : Bytes) (o : Option (Bool × Rooms)) (s : System n)
      → ((left r o s).gateway.shared.retries ≡ s.gateway.shared.retries)
        × ((left r o s).gateway.spawned ≡ s.gateway.spawned)
        × ((left r o s).sending ≡ s.sending)
  unfolding left
  left-leaves r none s = (refl, refl, refl)
  left-leaves r (some (should_cleanup, rooms)) s = (refl, refl, refl)

  module _ (iteration : Iteration) where
    deliver_all :
        (ds : List Delivery) (s : System n)
        → s.sending ≡ ds
        → (t : System n) × Steps iteration s t × (t.sending ≡ [])
    deliver_all [] s e = (s, here, e)
    deliver_all (d ∷ ds) s e =
        let (t, steps, sent) = deliver_all ds _ refl in (t, next (delivers d [] ds e) steps, sent)

    route_all :
        (ps : List (PacketHeader × Bytes)) (s : System n)
        → s.gateway.spawned ≡ ps
        → s.sending ≡ []
        → (t : System n) × Steps iteration s t × (t.gateway.spawned ≡ []) × (t.sending ≡ [])
    route_all [] s e sent = (s, here, e, sent)
    route_all ((h, payload) ∷ ps) s e sent =
        let (m, first, after, left_sending, _, _) = route-Steps iteration h payload [] ps s e in
        let (t, rest, routed, done) =
          route_all ps m (ap (λ (g : Gateway n). g.spawned) after) (left_sending ∙ sent) in
        (t, Steps-trans iteration first rest, routed, done)

    retry_all :
        (ts : List Retry) (s : System n)
        → s.gateway.shared.retries ≡ ts
        → s.gateway.spawned ≡ []
        → s.sending ≡ []
        → (t : System n) × Steps iteration s t
          × (t.gateway.shared.retries ≡ [])
          × (t.gateway.spawned ≡ [])
          × (t.sending ≡ [])
    retry_all [] s e routed sent = (s, here, e, routed, sent)
    retry_all (task ∷ ts) s e routed sent =
        let r = try_send task.packet (s.gateway.shared.channels task.tx) in
        elim (Result-cases r.0) [
          | inl (u, accepted) ↦
              let (t, steps, none_left, idle, quiet) =
                retry_all ts (set_shared s (attempted [] task ts r s.gateway.shared))
                  (attempted-ok task ts r s.gateway.shared u accepted) routed sent in
              (t, next (retries task [] ts e) steps, none_left, idle, quiet)
          | inr (x, refused) ↦
              let found = leave s.gateway.shared.rooms task.room_id task.user_id in
              let without = set_shared s (record s.gateway.shared { retries = ts }) in
              let (kept, same, still) = left-leaves task.room_id found without in
              let (t, steps, none_left, idle, quiet) =
                retry_all ts (left task.room_id found without) kept (same ∙ routed)
                  (still ∙ sent) in
              (t, next (gives_up task [] ts x e refused) steps, none_left, idle, quiet)
        ]

    clean_all :
        (rs : List Bytes) (s : System n)
        → s.pending ≡ rs
        → s.gateway.shared.retries ≡ []
        → s.gateway.spawned ≡ []
        → s.sending ≡ []
        → (t : System n) × Steps iteration s t × IsAtRest t
    clean_all [] s e quiet idle sent =
        (s, here, record { spawned = idle; sending = sent; retries = quiet; pending = e })
    clean_all (r ∷ rs) s e quiet idle sent =
        let (t, steps, rest) = clean_all rs _ refl quiet idle sent in
        (t, next (cleans r [] rs e) steps, rest)

    comes_to_rest : (s : System n) → (t : System n) × Steps iteration s t × IsAtRest t
    comes_to_rest s =
        let (a, delivered, sent) = deliver_all s.sending s refl in
        let (b, routed, idle, sent_b) = route_all a.gateway.spawned a refl sent in
        let (c, retried, quiet, idle_c, sent_c) =
          retry_all b.gateway.shared.retries b refl idle sent_b in
        let (t, cleaned, rest) = clean_all c.pending c refl quiet idle_c sent_c in
        (
          t,
          Steps-trans iteration delivered
              (Steps-trans iteration routed (Steps-trans iteration retried cleaned)),
          rest,
        )

    Steps-Reach : {s t : System n} → Reach iteration s → Steps iteration s t → Reach iteration t
    Steps-Reach r here = r
    Steps-Reach r (next st more) = Steps-Reach (later r st) more

    -- From every state that the gateway reaches, blocks of its tasks lead to a state in which no
    -- routing task has anything left to do and no delivery, retry or clean-up is due, and there no
    -- room is empty.
    pub rest-IsClean :
        (s : System n)
        → Reach iteration s
        → (t : System n) × Steps iteration s t × IsAtRest t × IsClean t.gateway.shared.rooms
    rest-IsClean s reach =
        let (t, steps, rest) = comes_to_rest s in
        (t, steps, rest, λ r. registry_clean iteration (Steps-Reach reach steps) r rest.pending)
