-- ===== src/System/Routes.antt =====
-- `route` of src/routing.rs, as one operation, is what its blocks do one after another.
use mathlib.Core.List.{append-nil}
use ws_gateway.Common.{◌≡◌, refl, ◌∙◌, inl, inr, List, [], ◌∷◌, ◌++◌, map, Option-cases}
use ws_gateway.Protocol.Fields.{Bytes}
use ws_gateway.Protocol.Header.{PacketHeader, room_id_str}
use ws_gateway.DashMap.{lookup}
use ws_gateway.Channel.{Notify}
use ws_gateway.Router.{dispatch, Sender, Iteration, targets, dispatch_all, route}
use ws_gateway.Router.Delivery.{route-found, route-no_room}
use ws_gateway.State.{System, Delivery, resolved, set_shared}
use ws_gateway.System.{Step, resolves, delivers}

abbrev deliveries : PacketHeader → Bytes → List (Bytes × Sender) → List Delivery
deliveries h payload =
    map (λ t. record { header = h; payload = payload; target_user = t.0; tx = t.1 })

module _ (iteration : Iteration) {n : Notify} where
  -- Any number of steps.
  pub data Steps : System n → System n → Type 0 where
    here : {s : System n} → Steps s s
    next : {s t u : System n} → Step iteration s t → Steps t u → Steps s u

  pub Steps-trans : {s t u : System n} → Steps s t → Steps t u → Steps s u
  Steps-trans here q = q
  Steps-trans (next st p) q = next st (Steps-trans p q)

  -- The deliveries that stand last, one after another.
  dispatch_all-Steps :
      (h : PacketHeader) (payload : Bytes) (ts : List (Bytes × Sender)) (before : List Delivery)
      (s : System n)
      → s.sending ≡ before ++ deliveries h payload ts
      → (t : System n) × Steps s t
        × (t.gateway ≡ record s.gateway { shared = dispatch_all h payload ts s.gateway.shared })
        × (t.sending ≡ before)
        × (t.connections ≡ s.connections)
        × (t.next ≡ s.next)
  unfolding dispatch_all
  dispatch_all-Steps h payload [] before s e = (s, here, refl, e ∙ append-nil before, refl, refl)
  dispatch_all-Steps h payload ((u, tx) ∷ ts) before s e =
      let d : Delivery = record { header = h; payload = payload; target_user = u; tx = tx } in
      let after = record (set_shared s (dispatch h payload (u, tx) s.gateway.shared)) {
        sending = before ++ deliveries h payload ts;
      } in
      let (t, steps, shared, rest, same, upto) =
        dispatch_all-Steps h payload ts before after refl in
      (t, next (delivers d before (deliveries h payload ts) e) steps, shared, rest, same, upto)

  -- From any state in which a routing task was spawned, its blocks run one after another, with no
  -- other block between them, take it from the spawned tasks, have the effect of `route` on what
  -- the tasks share, leave the counters and the connections and leave no delivery of it due.
  pub route-Steps :
      (h : PacketHeader) (payload : Bytes) (before after : List (PacketHeader × Bytes))
      (s : System n)
      → s.gateway.spawned ≡ before ++ (h, payload) ∷ after
      → (t : System n) × Steps s t
        × (t.gateway ≡ record s.gateway {
          shared = route iteration h payload s.gateway.shared;
          spawned = before ++ after;
        })
        × (t.sending ≡ s.sending)
        × (t.connections ≡ s.connections)
        × (t.next ≡ s.next)
  unfolding resolved
  route-Steps h payload before after s e =
      elim (Option-cases (lookup (room_id_str h) s.gateway.shared.rooms)) [
        | inl gone ↦ (
          _,
          next (resolves h payload before after e) here,
          rw (route-no_room iteration h payload s.gateway.shared gone) refl,
          rw (gone, resolved) (append-nil s.sending),
          refl,
          refl,
        )
        | inr (room, found) ↦
            let ts = targets iteration h h.target_type room in
            let (t, steps, shared, rest, same, upto) =
              dispatch_all-Steps h payload ts s.sending _ (rw (found, resolved) refl) in
            (
              t,
              next (resolves h payload before after e) steps,
              shared ∙ rw (route-found iteration h payload s.gateway.shared room found) refl,
              rest,
              same,
              upto,
            )
      ]
