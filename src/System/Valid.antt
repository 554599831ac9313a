-- ===== src/System/Valid.antt =====
-- The invariant of the system, part by part, and the operations of src/routing.rs that keep it.
use ws_gateway.Common.{
  ℕ, ◌≡◌, refl, ap, ◌∙◌, inl, inr, List, ◌∷◌, ◌++◌, ◌==◌, ==_iff, Bool-cases, All, All-append,
  All-append_left, All-append_right, All-map, Result, ok, err,
}
use ws_gateway.Protocol.Fields.{Bytes}
use ws_gateway.Protocol.Header.{encode}
use ws_gateway.Channel.{Notify, ChannelInner, try_send}
use ws_gateway.Router.{Sender, Rooms, Retry, Shared, update, dispatch}
use ws_gateway.Router.Offers.{dispatch-channels, deliver-rooms}
use ws_gateway.Router.Relay.{
  IsSound, capacity-offer, capacity-try_send, offer-IsSound, try_send-IsSound,
}
use ws_gateway.Router.Commands.{dispatch-retries}
use ws_gateway.Network.{ws_channel_capacity}
use ws_gateway.State.{System, Delivery, attempted}
use ws_gateway.System.World.{
  World, Owns, Reaches, Shows, IsSpawned, IsDelivery, IsDelivery-Reaches, Extends, Owns-Extends,
  Reaches-Extends, Shows-Extends, IsSpawned-Extends, IsDelivery-Extends,
}
use ws_gateway.System.Tidy.{IsMember, IsTidy}
use ws_gateway.System.Queues.{offer-Holds, try_send-Holds, try_send-returns}

pub record IsChannel {n : Notify} (w : World) (c : Sender) (channel : ChannelInner n Bytes)
    : Type 0 where
  pub items : All (Reaches w c) channel.queue
  pub capacity : channel.capacity ≡ ws_channel_capacity
  pub sound : IsSound channel

pub record IsRetry (w : World) (t : Retry) : Type 0 where
  pub carried : Reaches w t.tx t.packet
  pub owned : Owns w t.tx t.room_id t.user_id

pub record IsShared {n : Notify} (w : World) (s : Shared n) : Type 0 where
  pub rooms : IsTidy w s.rooms
  pub channels : (c : Sender) → IsChannel w c (s.channels c)
  pub retries : All (IsRetry w) s.retries

pub record IsSystem {n : Notify} (w : World) (s : System n) : Type 0 where
  pub shared : IsShared w s.gateway.shared
  pub spawned : All (IsSpawned w) s.gateway.spawned
  pub sending : All (IsDelivery w) s.sending
  pub frames : (c : Sender) → All (Shows w c) (s.connections c).frames

module _ {w w' : World} (more : Extends w w') where
  IsTidy-Extends : (rooms : Rooms) → IsTidy w rooms → IsTidy w' rooms
  IsTidy-Extends rooms h =
      All-map _ _ rooms
        (λ e v.
          All-map (IsMember w e.0) (IsMember w' e.0) e.1 (λ m o. Owns-Extends more m.1 e.0 m.0 o) v)
        h

  IsRetry-Extends : (t : Retry) → IsRetry w t → IsRetry w' t
  IsRetry-Extends t v = record {
    carried = Reaches-Extends more t.tx t.packet v.carried;
    owned = Owns-Extends more t.tx t.room_id t.user_id v.owned;
  }

  pub IsSystem-Extends : {n : Notify} (s : System n) → IsSystem w s → IsSystem w' s
  IsSystem-Extends s v = record {
    shared = record {
      rooms = IsTidy-Extends s.gateway.shared.rooms v.shared.rooms;
      channels = λ c. record {
        items =
            All-map _ _ (s.gateway.shared.channels c).queue (λ x. Reaches-Extends more c x)
              (v.shared.channels c).items;
        capacity = (v.shared.channels c).capacity;
        sound = (v.shared.channels c).sound;
      };
      retries = All-map _ _ s.gateway.shared.retries IsRetry-Extends v.shared.retries;
    };
    spawned = All-map _ _ s.gateway.spawned (λ p. IsSpawned-Extends more p) v.spawned;
    sending = All-map _ _ s.sending (λ d. IsDelivery-Extends more d) v.sending;
    frames = λ c. All-map _ _ (s.connections c).frames (λ f. Shows-Extends more c f) (v.frames c);
  }

pub update-cases {ℓ κ} :
    {A : Type ℓ} (P : ℕ → A → Type κ) (f : ℕ → A) (i : ℕ) (a : A)
    → P i a
    → ((j : ℕ) → P j (f j))
    → (j : ℕ) → P j (update f i a j)
update-cases P f i a h rest j = elim (Bool-cases (i == j)) [
  | inl hit ↦ let same : i ≡ j = (==_iff i j).0 hit in rw hit (rw same at h)
  | inr miss ↦ rw miss (rest j)
]

-- Without one element the rest is as it was.
pub All-without {ℓ κ} :
    {A : Type ℓ} (P : A → Type κ) (before : List A) (x : A) (after all : List A)
    → all ≡ before ++ x ∷ after
    → All P all
    → P x × All P (before ++ after)
All-without P before x after all e h =
    let split : All P (before ++ x ∷ after) = rw e at h in
    let rest = All-append_right P before (x ∷ after) split in
    (rest.0, All-append P before after (All-append_left P before (x ∷ after) split) rest.1)

module _ {n : Notify} (w : World) where
  pub IsShared-set_channel :
      (s : Shared n) (i : Sender) (c : ChannelInner n Bytes)
      → IsShared w s
      → IsChannel w i c
      → IsShared w (record s { channels = update s.channels i c })
  IsShared-set_channel s i c v h = record {
    rooms = v.rooms;
    channels = update-cases (λ j a. IsChannel w j a) s.channels i c h v.channels;
    retries = v.retries;
  }

  pub IsShared-dispatch :
      (s : Shared n) (d : Delivery)
      → IsShared w s
      → IsDelivery w d
      → IsShared w (dispatch d.header d.payload (d.target_user, d.tx) s)
  unfolding dispatch
  IsShared-dispatch s d v h = record {
    rooms = rw (deliver-rooms d.header.packet_type _ s) v.rooms;
    channels = λ c.
        rw (dispatch-channels d.header d.payload d.target_user d.tx s c)
          (elim (Bool-cases (d.tx == c)) [
            | inl hit ↦
                let same : d.tx ≡ c = (==_iff d.tx c).0 hit in
                rw hit (record {
                  items =
                      offer-Holds (Reaches w c) d.header.packet_type (encode d.header d.payload)
                        (s.channels c) (rw same at (IsDelivery-Reaches w d h)) (v.channels c).items;
                  capacity =
                      capacity-offer d.header.packet_type (encode d.header d.payload) (s.channels c)
                      ∙ (v.channels c).capacity;
                  sound =
                      offer-IsSound d.header.packet_type (encode d.header d.payload) (s.channels c)
                        (v.channels c).sound;
                })
            | inr miss ↦ rw miss (v.channels c)
          ]);
    retries = elim (dispatch-retries d.header d.payload d.target_user d.tx s) [
      | inl (_, e) ↦ rw e (
          All-append (IsRetry w) s.retries _ v.retries (
            record {
              carried = IsDelivery-Reaches w d h;
              owned = record {
                made = h.addressed.made;
                in_room = h.addressed.same_room;
                as_user = h.named;
              };
            },
            tt,
          ))
      | inr (_, e) ↦ rw e v.retries
    ];
  }

  pub IsShared-attempted :
      (s : Shared n) (before : List Retry) (t : Retry) (after : List Retry)
      → s.retries ≡ before ++ t ∷ after
      → IsShared w s
      → IsShared w (attempted before t after (try_send t.packet (s.channels t.tx)) s)
  unfolding attempted
  IsShared-attempted s before t after e v =
      let (mine, rest) = All-without (IsRetry w) before t after s.retries e v.retries in
      by_result mine rest (try_send t.packet (s.channels t.tx)) refl
    where
      sent :
          IsRetry w t
          → (c : ChannelInner n Bytes) → (try_send t.packet (s.channels t.tx)).1 ≡ c
          → IsChannel w t.tx c
      sent mine c p = rw (← p) (record {
        items =
            try_send-Holds (Reaches w t.tx) t.packet (s.channels t.tx) mine.carried
              (v.channels t.tx).items;
        capacity = capacity-try_send t.packet (s.channels t.tx) ∙ (v.channels t.tx).capacity;
        sound = try_send-IsSound t.packet (s.channels t.tx) (v.channels t.tx).sound;
      })

      by_result :
          IsRetry w t
          → All (IsRetry w) (before ++ after)
          → (r : Result (Unit {0}) Bytes × ChannelInner n Bytes)
          → try_send t.packet (s.channels t.tx) ≡ r
          → IsShared w (attempted before t after r s)
      by_result mine rest (ok _, c) p = record {
        rooms = v.rooms;
        channels =
            update-cases (λ j a. IsChannel w j a) s.channels t.tx c (sent mine c (ap (λ q. q.1) p))
              v.channels;
        retries = rest;
      }
      by_result mine rest (err returned, c) p =
          let same : returned ≡ t.packet =
            try_send-returns (Reaches w t.tx) t.packet returned (s.channels t.tx)
              (ap (λ q. q.0) p) in
          record {
            rooms = v.rooms;
            channels =
                update-cases (λ j a. IsChannel w j a) s.channels t.tx c
                  (sent mine c (ap (λ q. q.1) p)) v.channels;
            retries = rw same (rw e at v.retries);
          }
