-- ===== src/Router/Commands.antt =====
-- A `SystemCmd` that finds its channel full: the retry task, and what it leaves behind.
use ws_gateway.Common.{
  ℕ, ◌+◌, ◌≤◌, ◌≡◌, ◌⊎◌, inl, inr, refl, ap, none, some, [], ◌∷◌, ◌++◌, arith, length, Result, ok,
  err,
}
use ws_gateway.Protocol.PacketType.{PacketType, raw_motion, ai_event, system_cmd, heartbeat}
use ws_gateway.Protocol.Fields.{Bytes}
use ws_gateway.Protocol.Header.{PacketHeader, room_id_str, encode}
use ws_gateway.DashMap.Laws.{same_refl}
use ws_gateway.Channel.{Notify, ChannelInner, push_back, send_timeout}
use ws_gateway.Channel.Bounds.{try_send_cases}
use ws_gateway.Channel.Timeout.{Sleeps, Ended, before, sent, gave_up, send_timeout_ends}
use ws_gateway.Router.{
  Sender, Retry, Shared, retry_budget, deliver, dispatch, dispatch_cmd, finish_retry,
  unregister_internal, unregister,
}
use ws_gateway.Router.Registry.{sender_of, unregister_lem}

module _ {n : Notify} where
  abbrev Spawns : PacketType → Retry → Shared n → Type 0
  Spawns pt t s =
      (((pt ≡ system_cmd) × ((s.channels t.tx).capacity ≤ length (s.channels t.tx).queue))
        × ((deliver pt t s).retries ≡ s.retries ++ t ∷ []))
      ⊎ (¬ ((pt ≡ system_cmd) × ((s.channels t.tx).capacity ≤ length (s.channels t.tx).queue))
          × ((deliver pt t s).retries ≡ s.retries))

  deliver-retries : (pt : PacketType) (t : Retry) (s : Shared n) → Spawns pt t s
  unfolding deliver dispatch_cmd
  deliver-retries raw_motion t s = inr ((λ h. cc (h.0)), refl)
  deliver-retries ai_event t s = inr ((λ h. cc (h.0)), refl)
  deliver-retries heartbeat t s = inr ((λ h. cc (h.0)), refl)
  deliver-retries system_cmd t s = elim (try_send_cases t.packet (s.channels t.tx)) [
    | inl (free, e) ↦ inr ((λ h. absurd (let f = h.1 in omega arith)), rw (e, dispatch_cmd) refl)
    | inr (full, e) ↦ inl ((refl, full), rw (e, dispatch_cmd) refl)
  ]

  -- `dispatch` spawns one retry task for a command whose channel is full, with the encoded
  -- packet and the names under which to disconnect, and none for any other packet or channel.
  pub dispatch-retries :
      (h : PacketHeader) (payload user : Bytes) (tx : Sender) (s : Shared n)
      → (((h.packet_type ≡ system_cmd) × ((s.channels tx).capacity ≤ length (s.channels tx).queue))
          × ((dispatch h payload (user, tx) s).retries
              ≡ s.retries
                ++ record {
                  tx = tx;
                  packet = encode h payload;
                  room_id = room_id_str h;
                  user_id = user;
                }
                  ∷ []))
        ⊎ (¬ (
              (h.packet_type ≡ system_cmd)
              × ((s.channels tx).capacity ≤ length (s.channels tx).queue))
            × ((dispatch h payload (user, tx) s).retries ≡ s.retries))
  unfolding dispatch
  dispatch-retries h payload user tx s = deliver-retries h.packet_type _ s

  disconnected :
      (t : Retry) (s : Shared n)
      → sender_of (unregister_internal s.rooms t.room_id t.user_id) t.room_id t.user_id ≡ none
  unfolding unregister
  disconnected t s =
      let e = unregister_lem s.rooms t.room_id t.user_id t.room_id t.user_id in
      ground (arith, e, same_refl t.room_id, same_refl t.user_id)

  -- With sleeps of at least five milliseconds a retry ends within eleven attempts: the packet
  -- stands at the back of its channel, as the other tasks left that, and the registry is
  -- unchanged; or 50 milliseconds are over, the packet is given back with the channel as the
  -- others left it, and nobody is registered under the room and user.
  pub retry_ends :
      (clock : ℕ → ℕ) (others : ℕ → ChannelInner n Bytes → ChannelInner n Bytes) (t : Retry)
      (c : ChannelInner n Bytes) (s : Shared n)
      → Sleeps clock
      → (r : Result (Unit {0}) Bytes × ChannelInner n Bytes) × (send_timeout clock others 11 0
            t.packet retry_budget c
          ≡ some r)
        × (((k : ℕ) × (r ≡ (ok tt, push_back t.packet (before clock others retry_budget 0 k c)))
              × (finish_retry t r.0 s ≡ s))
            ⊎ ((k : ℕ) × (r ≡ (err t.packet, before clock others retry_budget 0 k c))
                × (retry_budget ≤ clock (0 + k))
                × (sender_of (finish_retry t r.0 s).rooms t.room_id t.user_id ≡ none)))
  unfolding finish_retry
  retry_ends clock others t c s sleeps =
      let (r, e, end) =
        send_timeout_ends clock others retry_budget sleeps 11 t.packet c (omega arith) in
      (r, e, outcome r end)
    where
      outcome :
          (r : Result (Unit {0}) Bytes × ChannelInner n Bytes)
          → Ended clock others retry_budget 0 t.packet c r
          → ((k : ℕ) × (r ≡ (ok tt, push_back t.packet (before clock others retry_budget 0 k c)))
              × (finish_retry t r.0 s ≡ s))
            ⊎ ((k : ℕ) × (r ≡ (err t.packet, before clock others retry_budget 0 k c))
                × (retry_budget ≤ clock (0 + k))
                × (sender_of (finish_retry t r.0 s).rooms t.room_id t.user_id ≡ none))
      outcome r (sent k room p) = inl (k, p, ap (λ q. finish_retry t q.0 s) p)
      outcome r (gave_up k late full p) = inr (k, p, late, rw p (disconnected t s))
