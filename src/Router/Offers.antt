-- ===== src/Router/Offers.antt =====
-- `dispatch` and the loop over the targets: what they do to the channels and to the registry.
use ws_gateway.Common.{
  ℕ, zero, suc, ◌≡◌, refl, ap, ◌∙◌, Bool, true, false, List, [], ◌∷◌, arith, if◌then◌else◌, ◌==◌,
  Result, ok, err,
}
use ws_gateway.Protocol.PacketType.{PacketType, raw_motion, ai_event, system_cmd, heartbeat}
use ws_gateway.Protocol.Fields.{Bytes}
use ws_gateway.Protocol.Header.{PacketHeader, encode}
use ws_gateway.Channel.{Notify, ChannelInner, try_send, send_drop_oldest}
use ws_gateway.Router.{
  Sender, Retry, Shared, count_sender, deliver, dispatch, dispatch_all, dispatch_cmd,
}

-- Doing something a number of times.
abbrev pub times {ℓ} : {A : Type ℓ} → ℕ → (A → A) → A → A
times zero f x = x
times (suc k) f x = times k f (f x)

pub times_if {ℓ} :
    {A : Type ℓ} (b : Bool) (k : ℕ) (f : A → A) (x : A)
    → times k f (if b then f x else x) ≡ times (if b then suc k else k) f x
times_if true k f x = refl
times_if false k f x = refl

module _ {n : Notify} where
  -- What one offer of a packet does to a channel: motion frames evict, all else is refused when
  -- the channel is full.
  unfoldable pub offer : PacketType → Bytes → ChannelInner n Bytes → ChannelInner n Bytes
  offer raw_motion x c = send_drop_oldest x c
  offer system_cmd x c = (try_send x c).1
  offer ai_event x c = (try_send x c).1
  offer heartbeat x c = (try_send x c).1

  dispatch_cmd-channels :
      (t : Retry) (r : Result (Unit {0}) Bytes × ChannelInner n Bytes) (s : Shared n) (c : Sender)
      → (dispatch_cmd t r s).channels c ≡ (if t.tx == c then r.1 else s.channels c)
  unfolding dispatch_cmd
  dispatch_cmd-channels t (ok _, c') s c = refl
  dispatch_cmd-channels t (err _, c') s c = refl

  deliver-channels :
      (pt : PacketType) (t : Retry) (s : Shared n) (c : Sender)
      → (deliver pt t s).channels c
        ≡ (if t.tx == c then offer pt t.packet (s.channels c) else s.channels c)
  unfolding deliver offer
  deliver-channels raw_motion t s c = ground arith
  deliver-channels system_cmd t s c =
      ground (arith, dispatch_cmd-channels t (try_send t.packet (s.channels t.tx)) s c)
  deliver-channels ai_event t s c = ground arith
  deliver-channels heartbeat t s c = ground arith

  dispatch_cmd-rooms :
      (t : Retry) (r : Result (Unit {0}) Bytes × ChannelInner n Bytes) (s : Shared n)
      → (dispatch_cmd t r s).rooms ≡ s.rooms
  unfolding dispatch_cmd
  dispatch_cmd-rooms t (ok _, c') s = refl
  dispatch_cmd-rooms t (err _, c') s = refl

  pub deliver-rooms :
      (pt : PacketType) (t : Retry) (s : Shared n) → (deliver pt t s).rooms ≡ s.rooms
  unfolding deliver
  deliver-rooms raw_motion t s = refl
  deliver-rooms system_cmd t s = dispatch_cmd-rooms t (try_send t.packet (s.channels t.tx)) s
  deliver-rooms ai_event t s = refl
  deliver-rooms heartbeat t s = refl

  module _ (h : PacketHeader) (payload : Bytes) where
    abbrev pub offered : ChannelInner n Bytes → ChannelInner n Bytes
    offered = offer h.packet_type (encode h payload)

    pub dispatch-channels :
        (u : Bytes) (tx : Sender) (s : Shared n) (c : Sender)
        → (dispatch h payload (u, tx) s).channels c
          ≡ (if tx == c then offered (s.channels c) else s.channels c)
    unfolding dispatch
    dispatch-channels u tx s c = deliver-channels h.packet_type _ s c

    pub dispatch_all-channels :
        (ts : List (Bytes × Sender)) (s : Shared n) (c : Sender)
        → (dispatch_all h payload ts s).channels c
          ≡ times (count_sender c ts) offered (s.channels c)
    unfolding dispatch_all
    dispatch_all-channels [] s c = refl
    dispatch_all-channels ((u, tx) ∷ ts) s c =
        dispatch_all-channels ts (dispatch h payload (u, tx) s) c
        ∙ ap (times (count_sender c ts) offered) (dispatch-channels u tx s c)
        ∙ times_if (tx == c) (count_sender c ts) offered (s.channels c)

    pub dispatch_all-rooms :
        (ts : List (Bytes × Sender)) (s : Shared n) → (dispatch_all h payload ts s).rooms ≡ s.rooms
    unfolding dispatch_all dispatch
    dispatch_all-rooms [] s = refl
    dispatch_all-rooms ((u, tx) ∷ ts) s =
        dispatch_all-rooms ts (dispatch h payload (u, tx) s) ∙ deliver-rooms h.packet_type _ s
