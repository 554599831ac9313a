-- ===== src/Network/Closing.antt =====
-- How the task of a connection ends.
use ws_gateway.Common.{
  ℕ, ◌+◌, ◌%◌, ◌^◌, ◌≡◌, ◌⊎◌, inl, inr, refl, ap, sym, ◌∙◌, true, false, none, some, List, [], ◌∷◌,
  arith, Result, ok, err, Bool,
}
use ws_gateway.Protocol.Fields.{Bytes}
use ws_gateway.Protocol.Header.{PacketHeader, DecodeError, decode}
use ws_gateway.Channel.{Notify}
use ws_gateway.Router.{Sender}
use ws_gateway.Network.{
  Gateway, Session, Event, Flow, Frame, close, goes_on, breaks, message_binary, outbound, tick,
  ws_decoded, turn, loop, open_connection, cleanup, handle_ws_connection,
}

-- A frame that leaves the connection open.
abbrev pub IsOpen : Frame → Type 0
IsOpen close = ⊥
IsOpen _ = Unit {0}

module _ {n : Notify} where
  abbrev pub active : Session n → ℕ
  active s = s.gateway.counters.ws_connections_active

  abbrev pub session : Flow n → Session n
  session (goes_on s) = s
  session (breaks s) = s

  pub active-decoded :
      (r : Result (PacketHeader × Bytes) DecodeError) (g : Gateway n)
      → (ws_decoded r g).counters.ws_connections_active ≡ g.counters.ws_connections_active
  unfolding ws_decoded
  active-decoded (ok packet) g = refl
  active-decoded (err e) g = refl

  pub active-turn :
      (now : ℕ) (e : Event n) (s : Session n) → active (session (turn now e s)) ≡ active s
  unfolding turn
  active-turn now (message_binary raw) s = active-decoded (decode raw) _
  active-turn now (outbound (some bytes) true) s = refl
  active-turn now (outbound (some bytes) false) s = refl
  active-turn now (outbound none sent) s = refl
  active-turn now (tick false) s = refl
  active-turn now (tick true) s = ground arith
  active-turn now _ s = refl

  pub Flow-cases :
      (f : Flow n) → ((s : Session n) × (f ≡ goes_on s)) ⊎ ((s : Session n) × (f ≡ breaks s))
  Flow-cases (goes_on s) = inl (s, refl)
  Flow-cases (breaks s) = inr (s, refl)

  active-loop : (es : List (ℕ × Event n)) (s : Session n) → active (session (loop es s)) ≡ active s
  unfolding loop
  active-loop [] s = refl
  active-loop ((now, e) ∷ es) s = elim (Flow-cases (turn now e s)) [
    | inl (s', p) ↦
        rw (p, loop)
          (active-loop es s' ∙ ap (λ f. active (session f)) (sym p) ∙ active-turn now e s)
    | inr (s', p) ↦ rw (p, loop) (ap (λ f. active (session f)) (sym p) ∙ active-turn now e s)
  ]

  -- While the loop of a connection goes on, the gauge of active connections is one more, modulo
  -- 2^64, than before the connection, apart from what other connections count.
  pub handle_counts :
      (tx : Sender) (now : ℕ) (room user : Bytes) (es : List (ℕ × Event n)) (sent : Bool)
      (g : Gateway n) (s : Session n)
      → handle_ws_connection tx now room user es sent g ≡ goes_on s
      → active s ≡ (g.counters.ws_connections_active + 1) % 2 ^ 64
  unfolding handle_ws_connection
  handle_counts tx now room user es sent g s e =
      elim (Flow-cases (loop es (open_connection tx now room user g))) [
        | inl (s', p) ↦
            let same : goes_on s' ≡ goes_on s = rw (p, handle_ws_connection) at e in
            ap (λ f. active (session f)) (sym same ∙ sym p)
            ∙ active-loop es (open_connection tx now room user g)
        | inr (s', p) ↦
            let clash : breaks (cleanup room user sent s') ≡ goes_on s =
              rw (p, handle_ws_connection) at e in
            cc
      ]
