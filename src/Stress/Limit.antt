-- ===== src/Stress/Limit.antt =====
-- examples/stress.rs: how many clients the user field has room for.
use ws_gateway.Common.{
  ℕ, zero, suc, ◌+◌, ◌*◌, ◌^◌, ◌<◌, ◌≤◌, ◌≡◌, refl, ap, inl, inr, none, some, List, [], ◌∷◌, ◌++◌,
  length, length-append, ltb, ltb→lt, arith, Bool-cases, All, All-append, ok,
}
use ws_gateway.Protocol.PacketType.{ai_event}
use ws_gateway.Protocol.TargetType.{broadcast}
use ws_gateway.Protocol.Fields.{Bytes}
use ws_gateway.Protocol.Fields.Laws.{IsText}
use ws_gateway.Protocol.Header.{PacketHeader, encode, decode, room_id_str}
use ws_gateway.Protocol.Header.New.{new_cases, new-decode, new-types}
use ws_gateway.Decimal.{decimal}
use ws_gateway.Stress.{bench, warm, user, msg, make_packet, send_each, rounds, run}
use ws_gateway.Decimal.Laws.{length-decimal, length-decimal_from, decimal-IsText}

-- A packet that the gateway reads as an event for everyone in the room "bench".
pub record IsBench (wire : Bytes) : Type 0 where
  pub header : PacketHeader
  pub payload : Bytes
  pub decodes : decode wire ≡ ok (header, payload)
  pub event : header.packet_type ≡ ai_event
  pub everyone : header.target_type ≡ broadcast
  pub room : room_id_str header ≡ bench

-- The word before the number: four letters.
record IsPrefix (prefix : Bytes) : Type 0 where
  four : length prefix ≡ 4
  text : IsText prefix

name-IsText : (prefix : Bytes) (i : ℕ) → IsPrefix prefix → IsText (prefix ++ decimal i)
name-IsText prefix i p = All-append _ prefix (decimal i) p.text (decimal-IsText i)

bench-IsText : IsText bench
bench-IsText = ground arith

make_packet-sends :
    (prefix payload : Bytes) (i : ℕ)
    → IsPrefix prefix
    → length payload < 2 ^ 16
    → i < 10000
    → (wire : Bytes) × (make_packet (prefix ++ decimal i) payload ≡ some wire) × IsBench wire
unfolding make_packet
make_packet-sends prefix payload i p l small =
    let (h, made, decodes, room, _) =
      new-decode ai_event broadcast bench (prefix ++ decimal i) 0 payload bench-IsText (omega arith)
        (name-IsText prefix i p)
        (omega (arith, length-append prefix (decimal i), p.four, length-decimal 3 i small))
        (omega arith) l in
    let (event, everyone) =
      new-types ai_event broadcast bench (prefix ++ decimal i) 0 (length payload) h made in
    (
      encode h payload,
      rw (make_packet, made) refl,
      record {
        header = h;
        payload = payload;
        decodes = decodes;
        event = event;
        everyone = everyone;
        room = room;
      },
    )

make_packet-none :
    (prefix payload : Bytes) (i : ℕ)
    → IsPrefix prefix
    → 10000 ≤ i
    → make_packet (prefix ++ decimal i) payload ≡ none
unfolding make_packet
make_packet-none prefix payload i p big =
    elim (new_cases ai_event broadcast bench (prefix ++ decimal i) 0 (length payload)) [
      | inl (_, e) ↦ rw (make_packet, e) refl
      | inr (inl (_, _, e)) ↦ rw (make_packet, e) refl
      | inr (inr (inl (_, _, _, e))) ↦ rw (make_packet, e) refl
      | inr (inr (inr (_, fits, _, _))) ↦ absurd (
          omega
            (arith, length-append prefix (decimal i), p.four, length-decimal_from 4 i big, fits.1))
    ]

send_each-sends :
    (prefix payload : Bytes) (i k : ℕ)
    → IsPrefix prefix
    → length payload < 2 ^ 16
    → i + k ≤ 10000
    → (wires : List Bytes) × (send_each prefix payload i k ≡ some wires)
      × (length wires ≡ k)
      × All IsBench wires
unfolding send_each
send_each-sends prefix payload i zero p l h = ([], refl, refl, tt)
send_each-sends prefix payload i (suc k) p l h =
    let (wire, made, good) = make_packet-sends prefix payload i p l (omega arith) in
    let (rest, sent, n, all) = send_each-sends prefix payload (i + 1) k p l (omega arith) in
    (wire ∷ rest, rw (made, sent) refl, ap suc n, (good, all))

send_each-none :
    (prefix payload : Bytes) (i k : ℕ)
    → IsPrefix prefix
    → length payload < 2 ^ 16
    → i ≤ 10000
    → 10000 < i + k
    → send_each prefix payload i k ≡ none
unfolding send_each
send_each-none prefix payload i zero p l h more = absurd (omega arith)
send_each-none prefix payload i (suc k) p l h more = elim (Bool-cases (ltb i 10000)) [
  | inl small ↦
      let (wire, made, _) = make_packet-sends prefix payload i p l (ltb→lt i 10000 small) in
      rw (made, send_each-none prefix payload (i + 1) k p l (ground arith) (omega arith)) refl
  | inr big ↦ rw (make_packet-none prefix payload i p (ground arith)) refl
]

warm-IsPrefix : IsPrefix warm
warm-IsPrefix = record { four = refl; text = ground arith }

user-IsPrefix : IsPrefix user
user-IsPrefix = record { four = refl; text = ground arith }

-- A round's payload fits a packet: the number of a round is a `usize`.
payload-fits : (round : ℕ) → round < 2 ^ 64 → length (msg ++ decimal round) < 2 ^ 16
payload-fits round h =
    omega (arith, length-append msg (decimal round), length-decimal 19 round (omega arith))

rounds-sends :
    (clients round m : ℕ)
    → clients ≤ 10000
    → round + m ≤ 2 ^ 64
    → (wires : List Bytes) × (rounds clients round m ≡ some wires)
      × (length wires ≡ m * clients)
      × All IsBench wires
unfolding rounds
rounds-sends clients round zero c h = ([], refl, omega arith, tt)
rounds-sends clients round (suc m) c h =
    let (wires, sent, n, all) =
      send_each-sends user (msg ++ decimal round) 0 clients user-IsPrefix
        (payload-fits round (omega arith)) (omega arith) in
    let (rest, later, n', all') = rounds-sends clients (round + 1) m c (omega arith) in
    (
      wires ++ rest,
      rw (sent, later) refl,
      ground (arith, length-append wires rest, n, n'),
      All-append _ wires rest all all',
    )

-- Up to 10000 clients, a run sends one packet for each client in the warm-up and in each of the
-- rounds (a number of 64 bits), and the gateway's decoder reads every packet as an event for
-- everyone in the room "bench".
pub run-sends :
    (clients messages : ℕ)
    → clients ≤ 10000
    → messages ≤ 2 ^ 64
    → (wires : List Bytes) × (run clients messages ≡ some wires)
      × (length wires ≡ clients + messages * clients)
      × All IsBench wires
unfolding run
run-sends clients messages c m =
    let (warmed, sent, n, all) =
      send_each-sends warm warm 0 clients warm-IsPrefix (omega arith) (omega arith) in
    let (measured, later, n', all') = rounds-sends clients 0 messages c (omega arith) in
    (
      warmed ++ measured,
      rw (sent, later) refl,
      ground (arith, length-append warmed measured, n, n'),
      All-append _ warmed measured all all',
    )

-- The defect: with more than 10000 clients, whatever the number of rounds, a run panics: the
-- name of the client 10000 does not fit the user field.
pub run-none : (clients messages : ℕ) → 10000 < clients → run clients messages ≡ none
unfolding run
run-none clients messages h =
    rw (send_each-none warm warm 0 clients warm-IsPrefix (omega arith) (omega arith) (omega arith))
      refl
