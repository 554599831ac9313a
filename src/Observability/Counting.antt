-- ===== src/Observability/Counting.antt =====
-- What the labelled counters of src/observability.rs say after many packets or errors.
use Prim.Native.String.{String}
use text.Mathlib.Text.{◌==◌ as ◌==ₛ◌}
use ws_gateway.Common.{
  Option, some, ℕ, suc, ◌+◌, ◌%◌, ◌^◌, ◌<◌, ◌≡◌, refl, ap, sym, ◌∙◌, arith, ◌&&◌, List, [], ◌∷◌,
  Bool-cases, inl, inr, ◌==◌, if◌then◌else◌,
}
use mathlib.Core.Option.{some-injective}
use ws_gateway.Protocol.PacketType
use ws_gateway.Protocol.PacketType.{PacketType, raw_motion, ai_event, system_cmd, heartbeat, as_u8}
use ws_gateway.Protocol.TargetType
use ws_gateway.Protocol.TargetType.{TargetType, broadcast, unicast}
use ws_gateway.Protocol.Header.{
  DecodeError, too_short, unsupported_version, non_zero_reserved, unknown_packet_type,
  unknown_target_type, non_ascii_room_id, non_ascii_user_id, length_mismatch,
}
use ws_gateway.Observability.{
  packet_type_label, target_type_label, drop_reason_label, Recorder, routed_key, dropped_key,
  metric_packet_routed, metric_packet_dropped_decode,
}

-- The type that a label stands for.
type_of : String → Option PacketType
type_of s =
    if s ==ₛ "RawMotion"
    then some raw_motion
    else if s ==ₛ "AiEvent"
    then some ai_event
    else if s ==ₛ "SystemCmd"
    then some system_cmd
    else some heartbeat

type_of-label : (a : PacketType) → type_of (packet_type_label a) ≡ some a
unfolding type_of packet_type_label
type_of-label raw_motion = refl
type_of-label ai_event = refl
type_of-label system_cmd = refl
type_of-label heartbeat = refl

type_of-target : String → Option TargetType
type_of-target s = if s ==ₛ "Broadcast" then some broadcast else some unicast

type_of-target-label : (a : TargetType) → type_of-target (target_type_label a) ≡ some a
unfolding type_of-target target_type_label
type_of-target-label broadcast = refl
type_of-target-label unicast = refl

-- Which error it is, without its numbers.
abbrev pub kind : DecodeError → ℕ
kind too_short = 0
kind (unsupported_version v) = 1
kind (non_zero_reserved v) = 2
kind (unknown_packet_type v) = 3
kind (unknown_target_type v) = 4
kind non_ascii_room_id = 5
kind non_ascii_user_id = 6
kind (length_mismatch declared actual) = 7

-- The error that a reason stands for.
kind_of : String → ℕ
kind_of s =
    if s ==ₛ "too_short"
    then 0
    else if s ==ₛ "unsupported_version"
    then 1
    else if s ==ₛ "non_zero_reserved"
    then 2
    else if s ==ₛ "unknown_packet_type"
    then 3
    else if s ==ₛ "unknown_target_type"
    then 4
    else if s ==ₛ "non_ascii_room_id"
    then 5
    else if s ==ₛ "non_ascii_user_id"
    then 6
    else 7

kind_of-drop_reason_label : (e : DecodeError) → kind_of (drop_reason_label e) ≡ kind e
unfolding kind_of drop_reason_label
kind_of-drop_reason_label too_short = refl
kind_of-drop_reason_label (unsupported_version v) = refl
kind_of-drop_reason_label (non_zero_reserved v) = refl
kind_of-drop_reason_label (unknown_packet_type v) = refl
kind_of-drop_reason_label (unknown_target_type v) = refl
kind_of-drop_reason_label non_ascii_room_id = refl
kind_of-drop_reason_label non_ascii_user_id = refl
kind_of-drop_reason_label (length_mismatch declared actual) = refl

-- The reason under which an error of a kind is counted.
reason_of : ℕ → String
reason_of k =
    if k == 0
    then "too_short"
    else if k == 1
    then "unsupported_version"
    else if k == 2
    then "non_zero_reserved"
    else if k == 3
    then "unknown_packet_type"
    else if k == 4
    then "unknown_target_type"
    else if k == 5
    then "non_ascii_room_id"
    else if k == 6
    then "non_ascii_user_id"
    else "length_mismatch"

reason_of-kind : (e : DecodeError) → reason_of (kind e) ≡ drop_reason_label e
unfolding reason_of drop_reason_label
reason_of-kind too_short = refl
reason_of-kind (unsupported_version v) = refl
reason_of-kind (non_zero_reserved v) = refl
reason_of-kind (unknown_packet_type v) = refl
reason_of-kind (unknown_target_type v) = refl
reason_of-kind non_ascii_room_id = refl
reason_of-kind non_ascii_user_id = refl
reason_of-kind (length_mismatch declared actual) = refl

routed_key-injective :
    (p p' : PacketType) (q q' : TargetType)
    → routed_key p q ≡ routed_key p' q'
    → (p ≡ p') × (q ≡ q')
routed_key-injective p p' q q' e =
    let l : packet_type_label p ≡ packet_type_label p' = cc in
    let m : target_type_label q ≡ target_type_label q' = cc in
    let some_p : some p ≡ some p' = sym (type_of-label p) ∙ ap type_of l ∙ type_of-label p' in
    let some_q : some q ≡ some q' =
      sym (type_of-target-label q) ∙ ap type_of-target m ∙ type_of-target-label q' in
    (cc, cc)

as_u8-injective : (a b : PacketType) → as_u8 a ≡ as_u8 b → a ≡ b
as_u8-injective a b e = some-injective a b (
    sym ((PacketType.from_u8-as_u8 (as_u8 a) a).1 refl)
    ∙ (PacketType.from_u8-as_u8 (as_u8 a) b).1 e)

target_as_u8-injective : (a b : TargetType) → TargetType.as_u8 a ≡ TargetType.as_u8 b → a ≡ b
target_as_u8-injective a b e = some-injective a b (
    sym ((TargetType.from_u8-as_u8 (TargetType.as_u8 a) a).1 refl)
    ∙ (TargetType.from_u8-as_u8 (TargetType.as_u8 a) b).1 e)

-- How many of the packets are of a type and a target.
unfoldable pub count_routed : PacketType → TargetType → List (PacketType × TargetType) → ℕ
count_routed pt t [] = 0
count_routed pt t ((p, q) ∷ ps) =
    let rest = count_routed pt t ps in
    if (as_u8 p == as_u8 pt) && (TargetType.as_u8 q == TargetType.as_u8 t) then suc rest else rest

unfoldable pub count_kind : ℕ → List DecodeError → ℕ
count_kind k [] = 0
count_kind k (e ∷ es) = let rest = count_kind k es in if kind e == k then suc rest else rest

module _ (r : Recorder) where
  pub routed_all : List (PacketType × TargetType) → r.State → r.State
  routed_all [] s = s
  routed_all ((p, q) ∷ ps) s = routed_all ps (metric_packet_routed r p q s)

  routed_step :
      (p pt : PacketType) (q t : TargetType) (s : r.State)
      → r.value (metric_packet_routed r p q s) (routed_key pt t) ≡ (
          if (as_u8 p == as_u8 pt) && (TargetType.as_u8 q == TargetType.as_u8 t)
          then (r.value s (routed_key pt t) + 1) % 2 ^ 64
          else r.value s (routed_key pt t))
  unfolding metric_packet_routed
  routed_step p pt q t s =
      elim (Bool-cases ((as_u8 p == as_u8 pt) && (TargetType.as_u8 q == TargetType.as_u8 t))) [
        | inl hit ↦
            let p_same : p ≡ pt = as_u8-injective p pt (ground arith) in
            let q_same : q ≡ t = target_as_u8-injective q t (ground arith) in
            rw (hit, p_same, q_same) (r.counts s (routed_key pt t))
        | inr miss ↦ rw miss (
            r.keeps s (routed_key p q) (routed_key pt t) (λ e.
              let (ep, eq) = routed_key-injective p pt q t e in
              let cp = ap as_u8 ep in let cq = ap TargetType.as_u8 eq in ground arith))
      ]

  -- After any packets that were recorded as routed, the counter with the labels of a packet type and
  -- a target type has grown, modulo 2^64, by the number of those packets that are of both.
  pub routed_all_counts :
      (ps : List (PacketType × TargetType)) (pt : PacketType) (t : TargetType) (s : r.State)
      → r.value s (routed_key pt t) < 2 ^ 64
      → r.value (routed_all ps s) (routed_key pt t)
        ≡ (r.value s (routed_key pt t) + count_routed pt t ps) % 2 ^ 64
  unfolding routed_all count_routed
  routed_all_counts [] pt t s h = omega arith
  routed_all_counts ((p, q) ∷ ps) pt t s h =
      let step = routed_step p pt q t s in
      let later = routed_all_counts ps pt t (metric_packet_routed r p q s) in ground arith

  pub dropped_all : List DecodeError → r.State → r.State
  dropped_all [] s = s
  dropped_all (e ∷ es) s = dropped_all es (metric_packet_dropped_decode r e s)

  dropped_step :
      (e e' : DecodeError) (s : r.State)
      → r.value (metric_packet_dropped_decode r e s) (dropped_key (drop_reason_label e')) ≡ (
          if kind e == kind e'
          then (r.value s (dropped_key (drop_reason_label e')) + 1) % 2 ^ 64
          else r.value s (dropped_key (drop_reason_label e')))
  unfolding metric_packet_dropped_decode
  dropped_step e e' s = elim (Bool-cases (kind e == kind e')) [
    | inl hit ↦
        let k_same : kind e ≡ kind e' = ground arith in
        let l_same : drop_reason_label e ≡ drop_reason_label e' =
          sym (reason_of-kind e) ∙ ap reason_of k_same ∙ reason_of-kind e' in
        rw (metric_packet_dropped_decode, hit, l_same)
          (r.counts s (dropped_key (drop_reason_label e')))
    | inr miss ↦ rw miss (
        r.keeps s _ _ (λ p.
          let l : drop_reason_label e ≡ drop_reason_label e' = cc in
          let k : kind e ≡ kind e' =
            sym (kind_of-drop_reason_label e) ∙ ap kind_of l ∙ kind_of-drop_reason_label e' in
          ground arith))
  ]

  -- After any decode errors that were recorded as drops, the counter with the reason of an error has
  -- grown, modulo 2^64, by the number of those errors that are of its kind, whatever their numbers.
  pub dropped_all_counts :
      (es : List DecodeError) (e : DecodeError) (s : r.State)
      → r.value s (dropped_key (drop_reason_label e)) < 2 ^ 64
      → r.value (dropped_all es s) (dropped_key (drop_reason_label e))
        ≡ (r.value s (dropped_key (drop_reason_label e)) + count_kind (kind e) es) % 2 ^ 64
  unfolding dropped_all count_kind
  dropped_all_counts [] e s h = omega arith
  dropped_all_counts (d ∷ es) e s h =
      let step = dropped_step d e s in
      let later = dropped_all_counts es e (metric_packet_dropped_decode r d s) in ground arith
