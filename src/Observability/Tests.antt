-- ===== src/Observability/Tests.antt =====
-- The counters of src/observability.rs on a recorder that lists the increments.
use Prim.Native.String.{String}
use text.Mathlib.Text.{◌==◌ as ◌==ₛ◌}
use text.Mathlib.TextEquality.{eq_iff}
use ws_gateway.Common.{
  ◌≤◌, none, ◌↔◌, ◌⊎◌, ℕ, ◌+◌, ◌%◌, ◌^◌, ◌≡◌, ◌≢◌, refl, arith, Bool, true, false, ◌&&◌, List, [],
  ◌∷◌, if◌then◌else◌, Bool-cases, inl, inr,
}
use ws_gateway.Protocol.PacketType.{ai_event}
use ws_gateway.Protocol.TargetType.{unicast}
use ws_gateway.Decimal.{decimal, thousandths}
use ws_gateway.Observability.Drain.{
  drain_text, drain_text_exact, logged_text, graceful_shutdown_with_drain, terminate, sleep,
  subsec_millis,
}
use ws_gateway.Observability.Setup.{Setup, fresh, init_logging}
use ws_gateway.Observability.{Key, Recorder, routed_key}

abbrev same_labels : List (String × String) → List (String × String) → Bool
same_labels [] [] = true
same_labels [] (l ∷ ls) = false
same_labels (k ∷ ks) [] = false
same_labels (k ∷ ks) (l ∷ ls) = (k.0 ==ₛ l.0) && ((k.1 ==ₛ l.1) && same_labels ks ls)

abbrev same_key : Key → Key → Bool
same_key k j = (k.0 ==ₛ j.0) && same_labels k.1 j.1

abbrev count_key : List Key → Key → ℕ
count_key [] k = 0
count_key (j ∷ js) k = if same_key j k then (count_key js k + 1) % 2 ^ 64 else count_key js k

same_labels_refl : (ls : List (String × String)) → same_labels ls ls ≡ true
same_labels_refl [] = refl
same_labels_refl (l ∷ ls) =
    ground (arith, (eq_iff l.0 l.0).1 refl, (eq_iff l.1 l.1).1 refl, same_labels_refl ls)

same_labels-eq : (ks ls : List (String × String)) → same_labels ks ls ≡ true → ks ≡ ls
same_labels-eq [] [] h = refl
same_labels-eq [] (l ∷ ls) h = cc
same_labels-eq (k ∷ ks) [] h = cc
same_labels-eq ((a, b) ∷ ks) ((c, d) ∷ ls) h =
    ground (arith, (eq_iff a c).0, (eq_iff b d).0, same_labels-eq ks ls)

same_key_refl : (k : Key) → same_key k k ≡ true
same_key_refl (n, ls) = ground (arith, (eq_iff n n).1 refl, same_labels_refl ls)

same_key-eq : (k j : Key) → same_key k j ≡ true → k ≡ j
same_key-eq (n, ks) (m, ls) h = ground (arith, (eq_iff n m).0, same_labels-eq ks ls)

pub counts_key : (s : List Key) (k : Key) → count_key (k ∷ s) k ≡ (count_key s k + 1) % 2 ^ 64
counts_key s k = rw (same_key_refl k) refl

pub keeps_key : (s : List Key) (k j : Key) → k ≢ j → count_key (k ∷ s) j ≡ count_key s j
keeps_key s k j ne = elim (Bool-cases (same_key k j)) [
  | inl hit ↦ absurd (ne (same_key-eq k j hit))
  | inr miss ↦ rw miss refl
]

abbrev recorder : Recorder
recorder = record {
  State = List Key;
  value = count_key;
  increment = λ k s. k ∷ s;
  counts = counts_key;
  keeps = keeps_key;
}

abbrev before : List Key
before = routed_key ai_event unicast ∷ []

abbrev no_calls : Setup ℕ
no_calls = fresh ℕ

logging_once :
    init_logging ℕ (λ n. n) none (init_logging ℕ (λ n. n) none no_calls)
    ≡ init_logging ℕ (λ n. n) none no_calls
unfolding init_logging
logging_once = refl

-- A timeout of 2050 ms is logged as "2.50 s".
drain_text_2050 : drain_text 2_050_000_000 ≡ 50 ∷ 46 ∷ 53 ∷ 48 ∷ []
unfolding drain_text decimal
drain_text_2050 = refl

drain_text_exact_example :
    (thousandths 0 (logged_text (graceful_shutdown_with_drain 2_500_000_000 terminate sleep))
      ≡ 2500)
    ↔ ((subsec_millis 2_500_000_000 ≡ 0) ⊎ (100 ≤ subsec_millis 2_500_000_000))
drain_text_exact_example = drain_text_exact 2_500_000_000 terminate sleep
