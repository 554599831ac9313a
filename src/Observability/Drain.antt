-- ===== src/Observability/Drain.antt =====
-- `shutdown_signal` and `graceful_shutdown_with_drain` of src/observability.rs: what they log, in
-- which order, and how the drain timeout reads. A duration is its number of nanoseconds.
use ws_gateway.Common.{
  ℕ, ◌+◌, ◌*◌, ◌/◌, ◌%◌, ◌≤◌, ◌≡◌, ◌↔◌, ◌⊎◌, ◌∷◌, ◌++◌, List, [], ◌∙◌, refl, arith,
}
use ws_gateway.Protocol.Fields.{Bytes}
use ws_gateway.Decimal.{decimal, thousandths, fraction}
use ws_gateway.Decimal.Laws.{thousandths-decimal, fraction-decimal, misread}

abbrev pub as_secs : ℕ → ℕ
as_secs d = d / 1_000_000_000

abbrev pub subsec_millis : ℕ → ℕ
subsec_millis d = d % 1_000_000_000 / 1_000_000

-- The signal that comes first, and what comes first of the end of the drain and of its timeout.
pub data Signal : Type 0 where
  ctrl_c terminate : Signal

pub data Winner : Type 0 where
  drain sleep : Winner

-- What is logged, and the exit of the process. `draining` carries the text of the timeout.
pub data LogEvent : Type 0 where
  received_sigint received_sigterm shutdown_signal_received : LogEvent
  draining : Bytes → LogEvent
  drain_complete drain_timeout_reached : LogEvent
  exit : ℕ → LogEvent

unfoldable pub shutdown_signal : Signal → List LogEvent
shutdown_signal ctrl_c = received_sigint ∷ shutdown_signal_received ∷ []
shutdown_signal terminate = received_sigterm ∷ shutdown_signal_received ∷ []

-- `{}.{} s` of the seconds and the milliseconds, without the unit.
unfoldable pub drain_text : ℕ → Bytes
drain_text d = decimal (as_secs d) ++ 46 ∷ decimal (subsec_millis d)

abbrev pub drained : Winner → LogEvent
drained drain = drain_complete
drained sleep = drain_timeout_reached

unfoldable pub graceful_shutdown_with_drain : ℕ → Signal → Winner → List LogEvent
unfolding shutdown_signal drain_text
graceful_shutdown_with_drain drain_timeout signal winner =
    shutdown_signal signal ++ draining (drain_text drain_timeout) ∷ drained winner ∷ exit 0 ∷ []

-- The text is put into the line after the two of the signal.
abbrev pub logged_text : List LogEvent → Bytes
logged_text (a ∷ b ∷ draining text ∷ rest) = text
logged_text _ = []

thousandths-point : (n m : ℕ) → thousandths n (46 ∷ decimal m) ≡ n * 1000 + fraction 100 (decimal m)
unfolding thousandths
thousandths-point n m = refl

drain_text-reads :
    (d : ℕ) → thousandths 0 (drain_text d) ≡ as_secs d * 1000 + misread (subsec_millis d)
unfolding drain_text
drain_text-reads d =
    thousandths-decimal (as_secs d) (46 ∷ decimal (subsec_millis d))
    ∙ thousandths-point (as_secs d) (subsec_millis d)
    ∙ omega (arith, fraction-decimal (subsec_millis d) (omega arith))

exact :
    (d : ℕ)
    → (thousandths 0 (drain_text d) ≡ d / 1_000_000)
      ↔ ((subsec_millis d ≡ 0) ⊎ (100 ≤ subsec_millis d))
exact d = (λ same. ground (arith, drain_text-reads d), λ long. ground (arith, drain_text-reads d))

-- The defect: the drain timeout that `graceful_shutdown_with_drain` logs, whatever signal came and
-- however the drain ends, reads as the whole milliseconds of the timeout exactly when its part below
-- a second is less than a millisecond or at least 100 milliseconds: the milliseconds are printed
-- without their leading zeros.
pub drain_text_exact :
    (d : ℕ) (signal : Signal) (winner : Winner)
    → (thousandths 0 (logged_text (graceful_shutdown_with_drain d signal winner)) ≡ d / 1_000_000)
      ↔ ((subsec_millis d ≡ 0) ⊎ (100 ≤ subsec_millis d))
unfolding graceful_shutdown_with_drain
drain_text_exact d ctrl_c winner = exact d
drain_text_exact d terminate winner = exact d
