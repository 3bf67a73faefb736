-- ===== src/Transport/SlowMessages.antt =====
-- `_maybe_log_slow_message` of transport/session.py: its rate limit, which is state of the process. What
-- is logged is left out but for the count of suppressed messages. Times are whole microseconds, and the
-- clock is never at 0 when a message is handled.
pub mod Limit
use transcribe_service.Prelude.{
  ℕ, ◌+◌, ◌-◌, Bool, true, false, ◌||◌, Option, none, some, List, [], ◌∷◌, eqb, leb, ltb,
  if◌then◌else◌,
}

abbrev pub slow_message_log_window : ℕ
slow_message_log_window = 1000000

abbrev pub slow_message_log_max_per_window : ℕ
slow_message_log_max_per_window = 1

-- The three globals.
pub record Window : Type 0 where
  pub started_at : ℕ
  pub emitted_in_window : ℕ
  pub suppressed : ℕ

abbrev pub at_start : Window
at_start = record { started_at = 0; emitted_in_window = 0; suppressed = 0 }

-- A new window opens if there was none, or the last one is over; then the count of the messages that were
-- suppressed is taken along.
unfoldable pub open_window : ℕ → Window → ℕ × Window
open_window now w =
    if eqb w.started_at 0 || leb slow_message_log_window (now - w.started_at)
    then (w.suppressed, record { started_at = now; emitted_in_window = 0; suppressed = 0 })
    else (0, w)

abbrev emit : ℕ × Window → Option ℕ × Window
emit (since_last_emit, w) =
    if leb slow_message_log_max_per_window w.emitted_in_window
    then (none, record w { suppressed = w.suppressed + 1 })
    else (some since_last_emit, record w { emitted_in_window = w.emitted_in_window + 1 })

-- One message: the threshold, how long it took, and the clock. The result is the count of a log line, if
-- one is written.
unfoldable pub maybe_log_slow_message : ℕ → ℕ → ℕ → Window → Option ℕ × Window
unfolding open_window
maybe_log_slow_message threshold total now w =
    if leb threshold 0
    then (none, w)
    else if ltb total threshold
    then (none, w)
    else emit (open_window now w)
