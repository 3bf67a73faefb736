-- ===== src/Shutdown.antt =====
-- shutdown/graceful.py: the drain flag and the event that the main loop waits for. Registering the
-- handlers is left to the event loop.
pub mod Draining
use transcribe_service.Prelude.{ℕ, Bool, true, false}

-- `stop_timeout` in milliseconds; `shutdown_event` is whether the event is set.
pub record GracefulShutdown : Type 0 where
  pub stop_timeout : ℕ
  pub draining : Bool
  pub shutdown_event : Bool

abbrev pub new : ℕ → GracefulShutdown
new stop_timeout = record { stop_timeout = stop_timeout; draining = false; shutdown_event = false }

unfoldable pub on_signal : GracefulShutdown → GracefulShutdown
on_signal s = record s { draining = true; shutdown_event = true }

-- Does `wait_for_shutdown` return?
abbrev pub wait_for_shutdown : GracefulShutdown → Bool
wait_for_shutdown s = s.shutdown_event
