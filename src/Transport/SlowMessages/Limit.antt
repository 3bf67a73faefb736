-- ===== src/Transport/SlowMessages/Limit.antt =====
-- What the rate limit promises.
use transcribe_service.Prelude.{
  ℕ, ◌+◌, ◌<◌, ◌≡◌, Option, none, some, List, [], ◌∷◌, ltb, if◌then◌else◌, arith,
}
use transcribe_service.Transport.SlowMessages.{Window, maybe_log_slow_message, open_window}

-- A handled message: how long it took, and the clock.
abbrev Timing : Type 0
Timing = ℕ × ℕ

abbrev lines_of : Option ℕ → ℕ
lines_of none = 0
lines_of (some since) = 1

abbrev reported_in : Option ℕ → ℕ
reported_in none = 0
reported_in (some since) = since

-- The log lines of a run and the messages that they report as suppressed, and the window afterwards.
pub record Report : Type 0 where
  pub lines : ℕ
  pub reported : ℕ
  pub window : Window

unfoldable pub run : ℕ → List Timing → Window → Report
unfolding maybe_log_slow_message
run threshold [] w = record { lines = 0; reported = 0; window = w }
run threshold ((total, now) ∷ rest) w =
    let (line, w') = maybe_log_slow_message threshold total now w in
    let r = run threshold rest w' in
    record {
      lines = lines_of line + r.lines;
      reported = reported_in line + r.reported;
      window = r.window;
    }

-- The messages that took at least the threshold.
abbrev pub slow : ℕ → List Timing → ℕ
slow threshold [] = 0
slow threshold ((total, now) ∷ rest) = (if ltb total threshold then 0 else 1) + slow threshold rest

step_counted :
    (threshold total now : ℕ) (w : Window)
    → 0 < threshold
    → let (line, w') = maybe_log_slow_message threshold total now w in
      lines_of line + reported_in line + w'.suppressed
      ≡ w.suppressed + (if ltb total threshold then 0 else 1)
unfolding maybe_log_slow_message open_window
step_counted threshold total now w pos = ground arith

-- No slow message is lost: with a positive threshold, each one is either a log line itself, or counted as
-- suppressed by a later line, or still counted in the window.
pub run-slow :
    (threshold : ℕ) (timings : List Timing) (w : Window)
    → 0 < threshold
    → (run threshold timings w).lines
        + (run threshold timings w).reported
        + (run threshold timings w).window.suppressed
      ≡ w.suppressed + slow threshold timings
unfolding run
run-slow threshold [] w pos = omega arith
run-slow threshold ((total, now) ∷ rest) w pos =
    let d = maybe_log_slow_message threshold total now w in
    let e = step_counted threshold total now w pos in
    let ih = run-slow threshold rest d.1 pos in omega arith
