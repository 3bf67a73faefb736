-- ===== src/Shutdown/Draining.antt =====
-- A drain flag that is set, and the handshakes.
use transcribe_service.Prelude.{◌≡◌, ◌≢◌, refl, true, ◌∙◌, sym, if◌then◌else◌, arith}
use transcribe_service.Shutdown.{GracefulShutdown, on_signal, wait_for_shutdown}
use transcribe_service.Transport.Admission.{
  Guards, Moment, Scope, call, ws_path, normalize_ws_path, conversation_id_of,
}
use transcribe_service.Transport.Admission.Order.{
  passed, seen, expected, first_failing, checks, asks_guard, claim_of, call-Follows,
}

-- Where the drain flag is as a signal leaves it, the main loop wakes up, and no WebSocket request to the
-- service's path is passed on, nor claims the conversation, whatever its query, headers and the other
-- checks say.
on_signal-call :
    {W : Type 0} (s : GracefulShutdown) (g : Guards W) (m : Moment) (scope : Scope) (w : W)
    → m.draining ≡ (on_signal s).draining
    → scope.is_websocket ≡ true
    → normalize_ws_path scope ≡ ws_path
    → (wait_for_shutdown (on_signal s) ≡ true)
      × (seen (call g m scope w).0 ≢ passed)
      × ((call g m scope w).1 ≡ w)
unfolding on_signal
on_signal-call s g m scope w draining socket path =
    let (outcome, state) = call-Follows g m scope w socket path in
    let claim = claim_of g.ownership_guard (conversation_id_of scope.query) m.fresh_token w in
    let no : expected (first_failing (checks g m scope claim.0)) ≢ passed =
      rw draining (λ e. ground arith) in
    let kept : (if asks_guard g m scope then claim.1 else w) ≡ w = rw draining (ground arith) in
    (refl, (λ e. no (sym outcome ∙ e)), state ∙ kept)
