-- ===== src/Transport/Session/Keeps.antt =====
-- What the socket and the orchestrator keep, a session keeps.
use transcribe_service.Prelude.{
  ℕ, String, Bool, true, false, Option, some, List, [], ◌∷◌, if◌then◌else◌, Bool-cases, inl, inr,
}
use transcribe_service.Prelude.Exec.{str, Result, ok, err, Exec, lift, pure, ◌>>=◌, ◌>>◌}
use transcribe_service.Prelude.Exec.Keeps.{tail-keeps, catch-keeps}
use transcribe_service.Prelude.Text.{take}
use transcribe_service.Json.{Json, body_conversation_id}
use transcribe_service.Schemas.Response.{Response}
use transcribe_service.Schemas.ErrorCodes.{close_code_value, WsCloseCode}
use transcribe_service.Schemas.ErrorScenarios.{
  ProtocolErrorScenario, build_response, require_ws_close_code, conversation_id_mismatch,
  invalid_json,
}
use transcribe_service.Orchestrator.{OrchestratorResult, max_error_details_len}
use transcribe_service.Transport.Session.{
  WebSocket, Handler, Arrival, Received, arrives, disconnects, LoopEnd, returned, failed,
  send_error_and_close, reject_text, answer, decoded_text, handle_text, run_ws_message_loop,
  differs, mismatch_details, stamp, when_connected,
}

module _ {W : Type 0} (ws : WebSocket W) (handle_message : Handler W) (P : W → Type 0)
    (send-keeps : (r : Response) (w : W) → P w → P (ws.send_text r w).1)
    (close-keeps : (code : ℕ) (w : W) → P w → P (ws.close code w).1)
    (handle-keeps : (raw : Json) (cid : String) (w : W)
      → P w
      → P (handle_message raw cid w).1) where
  when_connected-keeps :
      (m : Exec W (Unit {0})) (w : W) → P w → P (m w).1 → P (when_connected ws m w).1
  when_connected-keeps m w h k = elim (Bool-cases (ws.is_connected w)) [
    | inl e ↦ rw e k
    | inr e ↦ rw e h
  ]

  abbrev frames : Result WsCloseCode → Result Response → Exec W (Unit {0})
  frames code payload = do
    close_code ← lift code
    error_payload ← lift payload
    ws.send_text error_payload
    ws.close (close_code_value close_code)

  frames-keeps :
      (code : Result WsCloseCode) (payload : Result Response) (w : W)
      → P w
      → P (frames code payload w).1
  frames-keeps (ok code) (ok payload) w h =
      tail-keeps P (ws.send_text payload w) (λ _. ws.close (close_code_value code)) w
        (send-keeps payload w h)
        (λ _. close-keeps (close_code_value code) _ (send-keeps payload w h))
  frames-keeps (ok code) (err e) w h = h
  frames-keeps (err e) payload w h = h

  pub send_error_and_close-keeps :
      (cid : String) (scenario : ProtocolErrorScenario) (details : Option String) (now : String)
      (w : W)
      → P w
      → P (send_error_and_close ws cid scenario details now w).1
  unfolding send_error_and_close
  send_error_and_close-keeps cid scenario details now w h =
      let code = require_ws_close_code scenario in
      let payload = build_response scenario cid details now in
      catch-keeps P (when_connected ws (frames code payload) w) (λ e. ok tt) w
        (when_connected-keeps (frames code payload) w h (frames-keeps code payload w h))

  reject_text-keeps :
      (cid : String) (scenario : ProtocolErrorScenario) (details : Option String) (now : String)
      (w : W)
      → P w
      → P (reject_text ws cid scenario details now w).1
  unfolding reject_text
  reject_text-keeps cid scenario details now w h =
      let sent = send_error_and_close-keeps cid scenario details now w h in
      tail-keeps P (lift (build_response scenario cid details now) w)
        (λ _. send_error_and_close ws cid scenario details now >> pure false) w h
        (λ _.
          tail-keeps P (send_error_and_close ws cid scenario details now w) (λ _. pure false) w sent
            (λ _. sent))

  answer-keeps : (ms : ℕ) (result : OrchestratorResult) (w : W) → P w → P (answer ws ms result w).1
  unfolding answer
  answer-keeps ms result w h =
      let sent = when_connected ws (ws.send_text (stamp ms result.response)) w in
      let h' =
        when_connected-keeps (ws.send_text (stamp ms result.response)) w h
          (send-keeps (stamp ms result.response) w h) in
      tail-keeps P sent
        (λ _.
          if result.disconnect
          then (do when_connected ws (ws.close (close_code_value result.close_code)); pure false)
          else pure true)
        w h'
        (λ _. elim (Bool-cases result.disconnect) [
          | inl e ↦ rw e (
              let closed =
                when_connected-keeps (ws.close (close_code_value result.close_code)) sent.1 h'
                  (close-keeps (close_code_value result.close_code) sent.1 h') in
              tail-keeps P
                (when_connected ws (ws.close (close_code_value result.close_code)) sent.1)
                (λ _. pure false) sent.1 closed (λ _. closed))
          | inr e ↦ rw e h'
        ])

  decoded_text-keeps :
      (cid : String) (m : Arrival) (d : Result Json) (w : W)
      → P w
      → P (decoded_text ws handle_message cid m d w).1
  unfolding decoded_text
  decoded_text-keeps cid m (err e) w h =
      reject_text-keeps cid invalid_json (some (take max_error_details_len (str e))) m.now w h
  decoded_text-keeps cid m (ok raw) w h =
      elim (Bool-cases (differs (body_conversation_id raw) cid)) [
        | inl e ↦ rw e (
            tail-keeps P (lift (mismatch_details ws cid m.repr_conversation_id) w)
              (λ details. reject_text ws cid conversation_id_mismatch details m.now) w h
              (λ details. reject_text-keeps cid conversation_id_mismatch details m.now w h))
        | inr e ↦ rw e (
            let handled = handle-keeps raw cid w h in
            tail-keeps P (handle_message raw cid w) (answer ws m.server_processing_ms) w handled
              (λ result. answer-keeps m.server_processing_ms result _ handled))
      ]

  abbrev loop : String → List Received → W → LoopEnd × W
  loop cid received w = run_ws_message_loop ws handle_message cid received w

  after_text-keeps :
      (cid : String) (rest : List Received) (d : Result Bool × W)
      → P d.1
      → ((w : W) → P w → P (loop cid rest w).1)
      → P
          (elim d.0 as (λ x. LoopEnd × W) [
            | ok b ↦ if b then loop cid rest d.1 else (returned, d.1)
            | err e ↦ (failed e, d.1)
          ]).1
  after_text-keeps cid rest (ok true, w) h go_on = go_on w h
  after_text-keeps cid rest (ok false, w) h go_on = h
  after_text-keeps cid rest (err e, w) h go_on = h

  -- The message loop keeps what the calls that it makes keep.
  pub run_ws_message_loop-keeps :
      (cid : String) (received : List Received) (w : W)
      → P w
      → P (run_ws_message_loop ws handle_message cid received w).1
  unfolding run_ws_message_loop handle_text
  run_ws_message_loop-keeps cid [] w h = h
  run_ws_message_loop-keeps cid (disconnects ∷ rest) w h = h
  run_ws_message_loop-keeps cid (arrives m ∷ rest) w h =
      after_text-keeps cid rest (decoded_text ws handle_message cid m m.decoded w)
        (decoded_text-keeps cid m m.decoded w h) (run_ws_message_loop-keeps cid rest)
