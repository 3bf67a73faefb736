-- ===== src/Transport/Session.antt =====
-- transport/session.py: what a connection does with its socket, the ownership guard and the
-- orchestrator, on whatever state `W` stands behind them. What is logged is left out;
-- clock readings, timings and what the socket receives are arguments.
pub mod Exchange
pub mod Keeps
use transcribe_service.Prelude.{
  ℕ, String, Bool, true, false, not, ◌&&◌, Option, none, some, List, [], ◌∷◌, ◌==◌, if◌then◌else◌,
}
use transcribe_service.Prelude.Exec.{
  Exn, exception, str, Result, ok, err, Exec, lift, catch, pure, ◌>>=◌, ◌>>◌,
}
use transcribe_service.Prelude.Text.{take}
use transcribe_service.Json.{Json, body_conversation_id}
use transcribe_service.Schemas.Events.{ResponseEventType, transcript_ack, eol_ack}
use transcribe_service.Schemas.Events
use transcribe_service.Schemas.ErrorCodes.{close_code_value}
use transcribe_service.Schemas.Response.{Response, ack, error}
use transcribe_service.Schemas.ErrorScenarios.{
  ProtocolErrorScenario, invalid_json, conversation_id_mismatch, downstream_unavailable,
  active_sender_conflict, build_response, require_ws_close_code, format_details,
}
use transcribe_service.Orchestrator.{OrchestratorResult, max_error_details_len}

-- What the session uses of Starlette's `WebSocket`; `is_connected` reads `client_state`.
pub record WebSocket (W : Type 0) : Type 0 where
  pub accept : Exec W (Unit {0})
  pub is_connected : W → Bool
  pub send_text : Response → Exec W (Unit {0})
  pub close : ℕ → Exec W (Unit {0})

-- `ConversationOwnershipGuardBackend`
pub record OwnershipGuard (W : Type 0) : Type 0 where
  pub claim_or_refresh : String → String → Exec W Bool
  pub release : String → String → Exec W (Unit {0})

-- `OrchestratorBackend.handle_message`
abbrev pub Handler : Type 0 → Type 0
Handler W = Json → String → Exec W OrchestratorResult

-- One text that arrives: what `orjson.loads` makes of it, `repr` of the handshake's conversation id, the
-- milliseconds the server took, in hundredths, and the clock reading of a response.
pub record Arrival : Type 0 where
  pub decoded : Result Json
  pub repr_conversation_id : String
  pub server_processing_ms : ℕ
  pub now : String

-- `ws.receive_text()` returns a text, or raises `WebSocketDisconnect`.
pub data Received : Type 0 where
  arrives : Arrival → Received
  disconnects : Received

-- How the message loop ends: it still waits for a text, it returned, or it raised.
pub data LoopEnd : Type 0 where
  waiting returned disconnected : LoopEnd
  failed : Exn → LoopEnd

abbrev is_ack_type : ResponseEventType → Bool
is_ack_type transcript_ack = true
is_ack_type eol_ack = true
is_ack_type Events.error = false

-- `resp["payload"]["serverProcessingMs"] = server_processing_ms`, on an ACK
unfoldable pub stamp : ℕ → Response → Response
stamp ms (ack meta payload) =
    if is_ack_type meta.event_type
    then ack meta (record payload { server_processing_ms = some ms })
    else ack meta payload
stamp ms (error meta detail) = error meta detail

abbrev pub differs : Option String → String → Bool
differs none conversation_id = false
differs (some body_cid) conversation_id = not (body_cid == conversation_id)

module _ {W : Type 0} (ws : WebSocket W) where
  abbrev pub when_connected : Exec W (Unit {0}) → Exec W (Unit {0})
  when_connected m w = if ws.is_connected w then m w else (ok tt, w)

  unfoldable pub send_error_and_close :
      String → ProtocolErrorScenario → Option String → String → Exec W (Unit {0})
  unfolding require_ws_close_code build_response
  send_error_and_close conversation_id scenario details now =
      catch
        (when_connected (do
          close_code ← lift (require_ws_close_code scenario)
          error_payload ← lift (build_response scenario conversation_id details now)
          ws.send_text error_payload
          ws.close (close_code_value close_code)))
        (λ e. pure tt)

  unfoldable pub close_for_ownership_guard_unavailable : String → String → Exec W (Unit {0})
  unfolding send_error_and_close
  close_for_ownership_guard_unavailable conversation_id now =
      send_error_and_close conversation_id downstream_unavailable
        (some "Conversation ownership guard store unavailable") now

  unfoldable pub close_for_active_sender_conflict : String → String → Exec W (Unit {0})
  unfolding send_error_and_close
  close_for_active_sender_conflict conversation_id now =
      send_error_and_close conversation_id active_sender_conflict none now

  -- `return True` if the claim succeeded, else close the socket and `return False`.
  unfoldable pub after_claim : String → String → Result Bool → Exec W Bool
  unfolding close_for_ownership_guard_unavailable close_for_active_sender_conflict
  after_claim conversation_id now (ok true) = pure true
  after_claim conversation_id now (ok false) = do
    close_for_active_sender_conflict conversation_id now
    pure false
  after_claim conversation_id now (err e) = do
    close_for_ownership_guard_unavailable conversation_id now
    pure false

  unfoldable pub claim_runtime_ownership_or_close :
      OwnershipGuard W → String → String → String → Exec W Bool
  unfolding after_claim
  claim_runtime_ownership_or_close guard conversation_id ownership_token now w =
      let (owned, w') = guard.claim_or_refresh conversation_id ownership_token w in
      after_claim conversation_id now owned w'

  -- The refresh task, for as many rounds as the list has clock readings; it returns `true` if it still
  -- runs.
  unfoldable pub ownership_refresh_loop :
      OwnershipGuard W → String → String → List String → Exec W Bool
  unfolding claim_runtime_ownership_or_close
  ownership_refresh_loop guard conversation_id ownership_token [] = pure true
  ownership_refresh_loop guard conversation_id ownership_token (now ∷ rounds) = do
    owned ← claim_runtime_ownership_or_close guard conversation_id ownership_token now
    if owned
        then ownership_refresh_loop guard conversation_id ownership_token rounds
        else pure false

  -- The error answer to a text that is no message for the orchestrator; the loop ends.
  unfoldable pub reject_text : String → ProtocolErrorScenario → Option String → String → Exec W Bool
  unfolding build_response send_error_and_close
  reject_text conversation_id scenario details now = do
    lift (build_response scenario conversation_id details now)
    send_error_and_close conversation_id scenario details now
    pure false

  -- `details` of `scenario.format_details(expected_conversation_id=conversation_id)`
  abbrev pub mismatch_details : String → String → Result (Option String)
  mismatch_details conversation_id shown =
      format_details conversation_id_mismatch
        (("expected_conversation_id", record { as_str = conversation_id; as_repr = shown }) ∷ [])

  unfoldable pub answer : ℕ → OrchestratorResult → Exec W Bool
  unfolding stamp
  answer ms result = do
    when_connected (ws.send_text (stamp ms result.response))
    if result.disconnect
        then (do when_connected (ws.close (close_code_value result.close_code)); pure false)
        else pure true

  unfoldable pub decoded_text : Handler W → String → Arrival → Result Json → Exec W Bool
  unfolding reject_text answer format_details
  decoded_text handle_message conversation_id m (err e) =
      reject_text conversation_id invalid_json (some (take max_error_details_len (str e))) m.now
  decoded_text handle_message conversation_id m (ok raw_json) =
      if differs (body_conversation_id raw_json) conversation_id
      then (do
        details ← lift (mismatch_details conversation_id m.repr_conversation_id)
        reject_text conversation_id conversation_id_mismatch details m.now)
      else (do
        result ← handle_message raw_json conversation_id
        answer m.server_processing_ms result)

  -- The body of the loop for one text: whether the loop goes on.
  unfoldable pub handle_text : Handler W → String → Arrival → Exec W Bool
  unfolding decoded_text
  handle_text handle_message conversation_id m =
      decoded_text handle_message conversation_id m m.decoded

  unfoldable pub run_ws_message_loop : Handler W → String → List Received → W → LoopEnd × W
  unfolding handle_text
  run_ws_message_loop handle_message conversation_id [] w = (waiting, w)
  run_ws_message_loop handle_message conversation_id (disconnects ∷ rest) w = (disconnected, w)
  run_ws_message_loop handle_message conversation_id (arrives m ∷ rest) w =
      let (goes_on, w') = handle_text handle_message conversation_id m w in
      elim goes_on [
        | ok b ↦
            if b then run_ws_message_loop handle_message conversation_id rest w' else (returned, w')
        | err e ↦ (failed e, w')
      ]
