-- ===== src/Orchestrator.antt =====
-- orchestrator/two_phase.py, over the protocols of its three collaborators. Stage timings and logging
-- are left out; the clock readings are arguments.
pub mod Validation
pub mod Contract
pub mod Phases
use transcribe_service.Prelude.{
  ℕ, String, ◌⊎◌, inl, inr, Bool, true, false, Option, none, some, List, [], ◌∷◌, if◌then◌else◌,
}
use transcribe_service.Prelude.Exec.{
  Exn, timeout_error, exception, str, Result, ok, err, Exec, lift, catch, pure, ◌>>=◌, ◌>>◌,
}
use transcribe_service.Prelude.Text.{take, decimal}
use transcribe_service.Json.{Json, body_conversation_id, is_dict}
use transcribe_service.Schemas.Events.{EventType, session_ongoing, session_complete}
use transcribe_service.Schemas.ErrorCodes.{WsCloseCode, normal}
use transcribe_service.Schemas.Response.{Response, build_transcript_ack, build_eol_ack}
use transcribe_service.Schemas.ErrorScenarios.{
  ProtocolErrorScenario, orchestrator_internal_exception, sequence_out_of_order, downstream_timeout,
  downstream_unavailable, build_response, require_ws_close_code, format_details,
}
use transcribe_service.Schemas.ErrorScenarios.Template.{Kwargs}
use transcribe_service.Schemas.Request.{InboundMessage, ValidationError, Pydantic, is_ongoing}
use transcribe_service.Redis.Protocols.{
  PrepareOutcome, PrepareResult, pre_check_ok, idempotent, out_of_order,
}
use transcribe_service.Converter.{KafkaPayload, to_kafka_payload}
use Validation.{classify_validation_error}

abbrev pub max_error_message_len : ℕ
max_error_message_len = 256

abbrev pub max_error_details_len : ℕ
max_error_details_len = 2048

pub record OrchestratorResult : Type 0 where
  pub response : Response
  pub disconnect : Bool
  pub close_code : WsCloseCode

-- `SequenceStateMachineBackend` and `ProducerBackend`, on whatever state `W` stands behind them.
pub record Backends (W : Type 0) : Type 0 where
  pub prepare : String → ℕ → Exec W PrepareOutcome
  pub commit : String → ℕ → Exec W (Unit {0})
  pub cleanup : String → Exec W (Unit {0})
  pub send : String → KafkaPayload → Exec W (Unit {0})

-- The clock readings of one call: for the outbound record, and for the response.
pub record Clock : Type 0 where
  pub produced_at : String
  pub responded_at : String

unfoldable pub build_success_ack : String → ℕ → EventType → String → Response
unfolding build_transcript_ack build_eol_ack
build_success_ack conversation_id sequence_number session_complete now =
    build_eol_ack conversation_id sequence_number now
build_success_ack conversation_id sequence_number session_ongoing now =
    build_transcript_ack conversation_id sequence_number now

unfoldable pub disconnect_after_success : EventType → Bool
disconnect_after_success session_complete = true
disconnect_after_success session_ongoing = false

-- The ACK of a message. The close code is the default where the socket stays open.
unfoldable pub succeed : InboundMessage → String → OrchestratorResult
unfolding build_success_ack disconnect_after_success
succeed msg now = record {
  response =
      build_success_ack msg.meta_data.conversation_id msg.payload.sequence_number
        msg.meta_data.event_type now;
  disconnect = disconnect_after_success msg.meta_data.event_type;
  close_code = normal;
}

abbrev with_code : Response → Result WsCloseCode → Result OrchestratorResult
with_code response (ok code) =
    ok (record { response = response; disconnect = true; close_code = code })
with_code response (err e) = err e

abbrev with_response : Result Response → Result WsCloseCode → Result OrchestratorResult
with_response (ok response) code = with_code response code
with_response (err e) code = err e

-- `OrchestratorResult(scenario.build_response(…), True, scenario.require_ws_close_code())`
unfoldable pub fail_with :
    ProtocolErrorScenario → String → Option String → String → Result OrchestratorResult
unfolding build_response require_ws_close_code
fail_with scenario conversation_id details now =
    with_response (build_response scenario conversation_id details now)
      (require_ws_close_code scenario)

abbrev pub sequence_kwargs : ℕ → Kwargs
sequence_kwargs n = ("sequence_number", record { as_str = decimal n; as_repr = decimal n }) ∷ []

abbrev pub fail_with_details :
    ProtocolErrorScenario → String → Result (Option String) → String → Result OrchestratorResult
fail_with_details scenario conversation_id (ok details) now =
    fail_with scenario conversation_id details now
fail_with_details scenario conversation_id (err e) now = err e

module _ {W : Type 0} (b : Backends W) (clock : Clock) where
  -- `except Exception` round `cleanup` downgrades a failure to a warning.
  abbrev pub cleanup_or_warn : String → EventType → Exec W (Unit {0})
  cleanup_or_warn cid session_complete = catch (b.cleanup cid) (λ e. pure tt)
  cleanup_or_warn cid session_ongoing = pure tt

  -- What follows `await self._producer.send(…)`, by how it ended.
  unfoldable pub after_send : InboundMessage → Result (Unit {0}) → Exec W OrchestratorResult
  unfolding fail_with succeed
  after_send msg (ok _) = do
    b.commit msg.meta_data.conversation_id msg.payload.sequence_number
    cleanup_or_warn msg.meta_data.conversation_id msg.meta_data.event_type
    pure (succeed msg clock.responded_at)
  after_send msg (err (timeout_error _)) =
      lift (fail_with downstream_timeout msg.meta_data.conversation_id none clock.responded_at)
  after_send msg (err e) = lift (
      fail_with downstream_unavailable msg.meta_data.conversation_id
        (some (take max_error_message_len (str e))) clock.responded_at)

  unfoldable pub persist : Json → InboundMessage → Exec W OrchestratorResult
  unfolding after_send to_kafka_payload
  persist raw msg w =
      if is_dict raw
      then (let (sent, w') =
            b.send msg.meta_data.conversation_id (to_kafka_payload msg raw clock.produced_at) w in
          after_send msg sent w')
      else (err (exception "assert isinstance(raw_json, dict)"), w)

  unfoldable pub after_prepare : Json → InboundMessage → PrepareResult → Exec W OrchestratorResult
  unfolding persist succeed fail_with format_details
  after_prepare raw msg idempotent = pure (succeed msg clock.responded_at)
  after_prepare raw msg out_of_order = lift (
      fail_with_details sequence_out_of_order msg.meta_data.conversation_id
        (format_details sequence_out_of_order (sequence_kwargs msg.payload.sequence_number))
        clock.responded_at)
  after_prepare raw msg pre_check_ok = persist raw msg

  unfoldable pub process_valid : Json → InboundMessage → Exec W OrchestratorResult
  unfolding after_prepare
  process_valid raw msg = do
    outcome ← b.prepare msg.meta_data.conversation_id msg.payload.sequence_number
    after_prepare raw msg outcome.status

  abbrev pub validated :
      Json → String → ValidationError ⊎ InboundMessage → Exec W OrchestratorResult
  validated raw conversation_id (inl e) = lift (
      fail_with (classify_validation_error e.error_types) conversation_id
        (some (take max_error_details_len e.text)) clock.responded_at)
  validated raw conversation_id (inr msg) = process_valid raw msg

  unfoldable pub process : Pydantic → Json → String → Exec W OrchestratorResult
  unfolding process_valid fail_with classify_validation_error
  process pydantic raw conversation_id = validated raw conversation_id (pydantic.model_validate raw)

  abbrev pub or_given : Option String → String → String
  or_given none conversation_id = conversation_id
  or_given (some cid) conversation_id = cid

  unfoldable pub handle_message : Pydantic → Json → String → Exec W OrchestratorResult
  unfolding process fail_with
  handle_message pydantic raw conversation_id =
      let cid = or_given (body_conversation_id raw) conversation_id in
      catch (process pydantic raw cid) (λ e. lift (
        fail_with orchestrator_internal_exception cid (some (take max_error_message_len (str e)))
          clock.responded_at))
