-- ===== src/Orchestrator/Contract.antt =====
-- Whatever the backends do, a message is answered by one response of the contract.
use transcribe_service.Prelude.{
  String, ◌≡◌, refl, ◌⊎◌, inl, inr, Bool, true, false, Option, none, some, arith, Bool-cases,
}
use transcribe_service.Prelude.Exec.{
  Exn, timeout_error, Result, ok, err, Exec, catch, lift, pure, str,
}
use transcribe_service.Json.{Json, is_dict}
use transcribe_service.Schemas.Events.{ResponseEventType, transcript_ack, eol_ack}
use transcribe_service.Schemas.ErrorCodes.{close_code_for_error, normal, e1007, internal_error}
use transcribe_service.Schemas.Response.{Response, ack, error, build_error}
use transcribe_service.Schemas.ErrorScenarios.{
  ProtocolErrorScenario, sequence_out_of_order, format_details, downstream_timeout,
  downstream_unavailable,
}
use transcribe_service.Schemas.Request.{InboundMessage, Pydantic, ValidationError}
use transcribe_service.Redis.Protocols.{PrepareResult, pre_check_ok, idempotent, out_of_order}
use transcribe_service.Prelude.Exec.{◌>>=◌, ◌>>◌}
use transcribe_service.Orchestrator.{
  OrchestratorResult, Backends, Clock, fail_with, succeed, after_send, persist, after_prepare,
  process, handle_message, cleanup_or_warn, fail_with_details, validated, take, to_kafka_payload,
  max_error_details_len, max_error_message_len, orchestrator_internal_exception, sequence_kwargs,
  or_given, body_conversation_id,
}
use transcribe_service.Orchestrator.Validation.{classify_validation_error}

-- An ERROR frame comes with a disconnect whose close code is the mapping of its error code; a
-- TRANSCRIPT_ACK leaves the socket open; an EOL_ACK closes it normally.
abbrev FitsDisconnect : Response → Bool → OrchestratorResult → Type 0
FitsDisconnect (error meta detail) disconnect r =
    (meta.event_type ≡ ResponseEventType.error)
    × (disconnect ≡ true)
    × (r.close_code ≡ close_code_for_error detail.code)
FitsDisconnect (ack meta payload) true r = (meta.event_type ≡ eol_ack) × (r.close_code ≡ normal)
FitsDisconnect (ack meta payload) false r = meta.event_type ≡ transcript_ack

abbrev pub IsContractual : OrchestratorResult → Type 0
IsContractual r = FitsDisconnect r.response r.disconnect r

abbrev ContractualIf : Result OrchestratorResult → Type 0
ContractualIf (ok r) = IsContractual r
ContractualIf (err e) = Unit

fail_with-ContractualIf :
    (scenario : ProtocolErrorScenario) (cid : String) (details : Option String) (now : String)
    → ContractualIf (fail_with scenario cid details now)
unfolding fail_with close_code_for_error
fail_with-ContractualIf ProtocolErrorScenario.invalid_json cid (some details) now = ground arith
fail_with-ContractualIf _ cid details now = ground arith

succeed-IsContractual : (msg : InboundMessage) (now : String) → IsContractual (succeed msg now)
unfolding succeed
succeed-IsContractual msg now = ground arith

-- What `handle_message` makes of an exception.
abbrev pub internal_error_result : String → Exn → String → OrchestratorResult
internal_error_result cid e now = record {
  response =
      build_error cid e1007 "Internal server error" (some (take max_error_message_len (str e))) now;
  disconnect = true;
  close_code = internal_error;
}

fail_with_details-ContractualIf :
    (scenario : ProtocolErrorScenario) (cid : String) (details : Result (Option String))
    (now : String)
    → ContractualIf (fail_with_details scenario cid details now)
fail_with_details-ContractualIf scenario cid (ok details) now =
    fail_with-ContractualIf scenario cid details now
fail_with_details-ContractualIf scenario cid (err e) now = tt

bind-ContractualIf :
    {W A : Type 0} (d : Result A × W) (f : A → Exec W OrchestratorResult) (w : W)
    → ((a : A) (w' : W) → ContractualIf (f a w').0)
    → ContractualIf (((λ _. d) >>= f) w).0
bind-ContractualIf (ok a, w') f w h = h a w'
bind-ContractualIf (err e, w') f w h = tt

module _ {W : Type 0} (b : Backends W) (clock : Clock) where
  after_send-ContractualIf :
      (msg : InboundMessage) (sent : Result (Unit {0})) (w : W)
      → ContractualIf (after_send b clock msg sent w).0
  unfolding after_send
  after_send-ContractualIf msg (ok u) w =
      bind-ContractualIf (b.commit msg.meta_data.conversation_id msg.payload.sequence_number w)
        (λ _.
          cleanup_or_warn b clock msg.meta_data.conversation_id msg.meta_data.event_type
          >> pure (succeed msg clock.responded_at))
        w
        (λ _ w'.
          bind-ContractualIf
            (cleanup_or_warn b clock msg.meta_data.conversation_id msg.meta_data.event_type w')
            (λ _. pure (succeed msg clock.responded_at)) w'
            (λ _ _. succeed-IsContractual msg clock.responded_at))
  after_send-ContractualIf msg (err (timeout_error s)) w =
      fail_with-ContractualIf downstream_timeout msg.meta_data.conversation_id none
        clock.responded_at
  after_send-ContractualIf msg (err e) w =
      fail_with-ContractualIf downstream_unavailable msg.meta_data.conversation_id
        (some (take max_error_message_len (str e))) clock.responded_at

  persist-ContractualIf :
      (raw : Json) (msg : InboundMessage) (w : W) → ContractualIf (persist b clock raw msg w).0
  unfolding persist
  persist-ContractualIf raw msg w = elim (Bool-cases (is_dict raw)) [
    | inl e ↦ rw e (
        let done =
          b.send msg.meta_data.conversation_id (to_kafka_payload msg raw clock.produced_at) w in
        after_send-ContractualIf msg done.0 done.1)
    | inr e ↦ rw e tt
  ]

  after_prepare-ContractualIf :
      (raw : Json) (msg : InboundMessage) (p : PrepareResult) (w : W)
      → ContractualIf (after_prepare b clock raw msg p w).0
  unfolding after_prepare
  after_prepare-ContractualIf raw msg pre_check_ok w = persist-ContractualIf raw msg w
  after_prepare-ContractualIf raw msg idempotent w = succeed-IsContractual msg clock.responded_at
  after_prepare-ContractualIf raw msg out_of_order w =
      fail_with_details-ContractualIf sequence_out_of_order msg.meta_data.conversation_id
        (format_details sequence_out_of_order (sequence_kwargs msg.payload.sequence_number))
        clock.responded_at

  process-ContractualIf :
      (pydantic : Pydantic) (raw : Json) (cid : String) (w : W)
      → ContractualIf (process b clock pydantic raw cid w).0
  unfolding process
  process-ContractualIf pydantic raw cid w = by_validation (pydantic.model_validate raw)
    where
      by_validation :
          (v : ValidationError ⊎ InboundMessage) → ContractualIf (validated b clock raw cid v w).0
      by_validation (inl e) =
          fail_with-ContractualIf (classify_validation_error e.error_types) cid
            (some (take max_error_details_len e.text)) clock.responded_at
      by_validation (inr msg) =
          bind-ContractualIf (b.prepare msg.meta_data.conversation_id msg.payload.sequence_number w)
            (λ outcome. after_prepare b clock raw msg outcome.status) w
            (λ outcome w'. after_prepare-ContractualIf raw msg outcome.status w')

  -- Every message, whatever the backends answer or raise, gets a result; its response is an ERROR
  -- that closes the socket with the code that belongs to its error code, a TRANSCRIPT_ACK that keeps
  -- the socket open, or an EOL_ACK that closes it normally.
  pub handle_message-IsContractual :
      (pydantic : Pydantic) (raw : Json) (cid : String) (w : W)
      → (result : OrchestratorResult) × ((handle_message b clock pydantic raw cid w).0 ≡ ok result)
        × IsContractual result
  unfolding handle_message close_code_for_error
  handle_message-IsContractual pydantic raw cid w =
      let id = or_given b clock (body_conversation_id raw) cid in
      let done = process b clock pydantic raw id w in
      caught done.0 done.1 (process-ContractualIf pydantic raw id w)
    where
      caught :
          (r : Result OrchestratorResult) (w' : W)
          → ContractualIf r
          → (result : OrchestratorResult) × ((catch
                (λ _. (r, w'))
                (λ e. lift (
                  fail_with orchestrator_internal_exception
                    (or_given b clock (body_conversation_id raw) cid)
                    (some (take max_error_message_len (str e)))
                    clock.responded_at))
                w).0
              ≡ ok result)
            × IsContractual result
      caught (ok r) w' h = (r, refl, h)
      caught (err e) w' h = (
        internal_error_result (or_given b clock (body_conversation_id raw) cid) e
            clock.responded_at,
        refl,
        (refl, refl, refl),
      )
