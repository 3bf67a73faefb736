-- ===== src/Orchestrator/Phases.antt =====
-- The order of the calls: a message goes through a prefix of prepare, send, commit and cleanup, and
-- is acknowledged only after the calls that its acknowledgement stands for.
pub mod Order
use transcribe_service.Prelude.{
  ℕ, zero, suc, String, ◌≡◌, refl, ◌⊎◌, inl, inr, Bool, true, false, Option, none, some, List, [],
  ◌∷◌, ◌++◌, arith, sym, append-nil, append_assoc, ◌∙◌,
}
use transcribe_service.Prelude.Exec.{Exn, Result, ok, err, Exec, catch, lift, str}
use transcribe_service.Json.{Json, is_dict, body_conversation_id}
use transcribe_service.Schemas.Events.{EventType, session_ongoing, session_complete}
use transcribe_service.Schemas.Response.{Response, ack, error}
use transcribe_service.Schemas.Request.{InboundMessage, Pydantic, IsAccepted}
use transcribe_service.Redis.Protocols.{
  PrepareOutcome, PrepareResult, pre_check_ok, idempotent, out_of_order,
}
use transcribe_service.Converter.{KafkaPayload, to_kafka_payload}
use transcribe_service.Prelude.Text
use transcribe_service.Orchestrator.Contract.{internal_error_result}
use transcribe_service.Orchestrator.{
  OrchestratorResult, Backends, Clock, process_valid, handle_message, after_send, after_prepare,
  timeout_error, persist, downstream_timeout, fail_with, succeed, ProtocolErrorScenario,
  downstream_unavailable, orchestrator_internal_exception, max_error_message_len, or_given,
  sequence_out_of_order,
}

pub data Call : Type 0 where
  prepare commit : String → ℕ → Call
  send : String → KafkaPayload → Call
  cleanup : String → Call

-- What each backend answers, if it is called.
pub record Answers : Type 0 where
  pub to_prepare : Result PrepareOutcome
  pub to_send : Result (Unit {0})
  pub to_commit : Result (Unit {0})
  pub to_cleanup : Result (Unit {0})

-- Backends that log their calls and give fixed answers.
abbrev pub scripted : Answers → Backends (List Call)
scripted a = record {
  prepare = λ cid seq log. (a.to_prepare, log ++ prepare cid seq ∷ []);
  commit = λ cid seq log. (a.to_commit, log ++ commit cid seq ∷ []);
  cleanup = λ cid log. (a.to_cleanup, log ++ cleanup cid ∷ []);
  send = λ cid payload log. (a.to_send, log ++ send cid payload ∷ []);
}

-- The whole protocol for one message.
abbrev pub all_calls : InboundMessage → KafkaPayload → List Call
all_calls msg payload =
    prepare msg.meta_data.conversation_id msg.payload.sequence_number
    ∷ send msg.meta_data.conversation_id payload
    ∷ commit msg.meta_data.conversation_id msg.payload.sequence_number
    ∷ cleanup msg.meta_data.conversation_id
    ∷ []

abbrev pub take {ℓ} : {A : Type ℓ} → ℕ → List A → List A
take zero xs = []
take (suc n) [] = []
take (suc n) (x ∷ xs) = x ∷ take n xs

abbrev pub after_commit : EventType → ℕ
after_commit session_ongoing = 2
after_commit session_complete = 3

abbrev pub after_sent : Result (Unit {0}) → Result (Unit {0}) → EventType → ℕ
after_sent (err e) c ev = 1
after_sent (ok u) (err e) ev = 2
after_sent (ok u) (ok v) ev = after_commit ev

abbrev pub after_verdict : PrepareResult → Result (Unit {0}) → Result (Unit {0}) → EventType → ℕ
after_verdict pre_check_ok s c ev = after_sent s c ev
after_verdict idempotent s c ev = 0
after_verdict out_of_order s c ev = 0

abbrev pub after_prepared :
    Result PrepareOutcome → Result (Unit {0}) → Result (Unit {0}) → EventType → ℕ
after_prepared (err e) s c ev = 1
after_prepared (ok p) s c ev = suc (after_verdict p.status s c ev)

-- How many of the calls are made.
abbrev pub reached : Answers → InboundMessage → ℕ
reached a msg = after_prepared a.to_prepare a.to_send a.to_commit msg.meta_data.event_type

abbrev pub is_ack : Response → Bool
is_ack (ack meta payload) = true
is_ack (error meta detail) = false

abbrev pub acknowledged : Result OrchestratorResult → Bool
acknowledged (ok r) = is_ack r.response
acknowledged (err e) = false

abbrev pub committed : Result (Unit {0}) → Result (Unit {0}) → Bool
committed (ok u) (ok v) = true
committed s c = false

abbrev pub earned_by : PrepareResult → Result (Unit {0}) → Result (Unit {0}) → Bool
earned_by pre_check_ok s c = committed s c
earned_by idempotent s c = true
earned_by out_of_order s c = false

abbrev pub earned_from : Result PrepareOutcome → Result (Unit {0}) → Result (Unit {0}) → Bool
earned_from (err e) s c = false
earned_from (ok p) s c = earned_by p.status s c

-- Has the message earned its acknowledgement: it is a repetition of a number below the expected one,
-- or it was expected, stored and committed?
abbrev pub earned : Answers → Bool
earned a = earned_from a.to_prepare a.to_send a.to_commit

pub not_acknowledged :
    (scenario : ProtocolErrorScenario) (cid : String) (details : Option String) (now : String)
    → acknowledged (fail_with scenario cid details now) ≡ false
unfolding fail_with
not_acknowledged ProtocolErrorScenario.invalid_json cid (some details) now = ground arith
not_acknowledged _ cid details now = ground arith

-- Whatever exception is caught, its answer is no acknowledgement.
pub acknowledged-catch :
    {W : Type 0} (d : Result OrchestratorResult × W) (cid : String) (now : String) (w : W)
    → acknowledged
        (catch
          (λ _. d)
          (λ e. lift (
            fail_with orchestrator_internal_exception cid
              (some (Text.take max_error_message_len (str e)))
              now))
          w).0
      ≡ acknowledged d.0
acknowledged-catch (ok r, w') cid now w = refl
acknowledged-catch (err e, w') cid now w =
    not_acknowledged orchestrator_internal_exception cid
      (some (Text.take max_error_message_len (str e))) now
