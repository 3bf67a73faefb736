-- ===== src/Orchestrator/Phases/Order.antt =====
-- What the handler of orchestrator/two_phase.py calls, and when it acknowledges, for any answers.
use transcribe_service.Prelude.{
  String, ◌≡◌, refl, ◌⊎◌, inl, inr, true, some, List, [], ◌∷◌, ◌++◌, arith, sym, append-nil,
  append_assoc, ◌∙◌,
}
use transcribe_service.Prelude.Exec.{Exn, Result, ok, err, catch, lift, str}
use transcribe_service.Json.{Json, is_dict, body_conversation_id}
use transcribe_service.Schemas.Events.{EventType, session_ongoing, session_complete}
use transcribe_service.Schemas.Request.{InboundMessage, Pydantic}
use transcribe_service.Redis.Protocols.{
  PrepareOutcome, PrepareResult, pre_check_ok, idempotent, out_of_order,
}
use transcribe_service.Converter.{KafkaPayload, to_kafka_payload}
use transcribe_service.Prelude.Text
use transcribe_service.Orchestrator.{
  Backends, Clock, process_valid, handle_message, after_send, after_prepare, timeout_error, persist,
  fail_with, succeed, orchestrator_internal_exception, max_error_message_len, or_given,
}
use transcribe_service.Orchestrator.Phases.{
  Call, prepare, commit, send, cleanup, Answers, scripted, all_calls, take, after_sent,
  after_verdict, after_prepared, reached, acknowledged, committed, earned_by, earned_from, earned,
  acknowledged-catch,
}

is_dict_of_body :
    (raw : Json) (cid : String) → body_conversation_id raw ≡ some cid → is_dict raw ≡ true
is_dict_of_body (Json.obj fields) cid h = refl
is_dict_of_body _ cid h = cc

EventType-cases : (ev : EventType) → (ev ≡ session_ongoing) ⊎ (ev ≡ session_complete)
EventType-cases session_ongoing = inl refl
EventType-cases session_complete = inr refl

-- A handler that only answers leaves the state as the failed call did.
state-catch :
    {W A : Type 0} (d : Result A × W) (h : Exn → Result A) (w : W)
    → (catch (λ _. d) (λ e. lift (h e)) w).1 ≡ d.1
state-catch (ok a, w') h w = refl
state-catch (err e, w') h w = refl

module _ (clock : Clock) (raw : Json) (msg : InboundMessage) where
  abbrev payload_of : KafkaPayload
  payload_of = to_kafka_payload msg raw clock.produced_at

  abbrev backends :
      Result PrepareOutcome
      → Result (Unit {0})
      → Result (Unit {0})
      → Result (Unit {0})
      → Backends (List Call)
  backends p s c k =
      scripted (record { to_prepare = p; to_send = s; to_commit = c; to_cleanup = k })

  -- The calls from `send` on.
  abbrev sending : List Call
  sending =
      send msg.meta_data.conversation_id payload_of
      ∷ commit msg.meta_data.conversation_id msg.payload.sequence_number
      ∷ cleanup msg.meta_data.conversation_id
      ∷ []

  two_steps : (log : List Call) (x y : Call) → (log ++ x ∷ []) ++ y ∷ [] ≡ log ++ x ∷ y ∷ []
  two_steps log x y = append_assoc log (x ∷ []) (y ∷ [])

  three_steps :
      (log : List Call) (x y z : Call)
      → ((log ++ x ∷ []) ++ y ∷ []) ++ z ∷ [] ≡ log ++ x ∷ y ∷ z ∷ []
  three_steps log x y z = rw (two_steps log x y) (append_assoc log (x ∷ y ∷ []) (z ∷ []))

  after_send_calls :
      (p : Result PrepareOutcome) (s c k : Result (Unit {0})) (log : List Call)
      → (after_send
          (backends p s c k)
          clock
          msg
          s
          (log ++ send msg.meta_data.conversation_id payload_of ∷ [])).1
        ≡ log ++ take (after_sent s c msg.meta_data.event_type) sending
  unfolding after_send
  after_send_calls p (err (timeout_error x)) c k log = refl
  after_send_calls p (err e) c k log = refl
  after_send_calls p (ok u) (err e) k log = two_steps log _ _
  after_send_calls p (ok u) (ok v) (ok x) log = elim (EventType-cases msg.meta_data.event_type) [
    | inl e ↦ rw e (two_steps log _ _)
    | inr e ↦ rw e (three_steps log _ _ _)
  ]
  after_send_calls p (ok u) (ok v) (err x) log = elim (EventType-cases msg.meta_data.event_type) [
    | inl e ↦ rw e (two_steps log _ _)
    | inr e ↦ rw e (three_steps log _ _ _)
  ]

  module _ (dict : is_dict raw ≡ true) where
    after_prepare_calls :
        (p : Result PrepareOutcome) (s c k : Result (Unit {0})) (st : PrepareResult)
        (log : List Call)
        → (after_prepare (backends p s c k) clock raw msg st log).1
          ≡ log ++ take (after_verdict st s c msg.meta_data.event_type) sending
    unfolding after_prepare persist
    after_prepare_calls p s c k pre_check_ok log = rw dict (after_send_calls p s c k log)
    after_prepare_calls p s c k idempotent log = sym (append-nil log)
    after_prepare_calls p s c k out_of_order log = sym (append-nil log)

    process_valid_calls :
        (p : Result PrepareOutcome) (s c k : Result (Unit {0})) (log : List Call)
        → (process_valid (backends p s c k) clock raw msg log).1
          ≡ log ++ take (after_prepared p s c msg.meta_data.event_type) (all_calls msg payload_of)
    unfolding process_valid
    process_valid_calls (err e) s c k log = refl
    process_valid_calls (ok o) s c k log =
        let first = prepare msg.meta_data.conversation_id msg.payload.sequence_number in
        after_prepare_calls (ok o) s c k o.status (log ++ first ∷ [])
        ∙ append_assoc log (first ∷ []) _

  acknowledged-succeed : (now : String) → acknowledged (ok (succeed msg now)) ≡ true
  unfolding succeed
  acknowledged-succeed now = ground arith

  after_send_earned :
      (p : Result PrepareOutcome) (s c k : Result (Unit {0})) (log : List Call)
      → acknowledged (after_send (backends p s c k) clock msg s log).0 ≡ committed s c
  unfolding after_send
  after_send_earned p (err (timeout_error x)) c k log = refl
  after_send_earned p (err e) c k log = refl
  after_send_earned p (ok u) (err e) k log = refl
  after_send_earned p (ok u) (ok v) (ok x) log = elim (EventType-cases msg.meta_data.event_type) [
    | inl e ↦ rw e
    | inr e ↦ rw e
  ]
  after_send_earned p (ok u) (ok v) (err x) log = elim (EventType-cases msg.meta_data.event_type) [
    | inl e ↦ rw e
    | inr e ↦ rw e
  ]

  module _ (dict : is_dict raw ≡ true) where
    after_prepare_earned :
        (p : Result PrepareOutcome) (s c k : Result (Unit {0})) (st : PrepareResult)
        (log : List Call)
        → acknowledged (after_prepare (backends p s c k) clock raw msg st log).0 ≡ earned_by st s c
    unfolding after_prepare persist
    after_prepare_earned p s c k pre_check_ok log =
        rw dict
          (after_send_earned p s c k (log ++ send msg.meta_data.conversation_id payload_of ∷ []))
    after_prepare_earned p s c k idempotent log = acknowledged-succeed clock.responded_at
    after_prepare_earned p s c k out_of_order log = refl

    process_valid_earned :
        (p : Result PrepareOutcome) (s c k : Result (Unit {0})) (log : List Call)
        → acknowledged (process_valid (backends p s c k) clock raw msg log).0 ≡ earned_from p s c
    unfolding process_valid
    process_valid_earned (err e) s c k log = refl
    process_valid_earned (ok o) s c k log = after_prepare_earned (ok o) s c k o.status _

-- For a message that pydantic accepts, the calls made are the first `reached` ones of prepare, send,
-- commit and cleanup, in this order: none is made before the one before it has succeeded. The answer
-- is an acknowledgement exactly if the number was seen before, or was expected, stored by Kafka and
-- committed; whether `cleanup` fails does not matter.
pub handle_message-calls :
    (a : Answers) (clock : Clock) (pydantic : Pydantic) (raw : Json) (msg : InboundMessage)
    (cid : String) (log : List Call)
    → pydantic.model_validate raw ≡ inr msg
    → ((handle_message (scripted a) clock pydantic raw cid log).1
        ≡ log ++ take (reached a msg) (all_calls msg (to_kafka_payload msg raw clock.produced_at)))
      × (acknowledged (handle_message (scripted a) clock pydantic raw cid log).0 ≡ earned a)
unfolding handle_message
handle_message-calls a clock pydantic raw msg cid log accepted =
    let id = or_given (scripted a) clock (body_conversation_id raw) cid in
    let dict =
      is_dict_of_body raw msg.meta_data.conversation_id
        (pydantic.accepts raw msg accepted).same_conversation_id in
    let done = process_valid (scripted a) clock raw msg log in
    rw accepted (
      state-catch done
            (λ e.
              fail_with orchestrator_internal_exception id
                (some (Text.take max_error_message_len (str e))) clock.responded_at)
            log
          ∙ process_valid_calls clock raw msg dict a.to_prepare a.to_send a.to_commit a.to_cleanup
              log,
      acknowledged-catch done id clock.responded_at log
          ∙ process_valid_earned clock raw msg dict a.to_prepare a.to_send a.to_commit a.to_cleanup
              log,
    )
