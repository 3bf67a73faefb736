-- ===== src/Tests/Deliveries.antt =====
-- The theorems on the orchestrator, the producer and the pipeline, for a first message.
use transcribe_service.Prelude.{◌≡◌, ◌≢◌, refl, ◌⊎◌, true, some, [], ◌∷◌}
use transcribe_service.Prelude.Exec.{ok, err, exception, lost_before}
use transcribe_service.Json.{body, null}
use transcribe_service.Redis.Protocols.{pre_check_ok}
use transcribe_service.Redis.SequenceStateMachine
use transcribe_service.Redis.Scripts.{run_prepare, run_commit}
use transcribe_service.Redis.Memory.{memory}
use transcribe_service.Converter.{KafkaPayload, to_kafka_payload}
use transcribe_service.Producer
use transcribe_service.Producer.{KafkaRecord, KafkaProducer, ClientWeather}
use transcribe_service.Producer.Sending.{send-appends, ensure_ready-closes, is_ok}
use transcribe_service.Orchestrator.{OrchestratorResult, handle_message}
use transcribe_service.Orchestrator.Contract.{IsContractual, handle_message-IsContractual}
use transcribe_service.Orchestrator.Phases.{
  Answers, scripted, take, reached, all_calls, acknowledged, earned,
}
use transcribe_service.Orchestrator.Phases.Order.{handle_message-calls}
use transcribe_service.Pipeline.{World, handle}
use transcribe_service.Pipeline.Delivered.{stored, mem}
use transcribe_service.Pipeline.InStep.{
  InStep, Reaches, here, next, message, delivery-InStep, acknowledged-mem,
}
use transcribe_service.Tests.Fixtures.{
  settings, settings-IsPositive, log_topic, calm_client, calm, clock, idle_producer, started,
  first_message, validation,
}

-- The world after the first message.
abbrev after_first : World memory log_topic
after_first = (handle memory log_topic settings validation calm clock body "c-1" started).1

abbrev one_step : Reaches memory log_topic settings "c-1" started after_first
one_step = next here (message validation calm clock body "c-1")

delivery_example : InStep memory log_topic settings "c-1" after_first
delivery_example =
    delivery-InStep memory log_topic settings settings-IsPositive "c-1" started after_first refl
      refl one_step

again_is_acknowledged :
    acknowledged (handle memory log_topic settings validation calm clock body "c-1" after_first).0
    ≡ true
unfolding handle SequenceStateMachine.prepare run_prepare Producer.send SequenceStateMachine.commit
    run_commit SequenceStateMachine.key
again_is_acknowledged = refl

-- The first message once more: it is acknowledged, and stands in the topic.
acknowledged_example :
    mem 0 (
      stored "c-1"
        (handle memory log_topic settings validation calm clock body "c-1"
          after_first).1.producer.topic)
    ≡ true
acknowledged_example =
    acknowledged-mem memory log_topic settings settings-IsPositive "c-1" started after_first refl
      refl one_step validation calm clock body "c-1" first_message refl refl again_is_acknowledged

abbrev pub answers : Answers
answers = record {
  to_prepare = ok (record { status = pre_check_ok; expected_sequence = some 0 });
  to_send = ok tt;
  to_commit = err (exception "commit");
  to_cleanup = ok tt;
}

calls_example :
    ((handle_message (scripted answers) clock validation body "c-1" []).1
      ≡ take
          (reached answers first_message)
          (all_calls first_message (to_kafka_payload first_message body clock.produced_at)))
    × (acknowledged (handle_message (scripted answers) clock validation body "c-1" []).0
        ≡ earned answers)
calls_example = handle_message-calls answers clock validation body first_message "c-1" [] refl

contract_example :
    (result : OrchestratorResult) × ((handle_message
        (scripted answers)
        clock
        validation
        null
        "c-1"
        []).0
      ≡ ok result)
    × IsContractual result
contract_example = handle_message-IsContractual (scripted answers) clock validation null "c-1" []

abbrev payload : KafkaPayload
unfolding to_kafka_payload
payload = to_kafka_payload first_message body "now"

send_example :
    let (sent, p') = Producer.send log_topic calm_client "c-1" payload idle_producer in
    ((p'.topic ≡ []) × (sent ≢ ok tt)) ⊎ (p'.topic ≡ record { key = "c-1"; value = payload } ∷ [])
send_example = send-appends log_topic calm_client "c-1" payload idle_producer

abbrev no_start : ClientWeather
no_start = record calm_client { start = lost_before (exception "no broker") }

ensure_ready_example :
    ((Producer.ensure_ready log_topic no_start idle_producer).1.created
      ≡ is_ok (Producer.ensure_ready log_topic no_start idle_producer).0)
    × ((Producer.ensure_ready log_topic no_start idle_producer).1.topic ≡ [])
ensure_ready_example = ensure_ready-closes log_topic no_start idle_producer refl
