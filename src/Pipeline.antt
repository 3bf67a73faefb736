-- ===== src/Pipeline.antt =====
-- The object graph of service_runtime.py for one message: the orchestrator over the Redis sequence
-- guard and the Kafka producer, whose calls may each fail before or after they take effect.
pub mod Delivered
pub mod Effects
pub mod Message
pub mod InStep
use transcribe_service.Prelude.{ℕ, String}
use transcribe_service.Prelude.Exec.{Result, Exec, Delivery, attempt}
use transcribe_service.Json.{Json}
use transcribe_service.Schemas.Request.{Pydantic}
use transcribe_service.Redis.Server.{Redis}
use transcribe_service.Redis.SequenceStateMachine
use transcribe_service.Redis.SequenceStateMachine.{Config, Machine}
use transcribe_service.Producer
use transcribe_service.Producer.{Kafka, KafkaProducer, ClientWeather}
use transcribe_service.Orchestrator.{OrchestratorResult, Backends, Clock, handle_message}

-- How the calls to other processes end while one message is handled.
pub record Weather : Type 0 where
  pub prepare : Delivery
  pub commit : Delivery
  pub cleanup : Delivery
  pub client : ClientWeather

pub record World (r : Redis) (k : Kafka) : Type 0 where
  pub machine : Machine r
  pub producer : KafkaProducer k

module _ (r : Redis) (k : Kafka) (self : Config) where
  abbrev pub on_machine : {A : Type 0} → Exec (Machine r) A → Exec (World r k) A
  on_machine f w = let (a, m) = f w.machine in (a, record w { machine = m })

  abbrev pub on_producer : {A : Type 0} → Exec (KafkaProducer k) A → Exec (World r k) A
  on_producer f w = let (a, p) = f w.producer in (a, record w { producer = p })

  -- The collaborators that `create_runtime_bundle` hands to the orchestrator.
  abbrev pub backends : Weather → Backends (World r k)
  backends weather = record {
    prepare = λ cid seq.
        attempt weather.prepare (on_machine (SequenceStateMachine.prepare r self cid seq));
    commit =
        λ cid seq. attempt weather.commit (on_machine (SequenceStateMachine.commit r self cid seq));
    cleanup = λ cid. attempt weather.cleanup (on_machine (SequenceStateMachine.cleanup r self cid));
    send = λ cid payload. on_producer (Producer.send k weather.client cid payload);
  }

  unfoldable pub handle :
      Pydantic → Weather → Clock → Json → String → Exec (World r k) OrchestratorResult
  unfolding handle_message attempt
  handle pydantic weather clock raw conversation_id =
      handle_message (backends weather) clock pydantic raw conversation_id
