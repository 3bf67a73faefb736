-- ===== src/Producer.antt =====
-- producer/kafka_producer.py, over what it relies on of a Kafka topic and of aiokafka's client.
pub mod KafkaConnection
pub mod Sending
use transcribe_service.Prelude.{String, ◌≡◌, Bool, true, false, List, [], ◌∷◌, ◌++◌, if◌then◌else◌}
use transcribe_service.Prelude.Exec.{
  Exn, Result, ok, err, Exec, lift, catch, raise, pure, ◌>>=◌, ◌>>◌, Delivery, served, lost_before,
  lost_after, attempt,
}
use transcribe_service.Converter.{KafkaPayload}

-- The key is the conversation id, so that a conversation stays on one partition.
pub record KafkaRecord : Type 0 where
  pub key : String
  pub value : KafkaPayload

-- A topic keeps what was sent to it, in order.
pub record Kafka : Type 1 where
  pub Topic : Type 0
  pub records : Topic → List KafkaRecord
  pub append : KafkaRecord → Topic → Topic
  pub records-append : (x : KafkaRecord) (t : Topic) → records (append x t) ≡ records t ++ x ∷ []

-- How the calls of the client end, where they are made.
pub record ClientWeather : Type 0 where
  pub start : Delivery
  pub stop : Delivery
  pub send_and_wait : Delivery

-- `created` is `self._producer is not None`.
pub record KafkaProducer (k : Kafka) : Type 0 where
  pub created : Bool
  pub topic : k.Topic

module _ (k : Kafka) where
  open k use {Topic, append}

  abbrev Action : Type 0 → Type 0
  Action A = Exec (KafkaProducer k) A

  abbrev set_created : Bool → Action (Unit {0})
  set_created b p = (ok tt, record p { created = b })

  unfoldable pub close : ClientWeather → Action (Unit {0})
  close w p = (if p.created then (attempt w.stop (pure tt) >> set_created false) else pure tt) p

  -- A client that does not start is closed again.
  unfoldable pub get_producer : ClientWeather → Action (Unit {0})
  unfolding close
  get_producer w p =
      (if p.created
          then pure tt
          else (do set_created true; catch (attempt w.start (pure tt)) (λ e. close w >> raise e)))
        p

  unfoldable pub ensure_ready : ClientWeather → Action (Unit {0})
  unfolding get_producer close
  ensure_ready w = catch (get_producer w) (λ e. close w >> raise e)

  abbrev append_record : KafkaRecord → Action (Unit {0})
  append_record x p = (ok tt, record p { topic = append x p.topic })

  -- Both handlers log the exception and raise it again.
  unfoldable pub send : ClientWeather → String → KafkaPayload → Action (Unit {0})
  unfolding get_producer
  send w conversation_id payload = do
    get_producer w
    attempt w.send_and_wait (append_record (record { key = conversation_id; value = payload }))
