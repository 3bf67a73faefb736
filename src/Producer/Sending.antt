-- ===== src/Producer/Sending.antt =====
-- What `send` does to the topic, however the calls of the client end.
use transcribe_service.Prelude.{String, ◌≡◌, ◌≢◌, ◌⊎◌, Bool, true, false, arith}
use transcribe_service.Prelude.Exec.{Result, ok, err, served, attempt}
use transcribe_service.Converter.{KafkaPayload}
use transcribe_service.Producer.{
  Kafka, KafkaProducer, ClientWeather, get_producer, ensure_ready, send,
}

abbrev pub is_ok {ℓ} : {A : Type ℓ} → Result A → Bool
is_ok (ok a) = true
is_ok (err e) = false

module _ (k : Kafka) where
  open k use {append}

  get_producer-topic :
      (w : ClientWeather) (p : KafkaProducer k) → (get_producer k w p).1.topic ≡ p.topic
  unfolding get_producer attempt
  get_producer-topic w p = ground arith

  -- A `send` either leaves the topic alone and raises, or appends the record under the conversation's
  -- key; it returns normally only in the second case. (It may append the record and raise as well.)
  pub send-appends :
      (w : ClientWeather) (cid : String) (payload : KafkaPayload) (p : KafkaProducer k)
      → let (sent, p') = send k w cid payload p in
        ((p'.topic ≡ p.topic) × (sent ≢ ok tt))
        ⊎ (p'.topic ≡ append (record { key = cid; value = payload }) p.topic)
  unfolding send attempt
  send-appends w cid payload p = ground arith

  -- If closing the client does not fail, then after `ensure_ready` there is a client exactly if the call
  -- did not raise, and the topic is as it was.
  pub ensure_ready-closes :
      (w : ClientWeather) (p : KafkaProducer k)
      → w.stop ≡ served
      → ((ensure_ready k w p).1.created ≡ is_ok (ensure_ready k w p).0)
        × ((ensure_ready k w p).1.topic ≡ p.topic)
  unfolding ensure_ready attempt
  ensure_ready-closes w p calm = ground arith
