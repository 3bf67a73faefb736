-- ===== src/Transport/Readiness/Answer.antt =====
-- When the probe answers "ready".
use transcribe_service.Prelude.{
  String, ◌≡◌, refl, Bool, true, false, not, ◌&&◌, ◌||◌, Option, none, some, List, [], ◌∷◌, ◌++◌,
  is_some, arith, ◌∙◌, ap, sym,
}
use transcribe_service.Prelude.Exec.{Result, ok, err, served}
use transcribe_service.Producer.{Kafka, KafkaProducer, ClientWeather, ensure_ready}
use transcribe_service.Producer.Sending.{ensure_ready-closes, is_ok}
use transcribe_service.Transport.Readiness.{
  Probe, Readiness, ready, not_ready, redis_errors, kafka_errors, answer, readiness,
}

abbrev pub is_ready : Readiness → Bool
is_ready ready = true
is_ready (not_ready errors) = false

-- Redis answers, by the app's client or by one of the probe's own; or it is not used.
abbrev pub redis_answers : Probe → Bool
redis_answers p =
    not (p.has_redis_client || p.has_redis_url)
    || ((p.has_redis_client || not (is_some p.create_client)) && not (is_some p.ping))

abbrev pub client_is_there : {k : Kafka} → Option (KafkaProducer k) → Bool
client_is_there none = true
client_is_there (some producer) = producer.created

no_redis_errors : (p : Probe) → is_ready (answer (redis_errors p)) ≡ redis_answers p
unfolding redis_errors
no_redis_errors p = ground arith

no_errors :
    (xs : List String) (r : Result (Unit {0}))
    → is_ready (answer (xs ++ kafka_errors r)) ≡ (is_ready (answer xs) && is_ok r)
no_errors [] (ok u) = refl
no_errors [] (err e) = refl
no_errors (x ∷ xs) r = refl

-- If closing a Kafka client does not fail: the probe answers "ready" exactly if Redis answers, where it
-- is used, and afterwards the producer, where there is one, has a client.
pub readiness-is_ready :
    (k : Kafka) (p : Probe) (w : ClientWeather) (producer : Option (KafkaProducer k))
    → w.stop ≡ served
    → is_ready (readiness k p w producer).0
      ≡ (redis_answers p && client_is_there (readiness k p w producer).1)
unfolding readiness
readiness-is_ready k p w none calm = no_redis_errors p ∙ ground arith
readiness-is_ready k p w (some producer) calm =
    let d = ensure_ready k w producer in
    no_errors (redis_errors p) d.0
    ∙ ap (λ b. b && is_ok d.0) (no_redis_errors p)
    ∙ ap (λ b. redis_answers p && b) (sym (ensure_ready-closes k w producer calm).0)
