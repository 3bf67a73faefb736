-- ===== src/Transport/Readiness.antt =====
-- The probe `/ready` of transport/app.py, over the Kafka producer. How the calls to Redis end is an
-- argument; an error of closing a client of its own is only logged.
pub mod Answer
use Prim.Native.String
use transcribe_service.Prelude.{
  String, Bool, true, false, not, ◌&&◌, ◌||◌, Option, none, some, List, [], ◌∷◌, ◌++◌,
  if◌then◌else◌,
}
use transcribe_service.Prelude.Exec.{Exn, str, Result, ok, err}
use transcribe_service.Producer.{Kafka, KafkaProducer, ClientWeather, ensure_ready}

-- What the app was built with, and the exceptions of creating a client and of the ping.
pub record Probe : Type 0 where
  pub has_redis_client : Bool
  pub has_redis_url : Bool
  pub create_client : Option Exn
  pub ping : Option Exn

-- `{"status": "ready"}`, or status 503 with the errors.
pub data Readiness : Type 0 where
  ready : Readiness
  not_ready : List String → Readiness

abbrev failed_ping : Option Exn → List String
failed_ping none = []
failed_ping (some e) = "redis:connection_failed" ∷ []

abbrev after_create : Option Exn → Option Exn → List String
after_create none ping = failed_ping ping
after_create (some e) ping = "redis:connection_failed" ∷ []

-- The client that the app has is used, else one is created for the probe.
unfoldable pub redis_errors : Probe → List String
redis_errors p =
    if p.has_redis_client || p.has_redis_url
    then (if p.has_redis_client then failed_ping p.ping else after_create p.create_client p.ping)
    else []

abbrev kafka_errors : Result (Unit {0}) → List String
kafka_errors (ok u) = []
kafka_errors (err e) = String.◌++◌ "kafka:" (str e) ∷ []

abbrev answer : List String → Readiness
answer [] = ready
answer (e ∷ errors) = not_ready (e ∷ errors)

-- With no producer the second check is left out.
unfoldable pub readiness :
    (k : Kafka)
    → Probe
    → ClientWeather
    → Option (KafkaProducer k)
    → Readiness × Option (KafkaProducer k)
unfolding redis_errors ensure_ready
readiness k p w none = (answer (redis_errors p), none)
readiness k p w (some producer) =
    let (done, producer') = ensure_ready k w producer in
    (answer (redis_errors p ++ kafka_errors done), some producer')
