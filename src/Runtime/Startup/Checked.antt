-- ===== src/Runtime/Startup/Checked.antt =====
-- What the start-up checks say of Redis and Kafka, and what they leave.
use transcribe_service.Prelude.{
  ℕ, String, ◌≡◌, subst, ap, ◌↔◌, ◌∙◌, refl, Bool, true, false, some, arith, sym,
}
use transcribe_service.Prelude.Exec.{
  Exn, timeout_error, exception, str, Result, ok, err, Delivery, served, attempt, catch, pure,
  raise, ◌>>◌,
}
use transcribe_service.Prelude.Text.{append}
use transcribe_service.Logging.{Tools}
use transcribe_service.Settings.{Settings, Environ, apply_environment_rules}
use transcribe_service.Settings.Usable.{apply_environment_rules-IsUsable}
use transcribe_service.Runtime.Wiring.Assembled.{some_value}
use transcribe_service.Producer.{Kafka, KafkaProducer, ClientWeather, ensure_ready, close}
use transcribe_service.Producer.Sending.{is_ok}
use transcribe_service.Runtime.Wiring.{Options, RedisClientKwargs}
use transcribe_service.Runtime.Startup.{
  RedisWeather, Wait, in_time, expires, wait_for, unavailable, kafka_unavailable, ping_or_raise,
  check_redis, check_kafka, gathered, Checks, startup_checks,
}

-- The exception says which of the two it is about.
abbrev Names : String → Result (Unit {0}) → Type 0
Names prefix (ok u) = Unit
Names prefix (err e) = (rest : String) × (e ≡ exception (append prefix rest))

-- The call raises an exception whose text starts so.
abbrev Fails : String → Result (Unit {0}) → Type 0
Fails prefix r = (rest : String) × (r ≡ err (exception (append prefix rest)))

abbrev starts : Delivery → Bool
starts served = true
starts lost = false

-- Does the producer get a client: it has one, or a new one starts before the limit?
abbrev pub reachable : Wait → ClientWeather → Bool → Bool
reachable wait w true = true
reachable in_time w false = starts w.start
reachable expires w false = false

-- The outcome by the answer to the ping, whether Kafka is reachable, and which check ends first. The
-- error names the one that fails, and of two the one whose check ends first.
abbrev pub IsReported : Bool → Result (Unit {0}) → Bool → Result (Unit {0}) → Type 0
IsReported redis_first (ok u) true r = r ≡ ok tt
IsReported redis_first (ok u) false r = Fails "Kafka unavailable: " r
IsReported redis_first (err e) true r = Fails "Redis unavailable: " r
IsReported true (err e) false r = Fails "Redis unavailable: " r
IsReported false (err e) false r = Fails "Kafka unavailable: " r

gathered-is_ok :
    (first : Bool) (r r' : Result (Unit {0}))
    → gathered first r r' ≡ ok tt
    → (r ≡ ok tt) × (r' ≡ ok tt)
gathered-is_ok true (err e) (err e') h = absurd (ground arith)
gathered-is_ok false (err e) (err e') h = absurd (ground arith)
gathered-is_ok first (err e) (ok u) h = absurd (ground arith)
gathered-is_ok first (ok u) r' h = (refl, h)

gathered-ok :
    (first : Bool) (r r' : Result (Unit {0})) → r ≡ ok tt → r' ≡ ok tt → gathered first r r' ≡ ok tt
gathered-ok first r r' e e' = rw (e, e') refl

is_ok-tt : (r : Result (Unit {0})) → is_ok r ≡ true → r ≡ ok tt
is_ok-tt (ok u) h = refl
is_ok-tt (err e) h = absurd (ground arith)

module _ (k : Kafka) where
  raised-Names :
      (reason : String) (d : Result (Unit {0}) × KafkaProducer k) (p : KafkaProducer k)
      → Names "Kafka unavailable: "
          ((catch (λ _. d) (λ e. pure tt) >> raise {A = Unit {0}} (kafka_unavailable reason)) p).0
  raised-Names reason (ok u, p') p = (reason, refl)
  raised-Names reason (err e, p') p = (reason, refl)

  unavailable-Names :
      (timeout : String) (after : ClientWeather) (e : Exn) (p : KafkaProducer k)
      → Names "Kafka unavailable: " (unavailable k timeout after e p).0
  unavailable-Names timeout after (timeout_error s) p = raised-Names _ (close k after p) p
  unavailable-Names timeout after e p = (str e, refl)

  handled-Names :
      (timeout : String) (after : ClientWeather) (d : Result (Unit {0}) × KafkaProducer k)
      (p : KafkaProducer k)
      → Names "Kafka unavailable: " (catch (λ _. d) (unavailable k timeout after) p).0
  handled-Names timeout after (ok u, p') p = tt
  handled-Names timeout after (err e, p') p = unavailable-Names timeout after e p'

  kafka-Names :
      (timeout : String) (wait : Wait) (w after : ClientWeather) (p : KafkaProducer k)
      → Names "Kafka unavailable: " (check_kafka k timeout wait w after p).0
  unfolding check_kafka
  kafka-Names timeout wait w after p = handled-Names timeout after (wait_for k wait w p) p

  kafka-reachable :
      (timeout : String) (wait : Wait) (w after : ClientWeather) (p : KafkaProducer k)
      → is_ok (check_kafka k timeout wait w after p).0 ≡ reachable wait w p.created
  unfolding check_kafka wait_for ensure_ready close attempt
  kafka-reachable timeout wait w after p = ground arith

  kafka-left :
      (timeout : String) (wait : Wait) (w after : ClientWeather) (p : KafkaProducer k)
      → w.stop ≡ served
      → after.stop ≡ served
      → ((check_kafka k timeout wait w after p).1.created
          ≡ is_ok (check_kafka k timeout wait w after p).0)
  unfolding check_kafka wait_for ensure_ready close attempt
  kafka-left timeout wait w after p calm calm' = ground arith

  kafka-created :
      (timeout : String) (wait : Wait) (w after : ClientWeather) (p : KafkaProducer k)
      → (check_kafka k timeout wait w after p).0 ≡ ok tt
      → (check_kafka k timeout wait w after p).1.created ≡ true
  unfolding check_kafka wait_for ensure_ready close attempt
  kafka-created timeout wait w after p h = ground arith

  kafka-topic :
      (timeout : String) (wait : Wait) (w after : ClientWeather) (p : KafkaProducer k)
      → (check_kafka k timeout wait w after p).1.topic ≡ p.topic
  unfolding check_kafka wait_for ensure_ready close attempt
  kafka-topic timeout wait w after p = ground arith

module _ (t : Tools) {Client : Type 0} (from_url : String → RedisClientKwargs → Result Client) where
  -- With the address that `main` asserts, and the client of the bundle.
  pub checked :
      (s : Settings) (o : Options) (url : String) (client : Client) (w : RedisWeather) (n : ℕ)
      → s.redis_url ≡ some url
      → check_redis t from_url s o (some client) w n ≡ (ping_or_raise t from_url o url w.ping, n)
  unfolding check_redis
  checked s o url client w n e = rw e refl

  gathered-IsReported :
      (o : Options) (url : String) (redis_first : Bool) (ping kafka : Result (Unit {0}))
      → Names "Kafka unavailable: " kafka
      → IsReported redis_first ping
          (is_ok kafka)
          (gathered redis_first (ping_or_raise t from_url o url ping) kafka)
  gathered-IsReported o url redis_first (ok u) (ok v) named = refl
  gathered-IsReported o url redis_first (ok u) (err e) (rest, same) = (rest, ap err same)
  gathered-IsReported o url redis_first (err x) (ok v) named = (_, refl)
  gathered-IsReported o url true (err x) (err e) named = (_, refl)
  gathered-IsReported o url false (err x) (err e) (rest, same) = (rest, ap err same)

  answers :
      (o : Options) (url : String) (r : Result (Unit {0}))
      → (ping_or_raise t from_url o url r ≡ ok tt) ↔ (r ≡ ok tt)
  answers o url (ok u) = (λ h. refl, λ h. refl)
  answers o url (err e) = (λ h. absurd (ground arith), λ h. absurd (ground arith))

  -- What the result `r` of the checks and the state that they leave are.
  pub record IsChecked (k : Kafka) (c : Checks) (n : ℕ) (p : KafkaProducer k)
      (r : Result (Unit {0}) × (ℕ × KafkaProducer k)) : Type 0 where
    pub passed : r.0 ≡ ok tt → (c.redis.ping ≡ ok tt) × (r.1.1.created ≡ true)
    pub passes :
        c.kafka.stop ≡ served
        → c.after_timeout.stop ≡ served
        → c.redis.ping ≡ ok tt
        → r.1.1.created ≡ true
        → r.0 ≡ ok tt
    pub reported : IsReported c.redis_first c.redis.ping (reachable c.wait c.kafka p.created) r.0
    pub clients : r.1.0 ≡ n
    pub topic : r.1.1.topic ≡ p.topic

  is_checked :
      (k : Kafka) (o : Options) (timeout url : String) (c : Checks) (n : ℕ) (p : KafkaProducer k)
      → IsChecked k c n p (
        gathered c.redis_first
            (ping_or_raise t from_url o url c.redis.ping)
            (check_kafka k timeout c.wait c.kafka c.after_timeout p).0,
        (n, (check_kafka k timeout c.wait c.kafka c.after_timeout p).1),
      )
  is_checked k o timeout url c n p = record {
    passed = λ h.
        let both = gathered-is_ok c.redis_first _ _ h in
        (
          (answers o url c.redis.ping).0 both.0,
          kafka-created k timeout c.wait c.kafka c.after_timeout p both.1,
        );
    passes = λ calm calm' up there.
        let ready =
          sym (kafka-left k timeout c.wait c.kafka c.after_timeout p calm calm') ∙ there in
        gathered-ok c.redis_first _ _ ((answers o url c.redis.ping).1 up) (is_ok-tt _ ready);
    reported =
        let kafka = (check_kafka k timeout c.wait c.kafka c.after_timeout p).0 in
        subst
          (λ there.
            IsReported c.redis_first c.redis.ping there
              (gathered c.redis_first (ping_or_raise t from_url o url c.redis.ping) kafka))
          (kafka-reachable k timeout c.wait c.kafka c.after_timeout p)
          (gathered-IsReported o url c.redis_first c.redis.ping kafka
            (kafka-Names k timeout c.wait c.kafka c.after_timeout p));
    clients = refl;
    topic = kafka-topic k timeout c.wait c.kafka c.after_timeout p;
  }

  -- For accepted settings, however the calls end and whichever check ends first: the start-up checks pass
  -- exactly if Redis answers the ping and the producer has a client or a new one starts within the
  -- limit; otherwise the exception says "Redis unavailable" or "Kafka unavailable", whichever of the two it
  -- is, and the one whose check ended first if it is both. Once they have passed the producer has a
  -- client; if it has one, Redis has answered and closing a Kafka client does not fail, they have passed;
  -- the shared Redis client stays open, and the topic is as it was.
  pub startup_checks-IsChecked :
      (k : Kafka) (env : Environ) (raw s : Settings) (o : Options) (timeout : String)
      (client : Client) (c : Checks) (n : ℕ) (p : KafkaProducer k)
      → apply_environment_rules env raw ≡ ok s
      → IsChecked k c n p (startup_checks t k from_url s o timeout client c (n, p))
  unfolding startup_checks
  startup_checks-IsChecked k env raw s o timeout client c n p accepted =
      let (url, at_redis) =
        some_value s.redis_url (apply_environment_rules-IsUsable env raw s accepted).redis in
      rw (checked s o url client c.redis n at_redis) (is_checked k o timeout url c n p)
