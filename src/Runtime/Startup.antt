-- ===== src/Runtime/Startup.antt =====
-- The start-up checks of main.py, which `run` gathers: `_check_redis` and `_check_kafka`, over the masking
-- of what they raise and the Kafka producer. The timing and the logging are left out.
pub mod Checked
pub mod Masked
use transcribe_service.Prelude.{
  ℕ, ◌+◌, ◌-◌, String, Bool, true, false, Option, none, some, if◌then◌else◌,
}
use transcribe_service.Prelude.Exec.{
  Exn, timeout_error, exception, str, Result, ok, err, Exec, lift, catch, raise, pure, ◌>>=◌, ◌>>◌,
  with_finally,
}
use transcribe_service.Prelude.Text.{append}
use transcribe_service.Logging.{Tools, mask_redis_url, redact_text_for_logs}
use transcribe_service.Settings.{Settings}
use transcribe_service.Producer.{Kafka, KafkaProducer, ClientWeather, ensure_ready, close}
use transcribe_service.Runtime.Wiring.{Options, RedisClientKwargs, asserted}
use transcribe_service.Runtime.Wiring.Clients.{create_shared_redis_client}

-- How the calls of the Redis client end.
pub record RedisWeather : Type 0 where
  pub ping : Result (Unit {0})
  pub aclose : Result (Unit {0})

-- `f"Redis unavailable: {redacted_url} - {err_safe}"`
abbrev pub redis_unavailable : String → String → Exn
redis_unavailable redacted_url err_safe =
    exception (append "Redis unavailable: " (append redacted_url (append " - " err_safe)))

abbrev pub kafka_unavailable : String → Exn
kafka_unavailable reason = exception (append "Kafka unavailable: " reason)

-- The state is the number of clients that are open.
module _ (t : Tools) {Client : Type 0} (from_url : String → RedisClientKwargs → Result Client) where
  abbrev opened : Exec ℕ (Unit {0})
  opened n = (ok tt, n + 1)

  abbrev closed : Result (Unit {0}) → Exec ℕ (Unit {0})
  closed aclose n = elim aclose [ ok u ↦ (ok tt, n - 1) | err e ↦ (err e, n) ]

  -- The client, and whether the check owns it.
  abbrev client_of : Settings → Options → Option Client → Exec ℕ Bool
  client_of s o none = do lift (create_shared_redis_client t from_url s o); opened; pure true
  client_of s o (some client) = pure false

  abbrev pub ping_or_raise : Options → String → Result (Unit {0}) → Result (Unit {0})
  ping_or_raise o redis_url (ok u) = ok u
  ping_or_raise o redis_url (err e) = err (
      redis_unavailable (mask_redis_url t redis_url)
        (redact_text_for_logs t o.redis_password (str e)))

  abbrev close_if : Bool → RedisWeather → Exec ℕ (Unit {0})
  close_if true w = closed w.aclose
  close_if false w = pure tt

  unfoldable pub check_redis : Settings → Options → Option Client → RedisWeather → Exec ℕ (Unit {0})
  unfolding create_shared_redis_client mask_redis_url redact_text_for_logs
  check_redis s o client w = do
    redis_url ← lift (asserted s.redis_url)
    owns_client ← client_of s o client
    with_finally (lift (ping_or_raise o redis_url w.ping)) (close_if owns_client w)

-- How `asyncio.wait_for` ends: the call ends in time, or is cancelled.
pub data Wait : Type 0 where
  in_time expires : Wait

module _ (k : Kafka) where
  abbrev Action : Type 0
  Action = Exec (KafkaProducer k) (Unit {0})

  -- A call that is cancelled is at `start` of a new client, or at `stop` of one that did not start; the
  -- handlers for `Exception` do not see the cancellation. With a client there is nothing to wait for.
  unfoldable pub wait_for : Wait → ClientWeather → Action
  unfolding ensure_ready
  wait_for in_time w p = ensure_ready k w p
  wait_for expires w p =
      if p.created then (ok tt, p) else (err (timeout_error ""), record p { created = true })

  -- `timeout` is the text of the limit in seconds; an exception of `close` is only logged.
  abbrev pub unavailable : String → ClientWeather → Exn → Action
  unavailable timeout w (timeout_error s) = do
    catch (close k w) (λ e. pure tt)
    raise (kafka_unavailable (append "connection timed out after " (append timeout "s")))
  unavailable timeout w e = raise (kafka_unavailable (str e))

  -- The calls of the check, and those of the closing after a timeout.
  unfoldable pub check_kafka : String → Wait → ClientWeather → ClientWeather → Action
  unfolding wait_for close
  check_kafka timeout wait w after = catch (wait_for wait w) (unavailable timeout after)

-- What `asyncio.gather` raises of the exceptions of two tasks: the one that came first.
abbrev pub gathered : Bool → Result (Unit {0}) → Result (Unit {0}) → Result (Unit {0})
gathered redis_first (err e) (err e') = if redis_first then err e else err e'
gathered redis_first (err e) (ok u) = err e
gathered redis_first (ok u) kafka = kafka

-- One course of the start-up: how every call ends, and which check ends first.
pub record Checks : Type 0 where
  pub redis : RedisWeather
  pub kafka : ClientWeather
  pub after_timeout : ClientWeather
  pub wait : Wait
  pub redis_first : Bool

-- The two checks of `run`, on the client and the producer of the bundle, once both are over. The number
-- of open Redis clients stands beside the producer.
unfoldable pub startup_checks :
    (t : Tools) (k : Kafka) {Client : Type 0}
    → (String → RedisClientKwargs → Result Client)
    → Settings
    → Options
    → String
    → Client
    → Checks
    → ℕ × KafkaProducer k
    → Result (Unit {0}) × (ℕ × KafkaProducer k)
unfolding check_redis check_kafka
startup_checks t k from_url s o timeout client c (open_clients, p) =
    let (redis, open_clients') = check_redis t from_url s o (some client) c.redis open_clients in
    let (kafka, p') = check_kafka k timeout c.wait c.kafka c.after_timeout p in
    (gathered c.redis_first redis kafka, (open_clients', p'))
