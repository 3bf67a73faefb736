-- ===== src/Tests/Service.antt =====
-- The theorems on settings, the life of the process and the slow-message log.
use transcribe_service.Prelude.{
  ◌&&◌, String, ℕ, ◌+◌, ◌≡◌, refl, true, false, ◌==◌, if◌then◌else◌, none, some, List, [], ◌∷◌,
  ◌++◌, arith,
}
use transcribe_service.Prelude.Dict.{lookup}
use transcribe_service.Prelude.Exec.{ok, err, exception}
use transcribe_service.Runtime.{Troubles, Course, raises, fresh, run}
use transcribe_service.Runtime.Closing.{opening, between, built, closing, resources, run-closes}
use transcribe_service.Settings.{Settings, Environ, deployed, aws_msk, apply_environment_rules}
use transcribe_service.Json.{bool, text, obj, Fields, end, field}
use transcribe_service.Auth.{lower_is}
use transcribe_service.Auth.Whitespace.{strip}
use transcribe_service.Settings.Secrets.{
  Dict, Outside, Loader, app_env_is_deployed, load_dotenv_layer, secret_json_to_env_kv,
  merge_deployed_secrets_into_environ,
}
use transcribe_service.Settings.Secrets.Precedence.{
  first_layer, secret_id, IsRead, merge_deployed_secrets_into_environ-precedence,
}
use transcribe_service.Producer.KafkaConnection
use transcribe_service.Producer.KafkaConnection.{Call, kafka_connection_for_mode}
use transcribe_service.Producer.KafkaConnection.Tokens.{AllBacked, refresh_token-backed}
use transcribe_service.Transport.Readiness.{Probe, readiness}
use transcribe_service.Transport.Readiness.Answer.{
  is_ready, redis_answers, client_is_there, readiness-is_ready,
}
use transcribe_service.Tests.Fixtures.{log_topic, calm_client, idle_producer}
use transcribe_service.Settings.Usable.{IsUsable, apply_environment_rules-IsUsable}
use transcribe_service.Transport.SlowMessages.{at_start}
use transcribe_service.Transport.SlowMessages.Limit
use transcribe_service.Transport.SlowMessages.Limit.{slow, run-slow}

abbrev pub environ : Environ
environ = record { aws_region = " eu-west-1 "; aws_default_region = "" }

abbrev pub deployed_settings : Settings
deployed_settings = record {
  app_env = deployed;
  redis_url = some "rediss://redis:6379/0";
  redis_active_ttl_sec = 3600;
  redis_final_ttl_sec = 60;
  redis_ownership_guard_ttl_sec = 30;
  redis_sequence_state_key_prefix = "prod:seq";
  redis_ownership_guard_key_prefix = "prod:owner";
  kafka_bootstrap_servers = some "kafka:9098";
  kafka_mode = aws_msk;
  kafka_ssl_ca_file = none;
  kafka_aws_region = none;
  ws_ownership_guard_refresh_interval_ms = 15000;
  auth_enabled = true;
  auth_jwt_signing_material = some "secret";
}

abbrev pub with_region : Settings
with_region = record deployed_settings { kafka_aws_region = some "eu-west-1" }

pub accepted_settings : apply_environment_rules environ deployed_settings ≡ ok with_region
unfolding apply_environment_rules
accepted_settings = refl

settings_example : IsUsable with_region
settings_example =
    apply_environment_rules-IsUsable environ deployed_settings with_region accepted_settings

-- The second call reuses the token of the first, the third finds it about to expire.
abbrev token_calls : List Call
token_calls =
    record { now_ms = 1000; signed = ok ("first", 900000) }
    ∷ record { now_ms = 800000; signed = err (exception "no credentials") }
    ∷ record { now_ms = 850000; signed = err (exception "no credentials") }
    ∷ record { now_ms = 700000; signed = ok ("second", 1600000) }
    ∷ []

tokens_example : AllBacked [] token_calls KafkaConnection.new
tokens_example = refresh_token-backed token_calls

-- The authentication backend cannot be created.
abbrev no_auth : Troubles
no_auth = record {
  create_client = none;
  create_machine = none;
  create_guard = none;
  create_producer = none;
  register_signal = none;
  create_auth = some (exception "auth");
  build_app = none;
  create_server = none;
  close_producer = none;
  close_client = none;
}

abbrev flush_fails : Course
flush_fails = record { checks = none; server_first = none; stopping = raises 1 (exception "flush") }

closing_example :
    (run no_auth flush_fails fresh).1.events
    ≡ opening (resources no_auth)
      ++ (between (built no_auth) flush_fails ++ closing (resources no_auth))
closing_example = run-closes no_auth flush_fails refl refl

abbrev timings : List (ℕ × ℕ)
timings = (900, 10) ∷ (50, 20) ∷ (800, 30) ∷ (700, 2000000) ∷ []

slow_example :
    (Limit.run 500 timings at_start).lines
      + (Limit.run 500 timings at_start).reported
      + (Limit.run 500 timings at_start).window.suppressed
    ≡ at_start.suppressed + slow 500 timings
slow_example = run-slow 500 timings at_start (omega arith)

abbrev no_ping : Probe
no_ping = record {
  has_redis_client = true;
  has_redis_url = true;
  create_client = none;
  ping = some (exception "refused");
}

readiness_example : is_ready (readiness log_topic no_ping calm_client (some idle_producer)).0 ≡ (
    redis_answers no_ping
    && client_is_there (readiness log_topic no_ping calm_client (some idle_producer)).1)
readiness_example = readiness-is_ready log_topic no_ping calm_client (some idle_producer) refl

abbrev process_environ : Dict
process_environ =
    ("APP_ENV", " Deployed ")
    ∷ ("AWS_SECRETS_MANAGER_SECRET_ID", "prod/app")
    ∷ ("REDIS_URL", "redis://old")
    ∷ []

abbrev secret_fields : Fields
secret_fields =
    field "REDIS_URL" (text "redis://new")
      (field "APP_ENV" (text "local") (field " AUTH_ENABLED" (bool true) end))

abbrev secret_layer : Dict
secret_layer = ("REDIS_URL", "redis://new") ∷ ("APP_ENV", "local") ∷ ("AUTH_ENABLED", "true") ∷ []

abbrev outside : Outside
outside = record {
  upper = λ s. s;
  get_secret = λ region id. if id == "prod/app" then ok (some "{}") else err (exception "denied");
  loads = λ raw. ok (obj secret_fields);
  dotenv = ("KAFKA_MODE", some " aws_msk ") ∷ ("EMPTY", none) ∷ [];
}

abbrev unloaded : Loader
unloaded = record { environ = process_environ; deployed_secrets_loaded = false }

is_read : IsRead outside process_environ secret_layer
unfolding secret_json_to_env_kv strip
is_read = record {
  raw = "{}";
  fields = secret_fields;
  found = refl;
  parsed = refl;
  converted = refl;
}

is_deployed_here : app_env_is_deployed process_environ ≡ true
unfolding strip lower_is
is_deployed_here = refl

is_named : (secret_id process_environ == "") ≡ false
unfolding strip
is_named = refl

precedence_example :
    ((merge_deployed_secrets_into_environ outside unloaded).0 ≡ ok tt)
    × ((merge_deployed_secrets_into_environ outside unloaded).1.deployed_secrets_loaded ≡ true)
    × ((key : String)
        → lookup key (merge_deployed_secrets_into_environ outside unloaded).1.environ
          ≡ first_layer key process_environ secret_layer
              (load_dotenv_layer outside.upper outside.dotenv []))
precedence_example =
    merge_deployed_secrets_into_environ-precedence outside unloaded secret_layer refl
      is_deployed_here is_named is_read
