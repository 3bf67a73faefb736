-- ===== src/Runtime/Wiring.antt =====
-- What the factories pass from the settings to each part: producer/runtime.py, auth/runtime.py,
-- redis/runtime.py, and the app and the server of service_runtime.py.
pub mod Clients
pub mod Assembled
pub mod Keeping
use transcribe_service.Prelude.{
  ℕ, String, Bool, true, false, not, ◌&&◌, Option, none, some, ◌==◌, if◌then◌else◌,
}
use transcribe_service.Prelude.Exec.{Result, ok, err, exception, value_error}
use transcribe_service.Prelude.Result.{◌>>=◌}
use transcribe_service.Auth.Whitespace.{strip}
use transcribe_service.Logging.{Tools, or_empty}
use transcribe_service.Settings.{Settings}
use transcribe_service.Producer.KafkaConnection.{
  KafkaBrokerConnection, CreateContext, ClientKwargs, build_client_kwargs,
  kafka_connection_for_mode,
}
use transcribe_service.Redis.SequenceStateMachine
use transcribe_service.Redis.OwnershipGuard

-- The fields of `Settings` that its rules do not read; seconds that are floats are in milliseconds.
pub record Options : Type 0 where
  pub redis_username : Option String
  pub redis_password : Option String
  pub redis_ssl_check_hostname : Bool
  pub redis_max_connections : ℕ
  pub kafka_topic : String
  pub kafka_compression_type : String
  pub kafka_aws_debug_creds : Bool
  pub kafka_send_timeout_ms : ℕ
  pub kafka_linger_ms : ℕ
  pub kafka_batch_size : ℕ
  pub auth_jwt_algorithm : String
  pub ws_max_connections : ℕ
  pub ws_ping_interval_ms : ℕ
  pub ws_ping_timeout_ms : ℕ
  pub http_port : ℕ
  pub http_backlog : ℕ
  pub http_enable_docs : Bool
  pub url_path_prefix : String
  pub log_level : String
  pub log_ws_error_frames : Bool
  pub log_slow_message_threshold_ms : ℕ

-- `_RedisClientKwargs`; a key that is not set is `none`.
pub record RedisClientKwargs : Type 0 where
  pub decode_responses : Bool
  pub max_connections : ℕ
  pub ssl_check_hostname : Option Bool
  pub username : Option String
  pub password : Option String

-- What both Redis classes keep of the connection.
pub record Connection (Client : Type 0) : Type 0 where
  pub redis_url : Option String
  pub max_connections : ℕ
  pub redis_username : Option String
  pub redis_password : Option String
  pub ssl_check_hostname : Bool
  pub client : Option Client

pub record RedisSequenceStateMachine (Client : Type 0) : Type 0 where
  pub connection : Connection Client
  pub config : SequenceStateMachine.Config

pub record RedisConversationOwnershipGuard (Client : Type 0) : Type 0 where
  pub connection : Connection Client
  pub config : OwnershipGuard.Config

-- What a `KafkaProducer` keeps.
pub record ProducerParameters : Type 0 where
  pub topic : String
  pub connection : KafkaBrokerConnection
  pub compression_type : String
  pub client_kwargs : ClientKwargs
  pub send_timeout_ms : ℕ
  pub linger_ms : ℕ
  pub batch_size : ℕ

pub record JwtBearerAuthBackend : Type 0 where
  pub signing_material : String
  pub algorithm : String

-- The arguments of `create_app` that come from the settings.
pub record AppParameters : Type 0 where
  pub redis_url : String
  pub redis_username : Option String
  pub redis_password : Option String
  pub redis_ssl_check_hostname : Bool
  pub redis_max_connections : ℕ
  pub max_connections : ℕ
  pub ownership_guard_refresh_interval_ms : ℕ
  pub log_ws_error_frames : Bool
  pub log_slow_message_threshold_ms : ℕ
  pub http_enable_docs : Bool
  pub url_path_prefix : String

-- `uvicorn.Config`, less its fixed arguments.
pub record ServerParameters : Type 0 where
  pub port : ℕ
  pub backlog : ℕ
  pub ws_ping_interval_ms : ℕ
  pub ws_ping_timeout_ms : ℕ
  pub log_level : String

pub record RuntimeBundle (Client : Type 0) : Type 0 where
  pub shared_redis_client : Client
  pub sequence_state_machine : RedisSequenceStateMachine Client
  pub ownership_guard : RedisConversationOwnershipGuard Client
  pub producer : ProducerParameters
  pub auth_backend : Option JwtBearerAuthBackend
  pub app : AppParameters
  pub server : ServerParameters

-- `assert value is not None`
abbrev pub asserted : {A : Type 0} → Option A → Result A
asserted none = err (exception "")
asserted (some a) = ok a

unfoldable pub create_auth_backend : Settings → Options → Option JwtBearerAuthBackend
create_auth_backend s o =
    if s.auth_enabled
    then some record {
      signing_material = or_empty s.auth_jwt_signing_material;
      algorithm = o.auth_jwt_algorithm;
    }
    else none

-- `KafkaProducer.__init__`, with the arguments that the connection has built.
abbrev pub producer_of : Options → KafkaBrokerConnection → ClientKwargs → ProducerParameters
producer_of o connection client_kwargs = record {
  topic = o.kafka_topic;
  connection = connection;
  compression_type = o.kafka_compression_type;
  client_kwargs = client_kwargs;
  send_timeout_ms = o.kafka_send_timeout_ms;
  linger_ms = o.kafka_linger_ms;
  batch_size = o.kafka_batch_size;
}

unfoldable pub create_kafka_producer :
    CreateContext → Settings → Options → Result ProducerParameters
unfolding kafka_connection_for_mode build_client_kwargs
create_kafka_producer create_default_context s o = do
  servers ← asserted s.kafka_bootstrap_servers
  connection ←
      kafka_connection_for_mode s.kafka_mode s.kafka_aws_region s.kafka_ssl_ca_file
        o.kafka_aws_debug_creds
  client_kwargs ← build_client_kwargs create_default_context connection servers
  ok (producer_of o connection client_kwargs)

abbrev pub app_of : Settings → Options → String → AppParameters
app_of s o redis_url = record {
  redis_url = redis_url;
  redis_username = o.redis_username;
  redis_password = o.redis_password;
  redis_ssl_check_hostname = o.redis_ssl_check_hostname;
  redis_max_connections = o.redis_max_connections;
  max_connections = o.ws_max_connections;
  ownership_guard_refresh_interval_ms = s.ws_ownership_guard_refresh_interval_ms;
  log_ws_error_frames = o.log_ws_error_frames;
  log_slow_message_threshold_ms = o.log_slow_message_threshold_ms;
  http_enable_docs = o.http_enable_docs;
  url_path_prefix = o.url_path_prefix;
}

unfoldable pub build_web_app : Settings → Options → Result AppParameters
build_web_app s o = do redis_url ← asserted s.redis_url; ok (app_of s o redis_url)

-- The configuration of the state machine; `int_of_text` is Python's `int` on a text.
abbrev pub sequence_config : (String → Option ℕ) → Settings → SequenceStateMachine.Config
sequence_config int_of_text s = record {
  active_ttl = s.redis_active_ttl_sec;
  final_ttl = s.redis_final_ttl_sec;
  key_prefix = s.redis_sequence_state_key_prefix;
  int_of_text = int_of_text;
}

abbrev pub guard_config : Settings → OwnershipGuard.Config
guard_config s = record {
  guard_ttl = s.redis_ownership_guard_ttl_sec;
  key_prefix = s.redis_ownership_guard_key_prefix;
}
