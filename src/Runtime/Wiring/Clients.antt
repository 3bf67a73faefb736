-- ===== src/Runtime/Wiring/Clients.antt =====
-- The Redis clients of redis/async_client.py, the factories of redis/runtime.py that share one, and the
-- order in which service_runtime.py builds the parts.
use transcribe_service.Prelude.{ℕ, String, Bool, true, Option, none, some, ◌==◌, if◌then◌else◌}
use transcribe_service.Prelude.Exec.{Result, ok, err}
use transcribe_service.Prelude.Result.{◌>>=◌}
use transcribe_service.Auth.Whitespace.{strip}
use transcribe_service.Logging.{Tools}
use transcribe_service.Settings.{Settings}
use transcribe_service.Producer.KafkaConnection.{CreateContext}
use transcribe_service.Runtime.Wiring.{
  Options, RedisClientKwargs, Connection, RedisSequenceStateMachine,
  RedisConversationOwnershipGuard, ServerParameters, RuntimeBundle, asserted, sequence_config,
  guard_config, create_auth_backend, create_kafka_producer, build_web_app,
}

-- `value if value is not None and value != ""`
abbrev pub unless_empty : Option String → Option String
unless_empty none = none
unless_empty (some s) = if s == "" then none else some s

abbrev pub stripped : Option String → Option String
stripped none = none
stripped (some s) = unless_empty (some (strip s))

abbrev tls_only : String → Bool → Option Bool
tls_only scheme ssl_check_hostname = if scheme == "rediss" then some ssl_check_hostname else none

-- The parser of URLs, and what redis-py makes of a URL and the arguments, which it may refuse.
module _ (t : Tools) {Client : Type 0} (from_url : String → RedisClientKwargs → Result Client) where
  unfoldable pub create_async_redis_client :
      String → Option String → Option String → Bool → Bool → ℕ → Result Client
  unfolding strip
  create_async_redis_client redis_url username password ssl_check_hostname decode max_connections =
      do
        parts ← t.urlparse redis_url
        from_url redis_url record {
          decode_responses = decode;
          max_connections = max_connections;
          ssl_check_hostname = tls_only (t.lower parts.scheme) ssl_check_hostname;
          username = stripped username;
          password = unless_empty password;
        }

  unfoldable pub create_shared_redis_client : Settings → Options → Result Client
  unfolding create_async_redis_client
  create_shared_redis_client s o = do
    redis_url ← asserted s.redis_url
    create_async_redis_client redis_url o.redis_username o.redis_password o.redis_ssl_check_hostname
        true o.redis_max_connections

  abbrev kept : Connection Client → Result Client → Result Client × Connection Client
  kept c (ok client) = (ok client, record c { client = some client })
  kept c (err e) = (err e, c)

  -- `_get_client` of both classes: a client is created once, if none was given.
  unfoldable pub get_client : Connection Client → Result Client × Connection Client
  unfolding create_async_redis_client
  get_client c = elim c.client [
    | some client ↦ (ok client, c)
    | none ↦ kept c (do
      redis_url ← asserted c.redis_url
      create_async_redis_client redis_url c.redis_username c.redis_password c.ssl_check_hostname
          true c.max_connections)
  ]

  abbrev pub connection_to : Options → String → Client → Connection Client
  connection_to o redis_url client = record {
    redis_url = some redis_url;
    max_connections = o.redis_max_connections;
    redis_username = o.redis_username;
    redis_password = o.redis_password;
    ssl_check_hostname = o.redis_ssl_check_hostname;
    client = some client;
  }

  unfoldable pub create_sequence_state_machine :
      (String → Option ℕ) → Settings → Options → Client → Result (RedisSequenceStateMachine Client)
  create_sequence_state_machine int_of_text s o client = do
    redis_url ← asserted s.redis_url
    ok (record {
      connection = connection_to o redis_url client;
      config = sequence_config int_of_text s;
    })

  unfoldable pub create_ownership_guard :
      Settings → Options → Client → Result (RedisConversationOwnershipGuard Client)
  create_ownership_guard s o client = do
    redis_url ← asserted s.redis_url
    ok (record { connection = connection_to o redis_url client; config = guard_config s })

  unfoldable pub create_uvicorn_server : Options → ServerParameters
  create_uvicorn_server o = record {
    port = o.http_port;
    backlog = o.http_backlog;
    ws_ping_interval_ms = o.ws_ping_interval_ms;
    ws_ping_timeout_ms = o.ws_ping_timeout_ms;
    log_level = t.lower o.log_level;
  }

  -- The factories in the order of `create_runtime_bundle`; what a failure releases is in Runtime.
  unfoldable pub assemble :
      CreateContext → (String → Option ℕ) → Settings → Options → Result (RuntimeBundle Client)
  unfolding create_shared_redis_client create_sequence_state_machine create_ownership_guard
      create_kafka_producer create_auth_backend build_web_app create_uvicorn_server
  assemble create_default_context int_of_text s o = do
    shared_redis_client ← create_shared_redis_client s o
    sequence_state_machine ← create_sequence_state_machine int_of_text s o shared_redis_client
    ownership_guard ← create_ownership_guard s o shared_redis_client
    producer ← create_kafka_producer create_default_context s o
    app ← build_web_app s o
    ok (record {
      shared_redis_client = shared_redis_client;
      sequence_state_machine = sequence_state_machine;
      ownership_guard = ownership_guard;
      producer = producer;
      auth_backend = create_auth_backend s o;
      app = app;
      server = create_uvicorn_server o;
    })
