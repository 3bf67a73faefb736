-- ===== src/Runtime/Wiring/Assembled.antt =====
-- What accepted settings make of the parts.
use transcribe_service.Prelude.{
  ℕ, ◌*◌, ◌≤◌, ◌<◌, String, ◌≡◌, ◌∙◌, sym, ap, refl, Bool, true, false, not, ◌||◌, Option, none,
  some, is_some, arith,
}
use transcribe_service.Prelude.Exec.{Result, ok, err}
use transcribe_service.Prelude.Result.{◌>>=◌}
use transcribe_service.Logging.{Tools}
use transcribe_service.Settings.{Settings, Environ, apply_environment_rules}
use transcribe_service.Settings.Usable.{IsUsable, apply_environment_rules-IsUsable}
use transcribe_service.Producer.KafkaConnection.{
  KafkaBrokerConnection, CreateContext, ClientKwargs, build_client_kwargs,
  kafka_connection_for_mode,
}
use transcribe_service.Producer.KafkaConnection.Profiles.{
  IsSecured, IsBuilt, needed_context, kafka_connection_for_mode-IsConnected,
}
use transcribe_service.Runtime.Wiring.{
  Options, RedisClientKwargs, Connection, RuntimeBundle, JwtBearerAuthBackend, AppParameters,
  create_auth_backend, create_kafka_producer, build_web_app, asserted, app_of, producer_of,
  sequence_config, guard_config,
}
use transcribe_service.Runtime.Wiring.Clients.{
  create_async_redis_client, create_shared_redis_client, get_client, create_sequence_state_machine,
  create_ownership_guard, create_uvicorn_server, assemble, connection_to,
}

-- Handshakes are authenticated exactly if they should be, with the key of the settings.
abbrev pub AuthFits : Bool → Option String → Option JwtBearerAuthBackend → Type 0
AuthFits false material backend = backend ≡ none
AuthFits true material none = ⊥
AuthFits true material (some backend) = material ≡ some backend.signing_material

pub some_value : {A : Type 0} (x : Option A) → is_some x ≡ true → (a : A) × (x ≡ some a)
some_value none h = absurd (ground arith)
some_value (some a) h = (a, refl)

auth_fits :
    (enabled : Bool) (material : Option String) (s : Settings) (o : Options)
    → s.auth_enabled ≡ enabled
    → s.auth_jwt_signing_material ≡ material
    → (not enabled || is_some material) ≡ true
    → AuthFits enabled material (create_auth_backend s o)
unfolding create_auth_backend
auth_fits false material s o e m h = rw e refl
auth_fits true none s o e m h = absurd (ground arith)
auth_fits true (some x) s o e m h = rw (e, m) refl

module _ (t : Tools) {Client : Type 0} (from_url : String → RedisClientKwargs → Result Client) where
  abbrev shared : Settings → Options → Result Client
  shared = create_shared_redis_client t from_url

  -- The object uses this client, and would create it if none had been given.
  abbrev Shares : Client → Connection Client → Type 0
  Shares client c =
      (get_client t from_url c ≡ (ok client, c))
      × (get_client t from_url (record c { client = none }) ≡ (ok client, c))

  -- The client that the probe `/ready` would create.
  abbrev probe_client : AppParameters → Result Client
  probe_client app =
      create_async_redis_client t from_url app.redis_url app.redis_username app.redis_password
        app.redis_ssl_check_hostname true app.redis_max_connections

  pub record IsAssembled (s : Settings) (b : RuntimeBundle Client) : Type 0 where
    pub machine : Shares b.shared_redis_client b.sequence_state_machine.connection
    pub guard : Shares b.shared_redis_client b.ownership_guard.connection
    pub probe : probe_client b.app ≡ ok b.shared_redis_client
    pub final :
        b.sequence_state_machine.config.final_ttl ≤ b.sequence_state_machine.config.active_ttl
    pub refresh :
        b.app.ownership_guard_refresh_interval_ms < b.ownership_guard.config.guard_ttl * 1000
    pub secured : IsSecured s.kafka_mode s.kafka_aws_region b.producer.client_kwargs
    pub auth : AuthFits s.auth_enabled s.auth_jwt_signing_material b.auth_backend

  created :
      (s : Settings) (o : Options) (url : String) (client : Client)
      → s.redis_url ≡ some url
      → shared s o ≡ ok client
      → create_async_redis_client t from_url url o.redis_username o.redis_password
          o.redis_ssl_check_hostname true o.redis_max_connections
        ≡ ok client
  unfolding create_shared_redis_client
  created s o url client e h =
      sym (
        ap
          (λ x. asserted x >>= λ u.
            create_async_redis_client t from_url u o.redis_username o.redis_password
              o.redis_ssl_check_hostname true o.redis_max_connections)
          e)
      ∙ h

  shares :
      (s : Settings) (o : Options) (url : String) (client : Client)
      → s.redis_url ≡ some url
      → shared s o ≡ ok client
      → Shares client (connection_to t from_url o url client)
  unfolding get_client
  shares s o url client e h = (refl, rw (created s o url client e h) refl)

  abbrev pub parts_of :
      (String → Option ℕ)
      → Settings
      → Options
      → String
      → Client
      → KafkaBrokerConnection
      → ClientKwargs
      → RuntimeBundle Client
  parts_of int_of_text s o url client connection client_kwargs = record {
    shared_redis_client = client;
    sequence_state_machine = record {
      connection = connection_to t from_url o url client;
      config = sequence_config int_of_text s;
    };
    ownership_guard = record {
      connection = connection_to t from_url o url client;
      config = guard_config s;
    };
    producer = producer_of o connection client_kwargs;
    auth_backend = create_auth_backend s o;
    app = app_of s o url;
    server = create_uvicorn_server t from_url o;
  }

  -- The bundle, or what making the TLS context raised.
  abbrev pub IsBundle : Settings → Result (Unit {0}) → Result (RuntimeBundle Client) → Type 0
  IsBundle s (ok context) r = (b : RuntimeBundle Client) × (r ≡ ok b) × IsAssembled s b
  IsBundle s (err e) r = r ≡ err e

  module _ (create_default_context : CreateContext) (int_of_text : String → Option ℕ) where
    bundle :
        (s : Settings) (o : Options) (url servers : String) (client : Client)
        (connection : KafkaBrokerConnection) (context : Result (Unit {0}))
        → kafka_connection_for_mode s.kafka_mode s.kafka_aws_region s.kafka_ssl_ca_file
            o.kafka_aws_debug_creds
          ≡ ok connection
        → IsBuilt s.kafka_mode s.kafka_aws_region context
            (build_client_kwargs create_default_context connection servers)
        → s.redis_url ≡ some url
        → s.kafka_bootstrap_servers ≡ some servers
        → shared s o ≡ ok client
        → IsUsable s
        → IsBundle s context (assemble t from_url create_default_context int_of_text s o)
    unfolding assemble create_sequence_state_machine create_ownership_guard create_kafka_producer
        build_web_app
    bundle s o url servers client connection (err e) chosen built at_redis at_kafka made usable =
        rw (made, at_redis, at_kafka, chosen, built) refl
    bundle s o url servers client connection (ok u) chosen (client_kwargs, built, secured) at_redis
          at_kafka made usable =
        (
          parts_of int_of_text s o url client connection client_kwargs,
          rw (made, at_redis, at_kafka, chosen, built) refl,
          record {
            machine = shares s o url client at_redis made;
            guard = shares s o url client at_redis made;
            probe = created s o url client at_redis made;
            final = usable.final;
            refresh = usable.refresh;
            secured = secured;
            auth = auth_fits s.auth_enabled s.auth_jwt_signing_material s o refl refl usable.auth;
          },
        )

    pub assemble-IsAssembled :
        (env : Environ) (raw s : Settings) (o : Options) (client : Client)
        → apply_environment_rules env raw ≡ ok s
        → shared s o ≡ ok client
        → IsBundle s
            (needed_context create_default_context s.kafka_mode s.kafka_ssl_ca_file)
            (assemble t from_url create_default_context int_of_text s o)
    assemble-IsAssembled env raw s o client accepted made =
        let usable = apply_environment_rules-IsUsable env raw s accepted in
        let (url, at_redis) = some_value s.redis_url usable.redis in
        let (servers, at_kafka) = some_value s.kafka_bootstrap_servers usable.kafka in
        let (connection, chosen, built) =
          kafka_connection_for_mode-IsConnected create_default_context env raw s
            o.kafka_aws_debug_creds servers accepted in
        bundle s o url servers client connection
          (needed_context create_default_context s.kafka_mode s.kafka_ssl_ca_file) chosen built
          at_redis at_kafka made usable
