-- ===== src/Tests/Wiring.antt =====
-- The theorems on the parts that accepted settings are made into.
use transcribe_service.Prelude.{
  ℕ, String, ◌≡◌, refl, ◌≢◌, true, false, false≢true, eq_iff, Option, none, some, List, [], ◌∷◌,
  arith,
}
use transcribe_service.Prelude.Exec.{Result, ok}
use transcribe_service.Logging.{Tools}
use transcribe_service.Redis.Memory.{memory}
use transcribe_service.Redis.Scripts.{run_claim_or_refresh}
use transcribe_service.Redis.OwnershipGuard
use transcribe_service.Redis.OwnershipGuard.Lease.{Act, claims, passes, heartbeat, AllOwned, IsHeld}
use transcribe_service.Runtime.Wiring.{
  Options, RedisClientKwargs, RuntimeBundle, create_auth_backend, create_kafka_producer,
  build_web_app, guard_config,
}
use transcribe_service.Runtime.Wiring.Clients.{create_shared_redis_client, assemble}
use transcribe_service.Runtime.Wiring.Assembled.{parts_of}
use transcribe_service.Producer.KafkaConnection.{CreateContext, aws_msk_iam, sasl_ssl_kwargs}
use transcribe_service.Runtime.Wiring.Keeping.{assemble-AllOwned}
use transcribe_service.Tests.Fixtures.{guard}
use transcribe_service.Tests.Service.{environ, deployed_settings, with_region, accepted_settings}

abbrev pub tools : Tools
tools = record {
  lower = λ s. s;
  urlparse = λ s. ok (record {
    scheme = "rediss";
    username = none;
    password = none;
    hostname = some "redis";
    path = "/0";
  });
  port = λ s. ok (some "6379");
  urlunparse = λ scheme location path. ok location;
}

-- A client is the URL and the arguments that it was made of.
abbrev pub Client : Type 0
Client = String × RedisClientKwargs

abbrev pub from_url : String → RedisClientKwargs → Result Client
from_url url kwargs = ok (url, kwargs)

abbrev pub options : Options
options = record {
  redis_username = some " app ";
  redis_password = some "";
  redis_ssl_check_hostname = true;
  redis_max_connections = 100;
  kafka_topic = "transcripts";
  kafka_compression_type = "zstd";
  kafka_aws_debug_creds = false;
  kafka_send_timeout_ms = 2000;
  kafka_linger_ms = 1;
  kafka_batch_size = 32768;
  auth_jwt_algorithm = "HS256";
  ws_max_connections = 0;
  ws_ping_interval_ms = 20000;
  ws_ping_timeout_ms = 20000;
  http_port = 8080;
  http_backlog = 2048;
  http_enable_docs = false;
  url_path_prefix = "";
  log_level = "info";
  log_ws_error_frames = false;
  log_slow_message_threshold_ms = 0;
}

-- The name is stripped, an empty password is left out, and TLS has its option.
abbrev pub client : Client
client = (
  "rediss://redis:6379/0",
  record {
    decode_responses = true;
    max_connections = 100;
    ssl_check_hostname = some true;
    username = some "app";
    password = none;
  },
)

client_is_created : create_shared_redis_client tools from_url with_region options ≡ ok client
unfolding create_shared_redis_client
client_is_created = refl

abbrev no_int : String → Option ℕ
no_int s = none

-- Every CA file makes a context.
abbrev any_context : CreateContext
any_context ca_file = ok tt

abbrev bundle : RuntimeBundle Client
bundle =
    parts_of tools from_url no_int with_region options "rediss://redis:6379/0" client
      (aws_msk_iam "eu-west-1" none false) (sasl_ssl_kwargs "eu-west-1" none false "kafka:9098")

bundle_is_built : assemble tools from_url any_context no_int with_region options ≡ ok bundle
unfolding assemble create_shared_redis_client create_kafka_producer create_auth_backend
    build_web_app
bundle_is_built = refl

abbrev owner : OwnershipGuard.Config
owner = guard_config with_region

abbrev held : OwnershipGuard.Guard memory
unfolding OwnershipGuard.claim_or_refresh
held = (OwnershipGuard.claim_or_refresh memory owner "c-1" "alice" guard).1

held-IsHeld : IsHeld memory owner "c-1" "alice" 30000 held
unfolding OwnershipGuard.claim_or_refresh run_claim_or_refresh OwnershipGuard.key
held-IsHeld = refl

-- `bob` tries in between, and each refresh comes after the interval.
abbrev rounds : List (List Act)
rounds = (passes 10000 ∷ claims "bob" ∷ passes 5000 ∷ []) ∷ (passes 15000 ∷ []) ∷ []

abbrev alice : String
alice = "alice"

abbrev bob : String
bob = "bob"

bob-alice : bob ≢ alice
bob-alice e = false≢true ((eq_iff bob alice).1 e)

assemble-AllOwned_example :
    AllOwned memory owner "c-1" (heartbeat memory owner "c-1" "alice" rounds held)
assemble-AllOwned_example =
    assemble-AllOwned tools from_url any_context no_int environ deployed_settings with_region
      options client bundle accepted_settings client_is_created bundle_is_built memory "c-1" "alice"
      rounds held ((bob-alice, tt), omega arith, (tt, omega arith, tt)) held-IsHeld
