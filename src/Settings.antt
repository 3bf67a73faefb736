-- ===== src/Settings.antt =====
-- config/settings.py: the fields that its environment rules read, and the rules. Seconds that are
-- floats are counted in milliseconds. pydantic reads the fields before the rules run.
pub mod Usable
pub mod Fields
pub mod Prefix
pub mod Secrets
use Prim.Native.String
use transcribe_service.Prelude.{
  ℕ, ◌*◌, String, Bool, true, false, not, ◌&&◌, Option, none, some, List, [], ◌∷◌, ◌==◌, ltb, leb,
  is_some, if◌then◌else◌,
}
use transcribe_service.Prelude.Exec.{Result, ok, err, value_error}
use transcribe_service.Auth.Whitespace.{strip}

pub data AppEnv : Type 0 where
  local deployed : AppEnv

-- `plaintext` is the mode `local`.
pub data KafkaMode : Type 0 where
  plaintext aws_msk : KafkaMode

pub record Settings : Type 0 where
  pub app_env : AppEnv
  pub redis_url : Option String
  pub redis_active_ttl_sec : ℕ
  pub redis_final_ttl_sec : ℕ
  pub redis_ownership_guard_ttl_sec : ℕ
  pub redis_sequence_state_key_prefix : String
  pub redis_ownership_guard_key_prefix : String
  pub kafka_bootstrap_servers : Option String
  pub kafka_mode : KafkaMode
  pub kafka_ssl_ca_file : Option String
  pub kafka_aws_region : Option String
  pub ws_ownership_guard_refresh_interval_ms : ℕ
  pub auth_enabled : Bool
  pub auth_jwt_signing_material : Option String

-- `os.environ.get(…, "")` of the two region variables
pub record Environ : Type 0 where
  pub aws_region : String
  pub aws_default_region : String

abbrev pub default_sequence_prefix : String
default_sequence_prefix = "realtime-transcribe-service:expect-transcript-seq-num"

abbrev pub default_guard_prefix : String
default_guard_prefix = "realtime-transcribe-service:conversation-owner"

abbrev or_default : Option String → String → Option String
or_default none default = some default
or_default (some s) default = some s

abbrev pub is_deployed : AppEnv → Bool
is_deployed local = false
is_deployed deployed = true

abbrev pub is_msk : KafkaMode → Bool
is_msk plaintext = false
is_msk aws_msk = true

abbrev with_addresses : AppEnv → Settings → Settings
with_addresses deployed s = s
with_addresses local s = record s {
  redis_url = or_default s.redis_url "redis://127.0.0.1:6379/0";
  kafka_bootstrap_servers = or_default s.kafka_bootstrap_servers "127.0.0.1:9092";
}

-- `value or None`
abbrev or_none : String → Option String
or_none s = if s == "" then none else some s

-- `os.environ.get(AWS_REGION_ENV, "").strip() or os.environ.get(AWS_DEFAULT_REGION_ENV, "").strip()`
abbrev bootstrap_region : Environ → String
bootstrap_region env =
    if strip env.aws_region == "" then strip env.aws_default_region else strip env.aws_region

abbrev region_of : Environ → KafkaMode → Option String → Option String
region_of env plaintext region = region
region_of env aws_msk (some region) = some region
region_of env aws_msk none = or_none (bootstrap_region env)

-- The values that the rules fill in.
unfoldable pub with_defaults : Environ → Settings → Settings
unfolding strip
with_defaults env s =
    let t = with_addresses s.app_env s in
    record t { kafka_aws_region = region_of env t.kafka_mode t.kafka_aws_region }

-- `", ".join(missing)`
abbrev pub missing_names : Option String → Option String → String
missing_names none none = "REDIS_URL, KAFKA_BOOTSTRAP_SERVERS"
missing_names none (some kafka) = "REDIS_URL"
missing_names (some redis) kafka = "KAFKA_BOOTSTRAP_SERVERS"

-- The rules in their order, on settings with the values filled in: the first that holds raises.
abbrev pub rules : Settings → List (Bool × String)
rules s =
    (
      is_deployed s.app_env && not (is_some s.redis_url && is_some s.kafka_bootstrap_servers),
      String.◌++◌ "Missing required configuration for APP_ENV=deployed: "
          (missing_names s.redis_url s.kafka_bootstrap_servers),
    )
    ∷ (
      is_deployed s.app_env && (s.redis_sequence_state_key_prefix == default_sequence_prefix),
      "APP_ENV=deployed requires explicit REDIS_SEQUENCE_STATE_KEY_PREFIX matching your Redis/ElastiCache ACL key pattern (defaults are for APP_ENV=local / unscoped Redis only).",
    )
    ∷ (
      is_deployed s.app_env && (s.redis_ownership_guard_key_prefix == default_guard_prefix),
      "APP_ENV=deployed requires explicit REDIS_OWNERSHIP_GUARD_KEY_PREFIX matching your Redis/ElastiCache ACL key pattern (defaults are for APP_ENV=local / unscoped Redis only).",
    )
    ∷ (
      ltb s.redis_active_ttl_sec s.redis_final_ttl_sec,
      "REDIS_FINAL_TTL_SEC must be <= REDIS_ACTIVE_TTL_SEC",
    )
    ∷ (
      leb (s.redis_ownership_guard_ttl_sec * 1000) s.ws_ownership_guard_refresh_interval_ms,
      "WS_OWNERSHIP_GUARD_REFRESH_INTERVAL_SEC must be < REDIS_OWNERSHIP_GUARD_TTL_SEC",
    )
    ∷ (
      s.auth_enabled && not (is_some s.auth_jwt_signing_material),
      "AUTH_JWT_SIGNING_MATERIAL must be set when AUTH_ENABLED=true",
    )
    ∷ (
      is_deployed s.app_env && not (is_msk s.kafka_mode),
      "APP_ENV=deployed requires KAFKA_MODE=aws_msk (KAFKA_MODE=local is for local docker-compose only)",
    )
    ∷ (
      not (is_msk s.kafka_mode) && is_some s.kafka_ssl_ca_file,
      "KAFKA_SSL_CA_FILE is only used when KAFKA_MODE=aws_msk; local mode is PLAINTEXT docker-compose only",
    )
    ∷ (
      is_msk s.kafka_mode && not (is_some s.kafka_aws_region),
      "KAFKA_AWS_REGION must be set, or AWS_REGION/AWS_DEFAULT_REGION must be available, when KAFKA_MODE=aws_msk",
    )
    ∷ []

abbrev pub check : List (Bool × String) → Settings → Result Settings
check [] s = ok s
check ((violated, text) ∷ rest) s = if violated then err (value_error text) else check rest s

unfoldable pub apply_environment_rules : Environ → Settings → Result Settings
unfolding with_defaults
apply_environment_rules env s = let t = with_defaults env s in check (rules t) t
