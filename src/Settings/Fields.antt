-- ===== src/Settings/Fields.antt =====
-- config/settings.py: the fields of `Settings`, and the validators that run on a raw value before
-- pydantic reads it.
use transcribe_service.Prelude.{String, List, [], ◌∷◌, ◌==◌, if◌then◌else◌}
use transcribe_service.Prelude.Exec.{Result, ok, err, value_error}
use transcribe_service.Auth.Whitespace.{strip}

-- The names of `Settings.model_fields`.
abbrev pub model_fields : List String
model_fields =
    "app_env" ∷ "redis_url" ∷ "redis_username" ∷ "redis_password" ∷ "redis_ssl_check_hostname"
    ∷ "redis_max_connections" ∷ "redis_active_ttl_sec" ∷ "redis_final_ttl_sec"
    ∷ "redis_ownership_guard_ttl_sec" ∷ "redis_sequence_state_key_prefix"
    ∷ "redis_ownership_guard_key_prefix" ∷ "kafka_bootstrap_servers" ∷ "kafka_mode" ∷ "kafka_topic"
    ∷ "kafka_compression_type" ∷ "kafka_ssl_ca_file" ∷ "kafka_aws_region" ∷ "kafka_aws_debug_creds"
    ∷ "kafka_send_timeout_sec" ∷ "kafka_linger_ms" ∷ "kafka_batch_size" ∷ "ws_ping_interval"
    ∷ "ws_ping_timeout" ∷ "ws_ownership_guard_refresh_interval_sec" ∷ "auth_enabled"
    ∷ "auth_jwt_signing_material" ∷ "auth_jwt_algorithm" ∷ "http_port" ∷ "http_backlog"
    ∷ "http_enable_docs" ∷ "url_path_prefix" ∷ "ws_max_connections" ∷ "kafka_startup_timeout_sec"
    ∷ "stop_timeout" ∷ "log_level" ∷ "log_format" ∷ "suppress_health_access_logs"
    ∷ "log_ws_error_frames" ∷ "log_slow_message_threshold_ms" ∷ []

-- A raw value: `None`, a text, or a value of another type.
pub data RawValue : Type 0 where
  null other : RawValue
  text : String → RawValue

unfoldable pub optional_redis_username : RawValue → RawValue
unfolding strip
optional_redis_username (text s) = if strip s == "" then null else text (strip s)
optional_redis_username v = v

-- A password keeps its spaces, unless it has nothing else.
unfoldable pub optional_redis_password : RawValue → RawValue
unfolding strip
optional_redis_password (text s) = if strip s == "" then null else text s
optional_redis_password v = v

-- `app_env`, `log_format`, `kafka_compression_type` and `kafka_mode`, with `str.lower`; `log_level` and
-- `auth_jwt_algorithm`, with `str.upper`.
unfoldable pub normalize_enum : (String → String) → RawValue → RawValue
unfolding strip
normalize_enum case (text s) = text (case (strip s))
normalize_enum case v = v

unfoldable pub reject_blank_strings : RawValue → Result RawValue
unfolding strip
reject_blank_strings (text s) =
    if strip s == "" then err (value_error "must not be empty") else ok (text (strip s))
reject_blank_strings v = ok v
