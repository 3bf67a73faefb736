-- ===== src/SecretSync/Rendering.antt =====
-- ci-cd/sync_secret.py: the documents of an environment, merged and checked, and the values of a
-- bundle. A path is a text, of a directory and a name.
use transcribe_service.Prelude.{
  String, Bool, true, false, not, ◌&&◌, ◌||◌, Option, List, [], ◌∷◌, map, if◌then◌else◌,
}
use transcribe_service.Prelude.Dict.{update}
use transcribe_service.Prelude.Exec.{Exn, Result, ok, value_error}
use transcribe_service.Prelude.Result.{◌>>=◌, raise_if}
use transcribe_service.Prelude.Text.{append, contains}
use transcribe_service.Logging.{Tools, mask_redis_url}
use transcribe_service.Settings.Fields.{model_fields}
use transcribe_service.Settings.Secrets.{Dict, member, bootstrap_keys}
use transcribe_service.SecretSync.{
  TomlValue, Table, JsonScalar, text, AppSecret, AwsSecretConfig, load_toml_document, section,
  load_aws_config, merge_app_layers, json_scalar_to_env_str,
}

-- How pydantic builds `Settings` from the process environment.
pub data Outcome : Type 0 where
  accepted : Outcome
  validation_error : String → Outcome
  raised : Exn → Outcome

-- What the script uses of the libraries.
pub record Libraries : Type 0 where
  pub upper : String → String
  pub lower : String → String
  pub toml_load : String → Result TomlValue
  -- `json.dumps(payload, indent=2, sort_keys=True)`
  pub dumps : AppSecret → String
  pub dumps_environment : Dict → String
  pub settings_class : Dict → Outcome
  pub urls : Tools

abbrev pub join : String → String → String
join dir name = append dir (append "/" name)

abbrev pub any : (String → Bool) → AppSecret → Bool
any test [] = false
any test ((key, v) ∷ app) = test key || any test app

-- `allowed_secret_app_keys`
abbrev pub is_allowed : (String → String) → String → Bool
is_allowed upper key = member (map upper model_fields) key && not (member bootstrap_keys key)

unfoldable pub validate_secret_app_keys : (String → String) → AppSecret → Result (Unit {0})
validate_secret_app_keys upper app_secret = do
  _ ←
      raise_if (any (member bootstrap_keys) app_secret)
        (value_error "Bootstrap keys must not appear in the secret body")
  raise_if (any (λ key. not (is_allowed upper key)) app_secret)
      (value_error "Unsupported app configuration keys for Secrets Manager payload")

-- The documents of an environment merged and checked.
unfoldable pub combine : Libraries → Table → Table → Table → Result (AwsSecretConfig × AppSecret)
unfolding load_aws_config merge_app_layers validate_secret_app_keys
combine l base_doc env_doc secret_doc = do
  aws ← load_aws_config (section "aws" base_doc) (section "aws" env_doc)
  app_secret ←
      merge_app_layers l.upper
        (section "app" base_doc ∷ section "app" env_doc ∷ section "app" secret_doc ∷ []) []
  _ ← validate_secret_app_keys l.upper app_secret
  ok (aws, app_secret)

-- The part of `render_secret_bundle` before the settings are built. Files are read by their path.
unfoldable pub render_layers :
    Libraries → (String → Option String) → String → String → Result (AwsSecretConfig × AppSecret)
unfolding load_toml_document combine
render_layers l read env_name config_dir = do
  base_doc ← load_toml_document l.toml_load (read (join config_dir "base.toml")) true
  env_doc ← load_toml_document l.toml_load (read (join config_dir (append env_name ".toml"))) true
  secret_doc ←
      load_toml_document l.toml_load (read (join config_dir (append env_name ".secrets.toml")))
        false
  combine l base_doc env_doc secret_doc

-- `{key: _json_scalar_to_env_str(value) …}`
unfoldable pub env_strings : AppSecret → Dict
unfolding json_scalar_to_env_str
env_strings [] = []
env_strings ((key, v) ∷ app) = (key, json_scalar_to_env_str v) ∷ env_strings app

-- `env_map`
unfoldable pub deployed_environ : String → AppSecret → Dict
unfolding env_strings update
deployed_environ aws_region app_secret =
    update (("APP_ENV", "deployed") ∷ ("AWS_REGION", aws_region) ∷ []) (env_strings app_secret)

abbrev pub bootstrap_environment : AwsSecretConfig → Dict
bootstrap_environment aws =
    ("APP_ENV", "deployed")
    ∷ ("AWS_REGION", aws.region)
    ∷ ("AWS_SECRETS_MANAGER_SECRET_ID", aws.secret_name)
    ∷ []

-- `SENSITIVE_VALUE_KEYS`
abbrev pub sensitive_value_keys : List String
sensitive_value_keys = "AUTH_JWT_SIGNING_MATERIAL" ∷ "REDIS_PASSWORD" ∷ []

abbrev redact_scalar : Libraries → JsonScalar → JsonScalar
redact_scalar l (text s) =
    if contains "redis" (l.lower s) then text (mask_redis_url l.urls s) else text s
redact_scalar l v = v

unfoldable pub redact_value_for_output : Libraries → String → JsonScalar → JsonScalar
unfolding contains mask_redis_url
redact_value_for_output l key v =
    if member sensitive_value_keys key then text "***" else redact_scalar l v

-- `redacted_app_secret`; the sorting of the keys is left to `dumps`, which sorts them too.
unfoldable pub redacted_app_secret : Libraries → AppSecret → AppSecret
unfolding redact_value_for_output
redacted_app_secret l [] = []
redacted_app_secret l ((key, v) ∷ app) =
    (key, redact_value_for_output l key v) ∷ redacted_app_secret l app
