-- ===== src/Tests/Deployment.antt =====
-- The theorems on the secret sync script, and on it and the service together.
use transcribe_service.Prelude.{
  String, ◌≡◌, refl, ap, true, false, none, some, [], ◌∷◌, ◌==◌, if◌then◌else◌,
}
use transcribe_service.Prelude.Dict.{lookup, set, lookup-set}
use transcribe_service.Prelude.Exec.{Result, ok, err, exception, served}
use transcribe_service.Auth.Whitespace.{strip_idem}
use transcribe_service.Logging.{Tools}
use transcribe_service.Json
use transcribe_service.Settings.Secrets.{
  Dict, Outside, Loader, load_dotenv_layer, merge_deployed_secrets_into_environ,
}
use transcribe_service.SecretSync.{
  TomlValue, Table, end, entry, JsonScalar, AppSecret, AwsSecretConfig, RenderedSecretBundle,
}
use transcribe_service.SecretSync.Command.{main, bundle_of, render_secret_bundle}
use transcribe_service.SecretSync.Contract.{Rendered}
use transcribe_service.SecretSync.Deployment.{expected}
use transcribe_service.SecretSync.Keys.{UpperLaws}
use transcribe_service.SecretSync.Loading.{JsonLaws, fields_of}
use transcribe_service.SecretSync.Rendering.{Libraries, accepted}
use transcribe_service.SecretSync.Service.{main-environment}
use transcribe_service.SecretSync.World.{SecretsManager, Weather, World, Arguments, code}

-- An account that is a dictionary.
abbrev account : SecretsManager
account = record {
  Account = Dict;
  value = lookup;
  create = λ c a. set c.name c.secret_string a;
  put = set;
  value-create = λ c name a. lookup-set name c.name c.secret_string a;
  value-put = λ n s name a. lookup-set name n s a;
}

abbrev payload : AppSecret
payload =
    ("redis_url", JsonScalar.text "rediss://redis:6379")
    ∷ ("http_port", JsonScalar.number "8081")
    ∷ ("auth_enabled", JsonScalar.bool true)
    ∷ []

abbrev target : AwsSecretConfig
target = record {
  region = "eu-west-1";
  profile = "dev";
  secret_name = "dev/app";
  kms_key_id = none;
}

abbrev base_doc : Table
base_doc =
    entry "aws"
      (TomlValue.table (
        entry "region" (TomlValue.text " eu-west-1 ") (
          entry "profile" (TomlValue.text "dev")
            (entry "secret_name" (TomlValue.text "base/app") end))))
      (entry "app"
        (TomlValue.table (
          entry "redis_url" (TomlValue.text "rediss://old:6379") (
            entry "log_level" (TomlValue.text "INFO")
              (entry "http_port" (TomlValue.number "8081") end))))
        end)

abbrev dev_doc : Table
dev_doc = entry "aws" (TomlValue.table (entry "secret_name" (TomlValue.text "dev/app") end)) (
    entry "app"
      (TomlValue.table (
        entry "log_level" (TomlValue.text "__UNSET__")
          (entry " redis_url" (TomlValue.text "rediss://redis:6379") end)))
      end)

abbrev secret_doc : Table
secret_doc = entry "app" (TomlValue.table (entry "auth_enabled" (TomlValue.bool true) end)) end

abbrev document : String → Result TomlValue
document content =
    if content == "base"
    then ok (TomlValue.table base_doc)
    else if content == "dev"
    then ok (TomlValue.table dev_doc)
    else ok (TomlValue.table secret_doc)

abbrev no_urls : Tools
no_urls = record {
  lower = λ s. s;
  urlparse = λ s. err (exception "no URL");
  port = λ s. ok none;
  urlunparse = λ a b c. ok b;
}

abbrev libraries : Libraries
libraries = record {
  upper = λ s. s;
  lower = λ s. s;
  toml_load = document;
  dumps = λ app. "payload";
  dumps_environment = λ d. "bootstrap";
  settings_class = λ d. accepted;
  urls = no_urls;
}

abbrev calm : Weather
calm = record {
  session = none;
  describe = none;
  create = served;
  put = served;
  write_bootstrap = served;
  write_secret = served;
}

abbrev world : World account
world = record {
  environ = ("PATH", "/bin") ∷ [];
  files =
      ("cfg/base.toml", "base")
      ∷ ("cfg/dev.toml", "dev")
      ∷ ("cfg/dev.secrets.toml", "secrets")
      ∷ [];
  account = ("other", "kept") ∷ [];
  stdout = [];
  stderr = [];
}

abbrev sync_args : Arguments
sync_args = record { env = "dev"; dry_run = false; output_dir = none; config_dir = "cfg" }

abbrev bundle : RenderedSecretBundle
bundle = bundle_of account "dev" (target, payload)

bundle-Rendered : Rendered account libraries calm sync_args world bundle
unfolding render_secret_bundle
bundle-Rendered = refl

sync_returns : (main account libraries calm sync_args world).0 ≡ code 0
unfolding main
sync_returns = refl

abbrev outside : Outside
outside = record {
  upper = λ s. s;
  get_secret =
      λ region name. ok (lookup name (main account libraries calm sync_args world).1.account);
  loads = λ raw. ok (Json.obj (fields_of payload));
  dotenv = ("LOG_LEVEL", some "DEBUG") ∷ [];
}

abbrev started : Loader
started = record {
  environ =
      ("APP_ENV", "deployed")
      ∷ ("AWS_REGION", "eu-west-1")
      ∷ ("AWS_SECRETS_MANAGER_SECRET_ID", "dev/app")
      ∷ ("http_port", "1")
      ∷ [];
  deployed_secrets_loaded = false;
}

same_upper : UpperLaws (λ s. s)
same_upper = record {
  upper-strip = strip_idem;
  strip-upper = λ s. ap (λ x. x == "") (strip_idem s);
}

payload_laws : JsonLaws libraries outside.loads payload
payload_laws = record {
  sorted = payload;
  lookup-sorted = λ key. refl;
  sorted-Distinct = (refl, (refl, (refl, tt)));
  loads-dumps = refl;
}

main-environment_example :
    ((merge_deployed_secrets_into_environ outside started).0 ≡ ok tt)
    × ((key : String)
        → lookup key (merge_deployed_secrets_into_environ outside started).1.environ
          ≡ expected target payload started.environ
              (load_dotenv_layer outside.upper outside.dotenv [])
              key)
main-environment_example =
    main-environment account libraries calm sync_args world bundle bundle-Rendered outside started
      (record { same_upper = refl; upper_laws = same_upper; json_laws = payload_laws }) refl
      sync_returns
      (record {
        fresh = refl;
        bootstrap = record { app_env = refl; region = refl; secret = refl };
        reads = λ name. refl;
      })
