-- ===== src/Settings/Secrets.antt =====
-- config/secrets_loader.py: the merge of `.env`, the process environment and a secret. What boto3,
-- `json.loads` and dotenv return is an argument, and so is Python's `str.upper`.
pub mod Precedence
use transcribe_service.Prelude.{
  String, Bool, true, false, not, ◌&&◌, ◌||◌, Option, none, some, List, [], ◌∷◌, ◌==◌, is_some,
  if◌then◌else◌,
}
use transcribe_service.Prelude.Dict.{lookup, set, update}
use transcribe_service.Prelude.Exec.{Result, ok, err, exception, Exec, lift, raise, pure, ◌>>=◌}
use transcribe_service.Json.{Json, null, bool, num, text, obj, Fields, end, field}
use transcribe_service.Auth.{lower_is}
use transcribe_service.Auth.Whitespace.{strip}

-- `dict[str, str]`
abbrev pub Dict : Type 0
Dict = List (String × String)

-- `key in keys`
abbrev pub member : List String → String → Bool
member [] key = false
member (k ∷ ks) key = (k == key) || member ks key

abbrev pub or_empty : Option String → String
or_empty none = ""
or_empty (some s) = s

unfoldable pub secret_scalar_to_str : Json → Result String
secret_scalar_to_str null = ok ""
secret_scalar_to_str (bool true) = ok "true"
secret_scalar_to_str (bool false) = ok "false"
secret_scalar_to_str (num s) = ok s
secret_scalar_to_str (text s) = ok s
secret_scalar_to_str _ = err (exception "Unsupported JSON value type in secret")

-- What the loader uses of the rest of the world.
pub record Outside : Type 0 where
  pub upper : String → String
  -- `get_secret_value` with a region and the secret's id: its `SecretString`
  pub get_secret : String → String → Result (Option String)
  pub loads : String → Result Json
  -- `dotenv_values`, and nothing if there is no file
  pub dotenv : List (String × Option String)

-- The part of `_load_dotenv_layer` after the file is read.
unfoldable pub load_dotenv_layer : (String → String) → List (String × Option String) → Dict → Dict
unfolding set strip
load_dotenv_layer upper [] out = out
load_dotenv_layer upper ((key, none) ∷ raw) out = load_dotenv_layer upper raw out
load_dotenv_layer upper ((key, some v) ∷ raw) out =
    load_dotenv_layer upper raw
      (if strip key == "" || (strip v == "") then out else set (upper (strip key)) (strip v) out)

unfoldable pub secret_json_to_env_kv : (String → String) → Fields → Dict → Result Dict
unfolding set strip secret_scalar_to_str
secret_json_to_env_kv upper end out = ok out
secret_json_to_env_kv upper (field key val rest) out =
    if strip key == ""
    then secret_json_to_env_kv upper rest out
    else elim (secret_scalar_to_str val) [
      | ok s ↦ secret_json_to_env_kv upper rest (set (upper (strip key)) s out)
      | err e ↦ err (exception "Invalid value for secret key")
    ]

-- `DEPLOYED_BOOTSTRAP_ENV_KEYS`
abbrev pub bootstrap_keys : List String
bootstrap_keys =
    "APP_ENV" ∷ "AWS_SECRETS_MANAGER_SECRET_ID" ∷ "AWS_REGION" ∷ "AWS_DEFAULT_REGION" ∷ []

abbrev pub keep_one : String → Option String → Dict → Dict
keep_one key none merged = merged
keep_one key (some v) merged = set key v merged

unfoldable pub keep_bootstrap : List String → Dict → Dict → Dict
unfolding set
keep_bootstrap [] initial merged = merged
keep_bootstrap (key ∷ keys) initial merged =
    keep_one key (lookup key initial) (keep_bootstrap keys initial merged)

unfoldable pub merge_layers : Dict → Dict → Dict → Dict
unfolding update keep_bootstrap
merge_layers dot_layer initial secret_kv =
    keep_bootstrap bootstrap_keys initial (update (update dot_layer initial) secret_kv)

-- `os.environ`, and the one-shot flag.
pub record Loader : Type 0 where
  pub environ : Dict
  pub deployed_secrets_loaded : Bool

unfoldable pub reset_deployed_secrets_loader_state : Loader → Loader
reset_deployed_secrets_loader_state s = record {
  environ = s.environ;
  deployed_secrets_loaded = false;
}

abbrev secret_string : Option String → Result String
secret_string none = err (exception "Secret has no SecretString")
secret_string (some raw) = ok raw

abbrev json_object : Json → Result Fields
json_object (obj fields) = ok fields
json_object v = err (exception "JSON root must be an object, not a list or scalar")

-- `initial.get(AWS_REGION_ENV) or initial.get(AWS_DEFAULT_REGION_ENV) or ""`, stripped
abbrev pub initial_region : Dict → String
initial_region initial =
    let first = or_empty (lookup "AWS_REGION" initial) in
    strip (if first == "" then or_empty (lookup "AWS_DEFAULT_REGION" initial) else first)

abbrev write_environ : Outside → Dict → Exec Loader (Unit {0})
write_environ w secret_kv s = (
  ok tt,
  record {
    environ =
        update s.environ (merge_layers (load_dotenv_layer w.upper w.dotenv []) s.environ secret_kv);
    deployed_secrets_loaded = true;
  },
)

-- The part that runs for a deployed service.
unfoldable pub load : Outside → Exec Loader (Unit {0})
unfolding merge_layers load_dotenv_layer secret_json_to_env_kv strip update
load w s =
    let secret_id = strip (or_empty (lookup "AWS_SECRETS_MANAGER_SECRET_ID" s.environ)) in
    (if secret_id == ""
        then raise (exception "APP_ENV=deployed requires AWS_SECRETS_MANAGER_SECRET_ID")
        else (do
          found ← lift (w.get_secret (initial_region s.environ) secret_id)
          raw ← lift (secret_string found)
          payload ← lift (w.loads raw)
          fields ← lift (json_object payload)
          secret_kv ← lift (secret_json_to_env_kv w.upper fields [])
          write_environ w secret_kv))
      s

abbrev pub app_env_is_deployed : Dict → Bool
app_env_is_deployed environ = lower_is (strip (or_empty (lookup "APP_ENV" environ))) "deployed"

unfoldable pub merge_deployed_secrets_into_environ : Outside → Exec Loader (Unit {0})
unfolding load strip lower_is
merge_deployed_secrets_into_environ w s =
    (if s.deployed_secrets_loaded || not (app_env_is_deployed s.environ) then pure tt else load w) s
