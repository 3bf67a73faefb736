-- ===== src/SecretSync.antt =====
-- ci-cd/sync_secret.py: the values of its TOML documents and of the payload, the merge of the layers,
-- and the checks. The names that an error lists are left out of its text.
pub mod Rendering
pub mod World
pub mod Command
pub mod Keys
pub mod Review
pub mod Upload
pub mod Contract
pub mod Loading
pub mod Deployment
pub mod Service
use transcribe_service.Prelude.{
  String, Bool, true, false, not, ◌&&◌, ◌||◌, Option, none, some, List, [], ◌∷◌, ◌==◌, map, is_some,
  if◌then◌else◌,
}
use transcribe_service.Prelude.Dict.{lookup, set, update, pop}
use transcribe_service.Prelude.Exec.{Result, ok, err, value_error, exception}
use transcribe_service.Prelude.Text.{contains}
use transcribe_service.Auth.Whitespace.{strip}
use transcribe_service.Settings.Secrets.{Dict, member}

-- What `tomllib.load` returns. Dates, times and arrays are the values that are neither scalars of the
-- payload nor tables.
mutual
  pub data TomlValue : Type 0 where
    text : String → TomlValue
    -- an integer or a float, as `str` writes it
    number : String → TomlValue
    bool : Bool → TomlValue
    other : TomlValue
    table : Table → TomlValue

  pub data Table : Type 0 where
    end : Table
    entry : String → TomlValue → Table → Table

-- `JsonScalar`
pub data JsonScalar : Type 0 where
  text number : String → JsonScalar
  bool : Bool → JsonScalar

abbrev pub AppSecret : Type 0
AppSecret = List (String × JsonScalar)

pub record AwsSecretConfig : Type 0 where
  pub region : String
  pub profile : String
  pub secret_name : String
  pub kms_key_id : Option String

pub record RenderedSecretBundle : Type 0 where
  pub environment : String
  pub aws : AwsSecretConfig
  pub app_secret : AppSecret
  -- the pairs of `name` and `value`
  pub bootstrap_environment : Dict

-- `d.get(key)` of a table
abbrev pub get : String → Table → Option TomlValue
get key end = none
get key (entry k v t) = if k == key then some v else get key t

-- `t[key] = value`
unfoldable pub assign : String → TomlValue → Table → Table
assign key value end = entry key value end
assign key value (entry k v t) =
    if k == key then entry k value t else entry k v (assign key value t)

-- `merged = dict(base)`, then `merged.update(env)`
unfoldable pub merge_tables : Table → Table → Table
unfolding assign
merge_tables base end = base
merge_tables base (entry k v t) = assign k v (merge_tables base t)

-- `not set(raw.keys()) - allowed`
abbrev pub only : List String → Table → Bool
only allowed end = true
only allowed (entry k v t) = member allowed k && only allowed t

abbrev is_table : Option TomlValue → Bool
is_table none = true
is_table (some (table t)) = true
is_table (some v) = false

abbrev sections : Bool → List String
sections true = "app" ∷ "aws" ∷ []
sections false = "app" ∷ []

abbrev check_root : Bool → TomlValue → Result Table
check_root allow_aws (table raw) =
    if not (only (sections allow_aws) raw)
    then err (value_error "unsupported top-level sections")
    else if not (is_table (get "app" raw))
    then err (value_error "section [app] must be a TOML table")
    else if allow_aws && not (is_table (get "aws" raw))
    then err (value_error "section [aws] must be a TOML table")
    else ok raw
check_root allow_aws v = err (value_error "must contain a TOML table at the document root")

-- A file's text, if it is a file; and `tomllib.load`.
unfoldable pub load_toml_document :
    (String → Result TomlValue) → Option String → Bool → Result Table
load_toml_document toml_load none allow_aws = err (exception "Missing config file")
load_toml_document toml_load (some content) allow_aws = elim (toml_load content) [
  | ok v ↦ check_root allow_aws v
  | err e ↦ err e
]

-- `doc.get(name, {})`, once the section is known to be a table
abbrev pub section : String → Table → Table
section name doc = elim (get name doc) [ some (table t) ↦ t | _ ↦ end ]

abbrev pub is_non_empty_string : Option TomlValue → Bool
is_non_empty_string (some (text s)) = not (strip s == "")
is_non_empty_string v = false

-- `str(value).strip()` of what is known to be a text
abbrev pub stripped : Option TomlValue → String
stripped (some (text s)) = strip s
stripped v = ""

abbrev key_of : Option TomlValue → Option String
key_of none = none
key_of (some v) = some (stripped (some v))

-- `ALLOWED_AWS_KEYS` and `REQUIRED_AWS_KEYS`
abbrev pub allowed_aws_keys : List String
allowed_aws_keys = "region" ∷ "profile" ∷ "secret_name" ∷ "kms_key_id" ∷ []

abbrev pub required_aws_keys : List String
required_aws_keys = "region" ∷ "profile" ∷ "secret_name" ∷ []

abbrev pub all_set : List String → Table → Bool
all_set [] t = true
all_set (k ∷ ks) t = is_non_empty_string (get k t) && all_set ks t

abbrev pub aws_config : Table → Result AwsSecretConfig
aws_config merged =
    if not (only allowed_aws_keys merged)
    then err (value_error "Unsupported [aws] keys")
    else if not (all_set required_aws_keys merged)
    then err (value_error "Missing required [aws] keys")
    else if is_some (get "kms_key_id" merged) && not (is_non_empty_string (get "kms_key_id" merged))
    then err (value_error "[aws].kms_key_id must be a non-empty string when set")
    else ok record {
      region = stripped (get "region" merged);
      profile = stripped (get "profile" merged);
      secret_name = stripped (get "secret_name" merged);
      kms_key_id = key_of (get "kms_key_id" merged);
    }

unfoldable pub load_aws_config : Table → Table → Result AwsSecretConfig
unfolding merge_tables strip
load_aws_config base env = aws_config (merge_tables base env)

unfoldable pub normalize_app_value : TomlValue → Result JsonScalar
normalize_app_value (bool b) = ok (bool b)
normalize_app_value (text s) = ok (text s)
normalize_app_value (number s) = ok (number s)
normalize_app_value v = err (value_error "Unsupported value type for app key")

-- `value == UNSET_SENTINEL`
abbrev pub is_unset : JsonScalar → Bool
is_unset (text s) = s == "__UNSET__"
is_unset v = false

abbrev pub place : String → JsonScalar → AppSecret → AppSecret
place key v merged = if is_unset v then pop key merged else set key v merged

-- The loop over one layer.
unfoldable pub merge_app_layer : (String → String) → Table → AppSecret → Result AppSecret
unfolding strip normalize_app_value pop set
merge_app_layer upper end merged = ok merged
merge_app_layer upper (entry raw_key raw_value layer) merged =
    if strip raw_key == ""
    then err (value_error "Application config keys must be non-empty strings")
    else elim (normalize_app_value raw_value) [
      | ok v ↦ merge_app_layer upper layer (place (upper (strip raw_key)) v merged)
      | err e ↦ err e
    ]

unfoldable pub merge_app_layers : (String → String) → List Table → AppSecret → Result AppSecret
unfolding merge_app_layer
merge_app_layers upper [] merged = ok merged
merge_app_layers upper (layer ∷ layers) merged = elim (merge_app_layer upper layer merged) [
  | ok m ↦ merge_app_layers upper layers m
  | err e ↦ err e
]

unfoldable pub json_scalar_to_env_str : JsonScalar → String
json_scalar_to_env_str (bool true) = "true"
json_scalar_to_env_str (bool false) = "false"
json_scalar_to_env_str (text s) = s
json_scalar_to_env_str (number s) = s
