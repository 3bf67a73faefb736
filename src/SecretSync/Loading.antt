-- ===== src/SecretSync/Loading.antt =====
-- What the service's loader makes of a payload that the script has written.
use transcribe_service.Prelude.{
  String, Bool, true, false, [], ◌∷◌, ◌≡◌, refl, sym, ap, ◌∙◌, ◌==◌, eq_iff, Bool-cases, inl, inr,
  Option, none, some, if◌then◌else◌,
}
use transcribe_service.Prelude.Dict.{lookup, set, All, or_else, lookup-set}
use transcribe_service.Prelude.Dict.Distinct.{Distinct, lookup-All, All-lookup}
use transcribe_service.Prelude.Exec.{Result, ok}
use transcribe_service.Json.{Json, Fields, obj}
use transcribe_service.Json
use transcribe_service.Settings.Secrets.{Dict, secret_json_to_env_kv, secret_scalar_to_str}
use transcribe_service.SecretSync.{
  JsonScalar, text, number, bool, AppSecret, json_scalar_to_env_str,
}
use transcribe_service.SecretSync.Keys.{IsKey, IsPayload}
use transcribe_service.SecretSync.Rendering.{Libraries, env_strings}

abbrev pub as_json : JsonScalar → Json
as_json (text s) = Json.text s
as_json (number s) = Json.num s
as_json (bool b) = Json.bool b

abbrev pub fields_of : AppSecret → Fields
fields_of [] = Json.end
fields_of ((key, v) ∷ app) = Json.field key (as_json v) (fields_of app)

-- What is relied on of `json.dumps` with sorted keys and `json.loads`, at a payload: its pairs come
-- back, in another order.
pub record JsonLaws (l : Libraries) (loads : String → Result Json) (app : AppSecret) : Type 0 where
  pub sorted : AppSecret
  pub lookup-sorted : (key : String) → lookup key sorted ≡ lookup key app
  pub sorted-Distinct : Distinct sorted
  pub loads-dumps : loads (l.dumps app) ≡ ok (obj (fields_of sorted))

-- Both programs write a scalar alike.
scalar-as_json : (v : JsonScalar) → secret_scalar_to_str (as_json v) ≡ ok (json_scalar_to_env_str v)
unfolding secret_scalar_to_str json_scalar_to_env_str
scalar-as_json (text s) = refl
scalar-as_json (number s) = refl
scalar-as_json (bool true) = refl
scalar-as_json (bool false) = refl

abbrev load_into : AppSecret → Dict → Dict
load_into [] out = out
load_into ((key, v) ∷ app) out = load_into app (set key (json_scalar_to_env_str v) out)

secret_json_to_env_kv-fields_of :
    (upper : String → String) (app : AppSecret) (out : Dict)
    → All (IsKey upper) app
    → secret_json_to_env_kv upper (fields_of app) out ≡ ok (load_into app out)
unfolding secret_json_to_env_kv
secret_json_to_env_kv-fields_of upper [] out h = refl
secret_json_to_env_kv-fields_of upper ((key, v) ∷ app) out h =
    rw (h.0.1, scalar-as_json v, h.0.0)
      (secret_json_to_env_kv-fields_of upper app (set key (json_scalar_to_env_str v) out) h.1)

found :
    (b : Bool) (s : String) (o x : Option String)
    → (b ≡ true → o ≡ none)
    → or_else o (if b then some s else x) ≡ or_else (if b then some s else o) x
found true s o x h = rw (h refl) refl
found false s o x h = refl

abbrev pub env_of : Option JsonScalar → Option String
env_of none = none
env_of (some v) = some (json_scalar_to_env_str v)

pub lookup-env_strings :
    (key : String) (app : AppSecret) → lookup key (env_strings app) ≡ env_of (lookup key app)
unfolding env_strings
lookup-env_strings key [] = refl
lookup-env_strings key ((k, v) ∷ app) = elim (Bool-cases (k == key)) [
  | inl e ↦ rw e refl
  | inr e ↦ rw e (lookup-env_strings key app)
]

lookup-load_into :
    (key : String) (app : AppSecret) (out : Dict)
    → Distinct app
    → lookup key (load_into app out) ≡ or_else (lookup key (env_strings app)) (lookup key out)
unfolding env_strings
lookup-load_into key [] out h = refl
lookup-load_into key ((k, v) ∷ app) out h =
    lookup-load_into key app (set k (json_scalar_to_env_str v) out) h.1
    ∙ ap (or_else (lookup key (env_strings app))) (lookup-set key k (json_scalar_to_env_str v) out)
    ∙ found (k == key) (json_scalar_to_env_str v) (lookup key (env_strings app)) (lookup key out)
        (λ e.
          lookup-env_strings key app
          ∙ ap env_of (ap (λ x. lookup x app) (sym ((eq_iff k key).0 e)) ∙ h.0))

-- The loader takes what the script has written, and has every key's value as the script checked it.
pub record IsLoaded (l : Libraries) (loads : String → Result Json) (app : AppSecret) : Type 0 where
  pub fields : Fields
  pub kv : Dict
  pub parsed : loads (l.dumps app) ≡ ok (obj fields)
  pub converted : secret_json_to_env_kv l.upper fields [] ≡ ok kv
  pub values : (key : String) → lookup key kv ≡ lookup key (env_strings app)

or_else-none : (o : Option String) → or_else o none ≡ o
or_else-none none = refl
or_else-none (some s) = refl

pub IsPayload-IsLoaded :
    (l : Libraries) (loads : String → Result Json) (app : AppSecret)
    → JsonLaws l loads app
    → IsPayload l.upper app
    → IsLoaded l loads app
IsPayload-IsLoaded l loads app laws h =
    let keys =
      All-lookup (IsKey l.upper) laws.sorted laws.sorted-Distinct
        (λ key v e. lookup-All (IsKey l.upper) key v app h.0 (sym (laws.lookup-sorted key) ∙ e)) in
    record {
      fields = fields_of laws.sorted;
      kv = load_into laws.sorted [];
      parsed = laws.loads-dumps;
      converted = secret_json_to_env_kv-fields_of l.upper laws.sorted [] keys;
      values = λ key.
          lookup-load_into key laws.sorted [] laws.sorted-Distinct
          ∙ or_else-none (lookup key (env_strings laws.sorted))
          ∙ lookup-env_strings key laws.sorted
          ∙ ap env_of (laws.lookup-sorted key)
          ∙ sym (lookup-env_strings key app);
    }
