-- ===== src/SecretSync/Deployment.antt =====
-- The layers of the environment of a service that starts with the bootstrap variables of a bundle, beside
-- the environment that the script validated.
use transcribe_service.Prelude.{
  String, Bool, true, false, [], ◌∷◌, ◌≡◌, refl, sym, ap, ◌∙◌, ◌==◌, ◌||◌, eq_iff, Option, none,
  some, if◌then◌else◌,
}
use transcribe_service.Prelude.Dict.{lookup, or_else, lookup-update}
use transcribe_service.Settings.Secrets.{Dict, bootstrap_keys, member}
use transcribe_service.Settings.Secrets.Precedence.{first_layer}
use transcribe_service.SecretSync.{AppSecret, AwsSecretConfig}
use transcribe_service.SecretSync.Loading.{lookup-env_strings, env_of}
use transcribe_service.SecretSync.Rendering.{deployed_environ, env_strings}

-- The variables that the bundle gives to the service's task.
pub record HasBootstrap (aws : AwsSecretConfig) (environ : Dict) : Type 0 where
  pub app_env : lookup "APP_ENV" environ ≡ some "deployed"
  pub region : lookup "AWS_REGION" environ ≡ some aws.region
  pub secret : lookup "AWS_SECRETS_MANAGER_SECRET_ID" environ ≡ some aws.secret_name

-- What each of the four bootstrap variables, or another, takes from its layers.
module _ (k d s : Option String) (a r : String) where
  abbrev Agree : Bool → Bool → Bool → Bool → Type 0
  Agree e1 e2 e3 e4 =
      or_else (if e1 || (e2 || (e3 || (e4 || false))) then k else none) (or_else s (or_else k d))
      ≡ or_else (or_else s (if e1 then some a else if e3 then some r else none)) (or_else k d)

  own : s ≡ none → or_else k (or_else s (or_else k d)) ≡ or_else (or_else s none) (or_else k d)
  own absent = rw absent (own_twice k)
    where
      own_twice : (o : Option String) → or_else o (or_else o d) ≡ or_else o d
      own_twice none = refl
      own_twice (some v) = refl

  given :
      (v : String)
      → s ≡ none
      → k ≡ some v
      → or_else k (or_else s (or_else k d)) ≡ or_else (or_else s (some v)) (or_else k d)
  given v absent e = rw (absent, e) refl

  agree :
      (e1 e2 e3 e4 : Bool)
      → ((e1 || (e2 || (e3 || (e4 || false)))) ≡ true → s ≡ none)
      → (e1 ≡ true → k ≡ some a)
      → (e3 ≡ true → k ≡ some r)
      → Agree e1 e2 e3 e4
  agree true e2 e3 e4 absent first third = given a (absent refl) (first refl)
  agree false true true e4 absent first third = given r (absent refl) (third refl)
  agree false false true e4 absent first third = given r (absent refl) (third refl)
  agree false true false e4 absent first third = own (absent refl)
  agree false false false true absent first third = own (absent refl)
  agree false false false false absent first third = other s
    where
      other : (o : Option String) → or_else o (or_else k d) ≡ or_else (or_else o none) (or_else k d)
      other none = refl
      other (some v) = refl

module _ (aws : AwsSecretConfig) (app : AppSecret) (environ dot : Dict) where
  abbrev fixed : Dict
  fixed = ("APP_ENV", "deployed") ∷ ("AWS_REGION", aws.region) ∷ []

  -- The environment that was validated, over the service's own and its `.env`.
  abbrev pub expected : String → Option String
  expected key =
      or_else (lookup key (deployed_environ aws.region app))
        (or_else (lookup key environ) (lookup key dot))

  lookup-deployed_environ :
      (key : String)
      → lookup key (deployed_environ aws.region app)
        ≡ or_else (lookup key (env_strings app)) (lookup key fixed)
  unfolding deployed_environ
  lookup-deployed_environ key = lookup-update key fixed (env_strings app)

  pub first_layer-expected :
      (kv : Dict) (key : String)
      → (member bootstrap_keys key ≡ true → lookup key app ≡ none)
      → HasBootstrap aws environ
      → lookup key kv ≡ lookup key (env_strings app)
      → first_layer key environ kv dot ≡ expected key
  first_layer-expected kv key absent boot same =
      rw (same, lookup-deployed_environ key)
        (agree (lookup key environ) (lookup key dot) (lookup key (env_strings app)) "deployed"
          aws.region ("APP_ENV" == key) ("AWS_SECRETS_MANAGER_SECRET_ID" == key)
          ("AWS_REGION" == key) ("AWS_DEFAULT_REGION" == key)
          (λ e. lookup-env_strings key app ∙ ap env_of (absent e))
          (λ e. ap (λ x. lookup x environ) (sym ((eq_iff "APP_ENV" key).0 e)) ∙ boot.app_env)
          (λ e. ap (λ x. lookup x environ) (sym ((eq_iff "AWS_REGION" key).0 e)) ∙ boot.region))
