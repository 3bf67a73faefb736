-- ===== src/SecretSync/Service.antt =====
-- The script and the service together: what a sync has written, a service that starts with the bundle's
-- bootstrap variables reads.
use transcribe_service.Prelude.{
  String, true, false, [], ◌≡◌, refl, sym, ap, ◌∙◌, ◌==◌, Bool-cases, inl, inr, some, subst,
  eq_refl,
}
use transcribe_service.Prelude.Dict.{lookup}
use transcribe_service.Prelude.Exec.{Result, ok, err, pure, ◌>>=◌}
use transcribe_service.Prelude.Result.{ok_injective}
use transcribe_service.Auth.{lower_is}
use transcribe_service.Auth.Whitespace.{strip}
use transcribe_service.Settings.Secrets.{
  Dict, Outside, Loader, initial_region, app_env_is_deployed, load_dotenv_layer,
  secret_json_to_env_kv, merge_deployed_secrets_into_environ, or_empty,
}
use transcribe_service.Settings.Secrets.Precedence.{
  secret_id, IsRead, merge_deployed_secrets_into_environ-precedence,
}
use transcribe_service.SecretSync.{AppSecret, AwsSecretConfig, RenderedSecretBundle}
use transcribe_service.SecretSync.Command.{
  main, render_secret_bundle, validate_deployed_settings, bundle_of, checked,
}
use transcribe_service.SecretSync.Contract.{Rendered, IsRun, main-IsRun}
use transcribe_service.SecretSync.Deployment.{HasBootstrap, expected, first_layer-expected}
use transcribe_service.SecretSync.Keys.{UpperLaws, IsRendered, render_layers-IsRendered}
use transcribe_service.SecretSync.Loading.{JsonLaws, IsPayload-IsLoaded}
use transcribe_service.SecretSync.Rendering.{Libraries, render_layers}
use transcribe_service.SecretSync.Upload.{Synced}
use transcribe_service.SecretSync.World.{SecretsManager, Weather, World, Arguments, Exit, code}

module _ (m : SecretsManager) (l : Libraries) (w : World m) where
  checked-bundle :
      (env_name : String) (r : AwsSecretConfig × AppSecret) (d : Result (Unit {0}) × World m)
      {b : RenderedSecretBundle}
      → (((λ _. d) >>= λ _. pure (bundle_of m env_name r)) w).0 ≡ ok b
      → r ≡ (b.aws, b.app_secret)
  checked-bundle env_name r (ok _, w') h =
      ap (λ (b : RenderedSecretBundle). (b.aws, b.app_secret)) (ok_injective h)
  checked-bundle env_name r (err e, w') h = cc

  layers-bundle :
      (env_name : String) (x : Result (AwsSecretConfig × AppSecret)) {b : RenderedSecretBundle}
      → (((λ w'. (x, w')) >>= checked m l env_name) w).0 ≡ ok b
      → x ≡ ok (b.aws, b.app_secret)
  layers-bundle env_name (ok r) h =
      ap ok (checked-bundle env_name r (validate_deployed_settings m l r.1 r.0.region w) h)
  layers-bundle env_name (err e) h = cc

  -- A bundle that was rendered has the documents' target and payload.
  rendered-layers :
      (env dir : String) {b : RenderedSecretBundle}
      → (render_secret_bundle m l env dir w).0 ≡ ok b
      → render_layers l (λ path. lookup path w.files) (l.lower (strip env)) dir
        ≡ ok (b.aws, b.app_secret)
  unfolding render_secret_bundle
  rendered-layers env dir = elim (Bool-cases (l.lower (strip env) == "")) [
    | inl e ↦ rw e (λ h. cc)
    | inr e ↦ rw e (
        layers-bundle (l.lower (strip env))
          (render_layers l (λ path. lookup path w.files) (l.lower (strip env)) dir))
  ]

-- What a service is started with: it has not loaded its secret yet, its environment has the bundle's
-- variables, and Secrets Manager gives it what the account has.
pub record Starts (m : SecretsManager) (a : m.Account) (o : Outside) (b : RenderedSecretBundle)
    (s : Loader) : Type 0 where
  pub fresh : s.deployed_secrets_loaded ≡ false
  pub bootstrap : HasBootstrap b.aws s.environ
  pub reads : (name : String) → o.get_secret (initial_region s.environ) name ≡ ok (m.value name a)

-- What the script and the service rely on of the standard library, which is the same for both.
pub record StandardLibrary (l : Libraries) (o : Outside) (app : AppSecret) : Type 0 where
  pub same_upper : o.upper ≡ l.upper
  pub upper_laws : UpperLaws l.upper
  pub json_laws : JsonLaws l o.loads app

is_deployed :
    (environ : Dict)
    → lookup "APP_ENV" environ ≡ some "deployed"
    → app_env_is_deployed environ ≡ true
unfolding strip lower_is
is_deployed environ e = ap (λ x. lower_is (strip (or_empty x)) "deployed") e

started-environment :
    (m : SecretsManager) (a : m.Account) (l : Libraries) (o : Outside) (b : RenderedSecretBundle)
    (s : Loader)
    → StandardLibrary l o b.app_secret
    → IsRendered l b.aws b.app_secret
    → Starts m a o b s
    → m.value b.aws.secret_name a ≡ some (l.dumps b.app_secret)
    → let (r, s') = merge_deployed_secrets_into_environ o s in
      (r ≡ ok tt)
      × ((key : String)
          → lookup key s'.environ
            ≡ expected b.aws b.app_secret s.environ (load_dotenv_layer o.upper o.dotenv []) key)
started-environment m a l o b s library rendered starts stored =
    let loaded = IsPayload-IsLoaded l o.loads b.app_secret library.json_laws rendered.payload in
    let dot = load_dotenv_layer o.upper o.dotenv [] in
    let same_id : secret_id s.environ ≡ b.aws.secret_name =
      ap (λ x. strip (or_empty x)) starts.bootstrap.secret ∙ rendered.stripped in
    let read : IsRead o s.environ loaded.kv = record {
      raw = l.dumps b.app_secret;
      fields = loaded.fields;
      found =
          ap (o.get_secret (initial_region s.environ)) same_id
          ∙ starts.reads b.aws.secret_name
          ∙ ap ok stored;
      parsed = loaded.parsed;
      converted =
          subst (λ u. secret_json_to_env_kv u loaded.fields [] ≡ ok loaded.kv)
            (sym library.same_upper) loaded.converted;
    } in
    let merged =
      merge_deployed_secrets_into_environ-precedence o s loaded.kv starts.fresh
        (is_deployed s.environ starts.bootstrap.app_env)
        (ap (λ x. x == "") same_id ∙ rendered.named) read in
    (
      merged.0,
      λ key.
          merged.2 key
          ∙ first_layer-expected b.aws b.app_secret s.environ dot loaded.kv key
              (rendered.no_bootstrap key) starts.bootstrap (loaded.values key),
    )

module _ (m : SecretsManager) (l : Libraries) (weather : Weather) (args : Arguments) (w : World m)
    (b : RenderedSecretBundle) (rendered : Rendered m l weather args w b) where
  same_bundle : (b' : RenderedSecretBundle) → Rendered m l weather args w b' → b' ≡ b
  same_bundle b' rendered' = ok_injective (sym rendered' ∙ rendered)

  -- A sync that returned 0 has stored the payload of the bundle.
  stored :
      (r : Exit × World m)
      → r.0 ≡ code 0
      → IsRun m l weather args w false r
      → m.value b.aws.secret_name r.1.account ≡ some (l.dumps b.app_secret)
  stored (exit, w') good (files, inl (bad, same)) = absurd (bad good)
  stored (exit, w') good (files, inr (b', rendered', synced)) =
      let all : Synced m l b w w' =
        subst (λ x. Synced m l x w w') (same_bundle b' rendered') synced in
      all b.aws.secret_name ∙ rw (eq_refl b.aws.secret_name) refl

  -- After a sync that returns 0, a service that starts with the variables of the rendered bundle and
  -- reads the account merges its secret without an exception, and then every variable has the value
  -- under which the script validated the settings; a variable that the script did not set has the value
  -- of the service's own environment, or else of its `.env`.
  pub main-environment :
      (o : Outside) (s : Loader)
      → StandardLibrary l o b.app_secret
      → args.dry_run ≡ false
      → (main m l weather args w).0 ≡ code 0
      → Starts m (main m l weather args w).1.account o b s
      → let (r, s') = merge_deployed_secrets_into_environ o s in
        (r ≡ ok tt)
        × ((key : String)
            → lookup key s'.environ
              ≡ expected b.aws b.app_secret s.environ (load_dotenv_layer o.upper o.dotenv []) key)
  main-environment o s library wet good starts =
      started-environment m (main m l weather args w).1.account l o b s library
        (render_layers-IsRendered l library.upper_laws (λ path. lookup path w.files)
          (l.lower (strip args.env)) args.config_dir
          (rendered-layers m l w args.env args.config_dir rendered))
        starts
        (stored (main m l weather args w) good (
          subst (λ dry. IsRun m l weather args w dry (main m l weather args w)) wet
            (main-IsRun m l weather args w).1))
