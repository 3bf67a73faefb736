-- ===== src/SecretSync/Command.antt =====
-- ci-cd/sync_secret.py: the run of the command, over the process environment, the files, the streams
-- and an AWS account. The account and the way its calls end are parameters.
use transcribe_service.Prelude.{
  String, Bool, false, not, ◌&&◌, Option, none, some, [], ◌∷◌, ◌++◌, ◌==◌, is_some, if◌then◌else◌,
}
use transcribe_service.Prelude.Dict.{lookup, set, update}
use transcribe_service.Prelude.Exec.{
  Exn, Result, ok, err, str, value_error, exception, Exec, pure, raise, ◌>>=◌, ◌>>◌, Delivery,
  attempt,
}
use transcribe_service.Prelude.Text.{append}
use transcribe_service.Auth.Whitespace.{strip}
use transcribe_service.Settings.Secrets.{Dict}
use transcribe_service.SecretSync.{AppSecret, AwsSecretConfig, RenderedSecretBundle}
use transcribe_service.SecretSync.World.{
  CreateSecret, SecretsManager, Fault, client_error, other, Weather, World, Arguments, Exit, code,
  usage_error,
}
use transcribe_service.SecretSync.Rendering.{
  Outcome, accepted, validation_error, raised, Libraries, join, render_layers, deployed_environ,
  bootstrap_environment, redacted_app_secret,
}

abbrev pub exn_of : Fault → Exn
exn_of (client_error c s) = exception s
exn_of (other e) = e

-- `_client_error_code(exc) == "ResourceNotFoundException"`, for a `ClientError`
abbrev pub is_missing : Fault → Bool
is_missing (client_error c s) = c == "ResourceNotFoundException"
is_missing (other e) = false

abbrev pub outcome : Outcome → Result (Unit {0})
outcome accepted = ok tt
outcome (validation_error s) =
    err (value_error (append "Invalid deployed application configuration: " s))
outcome (raised e) = err e

abbrev pub bootstrap_path : String → RenderedSecretBundle → String
bootstrap_path dir b = join dir (append b.environment ".bootstrap.json")

abbrev pub secret_path : String → RenderedSecretBundle → String
secret_path dir b = join dir (append b.environment ".secret.json")

abbrev pub or_default : Option String → String
or_default none = "ci-cd/build"
or_default (some dir) = dir

module _ (m : SecretsManager) where
  abbrev pub Action : Type 0 → Type 0
  Action A = Exec (World m) A

  abbrev with_environ : Dict → World m → World m
  with_environ d w = record w { environ = d }

  abbrev restored : {A : Type 0} → Dict → Result A × World m → Result A × World m
  restored snapshot (r, w) = (r, with_environ (update [] snapshot) w)

  -- `with _isolated_environ(values): body`
  unfoldable pub isolated_environ : {A : Type 0} → Dict → Action A → Action A
  unfolding update
  isolated_environ values body w = restored w.environ (body (with_environ (update [] values) w))

  abbrev pub build_settings : Libraries → Action (Unit {0})
  build_settings l w = (outcome (l.settings_class w.environ), w)

  unfoldable pub validate_deployed_settings : Libraries → AppSecret → String → Action (Unit {0})
  unfolding isolated_environ deployed_environ
  validate_deployed_settings l app_secret aws_region =
      isolated_environ (deployed_environ aws_region app_secret) (build_settings l)

  abbrev pub layers : Libraries → String → String → Action (AwsSecretConfig × AppSecret)
  layers l env_name config_dir w =
      (render_layers l (λ path. lookup path w.files) env_name config_dir, w)

  abbrev pub bundle_of : String → AwsSecretConfig × AppSecret → RenderedSecretBundle
  bundle_of env_name (aws, app_secret) = record {
    environment = env_name;
    aws = aws;
    app_secret = app_secret;
    bootstrap_environment = bootstrap_environment aws;
  }

  abbrev pub checked :
      Libraries → String → AwsSecretConfig × AppSecret → Action RenderedSecretBundle
  checked l env_name rendered = do
    validate_deployed_settings l rendered.1 rendered.0.region
    pure (bundle_of env_name rendered)

  unfoldable pub render_secret_bundle : Libraries → String → String → Action RenderedSecretBundle
  unfolding strip render_layers validate_deployed_settings
  render_secret_bundle l environment config_dir =
      let env_name = l.lower (strip environment) in
      if env_name == ""
      then raise (value_error "Environment name must not be empty")
      else layers l env_name config_dir >>= checked l env_name

  abbrev pub secret_string : Libraries → RenderedSecretBundle → String
  secret_string l b = l.dumps b.app_secret

  abbrev pub create_args : Libraries → RenderedSecretBundle → CreateSecret
  create_args l b = record {
    name = b.aws.secret_name;
    secret_string = secret_string l b;
    tags =
        ("service", "realtime-transcribe-service")
        ∷ ("managed-by", "repo-script")
        ∷ ("environment", b.environment)
        ∷ [];
    kms_key_id = b.aws.kms_key_id;
  }

  abbrev pub call : Delivery → (m.Account → m.Account) → Action (Unit {0})
  call d f = attempt d (λ w. (ok tt, record w { account = f w.account }))

  -- A name can be created once, and only a name that is there can be given a value.
  abbrev pub create_secret : Weather → CreateSecret → Action (Unit {0})
  create_secret weather c w =
      if is_some (m.value c.name w.account)
      then (err (exception "ResourceExistsException"), w)
      else call weather.create (m.create c) w

  abbrev pub put_secret_value : Weather → String → String → Action (Unit {0})
  put_secret_value weather name s w =
      if is_some (m.value name w.account)
      then call weather.put (m.put name s) w
      else (err (exception "ResourceNotFoundException"), w)

  -- The answer of `describe_secret`: nothing wrong, or a fault.
  abbrev pub describe_secret : Weather → String → World m → Option Fault
  describe_secret weather name w = elim weather.describe [
    | some f ↦ some f
    | none ↦
        if is_some (m.value name w.account)
        then none
        else some (client_error "ResourceNotFoundException" "not found")
  ]

  -- The result is the action, `created` or `updated`.
  abbrev pub described : Libraries → Weather → RenderedSecretBundle → Option Fault → Action String
  described l weather b none =
      put_secret_value weather b.aws.secret_name (secret_string l b) >> pure "updated"
  described l weather b (some f) =
      if is_missing f
      then create_secret weather (create_args l b) >> pure "created"
      else raise (exn_of f)

  unfoldable pub sync_secret_bundle : Libraries → Weather → RenderedSecretBundle → Action String
  unfolding attempt
  sync_secret_bundle l weather b w = elim weather.session [
    | some e ↦ (err e, w)
    | none ↦ described l weather b (describe_secret weather b.aws.secret_name w) w
  ]

  abbrev pub print : String → Action (Unit {0})
  print s w = (ok tt, record w { stdout = w.stdout ++ s ∷ [] })

  abbrev write_text : Delivery → String → String → Action (Unit {0})
  write_text d path s = attempt d (λ w. (ok tt, record w { files = set path s w.files }))

  -- The two files, and the lines that name them.
  unfoldable pub write_rendered_files :
      Libraries → Delivery → Delivery → String → RenderedSecretBundle → Action (Unit {0})
  unfolding attempt set
  write_rendered_files l bootstrap secret dir b = do
    write_text bootstrap (bootstrap_path dir b)
        (append (l.dumps_environment b.bootstrap_environment) "\n")
    write_text secret (secret_path dir b) (append (secret_string l b) "\n")

  unfoldable pub print_dry_run : Libraries → RenderedSecretBundle → Action (Unit {0})
  unfolding redacted_app_secret
  print_dry_run l b = do
    print (
        append "Dry run: " (
          append b.aws.secret_name (
            append " (profile="
              (append b.aws.profile (append ", region=" (append b.aws.region ")"))))))
    print "Secret payload (redacted):"
    print (l.dumps (redacted_app_secret l b.app_secret))
    print "ECS bootstrap environment:"
    print (l.dumps_environment b.bootstrap_environment)

  abbrev pub print_written : Libraries → String → RenderedSecretBundle → Action (Unit {0})
  print_written l dir b = do
    print (append "Wrote ECS bootstrap environment JSON to " (bootstrap_path dir b))
    print (append "Wrote Secrets Manager payload JSON to " (secret_path dir b))
    print_dry_run l b

  -- The `try` block of a dry run, after the bundle is rendered.
  unfoldable pub dry_run :
      Libraries → Weather → Arguments → RenderedSecretBundle → Action (Unit {0})
  unfolding write_rendered_files print_dry_run
  dry_run l weather args b =
      let dir = or_default args.output_dir in
      write_rendered_files l weather.write_bootstrap weather.write_secret dir b
      >> print_written l dir b

  abbrev pub print_action : RenderedSecretBundle → String → Action (Unit {0})
  print_action b action = do
    print (
        append "Secret " (
          append b.aws.secret_name
            (append " " (append action (append " in region " b.aws.region)))))
    print (append "ECS bootstrap uses AWS_SECRETS_MANAGER_SECRET_ID=" b.aws.secret_name)

  unfoldable pub sync : Libraries → Weather → RenderedSecretBundle → Action (Unit {0})
  unfolding sync_secret_bundle
  sync l weather b = sync_secret_bundle l weather b >>= print_action b

  abbrev pub exit_of : Result (Unit {0}) × World m → Exit × World m
  exit_of (ok _, w) = (code 0, w)
  exit_of (err e, w) = (code 1, record w { stderr = w.stderr ++ append "Error: " (str e) ∷ [] })

  abbrev pub act : Bool → Libraries → Weather → Arguments → RenderedSecretBundle → Action (Unit {0})
  act dry l weather args b = if dry then dry_run l weather args b else sync l weather b

  -- `main`, once the arguments are parsed.
  unfoldable pub main : Libraries → Weather → Arguments → World m → Exit × World m
  unfolding render_secret_bundle dry_run sync
  main l weather args w =
      if not args.dry_run && is_some args.output_dir
      then (usage_error, w)
      else exit_of
          ((render_secret_bundle l args.env args.config_dir >>= act args.dry_run l weather args) w)
