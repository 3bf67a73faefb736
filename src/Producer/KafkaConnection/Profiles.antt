-- ===== src/Producer/KafkaConnection/Profiles.antt =====
-- The profile that checked settings give, and the arguments that it gives the client.
use transcribe_service.Prelude.{
  String, ◌≡◌, refl, true, not, ◌||◌, Bool, Option, none, some, is_some, arith,
}
use transcribe_service.Prelude.Exec.{Result, ok, err}
use transcribe_service.Settings.{
  KafkaMode, plaintext, aws_msk, Settings, Environ, apply_environment_rules, is_msk,
}
use transcribe_service.Settings.Usable.{apply_environment_rules-IsUsable}
use transcribe_service.Producer.KafkaConnection.{
  KafkaBrokerConnection, local_plaintext, aws_msk_iam, kafka_connection_for_mode, CreateContext,
  with_context, sasl_ssl_kwargs, build_client_kwargs, ClientKwargs, SaslSsl,
}

abbrev pub token_region_of : Option SaslSsl → Option String
token_region_of none = none
token_region_of (some sasl) = some sasl.token_region

-- Plain text has no SASL; AWS has it, over TLS, with tokens for the region of the settings.
abbrev pub IsSecured : KafkaMode → Option String → ClientKwargs → Type 0
IsSecured plaintext region kwargs = (kwargs.security_protocol ≡ "PLAINTEXT") × (kwargs.sasl ≡ none)
IsSecured aws_msk region kwargs =
    (kwargs.security_protocol ≡ "SASL_SSL")
    × (is_some region ≡ true)
    × (token_region_of kwargs.sasl ≡ region)

-- The TLS context that a mode needs.
abbrev pub needed_context : CreateContext → KafkaMode → Option String → Result (Unit {0})
needed_context create_default_context plaintext ca_file = ok tt
needed_context create_default_context aws_msk ca_file = create_default_context ca_file

-- The arguments are secured, or building them raises what making the context raised.
abbrev pub IsBuilt : KafkaMode → Option String → Result (Unit {0}) → Result ClientKwargs → Type 0
IsBuilt mode region (ok context) built =
    (kwargs : ClientKwargs) × (built ≡ ok kwargs) × IsSecured mode region kwargs
IsBuilt mode region (err e) built = built ≡ err e

module _ (create_default_context : CreateContext) where
  abbrev pub IsConnected :
      KafkaMode → Option String → Option String → String → Result KafkaBrokerConnection → Type 0
  IsConnected mode region ca_file servers r =
      (connection : KafkaBrokerConnection) × (r ≡ ok connection)
      × IsBuilt mode region (needed_context create_default_context mode ca_file)
          (build_client_kwargs create_default_context connection servers)

  with_context-IsBuilt :
      (context : Result (Unit {0})) (region servers : String) (ca_file : Option String)
      (debug : Bool)
      → IsBuilt aws_msk
          (some region)
          context
          (with_context context (sasl_ssl_kwargs region ca_file debug servers))
  with_context-IsBuilt (ok u) region servers ca_file debug =
      (sasl_ssl_kwargs region ca_file debug servers, refl, (refl, refl, refl))
  with_context-IsBuilt (err e) region servers ca_file debug = refl

  with_region :
      (mode : KafkaMode) (region ca_file : Option String) (debug : Bool) (servers : String)
      → (not (is_msk mode) || is_some region) ≡ true
      → IsConnected mode region ca_file servers
          (kafka_connection_for_mode mode region ca_file debug)
  unfolding kafka_connection_for_mode build_client_kwargs
  with_region plaintext region ca_file debug servers h =
      (local_plaintext, refl, (_, refl, (refl, refl)))
  with_region aws_msk none ca_file debug servers h = absurd (ground arith)
  with_region aws_msk (some region) ca_file debug servers h = (
    aws_msk_iam region ca_file debug,
    refl,
    with_context-IsBuilt (create_default_context ca_file) region servers ca_file debug,
  )

  -- Settings that pass the rules of the environment have a profile: choosing it does not raise, and if
  -- the TLS context can be made where Kafka is on AWS, the client is given SASL over TLS with tokens for
  -- the settings' region there, and plain text without SASL elsewhere.
  pub kafka_connection_for_mode-IsConnected :
      (env : Environ) (s t : Settings) (debug : Bool) (servers : String)
      → apply_environment_rules env s ≡ ok t
      → IsConnected t.kafka_mode t.kafka_aws_region t.kafka_ssl_ca_file servers
          (kafka_connection_for_mode t.kafka_mode t.kafka_aws_region t.kafka_ssl_ca_file debug)
  kafka_connection_for_mode-IsConnected env s t debug servers h =
      with_region t.kafka_mode t.kafka_aws_region t.kafka_ssl_ca_file debug servers
        (apply_environment_rules-IsUsable env s t h).region
