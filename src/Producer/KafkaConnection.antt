-- ===== src/Producer/KafkaConnection.antt =====
-- producer/kafka_connection.py: the connection profiles, the arguments that they give the client, and
-- the cache of the tokens that AWS signs.
pub mod Tokens
pub mod Profiles
use transcribe_service.Prelude.{
  ℕ, ◌+◌, String, Bool, true, false, Option, none, some, List, [], ◌∷◌, ltb, if◌then◌else◌,
}
use transcribe_service.Prelude.Exec.{Result, ok, err, value_error, Exec, lift, pure, ◌>>=◌}
use transcribe_service.Settings.{KafkaMode, plaintext, aws_msk}

-- A call of the provider: the time in milliseconds that it reads before it takes the lock, and what
-- the signer answers if it asks it: a token and the time of its expiry.
pub record Call : Type 0 where
  pub now_ms : ℕ
  pub signed : Result (String × ℕ)

pub record MskTokenProvider : Type 0 where
  pub cached : Option String
  pub expiry_ms : ℕ

abbrev pub new : MskTokenProvider
new = record { cached = none; expiry_ms = 0 }

abbrev pub sign : Call → Exec MskTokenProvider String
sign c = do (token, expiry_ms) ← lift c.signed; keep token expiry_ms
  where
    keep : String → ℕ → Exec MskTokenProvider String
    keep token expiry_ms p = (ok token, record { cached = some token; expiry_ms = expiry_ms })

-- `now_ms < self._expiry_ms - 60_000`, in integers
abbrev pub is_fresh : ℕ → ℕ → Bool
is_fresh now_ms expiry_ms = ltb (now_ms + 60000) expiry_ms

abbrev pub reuse : Option String → Call → Exec MskTokenProvider String
reuse none c p = sign c p
reuse (some token) c p = (if is_fresh c.now_ms p.expiry_ms then pure token else sign c) p

-- `_refresh_token`, under its lock.
unfoldable pub refresh_token : Call → Exec MskTokenProvider String
refresh_token c p = reuse p.cached c p

pub data KafkaBrokerConnection : Type 0 where
  local_plaintext : KafkaBrokerConnection
  -- the region, the CA file and `aws_debug_creds`
  aws_msk_iam : String → Option String → Bool → KafkaBrokerConnection

abbrev pub profile_label : KafkaBrokerConnection → String
profile_label local_plaintext = "local_plaintext"
profile_label (aws_msk_iam region ca_file debug) = "aws_msk_iam"

-- What the SASL_SSL profile gives beside the servers: the CA file of the context and the provider.
pub record SaslSsl : Type 0 where
  pub ssl_ca_file : Option String
  pub token_region : String
  pub aws_debug_creds : Bool
  pub token_provider : MskTokenProvider

pub record ClientKwargs : Type 0 where
  pub bootstrap_servers : String
  pub security_protocol : String
  pub sasl : Option SaslSsl

-- Whether `ssl.create_default_context(cafile=…)` makes a context of the file: it raises if the file is
-- missing or has no certificates.
abbrev pub CreateContext : Type 0
CreateContext = Option String → Result (Unit {0})

abbrev pub with_context : Result (Unit {0}) → ClientKwargs → Result ClientKwargs
with_context (ok context) kwargs = ok kwargs
with_context (err e) kwargs = err e

abbrev pub sasl_ssl_kwargs : String → Option String → Bool → String → ClientKwargs
sasl_ssl_kwargs region ca_file debug servers = record {
  bootstrap_servers = servers;
  security_protocol = "SASL_SSL";
  sasl = some record {
    ssl_ca_file = ca_file;
    token_region = region;
    aws_debug_creds = debug;
    token_provider = new;
  };
}

unfoldable pub build_client_kwargs :
    CreateContext → KafkaBrokerConnection → String → Result ClientKwargs
build_client_kwargs create_default_context local_plaintext servers =
    ok (record { bootstrap_servers = servers; security_protocol = "PLAINTEXT"; sasl = none })
build_client_kwargs create_default_context (aws_msk_iam region ca_file debug) servers =
    with_context (create_default_context ca_file) (sasl_ssl_kwargs region ca_file debug servers)

unfoldable pub kafka_connection_for_mode :
    KafkaMode → Option String → Option String → Bool → Result KafkaBrokerConnection
kafka_connection_for_mode plaintext region ca_file debug = ok local_plaintext
kafka_connection_for_mode aws_msk none ca_file debug =
    err (value_error "aws_region is required for KAFKA_MODE=aws_msk")
kafka_connection_for_mode aws_msk (some region) ca_file debug =
    ok (aws_msk_iam region ca_file debug)
