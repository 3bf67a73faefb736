-- ===== src/SecretSync/World.antt =====
-- ci-cd/sync_secret.py: what its command reads and changes, and how the calls that leave it end.
use transcribe_service.Prelude.{ℕ, String, Bool, Option, some, List, ◌≡◌, ◌==◌, if◌then◌else◌}
use transcribe_service.Prelude.Exec.{Exn, Delivery}
use transcribe_service.Settings.Secrets.{Dict}

-- The arguments of `create_secret`.
pub record CreateSecret : Type 0 where
  pub name : String
  pub secret_string : String
  pub tags : Dict
  pub kms_key_id : Option String

-- What the script relies on of Secrets Manager: an account has one value for a name, and a call that
-- writes one name leaves the others.
pub record SecretsManager : Type 1 where
  pub Account : Type 0
  pub value : String → Account → Option String
  pub create : CreateSecret → Account → Account
  pub put : String → String → Account → Account
  pub value-create :
      (c : CreateSecret) (name : String) (a : Account)
      → value name (create c a) ≡ (if c.name == name then some c.secret_string else value name a)
  pub value-put :
      (n s name : String) (a : Account)
      → value name (put n s a) ≡ (if n == name then some s else value name a)

-- A `ClientError` with its code, or another exception.
pub data Fault : Type 0 where
  client_error : String → String → Fault
  other : Exn → Fault

-- How the calls to AWS and the writes of files end.
pub record Weather : Type 0 where
  pub session : Option Exn
  pub describe : Option Fault
  pub create : Delivery
  pub put : Delivery
  pub write_bootstrap : Delivery
  pub write_secret : Delivery

pub record World (m : SecretsManager) : Type 0 where
  pub environ : Dict
  pub files : Dict
  pub account : m.Account
  pub stdout : List String
  pub stderr : List String

-- What `parse_args` returns; exactly one of `--dry-run` and `--sync` is given.
pub record Arguments : Type 0 where
  pub env : String
  pub dry_run : Bool
  pub output_dir : Option String
  pub config_dir : String

-- A return code, or the exit of `parser.error`.
pub data Exit : Type 0 where
  code : ℕ → Exit
  usage_error : Exit
