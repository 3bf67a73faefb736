-- ===== src/Redis/Server.antt =====
-- What redis/sequence_state_machine.py and redis/ownership_guard.py use of a Redis server: keys with
-- a value and a time to live, and the cache of scripts that `EVALSHA` looks into. The server is not
-- part of the repository, so it is a parameter; the laws state what its commands document.
use transcribe_service.Prelude.{
  ℕ, ◌-◌, ◌*◌, ◌<◌, String, ◌≡◌, ◌↔◌, Bool, true, Option, none, some, ltb, ◌==◌, if◌then◌else◌,
}

-- The scripts that the service loads. A SHA stands for the script it is the digest of.
pub data Script : Type 0 where
  lua_prepare lua_commit lua_cleanup lua_claim_or_refresh lua_release_if_owner : Script

-- Times to live are in seconds, and the server counts them down in milliseconds.
abbrev pub millis : ℕ → ℕ
millis sec = sec * 1000

abbrev pub age {ℓ} : {V : Type ℓ} → ℕ → Option (V × ℕ) → Option (V × ℕ)
age ms none = none
age ms (some (v, left)) = if ltb ms left then some (v, left - ms) else none

abbrev pub retime {ℓ} : {V : Type ℓ} → ℕ → Option (V × ℕ) → Option (V × ℕ)
retime left none = none
retime left (some (v, _)) = some (v, left)

-- `entry k s` is the value of a key that has not expired, with the milliseconds it has left.
pub record Redis : Type 1 where
  pub Store : Type 0
  pub Value : Type 0
  pub number : ℕ → Value
  pub text : String → Value
  pub to_number : Value → Option ℕ
  pub same : Value → Value → Bool
  pub entry : String → Store → Option (Value × ℕ)
  pub set_ex : String → Value → ℕ → Store → Store
  pub expire : String → ℕ → Store → Store
  pub del : String → Store → Store
  pub tick : ℕ → Store → Store
  pub script_exists : Script → Store → Bool
  pub script_load : Script → Store → Store
  pub to_number-number : (n : ℕ) → to_number (number n) ≡ some n
  pub same_iff : (v w : Value) → (same v w ≡ true) ↔ (v ≡ w)
  pub text_injective : (a b : String) → text a ≡ text b → a ≡ b
  pub entry-set_ex :
      (j k : String) (v : Value) (ttl : ℕ) (s : Store)
      → 0 < ttl
      → entry j (set_ex k v ttl s) ≡ (if k == j then some (v, millis ttl) else entry j s)
  pub entry-expire :
      (j k : String) (ttl : ℕ) (s : Store)
      → 0 < ttl
      → entry j (expire k ttl s) ≡ (if k == j then retime (millis ttl) (entry j s) else entry j s)
  pub entry-del :
      (j k : String) (s : Store) → entry j (del k s) ≡ (if k == j then none else entry j s)
  pub entry-tick : (j : String) (ms : ℕ) (s : Store) → entry j (tick ms s) ≡ age ms (entry j s)
  pub entry-script_load :
      (j : String) (c : Script) (s : Store) → entry j (script_load c s) ≡ entry j s
  pub script_exists-script_load :
      (c : Script) (s : Store) → script_exists c (script_load c s) ≡ true

module _ (r : Redis) where
  open r use {Store, Value, entry}

  -- `redis.call('GET', key)`, where `none` is Lua's `false`
  abbrev value_of : Option (Value × ℕ) → Option Value
  value_of none = none
  value_of (some (v, _)) = some v

  abbrev pub get : String → Store → Option Value
  get k s = value_of (entry k s)
