-- ===== src/Redis/Memory.antt =====
-- A server that meets the assumptions of `Redis`: keys and loaded scripts as functions. The tests and
-- the concrete instances of the theorems run on it.
use transcribe_service.Prelude.{
  ℕ, String, ◌≡◌, refl, ◌↔◌, Bool, true, false, ◌||◌, Option, none, some, arith, eqb, ◌==◌, eq_iff,
  if◌then◌else◌,
}
use transcribe_service.Redis.Server.{
  Redis, Script, lua_prepare, lua_commit, lua_cleanup, lua_claim_or_refresh, lua_release_if_owner,
  millis, age, retime,
}

pub data Cell : Type 0 where
  digits : ℕ → Cell
  bytes : String → Cell

abbrev to_number : Cell → Option ℕ
to_number (digits n) = some n
to_number (bytes s) = none

abbrev same : Cell → Cell → Bool
same (digits m) (digits n) = eqb m n
same (bytes s) (bytes t) = s == t
same _ _ = false

pub same_iff : (v w : Cell) → (same v w ≡ true) ↔ (v ≡ w)
same_iff (digits m) (digits n) = (λ h. ground arith, λ h. ground arith)
same_iff (bytes s) (bytes t) = (λ h. ground (arith, eq_iff s t), λ h. ground (arith, eq_iff s t))
same_iff (digits m) (bytes t) = (λ h. ground arith, λ h. ground arith)
same_iff (bytes s) (digits n) = (λ h. ground arith, λ h. ground arith)

pub bytes_injective : (a b : String) → bytes a ≡ bytes b → a ≡ b
bytes_injective a b h = cc

abbrev index : Script → ℕ
index lua_prepare = 0
index lua_commit = 1
index lua_cleanup = 2
index lua_claim_or_refresh = 3
index lua_release_if_owner = 4

pub record Store : Type 0 where
  pub at : String → Option (Cell × ℕ)
  pub loaded : Script → Bool

abbrev script_load : Script → Store → Store
script_load c s = record s { loaded = λ d. eqb (index c) (index d) || s.loaded d }

pub loaded-script_load : (c : Script) (s : Store) → (script_load c s).loaded c ≡ true
loaded-script_load c s = ground arith

abbrev pub memory : Redis
memory = record {
  Store = Store;
  Value = Cell;
  number = digits;
  text = bytes;
  to_number = to_number;
  same = same;
  entry = λ k s. s.at k;
  set_ex = λ k v ttl s. record s { at = λ j. if k == j then some (v, millis ttl) else s.at j };
  expire =
      λ k ttl s. record s { at = λ j. if k == j then retime (millis ttl) (s.at j) else s.at j };
  del = λ k s. record s { at = λ j. if k == j then none else s.at j };
  tick = λ ms s. record s { at = λ j. age ms (s.at j) };
  script_exists = λ c s. s.loaded c;
  script_load = script_load;
  to_number-number = λ n. refl;
  same_iff = same_iff;
  text_injective = bytes_injective;
  entry-set_ex = λ j k v ttl s pos. refl;
  entry-expire = λ j k ttl s pos. refl;
  entry-del = λ j k s. refl;
  entry-tick = λ j ms s. refl;
  entry-script_load = λ j c s. refl;
  script_exists-script_load = loaded-script_load;
}

-- A server that has just started.
abbrev pub empty : Store
empty = record { at = λ k. none; loaded = λ c. false }
