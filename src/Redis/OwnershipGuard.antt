-- ===== src/Redis/OwnershipGuard.antt =====
-- redis/ownership_guard.py: the class, its cached SHAs and its server.
pub mod Exclusion
pub mod Lease
use transcribe_service.Prelude.{ℕ, String, Bool, true, false, Option, none, some, ◌==◌}
use transcribe_service.Prelude.Exec.{ok, Exec, lift, ◌>>=◌, ◌>>◌}
use transcribe_service.Redis.Server.{Redis, Script, lua_claim_or_refresh, lua_release_if_owner}
use transcribe_service.Redis.EvalSha.{Client, load_if_none, evalsha_or_reload}
use transcribe_service.Redis.Scripts.{
  Reply, status, integer, list, run_claim_or_refresh, run_release_if_owner,
}
use Prim.Native.String

pub record Config : Type 0 where
  pub guard_ttl : ℕ
  pub key_prefix : String

-- `self._key(conversation_id)`
unfoldable pub key : Config → String → String
key self conversation_id = String.◌++◌ self.key_prefix (String.◌++◌ ":" conversation_id)

-- The SHAs that the object has cached.
pub record Shas : Type 0 where
  pub sha_claim : Option Script
  pub sha_release : Option Script

abbrev pub Guard : Redis → Type 0
Guard r = Client r Shas

abbrev set_claim : Shas → Shas
set_claim shas = record shas { sha_claim = some lua_claim_or_refresh }

abbrev set_release : Shas → Shas
set_release shas = record shas { sha_release = some lua_release_if_owner }

-- `str(result) == "OWNED"`; no reply but the status is rendered so.
abbrev pub is_owned : Reply → Bool
is_owned (status s) = s == "OWNED"
is_owned reply = false

module _ (r : Redis) where
  unfoldable pub ensure_scripts_loaded : Guard r → Guard r
  ensure_scripts_loaded g =
      let (a, s1) = load_if_none r g.cache.sha_claim lua_claim_or_refresh g.store in
      let (b, s2) = load_if_none r g.cache.sha_release lua_release_if_owner s1 in
      record { cache = record { sha_claim = a; sha_release = b }; store = s2 }

  unfoldable pub claim_or_refresh : Config → String → String → Exec (Guard r) Bool
  unfolding ensure_scripts_loaded evalsha_or_reload
  claim_or_refresh self conversation_id ownership_token g =
      let g' = ensure_scripts_loaded g in
      (do
        result ←
            evalsha_or_reload r set_claim lua_claim_or_refresh g'.cache.sha_claim
              (run_claim_or_refresh r (key self conversation_id) ownership_token self.guard_ttl)
        lift (ok (is_owned result)))
        g'

  unfoldable pub release : Config → String → String → Exec (Guard r) (Unit {0})
  unfolding ensure_scripts_loaded evalsha_or_reload
  release self conversation_id ownership_token g =
      let g' = ensure_scripts_loaded g in
      (do
        evalsha_or_reload r set_release lua_release_if_owner g'.cache.sha_release
            (run_release_if_owner r (key self conversation_id) ownership_token)
        lift (ok tt))
        g'
