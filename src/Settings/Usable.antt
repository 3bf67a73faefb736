-- ===== src/Settings/Usable.antt =====
-- What settings that pass the rules can be relied on for.
use transcribe_service.Prelude.{
  ◌*◌, ◌≤◌, ◌<◌, String, ◌≡◌, refl, Bool, true, false, not, ◌&&◌, ◌||◌, List, [], ◌∷◌, is_some,
  arith, subst,
}
use transcribe_service.Prelude.Exec.{ok}
use transcribe_service.Settings.{
  Settings, Environ, with_defaults, apply_environment_rules, check, rules, is_msk, is_deployed,
}

-- What the rest of the service asserts or assumes.
pub record IsUsable (s : Settings) : Type 0 where
  pub redis : is_some s.redis_url ≡ true
  pub kafka : is_some s.kafka_bootstrap_servers ≡ true
  pub final : s.redis_final_ttl_sec ≤ s.redis_active_ttl_sec
  pub refresh : s.ws_ownership_guard_refresh_interval_ms < s.redis_ownership_guard_ttl_sec * 1000
  pub auth : (not s.auth_enabled || is_some s.auth_jwt_signing_material) ≡ true
  pub region : (not (is_msk s.kafka_mode) || is_some s.kafka_aws_region) ≡ true

-- No rule is violated.
abbrev AllPass : List (Bool × String) → Type 0
AllPass [] = Unit
AllPass ((violated, text) ∷ rest) = (violated ≡ false) × AllPass rest

check-AllPass :
    (rs : List (Bool × String)) (s t : Settings) → check rs s ≡ ok t → AllPass rs × (s ≡ t)
check-AllPass [] s t h = (tt, cc)
check-AllPass ((true, text) ∷ rest) s t h = absurd (ground arith)
check-AllPass ((false, text) ∷ rest) s t h = let p = check-AllPass rest s t h in ((refl, p.0), p.1)

-- A local service has the default addresses.
with_defaults-local :
    (env : Environ) (s : Settings)
    → (is_deployed (with_defaults env s).app_env
        || (is_some (with_defaults env s).redis_url
            && is_some (with_defaults env s).kafka_bootstrap_servers))
      ≡ true
unfolding with_defaults
with_defaults-local env s = ground arith

usable :
    (s : Settings)
    → (is_deployed s.app_env || (is_some s.redis_url && is_some s.kafka_bootstrap_servers)) ≡ true
    → AllPass (rules s)
    → IsUsable s
usable s local_addresses (missing, (_, (_, (ttl, (refresh, (auth, (_, (_, (region, _))))))))) =
    record {
      redis = ground (arith, local_addresses, missing);
      kafka = ground (arith, local_addresses, missing);
      final = ground (arith, ttl);
      refresh = ground (arith, refresh);
      auth = ground (arith, auth);
      region = ground (arith, region);
    }

-- Settings that pass the rules have an address of Redis and of Kafka, which `main` asserts; a final time
-- to live that is at most the active one; a refresh interval below the time to live of the ownership
-- guard; a key for JWTs if authentication is on; and a region if Kafka is on AWS.
pub apply_environment_rules-IsUsable :
    (env : Environ) (s t : Settings) → apply_environment_rules env s ≡ ok t → IsUsable t
unfolding apply_environment_rules
apply_environment_rules-IsUsable env s t h =
    let u = with_defaults env s in
    let p = check-AllPass (rules u) u t h in
    subst IsUsable p.1 (usable u (with_defaults-local env s) p.0)
