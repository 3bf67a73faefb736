-- ===== src/Runtime/Wiring/Keeping.antt =====
-- The lease of a sender of a service that its settings put together.
use transcribe_service.Prelude.{
  ℕ, ◌≤◌, ◌<◌, String, ◌≡◌, ◌∙◌, sym, subst, Option, List, [], ◌∷◌, arith,
}
use transcribe_service.Prelude.Exec.{Result, ok, err}
use transcribe_service.Prelude.Result.{ok_injective}
use transcribe_service.Logging.{Tools}
use transcribe_service.Settings.{Settings, Environ, apply_environment_rules}
use transcribe_service.Producer.KafkaConnection.{CreateContext}
use transcribe_service.Producer.KafkaConnection.Profiles.{needed_context}
use transcribe_service.Redis.Server.{Redis, millis}
use transcribe_service.Redis.OwnershipGuard.{Config, Guard}
use transcribe_service.Redis.OwnershipGuard.Lease.{
  Act, elapsed, ByOthers, IsHeld, InTime, AllOwned, heartbeat, heartbeat-AllOwned,
}
use transcribe_service.Runtime.Wiring.{Options, RedisClientKwargs, RuntimeBundle}
use transcribe_service.Runtime.Wiring.Clients.{create_shared_redis_client, assemble}
use transcribe_service.Runtime.Wiring.Assembled.{IsAssembled, IsBundle, assemble-IsAssembled}

-- What happens between two refreshes is done by others and takes at most the interval.
abbrev pub AtInterval : ℕ → String → List (List Act) → Type 0
AtInterval interval token [] = Unit
AtInterval interval token (acts ∷ rounds) =
    ByOthers token acts × (elapsed acts ≤ interval) × AtInterval interval token rounds

in_time :
    (r : Redis) (self : Config) (cid token : String) (interval : ℕ) (rounds : List (List Act))
    → interval < millis self.guard_ttl
    → AtInterval interval token rounds
    → InTime r self cid token rounds
in_time r self cid token interval [] below timely = tt
in_time r self cid token interval (acts ∷ rounds) below (others, short, timely) =
    (others, omega arith, in_time r self cid token interval rounds below timely)

module _ (t : Tools) {Client : Type 0} (from_url : String → RedisClientKwargs → Result Client)
    (create_default_context : CreateContext) where
  of_bundle :
      (s : Settings) (b : RuntimeBundle Client) (context : Result (Unit {0}))
      (r : Result (RuntimeBundle Client))
      → IsBundle t from_url s context r
      → r ≡ ok b
      → IsAssembled t from_url s b
  of_bundle s b (ok u) r (b', built', parts) built =
      subst (IsAssembled t from_url s) (ok_injective (sym built' ∙ built)) parts
  of_bundle s b (err e) r raised built = cc

  assembled :
      (int_of_text : String → Option ℕ) (env : Environ) (raw s : Settings) (o : Options)
      (client : Client) (b : RuntimeBundle Client)
      → apply_environment_rules env raw ≡ ok s
      → create_shared_redis_client t from_url s o ≡ ok client
      → assemble t from_url create_default_context int_of_text s o ≡ ok b
      → IsAssembled t from_url s b
  assembled int_of_text env raw s o client b accepted made built =
      of_bundle s b (needed_context create_default_context s.kafka_mode s.kafka_ssl_ca_file) _
        (assemble-IsAssembled t from_url create_default_context int_of_text env raw s o client
          accepted made)
        built

  -- In a service whose settings passed the rules and whose parts were put together from them: a sender that
  -- holds its conversation for the guard's full time to live, and refreshes it at the interval that the
  -- app was given, is answered "owned" each time, whatever others claim and release in between.
  pub assemble-AllOwned :
      (int_of_text : String → Option ℕ) (env : Environ) (raw s : Settings) (o : Options)
      (client : Client) (b : RuntimeBundle Client)
      → apply_environment_rules env raw ≡ ok s
      → create_shared_redis_client t from_url s o ≡ ok client
      → assemble t from_url create_default_context int_of_text s o ≡ ok b
      → (r : Redis) (cid token : String) (rounds : List (List Act)) (g : Guard r)
      → AtInterval b.app.ownership_guard_refresh_interval_ms token rounds
      → IsHeld r b.ownership_guard.config cid token (millis b.ownership_guard.config.guard_ttl) g
      → AllOwned r b.ownership_guard.config cid
          (heartbeat r b.ownership_guard.config cid token rounds g)
  assemble-AllOwned int_of_text env raw s o client b accepted made built r cid token rounds g timely
        held =
      let below = (assembled int_of_text env raw s o client b accepted made built).refresh in
      heartbeat-AllOwned r b.ownership_guard.config cid (omega arith) token rounds g
        (in_time r b.ownership_guard.config cid token b.app.ownership_guard_refresh_interval_ms
          rounds below timely)
        held
