-- ===== src/Tests/Servers.antt =====
-- The theorems on the two Redis components at a server that has just started.
use transcribe_service.Prelude.{
  String, ◌≡◌, refl, ◌≢◌, false≢true, eq_iff, false, List, none, [], ◌∷◌, arith,
}
use transcribe_service.Prelude.Exec.{ok}
use transcribe_service.Redis.Scripts.{run_claim_or_refresh}
use transcribe_service.Redis.Memory.{memory}
use transcribe_service.Redis.SequenceStateMachine
use transcribe_service.Redis.SequenceStateMachine.Ordering.{IsPrepared, prepare-IsPrepared}
use transcribe_service.Redis.SequenceStateMachine.Committing.{
  IsCommitted, commit-IsCommitted, IsCleaned, cleanup-IsCleaned,
}
use transcribe_service.Redis.Fleet
use transcribe_service.Redis.Fleet.{
  Fleet, Operation, prepare_by, commit_by, cleanup_by, elapse, Expected, promises,
}
use transcribe_service.Redis.Fleet.Refinement.{Refines, run-Refines}
use transcribe_service.Redis.Fleet.Lifetime.{Lasts, run-Lasts}
use transcribe_service.Redis.Server.{millis}
use transcribe_service.Redis.OwnershipGuard
use transcribe_service.Redis.OwnershipGuard.Exclusion.{
  IsClaimed, claim_or_refresh-IsClaimed, IsReleased, release-IsReleased,
}
use transcribe_service.Redis.OwnershipGuard.Lease.{
  claims, releases, passes, run, IsHeld, claim_or_refresh-excludes,
}
use transcribe_service.Tests.Fixtures.{settings, guard_settings, machine, guard}

prepare_example :
    IsPrepared memory settings "c-1" 2 0 machine
      (SequenceStateMachine.prepare memory settings "c-1" 2 machine)
prepare_example = prepare-IsPrepared memory settings "c-1" 2 0 machine (omega arith) refl

commit_example :
    IsCommitted memory settings "c-1" 4 machine
      (SequenceStateMachine.commit memory settings "c-1" 4 machine)
commit_example = commit-IsCommitted memory settings "c-1" 4 machine (omega arith)

abbrev committed : SequenceStateMachine.Machine memory
unfolding SequenceStateMachine.commit
committed = (SequenceStateMachine.commit memory settings "c-1" 4 machine).1

cleanup_example :
    IsCleaned memory settings "c-1" committed
      (SequenceStateMachine.cleanup memory settings "c-1" committed)
cleanup_example = cleanup-IsCleaned memory settings "c-1" committed (omega arith)

abbrev alice : String
alice = "alice"

abbrev bob : String
bob = "bob"

claim_example :
    IsClaimed memory guard_settings "c-1" "alice" guard
      (OwnershipGuard.claim_or_refresh memory guard_settings "c-1" "alice" guard)
claim_example = claim_or_refresh-IsClaimed memory guard_settings "c-1" "alice" guard (omega arith)

-- `alice` holds the conversation.
abbrev held : OwnershipGuard.Guard memory
unfolding OwnershipGuard.claim_or_refresh
held = (OwnershipGuard.claim_or_refresh memory guard_settings "c-1" "alice" guard).1

release_example :
    IsReleased memory guard_settings "c-1" "bob" held
      (OwnershipGuard.release memory guard_settings "c-1" "bob" held)
release_example = release-IsReleased memory guard_settings "c-1" "bob" held

held-IsHeld : IsHeld memory guard_settings "c-1" "alice" 30000 held
unfolding OwnershipGuard.claim_or_refresh run_claim_or_refresh OwnershipGuard.key
held-IsHeld = refl

bob-alice : bob ≢ alice
bob-alice e = false≢true ((eq_iff bob alice).1 e)

excludes_example :
    IsHeld memory guard_settings "c-1" "alice" 20000
      (run memory guard_settings "c-1" (claims "bob" ∷ passes 10000 ∷ releases "bob" ∷ []) held)
    × ((OwnershipGuard.claim_or_refresh memory guard_settings "c-1" "bob" (
          run memory guard_settings "c-1"
            (claims "bob" ∷ passes 10000 ∷ releases "bob" ∷ [])
            held)).0
        ≡ ok false)
excludes_example =
    claim_or_refresh-excludes memory guard_settings "c-1" (omega arith) "alice" "bob"
      (claims "bob" ∷ passes 10000 ∷ releases "bob" ∷ []) 30000 held bob-alice
      (bob-alice, (bob-alice, tt)) (omega arith) held-IsHeld

-- Two processes take turns on a conversation.
abbrev fleet : Fleet memory
fleet = record { caches = λ p. machine.cache; store = machine.store }

abbrev turns : List Operation
turns =
    prepare_by 0 "c-1" 0
    ∷ commit_by 0 "c-1" 0
    ∷ elapse 1000
    ∷ prepare_by 1 "c-1" 1
    ∷ prepare_by 0 "c-1" 0
    ∷ cleanup_by 1 "c-1"
    ∷ []

abbrev nothing_known : Expected
nothing_known cid = none

run-Refines_example :
    ((Fleet.run memory settings turns fleet).0 ≡ (promises settings turns nothing_known).0)
    × Refines memory settings
        (Fleet.run memory settings turns fleet).1.store
        (promises settings turns nothing_known).1
run-Refines_example =
    run-Refines memory settings (omega arith) (omega arith) turns fleet nothing_known (λ cid. refl)

run-Lasts_example :
    Lasts (millis settings.active_ttl) (
      memory.entry
        (SequenceStateMachine.key settings "c-1")
        (Fleet.run memory settings turns fleet).1.store)
    × (memory.entry
          (SequenceStateMachine.key settings "c-1")
          (memory.tick 3600000 (Fleet.run memory settings turns fleet).1.store)
        ≡ none)
run-Lasts_example =
    run-Lasts settings (omega arith) memory (omega arith) (omega arith) turns fleet nothing_known
      (λ cid. refl) (λ cid. tt) "c-1" 3600000 (omega arith)
