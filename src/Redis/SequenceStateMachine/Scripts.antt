-- ===== src/Redis/SequenceStateMachine/Scripts.antt =====
-- What the three scripts do to the expected number and the time to live of their key.
use transcribe_service.Prelude.{
  ℕ, ◌<◌, String, ◌≡◌, ◌≢◌, Option, none, some, [], ◌∷◌, arith, ltb, eqb, eq_iff, eq_refl,
  if◌then◌else◌,
}
use transcribe_service.Prelude.Exec.{ok}
use transcribe_service.Redis.Server.{Redis, millis}
use transcribe_service.Redis.Protocols.{PrepareResult, pre_check_ok, idempotent, out_of_order}
use transcribe_service.Redis.Scripts.{list, text, int, run_prepare, run_commit, run_cleanup}
use transcribe_service.Redis.EvalSha.Transparency.{IsClean}

-- The contract of the pre-check: it compares with the expected number.
abbrev pub verdict : ℕ → ℕ → PrepareResult
verdict expected seq =
    if eqb seq expected then pre_check_ok else if ltb seq expected then idempotent else out_of_order

module _ (r : Redis) where
  open r use {Store, Value, entry, number, to_number}

  -- A conversation with no key expects 0.
  abbrev pub expectation : Option (Value × ℕ) → Option ℕ
  expectation none = some 0
  expectation (some (v, left)) = to_number v

  abbrev pub expects : String → Store → Option ℕ
  expects k s = expectation (entry k s)

  abbrev pub left_of : Option (Value × ℕ) → ℕ
  left_of none = 0
  left_of (some (v, left)) = left

  -- The milliseconds that a key has left, 0 if there is no key.
  abbrev pub time_left : String → Store → ℕ
  time_left k s = left_of (entry k s)

  abbrev pub name : PrepareResult → String
  name pre_check_ok = "PRE_CHECK_OK"
  name idempotent = "IDEMPOTENT"
  name out_of_order = "OUT_OF_ORDER"

  pub run_prepare-verdict :
      (k : String) (seq ttl n : ℕ) (s : Store)
      → expects k s ≡ some n
      → (run_prepare r k seq ttl s).0 ≡ ok (list (text (name (verdict n seq)) ∷ int n ∷ []))
  unfolding run_prepare
  run_prepare-verdict k seq ttl n s h = ground arith

  pub run_prepare-IsClean : (k : String) (seq ttl : ℕ) → IsClean r (run_prepare r k seq ttl)
  unfolding run_prepare
  run_prepare-IsClean k seq ttl s t h = ground arith

  pub run_commit-IsClean : (k : String) (seq ttl : ℕ) → IsClean r (run_commit r k seq ttl)
  unfolding run_commit
  run_commit-IsClean k seq ttl s t h = ground arith

  pub run_cleanup-IsClean : (k : String) (ttl : ℕ) → IsClean r (run_cleanup r k ttl)
  unfolding run_cleanup
  run_cleanup-IsClean k ttl s t h = ground arith

  pub expects-run_prepare :
      (k : String) (seq ttl n : ℕ) (s : Store)
      → 0 < ttl
      → expects k s ≡ some n
      → expects k (run_prepare r k seq ttl s).1 ≡ some n
  unfolding run_prepare
  expects-run_prepare k seq ttl n s pos h = ground (
    arith,
    eq_refl k,
    r.to_number-number 0,
    r.entry-set_ex k k (number 0) ttl s pos,
    r.entry-expire k k ttl s pos,
  )

  pub run_prepare_others :
      (k : String) (seq ttl : ℕ) (s : Store) (j : String)
      → 0 < ttl
      → k ≢ j
      → entry j (run_prepare r k seq ttl s).1 ≡ entry j s
  unfolding run_prepare
  run_prepare_others k seq ttl s j pos ne =
      ground
        (arith, eq_iff k j, r.entry-set_ex j k (number 0) ttl s pos, r.entry-expire j k ttl s pos)

  pub run_prepare_lease :
      (k : String) (seq ttl n : ℕ) (s : Store)
      → 0 < ttl
      → expects k s ≡ some n
      → time_left k (run_prepare r k seq ttl s).1
        ≡ (if eqb seq n then millis ttl else time_left k s)
  unfolding run_prepare
  run_prepare_lease k seq ttl n s pos h =
      ground
        (arith, eq_refl k, r.entry-set_ex k k (number 0) ttl s pos, r.entry-expire k k ttl s pos)

  -- The expected number outlives any time below the key's time to live.
  pub expects-tick :
      (k : String) (ms : ℕ) (s : Store) → ms < time_left k s → expects k (r.tick ms s) ≡ expects k s
  expects-tick k ms s h = ground (arith, r.entry-tick k ms s)
