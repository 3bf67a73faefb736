-- ===== src/Redis/Fleet.antt =====
-- Several processes of the service that share a Redis server: each has its own RedisSequenceStateMachine
-- with its own cached SHAs (redis/sequence_state_machine.py). Their calls come in any order, and time
-- passes between them.
pub mod Refinement
pub mod Lifetime
use transcribe_service.Prelude.{
  ℕ, ◌+◌, String, Option, none, some, List, [], ◌∷◌, eqb, ◌==◌, if◌then◌else◌,
}
use transcribe_service.Prelude.Exec.{Result, ok, err}
use transcribe_service.Redis.Server.{Redis, millis, age, retime}
use transcribe_service.Redis.Protocols.{PrepareOutcome}
use transcribe_service.Redis.SequenceStateMachine.{Config, Shas, Machine, prepare, commit, cleanup}
use transcribe_service.Redis.SequenceStateMachine.Scripts.{verdict}

-- A call of the process of that number, or milliseconds that pass.
pub data Operation : Type 0 where
  prepare_by commit_by : ℕ → String → ℕ → Operation
  cleanup_by : ℕ → String → Operation
  elapse : ℕ → Operation

pub data Answer : Type 0 where
  prepared : PrepareOutcome → Answer
  done : Answer

pub record Fleet (r : Redis) : Type 0 where
  pub caches : ℕ → Shas
  pub store : r.Store

module _ (r : Redis) where
  abbrev pub machine : ℕ → Fleet r → Machine r
  machine p f = record { cache = f.caches p; store = f.store }

  abbrev put_back : ℕ → Fleet r → Machine r → Fleet r
  put_back p f m = record { caches = λ q. if eqb p q then m.cache else f.caches q; store = m.store }

  abbrev pub answer : {A : Type 0} → (A → Answer) → Result A → Result Answer
  answer wrap (ok a) = ok (wrap a)
  answer wrap (err e) = err e

  abbrev pub finish :
      {A : Type 0} → (A → Answer) → ℕ → Fleet r → Result A × Machine r → Result Answer × Fleet r
  finish wrap p f (a, m) = (answer wrap a, put_back p f m)

  unfoldable pub step : Config → Operation → Fleet r → Result Answer × Fleet r
  unfolding prepare commit cleanup
  step self (prepare_by p cid seq) f = finish prepared p f (prepare r self cid seq (machine p f))
  step self (commit_by p cid seq) f = finish (λ _. done) p f (commit r self cid seq (machine p f))
  step self (cleanup_by p cid) f = finish (λ _. done) p f (cleanup r self cid (machine p f))
  step self (elapse ms) f = (ok done, record f { store = r.tick ms f.store })

  unfoldable pub run : Config → List Operation → Fleet r → List (Result Answer) × Fleet r
  unfolding step
  run self [] f = ([], f)
  run self (op ∷ ops) f =
      let (a, f') = step self op f in let (rest, f'') = run self ops f' in (a ∷ rest, f'')

-- What the guard promises: for each conversation that is known, the number expected next and the
-- milliseconds for which it is remembered. There is one such map, whichever process is asked.
abbrev pub Expected : Type 0
Expected = String → Option (ℕ × ℕ)

abbrev pub write : String → Option (ℕ × ℕ) → Expected → Expected
write cid x a c = if cid == c then x else a c

abbrev pub number_of : Option (ℕ × ℕ) → ℕ
number_of none = 0
number_of (some (n, left)) = n

abbrev pub promise_prepare : Config → String → ℕ → ℕ → Expected → Answer × Expected
promise_prepare self cid seq n a = (
  prepared (record { status = verdict n seq; expected_sequence = some n }),
  write cid (if eqb seq n then some (n, millis self.active_ttl) else a cid) a,
)

abbrev pub promise : Config → Operation → Expected → Answer × Expected
promise self (prepare_by p cid seq) a = promise_prepare self cid seq (number_of (a cid)) a
promise self (commit_by p cid seq) a = (done, write cid (some (seq + 1, millis self.active_ttl)) a)
promise self (cleanup_by p cid) a = (done, write cid (retime (millis self.final_ttl) (a cid)) a)
promise self (elapse ms) a = (done, λ c. age ms (a c))

abbrev pub promises : Config → List Operation → Expected → List (Result Answer) × Expected
promises self [] a = ([], a)
promises self (op ∷ ops) a =
    let (x, a') = promise self op a in let (xs, a'') = promises self ops a' in (ok x ∷ xs, a'')
