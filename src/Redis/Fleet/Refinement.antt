-- ===== src/Redis/Fleet/Refinement.antt =====
-- The fleet on a Redis server refines the one map that the guard promises.
use transcribe_service.Prelude.{
  ℕ, ◌+◌, ◌<◌, String, ◌≡◌, ◌≢◌, refl, sym, ap, ◌∙◌, Option, none, some, List, [], ◌∷◌, eqb, ◌==◌,
  eq_iff, eq_refl, arith, if◌then◌else◌, Bool-cases, inl, inr, false≢true,
}
use transcribe_service.Prelude.Exec.{Result, ok}
use transcribe_service.Redis.Server.{Redis, millis, age, retime}
use transcribe_service.Redis.Scripts.{run_prepare}
use transcribe_service.Redis.SequenceStateMachine.{Config, key}
use transcribe_service.Redis.SequenceStateMachine.Scripts.{expectation}
use transcribe_service.Redis.SequenceStateMachine.Ordering.{
  prepare-IsPrepared, prepare-store, prepare-others,
}
use transcribe_service.Redis.SequenceStateMachine.Committing.{commit-IsCommitted, cleanup-IsCleaned}
use transcribe_service.Redis.SequenceStateMachine.Keys.{key-injective}
use transcribe_service.Redis.Fleet.{
  Operation, prepare_by, commit_by, cleanup_by, elapse, Answer, prepared, done, Fleet, step, run,
  Expected, number_of, promise, promises, machine, write, answer,
}

module _ (r : Redis) where
  open r use {Store, Value, entry, number, to_number}

  -- A key as a number with a time to live.
  abbrev pub view : Option (Value × ℕ) → Option (Option ℕ × ℕ)
  view none = none
  view (some (v, left)) = some (to_number v, left)

  abbrev pub shown : Option (ℕ × ℕ) → Option (Option ℕ × ℕ)
  shown none = none
  shown (some (n, left)) = some (some n, left)

  -- The keys of the conversations are the map.
  abbrev pub Refines : Config → Store → Expected → Type 0
  Refines self s a = (cid : String) → view (entry (key self cid) s) ≡ shown (a cid)

  expectation-shown :
      (e : Option (Value × ℕ)) (x : Option (ℕ × ℕ))
      → view e ≡ shown x
      → expectation r e ≡ some (number_of x)
  expectation-shown none none h = refl
  expectation-shown none (some x) h = cc
  expectation-shown (some e) none h = cc
  expectation-shown (some (v, left)) (some (n, k)) h = ground arith

  age-shown :
      (ms : ℕ) (e : Option (Value × ℕ)) (x : Option (ℕ × ℕ))
      → view e ≡ shown x
      → view (age ms e) ≡ shown (age ms x)
  age-shown ms none none h = refl
  age-shown ms none (some x) h = cc
  age-shown ms (some e) none h = cc
  age-shown ms (some (v, left)) (some (n, k)) h = ground arith

  retime-shown :
      (left : ℕ) (e : Option (Value × ℕ)) (x : Option (ℕ × ℕ))
      → view e ≡ shown x
      → view (retime left e) ≡ shown (retime left x)
  retime-shown left none none h = refl
  retime-shown left none (some x) h = cc
  retime-shown left (some e) none h = cc
  retime-shown left (some (v, l)) (some (n, k)) h = ground arith

  run_prepare-shown :
      (k : String) (seq ttl : ℕ) (s : Store) (x : Option (ℕ × ℕ))
      → 0 < ttl
      → view (entry k s) ≡ shown x
      → view (entry k (run_prepare r k seq ttl s).1)
        ≡ shown (if eqb seq (number_of x) then some (number_of x, millis ttl) else x)
  unfolding run_prepare
  run_prepare-shown k seq ttl s none pos h = ground (
    arith,
    eq_refl k,
    r.to_number-number 0,
    r.entry-set_ex k k (number 0) ttl s pos,
    r.entry-expire k k ttl s pos,
  )
  run_prepare-shown k seq ttl s (some (n, left)) pos h = ground (
    arith,
    eq_refl k,
    r.to_number-number 0,
    r.entry-set_ex k k (number 0) ttl s pos,
    r.entry-expire k k ttl s pos,
  )

  key-test : (self : Config) (a b : String) → (key self a == key self b) ≡ (a == b)
  key-test self a b = elim (Bool-cases (a == b)) [
    | inl e ↦ rw e (rw ((eq_iff a b).0 e) (eq_refl (key self b)))
    | inr e ↦ rw e (elim (Bool-cases (key self a == key self b)) [
      | inl f ↦
          absurd (false≢true (sym e ∙ (eq_iff a b).1 (key-injective self a b ((eq_iff _ _).0 f))))
      | inr f ↦ f
    ])
  ]

  -- A step that writes the key of `cid` alone, as the map is written.
  write-Refines :
      (self : Config) (cid : String) (s s' : Store) (a : Expected) (x : Option (ℕ × ℕ))
      → Refines self s a
      → view (entry (key self cid) s') ≡ shown x
      → ((j : String) → key self cid ≢ j → entry j s' ≡ entry j s)
      → Refines self s' (write cid x a)
  write-Refines self cid s s' a x h own others c = elim (Bool-cases (cid == c)) [
    | inl e ↦ rw e (ap (λ k. view (entry (key self k) s')) (sym ((eq_iff cid c).0 e)) ∙ own)
    | inr e ↦ rw e (
        ap view (
          others (key self c)
            (λ p. false≢true (sym e ∙ (eq_iff cid c).1 (key-injective self cid c p))))
        ∙ h c)
  ]

  -- What a call answers and leaves is what the map promises.
  abbrev pub IsKept : Config → Operation → Expected → Result Answer × Fleet r → Type 0
  IsKept self op a (x, f) =
      (x ≡ ok (promise self op a).0) × Refines self f.store (promise self op a).1

  module _ (self : Config) (active : 0 < self.active_ttl) (final : 0 < self.final_ttl) where
    prepare-IsKept :
        (p : ℕ) (cid : String) (seq : ℕ) (f : Fleet r) (a : Expected)
        → Refines self f.store a
        → IsKept self (prepare_by p cid seq) a (step r self (prepare_by p cid seq) f)
    unfolding step
    prepare-IsKept p cid seq f a h =
        let m = machine r p f in
        let n = number_of (a cid) in
        let known = expectation-shown (entry (key self cid) f.store) (a cid) (h cid) in
        let answered = (prepare-IsPrepared r self cid seq n m active known).outcome in
        let (before, same, store) = prepare-store r self cid seq m in
        let own =
          ap (λ s. view (entry (key self cid) s)) store
          ∙ run_prepare-shown (key self cid) seq self.active_ttl before (a cid) active
              (ap view (same (key self cid)) ∙ h cid) in
        (
          ap (answer r prepared) answered,
          write-Refines self cid f.store _ a _ h own
              (λ j ne. prepare-others r self cid seq m j active ne),
        )

    -- A test of keys that fails.
    skip : {A : Type 0} (k j : String) (x y : A) → k ≢ j → (if k == j then x else y) ≡ y
    skip k j x y ne = elim (Bool-cases (k == j)) [
      | inl e ↦ absurd (ne ((eq_iff k j).0 e))
      | inr e ↦ rw e refl
    ]

    elapse-IsKept :
        (ms : ℕ) (f : Fleet r) (a : Expected)
        → Refines self f.store a
        → IsKept self (elapse ms) a (step r self (elapse ms) f)
    unfolding step
    elapse-IsKept ms f a h = (
      refl,
      λ cid.
          ap view (r.entry-tick (key self cid) ms f.store)
          ∙ age-shown ms (entry (key self cid) f.store) (a cid) (h cid),
    )

    commit-IsKept :
        (p : ℕ) (cid : String) (seq : ℕ) (f : Fleet r) (a : Expected)
        → Refines self f.store a
        → IsKept self (commit_by p cid seq) a (step r self (commit_by p cid seq) f)
    unfolding step
    commit-IsKept p cid seq f a h =
        let k = key self cid in
        let committed = commit-IsCommitted r self cid seq (machine r p f) active in
        (
          ap (answer r (λ _. done)) committed.outcome,
          write-Refines self cid f.store _ a _ h
              (ap view (committed.entries k)
                ∙ rw (eq_refl k)
                    (ap (λ o. some (o, millis self.active_ttl)) (r.to_number-number (seq + 1))))
              (λ j ne. committed.entries j ∙ skip k j _ _ ne),
        )

    cleanup-IsKept :
        (p : ℕ) (cid : String) (f : Fleet r) (a : Expected)
        → Refines self f.store a
        → IsKept self (cleanup_by p cid) a (step r self (cleanup_by p cid) f)
    unfolding step
    cleanup-IsKept p cid f a h =
        let k = key self cid in
        let cleaned = cleanup-IsCleaned r self cid (machine r p f) final in
        (
          ap (answer r (λ _. done)) cleaned.outcome,
          write-Refines self cid f.store _ a _ h
              (ap view (cleaned.entries k)
                ∙ rw (eq_refl k)
                    (retime-shown (millis self.final_ttl) (entry k f.store) (a cid) (h cid)))
              (λ j ne. cleaned.entries j ∙ skip k j _ _ ne),
        )

    step-IsKept :
        (op : Operation) (f : Fleet r) (a : Expected)
        → Refines self f.store a
        → IsKept self op a (step r self op f)
    step-IsKept (prepare_by p cid seq) f a h = prepare-IsKept p cid seq f a h
    step-IsKept (commit_by p cid seq) f a h = commit-IsKept p cid seq f a h
    step-IsKept (cleanup_by p cid) f a h = cleanup-IsKept p cid f a h
    step-IsKept (elapse ms) f a h = elapse-IsKept ms f a h

    -- Let any number of processes share a server, with whatever scripts each and the server have cached,
    -- let the times to live be positive, and let the conversations' keys hold a map of expected numbers
    -- with their times. Then all calls, in whatever order and with whatever time between them, return
    -- what that one map promises, and the keys hold the map that it becomes.
    pub run-Refines :
        (ops : List Operation) (f : Fleet r) (a : Expected)
        → Refines self f.store a
        → ((run r self ops f).0 ≡ (promises self ops a).0)
          × Refines self (run r self ops f).1.store (promises self ops a).1
    unfolding run
    run-Refines [] f a h = (refl, h)
    run-Refines (op ∷ ops) f a h =
        let kept = step-IsKept op f a h in
        let rest = run-Refines ops (step r self op f).1 (promise self op a).1 kept.1 in
        (rw (kept.0, rest.0) refl, rest.1)
