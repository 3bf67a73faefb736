-- ===== src/Pipeline/Effects.antt =====
-- What each call of the orchestrator does to one conversation, however it ends.
use transcribe_service.Prelude.{
  ℕ, ◌+◌, ◌<◌, String, ◌≡◌, ◌≢◌, ◌⊎◌, inl, inr, Bool, false, Option, some, List, [], ◌∷◌, ◌++◌,
  arith, ◌==◌, eq_iff, ◌∙◌, ap, if◌then◌else◌, Bool-cases, false≢true, sym,
}
use transcribe_service.Prelude.Exec.{
  Result, ok, Exec, Delivery, served, lost_before, lost_after, attempt,
}
use transcribe_service.Redis.Server.{Redis, retime, millis}
use transcribe_service.Redis.Protocols.{PrepareOutcome}
use transcribe_service.Redis.SequenceStateMachine
use transcribe_service.Redis.SequenceStateMachine.{Config, key, Machine}
use transcribe_service.Redis.SequenceStateMachine.Scripts.{verdict, expectation, expects}
use transcribe_service.Redis.SequenceStateMachine.Ordering.{prepare-IsPrepared, prepare-others}
use transcribe_service.Redis.SequenceStateMachine.Committing.{commit-IsCommitted, cleanup-IsCleaned}
use transcribe_service.Redis.SequenceStateMachine.Keys.{key-injective}
use transcribe_service.Converter.{KafkaPayload}
use transcribe_service.Producer.Sending.{send-appends}
use transcribe_service.Producer.{Kafka, KafkaRecord}
use transcribe_service.Pipeline.{Weather, World, backends, on_machine}
use transcribe_service.Pipeline.Delivered.{stored, stored-append}

-- The settings that `Settings` requires to be positive.
pub record IsPositive (self : Config) : Type 0 where
  pub active : 0 < self.active_ttl
  pub final : 0 < self.final_ttl

module _ (r : Redis) (k : Kafka) (self : Config) (c : String) where
  open k use {records, append, records-append}

  -- The conversation expects `n`, and the topic holds the numbers `xs` of it.
  pub record At (n : ℕ) (xs : List ℕ) (w : World r k) : Type 0 where
    pub expected : expects r (key self c) w.machine.store ≡ some n
    pub held : stored c (records w.producer.topic) ≡ xs

  -- A call to Redis keeps what it keeps when it is served.
  attempt-keeps :
      {A : Type 0} (P : World r k → Type 0) (d : Delivery) (f : Exec (World r k) A) (w : World r k)
      → P w
      → P (f w).1
      → P (attempt d f w).1
  unfolding attempt
  attempt-keeps P served f w before after = after
  attempt-keeps P (lost_before e) f w before after = before
  attempt-keeps P (lost_after e) f w before after = after

  -- A new time to live changes no number.
  expectation-retime :
      (b : Bool) (ttl : ℕ) (e : Option (r.Value × ℕ))
      → expectation r (if b then retime (millis ttl) e else e) ≡ expectation r e
  expectation-retime b ttl e = ground arith

  same_or_other : (cid : String) → (cid ≡ c) ⊎ (cid ≢ c)
  same_or_other cid = elim (Bool-cases (cid == c)) [
    | inl e ↦ inl ((eq_iff cid c).0 e)
    | inr e ↦ inr (λ p. false≢true (sym e ∙ (eq_iff cid c).1 p))
  ]

  abbrev expects_of : String → World r k → Option ℕ
  expects_of cid w = expects r (key self cid) w.machine.store

  other_key : (cid : String) → cid ≢ c → key self cid ≢ key self c
  other_key cid ne e = ne (key-injective self cid c e)

  unequal_key : (cid : String) → cid ≢ c → (key self cid == key self c) ≡ false
  unequal_key cid ne = elim (Bool-cases (key self cid == key self c)) [
    | inl e ↦ absurd (other_key cid ne ((eq_iff (key self cid) (key self c)).0 e))
    | inr e ↦ e
  ]

  abbrev prepared : String → ℕ → World r k → World r k
  prepared cid seq w = record w {
    machine = (SequenceStateMachine.prepare r self cid seq w.machine).1;
  }

  module _ (pos : IsPositive self) (weather : Weather) {n : ℕ} {xs : List ℕ} where
    pub prepare-At :
        (cid : String) (seq : ℕ) (w : World r k)
        → At n xs w
        → At n xs ((backends r k self weather).prepare cid seq w).1
    prepare-At cid seq w h =
        attempt-keeps (At n xs) weather.prepare
          (on_machine r k self (SequenceStateMachine.prepare r self cid seq)) w h
          (elim (same_or_other cid) [
            | inl same ↦ record {
              expected =
                  ap (λ x. expects_of x (prepared cid seq w)) (sym same)
                  ∙ (prepare-IsPrepared r self cid seq n w.machine pos.active
                      (ap (λ x. expects_of x w) same ∙ h.expected)).expected;
              held = h.held;
            }
            | inr other ↦ record {
              expected =
                  ap (expectation r) (
                    prepare-others r self cid seq w.machine (key self c) pos.active
                      (other_key cid other))
                  ∙ h.expected;
              held = h.held;
            }
          ])

    -- If the pre-check of the conversation itself answers, it answers the comparison.
    pub prepare-verdict :
        (seq : ℕ) (w : World r k) (o : PrepareOutcome)
        → At n xs w
        → ((backends r k self weather).prepare c seq w).0 ≡ ok o
        → o.status ≡ verdict n seq
    unfolding attempt
    prepare-verdict seq w o h = go weather.prepare
      where
        p :
            (SequenceStateMachine.prepare r self c seq w.machine).0
            ≡ ok (record { status = verdict n seq; expected_sequence = some n })
        p = (prepare-IsPrepared r self c seq n w.machine pos.active h.expected).outcome

        go :
            (d : Delivery)
            → (attempt d (on_machine r k self (SequenceStateMachine.prepare r self c seq)) w).0
              ≡ ok o
            → o.status ≡ verdict n seq
        go served e = cc (p, e)
        go (lost_before x) e = cc
        go (lost_after x) e = cc

    pub commit-At :
        (cid : String) (seq : ℕ) (w : World r k)
        → At n xs w
        → let (done, w') = (backends r k self weather).commit cid seq w in
          (At n xs w' × (done ≡ ok tt → cid ≢ c)) ⊎ ((cid ≡ c) × At (seq + 1) xs w')
    unfolding attempt
    commit-At cid seq w h = go weather.commit
      where
        done : World r k
        done = record w { machine = (SequenceStateMachine.commit r self cid seq w.machine).1 }

        moved : (At n xs done × (cid ≢ c)) ⊎ ((cid ≡ c) × At (seq + 1) xs done)
        moved = elim (same_or_other cid) [
          | inl same ↦ inr (
            same,
            record {
              expected =
                  ap (λ x. expects_of x done) (sym same)
                  ∙ (commit-IsCommitted r self cid seq w.machine pos.active).expected;
              held = h.held;
            },
          )
          | inr other ↦ inl (
            record {
              expected =
                  ap (expectation r) (
                    (commit-IsCommitted r self cid seq w.machine pos.active).entries (key self c)
                    ∙ rw (unequal_key cid other))
                  ∙ h.expected;
              held = h.held;
            },
            other,
          )
        ]

        call : Delivery → Result (Unit {0}) × World r k
        call d = attempt d (on_machine r k self (SequenceStateMachine.commit r self cid seq)) w

        forget :
            (x : Result (Unit {0}))
            → (At n xs done × (cid ≢ c)) ⊎ ((cid ≡ c) × At (seq + 1) xs done)
            → (At n xs done × (x ≡ ok tt → cid ≢ c)) ⊎ ((cid ≡ c) × At (seq + 1) xs done)
        forget x (inl (a, ne)) = inl (a, λ _. ne)
        forget x (inr b) = inr b

        go :
            (d : Delivery)
            → (At n xs (call d).1 × ((call d).0 ≡ ok tt → cid ≢ c))
              ⊎ ((cid ≡ c) × At (seq + 1) xs (call d).1)
        go served = forget _ moved
        go (lost_before e) = inl (h, λ p. cc)
        go (lost_after e) = forget _ moved

    pub cleanup-At :
        (cid : String) (w : World r k)
        → At n xs w
        → At n xs ((backends r k self weather).cleanup cid w).1
    cleanup-At cid w h =
        attempt-keeps (At n xs) weather.cleanup
          (on_machine r k self (SequenceStateMachine.cleanup r self cid)) w h
          (record {
            expected =
                ap (expectation r)
                  ((cleanup-IsCleaned r self cid w.machine pos.final).entries (key self c))
                ∙ expectation-retime (key self cid == key self c) self.final_ttl
                    (r.entry (key self c) w.machine.store)
                ∙ h.expected;
            held = h.held;
          })

    pub send-At :
        (cid : String) (payload : KafkaPayload) (w : World r k)
        → At n xs w
        → let (sent, w') = (backends r k self weather).send cid payload w in
          (At n xs w' × ((sent ≡ ok tt) → cid ≢ c))
          ⊎ ((cid ≡ c) × At n (xs ++ payload.payload.sequence_number ∷ []) w')
    send-At cid payload w h =
        let x : KafkaRecord = record { key = cid; value = payload } in
        let appended = records-append x w.producer.topic in
        elim (send-appends k weather.client cid payload w.producer) [
          | inl (same, raised) ↦
              inl (record { expected = h.expected; held = rw same h.held }, λ e. absurd (raised e))
          | inr added ↦ elim (same_or_other cid) [
            | inl own ↦ inr (
              own,
              record {
                expected = h.expected;
                held =
                    rw (added, appended)
                      (rw (stored-append c (records w.producer.topic) x)
                        (rw ((eq_iff cid c).1 own, h.held)));
              },
            )
            | inr other ↦ inl (
              record {
                expected = h.expected;
                held =
                    rw (added, appended)
                      (rw (stored-append c (records w.producer.topic) x)
                        (ground (arith, eq_iff cid c, h.held)));
              },
              λ _. other,
            )
          ]
        ]
