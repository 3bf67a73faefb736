-- ===== src/Workers/Moves.antt =====
-- What one call of a task does to one conversation, and what its next phase knows.
use transcribe_service.Prelude.{
  ℕ, ◌+◌, String, ◌≡◌, ◌≢◌, ◌⊎◌, inl, inr, List, [], ◌∷◌, ◌++◌, ◌∙◌, ap, sym,
}
use transcribe_service.Prelude.Exec.{Result, ok}
use transcribe_service.Redis.Server.{Redis}
use transcribe_service.Redis.SequenceStateMachine.{Config}
use transcribe_service.Converter.{to_kafka_payload}
use transcribe_service.Producer.{Kafka}
use transcribe_service.Orchestrator.{Backends}
use transcribe_service.Pipeline.{Weather, World, backends}
use transcribe_service.Pipeline.Effects.{
  IsPositive, At, prepare-At, prepare-verdict, commit-At, cleanup-At, send-At,
}
use transcribe_service.Workers.Knows.{
  seq_of, AllBelow, Grows, Grows-append, AllBelow-append, Knows, acked-Knows, after_prepare-Knows,
  after_send-Knows, after_commit-Knows,
}
use transcribe_service.Workers.{
  Phase, to_prepare, to_send, to_commit, to_cleanup, answered, Job, cid_of, after_send,
  after_commit, work,
}

module _ (r : Redis) (k : Kafka) (self : Config) (pos : IsPositive self) (c : String) where
  -- After a call: every number below the expected one is delivered, deliveries stay, and the task's
  -- next phase knows what it needs.
  pub record Moved (j : Job) (xs : List ℕ) (done : Phase × World r k) : Type 0 where
    pub expected : ℕ
    pub numbers : List ℕ
    pub at : At r k self c expected numbers done.1
    pub below : AllBelow expected numbers
    pub grows : Grows xs numbers
    pub knows : Knows c j numbers done.0

  module _ (weather : Weather) (j : Job) (n : ℕ) (xs : List ℕ) (w : World r k)
      (h : At r k self c n xs w) (below : AllBelow n xs) where
    abbrev b : Backends (World r k)
    b = backends r k self weather

    stays :
        (phase : Phase) (w' : World r k)
        → At r k self c n xs w'
        → Knows c j xs phase
        → Moved j xs (phase, w')
    stays phase w' a knows = record {
      expected = n;
      numbers = xs;
      at = a;
      below = below;
      grows = λ m e. e;
      knows = knows;
    }

    prepare-Moved : Moved j xs (work b j to_prepare w)
    unfolding work
    prepare-Moved = stays _ _ (prepare-At r k self c pos weather (cid_of j) (seq_of j) w h) (
        after_prepare-Knows c j n xs (b.prepare (cid_of j) (seq_of j) w).0 below (λ o e own.
          prepare-verdict r k self c pos weather (seq_of j) w o h
            (ap (λ x. (b.prepare x (seq_of j) w).0) (sym own) ∙ e)))

    -- A record of another conversation changes nothing here; one of this conversation adds its number.
    send_cases :
        (d : Result (Unit {0}) × World r k)
        → Knows c j xs to_send
        → (At r k self c n xs d.1 × (d.0 ≡ ok tt → cid_of j ≢ c))
          ⊎ ((cid_of j ≡ c) × At r k self c n (xs ++ seq_of j ∷ []) d.1)
        → Moved j xs (after_send j d.0, d.1)
    send_cases (d, w') known (inl (a, lost)) =
        stays _ w' a (after_send-Knows c j xs d (λ e own. absurd (lost e own)))
    send_cases (d, w') known (inr (own, a)) = record {
      expected = n;
      numbers = xs ++ seq_of j ∷ [];
      at = a;
      below = λ m lt. Grows-append xs (seq_of j) m (below m lt);
      grows = Grows-append xs (seq_of j);
      knows =
          after_send-Knows c j (xs ++ seq_of j ∷ []) d
            (λ _ same. AllBelow-append (seq_of j) xs (known same));
    }

    send-Moved : Knows c j xs to_send → Moved j xs (work b j to_send w)
    unfolding work to_kafka_payload
    send-Moved known =
        send_cases (b.send (cid_of j) (to_kafka_payload j.msg j.raw j.clock.produced_at) w) known (
          send-At r k self c pos weather (cid_of j)
            (to_kafka_payload j.msg j.raw j.clock.produced_at) w h)

    -- A commit of this conversation sets the expected number after a number that is delivered.
    commit_cases :
        (d : Result (Unit {0}) × World r k)
        → Knows c j xs to_commit
        → (At r k self c n xs d.1 × (d.0 ≡ ok tt → cid_of j ≢ c))
          ⊎ ((cid_of j ≡ c) × At r k self c (seq_of j + 1) xs d.1)
        → Moved j xs (after_commit j d.0, d.1)
    commit_cases (d, w') known (inl (a, lost)) = stays _ w' a (after_commit-Knows c j xs d known)
    commit_cases (d, w') known (inr (own, a)) = record {
      expected = seq_of j + 1;
      numbers = xs;
      at = a;
      below = known own;
      grows = λ m e. e;
      knows = after_commit-Knows c j xs d known;
    }

    commit-Moved : Knows c j xs to_commit → Moved j xs (work b j to_commit w)
    unfolding work
    commit-Moved known =
        commit_cases (b.commit (cid_of j) (seq_of j) w) known
          (commit-At r k self c pos weather (cid_of j) (seq_of j) w h)

    cleanup-Moved : Knows c j xs to_cleanup → Moved j xs (work b j to_cleanup w)
    unfolding work
    cleanup-Moved known =
        stays _ _ (cleanup-At r k self c pos weather (cid_of j) w h) (acked-Knows c j xs known)

    pub work-Moved : (phase : Phase) → Knows c j xs phase → Moved j xs (work b j phase w)
    unfolding work
    work-Moved to_prepare known = prepare-Moved
    work-Moved to_send known = send-Moved known
    work-Moved to_commit known = commit-Moved known
    work-Moved to_cleanup known = cleanup-Moved known
    work-Moved (answered res) known = stays (answered res) w h known
