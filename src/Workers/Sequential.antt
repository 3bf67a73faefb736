-- ===== src/Workers/Sequential.antt =====
-- A task that runs alone is `_process`.
use transcribe_service.Prelude.{ℕ, zero, suc, ◌≡◌, refl, arith, Bool-cases, inl, inr}
use transcribe_service.Prelude.Exec.{Result, ok, err, timeout_error, ◌>>=◌, pure}
use transcribe_service.Json.{is_dict}
use transcribe_service.Converter.{to_kafka_payload}
use transcribe_service.Schemas.Events.{EventType, session_ongoing, session_complete}
use transcribe_service.Redis.Protocols.{
  PrepareOutcome, PrepareResult, pre_check_ok, idempotent, out_of_order,
}
use transcribe_service.Orchestrator.{
  OrchestratorResult, Backends, process_valid, persist, succeed, cleanup_or_warn,
}
use transcribe_service.Orchestrator
use transcribe_service.Workers.{
  Phase, to_prepare, to_cleanup, answered, Job, cid_of, after_prepare, after_send, after_commit,
  work, on_commit, on_verdict,
}

module _ {W : Type 0} (b : Backends W) where
  -- So many calls of a task, with no other task in between.
  abbrev pub work_on : ℕ → Job → Phase × W → Phase × W
  work_on zero j s = s
  work_on (suc n) j (phase, w) = work_on n j (work b j phase w)

  ended :
      (n : ℕ) (j : Job) (r : Result OrchestratorResult) (w : W)
      → work_on n j (answered r, w) ≡ (answered r, w)
  unfolding work
  ended zero j r w = refl
  ended (suc n) j r w = ended n j r w

  abbrev pub returned : Result OrchestratorResult × W → Phase × W
  returned (r, w) = (answered r, w)

  after_cleanup :
      (j : Job) (n : ℕ) (w : W)
      → work_on (suc n) j (to_cleanup, w)
        ≡ returned (
            (do
              _ ← cleanup_or_warn b j.clock (cid_of j) session_complete
              pure (succeed j.msg j.clock.responded_at))
              w)
  unfolding work
  after_cleanup j n w =
      ground (arith, ended n j (ok (succeed j.msg j.clock.responded_at)) (b.cleanup (cid_of j) w).1)

  -- What follows a commit.
  abbrev rest : Job → Unit {0} → W → Result OrchestratorResult × W
  rest j u = do
    _ ← cleanup_or_warn b j.clock (cid_of j) j.msg.meta_data.event_type
    pure (succeed j.msg j.clock.responded_at)

  on_event :
      (j : Job) (n : ℕ) (w : W) (ev : EventType)
      → work_on (suc n) j (on_commit j ev, w)
        ≡ returned (
            (cleanup_or_warn b j.clock (cid_of j) ev >>= λ _.
            pure (succeed j.msg j.clock.responded_at))
              w)
  on_event j n w session_complete = after_cleanup j n w
  on_event j n w session_ongoing = ended (suc n) j (ok (succeed j.msg j.clock.responded_at)) w

  committed :
      (j : Job) (n : ℕ) (w : W) (d : Result (Unit {0}) × W)
      → work_on (suc n) j (after_commit j d.0, d.1) ≡ returned (((λ _. d) >>= rest j) w)
  unfolding after_commit
  committed j n w (ok _, w') = on_event j n w' j.msg.meta_data.event_type
  committed j n w (err e, w') = ended (suc n) j (err e) w'

  sent :
      (j : Job) (n : ℕ) (r : Result (Unit {0})) (w : W)
      → work_on (suc (suc n)) j (after_send j r, w)
        ≡ returned (Orchestrator.after_send b j.clock j.msg r w)
  unfolding work after_send Orchestrator.after_send
  sent j n (ok _) w = committed j n w (b.commit (cid_of j) j.msg.payload.sequence_number w)
  sent j n (err (timeout_error x)) w = ended (suc (suc n)) j _ w
  sent j n (err e) w = ended (suc (suc n)) j _ w

  persisted :
      (j : Job) (n : ℕ) (w : W)
      → work_on (suc (suc (suc n))) j (on_verdict j pre_check_ok, w)
        ≡ returned (persist b j.clock j.raw j.msg w)
  unfolding work persist
  persisted j n w = elim (Bool-cases (is_dict j.raw)) [
    | inl dict ↦ rw dict (
        let d = b.send (cid_of j) (to_kafka_payload j.msg j.raw j.clock.produced_at) w in
        sent j n d.0 d.1)
    | inr e ↦ rw e (ended (suc (suc (suc n))) j _ w)
  ]

  judged :
      (j : Job) (n : ℕ) (p : PrepareResult) (w : W)
      → work_on (suc (suc (suc n))) j (on_verdict j p, w)
        ≡ returned (Orchestrator.after_prepare b j.clock j.raw j.msg p w)
  unfolding Orchestrator.after_prepare
  judged j n pre_check_ok w = persisted j n w
  judged j n idempotent w = ended (suc (suc (suc n))) j _ w
  judged j n out_of_order w = ended (suc (suc (suc n))) j _ w

  prepared :
      (j : Job) (n : ℕ) (w : W) (d : Result PrepareOutcome × W)
      → work_on (suc (suc (suc n))) j (after_prepare j d.0, d.1)
        ≡ returned (((λ _. d) >>= λ o. Orchestrator.after_prepare b j.clock j.raw j.msg o.status) w)
  unfolding after_prepare
  prepared j n w (ok o, w') = judged j n o.status w'
  prepared j n w (err e, w') = ended (suc (suc (suc n))) j (err e) w'

  -- A task of a valid message that is not interrupted ends after at most four calls, with the answer of
  -- `_process` and the state that `_process` leaves, whatever the backends do; more calls change nothing.
  work-process_valid :
      (j : Job) (n : ℕ) (w : W)
      → work_on (suc (suc (suc (suc n)))) j (to_prepare, w)
        ≡ returned (process_valid b j.clock j.raw j.msg w)
  unfolding work process_valid
  work-process_valid j n w = prepared j n w (b.prepare (cid_of j) j.msg.payload.sequence_number w)
