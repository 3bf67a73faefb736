-- ===== src/Workers/Knows.antt =====
-- What the phase of a task knows of the numbers that are delivered.
use transcribe_service.Prelude.{
  ℕ, ◌+◌, ◌<◌, String, ◌≡◌, refl, inl, inr, true, false, ◌||◌, Option, none, some, List, [], ◌∷◌,
  ◌++◌, arith, eqb, ◌∙◌, Bool-cases, sym, false≢true,
}
use transcribe_service.Prelude.Exec.{Result, ok, err, timeout_error, str}
use transcribe_service.Prelude.Text
use transcribe_service.Json.{is_dict}
use transcribe_service.Schemas.Events.{EventType, session_ongoing, session_complete}
use transcribe_service.Schemas.ErrorScenarios.{
  ProtocolErrorScenario, downstream_timeout, downstream_unavailable, format_details,
  sequence_out_of_order,
}
use transcribe_service.Redis.Protocols.{
  PrepareOutcome, PrepareResult, pre_check_ok, idempotent, out_of_order,
}
use transcribe_service.Redis.SequenceStateMachine.Scripts.{verdict}
use transcribe_service.Orchestrator.{
  OrchestratorResult, succeed, fail_with, fail_with_details, sequence_kwargs, max_error_message_len,
}
use transcribe_service.Orchestrator.Phases.{acknowledged, not_acknowledged}
use transcribe_service.Pipeline.Delivered.{mem}
use transcribe_service.Workers.{
  Phase, to_prepare, to_send, to_commit, to_cleanup, answered, Job, cid_of, after_prepare,
  after_send, after_commit, on_commit, on_verdict,
}

abbrev pub seq_of : Job → ℕ
seq_of j = j.msg.payload.sequence_number

-- All numbers below `n` are delivered.
abbrev pub AllBelow : ℕ → List ℕ → Type 0
AllBelow n xs = (m : ℕ) → m < n → mem m xs ≡ true

abbrev pub Grows : List ℕ → List ℕ → Type 0
Grows xs ys = (m : ℕ) → mem m xs ≡ true → mem m ys ≡ true

mem-append : (m : ℕ) (xs : List ℕ) (x : ℕ) → mem m (xs ++ x ∷ []) ≡ (mem m xs || eqb x m)
mem-append m [] x = ground arith
mem-append m (y ∷ xs) x = ground (arith, mem-append m xs x)

pub Grows-append : (xs : List ℕ) (x : ℕ) → Grows xs (xs ++ x ∷ [])
Grows-append xs x m h = ground (arith, mem-append m xs x)

pub AllBelow-append : (n : ℕ) (xs : List ℕ) → AllBelow n xs → AllBelow (n + 1) (xs ++ n ∷ [])
AllBelow-append n xs h m lt = ground (arith, mem-append m xs n, h m)

details_refused :
    (cid : String) (details : Result (Option String)) (now : String)
    → acknowledged (fail_with_details sequence_out_of_order cid details now) ≡ false
details_refused cid (ok details) now = not_acknowledged sequence_out_of_order cid details now
details_refused cid (err e) now = refl

module _ (c : String) where
  -- What a task's phase knows of the conversation `c`, of which the topic holds the numbers `xs`.
  abbrev pub Knows : Job → List ℕ → Phase → Type 0
  Knows j xs to_prepare = Unit
  Knows j xs to_send = cid_of j ≡ c → AllBelow (seq_of j) xs
  Knows j xs to_commit = cid_of j ≡ c → AllBelow (seq_of j + 1) xs
  Knows j xs to_cleanup = cid_of j ≡ c → AllBelow (seq_of j + 1) xs
  Knows j xs (answered r) = acknowledged r ≡ true → cid_of j ≡ c → mem (seq_of j) xs ≡ true

  pub Knows-Grows :
      (j : Job) (xs ys : List ℕ) (phase : Phase) → Grows xs ys → Knows j xs phase → Knows j ys phase
  Knows-Grows j xs ys to_prepare g h = tt
  Knows-Grows j xs ys to_send g h = λ own m lt. g m (h own m lt)
  Knows-Grows j xs ys to_commit g h = λ own m lt. g m (h own m lt)
  Knows-Grows j xs ys to_cleanup g h = λ own m lt. g m (h own m lt)
  Knows-Grows j xs ys (answered r) g h = λ acked own. g (seq_of j) (h acked own)

  refused :
      (j : Job) (xs : List ℕ) (r : Result OrchestratorResult)
      → acknowledged r ≡ false
      → Knows j xs (answered r)
  refused j xs r e acked own = absurd (false≢true (sym e ∙ acked))

  failed :
      (j : Job) (xs : List ℕ) (scenario : ProtocolErrorScenario) (details : Option String)
      → Knows j xs (answered (fail_with scenario (cid_of j) details j.clock.responded_at))
  failed j xs scenario details =
      refused j xs (fail_with scenario (cid_of j) details j.clock.responded_at)
        (not_acknowledged scenario (cid_of j) details j.clock.responded_at)

  pub acked-Knows :
      (j : Job) (xs : List ℕ)
      → (cid_of j ≡ c → AllBelow (seq_of j + 1) xs)
      → Knows j xs (answered (ok (succeed j.msg j.clock.responded_at)))
  acked-Knows j xs h acked own = h own (seq_of j) (omega arith)

  on_verdict-Knows :
      (j : Job) (n : ℕ) (xs : List ℕ) (p : PrepareResult)
      → AllBelow n xs
      → (cid_of j ≡ c → p ≡ verdict n (seq_of j))
      → Knows j xs (on_verdict j p)
  on_verdict-Knows j n xs pre_check_ok h v = elim (Bool-cases (is_dict j.raw)) [
    | inl dict ↦ rw dict (λ own m lt. h m (let e = v own in ground arith))
    | inr e ↦ rw e (λ acked own. absurd (false≢true acked))
  ]
  on_verdict-Knows j n xs idempotent h v = λ acked own. h (seq_of j) (let e = v own in ground arith)
  on_verdict-Knows j n xs out_of_order h v = refused j xs _ (
      details_refused (cid_of j)
        (format_details sequence_out_of_order (sequence_kwargs j.msg.payload.sequence_number))
        j.clock.responded_at)

  pub after_prepare-Knows :
      (j : Job) (n : ℕ) (xs : List ℕ) (d : Result PrepareOutcome)
      → AllBelow n xs
      → ((o : PrepareOutcome) → d ≡ ok o → cid_of j ≡ c → o.status ≡ verdict n (seq_of j))
      → Knows j xs (after_prepare j d)
  unfolding after_prepare
  after_prepare-Knows j n xs (ok o) h v = on_verdict-Knows j n xs o.status h (v o refl)
  after_prepare-Knows j n xs (err e) h v = λ acked own. absurd (false≢true acked)

  pub after_send-Knows :
      (j : Job) (xs : List ℕ) (d : Result (Unit {0}))
      → (d ≡ ok tt → cid_of j ≡ c → AllBelow (seq_of j + 1) xs)
      → Knows j xs (after_send j d)
  unfolding after_send
  after_send-Knows j xs (ok _) h = h refl
  after_send-Knows j xs (err (timeout_error x)) h = failed j xs downstream_timeout none
  after_send-Knows j xs (err e) h =
      failed j xs downstream_unavailable (some (Text.take max_error_message_len (str e)))

  on_commit-Knows :
      (j : Job) (xs : List ℕ) (ev : EventType)
      → (cid_of j ≡ c → AllBelow (seq_of j + 1) xs)
      → Knows j xs (on_commit j ev)
  on_commit-Knows j xs session_complete h = h
  on_commit-Knows j xs session_ongoing h = acked-Knows j xs h

  pub after_commit-Knows :
      (j : Job) (xs : List ℕ) (d : Result (Unit {0}))
      → (cid_of j ≡ c → AllBelow (seq_of j + 1) xs)
      → Knows j xs (after_commit j d)
  unfolding after_commit
  after_commit-Knows j xs (ok _) h = on_commit-Knows j xs j.msg.meta_data.event_type h
  after_commit-Knows j xs (err e) h = λ acked own. absurd (false≢true acked)
