-- ===== src/Transport/Endpoint/Refreshing.antt =====
-- The calls of the refresh task beside a message loop, on any socket and with any orchestrator.
use transcribe_service.Prelude.{
  ℕ, suc, arith, subst, Option, String, ◌≡◌, refl, Bool, true, false, none, some, List, [], ◌∷◌,
  ◌++◌, sym, ◌∙◌, ap, if◌then◌else◌,
}
use transcribe_service.Prelude.Exec.{Result, ok, err, Exec, pure, ◌>>=◌}
use transcribe_service.Prelude.Exec.Keeps.{tail-keeps, catch-keeps}
use transcribe_service.Schemas.ErrorScenarios.{
  ProtocolErrorScenario, transport_internal_exception, active_sender_conflict,
  downstream_unavailable,
}
use transcribe_service.Transport.Session.{
  WebSocket, OwnershipGuard, Handler, Received, LoopEnd, waiting, returned, disconnected, failed,
  run_ws_message_loop, close_for_active_sender_conflict, close_for_ownership_guard_unavailable,
  after_claim, claim_runtime_ownership_or_close, ownership_refresh_loop, send_error_and_close,
}
use transcribe_service.Transport.Session.Keeps.{
  send_error_and_close-keeps, run_ws_message_loop-keeps,
}
use transcribe_service.Transport.Endpoint.{
  Connection, release_ownership_guard, after_loop, token_of, claimed, Event, receives, refreshes,
  refresh_round, run_beside,
}
use transcribe_service.Transport.Endpoint.Traced.{
  Call, claim, release, Trace, traced_socket, traced_handler, traced_guard, Rounds, no_more, owned,
  refused, InStep, intervals, Refreshed,
}

module _ {S : Type 0} (ws : WebSocket S) (handle_message : Handler S)
    (answers : List Call → Result Bool) (released : List Call → Result (Unit {0}))
    (c : Connection) where
  abbrev pub socket : WebSocket (Trace S)
  socket = traced_socket ws

  abbrev pub guard : OwnershipGuard (Trace S)
  guard = traced_guard answers released

  abbrev pub token : String
  token = token_of c.scope.ownership_token c.fresh_token

  abbrev pub own_claim : Call
  own_claim = claim c.conversation_id token

  abbrev pub release_if : Bool → List Call
  release_if b = if b then release c.conversation_id token ∷ [] else []

  abbrev pub claim_if : Bool → List Call
  claim_if b = if b then own_claim ∷ [] else []

  -- These calls have been made.
  abbrev pub Made : List Call → Trace S → Type 0
  Made cs t = t.calls ≡ cs

  error-Made :
      (scenario : ProtocolErrorScenario) (details : Option String) (now : String) (cs : List Call)
      (t : Trace S)
      → Made cs t
      → Made cs (send_error_and_close socket c.conversation_id scenario details now t).1
  error-Made scenario details now cs t k =
      send_error_and_close-keeps socket (traced_handler handle_message) (Made cs) (λ r w h. h)
        (λ code w h. h) (λ raw cid w h. h) c.conversation_id scenario details now t k

  pub release-Made :
      (cs : List Call) (t : Trace S)
      → Made cs t
      → Made
          (cs ++ release_if true)
          (release_ownership_guard (some guard) c.conversation_id token true t).1
  unfolding release_ownership_guard
  release-Made cs t h =
      catch-keeps (Made (cs ++ release_if true)) (guard.release c.conversation_id token t)
        (λ e. ok tt) t (ap (λ xs. xs ++ release_if true) h)

  pub after_loop-Made :
      (ended : LoopEnd) (cs : List Call) (t : Trace S)
      → Made cs t
      → Made cs (after_loop socket c.conversation_id c.now ended t)
  unfolding after_loop
  after_loop-Made (failed e) cs t h = error-Made transport_internal_exception none c.now cs t h
  after_loop-Made _ cs t h = h

  loop-Made :
      (received : List Received) (t : Trace S)
      → Made t.calls
          (run_ws_message_loop socket
            (traced_handler handle_message)
            c.conversation_id
            received
            t).1
  loop-Made received t =
      run_ws_message_loop-keeps socket (traced_handler handle_message) (Made t.calls) (λ r w k. k)
        (λ code w k. k) (λ raw cid w k. k) c.conversation_id received t refl

  -- A claim that failed is followed by a close, and by `False`.
  close-Made :
      (m : Exec (Trace S) (Unit {0})) (cs : List Call) (t : Trace S)
      → Made cs (m t).1
      → (claimed ((m >>= λ _. pure false) t).0 ≡ false) × Made cs ((m >>= λ _. pure false) t).1
  close-Made m cs t k =
      (refused_result (m t), tail-keeps (Made cs) (m t) (λ _. pure false) t k (λ _. k))
    where
      refused_result :
          (d : Result (Unit {0}) × Trace S) → claimed (((λ _. d) >>= λ _. pure false) t).0 ≡ false
      refused_result (ok u, t') = refl
      refused_result (err e, t') = refl

  after_claim-Made :
      (answer : Result Bool) (now : String) (cs : List Call) (t : Trace S)
      → Made cs t
      → let d = after_claim socket c.conversation_id now answer t in
        (claimed d.0 ≡ claimed answer) × Made cs d.1
  unfolding after_claim close_for_active_sender_conflict close_for_ownership_guard_unavailable
  after_claim-Made (ok true) now cs t k = (refl, k)
  after_claim-Made (ok false) now cs t k =
      close-Made (close_for_active_sender_conflict socket c.conversation_id now) cs t
        (error-Made active_sender_conflict none now cs t k)
  after_claim-Made (err e) now cs t k =
      close-Made (close_for_ownership_guard_unavailable socket c.conversation_id now) cs t (
        error-Made downstream_unavailable (some "Conversation ownership guard store unavailable")
          now cs t k)

  -- The claim of the endpoint, or of a round.
  pub claim-Made :
      (now : String) (t : Trace S)
      → let d = claim_runtime_ownership_or_close socket guard c.conversation_id token now t in
        (claimed d.0 ≡ claimed (answers t.calls)) × Made (t.calls ++ own_claim ∷ []) d.1
  unfolding claim_runtime_ownership_or_close
  claim-Made now t =
      after_claim-Made (answers t.calls) now (t.calls ++ own_claim ∷ [])
        (record t { calls = t.calls ++ own_claim ∷ [] }) refl

  -- After the claim of a round the task goes on exactly if it was answered "owned".
  goes_on-Made :
      (d : Result Bool × Trace S) (cs : List Call) (t : Trace S)
      → Made cs d.1
      → let out = ((λ _. d) >>= λ b. if b then pure true else pure false) t in
        (claimed out.0 ≡ claimed d.0) × Made cs out.1
  goes_on-Made (ok true, t') cs t k = (refl, k)
  goes_on-Made (ok false, t') cs t k = (refl, k)
  goes_on-Made (err e, t') cs t k = (refl, k)

  round-Made :
      (now : String) (t : Trace S)
      → let d = refresh_round socket (some guard) c.conversation_id token true now t in
        (d.0 ≡ claimed (answers t.calls)) × Made (t.calls ++ own_claim ∷ []) d.1
  unfolding refresh_round ownership_refresh_loop
  round-Made now t =
      let d = claim_runtime_ownership_or_close socket guard c.conversation_id token now t in
      let made = claim-Made now t in
      let out = goes_on-Made d (t.calls ++ own_claim ∷ []) t made.1 in (out.0 ∙ made.0, out.1)

  abbrev pub beside : Bool → List Event → Trace S → LoopEnd × Trace S
  beside runs events t =
      run_beside socket (some guard) (traced_handler handle_message) c.conversation_id token runs
        events t

  abbrev pub is_waiting : LoopEnd → Bool
  is_waiting waiting = true
  is_waiting ended = false

  abbrev go_on : Bool → List Event → LoopEnd × Trace S → LoopEnd × Trace S
  go_on runs events d = elim d.0 [
    | waiting ↦ beside runs events d.1
    | returned ↦ (returned, d.1)
    | disconnected ↦ (disconnected, d.1)
    | failed e ↦ (failed e, d.1)
  ]

  -- A task that has ended makes no more calls.
  idle-go_on :
      (events : List Event) (cs : List Call) (d : LoopEnd × Trace S)
      → ((t : Trace S) → Made cs t → Made cs (beside false events t).1)
      → Made cs d.1
      → Made cs (go_on false events d).1
  idle-go_on events cs (waiting, t) ih k = ih t k
  idle-go_on events cs (returned, t) ih k = k
  idle-go_on events cs (disconnected, t) ih k = k
  idle-go_on events cs (failed e, t) ih k = k

  idle-Made :
      (events : List Event) (cs : List Call) (t : Trace S)
      → Made cs t
      → Made cs (beside false events t).1
  unfolding run_beside refresh_round
  idle-Made [] cs t k = k
  idle-Made (receives x ∷ events) cs t k =
      idle-go_on events cs
        (run_ws_message_loop socket (traced_handler handle_message) c.conversation_id (x ∷ []) t)
        (idle-Made events cs) (loop-Made (x ∷ []) t ∙ k)
  idle-Made (refreshes now ∷ events) cs t k = idle-Made events cs t k

  -- What the task has done by the end of these events.
  abbrev pub HasRun : List Event → List Call → LoopEnd × Trace S → Type 0
  HasRun events cs (ended, t) =
      Refreshed answers own_claim true (is_waiting ended) (intervals events) cs t.calls

  none_run :
      (events : List Event) (ended : LoopEnd) (cs : List Call) (t : Trace S)
      → Made cs t
      → is_waiting ended ≡ false
      → HasRun events cs (ended, t)
  none_run events ended cs t k over = (
    true,
    (
      0,
      subst (λ xs. Rounds answers own_claim true 0 cs xs) (sym k) (no_more cs),
      rw over (omega arith),
    ),
  )

  run-go_on :
      (events : List Event) (cs : List Call) (d : LoopEnd × Trace S)
      → ((t : Trace S) → HasRun events t.calls (beside true events t))
      → Made cs d.1
      → HasRun events cs (go_on true events d)
  run-go_on events cs (waiting, t) ih k =
      subst (λ xs. HasRun events xs (beside true events t)) k (ih t)
  run-go_on events cs (returned, t) ih k = none_run events returned cs t k refl
  run-go_on events cs (disconnected, t) ih k = none_run events disconnected cs t k refl
  run-go_on events cs (failed e, t) ih k = none_run events (failed e) cs t k refl

  InStep-suc : (w runs : Bool) (n k : ℕ) → InStep w runs n k → InStep w runs (suc n) (suc k)
  InStep-suc true true n k h = ap suc h
  InStep-suc true false n k h = omega (arith, h)
  InStep-suc false runs n k h = omega (arith, h)

  InStep-one : (w : Bool) (k : ℕ) → InStep w false 1 (suc k)
  InStep-one true k = omega arith
  InStep-one false k = omega arith

  -- After a round, by whether the task goes on.
  run-round :
      (events : List Event) (now : String) (cs : List Call) (runs : Bool) (t : Trace S)
      → ((u : Trace S) → HasRun events u.calls (beside true events u))
      → runs ≡ claimed (answers cs)
      → Made (cs ++ own_claim ∷ []) t
      → HasRun (refreshes now ∷ events) cs (beside runs events t)
  run-round events now cs true t ih e k =
      let (runs, (n, rounds, step)) =
        subst (λ xs. HasRun events xs (beside true events t)) k (ih t) in
      (runs, (suc n, owned cs (sym e) rounds, InStep-suc _ runs n (intervals events) step))
  run-round events now cs false t ih e k = (
    false,
    (
      1,
      subst (λ xs. Rounds answers own_claim false 1 cs xs)
          (sym (idle-Made events (cs ++ own_claim ∷ []) t k)) (refused cs (sym e)),
      InStep-one _ (intervals events),
    ),
  )

  pub run-HasRun :
      (events : List Event) (t : Trace S) → HasRun events t.calls (beside true events t)
  unfolding run_beside
  run-HasRun [] t = (true, (0, no_more t.calls, refl))
  run-HasRun (receives x ∷ events) t =
      run-go_on events t.calls
        (run_ws_message_loop socket (traced_handler handle_message) c.conversation_id (x ∷ []) t)
        (run-HasRun events) (loop-Made (x ∷ []) t)
  run-HasRun (refreshes now ∷ events) t =
      let d = refresh_round socket (some guard) c.conversation_id token true now t in
      let made = round-Made now t in
      run-round events now t.calls d.0 d.1 (run-HasRun events) made.0 made.1
