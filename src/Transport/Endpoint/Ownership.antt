-- ===== src/Transport/Endpoint/Ownership.antt =====
-- The endpoint's claims and releases, the refresh task's included, on any socket and with any
-- orchestrator.
use transcribe_service.Prelude.{
  String, ◌≡◌, refl, Bool, true, false, not, ◌&&◌, ◌||◌, some, List, [], ◌∷◌, ◌++◌, append-nil, sym,
  ◌∙◌, subst, if◌then◌else◌,
}
use transcribe_service.Prelude.Exec.{Result, ok, err}
use transcribe_service.Transport.Registry.{ConnectionRegistry}
use transcribe_service.Transport.Session.{
  WebSocket, Handler, LoopEnd, waiting, returned, disconnected, failed,
}
use transcribe_service.Transport.Endpoint.{
  Host, Connection, Life, turned_away, release_ownership_guard, claim_if_needed, finish, serve,
  accepted, ws_endpoint, claimed, Event,
}
use transcribe_service.Transport.Endpoint.Traced.{
  Call, claim, release, Trace, is_ok, is_serving, traced_socket, traced_handler, traced_guard,
  intervals, Refreshed, IsGuarded,
}
use transcribe_service.Transport.Endpoint.Refreshing
use transcribe_service.Transport.Registry

module _ {S : Type 0} (ws : WebSocket S) (handle_message : Handler S)
    (answers : List Call → Result Bool) (released : List Call → Result (Unit {0}))
    (c : Connection) where
  abbrev socket : WebSocket (Trace S)
  socket = Refreshing.socket ws handle_message answers released c

  abbrev token : String
  token = Refreshing.token ws handle_message answers released c

  abbrev own_claim : Call
  own_claim = claim c.conversation_id token

  abbrev release_if : Bool → List Call
  release_if b = if b then release c.conversation_id token ∷ [] else []

  abbrev claim_if : Bool → List Call
  claim_if b = if b then own_claim ∷ [] else []

  -- The rounds after the calls `before`, if there are some, and the release if the conversation is held.
  abbrev Shape : Bool → Bool → List Call → List Event → Life × Host (Trace S) → Type 0
  Shape refreshing held before events (life, h) =
      (after : List Call) × Refreshed answers own_claim refreshing (is_serving life)
        (intervals events) before after
      × (h.rest.calls ≡ after ++ release_if (held && not (is_serving life)))

  finish-Shape :
      (events : List Event) (before : List Call) (registry : ConnectionRegistry)
      (d : LoopEnd × Trace S)
      → Refreshing.HasRun ws handle_message answers released c events before d
      → Shape true true before events (
          finish socket
            (some (traced_guard answers released))
            c
            token
            true
            d.0
            (record { registry = registry; rest = d.1 }))
  unfolding finish
  finish-Shape events before registry (waiting, t) ran = (t.calls, ran, sym (append-nil t.calls))
  finish-Shape events before registry (returned, t) ran = (
    t.calls,
    ran,
    Refreshing.release-Made ws handle_message answers released c t.calls _
        (Refreshing.after_loop-Made ws handle_message answers released c returned t.calls t refl),
  )
  finish-Shape events before registry (disconnected, t) ran = (
    t.calls,
    ran,
    Refreshing.release-Made ws handle_message answers released c t.calls _ (
        Refreshing.after_loop-Made ws handle_message answers released c disconnected t.calls t
          refl),
  )
  finish-Shape events before registry (failed e, t) ran = (
    t.calls,
    ran,
    Refreshing.release-Made ws handle_message answers released c t.calls _
        (Refreshing.after_loop-Made ws handle_message answers released c (failed e) t.calls t refl),
  )

  -- A connection that holds the conversation.
  serve-Shape :
      (events : List Event) (h : Host (Trace S))
      → Shape true true h.rest.calls events (
          serve socket
            (some (traced_guard answers released))
            (traced_handler handle_message)
            c
            token
            true
            events
            h)
  unfolding serve
  serve-Shape events h =
      finish-Shape events h.rest.calls (Registry.add c.conversation_id c.socket h.registry)
        (Refreshing.beside ws handle_message answers released c true events h.rest)
        (Refreshing.run-HasRun ws handle_message answers released c events h.rest)

  -- The part of `accepted` after the claim.
  abbrev after_claiming :
      List Event → Host (Trace S) → Result Bool × Trace S → Life × Host (Trace S)
  after_claiming events h d =
      if claimed d.0
      then serve socket (some (traced_guard answers released)) (traced_handler handle_message) c
          token (claimed d.0) events (record h { rest = d.1 })
      else (turned_away, record h { rest = d.1 })

  after_claiming-Shape :
      (events : List Event) (before : List Call) (h : Host (Trace S)) (d : Result Bool × Trace S)
      → d.1.calls ≡ before
      → Shape (claimed d.0) (claimed d.0) before events (after_claiming events h d)
  after_claiming-Shape events before h (ok true, t) k =
      subst (λ cs. Shape true true cs events (after_claiming events h (ok true, t))) k
        (serve-Shape events (record h { rest = t }))
  after_claiming-Shape events before h (ok false, t) k = (before, refl, k ∙ sym (append-nil before))
  after_claiming-Shape events before h (err e, t) k = (before, refl, k ∙ sym (append-nil before))

  claim_if_needed-Made :
      (acquired : Bool) (t : Trace S)
      → let d =
          claim_if_needed socket
            (some (traced_guard answers released))
            c.conversation_id
            token
            acquired
            c.now
            t in
        (claimed d.0 ≡ (acquired || claimed (answers t.calls)))
        × (d.1.calls ≡ t.calls ++ claim_if (not acquired))
  unfolding claim_if_needed
  claim_if_needed-Made true t = (refl, sym (append-nil t.calls))
  claim_if_needed-Made false t = Refreshing.claim-Made ws handle_message answers released c c.now t

  accepted-IsGuarded :
      (events : List Event) (h : Host (Trace S))
      → let d =
          accepted socket
            (some (traced_guard answers released))
            (traced_handler handle_message)
            c
            events
            h in
        IsGuarded answers c true events h.rest.calls d.0 d.1.rest.calls
  unfolding accepted
  accepted-IsGuarded events h =
      let acquired = c.scope.ownership_acquired in
      let d =
        claim_if_needed socket (some (traced_guard answers released)) c.conversation_id token
          acquired c.now h.rest in
      let made = claim_if_needed-Made acquired h.rest in
      let before = h.rest.calls ++ claim_if (not acquired) in
      subst (λ held. Shape held held before events (after_claiming events h d)) made.0
        (after_claiming-Shape events before h d made.1)

  -- After a failed accept only a claim of the middleware is released.
  turned_away-Made :
      (acquired : Bool) (cs : List Call) (t : Trace S)
      → t.calls ≡ cs
      → (release_ownership_guard
          (some (traced_guard answers released))
          c.conversation_id
          token
          acquired
          t).1.calls
        ≡ cs ++ release_if ((acquired || false) && true)
  unfolding release_ownership_guard
  turned_away-Made true cs t k = Refreshing.release-Made ws handle_message answers released c cs t k
  turned_away-Made false cs t k = k ∙ sym (append-nil cs)

  by_accept :
      (events : List Event) (h : Host (Trace S)) (r : Result (Unit {0}))
      → (ws.accept h.rest.inner).0 ≡ r
      → let d =
          ws_endpoint socket
            (some (traced_guard answers released))
            (traced_handler handle_message)
            c
            events
            h in
        IsGuarded answers c (is_ok r) events h.rest.calls d.0 d.1.rest.calls
  unfolding ws_endpoint
  by_accept events h (ok u) e =
      rw (e, ws_endpoint)
        (accepted-IsGuarded events
          (record h { rest = record h.rest { inner = (ws.accept h.rest.inner).1 } }))
  by_accept events h (err x) e =
      rw (e, ws_endpoint)
        (
          h.rest.calls ++ [],
          refl,
          turned_away-Made c.scope.ownership_acquired (h.rest.calls ++ [])
              (record h.rest { inner = (ws.accept h.rest.inner).1 })
              (sym (append-nil h.rest.calls)),
        )

-- On any socket, with any orchestrator and a guard whose answers may depend on all calls before, and with
-- intervals of the refresh task that are over while the message loop waits for a text, the endpoint makes
-- these calls of the guard and no others, all with one token: a claim exactly if the socket was accepted and
-- the middleware had not claimed; then, if the socket was accepted and the conversation is held by either
-- claim, the claims of the refresh task, at most one for each interval that is over, none after one
-- that was not answered "owned", and exactly one for each interval as long as the connection is served and
-- the task runs; and a release, last, exactly if the conversation was held and the connection is over.
pub ws_endpoint-calls :
    {S : Type 0} (ws : WebSocket S) (handle_message : Handler S) (answers : List Call → Result Bool)
    (released : List Call → Result (Unit {0})) (c : Connection) (events : List Event)
    (h : Host (Trace S))
    → let d =
        ws_endpoint
          (traced_socket ws)
          (some (traced_guard answers released))
          (traced_handler handle_message)
          c
          events
          h in
      IsGuarded answers c (is_ok (ws.accept h.rest.inner).0) events h.rest.calls d.0 d.1.rest.calls
ws_endpoint-calls ws handle_message answers released c events h =
    by_accept ws handle_message answers released c events h (ws.accept h.rest.inner).0 refl
