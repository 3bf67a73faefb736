-- ===== src/Transport/Endpoint/Cleanup.antt =====
-- Whatever happens on a connection, once it is over the registry is as it was before.
use transcribe_service.Prelude.{String, ◌≡◌, ◌≢◌, refl, Bool, Option, List, inl, inr, Bool-cases}
use transcribe_service.Prelude.Exec.{Result, ok, err}
use transcribe_service.Transport.Registry.{ConnectionRegistry}
use transcribe_service.Transport.Registry
use transcribe_service.Transport.Registry.Counting.{IsCounted}
use transcribe_service.Transport.Registry.Identity.{IsFresh, remove-add}
use transcribe_service.Transport.Session.{
  WebSocket, OwnershipGuard, Handler, LoopEnd, waiting, returned, disconnected, failed,
}
use transcribe_service.Transport.Endpoint.{
  Host, Connection, Life, serving, finish, serve, accepted, ws_endpoint, may_register, claimed,
  claim_if_needed, token_of, Event, run_beside, starts_refresh,
}

module _ {W : Type 0} (ws : WebSocket W) (owner : Option (OwnershipGuard W)) (c : Connection) where
  -- The registry that a connection leaves to the others.
  abbrev Leaves : ConnectionRegistry → Life × Host W → Type 0
  Leaves r (life, h) = life ≢ serving → h.registry ≡ r

  finish-Leaves :
      (token : String) (acquired : Bool) (ended : LoopEnd) (r : ConnectionRegistry) (w : W)
      → IsCounted r
      → IsFresh c.conversation_id c.socket r
      → Leaves r (
          finish ws owner c token acquired ended
            (record { registry = Registry.add c.conversation_id c.socket r; rest = w }))
  unfolding finish
  finish-Leaves token acquired waiting r w counted fresh = λ n. absurd (n refl)
  finish-Leaves token acquired returned r w counted fresh =
      λ _. remove-add c.conversation_id c.socket r counted fresh
  finish-Leaves token acquired disconnected r w counted fresh =
      λ _. remove-add c.conversation_id c.socket r counted fresh
  finish-Leaves token acquired (failed e) r w counted fresh =
      λ _. remove-add c.conversation_id c.socket r counted fresh

  module _ (handler : Handler W) (events : List Event) where
    serve-Leaves :
        (token : String) (acquired : Bool) (h : Host W)
        → IsCounted h.registry
        → IsFresh c.conversation_id c.socket h.registry
        → Leaves h.registry (serve ws owner handler c token acquired events h)
    unfolding serve
    serve-Leaves token acquired h counted fresh =
        let d =
          run_beside ws owner handler c.conversation_id token (starts_refresh owner acquired) events
            h.rest in
        finish-Leaves token acquired d.0 h.registry d.1 counted fresh

    accepted-Leaves :
        (h : Host W)
        → IsCounted h.registry
        → IsFresh c.conversation_id c.socket h.registry
        → Leaves h.registry (accepted ws owner handler c events h)
    unfolding accepted
    accepted-Leaves h counted fresh =
        let token = token_of c.scope.ownership_token c.fresh_token in
        let d =
          claim_if_needed ws owner c.conversation_id token c.scope.ownership_acquired c.now
            h.rest in
        elim (Bool-cases (may_register owner (claimed d.0))) [
          | inl e ↦ rw e (serve-Leaves token (claimed d.0) (record h { rest = d.1 }) counted fresh)
          | inr e ↦ rw e (λ _. refl)
        ]

    by_accept :
        (h : Host W) (d : Result (Unit {0}))
        → (ws.accept h.rest).0 ≡ d
        → IsCounted h.registry
        → IsFresh c.conversation_id c.socket h.registry
        → Leaves h.registry (ws_endpoint ws owner handler c events h)
    unfolding ws_endpoint
    by_accept h (ok u) e counted fresh =
        rw (e, ws_endpoint)
          (accepted-Leaves (record h { rest = (ws.accept h.rest).1 }) counted fresh)
    by_accept h (err x) e counted fresh = rw (e, ws_endpoint) (λ _. refl)

-- If the registry is counted, and the socket is new to the conversation, whose list is not empty
-- if there is one, then at the end of the connection, unless it is still served, the registry is
-- what it was before: after a failed accept, a refused claim, a message that closes, a disconnect,
-- or an exception.
pub ws_endpoint-registry :
    {W : Type 0} (ws : WebSocket W) (owner : Option (OwnershipGuard W)) (handler : Handler W)
    (c : Connection) (events : List Event) (h : Host W)
    → IsCounted h.registry
    → IsFresh c.conversation_id c.socket h.registry
    → (ws_endpoint ws owner handler c events h).0 ≢ serving
    → (ws_endpoint ws owner handler c events h).1.registry ≡ h.registry
ws_endpoint-registry ws owner handler c events h counted fresh over =
    by_accept ws owner c handler events h (ws.accept h.rest).0 refl counted fresh over
