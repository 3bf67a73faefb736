-- ===== src/Transport/Endpoint.antt =====
-- `ws_endpoint` of transport/session.py: the life of one connection, from the accept to the clean-up,
-- with the refresh task beside the message loop. A round of the task runs while the loop waits for a text.
pub mod Cleanup
pub mod Traced
pub mod Refreshing
pub mod Ownership
use transcribe_service.Prelude.{
  ℕ, String, Bool, true, false, Option, none, some, List, [], ◌∷◌, if◌then◌else◌,
}
use transcribe_service.Prelude.Exec.{Exn, Result, ok, err, Exec, catch, pure, ◌>>=◌, ◌>>◌}
use transcribe_service.Schemas.ErrorScenarios.{transport_internal_exception}
use transcribe_service.Transport.Registry.{ConnectionRegistry}
use transcribe_service.Transport.Registry
use transcribe_service.Transport.Session.{
  WebSocket, OwnershipGuard, Handler, Received, LoopEnd, waiting, returned, disconnected, failed,
  send_error_and_close, claim_runtime_ownership_or_close, run_ws_message_loop,
  ownership_refresh_loop,
}

-- What happens to a connection while its message loop waits: the wait for a text ends, or the interval of
-- the refresh task is over, with a clock reading for its error answer.
pub data Event : Type 0 where
  receives : Received → Event
  refreshes : String → Event

-- What the handshake middleware leaves in the ASGI scope.
pub record ScopeState : Type 0 where
  pub auth_subject : Option String
  pub ownership_token : Option String
  pub ownership_acquired : Bool

-- The registry, and whatever else the calls of the endpoint change.
pub record Host (W : Type 0) : Type 0 where
  pub registry : ConnectionRegistry
  pub rest : W

-- The request of one connection: its query parameter, what the middleware left, a fresh token in case
-- there is none, the identity of its socket, and a clock reading for its error answers.
pub record Connection : Type 0 where
  pub conversation_id : String
  pub scope : ScopeState
  pub fresh_token : String
  pub socket : ℕ
  pub now : String

abbrev pub token_of : Option String → String → String
token_of none fresh_token = fresh_token
token_of (some token) fresh_token = token

-- How far a connection came: it was never registered, its loop still waits, or it was cleaned up.
pub data Life : Type 0 where
  turned_away serving finished : Life

abbrev pub claimed : Result Bool → Bool
claimed (ok b) = b
claimed (err e) = false

module _ {W : Type 0} where
  unfoldable pub release_ownership_guard :
      Option (OwnershipGuard W) → String → String → Bool → Exec W (Unit {0})
  release_ownership_guard none conversation_id ownership_token acquired = pure tt
  release_ownership_guard (some guard) conversation_id ownership_token false = pure tt
  release_ownership_guard (some guard) conversation_id ownership_token true =
      catch (guard.release conversation_id ownership_token) (λ e. pure tt)

  -- The claim of an endpoint that the middleware did not claim for. Without a guard there is none.
  unfoldable pub claim_if_needed :
      WebSocket W → Option (OwnershipGuard W) → String → String → Bool → String → Exec W Bool
  unfolding claim_runtime_ownership_or_close
  claim_if_needed ws none conversation_id token acquired now = pure acquired
  claim_if_needed ws (some guard) conversation_id token true now = pure true
  claim_if_needed ws (some guard) conversation_id token false now =
      claim_runtime_ownership_or_close ws guard conversation_id token now

  -- Is the connection registered? Not if there is a guard and the claim failed.
  abbrev pub may_register : Option (OwnershipGuard W) → Bool → Bool
  may_register none acquired = true
  may_register (some guard) acquired = acquired

  -- `except WebSocketDisconnect` and `except Exception`
  unfoldable pub after_loop : WebSocket W → String → String → LoopEnd → W → W
  unfolding send_error_and_close
  after_loop ws conversation_id now (failed e) w =
      (send_error_and_close ws conversation_id transport_internal_exception none now w).1
  after_loop ws conversation_id now _ w = w

  -- `finally`, unless the loop still waits. The refresh task is cancelled: it makes no more calls.
  unfoldable pub finish :
      WebSocket W
      → Option (OwnershipGuard W)
      → Connection
      → String
      → Bool
      → LoopEnd
      → Host W
      → Life × Host W
  unfolding after_loop release_ownership_guard Registry.remove
  finish ws owner c token acquired waiting h = (serving, h)
  finish ws owner c token acquired ended h = (
    finished,
    record {
      registry = Registry.remove c.conversation_id c.socket h.registry;
      rest =
          (release_ownership_guard owner c.conversation_id token acquired
            (after_loop ws c.conversation_id c.now ended h.rest)).1;
    },
  )

  -- The interval of the refresh task is over: one round of it, if it runs, and whether it goes on.
  unfoldable pub refresh_round :
      WebSocket W → Option (OwnershipGuard W) → String → String → Bool → String → W → Bool × W
  unfolding ownership_refresh_loop
  refresh_round ws (some guard) conversation_id token true now w =
      let (goes_on, w') = ownership_refresh_loop ws guard conversation_id token (now ∷ []) w in
      (claimed goes_on, w')
  refresh_round ws owner conversation_id token running now w = (false, w)

  -- The message loop, and the refresh task beside it as long as the loop goes on.
  unfoldable pub run_beside :
      WebSocket W
      → Option (OwnershipGuard W)
      → Handler W
      → String
      → String
      → Bool
      → List Event
      → W
      → LoopEnd × W
  unfolding refresh_round run_ws_message_loop
  run_beside ws owner handler conversation_id token running [] w = (waiting, w)
  run_beside ws owner handler conversation_id token running (receives x ∷ events) w =
      let (ended, w') = run_ws_message_loop ws handler conversation_id (x ∷ []) w in
      elim ended [
        | waiting ↦ run_beside ws owner handler conversation_id token running events w'
        | returned ↦ (returned, w')
        | disconnected ↦ (disconnected, w')
        | failed e ↦ (failed e, w')
      ]
  run_beside ws owner handler conversation_id token running (refreshes now ∷ events) w =
      let (running', w') = refresh_round ws owner conversation_id token running now w in
      run_beside ws owner handler conversation_id token running' events w'

  -- `owner is not None and ownership_acquired`
  abbrev pub starts_refresh : Option (OwnershipGuard W) → Bool → Bool
  starts_refresh none acquired = false
  starts_refresh (some guard) acquired = acquired

  unfoldable pub serve :
      WebSocket W
      → Option (OwnershipGuard W)
      → Handler W
      → Connection
      → String
      → Bool
      → List Event
      → Host W
      → Life × Host W
  unfolding finish run_beside Registry.add
  serve ws owner handler c token acquired events h =
      let (ended, w) =
        run_beside ws owner handler c.conversation_id token (starts_refresh owner acquired) events
          h.rest in
      finish ws owner c token acquired ended
        (record { registry = Registry.add c.conversation_id c.socket h.registry; rest = w })

  -- What follows a successful accept.
  unfoldable pub accepted :
      WebSocket W
      → Option (OwnershipGuard W)
      → Handler W
      → Connection
      → List Event
      → Host W
      → Life × Host W
  unfolding claim_if_needed serve
  accepted ws owner handler c events h =
      let token = token_of c.scope.ownership_token c.fresh_token in
      let (owned, w) =
        claim_if_needed ws owner c.conversation_id token c.scope.ownership_acquired c.now h.rest in
      if may_register owner (claimed owned)
      then serve ws owner handler c token (claimed owned) events (record h { rest = w })
      else (turned_away, record h { rest = w })

  unfoldable pub ws_endpoint :
      WebSocket W
      → Option (OwnershipGuard W)
      → Handler W
      → Connection
      → List Event
      → Host W
      → Life × Host W
  unfolding accepted release_ownership_guard
  ws_endpoint ws owner handler c events h =
      let (done, w) = ws.accept h.rest in
      elim done [
        | ok u ↦ accepted ws owner handler c events (record h { rest = w })
        | err e ↦ (
          turned_away,
          record h {
            rest =
                (release_ownership_guard owner c.conversation_id
                  (token_of c.scope.ownership_token c.fresh_token) c.scope.ownership_acquired w).1;
          },
        )
      ]
