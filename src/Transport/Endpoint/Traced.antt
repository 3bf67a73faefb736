-- ===== src/Transport/Endpoint/Traced.antt =====
-- A socket and an orchestrator beside a guard whose calls are kept.
use transcribe_service.Prelude.{
  ℕ, suc, ◌≤◌, ◌≡◌, String, Bool, true, false, not, ◌&&◌, ◌||◌, List, [], ◌∷◌, ◌++◌, if◌then◌else◌,
}
use transcribe_service.Prelude.Exec.{Result, ok, err, Exec}
use transcribe_service.Transport.Session.{WebSocket, OwnershipGuard, Handler}
use transcribe_service.Transport.Endpoint.{
  Connection, Life, serving, token_of, claimed, Event, receives, refreshes,
}

pub data Call : Type 0 where
  claim release : String → String → Call

-- What the socket and the orchestrator change, and the calls of the guard.
pub record Trace (S : Type 0) : Type 0 where
  pub inner : S
  pub calls : List Call

abbrev pub is_ok : {A : Type 0} → Result A → Bool
is_ok (ok a) = true
is_ok (err e) = false

abbrev pub is_serving : Life → Bool
is_serving serving = true
is_serving life = false

module _ {S : Type 0} where
  abbrev pub on_inner : {A : Type 0} → Exec S A → Exec (Trace S) A
  on_inner m t = let (r, s) = m t.inner in (r, record t { inner = s })

  abbrev pub traced_socket : WebSocket S → WebSocket (Trace S)
  traced_socket ws = record {
    accept = on_inner ws.accept;
    is_connected = λ t. ws.is_connected t.inner;
    send_text = λ r. on_inner (ws.send_text r);
    close = λ code. on_inner (ws.close code);
  }

  abbrev pub traced_handler : Handler S → Handler (Trace S)
  traced_handler handle_message raw cid = on_inner (handle_message raw cid)

  -- A guard whose answers depend on the calls before.
  abbrev pub traced_guard :
      (List Call → Result Bool) → (List Call → Result (Unit {0})) → OwnershipGuard (Trace S)
  traced_guard answers released = record {
    claim_or_refresh =
        λ cid token t. (answers t.calls, record t { calls = t.calls ++ claim cid token ∷ [] });
    release =
        λ cid token t. (released t.calls, record t { calls = t.calls ++ release cid token ∷ [] });
  }

-- How many intervals of the refresh task are over.
abbrev pub intervals : List Event → ℕ
intervals [] = 0
intervals (receives x ∷ events) = intervals events
intervals (refreshes now ∷ events) = suc (intervals events)

-- Rounds of the refresh task, from the calls before to the calls after: so many claims, each after the first
-- only if the one before it was answered "owned"; and whether the task still runs.
pub data Rounds (answers : List Call → Result Bool) (call : Call)
    : Bool → ℕ → List Call → List Call → Type 0 where
  no_more : (cs : List Call) → Rounds answers call true 0 cs cs
  owned :
      {runs : Bool} {n : ℕ} (cs : List Call) {cs' : List Call}
      → claimed (answers cs) ≡ true
      → Rounds answers call runs n (cs ++ call ∷ []) cs'
      → Rounds answers call runs (suc n) cs cs'
  refused :
      (cs : List Call)
      → claimed (answers cs) ≡ false
      → Rounds answers call false 1 cs (cs ++ call ∷ [])

-- While the connection is served and the task runs, it has made a claim for every interval.
abbrev pub InStep : Bool → Bool → ℕ → ℕ → Type 0
InStep true true n k = n ≡ k
InStep is_served runs n k = n ≤ k

-- A refresh task makes its rounds; where there is none, no call is made.
abbrev pub Refreshed :
    (List Call → Result Bool) → Call → Bool → Bool → ℕ → List Call → List Call → Type 0
Refreshed answers call true is_served k cs cs' =
    (runs : Bool) × ((n : ℕ) × Rounds answers call runs n cs cs' × InStep is_served runs n k)
Refreshed answers call false is_served k cs cs' = cs' ≡ cs

-- The calls of a connection, after those of `past`: a claim if the socket was accepted and the middleware
-- had not claimed; the rounds of the refresh task if the socket was accepted and the conversation is
-- held, by either claim; and a release if it is held and the connection is over.
abbrev pub IsGuarded :
    (List Call → Result Bool)
    → Connection
    → Bool
    → List Event
    → List Call
    → Life
    → List Call
    → Type 0
IsGuarded answers c was_accepted events past life calls =
    let cid = c.conversation_id in
    let token = token_of c.scope.ownership_token c.fresh_token in
    let acquired = c.scope.ownership_acquired in
    let held = acquired || (was_accepted && claimed (answers past)) in
    let before = past ++ (if was_accepted && not acquired then claim cid token ∷ [] else []) in
    (after : List Call) × Refreshed answers (claim cid token) (was_accepted && held)
      (is_serving life) (intervals events) before after
    × (calls ≡ after ++ (if held && not (is_serving life) then release cid token ∷ [] else []))
