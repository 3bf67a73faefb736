-- ===== src/Tests/Connections.antt =====
-- The theorems on the transport layer and the authentication, for one connection.
use transcribe_service.Prelude.{
  map, Bool, ℕ, suc, String, ◌≡◌, ◌≢◌, refl, inr, true, false, none, some, List, [], ◌∷◌, arith,
  if◌then◌else◌, eq_iff, false≢true,
}
use transcribe_service.Prelude.Text.{append}
use transcribe_service.Prelude.Exec.{Result, ok, err, exception}
use transcribe_service.Auth.Whitespace.{strip}
use transcribe_service.Auth.{
  extract_bearer_token, authenticate, principal, Decoded, expired_signature_error,
}
use transcribe_service.Auth.Bearer.{extract_bearer_token-header}
use transcribe_service.Transport.Registry.{
  ConnectionRegistry, pos, sockets_of, others, add, remove, remove_all, close_all,
}
use transcribe_service.Transport.Registry.Counting.{IsCounted, registry-IsCounted}
use transcribe_service.Transport.Registry.Identity.{IsFresh}
use transcribe_service.Transport.Session.{
  OwnershipGuard, Received, arrives, disconnects, run_ws_message_loop,
}
use transcribe_service.Transport.Session.Exchange.{
  Frame, recorder, handler, Table, IsExchange, run_ws_message_loop-IsExchange,
}
use transcribe_service.Transport.Endpoint.{
  Host, Connection, ws_endpoint, serving, Event, receives, refreshes,
}
use transcribe_service.Transport.Endpoint.Traced.{
  Trace, Call, claim, release, traced_socket, traced_handler, traced_guard, IsGuarded,
}
use transcribe_service.Transport.Endpoint.Ownership.{ws_endpoint-calls}
use transcribe_service.Transport.Endpoint.Cleanup.{ws_endpoint-registry}
use transcribe_service.Transport.Admission.{
  Guards, Moment, Scope, call, ws_path, normalize_ws_path, conversation_id_of,
}
use transcribe_service.Transport.Admission.Order.{
  call-Follows, seen, expected, first_failing, checks, asks_guard, claim_of,
}

-- Two conversations, with three sockets.
abbrev registry : ConnectionRegistry
registry = record { connections = ("c-1", 1 ∷ 2 ∷ []) ∷ ("c-2", 3 ∷ []) ∷ []; active_count = pos 3 }

counting_example :
    IsCounted (add "c-1" 4 registry)
    × IsCounted (remove "c-1" 4 registry)
    × IsCounted (remove_all "c-1" registry)
    × IsCounted (close_all (λ w. true) registry).1
counting_example = registry-IsCounted "c-1" 4 (λ w. true) registry refl

-- Socket 4 comes to a conversation that has two.
socket-IsFresh : IsFresh "c-1" 4 registry
unfolding sockets_of others
socket-IsFresh = inr (1, 2 ∷ [], refl, refl)

abbrev busy : Table
busy raw conversation_id = err (exception "busy")

abbrev texts : List Received
texts =
    arrives (record {
      decoded = err (exception "no JSON");
      repr_conversation_id = "'c-1'";
      server_processing_ms = 1;
      now = "now";
    })
    ∷ disconnects
    ∷ []

loop_example :
    IsExchange busy "c-1" [] texts (run_ws_message_loop recorder (handler busy) "c-1" texts [])
loop_example = run_ws_message_loop-IsExchange busy "c-1" texts []

-- The texts, after an interval of the refresh task.
abbrev events : List Event
events = refreshes "later" ∷ map receives texts

abbrev host : Host (List Frame)
host = record { registry = registry; rest = [] }

abbrev connection : Connection
connection = record {
  conversation_id = "c-1";
  scope = record { auth_subject = none; ownership_token = none; ownership_acquired = false };
  fresh_token = "t";
  socket = 4;
  now = "now";
}

is_over : (ws_endpoint recorder none (handler busy) connection events host).0 ≢ serving
unfolding ws_endpoint
is_over e = absurd (ground arith)

endpoint_example :
    (ws_endpoint recorder none (handler busy) connection events host).1.registry ≡ registry
endpoint_example =
    ws_endpoint-registry recorder none (handler busy) connection events host refl socket-IsFresh
      is_over

-- A guard that is busy, and counts how often it is asked.
abbrev busy_guard : OwnershipGuard ℕ
busy_guard = record {
  claim_or_refresh = λ cid token n. (ok false, suc n);
  release = λ cid token n. (ok tt, n);
}

abbrev guards : Guards ℕ
guards = record { max_connections = 2; auth_backend = none; ownership_guard = some busy_guard }

abbrev moment : Moment
moment = record { draining = false; active_count = pos 1; fresh_token = "t"; now = "now" }

abbrev handshake : Scope
handshake = record {
  is_websocket = true;
  path = "/api/ws/v1/realtime-transcriptions";
  root_path = "/api";
  query = ("conversationId", "c-1" ∷ []) ∷ [];
  headers = [];
}

on_path : normalize_ws_path handshake ≡ ws_path
unfolding normalize_ws_path
on_path = refl

admission_example :
    let claim = claim_of guards.ownership_guard "c-1" "t" 0 in
    (seen (call guards moment handshake 0).0
      ≡ expected (first_failing (checks guards moment handshake claim.0)))
    × ((call guards moment handshake 0).1
        ≡ (if asks_guard guards moment handshake then claim.1 else 0))
unfolding conversation_id_of
admission_example = call-Follows guards moment handshake 0 refl on_path

stripped : strip "abc" ≡ "abc"
unfolding strip
stripped = refl

abbrev abc : String
abc = "abc"

not_empty : abc ≢ ""
not_empty e = false≢true ((eq_iff abc "").1 e)

abbrev expired : String → Decoded
expired token = expired_signature_error

header_example :
    (extract_bearer_token (some (append "Bearer " abc)) ≡ ok abc)
    × (authenticate expired (some (append "Bearer " abc)) ≡ principal (expired abc))
header_example = extract_bearer_token-header expired abc stripped not_empty

read_header : extract_bearer_token (some "  bearer   abc ") ≡ ok abc
unfolding extract_bearer_token
read_header = refl

-- The claims succeed, the text is no JSON, and the release fails.
abbrev traced_host : Host (Trace (List Frame))
traced_host = record { registry = registry; rest = record { inner = []; calls = [] } }

abbrev owned : List Call → Result Bool
owned calls = ok true

abbrev redis_fails : List Call → Result (Unit {0})
redis_fails calls = err (exception "redis")

ownership_example :
    let d =
      ws_endpoint
        (traced_socket recorder)
        (some (traced_guard owned redis_fails))
        (traced_handler (handler busy))
        connection
        events
        traced_host in
    IsGuarded owned connection true events [] d.0 d.1.rest.calls
ownership_example =
    ws_endpoint-calls recorder (handler busy) owned redis_fails connection events traced_host

-- A claim, a refresh and a release.
three_calls :
    (ws_endpoint
      (traced_socket recorder)
      (some (traced_guard owned redis_fails))
      (traced_handler (handler busy))
      connection
      events
      traced_host).1.rest.calls
    ≡ claim "c-1" "t" ∷ claim "c-1" "t" ∷ release "c-1" "t" ∷ []
unfolding ws_endpoint
three_calls = refl
