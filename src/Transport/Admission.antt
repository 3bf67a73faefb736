-- ===== src/Transport/Admission.antt =====
-- The handshake middleware of transport/app.py: `_WsGuardMiddleware` and the denial that it sends. The
-- registry's count, the drain flag, the token and the clock reading of a request are arguments.
pub mod Order
use Prim.Native.Char.{Char, code}
use Prim.Native.String
use transcribe_service.Prelude.{
  ℕ, ◌+◌, String, Bool, true, false, not, ◌&&◌, ◌||◌, Option, none, some, List, [], ◌∷◌, ◌==◌, eqb,
  leb, ltb, if◌then◌else◌,
}
use transcribe_service.Prelude.Exec.{
  Exn, authentication_error, Result, ok, err, Exec, lift, pure, ◌>>=◌, ◌>>◌,
}
use transcribe_service.Prelude.Text.{starts_with, decimal}
use transcribe_service.Schemas.Response.{Response}
use transcribe_service.Schemas.ErrorScenarios.{
  ProtocolErrorScenario, missing_query_conversation_id, authentication_failed, service_draining,
  connection_limit_exceeded, downstream_unavailable, active_sender_conflict, build_response,
  require_http_status, format_details,
}
use transcribe_service.Schemas.ErrorScenarios.Template.{Kwargs}
use transcribe_service.Auth.{AuthPrincipal, Decoded, authenticate, lower_is}
use transcribe_service.Transport.Registry.{ℤ, pos, negsuc, at_least}
use transcribe_service.Transport.Session.{OwnershipGuard}
use transcribe_service.Transport.Endpoint.{ScopeState}

-- The parts of the ASGI scope that the middleware reads. `query` is what `parse_qs` makes of the query
-- string; names and values of headers are their bytes, read as latin-1.
pub record Scope : Type 0 where
  pub is_websocket : Bool
  pub path : String
  pub root_path : String
  pub query : List (String × List String)
  pub headers : List (String × String)

abbrev pub ws_path : String
ws_path = "/ws/v1/realtime-transcriptions"

-- `path[len(root_path):]`, for a path that starts with it
unfoldable pub after_prefix : String → String → String
after_prefix String.[] path = path
after_prefix (String.◌∷◌ d root) String.[] = ""
after_prefix (String.◌∷◌ d root) (String.◌∷◌ c path) = after_prefix root path

abbrev or_root : String → String
or_root path = if path == "" then "/" else path

unfoldable pub normalize_ws_path : Scope → String
unfolding starts_with after_prefix
normalize_ws_path scope =
    if not (scope.root_path == "") && starts_with scope.path scope.root_path
    then or_root (after_prefix scope.root_path scope.path)
    else scope.path

abbrev first_value : List String → String
first_value [] = ""
first_value (v ∷ vs) = v

unfoldable pub conversation_id_of : List (String × List String) → String
conversation_id_of [] = ""
conversation_id_of ((name, values) ∷ rest) =
    if name == "conversationId" then first_value values else conversation_id_of rest

-- `_extract_header(scope, name)`, for a name in lower case
unfoldable pub extract_header : String → List (String × String) → Option String
unfolding lower_is
extract_header name [] = none
extract_header name ((raw_name, raw_value) ∷ rest) =
    if lower_is raw_name name then some raw_value else extract_header name rest

-- What the middleware does with the request: it passes it on, with what it left in the scope, or
-- answers with a status and a JSON body.
pub data Outcome : Type 0 where
  forwarded : ScopeState → Outcome
  denied : ℕ → Response → Outcome

abbrev denied_with : Result ℕ → Result Response → Result Outcome
denied_with (ok status) (ok body) = ok (denied status body)
denied_with (ok status) (err e) = err e
denied_with (err e) body = err e

-- `_reject`
unfoldable pub reject : ProtocolErrorScenario → String → Option String → String → Result Outcome
unfolding require_http_status build_response
reject scenario conversation_id details now =
    denied_with (require_http_status scenario) (build_response scenario conversation_id details now)

abbrev shown : ℤ → String
shown (pos n) = decimal n
shown (negsuc n) = String.◌++◌ "-" (decimal (n + 1))

abbrev limit_kwargs : ℤ → ℕ → Kwargs
limit_kwargs active max_connections =
    ("active", record { as_str = shown active; as_repr = shown active })
    ∷ (
      "max_connections",
      record { as_str = decimal max_connections; as_repr = decimal max_connections },
    )
    ∷ []

-- The middleware's settings and backends; an absent backend is off.
pub record Guards (W : Type 0) : Type 0 where
  pub max_connections : ℕ
  pub auth_backend : Option (String → Decoded)
  pub ownership_guard : Option (OwnershipGuard W)

-- What else one call reads: the drain flag, the count, a fresh token, a clock reading.
pub record Moment : Type 0 where
  pub draining : Bool
  pub active_count : ℤ
  pub fresh_token : String
  pub now : String

-- `max_connections > 0 and active_count >= max_connections`
abbrev pub over_limit : ℕ → ℤ → Bool
over_limit max_connections active = ltb 0 max_connections && at_least active max_connections

abbrev reject_with :
    ProtocolErrorScenario → String → Result (Option String) → String → Result Outcome
reject_with scenario conversation_id (ok details) now = reject scenario conversation_id details now
reject_with scenario conversation_id (err e) now = err e

module _ {W : Type 0} (g : Guards W) (m : Moment) (cid : String) where
  -- By how the claim ended.
  unfoldable pub after_claim : Option String → Result Bool → Result Outcome
  unfolding reject
  after_claim subject (ok true) = ok (
      forwarded (record {
        auth_subject = subject;
        ownership_token = some m.fresh_token;
        ownership_acquired = true;
      }))
  after_claim subject (ok false) = reject active_sender_conflict cid none m.now
  after_claim subject (err e) =
      reject downstream_unavailable cid (some "Conversation ownership guard store unavailable")
        m.now

  unfoldable pub check_ownership : Option String → Option (OwnershipGuard W) → Exec W Outcome
  unfolding after_claim
  check_ownership subject none w = (
    ok (
        forwarded
          (record { auth_subject = subject; ownership_token = none; ownership_acquired = false })),
    w,
  )
  check_ownership subject (some guard) w =
      let (owned, w') = guard.claim_or_refresh cid m.fresh_token w in
      (after_claim subject owned, w')

  unfoldable pub check_capacity : Option String → Exec W Outcome
  unfolding check_ownership reject format_details
  check_capacity subject =
      if m.draining
      then lift (reject service_draining cid none m.now)
      else if over_limit g.max_connections m.active_count
      then lift (
          reject_with connection_limit_exceeded cid
            (format_details connection_limit_exceeded
              (limit_kwargs m.active_count g.max_connections))
            m.now)
      else check_ownership subject g.ownership_guard

  -- Only `AuthenticationError` is caught.
  unfoldable pub after_auth : Result AuthPrincipal → Exec W Outcome
  unfolding check_capacity reject
  after_auth (ok principal) = check_capacity principal.subject
  after_auth (err (authentication_error details)) =
      lift (reject authentication_failed cid (some details) m.now)
  after_auth (err e) = lift (err e)

  unfoldable pub check_auth : List (String × String) → Option (String → Decoded) → Exec W Outcome
  unfolding after_auth check_capacity extract_header authenticate
  check_auth headers none = check_capacity none
  check_auth headers (some decode) =
      after_auth (authenticate decode (extract_header "authorization" headers))

abbrev untouched : Outcome
untouched =
    forwarded (record { auth_subject = none; ownership_token = none; ownership_acquired = false })

-- `__call__`
unfoldable pub call : {W : Type 0} → Guards W → Moment → Scope → Exec W Outcome
unfolding check_auth reject normalize_ws_path conversation_id_of
call g m scope =
    if not scope.is_websocket || not (normalize_ws_path scope == ws_path)
    then pure untouched
    else (let cid = conversation_id_of scope.query in
        if cid == ""
        then lift (reject missing_query_conversation_id "" none m.now)
        else check_auth g m cid scope.headers g.auth_backend)
