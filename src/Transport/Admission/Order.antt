-- ===== src/Transport/Admission/Order.antt =====
-- The order of the admission checks.
use transcribe_service.Prelude.{
  ℕ, String, ◌≡◌, refl, inl, inr, Bool, true, false, not, ◌||◌, Option, none, some, List, [], ◌∷◌,
  ◌==◌, if◌then◌else◌, Bool-cases, eq_iff,
}
use transcribe_service.Prelude.Exec.{Result, ok, err, Exec}
use transcribe_service.Schemas.ErrorCodes.{ErrorCode}
use transcribe_service.Schemas.Response.{ack, error}
use transcribe_service.Schemas.ErrorScenarios.{
  ProtocolErrorScenario, missing_query_conversation_id, authentication_failed, service_draining,
  connection_limit_exceeded, downstream_unavailable, active_sender_conflict, spec,
}
use transcribe_service.Auth.{Decoded, authenticate}
use transcribe_service.Auth.Bearer.{authenticate-cases}
use transcribe_service.Transport.Session.{OwnershipGuard}
use transcribe_service.Transport.Admission.{
  Scope, Outcome, forwarded, denied, Guards, Moment, over_limit, ws_path, normalize_ws_path,
  conversation_id_of, extract_header, after_claim, check_ownership, check_capacity, check_auth,
  call,
}

-- What the client sees of an outcome.
pub data Seen : Type 0 where
  passed broken : Seen
  refused : ℕ → ErrorCode → Seen

abbrev pub seen : Result Outcome → Seen
seen (ok (forwarded scope)) = passed
seen (ok (denied status (error meta detail))) = refused status detail.code
seen (ok (denied status (ack meta payload))) = broken
seen (err e) = broken

-- The entry of the table for the handshake.
abbrev refused_as : Option ℕ → ErrorCode → Seen
refused_as none code = broken
refused_as (some status) code = refused status code

abbrev pub expected : Option ProtocolErrorScenario → Seen
expected none = passed
expected (some scenario) = refused_as (spec scenario).http_status (spec scenario).error_code

-- A check that fails, with the scenario that it is answered by.
abbrev Check : Type 0
Check = Bool × ProtocolErrorScenario

abbrev pub first_failing : List Check → Option ProtocolErrorScenario
first_failing [] = none
first_failing ((fails, scenario) ∷ rest) = if fails then some scenario else first_failing rest

abbrev fails_by : {A : Type 0} → Result A → Bool
fails_by (ok a) = false
fails_by (err e) = true

abbrev pub auth_fails : Option (String → Decoded) → List (String × String) → Bool
auth_fails none headers = false
auth_fails (some decode) headers =
    fails_by (authenticate decode (extract_header "authorization" headers))

abbrev refuses : Result Bool → Bool
refuses (ok owned) = not owned
refuses (err e) = false

-- What the guard answers to a claim, and the state after it. Without a guard the claim is granted.
abbrev pub claim_of : {W : Type 0} → Option (OwnershipGuard W) → String → String → Exec W Bool
claim_of none cid token w = (ok true, w)
claim_of (some guard) cid token w = guard.claim_or_refresh cid token w

abbrev claim_checks : Result Bool → List Check
claim_checks claimed =
    (fails_by claimed, downstream_unavailable) ∷ (refuses claimed, active_sender_conflict) ∷ []

module _ {W : Type 0} (g : Guards W) (m : Moment) where
  abbrev capacity_checks : Result Bool → List Check
  capacity_checks claimed =
      (m.draining, service_draining)
      ∷ (over_limit g.max_connections m.active_count, connection_limit_exceeded)
      ∷ claim_checks claimed

  -- The documented order: conversationId, authentication, draining, connection limit, ownership.
  abbrev pub checks : Scope → Result Bool → List Check
  checks scope claimed =
      (conversation_id_of scope.query == "", missing_query_conversation_id)
      ∷ (auth_fails g.auth_backend scope.headers, authentication_failed)
      ∷ capacity_checks claimed

  -- Is the guard asked?
  abbrev pub asks_guard : Scope → Bool
  asks_guard scope = not (
      conversation_id_of scope.query == ""
      || auth_fails g.auth_backend scope.headers
      || m.draining
      || over_limit g.max_connections m.active_count)

  -- An outcome as the checks say, with the state that the claim left if it was made.
  abbrev Follows : List Check → Bool → W → W → Result Outcome × W → Type 0
  Follows cs claimed w after d =
      (seen d.0 ≡ expected (first_failing cs)) × (d.1 ≡ (if claimed then after else w))

  module _ (cid : String) (w : W) where
    abbrev claim : Option (OwnershipGuard W) → Result Bool × W
    claim owner = claim_of owner cid m.fresh_token w

    after_claim-seen :
        (subject : Option String) (claimed : Result Bool)
        → seen (after_claim g m cid subject claimed)
          ≡ expected (first_failing (claim_checks claimed))
    unfolding after_claim
    after_claim-seen subject (ok true) = refl
    after_claim-seen subject (ok false) = refl
    after_claim-seen subject (err e) = refl

    check_ownership-Follows :
        (subject : Option String) (owner : Option (OwnershipGuard W))
        → Follows
            (claim_checks (claim owner).0)
            true
            w
            (claim owner).1
            (check_ownership g m cid subject owner w)
    unfolding check_ownership
    check_ownership-Follows subject none = (refl, refl)
    check_ownership-Follows subject (some guard) = (after_claim-seen subject _, refl)

    check_capacity-Follows :
        (subject : Option String)
        → Follows
            (capacity_checks (claim g.ownership_guard).0)
            (not (m.draining || over_limit g.max_connections m.active_count))
            w
            (claim g.ownership_guard).1
            (check_capacity g m cid subject w)
    unfolding check_capacity
    check_capacity-Follows subject = elim (Bool-cases m.draining) [
      | inl e ↦ rw e (refl, refl)
      | inr e ↦ rw e (elim (Bool-cases (over_limit g.max_connections m.active_count)) [
        | inl f ↦ rw f (refl, refl)
        | inr f ↦ rw f (check_ownership-Follows subject g.ownership_guard)
      ])
    ]

module _ {W : Type 0} (g : Guards W) (m : Moment) where
  check_auth-Follows :
      (scope : Scope) (cid : String) (w : W) (backend : Option (String → Decoded))
      → Follows g m
          ((auth_fails backend scope.headers, authentication_failed)
            ∷ capacity_checks g m (claim g m cid w g.ownership_guard).0)
          (not (
            auth_fails backend scope.headers
            || m.draining
            || over_limit g.max_connections m.active_count))
          w
          (claim g m cid w g.ownership_guard).1
          (check_auth g m cid scope.headers backend w)
  unfolding check_auth
  check_auth-Follows scope cid w none = check_capacity-Follows g m cid w none
  check_auth-Follows scope cid w (some decode) =
      elim (authenticate-cases decode (extract_header "authorization" scope.headers)) [
        | inl (p, e) ↦ rw e (check_capacity-Follows g m cid w p.subject)
        | inr (details, e) ↦ rw e (refl, refl)
      ]

-- For a WebSocket request to the service's path, the request is passed on exactly if none of the checks
-- fails; else it is denied with the HTTP status and the error code of the first that fails, in the order
-- conversationId, authentication, draining, connection limit, ownership guard. No exception escapes,
-- and the guard is asked, with the request's conversation id and the fresh token, exactly if the first
-- four checks pass.
pub call-Follows :
    {W : Type 0} (g : Guards W) (m : Moment) (scope : Scope) (w : W)
    → scope.is_websocket ≡ true
    → normalize_ws_path scope ≡ ws_path
    → let claim = claim_of g.ownership_guard (conversation_id_of scope.query) m.fresh_token w in
      (seen (call g m scope w).0 ≡ expected (first_failing (checks g m scope claim.0)))
      × ((call g m scope w).1 ≡ (if asks_guard g m scope then claim.1 else w))
unfolding call
call-Follows g m scope w socket path =
    let cid = conversation_id_of scope.query in
    rw (socket, (eq_iff (normalize_ws_path scope) ws_path).1 path)
      (elim (Bool-cases (cid == "")) [
        | inl e ↦ rw e (refl, refl)
        | inr e ↦ rw e (check_auth-Follows g m scope cid w g.auth_backend)
      ])
