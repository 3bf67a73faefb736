-- ===== src/Schemas/ErrorScenarios/Consistency.antt =====
-- The table of scenarios against the mapping of error codes, and when a response can be built.
use transcribe_service.Prelude.{String, ◌≡◌, Bool, true, false, not, none, some, arith}
use transcribe_service.Prelude.Exec.{Result, ok, err}
use transcribe_service.Schemas.ErrorCodes.{WsCloseCode, close_code_for_error}
use transcribe_service.Schemas.ErrorScenarios.{
  ProtocolErrorScenario, connection_limit_exceeded, sequence_out_of_order, conversation_id_mismatch,
  spec, build_response, require_ws_close_code,
}

-- Each scenario that closes a socket closes it with the code that the mapping of error codes gives
-- for its error code.
require_ws_close_code-eq :
    (scenario : ProtocolErrorScenario) (code : WsCloseCode)
    → require_ws_close_code scenario ≡ ok code
    → close_code_for_error (spec scenario).error_code ≡ code
unfolding require_ws_close_code close_code_for_error
require_ws_close_code-eq scenario code h = ground arith

-- The scenarios whose template has a placeholder.
abbrev takes_arguments : ProtocolErrorScenario → Bool
takes_arguments connection_limit_exceeded = true
takes_arguments sequence_out_of_order = true
takes_arguments conversation_id_mismatch = true
takes_arguments scenario = false

abbrev is_ok {ℓ} : {A : Type ℓ} → Result A → Bool
is_ok (ok a) = true
is_ok (err e) = false

-- A response can always be built from given details, and from the template alone exactly where the
-- template has no placeholder.
build_response-is_ok :
    (scenario : ProtocolErrorScenario) (cid details now : String)
    → (is_ok (build_response scenario cid (some details) now) ≡ true)
      × (is_ok (build_response scenario cid none now) ≡ not (takes_arguments scenario))
unfolding build_response
build_response-is_ok scenario cid details now = ground arith
