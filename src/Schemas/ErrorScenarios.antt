-- ===== src/Schemas/ErrorScenarios.antt =====
-- schemas/error_scenarios.py: the enum of scenarios, each with its static mapping.
pub mod Template
pub mod Consistency
use transcribe_service.Prelude.{ℕ, String, ◌≡◌, refl, Option, none, some, List, [], ◌∷◌}
use transcribe_service.Prelude.Exec.{Result, ok, err, value_error, key_error}
use transcribe_service.Schemas.ErrorCodes.{
  ErrorCode, e1001, e1002, e1003, e1004, e1005, e1006, e1007, e1008, e1009, e1010, e1011,
  WsCloseCode, invalid_payload, policy_violation, internal_error, try_again_later,
}
use transcribe_service.Schemas.Response.{Response, build_error}
use Template.{Segment, lit, hole, repr_hole, Kwargs, format}

pub record ProtocolErrorSpec : Type 0 where
  pub matrix_id : Option String
  pub error_code : ErrorCode
  pub message : String
  pub details_template : Option (List Segment)
  pub http_status : Option ℕ
  pub ws_close_code : Option WsCloseCode
  pub log_reason : Option String

pub data ProtocolErrorScenario : Type 0 where
  missing_query_conversation_id : ProtocolErrorScenario
  service_draining : ProtocolErrorScenario
  connection_limit_exceeded : ProtocolErrorScenario
  invalid_json : ProtocolErrorScenario
  invalid_enum_value : ProtocolErrorScenario
  missing_required_field : ProtocolErrorScenario
  invalid_field_type : ProtocolErrorScenario
  invalid_timestamp_format : ProtocolErrorScenario
  sequence_out_of_order : ProtocolErrorScenario
  downstream_timeout : ProtocolErrorScenario
  downstream_unavailable : ProtocolErrorScenario
  orchestrator_internal_exception : ProtocolErrorScenario
  transport_internal_exception : ProtocolErrorScenario
  conversation_id_mismatch : ProtocolErrorScenario
  business_rule_violation : ProtocolErrorScenario
  active_sender_conflict : ProtocolErrorScenario
  authentication_failed : ProtocolErrorScenario

-- `scenario.value`
abbrev pub spec : ProtocolErrorScenario → ProtocolErrorSpec
spec missing_query_conversation_id = record {
  matrix_id = some "E-01";
  error_code = e1003;
  message = "Missing required field";
  details_template = some (lit "Query parameter 'conversationId' is required" ∷ []);
  http_status = some 400;
  ws_close_code = none;
  log_reason = some "Transport: Missing conversationId, rejecting connection";
}
spec service_draining = record {
  matrix_id = some "E-02";
  error_code = e1008;
  message = "Service draining";
  details_template = some (lit "Server is shutting down, try again later" ∷ []);
  http_status = some 503;
  ws_close_code = none;
  log_reason = some "Transport: Service is draining, rejecting new connection";
}
spec connection_limit_exceeded = record {
  matrix_id = some "E-03";
  error_code = e1008;
  message = "Too many connections";
  details_template =
      some (lit "Active " ∷ hole "active" ∷ lit " >= limit " ∷ hole "max_connections" ∷ []);
  http_status = some 429;
  ws_close_code = none;
  log_reason = some "Transport: Connection limit reached, rejecting new connection";
}
spec invalid_json = record {
  matrix_id = some "E-04";
  error_code = e1001;
  message = "Invalid JSON";
  details_template = none;
  http_status = none;
  ws_close_code = some invalid_payload;
  log_reason = some "Transport: JSON decode failed";
}
spec invalid_enum_value = record {
  matrix_id = some "E-05";
  error_code = e1002;
  message = "Validation failed";
  details_template = none;
  http_status = none;
  ws_close_code = some policy_violation;
  log_reason = some "Orchestrator: Schema validation failed";
}
spec missing_required_field = record {
  matrix_id = some "E-06";
  error_code = e1003;
  message = "Validation failed";
  details_template = none;
  http_status = none;
  ws_close_code = some policy_violation;
  log_reason = some "Orchestrator: Schema validation failed";
}
spec invalid_field_type = record {
  matrix_id = some "E-07";
  error_code = e1004;
  message = "Validation failed";
  details_template = none;
  http_status = none;
  ws_close_code = some policy_violation;
  log_reason = some "Orchestrator: Schema validation failed";
}
spec invalid_timestamp_format = record {
  matrix_id = some "E-08";
  error_code = e1005;
  message = "Validation failed";
  details_template = none;
  http_status = none;
  ws_close_code = some policy_violation;
  log_reason = some "Orchestrator: Schema validation failed";
}
spec sequence_out_of_order = record {
  matrix_id = some "E-09";
  error_code = e1006;
  message = "Sequence number out of order";
  details_template =
      some (lit "sequenceNumber=" ∷ hole "sequence_number" ∷ lit " is not expected" ∷ []);
  http_status = none;
  ws_close_code = some policy_violation;
  log_reason = some "Orchestrator: Sequence number out of order";
}
spec downstream_timeout = record {
  matrix_id = some "E-10";
  error_code = e1011;
  message = "Downstream timeout";
  details_template = some (lit "Kafka send timed out" ∷ []);
  http_status = none;
  ws_close_code = some try_again_later;
  log_reason = some "Orchestrator: Kafka timed out";
}
spec downstream_unavailable = record {
  matrix_id = some "E-11";
  error_code = e1008;
  message = "Downstream unavailable";
  details_template = none;
  http_status = some 503;
  ws_close_code = some try_again_later;
  log_reason = none;
}
spec orchestrator_internal_exception = record {
  matrix_id = some "E-12";
  error_code = e1007;
  message = "Internal server error";
  details_template = none;
  http_status = none;
  ws_close_code = some internal_error;
  log_reason = some "Orchestrator: Unhandled exception";
}
spec transport_internal_exception = record {
  matrix_id = some "E-13";
  error_code = e1007;
  message = "Internal server error";
  details_template = none;
  http_status = none;
  ws_close_code = some internal_error;
  log_reason = some "Transport: Connection error";
}
spec conversation_id_mismatch = record {
  matrix_id = some "E-14";
  error_code = e1009;
  message = "conversationId mismatch";
  details_template = some (
      lit "metaData.conversationId must match query parameter 'conversationId' ("
      ∷ repr_hole "expected_conversation_id"
      ∷ lit ")"
      ∷ []);
  http_status = none;
  ws_close_code = some policy_violation;
  log_reason = some "Transport: metaData.conversationId does not match the handshake query";
}
spec business_rule_violation = record {
  matrix_id = some "E-15";
  error_code = e1009;
  message = "Validation failed";
  details_template = none;
  http_status = none;
  ws_close_code = some policy_violation;
  log_reason = some "Orchestrator: Schema validation failed";
}
spec active_sender_conflict = record {
  matrix_id = some "E-16";
  error_code = e1009;
  message = "Only one sender connection is allowed";
  details_template =
      some (lit "another connection is already sending messages for this conversation" ∷ []);
  http_status = some 403;
  ws_close_code = some policy_violation;
  log_reason = some "Transport: Conversation already has an active sender";
}
spec authentication_failed = record {
  matrix_id = some "E-17";
  error_code = e1010;
  message = "Authentication failed";
  details_template = none;
  http_status = some 401;
  ws_close_code = none;
  log_reason = some "Transport: Authentication failed during handshake";
}

abbrev format_template : Option (List Segment) → Kwargs → Result (Option String)
format_template none kwargs = ok none
format_template (some template) kwargs = elim (format template kwargs) [
  | ok s ↦ ok (some s)
  | err e ↦ err e
]

-- `scenario.format_details(**kwargs)`; a placeholder with no argument raises `KeyError`.
unfoldable pub format_details : ProtocolErrorScenario → Kwargs → Result (Option String)
unfolding format
format_details scenario kwargs = format_template (spec scenario).details_template kwargs

abbrev details_or_default : ProtocolErrorScenario → Option String → Result (Option String)
details_or_default scenario none = format_details scenario []
details_or_default scenario (some details) = ok (some details)

-- `scenario.build_response(conversation_id, details=details)`, at the clock reading `now`.
unfoldable pub build_response :
    ProtocolErrorScenario → String → Option String → String → Result Response
unfolding format_details build_error
build_response scenario conversation_id details now = elim (details_or_default scenario details) [
  | ok text ↦
      ok (build_error conversation_id (spec scenario).error_code (spec scenario).message text now)
  | err e ↦ err e
]

abbrev require {ℓ} : {A : Type ℓ} → Option A → String → Result A
require none message = err (value_error message)
require (some a) message = ok a

unfoldable pub require_http_status : ProtocolErrorScenario → Result ℕ
require_http_status scenario =
    require (spec scenario).http_status "scenario does not define an HTTP status"

unfoldable pub require_ws_close_code : ProtocolErrorScenario → Result WsCloseCode
require_ws_close_code scenario =
    require (spec scenario).ws_close_code "scenario does not define a WebSocket close code"
