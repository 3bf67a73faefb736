-- ===== src/Schemas/Response.antt =====
-- schemas/response.py: the builders return dicts of these shapes. `createdAtTimeStamp` is the clock
-- reading that the caller passes in.
use transcribe_service.Prelude.{ℕ, String, Option, none}
use transcribe_service.Schemas.Events.{ResponseEventType, transcript_ack, eol_ack}
use transcribe_service.Schemas.Events
use transcribe_service.Schemas.ErrorCodes.{ErrorCode}

pub record AckMetaData : Type 0 where
  pub conversation_id : String
  pub event_type : ResponseEventType

-- `serverProcessingMs` is rounded to hundredths of a millisecond, and counted in them.
pub record AckPayload : Type 0 where
  pub sequence_number : ℕ
  pub created_at_time_stamp : String
  pub server_processing_ms : Option ℕ

pub record ErrorMetaData : Type 0 where
  pub conversation_id : String
  pub event_type : ResponseEventType

pub record ErrorDetail : Type 0 where
  pub code : ErrorCode
  pub message : String
  pub details : Option String
  pub created_at_time_stamp : String

pub data Response : Type 0 where
  ack : AckMetaData → AckPayload → Response
  error : ErrorMetaData → ErrorDetail → Response

build_success_response : String → ℕ → ResponseEventType → String → Response
build_success_response conversation_id sequence_number event_type now =
    ack (record { conversation_id = conversation_id; event_type = event_type })
      (record {
        sequence_number = sequence_number;
        created_at_time_stamp = now;
        server_processing_ms = none;
      })

unfoldable pub build_transcript_ack : String → ℕ → String → Response
unfolding build_success_response
build_transcript_ack conversation_id sequence_number now =
    build_success_response conversation_id sequence_number transcript_ack now

unfoldable pub build_eol_ack : String → ℕ → String → Response
unfolding build_success_response
build_eol_ack conversation_id sequence_number now =
    build_success_response conversation_id sequence_number eol_ack now

unfoldable pub build_error : String → ErrorCode → String → Option String → String → Response
build_error conversation_id code message details now =
    error (record { conversation_id = conversation_id; event_type = Events.error })
      (record { code = code; message = message; details = details; created_at_time_stamp = now })

-- `response["metaData"]["eventType"]`
abbrev pub event_type : Response → ResponseEventType
event_type (ack meta payload) = meta.event_type
event_type (error meta detail) = meta.event_type
