-- ===== src/Schemas/Request.antt =====
-- schemas/request.py: the message after pydantic has read its fields, the validators of the models,
-- and what the service relies on of pydantic itself.
pub mod Rules
use transcribe_service.Prelude.{
  ℕ, zero, String, ◌≡◌, Bool, true, false, not, ◌&&◌, Option, none, some, List, [], ◌∷◌, ◌⊎◌, inr,
  ◌==◌, ◌||◌, leb, is_some, if◌then◌else◌,
}
use transcribe_service.Prelude.Exec.{Result, ok, err, value_error, exception}
use transcribe_service.Prelude.Text.{count}
use transcribe_service.Json.{Json, body_conversation_id}
use transcribe_service.Schemas.Events.{
  EventType, session_ongoing, session_complete, Speaker, system,
}

-- `datetime.utcoffset()`: `none` for a naive value, else its distance from UTC, east or west.
pub data Timedelta : Type 0 where
  east west : ℕ → Timedelta

pub record Datetime : Type 0 where
  pub local_time : String
  pub utcoffset : Option Timedelta

pub record MetaData : Type 0 where
  pub conversation_id : String
  pub call_start_time_stamp : Datetime
  pub call_end_time_stamp : Option Datetime
  pub event_type : EventType

-- `model_fields_set` names the fields that the request spells out, `null` ones included.
pub record Payload : Type 0 where
  pub sequence_number : ℕ
  pub speaker : Speaker
  pub transcript : String
  pub engine_provider : String
  pub dialect : String
  pub is_final : Bool
  pub speak_time_stamp : Option Datetime
  pub transcript_generate_time_stamp : Option Datetime
  pub model_fields_set : List String

pub record InboundMessage : Type 0 where
  pub meta_data : MetaData
  pub payload : Payload

abbrev is_zero : Option Timedelta → Bool
is_zero none = false
is_zero (some (east zero)) = true
is_zero (some (west zero)) = true
is_zero (some t) = false

-- The field validator of both models: an absent value passes, and any other must be in UTC.
unfoldable pub ensure_utc_timestamp : Option Datetime → Result (Option Datetime)
ensure_utc_timestamp none = ok none
ensure_utc_timestamp (some value) =
    if not (is_zero value.utcoffset)
    then err (exception "Input should be an ISO-8601 UTC timestamp")
    else ok (some value)

-- The bounds of the models' `Field` declarations; `ge=0` is the type of `sequence_number`.
unfoldable pub within_field_limits : InboundMessage → Bool
within_field_limits msg =
    leb (count msg.meta_data.conversation_id) 64
    && leb (count msg.payload.transcript) 8000
    && leb (count msg.payload.engine_provider) 64
    && leb (count msg.payload.dialect) 32

abbrev pub is_system : Speaker → Bool
is_system system = true
is_system s = false

abbrev pub is_ongoing : EventType → Bool
is_ongoing session_ongoing = true
is_ongoing session_complete = false

abbrev pub mem : String → List String → Bool
mem name [] = false
mem name (x ∷ xs) = x == name || mem name xs

-- A chain of `if test: raise ValueError(text)`: the first test that holds raises.
abbrev first_violation : List (Bool × String) → Option String
first_violation [] = none
first_violation ((test, text) ∷ rest) = if test then some text else first_violation rest

abbrev ongoing_rules : InboundMessage → List (Bool × String)
ongoing_rules msg =
    (
      is_some msg.meta_data.call_end_time_stamp,
      "callEndTimeStamp must be null when eventType=SESSION_ONGOING",
    )
    ∷ (
      is_system msg.payload.speaker,
      "speaker must be Agent or Customer when eventType=SESSION_ONGOING",
    )
    ∷ (
      not (is_some msg.payload.speak_time_stamp),
      "speakTimeStamp must be provided when eventType=SESSION_ONGOING",
    )
    ∷ (
      not (is_some msg.payload.transcript_generate_time_stamp),
      "transcriptGenerateTimeStamp must be provided when eventType=SESSION_ONGOING",
    )
    ∷ (not msg.payload.is_final, "isFinal must be true")
    ∷ []

abbrev complete_rules : InboundMessage → List (Bool × String)
complete_rules msg =
    (
      not (is_some msg.meta_data.call_end_time_stamp),
      "callEndTimeStamp must be provided when eventType=SESSION_COMPLETE",
    )
    ∷ (
      not (is_system msg.payload.speaker),
      "speaker must be System when eventType=SESSION_COMPLETE",
    )
    ∷ (
      mem "speakTimeStamp" msg.payload.model_fields_set,
      "speakTimeStamp must be omitted when eventType=SESSION_COMPLETE",
    )
    ∷ (
      mem "transcriptGenerateTimeStamp" msg.payload.model_fields_set,
      "transcriptGenerateTimeStamp must be omitted when eventType=SESSION_COMPLETE",
    )
    ∷ (not msg.payload.is_final, "isFinal must be true")
    ∷ []

abbrev or_raise : Option String → InboundMessage → Result InboundMessage
or_raise none msg = ok msg
or_raise (some text) msg = err (value_error text)

-- The model validator that runs once every field is read.
unfoldable pub check_business_rules : InboundMessage → Result InboundMessage
check_business_rules msg =
    or_raise
      (first_violation
        (if is_ongoing msg.meta_data.event_type then ongoing_rules msg else complete_rules msg))
      msg

-- The `type` of each of `exc.errors()`, and `str(exc)`.
pub record ValidationError : Type 0 where
  pub error_types : List String
  pub text : String

abbrev PassesUtc : Option Datetime → Type 0
PassesUtc value = ensure_utc_timestamp value ≡ ok value

-- What pydantic guarantees of a message that it accepts: every validator of the models has passed,
-- the declared limits hold, and a `str` field is the text that stands in the request.
pub record IsAccepted (raw : Json) (msg : InboundMessage) : Type 0 where
  pub start_utc : PassesUtc (some msg.meta_data.call_start_time_stamp)
  pub end_utc : PassesUtc msg.meta_data.call_end_time_stamp
  pub speak_utc : PassesUtc msg.payload.speak_time_stamp
  pub generate_utc : PassesUtc msg.payload.transcript_generate_time_stamp
  pub limits : within_field_limits msg ≡ true
  pub rules : check_business_rules msg ≡ ok msg
  pub same_conversation_id : body_conversation_id raw ≡ some msg.meta_data.conversation_id

-- `InboundMessage.model_validate`, which is pydantic's.
pub record Pydantic : Type 0 where
  pub model_validate : Json → ValidationError ⊎ InboundMessage
  pub accepts :
      (raw : Json) (msg : InboundMessage) → model_validate raw ≡ inr msg → IsAccepted raw msg
