-- ===== src/Schemas/Request/Rules.antt =====
-- The rules of docs/api-contract.md for the two event types, against the validator.
use transcribe_service.Prelude.{String, ◌≡◌, Bool, true, false, not, ◌&&◌, ◌||◌, is_some, arith}
use transcribe_service.Prelude.Exec.{Result, ok, err}
use transcribe_service.Schemas.Events.{
  EventType, session_ongoing, session_complete, Speaker, agent, customer, system,
}
use transcribe_service.Schemas.Request.{InboundMessage, check_business_rules, mem}

abbrev spelled : String → InboundMessage → Bool
spelled name msg = mem name msg.payload.model_fields_set

-- The speakers that an event type allows.
abbrev allows : EventType → Speaker → Bool
allows session_ongoing agent = true
allows session_ongoing customer = true
allows session_ongoing system = false
allows session_complete system = true
allows session_complete speaker = false

-- The fields that an event type wants: the end of the call, and the two times of the utterance.
abbrev has_fields : EventType → InboundMessage → Bool
has_fields session_ongoing msg =
    not (is_some msg.meta_data.call_end_time_stamp)
    && is_some msg.payload.speak_time_stamp
    && is_some msg.payload.transcript_generate_time_stamp
has_fields session_complete msg =
    is_some msg.meta_data.call_end_time_stamp
    && not (spelled "speakTimeStamp" msg || spelled "transcriptGenerateTimeStamp" msg)

abbrev pub allowed : InboundMessage → Bool
allowed msg =
    allows msg.meta_data.event_type msg.payload.speaker
    && has_fields msg.meta_data.event_type msg
    && msg.payload.is_final

abbrev pub accepts : Result InboundMessage → Bool
accepts (ok msg) = true
accepts (err e) = false

-- The validator accepts a message exactly if it is final, its speaker suits its event type, and its
-- fields do: an ongoing message has no end of the call and both times of the utterance, and a message
-- that completes the session has the end of the call and spells out neither time, not even as `null`.
pub check_business_rules-allowed :
    (msg : InboundMessage) → accepts (check_business_rules msg) ≡ allowed msg
unfolding check_business_rules
check_business_rules-allowed msg = ground arith
