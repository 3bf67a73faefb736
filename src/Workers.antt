-- ===== src/Workers.antt =====
-- Tasks that handle messages at the same time: `_process` of orchestrator/two_phase.py cut at its
-- awaits, so that other tasks run between two calls of one message.
pub mod Sequential
pub mod Knows
pub mod Moves
pub mod Interleaving
use transcribe_service.Prelude.{String, Bool, true, false, Option, none, some, if◌then◌else◌}
use transcribe_service.Prelude.Text
use transcribe_service.Prelude.Exec.{Result, ok, err, exception, timeout_error, str}
use transcribe_service.Json.{Json, is_dict}
use transcribe_service.Schemas.Events.{EventType, session_ongoing, session_complete}
use transcribe_service.Schemas.ErrorScenarios.{
  downstream_timeout, downstream_unavailable, sequence_out_of_order, format_details,
}
use transcribe_service.Schemas.Request.{InboundMessage}
use transcribe_service.Redis.Protocols.{
  PrepareOutcome, PrepareResult, pre_check_ok, idempotent, out_of_order,
}
use transcribe_service.Converter.{to_kafka_payload}
use transcribe_service.Orchestrator.{
  OrchestratorResult, Backends, Clock, succeed, fail_with, fail_with_details, sequence_kwargs,
  max_error_message_len,
}

-- Where a task stands: before one of its calls, or at its end.
pub data Phase : Type 0 where
  to_prepare to_send to_commit to_cleanup : Phase
  answered : Result OrchestratorResult → Phase

-- What a task works on.
pub record Job : Type 0 where
  pub raw : Json
  pub msg : InboundMessage
  pub clock : Clock

abbrev pub cid_of : Job → String
cid_of j = j.msg.meta_data.conversation_id

abbrev pub acked : Job → Phase
acked j = answered (ok (succeed j.msg j.clock.responded_at))

abbrev pub on_verdict : Job → PrepareResult → Phase
on_verdict j pre_check_ok =
    if is_dict j.raw
    then to_send
    else answered (err (exception "assert isinstance(raw_json, dict)"))
on_verdict j idempotent = acked j
on_verdict j out_of_order = answered (
    fail_with_details sequence_out_of_order (cid_of j)
      (format_details sequence_out_of_order (sequence_kwargs j.msg.payload.sequence_number))
      j.clock.responded_at)

unfoldable pub after_prepare : Job → Result PrepareOutcome → Phase
unfolding succeed fail_with format_details
after_prepare j (ok o) = on_verdict j o.status
after_prepare j (err e) = answered (err e)

unfoldable pub after_send : Job → Result (Unit {0}) → Phase
unfolding fail_with
after_send j (ok _) = to_commit
after_send j (err (timeout_error _)) =
    answered (fail_with downstream_timeout (cid_of j) none j.clock.responded_at)
after_send j (err e) = answered (
    fail_with downstream_unavailable (cid_of j) (some (Text.take max_error_message_len (str e)))
      j.clock.responded_at)

abbrev pub on_commit : Job → EventType → Phase
on_commit j session_complete = to_cleanup
on_commit j session_ongoing = acked j

unfoldable pub after_commit : Job → Result (Unit {0}) → Phase
unfolding succeed
after_commit j (ok _) = on_commit j j.msg.meta_data.event_type
after_commit j (err e) = answered (err e)

module _ {W : Type 0} (b : Backends W) where
  -- A task's next call, and where it stands after it.
  unfoldable pub work : Job → Phase → W → Phase × W
  unfolding after_prepare after_send after_commit to_kafka_payload succeed
  work j to_prepare w =
      let (outcome, w') = b.prepare (cid_of j) j.msg.payload.sequence_number w in
      (after_prepare j outcome, w')
  work j to_send w =
      let (sent, w') = b.send (cid_of j) (to_kafka_payload j.msg j.raw j.clock.produced_at) w in
      (after_send j sent, w')
  work j to_commit w =
      let (committed, w') = b.commit (cid_of j) j.msg.payload.sequence_number w in
      (after_commit j committed, w')
  work j to_cleanup w = let (cleaned, w') = b.cleanup (cid_of j) w in (acked j, w')
  work j (answered r) w = (answered r, w)
