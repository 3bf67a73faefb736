-- ===== src/Converter.antt =====
-- converter/kafka_message_converter.py. `model_dump(mode="json")` and `orjson.dumps` only render the
-- validated parts, so a payload keeps them as they are; the clock reading is an argument.
use transcribe_service.Prelude.{String}
use transcribe_service.Json.{Json}
use transcribe_service.Schemas.Request.{MetaData, Payload, InboundMessage}

pub record KafkaPayload : Type 0 where
  pub meta_data : MetaData
  pub payload : Payload
  pub event_produce_timestamp : String

-- `raw_request` is read by nothing.
unfoldable pub to_kafka_payload : InboundMessage → Json → String → KafkaPayload
to_kafka_payload msg raw_request produced_at = record {
  meta_data = msg.meta_data;
  payload = msg.payload;
  event_produce_timestamp = produced_at;
}
