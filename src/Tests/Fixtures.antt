-- ===== src/Tests/Fixtures.antt =====
-- Concrete servers, settings and messages for the tests.
use transcribe_service.Prelude.{
  String, ◌≡◌, refl, ◌⊎◌, inl, inr, true, false, Option, none, some, List, [], ◌∷◌, ◌++◌, arith,
  ◌==◌, eq_iff, if◌then◌else◌, Bool-cases, ap, subst,
}
use transcribe_service.Prelude.Exec.{served}
use transcribe_service.Json.{Json, body_conversation_id}
use transcribe_service.Schemas.Events.{session_ongoing, agent}
use transcribe_service.Schemas.Request.{
  Datetime, east, InboundMessage, ValidationError, IsAccepted, Pydantic, check_business_rules,
  within_field_limits, ensure_utc_timestamp,
}
use transcribe_service.Redis.SequenceStateMachine
use transcribe_service.Redis.SequenceStateMachine.{Machine}
use transcribe_service.Redis.OwnershipGuard
use transcribe_service.Redis.OwnershipGuard.{Guard}
use transcribe_service.Redis.Memory.{memory, empty}
use transcribe_service.Producer.{Kafka, KafkaRecord, KafkaProducer, ClientWeather}
use transcribe_service.Orchestrator.{Clock}
use transcribe_service.Pipeline.{Weather, World}
use transcribe_service.Pipeline.Effects.{IsPositive}

abbrev pub settings : SequenceStateMachine.Config
settings = record { active_ttl = 3600; final_ttl = 60; key_prefix = "seq"; int_of_text = λ s. none }

abbrev pub settings-IsPositive : IsPositive settings
settings-IsPositive = record { active = omega arith; final = omega arith }

abbrev pub guard_settings : OwnershipGuard.Config
guard_settings = record { guard_ttl = 30; key_prefix = "owner" }

-- A process that has just started, on a server that has.
abbrev pub machine : Machine memory
machine = record {
  cache = record { sha_prepare = none; sha_commit = none; sha_cleanup = none };
  store = empty;
}

abbrev pub guard : Guard memory
guard = record { cache = record { sha_claim = none; sha_release = none }; store = empty }

-- A topic as the list of its records.
abbrev pub log_topic : Kafka
log_topic = record {
  Topic = List KafkaRecord;
  records = λ t. t;
  append = λ x t. t ++ x ∷ [];
  records-append = λ x t. refl;
}

abbrev pub calm_client : ClientWeather
calm_client = record { start = served; stop = served; send_and_wait = served }

abbrev pub calm : Weather
calm = record { prepare = served; commit = served; cleanup = served; client = calm_client }

abbrev pub clock : Clock
clock = record { produced_at = "2026-01-01T00:00:00Z"; responded_at = "2026-01-01T00:00:01Z" }

abbrev pub idle_producer : KafkaProducer log_topic
idle_producer = record { created = false; topic = [] }

abbrev pub started : World memory log_topic
started = record { machine = machine; producer = idle_producer }

abbrev pub noon : Datetime
noon = record { local_time = "2026-01-01T12:00:00"; utcoffset = some (east 0) }

-- The first message of the conversation `c-1`.
abbrev pub first_message : InboundMessage
first_message = record {
  meta_data = record {
    conversation_id = "c-1";
    call_start_time_stamp = noon;
    call_end_time_stamp = none;
    event_type = session_ongoing;
  };
  payload = record {
    sequence_number = 0;
    speaker = agent;
    transcript = "hello";
    engine_provider = "engine";
    dialect = "en";
    is_final = true;
    speak_time_stamp = some noon;
    transcript_generate_time_stamp = some noon;
    model_fields_set = "speakTimeStamp" ∷ [];
  };
}

abbrev pub by_id : Option String → ValidationError ⊎ InboundMessage
by_id none = inl (record { error_types = "missing" ∷ []; text = "missing" })
by_id (some cid) =
    if cid == "c-1"
    then inr first_message
    else inl (record { error_types = "value_error" ∷ []; text = "not c-1" })

pub by_id-first :
    (o : Option String) (msg : InboundMessage)
    → by_id o ≡ inr msg
    → (o ≡ some "c-1") × (first_message ≡ msg)
by_id-first none msg = λ h. absurd (ground arith)
by_id-first (some cid) msg = elim (Bool-cases (cid == "c-1")) [
  | inl e ↦ rw e (λ h. (ap some ((eq_iff cid "c-1").0 e), cc))
  | inr e ↦ rw e (λ h. absurd (ground arith))
]

pub first-IsAccepted :
    (raw : Json) → body_conversation_id raw ≡ some "c-1" → IsAccepted raw first_message
unfolding check_business_rules within_field_limits ensure_utc_timestamp
first-IsAccepted raw h = record {
  start_utc = refl;
  end_utc = refl;
  speak_utc = refl;
  generate_utc = refl;
  limits = refl;
  rules = refl;
  same_conversation_id = h;
}

-- A validation that accepts the first message, whatever else a request with its conversation id says.
abbrev pub validation : Pydantic
validation = record {
  model_validate = λ raw. by_id (body_conversation_id raw);
  accepts = λ raw msg h.
      let p = by_id-first (body_conversation_id raw) msg h in
      subst (λ m. IsAccepted raw m) p.1 (first-IsAccepted raw p.0);
}
