-- ===== src/Schemas/Events.antt =====
-- schemas/events.py

pub data EventType : Type 0 where
  session_ongoing session_complete : EventType

pub data ResponseEventType : Type 0 where
  transcript_ack eol_ack error : ResponseEventType

pub data Speaker : Type 0 where
  agent customer system : Speaker
