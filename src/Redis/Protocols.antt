-- ===== src/Redis/Protocols.antt =====
-- redis/protocols.py
use transcribe_service.Prelude.{ℕ, Option}

pub data PrepareResult : Type 0 where
  pre_check_ok idempotent out_of_order : PrepareResult

pub record PrepareOutcome : Type 0 where
  pub status : PrepareResult
  pub expected_sequence : Option ℕ
