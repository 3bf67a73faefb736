-- ===== src/Schemas/ErrorCodes.antt =====
-- schemas/error_codes.py
use transcribe_service.Prelude.{ℕ}

pub data ErrorCode : Type 0 where
  e1001 e1002 e1003 e1004 e1005 e1006 e1007 e1008 e1009 e1010 e1011 : ErrorCode

pub data WsCloseCode : Type 0 where
  normal going_away invalid_payload policy_violation internal_error try_again_later : WsCloseCode

-- `int(code)`
abbrev pub close_code_value : WsCloseCode → ℕ
close_code_value normal = 1000
close_code_value going_away = 1001
close_code_value invalid_payload = 1007
close_code_value policy_violation = 1008
close_code_value internal_error = 1011
close_code_value try_again_later = 1013

unfoldable pub close_code_for_error : ErrorCode → WsCloseCode
close_code_for_error e1001 = invalid_payload
close_code_for_error e1002 = policy_violation
close_code_for_error e1003 = policy_violation
close_code_for_error e1004 = policy_violation
close_code_for_error e1005 = policy_violation
close_code_for_error e1006 = policy_violation
close_code_for_error e1007 = internal_error
close_code_for_error e1008 = try_again_later
close_code_for_error e1011 = try_again_later
close_code_for_error _ = policy_violation
