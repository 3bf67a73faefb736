-- ===== src/Tests/Protocol.antt =====
-- The theorems on the schemas, for single scenarios and one message.
use transcribe_service.Prelude.{◌≡◌, refl}
use transcribe_service.Prelude.Exec.{ok}
use transcribe_service.Schemas.ErrorCodes.{policy_violation}
use transcribe_service.Schemas.ErrorScenarios.{sequence_out_of_order, require_ws_close_code}
use transcribe_service.Schemas.Request.{check_business_rules}
use transcribe_service.Schemas.Request.Rules.{check_business_rules-allowed, accepts, allowed}
use transcribe_service.Tests.Fixtures.{first_message}

out_of_order_code : require_ws_close_code sequence_out_of_order ≡ ok policy_violation
unfolding require_ws_close_code
out_of_order_code = refl

rules_example : accepts (check_business_rules first_message) ≡ allowed first_message
rules_example = check_business_rules-allowed first_message
