-- ===== src/Orchestrator/Validation.antt =====
-- `_classify_validation_error` of orchestrator/two_phase.py.
use transcribe_service.Prelude.{
  String, ◌≡◌, refl, ◌||◌, Option, none, some, List, [], ◌∷◌, ◌==◌, if◌then◌else◌,
}
use transcribe_service.Prelude.Text.{contains}
use transcribe_service.Schemas.ErrorScenarios.{
  ProtocolErrorScenario, invalid_timestamp_format, invalid_json, missing_required_field,
  invalid_enum_value, invalid_field_type, business_rule_violation,
}

-- The body of the loop: the scenario that one error's type decides, if any.
unfoldable pub classify_type : String → Option ProtocolErrorScenario
unfolding contains
classify_type t =
    if contains "datetime" t || contains "time" t || contains "iso" t
    then some invalid_timestamp_format
    else if contains "json" t
    then some invalid_json
    else if contains "missing" t
    then some missing_required_field
    else if contains "enum" t || contains "literal" t
    then some invalid_enum_value
    else if t == "extra_forbidden"
    then some invalid_field_type
    else if contains "type" t || contains "int" t || contains "bool" t
    then some invalid_field_type
    else if t == "value_error"
    then some business_rule_violation
    else none

abbrev or_next : Option ProtocolErrorScenario → ProtocolErrorScenario → ProtocolErrorScenario
or_next none next = next
or_next (some scenario) next = scenario

unfoldable pub classify_validation_error : List String → ProtocolErrorScenario
unfolding classify_type
classify_validation_error [] = missing_required_field
classify_validation_error (t ∷ rest) = or_next (classify_type t) (classify_validation_error rest)

-- The bounds of `Field(max_length=…)` and `Field(ge=0)` have types that no test matches.
too_long_is_missing :
    (classify_validation_error ("string_too_long" ∷ []) ≡ missing_required_field)
    × (classify_validation_error ("greater_than_equal" ∷ []) ≡ missing_required_field)
unfolding classify_validation_error
too_long_is_missing = (refl, refl)
