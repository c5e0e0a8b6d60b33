-- ===== src/Web/Errors.antt =====
-- `handleError` of backend/internal/handler/errors.go: the status and the code that a client gets.
use gb_516_hydropower_gate_d.Prelude.{ℕ, String}
use gb_516_hydropower_gate_d.Exec.{
  Error, invalid_transition, invalid_input, forbidden, two_person_required, immutable_state,
  unauthorized, inactive_user, version_conflict, record_not_found, audit_fields_required,
  database_error,
}

unfoldable pub handle_error : Error → ℕ × String
handle_error record_not_found = (404, "not_found")
handle_error version_conflict = (409, "version_conflict")
handle_error forbidden = (403, "forbidden")
handle_error two_person_required = (409, "safety_rule")
handle_error immutable_state = (409, "safety_rule")
handle_error invalid_transition = (422, "business_rule")
handle_error invalid_input = (422, "business_rule")
handle_error unauthorized = (500, "internal_error")
handle_error inactive_user = (500, "internal_error")
handle_error audit_fields_required = (500, "internal_error")
handle_error database_error = (500, "internal_error")
