-- ===== src/Service/Directive/Draft.antt =====
-- backend/internal/service/operation_directive.go: `Create`, `Update` and `Delete`, for drafts.
pub mod Rows
pub mod Effects
use gb_516_hydropower_gate_d.Prelude.{
  ℕ, ◌≡◌, String, Bool, true, false, not, ◌&&◌, ◌||◌, Option, none, some, [], ◌=ˢ◌, ltb,
  if◌then◌else◌,
}
use gb_516_hydropower_gate_d.Exec.{
  Exec, pure, require, ◌>>=◌, ◌>>◌, invalid_transition, invalid_input, forbidden,
  two_person_required, immutable_state,
}
use gb_516_hydropower_gate_d.Text.{Unicode, trim_space, equal_fold, is_blank}
use gb_516_hydropower_gate_d.Constants.{
  can_transition, operation_directive_transitions, gate_unit_transitions, reservoir_transitions,
  execution_confirmation_transitions,
}
use gb_516_hydropower_gate_d.Model.{
  OperationDirective, GateUnit, operation_directive_initial_status,
}
use gb_516_hydropower_gate_d.Dto.{CreateOperationDirective, UpdateOperationDirective}
use gb_516_hydropower_gate_d.Platform.{Platform}
use gb_516_hydropower_gate_d.Repository.Store
use gb_516_hydropower_gate_d.Repository.Store.{request, normal_code}
use gb_516_hydropower_gate_d.Repository.Directives
use gb_516_hydropower_gate_d.Repository.Confirmations
use gb_516_hydropower_gate_d.Service.Security.{audit}
use gb_516_hydropower_gate_d.Service.Records.{inc, dec, has_business_fields}

-- The gate state that a new directive asks for; `closed` where the input names none.
abbrev pub wanted_state : String → String
wanted_state gate_state = if trim_space gate_state =ˢ "" then "closed" else trim_space gate_state

unfoldable pub new_record : Unicode → CreateOperationDirective → OperationDirective
new_record u input = record {
  base = record {
    id = 0;
    code = normal_code u input.code;
    name = trim_space input.name;
    status = operation_directive_initial_status;
    version = 1;
    description = trim_space input.description;
    created_at = 0;
    updated_at = 0;
    deleted_at = none;
  };
  facility = trim_space input.facility;
  owner = trim_space input.owner;
  category = trim_space input.category;
  risk_level = input.risk_level;
  metric_value = input.metric_value;
  metric_unit = trim_space input.metric_unit;
  effective_at = input.effective_at;
  evidence = trim_space input.evidence;
  related_code = normal_code u input.related_code;
  gate_state = wanted_state input.gate_state;
  submitted_by = "";
  submitted_at = none;
  approved_by = "";
  approved_at = none;
  approvals = [];
}

unfoldable pub edited_record :
    Unicode → OperationDirective → UpdateOperationDirective → ℕ → OperationDirective
edited_record u current input now = record current {
  base = record current.base {
    name = trim_space input.name;
    description = trim_space input.description;
    version = inc input.expected_version;
    updated_at = now;
  };
  facility = trim_space input.facility;
  owner = trim_space input.owner;
  category = trim_space input.category;
  risk_level = input.risk_level;
  metric_value = input.metric_value;
  metric_unit = trim_space input.metric_unit;
  effective_at = input.effective_at;
  evidence = trim_space input.evidence;
  related_code = normal_code u input.related_code;
  gate_state =
      if trim_space input.gate_state =ˢ "" then current.gate_state else trim_space input.gate_state;
}

-- The linked gate is in the directive's facility and is not locked.
abbrev pub gate_fits : Unicode → String → GateUnit → Bool
gate_fits u facility gate =
    not (not (equal_fold u (trim_space facility) gate.facility) || gate.status =ˢ "locked")

module _ (u : Unicode) (p : Platform) where
  unfoldable pub create :
      CreateOperationDirective → String → String → Exec p.World OperationDirective
  create input actor request_id = do
    require (has_business_fields input.code input.name input.facility input.owner) invalid_input
    gate ← Store.get_by_code p p.gates u input.related_code
    require (gate_fits u input.facility gate) invalid_input
    let item = new_record u input
    Store.within_transaction p request (λ tx. do
      stored ← Store.create p p.directives item
      audit p actor request_id "create" "OperationDirective" stored.id "" stored.status
          "created 操作指令"
      pure stored)

  unfoldable pub update :
      ℕ → UpdateOperationDirective → String → String → Exec p.World OperationDirective
  update id input actor request_id = do
    current ← Directives.get p id
    require (current.status =ˢ "draft") immutable_state
    require (has_business_fields current.code input.name input.facility input.owner) invalid_input
    gate ← Store.get_by_code p p.gates u input.related_code
    require (gate_fits u input.facility gate) invalid_input
    now ← p.now
    let edited = edited_record u current input now
    Store.within_transaction p request (λ tx. do
      Store.update p p.directives id input.expected_version edited
      audit p actor request_id "update" "OperationDirective" id edited.status edited.status
          "updated business fields")
    Directives.get p id

  unfoldable pub delete : ℕ → String → String → Exec p.World (Unit {0})
  delete id actor request_id = do
    current ← Directives.get p id
    require (current.status =ˢ "draft") immutable_state
    Store.within_transaction p request (λ tx. do
      Store.delete p p.directives id
      audit p actor request_id "delete" "OperationDirective" id current.status "deleted"
          "soft deleted 操作指令")
