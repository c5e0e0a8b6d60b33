-- ===== src/Service/Gate.antt =====
-- backend/internal/service/gate_unit.go
pub mod Rows
pub mod Effects
use gb_516_hydropower_gate_d.Prelude.{
  ℕ, ◌≡◌, String, Bool, true, false, not, ◌&&◌, ◌||◌, Option, none, some, ◌=ˢ◌, ltb, if◌then◌else◌,
}
use gb_516_hydropower_gate_d.Exec.{
  Exec, pure, require, ◌>>=◌, ◌>>◌, invalid_transition, invalid_input, forbidden,
  two_person_required, immutable_state,
}
use gb_516_hydropower_gate_d.Text.{Unicode, trim_space, equal_fold, is_blank}
use gb_516_hydropower_gate_d.Constants.{
  can_transition, operation_directive_transitions, gate_unit_transitions, reservoir_transitions,
  execution_confirmation_transitions,
}
use gb_516_hydropower_gate_d.Model.{GateUnit, AuditLog, gate_unit_initial_status}
use gb_516_hydropower_gate_d.Dto.{CreateGateUnit, UpdateGateUnit, TransitionRequest}
use gb_516_hydropower_gate_d.Platform.{Platform}
use gb_516_hydropower_gate_d.Repository.Store
use gb_516_hydropower_gate_d.Repository.Store.{request, normal_code}
use gb_516_hydropower_gate_d.Repository.Directives
use gb_516_hydropower_gate_d.Repository.Confirmations
use gb_516_hydropower_gate_d.Service.Security.{audit}
use gb_516_hydropower_gate_d.Service.Records.{inc, dec, has_business_fields}

-- The record that `Create` stores.
unfoldable pub new_record : Unicode → CreateGateUnit → GateUnit
new_record u input = record {
  base = record {
    id = 0;
    code = normal_code u input.code;
    name = trim_space input.name;
    status = gate_unit_initial_status;
    version = 1;
    description = trim_space input.description;
    created_at = 0;
    updated_at = 0;
    deleted_at = none;
  };
  facility = trim_space input.facility;
  owner = trim_space input.owner;
  category = trim_space input.category;
  risk_level = input.risk_level;
  metric_value = input.metric_value;
  metric_unit = trim_space input.metric_unit;
  effective_at = input.effective_at;
  evidence = trim_space input.evidence;
  related_code = normal_code u input.related_code;
}

-- The record that `Update` stores.
unfoldable pub edited_record : GateUnit → String → UpdateGateUnit → ℕ → GateUnit
edited_record current reservoir_code input now = record current {
  base = record current.base {
    name = trim_space input.name;
    description = trim_space input.description;
    version = inc input.expected_version;
    updated_at = now;
  };
  facility = trim_space input.facility;
  owner = trim_space input.owner;
  category = trim_space input.category;
  risk_level = input.risk_level;
  metric_value = input.metric_value;
  metric_unit = trim_space input.metric_unit;
  effective_at = input.effective_at;
  evidence = trim_space input.evidence;
  related_code = reservoir_code;
}

-- The record that `Transition` stores.
unfoldable pub transitioned : GateUnit → String → ℕ → ℕ → GateUnit
transitioned current target expected_version now = record current {
  base = record current.base { status = target; version = inc expected_version; updated_at = now };
}

-- The audit entry of the transition.
abbrev pub transition_entry : ℕ → String → String → String → String → String → ℕ → AuditLog
transition_entry id before target actor request_id reason now = record {
  id = 0;
  request_id = request_id;
  actor = actor;
  action = "transition";
  entity_type = "GateUnit";
  entity_id = id;
  before_state = before;
  after_state = target;
  detail = reason;
  created_at = now;
}

module _ (u : Unicode) (p : Platform) where
  unfoldable pub create : CreateGateUnit → String → String → Exec p.World GateUnit
  create input actor request_id = do
    require (has_business_fields input.code input.name input.facility input.owner) invalid_input
    reservoir ← Store.get_by_code p p.reservoirs u input.related_code
    require (equal_fold u (trim_space input.facility) reservoir.facility) invalid_input
    let item = new_record u input
    Store.within_transaction p request (λ tx. do
      stored ← Store.create p p.gates item
      audit p actor request_id "create" "GateUnit" stored.id "" stored.status "created 闸门"
      pure stored)

  unfoldable pub update : ℕ → UpdateGateUnit → String → String → Exec p.World GateUnit
  update id input actor request_id = do
    current ← Store.get p p.gates id
    require (has_business_fields current.code input.name input.facility input.owner) invalid_input
    require (equal_fold u (trim_space input.related_code) current.related_code) invalid_input
    reservoir ← Store.get_by_code p p.reservoirs u current.related_code
    require (equal_fold u (trim_space input.facility) reservoir.facility) invalid_input
    now ← p.now
    let edited = edited_record current reservoir.code input now
    Store.within_transaction p request (λ tx. do
      Store.update p p.gates id input.expected_version edited
      audit p actor request_id "update" "GateUnit" id edited.status edited.status
          "updated business fields")
    Store.get p p.gates id

  unfoldable pub transition : ℕ → TransitionRequest → String → String → Exec p.World GateUnit
  transition id input actor request_id = do
    current ← Store.get p p.gates id
    let target = trim_space input.status
    require (can_transition gate_unit_transitions current.status target) invalid_transition
    now ← p.now
    stamp ← p.now
    Store.transition_with_audit p p.gates id input.expected_version
        (transitioned current target input.expected_version now)
        (transition_entry id current.status target actor request_id input.reason stamp)
    Store.get p p.gates id

  unfoldable pub delete : ℕ → String → String → Exec p.World (Unit {0})
  delete id actor request_id = do
    current ← Store.get p p.gates id
    Store.within_transaction p request (λ tx. do
      Store.delete p p.gates id
      audit p actor request_id "delete" "GateUnit" id current.status "deleted" "soft deleted 闸门")
