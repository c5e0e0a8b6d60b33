-- ===== src/Service/Confirmation.antt =====
-- backend/internal/service/execution_confirmation.go
pub mod Rows
pub mod Effects
pub mod Outcomes
pub mod Steps
pub mod Proofs
use gb_516_hydropower_gate_d.Prelude.{
  ℕ, ◌≡◌, String, Bool, true, false, not, ◌&&◌, ◌||◌, Option, none, some, ◌=ˢ◌, ltb, if◌then◌else◌,
}
use gb_516_hydropower_gate_d.Exec.{
  Exec, pure, require, ◌>>=◌, ◌>>◌, invalid_transition, invalid_input, forbidden,
  two_person_required, immutable_state,
}
use gb_516_hydropower_gate_d.Text.{Unicode, trim_space, equal_fold, is_blank}
use gb_516_hydropower_gate_d.Constants.{
  can_transition, operation_directive_transitions, gate_unit_transitions, reservoir_transitions,
  execution_confirmation_transitions,
}
use gb_516_hydropower_gate_d.Model.{
  ExecutionConfirmation, OperationDirective, GateUnit, execution_confirmation_initial_status,
}
use gb_516_hydropower_gate_d.Dto.{
  CreateExecutionConfirmation, UpdateExecutionConfirmation, TransitionRequest,
}
use gb_516_hydropower_gate_d.Platform.{Platform}
use gb_516_hydropower_gate_d.Repository.Store
use gb_516_hydropower_gate_d.Repository.Store.{request, normal_code}
use gb_516_hydropower_gate_d.Repository.Directives
use gb_516_hydropower_gate_d.Repository.Confirmations
use gb_516_hydropower_gate_d.Service.Security.{audit}
use gb_516_hydropower_gate_d.Service.Records.{inc, dec, has_business_fields, moved_gate}

-- The record that `Create` stores: facility, category and risk are the directive's.
unfoldable pub new_record :
    Unicode → OperationDirective → CreateExecutionConfirmation → ExecutionConfirmation
new_record u directive input = record {
  base = record {
    id = 0;
    code = normal_code u input.code;
    name = trim_space input.name;
    status = execution_confirmation_initial_status;
    version = 1;
    description = trim_space input.description;
    created_at = 0;
    updated_at = 0;
    deleted_at = none;
  };
  facility = directive.facility;
  owner = trim_space input.owner;
  category = directive.category;
  risk_level = directive.risk_level;
  metric_value = input.metric_value;
  metric_unit = trim_space input.metric_unit;
  effective_at = input.effective_at;
  evidence = trim_space input.evidence;
  related_code = directive.code;
  confirmed_by = "";
  confirmed_at = none;
}

-- The record that `Update` stores.
unfoldable pub edited_record :
    ExecutionConfirmation
    → OperationDirective
    → UpdateExecutionConfirmation
    → ℕ
    → ExecutionConfirmation
edited_record current directive input now = record current {
  base = record current.base {
    name = trim_space input.name;
    description = trim_space input.description;
    version = inc input.expected_version;
    updated_at = now;
  };
  facility = directive.facility;
  owner = trim_space input.owner;
  category = directive.category;
  risk_level = directive.risk_level;
  metric_value = input.metric_value;
  metric_unit = trim_space input.metric_unit;
  effective_at = input.effective_at;
  evidence = trim_space input.evidence;
  related_code = directive.code;
}

-- The record that `Transition` stores.
unfoldable pub transitioned :
    ExecutionConfirmation → String → String → ℕ → ℕ → ExecutionConfirmation
transitioned current target actor expected_version now =
    let confirms = target =ˢ "confirmed" in
    record current {
      base = record current.base {
        status = target;
        version = inc expected_version;
        updated_at = now;
      };
      confirmed_by = if confirms then actor else current.confirmed_by;
      confirmed_at = if confirms then some now else current.confirmed_at;
    }

-- `directive.Status = directiveTarget; directive.Version++; directive.UpdatedAt = now`
abbrev pub finished_directive : OperationDirective → String → ℕ → OperationDirective
finished_directive directive directive_target now = record directive {
  base = record directive.base {
    status = directive_target;
    version = inc directive.version;
    updated_at = now;
  };
}

-- What the receipt brings about: the directive and its gate, as they were read, and their targets.
pub record Outcome : Type 0 where
  pub directive : OperationDirective
  pub gate : GateUnit
  pub directive_target : String
  pub gate_target : String

-- The targets of a receipt: a success completes the directive and leaves the gate as it asked; any
-- other aborts it and locks the gate.
unfoldable pub outcome_of : String → OperationDirective → GateUnit → Outcome
outcome_of target directive gate = record {
  directive = directive;
  gate = gate;
  directive_target = if target =ˢ "confirmed" then "completed" else "aborted";
  gate_target = if target =ˢ "confirmed" then directive.gate_state else "locked";
}

module _ (u : Unicode) (p : Platform) where
  unfoldable pub require_executing_directive : String → Exec p.World OperationDirective
  require_executing_directive code = do
    directive ← Directives.get_by_code p u code
    require (directive.status =ˢ "executing") invalid_input
    pure directive

  unfoldable pub create :
      CreateExecutionConfirmation → String → String → Exec p.World ExecutionConfirmation
  create input actor request_id = do
    require (has_business_fields input.code input.name input.facility input.owner) invalid_input
    directive ← require_executing_directive input.related_code
    count ← Confirmations.count_by_directive_code p u directive.code
    require (not (ltb 0 count)) invalid_input
    let item = new_record u directive input
    Store.within_transaction p request (λ tx. do
      stored ← Store.create p p.confirmations item
      audit p actor request_id "create" "ExecutionConfirmation" stored.id "" stored.status
          "created 执行确认"
      pure stored)

  unfoldable pub update :
      ℕ → UpdateExecutionConfirmation → String → String → Exec p.World ExecutionConfirmation
  update id input actor request_id = do
    current ← Store.get p p.confirmations id
    require (has_business_fields current.code input.name input.facility input.owner) invalid_input
    require (current.status =ˢ execution_confirmation_initial_status) immutable_state
    require (equal_fold u (trim_space input.related_code) current.related_code) invalid_input
    directive ← require_executing_directive current.related_code
    now ← p.now
    let edited = edited_record current directive input now
    Store.within_transaction p request (λ tx. do
      Store.update p p.confirmations id input.expected_version edited
      audit p actor request_id "update" "ExecutionConfirmation" id edited.status edited.status
          "updated business fields")
    Store.get p p.confirmations id

  -- The outcome of a pending receipt; the later transition of a failed one has none.
  unfoldable pub outcome : ExecutionConfirmation → String → Exec p.World (Option Outcome)
  outcome current target =
      if current.status =ˢ execution_confirmation_initial_status
      then (do
        directive ← require_executing_directive current.related_code
        gate ← Store.get_by_code p p.gates u directive.related_code
        let result = outcome_of target directive gate
        require
            (gate.status =ˢ result.gate_target
              || can_transition gate_unit_transitions gate.status result.gate_target)
            invalid_transition
        pure (some result))
      else pure none

  -- The second half of the transaction: the directive and the gate follow the receipt.
  unfoldable pub apply_outcome :
      Option Outcome → String → String → String → ℕ → Exec p.World (Unit {0})
  apply_outcome none actor request_id reason now = pure tt
  apply_outcome (some o) actor request_id reason now = do
    Store.update p p.directives o.directive.id (dec (inc o.directive.version))
        (finished_directive o.directive o.directive_target now)
    audit p actor request_id "execution_outcome" "OperationDirective" o.directive.id
        o.directive.status o.directive_target reason
    if o.gate.status =ˢ o.gate_target then pure tt else (do
      Store.update p p.gates o.gate.id (dec (inc o.gate.version))
          (moved_gate o.gate o.gate_target now)
      audit p actor request_id "execution_outcome" "GateUnit" o.gate.id o.gate.status o.gate_target
          reason)

  unfoldable pub transition :
      ℕ → TransitionRequest → String → String → Exec p.World ExecutionConfirmation
  transition id input actor request_id = do
    current ← Store.get p p.confirmations id
    let target = trim_space input.status
    require (can_transition execution_confirmation_transitions current.status target)
        invalid_transition
    now ← p.now
    result ← outcome current target
    Store.within_transaction p request (λ tx. do
      Store.update p p.confirmations id input.expected_version
          (transitioned current target actor input.expected_version now)
      audit p actor request_id "transition" "ExecutionConfirmation" id current.status target
          input.reason
      apply_outcome result actor request_id input.reason now)
    Store.get p p.confirmations id

  unfoldable pub delete : ℕ → String → String → Exec p.World (Unit {0})
  delete id actor request_id = do
    current ← Store.get p p.confirmations id
    require (current.status =ˢ execution_confirmation_initial_status) immutable_state
    Store.within_transaction p request (λ tx. do
      Store.delete p p.confirmations id
      audit p actor request_id "delete" "ExecutionConfirmation" id current.status "deleted"
          "soft deleted 执行确认")
