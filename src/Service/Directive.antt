-- ===== src/Service/Directive.antt =====
-- backend/internal/service/operation_directive.go
pub mod Draft
pub mod Rows
pub mod Effects
pub mod Moves
pub mod Transition
pub mod Progress
use gb_516_hydropower_gate_d.Prelude.{
  ℕ, ◌+◌, ◌-◌, ◌%◌, ◌^◌, String, Bool, false, not, ◌&&◌, ◌||◌, Option, none, some, ◌=ˢ◌,
  if◌then◌else◌,
}
use gb_516_hydropower_gate_d.Exec.{
  Exec, pure, require, ◌>>=◌, ◌>>◌, invalid_transition, invalid_input, forbidden,
  two_person_required,
}
use gb_516_hydropower_gate_d.Text.{Unicode, trim_space, equal_fold, is_blank}
use gb_516_hydropower_gate_d.Constants.{
  can_transition, operation_directive_transitions, gate_unit_transitions,
}
use gb_516_hydropower_gate_d.Model.{
  OperationDirective, DirectiveApproval, AuditLog, GateUnit, role_operator, role_reviewer,
  role_admin,
}
use gb_516_hydropower_gate_d.Dto.{TransitionRequest}
use gb_516_hydropower_gate_d.Platform.{Platform}
use gb_516_hydropower_gate_d.Repository.Store
use gb_516_hydropower_gate_d.Repository.Store.{request, normal_code}
use gb_516_hydropower_gate_d.Repository.Directives
use gb_516_hydropower_gate_d.Service.Security.{audit}
use gb_516_hydropower_gate_d.Service.Records.{inc, dec, moved_gate}

unfoldable pub directive_role_allowed : String → String → String → Bool
directive_role_allowed from target role =
    if target =ˢ "pending"
    then role =ˢ role_operator || role =ˢ role_admin
    else if target =ˢ "approved"
    then role =ˢ role_reviewer || role =ˢ role_admin
    else if target =ˢ "executing"
    then role =ˢ role_operator || role =ˢ role_admin
    else if target =ˢ "aborted"
    then role =ˢ role_operator || role =ˢ role_reviewer || role =ˢ role_admin
    else false

-- The approval that `Transition` records, if the target state wants one.
unfoldable pub approval_for :
    String → String → String → String → String → String → ℕ → Option DirectiveApproval
approval_for target before actor role request_id reason now =
    let entry : DirectiveApproval = record {
      id = 0;
      directive_id = 0;
      stage = if target =ˢ "approved" then "approved" else "submitted";
      actor = actor;
      role = role;
      request_id = request_id;
      reason = trim_space reason;
      from_state = before;
      to_state = target;
      created_at = now;
    } in
    if target =ˢ "approved" || target =ˢ "pending" then some entry else none

-- The directive as `Transition` stores it.
unfoldable pub advanced : OperationDirective → String → String → ℕ → ℕ → OperationDirective
advanced current target actor expected_version now =
    let submits = target =ˢ "pending" in
    let approves = target =ˢ "approved" in
    record current {
      base = record current.base {
        status = target;
        version = inc expected_version;
        updated_at = now;
      };
      submitted_by = if submits then actor else current.submitted_by;
      submitted_at = if submits then some now else current.submitted_at;
      approved_by = if approves then actor else current.approved_by;
      approved_at = if approves then some now else current.approved_at;
    }

-- The state that the gate is to take, and `""` if it stays.
unfoldable pub gate_target_of : String → OperationDirective → GateUnit → String
gate_target_of target current gate =
    if target =ˢ "aborted"
    then "locked"
    else if not (gate.status =ˢ current.gate_state)
    then "moving"
    else ""

-- The audit entry of the transition.
abbrev pub transition_entry : ℕ → String → String → String → String → String → ℕ → AuditLog
transition_entry id before target actor request_id reason now = record {
  id = 0;
  request_id = request_id;
  actor = actor;
  action = "transition";
  entity_type = "OperationDirective";
  entity_id = id;
  before_state = before;
  after_state = target;
  detail = reason;
  created_at = now;
}

module _ (u : Unicode) (p : Platform) where
  -- The gate that the transition moves, and its target state; `(none, "")` if it looks at none.
  unfoldable pub linked_gate : OperationDirective → String → Exec p.World (Option GateUnit × String)
  unfolding gate_target_of
  linked_gate current target =
      if target =ˢ "executing" || (current.status =ˢ "executing" && target =ˢ "aborted")
      then (do
        gate ← Store.get_by_code p p.gates u current.related_code
        require (not (target =ˢ "executing" && gate.status =ˢ "locked")) invalid_input
        let gate_target = gate_target_of target current gate
        require
            (gate_target =ˢ ""
              || gate.status =ˢ gate_target
              || can_transition gate_unit_transitions gate.status gate_target)
            invalid_transition
        pure (some gate, gate_target))
      else pure (none, "")

  -- The second half of the transaction: the gate follows the directive.
  unfoldable pub move_gate :
      Option GateUnit → String → String → String → String → ℕ → Exec p.World (Unit {0})
  move_gate none gate_target actor request_id reason now = pure tt
  move_gate (some gate) gate_target actor request_id reason now =
      if gate_target =ˢ "" || gate.status =ˢ gate_target then pure tt else do
        Store.update p p.gates gate.id (dec (inc gate.version)) (moved_gate gate gate_target now)
        audit p actor request_id "directive_execution" "GateUnit" gate.id gate.status gate_target
            reason

  unfoldable pub transition :
      ℕ → TransitionRequest → String → String → String → Exec p.World OperationDirective
  transition id input actor role request_id = do
    current ← Directives.get p id
    let target = trim_space input.status
    require (can_transition operation_directive_transitions current.status target)
        invalid_transition
    require (not (target =ˢ "completed")) invalid_transition
    require (directive_role_allowed current.status target role) forbidden
    linked ← linked_gate current target
    require
        (not (
          target =ˢ "approved"
          && (current.submitted_by =ˢ "" || equal_fold u current.submitted_by actor)))
        two_person_required
    now ← p.now
    Store.within_transaction p request (λ tx. do
      Directives.transition_with_approval p id input.expected_version
          (advanced current target actor input.expected_version now)
          (approval_for target current.status actor role request_id input.reason now)
          (transition_entry id current.status target actor request_id input.reason now)
      move_gate linked.0 linked.1 actor request_id input.reason now)
    Directives.get p id
