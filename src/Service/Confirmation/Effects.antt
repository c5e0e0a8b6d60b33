-- ===== src/Service/Confirmation/Effects.antt =====
-- What the operations on execution confirmations do to the tables: the specification.
use gb_516_hydropower_gate_d.Prelude.{
  ℕ, ◌+◌, ◌%◌, ◌^◌, String, ◌≡◌, ◌≢◌, ◌⊎◌, true, false, ◌||◌, Option, none, some, ◌=ˢ◌,
}
use gb_516_hydropower_gate_d.Text.{Unicode, trim_space, equal_fold}
use gb_516_hydropower_gate_d.Constants.{can_transition, gate_unit_transitions}
use gb_516_hydropower_gate_d.Constants.Edges.{GateEdge, ReceiptEdge}
use gb_516_hydropower_gate_d.Model.{ExecutionConfirmation, OperationDirective, GateUnit}
use gb_516_hydropower_gate_d.Dto.{
  CreateExecutionConfirmation, UpdateExecutionConfirmation, TransitionRequest,
}
use gb_516_hydropower_gate_d.Platform.Schema.{
  Tables, confirmation_entity, directive_entity, gate_entity,
}
use gb_516_hydropower_gate_d.Repository.Store.{normal_code}
use gb_516_hydropower_gate_d.Repository.Directives.Laws.{DirectiveRead}
use gb_516_hydropower_gate_d.Service.Security.{audit_entry}
use gb_516_hydropower_gate_d.Service.Records.{inc, dec, moved_gate, Written, Created, Deleted}
use gb_516_hydropower_gate_d.Service.Records.Rows.{Filled, directive_business, gate_business}
use gb_516_hydropower_gate_d.Service.Confirmation.Rows.{ReceiptRow, ReceiptEdit, ReceiptMove}
use gb_516_hydropower_gate_d.Service.Confirmation.{
  Outcome, outcome_of, new_record, edited_record, transitioned, finished_directive,
}

-- The directive with this code is being executed.
pub record Executing (u : Unicode) (code : String) (v : Tables) (directive : OperationDirective)
    : Type 0 where
  pub read : DirectiveRead directive.id v directive
  pub code_eq : directive.code ≡ normal_code u code
  pub executing : directive.status ≡ "executing"

pub record ConfirmationCreated (u : Unicode) (input : CreateExecutionConfirmation)
    (actor request_id : String) (x : ExecutionConfirmation) (v v' : Tables) : Type 0 where
  pub directive : OperationDirective
  pub linked : Executing u input.related_code v directive
  pub only :
      (id : ℕ) (other : ExecutionConfirmation)
      → v.confirmations id ≡ some other
      → ¬ (other.related_code ≡ normal_code u directive.code)
  pub fields : Filled input.code input.name input.facility input.owner
  pub created :
      Created confirmation_entity "ExecutionConfirmation" "created 执行确认" actor request_id
        (new_record u directive input)
        x
        v
        v'
  pub row : ReceiptRow u directive input x v'

pub record ConfirmationEdited (u : Unicode) (id : ℕ) (input : UpdateExecutionConfirmation)
    (actor request_id : String) (v v' : Tables) : Type 0 where
  pub current : ExecutionConfirmation
  pub now : ℕ
  pub directive : OperationDirective
  pub found : v.confirmations id ≡ some current
  pub is_pending : current.status ≡ "pending"
  pub same_directive : equal_fold u (trim_space input.related_code) current.related_code ≡ true
  pub linked : Executing u current.related_code v directive
  pub fields : Filled current.code input.name input.facility input.owner
  pub written :
      Written confirmation_entity id input.expected_version
        (edited_record current directive input now)
        (audit_entry actor request_id "update" "ExecutionConfirmation" id current.status
          current.status "updated business fields")
        v
        v'
  pub edit : ReceiptEdit id current directive input v'
  pub directive_kept : edit.row.related_code ≡ normal_code u current.related_code

pub record ConfirmationDeleted (id : ℕ) (actor request_id : String) (v v' : Tables) : Type 0 where
  pub current : ExecutionConfirmation
  pub found : v.confirmations id ≡ some current
  pub is_pending : current.status ≡ "pending"
  pub deleted :
      Deleted confirmation_entity id
        (audit_entry actor request_id "delete" "ExecutionConfirmation" id current.status "deleted"
          "soft deleted 执行确认")
        v
        v'

-- The directive and the gate of a pending receipt, and the targets that the receipt gives them.
pub record OutcomeChosen (u : Unicode) (current : ExecutionConfirmation) (target : String)
    (v : Tables) (directive : OperationDirective) (gate : GateUnit) : Type 0 where
  pub linked : Executing u current.related_code v directive
  pub found : v.gates gate.id ≡ some gate
  pub code : gate.code ≡ normal_code u directive.related_code
  pub permitted :
      (gate.status =ˢ (outcome_of target directive gate).gate_target
        || can_transition gate_unit_transitions gate.status
            (outcome_of target directive gate).gate_target)
      ≡ true

pub data ChosenOutcome (u : Unicode) (current : ExecutionConfirmation) (target : String)
    (v : Tables) (result : Option Outcome) : Type 0 where
  no_outcome :
      (current.status =ˢ "pending") ≡ false
      → result ≡ none
      → ChosenOutcome u current target v result
  one_outcome :
      (directive : OperationDirective) (gate : GateUnit)
      → current.status ≡ "pending"
      → OutcomeChosen u current target v directive gate
      → result ≡ some (outcome_of target directive gate)
      → ChosenOutcome u current target v result

-- The directive takes its final state, and then the gate its own, if that is another.
pub record OutcomeApplied (o : Outcome) (actor request_id reason : String) (now : ℕ) (v v' : Tables)
    : Type 0 where
  pub middle : Tables
  pub directive_written :
      Written directive_entity o.directive.id
        (dec (inc o.directive.version))
        (finished_directive o.directive o.directive_target now)
        (audit_entry actor request_id "execution_outcome" "OperationDirective" o.directive.id
          o.directive.status o.directive_target reason)
        v
        middle
  pub gate_written :
      ((o.gate.status =ˢ o.gate_target) ≡ true) × (v' ≡ middle)
      ⊎ ((o.gate.status =ˢ o.gate_target) ≡ false)
        × Written gate_entity o.gate.id
            (dec (inc o.gate.version))
            (moved_gate o.gate o.gate_target now)
            (audit_entry actor request_id "execution_outcome" "GateUnit" o.gate.id o.gate.status
              o.gate_target reason)
            middle
            v'

abbrev pub OutcomeStep : Option Outcome → String → String → String → ℕ → Tables → Tables → Type 0
OutcomeStep none actor request_id reason now v v' = v' ≡ v
OutcomeStep (some o) actor request_id reason now v v' =
    OutcomeApplied o actor request_id reason now v v'

-- What the receipt of an executing directive brings about, row by row: a success completes the directive
-- and leaves its gate in the state that was asked for; a failure aborts it and locks the gate.
pub record ReceiptOutcome (u : Unicode) (current : ExecutionConfirmation) (target : String)
    (v v' : Tables) : Type 0 where
  pub directive : OperationDirective
  pub gate : GateUnit
  pub linked : Executing u current.related_code v directive
  pub found : v.gates gate.id ≡ some gate
  pub code : gate.code ≡ normal_code u directive.related_code
  pub directive_after : OperationDirective
  pub directive_row : v'.directives directive.id ≡ some directive_after
  pub completes : target ≡ "confirmed" → directive_after.status ≡ "completed"
  pub aborts : target ≢ "confirmed" → directive_after.status ≡ "aborted"
  pub directive_version : directive_after.version ≡ (directive.version + 1) % 2 ^ 64
  pub directive_kept :
      (directive_business directive_after ≡ directive_business directive)
      × (directive_after.gate_state ≡ directive.gate_state)
      × (directive_after.submitted_by ≡ directive.submitted_by)
      × (directive_after.approved_by ≡ directive.approved_by)
  pub gate_after : GateUnit
  pub gate_row : v'.gates gate.id ≡ some gate_after
  pub reaches : target ≡ "confirmed" → gate_after.status ≡ directive.gate_state
  pub locks : target ≢ "confirmed" → gate_after.status ≡ "locked"
  pub gate_edge : (gate_after.status ≡ gate.status) ⊎ GateEdge gate.status gate_after.status
  pub gate_kept : gate_business gate_after ≡ gate_business gate

-- Only a pending receipt has an outcome; any other leaves directives and gates as they are.
abbrev pub FinalOutcome : Unicode → ExecutionConfirmation → String → Tables → Tables → Type 0
FinalOutcome u current target v v' =
    (current.status ≢ "pending") × (v'.directives ≡ v.directives) × (v'.gates ≡ v.gates)
    ⊎ (current.status ≡ "pending") × ReceiptOutcome u current target v v'

pub record ConfirmationTransitioned (u : Unicode) (id : ℕ) (input : TransitionRequest)
    (actor request_id : String) (v v' : Tables) : Type 0 where
  pub current : ExecutionConfirmation
  pub now : ℕ
  pub result : Option Outcome
  pub middle : Tables
  pub found : v.confirmations id ≡ some current
  pub edge : ReceiptEdge current.status (trim_space input.status)
  pub chosen : ChosenOutcome u current (trim_space input.status) v result
  pub written :
      Written confirmation_entity id input.expected_version
        (transitioned current (trim_space input.status) actor input.expected_version now)
        (audit_entry actor request_id "transition" "ExecutionConfirmation" id current.status
          (trim_space input.status)
          input.reason)
        v
        middle
  pub outcome_step : OutcomeStep result actor request_id input.reason now middle v'
  pub move : ReceiptMove id current input actor v'.confirmations
  pub final_outcome : FinalOutcome u current (trim_space input.status) v v'
