-- ===== src/System/Changes.antt =====
-- What one write request can have done to the tables: nothing, or one of the effects that the services
-- specify.
use gb_516_hydropower_gate_d.Prelude.{ℕ, String, ◌≡◌}
use gb_516_hydropower_gate_d.Text.{Unicode}
use gb_516_hydropower_gate_d.Model.{Reservoir, GateUnit, OperationDirective, ExecutionConfirmation}
use gb_516_hydropower_gate_d.Dto.{
  CreateReservoir, UpdateReservoir, CreateGateUnit, UpdateGateUnit, CreateOperationDirective,
  UpdateOperationDirective, CreateExecutionConfirmation, UpdateExecutionConfirmation,
  TransitionRequest,
}
use gb_516_hydropower_gate_d.Platform.Schema.{Tables}
use gb_516_hydropower_gate_d.Service.Reservoir.Effects.{
  ReservoirCreated, ReservoirEdited, ReservoirTransitioned, ReservoirDeleted,
}
use gb_516_hydropower_gate_d.Service.Gate.Effects.{
  GateCreated, GateEdited, GateTransitioned, GateDeleted,
}
use gb_516_hydropower_gate_d.Service.Directive.Draft.Effects.{
  DirectiveCreated, DirectiveEdited, DirectiveDeleted,
}
use gb_516_hydropower_gate_d.Service.Directive.Effects.{Transitioned}
use gb_516_hydropower_gate_d.Service.Confirmation.Effects.{
  ConfirmationCreated, ConfirmationEdited, ConfirmationTransitioned, ConfirmationDeleted,
}

pub data Change (u : Unicode) (v v' : Tables) : Type 0 where
  no_change : v' ≡ v → Change u v v'
  reservoir_created :
      (input : CreateReservoir) (actor request_id : String) (x : Reservoir)
      → ReservoirCreated u input actor request_id x v v'
      → Change u v v'
  reservoir_edited :
      (id : ℕ) (input : UpdateReservoir) (actor request_id : String)
      → ReservoirEdited u id input actor request_id v v'
      → Change u v v'
  reservoir_moved :
      (id : ℕ) (input : TransitionRequest) (actor request_id : String)
      → ReservoirTransitioned id input actor request_id v v'
      → Change u v v'
  reservoir_deleted :
      (id : ℕ) (actor request_id : String)
      → ReservoirDeleted id actor request_id v v'
      → Change u v v'
  gate_created :
      (input : CreateGateUnit) (actor request_id : String) (x : GateUnit)
      → GateCreated u input actor request_id x v v'
      → Change u v v'
  gate_edited :
      (id : ℕ) (input : UpdateGateUnit) (actor request_id : String)
      → GateEdited u id input actor request_id v v'
      → Change u v v'
  gate_moved :
      (id : ℕ) (input : TransitionRequest) (actor request_id : String)
      → GateTransitioned id input actor request_id v v'
      → Change u v v'
  gate_deleted :
      (id : ℕ) (actor request_id : String) → GateDeleted id actor request_id v v' → Change u v v'
  directive_created :
      (input : CreateOperationDirective) (actor request_id : String) (x : OperationDirective)
      → DirectiveCreated u input actor request_id x v v'
      → Change u v v'
  directive_edited :
      (id : ℕ) (input : UpdateOperationDirective) (actor request_id : String)
      → DirectiveEdited u id input actor request_id v v'
      → Change u v v'
  directive_moved :
      (id : ℕ) (input : TransitionRequest) (actor role request_id : String)
      → Transitioned u id input actor role request_id v v'
      → Change u v v'
  directive_deleted :
      (id : ℕ) (actor request_id : String)
      → DirectiveDeleted id actor request_id v v'
      → Change u v v'
  confirmation_created :
      (input : CreateExecutionConfirmation) (actor request_id : String) (x : ExecutionConfirmation)
      → ConfirmationCreated u input actor request_id x v v'
      → Change u v v'
  confirmation_edited :
      (id : ℕ) (input : UpdateExecutionConfirmation) (actor request_id : String)
      → ConfirmationEdited u id input actor request_id v v'
      → Change u v v'
  confirmation_moved :
      (id : ℕ) (input : TransitionRequest) (actor request_id : String)
      → ConfirmationTransitioned u id input actor request_id v v'
      → Change u v v'
  confirmation_deleted :
      (id : ℕ) (actor request_id : String)
      → ConfirmationDeleted id actor request_id v v'
      → Change u v v'
