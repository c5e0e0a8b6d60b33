-- ===== src/Examples/Data.antt =====
-- Inputs and stored tables for the runs.
use gb_516_hydropower_gate_d.Prelude.{ℕ, String, none, some, List, [], ◌∷◌}
use gb_516_hydropower_gate_d.Model.{
  BaseModel, Reservoir, OperationDirective, GateUnit, ExecutionConfirmation,
}
use gb_516_hydropower_gate_d.Dto.{
  CreateReservoir, CreateGateUnit, CreateOperationDirective, CreateExecutionConfirmation,
  TransitionRequest, UpdateReservoir, UpdateGateUnit, UpdateOperationDirective,
  UpdateExecutionConfirmation,
}
use gb_516_hydropower_gate_d.System.Serve.{Caller, Request}
use gb_516_hydropower_gate_d.Examples.Memory.{Memory, empty_memory}

abbrev pub ann : Caller
ann = record { actor = "ann"; role = "operator"; request_id = "r1" }

abbrev pub bob : Caller
bob = record { actor = "bob"; role = "reviewer"; request_id = "r2" }

abbrev pub reservoir_input : CreateReservoir
reservoir_input = record {
  code = "r1";
  name = "Lake";
  description = "";
  facility = "north";
  owner = "ops";
  category = "dam";
  risk_level = "low";
  metric_value = 0;
  metric_unit = "m";
  effective_at = 5;
  evidence = "";
  related_code = "";
}

abbrev pub gate_input : CreateGateUnit
gate_input = record {
  code = "g1";
  name = "Spillway";
  description = "";
  facility = "north";
  owner = "ops";
  category = "gate";
  risk_level = "low";
  metric_value = 0;
  metric_unit = "m";
  effective_at = 5;
  evidence = "";
  related_code = "R1";
}

abbrev pub directive_input : CreateOperationDirective
directive_input = record {
  code = "d1";
  name = "Close";
  description = "";
  facility = "North ";
  owner = "ops";
  category = "flood";
  risk_level = "high";
  metric_value = 0;
  metric_unit = "m";
  effective_at = 5;
  evidence = "";
  related_code = "g1";
  gate_state = "";
}

abbrev pub confirmation_input : CreateExecutionConfirmation
confirmation_input = record {
  code = "c1";
  name = "Receipt";
  description = "";
  facility = "north";
  owner = "ops";
  category = "flood";
  risk_level = "high";
  metric_value = 0;
  metric_unit = "m";
  effective_at = 5;
  evidence = "log";
  related_code = "d1";
}

abbrev pub move : String → ℕ → TransitionRequest
move status version = record { status = status; expected_version = version; reason = "as planned" }

abbrev base_row : ℕ → String → String → ℕ → BaseModel
base_row id code status version = record {
  id = id;
  code = code;
  name = "N";
  status = status;
  version = version;
  description = "";
  created_at = 1;
  updated_at = 1;
  deleted_at = none;
}

abbrev pub closed_gate : GateUnit
closed_gate = record {
  base = base_row 3 "G1" "closed" 1;
  facility = "north";
  owner = "ops";
  category = "gate";
  risk_level = "low";
  metric_value = 0;
  metric_unit = "m";
  effective_at = 5;
  evidence = "";
  related_code = "R1";
}

abbrev pub pending_directive : OperationDirective
pending_directive = record {
  base = base_row 5 "D1" "pending" 2;
  facility = "north";
  owner = "ops";
  category = "flood";
  risk_level = "high";
  metric_value = 0;
  metric_unit = "m";
  effective_at = 5;
  evidence = "";
  related_code = "G1";
  gate_state = "closed";
  submitted_by = "ann";
  submitted_at = some 10;
  approved_by = "";
  approved_at = none;
  approvals = [];
}

-- A closed gate with id 3, and a directive with id 5 that ann has submitted.
abbrev pub submitted_memory : Memory
submitted_memory = record empty_memory {
  gates = (3, some closed_gate) ∷ [];
  directives = (5, some pending_directive) ∷ [];
  next = 10;
}

abbrev pub reservoir_edit : UpdateReservoir
reservoir_edit = record {
  expected_version = 1;
  name = "Name";
  description = "";
  facility = "north";
  owner = "ops";
  category = "dam";
  risk_level = "low";
  metric_value = 0;
  metric_unit = "m";
  effective_at = 5;
  evidence = "";
  related_code = "";
}

abbrev pub gate_edit : UpdateGateUnit
gate_edit = record {
  expected_version = 1;
  name = "Name";
  description = "";
  facility = "north";
  owner = "ops";
  category = "dam";
  risk_level = "low";
  metric_value = 0;
  metric_unit = "m";
  effective_at = 5;
  evidence = "";
  related_code = "R1";
}

abbrev pub directive_edit : UpdateOperationDirective
directive_edit = record {
  expected_version = 1;
  name = "Name";
  description = "";
  facility = "north";
  owner = "ops";
  category = "dam";
  risk_level = "low";
  metric_value = 0;
  metric_unit = "m";
  effective_at = 5;
  evidence = "";
  related_code = "G1";
  gate_state = "closed";
}

abbrev pub confirmation_edit : UpdateExecutionConfirmation
confirmation_edit = record {
  expected_version = 1;
  name = "Name";
  description = "";
  facility = "north";
  owner = "ops";
  category = "dam";
  risk_level = "low";
  metric_value = 0;
  metric_unit = "m";
  effective_at = 5;
  evidence = "";
  related_code = "D1";
}

abbrev pub lake : Reservoir
lake = record {
  base = base_row 1 "R1" "normal" 1;
  facility = "north";
  owner = "ops";
  category = "dam";
  risk_level = "low";
  metric_value = 0;
  metric_unit = "m";
  effective_at = 5;
  evidence = "";
  related_code = "";
}

abbrev pub receipt : ExecutionConfirmation
receipt = record {
  base = base_row 7 "C1" "pending" 1;
  facility = "north";
  owner = "ops";
  category = "flood";
  risk_level = "high";
  metric_value = 0;
  metric_unit = "m";
  effective_at = 5;
  evidence = "log";
  related_code = "D1";
  confirmed_by = "";
  confirmed_at = none;
}

abbrev pub reservoir_memory : Memory
reservoir_memory = record empty_memory { reservoirs = (1, some lake) ∷ []; next = 10 }

abbrev pub gate_memory : Memory
gate_memory = record reservoir_memory { gates = (3, some closed_gate) ∷ [] }

-- A draft for the closed gate.
abbrev pub directive_memory : Memory
directive_memory = record gate_memory {
  directives =
      (
        5,
        some (record pending_directive {
          base = base_row 5 "D1" "draft" 1;
          submitted_by = "";
          submitted_at = none;
        }),
      )
      ∷ [];
}

-- The directive is being executed, and its receipt is pending.
abbrev pub confirmation_memory : Memory
confirmation_memory = record gate_memory {
  gates = (3, some (record closed_gate { base = base_row 3 "G1" "moving" 2 })) ∷ [];
  directives =
      (
        5,
        some (record pending_directive {
          base = base_row 5 "D1" "executing" 4;
          approved_by = "bob";
          approved_at = some 11;
        }),
      )
      ∷ [];
  confirmations = (7, some receipt) ∷ [];
}

abbrev pub approval : List (Caller × Request)
approval = (bob, Request.transition_directive 5 (move "approved" 2)) ∷ []

-- The row that ann's submission has left.
abbrev pub evidence_memory : Memory
evidence_memory = record submitted_memory {
  approvals =
      (record {
        id = 6;
        directive_id = 5;
        stage = "submitted";
        actor = "ann";
        role = "operator";
        request_id = "r1";
        reason = "as planned";
        from_state = "draft";
        to_state = "pending";
        created_at = 10;
      })
      ∷ [];
}

abbrev pub prepared : List (Caller × Request)
prepared =
    (ann, Request.create_reservoir reservoir_input)
    ∷ (ann, Request.create_gate gate_input)
    ∷ (ann, Request.create_directive directive_input)
    ∷ []
