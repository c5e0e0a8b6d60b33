-- ===== src/Examples/Witnesses.antt =====
-- The theorems applied to the database in memory.
use gb_516_hydropower_gate_d.Prelude.{◌≡◌, refl, ◌⊎◌, some}
use gb_516_hydropower_gate_d.Exec.{After}
use gb_516_hydropower_gate_d.Repository.Directives.Laws.{DirectiveRead}
use gb_516_hydropower_gate_d.Service.Reservoir
use gb_516_hydropower_gate_d.Service.Reservoir.Effects as ReservoirEffects
use gb_516_hydropower_gate_d.Service.Reservoir.Effects.{
  ReservoirCreated, ReservoirEdited, ReservoirTransitioned, ReservoirDeleted,
}
use gb_516_hydropower_gate_d.Service.Gate
use gb_516_hydropower_gate_d.Service.Gate.Effects as GateEffects
use gb_516_hydropower_gate_d.Service.Gate.Effects.{
  GateCreated, GateEdited, GateTransitioned, GateDeleted,
}
use gb_516_hydropower_gate_d.Service.Directive
use gb_516_hydropower_gate_d.Service.Directive.Effects.{Transitioned}
use gb_516_hydropower_gate_d.Service.Directive.Transition as DirectiveTransition
use gb_516_hydropower_gate_d.Service.Directive.Draft
use gb_516_hydropower_gate_d.Service.Directive.Draft.Effects as DraftEffects
use gb_516_hydropower_gate_d.Service.Directive.Draft.Effects.{
  DirectiveCreated, DirectiveEdited, DirectiveDeleted,
}
use gb_516_hydropower_gate_d.Service.Confirmation
use gb_516_hydropower_gate_d.Service.Confirmation.Effects.{
  ConfirmationCreated, ConfirmationEdited, ConfirmationTransitioned, ConfirmationDeleted,
}
use gb_516_hydropower_gate_d.Service.Confirmation.Proofs
use gb_516_hydropower_gate_d.Examples.Memory.{tables}
use gb_516_hydropower_gate_d.Examples.Database.{memory, memory_laws, ascii}
use gb_516_hydropower_gate_d.Examples.Data.{
  move, reservoir_input, gate_input, directive_input, confirmation_input, reservoir_edit, gate_edit,
  directive_edit, confirmation_edit, reservoir_memory, gate_memory, directive_memory,
  confirmation_memory, submitted_memory,
}

create-ReservoirCreated_example :
    After
      (λ x w'.
        ReservoirCreated ascii reservoir_input "ann" "r1" x (tables reservoir_memory) (tables w'))
      (λ _ w'. tables w' ≡ tables reservoir_memory)
      (Reservoir.create ascii memory reservoir_input "ann" "r1" reservoir_memory)
create-ReservoirCreated_example =
    ReservoirEffects.create-ReservoirCreated ascii memory memory_laws (tables reservoir_memory)
      reservoir_memory refl reservoir_input "ann" "r1"

update-ReservoirEdited_example :
    After
      (λ x w'.
        ReservoirEdited ascii 1 reservoir_edit "ann" "r1" (tables reservoir_memory) (tables w')
        × ((tables w').reservoirs 1 ≡ some x))
      (λ _ w'.
        (tables w' ≡ tables reservoir_memory)
        ⊎ ReservoirEdited ascii 1 reservoir_edit "ann" "r1" (tables reservoir_memory) (tables w'))
      (Reservoir.update ascii memory 1 reservoir_edit "ann" "r1" reservoir_memory)
update-ReservoirEdited_example =
    ReservoirEffects.update-ReservoirEdited ascii memory memory_laws (tables reservoir_memory)
      reservoir_memory refl 1 reservoir_edit "ann" "r1"

delete-ReservoirDeleted_example :
    After
      (λ _ w'. ReservoirDeleted 1 "ann" "r1" (tables reservoir_memory) (tables w'))
      (λ _ w'. tables w' ≡ tables reservoir_memory)
      (Reservoir.delete ascii memory 1 "ann" "r1" reservoir_memory)
delete-ReservoirDeleted_example =
    ReservoirEffects.delete-ReservoirDeleted ascii memory memory_laws (tables reservoir_memory)
      reservoir_memory refl 1 "ann" "r1"

transition-ReservoirTransitioned_example :
    After
      (λ x w'.
        ReservoirTransitioned 1 (move "warning" 1) "ann" "r1" (tables reservoir_memory) (tables w')
        × ((tables w').reservoirs 1 ≡ some x))
      (λ _ w'.
        (tables w' ≡ tables reservoir_memory)
        ⊎ ReservoirTransitioned 1
            (move "warning" 1)
            "ann"
            "r1"
            (tables reservoir_memory)
            (tables w'))
      (Reservoir.transition ascii memory 1 (move "warning" 1) "ann" "r1" reservoir_memory)
transition-ReservoirTransitioned_example =
    ReservoirEffects.transition-ReservoirTransitioned ascii memory memory_laws
      (tables reservoir_memory) reservoir_memory refl 1 (move "warning" 1) "ann" "r1"

create-GateCreated_example :
    After
      (λ x w'. GateCreated ascii gate_input "ann" "r1" x (tables gate_memory) (tables w'))
      (λ _ w'. tables w' ≡ tables gate_memory)
      (Gate.create ascii memory gate_input "ann" "r1" gate_memory)
create-GateCreated_example =
    GateEffects.create-GateCreated ascii memory memory_laws (tables gate_memory) gate_memory refl
      gate_input "ann" "r1"

update-GateEdited_example :
    After
      (λ x w'.
        GateEdited ascii 3 gate_edit "ann" "r1" (tables gate_memory) (tables w')
        × ((tables w').gates 3 ≡ some x))
      (λ _ w'.
        (tables w' ≡ tables gate_memory)
        ⊎ GateEdited ascii 3 gate_edit "ann" "r1" (tables gate_memory) (tables w'))
      (Gate.update ascii memory 3 gate_edit "ann" "r1" gate_memory)
update-GateEdited_example =
    GateEffects.update-GateEdited ascii memory memory_laws (tables gate_memory) gate_memory refl 3
      gate_edit "ann" "r1"

delete-GateDeleted_example :
    After
      (λ _ w'. GateDeleted 3 "ann" "r1" (tables gate_memory) (tables w'))
      (λ _ w'. tables w' ≡ tables gate_memory)
      (Gate.delete ascii memory 3 "ann" "r1" gate_memory)
delete-GateDeleted_example =
    GateEffects.delete-GateDeleted ascii memory memory_laws (tables gate_memory) gate_memory refl 3
      "ann" "r1"

transition-GateTransitioned_example :
    After
      (λ x w'.
        GateTransitioned 3 (move "moving" 1) "ann" "r1" (tables gate_memory) (tables w')
        × ((tables w').gates 3 ≡ some x))
      (λ _ w'.
        (tables w' ≡ tables gate_memory)
        ⊎ GateTransitioned 3 (move "moving" 1) "ann" "r1" (tables gate_memory) (tables w'))
      (Gate.transition ascii memory 3 (move "moving" 1) "ann" "r1" gate_memory)
transition-GateTransitioned_example =
    GateEffects.transition-GateTransitioned ascii memory memory_laws (tables gate_memory)
      gate_memory refl 3 (move "moving" 1) "ann" "r1"

create-DirectiveCreated_example :
    After
      (λ x w'.
        DirectiveCreated ascii directive_input "ann" "r1" x (tables directive_memory) (tables w'))
      (λ _ w'. tables w' ≡ tables directive_memory)
      (Draft.create ascii memory directive_input "ann" "r1" directive_memory)
create-DirectiveCreated_example =
    DraftEffects.create-DirectiveCreated ascii memory memory_laws (tables directive_memory)
      directive_memory refl directive_input "ann" "r1"

update-DirectiveEdited_example :
    After
      (λ x w'.
        DirectiveEdited ascii 5 directive_edit "ann" "r1" (tables directive_memory) (tables w')
        × DirectiveRead 5 (tables w') x)
      (λ _ w'.
        (tables w' ≡ tables directive_memory)
        ⊎ DirectiveEdited ascii 5 directive_edit "ann" "r1" (tables directive_memory) (tables w'))
      (Draft.update ascii memory 5 directive_edit "ann" "r1" directive_memory)
update-DirectiveEdited_example =
    DraftEffects.update-DirectiveEdited ascii memory memory_laws (tables directive_memory)
      directive_memory refl 5 directive_edit "ann" "r1"

delete-DirectiveDeleted_example :
    After
      (λ _ w'. DirectiveDeleted 5 "ann" "r1" (tables directive_memory) (tables w'))
      (λ _ w'. tables w' ≡ tables directive_memory)
      (Draft.delete ascii memory 5 "ann" "r1" directive_memory)
delete-DirectiveDeleted_example =
    DraftEffects.delete-DirectiveDeleted ascii memory memory_laws (tables directive_memory)
      directive_memory refl 5 "ann" "r1"

transition-Transitioned_example :
    After
      (λ x w'.
        Transitioned ascii 5
          (move "approved" 2)
          "bob"
          "reviewer"
          "r2"
          (tables submitted_memory)
          (tables w')
        × DirectiveRead 5 (tables w') x)
      (λ _ w'.
        (tables w' ≡ tables submitted_memory)
        ⊎ Transitioned ascii 5
            (move "approved" 2)
            "bob"
            "reviewer"
            "r2"
            (tables submitted_memory)
            (tables w'))
      (Directive.transition ascii memory 5
        (move "approved" 2)
        "bob"
        "reviewer"
        "r2"
        submitted_memory)
transition-Transitioned_example =
    DirectiveTransition.transition-Transitioned ascii memory memory_laws 5 (move "approved" 2) "bob"
      "reviewer" "r2" (tables submitted_memory) submitted_memory refl

create-ConfirmationCreated_example :
    After
      (λ x w'.
        ConfirmationCreated ascii confirmation_input "ann" "r1" x
          (tables confirmation_memory)
          (tables w'))
      (λ _ w'. tables w' ≡ tables confirmation_memory)
      (Confirmation.create ascii memory confirmation_input "ann" "r1" confirmation_memory)
create-ConfirmationCreated_example =
    Proofs.create-ConfirmationCreated ascii memory memory_laws (tables confirmation_memory)
      confirmation_memory refl confirmation_input "ann" "r1"

update-ConfirmationEdited_example :
    After
      (λ x w'.
        ConfirmationEdited ascii 7 confirmation_edit "ann" "r1"
          (tables confirmation_memory)
          (tables w')
        × ((tables w').confirmations 7 ≡ some x))
      (λ _ w'.
        (tables w' ≡ tables confirmation_memory)
        ⊎ ConfirmationEdited ascii 7 confirmation_edit "ann" "r1"
            (tables confirmation_memory)
            (tables w'))
      (Confirmation.update ascii memory 7 confirmation_edit "ann" "r1" confirmation_memory)
update-ConfirmationEdited_example =
    Proofs.update-ConfirmationEdited ascii memory memory_laws (tables confirmation_memory)
      confirmation_memory refl 7 confirmation_edit "ann" "r1"

delete-ConfirmationDeleted_example :
    After
      (λ _ w'. ConfirmationDeleted 7 "ann" "r1" (tables confirmation_memory) (tables w'))
      (λ _ w'. tables w' ≡ tables confirmation_memory)
      (Confirmation.delete ascii memory 7 "ann" "r1" confirmation_memory)
delete-ConfirmationDeleted_example =
    Proofs.delete-ConfirmationDeleted ascii memory memory_laws (tables confirmation_memory)
      confirmation_memory refl 7 "ann" "r1"

transition-ConfirmationTransitioned_example :
    After
      (λ x w'.
        ConfirmationTransitioned ascii 7
          (move "confirmed" 1)
          "ann"
          "r1"
          (tables confirmation_memory)
          (tables w')
        × ((tables w').confirmations 7 ≡ some x))
      (λ _ w'.
        (tables w' ≡ tables confirmation_memory)
        ⊎ ConfirmationTransitioned ascii 7
            (move "confirmed" 1)
            "ann"
            "r1"
            (tables confirmation_memory)
            (tables w'))
      (Confirmation.transition ascii memory 7 (move "confirmed" 1) "ann" "r1" confirmation_memory)
transition-ConfirmationTransitioned_example =
    Proofs.transition-ConfirmationTransitioned ascii memory memory_laws (tables confirmation_memory)
      confirmation_memory refl 7 (move "confirmed" 1) "ann" "r1"
