-- ===== src/Service/Confirmation/Steps.antt =====
-- The steps that the operations on execution confirmations share.
use gb_516_hydropower_gate_d.Prelude.{
  ℕ, String, ◌≡◌, refl, inl, inr, Option, none, some, ◌=ˢ◌, Bool-cases, eq_iff,
}
use gb_516_hydropower_gate_d.Exec.{Error, After, bind-After, After-map, require-After}
use gb_516_hydropower_gate_d.Text.{Unicode}
use gb_516_hydropower_gate_d.Model.{ExecutionConfirmation}
use gb_516_hydropower_gate_d.Platform.{Platform, PlatformLaws}
use gb_516_hydropower_gate_d.Platform.Schema.{Tables, directive_entity, gate_entity}
use gb_516_hydropower_gate_d.Repository.Store.Laws.{AnyError, get_by_code-After}
use gb_516_hydropower_gate_d.Repository.Directives.Laws.{get_directive_by_code-After}
use gb_516_hydropower_gate_d.Service.Records.{write_then-After, inc, dec, moved_gate, write-After}
use gb_516_hydropower_gate_d.Service.Confirmation.{
  Outcome, finished_directive, require_executing_directive, outcome, apply_outcome,
}
use gb_516_hydropower_gate_d.Service.Confirmation.Effects.{
  Executing, ChosenOutcome, no_outcome, one_outcome, OutcomeApplied, OutcomeStep,
}

module _ (u : Unicode) (p : Platform) (laws : PlatformLaws p) where
  module _ (v : Tables) {E : Error → p.World → Type 0}
      (fail : (x : Error) (w : p.World) → p.view w ≡ v → E x w) where
    pub require_executing_directive-After :
        (code : String) (w : p.World)
        → p.view w ≡ v
        → After
            (λ x w'. Executing u code v x × (p.view w' ≡ v))
            E
            (require_executing_directive u p code w)
    unfolding require_executing_directive
    require_executing_directive-After code w h =
        bind-After _ _ _ (get_directive_by_code-After p laws v fail u code w h)
          λ x w₁ (read, code_eq, h₁). require-After _ _ _ _ (fail _ w₁ h₁) λ executing. record {
            holds = (
              record { read = read; code_eq = code_eq; executing = (eq_iff _ _).0 executing },
              h₁,
            );
          }

    pub outcome-After :
        (current : ExecutionConfirmation) (target : String) (w : p.World)
        → p.view w ≡ v
        → After
            (λ o w'. ChosenOutcome u current target v o × (p.view w' ≡ v))
            E
            (outcome u p current target w)
    unfolding outcome
    outcome-After current target w h = elim (Bool-cases (current.status =ˢ "pending")) [
      | inl is_pending ↦ rw is_pending (
          bind-After _ _ _ (require_executing_directive-After current.related_code w h)
            λ directive w₁ (linked, h₁).
              bind-After _ _ _
                (get_by_code-After p gate_entity p.gates laws.gate_laws v fail u
                  directive.related_code w₁ h₁)
                λ gate w₂ (found, code, h₂). require-After _ _ _ _ (fail _ w₂ h₂) λ permitted.
                  record {
                    holds = (
                      one_outcome directive gate ((eq_iff _ _).0 is_pending)
                          (record {
                            linked = linked;
                            found = found;
                            code = code;
                            permitted = permitted;
                          })
                          refl,
                      h₂,
                    );
                  })
      | inr other ↦ rw other (record { holds = (no_outcome other refl, h) })
    ]

  pub apply_outcome-After :
      (result : Option Outcome) (actor request_id reason : String) (now : ℕ) (v : Tables)
      (w : p.World)
      → p.view w ≡ v
      → After
          (λ _ w'. OutcomeStep result actor request_id reason now v (p.view w'))
          AnyError
          (apply_outcome u p result actor request_id reason now w)
  unfolding apply_outcome
  apply_outcome-After none actor request_id reason now v w h = record { holds = h }
  apply_outcome-After (some o) actor request_id reason now v w h =
      write_then-After p laws directive_entity p.directives laws.directive_laws o.directive.id
        (dec (inc o.directive.version)) (finished_directive o.directive o.directive_target now)
        actor request_id "execution_outcome" "OperationDirective" o.directive.id o.directive.status
        o.directive_target reason v w
        (λ _ w'. OutcomeApplied o actor request_id reason now v (p.view w')) _ refl h
        λ w₁ written. elim (Bool-cases (o.gate.status =ˢ o.gate_target)) [
          | inl stays ↦ rw stays (record {
            holds = record {
              middle = p.view w₁;
              directive_written = written;
              gate_written = inl (stays, refl);
            };
          })
          | inr moves ↦ rw moves (
              After-map _
                (write-After p laws gate_entity p.gates laws.gate_laws o.gate.id
                  (dec (inc o.gate.version)) (moved_gate o.gate o.gate_target now) actor request_id
                  "execution_outcome" "GateUnit" o.gate.id o.gate.status o.gate_target reason
                  (p.view w₁) w₁ refl refl)
                (λ _ _ gate_moved. record {
                  middle = p.view w₁;
                  directive_written = written;
                  gate_written = inr (moves, gate_moved);
                })
                (λ _ _ _. tt))
        ]
