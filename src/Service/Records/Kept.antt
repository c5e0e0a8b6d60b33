-- ===== src/Service/Records/Kept.antt =====
-- What a write of backend/internal/service leaves alone: the rows of the other tables.
use gb_516_hydropower_gate_d.Prelude.{ℕ, ◌≡◌, ap, ◌∙◌}
use gb_516_hydropower_gate_d.Model.{GateUnit, OperationDirective, ExecutionConfirmation, AuditLog}
use gb_516_hydropower_gate_d.Platform.Schema.{
  Tables, gate_entity, directive_entity, confirmation_entity,
}
use gb_516_hydropower_gate_d.Service.Records.{Written}

module _ {id version : ℕ} {entry : ℕ → AuditLog} {v v' : Tables} where
  pub confirmation-others :
      {item : ExecutionConfirmation}
      → Written confirmation_entity id version item entry v v'
      → (v'.directives ≡ v.directives) × (v'.gates ≡ v.gates)
  confirmation-others w = (
    ap (λ t. t.directives) w.trail.audited ∙ ap (λ t. t.directives) w.row.stored,
    ap (λ t. t.gates) w.trail.audited ∙ ap (λ t. t.gates) w.row.stored,
  )

  pub directive-others :
      {item : OperationDirective}
      → Written directive_entity id version item entry v v'
      → (v'.confirmations ≡ v.confirmations) × (v'.gates ≡ v.gates)
  directive-others w = (
    ap (λ t. t.confirmations) w.trail.audited ∙ ap (λ t. t.confirmations) w.row.stored,
    ap (λ t. t.gates) w.trail.audited ∙ ap (λ t. t.gates) w.row.stored,
  )

  pub gate-others :
      {item : GateUnit}
      → Written gate_entity id version item entry v v'
      → (v'.confirmations ≡ v.confirmations)
        × (v'.directives ≡ v.directives)
        × (v'.approvals ≡ v.approvals)
  gate-others w = (
    ap (λ t. t.confirmations) w.trail.audited ∙ ap (λ t. t.confirmations) w.row.stored,
    ap (λ t. t.directives) w.trail.audited ∙ ap (λ t. t.directives) w.row.stored,
    ap (λ t. t.approvals) w.trail.audited ∙ ap (λ t. t.approvals) w.row.stored,
  )
