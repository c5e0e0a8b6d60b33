-- ===== src/Service/Confirmation/Outcomes.antt =====
-- What a receipt brings about, from the writes of the transaction of `Transition` in
-- backend/internal/service/execution_confirmation.go.
use gb_516_hydropower_gate_d.Prelude.{
  ℕ, String, ◌≡◌, refl, ap, ◌∙◌, subst, ◌⊎◌, inl, inr, true, false, Option, none, some, ◌=ˢ◌, arith,
  eq_iff, if_same, if_other,
}
use gb_516_hydropower_gate_d.Constants.Edges.{reached-GateEdge}
use gb_516_hydropower_gate_d.Text.{Unicode}
use gb_516_hydropower_gate_d.Model.{ExecutionConfirmation, GateUnit, AuditLog}
use gb_516_hydropower_gate_d.Platform.Schema.{
  Tables, merged, confirmation_entity, directive_entity, gate_entity,
}
use gb_516_hydropower_gate_d.Service.Records.{inc, dec, moved_gate, Written}
use gb_516_hydropower_gate_d.Service.Security.{audit_entry}
use gb_516_hydropower_gate_d.Service.Records.Rows.{
  gate_business, directive-IsTable, gate-IsTable, Written-row,
}
use gb_516_hydropower_gate_d.Service.Records.Kept.{
  confirmation-others, directive-others, gate-others,
}
use gb_516_hydropower_gate_d.Service.Confirmation.{Outcome, outcome_of, finished_directive}
use gb_516_hydropower_gate_d.Service.Confirmation.Effects.{
  ChosenOutcome, no_outcome, one_outcome, OutcomeApplied, OutcomeStep, FinalOutcome,
}

-- The write of the gate, unless it stays.
abbrev GateWrite : Outcome → String → String → String → ℕ → Tables → Tables → Type 0
GateWrite o actor request_id reason now v v' =
    ((o.gate.status =ˢ o.gate_target) ≡ true) × (v' ≡ v)
    ⊎ ((o.gate.status =ˢ o.gate_target) ≡ false)
      × Written gate_entity o.gate.id (dec (inc o.gate.version))
          (moved_gate o.gate o.gate_target now)
          (audit_entry actor request_id "execution_outcome" "GateUnit" o.gate.id o.gate.status
            o.gate_target reason)
          v v'

-- The outcome changes no receipt.
pub OutcomeStep-confirmations :
    (result : Option Outcome) (actor request_id reason : String) (now : ℕ) (v v' : Tables)
    → OutcomeStep result actor request_id reason now v v'
    → v'.confirmations ≡ v.confirmations
OutcomeStep-confirmations none actor request_id reason now v v' same =
    ap (λ t. t.confirmations) same
OutcomeStep-confirmations (some o) actor request_id reason now v v' applied =
    after_gate applied.gate_written ∙ (directive-others applied.directive_written).0
  where
    after_gate :
        GateWrite o actor request_id reason now applied.middle v'
        → v'.confirmations ≡ applied.middle.confirmations
    after_gate (inl (stays, same)) = ap (λ t. t.confirmations) same
    after_gate (inr (moves, written)) = (gate-others written).0

-- The gate in its new state.
record GateSettled (gate : GateUnit) (gate_target : String) (v v' : Tables) : Type 0 where
  after : GateUnit
  row : v'.gates gate.id ≡ some after
  status_eq : after.status ≡ gate_target
  kept : gate_business after ≡ gate_business gate
  directives_kept : v'.directives ≡ v.directives

gate_settled :
    (o : Outcome) (actor request_id reason : String) (now : ℕ) (v v' : Tables)
    (applied : OutcomeApplied o actor request_id reason now v v')
    → applied.middle.gates o.gate.id ≡ some o.gate
    → GateSettled o.gate o.gate_target applied.middle v'
gate_settled o actor request_id reason now v v' applied found = settle applied.gate_written
  where
    settle :
        GateWrite o actor request_id reason now applied.middle v'
        → GateSettled o.gate o.gate_target applied.middle v'
    settle (inl (stays, same)) = record {
      after = o.gate;
      row = ap (λ t. t.gates o.gate.id) same ∙ found;
      status_eq = (eq_iff _ _).0 stays;
      kept = refl;
      directives_kept = ap (λ t. t.directives) same;
    }
    settle (inr (moves, written)) =
        let (time, held, row) = Written-row gate_entity gate-IsTable o.gate written found in
        record {
          after = merged gate_entity o.gate (moved_gate o.gate o.gate_target now) time;
          row = row;
          status_eq = refl;
          kept = refl;
          directives_kept = (gate-others written).1;
        }

pub OutcomeStep-FinalOutcome :
    (u : Unicode) (id version : ℕ) (current item : ExecutionConfirmation) (target : String)
    (result : Option Outcome) (actor request_id reason : String) (now : ℕ) (entry : ℕ → AuditLog)
    (v middle v' : Tables)
    → ChosenOutcome u current target v result
    → Written confirmation_entity id version item entry v middle
    → OutcomeStep result actor request_id reason now middle v'
    → FinalOutcome u current target v v'
unfolding outcome_of
OutcomeStep-FinalOutcome u id version current item target result actor request_id reason now entry v
      middle v' (no_outcome other no_result) written step =
    let same = subst (λ r. OutcomeStep r actor request_id reason now middle v') no_result step in
    let (directives, gates) = confirmation-others written in
    inl (
      ground (arith, eq_iff current.status "pending"),
      ap (λ t. t.directives) same ∙ directives,
      ap (λ t. t.gates) same ∙ gates,
    )
OutcomeStep-FinalOutcome u id version current item target result actor request_id reason now entry v
      middle v' (one_outcome directive gate is_pending chosen one_result) written step =
    let applied =
      subst (λ r. OutcomeStep r actor request_id reason now middle v') one_result step in
    let (directives, gates) = confirmation-others written in
    let read = chosen.linked.read in
    let (time, held, row) =
      Written-row directive_entity directive-IsTable read.row applied.directive_written
        (ap (λ rows. rows directive.id) directives ∙ read.found) in
    let settled =
      gate_settled (outcome_of target directive gate) actor request_id reason now middle v' applied
        (ap (λ rows. rows gate.id) ((directive-others applied.directive_written).1 ∙ gates)
          ∙ chosen.found) in
    inr (
      is_pending,
      record {
        directive = directive;
        gate = gate;
        linked = chosen.linked;
        found = chosen.found;
        code = chosen.code;
        directive_after =
            merged directive_entity read.row
              (finished_directive directive (outcome_of target directive gate).directive_target now)
              time;
        directive_row = ap (λ rows. rows directive.id) settled.directives_kept ∙ row;
        completes = λ h. if_same _ _ _ _ h;
        aborts = λ h. if_other _ _ _ _ h;
        directive_version = refl;
        directive_kept = (refl, refl, refl, refl);
        gate_after = settled.after;
        gate_row = settled.row;
        reaches = λ h. settled.status_eq ∙ if_same _ _ _ _ h;
        locks = λ h. settled.status_eq ∙ if_other _ _ _ _ h;
        gate_edge = reached-GateEdge _ _ _ settled.status_eq chosen.permitted;
        gate_kept = settled.kept;
      },
    )
