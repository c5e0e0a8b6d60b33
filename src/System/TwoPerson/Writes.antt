-- ===== src/System/TwoPerson/Writes.antt =====
-- The writes to the directives, each of which keeps dispatch safe.
use gb_516_hydropower_gate_d.Prelude.{
  ℕ, String, ◌≡◌, refl, sym, ◌∙◌, ap, subst, inl, inr, Bool-cases, ◌⊎◌, Option, none, some, List,
  ◌=ˢ◌,
}
use gb_516_hydropower_gate_d.Text.{Unicode}
use gb_516_hydropower_gate_d.Model.{
  before_create, ExecutionConfirmation, GateUnit, OperationDirective, DirectiveApproval, AuditLog,
}
use gb_516_hydropower_gate_d.Dto.{
  TransitionRequest, CreateOperationDirective, UpdateOperationDirective,
}
use gb_516_hydropower_gate_d.Platform.Schema.{
  Tables, merged, gate_entity, directive_entity, confirmation_entity,
}
use gb_516_hydropower_gate_d.Service.Records.{Written}
use gb_516_hydropower_gate_d.Service.Directive.Draft
use gb_516_hydropower_gate_d.Service.Directive.Effects.{Transitioned}
use gb_516_hydropower_gate_d.Service.Confirmation.{Outcome, finished_directive, outcome_of}
use gb_516_hydropower_gate_d.Service.Confirmation.Effects.{
  Executing, OutcomeStep, OutcomeApplied, ChosenOutcome, ConfirmationTransitioned,
}
use gb_516_hydropower_gate_d.System.Evidence.{Grows, HasApproval}
use gb_516_hydropower_gate_d.Service.Directive.Draft.Effects.{
  DirectiveCreated, DirectiveEdited, DirectiveDeleted,
}
use gb_516_hydropower_gate_d.System.TwoPerson.Kept.{Kept, Written-Kept}
use gb_516_hydropower_gate_d.System.TwoPerson.Moves.{Transitioned-Moved}
use gb_516_hydropower_gate_d.System.TwoPerson.Invariant.{
  is_approved, is_submitted, Evidenced, IsDispatchSafe, Evidenced-idle, Evidenced-same,
  kept-IsDispatchSafe, put-IsDispatchSafe, Moved-Evidenced,
}

-- The approvals are those of before.
same_approvals : (l m : List DirectiveApproval) → m ≡ l → Grows l m
same_approvals l m e id stage actor roles h = subst (HasApproval id stage actor roles) (sym e) h

row_eq : (x y : OperationDirective) → some x ≡ some y → y ≡ x
row_eq x y e = cc (e)

module _ (u : Unicode) where
  Written-IsDispatchSafe :
      {id version : ℕ} {item : OperationDirective} {entry : ℕ → AuditLog} (v v' : Tables)
      → Written directive_entity id version item entry v v'
      → ((old : OperationDirective) (time : ℕ)
          → v.directives id ≡ some old
          → Evidenced u id old v.approvals
          → Evidenced u id (merged directive_entity old item time) v.approvals)
      → IsDispatchSafe u v
      → IsDispatchSafe u v'
  Written-IsDispatchSafe {id = id} {item = item} v v' c new h =
      let approvals_eq =
        ap (λ (t : Tables). t.approvals) c.trail.audited
        ∙ ap (λ (t : Tables). t.approvals) c.row.stored in
      put-IsDispatchSafe u id (some (merged directive_entity c.row.old item c.row.time)) v v'
        (ap (λ (t : Tables). t.directives) c.trail.audited
          ∙ ap (λ (t : Tables). t.directives) c.row.stored)
        (same_approvals v.approvals v'.approvals approvals_eq)
        (λ x e. subst (Evidenced u id x) (sym approvals_eq) (
          subst (λ y. Evidenced u id y v.approvals) (cc (e))
            (new c.row.old c.row.time c.row.found (h id c.row.old c.row.found))))
        h

  pub Transitioned-IsDispatchSafe :
      (v v' : Tables) {id : ℕ} {input : TransitionRequest} {actor role request_id : String}
      → Transitioned u id input actor role request_id v v'
      → IsDispatchSafe u v
      → IsDispatchSafe u v'
  Transitioned-IsDispatchSafe v v' {id = id} {input = input} {actor = actor} {role = role}
        {request_id = request_id} t h =
      let (old, x, m) = Transitioned-Moved u id input actor role request_id v v' t in
      put-IsDispatchSafe u id (some x) v v' m.rows m.grows
        (λ y e.
          subst (λ z. Evidenced u id z v'.approvals) (cc (e))
            (Moved-Evidenced u id old x v v' m (h id old m.found)))
        h

  pub created-IsDispatchSafe :
      (v v' : Tables) {input : CreateOperationDirective} {actor request_id : String}
      {x : OperationDirective}
      → DirectiveCreated u input actor request_id x v v'
      → IsDispatchSafe u v
      → IsDispatchSafe u v'
  unfolding Draft.new_record before_create
  created-IsDispatchSafe v v' {x = x} t h =
      let c = t.created in
      put-IsDispatchSafe u c.row.id (some (directive_entity.columns x)) v v'
        (ap (λ (t : Tables). t.directives) c.trail.audited
          ∙ ap (λ (t : Tables). t.directives) c.row.inserted)
        (same_approvals v.approvals v'.approvals (
          ap (λ (t : Tables). t.approvals) c.trail.audited
          ∙ ap (λ (t : Tables). t.approvals) c.row.inserted))
        (λ y e.
          Evidenced-idle u _ y _ "draft"
            (ap (λ (d : OperationDirective). d.status)
              (row_eq _ _ e ∙ ap directive_entity.columns c.row.item_eq))
            refl refl)
        h

  pub edited-IsDispatchSafe :
      (v v' : Tables) {id : ℕ} {input : UpdateOperationDirective} {actor request_id : String}
      → DirectiveEdited u id input actor request_id v v'
      → IsDispatchSafe u v
      → IsDispatchSafe u v'
  unfolding Draft.edited_record
  edited-IsDispatchSafe v v' t h =
      Written-IsDispatchSafe v v' t.written
        (λ old time found e. Evidenced-idle u _ _ _ "draft" t.draft refl refl) h

  pub deleted-IsDispatchSafe :
      (v v' : Tables) {id : ℕ} {actor request_id : String}
      → DirectiveDeleted id actor request_id v v'
      → IsDispatchSafe u v
      → IsDispatchSafe u v'
  deleted-IsDispatchSafe v v' {id = id} t h =
      let c = t.deleted in
      put-IsDispatchSafe u id none v v'
        (ap (λ (t : Tables). t.directives) c.trail.audited
          ∙ ap (λ (t : Tables). t.directives) c.row.removed)
        (same_approvals v.approvals v'.approvals (
          ap (λ (t : Tables). t.approvals) c.trail.audited
          ∙ ap (λ (t : Tables). t.approvals) c.row.removed))
        (λ y e. absurd (cc (e))) h

  -- The receipt finds the directive executing and ends it.
  Executing-Evidenced :
      (v : Tables) (l : List DirectiveApproval) (code : String) (o old : OperationDirective)
      (target : String) (now time : ℕ)
      → Executing u code v o
      → v.directives o.id ≡ some old
      → (target ≡ "completed") ⊎ (target ≡ "aborted")
      → Evidenced u o.id old l
      → Evidenced u o.id (merged directive_entity old (finished_directive o target now) time) l
  Executing-Evidenced v l code o old target now time x found final e =
      let same : x.read.row ≡ old = cc (x.read.found, found) in
      let o_eq : o ≡ record old { approvals = x.read.approvals } =
        x.read.item_eq
        ∙ ap (λ (d : OperationDirective). record d { approvals = x.read.approvals }) same in
      let executing : old.status ≡ "executing" =
        sym (ap (λ (d : OperationDirective). d.status) o_eq) ∙ x.executing in
      elim final [
        | inl done ↦
            Evidenced-same u o.id old _ _ (ap is_approved executing)
              (sym (ap (λ (d : OperationDirective). d.submitted_by) o_eq))
              (sym (ap (λ (d : OperationDirective). d.approved_by) o_eq))
              (ap is_submitted executing) e
        | inr aborted ↦ Evidenced-idle u _ _ _ "aborted" aborted refl refl
      ]

  outcome_is_final :
      (target : String) (directive : OperationDirective) (gate : GateUnit)
      → let o = outcome_of target directive gate in
        (o.directive_target ≡ "completed") ⊎ (o.directive_target ≡ "aborted")
  unfolding outcome_of
  outcome_is_final target directive gate = elim (Bool-cases (target =ˢ "confirmed")) [
    | inl good ↦ inl (rw good refl)
    | inr bad ↦ inr (rw bad refl)
  ]

  outcome-IsDispatchSafe :
      (v v0 v' : Tables) (current : ExecutionConfirmation) (target : String)
      (result : Option Outcome) (actor request_id reason : String) (now : ℕ)
      → Kept v v0
      → ChosenOutcome u current target v result
      → OutcomeStep result actor request_id reason now v0 v'
      → IsDispatchSafe u v0
      → IsDispatchSafe u v'
  unfolding outcome_of
  outcome-IsDispatchSafe v v0 v' current target none actor request_id reason now kept chosen step
        h =
      subst (IsDispatchSafe u) (sym step) h
  outcome-IsDispatchSafe v v0 v' current target (some o) actor request_id reason now kept
        (ChosenOutcome.no_outcome _ e) step h =
      absurd (cc (e))
  outcome-IsDispatchSafe v v0 v' current target (some o) actor request_id reason now (rows, _)
        (ChosenOutcome.one_outcome directive gate p c e) step h =
      let o_eq : o ≡ outcome_of target directive gate = cc (e) in
      let applied : OutcomeApplied (outcome_of target directive gate) actor request_id reason now v0
          v' =
        subst (λ x. OutcomeApplied x actor request_id reason now v0 v') o_eq step in
      let middle : IsDispatchSafe u applied.middle =
        Written-IsDispatchSafe v0 applied.middle applied.directive_written
          (λ old time found evidence.
            Executing-Evidenced v v0.approvals current.related_code _ old _ now time c.linked
              (sym (ap (λ (r : ℕ → Option OperationDirective). r directive.id) rows) ∙ found)
              (outcome_is_final target directive gate) evidence)
          h in
      elim applied.gate_written [
        | inl (_, same) ↦ subst (IsDispatchSafe u) (sym same) middle
        | inr (_, moved) ↦
            kept-IsDispatchSafe u applied.middle v'
              (Written-Kept gate_entity (λ _ _ _. (refl, refl)) applied.middle v' moved) middle
      ]

  pub confirmed-IsDispatchSafe :
      (v v' : Tables) {id : ℕ} {input : TransitionRequest} {actor request_id : String}
      → ConfirmationTransitioned u id input actor request_id v v'
      → IsDispatchSafe u v
      → IsDispatchSafe u v'
  confirmed-IsDispatchSafe v v' t h =
      let kept = Written-Kept confirmation_entity (λ _ _ _. (refl, refl)) v t.middle t.written in
      outcome-IsDispatchSafe v t.middle v' t.current _ t.result _ _ _ t.now kept t.chosen
        t.outcome_step (kept-IsDispatchSafe u v t.middle kept h)
