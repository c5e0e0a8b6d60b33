-- ===== src/System/TwoPerson/Moves.antt =====
-- What a committed transition means for the row of the directive and for the approvals.
use gb_516_hydropower_gate_d.Prelude.{
  ℕ, String, ◌≡◌, ◌≢◌, refl, sym, ◌∙◌, ap, subst, inl, inr, true, false, Option, none, some, List,
  ◌=ˢ◌, eq_iff, arith, if◌then◌else◌,
}
use gb_516_hydropower_gate_d.Text.{Unicode, trim_space, equal_fold}
use gb_516_hydropower_gate_d.Constants.Edges.{DirectiveEdge}
use gb_516_hydropower_gate_d.Model.{OperationDirective, DirectiveApproval, GateUnit}
use gb_516_hydropower_gate_d.Dto.{TransitionRequest}
use gb_516_hydropower_gate_d.Platform.Schema.{Tables, override, directive_entity, merged}
use gb_516_hydropower_gate_d.Repository.Directives.Laws.{with_approval}
use gb_516_hydropower_gate_d.Service.Directive.{directive_role_allowed, approval_for, advanced}
use gb_516_hydropower_gate_d.Service.Directive.Effects.{GateStep, Transitioned}
use gb_516_hydropower_gate_d.System.Evidence.{
  HasApproval, submits, approves, Grows, Grows-with_approval,
}

pub record Moved (u : Unicode) (id : ℕ) (old x : OperationDirective) (v v' : Tables) : Type 0 where
  pub found : v.directives id ≡ some old
  pub rows : v'.directives ≡ override id (some x) v.directives
  pub edge : DirectiveEdge old.status x.status
  pub not_completed : x.status ≢ "completed"
  pub submitted :
      x.status ≡ "pending" → HasApproval id "submitted" x.submitted_by submits v'.approvals
  pub two_person :
      x.status ≡ "approved"
      → (old.submitted_by ≢ "") × (equal_fold u old.submitted_by x.approved_by ≡ false)
  pub approved :
      x.status ≡ "approved" → HasApproval id "approved" x.approved_by approves v'.approvals
  pub same_submitter : x.status ≢ "pending" → x.submitted_by ≡ old.submitted_by
  pub same_approver : x.status ≢ "approved" → x.approved_by ≡ old.approved_by
  pub grows : Grows v.approvals v'.approvals

-- The gate's part of the transaction leaves directives and approvals alone.
GateStep-directives :
    (linked : Option GateUnit × String) (actor request_id reason : String) (now : ℕ) (v v' : Tables)
    → GateStep linked actor request_id reason now v v'
    → (v'.directives ≡ v.directives) × (v'.approvals ≡ v.approvals)
GateStep-directives (none, gate_target) actor request_id reason now v v' same =
    (ap (λ (t : Tables). t.directives) same, ap (λ (t : Tables). t.approvals) same)
GateStep-directives (some g, gate_target) actor request_id reason now v v' (inl (_, same)) =
    (ap (λ (t : Tables). t.directives) same, ap (λ (t : Tables). t.approvals) same)
GateStep-directives (some g, gate_target) actor request_id reason now v v' (inr (_, moved)) = (
  ap (λ (t : Tables). t.directives) moved.trail.audited
      ∙ ap (λ (t : Tables). t.directives) moved.row.stored,
  ap (λ (t : Tables). t.approvals) moved.trail.audited
      ∙ ap (λ (t : Tables). t.approvals) moved.row.stored,
)

submission_recorded :
    (id k : ℕ) (target before actor role request_id reason : String) (now : ℕ)
    (l : List DirectiveApproval)
    → target ≡ "pending"
    → directive_role_allowed before target role ≡ true
    → HasApproval id "submitted" actor submits
        (with_approval k id (approval_for target before actor role request_id reason now) l)
unfolding approval_for directive_role_allowed
submission_recorded id k target before actor role request_id reason now l e allowed =
    rw e (inl (refl, refl, refl, rw e at allowed))

approval_recorded :
    (id k : ℕ) (target before actor role request_id reason : String) (now : ℕ)
    (l : List DirectiveApproval)
    → target ≡ "approved"
    → directive_role_allowed before target role ≡ true
    → HasApproval id "approved" actor approves
        (with_approval k id (approval_for target before actor role request_id reason now) l)
unfolding approval_for directive_role_allowed
approval_recorded id k target before actor role request_id reason now l e allowed =
    rw e (inl (refl, refl, refl, rw e at allowed))

if_false : {A : Type 0} (s t : String) (a b : A) → s ≢ t → (if s =ˢ t then a else b) ≡ b
if_false s t a b h = ground (arith, eq_iff s t)

if_true : {A : Type 0} (s t : String) (a b : A) → s ≡ t → (if s =ˢ t then a else b) ≡ a
if_true s t a b h = ground (arith, eq_iff s t)

-- The row that `Transition` replaces is the one that it has read.
pub Transitioned-Moved :
    (u : Unicode) (id : ℕ) (input : TransitionRequest) (actor role request_id : String)
    (v v' : Tables)
    → Transitioned u id input actor role request_id v v'
    → (old : OperationDirective) × (x : OperationDirective) × Moved u id old x v v'
unfolding advanced
Transitioned-Moved u id input actor role request_id v v' t =
    let row = t.stored.row in
    let target = trim_space input.status in
    let item = advanced t.current target actor input.expected_version t.now in
    let x = merged directive_entity row.old item row.time in
    let same_row : t.read.row ≡ row.old = cc (t.read.found, row.found) in
    let current_eq : t.current ≡ record row.old { approvals = t.read.approvals } =
      t.read.item_eq
      ∙ ap (λ (d : OperationDirective). record d { approvals = t.read.approvals }) same_row in
    let gate_part = GateStep-directives t.linked _ _ _ t.now t.middle v' t.gate_step in
    let approvals_eq = gate_part.1 ∙ ap (λ (s : Tables). s.approvals) t.stored.rest in
    let before : t.stored.middle.approvals ≡ v.approvals =
      ap (λ (s : Tables). s.approvals) row.stored in
    (
      row.old,
      x,
      record {
        found = row.found;
        rows =
            gate_part.0
            ∙ ap (λ (s : Tables). s.directives) t.stored.rest
            ∙ ap (λ (s : Tables). s.directives) row.stored;
        edge = subst (λ (d : OperationDirective). DirectiveEdge d.status target) current_eq t.edge;
        not_completed = t.not_completed;
        submitted = λ e.
            rw (if_true target "pending" actor t.current.submitted_by e, approvals_eq)
              (submission_recorded id _ target t.current.status actor role request_id input.reason
                t.now _ e t.role_allowed);
        two_person = λ e. rw (if_true target "approved" actor t.current.approved_by e) (
            subst
              (λ (d : OperationDirective).
                (d.submitted_by ≢ "") × (equal_fold u d.submitted_by actor ≡ false))
              current_eq (t.two_person e));
        approved = λ e.
            rw (if_true target "approved" actor t.current.approved_by e, approvals_eq)
              (approval_recorded id _ target t.current.status actor role request_id input.reason
                t.now _ e t.role_allowed);
        same_submitter = λ ne.
            if_false target "pending" _ _ ne
            ∙ ap (λ (d : OperationDirective). d.submitted_by) current_eq;
        same_approver = λ ne.
            if_false target "approved" _ _ ne
            ∙ ap (λ (d : OperationDirective). d.approved_by) current_eq;
        grows = λ i stage who roles h. subst (HasApproval i stage who roles) (sym approvals_eq) (
            Grows-with_approval _ id _ _ i stage who roles
              (subst (HasApproval i stage who roles) (sym before) h));
      },
    )
