-- ===== src/Database/Seed/Evidence.antt =====
-- The evidence of the directives that backend/internal/database/database.go seeds.
use gb_516_hydropower_gate_d.Prelude.{
  ℕ, ◌≡◌, ◌≢◌, refl, sym, ◌∙◌, ap, subst, inl, inr, false, some, List, [], ◌∷◌, arith, eq_iff,
}
use gb_516_hydropower_gate_d.Text.{Unicode, equal_fold}
use gb_516_hydropower_gate_d.Model.{
  OperationDirective, DirectiveApproval, before_create, role_operator,
}
use gb_516_hydropower_gate_d.Platform.Schema.{Tables, Inserted, directive_entity}
use gb_516_hydropower_gate_d.Platform.Library.{Library}
use gb_516_hydropower_gate_d.Database.Setup.{InsertedAll, AddedApprovals}
use gb_516_hydropower_gate_d.Database.Seed.{approvals_for}
use gb_516_hydropower_gate_d.Database.Seed.Rows
use gb_516_hydropower_gate_d.System.Evidence.{HasApproval, Grows, submits, approves}
use gb_516_hydropower_gate_d.System.TwoPerson.Invariant.{
  is_approved, Evidenced, IsDispatchSafe, Evidenced-Grows, Evidenced-idle, kept-IsDispatchSafe,
  put-IsDispatchSafe,
}

operator_named : role_operator ≢ ""
operator_named = ground (arith, eq_iff role_operator "")

module _ (u : Unicode) where
  -- Evidence for a directive that waits for its approval, and for one that is being executed.
  pending-Evidenced :
      (id : ℕ) (x : OperationDirective) (l : List DirectiveApproval)
      → x.status ≡ "pending"
      → HasApproval id "submitted" x.submitted_by submits l
      → Evidenced u id x l
  pending-Evidenced id x l e h =
      let unapproved : is_approved x.status ≡ false = ap is_approved e in
      record {
        submission = λ _. h;
        named = λ a. absurd (cc (unapproved, a));
        two_people = λ a. absurd (cc (unapproved, a));
        approval = λ a. absurd (cc (unapproved, a));
      }

  executing-Evidenced :
      (id : ℕ) (x : OperationDirective) (l : List DirectiveApproval)
      → equal_fold u "operator" "reviewer" ≡ false
      → x.submitted_by ≡ "operator"
      → x.approved_by ≡ "reviewer"
      → HasApproval id "submitted" "operator" submits l
      → HasApproval id "approved" "reviewer" approves l
      → Evidenced u id x l
  executing-Evidenced id x l apart s p submitted approved = record {
    submission = λ _. subst (λ who. HasApproval id "submitted" who submits l) (sym s) submitted;
    named = λ _. subst (λ who. who ≢ "") (sym s) operator_named;
    two_people = λ _. cc (s, p, apart);
    approval = λ _. subst (λ who. HasApproval id "approved" who approves l) (sym p) approved;
  }

  -- One more row, under the approvals that there will be.
  row-IsDispatchSafe :
      (l : List DirectiveApproval) (item x : OperationDirective) (v v' : Tables)
      → (i : Inserted directive_entity item x v v')
      → Evidenced u i.id (record x { approvals = [] }) l
      → IsDispatchSafe u (record v { approvals = l })
      → IsDispatchSafe u (record v' { approvals = l })
  row-IsDispatchSafe l item x v v' i new h =
      put-IsDispatchSafe u i.id (some (record x { approvals = [] })) (record v { approvals = l })
        (record v' { approvals = l }) (ap (λ (t : Tables). t.directives) i.inserted)
        (λ _ _ _ _ old. old) (λ y e. subst (λ y. Evidenced u i.id y l) (cc (e)) new) h

  pub seeded-IsDispatchSafe :
      (lib : Library) (now : ℕ) (xs : List OperationDirective) (v w v' : Tables)
      → equal_fold u "operator" "reviewer" ≡ false
      → InsertedAll directive_entity
          (Rows.first_directive lib now
            ∷ Rows.second_directive lib now
            ∷ Rows.third_directive lib now
            ∷ [])
          xs
          v
          w
      → AddedApprovals (approvals_for lib now xs) w v'
      → IsDispatchSafe u v
      → IsDispatchSafe u v'
  unfolding before_create
  seeded-IsDispatchSafe lib now (x ∷ y ∷ z ∷ []) v w v' apart (m, i, (n, j, (o, k, same)))
        (a, (b, (c, added))) h =
      let l = v'.approvals in
      let l_eq = ap (λ (t : Tables). t.approvals) added in
      let same_approvals : w.approvals ≡ v.approvals =
        ap (λ (t : Tables). t.approvals) same
        ∙ ap (λ (t : Tables). t.approvals) k.inserted
        ∙ ap (λ (t : Tables). t.approvals) j.inserted
        ∙ ap (λ (t : Tables). t.approvals) i.inserted in
      let grows : Grows v.approvals l = λ id stage actor roles old.
        subst (HasApproval id stage actor roles) (sym l_eq)
          (inr (inr (inr (subst (HasApproval id stage actor roles) (sym same_approvals) old)))) in
      let start : IsDispatchSafe u (record v { approvals = l }) =
        λ id x e. Evidenced-Grows u id x v.approvals l grows (h id x e) in
      let y_id : y.id ≡ j.id = ap (λ (t : OperationDirective). t.id) j.item_eq in
      let z_id : z.id ≡ k.id = ap (λ (t : OperationDirective). t.id) k.item_eq in
      let y_submitted : HasApproval j.id "submitted" "operator" submits l =
        subst (HasApproval j.id "submitted" "operator" submits) (sym l_eq)
          (inr (inr (inl (y_id, refl, refl, refl)))) in
      let z_submitted : HasApproval k.id "submitted" "operator" submits l =
        subst (HasApproval k.id "submitted" "operator" submits) (sym l_eq)
          (inr (inl (z_id, refl, refl, refl))) in
      let z_approved : HasApproval k.id "approved" "reviewer" approves l =
        subst (HasApproval k.id "approved" "reviewer" approves) (sym l_eq)
          (inl (z_id, refl, refl, refl)) in
      let first =
        row-IsDispatchSafe l _ x v m i
          (Evidenced-idle u i.id _ l "draft" (ap (λ (t : OperationDirective). t.status) i.item_eq)
            refl refl)
          start in
      let second =
        row-IsDispatchSafe l _ y m n j
          (pending-Evidenced j.id _ l (ap (λ (t : OperationDirective). t.status) j.item_eq) (
            subst (λ who. HasApproval j.id "submitted" who submits l)
              (sym (ap (λ (t : OperationDirective). t.submitted_by) j.item_eq)) y_submitted))
          first in
      let third =
        row-IsDispatchSafe l _ z n o k
          (executing-Evidenced k.id _ l apart
            (ap (λ (t : OperationDirective). t.submitted_by) k.item_eq)
            (ap (λ (t : OperationDirective). t.approved_by) k.item_eq) z_submitted z_approved)
          second in
      kept-IsDispatchSafe u (record o { approvals = l }) v'
        (ap (λ (t : Tables). t.directives) added ∙ ap (λ (t : Tables). t.directives) same, refl)
        third
  seeded-IsDispatchSafe lib now [] v w v' apart inserted added h = absurd inserted
  seeded-IsDispatchSafe lib now (x ∷ []) v w v' apart (m, i, inserted) added h = absurd inserted
  seeded-IsDispatchSafe lib now (x ∷ y ∷ []) v w v' apart (m, i, (n, j, inserted)) added h =
      absurd inserted
  seeded-IsDispatchSafe lib now (x ∷ y ∷ z ∷ t ∷ rest) v w v' apart (m, i, (n, j, (o, k, inserted)))
        added h =
      absurd inserted
