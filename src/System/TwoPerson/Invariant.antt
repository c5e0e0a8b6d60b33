-- ===== src/System/TwoPerson/Invariant.antt =====
-- The safety of dispatch as an invariant of the tables.
use gb_516_hydropower_gate_d.Prelude.{
  ℕ, String, ◌≡◌, ◌≢◌, refl, sym, ◌∙◌, ap, subst, inl, inr, Bool, true, false, ◌||◌, Option, some,
  List, ◌==◌, ◌=ˢ◌, eq_iff, arith, Bool-cases,
}
use gb_516_hydropower_gate_d.Text.{Unicode, equal_fold}
use gb_516_hydropower_gate_d.Constants.Edges.{
  DirectiveEdge, submit, approve, withdraw, execute, cancel, complete, stop,
}
use gb_516_hydropower_gate_d.Model.{OperationDirective, DirectiveApproval}
use gb_516_hydropower_gate_d.Platform.Schema.{Tables, override}
use gb_516_hydropower_gate_d.System.Evidence.{HasApproval, submits, approves, Grows}
use gb_516_hydropower_gate_d.System.TwoPerson.Moves.{Moved}

abbrev pub is_submitted : String → Bool
is_submitted s = s =ˢ "pending" || s =ˢ "approved" || s =ˢ "executing" || s =ˢ "completed"

abbrev pub is_approved : String → Bool
is_approved s = s =ˢ "approved" || s =ˢ "executing" || s =ˢ "completed"

-- A submitted directive has the record of its submission, and an approved one that of its approval,
-- by another person.
pub record Evidenced (u : Unicode) (id : ℕ) (x : OperationDirective)
    (approvals : List DirectiveApproval) : Type 0 where
  pub submission :
      is_submitted x.status ≡ true → HasApproval id "submitted" x.submitted_by submits approvals
  pub named : is_approved x.status ≡ true → x.submitted_by ≢ ""
  pub two_people : is_approved x.status ≡ true → equal_fold u x.submitted_by x.approved_by ≡ false
  pub approval :
      is_approved x.status ≡ true → HasApproval id "approved" x.approved_by approves approvals

abbrev pub IsDispatchSafe : Unicode → Tables → Type 0
IsDispatchSafe u v =
    (id : ℕ) (x : OperationDirective) → v.directives id ≡ some x → Evidenced u id x v.approvals

is_other : (r s t : String) → r ≡ s → (s =ˢ t) ≡ false → r ≢ t
is_other r s t e h e' = ground (arith, eq_iff s t)

module _ (u : Unicode) where
  pub Evidenced-Grows :
      (id : ℕ) (x : OperationDirective) (l m : List DirectiveApproval)
      → Grows l m
      → Evidenced u id x l
      → Evidenced u id x m
  Evidenced-Grows id x l m grows e = record {
    submission = λ s. grows _ _ _ _ (e.submission s);
    named = e.named;
    two_people = e.two_people;
    approval = λ s. grows _ _ _ _ (e.approval s);
  }

  -- A draft or an aborted directive needs no evidence.
  pub Evidenced-idle :
      (id : ℕ) (x : OperationDirective) (l : List DirectiveApproval) (s : String)
      → x.status ≡ s
      → is_submitted s ≡ false
      → is_approved s ≡ false
      → Evidenced u id x l
  Evidenced-idle id x l s e p q =
      let r : is_submitted x.status ≡ false = ap is_submitted e ∙ p in
      let t : is_approved x.status ≡ false = ap is_approved e ∙ q in
      record {
        submission = λ h. absurd (cc (r, h));
        named = λ h. absurd (cc (t, h));
        two_people = λ h. absurd (cc (t, h));
        approval = λ h. absurd (cc (t, h));
      }

  -- Where no field that the evidence speaks of changes.
  pub Evidenced-same :
      (id : ℕ) (x y : OperationDirective) (l : List DirectiveApproval)
      → is_approved x.status ≡ true
      → x.submitted_by ≡ y.submitted_by
      → x.approved_by ≡ y.approved_by
      → is_submitted x.status ≡ true
      → Evidenced u id x l
      → Evidenced u id y l
  Evidenced-same id x y l a s p b e = record {
    submission = λ _. subst (λ who. HasApproval id "submitted" who submits l) s (e.submission b);
    named = λ _. subst (λ who. who ≢ "") s (e.named a);
    two_people = λ _. cc (s, p, e.two_people a);
    approval = λ _. subst (λ who. HasApproval id "approved" who approves l) p (e.approval a);
  }

  pub kept-IsDispatchSafe :
      (v v' : Tables)
      → (v'.directives ≡ v.directives) × (v'.approvals ≡ v.approvals)
      → IsDispatchSafe u v
      → IsDispatchSafe u v'
  kept-IsDispatchSafe v v' (rows, same) h id x e =
      subst (Evidenced u id x) (sym same)
        (h id x (sym (ap (λ (r : ℕ → Option OperationDirective). r id) rows) ∙ e))

  pub put-IsDispatchSafe :
      (id : ℕ) (row : Option OperationDirective) (v v' : Tables)
      → v'.directives ≡ override id row v.directives
      → Grows v.approvals v'.approvals
      → ((x : OperationDirective) → row ≡ some x → Evidenced u id x v'.approvals)
      → IsDispatchSafe u v
      → IsDispatchSafe u v'
  put-IsDispatchSafe id row v v' rows grows new h j x e =
      let at_j = sym (ap (λ (r : ℕ → Option OperationDirective). r j) rows) ∙ e in
      elim (Bool-cases (id == j)) [
        | inl this ↦
            let same : id ≡ j = ground arith in
            subst (λ k. Evidenced u k x v'.approvals) same (new x (rw this at at_j))
        | inr other ↦ Evidenced-Grows j x v.approvals v'.approvals grows (h j x (rw other at at_j))
      ]

  pub Moved-Evidenced :
      (id : ℕ) (old x : OperationDirective) (v v' : Tables)
      → Moved u id old x v v'
      → Evidenced u id old v.approvals
      → Evidenced u id x v'.approvals
  Moved-Evidenced id old x v v' m e = go m.edge
    where
      before : Evidenced u id old v'.approvals
      before = Evidenced-Grows id old v.approvals v'.approvals m.grows e

      go : DirectiveEdge old.status x.status → Evidenced u id x v'.approvals
      go (submit s t) =
          let unapproved : is_approved x.status ≡ false = ap is_approved t in
          record {
            submission = λ _. m.submitted t;
            named = λ h. absurd (cc (unapproved, h));
            two_people = λ h. absurd (cc (unapproved, h));
            approval = λ h. absurd (cc (unapproved, h));
          }
      go (approve s t) =
          let same : x.submitted_by ≡ old.submitted_by =
            m.same_submitter (is_other x.status "approved" "pending" t refl) in
          record {
            submission = λ _.
                subst (λ who. HasApproval id "submitted" who submits v'.approvals) (sym same)
                  (before.submission (ap is_submitted s));
            named = λ _. subst (λ who. who ≢ "") (sym same) (m.two_person t).0;
            two_people = λ _. cc (same, (m.two_person t).1);
            approval = λ _. m.approved t;
          }
      go (withdraw s t) = Evidenced-idle id x _ "aborted" t refl refl
      go (execute s t) =
          Evidenced-same id old x _ (ap is_approved s)
            (sym (m.same_submitter (is_other x.status "executing" "pending" t refl)))
            (sym (m.same_approver (is_other x.status "executing" "approved" t refl)))
            (ap is_submitted s) before
      go (cancel s t) = Evidenced-idle id x _ "aborted" t refl refl
      go (complete s t) = absurd (m.not_completed t)
      go (stop s t) = Evidenced-idle id x _ "aborted" t refl refl
