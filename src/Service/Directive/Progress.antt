-- ===== src/Service/Directive/Progress.antt =====
-- That the approval of a directive succeeds: `Transition` of
-- backend/internal/service/operation_directive.go while the database answers.
use mathlib.Core.List.{Memᴰ}
use gb_516_hydropower_gate_d.Prelude.{
  ℕ, String, ◌≡◌, ◌≢◌, refl, ap, ◌∙◌, subst, Bool, true, false, not, ◌||◌, Option, none, some, List,
  ◌=ˢ◌, arith, eq_iff,
}
use gb_516_hydropower_gate_d.Exec.{
  Error, invalid_transition, two_person_required, Exec, require, After, ◌>>=◌, bind-After,
  After-map,
}
use gb_516_hydropower_gate_d.Text.{Unicode, trim_space, equal_fold}
use gb_516_hydropower_gate_d.Constants.{can_transition, contains, operation_directive_transitions}
use gb_516_hydropower_gate_d.Model.{OperationDirective, DirectiveApproval, AuditLog}
use gb_516_hydropower_gate_d.Dto.{TransitionRequest}
use gb_516_hydropower_gate_d.Platform.{Platform}
use gb_516_hydropower_gate_d.Platform.Schema.{Tables, Stored, directive_entity, merged}
use gb_516_hydropower_gate_d.Repository.Store
use gb_516_hydropower_gate_d.Repository.Directives
use gb_516_hydropower_gate_d.Service.Directive
use gb_516_hydropower_gate_d.Service.Directive.{
  directive_role_allowed, approval_for, advanced, transition_entry, linked_gate, move_gate,
}
use gb_516_hydropower_gate_d.Service.Records.{inc}
use gb_516_hydropower_gate_d.Service.Records.Rows.{directive-IsTable, Stored-row}

-- No error.
abbrev pub Never : {W : Type 0} → Error → W → Type 0
Never e w = ⊥

-- The database answers what it is asked about directives.
pub record Answers (p : Platform) : Type 0 where
  pub first_up :
      (id : ℕ) (x : OperationDirective) (w : p.World)
      → (p.view w).directives id ≡ some x
      → x.id ≡ id
      → After (λ y w'. (y ≡ x) × (p.view w' ≡ p.view w)) Never (p.directives.first id w)
  pub find_approvals_up :
      (id : ℕ) (w : p.World) → After (λ _ w'. p.view w' ≡ p.view w) Never (p.find_approvals id w)

-- No approval of this directive has this stage: what the unique index `idx_directive_stage` wants of a
-- new one.
abbrev pub StageFree : ℕ → String → Tables → Type 0
StageFree directive_id stage v =
    (a : DirectiveApproval)
    → Memᴰ a v.approvals
    → a.directive_id ≡ directive_id
    → ¬ (a.stage ≡ stage)

-- The database is up: it answers, a write whose values fit their columns and the unique index on
-- approvals succeeds, and a transaction whose body succeeds commits.
pub record IsUp (p : Platform) : Type 1 where
  pub answers : Answers p
  pub directive_fits : OperationDirective → Type 0
  pub approval_fits : DirectiveApproval → Type 0
  pub audit_fits : AuditLog → Type 0
  pub updates_up :
      (id version : ℕ) (item old : OperationDirective) (w : p.World)
      → directive_fits item
      → (p.view w).directives id ≡ some old
      → old.version ≡ version
      → After
          (λ n w'. (n ≡ 1) × Stored directive_entity id version item (p.view w) (p.view w'))
          Never
          (p.directives.updates id version item w)
  pub create_approval_up :
      (a : DirectiveApproval) (w : p.World)
      → approval_fits a
      → StageFree a.directive_id a.stage (p.view w)
      → After (λ _ w'. (p.view w').directives ≡ (p.view w).directives) Never (p.create_approval a w)
  pub create_audit_up :
      (a : AuditLog) (w : p.World)
      → audit_fits a
      → After (λ _ w'. (p.view w').directives ≡ (p.view w).directives) Never (p.create_audit a w)
  pub transaction_up :
      (A : Type 0) (body : Exec p.World A) (Q : A → p.World → Type 0) (w : p.World)
      → ((begun : p.World) → p.view begun ≡ p.view w → After Q Never (body begun))
      → After
          (λ a w'. (done : p.World) × Q a done × (p.view w' ≡ p.view done))
          Never
          (p.transaction A body w)
  pub now_up : (w : p.World) → After (λ _ w'. p.view w' ≡ p.view w) Never (p.now w)

module _ {W B : Type 0} {E : Error → W → Type 0} {Q : B → W → Type 0} where
  require_passes :
      (b : Bool) (e : Error) (f : Unit {0} → Exec W B) (w : W)
      → b ≡ true
      → After Q E (f tt w)
      → After Q E ((require b e >>= f) w)
  unfolding ◌>>=◌
  require_passes true e f w h k = k
  require_passes false e f w h k = absurd (cc (h))

module _ {W B : Type 0} {E : Error → W → Type 0} {Q : B → W → Type 0} where
  require_fails :
      (b : Bool) (e : Error) (f : Unit {0} → Exec W B) (w : W)
      → b ≡ false
      → E e w
      → After Q E ((require b e >>= f) w)
  unfolding ◌>>=◌
  require_fails true e f w h k = absurd (cc (h))
  require_fails false e f w h k = record { holds = k }

module _ (p : Platform) (up : Answers p) where
  get_up :
      (id : ℕ) (x : OperationDirective) (w : p.World)
      → (p.view w).directives id ≡ some x
      → x.id ≡ id
      → After
          (λ y w'.
            ((l : List DirectiveApproval) × (y ≡ record x { approvals = l }))
            × (p.view w' ≡ p.view w))
          Never
          (Directives.get p id w)
  unfolding Directives.get
  get_up id x w found ids = bind-After _ _ _ (up.first_up id x w found ids) λ y w₁ (y_eq, same₁).
      bind-After _ _ _ (up.find_approvals_up id w₁) λ l w₂ same₂. record {
        holds =
            ((l, ap (λ (d : OperationDirective). record d { approvals = l }) y_eq), same₂ ∙ same₁);
      }

module _ (p : Platform) (up : IsUp p) where
  -- The row after the transaction.
  abbrev IsStoredRow : ℕ → OperationDirective → OperationDirective → p.World → Type 0
  IsStoredRow id old item w =
      (time : ℕ) × ((p.view w).directives id ≡ some (merged directive_entity old item time))

  update_up :
      (id version : ℕ) (item old : OperationDirective) (w : p.World)
      → up.directive_fits item
      → (p.view w).directives id ≡ some old
      → old.version ≡ version
      → After
          (λ _ w'. IsStoredRow id old item w' × ((p.view w').approvals ≡ (p.view w).approvals))
          Never
          (Store.update p p.directives id version item w)
  unfolding Store.update
  update_up id version item old w fits found versions =
      bind-After _ _ _ (up.updates_up id version item old w fits found versions)
        λ n w₁ (one, stored).
          let (time, held, row) = Stored-row directive_entity directive-IsTable old stored found in
          rw one (record { holds = ((time, row), ap (λ (t : Tables). t.approvals) stored.stored) })

  kept_row :
      (id : ℕ) (old item : OperationDirective) (w w' : p.World)
      → (p.view w').directives ≡ (p.view w).directives
      → IsStoredRow id old item w
      → IsStoredRow id old item w'
  kept_row id old item w w' kept (time, row) =
      (time, ap (λ (r : ℕ → Option OperationDirective). r id) kept ∙ row)

  -- The update, the approval and the audit entry, in a transaction of their own.
  approved_up :
      (id version : ℕ) (item old : OperationDirective) (approval : DirectiveApproval)
      (entry : AuditLog) (w : p.World)
      → up.directive_fits item
      → up.approval_fits (record approval { directive_id = id })
      → up.audit_fits entry
      → StageFree id approval.stage (p.view w)
      → (p.view w).directives id ≡ some old
      → old.version ≡ version
      → After
          (λ _ w'. IsStoredRow id old item w')
          Never
          (Directives.transition_with_approval p id version item (some approval) entry w)
  unfolding Directives.transition_with_approval Directives.create_approval
  approved_up id version item old approval entry w fits approval_fits entry_fits free found
        versions =
      After-map _
        (up.transaction_up Unit _ (λ _ w'. IsStoredRow id old item w') w
          λ begun same.
            bind-After _ _ _ (update_up id version item old begun fits (rw same found) versions)
              λ _ w₁ (row, kept).
                bind-After _ _ _
                  (After-map _
                    (up.create_approval_up (record approval { directive_id = id }) w₁ approval_fits
                      (λ a mem.
                        free a (subst (Memᴰ a) (kept ∙ ap (λ (t : Tables). t.approvals) same) mem)))
                    (λ _ w₂ kept. kept_row id old item w₁ w₂ kept row) (λ _ _ never. never))
                  λ _ w₂ row₂.
                    After-map _ (up.create_audit_up entry w₂ entry_fits)
                      (λ _ w₃ kept. kept_row id old item w₂ w₃ kept row₂) (λ _ _ never. never))
        (λ _ w' (done, row, same). (row.0, ap (λ (t : Tables). t.directives id) same ∙ row.1))
        (λ _ _ never. never)

approve_edge : can_transition operation_directive_transitions "pending" "approved" ≡ true
unfolding can_transition contains
approve_edge = refl

two_people :
    (u : Unicode) (submitted_by actor : String)
    → submitted_by ≢ ""
    → equal_fold u submitted_by actor ≡ false
    → not (submitted_by =ˢ "" || equal_fold u submitted_by actor) ≡ true
two_people u submitted_by actor named other = ground (arith, eq_iff submitted_by "")

one_person :
    (u : Unicode) (submitted_by actor : String)
    → equal_fold u submitted_by actor ≡ true
    → not (submitted_by =ˢ "" || equal_fold u submitted_by actor) ≡ false
one_person u submitted_by actor same = ground (arith, eq_iff submitted_by "")

module _ (u : Unicode) (p : Platform) (up : Answers p) where
  -- While the database answers, whoever submitted a directive is refused its approval in any role that
  -- may approve, also under another spelling that case folding identifies: the error is the two-person
  -- rule's, and nothing changes.
  pub transition-refuses_submitter :
      (id : ℕ) (input : TransitionRequest) (actor role request_id : String)
      (old : OperationDirective) (w : p.World)
      → (p.view w).directives id ≡ some old
      → old.id ≡ id
      → old.status ≡ "pending"
      → trim_space input.status ≡ "approved"
      → directive_role_allowed "pending" "approved" role ≡ true
      → equal_fold u old.submitted_by actor ≡ true
      → After
          (λ _ _. ⊥)
          (λ e w'. (e ≡ two_person_required) × (p.view w' ≡ p.view w))
          (Directive.transition u p id input actor role request_id w)
  unfolding Directive.transition Directive.linked_gate
  transition-refuses_submitter id input actor role request_id old w found ids status target role_ok
        same =
      bind-After _ _ _
        (After-map _ (get_up p up id old w found ids) (λ _ _ q. q) (λ _ _ never. absurd never))
        λ current w₁ ((l, current_eq), same₁).
          rw (current_eq, target, status)
            (require_passes _ _ _ _ approve_edge (
              require_passes _ invalid_transition _ _ refl (
                require_passes _ _ _ _ role_ok (
                  bind-After {P = λ c w'. p.view w' ≡ p.view w} _ _ _ (record { holds = same₁ })
                    λ linked w₂ same₂.
                      require_fails _ _ _ _ (one_person u old.submitted_by actor same)
                        (refl, same₂)))))

-- The approval that an approver leaves.
abbrev pub approval_of : ℕ → String → String → String → String → ℕ → DirectiveApproval
approval_of id actor role request_id reason now = record {
  id = 0;
  directive_id = id;
  stage = "approved";
  actor = actor;
  role = role;
  request_id = request_id;
  reason = trim_space reason;
  from_state = "pending";
  to_state = "approved";
  created_at = now;
}

module _ (u : Unicode) (p : Platform) (up : IsUp p) where
  -- While the database is up, a pending directive at the expected version that has no approval of the
  -- stage "approved" yet is approved, whoever asks in a role that may and under a name other than that
  -- of the submitter, if the new row, approval and audit entry fit their columns: the call returns the
  -- directive, approved by the caller, at the next version.
  pub transition-approves :
      (id : ℕ) (input : TransitionRequest) (actor role request_id : String)
      (old : OperationDirective) (w : p.World)
      → (p.view w).directives id ≡ some old
      → old.id ≡ id
      → old.status ≡ "pending"
      → old.version ≡ input.expected_version
      → trim_space input.status ≡ "approved"
      → directive_role_allowed "pending" "approved" role ≡ true
      → old.submitted_by ≢ ""
      → equal_fold u old.submitted_by actor ≡ false
      → StageFree id "approved" (p.view w)
      → ((now : ℕ) (l : List DirectiveApproval)
          → up.directive_fits (
              advanced
                (record old { base = record old.base { status = "pending" }; approvals = l })
                "approved"
                actor
                input.expected_version
                now))
      → ((now : ℕ) → up.approval_fits (approval_of id actor role request_id input.reason now))
      → ((now : ℕ)
          → up.audit_fits
              (transition_entry id "pending" "approved" actor request_id input.reason now))
      → After
          (λ x w'.
            (x.status ≡ "approved")
            × (x.approved_by ≡ actor)
            × (x.version ≡ inc input.expected_version))
          Never
          (Directive.transition u p id input actor role request_id w)
  unfolding Directive.transition advanced Directive.linked_gate Directive.move_gate approval_for
      Store.within_transaction
  transition-approves id input actor role request_id old w found ids status version target role_ok
        named other free fits approval_fits entry_fits =
      bind-After _ _ _ (get_up p up.answers id old w found ids)
        λ current w₁ ((l, current_eq), same₁).
          rw (current_eq, target, status)
            (require_passes _ _ _ _ approve_edge (
              require_passes _ invalid_transition _ _ refl (
                require_passes _ _ _ _ role_ok (
                  bind-After {P = λ c w'. (c ≡ (none, "")) × (p.view w' ≡ p.view w)} _ _ _
                    (record { holds = (refl, same₁) })
                    λ linked w₂ (unlinked, same₂).
                      require_passes _ _ _ _ (two_people u old.submitted_by actor named other) (
                        bind-After _ _ _ (up.now_up w₂) λ now w₃ same₃. rw unlinked (
                          bind-After _ _ _
                            (up.transaction_up Unit _
                              (λ _ w'. IsStoredRow p up id old (approved_row now l) w') w₃
                              λ begun same.
                                bind-After _ _ _
                                  (approved_up p up id input.expected_version (approved_row now l)
                                    old _ _ begun (fits now l) (approval_fits now) (entry_fits now)
                                    (λ a mem. free a (
                                      subst (Memᴰ a)
                                        (ap (λ (t : Tables). t.approvals) (same ∙ same₃ ∙ same₂))
                                        mem))
                                    (rw (same ∙ same₃ ∙ same₂) found) version)
                                  λ _ w₄ row. record { holds = row })
                            λ _ w₅ (done, (time, row), same).
                              After-map _
                                (get_up p up.answers id
                                  (merged directive_entity old (approved_row now l) time) w₅
                                  (rw same row) ids)
                                (λ x w' q. read_back l now time x q.0.0 q.0.1)
                                (λ _ _ never. never)))))))
    where
      approved_row : ℕ → List DirectiveApproval → OperationDirective
      approved_row now l =
          advanced (record old { base = record old.base { status = "pending" }; approvals = l })
            "approved" actor input.expected_version now

      read_back :
          (l : List DirectiveApproval) (now time : ℕ) (x : OperationDirective)
          (m : List DirectiveApproval)
          → x ≡ record (merged directive_entity old (approved_row now l) time) { approvals = m }
          → (x.status ≡ "approved")
            × (x.approved_by ≡ actor)
            × (x.version ≡ inc input.expected_version)
      read_back l now time x m e = (
        ap (λ (d : OperationDirective). d.status) e,
        ap (λ (d : OperationDirective). d.approved_by) e,
        ap (λ (d : OperationDirective). d.version) e,
      )
