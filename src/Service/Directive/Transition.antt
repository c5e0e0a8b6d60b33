-- ===== src/Service/Directive/Transition.antt =====
-- `Transition` of a directive does what `Transitioned` says, all of it or nothing.
use gb_516_hydropower_gate_d.Prelude.{
  ℕ, String, ◌≡◌, refl, sym, subst, ◌≢◌, ◌∙◌, ◌⊎◌, inl, inr, Bool, true, false, not, ◌&&◌, ◌||◌,
  Option, none, some, ◌=ˢ◌, Bool-cases, arith, eq_iff,
}
use gb_516_hydropower_gate_d.Exec.{Error, After, bind-After, After-map, require-After, ◌>>◌}
use gb_516_hydropower_gate_d.Text.{Unicode, trim_space, equal_fold}
use gb_516_hydropower_gate_d.Constants.Edges.{can_transition-DirectiveEdge}
use gb_516_hydropower_gate_d.Model.{OperationDirective, GateUnit, DirectiveApproval, AuditLog}
use gb_516_hydropower_gate_d.Dto.{TransitionRequest}
use gb_516_hydropower_gate_d.Platform.{Platform, PlatformLaws}
use gb_516_hydropower_gate_d.Platform.Schema.{Tables, gate_entity}
use gb_516_hydropower_gate_d.Repository.Store
use gb_516_hydropower_gate_d.Repository.Store.Laws.{AnyError, get_by_code-After, transaction-After}
use gb_516_hydropower_gate_d.Repository.Directives
use gb_516_hydropower_gate_d.Repository.Directives.Laws.{
  DirectiveRead, DirectiveStored, get_directive-After, transition_with_approval-After,
  get_committed-After,
}
use gb_516_hydropower_gate_d.Service.Directive.{
  advanced, approval_for, linked_gate, gate_target_of, move_gate, transition,
}
use gb_516_hydropower_gate_d.Service.Directive.Rows.{DirectiveMove, ApprovalsAfter}
use gb_516_hydropower_gate_d.Service.Directive.Moves.{
  GateStep-others, stored-DirectiveMove, stored-ApprovalsAfter, stored_gates, chosen-GateFollows,
  directive_role_allowed-RoleFor,
}
use gb_516_hydropower_gate_d.Service.Records.{inc, dec, moved_gate, write-After}
use gb_516_hydropower_gate_d.Service.Directive.Effects.{
  LinkedGate, no_gate, one_gate, needs_gate, GateStep, Transitioned,
}

not-true : (b : Bool) → not b ≡ true → b ≡ false
not-true b h = ground arith

not_text : (s t : String) → not (s =ˢ t) ≡ true → s ≢ t
not_text s t h e = ground (arith, eq_iff s t)

two_person_of :
    (u : Unicode) (target submitted_by actor : String)
    → not (target =ˢ "approved" && (submitted_by =ˢ "" || equal_fold u submitted_by actor)) ≡ true
    → target ≡ "approved"
    → (submitted_by ≢ "") × (equal_fold u submitted_by actor ≡ false)
two_person_of u target submitted_by actor h e =
    ground (arith, eq_iff target "approved", eq_iff submitted_by "")

moved_directive :
    (id : ℕ) (current : OperationDirective) (input : TransitionRequest) (actor : String) (now : ℕ)
    (approval : Option DirectiveApproval) (entry : AuditLog) (linked : Option GateUnit × String)
    (request_id : String) (v middle v' : Tables)
    → DirectiveRead id v current
    → DirectiveStored id input.expected_version
        (advanced current (trim_space input.status) actor input.expected_version now)
        approval
        entry
        v
        middle
    → GateStep linked actor request_id input.reason now middle v'
    → DirectiveMove id current input actor v'.directives
moved_directive id current input actor now approval entry linked request_id v middle v' read stored
      step =
    subst (DirectiveMove id current input actor)
      (sym (GateStep-others linked actor request_id input.reason now middle v' step).0)
      (stored-DirectiveMove id current input actor now approval entry v middle read stored)

kept_approvals :
    (id : ℕ) (current : OperationDirective) (input : TransitionRequest)
    (actor role request_id : String) (now : ℕ) (entry : AuditLog)
    (linked : Option GateUnit × String) (v middle v' : Tables)
    → DirectiveStored id input.expected_version
        (advanced current (trim_space input.status) actor input.expected_version now)
        (approval_for
          (trim_space input.status)
          current.status
          actor
          role
          request_id
          input.reason
          now)
        entry
        v
        middle
    → GateStep linked actor request_id input.reason now middle v'
    → ApprovalsAfter id current.status
        (trim_space input.status)
        actor
        role
        request_id
        input.reason
        v.approvals
        v'.approvals
kept_approvals id current input actor role request_id now entry linked v middle v' stored step =
    subst
      (ApprovalsAfter id current.status (trim_space input.status) actor role request_id input.reason
        v.approvals)
      (sym (GateStep-others linked actor request_id input.reason now middle v' step).1)
      (stored-ApprovalsAfter id input.expected_version _ current.status (trim_space input.status)
        actor role request_id input.reason now entry v middle stored)

module _ (u : Unicode) (p : Platform) (laws : PlatformLaws p) where
  module _ (v : Tables) {E : Error → p.World → Type 0}
      (fail : (x : Error) (w : p.World) → p.view w ≡ v → E x w) where
    linked_gate-After :
        (current : OperationDirective) (target : String) (w : p.World)
        → p.view w ≡ v
        → After
            (λ l w'. LinkedGate u current target v l × (p.view w' ≡ v))
            E
            (linked_gate u p current target w)
    unfolding linked_gate
    linked_gate-After current target w h = elim (Bool-cases (needs_gate current target)) [
      | inl needed ↦ rw needed (
          bind-After _ _ _
            (get_by_code-After p gate_entity p.gates laws.gate_laws v fail u current.related_code w
              h)
            λ gate w' q. require-After _ _ _ _ (fail _ w' q.2) λ unlocked.
              require-After _ _ _ _ (fail _ w' q.2) λ permitted. record {
                holds = (
                  one_gate gate (gate_target_of target current gate) needed
                      (record {
                        found = q.0;
                        code = q.1;
                        unlocked = not-true _ unlocked;
                        target_eq = refl;
                        permitted = permitted;
                      })
                      refl,
                  q.2,
                );
              })
      | inr unneeded ↦ rw unneeded (record { holds = (no_gate unneeded refl, h) })
    ]

  move_gate-After :
      (linked : Option GateUnit × String) (actor request_id reason : String) (now : ℕ) (v : Tables)
      (w : p.World)
      → p.view w ≡ v
      → After
          (λ _ w'. GateStep linked actor request_id reason now v (p.view w'))
          AnyError
          (move_gate u p linked.0 linked.1 actor request_id reason now w)
  unfolding move_gate
  move_gate-After (none, gate_target) actor request_id reason now v w h = record { holds = h }
  move_gate-After (some gate, gate_target) actor request_id reason now v w h =
      elim (Bool-cases (gate_target =ˢ "" || gate.status =ˢ gate_target)) [
        | inl stays ↦ rw stays (record { holds = inl (refl, h) })
        | inr moves ↦ rw moves (
            After-map _
              (write-After p laws gate_entity p.gates laws.gate_laws gate.id
                (dec (inc gate.version)) (moved_gate gate gate_target now) actor request_id
                "directive_execution" "GateUnit" gate.id gate.status gate_target reason v w refl h)
              (λ _ _ written. inr (refl, written)) (λ _ _ _. tt))
      ]

  -- The body of the transaction.
  commit-Committed :
      (id version : ℕ) (item : OperationDirective) (approval : Option DirectiveApproval)
      (entry : AuditLog) (linked : Option GateUnit × String) (actor request_id reason : String)
      (now : ℕ) (v : Tables) (w : p.World)
      → p.view w ≡ v
      → After
          (λ _ w'.
            (middle : Tables) × DirectiveStored id version item approval entry v middle
            × GateStep linked actor request_id reason now middle (p.view w'))
          AnyError
          ((Directives.transition_with_approval p id version item approval entry
              >> move_gate u p linked.0 linked.1 actor request_id reason now)
            w)
  commit-Committed id version item approval entry linked actor request_id reason now v w h =
      bind-After _ _ _ (transition_with_approval-After p laws id version item approval entry v w h)
        λ _ w₁ stored.
          After-map _ (move_gate-After linked actor request_id reason now (p.view w₁) w₁ refl)
            (λ _ _ gate_step. (p.view w₁, stored, gate_step)) (λ _ _ _. tt)

  module _ (id : ℕ) (input : TransitionRequest) (actor role request_id : String) (v : Tables)
      (w : p.World) where
    -- On success a caller whose role may ask for the move has moved the directive along an edge of its
    -- graph, from the expected version to the next, with the submitter or approver on the row and in one
    -- approval record, and an approver is not the submitter; the gate is moving or stays when the
    -- directive begins, is locked when a begun one is aborted, and is left alone otherwise; each write
    -- is on the trail, and what is returned is the stored row. On an error nothing has changed, or, if
    -- only the last read failed, all has.
    pub transition-Transitioned :
        p.view w ≡ v
        → After
            (λ x w'.
              Transitioned u id input actor role request_id v (p.view w')
              × DirectiveRead id (p.view w') x)
            (λ _ w'. (p.view w' ≡ v) ⊎ Transitioned u id input actor role request_id v (p.view w'))
            (transition u p id input actor role request_id w)
    unfolding transition Store.within_transaction
    transition-Transitioned h =
        bind-After _ _ _ (get_directive-After p laws v unchanged id w h) λ current w₁ (read, h₁).
          require-After _ _ _ _ (inl h₁) λ edge. require-After _ _ _ _ (inl h₁) λ not_completed.
            require-After _ _ _ _ (inl h₁) λ role_allowed.
              bind-After _ _ _
                (linked_gate-After v unchanged current (trim_space input.status) w₁ h₁)
                λ linked w₂ (chosen, h₂). require-After _ _ _ _ (inl h₂) λ two_people.
                  bind-After _ _ _
                    (After-map _ (laws.now_law w₂) (λ _ _ q. q ∙ h₂)
                      (λ x w' q. unchanged x w' (q ∙ h₂)))
                    λ now w₃ h₃.
                      bind-After _ _ _
                        (transaction-After p laws v
                          (λ _ v'. Transitioned u id input actor role request_id v v') unchanged _
                          w₃ h₃
                          λ w₄ h₄.
                            After-map _
                              (commit-Committed id input.expected_version _ _ _ linked actor
                                request_id input.reason now v w₄ h₄)
                              (λ _ w₅ (middle, stored, gate_step). record {
                                current = current;
                                linked = linked;
                                now = now;
                                middle = middle;
                                read = read;
                                edge = (can_transition-DirectiveEdge _ _).0 edge;
                                not_completed = not_text _ _ not_completed;
                                role_allowed = role_allowed;
                                role_for = directive_role_allowed-RoleFor _ _ _ role_allowed;
                                two_person = two_person_of u _ _ actor two_people;
                                chosen = chosen;
                                stored = stored;
                                gate_step = gate_step;
                                move =
                                    moved_directive id current input actor now _ _ linked request_id
                                      v middle (p.view w₅) read stored gate_step;
                                approvals_after =
                                    kept_approvals id current input actor role request_id now _
                                      linked v middle (p.view w₅) stored gate_step;
                                gate_follows =
                                    chosen-GateFollows u current (trim_space input.status) linked
                                      actor request_id input.reason now v middle (p.view w₅) chosen
                                      (stored_gates id _ _ _ _ v middle stored) gate_step;
                              })
                              (λ _ _ _. tt))
                        λ _ w₆ done.
                          get_committed-After p laws v
                            (Transitioned u id input actor role request_id v) id w₆ done
      where
        unchanged :
            (x : Error) (w' : p.World)
            → p.view w' ≡ v
            → (p.view w' ≡ v) ⊎ Transitioned u id input actor role request_id v (p.view w')
        unchanged x w' e = inl e
