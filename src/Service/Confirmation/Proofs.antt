-- ===== src/Service/Confirmation/Proofs.antt =====
-- The operations on execution confirmations do what `Service.Confirmation.Effects` says.
use gb_516_hydropower_gate_d.Prelude.{
  ℕ, String, ◌≡◌, refl, sym, ◌∙◌, subst, ◌⊎◌, inl, true, not, Option, some, ltb, arith, eq_iff,
}
use gb_516_hydropower_gate_d.Exec.{After, bind-After, After-map, require-After}
use gb_516_hydropower_gate_d.Text.{Unicode, trim_space}
use gb_516_hydropower_gate_d.Constants.Edges.{can_transition-ReceiptEdge}
use gb_516_hydropower_gate_d.Model.{ExecutionConfirmation, AuditLog}
use gb_516_hydropower_gate_d.Dto.{
  CreateExecutionConfirmation, UpdateExecutionConfirmation, TransitionRequest,
}
use gb_516_hydropower_gate_d.Platform.{Platform, PlatformLaws}
use gb_516_hydropower_gate_d.Platform.Schema.{Tables, confirmation_entity}
use gb_516_hydropower_gate_d.Repository.Store
use gb_516_hydropower_gate_d.Repository.Store.Laws.{
  get-After, get_committed-After, transaction-After,
}
use gb_516_hydropower_gate_d.Repository.Confirmations.{count_by_directive_code}
use gb_516_hydropower_gate_d.Service.Records.Rows.{has_business_fields-Filled}
use gb_516_hydropower_gate_d.Service.Records.{
  Written, write_then-After, create_record-After, update_record-After, delete_record-After,
}
use gb_516_hydropower_gate_d.Service.Confirmation.{
  Outcome, new_record, edited_record, transitioned, create, update, delete, transition,
}
use gb_516_hydropower_gate_d.Service.Confirmation.Effects.{
  ConfirmationCreated, ConfirmationEdited, ConfirmationDeleted, ConfirmationTransitioned,
  OutcomeStep,
}
use gb_516_hydropower_gate_d.Service.Confirmation.Outcomes.{
  OutcomeStep-confirmations, OutcomeStep-FinalOutcome,
}
use gb_516_hydropower_gate_d.Service.Confirmation.Rows.{
  ReceiptMove, new-ReceiptRow, edited-ReceiptEdit, ReceiptEdit-directive, transitioned-ReceiptMove,
}
use gb_516_hydropower_gate_d.Service.Confirmation.Steps.{
  require_executing_directive-After, outcome-After, apply_outcome-After,
}

no_count : (n : ℕ) → not (ltb 0 n) ≡ true → n ≡ 0
no_count n h = ground arith

moved_receipt :
    (u : Unicode) (id : ℕ) (current : ExecutionConfirmation) (input : TransitionRequest)
    (actor request_id : String) (result : Option Outcome) (now : ℕ) {entry : ℕ → AuditLog}
    (v middle v' : Tables)
    → v.confirmations id ≡ some current
    → Written confirmation_entity id input.expected_version
        (transitioned current (trim_space input.status) actor input.expected_version now)
        entry
        v
        middle
    → OutcomeStep result actor request_id input.reason now middle v'
    → ReceiptMove id current input actor v'.confirmations
moved_receipt u id current input actor request_id result now v middle v' found written step =
    subst (ReceiptMove id current input actor)
      (sym (OutcomeStep-confirmations result actor request_id input.reason now middle v' step))
      (transitioned-ReceiptMove id current input actor now _ v middle found written)

module _ (u : Unicode) (p : Platform) (laws : PlatformLaws p) (v : Tables) (w : p.World)
    (h : p.view w ≡ v) where
  -- On success a pending receipt has been inserted for an executing directive that had none, and its
  -- creation is on the trail; the result is the new record. On an error nothing has changed.
  pub create-ConfirmationCreated :
      (input : CreateExecutionConfirmation) (actor request_id : String)
      → After
          (λ x w'. ConfirmationCreated u input actor request_id x v (p.view w'))
          (λ _ w'. p.view w' ≡ v)
          (create u p input actor request_id w)
  unfolding create count_by_directive_code
  create-ConfirmationCreated input actor request_id = require-After _ _ _ _ h λ fields.
      bind-After _ _ _
        (require_executing_directive-After u p laws v {E = λ _ w'. p.view w' ≡ v} (λ _ _ same. same)
          input.related_code w h)
        λ directive w₁ (linked, h₁).
          bind-After _ _ _
            (After-map {F = λ _ w'. p.view w' ≡ v} _
              (laws.count_related_law (Store.normal_code u directive.code) w₁) (λ n w' q. q)
              (λ _ _ q. q ∙ h₁))
            λ n w₂ (h₂, only). require-After _ _ _ _ (h₂ ∙ h₁) λ unused.
              After-map _
                (create_record-After p laws confirmation_entity p.confirmations
                  laws.confirmation_laws v {E = λ _ w'. p.view w' ≡ v} (λ _ _ same. same)
                  (new_record u directive input) actor request_id "ExecutionConfirmation"
                  "created 执行确认" w₂ refl (h₂ ∙ h₁))
                (λ x w' created. record {
                  directive = directive;
                  linked = linked;
                  only = rw h₁ at (only (no_count n unused));
                  fields = has_business_fields-Filled _ _ _ _ fields;
                  created = created;
                  row = new-ReceiptRow u directive input actor request_id x v (p.view w') created;
                })
                (λ _ _ same. same)

  -- On success the receipt was pending at the expected version, its directive is executing and stays
  -- the same, the edited columns are stored at the next version and the edit is on the trail, and the
  -- result is the stored row. On an error
  -- nothing has changed, or, if only the last read failed, all has.
  pub update-ConfirmationEdited :
      (id : ℕ) (input : UpdateExecutionConfirmation) (actor request_id : String)
      → After
          (λ x w'.
            ConfirmationEdited u id input actor request_id v (p.view w')
            × ((p.view w').confirmations id ≡ some x))
          (λ _ w'. (p.view w' ≡ v) ⊎ ConfirmationEdited u id input actor request_id v (p.view w'))
          (update u p id input actor request_id w)
  unfolding update edited_record
  update-ConfirmationEdited id input actor request_id =
      bind-After _ _ _
        (get-After p confirmation_entity p.confirmations laws.confirmation_laws v (λ _ _. inl) id w
          h)
        λ current w₁ (found, _, h₁). require-After _ _ _ _ (inl h₁) λ fields.
          require-After _ _ _ _ (inl h₁) λ is_pending.
            require-After _ _ _ _ (inl h₁) λ same_directive.
              bind-After _ _ _
                (require_executing_directive-After u p laws v (λ _ _. inl) current.related_code w₁
                  h₁)
                λ directive w₂ (linked, h₂).
                  bind-After _ _ _
                    (After-map _ (laws.now_law w₂) (λ _ _ q. q ∙ h₂) (λ _ _ q. inl (q ∙ h₂)))
                    λ now w₃ h₃.
                      bind-After _ _ _
                        (update_record-After p laws confirmation_entity p.confirmations
                          laws.confirmation_laws v (λ _ _. inl) id input.expected_version
                          (edited_record current directive input now) actor request_id "update"
                          "ExecutionConfirmation" id current.status current.status
                          "updated business fields" w₃ refl h₃)
                        λ _ w₄ written.
                          get_committed-After p confirmation_entity p.confirmations
                            laws.confirmation_laws v
                            (ConfirmationEdited u id input actor request_id v) id w₄
                            (record {
                              current = current;
                              now = now;
                              directive = directive;
                              found = found;
                              is_pending = (eq_iff _ _).0 is_pending;
                              same_directive = same_directive;
                              linked = linked;
                              fields = has_business_fields-Filled _ _ _ _ fields;
                              written = written;
                              edit =
                                  edited-ReceiptEdit id current directive input now _ v (p.view w₄)
                                    found written;
                              directive_kept =
                                  ReceiptEdit-directive
                                    (edited-ReceiptEdit id current directive input now _ v
                                      (p.view w₄) found written)
                                    linked.code_eq;
                            })

  -- On success the receipt has moved along an edge of its graph, from the expected version to the
  -- next; if it was pending, its directive was executing and is now completed, with the gate in the
  -- state that it asks for, if the receipt is confirmed, and aborted, with the gate locked, if not; if
  -- it was not pending, directives and gates are as they were; each write is on the trail, and the
  -- result is the stored receipt. On an error nothing has changed, or, if only the last read failed,
  -- all has.
  pub transition-ConfirmationTransitioned :
      (id : ℕ) (input : TransitionRequest) (actor request_id : String)
      → After
          (λ x w'.
            ConfirmationTransitioned u id input actor request_id v (p.view w')
            × ((p.view w').confirmations id ≡ some x))
          (λ _ w'.
            (p.view w' ≡ v) ⊎ ConfirmationTransitioned u id input actor request_id v (p.view w'))
          (transition u p id input actor request_id w)
  unfolding transition Store.within_transaction
  transition-ConfirmationTransitioned id input actor request_id =
      bind-After _ _ _
        (get-After p confirmation_entity p.confirmations laws.confirmation_laws v (λ _ _. inl) id w
          h)
        λ current w₁ (found, _, h₁). require-After _ _ _ _ (inl h₁) λ edge.
          bind-After _ _ _ (After-map _ (laws.now_law w₁) (λ _ _ q. q ∙ h₁) (λ _ _ q. inl (q ∙ h₁)))
            λ now w₂ h₂.
              bind-After _ _ _
                (outcome-After u p laws v (λ _ _. inl) current (trim_space input.status) w₂ h₂)
                λ result w₃ (chosen, h₃).
                  bind-After _ _ _
                    (transaction-After p laws v
                      (λ _ v'. ConfirmationTransitioned u id input actor request_id v v')
                      (λ _ _. inl) _ w₃ h₃
                      λ w₄ h₄.
                        write_then-After p laws confirmation_entity p.confirmations
                          laws.confirmation_laws id input.expected_version _ actor request_id
                          "transition" "ExecutionConfirmation" id current.status
                          (trim_space input.status) input.reason v w₄
                          (λ _ w'.
                            ConfirmationTransitioned u id input actor request_id v (p.view w'))
                          _ refl h₄
                          λ w₅ written.
                            After-map _
                              (apply_outcome-After u p laws result actor request_id input.reason now
                                (p.view w₅) w₅ refl)
                              (λ _ w₆ outcome_step. record {
                                current = current;
                                now = now;
                                result = result;
                                middle = p.view w₅;
                                found = found;
                                edge = can_transition-ReceiptEdge _ _ edge;
                                chosen = chosen;
                                written = written;
                                outcome_step = outcome_step;
                                move =
                                    moved_receipt u id current input actor request_id result now v
                                      (p.view w₅) (p.view w₆) found written outcome_step;
                                final_outcome =
                                    OutcomeStep-FinalOutcome u id input.expected_version current _
                                      (trim_space input.status) result actor request_id input.reason
                                      now _ v (p.view w₅) (p.view w₆) chosen written outcome_step;
                              })
                              (λ _ _ _. tt))
                    λ _ w₇ done.
                      get_committed-After p confirmation_entity p.confirmations
                        laws.confirmation_laws v
                        (ConfirmationTransitioned u id input actor request_id v) id w₇ done

  -- On success the receipt was pending and is hidden, and the deletion is on the trail. On an error
  -- nothing has changed.
  pub delete-ConfirmationDeleted :
      (id : ℕ) (actor request_id : String)
      → After
          (λ _ w'. ConfirmationDeleted id actor request_id v (p.view w'))
          (λ _ w'. p.view w' ≡ v)
          (delete u p id actor request_id w)
  unfolding delete
  delete-ConfirmationDeleted id actor request_id =
      bind-After _ _ _
        (get-After p confirmation_entity p.confirmations laws.confirmation_laws v
          {E = λ _ w'. p.view w' ≡ v} (λ _ _ same. same) id w h)
        λ current w₁ (found, _, h₁). require-After _ _ _ _ h₁ λ is_pending.
          After-map _
            (delete_record-After p laws confirmation_entity p.confirmations laws.confirmation_laws v
              {E = λ _ w'. p.view w' ≡ v} (λ _ _ same. same) id actor request_id
              "ExecutionConfirmation" current.status "soft deleted 执行确认" w₁ refl h₁)
            (λ _ _ deleted. record {
              current = current;
              found = found;
              is_pending = (eq_iff _ _).0 is_pending;
              deleted = deleted;
            })
            (λ _ _ same. same)
