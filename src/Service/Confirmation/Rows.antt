-- ===== src/Service/Confirmation/Rows.antt =====
-- backend/internal/service/execution_confirmation.go: the row of a receipt, column by column.
use gb_516_hydropower_gate_d.Prelude.{
  ℕ, String, ◌≡◌, ◌≢◌, refl, ap, sym, ◌∙◌, subst, none, some, if_same, if_other,
}
use gb_516_hydropower_gate_d.Text.{Unicode, trim_space}
use gb_516_hydropower_gate_d.Model.{
  ExecutionConfirmation, OperationDirective, AuditLog, before_create,
}
use gb_516_hydropower_gate_d.Dto.{
  CreateExecutionConfirmation, UpdateExecutionConfirmation, TransitionRequest,
}
use gb_516_hydropower_gate_d.Platform.Schema.{Tables, Rows, merged, confirmation_entity}
use gb_516_hydropower_gate_d.Repository.Store
use gb_516_hydropower_gate_d.Service.Records.{Written, Created}
use gb_516_hydropower_gate_d.Service.Records.Rows.{
  Business, BaseCreated, BaseEdited, BaseMoved, confirmation_business, confirmation-IsTable,
  Created-row, Written-row,
}
use gb_516_hydropower_gate_d.Service.Confirmation.{new_record, edited_record, transitioned}

-- The new row, column by column: facility, category and risk are the directive's.
pub record ReceiptRow (u : Unicode) (directive : OperationDirective)
    (input : CreateExecutionConfirmation) (x : ExecutionConfirmation) (v' : Tables) : Type 0 where
  pub stored_row : v'.confirmations x.id ≡ some x
  pub base_created :
      BaseCreated
        (Store.normal_code u input.code)
        (trim_space input.name)
        "pending"
        (trim_space input.description)
        x.base
  pub business_created : confirmation_business x ≡ record {
    facility = directive.facility;
    owner = trim_space input.owner;
    category = directive.category;
    risk_level = directive.risk_level;
    metric_value = input.metric_value;
    metric_unit = trim_space input.metric_unit;
    effective_at = input.effective_at;
    evidence = trim_space input.evidence;
    related_code = directive.code;
  }
  pub unconfirmed : (x.confirmed_by ≡ "") × (x.confirmed_at ≡ none)

-- The row after an edit, column by column: it had the expected version and has the next, and its
-- directive is the one that is named by `directive`.
pub record ReceiptEdit (id : ℕ) (current : ExecutionConfirmation) (directive : OperationDirective)
    (input : UpdateExecutionConfirmation) (v' : Tables) : Type 0 where
  pub row : ExecutionConfirmation
  pub stored_row : v'.confirmations id ≡ some row
  pub held : current.version ≡ input.expected_version
  pub base_edited :
      BaseEdited current.base (trim_space input.name) (trim_space input.description) row.base
  pub business_edited : confirmation_business row ≡ record {
    facility = directive.facility;
    owner = trim_space input.owner;
    category = directive.category;
    risk_level = directive.risk_level;
    metric_value = input.metric_value;
    metric_unit = trim_space input.metric_unit;
    effective_at = input.effective_at;
    evidence = trim_space input.evidence;
    related_code = directive.code;
  }
  pub confirmation_kept :
      (row.confirmed_by ≡ current.confirmed_by) × (row.confirmed_at ≡ current.confirmed_at)

-- The row after a move, column by column: it had the expected version and has the next, and one that
-- is confirmed names who did so.
pub record ReceiptMove (id : ℕ) (current : ExecutionConfirmation) (input : TransitionRequest)
    (actor : String) (rows : Rows ExecutionConfirmation) : Type 0 where
  pub row : ExecutionConfirmation
  pub stored_row : rows id ≡ some row
  pub held : current.version ≡ input.expected_version
  pub base_moved : BaseMoved current.base (trim_space input.status) row.base
  pub business_kept : confirmation_business row ≡ confirmation_business current
  pub confirms :
      trim_space input.status ≡ "confirmed"
      → (row.confirmed_by ≡ actor) × ((time : ℕ) × (row.confirmed_at ≡ some time))
  pub keeps :
      trim_space input.status ≢ "confirmed"
      → (row.confirmed_by ≡ current.confirmed_by) × (row.confirmed_at ≡ current.confirmed_at)

pub new-ReceiptRow :
    (u : Unicode) (directive : OperationDirective) (input : CreateExecutionConfirmation)
    (actor request_id : String) (x : ExecutionConfirmation) (v v' : Tables)
    → Created confirmation_entity "ExecutionConfirmation" "created 执行确认" actor request_id
        (new_record u directive input)
        x
        v
        v'
    → ReceiptRow u directive input x v'
unfolding new_record before_create
new-ReceiptRow u directive input actor request_id x v v' created =
    let e = created.row.item_eq in
    let row = Created-row confirmation_entity confirmation-IsTable created in
    record {
      stored_row =
          subst (λ k. v'.confirmations k ≡ some x)
            (sym (ap (λ (t : ExecutionConfirmation). t.id) e)) row;
      base_created = record {
        code_eq = ap (λ (t : ExecutionConfirmation). t.code) e;
        name_eq = ap (λ (t : ExecutionConfirmation). t.name) e;
        status_eq = ap (λ (t : ExecutionConfirmation). t.status) e;
        version_eq = ap (λ (t : ExecutionConfirmation). t.version) e;
        description_eq = ap (λ (t : ExecutionConfirmation). t.description) e;
        live = ap (λ (t : ExecutionConfirmation). t.deleted_at) e;
      };
      business_created = ap confirmation_business e;
      unconfirmed = (
        ap (λ (t : ExecutionConfirmation). t.confirmed_by) e,
        ap (λ (t : ExecutionConfirmation). t.confirmed_at) e,
      );
    }

pub edited-ReceiptEdit :
    (id : ℕ) (current : ExecutionConfirmation) (directive : OperationDirective)
    (input : UpdateExecutionConfirmation) (now : ℕ) (entry : ℕ → AuditLog) (v v' : Tables)
    → v.confirmations id ≡ some current
    → Written confirmation_entity id input.expected_version
        (edited_record current directive input now)
        entry
        v
        v'
    → ReceiptEdit id current directive input v'
unfolding edited_record
edited-ReceiptEdit id current directive input now entry v v' found written =
    let (time, held, stored_row) =
      Written-row confirmation_entity confirmation-IsTable current written found in
    record {
      row = merged confirmation_entity current (edited_record current directive input now) time;
      stored_row = stored_row;
      held = held;
      base_edited = record {
        id_eq = refl;
        code_eq = refl;
        status_eq = refl;
        created_at_eq = refl;
        live_eq = refl;
        version_eq = rw held refl;
        name_eq = refl;
        description_eq = refl;
      };
      business_edited = refl;
      confirmation_kept = (refl, refl);
    }

-- The edited row names the directive.
pub ReceiptEdit-directive :
    {id : ℕ} {current : ExecutionConfirmation} {directive : OperationDirective}
    {input : UpdateExecutionConfirmation} {v' : Tables} {code : String}
    (edit : ReceiptEdit id current directive input v')
    → directive.code ≡ code
    → edit.row.related_code ≡ code
ReceiptEdit-directive edit same = ap (λ (b : Business). b.related_code) edit.business_edited ∙ same

pub transitioned-ReceiptMove :
    (id : ℕ) (current : ExecutionConfirmation) (input : TransitionRequest) (actor : String)
    (now : ℕ) (entry : ℕ → AuditLog) (v v' : Tables)
    → v.confirmations id ≡ some current
    → Written confirmation_entity id input.expected_version
        (transitioned current (trim_space input.status) actor input.expected_version now)
        entry
        v
        v'
    → ReceiptMove id current input actor v'.confirmations
unfolding transitioned
transitioned-ReceiptMove id current input actor now entry v v' found written =
    let (time, held, stored_row) =
      Written-row confirmation_entity confirmation-IsTable current written found in
    record {
      row =
          merged confirmation_entity current
            (transitioned current (trim_space input.status) actor input.expected_version now) time;
      stored_row = stored_row;
      held = held;
      base_moved = record {
        id_eq = refl;
        code_eq = refl;
        name_eq = refl;
        description_eq = refl;
        created_at_eq = refl;
        live_eq = refl;
        version_eq = rw held refl;
        status_eq = refl;
      };
      business_kept = refl;
      confirms = λ h. (if_same _ _ _ _ h, (now, if_same _ _ _ _ h));
      keeps = λ h. (if_other _ _ _ _ h, if_other _ _ _ _ h);
    }
