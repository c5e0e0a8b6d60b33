-- ===== src/Service/Directive/Draft/Rows.antt =====
-- backend/internal/service/operation_directive.go: the row of a draft, column by column.
use gb_516_hydropower_gate_d.Prelude.{
  ℕ, String, ◌≡◌, ◌≢◌, refl, ap, sym, ◌∙◌, subst, true, none, some, [], arith, eq_iff, if_same,
  if_other,
}
use gb_516_hydropower_gate_d.Text.{Unicode, trim_space, equal_fold}
use gb_516_hydropower_gate_d.Model.{OperationDirective, GateUnit, AuditLog, before_create}
use gb_516_hydropower_gate_d.Dto.{CreateOperationDirective, UpdateOperationDirective}
use gb_516_hydropower_gate_d.Platform.Schema.{Tables, merged, directive_entity}
use gb_516_hydropower_gate_d.Repository.Store
use gb_516_hydropower_gate_d.Repository.Directives.Laws.{DirectiveRead}
use gb_516_hydropower_gate_d.Service.Records.{Written, Created}
use gb_516_hydropower_gate_d.Service.Records.Rows.{
  BaseCreated, BaseEdited, directive_business, directive-IsTable, Created-row, Written-row,
}
use gb_516_hydropower_gate_d.Service.Directive.Draft.{new_record, edited_record, gate_fits}

-- The new row, column by column.
pub record DraftRow (u : Unicode) (input : CreateOperationDirective) (x : OperationDirective)
    (v' : Tables) : Type 0 where
  pub stored_row : v'.directives x.id ≡ some x
  pub base_created :
      BaseCreated
        (Store.normal_code u input.code)
        (trim_space input.name)
        "draft"
        (trim_space input.description)
        x.base
  pub business_created : directive_business x ≡ record {
    facility = trim_space input.facility;
    owner = trim_space input.owner;
    category = trim_space input.category;
    risk_level = input.risk_level;
    metric_value = input.metric_value;
    metric_unit = trim_space input.metric_unit;
    effective_at = input.effective_at;
    evidence = trim_space input.evidence;
    related_code = Store.normal_code u input.related_code;
  }
  pub asks : trim_space input.gate_state ≢ "" → x.gate_state ≡ trim_space input.gate_state
  pub closes : trim_space input.gate_state ≡ "" → x.gate_state ≡ "closed"
  pub unsubmitted : (x.submitted_by ≡ "") × (x.submitted_at ≡ none)
  pub unapproved : (x.approved_by ≡ "") × (x.approved_at ≡ none) × (x.approvals ≡ [])

-- The row after an edit, column by column: it had the expected version and has the next.
pub record DraftEdit (u : Unicode) (id : ℕ) (current : OperationDirective)
    (input : UpdateOperationDirective) (v' : Tables) : Type 0 where
  pub row : OperationDirective
  pub stored_row : v'.directives id ≡ some row
  pub held : current.version ≡ input.expected_version
  pub base_edited :
      BaseEdited current.base (trim_space input.name) (trim_space input.description) row.base
  pub business_edited : directive_business row ≡ record {
    facility = trim_space input.facility;
    owner = trim_space input.owner;
    category = trim_space input.category;
    risk_level = input.risk_level;
    metric_value = input.metric_value;
    metric_unit = trim_space input.metric_unit;
    effective_at = input.effective_at;
    evidence = trim_space input.evidence;
    related_code = Store.normal_code u input.related_code;
  }
  pub asks : trim_space input.gate_state ≢ "" → row.gate_state ≡ trim_space input.gate_state
  pub keeps : trim_space input.gate_state ≡ "" → row.gate_state ≡ current.gate_state
  pub submission_kept :
      (row.submitted_by ≡ current.submitted_by) × (row.submitted_at ≡ current.submitted_at)
  pub approval_kept :
      (row.approved_by ≡ current.approved_by) × (row.approved_at ≡ current.approved_at)

pub fits-unlocked :
    (u : Unicode) (facility : String) (gate : GateUnit)
    → gate_fits u facility gate ≡ true
    → (equal_fold u (trim_space facility) gate.facility ≡ true) × (gate.status ≢ "locked")
fits-unlocked u facility gate h = ground (arith, eq_iff gate.status "locked")

pub new-DraftRow :
    (u : Unicode) (input : CreateOperationDirective) (actor request_id : String)
    (x : OperationDirective) (v v' : Tables)
    → Created directive_entity "OperationDirective" "created 操作指令" actor request_id
        (new_record u input)
        x
        v
        v'
    → DraftRow u input x v'
unfolding new_record before_create
new-DraftRow u input actor request_id x v v' created =
    let e = created.row.item_eq in
    let row = Created-row directive_entity directive-IsTable created in
    let at_id =
      subst (λ k. v'.directives k ≡ some (record x { approvals = [] }))
        (sym (ap (λ (t : OperationDirective). t.id) e)) row in
    record {
      stored_row =
          subst (λ l. v'.directives x.id ≡ some (record x { approvals = l }))
            (sym (ap (λ (t : OperationDirective). t.approvals) e)) at_id;
      base_created = record {
        code_eq = ap (λ (t : OperationDirective). t.code) e;
        name_eq = ap (λ (t : OperationDirective). t.name) e;
        status_eq = ap (λ (t : OperationDirective). t.status) e;
        version_eq = ap (λ (t : OperationDirective). t.version) e;
        description_eq = ap (λ (t : OperationDirective). t.description) e;
        live = ap (λ (t : OperationDirective). t.deleted_at) e;
      };
      business_created = ap directive_business e;
      asks = λ h. ap (λ (t : OperationDirective). t.gate_state) e ∙ if_other _ _ _ _ h;
      closes = λ h. ap (λ (t : OperationDirective). t.gate_state) e ∙ if_same _ _ _ _ h;
      unsubmitted = (
        ap (λ (t : OperationDirective). t.submitted_by) e,
        ap (λ (t : OperationDirective). t.submitted_at) e,
      );
      unapproved = (
        ap (λ (t : OperationDirective). t.approved_by) e,
        ap (λ (t : OperationDirective). t.approved_at) e,
        ap (λ (t : OperationDirective). t.approvals) e,
      );
    }

pub edited-DraftEdit :
    (u : Unicode) (id : ℕ) (current : OperationDirective) (input : UpdateOperationDirective)
    (now : ℕ) (entry : ℕ → AuditLog) (v v' : Tables)
    → DirectiveRead id v current
    → Written directive_entity id input.expected_version
        (edited_record u current input now)
        entry
        v
        v'
    → DraftEdit u id current input v'
unfolding edited_record
edited-DraftEdit u id current input now entry v v' read written =
    let (time, held, stored_row) =
      Written-row directive_entity directive-IsTable read.row written read.found in
    subst (λ c. DraftEdit u id c input v') (sym read.item_eq)
      (record {
        row =
            merged directive_entity read.row
              (edited_record u (record read.row { approvals = read.approvals }) input now) time;
        stored_row =
            subst
              (λ c.
                v'.directives id
                ≡ some (merged directive_entity read.row (edited_record u c input now) time))
              read.item_eq stored_row;
        held = held;
        base_edited = record {
          id_eq = refl;
          code_eq = refl;
          status_eq = refl;
          created_at_eq = refl;
          live_eq = refl;
          version_eq = rw held refl;
          name_eq = refl;
          description_eq = refl;
        };
        business_edited = refl;
        asks = λ h. if_other _ _ _ _ h;
        keeps = λ h. if_same _ _ _ _ h;
        submission_kept = (refl, refl);
        approval_kept = (refl, refl);
      })
