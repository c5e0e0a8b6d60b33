-- ===== src/Service/Gate/Rows.antt =====
-- backend/internal/service/gate_unit.go: the row of a gate after each write, column by column.
use gb_516_hydropower_gate_d.Prelude.{ℕ, String, ◌≡◌, refl, ap, sym, subst, some}
use gb_516_hydropower_gate_d.Text.{Unicode, trim_space}
use gb_516_hydropower_gate_d.Model.{GateUnit, AuditLog, before_create}
use gb_516_hydropower_gate_d.Dto.{CreateGateUnit, UpdateGateUnit, TransitionRequest}
use gb_516_hydropower_gate_d.Platform.Schema.{Tables, merged, gate_entity}
use gb_516_hydropower_gate_d.Repository.Store
use gb_516_hydropower_gate_d.Service.Records.{Written, Created}
use gb_516_hydropower_gate_d.Service.Records.Rows.{
  BaseCreated, BaseEdited, BaseMoved, gate_business, gate-IsTable, Created-row, Written-row,
}
use gb_516_hydropower_gate_d.Service.Gate.{new_record, edited_record, transitioned}

-- The new row, column by column.
pub record GateRow (u : Unicode) (input : CreateGateUnit) (x : GateUnit) (v' : Tables)
    : Type 0 where
  pub stored_row : v'.gates x.id ≡ some x
  pub base_created :
      BaseCreated
        (Store.normal_code u input.code)
        (trim_space input.name)
        "open"
        (trim_space input.description)
        x.base
  pub business_created : gate_business x ≡ record {
    facility = trim_space input.facility;
    owner = trim_space input.owner;
    category = trim_space input.category;
    risk_level = input.risk_level;
    metric_value = input.metric_value;
    metric_unit = trim_space input.metric_unit;
    effective_at = input.effective_at;
    evidence = trim_space input.evidence;
    related_code = Store.normal_code u input.related_code;
  }

-- The row after an edit, column by column: it had the expected version and has the next.
pub record GateEdit (u : Unicode) (id : ℕ) (current : GateUnit) (input : UpdateGateUnit)
    (reservoir_code : String) (v' : Tables) : Type 0 where
  pub row : GateUnit
  pub stored_row : v'.gates id ≡ some row
  pub held : current.version ≡ input.expected_version
  pub base_edited :
      BaseEdited current.base (trim_space input.name) (trim_space input.description) row.base
  pub business_edited : gate_business row ≡ record {
    facility = trim_space input.facility;
    owner = trim_space input.owner;
    category = trim_space input.category;
    risk_level = input.risk_level;
    metric_value = input.metric_value;
    metric_unit = trim_space input.metric_unit;
    effective_at = input.effective_at;
    evidence = trim_space input.evidence;
    related_code = reservoir_code;
  }

-- The row after a move, column by column: it had the expected version and has the next.
pub record GateMove (id : ℕ) (current : GateUnit) (input : TransitionRequest) (v' : Tables)
    : Type 0 where
  pub row : GateUnit
  pub stored_row : v'.gates id ≡ some row
  pub held : current.version ≡ input.expected_version
  pub base_moved : BaseMoved current.base (trim_space input.status) row.base
  pub business_kept : gate_business row ≡ gate_business current

pub new-GateRow :
    (u : Unicode) (input : CreateGateUnit) (actor request_id : String) (x : GateUnit)
    (v v' : Tables)
    → Created gate_entity "GateUnit" "created 闸门" actor request_id (new_record u input) x v v'
    → GateRow u input x v'
unfolding new_record before_create
new-GateRow u input actor request_id x v v' created =
    let e = created.row.item_eq in
    let row = Created-row gate_entity gate-IsTable created in
    record {
      stored_row = subst (λ k. v'.gates k ≡ some x) (sym (ap (λ (t : GateUnit). t.id) e)) row;
      base_created = record {
        code_eq = ap (λ (t : GateUnit). t.code) e;
        name_eq = ap (λ (t : GateUnit). t.name) e;
        status_eq = ap (λ (t : GateUnit). t.status) e;
        version_eq = ap (λ (t : GateUnit). t.version) e;
        description_eq = ap (λ (t : GateUnit). t.description) e;
        live = ap (λ (t : GateUnit). t.deleted_at) e;
      };
      business_created = ap gate_business e;
    }

pub edited-GateEdit :
    (u : Unicode) (id : ℕ) (current : GateUnit) (input : UpdateGateUnit) (reservoir_code : String)
    (now : ℕ) (entry : ℕ → AuditLog) (v v' : Tables)
    → v.gates id ≡ some current
    → Written gate_entity id input.expected_version
        (edited_record current reservoir_code input now)
        entry
        v
        v'
    → GateEdit u id current input reservoir_code v'
unfolding edited_record
edited-GateEdit u id current input reservoir_code now entry v v' found written =
    let (time, held, stored_row) = Written-row gate_entity gate-IsTable current written found in
    record {
      row = merged gate_entity current (edited_record current reservoir_code input now) time;
      stored_row = stored_row;
      held = held;
      base_edited = record {
        id_eq = refl;
        code_eq = refl;
        status_eq = refl;
        created_at_eq = refl;
        live_eq = refl;
        version_eq = rw held refl;
        name_eq = refl;
        description_eq = refl;
      };
      business_edited = refl;
    }

pub transitioned-GateMove :
    (id : ℕ) (current : GateUnit) (input : TransitionRequest) (now : ℕ) (entry : ℕ → AuditLog)
    (v v' : Tables)
    → v.gates id ≡ some current
    → Written gate_entity id input.expected_version
        (transitioned current (trim_space input.status) input.expected_version now)
        entry
        v
        v'
    → GateMove id current input v'
unfolding transitioned
transitioned-GateMove id current input now entry v v' found written =
    let (time, held, stored_row) = Written-row gate_entity gate-IsTable current written found in
    record {
      row =
          merged gate_entity current
            (transitioned current (trim_space input.status) input.expected_version now) time;
      stored_row = stored_row;
      held = held;
      base_moved = record {
        id_eq = refl;
        code_eq = refl;
        name_eq = refl;
        description_eq = refl;
        created_at_eq = refl;
        live_eq = refl;
        version_eq = rw held refl;
        status_eq = refl;
      };
      business_kept = refl;
    }
