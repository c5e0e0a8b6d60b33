-- ===== src/Service/Reservoir/Rows.antt =====
-- backend/internal/service/reservoir.go: the row of a reservoir after each write, column by column.
use gb_516_hydropower_gate_d.Prelude.{ℕ, String, ◌≡◌, refl, ap, sym, subst, some}
use gb_516_hydropower_gate_d.Text.{Unicode, trim_space}
use gb_516_hydropower_gate_d.Model.{Reservoir, AuditLog, before_create}
use gb_516_hydropower_gate_d.Dto.{CreateReservoir, UpdateReservoir, TransitionRequest}
use gb_516_hydropower_gate_d.Platform.Schema.{Tables, merged, reservoir_entity}
use gb_516_hydropower_gate_d.Repository.Store
use gb_516_hydropower_gate_d.Service.Records.{Written, Created}
use gb_516_hydropower_gate_d.Service.Records.Rows.{
  BaseCreated, BaseEdited, BaseMoved, reservoir_business, reservoir-IsTable, Created-row,
  Written-row,
}
use gb_516_hydropower_gate_d.Service.Reservoir.{new_record, edited_record, transitioned}

-- The new row, column by column.
pub record ReservoirRow (u : Unicode) (input : CreateReservoir) (x : Reservoir) (v' : Tables)
    : Type 0 where
  pub stored_row : v'.reservoirs x.id ≡ some x
  pub base_created :
      BaseCreated
        (Store.normal_code u input.code)
        (trim_space input.name)
        "normal"
        (trim_space input.description)
        x.base
  pub business_created : reservoir_business x ≡ record {
    facility = trim_space input.facility;
    owner = trim_space input.owner;
    category = trim_space input.category;
    risk_level = input.risk_level;
    metric_value = input.metric_value;
    metric_unit = trim_space input.metric_unit;
    effective_at = input.effective_at;
    evidence = trim_space input.evidence;
    related_code = Store.normal_code u input.related_code;
  }

-- The row after an edit, column by column: it had the expected version and has the next.
pub record ReservoirEdit (u : Unicode) (id : ℕ) (current : Reservoir) (input : UpdateReservoir)
    (v' : Tables) : Type 0 where
  pub row : Reservoir
  pub stored_row : v'.reservoirs id ≡ some row
  pub held : current.version ≡ input.expected_version
  pub base_edited :
      BaseEdited current.base (trim_space input.name) (trim_space input.description) row.base
  pub business_edited : reservoir_business row ≡ record {
    facility = trim_space input.facility;
    owner = trim_space input.owner;
    category = trim_space input.category;
    risk_level = input.risk_level;
    metric_value = input.metric_value;
    metric_unit = trim_space input.metric_unit;
    effective_at = input.effective_at;
    evidence = trim_space input.evidence;
    related_code = Store.normal_code u input.related_code;
  }

-- The row after a move, column by column: it had the expected version and has the next.
pub record ReservoirMove (id : ℕ) (current : Reservoir) (input : TransitionRequest) (v' : Tables)
    : Type 0 where
  pub row : Reservoir
  pub stored_row : v'.reservoirs id ≡ some row
  pub held : current.version ≡ input.expected_version
  pub base_moved : BaseMoved current.base (trim_space input.status) row.base
  pub business_kept : reservoir_business row ≡ reservoir_business current

pub new-ReservoirRow :
    (u : Unicode) (input : CreateReservoir) (actor request_id : String) (x : Reservoir)
    (v v' : Tables)
    → Created reservoir_entity "Reservoir" "created 库区" actor request_id (new_record u input) x v v'
    → ReservoirRow u input x v'
unfolding new_record before_create
new-ReservoirRow u input actor request_id x v v' created =
    let e = created.row.item_eq in
    let row = Created-row reservoir_entity reservoir-IsTable created in
    record {
      stored_row = subst (λ k. v'.reservoirs k ≡ some x) (sym (ap (λ (t : Reservoir). t.id) e)) row;
      base_created = record {
        code_eq = ap (λ (t : Reservoir). t.code) e;
        name_eq = ap (λ (t : Reservoir). t.name) e;
        status_eq = ap (λ (t : Reservoir). t.status) e;
        version_eq = ap (λ (t : Reservoir). t.version) e;
        description_eq = ap (λ (t : Reservoir). t.description) e;
        live = ap (λ (t : Reservoir). t.deleted_at) e;
      };
      business_created = ap reservoir_business e;
    }

pub edited-ReservoirEdit :
    (u : Unicode) (id : ℕ) (current : Reservoir) (input : UpdateReservoir) (now : ℕ)
    (entry : ℕ → AuditLog) (v v' : Tables)
    → v.reservoirs id ≡ some current
    → Written reservoir_entity id input.expected_version
        (edited_record u current input now)
        entry
        v
        v'
    → ReservoirEdit u id current input v'
unfolding edited_record
edited-ReservoirEdit u id current input now entry v v' found written =
    let (time, held, stored_row) =
      Written-row reservoir_entity reservoir-IsTable current written found in
    record {
      row = merged reservoir_entity current (edited_record u current input now) time;
      stored_row = stored_row;
      held = held;
      base_edited = record {
        id_eq = refl;
        code_eq = refl;
        status_eq = refl;
        created_at_eq = refl;
        live_eq = refl;
        version_eq = rw held refl;
        name_eq = refl;
        description_eq = refl;
      };
      business_edited = refl;
    }

pub transitioned-ReservoirMove :
    (id : ℕ) (current : Reservoir) (input : TransitionRequest) (now : ℕ) (entry : ℕ → AuditLog)
    (v v' : Tables)
    → v.reservoirs id ≡ some current
    → Written reservoir_entity id input.expected_version
        (transitioned current (trim_space input.status) input.expected_version now)
        entry
        v
        v'
    → ReservoirMove id current input v'
unfolding transitioned
transitioned-ReservoirMove id current input now entry v v' found written =
    let (time, held, stored_row) =
      Written-row reservoir_entity reservoir-IsTable current written found in
    record {
      row =
          merged reservoir_entity current
            (transitioned current (trim_space input.status) input.expected_version now) time;
      stored_row = stored_row;
      held = held;
      base_moved = record {
        id_eq = refl;
        code_eq = refl;
        name_eq = refl;
        description_eq = refl;
        created_at_eq = refl;
        live_eq = refl;
        version_eq = rw held refl;
        status_eq = refl;
      };
      business_kept = refl;
    }
