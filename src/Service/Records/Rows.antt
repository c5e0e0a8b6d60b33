-- ===== src/Service/Records/Rows.antt =====
-- How the rows of backend/internal/model look after the writes of backend/internal/service, column by
-- column: what the services' specifications say of the tables.
use gb_516_hydropower_gate_d.Prelude.{
  ℕ, ◌+◌, ◌%◌, ◌^◌, String, ◌≡◌, ◌≢◌, true, refl, ap, ◌∙◌, subst, Option, none, some, List, ◌==◌,
  if◌then◌else◌, arith, eq_iff,
}
use gb_516_hydropower_gate_d.Text.{trim_space}
use gb_516_hydropower_gate_d.Model.{
  BaseModel, Reservoir, GateUnit, OperationDirective, ExecutionConfirmation, AuditLog,
}
use gb_516_hydropower_gate_d.Platform.Schema.{
  Tables, Entity, Stored, merged, reservoir_entity, gate_entity, directive_entity,
  confirmation_entity,
}
use gb_516_hydropower_gate_d.Service.Security.Laws.{Audited}
use gb_516_hydropower_gate_d.Service.Records.{has_business_fields, Written, Created}

-- The columns that the four record types have beside `BaseModel`.
pub record Business : Type 0 where
  pub facility : String
  pub owner : String
  pub category : String
  pub risk_level : String
  pub metric_value : ℕ
  pub metric_unit : String
  pub effective_at : ℕ
  pub evidence : String
  pub related_code : String

abbrev pub reservoir_business : Reservoir → Business
reservoir_business x = record {
  facility = x.facility;
  owner = x.owner;
  category = x.category;
  risk_level = x.risk_level;
  metric_value = x.metric_value;
  metric_unit = x.metric_unit;
  effective_at = x.effective_at;
  evidence = x.evidence;
  related_code = x.related_code;
}

abbrev pub gate_business : GateUnit → Business
gate_business x = record {
  facility = x.facility;
  owner = x.owner;
  category = x.category;
  risk_level = x.risk_level;
  metric_value = x.metric_value;
  metric_unit = x.metric_unit;
  effective_at = x.effective_at;
  evidence = x.evidence;
  related_code = x.related_code;
}

abbrev pub directive_business : OperationDirective → Business
directive_business x = record {
  facility = x.facility;
  owner = x.owner;
  category = x.category;
  risk_level = x.risk_level;
  metric_value = x.metric_value;
  metric_unit = x.metric_unit;
  effective_at = x.effective_at;
  evidence = x.evidence;
  related_code = x.related_code;
}

abbrev pub confirmation_business : ExecutionConfirmation → Business
confirmation_business x = record {
  facility = x.facility;
  owner = x.owner;
  category = x.category;
  risk_level = x.risk_level;
  metric_value = x.metric_value;
  metric_unit = x.metric_unit;
  effective_at = x.effective_at;
  evidence = x.evidence;
  related_code = x.related_code;
}

-- A new row, in the state that its type begins in.
pub record BaseCreated (code name status description : String) (b : BaseModel) : Type 0 where
  pub code_eq : b.code ≡ code
  pub name_eq : b.name ≡ name
  pub status_eq : b.status ≡ status
  pub version_eq : b.version ≡ 1
  pub description_eq : b.description ≡ description
  pub live : b.deleted_at ≡ none

-- The row has another name and description, and the next version.
pub record BaseEdited (old : BaseModel) (name description : String) (b : BaseModel) : Type 0 where
  pub id_eq : b.id ≡ old.id
  pub code_eq : b.code ≡ old.code
  pub status_eq : b.status ≡ old.status
  pub created_at_eq : b.created_at ≡ old.created_at
  pub live_eq : b.deleted_at ≡ old.deleted_at
  pub version_eq : b.version ≡ (old.version + 1) % 2 ^ 64
  pub name_eq : b.name ≡ name
  pub description_eq : b.description ≡ description

-- The row has another status, and the next version.
pub record BaseMoved (old : BaseModel) (status : String) (b : BaseModel) : Type 0 where
  pub id_eq : b.id ≡ old.id
  pub code_eq : b.code ≡ old.code
  pub name_eq : b.name ≡ old.name
  pub description_eq : b.description ≡ old.description
  pub created_at_eq : b.created_at ≡ old.created_at
  pub live_eq : b.deleted_at ≡ old.deleted_at
  pub version_eq : b.version ≡ (old.version + 1) % 2 ^ 64
  pub status_eq : b.status ≡ status

-- None of the required fields is blank.
abbrev pub Filled : String → String → String → String → Type 0
Filled code name facility owner =
    (trim_space code ≢ "")
    × (trim_space name ≢ "")
    × (trim_space facility ≢ "")
    × (trim_space owner ≢ "")

pub has_business_fields-Filled :
    (code name facility owner : String)
    → has_business_fields code name facility owner ≡ true
    → Filled code name facility owner
unfolding has_business_fields
has_business_fields-Filled code name facility owner h = ground (
  arith,
  eq_iff (trim_space code) "",
  eq_iff (trim_space name) "",
  eq_iff (trim_space facility) "",
  eq_iff (trim_space owner) "",
)

-- What the four tables share: a row is read back, and the trail is another table.
pub record IsTable {T : Type 0} (e : Entity T) : Type 0 where
  pub rows_put : (id : ℕ) (row : Option T) (v : Tables) → e.rows (e.put id row v) id ≡ row
  pub rows_audits :
      (v : Tables) (audits : List AuditLog) → e.rows (record v { audits = audits }) ≡ e.rows v

equal_self : (n : ℕ) → (n == n) ≡ true
equal_self n = ground arith

at_key : {T : Type 0} (id : ℕ) (x y : T) → (if id == id then x else y) ≡ x
at_key id x y = rw (equal_self id)

pub reservoir-IsTable : IsTable reservoir_entity
reservoir-IsTable = record { rows_put = λ id row v. at_key id _ _; rows_audits = λ v audits. refl }

pub gate-IsTable : IsTable gate_entity
gate-IsTable = record { rows_put = λ id row v. at_key id _ _; rows_audits = λ v audits. refl }

pub directive-IsTable : IsTable directive_entity
directive-IsTable = record { rows_put = λ id row v. at_key id _ _; rows_audits = λ v audits. refl }

pub confirmation-IsTable : IsTable confirmation_entity
confirmation-IsTable = record {
  rows_put = λ id row v. at_key id _ _;
  rows_audits = λ v audits. refl;
}

module _ {T : Type 0} (e : Entity T) (table : IsTable e) where
  -- The row that a write has left, and the version that it has found.
  abbrev pub RowAfter : ℕ → ℕ → T → T → Tables → Type 0
  RowAfter id version old item v' =
      (time : ℕ) × ((e.base old).version ≡ version) × (e.rows v' id ≡ some (merged e old item time))

  pub Stored-row :
      {id version : ℕ} {item : T} {v v' : Tables} (current : T)
      → Stored e id version item v v'
      → e.rows v id ≡ some current
      → RowAfter id version current item v'
  Stored-row {id} {version} {item} {v} {v'} current stored found =
      let same : stored.old ≡ current = cc (stored.found, found) in
      subst (λ d. RowAfter id version d item v') same
        (stored.time, stored.versions, ap (λ t. e.rows t id) stored.stored ∙ table.rows_put id _ _)

  pub Audited-rows :
      {entry : ℕ → AuditLog} {v v' : Tables} → Audited entry v v' → e.rows v' ≡ e.rows v
  Audited-rows a = ap e.rows a.audited ∙ table.rows_audits _ _

  pub Written-row :
      {id version : ℕ} {item : T} {entry : ℕ → AuditLog} {v v' : Tables} (current : T)
      → Written e id version item entry v v'
      → e.rows v id ≡ some current
      → RowAfter id version current item v'
  Written-row {id} current written found =
      let (time, held, row) = Stored-row current written.row found in
      (time, held, ap (λ rows. rows id) (Audited-rows written.trail) ∙ row)

  -- The row that an insert has left.
  pub Created-row :
      {name detail actor request_id : String} {item x : T} {v v' : Tables}
      (created : Created e name detail actor request_id item x v v')
      → e.rows v' created.row.id ≡ some (e.columns x)
  Created-row created =
      ap (λ rows. rows created.row.id) (Audited-rows created.trail)
      ∙ ap (λ t. e.rows t created.row.id) created.row.inserted
      ∙ table.rows_put created.row.id _ _
