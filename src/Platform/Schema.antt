-- ===== src/Platform/Schema.antt =====
-- What the database holds, as a client can see it, and the tables of the four record types.
use gb_516_hydropower_gate_d.Prelude.{ℕ, ◌≡◌, Option, none, some, List, [], ◌==◌, if◌then◌else◌}
use gb_516_hydropower_gate_d.Model.{
  BaseModel, before_create, Reservoir, GateUnit, OperationDirective, DirectiveApproval,
  ExecutionConfirmation, AuditLog,
}

-- The live rows of a table (those with `deleted_at` null) by their primary key.
abbrev pub Rows : Type 0 → Type 0
Rows T = ℕ → Option T

abbrev pub override : {T : Type 0} → ℕ → Option T → Rows T → Rows T
override id row rows j = if id == j then row else rows j

-- The newest approval and the newest audit entry come first.
pub record Tables : Type 0 where
  pub reservoirs : Rows Reservoir
  pub gates : Rows GateUnit
  pub directives : Rows OperationDirective
  pub confirmations : Rows ExecutionConfirmation
  pub approvals : List DirectiveApproval
  pub audits : List AuditLog

-- `model.DomainRecord` and the table of the type. `columns` leaves out what is stored in another
-- table.
pub record Entity (T : Type 0) : Type 0 where
  pub base : T → BaseModel
  pub with_base : BaseModel → T → T
  pub columns : T → T
  pub rows : Tables → Rows T
  pub put : ℕ → Option T → Tables → Tables

abbrev pub reservoir_entity : Entity Reservoir
reservoir_entity = record {
  base = λ x. x.base;
  with_base = λ b x. record x { base = b };
  columns = λ x. x;
  rows = λ v. v.reservoirs;
  put = λ id row v. record v { reservoirs = override id row v.reservoirs };
}

abbrev pub gate_entity : Entity GateUnit
gate_entity = record {
  base = λ x. x.base;
  with_base = λ b x. record x { base = b };
  columns = λ x. x;
  rows = λ v. v.gates;
  put = λ id row v. record v { gates = override id row v.gates };
}

abbrev pub directive_entity : Entity OperationDirective
directive_entity = record {
  base = λ x. x.base;
  with_base = λ b x. record x { base = b };
  columns = λ x. record x { approvals = [] };
  rows = λ v. v.directives;
  put = λ id row v. record v { directives = override id row v.directives };
}

abbrev pub confirmation_entity : Entity ExecutionConfirmation
confirmation_entity = record {
  base = λ x. x.base;
  with_base = λ b x. record x { base = b };
  columns = λ x. x;
  rows = λ v. v.confirmations;
  put = λ id row v. record v { confirmations = override id row v.confirmations };
}

module _ {T : Type 0} (e : Entity T) where
  -- The row after an `UPDATE` of every column but `id`, `code`, `created_at` and `deleted_at`.
  -- GORM writes the time of the statement into `updated_at`.
  abbrev pub merged : T → T → ℕ → T
  merged old item time =
      let b = e.base old in
      e.with_base
        (record (e.base item) {
          id = b.id;
          code = b.code;
          created_at = b.created_at;
          deleted_at = b.deleted_at;
          updated_at = time;
        })
        (e.columns item)

  -- A new row, under an id that was free. The hook `BeforeCreate` runs first.
  pub record Inserted (item x : T) (v v' : Tables) : Type 0 where
    pub id : ℕ
    pub time : ℕ
    pub free : e.rows v id ≡ none
    pub item_eq :
        x
        ≡ e.with_base
            (record (before_create (e.base item)) { id = id; created_at = time; updated_at = time })
            item
    pub inserted : v' ≡ e.put id (some (e.columns x)) v

  -- A row that had the version has been replaced.
  pub record Stored (id version : ℕ) (item : T) (v v' : Tables) : Type 0 where
    pub old : T
    pub time : ℕ
    pub found : e.rows v id ≡ some old
    pub versions : (e.base old).version ≡ version
    pub stored : v' ≡ e.put id (some (merged old item time)) v

  -- A row has been hidden by its `deleted_at`.
  pub record Removed (id : ℕ) (v v' : Tables) : Type 0 where
    pub old : T
    pub found : e.rows v id ≡ some old
    pub removed : v' ≡ e.put id none v
