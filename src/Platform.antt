-- ===== src/Platform.antt =====
-- What lies outside the process: the database behind GORM, its transactions, and the clock. They are
-- parameters of the model, with what their documentation says of them as laws.
pub mod Schema
pub mod Reads
pub mod Library
use gb_516_hydropower_gate_d.Prelude.{
  ℕ, String, ◌≡◌, ◌⊎◌, Bool, true, Option, none, some, List, ◌∷◌,
}
use gb_516_hydropower_gate_d.Exec.{Error, Result, ok, err, record_not_found, Exec, After}
use gb_516_hydropower_gate_d.Model.{
  BaseModel, before_create, Reservoir, GateUnit, OperationDirective, DirectiveApproval,
  ExecutionConfirmation, User, AuditLog,
}
use Schema.{
  Tables, Entity, Inserted, Stored, Removed, reservoir_entity, gate_entity, directive_entity,
  confirmation_entity,
}

-- The statements that `Store[T]` issues, for one record type `T`.
pub record Statements (World : Type 0) (T : Type 0) : Type 0 where
  -- `First(&item, id)`
  pub first : ℕ → Exec World T
  -- `Where("code = ?", code).First(&item)`
  pub first_by_code : String → Exec World T
  -- `Create(&item)`: the item with the fields that the database gives it
  pub create : T → Exec World T
  -- `Where("id = ? AND version = ?", id, version).Select("*").Omit("id", "code", "created_at",
  -- "deleted_at").Updates(item)`: the number of rows affected
  pub updates : ℕ → ℕ → T → Exec World ℕ
  -- `Delete(new(T), id)`, which sets `deleted_at`: the number of rows affected
  pub delete : ℕ → Exec World ℕ

pub record Platform : Type 1 where
  pub World : Type 0
  -- What a client can read of the database.
  pub view : World → Tables
  pub reservoirs : Statements World Reservoir
  pub gates : Statements World GateUnit
  pub directives : Statements World OperationDirective
  pub confirmations : Statements World ExecutionConfirmation
  -- `Where("directive_id = ?", id).Order("created_at ASC, id ASC").Find(&approvals)`
  pub find_approvals : ℕ → Exec World (List DirectiveApproval)
  pub create_approval : DirectiveApproval → Exec World (Unit {0})
  pub create_audit : AuditLog → Exec World (Unit {0})
  -- `Where("related_code = ?", code).Count(&count)` on the confirmations
  pub count_related : String → Exec World ℕ
  -- `db.Transaction(fn)`; inside a transaction, a savepoint
  pub transaction : (A : Type 0) → Exec World A → Exec World A
  -- `time.Now().UTC()`
  pub now : Exec World ℕ

module _ {World T : Type 0} (view : World → Tables) (e : Entity T) (s : Statements World T) where
  -- What the documentation of GORM and of SQL says of these statements. One that fails changes nothing.
  pub record StatementLaws : Type 0 where
    pub first_law :
        (id : ℕ) (w : World)
        → After
            (λ x w'. (e.rows (view w) id ≡ some x) × ((e.base x).id ≡ id) × (view w' ≡ view w))
            (λ _ w'. view w' ≡ view w)
            (s.first id w)
    pub first_by_code_law :
        (c : String) (w : World)
        → After
            (λ x w'.
              (e.rows (view w) (e.base x).id ≡ some x) × ((e.base x).code ≡ c) × (view w' ≡ view w))
            (λ _ w'. view w' ≡ view w)
            (s.first_by_code c w)
    pub create_law :
        (item : T) (w : World)
        → After
            (λ x w'. Inserted e item x (view w) (view w'))
            (λ _ w'. view w' ≡ view w)
            (s.create item w)
    pub updates_law :
        (id version : ℕ) (item : T) (w : World)
        → After
            (λ n w'.
              (n ≡ 0) × (view w' ≡ view w) ⊎ (n ≡ 1) × Stored e id version item (view w) (view w'))
            (λ _ w'. view w' ≡ view w)
            (s.updates id version item w)
    pub delete_law :
        (id : ℕ) (w : World)
        → After
            (λ n w'. (n ≡ 0) × (view w' ≡ view w) ⊎ (n ≡ 1) × Removed e id (view w) (view w'))
            (λ _ w'. view w' ≡ view w)
            (s.delete id w)

module _ (p : Platform) where
  open p use {
    World, view, reservoirs, gates, directives, confirmations, find_approvals, create_approval,
    create_audit, count_related, transaction, now,
  }

  pub record PlatformLaws : Type 1 where
    pub reservoir_laws : StatementLaws view reservoir_entity reservoirs
    pub gate_laws : StatementLaws view gate_entity gates
    pub directive_laws : StatementLaws view directive_entity directives
    pub confirmation_laws : StatementLaws view confirmation_entity confirmations
    pub find_approvals_law :
        (id : ℕ) (w : World)
        → After (λ _ w'. view w' ≡ view w) (λ _ w'. view w' ≡ view w) (find_approvals id w)
    pub create_approval_law :
        (a : DirectiveApproval) (w : World)
        → After
            (λ _ w'.
              (id : ℕ) × (view w'
                ≡ record (view w) { approvals = record a { id = id } ∷ (view w).approvals }))
            (λ _ w'. view w' ≡ view w)
            (create_approval a w)
    pub create_audit_law :
        (a : AuditLog) (w : World)
        → After
            (λ _ w'.
              (id : ℕ) × (view w'
                ≡ record (view w) { audits = record a { id = id } ∷ (view w).audits }))
            (λ _ w'. view w' ≡ view w)
            (create_audit a w)
    pub count_related_law :
        (c : String) (w : World)
        → After
            (λ n w'.
              (view w' ≡ view w)
              × (n ≡ 0
                  → (id : ℕ) (x : ExecutionConfirmation) → (view w).confirmations id ≡ some x
                  → ¬ (x.related_code ≡ c)))
            (λ _ w'. view w' ≡ view w)
            (count_related c w)
    -- All of what the body did is kept if it returns, and the transaction commits; nothing otherwise.
    pub transaction_law :
        (A : Type 0) (body : Exec World A) (w : World)
        → After
            (λ a w'.
              (begun : World) × (done : World) × (view begun ≡ view w)
              × (body begun ≡ (ok a, done))
              × (view w' ≡ view done))
            (λ _ w'. view w' ≡ view w)
            (transaction A body w)
    pub now_law : (w : World) → After (λ _ w'. view w' ≡ view w) (λ _ w'. view w' ≡ view w) (now w)
