-- ===== src/Service/Records.antt =====
-- What the four services of backend/internal/service share: the checks and counters that each file
-- has a copy of, and what a write of a record together with its audit entry does to the tables.
pub mod Rows
pub mod Kept
use gb_516_hydropower_gate_d.Prelude.{
  ℕ, ◌+◌, ◌-◌, ◌%◌, ◌^◌, String, ◌≡◌, refl, Bool, false, not, ◌||◌, ◌=ˢ◌,
}
use gb_516_hydropower_gate_d.Exec.{Error, Exec, pure, ◌>>=◌, ◌>>◌, After, bind-After, After-map}
use gb_516_hydropower_gate_d.Text.{is_blank}
use gb_516_hydropower_gate_d.Model.{AuditLog, GateUnit}
use gb_516_hydropower_gate_d.Platform.{Platform, Statements, StatementLaws, PlatformLaws}
use gb_516_hydropower_gate_d.Platform.Schema.{Tables, Entity, Inserted, Stored, Removed}
use gb_516_hydropower_gate_d.Repository.Store
use gb_516_hydropower_gate_d.Repository.Store.{request}
use gb_516_hydropower_gate_d.Repository.Store.Laws.{
  AnyError, create-After, update-After, delete-After, transaction-After,
}
use gb_516_hydropower_gate_d.Service.Security.{audit, audit_entry}
use gb_516_hydropower_gate_d.Service.Security.Laws.{Audited, audit-After, create_audit-After}

-- `version + 1` and `version - 1` on `uint`
abbrev pub inc : ℕ → ℕ
inc n = (n + 1) % 2 ^ 64

abbrev pub dec : ℕ → ℕ
dec n = (n + 2 ^ 64 - 1) % 2 ^ 64

-- `validateOperationDirectiveBusinessFields` and its copies for the other records.
unfoldable pub has_business_fields : String → String → String → String → Bool
has_business_fields code name facility owner =
    not (is_blank code || is_blank name || is_blank facility || is_blank owner)

-- `gate.Status = gateTarget; gate.Version++; gate.UpdatedAt = now`
abbrev pub moved_gate : GateUnit → String → ℕ → GateUnit
moved_gate gate gate_target now = record gate {
  base = record gate.base { status = gate_target; version = inc gate.version; updated_at = now };
}

-- A row under its optimistic lock, and then its audit entry.
pub record Written {T : Type 0} (e : Entity T) (id version : ℕ) (item : T) (entry : ℕ → AuditLog)
    (v v' : Tables) : Type 0 where
  pub middle : Tables
  pub row : Stored e id version item v middle
  pub trail : Audited entry middle v'

-- A new row, and then its audit entry.
pub record Created {T : Type 0} (e : Entity T) (name detail actor request_id : String) (item x : T)
    (v v' : Tables) : Type 0 where
  pub middle : Tables
  pub row : Inserted e item x v middle
  pub trail :
      Audited
        (audit_entry actor request_id "create" name (e.base x).id "" (e.base x).status detail)
        middle
        v'

-- A row that is hidden, and then its audit entry.
pub record Deleted {T : Type 0} (e : Entity T) (id : ℕ) (entry : ℕ → AuditLog) (v v' : Tables)
    : Type 0 where
  pub middle : Tables
  pub row : Removed e id v middle
  pub trail : Audited entry middle v'

module _ (p : Platform) (laws : PlatformLaws p) {T : Type 0} (e : Entity T)
    (s : Statements p.World T) (row_laws : StatementLaws p.view e s) where
  -- The row and its entry, inside a transaction.
  pub write-After :
      (id version : ℕ) (item : T) (actor request_id action name : String) (entity_id : ℕ)
      (before after detail : String) (v : Tables) (w : p.World)
      → (action =ˢ "" || name =ˢ "") ≡ false
      → p.view w ≡ v
      → After
          (λ _ w'.
            Written e id version item
              (audit_entry actor request_id action name entity_id before after detail)
              v
              (p.view w'))
          AnyError
          ((Store.update p s id version item
              >> audit p actor request_id action name entity_id before after detail)
            w)
  write-After id version item actor request_id action name entity_id before after detail v w named
        h =
      bind-After _ _ _ (update-After p e s row_laws v id version item w h) λ _ w₁ row.
        After-map _
          (audit-After p laws actor request_id action name entity_id before after detail (p.view w₁)
            w₁ named refl)
          (λ _ w₂ trail. record { middle = p.view w₁; row = row; trail = trail }) (λ _ _ _. tt)

  -- The same, followed by more of the transaction.
  pub write_then-After :
      (id version : ℕ) (item : T) (actor request_id action name : String) (entity_id : ℕ)
      (before after detail : String) (v : Tables) (w : p.World) {B : Type 0}
      (Q : B → p.World → Type 0) (k : Exec p.World B)
      → (action =ˢ "" || name =ˢ "") ≡ false
      → p.view w ≡ v
      → ((w' : p.World)
          → Written e id version item
              (audit_entry actor request_id action name entity_id before after detail)
              v
              (p.view w')
          → After Q AnyError (k w'))
      → After Q AnyError (
          (Store.update p s id version item
              >> (audit p actor request_id action name entity_id before after detail >> k))
            w)
  write_then-After id version item actor request_id action name entity_id before after detail v w Q
        k named h rest =
      bind-After _ _ _ (update-After p e s row_laws v id version item w h) λ _ w₁ row.
        bind-After _ _ _
          (audit-After p laws actor request_id action name entity_id before after detail (p.view w₁)
            w₁ named refl)
          λ _ w₂ trail. rest w₂ (record { middle = p.view w₁; row = row; trail = trail })

  module _ (v : Tables) {E : Error → p.World → Type 0}
      (fail : (x : Error) (w : p.World) → p.view w ≡ v → E x w) where
    -- `TransitionWithAudit`
    pub transition_with_audit-After :
        (id version : ℕ) (item : T) (entry : AuditLog) (w : p.World)
        → p.view w ≡ v
        → After
            (λ _ w'. Written e id version item (λ _. entry) v (p.view w'))
            E
            (Store.transition_with_audit p s id version item entry w)
    unfolding Store.transition_with_audit
    transition_with_audit-After id version item entry w h =
        transaction-After p laws v (λ _ v'. Written e id version item (λ _. entry) v v') fail _ w h
          λ w₁ h₁.
            bind-After _ _ _ (update-After p e s row_laws v id version item w₁ h₁) λ _ w₂ row.
              After-map _ (create_audit-After p laws entry (p.view w₂) w₂ refl)
                (λ _ w₃ trail. record { middle = p.view w₂; row = row; trail = trail })
                (λ _ _ _. tt)

    pub update_record-After :
        (id version : ℕ) (item : T) (actor request_id action name : String) (entity_id : ℕ)
        (before after detail : String) (w : p.World)
        → (action =ˢ "" || name =ˢ "") ≡ false
        → p.view w ≡ v
        → After
            (λ _ w'.
              Written e id version item
                (audit_entry actor request_id action name entity_id before after detail)
                v
                (p.view w'))
            E
            (Store.within_transaction p request
              (λ tx.
                Store.update p s id version item
                >> audit p actor request_id action name entity_id before after detail)
              w)
    unfolding Store.within_transaction
    update_record-After id version item actor request_id action name entity_id before after detail w
          named h =
        transaction-After p laws v
          (λ _ v'.
            Written e id version item
              (audit_entry actor request_id action name entity_id before after detail) v v')
          fail _ w h
          λ w₁ h₁.
            write-After id version item actor request_id action name entity_id before after detail v
              w₁ named h₁

    pub create_record-After :
        (item : T) (actor request_id name detail : String) (w : p.World)
        → (name =ˢ "") ≡ false
        → p.view w ≡ v
        → After
            (λ x w'. Created e name detail actor request_id item x v (p.view w'))
            E
            (Store.within_transaction p request
              (λ tx. Store.create p s item >>= λ x.
                audit p actor request_id "create" name (e.base x).id "" (e.base x).status detail
                >> pure x)
              w)
    unfolding Store.within_transaction
    create_record-After item actor request_id name detail w named h =
        transaction-After p laws v (λ x v'. Created e name detail actor request_id item x v v') fail
          _ w h
          λ w₁ h₁. bind-After _ _ _ (create-After p e s row_laws v item w₁ h₁) λ x w₂ row.
            bind-After _ _ _
              (audit-After p laws actor request_id "create" name (e.base x).id "" (e.base x).status
                detail (p.view w₂) w₂ named refl)
              λ _ w₃ trail. record {
                holds = record { middle = p.view w₂; row = row; trail = trail };
              }

    pub delete_record-After :
        (id : ℕ) (actor request_id name before detail : String) (w : p.World)
        → (name =ˢ "") ≡ false
        → p.view w ≡ v
        → After
            (λ _ w'.
              Deleted e id
                (audit_entry actor request_id "delete" name id before "deleted" detail)
                v
                (p.view w'))
            E
            (Store.within_transaction p request
              (λ tx.
                Store.delete p s id
                >> audit p actor request_id "delete" name id before "deleted" detail)
              w)
    unfolding Store.within_transaction
    delete_record-After id actor request_id name before detail w named h =
        transaction-After p laws v
          (λ _ v'.
            Deleted e id (audit_entry actor request_id "delete" name id before "deleted" detail) v
              v')
          fail _ w h
          λ w₁ h₁. bind-After _ _ _ (delete-After p e s row_laws v id w₁ h₁) λ _ w₂ row.
            After-map _
              (audit-After p laws actor request_id "delete" name id before "deleted" detail
                (p.view w₂) w₂ named refl)
              (λ _ w₃ trail. record { middle = p.view w₂; row = row; trail = trail }) (λ _ _ _. tt)
