-- ===== src/Database/Setup.antt =====
-- The statements that the set-up of the database issues, as parameters.
use gb_516_hydropower_gate_d.Prelude.{ℕ, ◌≡◌, none, List, [], ◌∷◌}
use gb_516_hydropower_gate_d.Exec.{Exec, After}
use gb_516_hydropower_gate_d.Model.{
  Reservoir, GateUnit, OperationDirective, DirectiveApproval, ExecutionConfirmation, User,
}
use gb_516_hydropower_gate_d.Platform.Schema.{
  Tables, Entity, Inserted, reservoir_entity, gate_entity, directive_entity, confirmation_entity,
}
use gb_516_hydropower_gate_d.Platform.Reads.{IsRead}

pub record Bulk (World : Type 0) (T : Type 0) : Type 0 where
  -- `Model(&T{}).Count(&count)`
  pub count : Exec World ℕ
  -- `Create(&items)`: the items with the fields that the database gives them
  pub create_all : List T → Exec World (List T)

pub record Setup (World : Type 0) : Type 0 where
  pub count_users : Exec World ℕ
  pub create_users : List User → Exec World (Unit {0})
  pub reservoirs : Bulk World Reservoir
  pub gates : Bulk World GateUnit
  pub directives : Bulk World OperationDirective
  pub confirmations : Bulk World ExecutionConfirmation
  pub create_approvals : List DirectiveApproval → Exec World (Unit {0})
  -- `time.Now().UTC()`
  pub now : Exec World ℕ

-- One row after the other, and as many as there are items.
abbrev pub InsertedAll : {T : Type 0} → Entity T → List T → List T → Tables → Tables → Type 0
InsertedAll e [] [] v v' = v' ≡ v
InsertedAll e (item ∷ items) (x ∷ xs) v v' =
    (middle : Tables) × Inserted e item x v middle × InsertedAll e items xs middle v'
InsertedAll e [] (x ∷ xs) v v' = ⊥
InsertedAll e (item ∷ items) [] v v' = ⊥

abbrev pub AddedApprovals : List DirectiveApproval → Tables → Tables → Type 0
AddedApprovals [] v v' = v' ≡ v
AddedApprovals (a ∷ rest) v v' =
    (id : ℕ) × AddedApprovals rest (record v { approvals = record a { id = id } ∷ v.approvals }) v'

module _ {World : Type 0} (view : World → Tables) where
  -- A statement that fails changes nothing.
  pub record BulkLaws {T : Type 0} (e : Entity T) (b : Bulk World T) : Type 0 where
    pub count_law :
        (w : World)
        → After
            (λ n w'. (view w' ≡ view w) × (n ≡ 0 → (id : ℕ) → e.rows (view w) id ≡ none))
            (λ _ w'. view w' ≡ view w)
            (b.count w)
    pub create_all_law :
        (items : List T) (w : World)
        → After
            (λ xs w'. InsertedAll e items xs (view w) (view w'))
            (λ _ w'. view w' ≡ view w)
            (b.create_all items w)

  pub record SetupLaws (s : Setup World) : Type 0 where
    pub count_users_law : IsRead view s.count_users
    pub create_users_law : (users : List User) → IsRead view (s.create_users users)
    pub reservoir_laws : BulkLaws reservoir_entity s.reservoirs
    pub gate_laws : BulkLaws gate_entity s.gates
    pub directive_laws : BulkLaws directive_entity s.directives
    pub confirmation_laws : BulkLaws confirmation_entity s.confirmations
    pub create_approvals_law :
        (approvals : List DirectiveApproval) (w : World)
        → After
            (λ _ w'. AddedApprovals approvals (view w) (view w'))
            (λ _ w'. view w' ≡ view w)
            (s.create_approvals approvals w)
    pub now_law : IsRead view s.now
