-- ===== src/Repository/Directives/Laws.antt =====
-- What the operations on directives do to the tables.
use gb_516_hydropower_gate_d.Prelude.{
  ℕ, String, ◌≡◌, ◌⊎◌, inr, refl, sym, ap, ◌∙◌, Option, none, some, List, ◌∷◌,
}
use gb_516_hydropower_gate_d.Exec.{Error, After, bind-After, After-map}
use gb_516_hydropower_gate_d.Text.{Unicode}
use gb_516_hydropower_gate_d.Model.{OperationDirective, DirectiveApproval, AuditLog}
use gb_516_hydropower_gate_d.Platform.{Platform, PlatformLaws}
use gb_516_hydropower_gate_d.Platform.Schema.{Tables, directive_entity, Stored}
use gb_516_hydropower_gate_d.Repository.Store
use gb_516_hydropower_gate_d.Repository.Store.Laws.{
  AnyError, get_by_code-After, update-After, transaction-After,
}
use gb_516_hydropower_gate_d.Repository.Directives

-- `item` is the live row with this id, with approvals loaded.
pub record DirectiveRead (id : ℕ) (v : Tables) (item : OperationDirective) : Type 0 where
  pub row : OperationDirective
  pub approvals : List DirectiveApproval
  pub found : v.directives id ≡ some row
  pub ids : row.id ≡ id
  pub item_eq : item ≡ record row { approvals = approvals }

-- The approvals after one more, if there is one.
abbrev pub with_approval :
    ℕ → ℕ → Option DirectiveApproval → List DirectiveApproval → List DirectiveApproval
with_approval id directive_id none approvals = approvals
with_approval id directive_id (some a) approvals =
    record a { id = id; directive_id = directive_id } ∷ approvals

-- The row, the approval and the audit entry, all three.
pub record DirectiveStored (id version : ℕ) (item : OperationDirective)
    (approval : Option DirectiveApproval) (entry : AuditLog) (v v' : Tables) : Type 0 where
  pub middle : Tables
  pub row : Stored directive_entity id version item v middle
  pub approval_id : ℕ
  pub entry_id : ℕ
  pub rest : v' ≡ record middle {
    approvals = with_approval approval_id id approval middle.approvals;
    audits = record entry { id = entry_id } ∷ middle.audits;
  }

module _ (p : Platform) (laws : PlatformLaws p) where
  -- The row that `GetByCode` has found is read again by its id.
  reread :
      {v : Tables} (x y : OperationDirective)
      → DirectiveRead x.id v y
      → v.directives x.id ≡ some x
      → DirectiveRead y.id v y × (y.code ≡ x.code)
  reread x y r found =
      let same : y.id ≡ x.id = ap (λ (t : OperationDirective). t.id) r.item_eq ∙ r.ids in
      let row_eq : r.row ≡ x = cc (r.found, found) in
      (
        record {
          row = r.row;
          approvals = r.approvals;
          found = rw same r.found;
          ids = r.ids ∙ sym same;
          item_eq = r.item_eq;
        },
        ap (λ (t : OperationDirective). t.code) r.item_eq
            ∙ ap (λ (t : OperationDirective). t.code) row_eq,
      )

  module _ (v : Tables) {E : Error → p.World → Type 0}
      (fail : (x : Error) (w : p.World) → p.view w ≡ v → E x w) where
    pub get_directive-After :
        (id : ℕ) (w : p.World)
        → p.view w ≡ v
        → After (λ x w'. DirectiveRead id v x × (p.view w' ≡ v)) E (Directives.get p id w)
    unfolding Directives.get
    get_directive-After id w h =
        bind-After _ _ _
          (After-map _ (laws.directive_laws.first_law id w) (λ x w' q. q)
            (λ x w' q. fail x w' (q ∙ h)))
          λ row w' q.
            bind-After _ _ _
              (After-map _ (laws.find_approvals_law id w') (λ x w'' r. r)
                (λ x w'' r. fail x w'' (r ∙ q.2 ∙ h)))
              λ approvals w'' r. record {
                holds = (
                  record {
                    row = row;
                    approvals = approvals;
                    found = rw (← h) q.0;
                    ids = q.1;
                    item_eq = refl;
                  },
                  r ∙ q.2 ∙ h,
                );
              }

    pub get_directive_by_code-After :
        (u : Unicode) (code : String) (w : p.World)
        → p.view w ≡ v
        → After
            (λ x w'. DirectiveRead x.id v x × (x.code ≡ Store.normal_code u code) × (p.view w' ≡ v))
            E
            (Directives.get_by_code p u code w)
    unfolding Directives.get_by_code
    get_directive_by_code-After u code w h =
        bind-After _ _ _
          (get_by_code-After p directive_entity p.directives laws.directive_laws v fail u code w h)
          λ x w' q.
            After-map _ (get_directive-After x.id w' q.2)
              (λ y w'' r. let (read, codes) = reread x y r.0 q.0 in (read, codes ∙ q.1, r.1))
              (λ _ _ e. e)

  -- The read that follows a commit.
  pub get_committed-After :
      (v : Tables) (C : Tables → Type 0) (id : ℕ) (w : p.World)
      → C (p.view w)
      → After
          (λ x w'. C (p.view w') × DirectiveRead id (p.view w') x)
          (λ _ w'. (p.view w' ≡ v) ⊎ C (p.view w'))
          (Directives.get p id w)
  get_committed-After v C id w done =
      After-map _
        (get_directive-After (p.view w) {E = λ _ w'. p.view w' ≡ p.view w} (λ _ _ e. e) id w refl)
        (λ x w' q. rw q.1 (done, q.0)) (λ _ w' same. inr (rw same done))

  create_approval-After :
      (id : ℕ) (approval : Option DirectiveApproval) (v : Tables) (w : p.World)
      → p.view w ≡ v
      → After
          (λ _ w'.
            (k : ℕ) × (p.view w'
              ≡ record v { approvals = with_approval k id approval v.approvals }))
          AnyError
          (Directives.create_approval p id approval w)
  unfolding Directives.create_approval
  create_approval-After id none v w h = record { holds = (0, h) }
  create_approval-After id (some a) v w h =
      After-map _ (laws.create_approval_law (record a { directive_id = id }) w)
        (λ _ w' q. (q.0, rw (← h) q.1)) (λ _ _ _. tt)

  -- In its own transaction, or, inside another, behind a savepoint.
  pub transition_with_approval-After :
      (id version : ℕ) (item : OperationDirective) (approval : Option DirectiveApproval)
      (entry : AuditLog) (v : Tables) (w : p.World)
      → p.view w ≡ v
      → After
          (λ _ w'. DirectiveStored id version item approval entry v (p.view w'))
          AnyError
          (Directives.transition_with_approval p id version item approval entry w)
  unfolding Directives.transition_with_approval
  transition_with_approval-After id version item approval entry v w h =
      transaction-After p laws v (λ _ v'. DirectiveStored id version item approval entry v v')
        (λ _ _ _. tt) _ w h
        λ w₁ h₁.
          bind-After _ _ _
            (update-After p directive_entity p.directives laws.directive_laws v id version item w₁
              h₁)
            λ _ w₂ row.
              bind-After _ _ _ (create_approval-After id approval (p.view w₂) w₂ refl) λ _ w₃ q.
                After-map _ (laws.create_audit_law entry w₃)
                  (λ _ w₄ r. record {
                    middle = p.view w₂;
                    row = row;
                    approval_id = q.0;
                    entry_id = r.0;
                    rest =
                        r.1
                        ∙ ap
                            (λ (t : Tables). record t {
                              audits = record entry { id = r.0 } ∷ t.audits;
                            })
                            q.1;
                  })
                  (λ _ _ _. tt)
