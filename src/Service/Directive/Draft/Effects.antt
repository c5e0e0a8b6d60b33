-- ===== src/Service/Directive/Draft/Effects.antt =====
-- What `Create`, `Update` and `Delete` of a directive do to the tables.
use gb_516_hydropower_gate_d.Prelude.{ℕ, String, ◌≡◌, ◌≢◌, refl, ◌∙◌, ◌⊎◌, inl, true, some, eq_iff}
use gb_516_hydropower_gate_d.Exec.{After, bind-After, After-map, require-After}
use gb_516_hydropower_gate_d.Text.{Unicode, trim_space, equal_fold}
use gb_516_hydropower_gate_d.Model.{OperationDirective, GateUnit}
use gb_516_hydropower_gate_d.Dto.{CreateOperationDirective, UpdateOperationDirective}
use gb_516_hydropower_gate_d.Platform.{Platform, PlatformLaws}
use gb_516_hydropower_gate_d.Platform.Schema.{Tables, gate_entity, directive_entity}
use gb_516_hydropower_gate_d.Repository.Store
use gb_516_hydropower_gate_d.Repository.Store.Laws.{get_by_code-After}
use gb_516_hydropower_gate_d.Repository.Directives.Laws.{
  DirectiveRead, get_directive-After, get_committed-After,
}
use gb_516_hydropower_gate_d.Service.Security.{audit_entry}
use gb_516_hydropower_gate_d.Service.Records.Rows.{Filled, has_business_fields-Filled}
use gb_516_hydropower_gate_d.Service.Records.{
  Written, Created, Deleted, create_record-After, update_record-After, delete_record-After,
}
use gb_516_hydropower_gate_d.Service.Directive.Draft.{
  new_record, edited_record, create, update, delete,
}
use gb_516_hydropower_gate_d.Service.Directive.Draft.Rows.{
  DraftRow, DraftEdit, fits-unlocked, new-DraftRow, edited-DraftEdit,
}

pub record DirectiveCreated (u : Unicode) (input : CreateOperationDirective)
    (actor request_id : String) (x : OperationDirective) (v v' : Tables) : Type 0 where
  pub gate : GateUnit
  pub linked : v.gates gate.id ≡ some gate
  pub code : gate.code ≡ Store.normal_code u input.related_code
  pub same_facility : equal_fold u (trim_space input.facility) gate.facility ≡ true
  pub unlocked : gate.status ≢ "locked"
  pub fields : Filled input.code input.name input.facility input.owner
  pub created :
      Created directive_entity "OperationDirective" "created 操作指令" actor request_id
        (new_record u input)
        x
        v
        v'
  pub row : DraftRow u input x v'

pub record DirectiveEdited (u : Unicode) (id : ℕ) (input : UpdateOperationDirective)
    (actor request_id : String) (v v' : Tables) : Type 0 where
  pub current : OperationDirective
  pub now : ℕ
  pub gate : GateUnit
  pub read : DirectiveRead id v current
  pub draft : current.status ≡ "draft"
  pub linked : v.gates gate.id ≡ some gate
  pub code : gate.code ≡ Store.normal_code u input.related_code
  pub same_facility : equal_fold u (trim_space input.facility) gate.facility ≡ true
  pub unlocked : gate.status ≢ "locked"
  pub fields : Filled current.code input.name input.facility input.owner
  pub written :
      Written directive_entity id input.expected_version
        (edited_record u current input now)
        (audit_entry actor request_id "update" "OperationDirective" id current.status current.status
          "updated business fields")
        v
        v'
  pub edit : DraftEdit u id current input v'

pub record DirectiveDeleted (id : ℕ) (actor request_id : String) (v v' : Tables) : Type 0 where
  pub current : OperationDirective
  pub read : DirectiveRead id v current
  pub draft : current.status ≡ "draft"
  pub deleted :
      Deleted directive_entity id
        (audit_entry actor request_id "delete" "OperationDirective" id current.status "deleted"
          "soft deleted 操作指令")
        v
        v'

module _ (u : Unicode) (p : Platform) (laws : PlatformLaws p) (v : Tables) (w : p.World)
    (h : p.view w ≡ v) where
  -- On success a draft of version 1 with the columns of the input has been inserted for a gate that is not locked and lies in the named
  -- facility, and its creation is on the trail; the result is the new record. On an error nothing
  -- has changed.
  pub create-DirectiveCreated :
      (input : CreateOperationDirective) (actor request_id : String)
      → After
          (λ x w'. DirectiveCreated u input actor request_id x v (p.view w'))
          (λ _ w'. p.view w' ≡ v)
          (create u p input actor request_id w)
  unfolding create
  create-DirectiveCreated input actor request_id = require-After _ _ _ _ h λ fields.
      bind-After _ _ _
        (get_by_code-After p gate_entity p.gates laws.gate_laws v {E = λ _ w'. p.view w' ≡ v}
          (λ _ _ same. same) u input.related_code w h)
        λ gate w₁ (linked, code, h₁). require-After _ _ _ _ h₁ λ fits.
          After-map _
            (create_record-After p laws directive_entity p.directives laws.directive_laws v
              {E = λ _ w'. p.view w' ≡ v} (λ _ _ same. same) (new_record u input) actor request_id
              "OperationDirective" "created 操作指令" w₁ refl h₁)
            (λ x w' created. record {
              gate = gate;
              linked = linked;
              code = code;
              same_facility = (fits-unlocked u input.facility gate fits).0;
              unlocked = (fits-unlocked u input.facility gate fits).1;
              fields = has_business_fields-Filled _ _ _ _ fields;
              created = created;
              row = new-DraftRow u input actor request_id x v (p.view w') created;
            })
            (λ _ _ same. same)

  -- On success the row was a draft at the expected version, is a draft at the next one with the edited
  -- columns, for a gate that is not locked and lies in the named facility, the edit is on the trail, and the result is the stored row. On an error nothing has changed, or,
  -- if only the last read failed, all has.
  pub update-DirectiveEdited :
      (id : ℕ) (input : UpdateOperationDirective) (actor request_id : String)
      → After
          (λ x w'.
            DirectiveEdited u id input actor request_id v (p.view w')
            × DirectiveRead id (p.view w') x)
          (λ _ w'. (p.view w' ≡ v) ⊎ DirectiveEdited u id input actor request_id v (p.view w'))
          (update u p id input actor request_id w)
  unfolding update edited_record
  update-DirectiveEdited id input actor request_id =
      bind-After _ _ _ (get_directive-After p laws v (λ _ _. inl) id w h) λ current w₁ (read, h₁).
        require-After _ _ _ _ (inl h₁) λ draft. require-After _ _ _ _ (inl h₁) λ fields.
          bind-After _ _ _
            (get_by_code-After p gate_entity p.gates laws.gate_laws v (λ _ _. inl) u
              input.related_code w₁ h₁)
            λ gate w₂ (linked, code, h₂). require-After _ _ _ _ (inl h₂) λ fits.
              bind-After _ _ _
                (After-map _ (laws.now_law w₂) (λ _ _ q. q ∙ h₂) (λ _ _ q. inl (q ∙ h₂)))
                λ now w₃ h₃.
                  bind-After _ _ _
                    (update_record-After p laws directive_entity p.directives laws.directive_laws v
                      (λ _ _. inl) id input.expected_version (edited_record u current input now)
                      actor request_id "update" "OperationDirective" id current.status
                      current.status "updated business fields" w₃ refl h₃)
                    λ _ w₄ written.
                      get_committed-After p laws v (DirectiveEdited u id input actor request_id v)
                        id w₄
                        (record {
                          current = current;
                          now = now;
                          gate = gate;
                          read = read;
                          draft = (eq_iff _ _).0 draft;
                          linked = linked;
                          code = code;
                          same_facility = (fits-unlocked u input.facility gate fits).0;
                          unlocked = (fits-unlocked u input.facility gate fits).1;
                          fields = has_business_fields-Filled _ _ _ _ fields;
                          written = written;
                          edit =
                              edited-DraftEdit u id current input now _ v (p.view w₄) read written;
                        })

  -- On success the row was a draft and is hidden, and the deletion is on the trail. On an error
  -- nothing has changed.
  pub delete-DirectiveDeleted :
      (id : ℕ) (actor request_id : String)
      → After
          (λ _ w'. DirectiveDeleted id actor request_id v (p.view w'))
          (λ _ w'. p.view w' ≡ v)
          (delete u p id actor request_id w)
  unfolding delete
  delete-DirectiveDeleted id actor request_id =
      bind-After _ _ _
        (get_directive-After p laws v {E = λ _ w'. p.view w' ≡ v} (λ _ _ same. same) id w h)
        λ current w₁ (read, h₁). require-After _ _ _ _ h₁ λ draft.
          After-map _
            (delete_record-After p laws directive_entity p.directives laws.directive_laws v
              {E = λ _ w'. p.view w' ≡ v} (λ _ _ same. same) id actor request_id
              "OperationDirective" current.status "soft deleted 操作指令" w₁ refl h₁)
            (λ _ _ deleted. record {
              current = current;
              read = read;
              draft = (eq_iff _ _).0 draft;
              deleted = deleted;
            })
            (λ _ _ same. same)
