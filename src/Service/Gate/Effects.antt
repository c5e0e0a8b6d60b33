-- ===== src/Service/Gate/Effects.antt =====
-- What the operations on gates do to the tables.
use gb_516_hydropower_gate_d.Prelude.{ℕ, String, ◌≡◌, refl, ◌∙◌, ◌⊎◌, inl, true, some}
use gb_516_hydropower_gate_d.Exec.{After, bind-After, After-map, require-After}
use gb_516_hydropower_gate_d.Text.{Unicode, trim_space, equal_fold}
use gb_516_hydropower_gate_d.Constants.Edges.{GateEdge, can_transition-GateEdge}
use gb_516_hydropower_gate_d.Model.{Reservoir, GateUnit}
use gb_516_hydropower_gate_d.Dto.{CreateGateUnit, UpdateGateUnit, TransitionRequest}
use gb_516_hydropower_gate_d.Platform.{Platform, PlatformLaws}
use gb_516_hydropower_gate_d.Platform.Schema.{Tables, reservoir_entity, gate_entity}
use gb_516_hydropower_gate_d.Repository.Store
use gb_516_hydropower_gate_d.Repository.Store.Laws.{
  get-After, get_by_code-After, get_committed-After,
}
use gb_516_hydropower_gate_d.Service.Security.{audit_entry}
use gb_516_hydropower_gate_d.Service.Records.{
  Written, Created, Deleted, create_record-After, update_record-After, delete_record-After,
  transition_with_audit-After,
}
use gb_516_hydropower_gate_d.Service.Records.Rows.{Filled, has_business_fields-Filled}
use gb_516_hydropower_gate_d.Service.Gate.Rows.{
  GateRow, GateEdit, GateMove, new-GateRow, edited-GateEdit, transitioned-GateMove,
}
use gb_516_hydropower_gate_d.Service.Gate.{
  new_record, edited_record, transitioned, transition_entry, create, update, transition, delete,
}

pub record GateCreated (u : Unicode) (input : CreateGateUnit) (actor request_id : String)
    (x : GateUnit) (v v' : Tables) : Type 0 where
  pub reservoir : Reservoir
  pub linked : v.reservoirs reservoir.id ≡ some reservoir
  pub code : reservoir.code ≡ Store.normal_code u input.related_code
  pub same_facility : equal_fold u (trim_space input.facility) reservoir.facility ≡ true
  pub fields : Filled input.code input.name input.facility input.owner
  pub created :
      Created gate_entity "GateUnit" "created 闸门" actor request_id (new_record u input) x v v'
  pub row : GateRow u input x v'

pub record GateEdited (u : Unicode) (id : ℕ) (input : UpdateGateUnit) (actor request_id : String)
    (v v' : Tables) : Type 0 where
  pub current : GateUnit
  pub now : ℕ
  pub found : v.gates id ≡ some current
  pub fields : Filled current.code input.name input.facility input.owner
  pub reservoir : Reservoir
  pub linked : v.reservoirs reservoir.id ≡ some reservoir
  pub code : reservoir.code ≡ Store.normal_code u current.related_code
  pub same_reservoir : equal_fold u (trim_space input.related_code) current.related_code ≡ true
  pub same_facility : equal_fold u (trim_space input.facility) reservoir.facility ≡ true
  pub written :
      Written gate_entity id input.expected_version
        (edited_record current reservoir.code input now)
        (audit_entry actor request_id "update" "GateUnit" id current.status current.status
          "updated business fields")
        v
        v'
  pub edit : GateEdit u id current input reservoir.code v'

pub record GateTransitioned (id : ℕ) (input : TransitionRequest) (actor request_id : String)
    (v v' : Tables) : Type 0 where
  pub current : GateUnit
  pub now : ℕ
  pub stamp : ℕ
  pub found : v.gates id ≡ some current
  pub edge : GateEdge current.status (trim_space input.status)
  pub written :
      Written gate_entity id input.expected_version
        (transitioned current (trim_space input.status) input.expected_version now)
        (λ _.
          transition_entry id current.status
            (trim_space input.status)
            actor
            request_id
            input.reason
            stamp)
        v
        v'
  pub move : GateMove id current input v'

pub record GateDeleted (id : ℕ) (actor request_id : String) (v v' : Tables) : Type 0 where
  pub current : GateUnit
  pub found : v.gates id ≡ some current
  pub deleted :
      Deleted gate_entity id
        (audit_entry actor request_id "delete" "GateUnit" id current.status "deleted"
          "soft deleted 闸门")
        v
        v'

module _ (u : Unicode) (p : Platform) (laws : PlatformLaws p) (v : Tables) (w : p.World)
    (h : p.view w ≡ v) where
  -- On success an open gate of version 1 with the columns of the input has been inserted for an
  -- existing reservoir of the same facility, and its creation is on the trail; the result is the new record. On an error nothing has changed.
  pub create-GateCreated :
      (input : CreateGateUnit) (actor request_id : String)
      → After
          (λ x w'. GateCreated u input actor request_id x v (p.view w'))
          (λ _ w'. p.view w' ≡ v)
          (create u p input actor request_id w)
  unfolding create
  create-GateCreated input actor request_id = require-After _ _ _ _ h λ fields.
      bind-After _ _ _
        (get_by_code-After p reservoir_entity p.reservoirs laws.reservoir_laws v
          {E = λ _ w'. p.view w' ≡ v} (λ _ _ same. same) u input.related_code w h)
        λ reservoir w₁ (linked, code, h₁). require-After _ _ _ _ h₁ λ same_facility.
          After-map _
            (create_record-After p laws gate_entity p.gates laws.gate_laws v
              {E = λ _ w'. p.view w' ≡ v} (λ _ _ same. same) (new_record u input) actor request_id
              "GateUnit" "created 闸门" w₁ refl h₁)
            (λ x w' created. record {
              reservoir = reservoir;
              linked = linked;
              code = code;
              same_facility = same_facility;
              fields = has_business_fields-Filled _ _ _ _ fields;
              created = created;
              row = new-GateRow u input actor request_id x v (p.view w') created;
            })
            (λ _ _ same. same)

  -- On success the gate had the expected version and keeps its state and reservoir, the edited
  -- columns are stored at the next version and the edit is on the trail, and the result is the stored
  -- row. On an error nothing has changed, or,
  -- if only the last read failed, all has.
  pub update-GateEdited :
      (id : ℕ) (input : UpdateGateUnit) (actor request_id : String)
      → After
          (λ x w'.
            GateEdited u id input actor request_id v (p.view w') × ((p.view w').gates id ≡ some x))
          (λ _ w'. (p.view w' ≡ v) ⊎ GateEdited u id input actor request_id v (p.view w'))
          (update u p id input actor request_id w)
  unfolding update edited_record
  update-GateEdited id input actor request_id =
      bind-After _ _ _ (get-After p gate_entity p.gates laws.gate_laws v (λ _ _. inl) id w h)
        λ current w₁ (found, _, h₁). require-After _ _ _ _ (inl h₁) λ fields.
          require-After _ _ _ _ (inl h₁) λ same_reservoir.
            bind-After _ _ _
              (get_by_code-After p reservoir_entity p.reservoirs laws.reservoir_laws v (λ _ _. inl)
                u current.related_code w₁ h₁)
              λ reservoir w₀ (linked, code, h₀). require-After _ _ _ _ (inl h₀) λ same_facility.
                bind-After _ _ _
                  (After-map _ (laws.now_law w₀) (λ _ _ q. q ∙ h₀) (λ _ _ q. inl (q ∙ h₀)))
                  λ now w₂ h₂.
                    bind-After _ _ _
                      (update_record-After p laws gate_entity p.gates laws.gate_laws v (λ _ _. inl)
                        id input.expected_version (edited_record current reservoir.code input now)
                        actor request_id "update" "GateUnit" id current.status current.status
                        "updated business fields" w₂ refl h₂)
                      λ _ w₃ written.
                        get_committed-After p gate_entity p.gates laws.gate_laws v
                          (GateEdited u id input actor request_id v) id w₃
                          (record {
                            current = current;
                            now = now;
                            found = found;
                            fields = has_business_fields-Filled _ _ _ _ fields;
                            reservoir = reservoir;
                            linked = linked;
                            code = code;
                            same_reservoir = same_reservoir;
                            same_facility = same_facility;
                            written = written;
                            edit =
                                edited-GateEdit u id current input reservoir.code now _ v
                                  (p.view w₃) found written;
                          })

  -- On success the gate had the expected version and has moved along an edge of its graph to the next
  -- version, its other columns kept, the move is on the trail, and the result is the stored row. On an error nothing has changed, or, if only the
  -- last read failed, all has.
  pub transition-GateTransitioned :
      (id : ℕ) (input : TransitionRequest) (actor request_id : String)
      → After
          (λ x w'.
            GateTransitioned id input actor request_id v (p.view w')
            × ((p.view w').gates id ≡ some x))
          (λ _ w'. (p.view w' ≡ v) ⊎ GateTransitioned id input actor request_id v (p.view w'))
          (transition u p id input actor request_id w)
  unfolding transition
  transition-GateTransitioned id input actor request_id =
      bind-After _ _ _ (get-After p gate_entity p.gates laws.gate_laws v (λ _ _. inl) id w h)
        λ current w₁ (found, _, h₁). require-After _ _ _ _ (inl h₁) λ edge.
          bind-After _ _ _ (After-map _ (laws.now_law w₁) (λ _ _ q. q ∙ h₁) (λ _ _ q. inl (q ∙ h₁)))
            λ now w₂ h₂.
              bind-After _ _ _
                (After-map _ (laws.now_law w₂) (λ _ _ q. q ∙ h₂) (λ _ _ q. inl (q ∙ h₂)))
                λ stamp w₃ h₃.
                  bind-After _ _ _
                    (transition_with_audit-After p laws gate_entity p.gates laws.gate_laws v
                      (λ _ _. inl) id input.expected_version _ _ w₃ h₃)
                    λ _ w₄ written.
                      get_committed-After p gate_entity p.gates laws.gate_laws v
                        (GateTransitioned id input actor request_id v) id w₄
                        (record {
                          current = current;
                          now = now;
                          stamp = stamp;
                          found = found;
                          edge = can_transition-GateEdge _ _ edge;
                          written = written;
                          move =
                              transitioned-GateMove id current input now _ v (p.view w₄) found
                                written;
                        })

  -- On success a live gate is hidden, and the deletion is on the trail. On an error nothing has
  -- changed.
  pub delete-GateDeleted :
      (id : ℕ) (actor request_id : String)
      → After
          (λ _ w'. GateDeleted id actor request_id v (p.view w'))
          (λ _ w'. p.view w' ≡ v)
          (delete u p id actor request_id w)
  unfolding delete
  delete-GateDeleted id actor request_id =
      bind-After _ _ _
        (get-After p gate_entity p.gates laws.gate_laws v {E = λ _ w'. p.view w' ≡ v}
          (λ _ _ same. same) id w h)
        λ current w₁ (found, _, h₁).
          After-map _
            (delete_record-After p laws gate_entity p.gates laws.gate_laws v
              {E = λ _ w'. p.view w' ≡ v} (λ _ _ same. same) id actor request_id "GateUnit"
              current.status "soft deleted 闸门" w₁ refl h₁)
            (λ _ _ deleted. record { current = current; found = found; deleted = deleted })
            (λ _ _ same. same)
