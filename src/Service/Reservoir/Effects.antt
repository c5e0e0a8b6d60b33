-- ===== src/Service/Reservoir/Effects.antt =====
-- What the operations on reservoirs do to the tables.
use gb_516_hydropower_gate_d.Prelude.{ℕ, String, ◌≡◌, refl, ◌∙◌, ◌⊎◌, inl, some}
use gb_516_hydropower_gate_d.Exec.{After, bind-After, After-map, require-After}
use gb_516_hydropower_gate_d.Text.{Unicode, trim_space}
use gb_516_hydropower_gate_d.Constants.Edges.{ReservoirEdge, can_transition-ReservoirEdge}
use gb_516_hydropower_gate_d.Model.{Reservoir}
use gb_516_hydropower_gate_d.Dto.{CreateReservoir, UpdateReservoir, TransitionRequest}
use gb_516_hydropower_gate_d.Platform.{Platform, PlatformLaws}
use gb_516_hydropower_gate_d.Platform.Schema.{Tables, reservoir_entity}
use gb_516_hydropower_gate_d.Repository.Store.Laws.{get-After, get_committed-After}
use gb_516_hydropower_gate_d.Service.Security.{audit_entry}
use gb_516_hydropower_gate_d.Service.Records.{
  Written, Created, Deleted, create_record-After, update_record-After, delete_record-After,
  transition_with_audit-After,
}
use gb_516_hydropower_gate_d.Service.Records.Rows.{Filled, has_business_fields-Filled}
use gb_516_hydropower_gate_d.Service.Reservoir.Rows.{
  ReservoirRow, ReservoirEdit, ReservoirMove, new-ReservoirRow, edited-ReservoirEdit,
  transitioned-ReservoirMove,
}
use gb_516_hydropower_gate_d.Service.Reservoir.{
  new_record, edited_record, transitioned, transition_entry, create, update, transition, delete,
}

pub record ReservoirCreated (u : Unicode) (input : CreateReservoir) (actor request_id : String)
    (x : Reservoir) (v v' : Tables) : Type 0 where
  pub fields : Filled input.code input.name input.facility input.owner
  pub created :
      Created reservoir_entity "Reservoir" "created 库区" actor request_id (new_record u input) x v v'
  pub row : ReservoirRow u input x v'

pub record ReservoirEdited (u : Unicode) (id : ℕ) (input : UpdateReservoir)
    (actor request_id : String) (v v' : Tables) : Type 0 where
  pub current : Reservoir
  pub now : ℕ
  pub found : v.reservoirs id ≡ some current
  pub fields : Filled current.code input.name input.facility input.owner
  pub written :
      Written reservoir_entity id input.expected_version
        (edited_record u current input now)
        (audit_entry actor request_id "update" "Reservoir" id current.status current.status
          "updated business fields")
        v
        v'
  pub edit : ReservoirEdit u id current input v'

pub record ReservoirTransitioned (id : ℕ) (input : TransitionRequest) (actor request_id : String)
    (v v' : Tables) : Type 0 where
  pub current : Reservoir
  pub now : ℕ
  pub stamp : ℕ
  pub found : v.reservoirs id ≡ some current
  pub edge : ReservoirEdge current.status (trim_space input.status)
  pub written :
      Written reservoir_entity id input.expected_version
        (transitioned current (trim_space input.status) input.expected_version now)
        (λ _.
          transition_entry id current.status
            (trim_space input.status)
            actor
            request_id
            input.reason
            stamp)
        v
        v'
  pub move : ReservoirMove id current input v'

pub record ReservoirDeleted (id : ℕ) (actor request_id : String) (v v' : Tables) : Type 0 where
  pub current : Reservoir
  pub found : v.reservoirs id ≡ some current
  pub deleted :
      Deleted reservoir_entity id
        (audit_entry actor request_id "delete" "Reservoir" id current.status "deleted"
          "soft deleted 库区")
        v
        v'

module _ (u : Unicode) (p : Platform) (laws : PlatformLaws p) (v : Tables) (w : p.World)
    (h : p.view w ≡ v) where
  -- On success a normal reservoir of version 1 with the columns of the input has been inserted, and its creation is on the trail; the result is
  -- the new record. On an error nothing has changed.
  pub create-ReservoirCreated :
      (input : CreateReservoir) (actor request_id : String)
      → After
          (λ x w'. ReservoirCreated u input actor request_id x v (p.view w'))
          (λ _ w'. p.view w' ≡ v)
          (create u p input actor request_id w)
  unfolding create
  create-ReservoirCreated input actor request_id = require-After _ _ _ _ h λ fields.
      After-map _
        (create_record-After p laws reservoir_entity p.reservoirs laws.reservoir_laws v
          {E = λ _ w'. p.view w' ≡ v} (λ _ _ same. same) (new_record u input) actor request_id
          "Reservoir" "created 库区" w refl h)
        (λ x w' created. record {
          fields = has_business_fields-Filled _ _ _ _ fields;
          created = created;
          row = new-ReservoirRow u input actor request_id x v (p.view w') created;
        })
        (λ _ _ same. same)

  -- On success the reservoir had the expected version and keeps its state, the edited columns are
  -- stored at the next version and the edit is on the trail, and the result is the stored row. On an error nothing has changed, or, if only the
  -- last read failed, all has.
  pub update-ReservoirEdited :
      (id : ℕ) (input : UpdateReservoir) (actor request_id : String)
      → After
          (λ x w'.
            ReservoirEdited u id input actor request_id v (p.view w')
            × ((p.view w').reservoirs id ≡ some x))
          (λ _ w'. (p.view w' ≡ v) ⊎ ReservoirEdited u id input actor request_id v (p.view w'))
          (update u p id input actor request_id w)
  unfolding update edited_record
  update-ReservoirEdited id input actor request_id =
      bind-After _ _ _
        (get-After p reservoir_entity p.reservoirs laws.reservoir_laws v (λ _ _. inl) id w h)
        λ current w₁ (found, _, h₁). require-After _ _ _ _ (inl h₁) λ fields.
          bind-After _ _ _ (After-map _ (laws.now_law w₁) (λ _ _ q. q ∙ h₁) (λ _ _ q. inl (q ∙ h₁)))
            λ now w₂ h₂.
              bind-After _ _ _
                (update_record-After p laws reservoir_entity p.reservoirs laws.reservoir_laws v
                  (λ _ _. inl) id input.expected_version (edited_record u current input now) actor
                  request_id "update" "Reservoir" id current.status current.status
                  "updated business fields" w₂ refl h₂)
                λ _ w₃ written.
                  get_committed-After p reservoir_entity p.reservoirs laws.reservoir_laws v
                    (ReservoirEdited u id input actor request_id v) id w₃
                    (record {
                      current = current;
                      now = now;
                      found = found;
                      fields = has_business_fields-Filled _ _ _ _ fields;
                      written = written;
                      edit =
                          edited-ReservoirEdit u id current input now _ v (p.view w₃) found written;
                    })

  -- On success the reservoir had the expected version and has moved along an edge of its graph to the
  -- next version, its other columns kept, the move is on the trail, and the result is the stored row. On an error nothing has changed, or, if
  -- only the last read failed, all has.
  pub transition-ReservoirTransitioned :
      (id : ℕ) (input : TransitionRequest) (actor request_id : String)
      → After
          (λ x w'.
            ReservoirTransitioned id input actor request_id v (p.view w')
            × ((p.view w').reservoirs id ≡ some x))
          (λ _ w'. (p.view w' ≡ v) ⊎ ReservoirTransitioned id input actor request_id v (p.view w'))
          (transition u p id input actor request_id w)
  unfolding transition
  transition-ReservoirTransitioned id input actor request_id =
      bind-After _ _ _
        (get-After p reservoir_entity p.reservoirs laws.reservoir_laws v (λ _ _. inl) id w h)
        λ current w₁ (found, _, h₁). require-After _ _ _ _ (inl h₁) λ edge.
          bind-After _ _ _ (After-map _ (laws.now_law w₁) (λ _ _ q. q ∙ h₁) (λ _ _ q. inl (q ∙ h₁)))
            λ now w₂ h₂.
              bind-After _ _ _
                (After-map _ (laws.now_law w₂) (λ _ _ q. q ∙ h₂) (λ _ _ q. inl (q ∙ h₂)))
                λ stamp w₃ h₃.
                  bind-After _ _ _
                    (transition_with_audit-After p laws reservoir_entity p.reservoirs
                      laws.reservoir_laws v (λ _ _. inl) id input.expected_version _ _ w₃ h₃)
                    λ _ w₄ written.
                      get_committed-After p reservoir_entity p.reservoirs laws.reservoir_laws v
                        (ReservoirTransitioned id input actor request_id v) id w₄
                        (record {
                          current = current;
                          now = now;
                          stamp = stamp;
                          found = found;
                          edge = can_transition-ReservoirEdge _ _ edge;
                          written = written;
                          move =
                              transitioned-ReservoirMove id current input now _ v (p.view w₄) found
                                written;
                        })

  -- On success a live reservoir is hidden, and the deletion is on the trail. On an error nothing has
  -- changed.
  pub delete-ReservoirDeleted :
      (id : ℕ) (actor request_id : String)
      → After
          (λ _ w'. ReservoirDeleted id actor request_id v (p.view w'))
          (λ _ w'. p.view w' ≡ v)
          (delete u p id actor request_id w)
  unfolding delete
  delete-ReservoirDeleted id actor request_id =
      bind-After _ _ _
        (get-After p reservoir_entity p.reservoirs laws.reservoir_laws v {E = λ _ w'. p.view w' ≡ v}
          (λ _ _ same. same) id w h)
        λ current w₁ (found, _, h₁).
          After-map _
            (delete_record-After p laws reservoir_entity p.reservoirs laws.reservoir_laws v
              {E = λ _ w'. p.view w' ≡ v} (λ _ _ same. same) id actor request_id "Reservoir"
              current.status "soft deleted 库区" w₁ refl h₁)
            (λ _ _ deleted. record { current = current; found = found; deleted = deleted })
            (λ _ _ same. same)
