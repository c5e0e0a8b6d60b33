-- ===== src/Service/Directive/Rows.antt =====
-- backend/internal/service/operation_directive.go: a directive, its approvals and its gate after a
-- transition, column by column.
use gb_516_hydropower_gate_d.Prelude.{ℕ, String, ◌≡◌, ◌≢◌, ◌⊎◌, List, ◌∷◌, some}
use gb_516_hydropower_gate_d.Constants.Edges.{GateEdge}
use gb_516_hydropower_gate_d.Text.{Unicode, trim_space}
use gb_516_hydropower_gate_d.Model.{OperationDirective, GateUnit, DirectiveApproval}
use gb_516_hydropower_gate_d.Dto.{TransitionRequest}
use gb_516_hydropower_gate_d.Platform.Schema.{Tables, Rows}
use gb_516_hydropower_gate_d.Repository.Store.{normal_code}
use gb_516_hydropower_gate_d.Service.Records.Rows.{BaseMoved, directive_business, gate_business}

-- The row: it had the expected version and has the next; who submits and who approves is on it.
pub record DirectiveMove (id : ℕ) (current : OperationDirective) (input : TransitionRequest)
    (actor : String) (rows : Rows OperationDirective) : Type 0 where
  pub row : OperationDirective
  pub stored_row : rows id ≡ some row
  pub held : current.version ≡ input.expected_version
  pub base_moved : BaseMoved current.base (trim_space input.status) row.base
  pub business_kept : directive_business row ≡ directive_business current
  pub gate_state_kept : row.gate_state ≡ current.gate_state
  pub submits :
      trim_space input.status ≡ "pending"
      → (row.submitted_by ≡ actor) × ((time : ℕ) × (row.submitted_at ≡ some time))
  pub submitter_kept :
      trim_space input.status ≢ "pending"
      → (row.submitted_by ≡ current.submitted_by) × (row.submitted_at ≡ current.submitted_at)
  pub approves :
      trim_space input.status ≡ "approved"
      → (row.approved_by ≡ actor) × ((time : ℕ) × (row.approved_at ≡ some time))
  pub approver_kept :
      trim_space input.status ≢ "approved"
      → (row.approved_by ≡ current.approved_by) × (row.approved_at ≡ current.approved_at)

-- One more approval record, of this stage, move and person.
pub record Evidence (id : ℕ) (stage before target actor role request_id reason : String)
    (approvals approvals' : List DirectiveApproval) : Type 0 where
  pub approval : DirectiveApproval
  pub appended : approvals' ≡ approval ∷ approvals
  pub directive_eq : approval.directive_id ≡ id
  pub stage_eq : approval.stage ≡ stage
  pub actor_eq : approval.actor ≡ actor
  pub role_eq : approval.role ≡ role
  pub request_eq : approval.request_id ≡ request_id
  pub reason_eq : approval.reason ≡ trim_space reason
  pub from_eq : approval.from_state ≡ before
  pub to_eq : approval.to_state ≡ target

-- A submission and an approval are recorded; no other move is.
pub record ApprovalsAfter (id : ℕ) (before target actor role request_id reason : String)
    (approvals approvals' : List DirectiveApproval) : Type 0 where
  pub submission :
      target ≡ "pending"
      → Evidence id "submitted" before target actor role request_id reason approvals approvals'
  pub decision :
      target ≡ "approved"
      → Evidence id "approved" before target actor role request_id reason approvals approvals'
  pub other : target ≢ "pending" → target ≢ "approved" → approvals' ≡ approvals

-- The linked gate: a directive is not begun on a locked one; it sets a gate moving that is not yet
-- in the state that it asks for; its abortion locks the gate.
pub record GateAfter (u : Unicode) (current : OperationDirective) (target : String) (v v' : Tables)
    : Type 0 where
  pub gate : GateUnit
  pub found : v.gates gate.id ≡ some gate
  pub code : gate.code ≡ normal_code u current.related_code
  pub after : GateUnit
  pub row : v'.gates gate.id ≡ some after
  pub unlocked : target ≡ "executing" → gate.status ≢ "locked"
  pub stays : target ≡ "executing" → gate.status ≡ current.gate_state → after.status ≡ gate.status
  pub moves : target ≡ "executing" → gate.status ≢ current.gate_state → after.status ≡ "moving"
  pub locks : target ≡ "aborted" → after.status ≡ "locked"
  pub gate_edge : (after.status ≡ gate.status) ⊎ GateEdge gate.status after.status
  pub kept : gate_business after ≡ gate_business gate

-- The gate follows the beginning of a directive, and the abortion of one that had begun; any other
-- move leaves the gates alone.
abbrev pub GateFollows : Unicode → OperationDirective → String → Tables → Tables → Type 0
GateFollows u current target v v' =
    ((target ≡ "executing") ⊎ (current.status ≡ "executing") × (target ≡ "aborted"))
      × GateAfter u current target v v'
    ⊎ (target ≢ "executing")
      × (current.status ≡ "executing" → target ≢ "aborted")
      × (v'.gates ≡ v.gates)

-- Who may ask for which move.
abbrev pub RoleFor : String → String → Type 0
RoleFor target role =
    (target ≡ "pending") × ((role ≡ "operator") ⊎ (role ≡ "admin"))
    ⊎ (target ≡ "approved") × ((role ≡ "reviewer") ⊎ (role ≡ "admin"))
    ⊎ (target ≡ "executing") × ((role ≡ "operator") ⊎ (role ≡ "admin"))
    ⊎ (target ≡ "aborted") × ((role ≡ "operator") ⊎ (role ≡ "reviewer") ⊎ (role ≡ "admin"))
